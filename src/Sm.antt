-- ===== src/Sm.antt =====
-- include/etlx/sm/update_fsm.hpp and src/sm/update_fsm.cpp: the update workflow.
-- The dispatcher `etl::fsm` is a parameter, `Engine`; the state classes' handlers are `on_event`.
pub mod Order
pub mod Plain
mod Tests
use cpp_template.Base.{ℕ, Option, none, some, List, [], ◌∷◌, ◌≡◌, ◌==◌, if◌then◌else◌, Bytes, codes}

pub data StateId : Type 0 where
  idle download verify install await_commit done failed : StateId

pub data Message : Type 0 where
  start next commit rollback abort : Message

-- The numbers of `enum StateId`.
unfoldable pub state_number : StateId → ℕ
state_number idle = 0
state_number download = 1
state_number verify = 2
state_number install = 3
state_number await_commit = 4
state_number done = 5
state_number failed = 6

-- `StateName`
unfoldable pub state_name : ℕ → Bytes
state_name n =
    if n == 0
    then codes "Idle"
    else if n == 1
    then codes "Download"
    else if n == 2
    then codes "Verify"
    else if n == 3
    then codes "Install"
    else if n == 4
    then codes "AwaitCommit"
    else if n == 5
    then codes "Done"
    else if n == 6
    then codes "Failed"
    else codes "Unknown"

-- The `on_event` members; `none` is `No_State_Change`, the answer of each `on_event_unknown`.
unfoldable pub on_event : StateId → Message → Option StateId
on_event idle start = some download
on_event download next = some verify
on_event download abort = some failed
on_event verify next = some install
on_event verify abort = some failed
on_event install next = some await_commit
on_event install abort = some failed
on_event await_commit commit = some done
on_event await_commit rollback = some failed
on_event await_commit abort = some failed
on_event _ _ = none

-- What the code relies on of `etl::fsm`: `start` enters the first registered state, and `receive`
-- asks the current state's handler, and stays or moves by its answer.
pub record Engine : Type 1 where
  pub Machine : Type 0
  pub start_in : StateId → List StateId → Machine
  pub receive : Machine → Message → Machine
  pub get_state_id : Machine → StateId
  pub start_first : (s : StateId) (rest : List StateId) → get_state_id (start_in s rest) ≡ s
  pub receive_stay :
      (m : Machine) (e : Message)
      → on_event (get_state_id m) e ≡ none
      → get_state_id (receive m e) ≡ get_state_id m
  pub receive_move :
      (m : Machine) (e : Message) (t : StateId)
      → on_event (get_state_id m) e ≡ some t
      → get_state_id (receive m e) ≡ t

module _ (engine : Engine) where
  open engine use {Machine, start_in, receive, get_state_id}

  -- The constructor of `UpdateFsm`.
  unfoldable pub update_fsm : Machine
  update_fsm = start_in idle (download ∷ verify ∷ install ∷ await_commit ∷ done ∷ failed ∷ [])

  -- A convenience wrapper: `receive` and then the resulting state.
  unfoldable pub call : Machine → Message → StateId × Machine
  call m e = (get_state_id (receive m e), receive m e)

  -- The calls of a client, in order.
  unfoldable pub run : Machine → List Message → Machine
  unfolding call
  run m [] = m
  run m (e ∷ es) = run (call m e).1 es

-- The workflow diagram at the top of the header, as a relation.
pub data Step : StateId → Message → StateId → Type 0 where
  begin : Step idle start download
  fetched : Step download next verify
  verified : Step verify next install
  installed : Step install next await_commit
  committed : Step await_commit commit done
  rolled_back : Step await_commit rollback failed
  aborted_download : Step download abort failed
  aborted_verify : Step verify abort failed
  aborted_install : Step install abort failed
  aborted_await : Step await_commit abort failed
