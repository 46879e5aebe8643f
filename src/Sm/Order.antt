-- ===== src/Sm/Order.antt =====
-- The legal order of operations, for every dispatcher that meets `Engine`.
use mathlib.Core.List.Sublistᴰ.{slnil, cons, cons-cons}
use mathlib.Core.List.{Sublistᴰ}
use cpp_template.Base.{
  none, some, List, [], ◌∷◌, ◌≡◌, refl, sym, ◌∙◌, subst, ◌≢◌, ◌↔◌, ◌⊎◌, inl, inr, arith,
  Option-cases,
}
use cpp_template.Sm.{
  StateId, idle, download, verify, install, await_commit, done, failed, Message, start, next,
  commit, rollback, abort, on_event, Engine, update_fsm, call, run, Step, begin, fetched, verified,
  installed, committed, rolled_back, aborted_download, aborted_verify, aborted_install,
  aborted_await,
}

ruleset steps = (
  begin, fetched, verified, installed, committed, rolled_back, aborted_download, aborted_verify,
  aborted_install, aborted_await,
)

-- The handlers allow exactly the arrows of the diagram.
on_event-Step : (s : StateId) (e : Message) {t : StateId} → on_event s e ≡ some t → Step s e t
unfolding on_event
on_event-Step idle start h = grind (arith, steps)
on_event-Step _ e h = grind (arith, steps)

Step-on_event : {s : StateId} {e : Message} {t : StateId} → Step s e t → on_event s e ≡ some t
unfolding on_event
Step-on_event begin = refl
Step-on_event _ = refl

Step-ne : {s : StateId} {e : Message} {t : StateId} → Step s e t → t ≢ s
Step-ne begin h = cc
Step-ne _ h = cc

Sublistᴰ-nil : (es : List Message) → Sublistᴰ [] es
Sublistᴰ-nil [] = slnil
Sublistᴰ-nil (e ∷ es) = cons (Sublistᴰ-nil es)

-- Where `Abort` leads.
pub abort_state : StateId → StateId
abort_state idle = idle
abort_state done = done
abort_state _ = failed

-- The state after a call, computed from the state before it.
next_state : StateId → Message → StateId
next_state s e = elim (on_event s e) [ none ↦ s | some t ↦ t ]

next_state-abort : (s : StateId) → next_state s abort ≡ abort_state s
unfolding next_state on_event abort_state
next_state-abort idle = refl
next_state-abort _ = refl

-- What a sequence of messages must hold to lead from a state to `Done`.
abbrev Needs : StateId → List Message → Type 0
Needs idle es = Sublistᴰ (start ∷ next ∷ next ∷ next ∷ commit ∷ []) es
Needs download es = Sublistᴰ (next ∷ next ∷ next ∷ commit ∷ []) es
Needs verify es = Sublistᴰ (next ∷ next ∷ commit ∷ []) es
Needs install es = Sublistᴰ (next ∷ commit ∷ []) es
Needs await_commit es = Sublistᴰ (commit ∷ []) es
Needs done es = Unit
Needs failed es = ⊥

Needs-cons :
    (s : StateId) (e : Message) (es : List Message) → Needs (next_state s e) es → Needs s (e ∷ es)
unfolding next_state on_event
Needs-cons idle start es h = cons-cons refl h
Needs-cons idle _ es h = cons h
Needs-cons download next es h = cons-cons refl h
Needs-cons download abort es h = absurd h
Needs-cons download _ es h = cons h
Needs-cons verify next es h = cons-cons refl h
Needs-cons verify abort es h = absurd h
Needs-cons verify _ es h = cons h
Needs-cons install next es h = cons-cons refl h
Needs-cons install abort es h = absurd h
Needs-cons install _ es h = cons h
Needs-cons await_commit commit es h = cons-cons refl (Sublistᴰ-nil es)
Needs-cons await_commit rollback es h = absurd h
Needs-cons await_commit abort es h = absurd h
Needs-cons await_commit _ es h = cons h
Needs-cons done e es h = tt
Needs-cons failed e es h = h

module _ (engine : Engine) where
  open engine use {Machine, receive, get_state_id, start_first, receive_stay, receive_move}

  -- A call moves the machine to another state exactly along an arrow of the diagram, and where
  -- there is no arrow it stays: the value that the call returns is the state after it.
  pub call_iff-Step :
      (m : Machine) (e : Message) (t : StateId)
      → t ≢ get_state_id m
      → let (s, m') = call engine m e in
        ((s ≡ t) ↔ Step (get_state_id m) e t) × (s ≡ get_state_id m')
  unfolding call
  call_iff-Step m e t ne = ((moves, λ st. receive_move m e t (Step-on_event st)), refl)
    where
      moves : get_state_id (receive m e) ≡ t → Step (get_state_id m) e t
      moves h = elim (Option-cases (on_event (get_state_id m) e)) [
        | inl stay ↦ absurd (ne (sym h ∙ receive_stay m e stay))
        | inr (u, go) ↦
            subst (Step (get_state_id m) e) (sym (receive_move m e u go) ∙ h)
              (on_event-Step (get_state_id m) e go)
      ]

  call-next_state :
      (m : Machine) (e : Message) → get_state_id (call engine m e).1 ≡ next_state (get_state_id m) e
  unfolding call next_state
  call-next_state m e = elim (Option-cases (on_event (get_state_id m) e)) [
    | inl stay ↦ rw (stay, next_state) (receive_stay m e stay)
    | inr (u, go) ↦ rw (go, next_state) (receive_move m e u go)
  ]

  -- `Done` and `Failed` are final: no sequence of calls leaves them.
  pub run_final :
      (m : Machine) (es : List Message)
      → (get_state_id m ≡ done) ⊎ (get_state_id m ≡ failed)
      → get_state_id (run engine m es) ≡ get_state_id m
  unfolding run
  run_final m [] h = refl
  run_final m (e ∷ es) h =
      let st : get_state_id (call engine m e).1 ≡ get_state_id m =
        call-next_state m e ∙ unfold next_state on_event in ground arith in
      run_final (call engine m e).1 es (rw st h) ∙ st

  -- `Abort` fails a workflow that has begun and is not over; before `Start` it is ignored.
  pub call_abort :
      (m : Machine) → get_state_id (call engine m abort).1 ≡ abort_state (get_state_id m)
  call_abort m = call-next_state m abort ∙ next_state-abort (get_state_id m)

  run-Needs :
      (m : Machine) (es : List Message)
      → get_state_id (run engine m es) ≡ done
      → Needs (get_state_id m) es
  unfolding run
  run-Needs m [] h = rw h tt
  run-Needs m (e ∷ es) h =
      Needs-cons (get_state_id m) e es
        (subst (λ s. Needs s es) (call-next_state m e) (run-Needs (call engine m e).1 es h))

  -- A workflow that has reached `Done` was started, stepped three times and committed, in that
  -- order: no sequence of calls commits an update before it has been installed.
  pub run_done :
      (es : List Message)
      → get_state_id (run engine (update_fsm engine) es) ≡ done
      → Sublistᴰ (start ∷ next ∷ next ∷ next ∷ commit ∷ []) es
  unfolding update_fsm
  run_done es h = subst (λ s. Needs s es) (start_first idle _) (run-Needs (update_fsm engine) es h)
