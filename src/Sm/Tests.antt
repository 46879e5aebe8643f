-- ===== src/Sm/Tests.antt =====
-- The workflow over the plain dispatcher.
use mathlib.Core.List.{Sublistᴰ}
use cpp_template.Base.{List, [], ◌∷◌, ◌≡◌, refl, ◌↔◌, inr, codes}
use cpp_template.Sm.{
  verify, install, await_commit, done, failed, Message, start, next, commit, rollback, abort,
  on_event, update_fsm, call, run, state_number, state_name, Step,
}
use cpp_template.Sm.Plain.{plain}
use cpp_template.Sm.Order.{call_iff-Step, run_final, call_abort, abort_state, run_done}

abbrev whole : List Message
whole = start ∷ next ∷ commit ∷ next ∷ next ∷ commit ∷ []

run-whole : run plain (update_fsm plain) whole ≡ done
unfolding run call update_fsm on_event
run-whole = refl

run_ends_failed :
    run plain (update_fsm plain) (start ∷ next ∷ next ∷ next ∷ rollback ∷ commit ∷ []) ≡ failed
unfolding run call update_fsm on_event
run_ends_failed = refl

state_name_runs :
    (state_name (state_number await_commit) ≡ codes "AwaitCommit")
    × (state_name 9 ≡ codes "Unknown")
unfolding state_name state_number
state_name_runs = (refl, refl)

call_iff-Step_example :
    (((call plain install next).0 ≡ await_commit) ↔ Step install next await_commit)
    × ((call plain install next).0 ≡ (call plain install next).1)
call_iff-Step_example = call_iff-Step plain install next await_commit (λ e. cc)

run_final_example : run plain failed whole ≡ failed
run_final_example = run_final plain failed whole (inr refl)

call_abort_example : (call plain verify abort).1 ≡ abort_state verify
call_abort_example = call_abort plain verify

run_done_example : Sublistᴰ (start ∷ next ∷ next ∷ next ∷ commit ∷ []) whole
run_done_example = run_done plain whole run-whole
