-- ===== src/Events/Again.antt =====
-- A timer that sets itself again with no delay.
use cpp_template.Base.{
  ℕ, suc, zero, ◌+◌, ◌≤◌, false, none, some, List, [], ◌∷◌, ◌++◌, ◌≡◌, refl, sym, ◌∙◌, ap, subst,
  arith, length, if_true, not,
}
use cpp_template.Events.{
  EventLoop, TimerEntry, Request, to_post_after, grant_all, invoke, drain, fire, run_once, bump,
  before, take_due, post_after,
}
use cpp_template.Events.Steps.{fire_step, with_timers}

ltb_ge : (m n : ℕ) → n ≤ m → before m n ≡ false
ltb_ge m n h = ground arith

module _ {Callback : Type 0} (requests : List Callback → Callback → List (Request Callback))
    (cb : Callback) (again : (h : List Callback) → requests h cb ≡ to_post_after 0 cb ∷ []) where
  abbrev alone : ℕ → TimerEntry Callback
  alone due = record { due = due; cb = cb }

  -- The loop holds the one timer, which is due.
  record Armed (now : ℕ) (l : EventLoop Callback) : Type 0 where
    due : ℕ
    timers_eq : l.timers ≡ alone due ∷ []
    due_le : due ≤ now
    clock_eq : l.clock ≡ now

  taken_alone : (now due : ℕ) → due ≤ now → take_due now (alone due ∷ []) ≡ some (alone due, [])
  unfolding take_due
  taken_alone now due h = if_true _ _ (ap not (ltb_ge now due h))

  invoke-Armed :
      (now : ℕ) (l : EventLoop Callback)
      → l.clock ≡ now
      → Armed now (invoke requests cb (with_timers requests l []))
  unfolding invoke grant_all post_after
  invoke-Armed now l c =
      subst
        (λ rs.
          Armed now
            (grant_all requests rs (record l { timers = []; invoked = l.invoked ++ cb ∷ [] })))
        (sym (again l.invoked))
        (record { due = l.clock + 0; timers_eq = refl; due_le = omega (arith, c); clock_eq = c })

  fire-Armed :
      (f now ran : ℕ) (l : EventLoop Callback) → Armed now l → fire requests f now l ran ≡ none
  fire-Armed zero now ran l a = unfold fire in refl
  fire-Armed (suc f) now ran l a =
      fire_step requests f now l ran
        (ap (take_due now) a.timers_eq ∙ taken_alone now a.due a.due_le)
      ∙ fire-Armed f now (bump ran) _ (invoke-Armed now l a.clock_eq)

  -- A timer whose callback sets it again with no delay keeps `RunOnce` from ever returning: once
  -- it is due and alone in the loop, no number of rounds of the second loop is enough.
  pub run_once_again :
      (f : ℕ) (l : EventLoop Callback) (due : ℕ)
      → l.immediate ≡ []
      → l.timers ≡ record { due = due; cb = cb } ∷ []
      → due ≤ l.clock
      → run_once requests f l ≡ none
  unfolding run_once drain
  run_once_again f l due queue timers h =
      ap (λ n. let (ran, l') = drain requests n l 0 in fire requests f l'.clock l' ran)
        (ap length queue)
      ∙ fire-Armed f l.clock 0 l
          (record { due = due; timers_eq = timers; due_le = h; clock_eq = refl })
