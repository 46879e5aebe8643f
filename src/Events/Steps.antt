-- ===== src/Events/Steps.antt =====
-- One round of each loop of the event loop, by what it finds.
use cpp_template.Base.{ℕ, suc, true, false, Option, none, some, List, [], ◌∷◌, ◌≡◌, ap, ap₂}
use cpp_template.Events.{
  EventLoop, TimerEntry, Request, take_due, invoke, drain, fire, run_once, earliest_timer, run_loop,
  bump, round, after_round, while_running,
}

module _ {Callback : Type 0} (requests : List Callback → Callback → List (Request Callback)) where
  abbrev pub without_front : EventLoop Callback → List Callback → EventLoop Callback
  without_front l cbs = record l { immediate = cbs }

  abbrev pub with_timers : EventLoop Callback → List (TimerEntry Callback) → EventLoop Callback
  with_timers l ts = record l { timers = ts }

  pub drain_end :
      (n : ℕ) (l : EventLoop Callback) (ran : ℕ)
      → l.immediate ≡ []
      → drain requests (suc n) l ran ≡ (ran, l)
  unfolding drain
  drain_end n l ran h =
      ap
        (λ (q : List Callback). elim q [
          | [] ↦ (ran, l)
          | cb ∷ cbs ↦ drain requests n (invoke requests cb (without_front l cbs)) (bump ran)
        ])
        h

  pub drain_step :
      (n : ℕ) (l : EventLoop Callback) (ran : ℕ) {cb : Callback} {cbs : List Callback}
      → l.immediate ≡ cb ∷ cbs
      → drain requests (suc n) l ran
        ≡ drain requests n (invoke requests cb (without_front l cbs)) (bump ran)
  unfolding drain
  drain_step n l ran h =
      ap
        (λ (q : List Callback). elim q [
          | [] ↦ (ran, l)
          | cb ∷ cbs ↦ drain requests n (invoke requests cb (without_front l cbs)) (bump ran)
        ])
        h

  pub fire_end :
      (f now : ℕ) (l : EventLoop Callback) (ran : ℕ)
      → take_due now l.timers ≡ none
      → fire requests (suc f) now l ran ≡ some (ran, l)
  unfolding fire
  fire_end f now l ran h =
      ap
        (λ (o : Option (TimerEntry Callback × List (TimerEntry Callback))). elim o [
          | none ↦ some (ran, l)
          | some (t, ts) ↦ fire requests f now (invoke requests t.cb (with_timers l ts)) (bump ran)
        ])
        h

  pub fire_step :
      (f now : ℕ) (l : EventLoop Callback) (ran : ℕ) {t : TimerEntry Callback}
      {ts : List (TimerEntry Callback)}
      → take_due now l.timers ≡ some (t, ts)
      → fire requests (suc f) now l ran
        ≡ fire requests f now (invoke requests t.cb (with_timers l ts)) (bump ran)
  unfolding fire
  fire_step f now l ran h =
      ap
        (λ (o : Option (TimerEntry Callback × List (TimerEntry Callback))). elim o [
          | none ↦ some (ran, l)
          | some (t, ts) ↦ fire requests f now (invoke requests t.cb (with_timers l ts)) (bump ran)
        ])
        h

  pub run_loop_stopped :
      (k f : ℕ) (l : EventLoop Callback)
      → l.running ≡ false
      → run_loop requests (suc k) f l ≡ some l
  unfolding run_loop
  run_loop_stopped k f l h =
      ap
        (λ b.
          while_running requests b (round requests (run_loop requests k f) (run_once requests f l))
            (some l))
        h

  pub run_loop_round :
      (k f : ℕ) (l : EventLoop Callback) {ran : ℕ} {l' : EventLoop Callback}
      → l.running ≡ true
      → run_once requests f l ≡ some (ran, l')
      → run_loop requests (suc k) f l
        ≡ after_round requests (run_loop requests k f) l' l'.immediate (earliest_timer l'.timers)
  unfolding run_loop
  run_loop_round k f l h once =
      ap₂ (λ b o. while_running requests b (round requests (run_loop requests k f) o) (some l)) h
        once

  pub run_loop_stuck :
      (k f : ℕ) (l : EventLoop Callback)
      → l.running ≡ true
      → run_once requests f l ≡ none
      → run_loop requests (suc k) f l ≡ none
  unfolding run_loop
  run_loop_stuck k f l h once =
      ap₂ (λ b o. while_running requests b (round requests (run_loop requests k f) o) (some l)) h
        once
