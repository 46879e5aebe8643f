-- ===== src/Events/Bounds.antt =====
-- The queue and the timer table stay within their capacities.
use cpp_template.Base.{
  some_injective, ℕ, zero, suc, ◌==◌, ◌≤◌, Option, none, some, List, [], ◌∷◌, ◌++◌, ◌≡◌, length,
  length-append, sym, ◌∙◌, subst, arith, if_intro, inl, inr, list_cases, Bool-cases, Option-cases,
  none_ne_some, ap, ◌≢◌,
}
use cpp_template.Core.{Status}
use cpp_template.Events.Due.{take_due-cases, Splits-length}
use cpp_template.Events.Steps.{
  run_loop_stopped, run_loop_round, run_loop_stuck, drain_end, drain_step, fire_end, fire_step,
  without_front, with_timers,
}
use cpp_template.Events.{
  new_loop, started, after_round, EventLoop, TimerEntry, Request, to_post, to_post_after, to_stop,
  to_advance, post, post_after, queue_depth, max_timers, grant, grant_all, invoke, drain, fire,
  run_once, run_loop, run, later_by, halted,
}

fits_one_more {ℓ} :
    {A : Type ℓ} (xs : List A) (x : A) (n : ℕ)
    → length xs ≤ n
    → length xs ≢ n
    → length (xs ++ x ∷ []) ≤ n
fits_one_more xs x n h ne = omega (arith, length-append xs (x ∷ []))

module _ {Callback : Type 0} where
  abbrev pub with_immediate : EventLoop Callback → Callback → EventLoop Callback
  with_immediate l cb = record l { immediate = l.immediate ++ cb ∷ [] }

  abbrev pub with_timer : EventLoop Callback → ℕ → Callback → EventLoop Callback
  with_timer l d cb = record l {
    timers = l.timers ++ record { due = later_by l.clock d; cb = cb } ∷ [];
  }

  -- The loop after `Post` is the loop before it, or it has room and holds the callback.
  pub post_elim {ℓ} :
      (P : EventLoop Callback → Type ℓ) (cb : Callback) (l : EventLoop Callback)
      → P l
      → (length l.immediate ≢ queue_depth → P (with_immediate l cb))
      → P (post cb l).1
  unfolding post
  post_elim P cb l full room =
      if_intro {A = Status × EventLoop Callback} (λ p. P p.1) (length l.immediate == queue_depth)
        (λ h. full) (λ h. room (λ e. ground arith))

  pub post_after_elim {ℓ} :
      (P : EventLoop Callback → Type ℓ) (d : ℕ) (cb : Callback) (l : EventLoop Callback)
      → P l
      → (length l.timers ≢ max_timers → P (with_timer l d cb))
      → P (post_after d cb l).1
  unfolding post_after
  post_after_elim P d cb l full room =
      if_intro {A = Status × EventLoop Callback} (λ p. P p.1) (length l.timers == max_timers)
        (λ h. full) (λ h. room (λ e. ground arith))

  pub record Bounded (l : EventLoop Callback) : Type 0 where
    pub queue_fits : length l.immediate ≤ queue_depth
    pub table_fits : length l.timers ≤ max_timers

  module _ (requests : List Callback → Callback → List (Request Callback)) where
    grant-Bounded :
        (r : Request Callback) (l : EventLoop Callback) → Bounded l → Bounded (grant requests r l)
    grant-Bounded (to_post cb) l b = post_elim Bounded cb l b (λ ne. record {
      queue_fits = fits_one_more l.immediate cb queue_depth b.queue_fits ne;
      table_fits = b.table_fits;
    })
    grant-Bounded (to_post_after d cb) l b = post_after_elim Bounded d cb l b (λ ne. record {
      queue_fits = b.queue_fits;
      table_fits = fits_one_more l.timers _ max_timers b.table_fits ne;
    })
    grant-Bounded to_stop l b = record { queue_fits = b.queue_fits; table_fits = b.table_fits }
    grant-Bounded (to_advance d) l b = record {
      queue_fits = b.queue_fits;
      table_fits = b.table_fits;
    }

    grant_all-Bounded :
        (rs : List (Request Callback)) (l : EventLoop Callback)
        → Bounded l
        → Bounded (grant_all requests rs l)
    unfolding grant_all
    grant_all-Bounded [] l b = b
    grant_all-Bounded (r ∷ rs) l b = grant_all-Bounded rs (grant requests r l) (grant-Bounded r l b)

    pub invoke-Bounded :
        (cb : Callback) (l : EventLoop Callback) → Bounded l → Bounded (invoke requests cb l)
    unfolding invoke
    invoke-Bounded cb l b =
        grant_all-Bounded _ _ (record { queue_fits = b.queue_fits; table_fits = b.table_fits })

    pub drain-Bounded :
        (n : ℕ) (l : EventLoop Callback) (ran : ℕ) → Bounded l → Bounded (drain requests n l ran).1
    unfolding drain
    drain-Bounded zero l ran b = b
    drain-Bounded (suc n) l ran b = elim (list_cases l.immediate) [
      | inl h ↦ subst Bounded (sym (ap (λ p. p.1) (drain_end requests n l ran h))) b
      | inr (cb, cbs, h) ↦
          subst (λ (p : ℕ × EventLoop Callback). Bounded p.1) (sym (drain_step requests n l ran h))
            (drain-Bounded n _ _ (
              invoke-Bounded cb (without_front requests l cbs) (record {
                queue_fits = omega (arith, subst (λ q. length q ≤ queue_depth) h b.queue_fits);
                table_fits = b.table_fits;
              })))
    ]

    pub fire-Bounded :
        (f now : ℕ) (l : EventLoop Callback) (ran : ℕ) {r : ℕ × EventLoop Callback}
        → Bounded l
        → fire requests f now l ran ≡ some r
        → Bounded r.1
    unfolding fire
    fire-Bounded zero now l ran b h = cc
    fire-Bounded (suc f) now l ran {r} b h = elim (take_due-cases now l.timers) [
      | inl (no_timer, d) ↦
          subst (λ (p : ℕ × EventLoop Callback). Bounded p.1)
            (some_injective (sym (fire_end requests f now l ran no_timer) ∙ h)) b
      | inr found ↦
          fire-Bounded f now _ _
            (invoke-Bounded found.timer.cb (with_timers requests l found.rest) (record {
              queue_fits = b.queue_fits;
              table_fits = omega (arith, Splits-length found.splits, b.table_fits);
            }))
            (sym (fire_step requests f now l ran found.taken) ∙ h)
    ]

    -- The answer of `RunOnce` and the loop that it leaves within its capacities.
    pub run_once-Bounded :
        (f : ℕ) (l : EventLoop Callback) {r : ℕ × EventLoop Callback}
        → Bounded l
        → run_once requests f l ≡ some r
        → Bounded r.1
    unfolding run_once
    run_once-Bounded f l b h = fire-Bounded f _ _ _ (drain-Bounded (length l.immediate) l 0 b) h

    after_round-Bounded :
        (loop : EventLoop Callback → Option (EventLoop Callback))
        → ((l r : EventLoop Callback) → Bounded l → loop l ≡ some r → Bounded r)
        → (l r : EventLoop Callback) (q : List Callback) (o : Option (ℕ × TimerEntry Callback))
        → Bounded l
        → after_round requests loop l q o ≡ some r
        → Bounded r
    after_round-Bounded loop p l r (cb ∷ cbs) o b h = p l r b h
    after_round-Bounded loop p l r [] none b h = subst Bounded (some_injective h) b
    after_round-Bounded loop p l r [] (some (i, t)) b h =
        p _ r (record { queue_fits = b.queue_fits; table_fits = b.table_fits }) h

    run_loop-Bounded :
        (k f : ℕ) (l r : EventLoop Callback)
        → Bounded l
        → run_loop requests k f l ≡ some r
        → Bounded r
    run_loop-Bounded zero f l r b h = unfold run_loop in cc
    run_loop-Bounded (suc k) f l r b h = elim (Bool-cases l.running) [
      | inl on ↦ elim (Option-cases (run_once requests f l)) [
        | inl stuck ↦ absurd (none_ne_some (sym (run_loop_stuck requests k f l on stuck) ∙ h))
        | inr (n, once) ↦
            after_round-Bounded (run_loop requests k f) (run_loop-Bounded k f) n.1 r _ _
              (run_once-Bounded f l b once) (sym (run_loop_round requests k f l on once) ∙ h)
      ]
      | inr off ↦ subst Bounded (some_injective (sym (run_loop_stopped requests k f l off) ∙ h)) b
    ]

    run-Bounded :
        (k f : ℕ) (l r : EventLoop Callback) → Bounded l → run requests k f l ≡ some r → Bounded r
    unfolding run
    run-Bounded k f l r b h = elim (Option-cases (run_loop requests k f (started requests l))) [
      | inl stuck ↦ absurd (none_ne_some (ap (halted requests) (sym stuck) ∙ h))
      | inr (l', done) ↦
          let b' : Bounded l' =
            run_loop-Bounded k f _ l'
              (record { queue_fits = b.queue_fits; table_fits = b.table_fits }) done in
          subst Bounded (some_injective (ap (halted requests) (sym done) ∙ h))
            (record { queue_fits = b'.queue_fits; table_fits = b'.table_fits })
    ]

    -- The loops that a client can come to hold: from the constructor on, by its own calls and by
    -- those of the callbacks.
    pub data Reachable : EventLoop Callback → Type 0 where
      begun : (now : ℕ) → Reachable (new_loop now)
      asked :
          {l : EventLoop Callback} (r : Request Callback)
          → Reachable l
          → Reachable (grant requests r l)
      once :
          {l l' : EventLoop Callback} (f : ℕ) {ran : ℕ}
          → Reachable l
          → run_once requests f l ≡ some (ran, l')
          → Reachable l'
      whole :
          {l l' : EventLoop Callback} (k f : ℕ)
          → Reachable l
          → run requests k f l ≡ some l'
          → Reachable l'

    -- Whatever calls of `Post`, `PostAfter`, `Stop` and `Advance` its callbacks make, and whatever
    -- calls of these, of `RunOnce` and of `Run` a client makes, the queue of a loop never holds more
    -- than 16 callbacks and the timer table never more than 8.
    pub Reachable-Bounded : {l : EventLoop Callback} → Reachable l → Bounded l
    Reachable-Bounded (begun now) = record { queue_fits = omega arith; table_fits = omega arith }
    Reachable-Bounded (asked {l} r s) = grant-Bounded r l (Reachable-Bounded s)
    Reachable-Bounded (once {l} f s h) = run_once-Bounded f l (Reachable-Bounded s) h
    Reachable-Bounded (whole {l} {l'} k f s h) = run-Bounded k f l l' (Reachable-Bounded s) h
