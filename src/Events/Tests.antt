-- ===== src/Events/Tests.antt =====
-- An event loop whose callbacks are numbers.
use cpp_template.Base.{
  ℕ, suc, zero, ◌+◌, [], ◌∷◌, List, Option, none, some, true, false, ◌≡◌, refl, All, arith, length,
}
use cpp_template.Events.{
  EventLoop, TimerEntry, Request, to_post, to_post_after, run_once, run, new_loop, drain,
  earliest_timer, is_idle, post, post_after, grant, fire, take_due, invoke, grant_all,
}
use cpp_template.Events.Due.{due_callbacks}
use cpp_template.Events.Bounds.{Bounded, begun, asked, Reachable-Bounded}
use cpp_template.Events.Grown.{Positive}
use cpp_template.Events.Posted.{Part, posts_from}
use cpp_template.Events.Once.{run_once_lem}
use cpp_template.Events.Earliest.{Best, earliest_timer-Best}
use cpp_template.Events.Weight.{Falls}
use cpp_template.Events.Again.{run_once_again}
use cpp_template.Events.Ends.{run-idle}

-- A callback posts its predecessor at once, and once more for a little later.
abbrev countdown : List ℕ → ℕ → List (Request ℕ)
countdown h zero = []
countdown h (suc n) = to_post n ∷ to_post_after 5 n ∷ []

countdown-Positive : (h : List ℕ) (cb : ℕ) → All Positive (countdown h cb)
countdown-Positive h zero = tt
countdown-Positive h (suc n) = (tt, (omega arith, tt))

abbrev busy : EventLoop ℕ
busy = record {
  immediate = 2 ∷ 0 ∷ [];
  timers =
      record { due = 9; cb = 0 } ∷ record { due = 3; cb = 1 } ∷ record { due = 3; cb = 0 } ∷ [];
  running = false;
  clock = 4;
  invoked = [];
}

abbrev shown : Option (ℕ × EventLoop ℕ) → Option (ℕ × List ℕ × List ℕ)
shown none = none
shown (some (n, l)) = some (n, l.invoked, l.immediate)

-- A round of the loop, evaluated.
once_runs : shown (run_once countdown 9 busy) ≡ some (4, 2 ∷ 0 ∷ 1 ∷ 0 ∷ [], 1 ∷ 0 ∷ [])
unfolding run_once drain fire take_due invoke grant_all post post_after
once_runs = refl

busy-Bounded : Bounded busy
busy-Bounded = record { queue_fits = omega arith; table_fits = omega arith }

run_once_lem_example :
    let l₁ = (drain countdown 2 busy 0).1 in
    let cbs = 2 ∷ 0 ∷ due_callbacks l₁.clock l₁.timers in
    (l₂ : EventLoop ℕ) × (run_once countdown 9 busy ≡ some (length cbs, l₂))
    × (l₂.invoked ≡ cbs)
    × Part l₂.immediate (posts_from countdown [] cbs)
    × (due_callbacks l₁.clock l₂.timers ≡ [])
run_once_lem_example = run_once_lem countdown countdown-Positive 9 busy busy-Bounded (omega arith)

Reachable-Bounded_example :
    Bounded (grant countdown (to_post_after 7 1) (grant countdown (to_post 3) (new_loop 0)))
Reachable-Bounded_example =
    Reachable-Bounded countdown (asked (to_post_after 7 1) (asked (to_post 3) (begun 0)))

earliest_timer-Best_example :
    (k : ℕ) × (u : TimerEntry ℕ) × (earliest_timer busy.timers ≡ some (k, u)) × Best busy.timers k u
earliest_timer-Best_example =
    earliest_timer-Best (record { due = 9; cb = 0 })
      (record { due = 3; cb = 1 } ∷ record { due = 3; cb = 0 } ∷ [])

abbrev weight : ℕ → ℕ
weight zero = 1
weight (suc n) = weight n + weight n + 1

countdown-Falls : (h : List ℕ) (cb : ℕ) → Falls weight cb (countdown h cb)
countdown-Falls h zero = record { lighter = omega arith; goes_on = tt }
countdown-Falls h (suc n) = record { lighter = omega arith; goes_on = (tt, (tt, tt)) }

run-idle_example :
    (l' : EventLoop ℕ) × (run countdown 16 15 busy ≡ some l')
    × (is_idle l' ≡ true)
    × (l'.running ≡ false)
run-idle_example = run-idle weight countdown countdown-Falls 16 15 busy (omega arith) (omega arith)

abbrev tick : List ℕ → ℕ → List (Request ℕ)
tick h cb = to_post_after 0 cb ∷ []

abbrev ticking : EventLoop ℕ
ticking = record (new_loop 10) { timers = record { due = 10; cb = 7 } ∷ [] }

run_once_again_example : run_once tick 1000 ticking ≡ none
run_once_again_example = run_once_again tick 7 (λ h. refl) 1000 ticking 10 refl refl (omega arith)
