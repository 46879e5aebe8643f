-- ===== src/Events.antt =====
-- include/etlx/events/loop.hpp and src/events/loop.cpp, with the time points and the simulated
-- clock of include/etlx/core/time.hpp. A time point and a delay count milliseconds from the
-- clock's epoch on, not below zero.
pub mod Due
pub mod Steps
pub mod Bounds
pub mod Grown
pub mod Once
pub mod Posted
pub mod Earliest
pub mod Again
pub mod Weight
pub mod Ends
mod Tests
use cpp_template.Base.{
  ℕ, zero, suc, ◌+◌, ◌%◌, ◌^◌, Bool, true, false, not, ◌&&◌, Option, none, some, List, [], ◌∷◌,
  ◌++◌, codes, length, get_elem?, ltb, ◌==◌, if◌then◌else◌,
}
use cpp_template.Core.{Category, ok, fail, Status}

-- `enum Code`
abbrev pub queue_full : ℕ
queue_full = 1

-- ETLX_EVENTS_QUEUE_DEPTH
abbrev pub queue_depth : ℕ
queue_depth = 16

-- ETLX_EVENTS_MAX_TIMERS
abbrev pub max_timers : ℕ
max_timers = 8

-- `operator<` and `operator+` of a time point
abbrev pub before : ℕ → ℕ → Bool
before t u = ltb t u

abbrev pub later_by : ℕ → ℕ → ℕ
later_by t d = t + d

-- `SimulatedClock::SleepUntil`
unfoldable pub sleep_until : ℕ → ℕ → ℕ
sleep_until now t = if before now t then t else now

-- `SimulatedClock::Advance`
abbrev pub advance : ℕ → ℕ → ℕ
advance now d = later_by now d

abbrev pub bump : ℕ → ℕ
bump n = (n + 1) % 2 ^ 64

pub record TimerEntry (Callback : Type 0) : Type 0 where
  pub due : ℕ
  pub cb : Callback

-- The loop with the time of its clock; `invoked` is kept by the model alone, the callbacks that
-- were invoked so far.
pub record EventLoop (Callback : Type 0) : Type 0 where
  pub immediate : List Callback
  pub timers : List (TimerEntry Callback)
  pub running : Bool
  pub clock : ℕ
  pub invoked : List Callback

-- What a callback may ask of the loop and of its clock. One that calls `RunOnce` or `Run` itself is
-- not modelled.
pub data Request (Callback : Type 0) : Type 0 where
  to_post : Callback → Request Callback
  to_post_after : ℕ → Callback → Request Callback
  to_stop : Request Callback
  to_advance : ℕ → Request Callback

module _ {Callback : Type 0} where
  -- The constructor.
  abbrev pub new_loop : ℕ → EventLoop Callback
  new_loop now = record { immediate = []; timers = []; running = false; clock = now; invoked = [] }

  -- `Post`
  unfoldable pub post : Callback → EventLoop Callback → Status × EventLoop Callback
  post cb l =
      if length l.immediate == queue_depth
      then (fail Category.events queue_full (codes "immediate queue full"), l)
      else (ok tt, record l { immediate = l.immediate ++ cb ∷ [] })

  -- `PostAfter`
  unfoldable pub post_after : ℕ → Callback → EventLoop Callback → Status × EventLoop Callback
  post_after delay cb l =
      if length l.timers == max_timers
      then (fail Category.events queue_full (codes "timer table full"), l)
      else (
        ok tt,
        record l { timers = l.timers ++ record { due = later_by l.clock delay; cb = cb } ∷ [] },
      )

  -- `Stop`
  abbrev pub stop : EventLoop Callback → EventLoop Callback
  stop l = record l { running = false }

  abbrev pub no_work : List Callback → List (TimerEntry Callback) → Bool
  no_work [] [] = true
  no_work _ _ = false

  -- `idle`
  abbrev pub is_idle : EventLoop Callback → Bool
  is_idle l = no_work l.immediate l.timers

  abbrev pub better :
      ℕ → TimerEntry Callback → Option (ℕ × TimerEntry Callback) → ℕ × TimerEntry Callback
  better i t none = (i, t)
  better i t (some (j, u)) = if before t.due u.due then (i, t) else (j, u)

  -- The loop of `EarliestTimer`, from index `i` on; `best` carries the entry that it names.
  unfoldable pub earliest_from :
      ℕ
      → List (TimerEntry Callback)
      → Option (ℕ × TimerEntry Callback)
      → Option (ℕ × TimerEntry Callback)
  earliest_from i [] best = best
  earliest_from i (t ∷ ts) best = earliest_from (i + 1) ts (some (better i t best))

  -- `EarliestTimer`; `none` is -1.
  unfoldable pub earliest_timer : List (TimerEntry Callback) → Option (ℕ × TimerEntry Callback)
  earliest_timer ts = earliest_from 0 ts none

  abbrev pub passed :
      TimerEntry Callback
      → Option (TimerEntry Callback × List (TimerEntry Callback))
      → Option (TimerEntry Callback × List (TimerEntry Callback))
  passed t none = none
  passed t (some (u, ts)) = some (u, t ∷ ts)

  -- The inner loop of `RunOnce`: the first timer that is due, taken out of the table.
  unfoldable pub take_due :
      ℕ → List (TimerEntry Callback) → Option (TimerEntry Callback × List (TimerEntry Callback))
  take_due now [] = none
  take_due now (t ∷ ts) =
      if not (before now t.due) then some (t, ts) else passed t (take_due now ts)

  -- The code behind a callback is the client's: what it asks for depends on what has run so far.
  module _ (requests : List Callback → Callback → List (Request Callback)) where
    abbrev pub grant : Request Callback → EventLoop Callback → EventLoop Callback
    grant (to_post cb) l = (post cb l).1
    grant (to_post_after delay cb) l = (post_after delay cb l).1
    grant to_stop l = stop l
    grant (to_advance d) l = record l { clock = advance l.clock d }

    unfoldable pub grant_all : List (Request Callback) → EventLoop Callback → EventLoop Callback
    grant_all [] l = l
    grant_all (r ∷ rs) l = grant_all rs (grant r l)

    -- `cb()`
    unfoldable pub invoke : Callback → EventLoop Callback → EventLoop Callback
    invoke cb l = grant_all (requests l.invoked cb) (record l { invoked = l.invoked ++ cb ∷ [] })

    -- The first loop of `RunOnce`; the queue holds at least the batch, since callbacks only add to it.
    unfoldable pub drain : ℕ → EventLoop Callback → ℕ → ℕ × EventLoop Callback
    drain zero l ran = (ran, l)
    drain (suc n) l ran = elim l.immediate [
      | [] ↦ (ran, l)
      | cb ∷ cbs ↦ drain n (invoke cb (record l { immediate = cbs })) (bump ran)
    ]

    -- The second loop of `RunOnce`, on fuel; `none` where it goes on.
    unfoldable pub fire : ℕ → ℕ → EventLoop Callback → ℕ → Option (ℕ × EventLoop Callback)
    fire zero now l ran = none
    fire (suc f) now l ran = elim (take_due now l.timers) [
      | none ↦ some (ran, l)
      | some (t, ts) ↦ fire f now (invoke t.cb (record l { timers = ts })) (bump ran)
    ]

    -- `RunOnce`
    unfoldable pub run_once : ℕ → EventLoop Callback → Option (ℕ × EventLoop Callback)
    run_once f l = let (ran, l') = drain (length l.immediate) l 0 in fire f l'.clock l' ran

    abbrev pub asleep : TimerEntry Callback → EventLoop Callback → EventLoop Callback
    asleep t l = record l { clock = sleep_until l.clock t.due }

    -- The rest of a round of `Run`, with the rounds that follow.
    abbrev pub after_round :
        (EventLoop Callback → Option (EventLoop Callback))
        → EventLoop Callback
        → List Callback
        → Option (ℕ × TimerEntry Callback)
        → Option (EventLoop Callback)
    after_round loop l (cb ∷ cbs) earliest = loop l
    after_round loop l [] none = some l
    after_round loop l [] (some (i, t)) = loop (asleep t l)

    abbrev pub round :
        (EventLoop Callback → Option (EventLoop Callback))
        → Option (ℕ × EventLoop Callback)
        → Option (EventLoop Callback)
    round loop none = none
    round loop (some (ran, l)) = after_round loop l l.immediate (earliest_timer l.timers)

    abbrev pub while_running :
        Bool
        → Option (EventLoop Callback)
        → Option (EventLoop Callback)
        → Option (EventLoop Callback)
    while_running true body over = body
    while_running false body over = over

    -- The loop of `Run`, on fuel for its rounds and for the timers of each.
    unfoldable pub run_loop : ℕ → ℕ → EventLoop Callback → Option (EventLoop Callback)
    run_loop zero f l = none
    run_loop (suc k) f l = while_running l.running (round (run_loop k f) (run_once f l)) (some l)

    abbrev pub halted : Option (EventLoop Callback) → Option (EventLoop Callback)
    halted none = none
    halted (some l) = some (stop l)

    abbrev pub started : EventLoop Callback → EventLoop Callback
    started l = record l { running = true }

    -- `Run`
    unfoldable pub run : ℕ → ℕ → EventLoop Callback → Option (EventLoop Callback)
    run k f l = halted (run_loop k f (started l))
