-- ===== src/Events/Ends.antt =====
-- `Run` comes to an end, with nothing left to do, when the callbacks run out of work.
use cpp_template.Base.{
  ℕ, suc, zero, ◌+◌, ◌≤◌, ◌<◌, true, false, some, List, [], ◌∷◌, ◌≡◌, refl, sym, ◌∙◌, ap, ap₂,
  subst, arith, length, get_elem?, inl, inr, ◌⊎◌, Bool, list_cases, some_injective, ltb→lt,
  Bool-cases, ◌≢◌,
}
use cpp_template.Events.{
  EventLoop, TimerEntry, Request, drain, run_once, run_loop, run, before, earliest_timer, asleep,
  sleep_until, is_idle, no_work, started, after_round, halted,
}
use cpp_template.Events.Due.{Takes, take_due-cases, due_callbacks, due_here, due_there}
use cpp_template.Events.Steps.{run_loop_round}
use cpp_template.Events.Weight.{pending, Falls, Left, Fires, drain-Left, drain-Less, fire-Fires}
use cpp_template.Events.Earliest.{earliest_timer-Best, earliest_timer-nil}

module _ {Callback : Type 0} (weight : Callback → ℕ)
    (requests : List Callback → Callback → List (Request Callback))
    (falls : (h : List Callback) (cb : Callback) → Falls weight cb (requests h cb)) where
  -- Something can run without waiting.
  abbrev Ready : EventLoop Callback → Type 0
  Ready l = (l.immediate ≢ []) ⊎ ((l.immediate ≡ []) × Takes l.clock l.timers)

  record Rounds (f : ℕ) (l : EventLoop Callback) : Type 0 where
    count : ℕ
    ended : EventLoop Callback
    answer : run_once requests f l ≡ some (count, ended)
    left : Left weight (pending weight l) l.running ended
    less : Ready l → pending weight ended < pending weight l

  run_once-Rounds : (f : ℕ) (l : EventLoop Callback) → pending weight l < f → Rounds f l
  unfolding run_once
  run_once-Rounds f l h =
      let p : ℕ × EventLoop Callback = drain requests (length l.immediate) l 0 in
      let d : Left weight (pending weight l) l.running p.1 =
        drain-Left weight requests falls (length l.immediate) l 0 in
      let r : Fires weight requests falls f p.1.clock p.0 p.1 =
        fire-Fires weight requests falls f p.1.clock p.0 p.1 (omega (arith, d.within)) in
      record {
        count = r.count;
        ended = r.ended;
        answer = r.answer;
        left = record {
          within = omega (arith, d.within, r.left.within);
          still = r.left.still ∙ d.still;
        };
        less = λ ready. elim ready [
          | inl busy ↦ elim (list_cases l.immediate) [
            | inl e ↦ absurd (busy e)
            | inr (cb, cbs, e) ↦
                let less : pending weight p.1 < pending weight l =
                  subst (λ n. pending weight (drain requests n l 0).1 < pending weight l)
                    (sym (ap length e))
                    (drain-Less weight requests falls (length cbs) l 0 e).under in
                omega (arith, less, r.left.within)
          ]
          | inr (e, found) ↦
              let same : (0, l) ≡ p =
                sym (ap (λ n. drain requests n l 0) (ap length e) ∙ unfold drain in refl) in
              let less : pending weight r.ended < pending weight p.1 =
                r.less
                  (subst (λ (q : ℕ × EventLoop Callback). Takes q.1.clock q.1.timers) same found) in
              omega (arith, less, d.within)
        ];
      }

  record Over (k f : ℕ) (l : EventLoop Callback) : Type 0 where
    ended : EventLoop Callback
    answer : run_loop requests k f l ≡ some ended
    idle : is_idle ended ≡ true

  cons_ne_nil : {x : Callback} {xs : List Callback} → (x ∷ xs) ≢ []
  cons_ne_nil e = cc

  slept : (now due : ℕ) → due ≤ sleep_until now due
  unfolding sleep_until
  slept now due = ground arith

  some_due :
      (now i : ℕ) (ts : List (TimerEntry Callback)) {t : TimerEntry Callback}
      → get_elem? ts i ≡ some t
      → t.due ≤ now
      → due_callbacks now ts ≢ []
  some_due now i [] at le e = cc
  some_due now zero (u ∷ ts) at le e = elim (Bool-cases (before now u.due)) [
    | inl early ↦ absurd (
        omega (
          arith,
          ltb→lt now u.due early,
          ap (λ (v : TimerEntry Callback). v.due) (some_injective at),
        ))
    | inr due ↦ absurd (cons_ne_nil (sym (due_here now u ts due) ∙ e))
  ]
  some_due now (suc i) (u ∷ ts) at le e = elim (Bool-cases (before now u.due)) [
    | inl early ↦ some_due now i ts at le (sym (due_there now u ts early) ∙ e)
    | inr due ↦ absurd (cons_ne_nil (sym (due_here now u ts due) ∙ e))
  ]

  -- A timer that the clock has reached is found.
  awake :
      (l : EventLoop Callback) (i : ℕ) {t : TimerEntry Callback}
      → get_elem? l.timers i ≡ some t
      → Takes (sleep_until l.clock t.due) l.timers
  awake l i {t} at = elim (take_due-cases (sleep_until l.clock t.due) l.timers) [
    | inl (stop, nothing) ↦
        absurd (some_due (sleep_until l.clock t.due) i l.timers at (slept l.clock t.due) nothing)
    | inr found ↦ found
  ]

  over_idle : (l : EventLoop Callback) → l.immediate ≡ [] → l.timers ≡ [] → is_idle l ≡ true
  over_idle l e d = ap₂ no_work e d

  not_running : {b : Bool} → b ≡ true → b ≡ false → ⊥
  not_running e d = cc

  -- Enough rounds: one for each unit of work, and one more that may only wait.
  abbrev Enough : ℕ → EventLoop Callback → Type 0
  Enough k l = (Ready l × pending weight l < k) ⊎ (suc (pending weight l) < k)

  run_loop-Over :
      (k f : ℕ) (l : EventLoop Callback)
      → pending weight l < f
      → l.running ≡ true
      → Enough k l
      → Over k f l
  run_loop-Over zero f l h on enough =
      absurd (elim enough [ inl (ready, few) ↦ omega arith | inr few ↦ omega arith ])
  run_loop-Over (suc k) f l h on enough =
      let r : Rounds f l = run_once-Rounds f l h in
      let few : pending weight r.ended < k = elim enough [
        | inl (ready, few) ↦ omega (arith, r.less ready)
        | inr few ↦ omega (arith, r.left.within)
      ] in
      let round_done = run_loop_round requests k f l on r.answer in
      let still_on : r.ended.running ≡ true = r.left.still ∙ on in
      let fewer : pending weight r.ended < f = omega (arith, r.left.within) in
      elim (list_cases r.ended.immediate) [
        | inl empty ↦ elim (list_cases r.ended.timers) [
          | inl none_set ↦ record {
            ended = r.ended;
            answer =
                round_done
                ∙ ap₂ (after_round requests (run_loop requests k f) r.ended) empty
                    (ap earliest_timer none_set ∙ earliest_timer-nil);
            idle = over_idle r.ended empty none_set;
          }
          | inr (t, ts, set) ↦
              let (i, u, earliest, best) = earliest_timer-Best t ts in
              let next : EventLoop Callback = asleep requests u r.ended in
              let found : Takes next.clock r.ended.timers =
                awake r.ended i (ap (λ us. get_elem? us i) set ∙ best.at) in
              let rest : Over k f next =
                run_loop-Over k f next fewer still_on (inl (inr (empty, found), few)) in
              record {
                ended = rest.ended;
                answer =
                    round_done
                    ∙ (ap₂ (after_round requests (run_loop requests k f) r.ended) empty
                          (ap earliest_timer set ∙ earliest)
                        ∙ rest.answer);
                idle = rest.idle;
              }
        ]
        | inr (cb, cbs, queue) ↦
            let busy : r.ended.immediate ≢ [] = λ e. cons_ne_nil (sym queue ∙ e) in
            let rest : Over k f r.ended =
              run_loop-Over k f r.ended fewer still_on (inl (inl busy, few)) in
            record {
              ended = rest.ended;
              answer =
                  round_done
                  ∙ (ap
                        (λ q.
                          after_round requests (run_loop requests k f) r.ended q
                            (earliest_timer r.ended.timers))
                        queue
                      ∙ rest.answer);
              idle = rest.idle;
            }
      ]

-- When every callback asks for less work than it is itself, and none calls `Stop`, `Run`
-- returns: the loop is idle, nothing is queued and no timer is set, and it is not running. One
-- round for each unit of work that was pending, and two more, are enough.
pub run-idle :
    {Callback : Type 0} (weight : Callback → ℕ)
    (requests : List Callback → Callback → List (Request Callback))
    → ((h : List Callback) (cb : Callback) → Falls weight cb (requests h cb))
    → (k f : ℕ) (l : EventLoop Callback) → pending weight l < f
    → pending weight l + 1 < k
    → (l' : EventLoop Callback) × (run requests k f l ≡ some l')
      × (is_idle l' ≡ true)
      × (l'.running ≡ false)
unfolding run
run-idle weight requests falls k f l h enough =
    let o : Over weight requests falls k f (started requests l) =
      run_loop-Over weight requests falls k f (started requests l) h refl (inr (omega arith)) in
    (_, ap (halted requests) o.answer, o.idle, refl)
