-- ===== src/Events/Once.antt =====
-- `RunOnce`: which callbacks it invokes, and in which order.
use cpp_template.Base.{
  ℕ, suc, zero, ◌+◌, ◌≤◌, ◌<◌, some, List, [], ◌∷◌, ◌++◌, ◌≡◌, refl, sym, ◌∙◌, ap, All, arith,
  append-nil, append_assoc, length, length-append, inl, inr,
}
use cpp_template.Events.{EventLoop, Request, invoke, drain, fire, run_once, bump}
use cpp_template.Events.Due.{
  due_callbacks, due_callbacks_append, due_callbacks-length, take_due-cases, Splits-due,
}
use cpp_template.Events.Steps.{drain_step, fire_end, fire_step, without_front, with_timers}
use cpp_template.Events.Bounds.{Bounded, drain-Bounded}
use cpp_template.Events.Posted.{Part, posts_from, run_once-Part}
use cpp_template.Events.Grown.{
  Grown, Grown_same, Grown_based, Grown_from, Grown_then, Positive, invoke-Grown, before_mono,
  All-map,
}

abbrev counted : ℕ → ℕ → ℕ
counted zero ran = ran
counted (suc n) ran = counted n (bump ran)

counted_small : (n ran : ℕ) → n + ran ≤ 64 → counted n ran ≡ n + ran
counted_small zero ran h = omega arith
counted_small (suc n) ran h =
    let step : bump ran ≡ suc ran = omega arith in
    rw step (counted_small n (suc ran) (omega arith) ∙ omega arith)

module _ {Callback : Type 0} (requests : List Callback → Callback → List (Request Callback))
    (positive : (h : List Callback) (cb : Callback) → All Positive (requests h cb)) where
  record Drained (l : EventLoop Callback) (xs ys : List Callback) (ran : ℕ) : Type 0 where
    ended : EventLoop Callback
    answer : drain requests (length xs) l ran ≡ (counted (length xs) ran, ended)
    grown : Grown ys l.timers xs l ended

  -- The first loop invokes the batch in order, and leaves what was queued behind it and since.
  drain-Drained :
      (xs ys : List Callback) (l : EventLoop Callback) (ran : ℕ)
      → l.immediate ≡ xs ++ ys
      → Drained l xs ys ran
  drain-Drained [] ys l ran h = record {
    ended = l;
    answer = unfold drain in refl;
    grown = Grown_based h refl (Grown_same l l refl refl refl (omega arith));
  }
  drain-Drained (x ∷ xs) ys l ran h =
      let front : EventLoop Callback = without_front requests l (xs ++ ys) in
      let g : Grown (xs ++ ys) l.timers (x ∷ []) front (invoke requests x front) =
        invoke-Grown requests positive x front in
      let rest : Drained (invoke requests x front) xs (ys ++ g.queued) (bump ran) =
        drain-Drained xs (ys ++ g.queued) (invoke requests x front) (bump ran)
          (g.queue_eq ∙ append_assoc xs ys g.queued) in
      record {
        ended = rest.ended;
        answer = drain_step requests (length xs) l ran h ∙ rest.answer;
        grown = Grown_from refl refl (Grown_then g (Grown_based refl g.table_eq rest.grown));
      }

  record Fired (f now ran : ℕ) (l : EventLoop Callback) : Type 0 where
    ended : EventLoop Callback
    queued : List Callback
    answer :
        fire requests f now l ran ≡ some (counted (length (due_callbacks now l.timers)) ran, ended)
    queue_eq : ended.immediate ≡ l.immediate ++ queued
    invoked_eq : ended.invoked ≡ l.invoked ++ due_callbacks now l.timers
    none_due : due_callbacks now ended.timers ≡ []

  -- The second loop ends, and has invoked the timers that were due, in the order of the table.
  fire-Fired :
      (f now ran : ℕ) (l : EventLoop Callback)
      → now ≤ l.clock
      → length (due_callbacks now l.timers) < f
      → Fired f now ran l
  fire-Fired zero now ran l c h = absurd (omega arith)
  fire-Fired (suc f) now ran l c h = elim (take_due-cases now l.timers) [
    | inl (stop, nothing) ↦ record {
      ended = l;
      queued = [];
      answer =
          fire_end requests f now l ran stop
          ∙ ap (λ (d : List Callback). some (counted (length d) ran, l)) (sym nothing);
      queue_eq = sym (append-nil l.immediate);
      invoked_eq = sym (append-nil l.invoked) ∙ ap (λ d. l.invoked ++ d) (sym nothing);
      none_due = nothing;
    }
    | inr found ↦
        let before_call : EventLoop Callback = with_timers requests l found.rest in
        let after : EventLoop Callback = invoke requests found.timer.cb before_call in
        let g : Grown l.immediate found.rest (found.timer.cb ∷ []) before_call after =
          invoke-Grown requests positive found.timer.cb before_call in
        let due_eq : due_callbacks now after.timers ≡ due_callbacks now found.rest =
          ap (due_callbacks now) g.table_eq
          ∙ due_callbacks_append now found.rest g.added
              (All-map _ _ g.added (λ t. before_mono now l.clock t.due c) g.later) in
        let all : due_callbacks now l.timers ≡ found.timer.cb ∷ due_callbacks now after.timers =
          Splits-due found.splits ∙ ap (λ d. found.timer.cb ∷ d) (sym due_eq) in
        let rest : Fired f now (bump ran) after =
          fire-Fired f now (bump ran) after (omega (arith, c, g.clock_le))
            (omega (arith, ap length all)) in
        record {
          ended = rest.ended;
          queued = g.queued ++ rest.queued;
          answer =
              fire_step requests f now l ran found.taken
              ∙ (rest.answer
                  ∙ ap (λ (d : List Callback). some (counted (length d) ran, rest.ended))
                      (sym all));
          queue_eq =
              rest.queue_eq
              ∙ (ap (λ q. q ++ rest.queued) g.queue_eq
                  ∙ append_assoc l.immediate g.queued rest.queued);
          invoked_eq =
              rest.invoked_eq
              ∙ (ap (λ i. i ++ due_callbacks now after.timers) g.invoked_eq
                  ∙ (append_assoc l.invoked (found.timer.cb ∷ []) (due_callbacks now after.timers)
                      ∙ ap (λ d. l.invoked ++ d) (sym all)));
          none_due = rest.none_due;
        }
  ]

  -- When callbacks set no timer for the present or the past, `RunOnce` ends: it invokes exactly
  -- the callbacks that were queued when it began, in the order in which they were posted, and then
  -- those of the timers that are due by then, in the order of the table; it returns their number,
  -- and leaves in the queue only callbacks that those it invoked asked to post, in their order, and
  -- no timer that was due. Nine rounds of its second loop are enough.
  pub run_once_lem :
      (f : ℕ) (l : EventLoop Callback)
      → Bounded l
      → 9 ≤ f
      → let l₁ = (drain requests (length l.immediate) l 0).1 in
        let cbs = l.immediate ++ due_callbacks l₁.clock l₁.timers in
        (l₂ : EventLoop Callback) × (run_once requests f l ≡ some (length cbs, l₂))
        × (l₂.invoked ≡ l.invoked ++ cbs)
        × Part l₂.immediate (posts_from requests l.invoked cbs)
        × (due_callbacks l₁.clock l₂.timers ≡ [])
  unfolding run_once
  run_once_lem f l b enough =
      let p : ℕ × EventLoop Callback = drain requests (length l.immediate) l 0 in
      let d : Drained l l.immediate [] 0 =
        drain-Drained l.immediate [] l 0 (sym (append-nil l.immediate)) in
      let due_now : List Callback = due_callbacks p.1.clock p.1.timers in
      let few : length due_now ≤ 8 = omega (
        arith,
        due_callbacks-length p.1.clock p.1.timers,
        (drain-Bounded requests (length l.immediate) l 0 b).table_fits,
      ) in
      let fired : Fired f p.1.clock p.0 p.1 =
        fire-Fired f p.1.clock p.0 p.1 (omega arith) (omega arith) in
      let queue_ran : p.0 ≡ length l.immediate =
        ap (λ (q : ℕ × EventLoop Callback). q.0) d.answer
        ∙ (counted_small (length l.immediate) 0 (omega (arith, b.queue_fits)) ∙ omega arith) in
      let number : counted (length due_now) p.0 ≡ length (l.immediate ++ due_now) =
        counted_small (length due_now) p.0 (omega (arith, b.queue_fits))
        ∙ omega (arith, length-append l.immediate due_now) in
      let before_timers : p.1.invoked ≡ l.invoked ++ l.immediate =
        ap (λ (q : ℕ × EventLoop Callback). q.1.invoked) d.answer ∙ d.grown.invoked_eq in
      let answer : run_once requests f l ≡ some (length (l.immediate ++ due_now), fired.ended) =
        fired.answer ∙ ap (λ n. some (n, fired.ended)) number in
      let ran : fired.ended.invoked ≡ l.invoked ++ (l.immediate ++ due_now) =
        fired.invoked_eq
        ∙ (ap (λ i. i ++ due_now) before_timers ∙ append_assoc l.invoked l.immediate due_now) in
      (
        fired.ended,
        answer,
        ran,
        run_once-Part requests f l (l.immediate ++ due_now) answer ran,
        fired.none_due,
      )
