-- ===== src/Events/Weight.antt =====
-- The work that is pending in an event loop, and that each invocation makes less.
use cpp_template.Base.{
  ℕ, suc, zero, ◌+◌, ◌≤◌, ◌<◌, none, some, List, [], ◌∷◌, ◌++◌, ◌≡◌, refl, sym, ◌∙◌, ap, subst, All,
  arith, inl, inr, Bool, list_cases, none_ne_some,
}
use cpp_template.Events.{
  EventLoop, TimerEntry, Request, to_post, to_post_after, to_stop, to_advance, grant, grant_all,
  invoke, drain, fire, bump, take_due,
}
use cpp_template.Events.Due.{Takes, Splits, here, there, take_due-cases}
use cpp_template.Events.Steps.{
  drain_end, drain_step, fire_end, fire_step, without_front, with_timers,
}
use cpp_template.Events.Bounds.{post_elim, post_after_elim}

module _ {Callback : Type 0} (weight : Callback → ℕ) where
  -- The work that is queued, and the work that is set for later.
  abbrev pub queue_weight : List Callback → ℕ
  queue_weight [] = 0
  queue_weight (cb ∷ cbs) = weight cb + queue_weight cbs

  abbrev pub table_weight : List (TimerEntry Callback) → ℕ
  table_weight [] = 0
  table_weight (t ∷ ts) = weight t.cb + table_weight ts

  abbrev pub pending : EventLoop Callback → ℕ
  pending l = queue_weight l.immediate + table_weight l.timers

  -- The work that a callback asks for; none is asked for by `Stop`, which it may not call.
  abbrev pub asked_weight : List (Request Callback) → ℕ
  asked_weight [] = 0
  asked_weight (to_post cb ∷ rs) = weight cb + asked_weight rs
  asked_weight (to_post_after d cb ∷ rs) = weight cb + asked_weight rs
  asked_weight (_ ∷ rs) = asked_weight rs

  abbrev pub GoesOn : Request Callback → Type 0
  GoesOn to_stop = ⊥
  GoesOn _ = Unit

  -- A callback asks for less work than it is itself.
  pub record Falls (cb : Callback) (rs : List (Request Callback)) : Type 0 where
    pub lighter : asked_weight rs < weight cb
    pub goes_on : All GoesOn rs

  queue_weight_append :
      (xs : List Callback) (cb : Callback)
      → queue_weight (xs ++ cb ∷ []) ≡ queue_weight xs + weight cb
  queue_weight_append [] cb = omega arith
  queue_weight_append (x ∷ xs) cb = omega (arith, queue_weight_append xs cb)

  table_weight_append :
      (ts : List (TimerEntry Callback)) (t : TimerEntry Callback)
      → table_weight (ts ++ t ∷ []) ≡ table_weight ts + weight t.cb
  table_weight_append [] t = omega arith
  table_weight_append (u ∷ ts) t = omega (arith, table_weight_append ts t)

  Splits-weight :
      {now : ℕ} {ts rest : List (TimerEntry Callback)} {t : TimerEntry Callback}
      → Splits now ts t rest
      → table_weight ts ≡ weight t.cb + table_weight rest
  Splits-weight (here h) = refl
  Splits-weight (there h s) = omega (arith, Splits-weight s)

  -- No more work than `n` is left, and the loop has not been stopped.
  pub record Left (n : ℕ) (b : Bool) (l : EventLoop Callback) : Type 0 where
    pub within : pending l ≤ n
    pub still : l.running ≡ b

  module _ (requests : List Callback → Callback → List (Request Callback))
      (falls : (h : List Callback) (cb : Callback) → Falls cb (requests h cb)) where
    grant_all-Left :
        (rs : List (Request Callback)) (l : EventLoop Callback)
        → All GoesOn rs
        → Left (asked_weight rs + pending l) l.running (grant_all requests rs l)
    unfolding grant_all
    grant_all-Left [] l a = record { within = omega arith; still = refl }
    grant_all-Left (to_post cb ∷ rs) l a =
        let next : EventLoop Callback = grant requests (to_post cb) l in
        let one : Left (weight cb + pending l) l.running next =
          post_elim (Left (weight cb + pending l) l.running) cb l
            (record { within = omega arith; still = refl })
            (λ room. record {
              within = omega (arith, queue_weight_append l.immediate cb);
              still = refl;
            }) in
        let r : Left (asked_weight rs + pending next) next.running (grant_all requests rs next) =
          grant_all-Left rs next a.1 in
        record { within = omega (arith, one.within, r.within); still = r.still ∙ one.still }
    grant_all-Left (to_post_after d cb ∷ rs) l a =
        let next : EventLoop Callback = grant requests (to_post_after d cb) l in
        let one : Left (weight cb + pending l) l.running next =
          post_after_elim (Left (weight cb + pending l) l.running) d cb l
            (record { within = omega arith; still = refl })
            (λ room. record {
              within = omega (arith, table_weight_append l.timers _);
              still = refl;
            }) in
        let r : Left (asked_weight rs + pending next) next.running (grant_all requests rs next) =
          grant_all-Left rs next a.1 in
        record { within = omega (arith, one.within, r.within); still = r.still ∙ one.still }
    grant_all-Left (to_stop ∷ rs) l a = absurd a.0
    grant_all-Left (to_advance d ∷ rs) l a =
        let r : Left (asked_weight rs + pending l) l.running
            (grant_all requests rs (grant requests (to_advance d) l)) =
          grant_all-Left rs (grant requests (to_advance d) l) a.1 in
        record { within = r.within; still = r.still }

    -- Invoking a callback that was just taken out leaves less work.
    pub record Less (n : ℕ) (b : Bool) (l : EventLoop Callback) : Type 0 where
      pub under : pending l < n
      pub still : l.running ≡ b

    invoke-Less :
        (cb : Callback) (l : EventLoop Callback)
        → Less (weight cb + pending l) l.running (invoke requests cb l)
    unfolding invoke
    invoke-Less cb l =
        let r : Left (asked_weight (requests l.invoked cb) + pending l) l.running (
            grant_all requests (requests l.invoked cb)
              (record l { invoked = l.invoked ++ cb ∷ [] })) =
          grant_all-Left (requests l.invoked cb) _ (falls l.invoked cb).goes_on in
        record { under = omega (arith, r.within, (falls l.invoked cb).lighter); still = r.still }

    pub drain-Left :
        (n : ℕ) (l : EventLoop Callback) (ran : ℕ)
        → Left (pending l) l.running (drain requests n l ran).1
    drain-Left zero l ran = unfold drain in record { within = omega arith; still = refl }
    drain-Left (suc n) l ran = elim (list_cases l.immediate) [
      | inl h ↦
          subst (λ (p : ℕ × EventLoop Callback). Left (pending l) l.running p.1)
            (sym (drain_end requests n l ran h)) (record { within = omega arith; still = refl })
      | inr (cb, cbs, h) ↦
          let next : EventLoop Callback = invoke requests cb (without_front requests l cbs) in
          let one : Less (weight cb + (queue_weight cbs + table_weight l.timers)) l.running next =
            invoke-Less cb (without_front requests l cbs) in
          let r : Left (pending next) next.running (drain requests n next (bump ran)).1 =
            drain-Left n next (bump ran) in
          subst (λ (p : ℕ × EventLoop Callback). Left (pending l) l.running p.1)
            (sym (drain_step requests n l ran h))
            (record {
              within = omega (arith, r.within, one.under, ap queue_weight h);
              still = r.still ∙ one.still;
            })
    ]

    pub drain-Less :
        (n : ℕ) (l : EventLoop Callback) (ran : ℕ) {cb : Callback} {cbs : List Callback}
        → l.immediate ≡ cb ∷ cbs
        → Less (pending l) l.running (drain requests (suc n) l ran).1
    drain-Less n l ran {cb} {cbs} h =
        let next : EventLoop Callback = invoke requests cb (without_front requests l cbs) in
        let one : Less (weight cb + (queue_weight cbs + table_weight l.timers)) l.running next =
          invoke-Less cb (without_front requests l cbs) in
        let r : Left (pending next) next.running (drain requests n next (bump ran)).1 =
          drain-Left n next (bump ran) in
        subst (λ (p : ℕ × EventLoop Callback). Less (pending l) l.running p.1)
          (sym (drain_step requests n l ran h))
          (record {
            under = omega (arith, r.within, one.under, ap queue_weight h);
            still = r.still ∙ one.still;
          })

    pub record Fires (f now ran : ℕ) (l : EventLoop Callback) : Type 0 where
      pub count : ℕ
      pub ended : EventLoop Callback
      pub answer : fire requests f now l ran ≡ some (count, ended)
      pub left : Left (pending l) l.running ended
      pub less : Takes now l.timers → pending ended < pending l

    not_taken :
        (now : ℕ) (ts : List (TimerEntry Callback)) → take_due now ts ≡ none → Takes now ts → ⊥
    not_taken now ts h found = none_ne_some (sym h ∙ found.taken)

    pub fire-Fires : (f now ran : ℕ) (l : EventLoop Callback) → pending l < f → Fires f now ran l
    fire-Fires zero now ran l h = absurd (omega arith)
    fire-Fires (suc f) now ran l h = elim (take_due-cases now l.timers) [
      | inl (stop, nothing) ↦ record {
        count = ran;
        ended = l;
        answer = fire_end requests f now l ran stop;
        left = record { within = omega arith; still = refl };
        less = λ found. absurd (not_taken now l.timers stop found);
      }
      | inr found ↦
          let t : TimerEntry Callback = found.timer in
          let next : EventLoop Callback =
            invoke requests t.cb (with_timers requests l found.rest) in
          let one : Less (weight t.cb + (queue_weight l.immediate + table_weight found.rest))
              l.running next =
            invoke-Less t.cb (with_timers requests l found.rest) in
          let lighter : pending next < pending l =
            omega (arith, one.under, Splits-weight found.splits) in
          let r : Fires f now (bump ran) next = fire-Fires f now (bump ran) next (omega arith) in
          record {
            count = r.count;
            ended = r.ended;
            answer = fire_step requests f now l ran found.taken ∙ r.answer;
            left = record {
              within = omega (arith, r.left.within, lighter);
              still = r.left.still ∙ one.still;
            };
            less = λ found. omega (arith, r.left.within, lighter);
          }
    ]
