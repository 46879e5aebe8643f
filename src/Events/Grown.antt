-- ===== src/Events/Grown.antt =====
-- What a callback may have changed, when it sets no timer for the present or the past.
use cpp_template.Base.{
  ℕ, ◌+◌, ◌≤◌, ◌<◌, true, List, [], ◌∷◌, ◌++◌, ◌≡◌, refl, sym, ◌∙◌, ap, subst, All, arith,
  append-nil, append_assoc, lt→ltb, ltb→lt,
}
use cpp_template.Events.{
  EventLoop, TimerEntry, Request, to_post, to_post_after, to_stop, to_advance, grant, grant_all,
  invoke, before,
}
use cpp_template.Events.Bounds.{post_elim, post_after_elim}

pub All-append {ℓ κ} :
    {A : Type ℓ} (P : A → Type κ) (xs ys : List A) → All P xs → All P ys → All P (xs ++ ys)
All-append P [] ys a b = b
All-append P (x ∷ xs) ys a b = (a.0, All-append P xs ys a.1 b)

pub All-map {ℓ κ} :
    {A : Type ℓ} (P Q : A → Type κ) (xs : List A) → ((x : A) → P x → Q x) → All P xs → All Q xs
All-map P Q [] f a = tt
All-map P Q (x ∷ xs) f a = (f x a.0, All-map P Q xs f a.1)

pub before_mono : (m n t : ℕ) → m ≤ n → before n t ≡ true → before m t ≡ true
before_mono m n t h e = lt→ltb m t (omega (arith, ltb→lt n t e))

module _ {Callback : Type 0} where
  -- A delay is positive.
  abbrev pub Positive : Request Callback → Type 0
  Positive (to_post_after d cb) = 0 < d
  Positive _ = Unit

  -- From `l` on, the callbacks `cbs` were invoked; the queue and the table were `q` and `ts` but
  -- for what the callbacks added, and their timers are all later than the clock was.
  pub record Grown (q : List Callback) (ts : List (TimerEntry Callback)) (cbs : List Callback)
      (l l' : EventLoop Callback) : Type 0 where
    pub queued : List Callback
    pub added : List (TimerEntry Callback)
    pub queue_eq : l'.immediate ≡ q ++ queued
    pub table_eq : l'.timers ≡ ts ++ added
    pub invoked_eq : l'.invoked ≡ l.invoked ++ cbs
    pub later : All (λ t. before l.clock t.due ≡ true) added
    pub clock_le : l.clock ≤ l'.clock

  -- Only the time went on.
  pub Grown_same :
      (l l' : EventLoop Callback)
      → l'.immediate ≡ l.immediate
      → l'.timers ≡ l.timers
      → l'.invoked ≡ l.invoked
      → l.clock ≤ l'.clock
      → Grown l.immediate l.timers [] l l'
  Grown_same l l' q ts i c = record {
    queued = [];
    added = [];
    queue_eq = q ∙ sym (append-nil l.immediate);
    table_eq = ts ∙ sym (append-nil l.timers);
    invoked_eq = i ∙ sym (append-nil l.invoked);
    later = tt;
    clock_le = c;
  }

  pub Grown_based :
      {q q₁ cbs : List Callback} {ts ts₁ : List (TimerEntry Callback)} {l l' : EventLoop Callback}
      → q₁ ≡ q
      → ts₁ ≡ ts
      → Grown q₁ ts₁ cbs l l'
      → Grown q ts cbs l l'
  Grown_based e d g = record {
    queued = g.queued;
    added = g.added;
    queue_eq = g.queue_eq ∙ ap (λ q. q ++ g.queued) e;
    table_eq = g.table_eq ∙ ap (λ ts. ts ++ g.added) d;
    invoked_eq = g.invoked_eq;
    later = g.later;
    clock_le = g.clock_le;
  }

  -- What was in the queue and the table before does not matter.
  pub Grown_from :
      {q cbs : List Callback} {ts : List (TimerEntry Callback)} {l l₀ l' : EventLoop Callback}
      → l₀.invoked ≡ l.invoked
      → l₀.clock ≡ l.clock
      → Grown q ts cbs l₀ l'
      → Grown q ts cbs l l'
  Grown_from {cbs} e c g = record {
    queued = g.queued;
    added = g.added;
    queue_eq = g.queue_eq;
    table_eq = g.table_eq;
    invoked_eq = g.invoked_eq ∙ ap (λ i. i ++ cbs) e;
    later = subst (λ n. All (λ t. before n t.due ≡ true) g.added) c g.later;
    clock_le = omega (arith, g.clock_le, c);
  }

  -- One change after another.
  pub Grown_then :
      {q q₁ cbs cbs' : List Callback} {ts ts₁ : List (TimerEntry Callback)}
      {l l₁ l₂ : EventLoop Callback} (g : Grown q₁ ts₁ cbs l l₁)
      → Grown (q ++ g.queued) (ts ++ g.added) cbs' l₁ l₂
      → Grown q ts (cbs ++ cbs') l l₂
  Grown_then {q} {cbs = cbs} {cbs' = cbs'} {ts} {l = l} {l₁ = l₁} g h = record {
    queued = g.queued ++ h.queued;
    added = g.added ++ h.added;
    queue_eq = h.queue_eq ∙ append_assoc q g.queued h.queued;
    table_eq = h.table_eq ∙ append_assoc ts g.added h.added;
    invoked_eq =
        h.invoked_eq ∙ (ap (λ i. i ++ cbs') g.invoked_eq ∙ append_assoc l.invoked cbs cbs');
    later =
        All-append _ g.added h.added g.later
          (All-map _ _ h.added (λ t. before_mono l.clock l₁.clock t.due g.clock_le) h.later);
    clock_le = omega (arith, g.clock_le, h.clock_le);
  }

  module _ (requests : List Callback → Callback → List (Request Callback)) where
    grant-Grown :
        (r : Request Callback) (l : EventLoop Callback)
        → Positive r
        → Grown l.immediate l.timers [] l (grant requests r l)
    grant-Grown (to_post cb) l p =
        post_elim (Grown l.immediate l.timers [] l) cb l
          (Grown_same l l refl refl refl (omega arith))
          (λ room. record {
            queued = cb ∷ [];
            added = [];
            queue_eq = refl;
            table_eq = sym (append-nil l.timers);
            invoked_eq = sym (append-nil l.invoked);
            later = tt;
            clock_le = omega arith;
          })
    grant-Grown (to_post_after d cb) l p =
        post_after_elim (Grown l.immediate l.timers [] l) d cb l
          (Grown_same l l refl refl refl (omega arith))
          (λ room. record {
            queued = [];
            added = record { due = l.clock + d; cb = cb } ∷ [];
            queue_eq = sym (append-nil l.immediate);
            table_eq = refl;
            invoked_eq = sym (append-nil l.invoked);
            later = (lt→ltb l.clock (l.clock + d) (omega arith), tt);
            clock_le = omega arith;
          })
    grant-Grown to_stop l p = Grown_same l _ refl refl refl (omega arith)
    grant-Grown (to_advance d) l p = Grown_same l _ refl refl refl (omega arith)

    grant_all-Grown :
        (rs : List (Request Callback)) (l : EventLoop Callback)
        → All Positive rs
        → Grown l.immediate l.timers [] l (grant_all requests rs l)
    unfolding grant_all
    grant_all-Grown [] l p = Grown_same l l refl refl refl (omega arith)
    grant_all-Grown (r ∷ rs) l p =
        let g : Grown l.immediate l.timers [] l (grant requests r l) = grant-Grown r l p.0 in
        Grown_then g
          (Grown_based g.queue_eq g.table_eq (grant_all-Grown rs (grant requests r l) p.1))

    pub invoke-Grown :
        ((h : List Callback) (cb : Callback) → All Positive (requests h cb))
        → (cb : Callback) (l : EventLoop Callback)
        → Grown l.immediate l.timers (cb ∷ []) l (invoke requests cb l)
    unfolding invoke
    invoke-Grown positive cb l =
        let g : Grown l.immediate l.timers [] (record l { invoked = l.invoked ++ cb ∷ [] })
            (grant_all requests (requests l.invoked cb)
              (record l { invoked = l.invoked ++ cb ∷ [] })) =
          grant_all-Grown (requests l.invoked cb) _ (positive l.invoked cb) in
        record {
          queued = g.queued;
          added = g.added;
          queue_eq = g.queue_eq;
          table_eq = g.table_eq;
          invoked_eq = g.invoked_eq ∙ append-nil (l.invoked ++ cb ∷ []);
          later = g.later;
          clock_le = g.clock_le;
        }
