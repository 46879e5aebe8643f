-- ===== src/Events/Posted.antt =====
-- What `RunOnce` leaves in the queue: callbacks that those it invoked have posted.
use cpp_template.Base.{
  ℕ, zero, suc, some, some_injective, List, [], ◌∷◌, ◌++◌, ◌≡◌, refl, sym, ◌∙◌, ap, subst,
  append-nil, append_assoc, length, inl, inr,
}
use cpp_template.Events.{
  EventLoop, Request, to_post, to_post_after, to_stop, to_advance, grant, grant_all, invoke, drain,
  fire, run_once, bump,
}
use cpp_template.Events.Due.{take_due-cases}
use cpp_template.Events.Steps.{drain_step, fire_end, fire_step, without_front, with_timers}
use cpp_template.Events.Bounds.{post_elim, post_after_elim}

-- A part of a list, in its order.
pub data Part {A : Type 0} : List A → List A → Type 0 where
  nothing : Part [] []
  taken : {x : A} {xs ys : List A} → Part xs ys → Part (x ∷ xs) (x ∷ ys)
  left_out : {y : A} {xs ys : List A} → Part xs ys → Part xs (y ∷ ys)

Part-append : {A : Type 0} {a b c d : List A} → Part a b → Part c d → Part (a ++ c) (b ++ d)
Part-append nothing q = q
Part-append (taken p) q = taken (Part-append p q)
Part-append (left_out p) q = left_out (Part-append p q)

tail_eq : {A : Type 0} {x y : A} {xs ys : List A} → x ∷ xs ≡ y ∷ ys → xs ≡ ys
tail_eq {xs = xs} e = ap (λ (l : List _). elim l [ [] ↦ xs | z ∷ zs ↦ zs ]) e

cancel_front : {A : Type 0} (h xs ys : List A) → h ++ xs ≡ h ++ ys → xs ≡ ys
cancel_front [] xs ys e = e
cancel_front (x ∷ h) xs ys e = cancel_front h xs ys (tail_eq e)

module _ {Callback : Type 0} where
  -- The callbacks that requests ask to post.
  unfoldable pub posts : List (Request Callback) → List Callback
  posts [] = []
  posts (to_post cb ∷ rs) = cb ∷ posts rs
  posts (to_post_after d cb ∷ rs) = posts rs
  posts (to_stop ∷ rs) = posts rs
  posts (to_advance d ∷ rs) = posts rs

  module _ (requests : List Callback → Callback → List (Request Callback)) where
    -- Those that callbacks ask to post which run one after another, when others have run before.
    unfoldable pub posts_from : List Callback → List Callback → List Callback
    posts_from before_them [] = []
    posts_from before_them (cb ∷ cbs) =
        posts (requests before_them cb) ++ posts_from (before_them ++ cb ∷ []) cbs

    posts_from_append :
        (h cbs cbs' : List Callback)
        → posts_from h (cbs ++ cbs') ≡ posts_from h cbs ++ posts_from (h ++ cbs) cbs'
    unfolding posts_from
    posts_from_append h [] cbs' = ap (λ k. posts_from k cbs') (sym (append-nil h))
    posts_from_append h (cb ∷ cbs) cbs' =
        ap (λ l. posts (requests h cb) ++ l)
          (posts_from_append (h ++ cb ∷ []) cbs cbs'
            ∙ ap (λ k. posts_from (h ++ cb ∷ []) cbs ++ posts_from k cbs')
                (append_assoc h (cb ∷ []) cbs))
        ∙ sym (
            append_assoc (posts (requests h cb)) (posts_from (h ++ cb ∷ []) cbs)
              (posts_from (h ++ cb ∷ cbs) cbs'))

    -- From `l` on, `cbs` were invoked; the queue is `q` and a part of what they asked to post.
    pub record Posting (q : List Callback) (l l' : EventLoop Callback) : Type 0 where
      pub cbs : List Callback
      pub queued : List Callback
      pub invoked_eq : l'.invoked ≡ l.invoked ++ cbs
      pub queue_eq : l'.immediate ≡ q ++ queued
      pub part : Part queued (posts_from l.invoked cbs)

    Posting-same : (q : List Callback) (l : EventLoop Callback) → l.immediate ≡ q → Posting q l l
    unfolding posts_from
    Posting-same q l e = record {
      cbs = [];
      queued = [];
      invoked_eq = sym (append-nil l.invoked);
      queue_eq = e ∙ sym (append-nil q);
      part = nothing;
    }

    Posting-then :
        {q : List Callback} {l l₁ l₂ : EventLoop Callback} (ys : List Callback) (g : Posting q l l₁)
        → Posting (ys ++ g.queued) l₁ l₂
        → Posting ys l l₂
    Posting-then {l = l} ys g h = record {
      cbs = g.cbs ++ h.cbs;
      queued = g.queued ++ h.queued;
      invoked_eq =
          h.invoked_eq ∙ ap (λ i. i ++ h.cbs) g.invoked_eq ∙ append_assoc l.invoked g.cbs h.cbs;
      queue_eq = h.queue_eq ∙ append_assoc ys g.queued h.queued;
      part = subst (Part (g.queued ++ h.queued)) (sym (posts_from_append l.invoked g.cbs h.cbs)) (
          Part-append g.part (subst (λ i. Part h.queued (posts_from i h.cbs)) g.invoked_eq h.part));
    }

    -- Only what had run before matters, and what the queue was is what it equals.
    Posting-from :
        {q q' : List Callback} {l l₀ l' : EventLoop Callback}
        → l₀.invoked ≡ l.invoked
        → q' ≡ q
        → Posting q' l₀ l'
        → Posting q l l'
    Posting-from e d g = record {
      cbs = g.cbs;
      queued = g.queued;
      invoked_eq = g.invoked_eq ∙ ap (λ i. i ++ g.cbs) e;
      queue_eq = g.queue_eq ∙ ap (λ q. q ++ g.queued) d;
      part = subst (λ i. Part g.queued (posts_from i g.cbs)) e g.part;
    }

    -- What granting requests leaves.
    record Granted (rs : List (Request Callback)) (l l' : EventLoop Callback) : Type 0 where
      queued : List Callback
      invoked_eq : l'.invoked ≡ l.invoked
      queue_eq : l'.immediate ≡ l.immediate ++ queued
      part : Part queued (posts rs)

    grant-Granted :
        (r : Request Callback) (l : EventLoop Callback) → Granted (r ∷ []) l (grant requests r l)
    unfolding posts
    grant-Granted (to_post cb) l =
        post_elim (Granted (to_post cb ∷ []) l) cb l
          (record {
            queued = [];
            invoked_eq = refl;
            queue_eq = sym (append-nil l.immediate);
            part = left_out nothing;
          })
          (λ room. record {
            queued = cb ∷ [];
            invoked_eq = refl;
            queue_eq = refl;
            part = taken nothing;
          })
    grant-Granted (to_post_after d cb) l =
        post_after_elim (Granted (to_post_after d cb ∷ []) l) d cb l
          (record {
            queued = [];
            invoked_eq = refl;
            queue_eq = sym (append-nil l.immediate);
            part = nothing;
          })
          (λ room. record {
            queued = [];
            invoked_eq = refl;
            queue_eq = sym (append-nil l.immediate);
            part = nothing;
          })
    grant-Granted to_stop l = record {
      queued = [];
      invoked_eq = refl;
      queue_eq = sym (append-nil l.immediate);
      part = nothing;
    }
    grant-Granted (to_advance d) l = record {
      queued = [];
      invoked_eq = refl;
      queue_eq = sym (append-nil l.immediate);
      part = nothing;
    }

    posts-cons :
        (r : Request Callback) (rs : List (Request Callback))
        → posts (r ∷ rs) ≡ posts (r ∷ []) ++ posts rs
    unfolding posts
    posts-cons (to_post cb) rs = refl
    posts-cons (to_post_after d cb) rs = refl
    posts-cons to_stop rs = refl
    posts-cons (to_advance d) rs = refl

    grant_all-Granted :
        (rs : List (Request Callback)) (l : EventLoop Callback)
        → Granted rs l (grant_all requests rs l)
    unfolding grant_all posts
    grant_all-Granted [] l = record {
      queued = [];
      invoked_eq = refl;
      queue_eq = sym (append-nil l.immediate);
      part = nothing;
    }
    grant_all-Granted (r ∷ rs) l =
        let g : Granted (r ∷ []) l (grant requests r l) = grant-Granted r l in
        let h : Granted rs (grant requests r l) (grant_all requests rs (grant requests r l)) =
          grant_all-Granted rs (grant requests r l) in
        record {
          queued = g.queued ++ h.queued;
          invoked_eq = h.invoked_eq ∙ g.invoked_eq;
          queue_eq =
              h.queue_eq
              ∙ ap (λ q. q ++ h.queued) g.queue_eq
              ∙ append_assoc l.immediate g.queued h.queued;
          part =
              subst (Part (g.queued ++ h.queued)) (sym (posts-cons r rs))
                (Part-append g.part h.part);
        }

    invoke-Posting :
        (cb : Callback) (l : EventLoop Callback) → Posting l.immediate l (invoke requests cb l)
    unfolding invoke posts_from
    invoke-Posting cb l =
        let g : Granted (requests l.invoked cb) (record l { invoked = l.invoked ++ cb ∷ [] })
            (grant_all requests (requests l.invoked cb)
              (record l { invoked = l.invoked ++ cb ∷ [] })) =
          grant_all-Granted (requests l.invoked cb) _ in
        record {
          cbs = cb ∷ [];
          queued = g.queued;
          invoked_eq = g.invoked_eq;
          queue_eq = g.queue_eq;
          part = subst (Part g.queued) (sym (append-nil (posts (requests l.invoked cb)))) g.part;
        }

    pub drain-Posting :
        (xs ys : List Callback) (l : EventLoop Callback) (ran : ℕ)
        → l.immediate ≡ xs ++ ys
        → Posting ys l (drain requests (length xs) l ran).1
    drain-Posting [] ys l ran e = unfold drain in Posting-same ys l e
    drain-Posting (x ∷ xs) ys l ran e =
        let front : EventLoop Callback = without_front requests l (xs ++ ys) in
        let g : Posting (xs ++ ys) front (invoke requests x front) = invoke-Posting x front in
        let h =
          drain-Posting xs (ys ++ g.queued) (invoke requests x front) (bump ran)
            (g.queue_eq ∙ append_assoc xs ys g.queued) in
        subst (λ (p : ℕ × EventLoop Callback). Posting ys l p.1)
          (sym (drain_step requests (length xs) l ran e))
          (Posting-from refl refl (Posting-then ys g h))

    pub fire-Posting :
        (f now : ℕ) (l : EventLoop Callback) (ran : ℕ) {r : ℕ × EventLoop Callback}
        → fire requests f now l ran ≡ some r
        → Posting l.immediate l r.1
    fire-Posting zero now l ran e = unfold fire in cc
    fire-Posting (suc f) now l ran {r} e = elim (take_due-cases now l.timers) [
      | inl (no_timer, d) ↦
          subst (λ (p : ℕ × EventLoop Callback). Posting l.immediate l p.1)
            (some_injective (sym (fire_end requests f now l ran no_timer) ∙ e))
            (Posting-same l.immediate l refl)
      | inr found ↦
          let start : EventLoop Callback = with_timers requests l found.rest in
          let g : Posting l.immediate start (invoke requests found.timer.cb start) =
            invoke-Posting found.timer.cb start in
          let h =
            fire-Posting f now (invoke requests found.timer.cb start) (bump ran)
              (sym (fire_step requests f now l ran found.taken) ∙ e) in
          Posting-from refl refl (Posting-then l.immediate g (Posting-from refl g.queue_eq h))
    ]

    run_once-Posting :
        (f : ℕ) (l : EventLoop Callback) {r : ℕ × EventLoop Callback}
        → run_once requests f l ≡ some r
        → Posting [] l r.1
    unfolding run_once
    run_once-Posting f l e =
        let p : ℕ × EventLoop Callback = drain requests (length l.immediate) l 0 in
        let g : Posting [] l p.1 =
          drain-Posting l.immediate [] l 0 (sym (append-nil l.immediate)) in
        Posting-then [] g (Posting-from refl g.queue_eq (fire-Posting f p.1.clock p.1 p.0 e))

    -- The queue that a call of `RunOnce` leaves, by the callbacks that it invoked.
    pub run_once-Part :
        (f : ℕ) (l : EventLoop Callback) (cbs : List Callback) {n : ℕ} {l' : EventLoop Callback}
        → run_once requests f l ≡ some (n, l')
        → l'.invoked ≡ l.invoked ++ cbs
        → Part l'.immediate (posts_from l.invoked cbs)
    run_once-Part f l cbs {l' = l'} e i =
        let g : Posting [] l l' = run_once-Posting f l e in
        subst (λ q. Part q (posts_from l.invoked cbs)) (sym g.queue_eq)
          (subst (λ c. Part g.queued (posts_from l.invoked c))
            (cancel_front l.invoked g.cbs cbs (sym g.invoked_eq ∙ i)) g.part)
