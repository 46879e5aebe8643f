-- ===== src/Events/Earliest.antt =====
-- `EarliestTimer` names the first of the timers with the least due time.
use cpp_template.Base.{
  ℕ, suc, zero, ◌+◌, ◌≤◌, ◌<◌, none, some, List, [], ◌∷◌, ◌++◌, ◌≡◌, refl, sym, ◌∙◌, ap, subst, All,
  arith, append-nil, append_assoc, length, length-append, get_elem?, take, take-append, inl, inr,
  Bool-cases, ltb→lt, lt-length_of_some, if_true, if_false,
}
use cpp_template.Events.{TimerEntry, earliest_from, earliest_timer, better, before}
use cpp_template.Events.Grown.{All-append, All-map}

get_elem?_append {ℓ} :
    {A : Type ℓ} (xs ys : List A) (i : ℕ) {a : A}
    → get_elem? xs i ≡ some a
    → get_elem? (xs ++ ys) i ≡ some a
get_elem?_append [] ys i h = cc
get_elem?_append (x ∷ xs) ys zero h = h
get_elem?_append (x ∷ xs) ys (suc i) h = get_elem?_append xs ys i h

get_elem?_last {ℓ} :
    {A : Type ℓ} (xs : List A) (a : A) → get_elem? (xs ++ a ∷ []) (length xs) ≡ some a
get_elem?_last [] a = refl
get_elem?_last (x ∷ xs) a = get_elem?_last xs a

take_append {ℓ} :
    {A : Type ℓ} (xs ys : List A) (i : ℕ) → i ≤ length xs → take i (xs ++ ys) ≡ take i xs
take_append xs ys zero h = refl
take_append [] ys (suc i) h = absurd (omega arith)
take_append (x ∷ xs) ys (suc i) h = ap (λ l. x ∷ l) (take_append xs ys i (omega arith))

module _ {Callback : Type 0} where
  -- `t` stands at `k`, no timer of `ts` is due before it, and each one in front of it later.
  pub record Best (ts : List (TimerEntry Callback)) (k : ℕ) (t : TimerEntry Callback) : Type 0 where
    pub at : get_elem? ts k ≡ some t
    pub least : All (λ u. t.due ≤ u.due) ts
    pub first : All (λ u. t.due < u.due) (take k ts)

  better-Best :
      (ps : List (TimerEntry Callback)) (x : TimerEntry Callback) (j : ℕ) (u : TimerEntry Callback)
      → Best ps j u
      → let b = better (length ps) x (some (j, u)) in Best (ps ++ x ∷ []) b.0 b.1
  better-Best ps x j u b = elim (Bool-cases (before x.due u.due)) [
    | inl sooner ↦
        let lt : x.due < u.due = ltb→lt x.due u.due sooner in
        subst (λ (r : ℕ × TimerEntry Callback). Best (ps ++ x ∷ []) r.0 r.1)
          (sym (if_true (length ps, x) (j, u) sooner))
          (record {
            at = get_elem?_last ps x;
            least =
                All-append _ ps (x ∷ [])
                  (All-map _ _ ps (λ v (h : u.due ≤ v.due). omega (arith, lt, h)) b.least)
                  (omega arith, tt);
            first =
                subst (All (λ v. x.due < v.due)) (sym (take-append ps (x ∷ [])))
                  (All-map _ _ ps (λ v (h : u.due ≤ v.due). omega (arith, lt, h)) b.least);
          })
    | inr later ↦
        subst (λ (r : ℕ × TimerEntry Callback). Best (ps ++ x ∷ []) r.0 r.1)
          (sym (if_false (length ps, x) (j, u) later))
          (record {
            at = get_elem?_append ps (x ∷ []) j b.at;
            least = All-append _ ps (x ∷ []) b.least (ground arith, tt);
            first =
                subst (All (λ v. u.due < v.due))
                  (sym (take_append ps (x ∷ []) j (omega (arith, lt-length_of_some ps j b.at))))
                  b.first;
          })
  ]

  earliest_from_cons :
      (i : ℕ) (x : TimerEntry Callback) (ts : List (TimerEntry Callback)) (j : ℕ)
      (u : TimerEntry Callback)
      → earliest_from i (x ∷ ts) (some (j, u))
        ≡ earliest_from (i + 1) ts (some (better i x (some (j, u))))
  unfolding earliest_from
  earliest_from_cons i x ts j u = refl

  pub earliest_timer-nil : earliest_timer {Callback = Callback} [] ≡ none
  unfolding earliest_timer earliest_from
  earliest_timer-nil = refl

  earliest_timer_cons :
      (t : TimerEntry Callback) (ts : List (TimerEntry Callback))
      → earliest_timer (t ∷ ts) ≡ earliest_from 1 ts (some (0, t))
  unfolding earliest_timer earliest_from
  earliest_timer_cons t ts = refl

  earliest_from-Best :
      (ts ps : List (TimerEntry Callback)) (i j : ℕ) (u : TimerEntry Callback)
      → i ≡ length ps
      → Best ps j u
      → (k : ℕ) × (t : TimerEntry Callback) × (earliest_from i ts (some (j, u)) ≡ some (k, t))
        × Best (ps ++ ts) k t
  earliest_from-Best [] ps i j u e b =
      (j, u, unfold earliest_from in refl, subst (λ l. Best l j u) (sym (append-nil ps)) b)
  earliest_from-Best (x ∷ ts) ps i j u e b =
      let r : ℕ × TimerEntry Callback = better (length ps) x (some (j, u)) in
      let (k, t, found, best) =
        earliest_from-Best ts (ps ++ x ∷ []) (i + 1) r.0 r.1
          (omega (arith, length-append ps (x ∷ []))) (better-Best ps x j u b) in
      (
        k,
        t,
        earliest_from_cons i x ts j u
            ∙ (ap (λ n. earliest_from (i + 1) ts (some (better n x (some (j, u))))) e ∙ found),
        subst (λ l. Best l k t) (append_assoc ps (x ∷ []) ts) best,
      )

  -- `EarliestTimer` answers -1 for an empty table only; else it names a timer that is due no
  -- later than any other, the first such one of the table.
  pub earliest_timer-Best :
      (t : TimerEntry Callback) (ts : List (TimerEntry Callback))
      → (k : ℕ) × (u : TimerEntry Callback) × (earliest_timer (t ∷ ts) ≡ some (k, u))
        × Best (t ∷ ts) k u
  earliest_timer-Best t ts =
      let (k, u, found, best) =
        earliest_from-Best ts (t ∷ []) 1 0 t refl
          (record { at = refl; least = (omega arith, tt); first = tt }) in
      (k, u, earliest_timer_cons t ts ∙ found, best)
