-- ===== src/Json/Brackets.antt =====
-- The structural bytes: containers open and close, and `:` and `,` move the parent.
use cpp_template.Base.{
  ℕ, zero, suc, ◌-◌, ◌^◌, ◌≤◌, ◌<◌, true, false, some, some_injective, ◌∙◌, ap, ==_iff, List, ◌≡◌,
  refl, sym, ◌≢◌, ◌⊎◌, inl, inr, arith, ◌==◌, if◌then◌else◌, Bool-cases, ◌||◌, Option-cases, Bytes,
  length, get_elem?, set, length-set, get_elem?-set_self, get_elem?-set_ne, set-set_self,
  set-set_ne, subst, get_elem?-in_range, get_elem?-set_inv,
}
use cpp_template.Json.{
  Kind, object, array, kind_number, Token, minus_one, blank, to_int32, inc64, Parser, cont, alloc,
  put, count_child,
}
use cpp_template.Json.Inv.{Good, Spans, Inv, children-set_parent}
use cpp_template.Json.Grow.{bumped, bump_at, length-bump_at, grown, grown-Inv, Good-mono}
use cpp_template.Json.Leaf.{alloc_cases, count_child_lem}
use cpp_template.Json.Parse.{
  is_open, Scan, found, nowhere, outside, scan_open, open_container, close_container, comma,
}
use cpp_template.Json.Sound.{Keeps}

-- Writing the fresh token before or after its parent's count makes no difference.
set-bump_at :
    (s n : ℕ) (ts : List Token) (u w : Token)
    → s ≢ n
    → n < length ts
    → (set (bump_at s (set ts n u)) n w ≡ bump_at s (set ts n w))
      × (get_elem? (bump_at s (set ts n u)) n ≡ some u)
unfolding bump_at
set-bump_at s n ts u w ne h = elim (Option-cases (get_elem? ts s)) [
  | inl e ↦ ground (
    arith,
    get_elem?-set_ne ts n s u,
    get_elem?-set_ne ts n s w,
    set-set_self ts n u w,
    get_elem?-set_self ts n u,
  )
  | inr (t, e) ↦ ground (
    arith,
    get_elem?-set_ne ts n s u,
    get_elem?-set_ne ts n s w,
    set-set_self ts n u w,
    get_elem?-set_self ts n u,
    set-set_ne (set ts n u) s n (bumped t) w,
    get_elem?-set_ne (set ts n u) s n (bumped t),
  )
]

opened : Kind → Parser → Token
opened k p = record {
  kind = k;
  start = to_int32 p.pos;
  end = minus_one;
  size = 0;
  parent = if p.toksuper == minus_one then minus_one else p.toksuper;
}

kind_number_inj : (a b : Kind) → (kind_number a == kind_number b) ≡ true → a ≡ b
kind_number_inj a b h = ground arith

-- The scan finds the last open token below `n`, and never leaves the array.
pub scan_open_cases :
    (ts : List Token) (n : ℕ)
    → n ≤ length ts
    → (scan_open ts n ≡ nowhere)
      ⊎ ((i : ℕ) × (t : Token) × (i < n)
          × (get_elem? ts i ≡ some t)
          × (is_open t ≡ true)
          × (scan_open ts n ≡ found i t))
unfolding scan_open
scan_open_cases ts zero h = inl refl
scan_open_cases ts (suc n) h =
    let (t, at) = get_elem?-in_range ts n h in
    elim (Bool-cases (is_open t)) [
      | inl o ↦ inr (n, t, omega arith, at, o, rw (at, o, scan_open))
      | inr shut ↦
          rw (at, shut, scan_open)
            (elim (scan_open_cases ts n (omega arith)) [
              | inl e ↦ inl e
              | inr (i, u, lt, at', o, e) ↦ inr (i, u, omega arith, at', o, e)
            ])
    ]

found_index : {m n : ℕ} {t u : Token} → found m t ≡ found n u → m ≡ n
found_index {m} e = ap (λ (s : Scan). elim s [ found k v ↦ k | nowhere ↦ m | outside ↦ m ]) e

-- What is found is the last one: no later token is open.
scan_found :
    (ts : List Token) (n i j : ℕ) (t u : Token)
    → n ≤ length ts
    → scan_open ts n ≡ found i t
    → i < j
    → j < n
    → get_elem? ts j ≡ some u
    → is_open u ≡ false
unfolding scan_open
scan_found ts zero i j t u fits h lt le at = absurd (omega arith)
scan_found ts (suc n) i j t u fits h lt le at =
    let (w, last) = get_elem?-in_range ts n fits in
    elim (Bool-cases (is_open w)) [
      | inl o ↦
          let step : scan_open ts (suc n) ≡ found n w = rw (last, o, scan_open) in
          let here : found n w ≡ found i t = sym step ∙ h in
          absurd (omega (arith, found_index here))
      | inr shut ↦
          let step : scan_open ts (suc n) ≡ scan_open ts n = rw (last, shut, scan_open) in
          let below : scan_open ts n ≡ found i t = sym step ∙ h in
          elim (Bool-cases (n == j)) [
            | inl e ↦
                let same : some w ≡ some u = sym last ∙ ap (get_elem? ts) ((==_iff n j).0 e) ∙ at in
                ap is_open (sym (some_injective same)) ∙ shut
            | inr e ↦ scan_found ts n i j t u (omega arith) below lt (ground (arith, e)) at
          ]
    ]

-- A container that opens is a fresh token, and the parent of what follows.
open_container-grown :
    (k : Kind) (p : Parser)
    → p.toknext < length p.tokens
    → length p.tokens < 2 ^ 31
    → (p.toksuper ≡ minus_one) ⊎ (p.toksuper < p.toknext)
    → alloc p
      ≡ some
          (p.toknext, record p { tokens = set p.tokens p.toknext blank; toknext = suc p.toknext })
    → open_container k p ≡ cont (grown p (opened k p) p.pos p.toknext)
unfolding open_container put opened
open_container-grown k p room few s q =
    rw (q, open_container) (rw counted (ground (arith, swapped)))
  where
    sup : (p.toksuper ≡ minus_one) ⊎ (p.toksuper < length (set p.tokens p.toknext blank))
    sup = rw length-set (omega (arith, s))

    counted :
        count_child (record p { tokens = set p.tokens p.toknext blank; toknext = suc p.toknext })
        ≡ cont (record p {
          tokens = bump_at p.toksuper (set p.tokens p.toknext blank);
          toknext = suc p.toknext;
        })
    counted = count_child_lem _ sup

    swapped :
        (set (bump_at p.toksuper (set p.tokens p.toknext blank)) p.toknext (opened k p)
          ≡ bump_at p.toksuper (set p.tokens p.toknext (opened k p)))
        × (get_elem? (bump_at p.toksuper (set p.tokens p.toknext blank)) p.toknext ≡ some blank)
    swapped =
        set-bump_at p.toksuper p.toknext p.tokens blank (opened k p) (λ e. omega (arith, s)) room

module _ {js : Bytes} {p : Parser} (v : Inv js p.pos p) (inside : p.pos < length js) where
  pub open_container-Keeps :
      (k : Kind)
      → Spans js k p.pos minus_one
      → Keeps js (length p.tokens) p.pos (open_container k p)
  unfolding opened
  open_container-Keeps k sp = elim (alloc_cases p v.next_in v.few) [
    | inl full ↦ unfold open_container in rw (full, open_container) tt
    | inr (room, q) ↦
        let here : to_int32 p.pos ≡ p.pos = omega (arith, v.short) in
        let joined : (opened k p).parent ≡ p.toksuper = ground arith in
        rw (open_container-grown k p room v.few v.super_in q) (
          omega arith,
          inside,
          rw (length-bump_at, length-set),
          grown-Inv v room (suc p.pos) (omega arith) (opened k p) refl joined
              (record {
                parent_below = rw joined v.super_in;
                spans = rw here sp;
                begun = omega arith;
                ended = inl refl;
              })
              (omega arith) p.pos p.toknext (inr (omega arith)),
        )
  ]

  moved-Inv :
      (s : ℕ) → (s ≡ minus_one) ⊎ (s < p.toknext) → Inv js (suc p.pos) (record p { toksuper = s })
  moved-Inv s h = record {
    short = v.short;
    few = v.few;
    next_in = v.next_in;
    super_in = h;
    each = λ i t lt at. Good-mono (suc p.pos) (omega arith) (v.each i t lt at);
    counts = v.counts;
    apart = v.apart;
  }

  pub moved-Keeps :
      (s : ℕ)
      → (s ≡ minus_one) ⊎ (s < p.toknext)
      → Keeps js (length p.tokens) p.pos (cont (record p { toksuper = s }))
  moved-Keeps s h = (omega arith, inside, refl, moved-Inv s h)

  -- The token that a closing bracket ends.
  closed-Spans :
      (k : Kind) (s : ℕ)
      → (k ≡ object) × (get_elem? js p.pos ≡ some b'}')
        ⊎ (k ≡ array) × (get_elem? js p.pos ≡ some b']')
      → s < p.pos
      → Spans js k s minus_one
      → Spans js k s (to_int32 (inc64 p.pos))
  closed-Spans k s here lt sp =
      let last : to_int32 (inc64 p.pos) ≡ suc p.pos = omega (arith, v.short) in
      let back : suc p.pos - 1 ≡ p.pos = omega arith in
      rw last (elim here [
        | inl (e, at) ↦
            subst (λ k. Spans js k s (suc p.pos)) (sym e)
              ((subst (λ k. Spans js k s minus_one) e sp).0, inr (omega arith, rw back at))
        | inr (e, at) ↦
            subst (λ k. Spans js k s (suc p.pos)) (sym e)
              ((subst (λ k. Spans js k s minus_one) e sp).0, inr (omega arith, rw back at))
      ])

  closed-Inv :
      (i : ℕ) (t : Token)
      → i < p.toknext
      → get_elem? p.tokens i ≡ some t
      → t.end ≡ minus_one
      → ((j : ℕ) (u : Token)
          → i < j
          → j < p.toknext
          → get_elem? p.tokens j ≡ some u
          → is_open u ≡ false)
      → Spans js t.kind t.start (to_int32 (inc64 p.pos))
      → Inv js (suc p.pos) (record p {
        tokens = set p.tokens i (record t { end = to_int32 (inc64 p.pos) });
        toksuper = t.parent;
      })
  closed-Inv i t lt at open_end shut sp = record {
    short = v.short;
    few = rw length-set v.few;
    next_in = rw length-set v.next_in;
    super_in = omega (arith, good.parent_below);
    each = λ j u lt' at'. elim (get_elem?-set_inv p.tokens i j t' at') [
      | inl (e, q) ↦
          rw (← e, q)
            (record {
              parent_below = good.parent_below;
              spans = sp;
              begun = omega (arith, good.begun);
              ended = inr (omega (arith, v.short));
            })
      | inr (ne, old) ↦ Good-mono (suc p.pos) (omega arith) (v.each j u lt' old)
    ];
    counts = λ j u lt' at'.
        rw (children-set_parent p.tokens p.toknext i j t t' at refl)
          (elim (get_elem?-set_inv p.tokens i j t' at') [
            | inl (e, q) ↦ rw (← e, q) (v.counts i t lt at)
            | inr (ne, old) ↦ v.counts j u lt' old
          ]);
    apart = λ a c w u lt₁ lt₂ at₁ at₂. elim (get_elem?-set_inv p.tokens i a t' at₁) [
      | inl (e, q) ↦ elim (get_elem?-set_inv p.tokens i c t' at₂) [
        | inl (e', q') ↦ absurd (omega arith)
        | inr (ne', old') ↦
            let g = v.each c u lt₂ old' in
            let closed = shut c u (omega arith) lt₂ old' in
            let order = (v.apart i c t u (omega arith) lt₂ at old').0 in
            rw q (order, inr (inr (ground (arith, g.ended, g.begun, closed, v.short, inside))))
      ]
      | inr (ne, old) ↦ elim (get_elem?-set_inv p.tokens i c t' at₂) [
        | inl (e', q') ↦
            let g = v.each a w (omega arith) old in
            let both = v.apart a i w t (omega arith) lt old at in
            rw q' (both.0, omega (arith, both.1, g.ended, open_end, v.short, inside))
        | inr (ne', old') ↦ v.apart a c w u lt₁ lt₂ old old'
      ]
    ];
  }
    where
      good : Good js p.pos i t
      good = v.each i t lt at

      t' : Token
      t' = record t { end = to_int32 (inc64 p.pos) }

  pub close_container-Keeps :
      (k : Kind)
      → (k ≡ object) × (get_elem? js p.pos ≡ some b'}')
        ⊎ (k ≡ array) × (get_elem? js p.pos ≡ some b']')
      → Keeps js (length p.tokens) p.pos (close_container k p)
  unfolding close_container
  close_container-Keeps k here = elim (scan_open_cases p.tokens p.toknext v.next_in) [
    | inl e ↦ rw (e, close_container) tt
    | inr (i, t, lt, at, o, e) ↦ elim (Bool-cases (kind_number t.kind == kind_number k)) [
      | inr other ↦ rw (e, close_container) (rw other tt)
      | inl same ↦
          rw (e, close_container)
            (rw same (
              omega arith,
              inside,
              rw length-set,
              closed-Inv i t lt at (ground (arith, o))
                  (λ j u lt' in_table at'.
                    scan_found p.tokens p.toknext i j t u v.next_in e lt' in_table at')
                  (let k_is : t.kind ≡ k = kind_number_inj t.kind k same in
                    let open_end : t.end ≡ minus_one = ground arith in
                    rw k_is (
                      closed-Spans k t.start here (v.each i t lt at).begun
                        (rw (k_is, open_end) at (v.each i t lt at).spans))),
            ))
    ]
  ]

  pub comma-Keeps : Keeps js (length p.tokens) p.pos (comma p)
  unfolding comma
  comma-Keeps = elim (Bool-cases (p.toksuper == minus_one)) [
    | inl root ↦ rw root (moved-Keeps p.toksuper v.super_in)
    | inr inner ↦
        let lt : p.toksuper < p.toknext = ground (arith, v.super_in) in
        let (t, at) = get_elem?-in_range p.tokens p.toksuper (omega (arith, v.next_in)) in
        let up = (v.each p.toksuper t lt at).parent_below in
        rw inner (
          rw at
            (elim (Bool-cases (
              kind_number t.kind == kind_number array
              || kind_number t.kind == kind_number object)) [
                | inl container ↦ rw container (moved-Keeps p.toksuper v.super_in)
                | inr key ↦ rw key (moved-Keeps t.parent (omega arith))
              ]))
  ]
