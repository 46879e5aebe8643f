-- ===== src/Json/Grow.antt =====
-- A fresh token joins the array, and its parent counts one child more.
use cpp_template.Base.{
  ℕ, zero, suc, ◌+◌, ◌^◌, ◌≤◌, ◌<◌, none, some, List, ◌≡◌, refl, ◌⊎◌, inl, inr, arith, ◌==◌,
  if◌then◌else◌, Bool-cases, Option-cases, Bytes, length, get_elem?, set, length-set,
  get_elem?-set_self, get_elem?-set_ne, get_elem?-set_inv, lt-length_of_some,
}
use cpp_template.Json.{Token, minus_one, inc32, Parser}
use cpp_template.Json.Inv.{
  Apart, Good, Inv, children, names_parent, children-le, children-set_above, children-set_parent,
}

abbrev pub bumped : Token → Token
bumped t = record t { size = inc32 t.size }

-- `tokens[s].size++`, if `s` is a token.
unfoldable pub bump_at : ℕ → List Token → List Token
bump_at s ts =
    if s == minus_one
    then ts
    else elim (get_elem? ts s) [ none ↦ ts | some t ↦ set ts s (bumped t) ]

pub length-bump_at : (s : ℕ) (ts : List Token) → length (bump_at s ts) ≡ length ts
unfolding bump_at
length-bump_at s ts = elim (Option-cases (get_elem? ts s)) [
  | inl e ↦ ground arith
  | inr (t, e) ↦ ground (arith, length-set ts s (bumped t))
]

-- Token `i` after the count, from the token before it.
pub record Bumped (s i : ℕ) (u t : Token) : Type 0 where
  pub kind_same : t.kind ≡ u.kind
  pub start_same : t.start ≡ u.start
  pub end_same : t.end ≡ u.end
  pub parent_same : t.parent ≡ u.parent
  pub size_is : t.size ≡ (if s == i then inc32 u.size else u.size)

pub bump_at-Bumped :
    (s : ℕ) (ts : List Token) (i : ℕ) (t : Token)
    → i < 2 ^ 31
    → get_elem? (bump_at s ts) i ≡ some t
    → (u : Token) × (get_elem? ts i ≡ some u) × Bumped s i u t
unfolding bump_at
bump_at-Bumped s ts i t small h = elim (Bool-cases (s == minus_one)) [
  | inl e ↦ (t, rw e at h, ground arith)
  | inr e ↦ elim (Option-cases (get_elem? ts s)) [
    | inl g ↦ (t, ground arith, ground arith)
    | inr (v, g) ↦ elim (Bool-cases (s == i)) [
      | inl q ↦ (
        v,
        ground arith,
        ground (arith, get_elem?-set_self ts s (bumped v), lt-length_of_some ts s g),
      )
      | inr q ↦ (
        t,
        ground (arith, get_elem?-set_ne ts s i (bumped v)),
        ground (arith, get_elem?-set_ne ts s i (bumped v)),
      )
    ]
  ]
]

pub children-bump_at :
    (s : ℕ) (ts : List Token) (n i : ℕ) → children (bump_at s ts) n i ≡ children ts n i
unfolding bump_at
children-bump_at s ts n i = elim (Option-cases (get_elem? ts s)) [
  | inl e ↦ ground arith
  | inr (t, e) ↦ ground (arith, children-set_parent ts n s i t (bumped t))
]

-- The fresh token counts for its parent only.
children-set_last :
    (ts : List Token) (n i : ℕ) (t : Token)
    → n < length ts
    → children (set ts n t) (suc n) i ≡ children ts n i + names_parent (some t) i
unfolding children
children-set_last ts n i t h =
    rw (children-set_above ts n n i t (omega arith), get_elem?-set_self ts n t h)

-- No token names a later one as its parent.
children_none :
    {js : Bytes} {b : ℕ} {p : Parser}
    → Inv js b p
    → (n m : ℕ) → n ≤ m
    → n ≤ p.toknext
    → m < 2 ^ 31
    → children p.tokens n m ≡ 0
unfolding children
children_none v zero m h k l = refl
children_none {p = p} v (suc n) m h k l = elim (Option-cases (get_elem? p.tokens n)) [
  | inl e ↦ ground (arith, children_none v n m)
  | inr (t, e) ↦ ground (arith, children_none v n m, (v.each n t (omega arith) e).parent_below)
]

-- The parser after a fresh token; `pos` and `toksuper` differ by the token's kind.
abbrev pub grown : Parser → Token → ℕ → ℕ → Parser
grown p t pos super = record {
  tokens = bump_at p.toksuper (set p.tokens p.toknext t);
  pos = pos;
  toknext = suc p.toknext;
  toksuper = super;
}

pub Good-mono : {js : Bytes} {b i : ℕ} {t : Token} (c : ℕ) → b ≤ c → Good js b i t → Good js c i t
Good-mono c h g = record {
  parent_below = g.parent_below;
  spans = g.spans;
  begun = omega (arith, g.begun);
  ended = omega (arith, g.ended);
}

Good-Bumped :
    {js : Bytes} {b s i : ℕ} {u t : Token} → Bumped s i u t → Good js b i u → Good js b i t
Good-Bumped k g = record {
  parent_below = rw k.parent_same g.parent_below;
  spans = rw (k.kind_same, k.start_same, k.end_same) g.spans;
  begun = rw k.start_same g.begun;
  ended = rw k.end_same g.ended;
}

module _ {js : Bytes} {b : ℕ} {p : Parser} (v : Inv js b p) (room : p.toknext < length p.tokens)
    (c : ℕ) (later : b ≤ c) (t : Token) (fresh : t.size ≡ 0) (joined : t.parent ≡ p.toksuper)
    (good : Good js c p.toknext t) (begins : b ≤ t.start) where
  old_or_fresh :
      (i : ℕ) (w : Token)
      → i < suc p.toknext
      → get_elem? (set p.tokens p.toknext t) i ≡ some w
      → ((p.toknext ≡ i) × (w ≡ t)) ⊎ ((i < p.toknext) × (get_elem? p.tokens i ≡ some w))
  old_or_fresh i w h at = elim (get_elem?-set_inv p.tokens p.toknext i t at) [
    | inl e ↦ inl e
    | inr (n, e) ↦ inr (omega arith, e)
  ]

  set-each :
      (i : ℕ) (w : Token)
      → i < suc p.toknext
      → get_elem? (set p.tokens p.toknext t) i ≡ some w
      → Good js c i w
  set-each i w h at = elim (old_or_fresh i w h at) [
    | inl (e, q) ↦ rw (← e, q) good
    | inr (lt, q) ↦ Good-mono c later (v.each i w lt q)
  ]

  -- The count of `i` with the fresh token.
  set-counts :
      (i : ℕ) (w : Token)
      → i < suc p.toknext
      → get_elem? (set p.tokens p.toknext t) i ≡ some w
      → (w.size + (if p.toksuper == i then 1 else 0)
          ≡ children (set p.tokens p.toknext t) (suc p.toknext) i)
        × (w.size < 2 ^ 31)
  set-counts i w h at = elim (old_or_fresh i w h at) [
    | inl (e, q) ↦ ground (
      arith,
      children-set_last p.tokens p.toknext i t room,
      children_none v p.toknext i,
      v.super_in,
      v.few,
    )
    | inr (lt, q) ↦ ground (
      arith,
      children-set_last p.tokens p.toknext i t room,
      v.counts i w lt q,
      children-le p.tokens p.toknext i,
      v.next_in,
      v.few,
    )
  ]

  set-Apart :
      (i j : ℕ) (w u : Token)
      → i < j
      → j < suc p.toknext
      → get_elem? (set p.tokens p.toknext t) i ≡ some w
      → get_elem? (set p.tokens p.toknext t) j ≡ some u
      → Apart w u
  set-Apart i j w u lt h at at' = elim (old_or_fresh i w (omega arith) at) [
    | inl (e, q) ↦ absurd (omega arith)
    | inr (old, q) ↦ elim (old_or_fresh j u h at') [
      | inr (old', q') ↦ v.apart i j w u lt old' q q'
      | inl (e', q') ↦
          let g = v.each i w old q in rw q' (omega (arith, g.begun), omega (arith, g.ended))
    ]
  ]

  pub grown-Inv :
      (pos super : ℕ)
      → (super ≡ minus_one) ⊎ (super < suc p.toknext)
      → Inv js c (grown p t pos super)
  grown-Inv pos super h = record {
    short = v.short;
    few = rw (length-bump_at, length-set) v.few;
    next_in = rw (length-bump_at, length-set) (omega arith);
    super_in = h;
    each = λ i u lt at.
        let (w, was, k) =
          bump_at-Bumped p.toksuper (set p.tokens p.toknext t) i u (omega (arith, v.next_in, v.few))
            at in
        Good-Bumped k (set-each i w lt was);
    counts = λ i u lt at.
        let (w, was, k) =
          bump_at-Bumped p.toksuper (set p.tokens p.toknext t) i u (omega (arith, v.next_in, v.few))
            at in
        rw children-bump_at (ground (arith, k.size_is, set-counts i w lt was));
    apart = λ i j u u' lt lt' at at'.
        let (w, was, k) =
          bump_at-Bumped p.toksuper (set p.tokens p.toknext t) i u (omega (arith, v.next_in, v.few))
            at in
        let (w', was', k') =
          bump_at-Bumped p.toksuper (set p.tokens p.toknext t) j u'
            (omega (arith, v.next_in, v.few)) at' in
        let a = set-Apart i j w w' lt lt' was was' in
        (
          omega (arith, k.start_same, k'.start_same, a.0),
          omega (arith, k.end_same, k'.start_same, k'.end_same, a.1),
        );
  }
