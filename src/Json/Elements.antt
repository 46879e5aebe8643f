-- ===== src/Json/Elements.antt =====
-- The elements of an array: `operator[](size_t)` reaches as many as `size()` says, in order.
use cpp_template.Base.{
  ℕ, zero, suc, ◌+◌, ◌^◌, ◌≤◌, ◌<◌, true, false, some, List, ◌≡◌, refl, sym, ◌∙◌, ◌⊎◌, inl, inr,
  arith, ◌==◌, ==_iff, if◌then◌else◌, Bool-cases, Option-cases, ltb, lt→ltb, Bytes, length,
  get_elem?, get_elem?-in_range, lt-length_of_some, take, length-take, get_elem?-take,
}
use cpp_template.Core.{ok}
use cpp_template.Json.{Token, minus_one, to_int32, inc32, inc64, array, kind_number}
use cpp_template.Json.Inv.{children, children-le}
use cpp_template.Json.Parse.{returned, parse}
use cpp_template.Json.Safe.{parse_lem}
use cpp_template.Json.View.{
  View, no_view, lt_int32, valid, token, size, is_array, element_loop, element, type,
}

-- What the navigation relies on of a parsed array of tokens.
pub record Document (ts : List Token) : Type 0 where
  pub few : length ts < 2 ^ 31
  pub parents :
      (i : ℕ) (t : Token) → get_elem? ts i ≡ some t → (t.parent ≡ minus_one) ⊎ (t.parent < i)
  pub sizes : (i : ℕ) (t : Token) → get_elem? ts i ≡ some t → t.size ≡ children ts (length ts) i

children-take : (ts : List Token) (n m i : ℕ) → m ≤ n → children (take n ts) m i ≡ children ts m i
unfolding children
children-take ts n zero i h = refl
children-take ts n (suc m) i h = rw (children-take ts n m i (omega arith), get_elem?-take ts n m h)

pub children_mono : (ts : List Token) (m n i : ℕ) → m ≤ n → children ts m i ≤ children ts n i
unfolding children
children_mono ts m zero i h = let e : m ≡ 0 = omega arith in rw e (omega arith)
children_mono ts m (suc n) i h = elim (Bool-cases (m == suc n)) [
  | inl e ↦ rw ((==_iff m (suc n)).0 e) (omega arith)
  | inr e ↦ omega (arith, children_mono ts m n i (ground arith))
]

-- The tokens up to `a` itself are no children of `a`.
children_before :
    {ts : List Token} (d : Document ts) (m a : ℕ) → m ≤ suc a → a < 2 ^ 31 → children ts m a ≡ 0
unfolding children
children_before d zero a h k = refl
children_before {ts} d (suc m) a h k = elim (Option-cases (get_elem? ts m)) [
  | inl e ↦ ground (arith, children_before d m a)
  | inr (t, e) ↦ ground (arith, children_before d m a, d.parents m t e)
]

lt_int32_small : (a b : ℕ) → a < 2 ^ 31 → b < 2 ^ 31 → lt_int32 a (to_int32 b) ≡ ltb a b
unfolding lt_int32
lt_int32_small a b h k = ground arith

-- What the loop picks for `i`: the child of `v` that has `i` children before it, or nothing.
abbrev pub Picks : View → ℕ → View → Type 0
Picks v i r =
    ((i < children v.tokens (length v.tokens) v.index)
      × ((k : ℕ) × (t : Token) × (r ≡ record v { index = k })
          × (get_elem? v.tokens k ≡ some t)
          × (t.parent ≡ v.index)
          × (children v.tokens k v.index ≡ i)))
    ⊎ ((children v.tokens (length v.tokens) v.index ≤ i) × (r ≡ no_view))

children_step :
    (ts : List Token) (j a : ℕ) (t : Token)
    → get_elem? ts j ≡ some t
    → children ts (suc j) a ≡ children ts j a + (if t.parent == a then 1 else 0)
unfolding children
children_step ts j a t at = rw at refl

-- One round of the loop, at a token.
element_loop_step :
    (f : ℕ) (v : View) (i j seen : ℕ) (t : Token)
    → length v.tokens < 2 ^ 31
    → get_elem? v.tokens j ≡ some t
    → element_loop (suc f) v i j seen ≡ (elim (t.parent == v.index) [
      | false ↦ element_loop f v i (inc32 j) seen
      | true ↦ elim (seen == i) [
        | true ↦ record v { index = j }
        | false ↦ element_loop f v i (inc32 j) (inc64 seen)
      ]
    ])
unfolding element_loop
element_loop_step f v i j seen t few at =
    let lt = lt-length_of_some v.tokens j at in
    let test : lt_int32 j (to_int32 (length v.tokens)) ≡ true =
      lt_int32_small j (length v.tokens) (omega arith) few ∙ lt→ltb _ _ lt in
    rw (test, element_loop) (rw at)

element_loop_end :
    (f : ℕ) (v : View) (i j seen : ℕ)
    → length v.tokens < 2 ^ 31
    → j ≡ length v.tokens
    → element_loop f v i j seen ≡ no_view
unfolding element_loop
element_loop_end zero v i j seen few e = refl
element_loop_end (suc f) v i j seen few e =
    let test : lt_int32 j (to_int32 (length v.tokens)) ≡ false =
      lt_int32_small j (length v.tokens) (omega arith) few ∙ ground arith in
    rw (test, element_loop)

element_loop-Picks :
    (f : ℕ) (v : View) (i j seen : ℕ)
    → Document v.tokens
    → length v.tokens < j + f + 1
    → j ≤ length v.tokens
    → seen ≡ children v.tokens j v.index
    → seen ≤ i
    → Picks v i (element_loop f v i j seen)
element_loop-Picks zero v i j seen d fuel le e h =
    let last : j ≡ length v.tokens = omega arith in
    rw (element_loop_end zero v i j seen d.few last) (inr (rw (← last) (omega arith), refl))
element_loop-Picks (suc f) v i j seen d fuel le e h = elim (Bool-cases (ltb j (length v.tokens))) [
  | inr over ↦
      let last : j ≡ length v.tokens = ground arith in
      rw (element_loop_end (suc f) v i j seen d.few last) (inr (rw (← last) (omega arith), refl))
  | inl inside ↦
      let lt : j < length v.tokens = ground arith in
      let (t, at) = get_elem?-in_range v.tokens j lt in
      let next : inc32 j ≡ suc j = omega (arith, d.few) in
      let step = children_step v.tokens j v.index t at in
      rw (element_loop_step f v i j seen t d.few at) (elim (Bool-cases (t.parent == v.index)) [
        | inr other ↦
            rw other
              (rw next (element_loop-Picks f v i (suc j) seen d (omega arith) lt (ground arith) h))
        | inl child ↦ rw child (elim (Bool-cases (seen == i)) [
          | inl this ↦ rw this (
              inl (
                ground (arith, children_mono v.tokens (suc j) (length v.tokens) v.index lt),
                (j, t, refl, at, (==_iff _ _).0 child, sym e ∙ (==_iff _ _).0 this),
              ))
          | inr later ↦
              let count : inc64 seen ≡ suc seen =
                omega (arith, children-le v.tokens j v.index, d.few) in
              rw later (
                rw (count, next)
                  (element_loop-Picks f v i (suc j) (suc seen) d (omega arith) lt (ground arith)
                    (ground arith)))
        ])
      ])
]

valid_small :
    (v : View)
    → length v.tokens < 2 ^ 31
    → v.index < 2 ^ 31
    → valid v ≡ ltb v.index (length v.tokens)
unfolding valid lt_int32
valid_small v few h = ground arith

no_view_invalid : valid no_view ≡ false
unfolding valid lt_int32
no_view_invalid = refl

pub token-eq :
    (v : View) (t : Token)
    → length v.tokens < 2 ^ 31
    → get_elem? v.tokens v.index ≡ some t
    → token v ≡ some t
unfolding token
token-eq v t few at =
    let lt = lt-length_of_some v.tokens v.index at in
    let good : valid v ≡ true = valid_small v few (omega arith) ∙ lt→ltb _ _ lt in rw good at

abbrev Element : View → ℕ → View → Type 0
Element v i r =
    (k : ℕ) × (u : Token) × (r ≡ record v { index = k })
    × (get_elem? v.tokens k ≡ some u)
    × (u.parent ≡ v.index)
    × (children v.tokens k v.index ≡ i)

Picks-Element :
    (v : View) (i : ℕ) (r : View)
    → length v.tokens < 2 ^ 31
    → Picks v i r
    → (valid r ≡ ltb i (children v.tokens (length v.tokens) v.index))
      × (i < children v.tokens (length v.tokens) v.index → Element v i r)
Picks-Element v i r few (inl (lt, (k, u, e, at, up, nth))) =
    let here = lt-length_of_some v.tokens k at in
    (
      rw e (
          valid_small (record v { index = k }) few (omega arith)
          ∙ lt→ltb _ _ here
          ∙ sym (lt→ltb _ _ lt)),
      λ _. (k, u, e, at, up, nth),
    )
Picks-Element v i r few (inr (le, e)) =
    (rw e (no_view_invalid ∙ ground arith), λ lt. absurd (omega arith))

element_lem :
    (v : View) (i : ℕ) (t : Token)
    → Document v.tokens
    → get_elem? v.tokens v.index ≡ some t
    → t.kind ≡ array
    → (valid (element v i) ≡ ltb i (size v))
      × (i < size v
          → (k : ℕ) × (u : Token) × (element v i ≡ record v { index = k })
            × (get_elem? v.tokens k ≡ some u)
            × (u.parent ≡ v.index)
            × (children v.tokens k v.index ≡ i))
unfolding element is_array type size
element_lem v i t d at k =
    let lt = lt-length_of_some v.tokens v.index at in
    let here : token v ≡ some t = token-eq v t d.few at in
    let array_here : (kind_number (type v) == kind_number array) ≡ true = rw (here, type) (rw k) in
    let total : size v ≡ children v.tokens (length v.tokens) v.index =
      rw (here, size) (rw k (d.sizes v.index t at)) in
    let first : inc32 v.index ≡ suc v.index = omega (arith, d.few) in
    let none_seen : children v.tokens (suc v.index) v.index ≡ 0 =
      children_before d (suc v.index) v.index (omega arith) (omega (arith, d.few)) in
    let picks : Picks v i (element_loop (length v.tokens) v i (suc v.index) 0) =
      element_loop-Picks (length v.tokens) v i (suc v.index) 0 d (omega arith) lt (sym none_seen)
        (omega arith) in
    rw array_here (rw (first, total) (Picks-Element v i _ d.few picks))

-- Parsed tokens are a document.
pub parse-Document :
    (js : Bytes) (ts : List Token) {n : ℕ} {ts' : List Token}
    → length js < 2 ^ 31
    → length ts < 2 ^ 31
    → parse js ts ≡ returned (ok n) ts'
    → Document (take n ts')
parse-Document js ts {n} {ts'} short few e =
    let (le, same, sound) = parse_lem js ts short few e in
    let count : length (take n ts') ≡ n = length-take n ts' ∙ omega arith in
    record {
      few = omega arith;
      parents = λ i t at.
          let lt = lt-length_of_some (take n ts') i at in
          (sound i t (omega arith) (sym (get_elem?-take ts' n i (omega arith)) ∙ at)).parent_below;
      sizes = λ i t at.
          let lt = lt-length_of_some (take n ts') i at in
          (sound i t (omega arith) (sym (get_elem?-take ts' n i (omega arith)) ∙ at)).size_is
          ∙ rw count (sym (children-take ts' n n i (omega arith)));
    }

-- In a document that `Parse` accepted, a view on an array yields a valid element exactly for the
-- indices below its `size()`, and element `i` is the child of the array with `i` children before it.
pub parse-element :
    (js : Bytes) (ts : List Token) {n : ℕ} {ts' : List Token} (a i : ℕ) (t : Token)
    → length js < 2 ^ 31
    → length ts < 2 ^ 31
    → parse js ts ≡ returned (ok n) ts'
    → get_elem? (take n ts') a ≡ some t
    → t.kind ≡ array
    → let v : View = record { src = js; tokens = take n ts'; index = a } in
      (valid (element v i) ≡ ltb i (size v))
      × (i < size v
          → (k : ℕ) × (u : Token) × (element v i ≡ record v { index = k })
            × (get_elem? v.tokens k ≡ some u)
            × (u.parent ≡ a)
            × (children v.tokens k a ≡ i))
parse-element js ts {n} {ts'} a i t short few e at k =
    element_lem (record { src = js; tokens = take n ts'; index = a }) i t
      (parse-Document js ts short few e) at k
