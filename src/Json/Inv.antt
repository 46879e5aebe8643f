-- ===== src/Json/Inv.antt =====
-- The invariant of the tokeniser between two rounds of its main loop.
use cpp_template.Base.{
  ℕ, zero, suc, ◌+◌, ◌-◌, ◌^◌, ◌≤◌, ◌<◌, true, Option, none, some, List, ◌≡◌, refl, ap₂, ◌⊎◌, inl,
  inr, arith, ◌==◌, ==_iff, if◌then◌else◌, Bool-cases, Bytes, length, get_elem?, set,
  get_elem?-set_self, get_elem?-set_ne, lt-length_of_some,
}
use cpp_template.Json.{
  Kind, undefined, object, array, string, primitive, Token, minus_one, is_terminator, Parser,
}

-- Where a token of each kind lies in the source: an open container has its bracket, a closed one
-- both; a string lies between quotes; a primitive is not empty and ends before a terminator.
abbrev pub Spans : Bytes → Kind → ℕ → ℕ → Type 0
Spans js undefined s e = ⊥
Spans js object s e =
    (get_elem? js s ≡ some b'{')
    × ((e ≡ minus_one) ⊎ ((s + 1 < e) × (get_elem? js (e - 1) ≡ some b'}')))
Spans js array s e =
    (get_elem? js s ≡ some b'[')
    × ((e ≡ minus_one) ⊎ ((s + 1 < e) × (get_elem? js (e - 1) ≡ some b']')))
Spans js string s e =
    (0 < s) × (get_elem? js (s - 1) ≡ some b'"') × (s ≤ e) × (get_elem? js e ≡ some b'"')
Spans js primitive s e = (s < e) × ((c : ℕ) × (get_elem? js e ≡ some c) × (is_terminator c ≡ true))

-- How many of the first `n` tokens name `i` as their parent.
abbrev pub names_parent : Option Token → ℕ → ℕ
names_parent none i = 0
names_parent (some t) i = if t.parent == i then 1 else 0

unfoldable pub children : List Token → ℕ → ℕ → ℕ
children ts zero i = 0
children ts (suc n) i = children ts n i + names_parent (get_elem? ts n) i

-- Token `i`, when the bytes before `b` have been read.
pub record Good (js : Bytes) (b i : ℕ) (t : Token) : Type 0 where
  pub parent_below : (t.parent ≡ minus_one) ⊎ (t.parent < i)
  pub spans : Spans js t.kind t.start t.end
  pub begun : t.start < b
  pub ended : (t.end ≡ minus_one) ⊎ (t.end ≤ b)

-- A token and a later one: the later one starts later, and unless the first is open it lies behind
-- it or inside.
abbrev pub Apart : Token → Token → Type 0
Apart t u = (t.start < u.start) × ((t.end ≡ minus_one) ⊎ ((t.end ≤ u.start) ⊎ (u.end ≤ t.end)))

pub record Inv (js : Bytes) (b : ℕ) (p : Parser) : Type 0 where
  pub short : length js < 2 ^ 31
  pub few : length p.tokens < 2 ^ 31
  pub next_in : p.toknext ≤ length p.tokens
  pub super_in : (p.toksuper ≡ minus_one) ⊎ (p.toksuper < p.toknext)
  pub each : (i : ℕ) (t : Token) → i < p.toknext → get_elem? p.tokens i ≡ some t → Good js b i t
  pub counts :
      (i : ℕ) (t : Token)
      → i < p.toknext
      → get_elem? p.tokens i ≡ some t
      → t.size ≡ children p.tokens p.toknext i
  pub apart :
      (i j : ℕ) (t u : Token)
      → i < j
      → j < p.toknext
      → get_elem? p.tokens i ≡ some t
      → get_elem? p.tokens j ≡ some u
      → Apart t u

pub children-le : (ts : List Token) (n i : ℕ) → children ts n i ≤ n
unfolding children
children-le ts zero i = omega arith
children-le ts (suc n) i = ground (arith, children-le ts n i)

pub children-set_above :
    (ts : List Token) (n k i : ℕ) (t : Token) → n ≤ k → children (set ts k t) n i ≡ children ts n i
unfolding children
children-set_above ts zero k i t h = refl
children-set_above ts (suc n) k i t h =
    rw (children-set_above ts n k i t (omega arith), get_elem?-set_ne ts k n t (omega arith))

-- A write that keeps the parent keeps the counts.
pub children-set_parent :
    (ts : List Token) (n k i : ℕ) (t u : Token)
    → get_elem? ts k ≡ some t
    → u.parent ≡ t.parent
    → children (set ts k u) n i ≡ children ts n i
unfolding children
children-set_parent ts zero k i t u g h = refl
children-set_parent ts (suc n) k i t u g h = elim (Bool-cases (k == n)) [
  | inl e ↦
      let kn : k ≡ n = (==_iff k n).0 e in
      ap₂ ◌+◌ (children-set_parent ts n k i t u g h)
        (rw (← kn, get_elem?-set_self ts k u (lt-length_of_some ts k g), g, h))
  | inr e ↦
      ap₂ ◌+◌ (children-set_parent ts n k i t u g h)
        (rw (get_elem?-set_ne ts k n u (λ q. cc ((==_iff k n).1 q))))
]
