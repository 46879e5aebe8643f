-- ===== src/FlatMap.antt =====
-- What the storage module relies on of `etl::flat_map`, a package that the repository does not
-- hold: a map with room for `max_entries` keys, which it also lists.
pub mod Tests
use cpp_template.Base.{
  ℕ, ◌+◌, ◌<◌, Bool, true, false, refl, Option, none, some, List, [], ◌∷◌, ◌≡◌, ◌≢◌, Bytes, same,
  same_iff, same_refl, length, sym, ◌∙◌, ap, Bool-cases, inl, inr, if◌then◌else◌,
}

-- ETLX_KV_MAX_ENTRIES
abbrev pub max_entries : ℕ
max_entries = 16

-- The value at a key of a list of entries.
unfoldable pub lookup : Bytes → List (Bytes × Bytes) → Option Bytes
lookup k [] = none
lookup k ((j, v) ∷ es) = if same k j then some v else lookup k es

some_ne_none : {v : Bytes} → some v ≢ none
some_ne_none e = cc

pub lookup_here :
    (k j v : Bytes) (es : List (Bytes × Bytes)) → same k j ≡ true → lookup k ((j, v) ∷ es) ≡ some v
unfolding lookup
lookup_here k j v es h = rw h

pub lookup_there :
    (k j v : Bytes) (es : List (Bytes × Bytes))
    → same k j ≡ false
    → lookup k ((j, v) ∷ es) ≡ lookup k es
unfolding lookup
lookup_there k j v es h = rw h

pub lookup_first : (k v : Bytes) (es : List (Bytes × Bytes)) → lookup k ((k, v) ∷ es) ≡ some v
lookup_first k v es = lookup_here k k v es (same_refl k)

pub lookup_elsewhere :
    (k j v : Bytes) (es : List (Bytes × Bytes)) → k ≢ j → lookup k ((j, v) ∷ es) ≡ lookup k es
lookup_elsewhere k j v es n = elim (Bool-cases (same k j)) [
  | inl found ↦ absurd (n ((same_iff k j).0 found))
  | inr other ↦ lookup_there k j v es other
]

-- A key that is found is not one that is not.
pub ne_of_found :
    {k j v : Bytes} (es : List (Bytes × Bytes)) → lookup k es ≡ some v → lookup j es ≡ none → k ≢ j
ne_of_found {k} {j} {v} es h g e = some_ne_none (sym h ∙ ap (λ i. lookup i es) e ∙ g)

-- No key stands twice.
abbrev pub Separate : List (Bytes × Bytes) → Type 0
Separate [] = Unit
Separate ((k, v) ∷ es) = (lookup k es ≡ none) × Separate es

pub record FlatMap : Type 1 where
  pub Map : Type 0
  pub empty : Map
  pub find : Bytes → Map → Option Bytes
  pub insert : Bytes → Bytes → Map → Map
  pub assign : Bytes → Bytes → Map → Map
  pub erase : Bytes → Map → Map
  pub entries : Map → List (Bytes × Bytes)
  pub entries-empty : entries empty ≡ []
  pub entries-Separate : (m : Map) → Separate (entries m)
  pub find-entries : (k : Bytes) (m : Map) → find k m ≡ lookup k (entries m)
  pub find-insert :
      (k v : Bytes) (m : Map)
      → find k m ≡ none
      → length (entries m) < max_entries
      → (find k (insert k v m) ≡ some v)
        × ((j : Bytes) → j ≢ k → find j (insert k v m) ≡ find j m)
        × (length (entries (insert k v m)) ≡ length (entries m) + 1)
  pub find-assign :
      (k v : Bytes) (m : Map) {u : Bytes}
      → find k m ≡ some u
      → (find k (assign k v m) ≡ some v)
        × ((j : Bytes) → j ≢ k → find j (assign k v m) ≡ find j m)
        × (length (entries (assign k v m)) ≡ length (entries m))
  pub find-erase :
      (k : Bytes) (m : Map)
      → (find k (erase k m) ≡ none)
        × ((j : Bytes) → j ≢ k → find j (erase k m) ≡ find j m)
        × ((find k m ≡ none) → length (entries (erase k m)) ≡ length (entries m))
        × ((u : Bytes) → find k m ≡ some u → length (entries (erase k m)) + 1 ≡ length (entries m))
