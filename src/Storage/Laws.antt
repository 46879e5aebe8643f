-- ===== src/Storage/Laws.antt =====
-- The store as a partial function from keys to values.
use cpp_template.Base.{
  ◌≤◌, ◌<◌, true, false, none, some, List, [], ◌∷◌, ◌≡◌, ◌≢◌, refl, sym, ◌∙◌, ap, subst, ==_iff,
  ◌⊎◌, inl, inr, arith, Bytes, codes, length, ltb, ◌==◌, Bool-cases, Option-cases, same, same_iff,
}
use cpp_template.Core.{Category, make, ok, fail, Status, error_code}
use cpp_template.FlatMap.{FlatMap, max_entries, lookup}
use cpp_template.Storage.{
  full, too_large, key_capacity, value_capacity, make_key, put_found, set_key, set, remove_key,
  remove, size, Write, write, delete, run,
}

pub make_key_short : (key : Bytes) → length key ≤ key_capacity → make_key key ≡ ok key
unfolding make_key
make_key_short key h = ground arith

pub make_key_refused :
    (key : Bytes)
    → key_capacity < length key
    → make_key key ≡ fail Category.storage too_large (codes "key too long")
unfolding make_key
make_key_refused key h = ground arith

true_ne_false : true ≢ false
true_ne_false e = cc

some_ne_none : {v : Bytes} → some v ≢ none
some_ne_none e = cc

pub same_or_not : (a b : Bytes) → (a ≡ b) ⊎ (a ≢ b)
same_or_not a b = elim (Bool-cases (same a b)) [
  | inl yes_same ↦ inl ((same_iff a b).0 yes_same)
  | inr differ ↦ inr (λ e. true_ne_false (sym ((same_iff a b).1 e) ∙ differ))
]

module _ (maps : FlatMap) where
  open maps use {Map, find, insert, assign, erase, entries, find-insert, find-assign, find-erase}

  -- Two maps that agree everywhere but at one key.
  abbrev pub AgreeBut : Bytes → Map → Map → Type 0
  AgreeBut k m n = (j : Bytes) → j ≢ k → find j n ≡ find j m

  -- The store between two calls.
  pub record IsValid (m : Map) : Type 0 where
    pub count : size maps m ≤ max_entries
    pub short_keys : (k : Bytes) {v : Bytes} → find k m ≡ some v → length k ≤ key_capacity
    pub short_values : (k : Bytes) {v : Bytes} → find k m ≡ some v → length v ≤ value_capacity

  -- What `Set` does, by the sizes of the key and the value and the room left.
  pub data SetOutcome (m : Map) (key value : Bytes) : Status × Map → Type 0 where
    long_key :
        {e : Status}
        → key_capacity < length key
        → error_code e ≡ some too_large
        → SetOutcome m key value (e, m)
    long_value :
        {e : Status}
        → length key ≤ key_capacity
        → value_capacity < length value
        → error_code e ≡ some too_large
        → SetOutcome m key value (e, m)
    no_room :
        {e : Status}
        → length key ≤ key_capacity
        → length value ≤ value_capacity
        → find key m ≡ none
        → size maps m ≡ max_entries
        → error_code e ≡ some full
        → SetOutcome m key value (e, m)
    stored :
        {n : Map}
        → length key ≤ key_capacity
        → length value ≤ value_capacity
        → find key n ≡ some value
        → AgreeBut key m n
        → size maps n ≤ max_entries
        → SetOutcome m key value (ok tt, n)

  put_found-SetOutcome :
      (m : Map) (key value : Bytes)
      → size maps m ≤ max_entries
      → length key ≤ key_capacity
      → length value ≤ value_capacity
      → SetOutcome m key value (put_found maps (find key m) m key value)
  unfolding put_found fail make
  put_found-SetOutcome m key value count hk hv = elim (Option-cases (find key m)) [
    | inl absent ↦ elim (Bool-cases (size maps m == max_entries)) [
      | inl none_left ↦
          rw (absent, none_left) (no_room hk hv absent ((==_iff _ _).0 none_left) refl)
      | inr room ↦
          let less : size maps m < max_entries = ground (arith, room) in
          let (here, elsewhere, more) = find-insert key value m absent less in
          rw (absent, room) (stored hk hv here elsewhere (omega (arith, more)))
    ]
    | inr (v, present) ↦
        let (here, elsewhere, as_many) = find-assign key value m present in
        rw present (stored hk hv here elsewhere (omega (arith, as_many)))
  ]

  -- `Set` refuses a long key, else a long value, else a new key without room, each with its code
  -- and the map as it was; else the key has the value and every other key what it had.
  pub set-SetOutcome :
      (m : Map) (key value : Bytes) → IsValid m → SetOutcome m key value (set maps m key value)
  unfolding set set_key fail make
  set-SetOutcome m key value w = elim (Bool-cases (ltb key_capacity (length key))) [
    | inl long ↦
        let over : key_capacity < length key = ground (arith, long) in
        rw (make_key_refused key over) (long_key over refl)
    | inr short ↦
        let fits : length key ≤ key_capacity = ground (arith, short) in
        rw (make_key_short key fits) (elim (Bool-cases (ltb value_capacity (length value))) [
          | inl long ↦ rw long (long_value fits (ground (arith, long)) refl)
          | inr brief ↦
              rw brief (put_found-SetOutcome m key value w.count fits (ground (arith, brief)))
        ])
  ]

  pub after_IsValid :
      {m : Map} {key value : Bytes} {r : Status × Map}
      → IsValid m
      → SetOutcome m key value r
      → IsValid r.1
  after_IsValid w (long_key _ _) = w
  after_IsValid w (long_value _ _ _) = w
  after_IsValid w (no_room _ _ _ _ _) = w
  after_IsValid {m} {key} {value} w (stored {n} hk hv here elsewhere count) = record {
    count = count;
    short_keys = λ k {v} e. elim (same_or_not k key) [
      | inl q ↦ subst (λ x. length x ≤ key_capacity) (sym q) hk
      | inr q ↦ w.short_keys k (sym (elsewhere k q) ∙ e)
    ];
    short_values = λ k {v} e. elim (same_or_not k key) [
      | inl q ↦ subst (λ x. length x ≤ value_capacity) (stored_value k v e q) hv
      | inr q ↦ w.short_values k (sym (elsewhere k q) ∙ e)
    ];
  }
    where
      stored_value : (k v : Bytes) → find k n ≡ some v → k ≡ key → value ≡ v
      stored_value k v e q = cc

  erase-IsValid : (m : Map) (key : Bytes) → IsValid m → IsValid (erase key m)
  erase-IsValid m key w =
      let (gone, elsewhere, absent, present) = find-erase key m in
      record {
        count = elim (Option-cases (find key m)) [
          | inl none_there ↦ omega (arith, absent none_there, w.count)
          | inr (u, there) ↦ omega (arith, present u there, w.count)
        ];
        short_keys = λ k {v} e. w.short_keys k (kept k e);
        short_values = λ k {v} e. w.short_values k (kept k e);
      }
    where
      kept : (k : Bytes) {v : Bytes} → find k (erase key m) ≡ some v → find k m ≡ some v
      kept k {v} e = elim (same_or_not k key) [
        | inl q ↦
            absurd (some_ne_none (sym e ∙ ap (λ j. find j (erase key m)) q ∙ (find-erase key m).0))
        | inr q ↦ sym ((find-erase key m).1 k q) ∙ e
      ]

  remove-IsValid : (m : Map) (key : Bytes) → IsValid m → IsValid (remove maps m key).1
  unfolding remove remove_key fail
  remove-IsValid m key w = elim (Bool-cases (ltb key_capacity (length key))) [
    | inl long ↦ rw (make_key_refused key (ground (arith, long))) w
    | inr short ↦ rw (make_key_short key (ground (arith, short))) (erase-IsValid m key w)
  ]

  -- From an empty store, any sequence of calls keeps the bounds: at most 16 entries, keys of at
  -- most 32 bytes and values of at most 128.
  pub run-IsValid : (calls : List Write) → IsValid (run maps maps.empty calls)
  unfolding run lookup
  run-IsValid calls = run_from maps.empty calls empty_valid
    where
      none_found : (k : Bytes) {v : Bytes} → find k maps.empty ≡ some v → ⊥
      none_found k {v} e =
          some_ne_none (sym e ∙ maps.find-entries k maps.empty ∙ ap (lookup k) maps.entries-empty)

      empty_valid : IsValid maps.empty
      empty_valid = record {
        count = omega (arith, ap length maps.entries-empty);
        short_keys = λ k {v} e. absurd (none_found k e);
        short_values = λ k {v} e. absurd (none_found k e);
      }

      run_from : (m : Map) (calls : List Write) → IsValid m → IsValid (run maps m calls)
      run_from m [] w = w
      run_from m (write key value ∷ rest) w =
          run_from (set maps m key value).1 rest (after_IsValid w (set-SetOutcome m key value w))
      run_from m (delete key ∷ rest) w =
          run_from (remove maps m key).1 rest (remove-IsValid m key w)
