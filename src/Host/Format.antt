-- ===== src/Host/Format.antt =====
-- A file that `Commit` wrote is read back by `Load`.
use cpp_template.Base.{
  ℕ, ◌+◌, ◌%◌, ◌^◌, ◌≤◌, ◌<◌, false, none, some, List, [], ◌∷◌, ◌++◌, ◌≡◌, ◌≢◌, refl, sym, ◌∙◌, ap,
  Bytes, length, ltb, take-append, drop-append, arith, same, ◌==◌, subst, inl, inr, ◌⊎◌, Bool-cases,
  Option-cases, length-append, All,
}
use cpp_template.Core.{make, ok, fail, Status, error_code}
use cpp_template.FlatMap.{
  FlatMap, lookup, lookup_first, lookup_elsewhere, ne_of_found, Separate, max_entries,
}
use cpp_template.Storage.{io_error, key_capacity, value_capacity, set, set_key, put_found, run}
use cpp_template.Storage.Laws.{
  IsValid, run-IsValid, make_key_short, same_or_not, after_IsValid, set-SetOutcome,
}
use cpp_template.Host.{
  put_u16, put_u32, get_u16, get_u32, read_exact, read_field, read_value, with_key, read_entry,
  load_loop, load_header, load, write_entries, write_all, Disk, Host, commit,
}

get_u16-put_u16 :
    (n : ℕ) (rest : Bytes) → n < 2 ^ 16 → get_u16 (put_u16 (n % 2 ^ 16) ++ rest) ≡ some (n, rest)
unfolding get_u16
get_u16-put_u16 n rest h = ap (λ k. some (k, rest)) (omega arith)

get_u32-put_u32 :
    (n : ℕ) (rest : Bytes) → n < 2 ^ 32 → get_u32 (put_u32 (n % 2 ^ 32) ++ rest) ≡ some (n, rest)
unfolding get_u32
get_u32-put_u32 n rest h = ap (λ k. some (k, rest)) (omega arith)

read_exact_append : (xs rest : Bytes) → read_exact (length xs) (xs ++ rest) ≡ some (xs, rest)
unfolding read_exact
read_exact_append xs rest =
    let enough : ltb (length (xs ++ rest)) (length xs) ≡ false =
      ground (arith, length-append xs rest) in
    rw (enough, take-append xs rest, drop-append xs rest)

read_field_append :
    (bound : ℕ) (xs rest : Bytes)
    → length xs ≤ bound
    → read_field bound (some (length xs, xs ++ rest)) ≡ some (xs, rest)
read_field_append bound xs rest h =
    let fits : ltb bound (length xs) ≡ false = ground arith in rw fits (read_exact_append xs rest)

-- One entry.
read_entry_append :
    (key value : Bytes) (es : List (Bytes × Bytes))
    → length key ≤ key_capacity
    → length value ≤ value_capacity
    → read_entry (write_entries ((key, value) ∷ es)) ≡ some (key, value, write_entries es)
unfolding read_entry write_entries
read_entry_append key value es hk hv =
    let tail = put_u32 (length value % 2 ^ 32) ++ (value ++ write_entries es) in
    ap (λ o. read_value (read_field key_capacity o))
      (get_u16-put_u16 (length key) (key ++ tail) (omega arith))
    ∙ ap read_value (read_field_append key_capacity key tail hk)
    ∙ ap (λ o. with_key key (read_field value_capacity o))
        (get_u32-put_u32 (length value) (value ++ write_entries es) (omega arith))
    ∙ ap (with_key key) (read_field_append value_capacity value (write_entries es) hv)

-- What the loop of `Load` needs of the entries of a file.
abbrev Fits : List (Bytes × Bytes) → Type 0
Fits = All (λ e. (length e.0 ≤ key_capacity) × (length e.1 ≤ value_capacity))

Fits-lookup :
    (es : List (Bytes × Bytes))
    → Separate es
    → ((k v : Bytes)
        → lookup k es ≡ some v
        → (length k ≤ key_capacity) × (length v ≤ value_capacity))
    → Fits es
Fits-lookup [] sep h = tt
Fits-lookup ((key, value) ∷ es) sep h = (
  h key value (lookup_first key value es),
  Fits-lookup es sep.1
      (λ k v e. h k v (lookup_elsewhere k key value es (ne_of_found es e sep.0) ∙ e)),
)

module _ (maps : FlatMap) where
  open maps use {
    Map, find, insert, empty, entries, find-insert, find-entries, entries-Separate, entries-empty,
  }

  record Loaded (es : List (Bytes × Bytes)) (m : Map) (r : Status × Map) : Type 0 where
    success : r.0 ≡ ok tt
    found : (k v : Bytes) → lookup k es ≡ some v → find k r.1 ≡ some v
    kept : (k : Bytes) → lookup k es ≡ none → find k r.1 ≡ find k m

  -- `Set` of a new key where there is room.
  set_new :
      (m : Map) (key value : Bytes)
      → IsValid maps m
      → length key ≤ key_capacity
      → length value ≤ value_capacity
      → find key m ≡ none
      → length (entries m) < max_entries
      → set maps m key value ≡ (ok tt, insert key value m)
  unfolding set set_key put_found
  set_new m key value w hk hv absent room =
      let brief : ltb value_capacity (length value) ≡ false = ground (arith, hv) in
      let more : (length (entries m) == max_entries) ≡ false = ground (arith, room) in
      rw (make_key_short key hk, brief, absent, more)

  load_loop-Loaded :
      (es : List (Bytes × Bytes)) (m : Map)
      → Fits es
      → Separate es
      → IsValid maps m
      → ((k v : Bytes) → lookup k es ≡ some v → find k m ≡ none)
      → length (entries m) + length es ≤ max_entries
      → Loaded es m (load_loop maps (length es) (write_entries es) m)
  unfolding load_loop lookup
  load_loop-Loaded [] m fit sep w new room = record {
    success = refl;
    found = λ k v e. cc;
    kept = λ k e. refl;
  }
  load_loop-Loaded ((key, value) ∷ es) m fit sep w new room =
      let here = lookup_first key value es in
      let absent = new key value here in
      let (there, elsewhere, more) = find-insert key value m absent (omega arith) in
      let done = set_new m key value w fit.0.0 fit.0.1 absent (omega arith) in
      let w' : IsValid maps (insert key value m) =
        subst (λ r. IsValid maps r.1) done
          (after_IsValid maps w (set-SetOutcome maps m key value w)) in
      let ih =
        load_loop-Loaded es (insert key value m) fit.1 sep.1 w'
          (λ k v e.
            let n = ne_of_found es e sep.0 in
            elsewhere k n ∙ new k v (lookup_elsewhere k key value es n ∙ e))
          (omega (arith, more)) in
      rw (read_entry_append key value es fit.0.0 fit.0.1, load_loop)
        (rw done (record {
          success = ih.success;
          found = λ k v e. elim (same_or_not k key) [
            | inl q ↦
                ap
                  (λ j.
                    find j (load_loop maps (length es) (write_entries es) (insert key value m)).1)
                  q
                ∙ ih.kept key sep.0
                ∙ there
                ∙ sym here
                ∙ ap (λ j. lookup j ((key, value) ∷ es)) (sym q)
                ∙ e
            | inr n ↦ ih.found k v (sym (lookup_elsewhere k key value es n) ∙ e)
          ];
          kept = λ k e.
              let n : k ≢ key = λ q. ne_of_found ((key, value) ∷ es) here e (sym q) in
              ih.kept k (sym (lookup_elsewhere k key value es n) ∙ e) ∙ elsewhere k n;
        }))

  empty_valid : IsValid maps empty
  unfolding run
  empty_valid = run-IsValid maps []

  entries-Fits : (m : Map) → IsValid maps m → Fits (entries m)
  entries-Fits m w =
      Fits-lookup (entries m) (entries-Separate m) (λ k v e.
        let found = find-entries k m ∙ e in (w.short_keys k found, w.short_values k found))

  find-empty : (k : Bytes) → find k empty ≡ none
  unfolding lookup
  find-empty k = find-entries k empty ∙ ap (lookup k) entries-empty

  load-Loaded :
      (m : Map) → IsValid maps m → Loaded (entries m) empty (load maps (some (write_all maps m)))
  unfolding load load_header write_all same
  load-Loaded m w =
      subst (λ o. Loaded (entries m) empty (load_header maps o))
        (sym (
          get_u32-put_u32 (length (entries m)) (write_entries (entries m))
            (omega (arith, w.count))))
        (load_loop-Loaded (entries m) empty (entries-Fits m w) (entries-Separate m) empty_valid
          (λ k v e. find-empty k) (omega (arith, w.count, ap length entries-empty)))

  find-load :
      (m : Map) (k : Bytes)
      → IsValid maps m
      → find k (load maps (some (write_all maps m))).1 ≡ find k m
  find-load m k w = elim (Option-cases (lookup k (entries m))) [
    | inl absent ↦
        (load-Loaded m w).kept k absent ∙ find-empty k ∙ sym absent ∙ sym (find-entries k m)
    | inr (v, present) ↦ (load-Loaded m w).found k v present ∙ sym present ∙ sym (find-entries k m)
  ]

  -- `Commit` of a valid store, when no call of `fwrite`, `fputc` or `fclose` fails, whose results it
  -- does not look at, and whatever `fopen`, `fflush` and `rename` return: it succeeds, and `Load` of
  -- the file, when it opens it, succeeds with every key at its value, or it fails with `IoError` and
  -- leaves the file as it was.
  pub commit-load :
      (host : Host) (disk : Disk) (m : Map)
      → IsValid maps m
      → host.lost ≡ none
      → (((commit maps host disk m).0 ≡ ok tt)
          × ((load maps (commit maps host disk m).1.file).0 ≡ ok tt)
          × ((k : Bytes) → find k (load maps (commit maps host disk m).1.file).1 ≡ find k m))
        ⊎ ((error_code (commit maps host disk m).0 ≡ some io_error)
            × ((commit maps host disk m).1.file ≡ disk.file))
  unfolding commit fail make
  commit-load host disk m w complete = elim (Bool-cases host.opens) [
    | inr closed ↦ rw closed (inr (refl, refl))
    | inl opened ↦ elim (Bool-cases host.flushes) [
      | inr lost ↦ rw (opened, lost) (inr (refl, refl))
      | inl flushed ↦ elim (Bool-cases host.renames) [
        | inr there ↦ rw (opened, flushed, there) (inr (refl, refl))
        | inl moved ↦
            rw (opened, flushed, moved, complete)
              (inl (refl, (load-Loaded m w).success, λ k. find-load m k w))
      ]
    ]
  ]
