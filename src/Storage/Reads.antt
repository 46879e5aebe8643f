-- ===== src/Storage/Reads.antt =====
-- What is read after a write and after a removal.
use cpp_template.Base.{
  ℕ, ◌+◌, ◌≤◌, false, some, ◌++◌, ◌≡◌, ◌≢◌, refl, sym, ◌∙◌, ap, arith, Bytes, codes, length, drop,
  take-append, ltb, if◌then◌else◌, Bool-cases, Option-cases, inl, inr,
}
use cpp_template.Core.{Category, ok, err, fail, Status, error_code}
use cpp_template.FlatMap.{FlatMap}
use cpp_template.Storage.{
  not_found, key_capacity, get_found, get_key, get, has, set, remove_key, remove, size,
  get_string_into,
}
use cpp_template.Storage.Laws.{
  make_key_short, make_key_refused, AgreeBut, IsValid, SetOutcome, long_key, long_value, no_room,
  stored, set-SetOutcome,
}

not_ok : (e : Status) {c : ℕ} → error_code e ≡ some c → e ≢ ok tt
not_ok (ok tt) h q = cc
not_ok (err e) h q = cc

module _ (maps : FlatMap) where
  open maps use {Map, find, erase, entries, find-erase}

  get_short :
      (m : Map) (k out : Bytes)
      → length k ≤ key_capacity
      → get maps m k out ≡ get_found maps (find k m) out
  unfolding get get_key
  get_short m k out h = rw (make_key_short k h)

  -- Equal entries are read the same.
  get_same : (m n : Map) (k out : Bytes) → find k n ≡ find k m → get maps n k out ≡ get maps m k out
  unfolding get get_key fail
  get_same m n k out e = elim (Bool-cases (ltb key_capacity (length k))) [
    | inl long ↦ rw (make_key_refused k (ground (arith, long))) refl
    | inr short ↦
        let fits : length k ≤ key_capacity = ground (arith, short) in
        get_short n k out fits ∙ ap (λ r. get_found maps r out) e ∙ sym (get_short m k out fits)
  ]

  of_outcome :
      {m n : Map} {key value : Bytes} {r : Status × Map}
      → SetOutcome maps m key value r
      → r ≡ (ok tt, n)
      → (length key ≤ key_capacity) × (find key n ≡ some value) × AgreeBut maps key m n
  of_outcome (long_key h c) e = absurd (not_ok _ c (ap (λ r. r.0) e))
  of_outcome (long_value _ h c) e = absurd (not_ok _ c (ap (λ r. r.0) e))
  of_outcome (no_room _ _ _ _ c) e = absurd (not_ok _ c (ap (λ r. r.0) e))
  of_outcome (stored hk hv here elsewhere count) e =
      let moved = ap (λ r. r.1) (sym e) in
      (hk, ap (find _) moved ∙ here, λ j d. ap (find j) moved ∙ elsewhere j d)

  found_all :
      (v out : Bytes)
      → length v ≤ length out
      → get_found maps (some v) out ≡ (ok (length v), v ++ drop (length v) out)
  unfolding get_found
  found_all v out h = ground arith

  -- After a `Set` that succeeds, `Get` and `GetStringInto` return the value under its key from a
  -- view that is large enough, and `Get` of any other key returns what it did before.
  pub set-get :
      (m : Map) (key value out : Bytes) {n : Map}
      → IsValid maps m
      → set maps m key value ≡ (ok tt, n)
      → length value ≤ length out
      → (get maps n key out ≡ (ok (length value), value ++ drop (length value) out))
        × ((get_string_into maps n key out).0 ≡ ok value)
        × ((j buffer : Bytes) → j ≢ key → get maps n j buffer ≡ get maps m j buffer)
  unfolding get_string_into
  set-get m key value out {n} w e fits =
      let (hk, here, elsewhere) = of_outcome (set-SetOutcome maps m key value w) e in
      let read : get maps n key out ≡ (ok (length value), value ++ drop (length value) out) =
        get_short n key out hk ∙ ap (λ r. get_found maps r out) here ∙ found_all value out fits in
      (
        read,
        rw read (ap ok (take-append value (drop (length value) out))),
        λ j buffer d. get_same m n j buffer (elsewhere j d),
      )

  -- After `Remove` of a key that fits, the key is absent to `Has` and `Get`, and every other key
  -- is read as before; the store has one entry less if the key was there, and else as many.
  pub remove-get :
      (m : Map) (key out : Bytes)
      → length key ≤ key_capacity
      → ((remove maps m key).0 ≡ ok tt)
        × (has maps (remove maps m key).1 key ≡ false)
        × ((get maps (remove maps m key).1 key out).0
            ≡ fail Category.storage not_found (codes "key not found"))
        × ((j buffer : Bytes)
            → j ≢ key
            → get maps (remove maps m key).1 j buffer ≡ get maps m j buffer)
        × (size maps (remove maps m key).1 + (if has maps m key then 1 else 0) ≡ size maps m)
  unfolding remove remove_key has get_found
  remove-get m key out fits =
      let (gone, elsewhere, absent, present) = find-erase key m in
      let removed : remove maps m key ≡ (ok tt, erase key m) = rw (make_key_short key fits) in
      rw removed (
        refl,
        rw (make_key_short key fits, gone) refl,
        ap (λ r. r.0) (get_short (erase key m) key out fits ∙ ap (λ r. get_found maps r out) gone),
        λ j buffer d. get_same m (erase key m) j buffer (elsewhere j d),
        rw (make_key_short key fits) (elim (Option-cases (find key m)) [
          | inl none_there ↦ rw none_there (omega (arith, absent none_there))
          | inr (u, there) ↦ rw there (present u there)
        ]),
      )
