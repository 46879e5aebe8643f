-- ===== src/Se/Stored.antt =====
-- What is written to an object of the secure element is read back.
use cpp_template.Base.{
  ℕ, Bool, true, false, Option, none, some, some_injective, Bytes, length, ◌≡◌, ◌≢◌, refl, sym, ◌∙◌,
  ap, ◌⊎◌, inl, inr,
}
use cpp_template.Core.{Result, ok, err, Error, Status, fail}
use cpp_template.Se.{
  Sss, CipherType, part_default, cipher_binary, object_opened, open_object, allocated, allocate,
  is_found, exists, erased, erase_opened, erase_object, key_set, store_allocated, store_binary,
  store_erased, written, binary_over, write_binary, blob_read, read_opened, read_binary,
  blob_capacity,
}

-- What the code relies on of the middleware: `stored` is what the objects hold; only `write_key` and
-- `erase_key` change an object, and no other than their own; what `write_key` has stored and what `read_key` returns is the content.
pub record Documented (sss : Sss) : Type 0 where
  pub stored : sss.Chip → ℕ → Option Bytes
  pub handle_same : (c : sss.Chip) (id j : ℕ) → stored (sss.get_handle c id).1 j ≡ stored c j
  pub allocate_same :
      (c : sss.Chip) (id n j : ℕ)
      → stored (sss.allocate_handle c id part_default cipher_binary n).1 j ≡ stored c j
  pub set_stores :
      (c : sss.Chip) (id : ℕ) (b : Bytes)
      → (sss.write_key c id b).0 ≡ true
      → stored (sss.write_key c id b).1 id ≡ some b
  pub set_others :
      (c : sss.Chip) (id j : ℕ) (b : Bytes)
      → j ≢ id
      → stored (sss.write_key c id b).1 j ≡ stored c j
  pub erase_others :
      (c : sss.Chip) (id j : ℕ) → j ≢ id → stored (sss.erase_key c id).1 j ≡ stored c j
  pub get_reads :
      (c : sss.Chip) (id n bits : ℕ) (b : Bytes)
      → (sss.read_key c id n).0 ≡ some (b, bits)
      → stored c id ≡ some b

module _ (sss : Sss) (documented : Documented sss) where
  open sss use {Chip, get_handle, allocate_handle, write_key, read_key, erase_key}
  open documented use {stored}

  -- All objects but one are as they were.
  abbrev pub Others : ℕ → Chip → Chip → Type 0
  Others id c c' = (j : ℕ) → j ≢ id → stored c' j ≡ stored c j

  -- Reading the object back gives the bytes, unless the middleware fails.
  abbrev pub ReadsBack : ℕ → Bytes → Chip → Type 0
  ReadsBack id b c =
      ((read_binary sss id c).0 ≡ ok b) ⊎ ((e : Error) × ((read_binary sss id c).0 ≡ err e))

  Others-then : {id : ℕ} {c c' c'' : Chip} → Others id c c' → Others id c' c'' → Others id c c''
  Others-then f g j ne = g j ne ∙ f j ne

  -- What storing and erasing come to.
  data Stores (id : ℕ) (b : Bytes) (c : Chip) : Status × Chip → Type 0 where
    stores : {c' : Chip} → stored c' id ≡ some b → Others id c c' → Stores id b c (ok tt, c')
    stores_not : {c' : Chip} {e : Error} → Others id c c' → Stores id b c (err e, c')

  key_set-Stores :
      (id : ℕ) (b : Bytes) (c : Chip) (t : Bool)
      → (write_key c id b).0 ≡ t
      → Stores id b c (key_set sss (t, (write_key c id b).1))
  unfolding fail
  key_set-Stores id b c true h =
      stores (documented.set_stores c id b h) (λ j. documented.set_others c id j b)
  key_set-Stores id b c false h = stores_not (λ j. documented.set_others c id j b)

  Stores-from :
      {id : ℕ} {b : Bytes} {c c' : Chip} {r : Status × Chip}
      → Others id c c'
      → Stores id b c' r
      → Stores id b c r
  Stores-from o (stores h p) = stores h (Others-then o p)
  Stores-from o (stores_not p) = stores_not (Others-then o p)

  store_allocated-Stores :
      (id : ℕ) (b : Bytes) (c : Chip) (a : Bool × Chip)
      → Others id c a.1
      → Stores id b c (store_allocated sss id b (allocated sss a))
  unfolding fail
  store_allocated-Stores id b c (false, c') o = stores_not o
  store_allocated-Stores id b c (true, c') o =
      Stores-from o (key_set-Stores id b c' (write_key c' id b).0 refl)

  store_binary-Stores : (id : ℕ) (b : Bytes) (c : Chip) → Stores id b c (store_binary sss id b c)
  unfolding store_binary allocate
  store_binary-Stores id b c =
      store_allocated-Stores id b c (allocate_handle c id part_default cipher_binary (length b))
        (λ j ne. documented.allocate_same c id (length b) j)

  erase_opened-Others :
      (id : ℕ) (c : Chip) (r : Status × Chip)
      → Others id c r.1
      → Others id c (erase_opened sss id r).1
  erase_opened-Others id c (err e, c') o = o
  erase_opened-Others id c (ok u, c') o =
      by_answer (erase_key c' id) (λ j ne. documented.erase_others c' id j ne ∙ o j ne)
    where
      by_answer : (a : Bool × Chip) → Others id c a.1 → Others id c (erased sss a).1
      by_answer (true, c'') p = p
      by_answer (false, c'') p = p

  object_opened-Others :
      (id : ℕ) (c : Chip) (o : Option CipherType)
      → Others id c (object_opened sss (o, (get_handle c id).1)).1
  object_opened-Others id c none j ne = documented.handle_same c id j
  object_opened-Others id c (some k) j ne = documented.handle_same c id j

  erase_object-Others : (id : ℕ) (c : Chip) → Others id c (erase_object sss id c).1
  unfolding erase_object open_object
  erase_object-Others id c =
      erase_opened-Others id c (object_opened sss (get_handle c id))
        (object_opened-Others id c (get_handle c id).0)

  store_erased-Stores :
      (id : ℕ) (b : Bytes) (c : Chip) (r : Status × Chip)
      → Others id c r.1
      → Stores id b c (store_erased sss id b r)
  store_erased-Stores id b c (err e, c') o = stores_not o
  store_erased-Stores id b c (ok u, c') o = Stores-from o (store_binary-Stores id b c')

  blob_read-ReadsBack :
      (id : ℕ) (b : Bytes) (c : Chip) (a : Option (Bytes × ℕ))
      → stored c id ≡ some b
      → (read_key c id blob_capacity).0 ≡ a
      → ((blob_read sss (a, (read_key c id blob_capacity).1)).0 ≡ ok b)
        ⊎ ((e : Error) × ((blob_read sss (a, (read_key c id blob_capacity).1)).0 ≡ err e))
  unfolding fail
  blob_read-ReadsBack id b c none h e = inr (_, refl)
  blob_read-ReadsBack id b c (some (b', bits)) h e =
      inl (ap ok (some_injective (sym (documented.get_reads c id blob_capacity bits b' e) ∙ h)))

  read_opened-ReadsBack :
      (id : ℕ) (b : Bytes) (r : Status × Chip)
      → stored r.1 id ≡ some b
      → ((read_opened sss id r).0 ≡ ok b) ⊎ ((e : Error) × ((read_opened sss id r).0 ≡ err e))
  unfolding fail
  read_opened-ReadsBack id b (err e, c) h = inr (_, refl)
  read_opened-ReadsBack id b (ok u, c) h =
      blob_read-ReadsBack id b c (read_key c id blob_capacity).0 h refl

  opened_same :
      (id : ℕ) (c : Chip) (o : Option CipherType)
      → stored (object_opened sss (o, (get_handle c id).1)).1 id ≡ stored c id
  opened_same id c none = documented.handle_same c id id
  opened_same id c (some k) = documented.handle_same c id id

  stored-ReadsBack : (id : ℕ) (b : Bytes) (c : Chip) → stored c id ≡ some b → ReadsBack id b c
  unfolding read_binary open_object
  stored-ReadsBack id b c h =
      read_opened-ReadsBack id b (object_opened sss (get_handle c id))
        (opened_same id c (get_handle c id).0 ∙ h)

  -- What `WriteBinary` returns, and what the objects then are.
  pub data Wrote (id : ℕ) (b : Bytes) (force : Bool) (c : Chip) : Result Bool × Chip → Type 0 where
    wrote :
        {c' : Chip}
        → (force ≡ true) ⊎ ((get_handle c id).0 ≡ none)
        → ReadsBack id b c'
        → Others id c c'
        → Wrote id b force c (ok true, c')
    kept :
        {c' : Chip} {k : CipherType}
        → force ≡ false
        → (get_handle c id).0 ≡ some k
        → ((j : ℕ) → stored c' j ≡ stored c j)
        → Wrote id b force c (ok false, c')
    failed :
        {c' : Chip} {e : Error}
        → (force ≡ true) ⊎ ((get_handle c id).0 ≡ none)
        → Others id c c'
        → Wrote id b force c (err e, c')

  written-Wrote :
      {id : ℕ} {b : Bytes} {force : Bool} {c : Chip} {r : Status × Chip}
      → (force ≡ true) ⊎ ((get_handle c id).0 ≡ none)
      → Stores id b c r
      → Wrote id b force c (written sss r)
  written-Wrote {id} {b} may (stores {c'} h o) = wrote may (stored-ReadsBack id b c' h) o
  written-Wrote may (stores_not o) = failed may o

  binary_over-Wrote :
      (id : ℕ) (b : Bytes) (force : Bool) (c : Chip) (a : Option CipherType)
      → (get_handle c id).0 ≡ a
      → Wrote id b force c
          (binary_over sss id b force (is_found sss (object_opened sss (a, (get_handle c id).1))))
  unfolding fail
  binary_over-Wrote id b force c none h = written-Wrote (inr h) (
      Stores-from (λ j ne. documented.handle_same c id j)
        (store_binary-Stores id b (get_handle c id).1))
  binary_over-Wrote id b false c (some k) h = kept refl h (λ j. documented.handle_same c id j)
  binary_over-Wrote id b true c (some k) h = written-Wrote (inl refl) (
      store_erased-Stores id b c (erase_object sss id (get_handle c id).1) (
        Others-then (λ j ne. documented.handle_same c id j)
          (erase_object-Others id (get_handle c id).1)))

  -- `WriteBinary` returns true when it has written the bytes, which are then read back, unless the
  -- middleware fails; false when the middleware finds an object that it may not overwrite, and
  -- nothing has changed; or an error. Without `force` an object is touched only when the middleware
  -- gives no handle of it, and no other object ever is.
  pub write_binary-Wrote :
      (id : ℕ) (b : Bytes) (force : Bool) (c : Chip)
      → Wrote id b force c (write_binary sss id b force c)
  unfolding write_binary exists open_object
  write_binary-Wrote id b force c = binary_over-Wrote id b force c (get_handle c id).0 refl
