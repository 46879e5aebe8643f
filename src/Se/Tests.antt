-- ===== src/Se/Tests.antt =====
-- A secure element whose objects are a function.
use cpp_template.Base.{
  ℕ, true, false, Option, none, some, Bytes, codes, ◌≡◌, ◌≢◌, refl, ap, ◌==◌, ==_iff, if◌then◌else◌,
  if_true, if_false, Bool-cases, inl, inr,
}
use cpp_template.Core.{ok, fail}
use cpp_template.Se.{
  Sss, CipherType, cipher_binary, write_binary, read_binary, store_binary, allocate, exists,
  open_object,
}
use cpp_template.Se.Stored.{Documented, Wrote, write_binary-Wrote}

abbrev Objects : Type 0
Objects = ℕ → Option Bytes

abbrev with_object : Objects → ℕ → Option Bytes → Objects
with_object c id o j = if j == id then o else c j

abbrev found : Option Bytes → Option CipherType
found none = none
found (some b) = some cipher_binary

abbrev contents : Option Bytes → Option (Bytes × ℕ)
contents none = none
contents (some b) = some (b, 0)

abbrev small_element : Sss
small_element = record {
  Chip = Objects;
  get_uid = λ c n. (none, c);
  get_handle = λ c id. (found (c id), c);
  allocate_handle = λ c id part cipher n. (true, c);
  write_key = λ c id b. (true, with_object c id (some b));
  read_key = λ c id n. (contents (c id), c);
  erase_key = λ c id. (true, with_object c id none);
  generate_key = λ c id bits policy. (true, c);
  sign_init = λ c id algorithm. (true, c);
  sign_digest = λ c id digest n. (some digest, c);
  verify_init = λ c id algorithm. (true, c);
  verify_digest = λ c id digest sig. (true, c);
  rng_init = λ c. (true, c);
  get_random = λ c n. (none, c);
}

not_equal : {j id : ℕ} → j ≢ id → (j == id) ≡ false
not_equal {j} {id} ne = elim (Bool-cases (j == id)) [
  | inl e ↦ absurd (ne ((==_iff j id).0 e))
  | inr e ↦ e
]

contents_some : (o : Option Bytes) (b : Bytes) (bits : ℕ) → contents o ≡ some (b, bits) → o ≡ some b
contents_some none b bits e = cc
contents_some (some a) b bits e =
    ap (λ (o : Option (Bytes × ℕ)). elim o [ none ↦ none | some (x, n) ↦ some x ]) e

abbrev element_documented : Documented small_element
element_documented = record {
  stored = λ c id. c id;
  handle_same = λ c id j. refl;
  allocate_same = λ c id n j. refl;
  set_stores = λ c id b e. if_true (some b) (c id) ((==_iff id id).1 refl);
  set_others = λ c id j b ne. if_false (some b) (c j) (not_equal ne);
  erase_others = λ c id j ne. if_false none (c j) (not_equal ne);
  get_reads = λ c id n bits b e. contents_some (c id) b bits e;
}

abbrev no_objects : Objects
no_objects id = none

-- A write, and what is read of the object then.
round_trip :
    (read_binary small_element 16
      (write_binary small_element 16 (codes "device") false no_objects).1).0
    ≡ ok (codes "device")
unfolding read_binary write_binary store_binary allocate exists open_object fail
round_trip = refl

write_binary-Wrote_example :
    Wrote small_element element_documented 16
      (codes "device")
      true
      (with_object no_objects 16 (some (codes "old")))
      (write_binary small_element 16
        (codes "device")
        true
        (with_object no_objects 16 (some (codes "old"))))
write_binary-Wrote_example =
    write_binary-Wrote small_element element_documented 16 (codes "device") true
      (with_object no_objects 16 (some (codes "old")))
