-- ===== src/Se.antt =====
-- include/etlx/se/connection.hpp, key_object.hpp and object_store.hpp with
-- ports/se05x/object_store.cpp and se_random.cpp: the objects of a secure element. The vendor's
-- middleware is the record `Sss`; its session and the chip behind it are the type `Chip`, and an
-- object handle is the identifier that it is bound to. What is only logged is left out.
pub mod Keys
pub mod Stored
pub mod Keyfile
pub mod Rotation
mod Tests
use cpp_template.Base.{
  ℕ, zero, suc, Bool, true, false, Option, none, some, List, [], ◌∷◌, Bytes, codes, length,
}
use cpp_template.Core.{Category, Result, ok, err, fail, Status}

-- `enum SeError`
abbrev pub rng_failed : ℕ
rng_failed = 3

abbrev pub key_failed : ℕ
key_failed = 4

abbrev pub sign_failed : ℕ
sign_failed = 5

abbrev pub write_failed : ℕ
write_failed = 6

abbrev pub read_failed : ℕ
read_failed = 7

-- `SeFail`
abbrev pub se_fail : {A : Type 0} → ℕ → Bytes → Result A
se_fail code text = fail Category.se code text

-- ETLX_SE_UID_LEN and ETLX_SE_BLOB_CAPACITY
abbrev pub uid_len : ℕ
uid_len = 18

abbrev pub blob_capacity : ℕ
blob_capacity = 512

-- `sss_cipher_type_t`, as far as the code names it.
pub data CipherType : Type 0 where
  cipher_rsa cipher_rsa_crt cipher_ec_nist_p cipher_ec_nist_k cipher_ec_montgomery
        cipher_ec_twisted_ed cipher_ec_brainpool cipher_aes cipher_des cipher_hmac cipher_cmac
        cipher_certificate cipher_binary cipher_other :
      CipherType

pub data KeyPart : Type 0 where
  part_default part_pair : KeyPart

-- What the code sets of an `sss_policy_t`.
pub record Policy : Type 0 where
  pub can_sign : Bool
  pub can_decrypt : Bool
  pub can_gen : Bool
  pub can_read : Bool
  pub can_write : Bool
  pub can_delete : Bool
  pub req_sm : Bool

-- The algorithms of a signature.
pub data Algorithm : Type 0 where
  rsassa_pkcs1_v1_5_sha256 ecdsa_sha256 : Algorithm

-- The calls of the middleware; `none` and `false` stand for every status but success.
pub record Sss : Type 1 where
  pub Chip : Type 0
  pub get_uid : Chip → ℕ → Option Bytes × Chip
  pub get_handle : Chip → ℕ → Option CipherType × Chip
  pub allocate_handle : Chip → ℕ → KeyPart → CipherType → ℕ → Bool × Chip
  pub write_key : Chip → ℕ → Bytes → Bool × Chip
  pub read_key : Chip → ℕ → ℕ → Option (Bytes × ℕ) × Chip
  pub erase_key : Chip → ℕ → Bool × Chip
  pub generate_key : Chip → ℕ → ℕ → Option Policy → Bool × Chip
  pub sign_init : Chip → ℕ → Algorithm → Bool × Chip
  pub sign_digest : Chip → ℕ → Bytes → ℕ → Option Bytes × Chip
  pub verify_init : Chip → ℕ → Algorithm → Bool × Chip
  pub verify_digest : Chip → ℕ → Bytes → Bytes → Bool × Chip
  pub rng_init : Chip → Bool × Chip
  pub get_random : Chip → ℕ → Option Bytes × Chip

-- `enum class ObjectType`
pub data ObjectType : Type 0 where
  binary certificate rsa ecc symmetric other : ObjectType

-- The `switch` of `GetType`
unfoldable pub object_type : CipherType → ObjectType
object_type cipher_rsa = rsa
object_type cipher_rsa_crt = rsa
object_type cipher_ec_nist_p = ecc
object_type cipher_ec_nist_k = ecc
object_type cipher_ec_montgomery = ecc
object_type cipher_ec_twisted_ed = ecc
object_type cipher_ec_brainpool = ecc
object_type cipher_aes = symmetric
object_type cipher_des = symmetric
object_type cipher_hmac = symmetric
object_type cipher_cmac = symmetric
object_type cipher_certificate = certificate
object_type cipher_binary = binary
object_type cipher_other = other

module _ (sss : Sss) where
  open sss use {
    Chip, get_uid, get_handle, allocate_handle, write_key, read_key, erase_key, rng_init,
    get_random,
  }

  abbrev pub object_opened : Option CipherType × Chip → Status × Chip
  object_opened (none, c) = (se_fail key_failed (codes "sss_key_object_get_handle failed"), c)
  object_opened (some k, c) = (ok tt, c)

  -- `KeyObject::Open`
  unfoldable pub open_object : ℕ → Chip → Status × Chip
  open_object id c = object_opened (get_handle c id)

  abbrev pub allocated : Bool × Chip → Status × Chip
  allocated (false, c) = (se_fail key_failed (codes "sss_key_object_allocate_handle failed"), c)
  allocated (true, c) = (ok tt, c)

  -- `KeyObject::Allocate`
  unfoldable pub allocate : ℕ → KeyPart → CipherType → ℕ → Chip → Status × Chip
  allocate id part cipher byte_len c = allocated (allocate_handle c id part cipher byte_len)

  abbrev pub uid_read : Option Bytes × Chip → Result Bytes × Chip
  uid_read (none, c) = (se_fail read_failed (codes "sss_session_prop_get_au8(UID) failed"), c)
  uid_read (some uid, c) = (ok uid, c)

  -- `ObjectStore::GetUid`
  unfoldable pub read_uid : Chip → Result Bytes × Chip
  read_uid c = uid_read (get_uid c uid_len)

  abbrev pub is_found : Status × Chip → Bool × Chip
  is_found (ok u, c) = (true, c)
  is_found (err e, c) = (false, c)

  -- `ObjectStore::Exists`
  unfoldable pub exists : ℕ → Chip → Bool × Chip
  exists id c = is_found (open_object id c)

  abbrev pub typed : Option CipherType × Chip → Result ObjectType × Chip
  typed (none, c) = (se_fail read_failed (codes "object not found"), c)
  typed (some k, c) = (ok (object_type k), c)

  -- `ObjectStore::GetType`
  unfoldable pub get_type : ℕ → Chip → Result ObjectType × Chip
  get_type id c = typed (get_handle c id)

  abbrev pub erased : Bool × Chip → Status × Chip
  erased (false, c) = (se_fail write_failed (codes "sss_key_store_erase_key failed"), c)
  erased (true, c) = (ok tt, c)

  abbrev pub erase_opened : ℕ → Status × Chip → Status × Chip
  erase_opened id (err e, c) = (err e, c)
  erase_opened id (ok u, c) = erased (erase_key c id)

  -- `ObjectStore::Erase`
  unfoldable pub erase_object : ℕ → Chip → Status × Chip
  erase_object id c = erase_opened id (open_object id c)

  abbrev pub key_set : Bool × Chip → Status × Chip
  key_set (false, c) = (se_fail write_failed (codes "sss_key_store_set_key failed"), c)
  key_set (true, c) = (ok tt, c)

  abbrev pub store_allocated : ℕ → Bytes → Status × Chip → Status × Chip
  store_allocated id data_bytes (err e, c) = (err e, c)
  store_allocated id data_bytes (ok u, c) = key_set (write_key c id data_bytes)

  -- `ObjectStore::StoreBinary`
  unfoldable pub store_binary : ℕ → Bytes → Chip → Status × Chip
  store_binary id data_bytes c =
      store_allocated id data_bytes (allocate id part_default cipher_binary (length data_bytes) c)

  -- `if (!st) return st;`, and then the store.
  abbrev pub store_erased : ℕ → Bytes → Status × Chip → Status × Chip
  store_erased id data_bytes (err e, c) = (err e, c)
  store_erased id data_bytes (ok u, c) = store_binary id data_bytes c

  abbrev pub cert_over : ℕ → Bytes → Bool × Chip → Status × Chip
  cert_over id der (true, c) = store_erased id der (erase_object id c)
  cert_over id der (false, c) = store_binary id der c

  -- `ObjectStore::WriteCert`
  unfoldable pub write_cert : ℕ → Bytes → Chip → Status × Chip
  write_cert id der c = cert_over id der (exists id c)

  abbrev pub written : Status × Chip → Result Bool × Chip
  written (err e, c) = (err e, c)
  written (ok u, c) = (ok true, c)

  abbrev pub binary_over : ℕ → Bytes → Bool → Bool × Chip → Result Bool × Chip
  binary_over id data_bytes force (false, c) = written (store_binary id data_bytes c)
  binary_over id data_bytes false (true, c) = (ok false, c)
  binary_over id data_bytes true (true, c) =
      written (store_erased id data_bytes (erase_object id c))

  -- `ObjectStore::WriteBinary`
  unfoldable pub write_binary : ℕ → Bytes → Bool → Chip → Result Bool × Chip
  write_binary id data_bytes force c = binary_over id data_bytes force (exists id c)

  abbrev pub blob_read : Option (Bytes × ℕ) × Chip → Result Bytes × Chip
  blob_read (none, c) = (se_fail read_failed (codes "sss_key_store_get_key(binary) failed"), c)
  blob_read (some (bytes, bits), c) = (ok bytes, c)

  abbrev pub read_opened : ℕ → Status × Chip → Result Bytes × Chip
  read_opened id (err e, c) = (se_fail read_failed (codes "readBinary: object not found"), c)
  read_opened id (ok u, c) = blob_read (read_key c id blob_capacity)

  -- `ObjectStore::ReadBinary`
  unfoldable pub read_binary : ℕ → Chip → Result Bytes × Chip
  read_binary id c = read_opened id (open_object id c)

  abbrev pub random_filled : Option Bytes × Chip → Result Bytes × Chip
  random_filled (none, c) = (se_fail rng_failed (codes "sss_rng_get_random failed"), c)
  random_filled (some bytes, c) = (ok bytes, c)

  abbrev pub random_ready : ℕ → Bool × Chip → Result Bytes × Chip
  random_ready n (false, c) = (se_fail rng_failed (codes "sss_rng_context_init failed"), c)
  random_ready n (true, c) = random_filled (get_random c n)

  -- `SeRandom::Fill` of a view of that size: the bytes that it is filled with.
  unfoldable pub random_fill : ℕ → Chip → Result Bytes × Chip
  random_fill zero c = (ok [], c)
  random_fill (suc n) c = random_ready (suc n) (rng_init c)
