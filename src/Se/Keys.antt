-- ===== src/Se/Keys.antt =====
-- ports/se05x/rsa_key.cpp and ec_key.cpp, without their certificate requests: the keys of a secure
-- element; and the proof of `ObjectStore::VerifyBinding` that a key fits a certificate.
use cpp_template.Base.{
  ℕ, ◌/◌, Bool, true, false, Option, none, some, Bytes, codes, ltb, leb, if◌then◌else◌,
}
use cpp_template.Core.{Result, ok, err, Status}
use cpp_template.Se.{
  se_fail, rng_failed, key_failed, sign_failed, read_failed, cipher_rsa, cipher_ec_nist_p,
  part_pair, Policy, rsassa_pkcs1_v1_5_sha256, ecdsa_sha256, Sss, open_object, allocate,
}

-- `enum class RsaBits`
pub data RsaBits : Type 0 where
  rsa_2048 rsa_4096 : RsaBits

abbrev pub rsa_bits : RsaBits → ℕ
rsa_bits rsa_2048 = 2048
rsa_bits rsa_4096 = 4096

-- `enum class EcCurve`
pub data EcCurve : Type 0 where
  p256 p384 p521 : EcCurve

abbrev pub curve_bits : EcCurve → ℕ
curve_bits p256 = 256
curve_bits p384 = 384
curve_bits p521 = 521

-- `enum class KeyPolicy`
pub data KeyPolicy : Type 0 where
  full sign_only sign_decrypt : KeyPolicy

abbrev pub may_decrypt : KeyPolicy → Bool
may_decrypt sign_decrypt = true
may_decrypt _ = false

-- The policy of `ApplyPolicy`, `none` for the null pointer.
unfoldable pub rsa_policy : KeyPolicy → Option Policy
rsa_policy full = none
rsa_policy policy = some (record {
  can_sign = true;
  can_decrypt = may_decrypt policy;
  can_gen = true;
  can_read = true;
  can_write = false;
  can_delete = false;
  req_sm = true;
})

unfoldable pub ec_policy : KeyPolicy → Option Policy
ec_policy full = none
ec_policy policy = some (record {
  can_sign = true;
  can_decrypt = false;
  can_gen = true;
  can_read = true;
  can_write = false;
  can_delete = false;
  req_sm = true;
})

-- `RsaKey`: the object that it is bound to, and `bits_`.
pub record RsaKey : Type 0 where
  pub key_id : ℕ
  pub bits : ℕ

-- `EcKey`, with `curve_`.
pub record EcKey : Type 0 where
  pub key_id : ℕ
  pub curve : EcCurve

-- ETLX_SE_SPKI_CAPACITY and ETLX_SE_SIG_CAPACITY
abbrev pub spki_capacity : ℕ
spki_capacity = 512

abbrev pub sig_capacity : ℕ
sig_capacity = 512

abbrev pub generate_text : KeyPolicy → Bytes
generate_text full = codes "sss_key_store_generate_key failed"
generate_text _ = codes "sss_key_store_generate_key (policy) failed"

-- The curve of a bit length, as `EcKey::Open` tells it.
unfoldable pub curve_of : ℕ → EcCurve
curve_of bits = if leb 521 bits then p521 else if leb 384 bits then p384 else p256

-- mbedTLS, as far as `VerifyBinding` calls it.
pub record Pk : Type 1 where
  pub Certificate : Type 0
  pub sha256 : Bytes → Option Bytes
  pub parse_der : Bytes → Option Certificate
  pub pk_verify : Certificate → Bytes → Bytes → Bool

module _ (sss : Sss) where
  open sss use {
    Chip, read_key, generate_key, sign_init, sign_digest, verify_init, verify_digest, rng_init,
    get_random,
  }

  abbrev pub generated : KeyPolicy → Bool × Chip → Status × Chip
  generated policy (false, c) = (se_fail key_failed (generate_text policy), c)
  generated policy (true, c) = (ok tt, c)

  abbrev pub with_handle :
      {K : Type 0} → K → KeyPolicy → (Chip → Bool × Chip) → Status × Chip → Result K × Chip
  with_handle k policy gen (err e, c) =
      (se_fail key_failed (codes "key_object_allocate_handle failed"), c)
  with_handle k policy gen (ok u, c) = key_made k (generated policy (gen c))
    where
      key_made : {K : Type 0} → K → Status × Chip → Result K × Chip
      key_made k (err e, c) = (err e, c)
      key_made k (ok u, c) = (ok k, c)

  -- `RsaKey::Generate`
  unfoldable pub rsa_generate : ℕ → RsaBits → KeyPolicy → Chip → Result RsaKey × Chip
  rsa_generate id size policy c =
      with_handle (record { key_id = id; bits = rsa_bits size }) policy
        (λ c'. generate_key c' id (rsa_bits size) (rsa_policy policy))
        (allocate sss id part_pair cipher_rsa (rsa_bits size / 8) c)

  -- `EcKey::Generate`
  unfoldable pub ec_generate : ℕ → EcCurve → KeyPolicy → Chip → Result EcKey × Chip
  ec_generate id curve policy c =
      with_handle (record { key_id = id; curve = curve }) policy
        (λ c'. generate_key c' id (curve_bits curve) (ec_policy policy))
        (allocate sss id part_pair cipher_ec_nist_p (curve_bits curve / 8) c)

  abbrev pub rsa_sized : ℕ → Option (Bytes × ℕ) × Chip → Result RsaKey × Chip
  rsa_sized id (none, c) = (ok (record { key_id = id; bits = 2048 }), c)
  rsa_sized id (some (spki, bits), c) =
      (ok (record { key_id = id; bits = if ltb 0 bits then bits else 2048 }), c)

  abbrev pub rsa_opened : ℕ → Status × Chip → Result RsaKey × Chip
  rsa_opened id (err e, c) = (err e, c)
  rsa_opened id (ok u, c) = rsa_sized id (read_key c id spki_capacity)

  -- `RsaKey::Open`
  unfoldable pub rsa_open : ℕ → Chip → Result RsaKey × Chip
  rsa_open id c = rsa_opened id (open_object sss id c)

  abbrev pub ec_sized : ℕ → Option (Bytes × ℕ) × Chip → Result EcKey × Chip
  ec_sized id (none, c) = (ok (record { key_id = id; curve = p256 }), c)
  ec_sized id (some (spki, bits), c) = (ok (record { key_id = id; curve = curve_of bits }), c)

  abbrev pub ec_opened : ℕ → Status × Chip → Result EcKey × Chip
  ec_opened id (err e, c) = (err e, c)
  ec_opened id (ok u, c) = ec_sized id (read_key c id spki_capacity)

  -- `EcKey::Open`
  unfoldable pub ec_open : ℕ → Chip → Result EcKey × Chip
  ec_open id c = ec_opened id (open_object sss id c)

  abbrev pub made_signature : Option Bytes × Chip → Result Bytes × Chip
  made_signature (none, c) = (se_fail sign_failed (codes "asymmetric_sign_digest failed"), c)
  made_signature (some sig, c) = (ok sig, c)

  abbrev pub sign_with : ℕ → Bytes → ℕ → Bool × Chip → Result Bytes × Chip
  sign_with id digest capacity (false, c) =
      (se_fail sign_failed (codes "asymmetric_context_init(sign) failed"), c)
  sign_with id digest capacity (true, c) = made_signature (sign_digest c id digest capacity)

  -- `RsaKey::Sign`
  unfoldable pub rsa_sign : RsaKey → Bytes → Chip → Result Bytes × Chip
  rsa_sign k digest c =
      sign_with k.key_id digest (k.bits / 8) (sign_init c k.key_id rsassa_pkcs1_v1_5_sha256)

  -- `EcKey::Sign`
  unfoldable pub ec_sign : EcKey → Bytes → Chip → Result Bytes × Chip
  ec_sign k digest c = sign_with k.key_id digest sig_capacity (sign_init c k.key_id ecdsa_sha256)

  abbrev pub verify_with : ℕ → Bytes → Bytes → Bool × Chip → Result Bool × Chip
  verify_with id digest sig (false, c) =
      (se_fail sign_failed (codes "asymmetric_context_init(verify) failed"), c)
  verify_with id digest sig (true, c) =
      let (fits, c') = verify_digest c id digest sig in (ok fits, c')

  -- `RsaKey::Verify`
  unfoldable pub rsa_verify : RsaKey → Bytes → Bytes → Chip → Result Bool × Chip
  rsa_verify k digest sig c =
      verify_with k.key_id digest sig (verify_init c k.key_id rsassa_pkcs1_v1_5_sha256)

  -- `EcKey::Verify`
  unfoldable pub ec_verify : EcKey → Bytes → Bytes → Chip → Result Bool × Chip
  ec_verify k digest sig c = verify_with k.key_id digest sig (verify_init c k.key_id ecdsa_sha256)

  abbrev pub spki_read : Option (Bytes × ℕ) × Chip → Result Bytes × Chip
  spki_read (none, c) = (se_fail key_failed (codes "sss_key_store_get_key(SPKI) failed"), c)
  spki_read (some (spki, bits), c) = (ok spki, c)

  -- `RsaKey::PublicKeyDer` and `EcKey::PublicKeyDer`
  unfoldable pub public_key_der : ℕ → Chip → Result Bytes × Chip
  public_key_der id c = spki_read (read_key c id spki_capacity)

  module _ (pk : Pk) where
    open pk use {Certificate, sha256, parse_der, pk_verify}

    abbrev pub check_cert : Bytes → Bytes → Option Certificate → Result Bool
    check_cert digest sig none = se_fail read_failed (codes "mbedtls_x509_crt_parse_der failed")
    check_cert digest sig (some crt) = ok (pk_verify crt digest sig)

    abbrev pub binding_signed : Bytes → Bytes → Result Bytes × Chip → Result Bool × Chip
    binding_signed der digest (err e, c) = (err e, c)
    binding_signed der digest (ok sig, c) = (check_cert digest sig (parse_der der), c)

    abbrev pub binding_opened : Bytes → Bytes → Result RsaKey × Chip → Result Bool × Chip
    binding_opened der digest (err e, c) = (err e, c)
    binding_opened der digest (ok k, c) = binding_signed der digest (rsa_sign k digest c)

    abbrev pub binding_hashed : ℕ → Bytes → Option Bytes → Chip → Result Bool × Chip
    binding_hashed id der none c = (se_fail key_failed (codes "sha256 (verifyBinding) failed"), c)
    binding_hashed id der (some digest) c = binding_opened der digest (rsa_open id c)

    abbrev pub binding_nonce : ℕ → Bytes → Option Bytes × Chip → Result Bool × Chip
    binding_nonce id der (none, c) =
        (se_fail rng_failed (codes "rng_get_random (verifyBinding)"), c)
    binding_nonce id der (some nonce, c) = binding_hashed id der (sha256 nonce) c

    abbrev pub binding_ready : ℕ → Bytes → Bool × Chip → Result Bool × Chip
    binding_ready id der (false, c) =
        (se_fail rng_failed (codes "rng_context_init (verifyBinding)"), c)
    binding_ready id der (true, c) = binding_nonce id der (get_random c 32)

    -- `ObjectStore::VerifyBinding`
    unfoldable pub verify_binding : ℕ → Bytes → Chip → Result Bool × Chip
    verify_binding id der c = binding_ready id der (rng_init c)
