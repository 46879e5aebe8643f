-- ===== src/Se/Rotation.antt =====
-- ports/se05x/scp03.cpp: the rotation of the secure channel's keys that are given in memory, over
-- the middleware's calls on the host and to the element, which are the record `Channel`. What is
-- only logged is left out.
pub mod Confirmed
pub mod Keyed
mod Tests
use cpp_template.Base.{
  ℕ, ◌+◌, ◌-◌, ◌*◌, ◌%◌, Bool, true, false, Option, none, some, List, [], ◌∷◌, ◌++◌, Bytes, codes,
  length, take, drop, replicate, same, ltb, ◌==◌, get_or, if◌then◌else◌,
}
use cpp_template.Core.{Result, ok, err, Status}
use cpp_template.Se.{se_fail, key_failed}

-- `Scp03KeySet`
pub record KeySet : Type 0 where
  pub enc : Bytes
  pub mac : Bytes
  pub dek : Bytes

-- The header of a command: class, instruction and two parameters.
abbrev pub TlvHeader : Type 0
TlvHeader = ℕ × ℕ × ℕ × ℕ

-- A cipher takes the initial vector and leaves it as the library does.
pub record Channel : Type 1 where
  pub Session : Type 0
  pub set_dek : Session → Bytes → Bool × Session
  pub get_dek : Session → Option Bytes × Session
  pub object_init : Session → Bool × Session
  pub object_allocate : Session → Bool × Session
  pub object_set : Session → Bytes → Bool × Session
  pub cipher_init : Session → Bool × Session
  pub cipher_one_go : Session → Bytes → Bytes → Option (Bytes × Bytes) × Session
  pub free_all : Session → Session
  pub key_version : Session → ℕ
  pub security_level : Session → Option ℕ
  pub transmit : Session → TlvHeader → Bytes → Option Bytes × Session

-- One key block of the PUT KEY command.
abbrev pub key_block : Bytes → Bytes → Bytes
key_block enc_key kcv = 136 ∷ 17 ∷ 16 ∷ (enc_key ++ 3 ∷ kcv)

-- A key block and its check value in front of those of the other keys.
abbrev pub block_in_front :
    {S : Type 0} → Bytes → Bytes → Result (Bytes × Bytes) × S → Result (Bytes × Bytes) × S
block_in_front block kcv (err e, s) = (err e, s)
block_in_front block kcv (ok (blocks, kcvs), s) = (ok (block ++ blocks, kcv ++ kcvs), s)

-- The status word at the end of a response.
abbrev pub status_word : Bytes → ℕ
status_word rsp = get_or rsp (length rsp - 2) 0 * 256 + get_or rsp (length rsp - 1) 0

-- The checks of the response.
unfoldable pub check_response : Bytes → Bytes → Status
check_response expected rsp =
    if ltb (length rsp) (length expected + 2)
    then se_fail key_failed (codes "PUT KEY response too short")
    else if status_word rsp == 36864
    then (if same (take (length expected) rsp) expected
        then ok tt
        else se_fail key_failed (codes "PUT KEY key-check-value mismatch"))
    else se_fail key_failed (codes "PUT KEY rejected by SE")

module _ (channel : Channel) where
  open channel use {
    Session, set_dek, get_dek, object_init, object_allocate, object_set, cipher_init, cipher_one_go,
    free_all, key_version, security_level, transmit,
  }

  -- The encrypted key and its check value.
  abbrev pub Wrapped : Type 0
  Wrapped = Result (Bytes × Bytes) × Session

  -- `if (... != kStatus_SSS_Success) return fail(...)`
  abbrev pub must : Bytes → (Session → Wrapped) → Bool × Session → Wrapped
  must text rest (true, s) = rest s
  must text rest (false, s) = (se_fail key_failed text, free_all s)

  abbrev pub must_get :
      {A : Type 0} → Bytes → (A → Session → Wrapped) → Option A × Session → Wrapped
  must_get text rest (some a, s) = rest a s
  must_get text rest (none, s) = (se_fail key_failed text, free_all s)

  -- The wrapping of the key under the current DEK.
  abbrev pub wrap_key : Bytes → Bytes → Bytes → Session → Wrapped
  wrap_key plain kcv iv s =
      must_get (codes "get current DEK")
        (λ dek s₁.
          must (codes "set DEK")
            (λ s₂.
              must (codes "symm_init (wrap)")
                (λ s₃.
                  must_get (codes "cipher (wrap)") (λ out s₄. (ok (out.0, kcv), free_all s₄))
                    (cipher_one_go s₃ iv plain))
                (cipher_init s₂))
            (object_set s₁ (take 16 dek)))
        (get_dek s)

  -- The check value of the key, and then the wrapping.
  abbrev pub check_and_wrap : Bytes → Session → Wrapped
  check_and_wrap plain s =
      must (codes "set plain key (KCV)")
        (λ s₁.
          must (codes "symm_init (KCV)")
            (λ s₂.
              must_get (codes "cipher (KCV)") (λ out s₃. wrap_key plain (take 3 out.0) out.1 s₃)
                (cipher_one_go s₂ (replicate 16 0) (replicate 16 1)))
            (cipher_init s₁))
        (object_set s plain)

  abbrev pub with_object_init : Bytes → Bool × Session → Wrapped
  with_object_init plain (false, s) = (se_fail key_failed (codes "host key_object_init"), s)
  with_object_init plain (true, s) =
      must (codes "host key_object_allocate_handle") (check_and_wrap plain) (object_allocate s)

  -- `GenKcvAndEncryptKey`
  unfoldable pub wrap : Bytes → Session → Wrapped
  wrap plain s = with_object_init plain (object_init s)

  abbrev pub after_key :
      Wrapped → (Session → Result (Bytes × Bytes) × Session) → Result (Bytes × Bytes) × Session
  after_key (err e, s) rest = (err e, s)
  after_key (ok (enc_key, kcv), s) rest = block_in_front (key_block enc_key kcv) kcv (rest s)

  -- The loop of `SendPutKey` over the keys, with `CreateKeyData`: the key blocks of the command and
  -- the check values of the expected answer.
  unfoldable pub key_blocks : List Bytes → Session → Result (Bytes × Bytes) × Session
  key_blocks [] s = (ok ([], []), s)
  key_blocks (k ∷ ks) s = after_key (wrap k s) (key_blocks ks)

  abbrev pub transmitted : Bytes → Option Bytes × Session → Status × Session
  transmitted expected (none, s) = (se_fail key_failed (codes "PUT KEY transport failed"), s)
  transmitted expected (some rsp, s) = (check_response expected rsp, s)

  abbrev pub send_blocks : ℕ → Result (Bytes × Bytes) × Session → Status × Session
  send_blocks version (err e, s) = (err e, s)
  send_blocks version (ok (blocks, kcvs), s) =
      transmitted (version ∷ kcvs) (transmit s (128, 216, version, 129) (version ∷ blocks))

  abbrev pub is_level : Option ℕ → Bool
  is_level none = false
  is_level (some level) = level == 51

  -- `SendPutKey`
  unfoldable pub send_put_key : KeySet → Session → Status × Session
  send_put_key keys s =
      if is_level (security_level s)
      then send_blocks (key_version s) (key_blocks (keys.enc ∷ keys.mac ∷ keys.dek ∷ []) s)
      else (se_fail key_failed (codes "SCP03 security level insufficient for PUT KEY"), s)

  abbrev pub with_dek : KeySet → Bool → Bool × Session → Status × Session
  with_dek new_keys dry_run (false, s) =
      (se_fail key_failed (codes "load current DEK into static ctx failed"), s)
  with_dek new_keys true (true, s) = (ok tt, s)
  with_dek new_keys false (true, s) = send_put_key new_keys s

  -- `Rotate` with the current keys in memory
  unfoldable pub rotate : KeySet → KeySet → Bool → Session → Status × Session
  rotate current_keys new_keys dry_run s = with_dek new_keys dry_run (set_dek s current_keys.dek)
