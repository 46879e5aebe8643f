-- ===== src/Crypto/Hmac.antt =====
-- include/etlx/crypto/hmac.hpp and src/crypto/hmac.cpp. A hash object that is made on the way is
-- given what its buffer happens to hold.
pub mod Keyed
use Prim.Native.Nat.{bit_xor}
use cpp_template.Base.{
  ℕ, ◌-◌, Bool, Option, none, some, ◌++◌, [], map, codes, Bytes, length, ltb, if◌then◌else◌,
  replicate,
}
use cpp_template.Core.{Category, Result, ok, err, fail, Status}
use cpp_template.Crypto.{verify_failed, const_time_equal}
use cpp_template.Crypto.Sha256.{Sha256, update, final, fresh, reset, hash}

-- `inner_` and `okey_`
pub record Hmac : Type 0 where
  pub inner : Sha256
  pub outer_key : Bytes

-- `.digest_value()`, which an error has not.
abbrev pub digest_value : Option (Result Bytes) → Option Bytes
digest_value none = none
digest_value (some (ok d)) = some d
digest_value (some (err e)) = none

-- `k`, 64 bytes that start as zeros: the key is copied in, or its digest when it is longer.
unfoldable pub block_key : Bytes → Bytes → Option Bytes
block_key garbage key =
    if ltb 64 (length key)
    then (elim (digest_value (hash garbage key)) [
      | none ↦ none
      | some d ↦ some (d ++ replicate (64 - length d) 0)
    ])
    else some (key ++ replicate (64 - length key) 0)

abbrev pub xor_with : ℕ → Bytes → Bytes
xor_with mask k = map (λ x. bit_xor x mask) k

-- `Init`, on an object whose `inner_` is just constructed.
abbrev pub init_keyed : Sha256 → Option Bytes → Option Hmac
init_keyed made none = none
init_keyed made (some k) =
    some (record { inner = (update (reset made) (xor_with 0x36 k)).1; outer_key = xor_with 0x5c k })

unfoldable pub init : Bytes → Bytes → Bytes → Option Hmac
init key_garbage garbage key = init_keyed (fresh garbage) (block_key key_garbage key)

-- `HmacSha256::Update`
unfoldable pub hmac_update : Hmac → Bytes → Status × Hmac
hmac_update h message = let r = update h.inner message in (r.0, record h { inner = r.1 })

-- The outer hash of `Final`, on what the inner hash returned.
abbrev pub keep_result : Hmac → Option (Result Bytes × Sha256) → Option (Result Bytes × Hmac)
keep_result h none = none
keep_result h (some (r, s)) = some (r, h)

unfoldable pub outer_hash :
    Bytes → Hmac → Option (Result Bytes × Sha256) → Option (Result Bytes × Hmac)
outer_hash garbage h none = none
outer_hash garbage h (some (err e, s)) = some (err e, record h { inner = s })
outer_hash garbage h (some (ok d, s)) =
    keep_result (record h { inner = s }) (final (update (update (fresh garbage) h.outer_key).1 d).1)

-- `HmacSha256::Final`
unfoldable pub hmac_final : Bytes → Hmac → Option (Result Bytes × Hmac)
hmac_final garbage h = outer_hash garbage h (final h.inner)

abbrev pub hmac_result_of : Option (Result Bytes × Hmac) → Option (Result Bytes)
hmac_result_of none = none
hmac_result_of (some (r, h)) = some r

-- What `Tag` does with the object its constructor made.
abbrev pub tag_with : Bytes → Bytes → Option Hmac → Option Bytes
tag_with garbage message none = none
tag_with garbage message (some h) =
    digest_value (hmac_result_of (hmac_final garbage (hmac_update h message).1))

-- `Tag`
unfoldable pub tag : Bytes → Bytes → Bytes → Bytes → Bytes → Option Bytes
tag key_garbage inner_garbage outer_garbage key message =
    tag_with outer_garbage message (init key_garbage inner_garbage key)

-- `HmacVerifier::Verify`, on the tag.
abbrev pub check_tag : Bytes → Option Bytes → Option Status
check_tag sig none = none
check_tag sig (some t) = some (
    if const_time_equal t sig
    then ok tt
    else fail Category.crypto verify_failed (codes "HMAC mismatch"))

unfoldable pub verify : Bytes → Bytes → Bytes → Bytes → Bytes → Bytes → Option Status
verify key_garbage inner_garbage outer_garbage key message sig =
    check_tag sig (tag key_garbage inner_garbage outer_garbage key message)
