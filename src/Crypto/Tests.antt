-- ===== src/Crypto/Tests.antt =====
-- Witnesses for the crypto module; the key and the message are those of
-- tests/crypto/test_crypto.cpp.
use cpp_template.Base.{◌≡◌, ◌≢◌, ◌⊎◌, refl, some, Bytes, codes, replicate}
use cpp_template.Core.{Category, ok, fail}
use cpp_template.Crypto.{verify_failed}
use cpp_template.Crypto.Hmac.{tag, verify}
use cpp_template.Crypto.Hmac.Keyed.{hmac, tag-hmac, verify_lem}

abbrev key : Bytes
key = codes "key"

abbrev message : Bytes
message = codes "The quick brown fox jumps over the lazy dog"

abbrev garbage : Bytes
garbage = replicate 64 9

tag-hmac_example : tag garbage garbage garbage key message ≡ some (hmac key message)
tag-hmac_example = tag-hmac garbage garbage garbage key message refl refl refl

verify_lem_example :
    ((codes "forged" ≡ hmac key message)
      × (verify garbage garbage garbage key message (codes "forged") ≡ some (ok tt)))
    ⊎ ((codes "forged" ≢ hmac key message)
        × (verify garbage garbage garbage key message (codes "forged")
            ≡ some (fail Category.crypto verify_failed (codes "HMAC mismatch"))))
verify_lem_example = verify_lem garbage garbage garbage key message (codes "forged") refl refl refl
