-- ===== src/Crypto/Hmac/Keyed.antt =====
-- `Tag` and `Verify` against RFC 2104.
use Prim.Native.Nat.{bit_xor}
use cpp_template.Base.{
  ℕ, [], ◌∷◌, ap₂, ◌-◌, ◌≡◌, ◌≢◌, refl, sym, ◌∙◌, ap, Option, none, some, ◌++◌, Bytes, length, ltb,
  if◌then◌else◌, replicate, true, false, Bool-cases, inl, inr, codes, ◌⊎◌,
}
use cpp_template.Core.{Category, Result, ok, err, fail}
use cpp_template.Crypto.{verify_failed, const_time_equal}
use cpp_template.Crypto.Equal.{const_time_equal_iff}
use cpp_template.Crypto.Sha256.{Sha256, update, final, fresh, reset, result_of}
use cpp_template.Crypto.Sha256.Standard.{sha256}
use cpp_template.Crypto.Sha256.Whole.{hash_lem, final-update-update}
use cpp_template.Crypto.Hmac.{
  Hmac, digest_value, block_key, xor_with, init_keyed, init, hmac_update, keep_result, outer_hash,
  hmac_final, hmac_result_of, tag_with, tag, verify,
}

-- The key, zero padded, after hashing when it is longer than a block.
pub standard_key : Bytes → Bytes
standard_key key =
    if ltb 64 (length key)
    then sha256 key ++ replicate (64 - length (sha256 key)) 0
    else key ++ replicate (64 - length key) 0

-- Every byte with the bits of the mask flipped.
abbrev pub flipped : ℕ → Bytes → Bytes
flipped mask [] = []
flipped mask (x ∷ k) = bit_xor x mask ∷ flipped mask k

-- HMAC as RFC 2104 has it.
abbrev pub hmac : Bytes → Bytes → Bytes
hmac key m =
    sha256 (flipped 0x5c (standard_key key) ++ sha256 (flipped 0x36 (standard_key key) ++ m))

xor_with-flipped : (mask : ℕ) (k : Bytes) → xor_with mask k ≡ flipped mask k
xor_with-flipped mask [] = refl
xor_with-flipped mask (x ∷ k) = ap (λ l. bit_xor x mask ∷ l) (xor_with-flipped mask k)

block_key-standard_key :
    (garbage key : Bytes) → length garbage ≡ 64 → block_key garbage key ≡ some (standard_key key)
unfolding block_key standard_key
block_key-standard_key garbage key size = elim (Bool-cases (ltb 64 (length key))) [
  | inl long ↦ rw (long, hash_lem garbage key size)
  | inr short ↦ rw short
]

hmac_result_of-keep_result :
    (h : Hmac) (r : Option (Result Bytes × Sha256)) → hmac_result_of (keep_result h r) ≡ result_of r
hmac_result_of-keep_result h none = refl
hmac_result_of-keep_result h (some (r, s)) = refl

hmac_result_of-outer_hash :
    (garbage : Bytes) (h : Hmac) (r : Option (Result Bytes × Sha256)) (d : Bytes)
    → length garbage ≡ 64
    → result_of r ≡ some (ok d)
    → hmac_result_of (outer_hash garbage h r) ≡ some (ok (sha256 (h.outer_key ++ d)))
unfolding outer_hash
hmac_result_of-outer_hash garbage h none d size e = cc
hmac_result_of-outer_hash garbage h (some (err x, s)) d size e = cc
hmac_result_of-outer_hash garbage h (some (ok d', s)) d size e =
    hmac_result_of-keep_result (record h { inner = s })
      (final (update (update (fresh garbage) h.outer_key).1 d').1)
    ∙ final-update-update garbage h.outer_key d' size
    ∙ ap (λ l. some (ok (sha256 (h.outer_key ++ l)))) (same_digest e)
  where
    same_digest : some (ok d') ≡ some (ok d) → d' ≡ d
    same_digest q = cc

-- `Tag` returns, and what it returns is HMAC-SHA-256 of the data under the key.
pub tag-hmac :
    (key_garbage inner_garbage outer_garbage key message : Bytes)
    → length key_garbage ≡ 64
    → length inner_garbage ≡ 64
    → length outer_garbage ≡ 64
    → tag key_garbage inner_garbage outer_garbage key message ≡ some (hmac key message)
unfolding tag init hmac_update hmac_final fresh reset
tag-hmac kg ig og key message ks is os =
    ap (λ k. tag_with og message (init_keyed (fresh ig) k)) (block_key-standard_key kg key ks)
    ∙ ap digest_value (
        hmac_result_of-outer_hash og _
          (final (update (update (fresh ig) (xor_with 0x36 (standard_key key))).1 message).1)
          (sha256 (xor_with 0x36 (standard_key key) ++ message)) os
          (final-update-update ig (xor_with 0x36 (standard_key key)) message is))
    ∙ ap₂ (λ outer inner. some (sha256 (outer ++ sha256 (inner ++ message))))
        (xor_with-flipped 0x5c (standard_key key)) (xor_with-flipped 0x36 (standard_key key))

no_true_is_false : ¬ (true ≡ false)
no_true_is_false e = cc

-- `Verify` returns: success on the signature that is the tag of the data, and otherwise the error
-- `VerifyFailed`.
pub verify_lem :
    (key_garbage inner_garbage outer_garbage key message sig : Bytes)
    → length key_garbage ≡ 64
    → length inner_garbage ≡ 64
    → length outer_garbage ≡ 64
    → ((sig ≡ hmac key message)
        × (verify key_garbage inner_garbage outer_garbage key message sig ≡ some (ok tt)))
      ⊎ ((sig ≢ hmac key message)
          × (verify key_garbage inner_garbage outer_garbage key message sig
              ≡ some (fail Category.crypto verify_failed (codes "HMAC mismatch"))))
unfolding verify
verify_lem kg ig og key message sig ks is os =
    let returned = tag-hmac kg ig og key message ks is os in
    elim (Bool-cases (const_time_equal (hmac key message) sig)) [
      | inl same ↦
          inl (sym ((const_time_equal_iff (hmac key message) sig).0 same), rw (returned, same))
      | inr differs ↦ inr (
        λ e.
            no_true_is_false
              (sym ((const_time_equal_iff (hmac key message) sig).1 (sym e)) ∙ differs),
        rw (returned, differs),
      )
    ]
