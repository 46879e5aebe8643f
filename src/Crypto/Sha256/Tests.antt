-- ===== src/Crypto/Sha256/Tests.antt =====
-- The digest of "abc", as tests/crypto/test_crypto.cpp has it.
use cpp_template.Base.{
  ℕ, some, [], ◌∷◌, ◌≡◌, refl, codes, replicate, Bytes, false, length, arith, ◌+◌, ◌*◌, ◌%◌, ◌^◌,
}
use cpp_template.Crypto.Sha256.Stream.{IsValid, stream, feed_all}
use cpp_template.Crypto.Sha256.Update.{take_in-feed_all}
use cpp_template.Crypto.Sha256.Standard.{sha256}
use cpp_template.Crypto.Sha256.Whole.{update_split, hash_lem}
use cpp_template.Core.{ok}
use cpp_template.Crypto.Sha256.{
  compress, fill, flush, drain, blocks, store_all, take_in, update, pad_loop, length_bytes,
  digest_bytes, close, final, fresh, hash, result_of,
}

abbrev garbage : Bytes
garbage = replicate 64 7

hash_abc :
    hash garbage (codes "abc")
    ≡ some (
        ok (
          0xba ∷ 0x78 ∷ 0x16 ∷ 0xbf ∷ 0x8f ∷ 0x01 ∷ 0xcf ∷ 0xea ∷ 0x41 ∷ 0x41 ∷ 0x40 ∷ 0xde ∷ 0x5d
          ∷ 0xae ∷ 0x22 ∷ 0x23 ∷ 0xb0 ∷ 0x03 ∷ 0x61 ∷ 0xa3 ∷ 0x96 ∷ 0x17 ∷ 0x7a ∷ 0x9c ∷ 0xb4 ∷ 0x10
          ∷ 0xff ∷ 0x61 ∷ 0xf2 ∷ 0x00 ∷ 0x15 ∷ 0xad ∷ []))
unfolding hash final update take_in drain fill flush blocks store_all pad_loop close length_bytes
    digest_bytes compress fresh
hash_abc = refl

start-IsValid : IsValid (fresh garbage)
unfolding fresh
start-IsValid = record { sized = refl; room = omega arith }

start_active : (fresh garbage).finalized ≡ false
unfolding fresh
start_active = refl

-- Twelve bytes in two calls.
update_split_example :
    result_of (final (update (update (fresh garbage) (codes "hello ")).1 (codes "world!")).1)
    ≡ result_of (final (update (fresh garbage) (codes "hello world!")).1)
update_split_example =
    update_split (fresh garbage) (codes "hello ") (codes "world!") start-IsValid start_active

hash_lem_example : hash garbage (codes "abc") ≡ some (ok (sha256 (codes "abc")))
hash_lem_example = hash_lem garbage (codes "abc") refl

take_in-feed_all_example :
    IsValid (take_in (fresh garbage) (replicate 70 1))
    × (stream (take_in (fresh garbage) (replicate 70 1))
        ≡ feed_all (stream (fresh garbage)) (replicate 70 1))
    × ((take_in (fresh garbage) (replicate 70 1)).bitlen
        ≡ ((fresh garbage).bitlen + length {A = ℕ} (replicate 70 1) * 8 % 2 ^ 64) % 2 ^ 64)
    × ((take_in (fresh garbage) (replicate 70 1)).finalized ≡ (fresh garbage).finalized)
take_in-feed_all_example = take_in-feed_all (fresh garbage) (replicate 70 1) start-IsValid
