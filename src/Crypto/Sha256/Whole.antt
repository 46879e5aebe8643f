-- ===== src/Crypto/Sha256/Whole.antt =====
-- `Final` and `Hash` on a whole message.
use cpp_template.Base.{
  ℕ, ◌-◌, ◌*◌, ◌/◌, ◌%◌, ◌^◌, false, some, [], ◌∷◌, ◌++◌, ◌≡◌, refl, sym, ◌∙◌, ap, ap₂, arith,
  Bytes, length, length-append, replicate, length-replicate,
}
use cpp_template.Core.{ok}
use cpp_template.Crypto.Sha256.{
  Sha256, initial_words, take_in, update, length_bytes, digest_bytes, final, fresh, result_of, hash,
}
use cpp_template.Crypto.Sha256.Stream.{Stream, feed_all, IsValid, stream}
use cpp_template.Crypto.Sha256.Update.{take_in-feed_all}
use cpp_template.Crypto.Sha256.Digest.{
  padding, pad, held, update_active, feed_all-compress_blocks, final-padding, final-take_in,
  final-take_in-take_in,
}
use cpp_template.Crypto.Sha256.Standard.{sha256, padded_digest-sha256}

-- `Final` sees the bytes read and their count, and nothing else of an object.
pub final-stream :
    (s t : Sha256)
    → IsValid s
    → IsValid t
    → s.finalized ≡ false
    → t.finalized ≡ false
    → stream s ≡ stream t
    → s.bitlen ≡ t.bitlen
    → result_of (final s) ≡ result_of (final t)
final-stream s t v w active active' reads bits =
    let count : s.buffered ≡ t.buffered =
      sym (held s v) ∙ ap (λ (u : Stream). length u.pending) reads ∙ held t w in
    final-padding s v active
    ∙ ap₂ (λ n b. some (ok (digest_bytes (feed_all (stream s) (padding n b)).words))) count bits
    ∙ ap (λ u. some (ok (digest_bytes (feed_all u (padding t.buffered t.bitlen)).words))) reads
    ∙ sym (final-padding t w active')

-- The digest does not depend on how the message is cut into calls of `Update`.
pub update_split :
    (s : Sha256) (xs ys : Bytes)
    → IsValid s
    → s.finalized ≡ false
    → result_of (final (update (update s xs).1 ys).1) ≡ result_of (final (update s (xs ++ ys)).1)
update_split s xs ys v active =
    let (w, reads, bits, flag) = take_in-feed_all s xs v in
    ap (λ r. result_of (final (update r.1 ys).1)) (update_active s xs active)
    ∙ ap (λ r. result_of (final r.1)) (update_active (take_in s xs) ys (flag ∙ active))
    ∙ final-take_in-take_in s xs ys v active
    ∙ ap (λ r. result_of (final r.1)) (sym (update_active s (xs ++ ys) active))

length-pad : (m : Bytes) → length (pad m) ≡ length (pad m) / 64 * 64
unfolding pad padding length_bytes
length-pad m =
    let tail : Bytes = replicate ((119 - length m % 64) % 64) 0 in
    let bits = length_bytes (length m * 8 % 2 ^ 64) in
    omega (
      arith,
      length-append m (0x80 ∷ (tail ++ bits)),
      length-append tail bits,
      length-replicate {A = ℕ} ((119 - length m % 64) % 64) 0,
    )

padding-mod : (n b : ℕ) → padding (n % 64) b ≡ padding n b
unfolding padding
padding-mod n b = ap (λ k. 0x80 ∷ (replicate k 0 ++ length_bytes b)) (omega arith)

pub fresh-IsValid : (garbage : Bytes) → length garbage ≡ 64 → IsValid (fresh garbage)
unfolding fresh
fresh-IsValid garbage size = record { sized = size; room = omega arith }

pub fresh_active : (garbage : Bytes) → (fresh garbage).finalized ≡ false
unfolding fresh
fresh_active garbage = refl

abbrev fresh_stream : Stream
fresh_stream = record { words = initial_words; pending = [] }

final-fresh :
    (garbage m : Bytes)
    → length garbage ≡ 64
    → result_of (final (take_in (fresh garbage) m))
      ≡ some (
          ok (
            digest_bytes (feed_all (record { words = initial_words; pending = [] }) (pad m)).words))
unfolding fresh pad
final-fresh garbage m size =
    let start = fresh_stream in
    final-take_in (fresh garbage) m (fresh-IsValid garbage size) refl
    ∙ ap₂ (λ l b. some (ok (digest_bytes (feed_all start (m ++ padding l b)).words))) (omega arith)
        (omega arith)
    ∙ ap (λ l. some (ok (digest_bytes (feed_all start (m ++ l)).words)))
        (padding-mod (length m) (length m * 8 % 2 ^ 64))

pub final-fresh-sha256 :
    (garbage m : Bytes)
    → length garbage ≡ 64
    → result_of (final (take_in (fresh garbage) m)) ≡ some (ok (sha256 m))
final-fresh-sha256 garbage m size =
    final-fresh garbage m size
    ∙ ap (λ (t : Stream). some (ok (digest_bytes t.words)))
        (feed_all-compress_blocks (length (pad m) / 64) initial_words (pad m) (length-pad m))
    ∙ ap (λ d. some (ok d)) (padded_digest-sha256 m)

-- A fresh object that is given its message in two parts.
pub final-update-update :
    (garbage xs ys : Bytes)
    → length garbage ≡ 64
    → result_of (final (update (update (fresh garbage) xs).1 ys).1) ≡ some (ok (sha256 (xs ++ ys)))
final-update-update garbage xs ys size =
    update_split (fresh garbage) xs ys (fresh-IsValid garbage size) (fresh_active garbage)
    ∙ ap (λ r. result_of (final r.1))
        (update_active (fresh garbage) (xs ++ ys) (fresh_active garbage))
    ∙ final-fresh-sha256 garbage (xs ++ ys) size

-- `Hash` returns, and what it returns is the SHA-256 of FIPS 180-4: its padding, its schedule, its
-- rounds and its constants, written without the code's.
pub hash_lem : (garbage m : Bytes) → length garbage ≡ 64 → hash garbage m ≡ some (ok (sha256 m))
unfolding hash
hash_lem garbage m size =
    ap (λ r. result_of (final r.1)) (update_active (fresh garbage) m (fresh_active garbage))
    ∙ final-fresh-sha256 garbage m size
