-- ===== src/Crypto/Sha256/Digest.antt =====
-- What `Final` comes to: the message is padded, split into blocks, and each is compressed.
use cpp_template.Base.{
  ℕ, zero, suc, ◌+◌, ◌-◌, ◌*◌, ◌/◌, ◌%◌, ◌^◌, ◌<◌, true, false, Option, some, [], ◌∷◌, ◌++◌, ◌≡◌,
  refl, sym, ◌∙◌, ap, ap₂, ◌⊎◌, arith, ◌==◌, ==_iff, Bytes, length, take, drop, append_assoc,
  length-append, length-take, length-drop, take_all, take-append-drop, replicate,
}
use cpp_template.Core.{ok}
use cpp_template.Crypto.Sha256.{
  Words, Sha256, initial_words, compress, store_all, take_in, update, pad_loop, length_bytes,
  digest_bytes, close, close_padded, final, result_of,
}
use cpp_template.Crypto.Sha256.Stream.{
  Stream, feed, feed_all, feed_all-append, feed_all_block, IsValid, stream, store_all-take,
}
use cpp_template.Crypto.Sha256.Update.{take_in-feed_all}

-- The padding behind a message of `n` bytes: a one bit, zeros up to 56 modulo 64, the bit length.
unfoldable pub padding : ℕ → ℕ → Bytes
padding n bits = 0x80 ∷ (replicate ((119 - n % 64) % 64) 0 ++ length_bytes bits)

unfoldable pub pad : Bytes → Bytes
pad m = m ++ padding (length m) (length m * 8 % 2 ^ 64)

-- Compress `n` blocks of 64 bytes, the first one first.
unfoldable pub compress_blocks : ℕ → Words → Bytes → Words
compress_blocks zero w m = w
compress_blocks (suc n) w m = compress_blocks n (compress w (take 64 m)) (drop 64 m)

-- The code's own steps on a padded message.
abbrev pub padded_digest : Bytes → Bytes
padded_digest m = digest_bytes (compress_blocks (length (pad m) / 64) initial_words (pad m))

length-feed :
    (s : Stream) (x : ℕ)
    → length s.pending < 64
    → length (feed s x).pending ≡ (length s.pending + 1) % 64
unfolding feed
length-feed s x h = ground (arith, length-append s.pending (x ∷ []))

-- How many bytes are pending.
length-feed_all :
    (s : Stream) (xs : Bytes)
    → length s.pending < 64
    → length (feed_all s xs).pending ≡ (length s.pending + length xs) % 64
unfolding feed_all
length-feed_all s [] h = omega arith
length-feed_all s (x ∷ xs) h =
    length-feed_all (feed s x) xs (omega (arith, length-feed s x h))
    ∙ omega (arith, length-feed s x h)

pub feed_all-compress_blocks :
    (n : ℕ) (w : Words) (m : Bytes)
    → length m ≡ n * 64
    → feed_all (record { words = w; pending = [] }) m
      ≡ record { words = compress_blocks n w m; pending = [] }
unfolding compress_blocks feed_all
feed_all-compress_blocks zero w [] h = refl
feed_all-compress_blocks zero w (x ∷ m) h = absurd (omega arith)
feed_all-compress_blocks (suc n) w m h =
    let size : length (take 64 m) ≡ 64 = length-take 64 m ∙ omega arith in
    ap (feed_all (record { words = w; pending = [] })) (sym (take-append-drop 64 m))
    ∙ feed_all-append _ (take 64 m) (drop 64 m)
    ∙ ap (λ t. feed_all t (drop 64 m))
        (feed_all_block (record { words = w; pending = [] }) (take 64 m) (omega arith)
          (omega arith))
    ∙ feed_all-compress_blocks n (compress w (take 64 m)) (drop 64 m)
        (length-drop 64 m ∙ omega arith)

pub held : (s : Sha256) → IsValid s → length (take s.buffered s.buffer) ≡ s.buffered
held s v = length-take s.buffered s.buffer ∙ omega (arith, v.sized, v.room)

-- The number of buffered bytes after `Update`.
pub buffered-take_in :
    (s : Sha256) (xs : Bytes) → IsValid s → (take_in s xs).buffered ≡ (s.buffered + length xs) % 64
buffered-take_in s xs v =
    let (w, reads, bits, flag) = take_in-feed_all s xs v in
    sym (held (take_in s xs) w)
    ∙ ap (λ (t : Stream). length t.pending) reads
    ∙ length-feed_all (stream s) xs (omega (arith, held s v, v.room))
    ∙ ap (λ n. (n + length xs) % 64) (held s v)

pub update_active :
    (s : Sha256) (xs : Bytes) → s.finalized ≡ false → update s xs ≡ (ok tt, take_in s xs)
unfolding update
update_active s xs h = ground arith

record Padded (s : Sha256) (k : ℕ) (r : Option Sha256) : Type 0 where
  out : Sha256
  ends : r ≡ some out
  reads : stream out ≡ feed_all (stream s) (replicate k 0)
  at_56 : out.buffered ≡ 56
  valid : IsValid out

-- The padding loop ends within 64 rounds, whatever is buffered.
pad_loop-Padded :
    (k f : ℕ) (s : Sha256)
    → IsValid s
    → s.finalized ≡ false
    → k < f
    → k < 64
    → (s.buffered + k ≡ 56) ⊎ (s.buffered + k ≡ 120)
    → Padded s k (pad_loop f s)
unfolding pad_loop feed_all
pad_loop-Padded k zero s v active fuel h b = absurd (omega arith)
pad_loop-Padded zero (suc f) s v active fuel h b =
    let here : (s.buffered == 56) ≡ true = ground (arith, v.room) in
    rw (here, pad_loop)
      (record { out = s; ends = refl; reads = refl; at_56 = (==_iff _ _).0 here; valid = v })
pad_loop-Padded (suc k) (suc f) s v active fuel h b =
    let other : (s.buffered == 56) ≡ false = ground (arith, v.room) in
    let (w, reads, bits, flag) = take_in-feed_all s (0 ∷ []) v in
    let count = buffered-take_in s (0 ∷ []) v in
    let ih =
      pad_loop-Padded k f (take_in s (0 ∷ [])) w (flag ∙ active) (omega arith) (omega arith)
        (omega (arith, v.room)) in
    rw (other, pad_loop)
      (rw (update_active s (0 ∷ []) active) (record {
        out = ih.out;
        ends = ih.ends;
        reads = ih.reads ∙ ap (λ t. feed_all t (replicate k 0)) reads;
        at_56 = ih.at_56;
        valid = ih.valid;
      }))

close-feed_all :
    (bits : ℕ) (p : Sha256)
    → IsValid p
    → p.buffered ≡ 56
    → (close bits p).0 ≡ digest_bytes (feed_all (stream p) (length_bytes bits)).words
unfolding close length_bytes
close-feed_all bits p v e =
    let (bytes, count, size, st, same_bits, flag) =
      store_all-take (length_bytes bits) p v.sized (omega arith) in
    let full : 64 ≡ (store_all (length_bytes bits) p).buffered = omega (arith, count, e) in
    let whole : (store_all (length_bytes bits) p).buffer
        ≡ take p.buffered p.buffer ++ length_bytes bits =
      sym (take_all 64 _ (omega arith))
      ∙ ap (λ n. take n (store_all (length_bytes bits) p).buffer) full
      ∙ bytes in
    ap₂ (λ w l. digest_bytes (compress w l)) st whole
    ∙ ap (λ (t : Stream). digest_bytes t.words)
        (sym (
          feed_all_block (stream p) (length_bytes bits) (omega (arith, held p v))
            (omega (arith, held p v))))

final_active :
    (s : Sha256)
    → s.finalized ≡ false
    → final s ≡ close_padded s.bitlen (pad_loop 64 (update s (0x80 ∷ [])).1)
unfolding final
final_active s h = ground arith

-- `Final` ends, and returns the digest of the bytes read and their padding.
pub final-padding :
    (s : Sha256)
    → IsValid s
    → s.finalized ≡ false
    → result_of (final s)
      ≡ some (ok (digest_bytes (feed_all (stream s) (padding s.buffered s.bitlen)).words))
unfolding padding feed_all
final-padding s v active =
    let k = (119 - s.buffered % 64) % 64 in
    let (w, reads, bits, flag) = take_in-feed_all s (0x80 ∷ []) v in
    let count = buffered-take_in s (0x80 ∷ []) v in
    let padded =
      pad_loop-Padded k 64 (take_in s (0x80 ∷ [])) w (flag ∙ active) (omega arith) (omega arith)
        (omega (arith, v.room)) in
    let digest = λ (w : Words). some (ok (digest_bytes w)) in
    ap result_of (
      final_active s active
      ∙ ap (λ r. close_padded s.bitlen (pad_loop 64 r.1)) (update_active s (0x80 ∷ []) active)
      ∙ ap (close_padded s.bitlen) padded.ends)
    ∙ ap (λ d. some (ok d)) (close-feed_all s.bitlen padded.out padded.valid padded.at_56)
    ∙ ap (λ (t : Stream). digest (feed_all t (length_bytes s.bitlen)).words)
        (padded.reads ∙ ap (λ t. feed_all t (replicate k 0)) reads)
    ∙ ap (λ (t : Stream). digest t.words)
        (sym (
          feed_all-append (feed_all (stream s) (0x80 ∷ [])) (replicate k 0)
            (length_bytes s.bitlen)))

-- `Final` after `Update`, in terms of the object before.
pub final-take_in :
    (s : Sha256) (xs : Bytes)
    → IsValid s
    → s.finalized ≡ false
    → result_of (final (take_in s xs))
      ≡ some (
          ok (
            digest_bytes
              (feed_all (stream s) (
                xs
                ++ padding
                    ((s.buffered + length xs) % 64)
                    ((s.bitlen + length xs * 8 % 2 ^ 64) % 2 ^ 64))).words))
final-take_in s xs v active =
    let (w, reads, bits, flag) = take_in-feed_all s xs v in
    let tail =
      padding ((s.buffered + length xs) % 64) ((s.bitlen + length xs * 8 % 2 ^ 64) % 2 ^ 64) in
    final-padding (take_in s xs) w (flag ∙ active)
    ∙ ap₂ (λ n b. some (ok (digest_bytes (feed_all (stream (take_in s xs)) (padding n b)).words)))
        (buffered-take_in s xs v) bits
    ∙ ap (λ (t : Stream). some (ok (digest_bytes (feed_all t tail).words))) reads
    ∙ ap (λ (t : Stream). some (ok (digest_bytes t.words)))
        (sym (feed_all-append (stream s) xs tail))

-- Two calls of the body of `Update` are one call on both, as far as `Final` can tell.
pub final-take_in-take_in :
    (s : Sha256) (xs ys : Bytes)
    → IsValid s
    → s.finalized ≡ false
    → result_of (final (take_in (take_in s xs) ys)) ≡ result_of (final (take_in s (xs ++ ys)))
final-take_in-take_in s xs ys v active =
    let (w, reads, bits, flag) = take_in-feed_all s xs v in
    let size = length-append xs ys in
    let tail =
      padding ((s.buffered + length (xs ++ ys)) % 64)
        ((s.bitlen + length (xs ++ ys) * 8 % 2 ^ 64) % 2 ^ 64) in
    final-take_in (take_in s xs) ys w (flag ∙ active)
    ∙ ap₂
        (λ n b.
          some (ok (digest_bytes (feed_all (stream (take_in s xs)) (ys ++ padding n b)).words)))
        (omega (arith, buffered-take_in s xs v, size)) (omega (arith, bits, size))
    ∙ ap (λ (t : Stream). some (ok (digest_bytes (feed_all t (ys ++ tail)).words))) reads
    ∙ ap (λ (t : Stream). some (ok (digest_bytes t.words)))
        (sym (feed_all-append (stream s) xs (ys ++ tail)))
    ∙ ap (λ l. some (ok (digest_bytes (feed_all (stream s) l).words)))
        (sym (append_assoc xs ys tail))
    ∙ sym (final-take_in s (xs ++ ys) v active)
