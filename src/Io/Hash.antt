-- ===== src/Io/Hash.antt =====
-- `HashStream` of a view.
use cpp_template.Base.{
  ℕ, ◌+◌, ◌*◌, ◌%◌, ◌^◌, ◌≤◌, ◌<◌, false, some, [], ◌∷◌, ◌++◌, ◌≡◌, refl, sym, ◌∙◌, ap, Bytes,
  length, drop, arith, length-append,
}
use cpp_template.Core.{ok}
use cpp_template.Crypto.Sha256.{Sha256, update, final, fresh, take_in, result_of}
use cpp_template.Crypto.Sha256.Stream.{IsValid, stream, feed_all, feed_all-append}
use cpp_template.Crypto.Sha256.Update.{take_in-feed_all}
use cpp_template.Crypto.Sha256.Digest.{update_active}
use cpp_template.Crypto.Sha256.Standard.{sha256}
use cpp_template.Crypto.Sha256.Whole.{final-stream, fresh-IsValid, fresh_active, final-fresh-sha256}
use cpp_template.Io.{
  SpanReader, remaining, span_reader, copy, hasher_writer, finish_stream, hash_stream,
}
use cpp_template.Io.Copy.{copy_loop-CopiedAll}

-- A SHA-256 object that has read a text since it was made.
record Fed (garbage t : Bytes) (h : Sha256) : Type 0 where
  valid : IsValid h
  active : h.finalized ≡ false
  reads : stream h ≡ feed_all (stream (fresh garbage)) t
  bits : h.bitlen ≡ length t * 8 % 2 ^ 64

Fed-write :
    (limit : ℕ) (garbage t x : Bytes) (h : Sha256)
    → length t + length x ≤ limit
    → Fed garbage t h
    → ((update h x).0 ≡ ok tt) × Fed garbage (t ++ x) (update h x).1
Fed-write limit garbage t x h _ w =
    let (valid, reads, bits, flag) = take_in-feed_all h x w.valid in
    rw (update_active h x w.active) (
      refl,
      record {
        valid = valid;
        active = flag ∙ w.active;
        reads =
            reads
            ∙ ap (λ u. feed_all u x) w.reads
            ∙ sym (feed_all-append (stream (fresh garbage)) t x);
        bits = omega (arith, bits, w.bits, length-append t x);
      },
    )

Fed-fresh : (garbage : Bytes) → length garbage ≡ 64 → Fed garbage [] (fresh garbage)
unfolding feed_all fresh
Fed-fresh garbage size = record {
  valid = fresh-IsValid garbage size;
  active = refl;
  reads = refl;
  bits = omega arith;
}

-- What `Final` returns of such an object.
Fed-final :
    (garbage t : Bytes) (h : Sha256)
    → length garbage ≡ 64
    → Fed garbage t h
    → result_of (final h) ≡ some (ok (sha256 t))
unfolding fresh
Fed-final garbage t h size w =
    let (valid, reads, bits, flag) =
      take_in-feed_all (fresh garbage) t (fresh-IsValid garbage size) in
    final-stream h (take_in (fresh garbage) t) w.valid valid w.active (flag ∙ fresh_active garbage)
      (w.reads ∙ sym reads) (omega (arith, w.bits, bits))
    ∙ final-fresh-sha256 garbage t size

-- `HashStream` of a view into a new SHA-256 object, through a scratch buffer of any size but zero,
-- returns the SHA-256 of the bytes that are left in the view; one round more than their number is
-- enough for the loop of `Copy`.
pub hash_stream-sha256 :
    (f : ℕ) (r : SpanReader) (garbage scratch : Bytes)
    → length garbage ≡ 64
    → 0 < length scratch
    → remaining r < f
    → hash_stream span_reader f r (fresh garbage) scratch
      ≡ some (ok (sha256 (drop r.pos r.contents)))
unfolding hash_stream copy
hash_stream-sha256 f r garbage [] size h fuel = absurd (omega arith)
hash_stream-sha256 f r garbage (x ∷ xs) size h fuel =
    let all =
      copy_loop-CopiedAll hasher_writer (remaining r) (Fed garbage)
        (Fed-write (remaining r) garbage) f r (fresh garbage) (x ∷ xs) [] 0 h fuel (omega arith)
        (omega arith) (Fed-fresh garbage size) in
    ap (finish_stream span_reader) all.ends
    ∙ rw (all.sum, finish_stream)
        (Fed-final garbage (drop r.pos r.contents) all.copied.sink size all.wrote)
