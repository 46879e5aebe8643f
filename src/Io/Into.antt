-- ===== src/Io/Into.antt =====
-- `Copy` from a view into a view.
use cpp_template.Base.{
  ℕ, ◌+◌, ◌-◌, ◌%◌, ◌^◌, ◌≤◌, ◌<◌, false, Option, some, [], ◌∷◌, ◌++◌, ◌≡◌, refl, sym, ◌∙◌, ap, ap₂,
  Bytes, length, take, drop, ltb, arith, length-take, take-append, length-drop, take-append-drop,
  drop-append, length-append, append_assoc,
}
use cpp_template.Core.{ok}
use cpp_template.Io.{SpanReader, remaining, span_reader, Copied, copy}
use cpp_template.Io.{SpanWriter, span_write, span_writer}
use cpp_template.Io.Copy.{copy_loop-CopiedAll, drop-drop}

-- A writer that has written a text since `w`.
pub record Written (w : SpanWriter) (t : Bytes) (k : SpanWriter) : Type 0 where
  pub at_end : k.pos ≡ w.pos + length t
  pub holds : k.buffer ≡ take w.pos w.buffer ++ (t ++ drop (w.pos + length t) w.buffer)

pub Written-span_write :
    (w : SpanWriter) (t x : Bytes) (k : SpanWriter)
    → w.pos ≤ length w.buffer
    → length t + length x ≤ length w.buffer - w.pos
    → Written w t k
    → ((span_write k x).0 ≡ ok tt) × Written w (t ++ x) (span_write k x).1
unfolding span_write
Written-span_write w t x k p room h =
    let enough : ltb (length k.buffer - k.pos) (length x) ≡ false =
      ground (arith, size, h.at_end) in
    rw enough (
      refl,
      record {
        at_end = omega (arith, h.at_end, length-append t x);
        holds =
            ap₂ (λ a b. a ++ (x ++ b)) taken rest
            ∙ append_assoc (take w.pos w.buffer) t _
            ∙ ap (λ l. take w.pos w.buffer ++ l) (sym (append_assoc t x _));
      },
    )
  where
    front : length (take w.pos w.buffer) ≡ w.pos
    front = length-take w.pos w.buffer ∙ omega (arith, p)

    size : length k.buffer ≡ length w.buffer
    size =
        ap length h.holds
        ∙ omega (
          arith,
          p,
          room,
          front,
          length-append (take w.pos w.buffer) (t ++ drop (w.pos + length t) w.buffer),
          length-append t (drop (w.pos + length t) w.buffer),
          length-drop (w.pos + length t) w.buffer,
        )

    whole : k.buffer ≡ (take w.pos w.buffer ++ t) ++ drop (w.pos + length t) w.buffer
    whole = h.holds ∙ sym (append_assoc (take w.pos w.buffer) t _)

    count : k.pos ≡ length (take w.pos w.buffer ++ t)
    count = omega (arith, h.at_end, front, length-append (take w.pos w.buffer) t)

    taken : take k.pos k.buffer ≡ take w.pos w.buffer ++ t
    taken = ap₂ (λ n l. take n l) count whole ∙ take-append (take w.pos w.buffer ++ t) _

    behind :
        (n : ℕ)
        → n ≡ w.pos + length t + length x
        → drop n w.buffer ≡ drop (w.pos + length (t ++ x)) w.buffer
    behind n e = ap (λ m. drop m w.buffer) (omega (arith, e, length-append t x))

    rest : drop (k.pos + length x) k.buffer ≡ drop (w.pos + length (t ++ x)) w.buffer
    rest =
        sym (drop-drop k.pos (length x) k.buffer)
        ∙ ap (drop (length x))
            (ap₂ (λ n l. drop n l) count whole ∙ drop-append (take w.pos w.buffer ++ t) _)
        ∙ drop-drop (w.pos + length t) (length x) w.buffer
        ∙ behind (w.pos + length t + length x) refl

no_more : (n : ℕ) → n ≡ n + 0
no_more n = omega arith

pub Written-start : (w : SpanWriter) → Written w [] w
Written-start w = record {
  at_end = omega arith;
  holds =
      sym (take-append-drop w.pos w.buffer)
      ∙ ap (λ n. take w.pos w.buffer ++ drop n w.buffer) (no_more w.pos);
}

-- What `Copy` from one view into another has done.
pub record Transferred (r : SpanReader) (w : SpanWriter)
    (out : Option (Copied span_reader span_writer)) : Type 0 where
  pub copied : Copied span_reader span_writer
  pub ends : out ≡ some copied
  pub sum : copied.result ≡ ok (remaining r % 2 ^ 64)
  pub at_end : copied.sink.pos ≡ w.pos + remaining r
  pub holds :
      copied.sink.buffer
      ≡ take w.pos w.buffer ++ (drop r.pos r.contents ++ drop (w.pos + remaining r) w.buffer)

-- `Copy` of a view into a view with room for the rest of it, through a scratch buffer of any size
-- but zero, returns the number of bytes that were left, and the buffer holds them behind what was
-- written before and is otherwise as it was; one round more than their number is enough.
pub copy-Transferred :
    (f : ℕ) (r : SpanReader) (w : SpanWriter) (scratch : Bytes)
    → 0 < length scratch
    → remaining r < f
    → w.pos ≤ length w.buffer
    → remaining r ≤ length w.buffer - w.pos
    → Transferred r w (copy span_reader span_writer f r w scratch)
unfolding copy
copy-Transferred f r w [] h fuel p room = absurd (omega arith)
copy-Transferred f r w (x ∷ xs) h fuel p room =
    let all =
      copy_loop-CopiedAll span_writer (length w.buffer - w.pos) (Written w)
        (λ t y k fits past. Written-span_write w t y k p fits past) f r w (x ∷ xs) [] 0 h fuel
        (omega arith) (omega arith) (Written-start w) in
    let count : w.pos + length (drop r.pos r.contents) ≡ w.pos + remaining r =
      omega (arith, length-drop r.pos r.contents) in
    record {
      copied = all.copied;
      ends = all.ends;
      sum = all.sum ∙ ap ok (omega arith);
      at_end = all.wrote.at_end ∙ count;
      holds =
          all.wrote.holds
          ∙ ap (λ n. take w.pos w.buffer ++ (drop r.pos r.contents ++ drop n w.buffer)) count;
    }
