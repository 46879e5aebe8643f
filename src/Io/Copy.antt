-- ===== src/Io/Copy.antt =====
-- `Copy` out of a view.
use cpp_template.Base.{
  ℕ, zero, suc, ◌+◌, ◌-◌, ◌%◌, ◌^◌, ◌≤◌, ◌<◌, min, Option, some, [], ◌∷◌, ◌++◌, ◌≡◌, refl, sym, ◌∙◌,
  ap, ap₂, subst, inl, inr, Bytes, length, take, drop, ltb, ◌==◌, Bool-cases, arith, length-take,
  take-append, length-drop, take-append-drop, length-append, append_assoc, append-nil, drop_all,
}
use cpp_template.Core.{Result, ok}
use cpp_template.Io.{Writer, SpanReader, remaining, span_read, span_reader, Copied, copy_loop}

-- What a read from a view returns and leaves in the scratch buffer.
pub record Read (r : SpanReader) (scratch : Bytes) (out : Result ℕ × SpanReader × Bytes)
    : Type 0 where
  pub count : ℕ
  pub counted : out.0 ≡ ok count
  pub bound : count ≡ min (length scratch) (remaining r)
  pub moved : out.1 ≡ record r { pos = r.pos + count }
  pub bytes : take count out.2 ≡ take count (drop r.pos r.contents)
  pub size : length out.2 ≡ length scratch

take-take-append : (n : ℕ) (xs ys : Bytes) → n ≤ length xs → take n (take n xs ++ ys) ≡ take n xs
take-take-append n xs ys h =
    let count : length (take n xs) ≡ n = length-take n xs ∙ omega arith in
    ap (λ k. take k (take n xs ++ ys)) (sym count) ∙ take-append (take n xs) ys

pub drop-drop : (p n : ℕ) (xs : Bytes) → drop n (drop p xs) ≡ drop (p + n) xs
drop-drop zero n xs = ap (λ k. drop k xs) (omega arith)
drop-drop (suc p) n [] = drop_all n [] (omega arith) ∙ sym (drop_all (suc p + n) [] (omega arith))
drop-drop (suc p) n (x ∷ xs) =
    let e : suc p + n ≡ suc (p + n) = omega arith in rw e (drop-drop p n xs)

pub span_read-Read : (r : SpanReader) (scratch : Bytes) → Read r scratch (span_read r scratch)
unfolding span_read
span_read-Read r scratch = elim (Bool-cases (ltb 0 (min (length scratch) (remaining r)))) [
  | inl more ↦ rw more (record {
    count = min (length scratch) (remaining r);
    counted = refl;
    bound = refl;
    moved = refl;
    bytes =
        take-take-append (min (length scratch) (remaining r)) (drop r.pos r.contents) _
          (omega (arith, length-drop r.pos r.contents));
    size = omega (
      arith,
      length-append (take (min (length scratch) (remaining r)) (drop r.pos r.contents))
          (drop (min (length scratch) (remaining r)) scratch),
      length-take (min (length scratch) (remaining r)) (drop r.pos r.contents),
      length-drop r.pos r.contents,
      length-drop (min (length scratch) (remaining r)) scratch,
    );
  })
  | inr ended ↦
      let nothing : 0 ≡ min (length scratch) (remaining r) = ground (arith, ended) in
      rw ended (record {
        count = min (length scratch) (remaining r);
        counted = refl;
        bound = refl;
        moved = ap (λ p. record r { pos = p }) (omega arith);
        bytes =
            ap (λ n. take n scratch) (sym nothing)
            ∙ ap (λ n. take n (drop r.pos r.contents)) nothing;
        size = refl;
      })
]

-- The chunk that was read and the rest are what was left before.
joined :
    (r : SpanReader) (scratch t : Bytes) (q : Read r scratch (span_read r scratch))
    → (t ++ take q.count (span_read r scratch).2)
        ++ drop (span_read r scratch).1.pos (span_read r scratch).1.contents
      ≡ t ++ drop r.pos r.contents
joined r scratch t q =
    append_assoc t (take q.count (span_read r scratch).2) _
    ∙ ap (λ l. t ++ l)
        (ap₂ (λ a b. a ++ b) q.bytes
            (ap (λ (u : SpanReader). drop u.pos u.contents) q.moved
              ∙ sym (drop-drop r.pos q.count r.contents))
          ∙ take-append-drop q.count (drop r.pos r.contents))

-- A writer that takes what it is given, up to a limit, and keeps account of it.
module _ (W : Writer) (limit : ℕ) (Wrote : Bytes → W.Sink → Type 0)
    (accepts : (t x : Bytes) (k : W.Sink)
      → length t + length x ≤ limit
      → Wrote t k
      → ((W.write k x).0 ≡ ok tt) × Wrote (t ++ x) (W.write k x).1) where
  pub record CopiedAll (r : SpanReader) (t : Bytes) (total : ℕ)
      (out : Option (Copied span_reader W)) : Type 0 where
    pub copied : Copied span_reader W
    pub ends : out ≡ some copied
    pub sum : copied.result ≡ ok ((total + remaining r) % 2 ^ 64)
    pub wrote : Wrote (t ++ drop r.pos r.contents) copied.sink

  pub copy_loop-CopiedAll :
      (f : ℕ) (r : SpanReader) (k : W.Sink) (scratch t : Bytes) (total : ℕ)
      → 0 < length scratch
      → remaining r < f
      → total < 2 ^ 64
      → length t + remaining r ≤ limit
      → Wrote t k
      → CopiedAll r t total (copy_loop span_reader W f r k scratch total)
  unfolding copy_loop
  copy_loop-CopiedAll zero r k scratch t total h fuel small room w = absurd (omega arith)
  copy_loop-CopiedAll (suc f) r k scratch t total h fuel small room w =
      let q = span_read-Read r scratch in
      elim (Bool-cases (q.count == 0)) [
        | inl ended ↦
            let none_left : remaining r ≡ 0 = ground (arith, q.bound, ended) in
            rw (q.counted, ended, copy_loop)
              (record {
                copied = _;
                ends = refl;
                sum = ap ok (omega (arith, none_left));
                wrote =
                    subst (λ l. Wrote l k)
                      (sym (
                        ap (λ l. t ++ l) (drop_all r.pos r.contents (omega (arith, none_left)))
                        ∙ append-nil t))
                      w;
              })
        | inr more ↦
            let positive : 0 < q.count = ground (arith, more) in
            let chunk = take q.count (span_read r scratch).2 in
            let part : length chunk ≤ q.count =
              omega (arith, length-take q.count (span_read r scratch).2) in
            let (taken, w') = accepts t chunk k (omega (arith, q.bound, part)) w in
            let left : remaining (span_read r scratch).1 ≡ remaining r - q.count =
              ap remaining q.moved ∙ omega arith in
            let ih =
              copy_loop-CopiedAll f (span_read r scratch).1 (W.write k chunk).1
                (span_read r scratch).2 (t ++ chunk) ((total + q.count) % 2 ^ 64)
                (omega (arith, q.size)) (omega (arith, left, q.bound)) (omega arith)
                (omega (arith, left, q.bound, part, length-append t chunk)) w' in
            rw (q.counted, more, copy_loop)
              (rw (taken, copy_loop)
                (record {
                  copied = ih.copied;
                  ends = ih.ends;
                  sum = ih.sum ∙ ap ok (omega (arith, left, q.bound));
                  wrote = subst (λ l. Wrote l ih.copied.sink) (joined r scratch t q) ih.wrote;
                }))
      ]
