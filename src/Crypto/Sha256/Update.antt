-- ===== src/Crypto/Sha256/Update.antt =====
-- `Update` reads its bytes in order, whatever the split into blocks.
use cpp_template.Base.{
  ℕ, zero, suc, ◌+◌, ◌-◌, ◌*◌, ◌%◌, ◌^◌, ◌≤◌, ◌<◌, min, [], ◌++◌, ◌≡◌, refl, sym, ◌∙◌, ap, ap₂, ◌⊎◌,
  inl, inr, arith, ltb, leb, ◌==◌, ==_iff, Bool-cases, Bytes, length, take, subst, drop,
  append_assoc, length-take, length-drop, take_all, drop_all, take-append-drop,
}
use cpp_template.Crypto.Sha256.{Sha256, compress, flush, drain, blocks, store_all, take_in}
use cpp_template.Crypto.Sha256.Stream.{
  feed_all, feed_all-append, feed_all_short, feed_all_block, IsValid, stream, store_all-take,
  fill-store_all,
}

-- What one phase of `Update` has done: it has read `used` and left the rest.
pub record Took (s : Sha256) (xs : Bytes) (out : Sha256 × Bytes) : Type 0 where
  pub used : Bytes
  pub splits : used ++ out.1 ≡ xs
  pub reads : stream out.0 ≡ feed_all (stream s) used
  pub valid : IsValid out.0
  pub bits_same : out.0.bitlen ≡ s.bitlen
  pub flag_same : out.0.finalized ≡ s.finalized
  pub aligned : (out.0.buffered ≡ 0) ⊎ (out.1 ≡ [])

-- A buffer that is filled up, or all bytes stored.
flush-Took :
    (s : Sha256) (xs : Bytes)
    → IsValid s
    → Took s xs (flush (store_all (take (64 - s.buffered) xs) s), drop (64 - s.buffered) xs)
unfolding flush
flush-Took s xs v = elim (Bool-cases ((store_all got s).buffered == 64)) [
  | inl full ↦
      let all : (store_all got s).buffered ≡ 64 = (==_iff _ _).0 full in
      let whole : (store_all got s).buffer ≡ take s.buffered s.buffer ++ got =
        sym (take_all 64 _ (omega (arith, facts.2)))
        ∙ ap (λ n. take n (store_all got s).buffer) (sym all)
        ∙ facts.0 in
      rw full (record {
        used = got;
        splits = take-append-drop (64 - s.buffered) xs;
        reads =
            ap₂ (λ w l. record { words = compress w l; pending = [] }) facts.3 whole
            ∙ sym (
                feed_all_block (stream s) got (omega (arith, held)) (omega (arith, held, facts.1)));
        valid = record { sized = facts.2; room = omega arith };
        bits_same = facts.4;
        flag_same = facts.5;
        aligned = inl refl;
      })
  | inr part ↦
      let less : (store_all got s).buffered < 64 = ground (arith, facts.1, count, v.room) in
      rw part (record {
        used = got;
        splits = take-append-drop (64 - s.buffered) xs;
        reads =
            ap₂ (λ w l. record { words = w; pending = l }) facts.3 facts.0
            ∙ sym (feed_all_short (stream s) got (omega (arith, held, facts.1)));
        valid = record { sized = facts.2; room = less };
        bits_same = facts.4;
        flag_same = facts.5;
        aligned = inr (drop_all (64 - s.buffered) xs (omega (arith, facts.1, count)));
      })
]
  where
    got : Bytes
    got = take (64 - s.buffered) xs

    count : length got ≡ min (64 - s.buffered) (length xs)
    count = length-take (64 - s.buffered) xs

    held : length (take s.buffered s.buffer) ≡ s.buffered
    held = length-take s.buffered s.buffer ∙ omega (arith, v.sized, v.room)

    facts :
        (take (store_all got s).buffered (store_all got s).buffer ≡ take s.buffered s.buffer ++ got)
        × ((store_all got s).buffered ≡ s.buffered + length got)
        × (length (store_all got s).buffer ≡ 64)
        × ((store_all got s).state ≡ s.state)
        × ((store_all got s).bitlen ≡ s.bitlen)
        × ((store_all got s).finalized ≡ s.finalized)
    facts = store_all-take got s v.sized (omega (arith, v.room, count))

-- Nothing is read.
Took-none : (s : Sha256) (xs : Bytes) → IsValid s → (s.buffered ≡ 0) ⊎ (xs ≡ []) → Took s xs (s, xs)
unfolding feed_all
Took-none s xs v a = record {
  used = [];
  splits = refl;
  reads = refl;
  valid = v;
  bits_same = refl;
  flag_same = refl;
  aligned = a;
}

drain-Took : (s : Sha256) (xs : Bytes) → IsValid s → Took s xs (drain xs s)
unfolding drain
drain-Took s xs v = elim (Bool-cases (ltb 0 s.buffered)) [
  | inl some_held ↦
      rw some_held (rw (fill-store_all xs s (omega (arith, v.room))) (flush-Took s xs v))
  | inr none_held ↦ rw none_held (Took-none s xs v (inl (ground arith)))
]

-- Reading one block where it stands.
abbrev compressed : Sha256 → Bytes → Sha256
compressed s xs = record s { state = compress s.state (take 64 xs) }

stream-compressed :
    (s : Sha256) (xs : Bytes)
    → s.buffered ≡ 0
    → 64 ≤ length xs
    → stream (compressed s xs) ≡ feed_all (stream s) (take 64 xs)
stream-compressed s xs e h =
    let empty : take s.buffered s.buffer ≡ [] = ap (λ n. take n s.buffer) e in
    let size : length (take 64 xs) ≡ 64 = length-take 64 xs ∙ omega arith in
    ap₂ (λ l m. record { words = compress s.state (l ++ take 64 xs); pending = m }) (sym empty)
      empty
    ∙ sym (
        feed_all_block (stream s) (take 64 xs) (omega (arith, ap length empty))
          (omega (arith, ap length empty)))

-- With an empty buffer, whole blocks are compressed where they stand.
blocks-Took :
    (f : ℕ) (s : Sha256) (xs : Bytes)
    → IsValid s
    → s.buffered ≡ 0
    → length xs < f + 64
    → Took s xs (blocks f xs s) × (length (blocks f xs s).1 < 64)
unfolding blocks
blocks-Took zero s xs v e h = (Took-none s xs v (inl e), omega arith)
blocks-Took (suc f) s xs v e h = elim (Bool-cases (leb 64 (length xs))) [
  | inr short ↦ rw (short, blocks) (Took-none s xs v (inl e), ground arith)
  | inl long ↦
      let many : 64 ≤ length xs = ground arith in
      let (ih, less) =
        blocks-Took f (compressed s xs) (drop 64 xs) (record { sized = v.sized; room = v.room }) e
          (omega (arith, length-drop 64 xs)) in
      rw (long, blocks)
        (
          record {
            used = take 64 xs ++ ih.used;
            splits =
                append_assoc (take 64 xs) ih.used _
                ∙ ap (λ l. take 64 xs ++ l) ih.splits
                ∙ take-append-drop 64 xs;
            reads =
                ih.reads
                ∙ ap (λ t. feed_all t ih.used) (stream-compressed s xs e many)
                ∙ sym (feed_all-append (stream s) (take 64 xs) ih.used);
            valid = ih.valid;
            bits_same = ih.bits_same;
            flag_same = ih.flag_same;
            aligned = ih.aligned;
          },
          less,
        )
]

blocks_all :
    (s : Sha256) (xs : Bytes)
    → IsValid s
    → (s.buffered ≡ 0) ⊎ (xs ≡ [])
    → Took s xs (blocks (length xs) xs s) × (length (blocks (length xs) xs s).1 < 64)
unfolding blocks
blocks_all s xs v (inl e) = blocks-Took (length xs) s xs v e (omega arith)
blocks_all s xs v (inr e) =
    subst (λ l. Took s l (blocks (length l) l s) × (length (blocks (length l) l s).1 < 64)) (sym e)
      (Took-none s [] v (inr refl), omega arith)

-- `Update` keeps the object well formed, counts the bits, and reads exactly its bytes, in order.
pub take_in-feed_all :
    (s : Sha256) (xs : Bytes)
    → IsValid s
    → IsValid (take_in s xs)
      × (stream (take_in s xs) ≡ feed_all (stream s) xs)
      × ((take_in s xs).bitlen ≡ (s.bitlen + length xs * 8 % 2 ^ 64) % 2 ^ 64)
      × ((take_in s xs).finalized ≡ s.finalized)
unfolding take_in
take_in-feed_all s xs v = (
  record { sized = facts.2; room = omega (arith, facts.1, fits) },
  ap₂ (λ w l. record { words = w; pending = l }) facts.3 facts.0
      ∙ sym (feed_all_short (stream s3) rest (omega (arith, held, fits)))
      ∙ ap (λ t. feed_all t rest) (B.0.reads ∙ ap (λ t. feed_all t B.0.used) D.reads)
      ∙ ap (λ t. feed_all t rest) (sym (feed_all-append (stream s) D.used B.0.used))
      ∙ sym (feed_all-append (stream s) (D.used ++ B.0.used) rest)
      ∙ ap (feed_all (stream s))
          (append_assoc D.used B.0.used rest ∙ ap (λ l. D.used ++ l) B.0.splits ∙ D.splits),
  facts.4 ∙ B.0.bits_same ∙ D.bits_same,
  facts.5 ∙ B.0.flag_same ∙ D.flag_same,
)
  where
    s1 : Sha256
    s1 = record s { bitlen = (s.bitlen + length xs * 8 % 2 ^ 64) % 2 ^ 64 }

    D : Took s1 xs (drain xs s1)
    D = drain-Took s1 xs (record { sized = v.sized; room = v.room })

    B :
        Took
          (drain xs s1).0
          (drain xs s1).1
          (blocks (length (drain xs s1).1) (drain xs s1).1 (drain xs s1).0)
        × (length (blocks (length (drain xs s1).1) (drain xs s1).1 (drain xs s1).0).1 < 64)
    B = blocks_all (drain xs s1).0 (drain xs s1).1 D.valid D.aligned

    s3 : Sha256
    s3 = (blocks (length (drain xs s1).1) (drain xs s1).1 (drain xs s1).0).0

    rest : Bytes
    rest = (blocks (length (drain xs s1).1) (drain xs s1).1 (drain xs s1).0).1

    fits : s3.buffered + length rest < 64
    fits = elim B.0.aligned [
      | inl e ↦ omega (arith, B.1)
      | inr e ↦ omega (arith, ap length e, B.0.valid.room)
    ]

    held : length (take s3.buffered s3.buffer) ≡ s3.buffered
    held = length-take s3.buffered s3.buffer ∙ omega (arith, B.0.valid.sized, B.0.valid.room)

    facts :
        (take (store_all rest s3).buffered (store_all rest s3).buffer
          ≡ take s3.buffered s3.buffer ++ rest)
        × ((store_all rest s3).buffered ≡ s3.buffered + length rest)
        × (length (store_all rest s3).buffer ≡ 64)
        × ((store_all rest s3).state ≡ s3.state)
        × ((store_all rest s3).bitlen ≡ s3.bitlen)
        × ((store_all rest s3).finalized ≡ s3.finalized)
    facts = store_all-take rest s3 B.0.valid.sized (omega (arith, fits))
