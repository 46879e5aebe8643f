-- ===== src/Crypto/Sha256/Stream.antt =====
-- `Update` against a byte-by-byte reading: the object is a hash state and the bytes still pending.
use cpp_template.Base.{
  ℕ, suc, ◌+◌, ◌-◌, ◌≤◌, ◌<◌, true, false, [], ◌∷◌, ◌++◌, ◌≡◌, refl, sym, ◌∙◌, ap, inl, inr, arith,
  ltb, ◌==◌, if◌then◌else◌, Bool-cases, Bytes, length, take, drop, append-nil, append_assoc,
  length-append, length-set, take-set, take_all, drop_all,
}
use cpp_template.Crypto.Sha256.{Words, Sha256, compress, store, fill, store_all}

pub record Stream : Type 0 where
  pub words : Words
  pub pending : Bytes

-- One more byte: a full block is compressed.
unfoldable pub feed : Stream → ℕ → Stream
feed s x =
    if length s.pending == 63
    then record { words = compress s.words (s.pending ++ x ∷ []); pending = [] }
    else record s { pending = s.pending ++ x ∷ [] }

unfoldable pub feed_all : Stream → Bytes → Stream
feed_all s [] = s
feed_all s (x ∷ xs) = feed_all (feed s x) xs

pub feed_all-append :
    (s : Stream) (xs ys : Bytes) → feed_all s (xs ++ ys) ≡ feed_all (feed_all s xs) ys
unfolding feed_all
feed_all-append s [] ys = refl
feed_all-append s (x ∷ xs) ys = feed_all-append (feed s x) xs ys

-- Bytes that do not complete a block are kept.
pub feed_all_short :
    (s : Stream) (xs : Bytes)
    → length s.pending + length xs < 64
    → feed_all s xs ≡ record s { pending = s.pending ++ xs }
unfolding feed_all feed
feed_all_short s [] h = ap (λ l. record s { pending = l }) (sym (append-nil s.pending))
feed_all_short s (x ∷ xs) h =
    let no : (length s.pending == 63) ≡ false = ground arith in
    rw no (
      feed_all_short (record s { pending = s.pending ++ x ∷ [] }) xs
        (omega (arith, length-append s.pending (x ∷ [])))
      ∙ ap (λ l. record s { pending = l }) (append_assoc s.pending (x ∷ []) xs))

-- Bytes that complete a block just so are compressed with it.
pub feed_all_block :
    (s : Stream) (xs : Bytes)
    → length s.pending < 64
    → length s.pending + length xs ≡ 64
    → feed_all s xs ≡ record { words = compress s.words (s.pending ++ xs); pending = [] }
unfolding feed_all feed
feed_all_block s [] p h = absurd (omega arith)
feed_all_block s (x ∷ []) p h = let full : (length s.pending == 63) ≡ true = ground arith in rw full
feed_all_block s (x ∷ y ∷ xs) p h =
    let no : (length s.pending == 63) ≡ false = ground arith in
    rw no (
      feed_all_block (record s { pending = s.pending ++ x ∷ [] }) (y ∷ xs)
        (omega (arith, length-append s.pending (x ∷ [])))
        (omega (arith, length-append s.pending (x ∷ [])))
      ∙ rw (append_assoc s.pending (x ∷ []) (y ∷ xs)))

-- The object between two calls: the buffer has its 64 bytes and is never full.
pub record IsValid (s : Sha256) : Type 0 where
  pub sized : length s.buffer ≡ 64
  pub room : s.buffered < 64

abbrev pub stream : Sha256 → Stream
stream s = record { words = s.state; pending = take s.buffered s.buffer }

-- Stored bytes are pending bytes.
take-store :
    (s : Sha256) (x : ℕ)
    → s.buffered < length s.buffer
    → take (store s x).buffered (store s x).buffer ≡ take s.buffered s.buffer ++ x ∷ []
take-store s x h =
    let e : s.buffered + 1 ≡ suc s.buffered = omega arith in rw e (take-set s.buffer s.buffered x h)

-- `store_all` within the buffer keeps what it is given.
pub store_all-take :
    (xs : Bytes) (s : Sha256)
    → length s.buffer ≡ 64
    → s.buffered + length xs ≤ 64
    → (take (store_all xs s).buffered (store_all xs s).buffer ≡ take s.buffered s.buffer ++ xs)
      × ((store_all xs s).buffered ≡ s.buffered + length xs)
      × (length (store_all xs s).buffer ≡ 64)
      × ((store_all xs s).state ≡ s.state)
      × ((store_all xs s).bitlen ≡ s.bitlen)
      × ((store_all xs s).finalized ≡ s.finalized)
unfolding store_all
store_all-take [] s size h = (sym (append-nil _), omega arith, size, refl, refl, refl)
store_all-take (x ∷ xs) s size h =
    let (bytes, count, size', st, bits, fin) =
      store_all-take xs (store s x) (length-set s.buffer s.buffered x ∙ size) (omega arith) in
    (
      bytes
          ∙ ap (λ l. l ++ xs) (take-store s x (omega arith))
          ∙ append_assoc (take s.buffered s.buffer) (x ∷ []) xs,
      omega arith,
      size',
      st,
      bits,
      fin,
    )

-- `fill` stores what fits: it is `store_all` on a prefix.
pub fill-store_all :
    (xs : Bytes) (s : Sha256)
    → s.buffered ≤ 64
    → fill xs s ≡ (store_all (take (64 - s.buffered) xs) s, drop (64 - s.buffered) xs)
unfolding fill store_all
fill-store_all [] s h = rw (
  take_all {A = ℕ} (64 - s.buffered) [] (omega arith),
  drop_all {A = ℕ} (64 - s.buffered) [] (omega arith),
)
fill-store_all (x ∷ xs) s h = elim (Bool-cases (ltb s.buffered 64)) [
  | inl room ↦
      let e : 64 - s.buffered ≡ suc (64 - (s.buffered + 1)) = ground arith in
      rw (room, e) (fill-store_all xs (store s x) (ground arith))
  | inr full ↦ let e : 64 - s.buffered ≡ 0 = ground arith in rw (full, e)
]
