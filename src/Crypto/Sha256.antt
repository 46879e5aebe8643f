-- ===== src/Crypto/Sha256.antt =====
-- include/etlx/crypto/sha256.hpp and src/crypto/sha256.cpp. A `uint32_t` is a number below 2 ^ 32.
pub mod Stream
pub mod Digest
pub mod Standard
pub mod Whole
pub mod Update
mod Tests
use Prim.Native.Nat.{bit_and, bit_or, bit_xor}
use cpp_template.Base.{
  ℕ, zero, suc, ◌+◌, ◌-◌, ◌*◌, ◌/◌, ◌%◌, ◌^◌, Bool, true, false, Option, none, some, List, [], ◌∷◌,
  ◌++◌, ltb, leb, ◌==◌, if◌then◌else◌, Bytes, codes, length, get_or, set, take, drop, replicate,
}
use cpp_template.Core.{Category, Result, ok, err, fail, Status}

-- The eight words of `state_`, and the working variables of `Compress`.
pub record Words : Type 0 where
  pub a : ℕ
  pub b : ℕ
  pub c : ℕ
  pub d : ℕ
  pub e : ℕ
  pub f : ℕ
  pub g : ℕ
  pub h : ℕ

pub record Sha256 : Type 0 where
  pub state : Words
  pub bitlen : ℕ
  pub buffer : Bytes
  pub buffered : ℕ
  pub finalized : Bool

-- The table `K`.
round_constants : List ℕ
round_constants =
    0x428a2f98 ∷ 0x71374491 ∷ 0xb5c0fbcf ∷ 0xe9b5dba5 ∷ 0x3956c25b ∷ 0x59f111f1 ∷ 0x923f82a4
    ∷ 0xab1c5ed5 ∷ 0xd807aa98 ∷ 0x12835b01 ∷ 0x243185be ∷ 0x550c7dc3 ∷ 0x72be5d74 ∷ 0x80deb1fe
    ∷ 0x9bdc06a7 ∷ 0xc19bf174 ∷ 0xe49b69c1 ∷ 0xefbe4786 ∷ 0x0fc19dc6 ∷ 0x240ca1cc ∷ 0x2de92c6f
    ∷ 0x4a7484aa ∷ 0x5cb0a9dc ∷ 0x76f988da ∷ 0x983e5152 ∷ 0xa831c66d ∷ 0xb00327c8 ∷ 0xbf597fc7
    ∷ 0xc6e00bf3 ∷ 0xd5a79147 ∷ 0x06ca6351 ∷ 0x14292967 ∷ 0x27b70a85 ∷ 0x2e1b2138 ∷ 0x4d2c6dfc
    ∷ 0x53380d13 ∷ 0x650a7354 ∷ 0x766a0abb ∷ 0x81c2c92e ∷ 0x92722c85 ∷ 0xa2bfe8a1 ∷ 0xa81a664b
    ∷ 0xc24b8b70 ∷ 0xc76c51a3 ∷ 0xd192e819 ∷ 0xd6990624 ∷ 0xf40e3585 ∷ 0x106aa070 ∷ 0x19a4c116
    ∷ 0x1e376c08 ∷ 0x2748774c ∷ 0x34b0bcb5 ∷ 0x391c0cb3 ∷ 0x4ed8aa4a ∷ 0x5b9cca4f ∷ 0x682e6ff3
    ∷ 0x748f82ee ∷ 0x78a5636f ∷ 0x84c87814 ∷ 0x8cc70208 ∷ 0x90befffa ∷ 0xa4506ceb ∷ 0xbef9a3f7
    ∷ 0xc67178f2 ∷ []

-- `uint32_t` addition
add32 : ℕ → ℕ → ℕ
add32 x y = (x + y) % 2 ^ 32

-- `Ror`
ror : ℕ → ℕ → ℕ
ror x n = bit_or (x / 2 ^ n) (x * 2 ^ (32 - n) % 2 ^ 32)

-- `w[i]` for `i < 16`: four bytes of the block, the first one the highest.
first_words : ℕ → Bytes → List ℕ
first_words zero block = []
first_words (suc n) block =
    bit_or
      (bit_or (bit_or (get_or block 0 0 * 2 ^ 24) (get_or block 1 0 * 2 ^ 16))
        (get_or block 2 0 * 2 ^ 8))
      (get_or block 3 0)
    ∷ first_words n (drop 4 block)

-- `w[i]` for `16 <= i`, from the words before it.
next_word : List ℕ → ℕ → ℕ
unfolding add32 ror
next_word w i =
    let x = get_or w (i - 15) 0 in
    let y = get_or w (i - 2) 0 in
    let s0 = bit_xor (bit_xor (ror x 7) (ror x 18)) (x / 2 ^ 3) in
    let s1 = bit_xor (bit_xor (ror y 17) (ror y 19)) (y / 2 ^ 10) in
    add32 (add32 (add32 (get_or w (i - 16) 0) s0) (get_or w (i - 7) 0)) s1

extend_words : ℕ → ℕ → List ℕ → List ℕ
unfolding next_word
extend_words zero i w = w
extend_words (suc n) i w = extend_words n (i + 1) (w ++ next_word w i ∷ [])

-- One round of `Compress`, with its constant and its word.
round : Words → ℕ → ℕ → Words
unfolding add32 ror
round v k w =
    let big1 = bit_xor (bit_xor (ror v.e 6) (ror v.e 11)) (ror v.e 25) in
    let ch = bit_xor (bit_and v.e v.f) (bit_and (2 ^ 32 - 1 - v.e) v.g) in
    let temp1 = add32 (add32 (add32 (add32 v.h big1) ch) k) w in
    let big0 = bit_xor (bit_xor (ror v.a 2) (ror v.a 13)) (ror v.a 22) in
    let maj = bit_xor (bit_xor (bit_and v.a v.b) (bit_and v.a v.c)) (bit_and v.b v.c) in
    let temp2 = add32 big0 maj in
    record {
      a = add32 temp1 temp2;
      b = v.a;
      c = v.b;
      d = v.c;
      e = add32 v.d temp1;
      f = v.e;
      g = v.f;
      h = v.g;
    }

rounds : Words → List ℕ → List ℕ → Words
unfolding round
rounds v (k ∷ ks) (w ∷ ws) = rounds (round v k w) ks ws
rounds v _ _ = v

-- `Compress`, on the state and the block.
unfoldable pub compress : Words → Bytes → Words
unfolding rounds first_words extend_words round_constants
compress s block =
    let v = rounds s round_constants (extend_words 48 16 (first_words 16 block)) in
    record {
      a = add32 s.a v.a;
      b = add32 s.b v.b;
      c = add32 s.c v.c;
      d = add32 s.d v.d;
      e = add32 s.e v.e;
      f = add32 s.f v.f;
      g = add32 s.g v.g;
      h = add32 s.h v.h;
    }

abbrev pub initial_words : Words
initial_words = record {
  a = 0x6a09e667;
  b = 0xbb67ae85;
  c = 0x3c6ef372;
  d = 0xa54ff53a;
  e = 0x510e527f;
  f = 0x9b05688c;
  g = 0x1f83d9ab;
  h = 0x5be0cd19;
}

-- `Reset`; the bytes of the buffer stay.
unfoldable pub reset : Sha256 → Sha256
reset s = record s { state = initial_words; bitlen = 0; buffered = 0; finalized = false }

-- `buffer_[buffered_++] = b;`
abbrev pub store : Sha256 → ℕ → Sha256
store s b = record s { buffer = set s.buffer s.buffered b; buffered = s.buffered + 1 }

-- `while (n > 0 && buffered_ < 64) { ... }`, with the bytes that are left.
unfoldable pub fill : Bytes → Sha256 → Sha256 × Bytes
fill [] s = (s, [])
fill (x ∷ xs) s = if ltb s.buffered 64 then fill xs (store s x) else (s, x ∷ xs)

-- `if (buffered_ == 64) { Compress(buffer_); buffered_ = 0; }`
unfoldable pub flush : Sha256 → Sha256
flush s =
    if s.buffered == 64 then record s { state = compress s.state s.buffer; buffered = 0 } else s

-- `if (buffered_ > 0) { ... }`
unfoldable pub drain : Bytes → Sha256 → Sha256 × Bytes
drain xs s = if ltb 0 s.buffered then (flush (fill xs s).0, (fill xs s).1) else (s, xs)

-- `while (n >= 64) { Compress(p); p += 64; n -= 64; }`, on fuel.
unfoldable pub blocks : ℕ → Bytes → Sha256 → Sha256 × Bytes
blocks zero xs s = (s, xs)
blocks (suc f) xs s = elim (leb 64 (length xs)) [
  | true ↦ blocks f (drop 64 xs) (record s { state = compress s.state (take 64 xs) })
  | false ↦ (s, xs)
]

-- `while (n > 0) { buffer_[buffered_++] = *p++; --n; }`
unfoldable pub store_all : Bytes → Sha256 → Sha256
store_all [] s = s
store_all (x ∷ xs) s = store_all xs (store s x)

-- The body of `Update` behind its guard.
unfoldable pub take_in : Sha256 → Bytes → Sha256
take_in s xs =
    let s1 = record s { bitlen = (s.bitlen + length xs * 8 % 2 ^ 64) % 2 ^ 64 } in
    let (s2, rest) = drain xs s1 in
    let (s3, rest') = blocks (length rest) rest s2 in store_all rest' s3

unfoldable pub update : Sha256 → Bytes → Status × Sha256
update s xs =
    if s.finalized
    then (fail Category.crypto 1 (codes "Update after Final"), s)
    else (ok tt, take_in s xs)

-- `while (buffered_ != 56) Update({&zero, 1});`, on fuel.
unfoldable pub pad_loop : ℕ → Sha256 → Option Sha256
pad_loop zero s = none
pad_loop (suc f) s = elim (s.buffered == 56) [
  | true ↦ some s
  | false ↦ pad_loop f (update s (0 ∷ [])).1
]

-- `lenbuf`: the eight bytes of the length, the highest first.
unfoldable pub length_bytes : ℕ → Bytes
length_bytes bits =
    bits / 2 ^ 56 % 256
    ∷ bits / 2 ^ 48 % 256
    ∷ bits / 2 ^ 40 % 256
    ∷ bits / 2 ^ 32 % 256
    ∷ bits / 2 ^ 24 % 256
    ∷ bits / 2 ^ 16 % 256
    ∷ bits / 2 ^ 8 % 256
    ∷ bits % 256
    ∷ []

word_bytes : ℕ → Bytes
word_bytes w = w / 2 ^ 24 % 256 ∷ w / 2 ^ 16 % 256 ∷ w / 2 ^ 8 % 256 ∷ w % 256 ∷ []

-- `out`
unfoldable pub digest_bytes : Words → Bytes
unfolding word_bytes
digest_bytes s =
    word_bytes s.a
    ++ (word_bytes s.b
        ++ (word_bytes s.c
            ++ (word_bytes s.d
                ++ (word_bytes s.e ++ (word_bytes s.f ++ (word_bytes s.g ++ word_bytes s.h))))))

-- The length goes into the buffer directly, and the buffer is compressed.
unfoldable pub close : ℕ → Sha256 → Bytes × Sha256
close bits s =
    let s1 = store_all (length_bytes bits) s in
    let s2 = record s1 { state = compress s1.state s1.buffer; buffered = 0; finalized = true } in
    (digest_bytes s2.state, s2)

abbrev pub close_padded : ℕ → Option Sha256 → Option (Result Bytes × Sha256)
close_padded bits none = none
close_padded bits (some p) = some (ok (close bits p).0, (close bits p).1)

-- `Final`; `none` where the padding loop does not end.
unfoldable pub final : Sha256 → Option (Result Bytes × Sha256)
final s =
    if s.finalized
    then some (fail Category.crypto 1 (codes "already finalized"), s)
    else close_padded s.bitlen (pad_loop 64 (update s (0x80 ∷ [])).1)

-- A fresh object, whatever its buffer holds.
unfoldable pub fresh : Bytes → Sha256
unfolding reset
fresh garbage = reset (record {
  state = initial_words;
  bitlen = 0;
  buffer = garbage;
  buffered = 0;
  finalized = false;
})

-- What a call returns, without the object.
abbrev pub result_of : Option (Result Bytes × Sha256) → Option (Result Bytes)
result_of none = none
result_of (some (r, s)) = some r

-- `Hash`; `none` or an error where the value of `Final` is missing.
unfoldable pub hash : Bytes → Bytes → Option (Result Bytes)
hash garbage xs = result_of (final (update (fresh garbage) xs).1)
