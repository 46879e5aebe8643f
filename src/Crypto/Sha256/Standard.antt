-- ===== src/Crypto/Sha256/Standard.antt =====
-- SHA-256 in the words of FIPS 180-4, for src/crypto/sha256.cpp to be held against: nothing of the
-- code's is used but the record of eight words.
use Prim.Native.Nat.{bit_and, bit_or, bit_xor}
use cpp_template.Base.{
  ℕ, zero, suc, ◌+◌, ◌-◌, ◌*◌, ◌/◌, ◌%◌, ◌^◌, List, [], ◌∷◌, ◌++◌, Bytes, length, get_or, take,
  drop, replicate, ◌≡◌, refl, ◌∙◌, ap, arith,
}
use cpp_template.Crypto.Sha256.{
  Words, round_constants, add32, ror, first_words, next_word, extend_words, round, rounds, compress,
  initial_words, length_bytes, word_bytes, digest_bytes,
}
use cpp_template.Crypto.Sha256.Digest.{padding, pad, compress_blocks, padded_digest}

-- A number in `n` bytes, the highest first.
abbrev big_endian : ℕ → ℕ → Bytes
big_endian zero v = []
big_endian (suc zero) v = v % 256 ∷ []
big_endian (suc (suc n)) v = v / 256 ^ suc n % 256 ∷ big_endian (suc n) v

-- The operations on words of section 4.1.2.
abbrev rotr : ℕ → ℕ → ℕ
rotr n x = bit_or (x / 2 ^ n) (x * 2 ^ (32 - n) % 2 ^ 32)

abbrev shr : ℕ → ℕ → ℕ
shr n x = x / 2 ^ n

abbrev complement : ℕ → ℕ
complement x = 2 ^ 32 - 1 - x

abbrev choose : ℕ → ℕ → ℕ → ℕ
choose x y z = bit_xor (bit_and x y) (bit_and (complement x) z)

abbrev majority : ℕ → ℕ → ℕ → ℕ
majority x y z = bit_xor (bit_xor (bit_and x y) (bit_and x z)) (bit_and y z)

abbrev sum_0 : ℕ → ℕ
sum_0 x = bit_xor (bit_xor (rotr 2 x) (rotr 13 x)) (rotr 22 x)

abbrev sum_1 : ℕ → ℕ
sum_1 x = bit_xor (bit_xor (rotr 6 x) (rotr 11 x)) (rotr 25 x)

abbrev sigma_0 : ℕ → ℕ
sigma_0 x = bit_xor (bit_xor (rotr 7 x) (rotr 18 x)) (shr 3 x)

abbrev sigma_1 : ℕ → ℕ
sigma_1 x = bit_xor (bit_xor (rotr 17 x) (rotr 19 x)) (shr 10 x)

-- The constants of section 4.2.2.
abbrev constants : List ℕ
constants =
    0x428a2f98 ∷ 0x71374491 ∷ 0xb5c0fbcf ∷ 0xe9b5dba5 ∷ 0x3956c25b ∷ 0x59f111f1 ∷ 0x923f82a4
    ∷ 0xab1c5ed5 ∷ 0xd807aa98 ∷ 0x12835b01 ∷ 0x243185be ∷ 0x550c7dc3 ∷ 0x72be5d74 ∷ 0x80deb1fe
    ∷ 0x9bdc06a7 ∷ 0xc19bf174 ∷ 0xe49b69c1 ∷ 0xefbe4786 ∷ 0x0fc19dc6 ∷ 0x240ca1cc ∷ 0x2de92c6f
    ∷ 0x4a7484aa ∷ 0x5cb0a9dc ∷ 0x76f988da ∷ 0x983e5152 ∷ 0xa831c66d ∷ 0xb00327c8 ∷ 0xbf597fc7
    ∷ 0xc6e00bf3 ∷ 0xd5a79147 ∷ 0x06ca6351 ∷ 0x14292967 ∷ 0x27b70a85 ∷ 0x2e1b2138 ∷ 0x4d2c6dfc
    ∷ 0x53380d13 ∷ 0x650a7354 ∷ 0x766a0abb ∷ 0x81c2c92e ∷ 0x92722c85 ∷ 0xa2bfe8a1 ∷ 0xa81a664b
    ∷ 0xc24b8b70 ∷ 0xc76c51a3 ∷ 0xd192e819 ∷ 0xd6990624 ∷ 0xf40e3585 ∷ 0x106aa070 ∷ 0x19a4c116
    ∷ 0x1e376c08 ∷ 0x2748774c ∷ 0x34b0bcb5 ∷ 0x391c0cb3 ∷ 0x4ed8aa4a ∷ 0x5b9cca4f ∷ 0x682e6ff3
    ∷ 0x748f82ee ∷ 0x78a5636f ∷ 0x84c87814 ∷ 0x8cc70208 ∷ 0x90befffa ∷ 0xa4506ceb ∷ 0xbef9a3f7
    ∷ 0xc67178f2 ∷ []

-- The initial hash value of section 5.3.3.
abbrev initial_hash : Words
initial_hash = record {
  a = 0x6a09e667;
  b = 0xbb67ae85;
  c = 0x3c6ef372;
  d = 0xa54ff53a;
  e = 0x510e527f;
  f = 0x9b05688c;
  g = 0x1f83d9ab;
  h = 0x5be0cd19;
}

-- The padding of section 5.1.1: a one bit, zeros, and the length in bits in eight bytes.
abbrev padded_message : Bytes → Bytes
padded_message m =
    m ++ 0x80 ∷ (replicate ((119 - length m % 64) % 64) 0 ++ big_endian 8 (length m * 8 % 2 ^ 64))

-- The words of a block: four bytes beside one another, the first one the highest.
block_words : ℕ → Bytes → List ℕ
block_words zero b = []
block_words (suc n) b =
    bit_or (bit_or (bit_or (get_or b 0 0 * 2 ^ 24) (get_or b 1 0 * 2 ^ 16)) (get_or b 2 0 * 2 ^ 8))
      (get_or b 3 0)
    ∷ block_words n (drop 4 b)

-- The message schedule of section 6.2.2, `n` words on from word `t`.
abbrev scheduled : List ℕ → ℕ → ℕ
scheduled w t =
    (sigma_1 (get_or w (t - 2) 0)
      + get_or w (t - 7) 0
      + sigma_0 (get_or w (t - 15) 0)
      + get_or w (t - 16) 0)
    % 2 ^ 32

schedule : ℕ → ℕ → List ℕ → List ℕ
schedule zero t w = w
schedule (suc n) t w = schedule n (t + 1) (w ++ scheduled w t ∷ [])

-- One step on the working variables, by its two temporary words.
abbrev stepped : Words → ℕ → ℕ → Words
stepped v t1 t2 = record {
  a = (t1 + t2) % 2 ^ 32;
  b = v.a;
  c = v.b;
  d = v.c;
  e = (v.d + t1) % 2 ^ 32;
  f = v.e;
  g = v.f;
  h = v.g;
}

abbrev working_step : Words → ℕ → ℕ → Words
working_step v k w =
    stepped v ((v.h + sum_1 v.e + choose v.e v.f v.g + k + w) % 2 ^ 32)
      ((sum_0 v.a + majority v.a v.b v.c) % 2 ^ 32)

steps : Words → List ℕ → List ℕ → Words
steps v (k ∷ ks) (w ∷ ws) = steps (working_step v k w) ks ws
steps v _ _ = v

abbrev added : Words → Words → Words
added s v = record {
  a = (s.a + v.a) % 2 ^ 32;
  b = (s.b + v.b) % 2 ^ 32;
  c = (s.c + v.c) % 2 ^ 32;
  d = (s.d + v.d) % 2 ^ 32;
  e = (s.e + v.e) % 2 ^ 32;
  f = (s.f + v.f) % 2 ^ 32;
  g = (s.g + v.g) % 2 ^ 32;
  h = (s.h + v.h) % 2 ^ 32;
}

-- The hash of one more block, and of `n` blocks.
abbrev block_hash : Words → Bytes → Words
block_hash s b = added s (steps s constants (schedule 48 16 (block_words 16 b)))

pub hash_blocks : ℕ → Words → Bytes → Words
hash_blocks zero s m = s
hash_blocks (suc n) s m = hash_blocks n (block_hash s (take 64 m)) (drop 64 m)

abbrev hash_bytes : Words → Bytes
hash_bytes s =
    big_endian 4 s.a
    ++ (big_endian 4 s.b
        ++ (big_endian 4 s.c
            ++ (big_endian 4 s.d
                ++ (big_endian 4 s.e
                    ++ (big_endian 4 s.f ++ (big_endian 4 s.g ++ big_endian 4 s.h))))))

-- SHA-256 as the standard has it.
abbrev pub sha256 : Bytes → Bytes
sha256 m = hash_bytes (hash_blocks (length (padded_message m) / 64) initial_hash (padded_message m))

sum_of_four :
    (p q r s : ℕ) → (((p + q) % 2 ^ 32 + r) % 2 ^ 32 + s) % 2 ^ 32 ≡ (s + r + q + p) % 2 ^ 32
sum_of_four p q r s = omega arith

sum_of_five :
    (p q r s t : ℕ)
    → ((((p + q) % 2 ^ 32 + r) % 2 ^ 32 + s) % 2 ^ 32 + t) % 2 ^ 32 ≡ (p + q + r + s + t) % 2 ^ 32
sum_of_five p q r s t = omega arith

first_words-block_words : (n : ℕ) (b : Bytes) → first_words n b ≡ block_words n b
unfolding first_words block_words
first_words-block_words zero b = refl
first_words-block_words (suc n) b =
    ap
      (λ l.
        bit_or
          (bit_or (bit_or (get_or b 0 0 * 2 ^ 24) (get_or b 1 0 * 2 ^ 16)) (get_or b 2 0 * 2 ^ 8))
          (get_or b 3 0)
        ∷ l)
      (first_words-block_words n (drop 4 b))

next_word-scheduled : (w : List ℕ) (t : ℕ) → next_word w t ≡ scheduled w t
unfolding next_word add32 ror
next_word-scheduled w t =
    sum_of_four (get_or w (t - 16) 0) (sigma_0 (get_or w (t - 15) 0)) (get_or w (t - 7) 0)
      (sigma_1 (get_or w (t - 2) 0))

extend_words-schedule : (n t : ℕ) (w : List ℕ) → extend_words n t w ≡ schedule n t w
unfolding extend_words schedule
extend_words-schedule zero t w = refl
extend_words-schedule (suc n) t w =
    extend_words-schedule n (t + 1) (w ++ next_word w t ∷ [])
    ∙ ap (λ x. schedule n (t + 1) (w ++ x ∷ [])) (next_word-scheduled w t)

round-working_step : (v : Words) (k w : ℕ) → round v k w ≡ working_step v k w
unfolding round add32 ror
round-working_step v k w =
    ap (λ t1. stepped v t1 ((sum_0 v.a + majority v.a v.b v.c) % 2 ^ 32))
      (sum_of_five v.h (sum_1 v.e) (choose v.e v.f v.g) k w)

rounds-steps : (v : Words) (ks ws : List ℕ) → rounds v ks ws ≡ steps v ks ws
unfolding rounds steps
rounds-steps v [] ws = refl
rounds-steps v (k ∷ ks) [] = refl
rounds-steps v (k ∷ ks) (w ∷ ws) =
    rounds-steps (round v k w) ks ws ∙ ap (λ u. steps u ks ws) (round-working_step v k w)

compress-block_hash : (s : Words) (b : Bytes) → compress s b ≡ block_hash s b
unfolding compress round_constants add32
compress-block_hash s b = ap (added s) (
    rounds-steps s constants (extend_words 48 16 (first_words 16 b))
    ∙ ap (steps s constants) (
        extend_words-schedule 48 16 (first_words 16 b)
        ∙ ap (schedule 48 16) (first_words-block_words 16 b)))

compress_blocks-hash_blocks :
    (n : ℕ) (s : Words) (m : Bytes) → compress_blocks n s m ≡ hash_blocks n s m
unfolding compress_blocks hash_blocks
compress_blocks-hash_blocks zero s m = refl
compress_blocks-hash_blocks (suc n) s m =
    compress_blocks-hash_blocks n (compress s (take 64 m)) (drop 64 m)
    ∙ ap (λ u. hash_blocks n u (drop 64 m)) (compress-block_hash s (take 64 m))

pad-padded_message : (m : Bytes) → pad m ≡ padded_message m
unfolding pad padding length_bytes
pad-padded_message m = refl

digest_bytes-hash_bytes : (s : Words) → digest_bytes s ≡ hash_bytes s
unfolding digest_bytes word_bytes
digest_bytes-hash_bytes s = refl

pub padded_digest-sha256 : (m : Bytes) → padded_digest m ≡ sha256 m
padded_digest-sha256 m =
    digest_bytes-hash_bytes (compress_blocks (length (pad m) / 64) initial_words (pad m))
    ∙ ap hash_bytes (
        compress_blocks-hash_blocks (length (pad m) / 64) initial_words (pad m)
        ∙ ap (λ p. hash_blocks (length p / 64) initial_hash p) (pad-padded_message m))
