-- ===== src/Crypto/Equal.antt =====
-- `ConstTimeEqual` against equality.
use Prim.Native.Nat.{bit_or, bit_xor}
use cpp_template.Base.{
  ℕ, ◌≡◌, refl, subst, ◌∙◌, ap, ap₂, true, [], ◌∷◌, ◌==◌, ==_iff, ◌↔◌, Bool-cases, inl, inr, Bytes,
  length, arith,
}
use cpp_template.Crypto.{diff_loop, const_time_equal}
use cpp_template.Crypto.Bits.{bit_xor-zero, bit_xor_self, bit_or-zero, zero-bit_or}

diff_loop-zero :
    (a b : Bytes) (d : ℕ) → length a ≡ length b → diff_loop a b d ≡ 0 → (d ≡ 0) × (a ≡ b)
unfolding diff_loop
diff_loop-zero [] [] d size h = (h, refl)
diff_loop-zero [] (y ∷ b) d size h = absurd (omega arith)
diff_loop-zero (x ∷ a) [] d size h = absurd (omega arith)
diff_loop-zero (x ∷ a) (y ∷ b) d size h =
    let (seen, rest) = diff_loop-zero a b (bit_or d (bit_xor x y)) (omega arith) h in
    let (before, same) = bit_or-zero d (bit_xor x y) seen in
    (before, ap₂ (λ u l. u ∷ l) (bit_xor-zero x y same) rest)

diff_loop_self : (a : Bytes) → diff_loop a a 0 ≡ 0
unfolding diff_loop
diff_loop_self [] = refl
diff_loop_self (x ∷ a) =
    ap (diff_loop a a) (zero-bit_or (bit_xor x x) ∙ bit_xor_self x) ∙ diff_loop_self a

const_time_equal_sound : (a b : Bytes) → const_time_equal a b ≡ true → a ≡ b
unfolding const_time_equal
const_time_equal_sound a b h = elim (Bool-cases (length a == length b)) [
  | inl one_size ↦
      let looped : (diff_loop a b 0 == 0) ≡ true = ground (arith, one_size, h) in
      (diff_loop-zero a b 0 ((==_iff _ _).0 one_size) ((==_iff _ _).0 looped)).1
  | inr other ↦ absurd (ground (arith, other, h))
]

const_time_equal_self : (a : Bytes) → const_time_equal a a ≡ true
unfolding const_time_equal
const_time_equal_self a =
    let one_size : (length a == length a) ≡ true = (==_iff _ _).1 refl in
    rw (one_size, diff_loop_self a)

-- `ConstTimeEqual` is true of two views exactly when they have the same bytes.
pub const_time_equal_iff : (a b : Bytes) → (const_time_equal a b ≡ true) ↔ (a ≡ b)
const_time_equal_iff a b = (
  const_time_equal_sound a b,
  λ e. subst (λ l. const_time_equal a l ≡ true) e (const_time_equal_self a),
)
