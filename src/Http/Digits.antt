-- ===== src/Http/Digits.antt =====
-- `PutUInt` against decimal numerals.
use cpp_template.Base.{
  ℕ, zero, suc, ◌+◌, ◌*◌, ◌/◌, ◌%◌, ◌^◌, ◌<◌, false, some, [], ◌∷◌, ◌++◌, ◌≡◌, refl, ◌∙◌, ap, ap₂,
  arith, Bytes, ◌==◌,
}
use cpp_template.Base.Decimal.{decimal, decimal_induction}
use cpp_template.Http.{Appender, append_bytes, low_digits, reversed, append_digits, append_uint}

-- The numbers of at most `room` digits lie below this bound.
abbrev power_of_ten : ℕ → ℕ
power_of_ten zero = 1
power_of_ten (suc room) = 10 * power_of_ten room

low_digits_zero : (room : ℕ) → low_digits room 0 ≡ some []
unfolding low_digits
low_digits_zero zero = refl
low_digits_zero (suc room) = refl

low_digits_more :
    (room n : ℕ) {ds : Bytes}
    → 0 < n
    → low_digits room (n / 10) ≡ some ds
    → low_digits (suc room) n ≡ some ((b'0' + n % 10) ∷ ds)
unfolding low_digits
low_digits_more room n h e = let nonzero : (n == 0) ≡ false = ground arith in rw (nonzero, e)

-- A positive number that fits has its decimal numeral, backwards.
abbrev ReadsAs : ℕ → Bytes → Type 0
ReadsAs n text =
    (room : ℕ)
    → 0 < n
    → n < power_of_ten room
    → (ds : Bytes) × (low_digits room n ≡ some ds) × (reversed ds ≡ text)

reads_one : (n : ℕ) → n < 10 → ReadsAs n ((b'0' + n) ∷ [])
unfolding reversed
reads_one n h zero p q = absurd (omega arith)
reads_one n h (suc room) p q = (
  (b'0' + n % 10) ∷ [],
  low_digits_more room n p (ap (low_digits room) (omega arith) ∙ low_digits_zero room),
  ap (λ k. (b'0' + k) ∷ []) (omega arith),
)

reads_more :
    (n d : ℕ) (front : Bytes)
    → 0 < n
    → d < 10
    → ReadsAs n front
    → ReadsAs (n * 10 + d) (front ++ (b'0' + d) ∷ [])
unfolding reversed
reads_more n d front p h ih zero _ q = absurd (omega arith)
reads_more n d front p h ih (suc room) _ q =
    let (ds, e, same) = ih room p (omega arith) in
    (
      (b'0' + (n * 10 + d) % 10) ∷ ds,
      low_digits_more room (n * 10 + d) (omega arith) (ap (low_digits room) (omega arith) ∙ e),
      ap₂ (λ l k. l ++ (b'0' + k) ∷ []) same (omega arith),
    )

-- `PutUInt` of a `size_t` stays within its twenty bytes and appends the decimal numeral.
pub append_uint-decimal :
    (v : ℕ) (a : Appender) → v < 2 ^ 64 → append_uint v a ≡ some (append_bytes (decimal v) a)
unfolding append_uint decimal reversed
append_uint-decimal zero a h = refl
append_uint-decimal (suc v) a h =
    let (ds, e, same) =
      decimal_induction ReadsAs reads_one reads_more (suc (suc v)) (suc v) (omega arith) 20
        (omega arith) (omega arith) in
    let nonzero : (suc v == 0) ≡ false = ground arith in
    rw nonzero (ap (λ o. append_digits o a) e ∙ ap (λ l. some (append_bytes l a)) same)
