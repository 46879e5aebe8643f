-- ===== src/Json/Numbers.antt =====
-- `AsInt` reads every decimal numeral that an `int64_t` can hold the absolute value of.
use cpp_template.Base.{
  ℕ, suc, ◌+◌, ◌-◌, ◌*◌, ◌^◌, ◌<◌, true, false, Option, none, some, [], ◌∷◌, ◌++◌, ◌≡◌, refl, ◌∙◌,
  ap, inl, inr, arith, ◌==◌, if◌then◌else◌, Bool-cases, ltb, Bytes,
}
use cpp_template.Base.Decimal.{decimal, decimal_induction}
use cpp_template.Core.{Result, ok, err, fail}
use cpp_template.Json.View.{ℤ, pos, negate, is_digit, signed, int_loop, int_digits, int_text}

-- What the loop makes of the digits of `n`: the number, or an overflow.
abbrev read_as : ℕ → Option (Result ℕ)
read_as n = if ltb n (2 ^ 63) then some (ok n) else none

abbrev and_then : Option (Result ℕ) → (ℕ → Option (Result ℕ)) → Option (Result ℕ)
and_then none f = none
and_then (some (ok v)) f = f v
and_then (some (err e)) f = some (err e)

int_loop-append :
    (xs ys : Bytes) (v : ℕ) → int_loop (xs ++ ys) v ≡ and_then (int_loop xs v) (int_loop ys)
unfolding int_loop fail
int_loop-append [] ys v = refl
int_loop-append (c ∷ cs) ys v = elim (Bool-cases (is_digit c)) [
  | inr bad ↦ rw (bad, int_loop)
  | inl digit ↦
      rw (digit, int_loop)
        (elim (Bool-cases (ltb (v * 10 + (c - b'0')) (2 ^ 63))) [
          | inl fits ↦ rw (fits, int_loop) (int_loop-append cs ys (v * 10 + (c - b'0')))
          | inr over ↦ rw (over, int_loop)
        ])
]

int_loop_digit : (d v : ℕ) → d < 10 → int_loop ((b'0' + d) ∷ []) v ≡ read_as (v * 10 + d)
unfolding int_loop
int_loop_digit d v h =
    let value : b'0' + d - b'0' ≡ d = omega arith in
    let digit : is_digit (b'0' + d) ≡ true = unfold is_digit in ground arith in
    rw (digit, int_loop)
      (rw value (elim (Bool-cases (ltb (v * 10 + d) (2 ^ 63))) [
        | inl fits ↦ rw fits (ap (λ k. some (ok (v * 10 + k))) value)
        | inr over ↦ rw over
      ]))

more : (m d : ℕ) → d < 10 → and_then (read_as m) (int_loop ((b'0' + d) ∷ [])) ≡ read_as (m * 10 + d)
more m d h = elim (Bool-cases (ltb m (2 ^ 63))) [
  | inl fits ↦ rw fits (int_loop_digit d m h)
  | inr over ↦ rw over (ground arith)
]

int_loop-decimal : (n : ℕ) → int_loop (decimal n) 0 ≡ read_as n
unfolding decimal
int_loop-decimal n =
    decimal_induction (λ m s. int_loop s 0 ≡ read_as m) (λ m h. int_loop_digit m 0 h ∙ ground arith)
      (λ m d front pos h ih. int_loop-append front ((b'0' + d) ∷ []) 0 ∙ rw ih (more m d h)) (suc n)
      n (omega arith)

signed-read_as :
    (f : ℕ → ℤ) (n : ℕ) → signed f (read_as n) ≡ (if ltb n (2 ^ 63) then some (ok (f n)) else none)
signed-read_as f n = elim (Bool-cases (ltb n (2 ^ 63))) [ inl e ↦ rw e | inr e ↦ rw e ]

-- A numeral starts with a digit, never with a sign.
decimal_head : (n : ℕ) → (c : ℕ) × (cs : Bytes) × (decimal n ≡ c ∷ cs) × ((c == b'-') ≡ false)
unfolding decimal
decimal_head n =
    decimal_induction (λ m s. (c : ℕ) × (cs : Bytes) × (s ≡ c ∷ cs) × ((c == b'-') ≡ false))
      (λ m h. (b'0' + m, [], refl, ground arith))
      (λ m d front pos h (c, cs, e, ne).
        (c, cs ++ (b'0' + d) ∷ [], ap (λ l. l ++ (b'0' + d) ∷ []) e, ne))
      (suc n) n (omega arith)

-- The numeral of `n`, with or without a sign, is read as `n` or as `-n` when `n` is below 2 ^ 63,
-- and otherwise the addition in the loop overflows `int64_t`, also at the least `int64_t`.
pub int_text-decimal :
    (n : ℕ)
    → (int_text (decimal n) ≡ (if ltb n (2 ^ 63) then some (ok (pos n)) else none))
      × (int_text (b'-' ∷ decimal n) ≡ (if ltb n (2 ^ 63) then some (ok (negate n)) else none))
unfolding int_text int_digits
int_text-decimal n =
    let (c, cs, e, ne) = decimal_head n in
    let reads : int_loop (c ∷ cs) 0 ≡ read_as n = rw (← e) (int_loop-decimal n) in
    (rw e (rw ne (rw reads (signed-read_as pos n))), rw e (rw reads (signed-read_as negate n)))
