-- ===== src/Se/Keyfile/Text.antt =====
-- ports/se05x/scp03_keyfile.cpp: the text of a key is read back.
use cpp_template.Base.{
  ℕ, zero, suc, ◌+◌, ◌*◌, ◌/◌, ◌%◌, ◌<◌, ◌&&◌, ◌||◌, false, some, [], ◌∷◌, ◌++◌, Bytes, All, length,
  leb, ◌==◌, if_false, ◌≡◌, refl, ◌∙◌, ap, ap₂, arith,
}
use cpp_template.Se.Keyfile.{
  got, digit, second_as, first_as, first_digit, scan_hex, found, with_byte, parse_hex, in_line,
  get_line, skip_blanks, digit_char, hex_bytes,
}

digit-digit_char : (d : ℕ) → d < 16 → digit (digit_char d) ≡ some d
unfolding digit
digit-digit_char d h = grind arith

not_blank : (d : ℕ) → d < 16 → (digit_char d == 32 || digit_char d == 9) ≡ false
not_blank d h = ground arith

not_space :
    (d : ℕ)
    → d < 16
    → (digit_char d == 32 || (leb 9 (digit_char d) && leb (digit_char d) 13)) ≡ false
not_space d h = ground arith

pub skip_blanks-digit_char :
    (d : ℕ) (s : Bytes) → d < 16 → skip_blanks (digit_char d ∷ s) ≡ digit_char d ∷ s
unfolding skip_blanks
skip_blanks-digit_char d s h = if_false _ _ (not_blank d h)

digit_char_ne : (d : ℕ) → d < 16 → (digit_char d == 10) ≡ false
digit_char_ne d h = ground arith

first_digit-digits :
    (u v : ℕ) (s : Bytes)
    → u < 16
    → v < 16
    → first_digit (digit_char u) (digit_char v ∷ s) ≡ got (16 * u + v)
first_digit-digits u v s hu hv =
    ap (first_as (digit_char u) (digit_char v ∷ s)) (digit-digit_char u hu)
    ∙ ap (second_as (digit_char u) u (digit_char v)) (digit-digit_char v hv)

pub scan_hex-digits :
    (b : ℕ) (s : Bytes) → b < 256 → scan_hex (digit_char (b / 16) ∷ digit_char (b % 16) ∷ s) ≡ got b
unfolding scan_hex
scan_hex-digits b s h =
    if_false _ _ (not_space (b / 16) (omega arith))
    ∙ first_digit-digits (b / 16) (b % 16) s (omega arith) (omega arith)
    ∙ ap got (omega arith)

pub parse_hex-hex_bytes :
    (k s : Bytes) → All (λ b. b < 256) k → parse_hex (length k) (hex_bytes k ++ s) ≡ found k
unfolding parse_hex
parse_hex-hex_bytes [] s h = refl
parse_hex-hex_bytes (b ∷ k) s (hb, hk) =
    ap₂ with_byte (scan_hex-digits b (hex_bytes k ++ s) hb) (parse_hex-hex_bytes k s hk)

pub get_line-hex_bytes :
    (k s : Bytes) (n : ℕ)
    → All (λ b. b < 256) k
    → 2 * length k < n
    → get_line n (hex_bytes k ++ 10 ∷ s) ≡ (hex_bytes k ++ 10 ∷ [], s)
unfolding get_line
get_line-hex_bytes [] s zero h e = absurd (omega arith)
get_line-hex_bytes [] s (suc n) h e = refl
get_line-hex_bytes (b ∷ k) s zero h e = absurd (omega arith)
get_line-hex_bytes (b ∷ k) s (suc zero) h e = absurd (omega arith)
get_line-hex_bytes (b ∷ k) s (suc (suc n)) (hb, hk) e =
    if_false _ _ (digit_char_ne (b / 16) (omega arith))
    ∙ ap (in_line (digit_char (b / 16))) (
        if_false _ _ (digit_char_ne (b % 16) (omega arith))
        ∙ ap (in_line (digit_char (b % 16))) (get_line-hex_bytes k s n hk (omega arith)))
