-- ===== src/Se/Keyfile/Lines.antt =====
-- ports/se05x/scp03_keyfile.cpp: `FindKey` on a line that `write_key` has printed.
use cpp_template.Base.{
  ℕ, suc, ◌+◌, ◌/◌, ◌%◌, ◌<◌, ◌&&◌, ◌||◌, true, false, [], ◌∷◌, ◌++◌, append_assoc, Bytes, All,
  length, drop, same_refl, ◌==◌, if_true, if_false, ◌≡◌, sym, ◌∙◌, ap, arith,
}
use cpp_template.Se.Keyfile.{
  found, parse_hex, in_line, get_line, line_buffer, skip_blanks, has_tag, on_line, find_loop,
  digit_char, hex_bytes, key_line,
}
use cpp_template.Se.Keyfile.Text.{skip_blanks-digit_char, parse_hex-hex_bytes, get_line-hex_bytes}

-- Sixteen bytes.
abbrev pub IsKey : Bytes → Type 0
IsKey k = (length k ≡ 16) × All (λ b. b < 256) k

after_tag : (k s : Bytes) → IsKey k → parse_hex 16 (skip_blanks (hex_bytes k ++ s)) ≡ found k
after_tag [] s (n, h) = absurd (omega (arith, n))
after_tag (b ∷ k) s (n, (hb, hk)) =
    ap (parse_hex 16)
      (skip_blanks-digit_char (b / 16) (digit_char (b % 16) ∷ (hex_bytes k ++ s)) (omega arith))
    ∙ ap (λ m. parse_hex m (hex_bytes (b ∷ k) ++ s)) (sym n)
    ∙ parse_hex-hex_bytes (b ∷ k) s (hb, hk)

module _ (x y z : ℕ) (x_ne : (x == 10) ≡ false) (y_ne : (y == 10) ≡ false)
    (z_ne : (z == 10) ≡ false) (no_blank : (x == 32 || x == 9) ≡ false) where
  abbrev line_tag : Bytes
  line_tag = x ∷ y ∷ z ∷ []

  abbrev line : Bytes → Bytes
  line k = x ∷ y ∷ z ∷ 32 ∷ (hex_bytes k ++ 10 ∷ [])

  get_line-key_line :
      (k rest : Bytes) → IsKey k → get_line 255 (key_line line_tag k rest) ≡ (line k, rest)
  unfolding get_line
  get_line-key_line k rest (n, h) =
      if_false _ _ x_ne
      ∙ ap (in_line x) (
          if_false _ _ y_ne
          ∙ ap (in_line y) (
              if_false _ _ z_ne
              ∙ ap (in_line z)
                  (ap (in_line 32) (get_line-hex_bytes k rest 251 h (omega (arith, n))))))

  skip_blanks-line : (k s : Bytes) → skip_blanks (line k ++ s) ≡ line k ++ s
  unfolding skip_blanks
  skip_blanks-line k s = if_false _ _ no_blank

  -- What `find_loop` comes to on the line, whatever it looks for.
  pub find_loop-key_line :
      (f : ℕ) (wanted old k rest : Bytes)
      → IsKey k
      → find_loop (suc f) wanted old (key_line line_tag k rest)
        ≡ on_line wanted
            (line_buffer (line k) old)
            (find_loop f wanted (line_buffer (line k) old) rest)
  unfolding find_loop
  find_loop-key_line f wanted old k rest h =
      ap
        (λ (l : Bytes × Bytes).
          on_line wanted (skip_blanks (line_buffer l.0 old))
            (find_loop f wanted (line_buffer l.0 old) l.1))
        (get_line-key_line k rest h)
      ∙ ap (λ p. on_line wanted p (find_loop f wanted (line_buffer (line k) old) rest))
          (skip_blanks-line k (0 ∷ drop (length (line k) + 1) old))

  pub find_loop-found :
      (f : ℕ) (old k rest : Bytes)
      → IsKey k
      → find_loop (suc f) line_tag old (key_line line_tag k rest) ≡ found k
  find_loop-found f old k rest h =
      find_loop-key_line f line_tag old k rest h
      ∙ if_true _ _ (ap (λ b. b && true) (same_refl line_tag))
      ∙ ap (λ p. parse_hex 16 (skip_blanks p))
          (append_assoc (hex_bytes k) (10 ∷ []) (0 ∷ drop (length (line k) + 1) old))
      ∙ after_tag k (10 ∷ 0 ∷ drop (length (line k) + 1) old) h

  pub find_loop-other :
      (f : ℕ) (wanted old k rest : Bytes)
      → has_tag wanted (line_buffer (line k) old) ≡ false
      → IsKey k
      → find_loop (suc f) wanted old (key_line line_tag k rest)
        ≡ find_loop f wanted (line_buffer (line k) old) rest
  find_loop-other f wanted old k rest other h =
      find_loop-key_line f wanted old k rest h ∙ if_false _ _ other
