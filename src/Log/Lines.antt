-- ===== src/Log/Lines.antt =====
-- Which messages reach the sink, and as what line.
use cpp_template.Base.{
  ℕ, ◌≤◌, ◌<◌, true, Option, none, some, Bytes, ◌≡◌, refl, ◌∙◌, ap, arith, length, take, take_all,
  inl, inr, ◌⊎◌, Bool-cases, Option-cases, sym, suc, zero, if_true, if_false, ltb, leb, ltb→lt,
  List, [], ◌∷◌,
}
use cpp_template.Log.{
  Level, off, level_number, line_capacity, compiled_level, LogSink, Logger, in_buffer, line_length,
  write_text, with_sink, logf, log_at,
}

compiled_in : (level : Level) → leb (level_number level) compiled_level ≡ true
unfolding level_number
compiled_in off = refl
compiled_in _ = refl

take-take {ℓ} : {A : Type ℓ} (m n : ℕ) (xs : List A) → n ≤ m → take n (take m xs) ≡ take n xs
take-take m zero xs h = refl
take-take zero (suc n) xs h = absurd (omega arith)
take-take (suc m) (suc n) [] h = refl
take-take (suc m) (suc n) (x ∷ xs) h = ap (λ l. x ∷ l) (take-take m n xs (omega arith))

at_most : (text : Bytes) → ltb (length text) line_capacity ≡ true → length text ≤ 127
at_most text h = omega (arith, ltb→lt (length text) line_capacity h)

cut_line :
    (text : Bytes) → take (line_length (length text)) (in_buffer line_capacity text) ≡ take 127 text
unfolding line_length
cut_line text = elim (Bool-cases (ltb (length text) line_capacity)) [
  | inl short ↦
      ap (λ n. take n (take 127 text)) (if_true (length text) 127 short)
      ∙ (take-take 127 (length text) text (at_most text short)
          ∙ (take_all (length text) text (omega arith)
              ∙ sym (take_all 127 text (at_most text short))))
  | inr long ↦
      ap (λ n. take n (take 127 text)) (if_false (length text) 127 long)
      ∙ take-take 127 127 text (omega arith)
]

module _ (log_sink : LogSink) where
  open log_sink use {Out, write_line}

  through :
      (g : Logger Out) (level : Level) (text : Option Bytes)
      → log_at log_sink g level text ≡ with_sink log_sink g g.sink level text
  unfolding log_at logf
  through g level text = if_true (logf log_sink g level text) g (compiled_in level)

  -- A message reaches the sink exactly if there is one, its level is at most the threshold, and it
  -- could be formatted; the line that the sink is given is the text, cut to 127 bytes. Otherwise
  -- nothing changes, and the threshold never does.
  pub log_at_lem :
      (g : Logger Out) (level : Level) (text : Option Bytes)
      → ((out : Out) × (whole : Bytes) × (g.sink ≡ some out)
          × (text ≡ some whole)
          × (level_number level ≤ level_number g.level)
          × (log_at log_sink g level text
              ≡ record { sink = some (write_line out level (take 127 whole)); level = g.level }))
        ⊎ (((g.sink ≡ none) ⊎ ((text ≡ none) ⊎ (level_number g.level < level_number level)))
            × (log_at log_sink g level text ≡ g))
  log_at_lem g level text = elim (Option-cases g.sink) [
    | inl no_sink ↦
        inr
          (inl no_sink, through g level text ∙ ap (λ o. with_sink log_sink g o level text) no_sink)
    | inr (out, has_sink) ↦
        let to_sink : log_at log_sink g level text ≡ with_sink log_sink g (some out) level text =
          through g level text ∙ ap (λ o. with_sink log_sink g o level text) has_sink in
        elim (Bool-cases (ltb (level_number g.level) (level_number level))) [
          | inl above ↦ inr (
            inr (inr (ltb→lt (level_number g.level) (level_number level) above)),
            to_sink ∙ if_true g (write_text log_sink g out level text) above,
          )
          | inr below ↦
              let written : log_at log_sink g level text ≡ write_text log_sink g out level text =
                to_sink ∙ if_false g (write_text log_sink g out level text) below in
              elim (Option-cases text) [
                | inl refused ↦
                    inr (inr (inl refused), written ∙ ap (write_text log_sink g out level) refused)
                | inr (whole, formatted) ↦ inl (
                  out,
                  whole,
                  has_sink,
                  formatted,
                  ground arith,
                  written
                      ∙ (ap (write_text log_sink g out level) formatted
                          ∙ ap
                              (λ line. record {
                                sink = some (write_line out level line);
                                level = g.level;
                              })
                              (cut_line whole)),
                )
              ]
        ]
  ]
