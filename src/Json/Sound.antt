-- ===== src/Json/Sound.antt =====
-- Every round of the main loop keeps the invariant, moves on, and stays inside the source.
use cpp_template.Base.{
  ℕ, suc, ◌+◌, ◌-◌, ◌^◌, ◌≤◌, ◌<◌, false, some, ◌≡◌, refl, ◌≢◌, inl, inr, arith, Bytes, length,
  get_elem?, length-set, lt-length_of_some,
}
use cpp_template.Json.{
  Kind, string, primitive, Token, to_int32, inc64, dec64, Parser, Run, cont, stop, stuck, then_run,
  count_child, is_terminator, add_leaf, finish_primitive, parse_primitive, parse_string,
}
use cpp_template.Json.Inv.{Good, Spans, Inv}
use cpp_template.Json.Grow.{length-bump_at, grown, grown-Inv}
use cpp_template.Json.Leaf.{
  Stops, Stops-then_run, leaf, add_leaf-count_child, AtTerminator, primitive_loop_cases,
  string_loop_cases,
}

-- What a round that starts at `b` with `n` token slots leaves behind.
abbrev pub Keeps : Bytes → ℕ → ℕ → Run → Type 0
Keeps js n b (cont q) =
    (b ≤ q.pos) × (q.pos < length js) × (length q.tokens ≡ n) × Inv js (suc q.pos) q
Keeps js n b (stop e q) = Unit
Keeps js n b stuck = ⊥

pub Keeps-Stops : (js : Bytes) (n b : ℕ) (r : Run) → Stops r → Keeps js n b r
Keeps-Stops js n b (cont q) s = absurd s
Keeps-Stops js n b (stop e q) s = tt
Keeps-Stops js n b stuck s = s

string-Spans :
    (js : Bytes) (s e : ℕ)
    → length js < 2 ^ 31
    → get_elem? js s ≡ some b'"'
    → s < e
    → get_elem? js e ≡ some b'"'
    → Spans js string (to_int32 (s + 1)) (to_int32 e)
string-Spans js s e short opens lt closes =
    let first : to_int32 (s + 1) ≡ suc s = omega (arith, lt-length_of_some js e closes) in
    let last : to_int32 e ≡ e = omega (arith, lt-length_of_some js e closes) in
    let back : suc s - 1 ≡ s = omega arith in
    rw (first, last) (omega arith, rw back opens, omega arith, closes)

primitive-Spans :
    (js : Bytes) (s e : ℕ)
    → length js < 2 ^ 31
    → AtTerminator js s e
    → s ≢ e
    → Spans js primitive (to_int32 s) (to_int32 e)
primitive-Spans js s e short (le, (c, here, t)) ne =
    let first : to_int32 s ≡ s = omega (arith, lt-length_of_some js e here) in
    let last : to_int32 e ≡ e = omega (arith, lt-length_of_some js e here) in
    rw (first, last) (omega arith, (c, here, t))

then_run-cont : (r : Run) → then_run r (λ q. cont (record q { pos = q.pos })) ≡ r
then_run-cont (cont q) = refl
then_run-cont (stop e q) = refl
then_run-cont stuck = refl

module _ {js : Bytes} {p : Parser} (v : Inv js p.pos p) where
  grown-Keeps :
      (t : Token) (pos : ℕ)
      → p.toknext < length p.tokens
      → t.size ≡ 0
      → t.parent ≡ p.toksuper
      → Good js (suc pos) p.toknext t
      → p.pos ≤ t.start
      → p.pos ≤ pos
      → pos < length js
      → Keeps js (length p.tokens) p.pos (cont (grown p t pos p.toksuper))
  grown-Keeps t pos room fresh joined good begins le lt = (
    le,
    lt,
    rw (length-bump_at, length-set),
    grown-Inv v room (suc pos) (omega arith) t fresh joined good begins pos p.toksuper
        (omega (arith, v.super_in)),
  )

  leaf-Keeps :
      (k : Kind) (mark first e : ℕ) (move : ℕ → ℕ)
      → Spans js k (to_int32 first) (to_int32 e)
      → to_int32 first ≤ move e
      → to_int32 e ≤ suc (move e)
      → p.pos ≤ to_int32 first
      → p.pos ≤ move e
      → move e < length js
      → Keeps js (length p.tokens) p.pos (
          then_run
            (then_run
              (add_leaf k mark first (record p { pos = e }))
              (λ q. cont (record q { pos = move q.pos })))
            count_child)
  leaf-Keeps k mark first e move sp begun ended begins le lt =
      elim (add_leaf-count_child k mark first e move p v.next_in v.few v.super_in) [
        | inl s ↦
            Keeps-Stops js _ _ _ (
              Stops-then_run _ _
                (Stops-then_run (add_leaf k mark first (record p { pos = e })) _ s))
        | inr (room, q) ↦ rw q (
            grown-Keeps (leaf k first (record p { pos = e })) (move e) room refl refl
              (record {
                parent_below = v.super_in;
                spans = sp;
                begun = omega arith;
                ended = inr ended;
              })
              begins le lt)
      ]

  pub string-Keeps :
      get_elem? js p.pos ≡ some b'"'
      → Keeps js (length p.tokens) p.pos (then_run (parse_string js p) count_child)
  unfolding parse_string
  string-Keeps here =
      elim (string_loop_cases js v.short p.pos (suc (length js)) (record p { pos = inc64 p.pos })
        (omega (arith, v.short, lt-length_of_some js p.pos here))
        (omega (arith, v.short, lt-length_of_some js p.pos here))) [
          | inl s ↦ Keeps-Stops js _ _ _ (Stops-then_run _ _ s)
          | inr (e, le, at, q) ↦ rw q (
              rw (← then_run-cont (add_leaf string p.pos (p.pos + 1) (record p { pos = e }))) (
                leaf-Keeps string p.pos (p.pos + 1) e (λ n. n)
                  (string-Spans js p.pos e v.short here
                    (omega (arith, v.short, lt-length_of_some js p.pos here)) at)
                  (omega (arith, v.short, lt-length_of_some js p.pos here))
                  (omega (arith, v.short, lt-length_of_some js e at))
                  (omega (arith, v.short, lt-length_of_some js p.pos here))
                  (omega (arith, v.short, lt-length_of_some js p.pos here))
                  (lt-length_of_some js e at)))
        ]

  pub primitive-Keeps :
      (c : ℕ)
      → get_elem? js p.pos ≡ some c
      → is_terminator c ≡ false
      → Keeps js (length p.tokens) p.pos (then_run (parse_primitive js p) count_child)
  unfolding parse_primitive finish_primitive
  primitive-Keeps c here going =
      elim (primitive_loop_cases js v.short p.pos (suc (length js)) p (omega arith)
        (omega (arith, lt-length_of_some js p.pos here))) [
          | inl s ↦ Keeps-Stops js _ _ _ (Stops-then_run _ _ s)
          | inr (e, t, q) ↦ rw q (
              leaf-Keeps primitive p.pos p.pos e dec64
                (primitive-Spans js p.pos e v.short t (apart e t)) (bounds e t).0 (bounds e t).1
                (bounds e t).2 (bounds e t).3 (bounds e t).4)
        ]
    where
      apart : (e : ℕ) → AtTerminator js p.pos e → p.pos ≢ e
      apart e (le, (d, at, term)) eq = ground arith

      bounds :
          (e : ℕ)
          → AtTerminator js p.pos e
          → (to_int32 p.pos ≤ dec64 e)
            × (to_int32 e ≤ suc (dec64 e))
            × (p.pos ≤ to_int32 p.pos)
            × (p.pos ≤ dec64 e)
            × (dec64 e < length js)
      bounds e (le, (d, at, term)) =
          omega (arith, v.short, lt-length_of_some js e at, apart e (le, (d, at, term)))
