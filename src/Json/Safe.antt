-- ===== src/Json/Safe.antt =====
-- The tokeniser as a whole: it always returns, and what it returns is sound.
use cpp_template.Base.{
  ℕ, zero, suc, ◌+◌, ◌-◌, ◌^◌, ◌≤◌, ◌<◌, true, false, some, List, ◌≡◌, ◌≢◌, refl, ◌∙◌, ap, subst,
  ◌⊎◌, inl, inr, arith, ◌==◌, ==_iff, if_intro, Bool-cases, Option-cases, Bytes, length, get_elem?,
  lt-length_of_some,
}
use cpp_template.Core.{Result, ok, err}
use cpp_template.Json.{
  Kind, undefined, object, array, string, primitive, Token, minus_one, inc64, dec32, to_size,
  Parser, Run, cont, stop, stuck, then_run, is_terminator,
}
use cpp_template.Json.Inv.{Spans, Inv, children}
use cpp_template.Json.Sound.{Keeps, string-Keeps, primitive-Keeps}
use cpp_template.Json.Brackets.{
  scan_open_cases, open_container-Keeps, close_container-Keeps, moved-Keeps, comma-Keeps,
}
use cpp_template.Json.Parse.{
  is_open, is_space, nowhere, scan_open, step, main_loop, Parsed, returned, crashed, finish,
  initial, parse,
}

-- What `parse` leaves of each token, when it succeeds: every container is closed.
abbrev pub Covers : Bytes → Kind → ℕ → ℕ → Type 0
Covers js undefined s e = ⊥
Covers js object s e =
    (s + 1 < e) × (get_elem? js s ≡ some b'{') × (get_elem? js (e - 1) ≡ some b'}')
Covers js array s e =
    (s + 1 < e) × (get_elem? js s ≡ some b'[') × (get_elem? js (e - 1) ≡ some b']')
Covers js string s e =
    (0 < s) × (s ≤ e) × (get_elem? js (s - 1) ≡ some b'"') × (get_elem? js e ≡ some b'"')
Covers js primitive s e = (s < e) × ((c : ℕ) × (get_elem? js e ≡ some c) × (is_terminator c ≡ true))

pub record Sound (js : Bytes) (ts : List Token) (n i : ℕ) (t : Token) : Type 0 where
  pub parent_below : (t.parent ≡ minus_one) ⊎ (t.parent < i)
  pub covers : Covers js t.kind t.start t.end
  pub size_is : t.size ≡ children ts n i
  pub uncrossed :
      (j : ℕ) (u : Token)
      → i < j
      → j < n
      → get_elem? ts j ≡ some u
      → (t.start < u.start) × ((t.end ≤ u.start) ⊎ (u.end ≤ t.end))

abbrev pub ResultSound : Bytes → ℕ → Result ℕ → List Token → Type 0
ResultSound js m (err e) ts = Unit
ResultSound js m (ok n) ts =
    (n ≤ m)
    × (length ts ≡ m)
    × ((i : ℕ) (t : Token) → i < n → get_elem? ts i ≡ some t → Sound js ts n i t)

abbrev pub ParsedSound : Bytes → ℕ → Parsed → Type 0
ParsedSound js m crashed = ⊥
ParsedSound js m (returned r ts) = ResultSound js m r ts

step-Keeps :
    {js : Bytes} {p : Parser} (c : ℕ)
    → Inv js p.pos p
    → get_elem? js p.pos ≡ some c
    → Keeps js (length p.tokens) p.pos (step js c p)
unfolding step is_terminator
step-Keeps {js} {p} c v here =
    if_intro K (c == b'{') (λ e. open_container-Keeps v inside object (at e, inl refl))
      λ n1.
        if_intro K (c == b'[') (λ e. open_container-Keeps v inside array (at e, inl refl))
          λ n2.
            if_intro K (c == b'}') (λ e. close_container-Keeps v inside object (inl (refl, at e)))
              λ n3.
                if_intro K (c == b']')
                  (λ e. close_container-Keeps v inside array (inr (refl, at e)))
                  λ n4.
                    if_intro K (c == b'"') (λ e. string-Keeps v (at e))
                      λ n5.
                        if_intro K (is_space c) (λ e. moved-Keeps v inside p.toksuper v.super_in)
                          λ n6.
                            if_intro K (c == b':')
                              (λ e. moved-Keeps v inside (dec32 p.toknext) last)
                              λ n7.
                                if_intro K (c == b',') (λ e. comma-Keeps v inside)
                                  λ n8. primitive-Keeps v c here (ground arith)
  where
    K : Run → Type 0
    K = Keeps js (length p.tokens) p.pos

    inside : p.pos < length js
    inside = lt-length_of_some js p.pos here

    at : {d : ℕ} → (c == d) ≡ true → get_elem? js p.pos ≡ some d
    at {d} e = here ∙ ap some ((==_iff c d).0 e)

    last : (dec32 p.toknext ≡ minus_one) ⊎ (dec32 p.toknext < p.toknext)
    last = omega (arith, v.next_in, v.few)

-- The parser when the main loop ends by its test.
abbrev Ends : Bytes → ℕ → Run → Type 0
Ends js n (cont q) = (length q.tokens ≡ n) × Inv js q.pos q
Ends js n (stop e q) = Unit
Ends js n stuck = ⊥

Ends-then_run :
    {js : Bytes} {n b : ℕ} (r : Run) (k : Parser → Run)
    → Keeps js n b r
    → ((q : Parser) → Keeps js n b (cont q) → Ends js n (k q))
    → Ends js n (then_run r k)
Ends-then_run (cont q) k h rest = rest q h
Ends-then_run (stop e q) k h rest = tt
Ends-then_run stuck k h rest = absurd h

-- The invariant does not look at `pos`.
Inv-pos :
    {js : Bytes} {b : ℕ} {q : Parser} (c pos : ℕ)
    → b ≡ c
    → Inv js b q
    → Inv js c (record q { pos = pos })
Inv-pos {js} {q = q} c pos e v =
    subst (λ b. Inv js b (record q { pos = pos })) e
      (record {
        short = v.short;
        few = v.few;
        next_in = v.next_in;
        super_in = v.super_in;
        each = v.each;
        counts = v.counts;
        apart = v.apart;
      })

main_loop-Ends :
    (f : ℕ) (js : Bytes) (p : Parser)
    → Inv js p.pos p
    → length js < p.pos + f
    → p.pos ≤ length js
    → Ends js (length p.tokens) (main_loop f js p)
unfolding main_loop
main_loop-Ends zero js p v fuel le = absurd (omega arith)
main_loop-Ends (suc f) js p v fuel le = elim (Option-cases (get_elem? js p.pos)) [
  | inl over ↦ rw (over, main_loop) (refl, v)
  | inr (c, here) ↦
      rw (here, main_loop)
        (Ends-then_run (step js c p) _ (step-Keeps c v here) λ q (on, lt, same, w).
          subst (λ n. Ends js n (main_loop f js (record q { pos = inc64 q.pos }))) same
            (main_loop-Ends f js (record q { pos = inc64 q.pos })
              (Inv-pos (inc64 q.pos) (inc64 q.pos) (omega (arith, v.short)) w)
              (omega (arith, v.short)) (omega (arith, v.short))))
]

initial-Inv :
    (js : Bytes) (ts : List Token) → length js < 2 ^ 31 → length ts < 2 ^ 31 → Inv js 0 (initial ts)
initial-Inv js ts short few = record {
  short = short;
  few = few;
  next_in = omega arith;
  super_in = inl refl;
  each = λ i t lt at. absurd (omega arith);
  counts = λ i t lt at. absurd (omega arith);
  apart = λ i j t u lt lt' at at'. absurd (omega arith);
}

-- Nothing is open below `n` if the scan finds nothing.
scan_nowhere :
    (ts : List Token) (n i : ℕ) (t : Token)
    → scan_open ts n ≡ nowhere
    → i < n
    → get_elem? ts i ≡ some t
    → is_open t ≡ false
unfolding scan_open
scan_nowhere ts zero i t h lt at = absurd (omega arith)
scan_nowhere ts (suc n) i t h lt at = elim (Bool-cases (n == i)) [
  | inl e ↦ ground arith
  | inr e ↦ ground (arith, scan_nowhere ts n i t)
]

closed-Covers :
    (js : Bytes) (t : Token) (k : Kind)
    → length js < 2 ^ 31
    → Spans js k t.start t.end
    → is_open t ≡ false
    → Covers js k t.start t.end
closed-Covers js t undefined short sp shut = absurd sp
closed-Covers js t object short (opens, closes) shut =
    ground (arith, lt-length_of_some js t.start opens)
closed-Covers js t array short (opens, closes) shut =
    ground (arith, lt-length_of_some js t.start opens)
closed-Covers js t string short sp shut = (sp.0, sp.2, sp.1, sp.3)
closed-Covers js t primitive short sp shut = sp

Covers-end :
    (js : Bytes) (k : Kind) (s e : ℕ) → length js < 2 ^ 31 → Covers js k s e → e ≢ minus_one
Covers-end js undefined s e short c q = absurd c
Covers-end js object s e short (le, opens, closes) q =
    omega (arith, q, short, lt-length_of_some js (e - 1) closes)
Covers-end js array s e short (le, opens, closes) q =
    omega (arith, q, short, lt-length_of_some js (e - 1) closes)
Covers-end js string s e short (more, le, opens, closes) q =
    omega (arith, q, short, lt-length_of_some js e closes)
Covers-end js primitive s e short (le, (c, here, term)) q =
    omega (arith, q, short, lt-length_of_some js e here)

finish-Sound : (js : Bytes) (n : ℕ) (r : Run) → Ends js n r → ParsedSound js n (finish r)
unfolding finish
finish-Sound js n (stop e q) h = tt
finish-Sound js n stuck h = absurd h
finish-Sound js n (cont q) (same, v) = elim (scan_open_cases q.tokens q.toknext v.next_in) [
  | inr (i, t, lt, at, o, e) ↦ rw (e, finish) tt
  | inl e ↦
      let plain : to_size q.toknext ≡ q.toknext = ground (arith, v.few) in
      rw (e, finish)
        (rw plain (
          omega (arith, v.next_in),
          same,
          λ i t lt at.
              let good = v.each i t lt at in
              let covers =
                closed-Covers js t t.kind v.short good.spans
                  (scan_nowhere q.tokens q.toknext i t e lt at) in
              let shut = Covers-end js t.kind t.start t.end v.short covers in
              record {
                parent_below = good.parent_below;
                covers = covers;
                size_is = v.counts i t lt at;
                uncrossed = λ j u later in_table at'.
                    let apart = v.apart i j t u later in_table at at' in
                    (apart.0, omega (arith, apart.1, shut));
              },
        ))
]

parse-ParsedSound :
    (js : Bytes) (ts : List Token)
    → length js < 2 ^ 31
    → length ts < 2 ^ 31
    → ParsedSound js (length ts) (parse js ts)
unfolding parse
parse-ParsedSound js ts short few = finish-Sound js (length ts) _ (
    main_loop-Ends (suc (length js)) js (initial ts) (initial-Inv js ts short few) (omega arith)
      (omega arith))

-- `Parse` returns on every input and every array of tokens, each shorter than 2 ^ 31: its loops end,
-- and no read or write leaves the source or the array.
pub parse_returns :
    (js : Bytes) (ts : List Token)
    → length js < 2 ^ 31
    → length ts < 2 ^ 31
    → (r : Result ℕ) × (ts' : List Token) × (parse js ts ≡ returned r ts')
parse_returns js ts short few = returned_of (parse js ts) (parse-ParsedSound js ts short few)
  where
    returned_of :
        (x : Parsed)
        → ParsedSound js (length ts) x
        → (r : Result ℕ) × (ts' : List Token) × (x ≡ returned r ts')
    returned_of (returned r ts') h = (r, ts', refl)
    returned_of crashed h = absurd h

-- What a successful `Parse` leaves: no more tokens than slots, in an array of the same length; each
-- token's parent is an earlier one or none, its `size` is the number of tokens that name it as their
-- parent, and it covers a piece of the source of its kind: an object or array from an opening to a
-- closing bracket of its kind, a string between quotes, a non-empty primitive up to a terminator;
-- and a later token starts later, and lies behind an earlier one or inside it, so that no two cross.
pub parse_lem :
    (js : Bytes) (ts : List Token) {n : ℕ} {ts' : List Token}
    → length js < 2 ^ 31
    → length ts < 2 ^ 31
    → parse js ts ≡ returned (ok n) ts'
    → (n ≤ length ts)
      × (length ts' ≡ length ts)
      × ((i : ℕ) (t : Token) → i < n → get_elem? ts' i ≡ some t → Sound js ts' n i t)
parse_lem js ts short few e = rw e at (parse-ParsedSound js ts short few)
