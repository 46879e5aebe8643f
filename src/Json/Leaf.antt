-- ===== src/Json/Leaf.antt =====
-- `ParsePrimitive` and `ParseString`: they end, stay inside the source, and add one token or fail.
use cpp_template.Base.{
  ℕ, zero, suc, ◌+◌, ◌^◌, ◌≤◌, ◌<◌, true, none, some, ◌≡◌, refl, ◌∙◌, ap, ◌⊎◌, inl, inr, arith,
  ◌==◌, ==_iff, Bool-cases, ltb, leb, Option-cases, Bytes, length, get_elem?, set, length-set,
  get_elem?-set_self, set-set_self, get_elem?-in_range, lt-length_of_some,
}
use cpp_template.Json.{
  Kind, string, Token, minus_one, blank, to_int32, inc64, Parser, Run, cont, stop, stuck, then_run,
  alloc, put, count_child, is_hex, is_terminator, add_leaf, finish_primitive, primitive_loop,
  is_escape, hex_loop, escape, skip_escape, string_loop,
}
use cpp_template.Json.Grow.{bump_at, grown}

abbrev pub Stops : Run → Type 0
Stops (stop e q) = Unit
Stops _ = ⊥

pub Stops-then_run : (r : Run) (f : Parser → Run) → Stops r → Stops (then_run r f)
Stops-then_run (cont p) f s = absurd s
Stops-then_run (stop e p) f s = tt
Stops-then_run stuck f s = s

abbrev pub leaf : Kind → ℕ → Parser → Token
leaf k first p = record {
  kind = k;
  start = to_int32 first;
  end = to_int32 p.pos;
  size = 0;
  parent = p.toksuper;
}

-- `Alloc` fails on a full array, and otherwise hands out the next token.
pub alloc_cases :
    (p : Parser)
    → p.toknext ≤ length p.tokens
    → length p.tokens < 2 ^ 31
    → (alloc p ≡ none)
      ⊎ ((p.toknext < length p.tokens)
          × (alloc p
              ≡ some (
                p.toknext,
                record p { tokens = set p.tokens p.toknext blank; toknext = suc p.toknext },
              )))
unfolding alloc
alloc_cases p h k = elim (Bool-cases (leb (length p.tokens) p.toknext)) [
  | inl e ↦ inl (ground arith)
  | inr e ↦ inr (ground arith, ground arith)
]

pub add_leaf_cases :
    (k : Kind) (mark first : ℕ) (p : Parser)
    → p.toknext ≤ length p.tokens
    → length p.tokens < 2 ^ 31
    → Stops (add_leaf k mark first p)
      ⊎ ((p.toknext < length p.tokens)
          × (add_leaf k mark first p
              ≡ cont (record p {
                tokens = set p.tokens p.toknext (leaf k first p);
                toknext = suc p.toknext;
              })))
unfolding add_leaf put
add_leaf_cases k mark first p h l = elim (alloc_cases p h l) [
  | inl e ↦ inl (rw (e, add_leaf) tt)
  | inr (room, e) ↦ inr (
    room,
    rw (e, add_leaf)
        (ground (
          arith,
          get_elem?-set_self p.tokens p.toknext blank,
          set-set_self p.tokens p.toknext blank (leaf k first p),
        )),
  )
]

pub count_child_lem :
    (p : Parser)
    → (p.toksuper ≡ minus_one) ⊎ (p.toksuper < length p.tokens)
    → count_child p ≡ cont (record p { tokens = bump_at p.toksuper p.tokens })
unfolding count_child put bump_at
count_child_lem p h = elim (Option-cases (get_elem? p.tokens p.toksuper)) [
  | inl e ↦ ground (arith, get_elem?-in_range p.tokens p.toksuper)
  | inr (t, e) ↦ ground arith
]

-- A leaf that is added is counted by its parent.
pub add_leaf-count_child :
    (k : Kind) (mark first e : ℕ) (move : ℕ → ℕ) (p : Parser)
    → p.toknext ≤ length p.tokens
    → length p.tokens < 2 ^ 31
    → (p.toksuper ≡ minus_one) ⊎ (p.toksuper < p.toknext)
    → Stops (add_leaf k mark first (record p { pos = e }))
      ⊎ ((p.toknext < length p.tokens)
          × (then_run
                (then_run
                  (add_leaf k mark first (record p { pos = e }))
                  (λ q. cont (record q { pos = move q.pos })))
                count_child
              ≡ cont (grown p (leaf k first (record p { pos = e })) (move e) p.toksuper)))
add_leaf-count_child k mark first e move p h l s =
    elim (add_leaf_cases k mark first (record p { pos = e }) h l) [
      | inl stops ↦ inl stops
      | inr (room, q) ↦ inr (
        room,
        rw q (
            count_child_lem _ (elim s [
              | inl none_yet ↦ inl none_yet
              | inr lt ↦ inr (rw length-set (omega arith))
            ])),
      )
    ]

abbrev pub AtTerminator : Bytes → ℕ → ℕ → Type 0
AtTerminator js from e =
    (from ≤ e) × ((c : ℕ) × (get_elem? js e ≡ some c) × (is_terminator c ≡ true))

module _ (js : Bytes) (short : length js < 2 ^ 31) (start : ℕ) where
  pub primitive_loop_cases :
      (f : ℕ) (p : Parser)
      → length js < p.pos + f
      → p.pos ≤ length js
      → Stops (primitive_loop f js start p)
        ⊎ ((e : ℕ) × AtTerminator js p.pos e
            × (primitive_loop f js start p ≡ finish_primitive start (record p { pos = e })))
  unfolding primitive_loop
  primitive_loop_cases zero p fuel h = absurd (omega arith)
  primitive_loop_cases (suc f) p fuel h = elim (Option-cases (get_elem? js p.pos)) [
    | inl none_here ↦ inl (rw (none_here, primitive_loop) tt)
    | inr (c, here) ↦ elim (Bool-cases (is_terminator c)) [
      | inl over ↦ inr (p.pos, (omega arith, (c, here, over)), rw (here, over, primitive_loop))
      | inr going ↦ elim (Bool-cases (ltb c 32)) [
        | inl control ↦ inl (rw (here, going, control, primitive_loop) tt)
        | inr plain ↦
            rw (here, going, plain, primitive_loop)
              (elim (primitive_loop_cases f (record p { pos = inc64 p.pos })
                (omega (arith, lt-length_of_some js p.pos here))
                (omega (arith, lt-length_of_some js p.pos here))) [
                  | inl s ↦ inl s
                  | inr (e, (le, t), q) ↦
                      inr (e, (omega (arith, lt-length_of_some js p.pos here), t), q)
                ])
      ]
    ]
  ]

  -- A piece of the parser that only moves on inside the source, from `from`, or fails.
  abbrev pub Moves : ℕ → Parser → Run → Type 0
  Moves from p r =
      Stops r ⊎ ((e : ℕ) × (from ≤ e) × (e < length js) × (r ≡ cont (record p { pos = e })))

  hex_loop-Moves : (k : ℕ) (p : Parser) → p.pos < length js → Moves p.pos p (hex_loop k js start p)
  unfolding hex_loop
  hex_loop-Moves zero p h = inr (p.pos, omega arith, h, refl)
  hex_loop-Moves (suc k) p h = elim (Option-cases (get_elem? js (inc64 p.pos))) [
    | inl over ↦ inl (rw (over, hex_loop) tt)
    | inr (c, here) ↦ elim (Bool-cases (is_hex c)) [
      | inl hex ↦
          rw (here, hex, hex_loop)
            (elim (hex_loop-Moves k (record p { pos = inc64 p.pos })
              (lt-length_of_some js (inc64 p.pos) here)) [
                | inl s ↦ inl s
                | inr (e, le, lt, q) ↦ inr (e, omega arith, lt, q)
              ])
      | inr bad ↦ inl (rw (here, bad, hex_loop) tt)
    ]
  ]

  escape-Moves : (c : ℕ) (p : Parser) → p.pos < length js → Moves p.pos p (escape c js start p)
  unfolding escape
  escape-Moves c p h = elim (Bool-cases (is_escape c)) [
    | inl simple ↦ inr (p.pos, omega arith, h, rw (simple, escape))
    | inr other ↦ elim (Bool-cases (c == b'u')) [
      | inl u ↦ rw (other, u, escape) (hex_loop-Moves 4 p h)
      | inr bad ↦ inl (rw (other, bad, escape) tt)
    ]
  ]

  skip_escape-Moves :
      (c : ℕ) (p : Parser) → p.pos < length js → Moves p.pos p (skip_escape c js start p)
  unfolding skip_escape
  skip_escape-Moves c p h = elim (Bool-cases (c == b'\\')) [
    | inl slash ↦ elim (Option-cases (get_elem? js (inc64 p.pos))) [
      | inl last ↦ inr (p.pos, omega arith, h, rw (slash, last, skip_escape))
      | inr (d, here) ↦
          rw (slash, here, skip_escape)
            (elim (escape-Moves d (record p { pos = inc64 p.pos })
              (lt-length_of_some js (inc64 p.pos) here)) [
                | inl s ↦ inl s
                | inr (e, le, lt, q) ↦ inr (e, omega arith, lt, q)
              ])
    ]
    | inr plain ↦ inr (p.pos, omega arith, h, rw (plain, skip_escape))
  ]

  -- The string ends at a quote, at or behind `pos`.
  pub string_loop_cases :
      (f : ℕ) (p : Parser)
      → length js < p.pos + f
      → p.pos ≤ length js
      → Stops (string_loop f js start p)
        ⊎ ((e : ℕ) × (p.pos ≤ e)
            × (get_elem? js e ≡ some b'"')
            × (string_loop f js start p ≡ add_leaf string start (start + 1) (record p { pos = e })))
  unfolding string_loop
  string_loop_cases zero p fuel h = absurd (omega arith)
  string_loop_cases (suc f) p fuel h = elim (Option-cases (get_elem? js p.pos)) [
    | inl over ↦ inl (rw (over, string_loop) tt)
    | inr (c, here) ↦ elim (Bool-cases (c == b'"')) [
      | inl quote ↦ inr (
        p.pos,
        omega arith,
        here ∙ ap some ((==_iff c b'"').0 quote),
        rw (here, quote, string_loop),
      )
      | inr inside ↦
          rw (here, inside, string_loop)
            (elim (skip_escape-Moves c p (lt-length_of_some js p.pos here)) [
              | inl s ↦ inl (Stops-then_run _ _ s)
              | inr (e, le, lt, q) ↦
                  rw q
                    (elim (string_loop_cases f (record p { pos = inc64 e }) (omega arith)
                      (omega arith)) [
                        | inl s ↦ inl s
                        | inr (e', le', at, q') ↦ inr (e', omega arith, at, q')
                      ])
            ])
    ]
  ]
