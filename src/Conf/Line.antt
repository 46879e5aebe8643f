-- ===== src/Conf/Line.antt =====
-- A whole command line, walked by its client.
use cpp_template.Base.{
  if_true, ℕ, zero, suc, ◌+◌, ◌<◌, Bool, true, false, not, ◌&&◌, Option, none, some, List, [], ◌∷◌,
  ◌++◌, map, ◌≡◌, refl, ◌∙◌, ap, ap₂, Bytes, same, get_elem?, length, length-append, drop, arith,
  append_assoc,
}
use cpp_template.Core.{Result, ok, err}
use cpp_template.Conf.{
  CliCommand, OptionValue, CmdlineOptionsIterator, dash_dash, argument_of, after_terminator,
  next_element, next, iterator,
}
use cpp_template.Conf.Walk.{
  Item, flag, inlined, spaced, plain, tokens, meaning, At, Yields, yields, moved, plus_one,
  get_elem?-of_drop, get_elem?-of_end, At-moved, classify_argument, next-Item, next_argument,
}

abbrev pub cons_value :
    OptionValue → Option (Result (List OptionValue)) → Option (Result (List OptionValue))
cons_value v none = none
cons_value v (some (err e)) = some (err e)
cons_value v (some (ok vs)) = some (ok (v ∷ vs))

abbrev pub walk_on :
    Result (Option OptionValue)
    → Option (Result (List OptionValue))
    → Option (Result (List OptionValue))
walk_on (err e) rest = some (err e)
walk_on (ok none) rest = some (ok [])
walk_on (ok (some v)) rest = cons_value v rest

-- The loop of a client: `next` until it yields nothing or an error, on fuel.
unfoldable pub walk : ℕ → CmdlineOptionsIterator → Option (Result (List OptionValue))
walk zero it = none
walk (suc f) it = walk_on (next it).0 (walk f (next it).1)

-- Items, and then perhaps the terminator and arguments.
unfoldable pub all_tokens : {c : CliCommand} → List (Item c) → List Bytes
all_tokens [] = []
all_tokens (i ∷ is) = tokens i ++ all_tokens is

abbrev pub terminated : Option (List Bytes) → List Bytes
terminated none = []
terminated (some args) = dash_dash ∷ args

abbrev pub arguments : Option (List Bytes) → List OptionValue
arguments none = []
arguments (some args) = map argument_of args

abbrev pub meanings : {c : CliCommand} → List (Item c) → List OptionValue
meanings is = map meaning is

walk-end :
    {c : CliCommand} {seen : Bool} (f : ℕ) (it : CmdlineOptionsIterator)
    → At c [] seen it
    → walk (suc f) it ≡ some (ok [])
unfolding walk next
walk-end f it w =
    ap (λ o. walk_on (next_element it o).0 (walk f (next_element it o).1))
      (get_elem?-of_end it.argv it.index w.left)

-- One value and the walk after it.
walk-Yields :
    {c : CliCommand} {rest : List Bytes} {seen : Bool} {v : OptionValue} {vs : List OptionValue}
    (f : ℕ) (it : CmdlineOptionsIterator) (y : Yields c rest seen v (next it))
    → walk f (next it).1 ≡ some (ok vs)
    → walk (suc f) it ≡ some (ok (v ∷ vs))
unfolding walk
walk-Yields f it y h = ap₂ walk_on y.yielded h

walk-arguments :
    {c : CliCommand} (args : List Bytes) (f : ℕ) (it : CmdlineOptionsIterator)
    → At c args true it
    → length args < f
    → walk f it ≡ some (ok (map argument_of args))
walk-arguments args zero it w h = absurd (omega arith)
walk-arguments [] (suc f) it w h = walk-end f it w
walk-arguments (a ∷ args) (suc f) it w h =
    let y = next_argument a it w in
    walk-Yields f it y (walk-arguments args f (next it).1 y.onward (omega arith))

-- Behind the terminator.
abbrev seen_after : CmdlineOptionsIterator → CmdlineOptionsIterator
seen_after it = record it { index = it.index + 1; args_only = true }

next-terminator :
    {c : CliCommand} {rest : List Bytes} (it : CmdlineOptionsIterator)
    → At c (dash_dash ∷ rest) false it
    → (next it ≡ after_terminator (seen_after it) (get_elem? it.argv (it.index + 1)))
      × At c rest true (seen_after it)
unfolding next same
next-terminator it w =
    let (here, there) = get_elem?-of_drop it.argv it.index w.left in
    (
      ap (next_element it) here ∙ if_true _ _ (ap (λ x. not x && true) w.seen_same),
      record {
        left = ap (λ n. drop n it.argv) (plus_one it.index) ∙ there;
        command_same = w.command_same;
        seen_same = refl;
      },
    )

walk-terminated :
    {c : CliCommand} (args : Option (List Bytes)) (f : ℕ) (it : CmdlineOptionsIterator)
    → At c (terminated args) false it
    → length (terminated args) < f
    → walk f it ≡ some (ok (arguments args))
unfolding walk
walk-terminated args zero it w h = absurd (omega arith)
walk-terminated none (suc f) it w h = walk-end f it w
walk-terminated (some []) (suc f) it w h =
    let (e, w') = next-terminator it w in
    let ended =
      e ∙ ap (after_terminator (seen_after it)) (get_elem?-of_end it.argv (it.index + 1) w'.left) in
    ap (λ r. walk_on r.0 (walk f r.1)) ended
walk-terminated (some (a ∷ args)) (suc f) it w h =
    let (e, w') = next-terminator it w in
    let w'' = At-moved (seen_after it) w' in
    let found =
      e
      ∙ ap (after_terminator (seen_after it)) (get_elem?-of_drop it.argv (it.index + 1) w'.left).0
      ∙ classify_argument (moved (seen_after it)) a refl in
    let y = yields (moved (seen_after it)) found w'' in
    walk-Yields f it y (walk-arguments args f (next it).1 y.onward (omega arith))

tokens_longer : {c : CliCommand} (i : Item c) → 0 < length (tokens i)
unfolding tokens
tokens_longer (flag o n e) = omega arith
tokens_longer (inlined o n e v) = omega arith
tokens_longer (spaced o n e v) = omega arith
tokens_longer (plain a h) = omega arith

walk-items :
    {c : CliCommand} (is : List (Item c)) (args : Option (List Bytes)) (f : ℕ)
    (it : CmdlineOptionsIterator)
    → At c (all_tokens is ++ terminated args) false it
    → length (all_tokens is ++ terminated args) < f
    → walk f it ≡ some (ok (meanings is ++ arguments args))
unfolding all_tokens
walk-items is args zero it w h = absurd (omega arith)
walk-items [] args (suc f) it w h = walk-terminated args (suc f) it w h
walk-items (i ∷ is) args (suc f) it w h =
    let split = append_assoc (tokens i) (all_tokens is) (terminated args) in
    let y =
      next-Item i it (record {
        left = w.left ∙ split;
        command_same = w.command_same;
        seen_same = w.seen_same;
      }) in
    walk-Yields f it y (
      walk-items is args f (next it).1 y.onward (
        omega (
          arith,
          ap length split,
          tokens_longer i,
          length-append (tokens i) (all_tokens is ++ terminated args),
        )))

-- A walk over a command line of flags, options with their value behind `=` or in the next token,
-- plain arguments, and perhaps the terminator and any tokens behind it, yields what each stands
-- for, in order, and then nothing; one call more than there are tokens is enough.
pub walk-line :
    {c : CliCommand} (is : List (Item c)) (args : Option (List Bytes))
    → walk
        (suc (length (all_tokens is ++ terminated args)))
        (iterator (all_tokens is ++ terminated args) c)
      ≡ some (ok (meanings is ++ arguments args))
walk-line is args =
    walk-items is args _ _ (record { left = refl; command_same = refl; seen_same = refl })
      (omega arith)
