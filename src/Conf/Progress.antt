-- ===== src/Conf/Progress.antt =====
-- The walk comes to an end on any command line.
use cpp_template.Base.{
  ℕ, ◌+◌, ◌-◌, ◌≤◌, ◌<◌, true, not, ◌&&◌, ◌||◌, Option, none, some, [], ◌∷◌, Bytes, ◌≡◌, refl, ◌⊎◌,
  inl, inr, arith, length, get_elem?, lt-length_of_some, if_intro, same,
}
use cpp_template.Core.{ok}
use cpp_template.Conf.{
  CliOption, CmdlineOptionsIterator, starts_with_dash_dash, dash_dash, find_option, cut_at_equals,
  Next, taken_value, with_parameter, found_option, option_token, classify, next_element, next,
  after_terminator,
}

-- The tokens that are left.
abbrev pub unread : CmdlineOptionsIterator → ℕ
unread it = length it.argv - it.index

abbrev Onward : CmdlineOptionsIterator → Next → Type 0
Onward it r = unread r.1 ≤ unread it

taken_value-Onward :
    (it : CmdlineOptionsIterator) (name : Bytes) (o : CliOption) (v : Option Bytes)
    → Onward it (taken_value it name o v)
taken_value-Onward it name o none = omega arith
taken_value-Onward it name o (some v) = omega arith

with_parameter-Onward :
    (it : CmdlineOptionsIterator) (name : Bytes) (v : Option Bytes) (o : CliOption) (p : Bytes)
    → Onward it (with_parameter it name v o p)
with_parameter-Onward it name none o [] = omega arith
with_parameter-Onward it name (some v) o [] = omega arith
with_parameter-Onward it name none o (c ∷ cs) =
    taken_value-Onward it name o (get_elem? it.argv it.index)
with_parameter-Onward it name (some v) o (c ∷ cs) = omega arith

found_option-Onward :
    (it : CmdlineOptionsIterator) (name : Bytes) (v : Option Bytes) (o : Option CliOption)
    → Onward it (found_option it name v o)
found_option-Onward it name v none = omega arith
found_option-Onward it name v (some o) = with_parameter-Onward it name v o o.parameter

classify-Onward : (it : CmdlineOptionsIterator) (tok : Bytes) → Onward it (classify it tok)
unfolding classify option_token
classify-Onward it tok =
    if_intro {A = Next} (Onward it) (it.args_only || not (starts_with_dash_dash tok))
      (λ h. omega arith)
      (λ h.
        found_option-Onward it (cut_at_equals tok).0 (cut_at_equals tok).1
          (find_option (cut_at_equals tok).0 it.command.options))

-- Nothing is left to yield, or there is less to read.
abbrev Moves : CmdlineOptionsIterator → Next → Type 0
Moves it r = (r.0 ≡ ok none) ⊎ (unread r.1 < unread it)

after_terminator-Moves :
    (it it' : CmdlineOptionsIterator) (tok : Option Bytes)
    → unread it' < unread it
    → Moves it (after_terminator it' tok)
after_terminator-Moves it it' none h = inl refl
after_terminator-Moves it it' (some tok) h =
    inr (omega (arith, classify-Onward (record it' { index = it'.index + 1 }) tok))

next_element-Moves :
    (it : CmdlineOptionsIterator) (tok : Option Bytes)
    → get_elem? it.argv it.index ≡ tok
    → Moves it (next_element it tok)
next_element-Moves it none h = inl refl
next_element-Moves it (some tok) h =
    let inside : it.index < length it.argv = lt-length_of_some it.argv it.index h in
    if_intro {A = Next} (Moves it) (not it.args_only && same tok dash_dash)
      (λ t.
        after_terminator-Moves it (record it { index = it.index + 1; args_only = true })
          (get_elem? it.argv (it.index + 1)) (omega arith))
      (λ t. inr (omega (arith, classify-Onward (record it { index = it.index + 1 }) tok)))

pub next-Moves :
    (it : CmdlineOptionsIterator) → ((next it).0 ≡ ok none) ⊎ (unread (next it).1 < unread it)
unfolding next
next-Moves it = next_element-Moves it (get_elem? it.argv it.index) refl
