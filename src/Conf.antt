-- ===== src/Conf.antt =====
-- include/etlx/conf/cli.hpp and src/conf/cli.cpp: the walk over the arguments of a command.
pub mod Walk
pub mod Line
pub mod Progress
pub mod Help
mod Tests
use cpp_template.Base.{
  ℕ, suc, ◌+◌, Bool, true, false, not, ◌&&◌, ◌||◌, Option, none, some, List, [], ◌∷◌, Bytes, codes,
  same, get_elem?, ◌==◌, if◌then◌else◌,
}
use cpp_template.Core.{Category, Result, ok, fail}

-- `enum Code`
abbrev pub unknown_option : ℕ
unknown_option = 2

abbrev pub missing_value : ℕ
missing_value = 3

abbrev pub unexpected_value : ℕ
unexpected_value = 4

pub record CliOption : Type 0 where
  pub long_option : Bytes
  pub description : Bytes
  pub parameter : Bytes

pub record CliArgument : Type 0 where
  pub name : Bytes
  pub mandatory : Bool

pub record CliCommand : Type 0 where
  pub name : Bytes
  pub description : Bytes
  pub argument : Option CliArgument
  pub options : List CliOption

pub record CliApp : Type 0 where
  pub name : Bytes
  pub short_description : Bytes
  pub long_description : Bytes
  pub commands : List CliCommand

pub record OptionValue : Type 0 where
  pub option : Bytes
  pub text : Bytes
  pub is_argument : Bool

-- `CmdlineOptionsIterator`; `argc_` is the length of `argv`.
pub record CmdlineOptionsIterator : Type 0 where
  pub argv : List Bytes
  pub command : CliCommand
  pub index : ℕ
  pub args_only : Bool

-- `StartsWithDashDash`
unfoldable pub starts_with_dash_dash : Bytes → Bool
starts_with_dash_dash (a ∷ b ∷ s) = a == b'-' && b == b'-'
starts_with_dash_dash _ = false

abbrev pub dash_dash : Bytes
dash_dash = codes "--"

-- `FindOption`
unfoldable pub find_option : Bytes → List CliOption → Option CliOption
find_option name [] = none
find_option name (o ∷ os) = if same o.long_option name then some o else find_option name os

-- `FindCommand`
unfoldable pub find_command : Bytes → List CliCommand → Option CliCommand
find_command name [] = none
find_command name (c ∷ cs) = if same c.name name then some c else find_command name cs

abbrev pub in_front : ℕ → Bytes × Option Bytes → Bytes × Option Bytes
in_front c (name, inline_value) = (c ∷ name, inline_value)

-- A token cut at its first `=`; `none` where there is none.
unfoldable pub cut_at_equals : Bytes → Bytes × Option Bytes
cut_at_equals [] = ([], none)
cut_at_equals (c ∷ s) = if c == b'=' then ([], some s) else in_front c (cut_at_equals s)

abbrev pub argument_of : Bytes → OptionValue
argument_of a = record { option = []; text = a; is_argument = true }

abbrev pub option_of : CliOption → Bytes → OptionValue
option_of o v = record { option = o.long_option; text = v; is_argument = false }

abbrev pub Next : Type 0
Next = Result (Option OptionValue) × CmdlineOptionsIterator

-- A value in the next element of `argv`.
abbrev pub taken_value : CmdlineOptionsIterator → Bytes → CliOption → Option Bytes → Next
taken_value it name o none = (fail Category.conf missing_value name, it)
taken_value it name o (some v) = (ok (some (option_of o v)), record it { index = it.index + 1 })

-- `Next` from the option that was found on, by its parameter.
abbrev pub with_parameter : CmdlineOptionsIterator → Bytes → Option Bytes → CliOption → Bytes → Next
with_parameter it name none o [] = (ok (some (option_of o [])), it)
with_parameter it name (some v) o [] = (fail Category.conf unexpected_value name, it)
with_parameter it name none o (c ∷ cs) = taken_value it name o (get_elem? it.argv it.index)
with_parameter it name (some v) o (c ∷ cs) = (ok (some (option_of o v)), it)

abbrev pub found_option : CmdlineOptionsIterator → Bytes → Option Bytes → Option CliOption → Next
found_option it name inline_value none = (fail Category.conf unknown_option name, it)
found_option it name inline_value (some o) = with_parameter it name inline_value o o.parameter

unfoldable pub option_token : CmdlineOptionsIterator → Bytes × Option Bytes → Next
option_token it (name, inline_value) =
    found_option it name inline_value (find_option name it.command.options)

-- `Next` on a token that is not the terminator.
unfoldable pub classify : CmdlineOptionsIterator → Bytes → Next
classify it tok =
    if it.args_only || not (starts_with_dash_dash tok)
    then (ok (some (argument_of tok)), it)
    else option_token it (cut_at_equals tok)

-- `Next` behind the terminator, on the next element of `argv`.
abbrev pub after_terminator : CmdlineOptionsIterator → Option Bytes → Next
after_terminator it none = (ok none, it)
after_terminator it (some tok) = classify (record it { index = it.index + 1 }) tok

abbrev pub next_element : CmdlineOptionsIterator → Option Bytes → Next
next_element it none = (ok none, it)
next_element it (some tok) =
    if not it.args_only && same tok dash_dash
    then after_terminator (record it { index = it.index + 1; args_only = true })
        (get_elem? it.argv (it.index + 1))
    else classify (record it { index = it.index + 1 }) tok

-- `Next`
unfoldable pub next : CmdlineOptionsIterator → Next
next it = next_element it (get_elem? it.argv it.index)

-- The constructor.
abbrev pub iterator : List Bytes → CliCommand → CmdlineOptionsIterator
iterator argv command = record { argv = argv; command = command; index = 0; args_only = false }
