-- ===== src/Democli.antt =====
-- apps/democli/cli.cpp and cli.hpp: the demo program's command table, its argument parser and its
-- entry point, with the actions of apps/democli/actions.
pub mod Actions
pub mod Parsed
pub mod Phases
pub mod Exits
mod Tests
use cpp_template.Base.{
  ℕ, zero, suc, ◌+◌, Bool, true, false, not, ◌&&◌, ◌||◌, Option, none, some, List, [], ◌∷◌, ◌++◌,
  Bytes, codes, same, take, if◌then◌else◌,
}
use cpp_template.Core.{Category, Error, Result, ok, err, fail}
use cpp_template.Conf.{
  CliOption, CliArgument, CliCommand, CliApp, OptionValue, CmdlineOptionsIterator, find_command,
  iterator, next,
}
use cpp_template.Conf.Help.{unknown_command}

-- `conf::TooManyArgs`
abbrev pub too_many_args : ℕ
too_many_args = 5

-- `enum ExitCode`
abbrev pub exit_ok : ℕ
exit_ok = 0

abbrev pub exit_error : ℕ
exit_error = 1

abbrev pub exit_no_update : ℕ
exit_no_update = 2

abbrev pub exit_reboot_needed : ℕ
exit_reboot_needed = 4

abbrev pub show_command : CliCommand
show_command = record {
  name = codes "show-artifact";
  description = codes "Print the currently installed artifact name";
  argument = none;
  options = [];
}

abbrev pub check_command : CliCommand
check_command = record {
  name = codes "check-update";
  description = codes "Query for a newer artifact and report the result";
  argument = none;
  options = [];
}

abbrev pub stop_before_option : Bytes → CliOption
stop_before_option description = record {
  long_option = codes "--stop-before";
  description = description;
  parameter = codes "STATE";
}

abbrev pub install_command : CliCommand
install_command = record {
  name = codes "install";
  description = codes "Download, verify and install an artifact";
  argument = some (record { name = codes "artifact"; mandatory = true });
  options = stop_before_option (codes "Halt the workflow before STATE") ∷ [];
}

abbrev pub commit_command : CliCommand
commit_command = record {
  name = codes "commit";
  description = codes "Commit a pending update (exit 2 if none)";
  argument = none;
  options = stop_before_option (codes "Halt before the given state") ∷ [];
}

abbrev pub rollback_command : CliCommand
rollback_command = record {
  name = codes "rollback";
  description = codes "Roll back a pending update (exit 2 if none)";
  argument = none;
  options = stop_before_option (codes "Halt before the given state") ∷ [];
}

-- `BuildApp`
abbrev pub app : CliApp
app = record {
  name = codes "democli";
  short_description = codes "demo OTA-style CLI built on the etlx template";
  long_description =
      codes "Mirrors the Mender update CLI command model: a declarative command"
      ++ 10 ∷ codes "table plus polymorphic actions, with no heap or exceptions.";
  commands =
      show_command ∷ check_command ∷ install_command ∷ commit_command ∷ rollback_command ∷ [];
}

pub data Action : Type 0 where
  show_artifact check_update install commit rollback help : Action

-- `ActionPool`, which lives as long as the program: the members of the actions that have some.
pub record Pool : Type 0 where
  pub artifact : Bytes
  pub stop_before : Bytes
  pub command : Bytes

abbrev pub new_pool : Pool
new_pool = record { artifact = []; stop_before = []; command = [] }

-- `SetArtifact`, `SetStopBefore` and `SetCommand`
abbrev pub set_artifact : Pool → Bytes → Pool
set_artifact pool a = record pool { artifact = take 128 a }

abbrev pub set_stop_before : Pool → Bytes → Pool
set_stop_before pool s = record pool { stop_before = take 32 s }

abbrev pub set_command : Pool → Bytes → Pool
set_command pool c = record pool { command = take 32 c }

-- `IsHelpFlag`
unfoldable pub is_help_flag : Bytes → Bool
is_help_flag s = same s (codes "--help") || same s (codes "-h")

-- The variables of the walk in `ParseArguments`.
pub record Given : Type 0 where
  pub stop_at : Bytes
  pub argument : Bytes
  pub have_argument : Bool

abbrev pub nothing_given : Given
nothing_given = record { stop_at = []; argument = []; have_argument = false }

-- The body of the walk, on the value that was yielded.
unfoldable pub take_value : OptionValue → Given → Result Given
take_value v g =
    if v.is_argument
    then (if g.have_argument
        then fail Category.conf too_many_args (codes "unexpected extra argument")
        else ok (record g { argument = v.text; have_argument = true }))
    else (if same v.option (codes "--stop-before")
        then ok (record g { stop_at = v.text })
        else ok g)

abbrev pub on_with : (Given → Option (Result Given)) → Result Given → Option (Result Given)
on_with walk (err e) = some (err e)
on_with walk (ok g) = walk g

abbrev pub on_next :
    (Given → Option (Result Given)) → Result (Option OptionValue) → Given → Option (Result Given)
on_next walk (err e) g = some (err e)
on_next walk (ok none) g = some (ok g)
on_next walk (ok (some v)) g = on_with walk (take_value v g)

-- The walk, on fuel.
unfoldable pub walk_given : ℕ → CmdlineOptionsIterator → Given → Option (Result Given)
walk_given zero it g = none
walk_given (suc f) it g = on_next (walk_given f (next it).1) (next it).0 g

abbrev pub unless_blank : Bytes → Pool → Pool
unless_blank [] pool = pool
unless_blank (c ∷ s) pool = set_stop_before pool (c ∷ s)

abbrev pub configure_install : Given → Pool → Pool
configure_install g pool =
    unless_blank g.stop_at (if g.have_argument then set_artifact pool g.argument else pool)

-- The dispatch at the end of `ParseArguments`.
unfoldable pub dispatch : Bytes → Given → Pool → Result Action × Pool
dispatch name g pool =
    if same name (codes "show-artifact")
    then (ok show_artifact, pool)
    else if same name (codes "check-update")
    then (ok check_update, pool)
    else if same name (codes "install")
    then (ok install, configure_install g pool)
    else if same name (codes "commit")
    then (ok commit, pool)
    else if same name (codes "rollback")
    then (ok rollback, pool)
    else (fail Category.conf unknown_command name, pool)

unfoldable pub any_help_flag : List Bytes → Bool
any_help_flag [] = false
any_help_flag (a ∷ rest) = is_help_flag a || any_help_flag rest

abbrev pub when_walked : Bytes → Pool → Option (Result Given) → Option (Result Action × Pool)
when_walked name pool none = none
when_walked name pool (some (err e)) = some (err e, pool)
when_walked name pool (some (ok g)) = some (dispatch name g pool)

abbrev pub when_found :
    ℕ → Bytes → List Bytes → Pool → Option CliCommand → Option (Result Action × Pool)
when_found f name rest pool none = some (fail Category.conf unknown_command name, pool)
when_found f name rest pool (some c) =
    if any_help_flag rest
    then some (ok help, set_command pool name)
    else when_walked name pool (walk_given f (iterator rest c) nothing_given)

-- `if (argc >= 3) pool.help.SetCommand(...)`
abbrev pub help_on : List Bytes → Pool → Pool
help_on [] pool = pool
help_on (name ∷ rest) pool = set_command pool name

-- `ParseArguments`, on fuel for its walk.
unfoldable pub parse_arguments : ℕ → List Bytes → Pool → Option (Result Action × Pool)
parse_arguments f [] pool = some (ok help, pool)
parse_arguments f (program ∷ []) pool = some (ok help, pool)
parse_arguments f (program ∷ name ∷ rest) pool =
    if is_help_flag name || same name (codes "help")
    then some (ok help, help_on rest pool)
    else when_found f name rest pool (find_command name app.commands)
