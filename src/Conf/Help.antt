-- ===== src/Conf/Help.antt =====
-- src/conf/cli.cpp: the help texts, for any writer of the io module. A chain of `Put` calls, each
-- of which returns early on an error, is the list of what they put.
pub mod Print
use cpp_template.Base.{
  ℕ, ◌-◌, Bool, Option, none, some, List, [], ◌∷◌, ◌++◌, Bytes, codes, length, if◌then◌else◌,
  replicate,
}
use cpp_template.Core.{Category, ok, err, fail, Status}
use cpp_template.Io.{Writer}
use cpp_template.Conf.{CliOption, CliArgument, CliCommand, CliApp, find_command}

abbrev pub unknown_command : ℕ
unknown_command = 1

abbrev pub line_end : Bytes
line_end = 10 ∷ []

-- `if (!s.empty()) { ... }`
abbrev pub unless_empty : Bytes → List Bytes → List Bytes
unless_empty [] parts = []
unless_empty (c ∷ s) parts = parts

-- `PutPadded`
abbrev pub padded : Bytes → ℕ → List Bytes
padded s width = s ∷ replicate (width - length s) (codes " ")

unfoldable pub command_parts : List CliCommand → List Bytes
command_parts [] = []
command_parts (c ∷ cs) =
    codes "  " ∷ (padded c.name 16 ++ (c.description ∷ line_end ∷ command_parts cs))

-- What `PrintCliHelp` puts.
unfoldable pub help_parts : CliApp → List Bytes
help_parts app =
    app.name
    ∷ (unless_empty app.short_description (codes " - " ∷ app.short_description ∷ [])
        ++ ((line_end ++ line_end)
            ∷ (unless_empty app.long_description
                  (app.long_description ∷ (line_end ++ line_end) ∷ [])
                ++ ((codes "Usage:" ++ (line_end ++ codes "  "))
                    ∷ app.name
                    ∷ (codes " <command> [options] [arguments]"
                        ++ (line_end ++ (line_end ++ (codes "Commands:" ++ line_end))))
                    ∷ command_parts app.commands))))

unfoldable pub argument_parts : Option CliArgument → List Bytes
argument_parts none = []
argument_parts (some a) =
    (if a.mandatory then codes " <" else codes " [")
    ∷ a.name
    ∷ (if a.mandatory then codes ">" else codes "]")
    ∷ []

unfoldable pub option_parts : List CliOption → List Bytes
option_parts [] = []
option_parts (o ∷ os) =
    codes "  "
    ∷ o.long_option
    ∷ (unless_empty o.parameter (codes " " ∷ o.parameter ∷ [])
        ++ ((line_end ++ codes "      ") ∷ o.description ∷ line_end ∷ option_parts os))

abbrev pub unless_none : List CliOption → List Bytes → List Bytes
unless_none [] parts = []
unless_none (o ∷ os) parts = parts

-- What `PrintCliCommandHelp` puts.
unfoldable pub command_help_parts : CliApp → CliCommand → List Bytes
command_help_parts app c =
    (codes "Usage:" ++ (line_end ++ codes "  "))
    ∷ app.name
    ∷ codes " "
    ∷ c.name
    ∷ (unless_none c.options (codes " [options]" ∷ [])
        ++ (argument_parts c.argument
            ++ ((line_end ++ line_end)
                ∷ (unless_empty c.description (c.description ∷ line_end ∷ [])
                    ++ unless_none c.options
                        ((line_end ++ (codes "Options:" ++ line_end)) ∷ option_parts c.options)))))

module _ (writer : Writer) where
  open writer use {Sink, write}

  -- `Put`, one after the other, up to the first error.
  unfoldable pub put_all : List Bytes → Sink → Status × Sink
  put_all [] k = (ok tt, k)
  put_all (s ∷ ss) k =
      let (r, k') = write k s in elim r [ err e ↦ (err e, k') | ok u ↦ put_all ss k' ]

  -- `PrintCliHelp`
  unfoldable pub print_cli_help : CliApp → Sink → Status × Sink
  print_cli_help app k = put_all (help_parts app) k

  abbrev pub print_found : CliApp → Bytes → Option CliCommand → Sink → Status × Sink
  print_found app command none k = (fail Category.conf unknown_command command, k)
  print_found app command (some c) k = put_all (command_help_parts app c) k

  -- `PrintCliCommandHelp`
  unfoldable pub print_cli_command_help : CliApp → Bytes → Sink → Status × Sink
  print_cli_command_help app command k =
      print_found app command (find_command command app.commands) k
