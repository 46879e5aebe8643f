-- ===== src/Democli/Actions.antt =====
-- apps/democli/actions/actions.cpp: what each action does, and `Main` of apps/democli/cli.cpp, for
-- any writer, any dispatcher of the workflow and any sink of the log; with `FileWriter::Write` of
-- ports/host/host_io.cpp, for any `fwrite`.
use cpp_template.Base.{
  ℕ, Bool, true, false, not, ◌&&◌, Option, none, some, List, [], ◌∷◌, ◌++◌, Bytes, codes, same,
  length, ◌==◌, if◌then◌else◌,
}
use cpp_template.Core.{
  Category, json, conf, storage, events, io, http, crypto, net, democli, se, Error, Result, ok, err,
  Status, fail, make, no_error, error_ok,
}
use cpp_template.Io.{Writer, short_write}
use cpp_template.Log.{LogSink, Logger, Level, log_at}
use cpp_template.Sm.{Engine, Message, start, update_fsm, call}
use cpp_template.Conf.Help.{print_cli_help, print_cli_command_help}
use cpp_template.Democli.{
  app, Action, show_artifact, check_update, install, commit, rollback, help, Pool, exit_ok,
  exit_error, exit_no_update, exit_reboot_needed, parse_arguments,
}

-- `fwrite` on the file of a `FileWriter`: the number of bytes that it wrote.
pub record CFile : Type 1 where
  pub Stream : Type 0
  pub fwrite : Stream → Bytes → ℕ × Stream

-- `FileWriter`
abbrev pub file_writer : CFile → Writer
file_writer file = record {
  Sink = file.Stream;
  write = λ s src.
      let (n, s') = file.fwrite s src in
      (
        if n == length src
            then ok tt
            else fail Category.io short_write (codes "fwrite short write"),
        s',
      );
}

-- `ExitWith`
abbrev pub exit_with : ℕ → Bytes → Error
exit_with code msg = make Category.democli code msg

-- The names of the `Category` objects.
unfoldable pub category_name : Category → Bytes
category_name json = codes "json"
category_name conf = codes "conf"
category_name storage = codes "storage"
category_name events = codes "events"
category_name io = codes "io"
category_name http = codes "http"
category_name crypto = codes "crypto"
category_name net = codes "net"
category_name democli = codes "democli"
category_name se = codes "etlx::se"

abbrev pub name_of : Option Category → Bytes
name_of none = codes "error"
name_of (some c) = category_name c

abbrev pub is_blank : Bytes → Bool
is_blank [] = true
is_blank (c ∷ s) = false

abbrev pub new_line : Bytes
new_line = 10 ∷ []

abbrev pub phases : List Bytes
phases = codes "download" ∷ codes "verify" ∷ codes "install" ∷ []

-- `e.ok() ? ExitOk : e.code`
unfoldable pub exit_status : Error → ℕ
exit_status e = if error_ok e then exit_ok else e.code

module _ (writer : Writer) where
  open writer use {Sink, write}

  -- `Put`, whose status the actions do not look at, once for each of the parts.
  unfoldable pub puts : List Bytes → Sink → Sink
  puts [] k = k
  puts (s ∷ ss) k = puts ss (write k s).1

  -- `ShowArtifactAction::Execute`
  unfoldable pub show_execute : Sink → Error × Sink
  show_execute k = (no_error, puts ((codes "artifact: device-image-1.0.0" ++ new_line) ∷ []) k)

  -- The output of `CheckUpdateAction::Execute`.
  unfoldable pub check_execute : Sink → Error × Sink
  check_execute k = (
    no_error,
    puts
        ((codes "current:   device-image-1.0.0" ++ new_line)
          ∷ (codes "available: device-image-1.1.0" ++ new_line)
          ∷ (codes "update available" ++ new_line)
          ∷ [])
        k,
  )

  -- `CommitAction::Execute`
  unfoldable pub commit_execute : Sink → Error × Sink
  commit_execute k = (
    exit_with exit_no_update (codes "no update to commit"),
    puts ((codes "no update in progress" ++ new_line) ∷ []) k,
  )

  -- `RollbackAction::Execute`
  unfoldable pub rollback_execute : Sink → Error × Sink
  rollback_execute k = (
    exit_with exit_no_update (codes "no update to roll back"),
    puts ((codes "no update in progress" ++ new_line) ∷ []) k,
  )

  abbrev pub general_help : Status × Sink → Error × Sink
  general_help (ok u, k) = (no_error, k)
  general_help (err e, k) = (exit_with exit_error (codes "help failed"), k)

  abbrev pub command_help : Status × Sink → Error × Sink
  command_help (ok u, k) = (no_error, k)
  command_help (err e, k) = (e, k)

  abbrev pub help_on_command : Bytes → Sink → Error × Sink
  help_on_command [] k = general_help (print_cli_help writer app k)
  help_on_command (c ∷ s) k = command_help (print_cli_command_help writer app (c ∷ s) k)

  -- `HelpAction::Execute`
  unfoldable pub help_execute : Pool → Sink → Error × Sink
  help_execute pool k = help_on_command pool.command k

  module _ (engine : Engine) where
    open engine use {Machine}

    -- The loop over the phases; `true` where the action returns before one of them.
    unfoldable pub run_phases : Bytes → List Bytes → Machine → Sink → Bool × Machine × Sink
    run_phases stop [] m k = (false, m, k)
    run_phases stop (phase ∷ rest) m k =
        if not (is_blank stop) && same stop phase
        then (true, m, puts (codes "stopping before " ∷ phase ∷ new_line ∷ []) k)
        else run_phases stop rest (call engine m Message.next).1
            (puts (codes "  " ∷ phase ∷ (codes " ok" ++ new_line) ∷ []) k)

    abbrev pub after_phases : Bool × Machine × Sink → Error × Machine × Sink
    after_phases (true, m, k) = (no_error, m, k)
    after_phases (false, m, k) = (
      exit_with exit_reboot_needed (codes "reboot required"),
      m,
      puts ((codes "install complete; reboot required" ++ new_line) ∷ []) k,
    )

    -- `InstallAction::Execute` with an artifact, and the machine that it leaves.
    unfoldable pub install_artifact : Bytes → Bytes → Sink → Error × Machine × Sink
    install_artifact artifact stop k = after_phases (
        run_phases stop phases (call engine (update_fsm engine) start).1
          (puts (codes "installing " ∷ artifact ∷ new_line ∷ []) k))

    abbrev pub install_given : Bytes → Bytes → Sink → Error × Sink
    install_given [] stop k =
        (exit_with exit_error (codes "install requires an artifact argument"), k)
    install_given (c ∷ s) stop k = let (e, m, k') = install_artifact (c ∷ s) stop k in (e, k')

    -- `InstallAction::Execute`
    unfoldable pub install_execute : Pool → Sink → Error × Sink
    install_execute pool k = install_given pool.artifact pool.stop_before k

    -- `Execute`, but for the log.
    unfoldable pub execute : Action → Pool → Sink → Error × Sink
    execute show_artifact pool k = show_execute k
    execute check_update pool k = check_execute k
    execute install pool k = install_execute pool k
    execute commit pool k = commit_execute k
    execute rollback pool k = rollback_execute k
    execute help pool k = help_execute pool k

    module _ (log_sink : LogSink) where
      open log_sink use {Out}

      -- What `Main` leaves: the pool, the output and the log.
      pub record Left : Type 0 where
        pub status : ℕ
        pub pool : Pool
        pub out : Sink
        pub log : Logger Out

      unfoldable pub logged : Action → Logger Out → Logger Out
      logged check_update g = log_at log_sink g Level.info (some (codes "checking for updates"))
      logged _ g = g

      abbrev pub diagnosis : Error → Bytes
      diagnosis e = name_of e.category ++ (codes ": " ++ e.message)

      abbrev pub carried_out : Result Action × Pool → Sink → Logger Out → Left
      carried_out (err e, pool) k g = record {
        status = exit_error;
        pool = pool;
        out = (print_cli_help writer app k).1;
        log = log_at log_sink g Level.error (some (diagnosis e));
      }
      carried_out (ok action, pool) k g =
          let (e, k') = execute action pool k in
          record { status = exit_status e; pool = pool; out = k'; log = logged action g }

      abbrev pub when_parsed : Option (Result Action × Pool) → Sink → Logger Out → Option Left
      when_parsed none k g = none
      when_parsed (some r) k g = some (carried_out r k g)

      -- `Main`, on fuel for the walk over the arguments.
      unfoldable pub main : ℕ → List Bytes → Pool → Sink → Logger Out → Option Left
      main f argv pool k g = when_parsed (parse_arguments f argv pool) k g
