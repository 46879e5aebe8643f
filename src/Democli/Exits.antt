-- ===== src/Democli/Exits.antt =====
-- `Main` ends on every command line, with one of the exit codes of `enum ExitCode`.
use cpp_template.Base.{
  ℕ, zero, suc, ◌<◌, Option, none, some, List, [], ◌∷◌, Bytes, codes, ◌≡◌, refl, ap, ◌⊎◌, inl, inr,
  arith, length, if_intro, ◌||◌, same,
}
use cpp_template.Core.{Result, ok, err, Status, fail, error_ok, make}
use cpp_template.Conf.{
  CliCommand, OptionValue, CmdlineOptionsIterator, next, iterator, find_command,
}
use cpp_template.Conf.Progress.{unread, next-Moves}
use cpp_template.Conf.Help.{
  put_all, print_cli_help, print_cli_command_help, help_parts, command_help_parts, print_found,
}
use cpp_template.Io.{Writer}
use cpp_template.Log.{LogSink, Logger}
use cpp_template.Sm.{Engine}
use cpp_template.Democli.{
  app, Action, show_artifact, check_update, install, commit, rollback, help, Pool, Given,
  nothing_given, take_value, on_with, on_next, walk_given, any_help_flag, when_walked, when_found,
  parse_arguments, is_help_flag,
}
use cpp_template.Democli.Actions.{
  exit_status, show_execute, check_execute, commit_execute, rollback_execute, help_execute,
  help_on_command, general_help, command_help, install_execute, install_given, execute, main, Left,
  carried_out, when_parsed,
}
use cpp_template.Democli.Phases.{install_artifact-Phases}

abbrev Returned {ℓ} : {A : Type ℓ} → Option A → Type ℓ
Returned {A} o = (a : A) × (o ≡ some a)

on_with-Returned :
    (loop : Given → Option (Result Given)) (r : Result Given)
    → ((g : Given) → Returned (loop g))
    → Returned (on_with loop r)
on_with-Returned loop (err e) h = (err e, refl)
on_with-Returned loop (ok g) h = h g

on_next-Returned :
    (loop : Given → Option (Result Given)) (r : Result (Option OptionValue)) (g : Given)
    → (r ≡ ok none) ⊎ ((g : Given) → Returned (loop g))
    → Returned (on_next loop r g)
on_next-Returned loop (err e) g h = (err e, refl)
on_next-Returned loop (ok none) g h = (ok g, refl)
on_next-Returned loop (ok (some v)) g (inl h) = cc
on_next-Returned loop (ok (some v)) g (inr h) = on_with-Returned loop (take_value v g) h

walk_given-Returned :
    (f : ℕ) (it : CmdlineOptionsIterator) (g : Given) → unread it < f → Returned (walk_given f it g)
unfolding walk_given
walk_given-Returned zero it g h = absurd (omega arith)
walk_given-Returned (suc f) it g h =
    on_next-Returned (walk_given f (next it).1) (next it).0 g (elim (next-Moves it) [
      | inl over ↦ inl over
      | inr less ↦ inr (λ g'. walk_given-Returned f (next it).1 g' (omega arith))
    ])

when_walked-Returned :
    (name : Bytes) (pool : Pool) (o : Option (Result Given))
    → Returned o
    → Returned (when_walked name pool o)
when_walked-Returned name pool none (a, h) = cc
when_walked-Returned name pool (some (err e)) h = (_, refl)
when_walked-Returned name pool (some (ok g)) h = (_, refl)

when_found-Returned :
    (f : ℕ) (name : Bytes) (rest : List Bytes) (pool : Pool) (o : Option CliCommand)
    → length rest < f
    → Returned (when_found f name rest pool o)
when_found-Returned f name rest pool none h = (_, refl)
when_found-Returned f name rest pool (some c) h =
    if_intro {A = Option (Result Action × Pool)} Returned (any_help_flag rest) (λ e. (_, refl))
      (λ e.
        when_walked-Returned name pool (walk_given f (iterator rest c) nothing_given)
          (walk_given-Returned f (iterator rest c) nothing_given (omega arith)))

parse_arguments-Returned :
    (argv : List Bytes) (pool : Pool) → Returned (parse_arguments (suc (length argv)) argv pool)
unfolding parse_arguments
parse_arguments-Returned [] pool = (_, refl)
parse_arguments-Returned (program ∷ []) pool = (_, refl)
parse_arguments-Returned (program ∷ name ∷ rest) pool =
    if_intro {A = Option (Result Action × Pool)} Returned
      (is_help_flag name || same name (codes "help")) (λ e. (_, refl))
      (λ e. when_found-Returned _ name rest pool (find_command name app.commands) (omega arith))

-- The exit codes that `enum ExitCode` names.
abbrev pub ExitCode : ℕ → Type 0
ExitCode n = (n ≡ 0) ⊎ ((n ≡ 1) ⊎ ((n ≡ 2) ⊎ (n ≡ 4)))

module _ (writer : Writer)
    (never_fails : (k : writer.Sink) (src : Bytes) → (writer.write k src).0 ≡ ok tt) where
  open writer use {Sink, write}

  put_all_ok : (ss : List Bytes) (k : Sink) → (put_all writer ss k).0 ≡ ok tt
  unfolding put_all
  put_all_ok [] k = refl
  put_all_ok (s ∷ ss) k = rw (never_fails k s, put_all) (put_all_ok ss (write k s).1)

  general_ok : (r : Status × Sink) → r.0 ≡ ok tt → exit_status (general_help writer r).0 ≡ 0
  unfolding exit_status error_ok
  general_ok (ok u, k) h = refl
  general_ok (err e, k) h = cc

  command_ok : (r : Status × Sink) → r.0 ≡ ok tt → exit_status (command_help writer r).0 ≡ 0
  unfolding exit_status error_ok
  command_ok (ok u, k) h = refl
  command_ok (err e, k) h = cc

  command-ExitCode :
      (name : Bytes) (o : Option CliCommand) (k : Sink)
      → ExitCode (exit_status (command_help writer (print_found writer app name o k)).0)
  command-ExitCode name none k = inr (inl (unfold exit_status error_ok fail make in refl))
  command-ExitCode name (some c) k = inl (command_ok _ (put_all_ok (command_help_parts app c) k))

  help-ExitCode :
      (name : Bytes) (k : Sink) → ExitCode (exit_status (help_on_command writer name k).0)
  unfolding print_cli_help print_cli_command_help
  help-ExitCode [] k = inl (general_ok _ (put_all_ok (help_parts app) k))
  help-ExitCode (c ∷ s) k = command-ExitCode (c ∷ s) (find_command (c ∷ s) app.commands) k

  module _ (engine : Engine) where
    install-ExitCode :
        (artifact stop : Bytes) (k : Sink)
        → ExitCode (exit_status (install_given writer engine artifact stop k).0)
    install-ExitCode [] stop k = inr (inl (unfold exit_status error_ok make in refl))
    install-ExitCode (c ∷ s) stop k = elim (install_artifact-Phases writer engine (c ∷ s) stop k) [
      | inl a ↦ inl a.1
      | inr (inl a) ↦ inl a.1
      | inr (inr (inl a)) ↦ inl a.1
      | inr (inr (inr a)) ↦ inr (inr (inr a.3))
    ]

    execute-ExitCode :
        (action : Action) (pool : Pool) (k : Sink)
        → ExitCode (exit_status (execute writer engine action pool k).0)
    unfolding execute show_execute check_execute commit_execute rollback_execute help_execute
        install_execute exit_status error_ok make
    execute-ExitCode show_artifact pool k = inl refl
    execute-ExitCode check_update pool k = inl refl
    execute-ExitCode install pool k = install-ExitCode pool.artifact pool.stop_before k
    execute-ExitCode commit pool k = inr (inr (inl refl))
    execute-ExitCode rollback pool k = inr (inr (inl refl))
    execute-ExitCode help pool k = help-ExitCode pool.command k

    carried_out-ExitCode :
        (log_sink : LogSink) (r : Result Action × Pool) (k : Sink) (g : Logger log_sink.Out)
        → ExitCode (carried_out writer engine log_sink r k g).status
    carried_out-ExitCode log_sink (err e, pool) k g = inr (inl refl)
    carried_out-ExitCode log_sink (ok action, pool) k g = execute-ExitCode action pool k

    -- `Main` ends on every command line, whatever earlier calls left in the actions, and returns
    -- one of the exit codes 0, 1, 2 and 4, if every write to its output succeeds; one round more of
    -- the walk over the arguments than there are of them is enough.
    pub main-ExitCode :
        (log_sink : LogSink) (argv : List Bytes) (pool : Pool) (k : Sink) (g : Logger log_sink.Out)
        → (left : Left writer engine log_sink) × (main writer engine log_sink
              (suc (length argv))
              argv
              pool
              k
              g
            ≡ some left)
          × ExitCode left.status
    unfolding main
    main-ExitCode log_sink argv pool k g =
        let (r, h) = parse_arguments-Returned argv pool in
        (
          carried_out writer engine log_sink r k g,
          ap (λ o. when_parsed writer engine log_sink o k g) h,
          carried_out-ExitCode log_sink r k g,
        )
