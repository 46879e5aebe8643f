-- ===== src/Democli/Tests.antt =====
-- The demo program over a plain dispatcher, with a writer that counts.
use cpp_template.Base.{
  ℕ, suc, ◌≡◌, ◌≢◌, refl, ◌⊎◌, some, none, Option, List, [], ◌∷◌, ◌++◌, Bytes, codes, same, length,
  false,
}
use cpp_template.Core.{Category, ok, fail}
use cpp_template.Io.{counting_writer, counting_write}
use cpp_template.Log.{silent, stderr_sink}
use cpp_template.Sm.{StateId, download, verify, await_commit}
use cpp_template.Sm.Plain.{plain}
use cpp_template.Conf.{starts_with_dash_dash, find_option, find_command, next}
use cpp_template.Conf.Walk.{Item, Names, tokens}
use cpp_template.Conf.Line.{all_tokens, terminated, meanings, arguments}
use cpp_template.Democli.{
  new_pool, install_command, stop_before_option, install, set_artifact, unless_blank, too_many_args,
  parse_arguments, any_help_flag, is_help_flag, walk_given, dispatch,
}
use cpp_template.Democli.Actions.{
  install_artifact, exit_status, execute, show_execute, puts, main, Left, CFile, file_writer,
}
use cpp_template.Democli.Parsed.{plain_texts, last_stop, parse_arguments-install}
use cpp_template.Democli.Phases.{install_artifact-Phases}
use cpp_template.Democli.Exits.{ExitCode, main-ExitCode}

install_artifact-Phases_example :
    let (e, m, k') = install_artifact counting_writer plain (codes "image") (codes "verify") 0 in
    ((codes "verify" ≡ codes "download") × (exit_status e ≡ 0) × (m ≡ download))
    ⊎ (((codes "verify" ≡ codes "verify") × (exit_status e ≡ 0) × (m ≡ verify))
        ⊎ (((codes "verify" ≡ codes "install") × (exit_status e ≡ 0) × (m ≡ StateId.install))
            ⊎ ((codes "verify" ≢ codes "download")
                × (codes "verify" ≢ codes "verify")
                × (codes "verify" ≢ codes "install")
                × (exit_status e ≡ 4)
                × (m ≡ await_commit))))
install_artifact-Phases_example =
    install_artifact-Phases counting_writer plain (codes "image") (codes "verify") 0

counting_never_fails : (k : ℕ) (src : Bytes) → (counting_write k src).0 ≡ ok tt
unfolding counting_write
counting_never_fails k src = refl

abbrev line : List Bytes
line = codes "democli" ∷ codes "commit" ∷ codes "--stop-before" ∷ codes "Done" ∷ []

main-ExitCode_example :
    (left : Left counting_writer plain stderr_sink) × (main counting_writer plain stderr_sink 5 line
        new_pool 0 silent
      ≡ some left)
    × ExitCode left.status
main-ExitCode_example =
    main-ExitCode counting_writer counting_never_fails plain stderr_sink line new_pool 0 silent

stop_before-Names :
    Names install_command (stop_before_option (codes "Halt the workflow before STATE"))
unfolding find_option starts_with_dash_dash same
stop_before-Names = record {
  listed = refl;
  dashes = refl;
  no_equals = (
    refl,
    (
      refl,
      (refl, (refl, (refl, (refl, (refl, (refl, (refl, (refl, (refl, (refl, (refl, tt))))))))))),
    ),
  );
  longer = refl;
}

has_parameter : codes "STATE" ≢ []
has_parameter h = cc

abbrev items : List (Item install_command)
items =
    Item.spaced (stop_before_option (codes "Halt the workflow before STATE")) stop_before-Names
      has_parameter (codes "verify")
    ∷ []

abbrev image : Option (List Bytes)
image = some (codes "image" ∷ [])

quiet : any_help_flag (all_tokens items ++ terminated image) ≡ false
unfolding any_help_flag is_help_flag all_tokens tokens same
quiet = refl

parse_arguments-install_example :
    let vs = meanings items ++ arguments image in
    let r =
      parse_arguments
        (suc (length (all_tokens items ++ terminated image)))
        (codes "democli" ∷ codes "install" ∷ (all_tokens items ++ terminated image))
        new_pool in
    ((plain_texts vs ≡ []) × (r ≡ some (ok install, unless_blank (last_stop vs []) new_pool)))
    ⊎ (((a : Bytes) × (plain_texts vs ≡ a ∷ [])
          × (r ≡ some (ok install, unless_blank (last_stop vs []) (set_artifact new_pool a))))
        ⊎ ((a : Bytes) × (b : Bytes) × (ps : List Bytes) × (plain_texts vs ≡ a ∷ b ∷ ps)
            × (r
                ≡ some (
                  fail Category.conf too_many_args (codes "unexpected extra argument"),
                  new_pool,
                ))))
parse_arguments-install_example =
    parse_arguments-install (codes "democli") items image new_pool quiet

-- A file that takes all it is given.
abbrev paper : CFile
paper = record { Stream = Bytes; fwrite = λ s src. (length src, s ++ src) }

abbrev printed : Option (Left (file_writer paper) plain stderr_sink) → Option Bytes
printed none = none
printed (some left) = some left.out

show_runs :
    printed (
      main
        (file_writer paper)
        plain
        stderr_sink
        1
        (codes "democli" ∷ codes "show-artifact" ∷ [])
        new_pool
        []
        silent)
    ≡ some (codes "artifact: device-image-1.0.0" ++ 10 ∷ [])
unfolding main parse_arguments is_help_flag same find_command any_help_flag walk_given next dispatch
    execute show_execute puts
show_runs = refl
