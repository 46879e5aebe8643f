-- ===== src/Conf/Help/Print.antt =====
-- The help texts in a buffer.
use cpp_template.Base.{
  ◌+◌, ◌-◌, ◌≤◌, none, some, List, [], ◌∷◌, ◌++◌, ◌≡◌, refl, sym, ap, subst, ◌⊎◌, inl, inr, Bytes,
  length, arith, Option-cases, append_assoc, append-nil, length-append,
}
use cpp_template.Core.{Category, ok, fail}
use cpp_template.Io.{SpanWriter, span_writer, span_write}
use cpp_template.Io.Into.{Written, Written-span_write, Written-start}
use cpp_template.Conf.{CliApp, CliCommand, find_command}
use cpp_template.Conf.Help.{
  unknown_command, help_parts, command_help_parts, put_all, print_found, print_cli_help,
  print_cli_command_help,
}

-- The parts of a text, joined.
unfoldable pub joined : List Bytes → Bytes
joined [] = []
joined (s ∷ ss) = s ++ joined ss

put_all-Written :
    (w : SpanWriter) (ss : List Bytes) (t : Bytes) (k : SpanWriter)
    → w.pos ≤ length w.buffer
    → length t + length (joined ss) ≤ length w.buffer - w.pos
    → Written w t k
    → ((put_all span_writer ss k).0 ≡ ok tt)
      × Written w (t ++ joined ss) (put_all span_writer ss k).1
unfolding put_all joined
put_all-Written w [] t k p room h = (refl, subst (λ l. Written w l k) (sym (append-nil t)) h)
put_all-Written w (s ∷ ss) t k p room h =
    let (taken, h') = Written-span_write w t s k p (omega (arith, length-append s (joined ss))) h in
    let (done, h'') =
      put_all-Written w ss (t ++ s) (span_write k s).1 p
        (omega (arith, length-append s (joined ss), length-append t s)) h' in
    rw (taken, put_all)
      (
        done,
        subst (λ l. Written w l (put_all span_writer ss (span_write k s).1).1)
            (append_assoc t s (joined ss)) h'',
      )

-- `PrintCliHelp` into a buffer with room for it succeeds, and the buffer holds its parts, joined,
-- behind what was written before, and is otherwise as it was.
print_cli_help-Written :
    (app : CliApp) (w : SpanWriter)
    → w.pos ≤ length w.buffer
    → length (joined (help_parts app)) ≤ length w.buffer - w.pos
    → ((print_cli_help span_writer app w).0 ≡ ok tt)
      × Written w (joined (help_parts app)) (print_cli_help span_writer app w).1
unfolding print_cli_help
print_cli_help-Written app w p room =
    put_all-Written w (help_parts app) [] w p (omega arith) (Written-start w)

-- `PrintCliCommandHelp` of a name that the app has not returns `UnknownCommand` and writes nothing;
-- of a command, into a buffer with room for it, it succeeds, and the buffer holds the parts of the
-- command's help, joined, behind what was written before, and is otherwise as it was.
print_cli_command_help-Written :
    (app : CliApp) (command : Bytes) (w : SpanWriter)
    → w.pos ≤ length w.buffer
    → ((c : CliCommand)
        → find_command command app.commands ≡ some c
        → length (joined (command_help_parts app c)) ≤ length w.buffer - w.pos)
    → ((find_command command app.commands ≡ none)
        × (print_cli_command_help span_writer app command w
            ≡ (fail Category.conf unknown_command command, w)))
      ⊎ ((c : CliCommand) × (find_command command app.commands ≡ some c)
          × ((print_cli_command_help span_writer app command w).0 ≡ ok tt)
          × Written w
              (joined (command_help_parts app c))
              (print_cli_command_help span_writer app command w).1)
unfolding print_cli_command_help
print_cli_command_help-Written app command w p room =
    elim (Option-cases (find_command command app.commands)) [
      | inl absent ↦ inl (absent, ap (λ o. print_found span_writer app command o w) absent)
      | inr (c, found) ↦
          let (done, written) =
            put_all-Written w (command_help_parts app c) [] w p (omega (arith, room c found))
              (Written-start w) in
          inr (c, found, rw found done, rw found written)
    ]
