-- ===== src/Log/Tests.antt =====
-- The sink of the host, and its output.
use cpp_template.Base.{◌≤◌, ◌<◌, some, none, [], ◌∷◌, ◌++◌, Bytes, codes, ◌≡◌, refl, ◌⊎◌, take}
use cpp_template.Log.{
  Logger, level_number, info, warn, stderr_sink, stderr_write, up_to_null, level_tag, log_at, logf,
  line_length, set_level, set_sink, silent,
}
use cpp_template.Log.Lines.{log_at_lem}

-- The set-up of the demo program.
abbrev host : Logger Bytes
host = set_level (set_sink silent (some [])) info

info_line :
    (log_at stderr_sink host info (some (codes "checking")))
    ≡ record { sink = some (codes "[INFO] checking" ++ 10 ∷ []); level = info }
unfolding log_at logf level_number line_length stderr_write level_tag up_to_null
info_line = refl

log_at_lem_example :
    ((out : Bytes) × (whole : Bytes) × (host.sink ≡ some out)
      × (some (codes "a line") ≡ some whole)
      × (level_number warn ≤ level_number host.level)
      × (log_at stderr_sink host warn (some (codes "a line"))
          ≡ record { sink = some (stderr_write out warn (take 127 whole)); level = host.level }))
    ⊎ (((host.sink ≡ none)
          ⊎ ((some (codes "a line") ≡ none) ⊎ (level_number host.level < level_number warn)))
        × (log_at stderr_sink host warn (some (codes "a line")) ≡ host))
log_at_lem_example = log_at_lem stderr_sink host warn (some (codes "a line"))
