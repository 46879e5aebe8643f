-- ===== src/Log.antt =====
-- include/etlx/log/log.hpp and src/log/log.cpp, with the sink of ports/host/host_io.cpp. The
-- formatting is the C library's: what `vsnprintf` makes of a call is an argument, the whole text,
-- or nothing on an encoding error.
mod Lines
mod Tests
use cpp_template.Base.{
  ℕ, ◌+◌, ◌-◌, Bool, true, false, Option, none, some, List, [], ◌∷◌, ◌++◌, Bytes, codes, length,
  take, ltb, leb, if◌then◌else◌,
}

pub data Level : Type 0 where
  off error warn info debug : Level

-- The numbers of `enum class Level`.
unfoldable pub level_number : Level → ℕ
level_number off = 0
level_number error = 1
level_number warn = 2
level_number info = 3
level_number debug = 4

-- ETLX_LOG_LINE_CAPACITY
abbrev pub line_capacity : ℕ
line_capacity = 128

-- ETLX_LOG_LEVEL
abbrev pub compiled_level : ℕ
compiled_level = 4

-- `Sink`, its state and its virtual member.
pub record LogSink : Type 1 where
  pub Out : Type 0
  pub write_line : Out → Level → Bytes → Out

-- `g_sink`, with what stands behind the pointer, and `g_level`.
pub record Logger (Out : Type 0) : Type 0 where
  pub sink : Option Out
  pub level : Level

abbrev pub silent : {Out : Type 0} → Logger Out
silent = record { sink = none; level = debug }

-- `SetSink`
abbrev pub set_sink : {Out : Type 0} → Logger Out → Option Out → Logger Out
set_sink g sink = record g { sink = sink }

-- `SetLevel`
abbrev pub set_level : {Out : Type 0} → Logger Out → Level → Logger Out
set_level g level = record g { level = level }

-- What `vsnprintf` leaves in front of the null byte, in a buffer of `size` bytes.
abbrev pub in_buffer : ℕ → Bytes → Bytes
in_buffer size text = take (size - 1) text

-- `len`, from the `n` that `vsnprintf` returns.
unfoldable pub line_length : ℕ → ℕ
line_length n = if ltb n line_capacity then n else line_capacity - 1

module _ (log_sink : LogSink) where
  open log_sink use {Out, write_line}

  abbrev pub write_text : Logger Out → Out → Level → Option Bytes → Logger Out
  write_text g out level none = g
  write_text g out level (some text) = record g {
    sink =
        some
          (write_line out level (take (line_length (length text)) (in_buffer line_capacity text)));
  }

  -- `Logf`, behind the test of the sink.
  abbrev pub with_sink : Logger Out → Option Out → Level → Option Bytes → Logger Out
  with_sink g none level text = g
  with_sink g (some out) level text =
      if ltb (level_number g.level) (level_number level) then g else write_text g out level text

  -- `Logf`
  unfoldable pub logf : Logger Out → Level → Option Bytes → Logger Out
  logf g level text = with_sink g g.sink level text

  -- ETLX_LOG_AT
  unfoldable pub log_at : Logger Out → Level → Option Bytes → Logger Out
  log_at g level text = if leb (level_number level) compiled_level then logf g level text else g

unfoldable pub level_tag : Level → Bytes
level_tag error = codes "ERROR"
level_tag warn = codes "WARN"
level_tag info = codes "INFO"
level_tag debug = codes "DEBUG"
level_tag off = codes "NONE"

-- What `StderrLogSink::Write` prints, behind all that was printed before. `%.*s` prints the line up
-- to its length or to its first null byte.
unfoldable pub up_to_null : Bytes → Bytes
up_to_null [] = []
up_to_null (c ∷ s) = if ltb 0 c then c ∷ up_to_null s else []

unfoldable pub stderr_write : Bytes → Level → Bytes → Bytes
stderr_write printed level line =
    printed ++ (codes "[" ++ (level_tag level ++ (codes "] " ++ (up_to_null line ++ 10 ∷ []))))

abbrev pub stderr_sink : LogSink
stderr_sink = record { Out = Bytes; write_line = stderr_write }
