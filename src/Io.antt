-- ===== src/Io.antt =====
-- include/etlx/io/io.hpp and src/io/io.cpp, with include/etlx/crypto/stream.hpp. A reader or a
-- writer is a state and the function that its virtual member is.
pub mod Copy
pub mod Hash
pub mod Into
mod Tests
use cpp_template.Base.{
  ℕ, zero, suc, ◌+◌, ◌-◌, ◌%◌, ◌^◌, min, Bool, true, false, Option, none, some, [], ◌∷◌, ◌++◌,
  Bytes, codes, length, take, drop, ltb, ◌==◌, if◌then◌else◌,
}
use cpp_template.Core.{Category, Result, ok, err, fail, Status}
use cpp_template.Crypto.Sha256.{Sha256, update, final, result_of}

-- `enum Code`
abbrev pub short_write : ℕ
short_write = 2

abbrev pub out_of_range : ℕ
out_of_range = 3

-- `Read` is given the view `dst` with its bytes, and leaves them as it wrote them.
pub record Reader : Type 1 where
  pub Source : Type 0
  pub read : Source → Bytes → Result ℕ × Source × Bytes

pub record Writer : Type 1 where
  pub Sink : Type 0
  pub write : Sink → Bytes → Status × Sink

pub record SpanReader : Type 0 where
  pub contents : Bytes
  pub pos : ℕ

abbrev pub remaining : SpanReader → ℕ
remaining r = length r.contents - r.pos

-- `SpanReader::Read`
unfoldable pub span_read : SpanReader → Bytes → Result ℕ × SpanReader × Bytes
span_read r dst =
    let n = min (length dst) (remaining r) in
    if ltb 0 n
    then (ok n, record r { pos = r.pos + n }, take n (drop r.pos r.contents) ++ drop n dst)
    else (ok n, r, dst)

pub record SpanWriter : Type 0 where
  pub buffer : Bytes
  pub pos : ℕ

-- `SpanWriter::Write`
unfoldable pub span_write : SpanWriter → Bytes → Status × SpanWriter
span_write w src =
    if ltb (length w.buffer - w.pos) (length src)
    then (fail Category.io short_write (codes "SpanWriter buffer full"), w)
    else (
      ok tt,
      record {
        buffer = take w.pos w.buffer ++ (src ++ drop (w.pos + length src) w.buffer);
        pos = w.pos + length src;
      },
    )

-- `CountingWriter::Write`, on `count_`.
unfoldable pub counting_write : ℕ → Bytes → Status × ℕ
counting_write count src = (ok tt, (count + length src) % 2 ^ 64)

abbrev pub span_reader : Reader
span_reader = record { Source = SpanReader; read = span_read }

abbrev pub span_writer : Writer
span_writer = record { Sink = SpanWriter; write = span_write }

abbrev pub counting_writer : Writer
counting_writer = record { Sink = ℕ; write = counting_write }

module _ (a b : Writer) where
  -- `TeeWriter::Write`, behind the first write.
  unfoldable pub tee_second : Status × a.Sink → b.Sink → Bytes → Status × a.Sink × b.Sink
  tee_second (err e, sa) sb src = (err e, sa, sb)
  tee_second (ok u, sa) sb src = ((b.write sb src).0, sa, (b.write sb src).1)

  unfoldable pub tee_write : a.Sink × b.Sink → Bytes → Status × a.Sink × b.Sink
  tee_write (sa, sb) src = tee_second (a.write sa src) sb src

-- `HasherWriter` on a SHA-256 object.
abbrev pub hasher_writer : Writer
hasher_writer = record { Sink = Sha256; write = update }

module _ (reader : Reader) (writer : Writer) where
  open reader use {Source, read}
  open writer use {Sink, write}

  -- What `Copy` returns, with the reader, the writer and the scratch buffer.
  pub record Copied : Type 0 where
    pub result : Result ℕ
    pub source : Source
    pub sink : Sink
    pub scratch : Bytes

  -- The loop of `Copy`, on fuel; `none` where it goes on.
  unfoldable pub copy_loop : ℕ → Source → Sink → Bytes → ℕ → Option Copied
  copy_loop zero s k scratch total = none
  copy_loop (suc f) s k scratch total =
      let (r, s', scratch') = read s scratch in
      elim r [
        | err e ↦ some (record { result = err e; source = s'; sink = k; scratch = scratch' })
        | ok n ↦ elim (n == 0) [
          | true ↦ some (record { result = ok total; source = s'; sink = k; scratch = scratch' })
          | false ↦
              let (w, k') = write k (take n scratch') in
              elim w [
                | err e ↦
                    some (record { result = err e; source = s'; sink = k'; scratch = scratch' })
                | ok u ↦ copy_loop f s' k' scratch' ((total + n) % 2 ^ 64)
              ]
        ]
      ]

  unfoldable pub copy : ℕ → Source → Sink → Bytes → Option Copied
  copy f s k [] = some (record {
    result = fail Category.io out_of_range (codes "Copy needs a non-empty scratch buffer");
    source = s;
    sink = k;
    scratch = [];
  })
  copy f s k (x ∷ xs) = copy_loop f s k (x ∷ xs) 0

module _ (reader : Reader) where
  open reader use {Source}

  abbrev pub finish_stream : Option (Copied reader hasher_writer) → Option (Result Bytes)
  finish_stream none = none
  finish_stream (some c) = elim c.result [ err e ↦ some (err e) | ok n ↦ result_of (final c.sink) ]

  -- `HashStream`
  unfoldable pub hash_stream : ℕ → Source → Sha256 → Bytes → Option (Result Bytes)
  hash_stream f s h scratch = finish_stream (copy reader hasher_writer f s h scratch)
