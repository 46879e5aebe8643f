-- ===== src/Io/Tests.antt =====
-- Witnesses for the io module.
use cpp_template.Base.{◌≡◌, refl, some, codes, drop, replicate, arith}
use cpp_template.Core.{ok}
use cpp_template.Crypto.Sha256.{fresh}
use cpp_template.Crypto.Sha256.Standard.{sha256}
use cpp_template.Io.Into.{Transferred, copy-Transferred}
use cpp_template.Io.{SpanWriter, span_writer, copy, SpanReader, span_reader, hash_stream}
use cpp_template.Io.Hash.{hash_stream-sha256}

abbrev view : SpanReader
view = record { contents = codes "The quick brown fox"; pos = 4 }

hash_stream-sha256_example :
    hash_stream span_reader 16 view (fresh (replicate 64 3)) (replicate 4 0)
    ≡ some (ok (sha256 (drop 4 (codes "The quick brown fox"))))
hash_stream-sha256_example =
    hash_stream-sha256 16 view (replicate 64 3) (replicate 4 0) refl (omega arith) (omega arith)

abbrev target : SpanWriter
target = record { buffer = replicate 20 7; pos = 2 }

copy-Transferred_example :
    Transferred view target (copy span_reader span_writer 16 view target (replicate 4 0))
copy-Transferred_example =
    copy-Transferred 16 view target (replicate 4 0) (omega arith) (omega arith) (omega arith)
      (omega arith)
