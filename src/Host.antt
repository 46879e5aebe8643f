-- ===== src/Host.antt =====
-- ports/host/host_kv: the store that is kept in a file.
mod Format
mod Tests
use cpp_template.Base.{
  ℕ, zero, suc, ◌+◌, ◌*◌, ◌/◌, ◌%◌, ◌^◌, Bool, true, false, not, ◌||◌, Option, none, some, List, [],
  ◌∷◌, ◌++◌, Bytes, codes, same, length, take, drop, ltb, if◌then◌else◌,
}
use cpp_template.Core.{Category, ok, fail, Status}
use cpp_template.FlatMap.{FlatMap}
use cpp_template.Storage.{io_error, key_capacity, value_capacity, set}

-- `kMagic`
abbrev pub magic : Bytes
magic = codes "EKV1"

-- `PutU16` and `PutU32`: the lowest byte first.
abbrev pub put_u16 : ℕ → Bytes
put_u16 v = v % 256 ∷ v / 2 ^ 8 % 256 ∷ []

abbrev pub put_u32 : ℕ → Bytes
put_u32 v = v % 256 ∷ v / 2 ^ 8 % 256 ∷ v / 2 ^ 16 % 256 ∷ v / 2 ^ 24 % 256 ∷ []

-- `GetU16` and `GetU32`, on what is left of the file; `none` at its end. The shifted bytes do not
-- overlap, so that `|` is a sum.
unfoldable pub get_u16 : Bytes → Option (ℕ × Bytes)
get_u16 (a ∷ b ∷ rest) = some (a + b * 2 ^ 8, rest)
get_u16 _ = none

unfoldable pub get_u32 : Bytes → Option (ℕ × Bytes)
get_u32 (a ∷ b ∷ c ∷ d ∷ rest) = some (a + b * 2 ^ 8 + c * 2 ^ 16 + d * 2 ^ 24, rest)
get_u32 _ = none

-- `fread` of `n` bytes where fewer are an error.
unfoldable pub read_exact : ℕ → Bytes → Option (Bytes × Bytes)
read_exact n file = if ltb (length file) n then none else some (take n file, drop n file)

-- A length within its bound and as many bytes.
abbrev pub read_field : ℕ → Option (ℕ × Bytes) → Option (Bytes × Bytes)
read_field bound none = none
read_field bound (some (n, rest)) = if ltb bound n then none else read_exact n rest

abbrev pub with_key : Bytes → Option (Bytes × Bytes) → Option (Bytes × Bytes × Bytes)
with_key key none = none
with_key key (some (value, rest)) = some (key, value, rest)

abbrev pub read_value : Option (Bytes × Bytes) → Option (Bytes × Bytes × Bytes)
read_value none = none
read_value (some (key, rest)) = with_key key (read_field value_capacity (get_u32 rest))

-- The condition of the loop of `Load`, with what it read.
unfoldable pub read_entry : Bytes → Option (Bytes × Bytes × Bytes)
unfolding read_exact
read_entry file = read_value (read_field key_capacity (get_u16 file))

-- The loop of `Commit`.
unfoldable pub write_entries : List (Bytes × Bytes) → Bytes
write_entries [] = []
write_entries ((key, value) ∷ es) =
    put_u16 (length key % 2 ^ 16)
    ++ (key ++ (put_u32 (length value % 2 ^ 32) ++ (value ++ write_entries es)))

module _ (maps : FlatMap) where
  open maps use {Map, empty, entries}

  -- The loop of `Load`; the status of `Set` is not looked at.
  unfoldable pub load_loop : ℕ → Bytes → Map → Status × Map
  load_loop zero file m = (ok tt, m)
  load_loop (suc n) file m = elim (read_entry file) [
    | none ↦ (fail Category.storage io_error (codes "truncated kv entry"), m)
    | some (key, value, rest) ↦ load_loop n rest (set maps m key value).1
  ]

  unfoldable pub load_header : Option (ℕ × Bytes) → Status × Map
  load_header none = (fail Category.storage io_error (codes "truncated kv header"), empty)
  load_header (some (count, rest)) = load_loop count rest empty

  -- `Load`, on what `fopen` gives: the bytes of the file, or `none` where it does not open the file,
  -- for whatever reason. The map is cleared in every case.
  unfoldable pub load : Option Bytes → Status × Map
  load none = (ok tt, empty)
  load (some file) =
      if same (take 4 file) magic
      then load_header (get_u32 (drop 4 file))
      else (fail Category.storage io_error (codes "bad kv file magic"), empty)

  -- What `Commit` writes.
  unfoldable pub write_all : Map → Bytes
  write_all m = magic ++ (put_u32 (length (entries m) % 2 ^ 32) ++ write_entries (entries m))

-- The file and the temporary file beside it; `none` is a file that does not exist.
pub record Disk : Type 0 where
  pub file : Option Bytes
  pub temp : Option Bytes

-- What the calls of the C library return to one `Commit`: whether the temporary file opens, is
-- flushed, and is renamed, and what it holds when it is not flushed. `lost` is what it holds when
-- `fwrite`, `fputc` or `fclose` has failed and `fflush` has not; their results are not looked at.
pub record Host : Type 0 where
  pub opens : Bool
  pub flushes : Bool
  pub renames : Bool
  pub half_written : Bytes
  pub lost : Option Bytes

-- What the temporary file holds when it is closed.
abbrev pub at_close : Option Bytes → Bytes → Bytes
at_close none text = text
at_close (some b) text = b

module _ (maps : FlatMap) where
  open maps use {Map}

  -- `Commit`
  unfoldable pub commit : Host → Disk → Map → Status × Disk
  commit host disk m =
      if not host.opens
      then (fail Category.storage io_error (codes "cannot open temp kv file"), disk)
      else if not host.flushes
      then (
        fail Category.storage io_error (codes "kv write failed"),
        record disk { temp = some host.half_written },
      )
      else if not host.renames
      then (
        fail Category.storage io_error (codes "kv rename failed"),
        record disk { temp = some (at_close host.lost (write_all maps m)) },
      )
      else (ok tt, record disk { file = some (at_close host.lost (write_all maps m)); temp = none })
