-- ===== src/Se/Keyfile.antt =====
-- ports/se05x/scp03_keyfile.cpp: the file of the secure channel's keys. A file system is a function
-- from a path to a file's bytes.
mod Lines
pub mod Saved
pub mod Rotate
mod Tests
mod Text
use cpp_template.Base.{
  ℕ, zero, suc, ◌+◌, ◌-◌, ◌*◌, ◌/◌, ◌%◌, Bool, true, false, not, ◌&&◌, ◌||◌, Option, none, some,
  List, [], ◌∷◌, ◌++◌, Bytes, codes, length, take, drop, same, ltb, leb, ◌==◌, get_or,
  if◌then◌else◌,
}
use cpp_template.Core.{Result, ok, err, Status}
use cpp_template.Se.{se_fail, read_failed, write_failed}
use cpp_template.Se.Rotation.{KeySet}

-- What one `sscanf` makes of the text at a place of the line; `past_end` is a read past the buffer.
pub data HexScan : Type 0 where
  got : ℕ → HexScan
  no_match past_end : HexScan

-- The value of a hexadecimal digit.
unfoldable pub digit : ℕ → Option ℕ
digit c =
    if leb 48 c && leb c 57
    then some (c - 48)
    else if leb 97 c && leb c 102
    then some (c - 87)
    else if leb 65 c && leb c 70
    then some (c - 55)
    else none

abbrev pub signed_digit : (ℕ → ℕ) → Bytes → HexScan
signed_digit f [] = past_end
signed_digit f (c ∷ s) = elim (digit c) [ none ↦ no_match | some v ↦ got (f v) ]

-- The second of the two characters; "0x" alone is no number.
abbrev pub second_as : ℕ → ℕ → ℕ → Option ℕ → HexScan
second_as c v d (some w) = got (16 * v + w)
second_as c v d none = if c == 48 && (d == 120 || d == 88) then no_match else got v

abbrev pub second_digit : ℕ → ℕ → Bytes → HexScan
second_digit c v [] = past_end
second_digit c v (d ∷ s) = second_as c v d (digit d)

-- `sscanf` of "%02x", cast to a byte.
abbrev pub first_as : ℕ → Bytes → Option ℕ → HexScan
first_as c s (some v) = second_digit c v s
first_as c s none =
    if c == 43
    then signed_digit (λ v. v) s
    else if c == 45
    then signed_digit (λ v. (256 - v) % 256) s
    else no_match

abbrev pub first_digit : ℕ → Bytes → HexScan
first_digit c s = first_as c s (digit c)

unfoldable pub scan_hex : Bytes → HexScan
scan_hex [] = past_end
scan_hex (c ∷ s) =
    let rest = scan_hex s in if c == 32 || (leb 9 c && leb c 13) then rest else first_digit c s

-- What a search for a key comes to; `stuck` is a read past the buffer.
pub data Found : Type 0 where
  found : Bytes → Found
  missing stuck : Found

abbrev pub with_byte : HexScan → Found → Found
with_byte (got b) (found k) = found (b ∷ k)
with_byte (got b) missing = missing
with_byte (got b) stuck = stuck
with_byte no_match r = missing
with_byte past_end r = stuck

-- `Parse16`, with the number of bytes that are left
unfoldable pub parse_hex : ℕ → Bytes → Found
parse_hex zero p = found []
parse_hex (suc k) p = with_byte (scan_hex p) (parse_hex k (drop 2 p))

-- `fgets`: a line of at most so many bytes, and what is left of the file.
abbrev pub in_line : ℕ → Bytes × Bytes → Bytes × Bytes
in_line c (l, rest) = (c ∷ l, rest)

unfoldable pub get_line : ℕ → Bytes → Bytes × Bytes
get_line zero s = ([], s)
get_line (suc n) [] = ([], [])
get_line (suc n) (c ∷ s) =
    let more = in_line c (get_line n s) in if c == 10 then (c ∷ [], s) else more

-- The buffer after `fgets`: the line, its end, and what was there.
abbrev pub line_buffer : Bytes → Bytes → Bytes
line_buffer l old = l ++ 0 ∷ drop (length l + 1) old

unfoldable pub skip_blanks : Bytes → Bytes
skip_blanks [] = []
skip_blanks (c ∷ s) = let rest = skip_blanks s in if c == 32 || c == 9 then rest else c ∷ s

abbrev pub has_tag : Bytes → Bytes → Bool
has_tag tag p = same (take (length tag) p) tag && get_or p (length tag) 0 == 32

-- The loop of `FindKey`: `old` is what the buffer holds.
abbrev pub on_line : Bytes → Bytes → Found → Found
on_line tag p rest =
    if has_tag tag p then parse_hex 16 (skip_blanks (drop (length tag + 1) p)) else rest

unfoldable pub find_loop : ℕ → Bytes → Bytes → Bytes → Found
find_loop zero tag old s = stuck
find_loop (suc f) tag old [] = missing
find_loop (suc f) tag old (c ∷ cs) =
    let line : Bytes × Bytes = get_line 255 (c ∷ cs) in
    let buffer : Bytes = line_buffer line.0 old in
    on_line tag (skip_blanks buffer) (find_loop f tag buffer line.1)

-- `FindKey`: `junk` is the buffer, which is not initialised.
unfoldable pub find_key : Bytes → Bytes → Option Bytes → Found
find_key junk tag none = missing
find_key junk tag (some s) = find_loop (length s + 1) tag junk s

abbrev pub Files : Type 0
Files = Bytes → Option Bytes

-- `ReadDek`; `none` is a read past the buffer.
abbrev pub dek_found : Found → Option (Result Bytes)
dek_found (found k) = some (ok k)
dek_found missing =
    some (se_fail read_failed (codes "SCP03 key file: DEK line missing or malformed"))
dek_found stuck = none

unfoldable pub read_dek : Bytes → Bytes → Files → Option (Result Bytes)
read_dek junk path files = dek_found (find_key junk (codes "DEK") (files path))

abbrev pub key_or : Found → (Bytes → Option (Result KeySet)) → Option (Result KeySet)
key_or (found k) rest = rest k
key_or missing rest =
    some (se_fail read_failed (codes "SCP03 key file: missing or malformed ENC/MAC/DEK line"))
key_or stuck rest = none

-- `Read`
unfoldable pub read : Bytes → Bytes → Files → Option (Result KeySet)
read junk path files = key_or (find_key junk (codes "ENC") (files path)) (λ e.
    key_or (find_key junk (codes "MAC") (files path)) (λ m.
      key_or (find_key junk (codes "DEK") (files path))
        (λ d. some (ok (record { enc = e; mac = m; dek = d })))))

-- "%02x" of a byte.
abbrev pub digit_char : ℕ → ℕ
digit_char d = if ltb d 10 then 48 + d else 87 + d

abbrev pub hex_bytes : Bytes → Bytes
hex_bytes [] = []
hex_bytes (b ∷ k) = digit_char (b / 16) ∷ digit_char (b % 16) ∷ hex_bytes k

-- `write_key`, before the text of the next.
abbrev pub key_line : Bytes → Bytes → Bytes → Bytes
key_line tag k rest = tag ++ 32 ∷ (hex_bytes k ++ 10 ∷ rest)

abbrev pub keys_text : KeySet → Bytes
keys_text keys =
    key_line (codes "ENC") keys.enc
      (key_line (codes "MAC") keys.mac (key_line (codes "DEK") keys.dek []))

-- What the calls of the C library return to one `Write`: whether the file opens, whether all is
-- printed, and the outcomes of the two renames. `lost` is what the file holds when `fclose` fails to
-- write out what is printed; its result is not looked at.
pub record Calls : Type 0 where
  pub opens : Bool
  pub prints : Bool
  pub lost : Option Bytes
  pub backs_up : Bool
  pub renames : Bool

-- The file behind `fclose`.
abbrev pub on_close : Option Bytes → Bytes → Bytes
on_close none text = text
on_close (some b) text = b

abbrev pub with_file : Bytes → Option Bytes → Files → Files
with_file path o files p = if same p path then o else files p

abbrev pub move_file : Bytes → Bytes → Files → Files
move_file source target files = with_file source none (with_file target (files source) files)

-- `snprintf` of the path and a suffix of four bytes fits its buffer.
abbrev pub path_fits : Bytes → Bool
path_fits path = ltb (length path + 4) 256

abbrev pub temp_path : Bytes → Bytes
temp_path path = path ++ codes ".tmp"

abbrev pub backup_path : Bytes → Bytes
backup_path path = path ++ codes ".bak"

-- The backup of the file that is there.
abbrev pub back_up : Bool → Bool → Bytes → Files → Files
back_up false renamed path files = files
back_up true false path files = with_file (backup_path path) none files
back_up true true path files =
    move_file path (backup_path path) (with_file (backup_path path) none files)

abbrev pub moved : Bool → Bytes → Files → Status × Files
moved true path files = (ok tt, move_file (temp_path path) path files)
moved false path files = (
  se_fail write_failed (codes "scp03_keyfile: rename tmp -> path failed"),
  with_file (temp_path path) none files,
)

abbrev pub keys_printed : Bool → Calls → Bytes → KeySet → Files → Status × Files
keys_printed false calls path keys files = (
  se_fail write_failed (codes "scp03_keyfile: write error"),
  with_file (temp_path path) none files,
)
keys_printed true calls path keys files = moved calls.renames path (
    back_up (path_fits path) calls.backs_up path
      (with_file (temp_path path) (some (on_close calls.lost (keys_text keys))) files))

abbrev pub opened : Bool → Calls → Bytes → KeySet → Files → Status × Files
opened false calls path keys files =
    (se_fail write_failed (codes "scp03_keyfile: cannot open tmp file for writing"), files)
opened true calls path keys files = keys_printed calls.prints calls path keys files

-- `Write`
unfoldable pub write : Calls → Bytes → KeySet → Files → Status × Files
write calls path keys files =
    if path_fits path
    then opened calls.opens calls path keys files
    else (se_fail write_failed (codes "scp03_keyfile: path too long"), files)
