-- ===== src/Se/Keyfile/Tests.antt =====
-- A key file that is written over an older one and read back.
use cpp_template.Base.{
  arith, ℕ, ◌+◌, true, false, none, some, [], Bytes, codes, replicate, same, if◌then◌else◌, ◌≡◌,
  refl,
}
use cpp_template.Core.{ok}
use cpp_template.Se.Rotation.{KeySet}
use cpp_template.Se.Keyfile.{
  found, digit, scan_hex, parse_hex, get_line, skip_blanks, find_loop, find_key, Files, read, write,
  Calls,
}
use cpp_template.Se.Keyfile.Saved.{IsKeySet, write-read}

abbrev key_set_from : ℕ → KeySet
key_set_from n = record {
  enc = replicate 16 n;
  mac = replicate 16 (n + 60);
  dek = replicate 16 (n + 120);
}

abbrev key_path : Bytes
key_path = codes "/keys"

abbrev old_files : Files
old_files p = if same p key_path then some (codes "DEK 00") else none

abbrev no_backup : Calls
no_backup = record { opens = true; prints = true; lost = none; backs_up = false; renames = true }

-- A line without its end whose digits are too few: the search goes on in what the buffer holds.
short_line :
    find_key (replicate 256 48) (codes "DEK") (some (codes "DEK 0")) ≡ found (replicate 16 0)
unfolding find_key find_loop get_line skip_blanks parse_hex scan_hex digit same
short_line = refl

key_set_from-IsKeySet : IsKeySet (key_set_from 9)
key_set_from-IsKeySet = record {
  is_enc = (refl, ground arith);
  is_mac = (refl, ground arith);
  is_dek = (refl, ground arith);
}

write_succeeds : (write no_backup key_path (key_set_from 9) old_files).0 ≡ ok tt
unfolding write
write_succeeds = refl

write-read_example :
    read [] key_path (write no_backup key_path (key_set_from 9) old_files).1
    ≡ some (ok (key_set_from 9))
write-read_example =
    write-read no_backup key_path [] (key_set_from 9) old_files key_set_from-IsKeySet refl
      write_succeeds
