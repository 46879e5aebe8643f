-- ===== src/Se/Rotation/Tests.antt =====
-- A channel whose cipher adds the key, and an element that echoes the check values of a command.
use cpp_template.Base.{
  arith, codes, if◌then◌else◌, ℕ, ◌+◌, ◌%◌, true, false, Option, none, some, some_injective, [],
  ◌∷◌, ◌++◌, Bytes, take, drop, replicate, same, ◌≡◌, refl, ◌⊎◌, sym, ◌∙◌, ap,
}
use cpp_template.Core.{ok}
use cpp_template.Se.Rotation.{
  KeySet, TlvHeader, Channel, wrap, key_blocks, check_response, send_put_key, rotate,
}
use cpp_template.Se.Keyfile.{
  Files, Calls, keys_text, digit, scan_hex, parse_hex, get_line, skip_blanks, find_loop, find_key,
  read_dek, write,
}
use cpp_template.Se.Keyfile.Saved.{IsKeySet}
use cpp_template.Se.Keyfile.Rotate.{rotate_file, FileRotated, rotate_file-FileRotated}
use cpp_template.Se.Rotation.Keyed.{Documented}
use cpp_template.Se.Rotation.Confirmed.{Rotated, rotate-Rotated}

record HostKeys : Type 0 where
  dek_of : Option Bytes
  scratch : Option Bytes

abbrev summed : Bytes → Bytes → Bytes
summed [] b = b
summed (x ∷ a) [] = []
summed (x ∷ a) (y ∷ b) = (x + y) % 256 ∷ summed a b

abbrev encrypt : Option Bytes → Bytes → Bytes → Option (Bytes × Bytes)
encrypt none iv b = none
encrypt (some key) iv b = some (summed key b, iv)

abbrev echo : TlvHeader → Bytes → Bytes
echo header command =
    take 1 command
    ++ take 3 (drop 21 command)
    ++ take 3 (drop 44 command)
    ++ take 3 (drop 67 command)
    ++ 144 ∷ 0 ∷ []

abbrev adding : Channel
adding = record {
  Session = HostKeys;
  set_dek = λ s b. (true, record { dek_of = some b; scratch = s.scratch });
  get_dek = λ s. (s.dek_of, s);
  object_init = λ s. (true, s);
  object_allocate = λ s. (true, s);
  object_set = λ s b. (true, record { dek_of = s.dek_of; scratch = some b });
  cipher_init = λ s. (true, s);
  cipher_one_go = λ s iv b. (encrypt s.scratch iv b, s);
  free_all = λ s. record { dek_of = s.dek_of; scratch = none };
  key_version = λ s. 11;
  security_level = λ s. some 51;
  transmit = λ s header command. (some (echo header command), s);
}

encrypt_lem :
    (o : Option Bytes) (key iv b : Bytes) (out : Bytes × Bytes)
    → o ≡ some key
    → encrypt o iv b ≡ some out
    → ◌≡◌ {A = Bytes × Bytes} out (summed key b, iv)
encrypt_lem none key iv b out h e = cc
encrypt_lem (some k) key iv b out h e = sym (some_injective e) ∙ ap paired (some_injective h)
  where
    paired : Bytes → Bytes × Bytes
    paired k = (summed k b, iv)

abbrev adding_documented : Documented adding
adding_documented = record {
  aes = λ key iv b. summed key b;
  current = λ s. s.dek_of;
  loaded = λ s. s.scratch;
  set_dek_sets = λ s b e. refl;
  get_dek_gets = λ s b e. e;
  get_dek_same = λ s. refl;
  init_same = λ s. refl;
  allocate_same = λ s. refl;
  set_same = λ s b. refl;
  cipher_init_same = λ s. refl;
  cipher_same = λ s iv b. refl;
  free_same = λ s. refl;
  set_loads = λ s b e. refl;
  cipher_init_loaded = λ s. refl;
  cipher_result = λ s key iv b out h e. encrypt_lem s.scratch key iv b out h e;
}

abbrev keys_from : ℕ → KeySet
keys_from n = record {
  enc = replicate 16 n;
  mac = replicate 16 (n + 1);
  dek = replicate 16 (n + 2);
}

abbrev no_keys : HostKeys
no_keys = record { dek_of = none; scratch = none }

rotation_succeeds : (rotate adding (keys_from 64) (keys_from 9) false no_keys).0 ≡ ok tt
unfolding rotate send_put_key key_blocks wrap check_response same
rotation_succeeds = refl

rotate-Rotated_example :
    (false ≡ true)
    ⊎ Rotated adding adding_documented
        (replicate 16 66)
        (keys_from 9)
        (record { dek_of = some (replicate 16 66); scratch = none })
rotate-Rotated_example =
    rotate-Rotated adding adding_documented (keys_from 64) (keys_from 9) false no_keys
      rotation_succeeds

abbrev key_files : Files
key_files p = if same p (codes "/keys") then some (keys_text (keys_from 64)) else none

abbrev all_well : Calls
all_well = record { opens = true; prints = true; lost = none; backs_up = true; renames = true }

abbrev left : HostKeys
left = record { dek_of = some (replicate 16 66); scratch = none }

keys_from-IsKeySet : IsKeySet (keys_from 9)
keys_from-IsKeySet = record {
  is_enc = (refl, ground arith);
  is_mac = (refl, ground arith);
  is_dek = (refl, ground arith);
}

file_rotation_succeeds :
    rotate_file adding none all_well [] (keys_from 9) false (some (codes "/keys")) no_keys key_files
    ≡ some (ok tt, left, (write all_well (codes "/keys") (keys_from 9) key_files).1)
unfolding rotate_file read_dek find_key find_loop get_line skip_blanks parse_hex scan_hex digit same
    send_put_key key_blocks wrap check_response write
file_rotation_succeeds = refl

rotate_file-FileRotated_example :
    FileRotated adding adding_documented
      (codes "/keys")
      []
      (keys_from 9)
      no_keys
      key_files
      (write all_well (codes "/keys") (keys_from 9) key_files).1
rotate_file-FileRotated_example =
    rotate_file-FileRotated adding adding_documented none all_well (codes "/keys") [] (keys_from 9)
      no_keys key_files keys_from-IsKeySet refl file_rotation_succeeds
