-- ===== src/Se/Keyfile/Saved.antt =====
-- The keys that `Write` has saved are what `Read` reads.
use cpp_template.Base.{
  ℕ, zero, suc, ◌+◌, ◌≤◌, Bool, true, false, Option, none, some, [], ◌∷◌, ◌++◌, Bytes, codes,
  length, same, same_refl, if◌then◌else◌, if_true, if_false, length-append, Bool-cases, inl, inr,
  same_iff, ◌≢◌, ◌≡◌, refl, ◌∙◌, ap, arith,
}
use cpp_template.Core.{ok, Status, fail}
use cpp_template.Se.Rotation.{KeySet}
use cpp_template.Se.Keyfile.{
  found, find_loop, find_key, Files, key_or, read, keys_text, Calls, with_file, temp_path,
  backup_path, path_fits, on_close, back_up, moved, keys_printed, opened, write,
}
use cpp_template.Se.Keyfile.Lines.{IsKey, find_loop-found, find_loop-other}

-- Three keys of sixteen bytes.
pub record IsKeySet (keys : KeySet) : Type 0 where
  pub is_enc : IsKey keys.enc
  pub is_mac : IsKey keys.mac
  pub is_dek : IsKey keys.dek

find_enc :
    (n : ℕ) (old : Bytes) (keys : KeySet)
    → IsKeySet keys
    → 3 ≤ n
    → find_loop n (codes "ENC") old (keys_text keys) ≡ found keys.enc
find_enc zero old keys is enough = absurd (omega arith)
find_enc (suc n) old keys is enough =
    find_loop-found 69 78 67 refl refl refl refl n old keys.enc _ is.is_enc

find_mac :
    (n : ℕ) (old : Bytes) (keys : KeySet)
    → IsKeySet keys
    → 3 ≤ n
    → find_loop n (codes "MAC") old (keys_text keys) ≡ found keys.mac
unfolding same
find_mac zero old keys is enough = absurd (omega arith)
find_mac (suc zero) old keys is enough = absurd (omega arith)
find_mac (suc (suc n)) old keys is enough =
    find_loop-other 69 78 67 refl refl refl refl (suc n) (codes "MAC") old keys.enc _ refl is.is_enc
    ∙ find_loop-found 77 65 67 refl refl refl refl n _ keys.mac _ is.is_mac

find_dek :
    (n : ℕ) (old : Bytes) (keys : KeySet)
    → IsKeySet keys
    → 3 ≤ n
    → find_loop n (codes "DEK") old (keys_text keys) ≡ found keys.dek
unfolding same
find_dek zero old keys is enough = absurd (omega arith)
find_dek (suc zero) old keys is enough = absurd (omega arith)
find_dek (suc (suc zero)) old keys is enough = absurd (omega arith)
find_dek (suc (suc (suc n))) old keys is enough =
    find_loop-other 69 78 67 refl refl refl refl (suc (suc n)) (codes "DEK") old keys.enc _ refl
      is.is_enc
    ∙ find_loop-other 77 65 67 refl refl refl refl (suc n) (codes "DEK") _ keys.mac _ refl is.is_mac
    ∙ find_loop-found 68 69 75 refl refl refl refl n _ keys.dek _ is.is_dek

enough_lines : (keys : KeySet) → 3 ≤ length (keys_text keys) + 1
enough_lines keys = omega arith

read_lem :
    (junk path : Bytes) (keys : KeySet) (files : Files)
    → IsKeySet keys
    → files path ≡ some (keys_text keys)
    → read junk path files ≡ some (ok keys)
unfolding read find_key
read_lem junk path keys files is h =
    let enough = enough_lines keys in
    let size : ℕ = length (keys_text keys) + 1 in
    ap
      (λ s. key_or (find_key junk (codes "ENC") s) (λ e.
        key_or (find_key junk (codes "MAC") s) (λ m.
          key_or (find_key junk (codes "DEK") s)
            (λ d. some (ok (record { enc = e; mac = m; dek = d }))))))
      h
    ∙ rw (
      find_enc size junk keys is enough,
      find_mac size junk keys is enough,
      find_dek size junk keys is enough,
    )

-- Paths of different lengths are different.
same_ne : (p q : Bytes) → length p ≢ length q → same p q ≡ false
same_ne p q ne = elim (Bool-cases (same p q)) [
  | inl e ↦ absurd (ne (ap length ((same_iff p q).0 e)))
  | inr e ↦ e
]

same_suffixes : (p a b : Bytes) → same (p ++ a) (p ++ b) ≡ same a b
unfolding same
same_suffixes [] a b = refl
same_suffixes (x ∷ p) a b = ground (arith, same_suffixes p a b)

with_file_same : (p : Bytes) (o : Option Bytes) (files : Files) → with_file p o files p ≡ o
with_file_same p o files = if_true _ _ (same_refl p)

with_file_other :
    (p q : Bytes) (o : Option Bytes) (files : Files)
    → same p q ≡ false
    → with_file q o files p ≡ files p
with_file_other p q o files ne = if_false _ _ ne

path_ne : (path s : Bytes) → length s ≡ 4 → same path (path ++ s) ≡ false
path_ne path s four = same_ne path (path ++ s) (λ e. omega (arith, e, four, length-append path s))

path_ne' : (path s : Bytes) → length s ≡ 4 → same (path ++ s) path ≡ false
path_ne' path s four = same_ne (path ++ s) path (λ e. omega (arith, e, four, length-append path s))

back_up-temp :
    (fit renamed : Bool) (path : Bytes) (files : Files)
    → back_up fit renamed path files (temp_path path) ≡ files (temp_path path)
unfolding same
back_up-temp false renamed path files = refl
back_up-temp true false path files =
    with_file_other (temp_path path) (backup_path path) none files
      (same_suffixes path (codes ".tmp") (codes ".bak"))
back_up-temp true true path files =
    let p : Bytes = temp_path path in
    let bak : Bytes = backup_path path in
    let G : Files = with_file bak none files in
    let ne = same_suffixes path (codes ".tmp") (codes ".bak") in
    with_file_other p path none (with_file bak (G path) G) (path_ne' path (codes ".tmp") refl)
    ∙ with_file_other p bak (G path) G ne
    ∙ with_file_other p bak none files ne

moved-saved :
    (renamed : Bool) (path : Bytes) (files : Files)
    → (moved renamed path files).0 ≡ ok tt
    → (moved renamed path files).1 path ≡ files (temp_path path)
unfolding fail
moved-saved false path files e = cc
moved-saved true path files e =
    with_file_other path (temp_path path) none (with_file path (files (temp_path path)) files)
      (path_ne path (codes ".tmp") refl)
    ∙ with_file_same path (files (temp_path path)) files

keys_printed-saved :
    (prints : Bool) (calls : Calls) (path : Bytes) (keys : KeySet) (files : Files)
    → (keys_printed prints calls path keys files).0 ≡ ok tt
    → (keys_printed prints calls path keys files).1 path
      ≡ some (on_close calls.lost (keys_text keys))
unfolding fail
keys_printed-saved false calls path keys files e = cc
keys_printed-saved true calls path keys files e =
    let F : Files =
      with_file (temp_path path) (some (on_close calls.lost (keys_text keys))) files in
    moved-saved calls.renames path (back_up (path_fits path) calls.backs_up path F) e
    ∙ back_up-temp (path_fits path) calls.backs_up path F
    ∙ with_file_same (temp_path path) (some (on_close calls.lost (keys_text keys))) files

opened-saved :
    (opens : Bool) (calls : Calls) (path : Bytes) (keys : KeySet) (files : Files)
    → (opened opens calls path keys files).0 ≡ ok tt
    → (opened opens calls path keys files).1 path ≡ some (on_close calls.lost (keys_text keys))
unfolding fail
opened-saved false calls path keys files e = cc
opened-saved true calls path keys files e = keys_printed-saved calls.prints calls path keys files e

path_fits-saved :
    (fit : Bool) (calls : Calls) (path : Bytes) (keys : KeySet) (files : Files)
    (failed : Status × Files)
    → failed.0 ≢ ok tt
    → (if fit then opened calls.opens calls path keys files else failed).0 ≡ ok tt
    → (if fit then opened calls.opens calls path keys files else failed).1 path
      ≡ some (on_close calls.lost (keys_text keys))
path_fits-saved true calls path keys files failed bad e =
    opened-saved calls.opens calls path keys files e
path_fits-saved false calls path keys files failed bad e = absurd (bad e)

-- After a `Write` that has succeeded, and whose `fclose` has written out all that was printed, `Read`
-- of the same path returns the keys that were written, three of sixteen bytes, whatever its buffer
-- holds before, and reads nothing past it.
pub write-read :
    (calls : Calls) (path junk : Bytes) (keys : KeySet) (files : Files)
    → IsKeySet keys
    → calls.lost ≡ none
    → (write calls path keys files).0 ≡ ok tt
    → read junk path (write calls path keys files).1 ≡ some (ok keys)
unfolding write fail
write-read calls path junk keys files is closed e =
    read_lem junk path keys (write calls path keys files).1 is (
      path_fits-saved (path_fits path) calls path keys files _ (λ x. cc) e
      ∙ ap (λ l. some (on_close l (keys_text keys))) closed)
