-- ===== src/Se/Keyfile/Rotate.antt =====
-- ports/se05x/scp03.cpp: `Rotate` with a key file, which reads the current DEK from the file and
-- saves the new keys in it.
use cpp_template.Base.{
  Bool, true, false, Option, none, some, some_injective, [], ◌∷◌, Bytes, codes, ◌≡◌, ◌≢◌, refl, sym,
  ◌∙◌, ap,
}
use cpp_template.Core.{Result, ok, err, Error, Status, fail}
use cpp_template.Se.{se_fail, key_failed}
use cpp_template.Se.Rotation.{KeySet, Channel, send_put_key}
use cpp_template.Se.Rotation.Keyed.{Documented}
use cpp_template.Se.Rotation.Confirmed.{Rotated, send_put_key-Rotated}
use cpp_template.Se.Keyfile.{Files, Calls, read, read_dek, write}
use cpp_template.Se.Keyfile.Saved.{IsKeySet, write-read}

err_ne_ok : {e : Error} → (let st : Status = err e in st) ≢ ok tt
err_ne_ok x = cc

module _ (channel : Channel) where
  open channel use {Session, set_dek}

  -- `none` is a read past the buffer.
  abbrev pub Outcome : Type 0
  Outcome = Status × Session × Files

  -- The file is written when there is one.
  abbrev pub saved : Option Bytes → Calls → KeySet → Files → Status × Session → Outcome
  saved key_file calls keys files (err e, s) = (err e, s, files)
  saved none calls keys files (ok u, s) = (ok tt, s, files)
  saved (some path) calls keys files (ok u, s) =
      ((write calls path keys files).0, s, (write calls path keys files).1)

  -- `SetCurrentDek` in `LoadCurrentDek`, and then the exchange.
  abbrev pub dek_set : Option Bytes → Calls → KeySet → Files → Bool × Session → Outcome
  dek_set key_file calls keys files (false, s) =
      (se_fail key_failed (codes "load current DEK into static ctx failed"), s, files)
  dek_set key_file calls keys files (true, s) =
      saved key_file calls keys files (send_put_key channel keys s)

  abbrev pub dek_read :
      Option Bytes → Calls → KeySet → Session → Files → Option (Result Bytes) → Option Outcome
  dek_read key_file calls keys s files none = none
  dek_read key_file calls keys s files (some (err e)) = some (err e, s, files)
  dek_read key_file calls keys s files (some (ok dek)) =
      some (dek_set key_file calls keys files (set_dek s dek))

  abbrev pub with_path :
      Option Bytes → Calls → Bytes → KeySet → Session → Files → Option Bytes → Option Outcome
  with_path key_file calls junk keys s files none = some (
    se_fail key_failed (codes "SCP03 key file path unknown (set EX_SSS_BOOT_SCP03_PATH)"),
    s,
    files,
  )
  with_path key_file calls junk keys s files (some []) = some (
    se_fail key_failed (codes "SCP03 key file path unknown (set EX_SSS_BOOT_SCP03_PATH)"),
    s,
    files,
  )
  with_path key_file calls junk keys s files (some (c ∷ path)) =
      dek_read key_file calls keys s files (read_dek junk (c ∷ path) files)

  -- The file that is named, or that of the environment.
  abbrev pub chosen : Option Bytes → Option Bytes → Option Bytes
  chosen (some path) environment = some path
  chosen none environment = environment

  -- `Rotate` with a key file
  unfoldable pub rotate_file :
      Option Bytes → Calls → Bytes → KeySet → Bool → Option Bytes → Session → Files → Option Outcome
  rotate_file environment calls junk keys true key_file s files = some (ok tt, s, files)
  rotate_file environment calls junk keys false key_file s files =
      with_path key_file calls junk keys s files (chosen key_file environment)

  -- The status of an outcome that has succeeded.
  status_ok :
      {st : Status} {s s' : Session} {files files' : Files}
      → ◌≡◌ {A = Outcome} (st, s, files) (ok tt, s', files')
      → st ≡ ok tt
  status_ok h = ap (λ (o : Outcome). o.0) h

  saved_ok :
      {s' : Session} {files' : Files} (path : Bytes) (calls : Calls) (keys : KeySet) (files : Files)
      (r : Status × Session)
      → ◌≡◌ {A = Outcome} (saved (some path) calls keys files r) (ok tt, s', files')
      → (r.0 ≡ ok tt)
        × ((write calls path keys files).0 ≡ ok tt)
        × (files' ≡ (write calls path keys files).1)
  saved_ok path calls keys files (err e, s) h = absurd (err_ne_ok (status_ok h))
  saved_ok path calls keys files (ok u, s) h =
      (refl, status_ok h, sym (ap (λ (o : Outcome). o.2) h))

  module _ (documented : Documented channel) where
    -- What a rotation with a key file has done.
    pub record FileRotated (path junk : Bytes) (keys : KeySet) (s : Session) (files files' : Files)
        : Type 0 where
      pub dek : Bytes
      pub dek_from : read_dek junk path files ≡ some (ok dek)
      pub rotated : Rotated channel documented dek keys (set_dek s dek).1
      pub readable : (junk' : Bytes) → read junk' path files' ≡ some (ok keys)

    dek_set-FileRotated :
        {s' : Session} {files' : Files} (calls : Calls) (path junk : Bytes) (keys : KeySet)
        (s : Session) (files : Files) (dek : Bytes) (t : Bool)
        → IsKeySet keys
        → calls.lost ≡ none
        → read_dek junk path files ≡ some (ok dek)
        → (set_dek s dek).0 ≡ t
        → ◌≡◌ {A = Outcome}
            (dek_set (some path) calls keys files (t, (set_dek s dek).1))
            (ok tt, s', files')
        → FileRotated path junk keys s files files'
    unfolding fail
    dek_set-FileRotated calls path junk keys s files dek false is closed from set h =
        absurd (err_ne_ok (status_ok h))
    dek_set-FileRotated calls path junk keys s files dek true is closed from set h =
        let s₁ : Session = (set_dek s dek).1 in
        let (sent, wrote, files_are) =
          saved_ok path calls keys files (send_put_key channel keys s₁) h in
        record {
          dek = dek;
          dek_from = from;
          rotated =
              send_put_key-Rotated channel documented dek keys s₁
                (documented.set_dek_sets s dek set) sent;
          readable = λ junk'.
              ap (read junk' path) files_are
              ∙ write-read calls path junk' keys files is closed wrote;
        }

    dek_read-FileRotated :
        {s' : Session} {files' : Files} (calls : Calls) (path junk : Bytes) (keys : KeySet)
        (s : Session) (files : Files) (o : Option (Result Bytes))
        → IsKeySet keys
        → calls.lost ≡ none
        → read_dek junk path files ≡ o
        → dek_read (some path) calls keys s files o ≡ some (ok tt, s', files')
        → FileRotated path junk keys s files files'
    dek_read-FileRotated calls path junk keys s files none is closed from h = cc
    dek_read-FileRotated calls path junk keys s files (some (err e)) is closed from h =
        absurd (err_ne_ok (status_ok (some_injective h)))
    dek_read-FileRotated calls path junk keys s files (some (ok dek)) is closed from h =
        dek_set-FileRotated calls path junk keys s files dek (set_dek s dek).0 is closed from refl
          (some_injective h)

    -- A rotation with a named key file that succeeds, and is no dry run, and whose `fclose` writes out
    -- all that is printed, has read the current DEK from the file; the channel was secure, and the
    -- element has got the new keys under that DEK and confirmed them; and the file is then one from
    -- which the new keys, of sixteen bytes each, are read.
    pub rotate_file-FileRotated :
        {s' : Session} {files' : Files} (environment : Option Bytes) (calls : Calls)
        (path junk : Bytes) (keys : KeySet) (s : Session) (files : Files)
        → IsKeySet keys
        → calls.lost ≡ none
        → rotate_file environment calls junk keys false (some path) s files
          ≡ some (ok tt, s', files')
        → FileRotated path junk keys s files files'
    unfolding rotate_file fail
    rotate_file-FileRotated environment calls [] junk keys s files is closed h =
        absurd (err_ne_ok (status_ok (some_injective h)))
    rotate_file-FileRotated environment calls (c ∷ path) junk keys s files is closed h =
        dek_read-FileRotated calls (c ∷ path) junk keys s files (read_dek junk (c ∷ path) files) is
          closed refl h
