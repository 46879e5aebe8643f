-- ===== src/Se/Rotation/Confirmed.antt =====
-- ports/se05x/scp03.cpp: what a rotation of the secure channel's keys has sent to the element and
-- heard from it when it succeeds.
use cpp_template.Base.{
  ℕ, ◌+◌, ◌≤◌, Bool, true, false, Option, none, some, List, [], ◌∷◌, ◌++◌, Bytes, length, take,
  same, same_iff, ltb, ◌==◌, ==_iff, Bool-cases, ◌≡◌, refl, sym, ◌∙◌, ap, ◌⊎◌, inl, inr, arith,
  subst,
}
use cpp_template.Core.{Result, ok, err, fail}
use cpp_template.Se.Rotation.{
  KeySet, Channel, key_block, block_in_front, wrap, after_key, key_blocks, status_word,
  check_response, transmitted, send_blocks, is_level, send_put_key, with_dek, rotate,
}
use cpp_template.Se.Rotation.Keyed.{
  Documented, blocks_of, check_values, under, check_value, ok_value, wrap_ok, wrap_same,
}

-- The response of the element confirms a key version and the check values.
pub record Confirms (expected rsp : Bytes) : Type 0 where
  pub long : length expected + 2 ≤ length rsp
  pub accepted : status_word rsp ≡ 36864
  pub echoed : take (length expected) rsp ≡ expected

check_response-Confirms :
    (expected rsp : Bytes) → check_response expected rsp ≡ ok tt → Confirms expected rsp
unfolding check_response fail
check_response-Confirms expected rsp e =
    elim (Bool-cases (ltb (length rsp) (length expected + 2))) [
      | inl short ↦ cc
      | inr long ↦ elim (Bool-cases (status_word rsp == 36864)) [
        | inr bad ↦ cc
        | inl sw ↦ elim (Bool-cases (same (take (length expected) rsp) expected)) [
          | inr differ ↦ cc
          | inl equal ↦ record {
            long = ground arith;
            accepted = (==_iff (status_word rsp) 36864).0 sw;
            echoed = (same_iff (take (length expected) rsp) expected).0 equal;
          }
        ]
      ]
    ]

module _ (channel : Channel) (documented : Documented channel) where
  open channel use {Session, set_dek, key_version, security_level, transmit}
  open documented use {current}

  abbrev keys_of : KeySet → List Bytes
  keys_of keys = keys.enc ∷ keys.mac ∷ keys.dek ∷ []

  -- The key blocks under a DEK, and the check values.
  abbrev Blocks : Bytes → List Bytes → Result (Bytes × Bytes) × Session → Type 0
  Blocks dek ks r =
      (out : Bytes × Bytes)
      → r.0 ≡ ok out
      → out ≡ (blocks_of channel documented dek ks, check_values channel documented ks)

  block_in_front-Blocks :
      (dek k enc_key kcv : Bytes) (ks : List Bytes) (r : Result (Bytes × Bytes) × Session)
      → ◌≡◌ {A = Bytes × Bytes}
          (enc_key, kcv)
          (under channel documented dek k, check_value channel documented k)
      → Blocks dek ks r
      → Blocks dek (k ∷ ks) (block_in_front (key_block enc_key kcv) kcv r)
  block_in_front-Blocks dek k enc_key kcv ks (err x, s) w f out e = cc
  block_in_front-Blocks dek k enc_key kcv ks (ok r, s) w f out e =
      sym (ok_value channel documented e)
      ∙ ap (λ (b : Bytes × Bytes). (key_block b.0 b.1 ++ r.0, b.1 ++ r.1)) w
      ∙ ap
          (λ (b : Bytes × Bytes). (
            key_block (under channel documented dek k) (check_value channel documented k) ++ b.0,
            check_value channel documented k ++ b.1,
          ))
          (f r refl)

  after_key-Blocks :
      (dek k : Bytes) (ks : List Bytes) (w : Result (Bytes × Bytes) × Session)
      → ((r : Bytes × Bytes)
          → w.0 ≡ ok r
          → r ≡ (under channel documented dek k, check_value channel documented k))
      → Blocks dek ks (key_blocks channel ks w.1)
      → Blocks dek (k ∷ ks) (after_key channel w (key_blocks channel ks))
  after_key-Blocks dek k ks (err x, s) f g = λ out e. cc
  after_key-Blocks dek k ks (ok (enc_key, kcv), s) f g =
      block_in_front-Blocks dek k enc_key kcv ks (key_blocks channel ks s) (f (enc_key, kcv) refl) g

  key_blocks-Blocks :
      (dek : Bytes) (ks : List Bytes) (s : Session)
      → current s ≡ some dek
      → Blocks dek ks (key_blocks channel ks s)
  unfolding key_blocks
  key_blocks-Blocks dek [] s h = λ out e. sym (ok_value channel documented e)
  key_blocks-Blocks dek (k ∷ ks) s h =
      after_key-Blocks dek k ks (wrap channel k s) (λ r. wrap_ok channel documented dek k s h)
        (key_blocks-Blocks dek ks (wrap channel k s).1 (wrap_same channel documented k s ∙ h))

  -- What a rotation has sent and heard when it has replaced the keys.
  pub record Rotated (dek : Bytes) (keys : KeySet) (s : Session) : Type 0 where
    pub secured : security_level s ≡ some 51
    pub sent_in : Session
    pub response : Bytes
    pub got :
        (transmit sent_in
          (128, 216, key_version s, 129)
          (key_version s ∷ blocks_of channel documented dek (keys_of keys))).0
        ≡ some response
    pub confirmed :
        Confirms (key_version s ∷ check_values channel documented (keys_of keys)) response

  is_level_lem : (l : Option ℕ) → is_level channel l ≡ true → l ≡ some 51
  is_level_lem none e = cc
  is_level_lem (some l) e = ap some ((==_iff l 51).0 e)

  transmitted-Confirms :
      (expected : Bytes) (a : Option Bytes × Session)
      → (transmitted channel expected a).0 ≡ ok tt
      → (rsp : Bytes) × (a.0 ≡ some rsp) × Confirms expected rsp
  unfolding fail
  transmitted-Confirms expected (none, s) e = cc
  transmitted-Confirms expected (some rsp, s) e =
      (rsp, refl, check_response-Confirms expected rsp e)

  send_blocks-Rotated :
      (dek : Bytes) (keys : KeySet) (s : Session) (r : Result (Bytes × Bytes) × Session)
      → security_level s ≡ some 51
      → Blocks dek (keys_of keys) r
      → (send_blocks channel (key_version s) r).0 ≡ ok tt
      → Rotated dek keys s
  send_blocks-Rotated dek keys s (err x, s') level f e = cc
  send_blocks-Rotated dek keys s (ok (blocks, kcvs), s') level f e =
      let v = key_version s in
      let (rsp, sent, heard) =
        transmitted-Confirms (v ∷ kcvs) (transmit s' (128, 216, v, 129) (v ∷ blocks)) e in
      let made = f (blocks, kcvs) refl in
      record {
        secured = level;
        sent_in = s';
        response = rsp;
        got = sym (ap (λ b. (transmit s' (128, 216, v, 129) (v ∷ b.0)).0) made) ∙ sent;
        confirmed = subst (λ b. Confirms (v ∷ b.1) rsp) made heard;
      }

  pub send_put_key-Rotated :
      (dek : Bytes) (keys : KeySet) (s : Session)
      → current s ≡ some dek
      → (send_put_key channel keys s).0 ≡ ok tt
      → Rotated dek keys s
  unfolding send_put_key fail
  send_put_key-Rotated dek keys s h e = elim (Bool-cases (is_level channel (security_level s))) [
    | inl level ↦
        send_blocks-Rotated dek keys s (key_blocks channel (keys_of keys) s)
          (is_level_lem (security_level s) level) (key_blocks-Blocks dek (keys_of keys) s h) ground
          (arith, level, e)
    | inr low ↦ cc
  ]

  with_dek-Rotated :
      (dek : Bytes) (keys : KeySet) (dry_run : Bool) (a : Bool × Session)
      → (a.0 ≡ true → current a.1 ≡ some dek)
      → (with_dek channel keys dry_run a).0 ≡ ok tt
      → (dry_run ≡ true) ⊎ Rotated dek keys a.1
  unfolding fail
  with_dek-Rotated dek keys dry_run (false, s) h e = cc
  with_dek-Rotated dek keys true (true, s) h e = inl refl
  with_dek-Rotated dek keys false (true, s) h e = inr (send_put_key-Rotated dek keys s (h refl) e)

  -- A rotation that succeeds was a dry run, or the channel is at its full security level and the
  -- command that the element got holds, for each of the new keys, the key encrypted under the
  -- current DEK and its check value, and the element has accepted it and echoed the version and the
  -- check values.
  pub rotate-Rotated :
      (current_keys new_keys : KeySet) (dry_run : Bool) (s : Session)
      → (rotate channel current_keys new_keys dry_run s).0 ≡ ok tt
      → (dry_run ≡ true) ⊎ Rotated current_keys.dek new_keys (set_dek s current_keys.dek).1
  unfolding rotate
  rotate-Rotated current_keys new_keys dry_run s e =
      with_dek-Rotated current_keys.dek new_keys dry_run (set_dek s current_keys.dek)
        (documented.set_dek_sets s current_keys.dek) e
