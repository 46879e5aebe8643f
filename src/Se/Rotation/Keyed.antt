-- ===== src/Se/Rotation/Keyed.antt =====
-- ports/se05x/scp03.cpp: what `GenKcvAndEncryptKey` computes when it succeeds.
use cpp_template.Base.{
  Bool, true, false, Option, none, some, some_injective, List, [], ◌∷◌, ◌++◌, Bytes, take,
  replicate, ◌≡◌, refl, sym, ◌∙◌, ap,
}
use cpp_template.Core.{ok, fail}
use cpp_template.Se.Rotation.{
  Channel, key_block, Wrapped, must, must_get, wrap_key, check_and_wrap, with_object_init, wrap,
}

-- What the code relies on of the middleware: `current` is the DEK of the session, which only
-- `set_dek` changes; `loaded` is the key of the scratch object, which setting the object writes and
-- a cipher uses; a cipher leaves the initial vector.
pub record Documented (channel : Channel) : Type 0 where
  pub aes : Bytes → Bytes → Bytes → Bytes
  pub current : channel.Session → Option Bytes
  pub loaded : channel.Session → Option Bytes
  pub set_dek_sets :
      (s : channel.Session) (b : Bytes)
      → (channel.set_dek s b).0 ≡ true
      → current (channel.set_dek s b).1 ≡ some b
  pub get_dek_gets :
      (s : channel.Session) (b : Bytes) → (channel.get_dek s).0 ≡ some b → current s ≡ some b
  pub get_dek_same : (s : channel.Session) → current (channel.get_dek s).1 ≡ current s
  pub init_same : (s : channel.Session) → current (channel.object_init s).1 ≡ current s
  pub allocate_same : (s : channel.Session) → current (channel.object_allocate s).1 ≡ current s
  pub set_same : (s : channel.Session) (b : Bytes) → current (channel.object_set s b).1 ≡ current s
  pub cipher_init_same : (s : channel.Session) → current (channel.cipher_init s).1 ≡ current s
  pub cipher_same :
      (s : channel.Session) (iv b : Bytes) → current (channel.cipher_one_go s iv b).1 ≡ current s
  pub free_same : (s : channel.Session) → current (channel.free_all s) ≡ current s
  pub set_loads :
      (s : channel.Session) (b : Bytes)
      → (channel.object_set s b).0 ≡ true
      → loaded (channel.object_set s b).1 ≡ some b
  pub cipher_init_loaded : (s : channel.Session) → loaded (channel.cipher_init s).1 ≡ loaded s
  pub cipher_result :
      (s : channel.Session) (key iv b : Bytes) (out : Bytes × Bytes)
      → loaded s ≡ some key
      → (channel.cipher_one_go s iv b).0 ≡ some out
      → out ≡ (aes key iv b, iv)

module _ (channel : Channel) (documented : Documented channel) where
  open channel use {
    Session, set_dek, get_dek, object_init, object_allocate, object_set, cipher_init, cipher_one_go,
    free_all, key_version, security_level, transmit,
  }
  open documented use {aes, current, loaded}

  -- The check value of a key, and the key under the DEK.
  abbrev pub check_value : Bytes → Bytes
  check_value k = take 3 (aes k (replicate 16 0) (replicate 16 1))

  abbrev pub under : Bytes → Bytes → Bytes
  under dek k = aes (take 16 dek) (replicate 16 0) k

  abbrev pub blocks_of : Bytes → List Bytes → Bytes
  blocks_of dek [] = []
  blocks_of dek (k ∷ ks) = key_block (under dek k) (check_value k) ++ blocks_of dek ks

  abbrev pub check_values : List Bytes → Bytes
  check_values [] = []
  check_values (k ∷ ks) = check_value k ++ check_values ks

  must_ok :
      {r : Bytes × Bytes} (text : Bytes) (rest : Session → Wrapped channel) (a : Bool × Session)
      → (must channel text rest a).0 ≡ ok r
      → (a.0 ≡ true) × ((rest a.1).0 ≡ ok r)
  unfolding fail
  must_ok text rest (true, s) h = (refl, h)
  must_ok text rest (false, s) h = cc

  must_get_ok :
      {A : Type 0} {r : Bytes × Bytes} (text : Bytes) (rest : A → Session → Wrapped channel)
      (a : Option A × Session)
      → (must_get channel text rest a).0 ≡ ok r
      → (x : A) × (a.0 ≡ some x) × ((rest x a.1).0 ≡ ok r)
  unfolding fail
  must_get_ok text rest (some x, s) h = (x, refl, h)
  must_get_ok text rest (none, s) h = cc

  must_same :
      {d : Option Bytes} (text : Bytes) (rest : Session → Wrapped channel) (a : Bool × Session)
      → current a.1 ≡ d
      → ((s : Session) → current s ≡ d → current (rest s).1 ≡ d)
      → current (must channel text rest a).1 ≡ d
  must_same text rest (true, s) h f = f s h
  must_same text rest (false, s) h f = documented.free_same s ∙ h

  must_get_same :
      {A : Type 0} {d : Option Bytes} (text : Bytes) (rest : A → Session → Wrapped channel)
      (a : Option A × Session)
      → current a.1 ≡ d
      → ((x : A) (s : Session) → current s ≡ d → current (rest x s).1 ≡ d)
      → current (must_get channel text rest a).1 ≡ d
  must_get_same text rest (some x, s) h f = f x s h
  must_get_same text rest (none, s) h f = documented.free_same s ∙ h

  -- A value that has succeeded.
  pub ok_value : {r r' : Bytes × Bytes} → ok r ≡ ok r' → r ≡ r'
  ok_value e = cc

  wrap_key_ok :
      {r : Bytes × Bytes} (dek plain kcv : Bytes) (s : Session)
      → current s ≡ some dek
      → (wrap_key channel plain kcv (replicate 16 0) s).0 ≡ ok r
      → r ≡ (under dek plain, kcv)
  wrap_key_ok {r} dek plain kcv s h e =
      let (dek', got, e₁) = must_get_ok _ _ (get_dek s) e in
      let s₁ = (get_dek s).1 in
      let (set, e₂) = must_ok _ _ (object_set s₁ (take 16 dek')) e₁ in
      let s₂ = (object_set s₁ (take 16 dek')).1 in
      let (init, e₃) = must_ok _ _ (cipher_init s₂) e₂ in
      let s₃ = (cipher_init s₂).1 in
      let (out, gave, e₄) = must_get_ok _ _ (cipher_one_go s₃ (replicate 16 0) plain) e₃ in
      let out_is =
        documented.cipher_result s₃ (take 16 dek') (replicate 16 0) plain out
          (documented.cipher_init_loaded s₂ ∙ documented.set_loads s₁ (take 16 dek') set) gave in
      let dek_is = some_injective (sym (documented.get_dek_gets s dek' got) ∙ h) in
      sym (ok_value e₄) ∙ ap (λ o. (o.0, kcv)) out_is ∙ ap (λ d. (under d plain, kcv)) dek_is

  check_and_wrap_ok :
      {r : Bytes × Bytes} (dek plain : Bytes) (s : Session)
      → current s ≡ some dek
      → (check_and_wrap channel plain s).0 ≡ ok r
      → r ≡ (under dek plain, check_value plain)
  check_and_wrap_ok {r} dek plain s h e =
      let (set, e₁) = must_ok _ _ (object_set s plain) e in
      let s₁ = (object_set s plain).1 in
      let (init, e₂) = must_ok _ _ (cipher_init s₁) e₁ in
      let s₂ = (cipher_init s₁).1 in
      let once = cipher_one_go s₂ (replicate 16 0) (replicate 16 1) in
      let (out, gave, e₃) = must_get_ok _ _ once e₂ in
      let out_is =
        documented.cipher_result s₂ plain (replicate 16 0) (replicate 16 1) out
          (documented.cipher_init_loaded s₁ ∙ documented.set_loads s plain set) gave in
      let same_dek =
        documented.cipher_same s₂ (replicate 16 0) (replicate 16 1)
        ∙ documented.cipher_init_same s₁
        ∙ documented.set_same s plain
        ∙ h in
      wrap_key_ok dek plain (check_value plain) once.1 same_dek
        (sym (ap (λ o. (wrap_key channel plain (take 3 o.0) o.1 once.1).0) out_is) ∙ e₃)

  with_object_init_ok :
      {r : Bytes × Bytes} (dek plain : Bytes) (a : Bool × Session)
      → current a.1 ≡ some dek
      → (with_object_init channel plain a).0 ≡ ok r
      → r ≡ (under dek plain, check_value plain)
  unfolding fail
  with_object_init_ok dek plain (false, s) h e = cc
  with_object_init_ok dek plain (true, s) h e =
      check_and_wrap_ok dek plain (object_allocate s).1 (documented.allocate_same s ∙ h)
        (must_ok _ _ (object_allocate s) e).1

  pub wrap_ok :
      {r : Bytes × Bytes} (dek plain : Bytes) (s : Session)
      → current s ≡ some dek
      → (wrap channel plain s).0 ≡ ok r
      → r ≡ (under dek plain, check_value plain)
  unfolding wrap
  wrap_ok dek plain s h e =
      with_object_init_ok dek plain (object_init s) (documented.init_same s ∙ h) e

  wrap_key_same :
      (plain kcv iv : Bytes) (s : Session) → current (wrap_key channel plain kcv iv s).1 ≡ current s
  wrap_key_same plain kcv iv s =
      must_get_same _ _ (get_dek s) (documented.get_dek_same s) (λ dek s₁ h₁.
        must_same _ _ (object_set s₁ (take 16 dek)) (documented.set_same s₁ _ ∙ h₁) (λ s₂ h₂.
          must_same _ _ (cipher_init s₂) (documented.cipher_init_same s₂ ∙ h₂) (λ s₃ h₃.
            must_get_same _ _ (cipher_one_go s₃ iv plain) (documented.cipher_same s₃ iv plain ∙ h₃)
              (λ out s₄ h₄. documented.free_same s₄ ∙ h₄))))

  check_and_wrap_same :
      (plain : Bytes) (s : Session) → current (check_and_wrap channel plain s).1 ≡ current s
  check_and_wrap_same plain s =
      must_same _ _ (object_set s plain) (documented.set_same s plain) (λ s₁ h₁.
        must_same _ _ (cipher_init s₁) (documented.cipher_init_same s₁ ∙ h₁) (λ s₂ h₂.
          must_get_same _ _ (cipher_one_go s₂ (replicate 16 0) (replicate 16 1))
            (documented.cipher_same s₂ _ _ ∙ h₂)
            (λ out s₃ h₃. wrap_key_same plain (take 3 out.0) out.1 s₃ ∙ h₃)))

  with_object_init_same :
      (plain : Bytes) (a : Bool × Session)
      → current (with_object_init channel plain a).1 ≡ current a.1
  with_object_init_same plain (false, s) = refl
  with_object_init_same plain (true, s) =
      must_same _ _ (object_allocate s) (documented.allocate_same s)
        (λ s₁ h₁. check_and_wrap_same plain s₁ ∙ h₁)

  pub wrap_same : (plain : Bytes) (s : Session) → current (wrap channel plain s).1 ≡ current s
  unfolding wrap
  wrap_same plain s = with_object_init_same plain (object_init s) ∙ documented.init_same s
