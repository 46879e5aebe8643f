-- ===== src/Net/Tls/Configured.antt =====
-- The verification that a successful `Configure` of a TLS socket leaves in force.
use cpp_template.Base.{
  ℕ, ◌<◌, List, [], ◌∷◌, ◌++◌, subst, Bool, true, false, not, ◌&&◌, ◌||◌, Bytes, ◌≡◌, refl, ◌∙◌,
  ◌⊎◌, inl, inr, if_intro,
}
use cpp_template.Core.{ok, err, Status, fail}
use cpp_template.Net.Tls.{
  Transport, Bio, want_read, want_write, AuthMode, verify_none, verify_required, KeySource, own_key,
  external_key, Mbedtls, TlsConfig, TlsSocket, is_empty, check, set_up, set_own_cert, key_part,
  client_part, trust_part, configure_ssl, with_setup,
}

-- What the code relies on of the library: parsing an authority adds it to the chain of those parsed
-- before; the verification mode and the chain of authorities in
-- force, and the name that the server has to show, are those that were set last, and the other
-- calls keep them; a handshake asks to be called again only `patience` times more.
pub record Documented {Link : Type 0} (lib : Mbedtls Link) : Type 0 where
  pub mode : lib.Ssl → AuthMode
  pub trusted : lib.Ssl → List Bytes
  pub parsed : lib.Ssl → List Bytes
  pub name : lib.Ssl → Bytes
  pub patience : lib.Ssl → ℕ
  pub parse_ca_parsed :
      (s : lib.Ssl) (pem : Bytes)
      → (lib.parse_ca s pem).0 ≡ true
      → parsed (lib.parse_ca s pem).1 ≡ parsed s ++ pem ∷ []
  pub seed_keeps : (s : lib.Ssl) → parsed (lib.drbg_seed s).1 ≡ parsed s
  pub defaults_keep : (s : lib.Ssl) → parsed (lib.config_defaults s).1 ≡ parsed s
  pub rng_keeps : (s : lib.Ssl) → parsed (lib.conf_rng s) ≡ parsed s
  pub chain_trusted : (s : lib.Ssl) → trusted (lib.conf_ca_chain s) ≡ parsed s
  pub mode_set : (s : lib.Ssl) (m : AuthMode) → mode (lib.conf_authmode s m) ≡ m
  pub mode_trusted : (s : lib.Ssl) (m : AuthMode) → trusted (lib.conf_authmode s m) ≡ trusted s
  pub parse_own_cert_keeps :
      (s : lib.Ssl) (pem : Bytes)
      → (mode (lib.parse_own_cert s pem).1 ≡ mode s)
        × (trusted (lib.parse_own_cert s pem).1 ≡ trusted s)
  pub parse_own_key_keeps :
      (s : lib.Ssl) (pem : Bytes)
      → (mode (lib.parse_own_key s pem).1 ≡ mode s)
        × (trusted (lib.parse_own_key s pem).1 ≡ trusted s)
  pub conf_own_cert_keeps :
      (s : lib.Ssl) (key : KeySource)
      → (mode (lib.conf_own_cert s key).1 ≡ mode s)
        × (trusted (lib.conf_own_cert s key).1 ≡ trusted s)
  pub ssl_setup_keeps :
      (s : lib.Ssl)
      → (mode (lib.ssl_setup s).1 ≡ mode s) × (trusted (lib.ssl_setup s).1 ≡ trusted s)
  pub hostname_set :
      (s : lib.Ssl) (n : Bytes)
      → (lib.set_hostname s n).0 ≡ true
      → name (lib.set_hostname s n).1 ≡ n
  pub hostname_keeps :
      (s : lib.Ssl) (n : Bytes)
      → (mode (lib.set_hostname s n).1 ≡ mode s)
        × (trusted (lib.set_hostname s n).1 ≡ trusted s)
        × (patience (lib.set_hostname s n).1 ≡ patience s)
  pub bio_keeps :
      (s : lib.Ssl)
      → (mode (lib.set_bio s) ≡ mode s)
        × (trusted (lib.set_bio s) ≡ trusted s)
        × (patience (lib.set_bio s) ≡ patience s)
        × (name (lib.set_bio s) ≡ name s)
  pub handshake_keeps :
      (b : Bio Link) (s : lib.Ssl) (k : Link)
      → (mode (lib.handshake b s k).1 ≡ mode s)
        × (trusted (lib.handshake b s k).1 ≡ trusted s)
        × (name (lib.handshake b s k).1 ≡ name s)
  pub handshake_patience :
      (b : Bio Link) (s : lib.Ssl) (k : Link)
      → ((lib.handshake b s k).0 ≡ want_read) ⊎ ((lib.handshake b s k).0 ≡ want_write)
      → patience (lib.handshake b s k).1 < patience s

module _ (transport : Transport) (mbedtls : Mbedtls transport.Link)
    (documented : Documented mbedtls) where
  open transport use {Link}
  open mbedtls use {
    Ssl, drbg_seed, config_defaults, conf_rng, conf_authmode, parse_ca, conf_ca_chain,
    parse_own_cert, parse_own_key, conf_own_cert, ssl_setup,
  }
  open documented use {mode, trusted, parsed}

  -- A mode and an authority are in force.
  abbrev Force : AuthMode → List Bytes → Ssl → Type 0
  Force m ca s = (mode s ≡ m) × (trusted s ≡ ca)

  -- What holds when it succeeds.
  abbrev Done : (Ssl → Type 0) → Status × Ssl → Type 0
  Done P r = r.0 ≡ ok tt → P r.1

  abbrev Ends : AuthMode → List Bytes → Status × Ssl → Type 0
  Ends m ca r = Done (Force m ca) r

  kept :
      {m : AuthMode} {ca : List Bytes} {s s' : Ssl}
      → (mode s' ≡ mode s) × (trusted s' ≡ trusted s)
      → Force m ca s
      → Force m ca s'
  kept k f = (k.0 ∙ f.0, k.1 ∙ f.1)

  check-Done :
      (P : Ssl → Type 0) (text : Bytes) (rest : Ssl → Status × Ssl) (p : Bool × Ssl)
      → (p.0 ≡ true → Done P (rest p.1))
      → Done P (check transport mbedtls text rest p)
  unfolding fail
  check-Done P text rest (true, s) h e = h refl e
  check-Done P text rest (false, s) h e = cc

  set_up-Ends :
      {m : AuthMode} {ca : List Bytes} (s : Ssl)
      → Force m ca s
      → Ends m ca (set_up transport mbedtls s)
  set_up-Ends s f =
      check-Done (Force _ _) _ _ (ssl_setup s) (λ e fine. kept (documented.ssl_setup_keeps s) f)

  set_own_cert-Ends :
      {m : AuthMode} {ca : List Bytes} (key : KeySource) (s : Ssl)
      → Force m ca s
      → Ends m ca (set_own_cert transport mbedtls key s)
  set_own_cert-Ends key s f =
      check-Done (Force _ _) _ _ (conf_own_cert s key)
        (λ e. set_up-Ends (conf_own_cert s key).1 (kept (documented.conf_own_cert_keeps s key) f))

  key_part-Ends :
      {m : AuthMode} {ca : List Bytes} (external : Bool) (pem : Bytes) (s : Ssl)
      → Force m ca s
      → Ends m ca (key_part transport mbedtls external pem s)
  key_part-Ends true pem s f = set_own_cert-Ends external_key s f
  key_part-Ends false pem s f = check-Done (Force _ _) _ _ (parse_own_key s pem) (λ e.
      set_own_cert-Ends own_key (parse_own_key s pem).1
        (kept (documented.parse_own_key_keeps s pem) f))

  client_part-Ends :
      {m : AuthMode} {ca : List Bytes} (external : Bool) (cfg : TlsConfig) (s : Ssl)
      → Force m ca s
      → Ends m ca (client_part transport mbedtls external cfg s)
  client_part-Ends {m} {ca} external cfg s f =
      if_intro {A = Status × Ssl} (Ends m ca)
        (not (is_empty cfg.client_cert_pem) && (not (is_empty cfg.client_key_pem) || external))
        (λ given. check-Done (Force _ _) _ _ (parse_own_cert s cfg.client_cert_pem) (λ e.
          key_part-Ends external cfg.client_key_pem (parse_own_cert s cfg.client_cert_pem).1
            (kept (documented.parse_own_cert_keeps s cfg.client_cert_pem) f)))
        (λ none_given. set_up-Ends s f)

  -- The verification that a configuration asks for is in force, under its authority and those that
  -- had been added earlier.
  abbrev pub Trusts : TlsConfig → List Bytes → Ssl → Type 0
  Trusts cfg earlier s =
      ((cfg.skip_verify ≡ true) × (mode s ≡ verify_none))
      ⊎ ((cfg.skip_verify ≡ false)
          × (mode s ≡ verify_required)
          × (trusted s ≡ earlier ++ cfg.ca_cert_pem ∷ []))

  trust_part-Trusts :
      (skip external : Bool) (cfg : TlsConfig) (s : Ssl)
      → cfg.skip_verify ≡ skip
      → (trust_part transport mbedtls skip external cfg s).0 ≡ ok tt
      → Trusts cfg (parsed s) (trust_part transport mbedtls skip external cfg s).1
  trust_part-Trusts true external cfg s e fine = inl (
    e,
    (client_part-Ends external cfg (conf_authmode s verify_none)
        (documented.mode_set s verify_none, refl) fine).0,
  )
  trust_part-Trusts false external cfg s e fine =
      let f : Force verify_required (parsed s ++ cfg.ca_cert_pem ∷ [])
          (trust_part transport mbedtls false external cfg s).1 =
        check-Done (Force _ _) _ _ (parse_ca s cfg.ca_cert_pem)
          (λ parsed.
            let s' : Ssl = (parse_ca s cfg.ca_cert_pem).1 in
            client_part-Ends external cfg (conf_authmode (conf_ca_chain s') verify_required) (
              documented.mode_set (conf_ca_chain s') verify_required,
              documented.mode_trusted (conf_ca_chain s') verify_required
                  ∙ (documented.chain_trusted s'
                      ∙ documented.parse_ca_parsed s cfg.ca_cert_pem parsed),
            ))
          fine in
      inr (e, f.0, f.1)

  pub configure_ssl-Trusts :
      (external : Bool) (cfg : TlsConfig) (s : Ssl)
      → Done (Trusts cfg (parsed s)) (configure_ssl transport mbedtls external cfg s)
  unfolding configure_ssl
  configure_ssl-Trusts external cfg s =
      let s₁ : Ssl = (drbg_seed s).1 in
      let s₂ : Ssl = (config_defaults s₁).1 in
      let kept_chain : parsed (conf_rng s₂) ≡ parsed s =
        documented.rng_keeps s₂ ∙ documented.defaults_keep s₁ ∙ documented.seed_keeps s in
      subst (λ c. Done (Trusts cfg c) (configure_ssl transport mbedtls external cfg s)) kept_chain
        (check-Done (Trusts cfg (parsed (conf_rng s₂))) _ _ (drbg_seed s) (λ e.
          check-Done (Trusts cfg (parsed (conf_rng s₂))) _ _ (config_defaults s₁)
            (λ d. trust_part-Trusts cfg.skip_verify external cfg (conf_rng s₂) refl)))

  -- What a successful `Configure` leaves.
  pub record Configured (cfg : TlsConfig) (t t' : TlsSocket transport mbedtls) : Type 0 where
    pub trusts : Trusts cfg (parsed t.ssl) t'.ssl
    pub configured_eq : t'.configured ≡ true
    pub server_name_eq : t'.server_name ≡ cfg.server_name
    pub handshaked_eq : t'.handshaked ≡ t.handshaked

  pub with_setup-Configured :
      (cfg : TlsConfig) (t : TlsSocket transport mbedtls) (r : Status × Ssl)
      → Done (Trusts cfg (parsed t.ssl)) r
      → (with_setup transport mbedtls cfg t r).0 ≡ ok tt
      → Configured cfg t (with_setup transport mbedtls cfg t r).1
  with_setup-Configured cfg t (err e, s) h fine = cc
  with_setup-Configured cfg t (ok u, s) h fine = record {
    trusts = h fine;
    configured_eq = refl;
    server_name_eq = refl;
    handshaked_eq = refl;
  }
