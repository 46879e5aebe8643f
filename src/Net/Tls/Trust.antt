-- ===== src/Net/Tls/Trust.antt =====
-- Which server a TLS socket that is connected has verified.
use cpp_template.Base.{
  ℕ, zero, suc, List, ◌<◌, Bool, true, false, not, Option, some, Bytes, ◌≡◌, refl, sym, ◌∙◌, ap,
  subst, ◌⊎◌, inl, inr, arith, if_false,
}
use cpp_template.Core.{ok, err, Error, Status, fail}
use cpp_template.Net.Tls.{
  Transport, SslAnswer, done, want_read, want_write, close_notify, broken, Mbedtls, TlsConfig,
  TlsSocket, bio, configure, configure_ssl, after_handshake, handshake_loop, expected_name, named,
  linked, tls_connect,
}
use cpp_template.Net.Tls.Configured.{
  Documented, Trusts, Configured, configure_ssl-Trusts, with_setup-Configured,
}

module _ (transport : Transport) (mbedtls : Mbedtls transport.Link)
    (documented : Documented mbedtls) where
  open transport use {Link}
  open mbedtls use {Ssl, set_hostname, set_bio, handshake}
  open documented use {mode, trusted, parsed, name, patience}

  -- A call of `Connect` returned success, having verified the server, or an error.
  pub data Connected (cfg : TlsConfig) (earlier : List Bytes) (host : Bytes) (before : Bool)
      : Option (Status × TlsSocket transport mbedtls) → Type 0 where
    up :
        {t : TlsSocket transport mbedtls} {s : Ssl} {k : Link}
        → handshake (bio transport) s k ≡ (done zero, t.ssl, t.link)
        → t.handshaked ≡ true
        → Trusts transport mbedtls documented cfg earlier t.ssl
        → name t.ssl ≡ expected_name transport mbedtls cfg.server_name host
        → Connected cfg earlier host before (some (ok tt, t))
    down :
        {t : TlsSocket transport mbedtls} {e : Error}
        → t.handshaked ≡ before
        → Connected cfg earlier host before (some (err e, t))

  Trusts-kept :
      (cfg : TlsConfig) (earlier : List Bytes) (s s' : Ssl)
      → mode s' ≡ mode s
      → trusted s' ≡ trusted s
      → Trusts transport mbedtls documented cfg earlier s
      → Trusts transport mbedtls documented cfg earlier s'
  Trusts-kept cfg earlier s s' m ca (inl (e, f)) = inl (e, m ∙ f)
  Trusts-kept cfg earlier s s' m ca (inr (e, f, g)) = inr (e, m ∙ f, ca ∙ g)

  after_handshake-Connected :
      (cfg : TlsConfig) (earlier : List Bytes) (host : Bytes)
      (loop : Ssl → Link → Option (Status × TlsSocket transport mbedtls))
      (t : TlsSocket transport mbedtls) (a : SslAnswer ℕ) (s : Ssl) (k : Link) {s₀ : Ssl}
      {k₀ : Link}
      → handshake (bio transport) s₀ k₀ ≡ (a, s, k)
      → ((a ≡ want_read) ⊎ (a ≡ want_write) → Connected cfg earlier host t.handshaked (loop s k))
      → Trusts transport mbedtls documented cfg earlier s
      → name s ≡ expected_name transport mbedtls cfg.server_name host
      → Connected cfg earlier host t.handshaked (after_handshake transport mbedtls loop t (a, s, k))
  unfolding fail
  after_handshake-Connected cfg earlier host loop t (done zero) s k call again f n =
      up call refl f n
  after_handshake-Connected cfg earlier host loop t (done (suc x)) s k call again f n = down refl
  after_handshake-Connected cfg earlier host loop t want_read s k call again f n = again (inl refl)
  after_handshake-Connected cfg earlier host loop t want_write s k call again f n = again (inr refl)
  after_handshake-Connected cfg earlier host loop t close_notify s k call again f n = down refl
  after_handshake-Connected cfg earlier host loop t broken s k call again f n = down refl

  handshake_loop-Connected :
      (cfg : TlsConfig) (earlier : List Bytes) (host : Bytes) (f : ℕ)
      (t : TlsSocket transport mbedtls) (s : Ssl) (k : Link)
      → patience s < f
      → Trusts transport mbedtls documented cfg earlier s
      → name s ≡ expected_name transport mbedtls cfg.server_name host
      → Connected cfg earlier host t.handshaked (handshake_loop transport mbedtls f t s k)
  unfolding handshake_loop
  handshake_loop-Connected cfg earlier host zero t s k enough tr n = absurd (omega arith)
  handshake_loop-Connected cfg earlier host (suc f) t s k enough tr n =
      let r : SslAnswer ℕ × Ssl × Link = handshake (bio transport) s k in
      let (m, ca, nm) = documented.handshake_keeps (bio transport) s k in
      let tr' : Trusts transport mbedtls documented cfg earlier r.1 =
        Trusts-kept cfg earlier s r.1 m ca tr in
      after_handshake-Connected cfg earlier host (handshake_loop transport mbedtls f t) t r.0 r.1
        r.2 refl
        (λ wants.
          handshake_loop-Connected cfg earlier host f t r.1 r.2
            (omega (arith, documented.handshake_patience (bio transport) s k wants)) tr' (nm ∙ n))
        tr' (nm ∙ n)

  named-Connected :
      (cfg : TlsConfig) (earlier : List Bytes) (host : Bytes) (f : ℕ)
      (t : TlsSocket transport mbedtls) (p : Bool × Ssl)
      → patience p.1 < f
      → Trusts transport mbedtls documented cfg earlier p.1
      → (p.0 ≡ true → name p.1 ≡ expected_name transport mbedtls cfg.server_name host)
      → Connected cfg earlier host t.handshaked (named transport mbedtls f t p)
  unfolding fail
  named-Connected cfg earlier host f t (false, s) enough tr n = down refl
  named-Connected cfg earlier host f t (true, s) enough tr n =
      let (m, ca, patient, nm) = documented.bio_keeps s in
      handshake_loop-Connected cfg earlier host f t (set_bio s) t.link (omega (arith, patient))
        (Trusts-kept cfg earlier s (set_bio s) m ca tr) (nm ∙ n refl)

  linked-Connected :
      (cfg : TlsConfig) (earlier : List Bytes) (host : Bytes) (f : ℕ)
      (t : TlsSocket transport mbedtls) (r : Status × Link)
      → patience t.ssl < f
      → Trusts transport mbedtls documented cfg earlier t.ssl
      → t.server_name ≡ cfg.server_name
      → Connected cfg earlier host t.handshaked (linked transport mbedtls f host t r)
  linked-Connected cfg earlier host f t (err e, k) enough tr n = down refl
  linked-Connected cfg earlier host f t (ok u, k) enough tr n =
      let wanted : Bytes = expected_name transport mbedtls t.server_name host in
      let (m, ca, patient) = documented.hostname_keeps t.ssl wanted in
      named-Connected cfg earlier host f (record t { link = k }) (set_hostname t.ssl wanted)
        (omega (arith, patient))
        (Trusts-kept cfg earlier t.ssl (set_hostname t.ssl wanted).1 m ca tr)
        (λ e.
          documented.hostname_set t.ssl wanted e
          ∙ ap (λ x. expected_name transport mbedtls x host) n)

  -- After a successful `Configure`, `Connect` returns: with an error, or with success, and then a
  -- handshake has been completed in which the server had to show the configured name, or else the
  -- host's, up to 255 bytes, in a certificate under the configured authority or one that was
  -- configured on the same socket before, unless the configuration skips the verification. One call of the handshake more than those that may ask
  -- to be repeated is enough.
  pub tls_connect-Connected :
      (cfg : TlsConfig) (t : TlsSocket transport mbedtls) (host : Bytes) (port f : ℕ)
      → (configure transport mbedtls cfg t).0 ≡ ok tt
      → patience (configure transport mbedtls cfg t).1.ssl < f
      → Connected cfg
          (parsed t.ssl)
          host
          t.handshaked
          (tls_connect transport mbedtls f host port (configure transport mbedtls cfg t).1)
  unfolding tls_connect configure
  tls_connect-Connected cfg t host port f fine enough =
      let t₁ : TlsSocket transport mbedtls = (configure transport mbedtls cfg t).1 in
      let c : Configured transport mbedtls documented cfg t t₁ =
        with_setup-Configured transport mbedtls documented cfg t
          (configure_ssl transport mbedtls t.has_external_key cfg t.ssl)
          (configure_ssl-Trusts transport mbedtls documented t.has_external_key cfg t.ssl) fine in
      subst
        (λ b. Connected cfg (parsed t.ssl) host b (tls_connect transport mbedtls f host port t₁))
        c.handshaked_eq
        (subst (Connected cfg (parsed t.ssl) host t₁.handshaked)
          (sym (if_false _ _ (ap not c.configured_eq)))
          (linked-Connected cfg (parsed t.ssl) host f t₁ (transport.link_connect t₁.link host port)
            enough c.trusts c.server_name_eq))
