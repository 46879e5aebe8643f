-- ===== src/Net/Tls.antt =====
-- include/etlx/net/tls.hpp and src/net/tls.cpp: `TlsSocket` over any transport. The TLS library is
-- the record `Mbedtls`; its contexts that belong to one socket are its type `Ssl`.
pub mod Configured
pub mod Trust
use cpp_template.Base.{
  ℕ, zero, suc, ◌+◌, Bool, true, false, not, ◌&&◌, ◌||◌, Option, none, some, List, [], ◌∷◌, Bytes,
  codes, length, take, drop, ltb, if◌then◌else◌,
}
use cpp_template.Core.{Category, Result, ok, err, fail, Status}
use cpp_template.Net.{send_failed, recv_failed, tls_error}

-- `Socket`, the transport below.
pub record Transport : Type 1 where
  pub Link : Type 0
  pub link_connect : Link → Bytes → ℕ → Status × Link
  pub link_send : Link → Bytes → Status × Link
  pub link_recv : Link → ℕ → Result Bytes × Link
  pub link_close : Link → Link

-- What `BioSend` and `BioRecv` return: a count or bytes, or MBEDTLS_ERR_SSL_INTERNAL_ERROR.
pub data BioAnswer (A : Type 0) : Type 0 where
  bio_done : A → BioAnswer A
  bio_error : BioAnswer A

pub record Bio (Link : Type 0) : Type 0 where
  pub out_bytes : Link → Bytes → BioAnswer ℕ × Link
  pub in_bytes : Link → ℕ → BioAnswer Bytes × Link

-- What the library's calls return: a count, which 0 is one of, one of the codes that the wrapper
-- looks at, or another.
pub data SslAnswer (A : Type 0) : Type 0 where
  done : A → SslAnswer A
  want_read want_write close_notify broken : SslAnswer A

-- MBEDTLS_SSL_VERIFY_NONE and MBEDTLS_SSL_VERIFY_REQUIRED
pub data AuthMode : Type 0 where
  verify_none verify_required : AuthMode

-- The client's key: the parsed one or the one of `UseExternalKey`.
pub data KeySource : Type 0 where
  own_key external_key : KeySource

-- The library's calls; a Boolean tells whether a call returned 0.
pub record Mbedtls (Link : Type 0) : Type 1 where
  pub Ssl : Type 0
  pub drbg_seed : Ssl → Bool × Ssl
  pub config_defaults : Ssl → Bool × Ssl
  pub conf_rng : Ssl → Ssl
  pub conf_authmode : Ssl → AuthMode → Ssl
  pub parse_ca : Ssl → Bytes → Bool × Ssl
  pub conf_ca_chain : Ssl → Ssl
  pub parse_own_cert : Ssl → Bytes → Bool × Ssl
  pub parse_own_key : Ssl → Bytes → Bool × Ssl
  pub conf_own_cert : Ssl → KeySource → Bool × Ssl
  pub ssl_setup : Ssl → Bool × Ssl
  pub set_hostname : Ssl → Bytes → Bool × Ssl
  pub set_bio : Ssl → Ssl
  pub handshake : Bio Link → Ssl → Link → SslAnswer ℕ × Ssl × Link
  pub ssl_write : Bio Link → Ssl → Link → Bytes → SslAnswer ℕ × Ssl × Link
  pub ssl_read : Bio Link → Ssl → Link → ℕ → SslAnswer Bytes × Ssl × Link
  pub send_close_notify : Bio Link → Ssl → Link → Ssl × Link

pub record TlsConfig : Type 0 where
  pub ca_cert_pem : Bytes
  pub client_cert_pem : Bytes
  pub client_key_pem : Bytes
  pub server_name : Bytes
  pub skip_verify : Bool

abbrev pub is_empty : Bytes → Bool
is_empty [] = true
is_empty (c ∷ s) = false

module _ (transport : Transport) where
  open transport use {Link, link_connect, link_send, link_recv, link_close}

  abbrev pub bio_sent : ℕ → Status × Link → BioAnswer ℕ × Link
  bio_sent n (err e, k) = (bio_error, k)
  bio_sent n (ok u, k) = (bio_done n, k)

  -- `BioSend`
  unfoldable pub bio_send : Link → Bytes → BioAnswer ℕ × Link
  bio_send k buf = bio_sent (length buf) (link_send k buf)

  abbrev pub bio_received : Result Bytes × Link → BioAnswer Bytes × Link
  bio_received (err e, k) = (bio_error, k)
  bio_received (ok bytes, k) = (bio_done bytes, k)

  -- `BioRecv`
  unfoldable pub bio_recv : Link → ℕ → BioAnswer Bytes × Link
  bio_recv k size = bio_received (link_recv k size)

  abbrev pub bio : Bio Link
  bio = record { out_bytes = bio_send; in_bytes = bio_recv }

  module _ (mbedtls : Mbedtls Link) where
    open mbedtls use {
      Ssl, drbg_seed, config_defaults, conf_rng, conf_authmode, parse_ca, conf_ca_chain,
      parse_own_cert, parse_own_key, conf_own_cert, ssl_setup, set_hostname, set_bio, handshake,
      ssl_write, ssl_read, send_close_notify,
    }

    -- `TlsSocket`, with its transport.
    pub record TlsSocket : Type 0 where
      pub ssl : Ssl
      pub link : Link
      pub has_external_key : Bool
      pub server_name : Bytes
      pub configured : Bool
      pub handshaked : Bool

    -- `UseExternalKey`
    abbrev pub use_external_key : TlsSocket → TlsSocket
    use_external_key t = record t { has_external_key = true }

    -- `if (... != 0) return Fail(...)`
    abbrev pub check : Bytes → (Ssl → Status × Ssl) → Bool × Ssl → Status × Ssl
    check text rest (true, s) = rest s
    check text rest (false, s) = (fail Category.net tls_error text, s)

    -- The last steps of `Configure`.
    abbrev pub set_up : Ssl → Status × Ssl
    set_up s = check (codes "ssl setup failed") (λ s'. (ok tt, s')) (ssl_setup s)

    abbrev pub set_own_cert : KeySource → Ssl → Status × Ssl
    set_own_cert key s = check (codes "set client cert failed") set_up (conf_own_cert s key)

    abbrev pub key_part : Bool → Bytes → Ssl → Status × Ssl
    key_part true pem s = set_own_cert external_key s
    key_part false pem s =
        check (codes "parse client key failed") (set_own_cert own_key) (parse_own_key s pem)

    -- The client's certificate.
    abbrev pub client_part : Bool → TlsConfig → Ssl → Status × Ssl
    client_part external cfg s =
        if not (is_empty cfg.client_cert_pem) && (not (is_empty cfg.client_key_pem) || external)
        then check (codes "parse client cert failed") (key_part external cfg.client_key_pem)
            (parse_own_cert s cfg.client_cert_pem)
        else set_up s

    -- The verification of the server.
    abbrev pub trust_part : Bool → Bool → TlsConfig → Ssl → Status × Ssl
    trust_part true external cfg s = client_part external cfg (conf_authmode s verify_none)
    trust_part false external cfg s =
        check (codes "parse CA cert failed")
          (λ s'. client_part external cfg (conf_authmode (conf_ca_chain s') verify_required))
          (parse_ca s cfg.ca_cert_pem)

    unfoldable pub configure_ssl : Bool → TlsConfig → Ssl → Status × Ssl
    configure_ssl external cfg s =
        check (codes "drbg seed failed")
          (λ s'.
            check (codes "ssl config defaults failed")
              (λ s''. trust_part cfg.skip_verify external cfg (conf_rng s'')) (config_defaults s'))
          (drbg_seed s)

    abbrev pub with_setup : TlsConfig → TlsSocket → Status × Ssl → Status × TlsSocket
    with_setup cfg t (err e, s) = (err e, record t { ssl = s })
    with_setup cfg t (ok u, s) =
        (ok tt, record t { ssl = s; server_name = cfg.server_name; configured = true })

    -- `Configure`
    unfoldable pub configure : TlsConfig → TlsSocket → Status × TlsSocket
    configure cfg t = with_setup cfg t (configure_ssl t.has_external_key cfg t.ssl)

    abbrev pub after_handshake :
        (Ssl → Link → Option (Status × TlsSocket))
        → TlsSocket
        → SslAnswer ℕ × Ssl × Link
        → Option (Status × TlsSocket)
    after_handshake loop t (done zero, s, k) =
        some (ok tt, record t { ssl = s; link = k; handshaked = true })
    after_handshake loop t (want_read, s, k) = loop s k
    after_handshake loop t (want_write, s, k) = loop s k
    after_handshake loop t (_, s, k) =
        some (
          fail Category.net tls_error (codes "TLS handshake failed"),
          record t { ssl = s; link = k },
        )

    -- The loop of the handshake, on fuel.
    unfoldable pub handshake_loop : ℕ → TlsSocket → Ssl → Link → Option (Status × TlsSocket)
    handshake_loop zero t s k = none
    handshake_loop (suc f) t s k = after_handshake (handshake_loop f t) t (handshake bio s k)

    -- The name that the server has to show, up to 255 bytes.
    abbrev pub expected_name : Bytes → Bytes → Bytes
    expected_name [] host = take 255 host
    expected_name (c ∷ s) host = take 255 (c ∷ s)

    abbrev pub named : ℕ → TlsSocket → Bool × Ssl → Option (Status × TlsSocket)
    named f t (false, s) =
        some (fail Category.net tls_error (codes "set hostname failed"), record t { ssl = s })
    named f t (true, s) = handshake_loop f t (set_bio s) t.link

    abbrev pub linked : ℕ → Bytes → TlsSocket → Status × Link → Option (Status × TlsSocket)
    linked f host t (err e, k) = some (err e, record t { link = k })
    linked f host t (ok u, k) =
        named f (record t { link = k }) (set_hostname t.ssl (expected_name t.server_name host))

    -- `Connect`, on fuel for the handshake.
    unfoldable pub tls_connect : ℕ → Bytes → ℕ → TlsSocket → Option (Status × TlsSocket)
    tls_connect f host port t =
        if not t.configured
        then some (fail Category.net tls_error (codes "Configure not called"), t)
        else linked f host t (link_connect t.link host port)

    abbrev pub with_ssl : TlsSocket → Ssl → Link → TlsSocket
    with_ssl t s k = record t { ssl = s; link = k }

    abbrev pub after_write :
        (ℕ → TlsSocket → Option (Status × TlsSocket))
        → ℕ
        → TlsSocket
        → SslAnswer ℕ × Ssl × Link
        → Option (Status × TlsSocket)
    after_write loop sent t (done (suc n), s, k) = loop (sent + suc n) (with_ssl t s k)
    after_write loop sent t (want_read, s, k) = loop sent (with_ssl t s k)
    after_write loop sent t (want_write, s, k) = loop sent (with_ssl t s k)
    after_write loop sent t (_, s, k) =
        some (fail Category.net send_failed (codes "ssl write failed"), with_ssl t s k)

    -- The loop of `Send`, on fuel.
    unfoldable pub write_loop : ℕ → Bytes → ℕ → TlsSocket → Option (Status × TlsSocket)
    write_loop zero src sent t = none
    write_loop (suc f) src sent t =
        if ltb sent (length src)
        then after_write (write_loop f src) sent t (ssl_write bio t.ssl t.link (drop sent src))
        else some (ok tt, t)

    -- `Send`
    unfoldable pub tls_send : ℕ → Bytes → TlsSocket → Option (Status × TlsSocket)
    tls_send f src t = write_loop f src 0 t

    abbrev pub after_read :
        (TlsSocket → Option (Result Bytes × TlsSocket))
        → TlsSocket
        → SslAnswer Bytes × Ssl × Link
        → Option (Result Bytes × TlsSocket)
    after_read loop t (done bytes, s, k) = some (ok bytes, with_ssl t s k)
    after_read loop t (close_notify, s, k) = some (ok [], with_ssl t s k)
    after_read loop t (want_read, s, k) = loop (with_ssl t s k)
    after_read loop t (want_write, s, k) = loop (with_ssl t s k)
    after_read loop t (broken, s, k) =
        some (fail Category.net recv_failed (codes "ssl read failed"), with_ssl t s k)

    -- `Recv` into a view of `size` bytes, on fuel: the bytes in front of it.
    unfoldable pub tls_recv : ℕ → ℕ → TlsSocket → Option (Result Bytes × TlsSocket)
    tls_recv zero size t = none
    tls_recv (suc f) size t = after_read (tls_recv f size) t (ssl_read bio t.ssl t.link size)

    -- `Close`
    unfoldable pub tls_close : TlsSocket → TlsSocket
    tls_close t =
        if t.handshaked
        then (let (s, k) = send_close_notify bio t.ssl t.link in
            record t { ssl = s; link = link_close k; handshaked = false })
        else record t { link = link_close t.link }
