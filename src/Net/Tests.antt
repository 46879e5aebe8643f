-- ===== src/Net/Tests.antt =====
-- A small system for the TCP socket, and a small library for the TLS socket.
use cpp_template.Base.{
  ℕ, zero, suc, ◌≤◌, ◌<◌, min, Bool, true, false, none, some, List, [], ◌∷◌, ◌++◌, Bytes, codes,
  ◌≡◌, refl, sym, ap, ◌⊎◌, ◌∙◌, ◌+◌, ◌==◌, if◌then◌else◌, not, ◌&&◌, ◌||◌, some_injective, take,
  length, arith, inl, inr,
}
use cpp_template.Core.{ok}
use cpp_template.Net.{
  Kernel, SendAnswer, wrote, send_interrupted, send_refused, got, tcp_send, tcp_connect,
}
use cpp_template.Net.Sends.{Stream, Handed, tcp_send-Handed}
use cpp_template.Net.Connects.{Descriptors, Connected, without, tcp_connect-Connected}
use cpp_template.Net.Tls.{
  Transport, Mbedtls, AuthMode, verify_none, done, want_read, want_write, TlsConfig, TlsSocket,
  configure, tls_connect, configure_ssl, SslAnswer,
}
use cpp_template.Net.Tls.Trust
use cpp_template.Net.Tls.Configured.{Documented}
use cpp_template.Net.Tls.Trust.{tls_connect-Connected}

-- The interruptions that are still to come, the bytes taken over, and the open descriptors.
abbrev Small : Type 0
Small = ℕ × Bytes × List ℕ

abbrev small_send : Small → ℕ → Bytes → SendAnswer × Small
small_send (zero, taken, fds) fd src =
    (wrote (min 3 (length src)), (zero, taken ++ take (min 3 (length src)) src, fds))
small_send (suc n, taken, fds) fd src = (send_interrupted, (n, taken, fds))

-- A number above all of the list.
abbrev above : List ℕ → ℕ
above [] = 0
above (x ∷ xs) = x + 1 + above xs

abbrev listed : ℕ → List ℕ → Bool
listed j [] = false
listed j (x ∷ xs) = j == x || listed j xs

abbrev removed : ℕ → List ℕ → List ℕ
removed fd [] = []
removed fd (x ∷ xs) = let rest = removed fd xs in if x == fd then rest else x ∷ rest

listed_below : (j : ℕ) (l : List ℕ) → above l ≤ j → listed j l ≡ false
listed_below j [] h = refl
listed_below j (x ∷ xs) h =
    let other : (j == x) ≡ false = ground arith in rw other (listed_below j xs (omega arith))

listed-removed : (fd j : ℕ) (l : List ℕ) → listed j (removed fd l) ≡ (not (j == fd) && listed j l)
listed-removed fd j [] = ground arith
listed-removed fd j (x ∷ xs) = ground (arith, listed-removed fd j xs)

abbrev small_kernel : Kernel
small_kernel = record {
  System = Small;
  Address = Bool;
  getaddrinfo = λ s host port. (some (false ∷ true ∷ []), s);
  socket = λ s a. (some (above s.2), (s.0, s.1, above s.2 ∷ s.2));
  connect = λ s fd a. (a, s);
  send = small_send;
  recv = λ s fd size. (got [], s);
  close_fd = λ s fd. (s.0, s.1, removed fd s.2);
}

apart : {n : ℕ} → wrote n ≡ send_interrupted → ⊥
apart e = cc

small_wrote :
    (s : Small) (src : Bytes) (n : ℕ)
    → 0 < length src
    → (small_send s 0 src).0 ≡ wrote n
    → (0 < n)
      × (n ≤ length src)
      × ((small_send s 0 src).1.1 ≡ s.1 ++ take n src)
      × ((small_send s 0 src).1.0 ≤ s.0)
small_wrote (zero, taken, fds) src n more e =
    let count : min 3 (length src) ≡ n = ap (λ a. elim a [ wrote k ↦ k | _ ↦ 0 ]) e in
    (omega (arith, count), omega (arith, count), ap (λ k. taken ++ take k src) count, omega arith)
small_wrote (suc m, taken, fds) src n more e = absurd (apart (sym e))

small_interrupted :
    (s : Small) (src : Bytes)
    → (small_send s 0 src).0 ≡ send_interrupted
    → ((small_send s 0 src).1.1 ≡ s.1) × ((small_send s 0 src).1.0 < s.0)
small_interrupted (zero, taken, fds) src e = absurd (apart e)
small_interrupted (suc m, taken, fds) src e = (refl, omega arith)

small_refused :
    (s : Small) (src text : Bytes)
    → (small_send s 0 src).0 ≡ send_refused text
    → (small_send s 0 src).1.1 ≡ s.1
small_refused (zero, taken, fds) src text e = cc
small_refused (suc m, taken, fds) src text e = cc

abbrev small_stream : Stream small_kernel 0
small_stream = record {
  accepted = λ s. s.1;
  patience = λ s. s.0;
  wrote_front = small_wrote;
  interrupted_less = small_interrupted;
  refused_none = small_refused;
}

abbrev quiet : Small
quiet = (2, [], 0 ∷ [])

tcp_send-Handed_example :
    Handed small_kernel 0 small_stream
      (codes "GET /")
      quiet
      (tcp_send small_kernel 8 0 (codes "GET /") quiet)
tcp_send-Handed_example =
    tcp_send-Handed small_kernel 0 small_stream 8 (codes "GET /") quiet (omega arith)

none_is_not_some : (n : ℕ) → some n ≡ none → ⊥
none_is_not_some n e = cc

abbrev small_descriptors : Descriptors small_kernel
small_descriptors = record {
  fd_open = λ s j. listed j s.2;
  getaddrinfo_same = λ s host port j. refl;
  socket_none = λ s a j e. absurd (none_is_not_some (above s.2) e);
  socket_new = λ s a fd e.
      ap (λ n. listed n s.2) (sym (some_injective e)) ∙ listed_below (above s.2) s.2 (omega arith);
  socket_opens = λ s a fd j e. ap (λ n. j == n || listed j s.2) (some_injective e);
  connect_same = λ s fd a j. refl;
  close_closes = λ s fd j. listed-removed fd j s.2;
}

tcp_connect-Connected_example :
    Connected small_kernel small_descriptors
      (without small_kernel small_descriptors (some 0) quiet)
      (tcp_connect small_kernel (codes "localhost") 80 (some 0) quiet)
tcp_connect-Connected_example =
    tcp_connect-Connected small_kernel small_descriptors (codes "localhost") 80 (some 0) quiet

-- The mode, the authority in force, the parsed one, and the name.
abbrev Context : Type 0
Context = AuthMode × List Bytes × List Bytes × Bytes

abbrev small_transport : Transport
small_transport = record {
  Link = Bytes;
  link_connect = λ k host port. (ok tt, k);
  link_send = λ k src. (ok tt, k ++ src);
  link_recv = λ k size. (ok [], k);
  link_close = λ k. k;
}

abbrev small_tls : Mbedtls Bytes
small_tls = record {
  Ssl = Context;
  drbg_seed = λ s. (true, s);
  config_defaults = λ s. (true, s);
  conf_rng = λ s. s;
  conf_authmode = λ s m. (m, s.1, s.2, s.3);
  parse_ca = λ s pem. (true, (s.0, s.1, s.2 ++ pem ∷ [], s.3));
  conf_ca_chain = λ s. (s.0, s.2, s.2, s.3);
  parse_own_cert = λ s pem. (true, s);
  parse_own_key = λ s pem. (true, s);
  conf_own_cert = λ s key. (true, s);
  ssl_setup = λ s. (true, s);
  set_hostname = λ s n. (true, (s.0, s.1, s.2, n));
  set_bio = λ s. s;
  handshake = λ b s k. (done 0, s, k);
  ssl_write = λ b s k src. (done (length src), s, k);
  ssl_read = λ b s k size. (done [], s, k);
  send_close_notify = λ b s k. (s, k);
}

abbrev finished : SslAnswer ℕ
finished = done 0

never_wants : (finished ≡ want_read) ⊎ (finished ≡ want_write) → ⊥
never_wants (inl e) = cc
never_wants (inr e) = cc

abbrev small_documented : Documented small_tls
small_documented = record {
  mode = λ s. s.0;
  trusted = λ s. s.1;
  parsed = λ s. s.2;
  name = λ s. s.3;
  patience = λ s. 0;
  parse_ca_parsed = λ s pem e. refl;
  seed_keeps = λ s. refl;
  defaults_keep = λ s. refl;
  rng_keeps = λ s. refl;
  chain_trusted = λ s. refl;
  mode_set = λ s m. refl;
  mode_trusted = λ s m. refl;
  parse_own_cert_keeps = λ s pem. (refl, refl);
  parse_own_key_keeps = λ s pem. (refl, refl);
  conf_own_cert_keeps = λ s key. (refl, refl);
  ssl_setup_keeps = λ s. (refl, refl);
  hostname_set = λ s n e. refl;
  hostname_keeps = λ s n. (refl, refl, refl);
  bio_keeps = λ s. (refl, refl, refl, refl);
  handshake_keeps = λ b s k. (refl, refl, refl);
  handshake_patience = λ b s k e. absurd (never_wants e);
}

abbrev tls_config : TlsConfig
tls_config = record {
  ca_cert_pem = codes "CA";
  client_cert_pem = codes "certificate";
  client_key_pem = codes "key";
  server_name = [];
  skip_verify = false;
}

abbrev new_tls : TlsSocket small_transport small_tls
new_tls = record {
  ssl = (verify_none, [], [], []);
  link = [];
  has_external_key = false;
  server_name = [];
  configured = false;
  handshaked = false;
}

configured_fine : (configure small_transport small_tls tls_config new_tls).0 ≡ ok tt
unfolding configure configure_ssl
configured_fine = refl

tls_connect-Connected_example :
    Trust.Connected small_transport small_tls small_documented tls_config []
      (codes "example.org")
      false
      (tls_connect small_transport small_tls 1
        (codes "example.org")
        443
        (configure small_transport small_tls tls_config new_tls).1)
tls_connect-Connected_example =
    tls_connect-Connected small_transport small_tls small_documented tls_config new_tls
      (codes "example.org") 443 1 configured_fine (omega arith)
