-- ===== src/Net/Connects.antt =====
-- `Connect` and `Close` of a TCP socket leave no descriptor open but the socket's own.
use cpp_template.Base.{
  ℕ, Bool, true, false, not, ◌&&◌, ◌||◌, Option, none, some, [], ◌∷◌, List, Bytes, ◌≡◌, refl, ◌∙◌,
  ◌⊎◌, inl, inr, take, ◌==◌, ==_iff, Bool-cases, ap, sym,
}
use cpp_template.Core.{Category, ok, Status, error_code, fail, make}
use cpp_template.Net.{
  Kernel, tcp_close, after_connect, after_socket, try_all, connected, resolved, tcp_connect,
}

-- What the code relies on of descriptors: `socket` opens one that was not open, `close` closes the
-- one that it is given, and the other calls open and close none.
pub record Descriptors (kernel : Kernel) : Type 0 where
  pub fd_open : kernel.System → ℕ → Bool
  pub getaddrinfo_same :
      (s : kernel.System) (host : Bytes) (port j : ℕ)
      → fd_open (kernel.getaddrinfo s host port).1 j ≡ fd_open s j
  pub socket_none :
      (s : kernel.System) (a : kernel.Address) (j : ℕ)
      → (kernel.socket s a).0 ≡ none
      → fd_open (kernel.socket s a).1 j ≡ fd_open s j
  pub socket_new :
      (s : kernel.System) (a : kernel.Address) (fd : ℕ)
      → (kernel.socket s a).0 ≡ some fd
      → fd_open s fd ≡ false
  pub socket_opens :
      (s : kernel.System) (a : kernel.Address) (fd j : ℕ)
      → (kernel.socket s a).0 ≡ some fd
      → fd_open (kernel.socket s a).1 j ≡ (j == fd || fd_open s j)
  pub connect_same :
      (s : kernel.System) (fd : ℕ) (a : kernel.Address) (j : ℕ)
      → fd_open (kernel.connect s fd a).1 j ≡ fd_open s j
  pub close_closes :
      (s : kernel.System) (fd j : ℕ)
      → fd_open (kernel.close_fd s fd) j ≡ (not (j == fd) && fd_open s j)

abbrev failed : ℕ → Bytes → Status
failed code text = fail Category.net code text

failed_code : (code : ℕ) (text : Bytes) → error_code (failed code text) ≡ some code
unfolding fail make
failed_code code text = refl

-- Closing what was opened leaves what was open.
opened_and_closed :
    (j fd : ℕ) (open_before : ℕ → Bool)
    → open_before fd ≡ false
    → (not (j == fd) && (j == fd || open_before j)) ≡ open_before j
opened_and_closed j fd open_before new = elim (Bool-cases (j == fd)) [
  | inl e ↦ rw e (sym (ap open_before ((==_iff j fd).0 e) ∙ new))
  | inr e ↦ rw e refl
]

module _ (kernel : Kernel) (descriptors : Descriptors kernel) where
  open kernel use {System, Address, getaddrinfo, socket, connect, close_fd}
  open descriptors use {
    fd_open, getaddrinfo_same, socket_none, socket_new, socket_opens, connect_same, close_closes,
  }

  -- The descriptors that are open without the socket's own.
  abbrev pub without : Option ℕ → System → ℕ → Bool
  without none s j = fd_open s j
  without (some fd) s j = not (j == fd) && fd_open s j

  -- Those of `others` are open, and the socket's own.
  abbrev pub Holds : (ℕ → Bool) → Option ℕ × System → Type 0
  Holds others (none, s) = (j : ℕ) → fd_open s j ≡ others j
  Holds others (some fd, s) = (others fd ≡ false) × ((j : ℕ) → fd_open s j ≡ (j == fd || others j))

  close-without :
      (d : Option ℕ) (s : System) (j : ℕ) → fd_open (tcp_close kernel d s).1 j ≡ without d s j
  unfolding tcp_close
  close-without none s j = refl
  close-without (some fd) s j = close_closes s fd j

  after_connect-Holds :
      (others : ℕ → Bool) (rest : System → Option ℕ × System) (fd : ℕ) (a : Address) (s : System)
      → ((s' : System) → ((j : ℕ) → fd_open s' j ≡ others j) → Holds others (rest s'))
      → others fd ≡ false
      → ((j : ℕ) → fd_open s j ≡ (j == fd || others j))
      → (b : Bool) → Holds others (after_connect kernel rest fd (b, (connect s fd a).1))
  after_connect-Holds others rest fd a s ih new h true = (new, λ j. connect_same s fd a j ∙ h j)
  after_connect-Holds others rest fd a s ih new h false = ih (close_fd (connect s fd a).1 fd) (λ j.
      close_closes (connect s fd a).1 fd j
      ∙ ap (λ b. not (j == fd) && b) (connect_same s fd a j ∙ h j)
      ∙ opened_and_closed j fd others new)

  after_socket-Holds :
      (others : ℕ → Bool) (rest : System → Option ℕ × System) (a : Address) (s : System)
      → ((s' : System) → ((j : ℕ) → fd_open s' j ≡ others j) → Holds others (rest s'))
      → ((j : ℕ) → fd_open s j ≡ others j)
      → (o : Option ℕ) → (socket s a).0 ≡ o
      → Holds others (after_socket kernel rest a (o, (socket s a).1))
  after_socket-Holds others rest a s ih h none e =
      ih (socket s a).1 (λ j. socket_none s a j e ∙ h j)
  after_socket-Holds others rest a s ih h (some fd) e =
      after_connect-Holds others rest fd a (socket s a).1 ih (sym (h fd) ∙ socket_new s a fd e)
        (λ j. socket_opens s a fd j e ∙ ap (λ b. j == fd || b) (h j))
        (connect (socket s a).1 fd a).0

  try_all-Holds :
      (others : ℕ → Bool) (addresses : List Address) (s : System)
      → ((j : ℕ) → fd_open s j ≡ others j)
      → Holds others (try_all kernel addresses s)
  unfolding try_all
  try_all-Holds others [] s h = h
  try_all-Holds others (a ∷ rest) s h =
      after_socket-Holds others (try_all kernel rest) a s (try_all-Holds others rest) h
        (socket s a).0 refl

  -- What `Connect` returns, and the socket's descriptor with it.
  pub data Connected (others : ℕ → Bool) : Status × Option ℕ × System → Type 0 where
    open_one :
        {fd : ℕ} {s : System}
        → others fd ≡ false
        → ((j : ℕ) → fd_open s j ≡ (j == fd || others j))
        → Connected others (ok tt, some fd, s)
    open_none :
        {r : Status} {s : System} {code : ℕ}
        → error_code r ≡ some code
        → (code ≡ 1) ⊎ (code ≡ 2)
        → ((j : ℕ) → fd_open s j ≡ others j)
        → Connected others (r, none, s)

  connected-Connected :
      (others : ℕ → Bool) (r : Option ℕ × System)
      → Holds others r
      → Connected others (connected kernel r)
  connected-Connected others (none, s) h = open_none (failed_code _ _) (inr refl) h
  connected-Connected others (some fd, s) h = open_one h.0 h.1

  resolved-Connected :
      (others : ℕ → Bool) (o : Option (List Address)) (s : System)
      → ((j : ℕ) → fd_open s j ≡ others j)
      → Connected others (resolved kernel (o, s))
  resolved-Connected others none s h = open_none (failed_code _ _) (inl refl) h
  resolved-Connected others (some []) s h = open_none (failed_code _ _) (inl refl) h
  resolved-Connected others (some (a ∷ rest)) s h =
      connected-Connected others (try_all kernel (a ∷ rest) s) (try_all-Holds others (a ∷ rest) s h)

  -- `Connect` closes the descriptor that the socket had, and every other one that it opens on the
  -- way: when it succeeds, one that was not open is, and it is the socket's, and when it fails, with
  -- `ResolveFailed` or `ConnectFailed`, the socket has none; every other descriptor is open if it
  -- was open before.
  pub tcp_connect-Connected :
      (host : Bytes) (port : ℕ) (d : Option ℕ) (s : System)
      → Connected (without d s) (tcp_connect kernel host port d s)
  unfolding tcp_connect
  tcp_connect-Connected host port d s =
      let s₁ : System = (tcp_close kernel d s).1 in
      let r : Option (List Address) × System = getaddrinfo s₁ (take 256 host) port in
      resolved-Connected (without d s) r.0 r.1
        (λ j. getaddrinfo_same s₁ (take 256 host) port j ∙ close-without d s j)
