-- ===== src/Net/Sends.antt =====
-- `Send` of a TCP socket hands over the whole span, or a part of it and an error.
use cpp_template.Base.{
  ℕ, zero, suc, ◌+◌, ◌-◌, ◌≤◌, ◌<◌, Option, some, [], ◌∷◌, ◌++◌, Bytes, ◌≡◌, refl, sym, ◌∙◌, ap,
  subst, inl, inr, length, take, drop, ltb, arith, append_assoc, append-nil, length-drop, drop_all,
  Bool-cases, ltb→lt, take-append-drop,
}
use cpp_template.Core.{ok, fail, Status, Category}
use cpp_template.Io.Copy.{drop-drop}
use cpp_template.Net.{
  Kernel, SendAnswer, wrote, send_interrupted, send_refused, after_send, while_unsent, send_loop,
  tcp_send, send_failed,
}

-- What the code relies on of a blocking stream socket: `accepted` is what the system has taken over
-- from it so far; a call of `send` with bytes takes some from their front, or is interrupted,
-- which happens only `patience` times more, or takes none and fails.
pub record Stream (kernel : Kernel) (fd : ℕ) : Type 0 where
  pub accepted : kernel.System → Bytes
  pub patience : kernel.System → ℕ
  pub wrote_front :
      (s : kernel.System) (src : Bytes) (n : ℕ)
      → 0 < length src
      → (kernel.send s fd src).0 ≡ wrote n
      → (0 < n)
        × (n ≤ length src)
        × (accepted (kernel.send s fd src).1 ≡ accepted s ++ take n src)
        × (patience (kernel.send s fd src).1 ≤ patience s)
  pub interrupted_less :
      (s : kernel.System) (src : Bytes)
      → (kernel.send s fd src).0 ≡ send_interrupted
      → (accepted (kernel.send s fd src).1 ≡ accepted s)
        × (patience (kernel.send s fd src).1 < patience s)
  pub refused_none :
      (s : kernel.System) (src text : Bytes)
      → (kernel.send s fd src).0 ≡ send_refused text
      → accepted (kernel.send s fd src).1 ≡ accepted s

suc_plus : (n m : ℕ) → suc n + m ≡ suc (n + m)
suc_plus n m = omega arith

take_none : (n : ℕ) → take {A = ℕ} n [] ≡ []
take_none zero = refl
take_none (suc n) = refl

take_add : (n m : ℕ) (xs : Bytes) → take (n + m) xs ≡ take n xs ++ take m (drop n xs)
take_add zero m xs = ap (λ k. take k xs) (omega arith)
take_add (suc n) m [] = take_none (suc n + m) ∙ sym (take_none m)
take_add (suc n) m (x ∷ xs) =
    ap (λ k. take k (x ∷ xs)) (suc_plus n m) ∙ ap (λ l. x ∷ l) (take_add n m xs)

module _ (kernel : Kernel) (fd : ℕ) (stream : Stream kernel fd) where
  open kernel use {System, send}
  open stream use {accepted, patience, wrote_front, interrupted_less, refused_none}

  -- The span went over whole, or a part of it, before an error.
  pub data Handed (src : Bytes) (s : System) : Option (Status × System) → Type 0 where
    whole : {s' : System} → accepted s' ≡ accepted s ++ src → Handed src s (some (ok tt, s'))
    part :
        {s' : System} (n : ℕ) (text : Bytes)
        → accepted s' ≡ accepted s ++ take n src
        → Handed src s (some (fail Category.net send_failed text, s'))

  after_front :
      (rest : Bytes) (n : ℕ) (s s' : System) (o : Option (Status × System))
      → accepted s' ≡ accepted s ++ take n rest
      → Handed (drop n rest) s' o
      → Handed rest s o
  after_front rest n s s' _ e (whole h) = whole (
      h
      ∙ (ap (λ l. l ++ drop n rest) e
          ∙ (append_assoc (accepted s) (take n rest) (drop n rest)
              ∙ ap (λ l. accepted s ++ l) (take-append-drop n rest))))
  after_front rest n s s' _ e (part m text h) = part (n + m) text (
      h
      ∙ (ap (λ l. l ++ take m (drop n rest)) e
          ∙ (append_assoc (accepted s) (take n rest) (take m (drop n rest))
              ∙ ap (λ l. accepted s ++ l) (sym (take_add n m rest)))))

  after_nothing :
      (rest : Bytes) (s s' : System) (o : Option (Status × System))
      → accepted s' ≡ accepted s
      → Handed rest s' o
      → Handed rest s o
  after_nothing rest s s' o e h = after_front rest 0 s s' o (e ∙ sym (append-nil (accepted s))) h

  -- One call of `send`, and the rest of the loop.
  after_send-Handed :
      (loop : ℕ → System → Option (Status × System)) (src : Bytes) (sent : ℕ) (s : System)
      → sent < length src
      → ((k : ℕ) (s' : System)
          → k ≤ length src
          → patience s' + (length src - k) < patience s + (length src - sent)
          → Handed (drop k src) s' (loop k s'))
      → (a : SendAnswer) → (send s fd (drop sent src)).0 ≡ a
      → Handed (drop sent src) s (after_send kernel loop sent (a, (send s fd (drop sent src)).1))
  after_send-Handed loop src sent s more ih (wrote n) e =
      let rest : Bytes = drop sent src in
      let s' : System = (send s fd rest).1 in
      let (positive, fits, taken, patient) =
        wrote_front s rest n (omega (arith, length-drop sent src)) e in
      after_front rest n s s' (loop (sent + n) s') taken (
        subst (λ r. Handed r s' (loop (sent + n) s')) (sym (drop-drop sent n src))
          (ih (sent + n) s' (omega (arith, length-drop sent src))
            (omega (arith, length-drop sent src))))
  after_send-Handed loop src sent s more ih send_interrupted e =
      let s' : System = (send s fd (drop sent src)).1 in
      let (taken, less) = interrupted_less s (drop sent src) e in
      after_nothing (drop sent src) s s' (loop sent s') taken
        (ih sent s' (omega arith) (omega arith))
  after_send-Handed loop src sent s more ih (send_refused text) e =
      part 0 text (refused_none s (drop sent src) text e ∙ sym (append-nil (accepted s)))

  abbrev round : ℕ → Bytes → ℕ → System → Option (Status × System)
  round f src sent s =
      after_send kernel (send_loop kernel f fd src) sent (send s fd (drop sent src))

  send_loop-Handed :
      (f : ℕ) (src : Bytes) (sent : ℕ) (s : System)
      → sent ≤ length src
      → patience s + (length src - sent) < f
      → Handed (drop sent src) s (send_loop kernel f fd src sent s)
  unfolding send_loop
  send_loop-Handed zero src sent s le enough = absurd (omega arith)
  send_loop-Handed (suc f) src sent s le enough = elim (Bool-cases (ltb sent (length src))) [
    | inr over ↦
        subst (λ b. Handed (drop sent src) s (while_unsent kernel b (round f src sent s) s))
          (sym over)
          (whole (
            sym (append-nil (accepted s))
            ∙ ap (λ l. accepted s ++ l) (sym (drop_all sent src (ground arith)))))
    | inl more ↦
        subst (λ b. Handed (drop sent src) s (while_unsent kernel b (round f src sent s) s))
          (sym more)
          (after_send-Handed (send_loop kernel f fd src) src sent s (ltb→lt sent (length src) more)
            (λ k s' fits less. send_loop-Handed f src k s' fits (omega arith))
            (send s fd (drop sent src)).0 refl)
  ]

  -- `Send` over a stream socket ends: it returns success with the whole span taken over by the
  -- system, in order, or `SendFailed` with a part from its front taken over. One round more than
  -- the bytes of the span and the interruptions that may still come is enough.
  pub tcp_send-Handed :
      (f : ℕ) (src : Bytes) (s : System)
      → patience s + length src < f
      → Handed src s (tcp_send kernel f fd src s)
  unfolding tcp_send
  tcp_send-Handed f src s enough = send_loop-Handed f src 0 s (omega arith) (omega arith)
