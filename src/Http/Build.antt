-- ===== src/Http/Build.antt =====
-- `BuildRequest` against the text of a request.
use cpp_template.Base.{
  ℕ, zero, suc, ◌+◌, ◌-◌, ◌^◌, ◌≤◌, ◌<◌, true, false, Option, some, List, [], ◌∷◌, ◌++◌, ◌≡◌, refl,
  sym, ◌∙◌, ap, ap₂, subst, ◌⊎◌, inl, inr, arith, Bytes, codes, length, set, drop, ltb, Bool-cases,
  append-nil, append_assoc, length-append, length-drop,
}
use cpp_template.Base.Decimal.{decimal}
use cpp_template.Core.{Category, Result, ok, fail}
use cpp_template.Http.Digits.{append_uint-decimal}
use cpp_template.Http.{
  buffer_too_small, Header, Request, method_name, Appender, copy_in, append_bytes, crlf,
  append_headers, append_head, append_rest, append_body, built, build_request,
}

-- The text of a request: its line, `Host`, `Connection: close`, the headers in order, the length
-- of a body that is not empty, an empty line, and the body.
header_text : List Header → Bytes
header_text [] = []
header_text (h ∷ hs) = h.name ++ (codes ": " ++ (h.value ++ (crlf ++ header_text hs)))

body_text : Bytes → Bytes
body_text [] = crlf
body_text (x ∷ xs) =
    codes "Content-Length: " ++ (decimal (length (x ∷ xs)) ++ (crlf ++ (crlf ++ (x ∷ xs))))

head_text : Request → Bytes
head_text r =
    method_name r.method
    ++ (codes " "
        ++ (r.path
            ++ ((codes " HTTP/1.1" ++ crlf)
                ++ (codes "Host: "
                    ++ (r.host
                        ++ (crlf
                            ++ ((codes "Connection: close" ++ crlf) ++ header_text r.headers)))))))

pub request_text : Request → Bytes
unfolding head_text header_text body_text
request_text r = head_text r ++ body_text r.body

-- The buffer after a text that fitted, or the overflow after one that did not.
data Holds (buf : Bytes) (text : Bytes) (a : Appender) : Type 0 where
  fits :
      a.overflow ≡ false
      → a.pos ≡ length text
      → length text ≤ length buf
      → a.buf ≡ text ++ drop (length text) buf
      → Holds buf text a
  overran : a.overflow ≡ true → length buf < length text → Holds buf text a

set-append :
    (text : Bytes) (x : ℕ) (rest : Bytes) (b : ℕ)
    → set (text ++ x ∷ rest) (length text) b ≡ (text ++ b ∷ []) ++ rest
set-append [] x rest b = refl
set-append (y ∷ text) x rest b = ap (λ l. y ∷ l) (set-append text x rest b)

drop-cons : (n : ℕ) (xs : Bytes) → n < length xs → (x : ℕ) × (drop n xs ≡ x ∷ drop (suc n) xs)
drop-cons n [] h = absurd (omega arith)
drop-cons zero (x ∷ xs) h = (x, refl)
drop-cons (suc n) (x ∷ xs) h = drop-cons n xs (omega arith)

-- The next byte goes behind the text.
set_next :
    (buf text : Bytes) (b : ℕ)
    → length text < length buf
    → set (text ++ drop (length text) buf) (length text) b
      ≡ (text ++ b ∷ []) ++ drop (length (text ++ b ∷ [])) buf
set_next buf text b h =
    let (x, e) = drop-cons (length text) buf h in
    let count : suc (length text) ≡ length (text ++ b ∷ []) =
      omega (arith, length-append text (b ∷ [])) in
    ap (λ l. set (text ++ l) (length text) b) e
    ∙ set-append text x (drop (suc (length text)) buf) b
    ∙ ap (λ n. (text ++ b ∷ []) ++ drop n buf) count

copy_in-Holds :
    (buf : Bytes) (s text : Bytes) (a : Appender)
    → a.overflow ≡ false
    → a.pos ≡ length text
    → a.buf ≡ text ++ drop (length text) buf
    → length text + length s ≤ length buf
    → Holds buf (text ++ s) (copy_in s a)
unfolding copy_in
copy_in-Holds buf [] text a o p b h =
    subst (λ t. Holds buf t a) (sym (append-nil text)) (fits o p (omega arith) b)
copy_in-Holds buf (c ∷ s) text a o p b h =
    subst (λ t. Holds buf t (copy_in s (record a { buf = set a.buf a.pos c; pos = a.pos + 1 })))
      (append_assoc text (c ∷ []) s)
      (copy_in-Holds buf s (text ++ c ∷ []) (record a { buf = set a.buf a.pos c; pos = a.pos + 1 })
        o (omega (arith, p, length-append text (c ∷ [])))
        (ap₂ (λ l n. set l n c) b p ∙ set_next buf text c (omega arith))
        (omega (arith, length-append text (c ∷ []))))

-- A step that appends a text.
abbrev Puts : (Appender → Appender) → Bytes → Type 0
Puts f s = (buf text : Bytes) (a : Appender) → Holds buf text a → Holds buf (text ++ s) (f a)

append_bytes_over :
    (s : Bytes) (a : Appender)
    → a.overflow ≡ false
    → length a.buf - a.pos < length s
    → append_bytes s a ≡ record a { overflow = true }
unfolding append_bytes
append_bytes_over s a o h = ground arith

append_bytes_room :
    (s : Bytes) (a : Appender)
    → a.overflow ≡ false
    → length s ≤ length a.buf - a.pos
    → append_bytes s a ≡ copy_in s a
unfolding append_bytes
append_bytes_room s a o h = ground arith

append_bytes_full : (s : Bytes) (a : Appender) → a.overflow ≡ true → append_bytes s a ≡ a
unfolding append_bytes
append_bytes_full s a o = ground arith

append_bytes-Puts : (s : Bytes) → Puts (append_bytes s) s
append_bytes-Puts s buf text a (overran o h) =
    subst (Holds buf (text ++ s)) (sym (append_bytes_full s a o))
      (overran o (omega (arith, length-append text s)))
append_bytes-Puts s buf text a (fits o p h b) =
    elim (Bool-cases (ltb (length a.buf - a.pos) (length s))) [
      | inl over ↦
          let less : length a.buf - a.pos < length s = ground (arith, over) in
          subst (Holds buf (text ++ s)) (sym (append_bytes_over s a o less))
            (overran refl (omega (arith, size, p, length-append text s)))
      | inr room ↦
          let enough : length s ≤ length a.buf - a.pos = ground (arith, room) in
          subst (Holds buf (text ++ s)) (sym (append_bytes_room s a o enough))
            (copy_in-Holds buf s text a o p b (omega (arith, size, p)))
    ]
  where
    size : length a.buf ≡ length buf
    size =
        ap length b
        ∙ omega
            (arith, h, length-append text (drop (length text) buf), length-drop (length text) buf)

Puts-then :
    {f g : Appender → Appender} {s t : Bytes} → Puts f s → Puts g t → Puts (λ a. g (f a)) (s ++ t)
Puts-then {f} {g} {s} {t} p q buf text a h =
    subst (λ l. Holds buf l (g (f a))) (append_assoc text s t)
      (q buf (text ++ s) (f a) (p buf text a h))

Puts-none : Puts (λ a. a) []
Puts-none buf text a h = subst (λ t. Holds buf t a) (sym (append-nil text)) h

append_headers-Puts : (hs : List Header) → Puts (append_headers hs) (header_text hs)
unfolding append_headers header_text
append_headers-Puts [] = Puts-none
append_headers-Puts (h ∷ hs) = Puts-then (append_bytes-Puts h.name) (
    Puts-then (append_bytes-Puts (codes ": ")) (
      Puts-then (append_bytes-Puts h.value)
        (Puts-then (append_bytes-Puts crlf) (append_headers-Puts hs))))

append_head-Puts : (r : Request) → Puts (append_head r) (head_text r)
unfolding append_head head_text
append_head-Puts r = Puts-then (append_bytes-Puts (method_name r.method)) (
    Puts-then (append_bytes-Puts (codes " ")) (
      Puts-then (append_bytes-Puts r.path) (
        Puts-then (append_bytes-Puts (codes " HTTP/1.1" ++ crlf)) (
          Puts-then (append_bytes-Puts (codes "Host: ")) (
            Puts-then (append_bytes-Puts r.host) (
              Puts-then (append_bytes-Puts crlf) (
                Puts-then (append_bytes-Puts (codes "Connection: close" ++ crlf))
                  (append_headers-Puts r.headers))))))))

append_body-some :
    (body : Bytes)
    → length body < 2 ^ 64
    → (f : Appender → Appender) × ((a : Appender) → append_body body a ≡ some (f a))
      × Puts f (body_text body)
unfolding append_body body_text
append_body-some [] h = (append_bytes crlf, λ a. refl, append_bytes-Puts crlf)
append_body-some (x ∷ xs) h = (
  λ a. append_bytes (x ∷ xs) (
      append_bytes crlf (
        append_bytes crlf
          (append_bytes (decimal (length (x ∷ xs))) (append_bytes (codes "Content-Length: ") a)))),
  λ a.
      ap (append_rest (x ∷ xs))
        (append_uint-decimal (length (x ∷ xs)) (append_bytes (codes "Content-Length: ") a) h),
  Puts-then (append_bytes-Puts (codes "Content-Length: ")) (
      Puts-then (append_bytes-Puts (decimal (length (x ∷ xs)))) (
        Puts-then (append_bytes-Puts crlf)
          (Puts-then (append_bytes-Puts crlf) (append_bytes-Puts (x ∷ xs))))),
)

-- What is returned of a buffer that holds a text.
abbrev pub BuildOutcome : Bytes → Bytes → Option (Result ℕ × Bytes) → Type 0
BuildOutcome out text r =
    ((length text ≤ length out) × (r ≡ some (ok (length text), text ++ drop (length text) out)))
    ⊎ ((length out < length text)
        × (rest : Bytes) × (r
            ≡ some (fail Category.http buffer_too_small (codes "request buffer too small"), rest)))

built-Holds :
    (out text : Bytes) (a : Appender) → Holds out text a → BuildOutcome out text (built (some a))
built-Holds out text a (fits o p h b) = inl (h, rw (o, p, b))
built-Holds out text a (overran o h) = inr (h, a.buf, rw o)

-- `BuildRequest` of a request whose body has a size below 2^64 returns: with a buffer that the
-- text of the request fits, its length, and the buffer starts with the text and is otherwise as
-- it was; else `BufferTooSmall`.
pub build_request-text :
    (r : Request) (out : Bytes)
    → length r.body < 2 ^ 64
    → BuildOutcome out (request_text r) (build_request r out)
unfolding build_request request_text
build_request-text r out h =
    let (f, returns, puts) = append_body-some r.body h in
    subst (λ o. BuildOutcome out (request_text r) (built o))
      (sym (returns (append_head r (record { buf = out; pos = 0; overflow = false }))))
      (built-Holds out (request_text r) _ (
        Puts-then (append_head-Puts r) puts out [] (record { buf = out; pos = 0; overflow = false })
          (fits refl refl (omega arith) refl)))
