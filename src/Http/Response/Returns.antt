-- ===== src/Http/Response/Returns.antt =====
-- `ParseResponse` returns, with views that lie in what was received.
use cpp_template.Base.{
  some_injective, ℕ, zero, suc, ◌+◌, ◌-◌, ◌*◌, ◌≤◌, ◌<◌, min, true, false, Option, none, some, List,
  [], ◌∷◌, ◌++◌, ◌≡◌, ◌≢◌, refl, sym, ◌∙◌, ap, Bytes, codes, length, take, drop, ltb, leb, ◌&&◌,
  ◌%◌, ◌^◌, if◌then◌else◌, ◌==◌, Bool-cases, Option-cases, inl, inr, arith, length-append, take_all,
}
use cpp_template.Core.{Error, make, Result, ok, err, fail}
use cpp_template.Http.{Header, crlf}
use cpp_template.Http.Response.{
  Response, max_headers, trim, starts_with, one_more, find_text, get_header, is_digit_char,
  status_loop, length_loop, line_limit, add_header, header_loop, announced, cut_body, with_headers,
  with_status, status_code, reason_of, with_space, parse_response,
}

-- A call that returned, and what holds of its value when it is a success.
pub data Returned {A : Type 0} (P : A → Type 0) : Option (Result A) → Type 0 where
  success : (a : A) → P a → Returned P (some (ok a))
  failure : {e : Error} → Returned P (some (err e))

-- The largest number that `n` digits behind `v` can make.
abbrev largest : ℕ → ℕ → ℕ
largest zero v = v
largest (suc n) v = largest n (v * 10 + 9)

largest_le : (n v w : ℕ) → v ≤ w → largest n v ≤ largest n w
largest_le zero v w h = h
largest_le (suc n) v w h = largest_le n (v * 10 + 9) (w * 10 + 9) (omega arith)

digit_le : (c : ℕ) → is_digit_char c ≡ true → c - b'0' ≤ 9
unfolding is_digit_char
digit_le c h = ground arith

status_loop-Returned :
    (n : ℕ) (s : Bytes) (v m : ℕ)
    → n ≤ length s
    → v ≤ m
    → Returned (λ w. w ≤ largest n m) (status_loop n s v)
unfolding status_loop fail make
status_loop-Returned zero s v m h le = success v le
status_loop-Returned (suc n) [] v m h le = absurd (omega arith)
status_loop-Returned (suc n) (c ∷ s) v m h le = elim (Bool-cases (is_digit_char c)) [
  | inl digit ↦
      rw (digit, status_loop)
        (status_loop-Returned n s (v * 10 + (c - b'0')) (m * 10 + 9) (omega arith)
          (omega (arith, digit_le c digit)))
  | inr other ↦ rw (other, status_loop) failure
]

-- The header lines: at most sixteen headers, and each round moves on.
abbrev Bounded : Result (List Header) → Type 0
Bounded (ok hs) = length hs ≤ max_headers
Bounded (err e) = Unit

add_header-Bounded :
    (line : Bytes) (hs : List Header) (o : Option ℕ)
    → length hs ≤ max_headers
    → Bounded (add_header line hs o)
unfolding fail
add_header-Bounded line hs none h = h
add_header-Bounded line hs (some colon) h = elim (Bool-cases (length hs == max_headers)) [
  | inl none_left ↦ rw none_left tt
  | inr room ↦ rw room (
      ground (
        arith,
        room,
        length-append hs
            (record { name = trim (take colon line); value = trim (drop (colon + 1) line) } ∷ []),
      ))
]

line_limit_le : (boundary pos : ℕ) (o : Option ℕ) → pos < boundary → pos ≤ line_limit boundary pos o
line_limit_le boundary pos none h = omega arith
line_limit_le boundary pos (some n) h = ground arith

line_limit_bound : (boundary pos : ℕ) (o : Option ℕ) → line_limit boundary pos o ≤ boundary
line_limit_bound boundary pos none = omega arith
line_limit_bound boundary pos (some n) = ground arith

-- What follows one line, by what it added.
go_on :
    (Result (List Header))
    → (List Header → Option (Result (List Header)))
    → Option (Result (List Header))
go_on r next = elim r [ ok hs ↦ next hs | err e ↦ some (err e) ]

go_on-Returned :
    (r : Result (List Header)) (next : List Header → Option (Result (List Header)))
    → Bounded r
    → ((hs : List Header)
        → length hs ≤ max_headers
        → Returned (λ l. length l ≤ max_headers) (next hs))
    → Returned (λ l. length l ≤ max_headers) (go_on r next)
unfolding go_on
go_on-Returned (ok hs) next b k = k hs b
go_on-Returned (err e) next b k = failure

header_loop-Returned :
    (f : ℕ) (text : Bytes) (boundary pos : ℕ) (hs : List Header)
    → pos ≤ boundary + 2
    → boundary + 2 < pos + f
    → length hs ≤ max_headers
    → Returned (λ l. length l ≤ max_headers) (header_loop f text boundary pos hs)
unfolding header_loop go_on
header_loop-Returned zero text boundary pos hs p fuel h = absurd (omega arith)
header_loop-Returned (suc f) text boundary pos hs p fuel h =
    let eol = line_limit boundary pos (find_text crlf (drop pos text)) in
    let line = take (eol - pos) (drop pos text) in
    elim (Bool-cases (ltb pos boundary)) [
      | inr over ↦ rw (over, header_loop) (success hs h)
      | inl more ↦ elim (Bool-cases (length line == 0)) [
        | inl blank ↦ rw (more, blank, header_loop) (success hs h)
        | inr full ↦
            rw (more, full, header_loop)
              (go_on-Returned (add_header line hs (find_text (b':' ∷ []) line))
                (header_loop f text boundary (eol + 2))
                (add_header-Bounded line hs (find_text (b':' ∷ []) line) h)
                (λ hs' h'.
                  header_loop-Returned f text boundary (eol + 2) hs'
                    (omega (arith, line_limit_bound boundary pos (find_text crlf (drop pos text))))
                    (omega (
                      arith,
                      line_limit_le boundary pos (find_text crlf (drop pos text))
                          (ground (arith, more)),
                    ))
                    h'))
      ]
    ]

false_ne_true : false ≢ true
false_ne_true e = cc

starts_with_append : (a b s : Bytes) → starts_with (a ++ b) s ≡ true → starts_with a s ≡ true
unfolding starts_with
starts_with_append [] b s h = refl
starts_with_append (x ∷ a) b [] h = h
starts_with_append (x ∷ a) b (y ∷ s) h = ground (arith, h, starts_with_append a b s)

starts_with_not : (a b s : Bytes) → starts_with a s ≡ false → starts_with (a ++ b) s ≡ false
starts_with_not a b s h = elim (Bool-cases (starts_with (a ++ b) s)) [
  | inr other ↦ other
  | inl held ↦ absurd (false_ne_true (sym h ∙ starts_with_append a b s held))
]

none_ne_some : {n : ℕ} → none ≢ some n
none_ne_some e = cc

-- Where a longer text is found, its front is found, no later.
find_text_append :
    (a b s : Bytes) (n : ℕ)
    → find_text (a ++ b) s ≡ some n
    → (m : ℕ) × (find_text a s ≡ some m) × (m ≤ n)
unfolding find_text
find_text_append a b [] n h = elim (Bool-cases (starts_with a [])) [
  | inl here ↦ (0, rw here, omega arith)
  | inr other ↦
      let e : find_text (a ++ b) [] ≡ none = rw (starts_with_not a b [] other) in
      absurd (none_ne_some (sym e ∙ h))
]
find_text_append a b (c ∷ s) n h = elim (Bool-cases (starts_with a (c ∷ s))) [
  | inl here ↦ (0, rw here, omega arith)
  | inr other ↦
      let e : find_text (a ++ b) (c ∷ s) ≡ one_more (find_text (a ++ b) s) =
        rw (starts_with_not a b (c ∷ s) other) in
      elim (Option-cases (find_text (a ++ b) s)) [
        | inl absent ↦ absurd (none_ne_some (sym (ap one_more absent) ∙ sym e ∙ h))
        | inr (k, q) ↦
            let (m, found, le) = find_text_append a b s k q in
            let next_k : suc k ≡ n = some_injective (sym (ap one_more q) ∙ sym e ∙ h) in
            (suc m, rw (other, found), omega arith)
      ]
]

-- How much of `m` bytes a body has.
abbrev pub body_size : ℕ → Option ℕ → ℕ
body_size m none = m
body_size m (some n) = min n m

-- The number that a text of decimal digits is, of any size.
unfoldable pub number_from : ℕ → Bytes → Option ℕ
number_from v [] = some v
number_from v (c ∷ s) =
    let rest = number_from (10 * v + (c - 48)) s in if leb 48 c && leb c 57 then rest else none

abbrev pub number : Bytes → Option ℕ
number [] = none
number (c ∷ s) = number_from 0 (c ∷ s)

-- As a `size_t`.
abbrev pub wrapped : Option ℕ → Option ℕ
wrapped none = none
wrapped (some n) = some (n % 2 ^ 64)

length_loop-number_from :
    (s : Bytes) (v w : ℕ) → w ≡ v % 2 ^ 64 → length_loop s w ≡ wrapped (number_from v s)
unfolding length_loop number_from is_digit_char
length_loop-number_from [] v w e = ap some e
length_loop-number_from (c ∷ s) v w e = elim (Bool-cases (leb 48 c && leb c 57)) [
  | inl digit ↦ rw digit (
      length_loop-number_from s (10 * v + (c - 48)) ((w * 10 + (c - 48)) % 2 ^ 64)
        (omega (arith, e)))
  | inr other ↦ rw other refl
]

announced-number : (s : Bytes) → announced s ≡ wrapped (number s)
unfolding announced
announced-number [] = refl
announced-number (c ∷ s) = length_loop-number_from (c ∷ s) 0 0 (omega arith)

-- A response in terms of what was received: the body stands behind the first empty line, up to the
-- length that its header announces.
pub record Framed (raw : Bytes) (r : Response) : Type 0 where
  pub boundary : ℕ
  pub first_blank : find_text (crlf ++ crlf) raw ≡ some boundary
  pub three_digits : r.status ≤ 999
  pub few : length r.headers ≤ max_headers
  pub length_given :
      r.content_length ≡ wrapped (number (get_header (codes "Content-Length") r.headers))
  pub body_view :
      r.body
      ≡ take
          (body_size (length (drop (boundary + 4) raw)) r.content_length)
          (drop (boundary + 4) raw)

cut_body-take :
    (body : Bytes) (o : Option ℕ) → cut_body body o ≡ take (body_size (length body) o) body
cut_body-take body none = sym (take_all (length body) body (omega arith))
cut_body-take body (some n) = elim (Bool-cases (ltb n (length body))) [
  | inl shorter ↦ let e : min n (length body) ≡ n = ground (arith, shorter) in rw (shorter, e)
  | inr whole ↦
      let e : min n (length body) ≡ length body = ground (arith, whole) in
      rw (whole, e) (sym (take_all (length body) body (omega arith)))
]

with_headers-Returned :
    (raw : Bytes) (b status : ℕ) (reason : Bytes) {o : Option (Result (List Header))}
    → find_text (crlf ++ crlf) raw ≡ some b
    → status ≤ 999
    → Returned (λ l. length l ≤ max_headers) o
    → Returned (Framed raw) (with_headers status reason (drop (b + 4) raw) o)
with_headers-Returned raw b status reason found st (success hs few) = success _ (record {
  boundary = b;
  first_blank = found;
  three_digits = st;
  few = few;
  length_given = announced-number (get_header (codes "Content-Length") hs);
  body_view = cut_body-take (drop (b + 4) raw) (announced (get_header (codes "Content-Length") hs));
})
with_headers-Returned raw b status reason found st failure = failure

with_status-Returned :
    (raw : Bytes) (b line_end : ℕ) (reason : Bytes) {o : Option (Result ℕ)}
    → find_text (crlf ++ crlf) raw ≡ some b
    → line_end ≤ b
    → Returned (λ w. w ≤ 999) o
    → Returned (Framed raw) (with_status raw b line_end reason o)
with_status-Returned raw b line_end reason found le (success w small) =
    with_headers-Returned raw b w reason found small (
      header_loop-Returned (suc b) raw b (line_end + 2) [] (omega arith) (omega arith)
        (omega arith))
with_status-Returned raw b line_end reason found le failure = failure

with_space-Returned :
    (raw : Bytes) (b line_end : ℕ) (line : Bytes) (o : Option ℕ)
    → find_text (crlf ++ crlf) raw ≡ some b
    → line_end ≤ b
    → Returned (Framed raw) (with_space raw b line_end line o)
unfolding fail
with_space-Returned raw b line_end line none found le = failure
with_space-Returned raw b line_end line (some sp) found le =
    let rest = drop (sp + 1) line in
    let sp2 = find_text (32 ∷ []) rest in
    let code = status_code rest sp2 in
    elim (Bool-cases (ltb (length code) 3)) [
      | inl short ↦ rw short failure
      | inr long ↦ rw long (
          with_status-Returned raw b line_end (reason_of rest sp2) found le
            (status_loop-Returned 3 code 0 0 (ground (arith, long)) (omega arith)))
    ]

-- `ParseResponse` returns on every input: its loops end, no view is read past its end, and a
-- response that is returned has a status of at most 999, at most sixteen headers, and as its body
-- the bytes behind the first empty line: all of them, or, when its Content-Length is a decimal
-- numeral, at most as many as that numeral says, modulo 2^64.
pub parse_response-Returned : (raw : Bytes) → Returned (Framed raw) (parse_response raw)
unfolding parse_response fail
parse_response-Returned raw = elim (Option-cases (find_text (crlf ++ crlf) raw)) [
  | inl absent ↦ rw absent failure
  | inr (b, found) ↦
      let (l, line, le) = find_text_append crlf crlf raw b found in
      rw (found, line)
        (with_space-Returned raw b l (take l raw) (find_text (32 ∷ []) (take l raw)) found le)
]
