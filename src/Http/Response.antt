-- ===== src/Http/Response.antt =====
-- src/http/http.cpp: the response side. The search of etl::string_view is the first place where
-- what is searched for stands.
pub mod Returns
use cpp_template.Base.{
  ℕ, zero, suc, ◌+◌, ◌-◌, ◌*◌, ◌%◌, ◌^◌, Bool, true, false, ◌&&◌, ◌||◌, Option, none, some, List,
  [], ◌∷◌, ◌++◌, Bytes, codes, length, take, drop, ltb, leb, ◌==◌, if◌then◌else◌,
}
use cpp_template.Core.{Category, Result, ok, err, fail}
use cpp_template.Http.{Header, crlf}

abbrev pub malformed : ℕ
malformed = 2

abbrev pub incomplete : ℕ
incomplete = 3

abbrev pub too_many_headers : ℕ
too_many_headers = 4

-- ETLX_HTTP_MAX_HEADERS
abbrev pub max_headers : ℕ
max_headers = 16

pub record Response : Type 0 where
  pub status : ℕ
  pub reason : Bytes
  pub headers : List Header
  pub body : Bytes
  pub content_length : Option ℕ

-- The letters of `IEqual`.
unfoldable pub lower : ℕ → ℕ
lower c = if leb b'A' c && leb c b'Z' then c - b'A' + b'a' else c

-- `IEqual`
unfoldable pub iequal : Bytes → Bytes → Bool
unfolding lower
iequal [] [] = true
iequal (x ∷ a) (y ∷ b) = lower x == lower y && iequal a b
iequal _ _ = false

-- The loops of `Trim`.
unfoldable pub trim_front : Bytes → Bytes
trim_front [] = []
trim_front (c ∷ s) = if c == 32 || c == 9 then trim_front s else c ∷ s

abbrev pub keep_back : ℕ → Bytes → Bytes
keep_back c [] = if c == 32 || (c == 9 || c == 13) then [] else c ∷ []
keep_back c (d ∷ s) = c ∷ d ∷ s

unfoldable pub trim_back : Bytes → Bytes
trim_back [] = []
trim_back (c ∷ s) = keep_back c (trim_back s)

-- `Trim`
unfoldable pub trim : Bytes → Bytes
trim s = trim_back (trim_front s)

unfoldable pub starts_with : Bytes → Bytes → Bool
starts_with [] s = true
starts_with (x ∷ t) [] = false
starts_with (x ∷ t) (y ∷ s) = x == y && starts_with t s

abbrev pub one_more : Option ℕ → Option ℕ
one_more none = none
one_more (some n) = some (suc n)

-- `find`
unfoldable pub find_text : Bytes → Bytes → Option ℕ
unfolding starts_with
find_text t [] = if starts_with t [] then some 0 else none
find_text t (c ∷ s) = if starts_with t (c ∷ s) then some 0 else one_more (find_text t s)

-- `Response::GetHeader`
unfoldable pub get_header : Bytes → List Header → Bytes
get_header name [] = []
get_header name (h ∷ hs) = if iequal h.name name then h.value else get_header name hs

unfoldable pub is_digit_char : ℕ → Bool
is_digit_char c = leb b'0' c && leb c b'9'

-- The loop over the digits of the status; `none` reads past the end of `code`.
unfoldable pub status_loop : ℕ → Bytes → ℕ → Option (Result ℕ)
status_loop zero s v = some (ok v)
status_loop (suc n) [] v = none
status_loop (suc n) (c ∷ s) v =
    if is_digit_char c
    then status_loop n s (v * 10 + (c - b'0'))
    else some (fail Category.http malformed (codes "non-digit status"))

-- The end of the header line at `pos`.
abbrev pub line_limit : ℕ → ℕ → Option ℕ → ℕ
line_limit boundary pos none = boundary
line_limit boundary pos (some n) = if ltb boundary (pos + n) then boundary else pos + n

-- What a header line adds.
abbrev pub add_header : Bytes → List Header → Option ℕ → Result (List Header)
add_header line hs none = ok hs
add_header line hs (some colon) =
    if length hs == max_headers
    then fail Category.http too_many_headers (codes "too many headers")
    else ok
        (hs ++ record { name = trim (take colon line); value = trim (drop (colon + 1) line) } ∷ [])

-- The loop over the header lines, on fuel.
unfoldable pub header_loop : ℕ → Bytes → ℕ → ℕ → List Header → Option (Result (List Header))
header_loop zero text boundary pos hs = none
header_loop (suc f) text boundary pos hs =
    let eol = line_limit boundary pos (find_text crlf (drop pos text)) in
    let line = take (eol - pos) (drop pos text) in
    elim (ltb pos boundary) [
      | false ↦ some (ok hs)
      | true ↦ elim (length line == 0) [
        | true ↦ some (ok hs)
        | false ↦ elim (add_header line hs (find_text (b':' ∷ []) line)) [
          | err e ↦ some (err e)
          | ok hs' ↦ header_loop f text boundary (eol + 2) hs'
        ]
      ]
    ]

-- The digits of `Content-Length`, in a `size_t`; `none` for any other character.
unfoldable pub length_loop : Bytes → ℕ → Option ℕ
length_loop [] v = some v
length_loop (c ∷ s) v =
    if is_digit_char c then length_loop s ((v * 10 + (c - b'0')) % 2 ^ 64) else none

-- The body by its announced length.
abbrev pub cut_body : Bytes → Option ℕ → Bytes
cut_body body none = body
cut_body body (some n) = if ltb n (length body) then take n body else body

unfoldable pub announced : Bytes → Option ℕ
announced [] = none
announced (c ∷ s) = length_loop (c ∷ s) 0

abbrev pub with_headers :
    ℕ → Bytes → Bytes → Option (Result (List Header)) → Option (Result Response)
with_headers status reason body none = none
with_headers status reason body (some (err e)) = some (err e)
with_headers status reason body (some (ok hs)) =
    let n = announced (get_header (codes "Content-Length") hs) in
    some (
      ok (record {
        status = status;
        reason = reason;
        headers = hs;
        body = cut_body body n;
        content_length = n;
      }))

-- `ParseResponse` from the status on.
abbrev pub with_status : Bytes → ℕ → ℕ → Bytes → Option (Result ℕ) → Option (Result Response)
with_status raw boundary line_end reason none = none
with_status raw boundary line_end reason (some (err e)) = some (err e)
with_status raw boundary line_end reason (some (ok status)) =
    with_headers status reason (drop (boundary + 4) raw)
      (header_loop (suc boundary) raw boundary (line_end + 2) [])

abbrev pub status_code : Bytes → Option ℕ → Bytes
status_code rest none = rest
status_code rest (some n) = take n rest

abbrev pub reason_of : Bytes → Option ℕ → Bytes
reason_of rest none = []
reason_of rest (some n) = trim (drop (n + 1) rest)

abbrev pub with_space : Bytes → ℕ → ℕ → Bytes → Option ℕ → Option (Result Response)
with_space raw boundary line_end line none =
    some (fail Category.http malformed (codes "no status code"))
with_space raw boundary line_end line (some sp1) =
    let rest = drop (sp1 + 1) line in
    let sp2 = find_text (32 ∷ []) rest in
    let code = status_code rest sp2 in
    if ltb (length code) 3
    then some (fail Category.http malformed (codes "bad status code"))
    else with_status raw boundary line_end (reason_of rest sp2) (status_loop 3 code 0)

abbrev pub with_line : Bytes → ℕ → Option ℕ → Option (Result Response)
with_line raw boundary none = none
with_line raw boundary (some line_end) =
    let line = take line_end raw in with_space raw boundary line_end line (find_text (32 ∷ []) line)

abbrev pub with_boundary : Bytes → Option ℕ → Option (Result Response)
with_boundary raw none = some (fail Category.http incomplete (codes "headers not terminated"))
with_boundary raw (some boundary) = with_line raw boundary (find_text crlf raw)

-- `ParseResponse`; `none` where a loop does not end, a view is read past its end, or the first
-- line has no end.
unfoldable pub parse_response : Bytes → Option (Result Response)
parse_response raw = with_boundary raw (find_text (crlf ++ crlf) raw)
