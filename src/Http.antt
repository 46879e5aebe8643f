-- ===== src/Http.antt =====
-- include/etlx/http/http.hpp and src/http/http.cpp: the request side.
mod Digits
pub mod Build
pub mod Response
pub mod Exchange
mod Tests
use cpp_template.Base.{
  ℕ, zero, suc, ◌+◌, ◌-◌, ◌/◌, ◌%◌, Bool, true, false, Option, none, some, List, [], ◌∷◌, ◌++◌,
  Bytes, codes, length, set, ltb, ◌==◌, if◌then◌else◌,
}
use cpp_template.Core.{Category, Result, ok, fail}

-- `enum Code`
abbrev pub buffer_too_small : ℕ
buffer_too_small = 1

pub data Method : Type 0 where
  get_method post_method put_method delete_method head_method : Method

pub record Header : Type 0 where
  pub name : Bytes
  pub value : Bytes

pub record Request : Type 0 where
  pub method : Method
  pub host : Bytes
  pub path : Bytes
  pub headers : List Header
  pub body : Bytes

-- `MethodName`
unfoldable pub method_name : Method → Bytes
method_name get_method = codes "GET"
method_name post_method = codes "POST"
method_name put_method = codes "PUT"
method_name delete_method = codes "DELETE"
method_name head_method = codes "HEAD"

pub record Appender : Type 0 where
  pub buf : Bytes
  pub pos : ℕ
  pub overflow : Bool

-- `for (char c : s) buf[pos++] = c;`
unfoldable pub copy_in : Bytes → Appender → Appender
copy_in [] a = a
copy_in (c ∷ s) a = copy_in s (record a { buf = set a.buf a.pos c; pos = a.pos + 1 })

-- `Put`, of a string view and of a byte span.
unfoldable pub append_bytes : Bytes → Appender → Appender
append_bytes s a =
    if a.overflow
    then a
    else if ltb (length a.buf - a.pos) (length s)
    then record a { overflow = true }
    else copy_in s a

-- The digits in `tmp`, the lowest first, in the room that is left; `none` is a write past its end.
unfoldable pub low_digits : ℕ → ℕ → Option Bytes
low_digits zero v = if v == 0 then some [] else none
low_digits (suc room) v =
    let rest = low_digits room (v / 10) in
    if v == 0 then some [] else elim rest [ none ↦ none | some ds ↦ some ((b'0' + v % 10) ∷ ds) ]

-- `rev`
unfoldable pub reversed : Bytes → Bytes
reversed [] = []
reversed (d ∷ ds) = reversed ds ++ d ∷ []

abbrev pub append_digits : Option Bytes → Appender → Option Appender
append_digits none a = none
append_digits (some ds) a = some (append_bytes (reversed ds) a)

-- `PutUInt`
unfoldable pub append_uint : ℕ → Appender → Option Appender
append_uint v a = append_digits (if v == 0 then some (b'0' ∷ []) else low_digits 20 v) a

abbrev pub crlf : Bytes
crlf = 13 ∷ 10 ∷ []

-- The loop over the extra headers.
unfoldable pub append_headers : List Header → Appender → Appender
append_headers [] a = a
append_headers (h ∷ hs) a =
    append_headers hs
      (append_bytes crlf (append_bytes h.value (append_bytes (codes ": ") (append_bytes h.name a))))

-- Everything before the length of the body.
unfoldable pub append_head : Request → Appender → Appender
append_head r a =
    let a1 = append_bytes (method_name r.method) a in
    let a2 =
      append_bytes (codes " HTTP/1.1" ++ crlf)
        (append_bytes r.path (append_bytes (codes " ") a1)) in
    let a3 = append_bytes crlf (append_bytes r.host (append_bytes (codes "Host: ") a2)) in
    append_headers r.headers (append_bytes (codes "Connection: close" ++ crlf) a3)

abbrev pub append_rest : Bytes → Option Appender → Option Appender
append_rest body none = none
append_rest body (some a) = some (append_bytes body (append_bytes crlf (append_bytes crlf a)))

-- The rest: the length and the body, if there is one, around the empty line.
unfoldable pub append_body : Bytes → Appender → Option Appender
append_body [] a = some (append_bytes crlf a)
append_body (x ∷ xs) a =
    append_rest (x ∷ xs) (append_uint (length (x ∷ xs)) (append_bytes (codes "Content-Length: ") a))

abbrev pub built : Option Appender → Option (Result ℕ × Bytes)
built none = none
built (some a) =
    if a.overflow
    then some (fail Category.http buffer_too_small (codes "request buffer too small"), a.buf)
    else some (ok a.pos, a.buf)

-- `BuildRequest`, with the bytes of the view after it.
unfoldable pub build_request : Request → Bytes → Option (Result ℕ × Bytes)
build_request r out =
    built (append_body r.body (append_head r (record { buf = out; pos = 0; overflow = false })))
