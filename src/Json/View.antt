-- ===== src/Json/View.antt =====
-- The class `Json` of include/etlx/json/json.hpp and src/json/json.cpp: a cursor over the tokens.
-- `lt_int32` compares bit patterns as signed numbers. `etl::string_view::substr` clamps to the view.
use cpp_template.Base.{
  ℕ, zero, suc, ◌+◌, ◌-◌, ◌*◌, ◌^◌, Bool, true, false, not, ◌&&◌, ◌||◌, Option, none, some, List,
  [], ◌∷◌, ltb, leb, ◌==◌, if◌then◌else◌, Bytes, codes, same, length, get_elem?, take, drop,
}
use cpp_template.Core.{Category, Result, ok, err, fail}
use cpp_template.Json.{
  invalid, wrong_type, Kind, undefined, object, array, string, primitive, kind_number, Token,
  minus_one, to_int32, inc32, inc64,
}
use cpp_template.Json.Parse.{returned, crashed, parse}

pub record View : Type 0 where
  pub src : Bytes
  pub tokens : List Token
  pub index : ℕ

-- `Json{}`
abbrev pub no_view : View
no_view = record { src = []; tokens = []; index = minus_one }

abbrev pub is_negative : ℕ → Bool
is_negative n = leb (2 ^ 31) n

unfoldable pub lt_int32 : ℕ → ℕ → Bool
lt_int32 a b =
    if is_negative a
    then if is_negative b then ltb a b else true
    else if is_negative b
    then false
    else ltb a b

unfoldable pub valid : View → Bool
unfolding lt_int32
valid v = not (is_negative v.index) && lt_int32 v.index (to_int32 (length v.tokens))

-- The token under the cursor, where the view is valid.
unfoldable pub token : View → Option Token
unfolding valid
token v = if valid v then get_elem? v.tokens v.index else none

unfoldable pub type : View → Kind
type v = elim (token v) [ none ↦ undefined | some t ↦ t.kind ]

abbrev pub is_kind : View → Kind → Bool
is_kind v k = kind_number (type v) == kind_number k

unfoldable pub is_object : View → Bool
is_object v = is_kind v object

unfoldable pub is_array : View → Bool
is_array v = is_kind v array

unfoldable pub is_string : View → Bool
is_string v = is_kind v string

-- The slice of the source that a token covers.
unfoldable pub slice : Bytes → Token → Bytes
slice src t =
    if is_negative t.start || is_negative t.end || lt_int32 t.end t.start
    then []
    else take (t.end - t.start) (drop t.start src)

unfoldable pub raw : View → Bytes
raw v = elim (token v) [ none ↦ [] | some t ↦ slice v.src t ]

unfoldable pub is_null : View → Bool
is_null v = is_kind v primitive && same (raw v) (codes "null")

unfoldable pub size : View → ℕ
size v = elim (token v) [
  | none ↦ 0
  | some t ↦
      if kind_number t.kind == kind_number object || kind_number t.kind == kind_number array
      then t.size
      else 0
]

-- The loop of `operator[](etl::string_view)`, from token `i`.
unfoldable pub member_loop : ℕ → View → Bytes → ℕ → View
member_loop zero v key i = no_view
member_loop (suc f) v key i = elim (lt_int32 i (to_int32 (length v.tokens))) [
  | false ↦ no_view
  | true ↦ elim (get_elem? v.tokens i) [
    | none ↦ no_view
    | some t ↦ elim (t.parent == v.index && kind_number t.kind == kind_number string) [
      | false ↦ member_loop f v key (inc32 i)
      | true ↦ elim (same (raw (record v { index = i })) key) [
        | true ↦ record v { index = inc32 i }
        | false ↦ member_loop f v key (inc32 i)
      ]
    ]
  ]
]

unfoldable pub member : View → Bytes → View
member v key = if is_object v then member_loop (length v.tokens) v key (inc32 v.index) else no_view

-- The loop of `operator[](size_t)`, from token `j` with `seen` elements passed.
unfoldable pub element_loop : ℕ → View → ℕ → ℕ → ℕ → View
element_loop zero v i j seen = no_view
element_loop (suc f) v i j seen = elim (lt_int32 j (to_int32 (length v.tokens))) [
  | false ↦ no_view
  | true ↦ elim (get_elem? v.tokens j) [
    | none ↦ no_view
    | some t ↦ elim (t.parent == v.index) [
      | false ↦ element_loop f v i (inc32 j) seen
      | true ↦ elim (seen == i) [
        | true ↦ record v { index = j }
        | false ↦ element_loop f v i (inc32 j) (inc64 seen)
      ]
    ]
  ]
]

unfoldable pub element : View → ℕ → View
element v i = if is_array v then element_loop (length v.tokens) v i (inc32 v.index) 0 else no_view

-- An `int64_t`; `negsuc n` is -(n + 1).
pub data ℤ : Type 0 where
  pos : ℕ → ℤ
  negsuc : ℕ → ℤ

abbrev pub negate : ℕ → ℤ
negate zero = pos 0
negate (suc n) = negsuc n

unfoldable pub is_digit : ℕ → Bool
is_digit c = leb b'0' c && leb c b'9'

-- The loop of `AsInt`; `none` where `v * 10 + (c - '0')` leaves the range of `int64_t`, which is
-- undefined behaviour.
unfoldable pub int_loop : Bytes → ℕ → Option (Result ℕ)
int_loop [] v = some (ok v)
int_loop (c ∷ cs) v = elim (is_digit c) [
  | false ↦ some (fail Category.json wrong_type (codes "not an integer"))
  | true ↦ elim (ltb (v * 10 + (c - b'0')) (2 ^ 63)) [
    | true ↦ int_loop cs (v * 10 + (c - b'0'))
    | false ↦ none
  ]
]

-- The tail of `AsInt`, behind the sign.
abbrev pub signed : (ℕ → ℤ) → Option (Result ℕ) → Option (Result ℤ)
signed f none = none
signed f (some (ok v)) = some (ok (f v))
signed f (some (err e)) = some (err e)

unfoldable pub int_digits : (ℕ → ℤ) → Bytes → Option (Result ℤ)
unfolding int_loop
int_digits f [] = some (fail Category.json invalid (codes "bad number"))
int_digits f (c ∷ cs) = signed f (int_loop (c ∷ cs) 0)

unfoldable pub int_text : Bytes → Option (Result ℤ)
unfolding int_digits
int_text [] = some (fail Category.json invalid (codes "empty number"))
int_text (c ∷ cs) = if c == b'-' then int_digits negate cs else int_digits pos (c ∷ cs)

unfoldable pub as_int : View → Option (Result ℤ)
unfolding int_text
as_int v =
    if is_kind v primitive
    then int_text (raw v)
    else some (fail Category.json wrong_type (codes "not a primitive"))

unfoldable pub as_bool : View → Result Bool
as_bool v =
    if not (is_kind v primitive)
    then fail Category.json wrong_type (codes "not a primitive")
    else if same (raw v) (codes "true")
    then ok true
    else if same (raw v) (codes "false")
    then ok false
    else fail Category.json wrong_type (codes "not a boolean")

-- `ParseToView`; `none` where `Parse` does not return.
unfoldable pub parse_to_view : Bytes → List Token → Option (Result View)
parse_to_view js ts = elim (parse js ts) [
  | crashed ↦ none
  | returned (err e) ts' ↦ some (err e)
  | returned (ok n) ts' ↦
      if n == 0
      then some (fail Category.json invalid (codes "empty document"))
      else some (ok (record { src = js; tokens = take n ts'; index = 0 }))
]
