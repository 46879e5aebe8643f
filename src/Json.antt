-- ===== src/Json.antt =====
-- include/etlx/json/json.hpp and src/json/json.cpp: the tokeniser.
-- An `int32_t` is its bit pattern below 2 ^ 32, a `size_t` a number below 2 ^ 64.
-- The span of tokens is the list `tokens`: an access outside of it is `stuck`, and so is a loop that
-- has used up its fuel.
pub mod Inv
pub mod Safe
pub mod Brackets
pub mod Sound
pub mod Leaf
pub mod Grow
pub mod Parse
pub mod Elements
pub mod Numbers
pub mod View
mod Tests
use cpp_template.Base.{
  ℕ, zero, suc, ◌+◌, ◌-◌, ◌%◌, ◌^◌, Bool, true, false, not, ◌&&◌, ◌||◌, Option, none, some, List,
  [], ◌∷◌, ltb, leb, ◌==◌, if◌then◌else◌, Bytes, codes, length, get_elem?, set,
}
use cpp_template.Core.{Category, Error, Result, ok, err, make}

-- `enum Code`
abbrev pub no_memory : ℕ
no_memory = 1

abbrev pub invalid : ℕ
invalid = 2

abbrev pub partial : ℕ
partial = 3

abbrev pub wrong_type : ℕ
wrong_type = 4

-- `enum class Type`
pub data Kind : Type 0 where
  undefined object array string primitive : Kind

abbrev pub kind_number : Kind → ℕ
kind_number undefined = 0
kind_number object = 1
kind_number array = 2
kind_number string = 3
kind_number primitive = 4

pub record Token : Type 0 where
  pub kind : Kind
  pub start : ℕ
  pub end : ℕ
  pub size : ℕ
  pub parent : ℕ

-- -1 as an `int32_t`
abbrev pub minus_one : ℕ
minus_one = 4294967295

-- `static_cast<int32_t>` of a `size_t`
abbrev pub to_int32 : ℕ → ℕ
to_int32 n = n % 2 ^ 32

-- `static_cast<size_t>` of an `int32_t`: the sign is extended.
abbrev pub to_size : ℕ → ℕ
to_size n = if leb (2 ^ 31) n then n + (2 ^ 64 - 2 ^ 32) else n

abbrev pub inc64 : ℕ → ℕ
inc64 n = (n + 1) % 2 ^ 64

abbrev pub dec64 : ℕ → ℕ
dec64 n = (n + (2 ^ 64 - 1)) % 2 ^ 64

abbrev pub inc32 : ℕ → ℕ
inc32 n = (n + 1) % 2 ^ 32

abbrev pub dec32 : ℕ → ℕ
dec32 n = (n + (2 ^ 32 - 1)) % 2 ^ 32

-- `Token{}`
abbrev pub blank : Token
blank = record {
  kind = undefined;
  start = minus_one;
  end = minus_one;
  size = 0;
  parent = minus_one;
}

pub record Parser : Type 0 where
  pub tokens : List Token
  pub pos : ℕ
  pub toknext : ℕ
  pub toksuper : ℕ

-- How a piece of the parser ends: it goes on, it returns a failure, or it is stuck.
pub data Run : Type 0 where
  cont : Parser → Run
  stop : Error → Parser → Run
  stuck : Run

abbrev pub then_run : Run → (Parser → Run) → Run
then_run (cont p) f = f p
then_run (stop e p) f = stop e p
then_run stuck f = stuck

abbrev pub json_fail : ℕ → Bytes → Parser → Run
json_fail code msg p = stop (make Category.json code msg) p

-- `Alloc`: the index of the fresh token, and the parser after it.
unfoldable pub alloc : Parser → Option (ℕ × Parser)
alloc p =
    if leb (length p.tokens) (to_size p.toknext)
    then none
    else some
        (p.toknext, record p { tokens = set p.tokens p.toknext blank; toknext = inc32 p.toknext })

-- A write through a pointer or a reference to token `i`.
unfoldable pub put : Parser → ℕ → (Token → Token) → Run
put p i f = elim (get_elem? p.tokens i) [
  | none ↦ stuck
  | some t ↦ cont (record p { tokens = set p.tokens i (f t) })
]

-- `if (p.toksuper != -1) tokens[p.toksuper].size++;`
unfoldable pub count_child : Parser → Run
count_child p =
    if p.toksuper == minus_one
    then cont p
    else put p p.toksuper (λ t. record t { size = inc32 t.size })

unfoldable pub is_hex : ℕ → Bool
is_hex c = (leb b'0' c && leb c b'9') || (leb b'a' c && leb c b'f') || (leb b'A' c && leb c b'F')

-- The bytes that end a primitive.
unfoldable pub is_terminator : ℕ → Bool
is_terminator c =
    c == b'\t'
    || c == b'\r'
    || c == b'\n'
    || c == b' '
    || c == b','
    || c == b']'
    || c == b'}'
    || c == b':'

-- The end of `ParsePrimitive`, at the terminator, and of `ParseString`, at the closing quote.
unfoldable pub add_leaf : Kind → ℕ → ℕ → Parser → Run
add_leaf k mark first p = elim (alloc p) [
  | none ↦ json_fail no_memory (codes "tokens exhausted") (record p { pos = mark })
  | some (i, q) ↦ put q i (λ t. record t {
    kind = k;
    start = to_int32 first;
    end = to_int32 q.pos;
    parent = q.toksuper;
  })
]

unfoldable pub finish_primitive : ℕ → Parser → Run
finish_primitive start p =
    then_run (add_leaf primitive start start p) λ q. cont (record q { pos = dec64 q.pos })

-- The loop of `ParsePrimitive`.
unfoldable pub primitive_loop : ℕ → Bytes → ℕ → Parser → Run
primitive_loop zero js start p = stuck
primitive_loop (suc f) js start p = elim (get_elem? js p.pos) [
  | none ↦ json_fail partial (codes "unterminated primitive") (record p { pos = start })
  | some c ↦ elim (is_terminator c) [
    | true ↦ finish_primitive start p
    | false ↦ elim (ltb c 32) [
      | true ↦ json_fail invalid (codes "control char in primitive") (record p { pos = start })
      | false ↦ primitive_loop f js start (record p { pos = inc64 p.pos })
    ]
  ]
]

unfoldable pub parse_primitive : Bytes → Parser → Run
unfolding primitive_loop
parse_primitive js p = primitive_loop (suc (length js)) js p.pos p

-- The bytes that `\` may stand before, but for `u`.
unfoldable pub is_escape : ℕ → Bool
is_escape c =
    c == b'"'
    || c == b'/'
    || c == b'\\'
    || c == b'b'
    || c == b'f'
    || c == b'r'
    || c == b'n'
    || c == b't'

-- The four digits behind `\u`.
unfoldable pub hex_loop : ℕ → Bytes → ℕ → Parser → Run
hex_loop zero js start p = cont p
hex_loop (suc k) js start p =
    let q = record p { pos = inc64 p.pos } in
    elim (get_elem? js q.pos) [
      | none ↦ json_fail partial (codes "short \\u escape") (record p { pos = start })
      | some c ↦ elim (is_hex c) [
        | true ↦ hex_loop k js start q
        | false ↦ json_fail invalid (codes "bad \\u escape") (record p { pos = start })
      ]
    ]

-- The `switch` on the byte behind `\`.
unfoldable pub escape : ℕ → Bytes → ℕ → Parser → Run
escape c js start p =
    if is_escape c
    then cont p
    else if c == b'u'
    then hex_loop 4 js start p
    else json_fail invalid (codes "bad escape") (record p { pos = start })

-- `if (c == '\\' && p.pos + 1 < js.size())`, with its body.
unfoldable pub skip_escape : ℕ → Bytes → ℕ → Parser → Run
skip_escape c js start p =
    if c == b'\\'
    then elim (get_elem? js (inc64 p.pos)) [
      | none ↦ cont p
      | some d ↦ escape d js start (record p { pos = inc64 p.pos })
    ]
    else cont p

-- The loop of `ParseString`.
unfoldable pub string_loop : ℕ → Bytes → ℕ → Parser → Run
string_loop zero js start p = stuck
string_loop (suc f) js start p = elim (get_elem? js p.pos) [
  | none ↦ json_fail partial (codes "unterminated string") (record p { pos = start })
  | some c ↦ elim (c == b'"') [
    | true ↦ add_leaf string start (start + 1) p
    | false ↦
        then_run (skip_escape c js start p)
          λ q. string_loop f js start (record q { pos = inc64 q.pos })
  ]
]

unfoldable pub parse_string : Bytes → Parser → Run
unfolding string_loop
parse_string js p = string_loop (suc (length js)) js p.pos (record p { pos = inc64 p.pos })
