-- ===== src/Json/Tests.antt =====
-- Runs of the tokeniser on small documents.
use cpp_template.Base.{
  ℕ, ◌^◌, ◌≤◌, ◌<◌, true, false, List, ◌∷◌, ◌≡◌, refl, arith, Bytes, codes, same, replicate, none,
  some, Option, length, get_elem?, take, ltb, if◌then◌else◌,
}
use cpp_template.Base.Decimal.{decimal}
use cpp_template.Json.Inv.{children}
use cpp_template.Json.Safe.{Sound, parse_returns, parse_lem}
use cpp_template.Json.Elements.{parse-element}
use cpp_template.Json.Numbers.{int_text-decimal}
use cpp_template.Json.View.{
  View, valid, token, type, slice, raw, size, is_object, is_array, is_string, is_null, member,
  member_loop, element, element_loop, pos, negate, is_digit, int_text, as_int, as_bool,
}
use cpp_template.Core.{ok, make, error_code, Result}
use cpp_template.Json.{
  object, array, string, primitive, Token, minus_one, blank, alloc, put, count_child, is_hex,
  is_terminator, add_leaf, finish_primitive, parse_primitive, is_escape, hex_loop, escape,
  skip_escape, parse_string,
}
use cpp_template.Json.Parse.{
  open_container, close_container, comma, step, Parsed, returned, crashed, parse,
}

abbrev room : List Token
room = replicate 8 blank

abbrev code_of : Parsed → Option ℕ
code_of (returned r ts) = error_code r
code_of crashed = none

parse_object :
    parse (codes "{\"a\": [1, true]}") room
    ≡ returned (ok 5) (
        record { kind = object; start = 0; end = 16; size = 1; parent = minus_one }
        ∷ record { kind = string; start = 2; end = 3; size = 1; parent = 0 }
        ∷ record { kind = array; start = 6; end = 15; size = 2; parent = 1 }
        ∷ record { kind = primitive; start = 7; end = 8; size = 0; parent = 2 }
        ∷ record { kind = primitive; start = 10; end = 14; size = 0; parent = 2 }
        ∷ replicate 3 blank)
unfolding parse step open_container close_container comma parse_string parse_primitive skip_escape
    finish_primitive add_leaf alloc put count_child is_terminator
parse_object = refl

parse_errors :
    (code_of (parse (codes "[1, 2") room) ≡ some 3)
    × (code_of (parse (codes "[1}") room) ≡ some 2)
    × (code_of (parse (codes "[\"\\q\"]") room) ≡ some 2)
    × (code_of (parse (codes "[[[") (replicate 2 blank)) ≡ some 1)
unfolding parse step open_container close_container comma parse_string parse_primitive skip_escape
    finish_primitive add_leaf alloc put count_child is_terminator is_escape escape hex_loop is_hex
    make
parse_errors = (refl, refl, refl, refl)

abbrev nested : Bytes
nested = codes "{\"a\": [1, true]}"

abbrev filled : List Token
filled =
    record { kind = object; start = 0; end = 16; size = 1; parent = minus_one }
    ∷ record { kind = string; start = 2; end = 3; size = 1; parent = 0 }
    ∷ record { kind = array; start = 6; end = 15; size = 2; parent = 1 }
    ∷ record { kind = primitive; start = 7; end = 8; size = 0; parent = 2 }
    ∷ record { kind = primitive; start = 10; end = 14; size = 0; parent = 2 }
    ∷ replicate 3 blank

parse_returns_example : (r : Result ℕ) × (ts : List Token) × (parse nested room ≡ returned r ts)
parse_returns_example = parse_returns nested room (omega arith) (omega arith)

parse_lem_example :
    (5 ≤ 8)
    × (length filled ≡ 8)
    × ((i : ℕ) (t : Token) → i < 5 → get_elem? filled i ≡ some t → Sound nested filled 5 i t)
parse_lem_example = parse_lem nested room (omega arith) (omega arith) parse_object

parse-element_example :
    let v : View = record { src = nested; tokens = take 5 filled; index = 2 } in
    (valid (element v 1) ≡ ltb 1 (size v))
    × (1 < size v
        → (k : ℕ) × (u : Token) × (element v 1 ≡ record v { index = k })
          × (get_elem? v.tokens k ≡ some u)
          × (u.parent ≡ 2)
          × (children v.tokens k 2 ≡ 1))
parse-element_example =
    parse-element nested room 2 1 _ (omega arith) (omega arith) parse_object refl refl

int_text-decimal_example :
    (int_text (decimal 42) ≡ (if ltb 42 (2 ^ 63) then some (ok (pos 42)) else none))
    × (int_text (b'-' ∷ decimal 42) ≡ (if ltb 42 (2 ^ 63) then some (ok (negate 42)) else none))
int_text-decimal_example = int_text-decimal 42

root : View
root = record { src = nested; tokens = take 5 filled; index = 0 }

navigation :
    (as_int (element (member root (codes "a")) 0) ≡ some (ok (pos 1)))
    × (as_bool (element (member root (codes "a")) 1) ≡ ok true)
    × (valid (member root (codes "b")) ≡ false)
    × (is_string root ≡ false)
    × (is_null root ≡ false)
unfolding root as_int as_bool is_digit element element_loop member member_loop is_object is_array
    is_string is_null type raw slice token valid same
navigation = (refl, refl, refl, refl, refl)
