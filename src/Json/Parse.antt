-- ===== src/Json/Parse.antt =====
-- `Parse` of src/json/json.cpp: the loop over the input, and the check for open tokens.
use cpp_template.Base.{
  ℕ, zero, suc, Bool, true, false, not, ◌&&◌, ◌||◌, none, some, List, ◌==◌, if◌then◌else◌, Bytes,
  codes, length, get_elem?, set,
}
use cpp_template.Core.{Category, Result, ok, err, make}
use cpp_template.Json.{
  no_memory, invalid, partial, Kind, object, array, kind_number, Token, minus_one, to_int32,
  to_size, inc64, dec32, Parser, Run, cont, stop, stuck, then_run, json_fail, alloc, put,
  count_child, parse_primitive, parse_string,
}

-- `tokens[i].start != -1 && tokens[i].end == -1`
abbrev pub is_open : Token → Bool
is_open t = not (t.start == minus_one) && t.end == minus_one

pub data Scan : Type 0 where
  found : ℕ → Token → Scan
  nowhere : Scan
  outside : Scan

-- `for (i = toknext - 1; i >= 0; --i)`: the last open token below `n`.
unfoldable pub scan_open : List Token → ℕ → Scan
scan_open ts zero = nowhere
scan_open ts (suc i) = elim (get_elem? ts i) [
  | none ↦ outside
  | some t ↦ elim (is_open t) [ true ↦ found i t | false ↦ scan_open ts i ]
]

-- `case '{'` and `case '['`
unfoldable pub open_container : Kind → Parser → Run
open_container k p = elim (alloc p) [
  | none ↦ json_fail no_memory (codes "tokens exhausted") p
  | some (i, q) ↦ then_run (count_child q) λ r.
      then_run
        (put r i (λ t. record t {
          kind = k;
          start = to_int32 r.pos;
          parent = if r.toksuper == minus_one then t.parent else r.toksuper;
        }))
        λ s. cont (record s { toksuper = dec32 s.toknext })
]

-- `case '}'` and `case ']'`
unfoldable pub close_container : Kind → Parser → Run
unfolding scan_open
close_container k p = elim (scan_open p.tokens p.toknext) [
  | outside ↦ stuck
  | nowhere ↦ json_fail invalid (codes "stray closing bracket") p
  | found i t ↦
      if kind_number t.kind == kind_number k
      then cont (record p {
        tokens = set p.tokens i (record t { end = to_int32 (inc64 p.pos) });
        toksuper = t.parent;
      })
      else json_fail invalid (codes "mismatched bracket") p
]

-- `case ','`: back up from a key to its container.
unfoldable pub comma : Parser → Run
comma p = if p.toksuper == minus_one then cont p else elim (get_elem? p.tokens p.toksuper) [
  | none ↦ stuck
  | some t ↦
      if kind_number t.kind == kind_number array || kind_number t.kind == kind_number object
      then cont p
      else cont (record p { toksuper = t.parent })
]

abbrev pub is_space : ℕ → Bool
is_space c = c == b'\t' || c == b'\r' || c == b'\n' || c == b' '

-- The `switch` on the byte `c` at `pos`.
unfoldable pub step : Bytes → ℕ → Parser → Run
step js c p =
    if c == b'{'
    then open_container object p
    else if c == b'['
    then open_container array p
    else if c == b'}'
    then close_container object p
    else if c == b']'
    then close_container array p
    else if c == b'"'
    then then_run (parse_string js p) count_child
    else if is_space c
    then cont p
    else if c == b':'
    then cont (record p { toksuper = dec32 p.toknext })
    else if c == b','
    then comma p
    else then_run (parse_primitive js p) count_child

-- `for (; p.pos < js.size(); ++p.pos)`; the test and the read are one.
unfoldable pub main_loop : ℕ → Bytes → Parser → Run
main_loop zero js p = stuck
main_loop (suc f) js p = elim (get_elem? js p.pos) [
  | none ↦ cont p
  | some c ↦ then_run (step js c p) λ q. main_loop f js (record q { pos = inc64 q.pos })
]

-- What the caller sees: the result and its tokens, or undefined behaviour or a loop without an end.
pub data Parsed : Type 0 where
  returned : Result ℕ → List Token → Parsed
  crashed : Parsed

unfoldable pub finish : Run → Parsed
unfolding scan_open
finish stuck = crashed
finish (stop e p) = returned (err e) p.tokens
finish (cont p) = elim (scan_open p.tokens p.toknext) [
  | outside ↦ crashed
  | found i t ↦ returned (err (make Category.json partial (codes "unclosed container"))) p.tokens
  | nowhere ↦ returned (ok (to_size p.toknext)) p.tokens
]

abbrev pub initial : List Token → Parser
initial ts = record { tokens = ts; pos = 0; toknext = 0; toksuper = minus_one }

unfoldable pub parse : Bytes → List Token → Parsed
unfolding main_loop finish
parse js ts = finish (main_loop (suc (length js)) js (initial ts))
