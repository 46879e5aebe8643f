-- ===== src/Conf/Walk.antt =====
-- What a walk over a well formed command line yields.
use cpp_template.Base.{
  if_true, if_false, ℕ, zero, suc, All, ◌+◌, Bool, true, false, not, ◌&&◌, ◌||◌, Option, none, some,
  List, [], ◌∷◌, ◌++◌, ◌≡◌, ◌≢◌, refl, sym, ◌∙◌, ap, ap₂, subst, Bytes, same, get_elem?, ◌==◌, drop,
  arith,
}
use cpp_template.Core.{ok}
use cpp_template.Conf.{
  CliOption, CliCommand, OptionValue, CmdlineOptionsIterator, starts_with_dash_dash, dash_dash,
  find_option, in_front, cut_at_equals, argument_of, option_of, Next, taken_value, with_parameter,
  found_option, option_token, classify, next_element, next,
}

-- An option of the command that a token can name.
pub record Names (c : CliCommand) (o : CliOption) : Type 0 where
  pub listed : find_option o.long_option c.options ≡ some o
  pub dashes : starts_with_dash_dash o.long_option ≡ true
  pub no_equals : All (λ x. (x == b'=') ≡ false) o.long_option
  pub longer : same o.long_option dash_dash ≡ false

-- What can be written on a command line before the terminator.
pub data Item (c : CliCommand) : Type 0 where
  flag : (o : CliOption) → Names c o → o.parameter ≡ [] → Item c
  inlined : (o : CliOption) → Names c o → o.parameter ≢ [] → Bytes → Item c
  spaced : (o : CliOption) → Names c o → o.parameter ≢ [] → Bytes → Item c
  plain : (a : Bytes) → starts_with_dash_dash a ≡ false → Item c

unfoldable pub tokens : {c : CliCommand} → Item c → List Bytes
tokens (flag o n e) = o.long_option ∷ []
tokens (inlined o n e v) = (o.long_option ++ b'=' ∷ v) ∷ []
tokens (spaced o n e v) = o.long_option ∷ v ∷ []
tokens (plain a h) = a ∷ []

unfoldable pub meaning : {c : CliCommand} → Item c → OptionValue
meaning (flag o n e) = option_of o []
meaning (inlined o n e v) = option_of o v
meaning (spaced o n e v) = option_of o v
meaning (plain a h) = argument_of a

-- The state of a walk: what is left, and whether the terminator was seen.
pub record At (c : CliCommand) (rest : List Bytes) (seen : Bool) (it : CmdlineOptionsIterator)
    : Type 0 where
  pub left : drop it.index it.argv ≡ rest
  pub command_same : it.command ≡ c
  pub seen_same : it.args_only ≡ seen

pub get_elem?-of_drop :
    (xs : List Bytes) (i : ℕ) {y : Bytes} {ys : List Bytes}
    → drop i xs ≡ y ∷ ys
    → (get_elem? xs i ≡ some y) × (drop (suc i) xs ≡ ys)
get_elem?-of_drop [] zero h = cc
get_elem?-of_drop [] (suc i) h = cc
get_elem?-of_drop (x ∷ xs) zero h = (cc, cc)
get_elem?-of_drop (x ∷ xs) (suc i) h = get_elem?-of_drop xs i h

pub get_elem?-of_end : (xs : List Bytes) (i : ℕ) → drop i xs ≡ [] → get_elem? xs i ≡ none
get_elem?-of_end [] i h = refl
get_elem?-of_end (x ∷ xs) zero h = cc
get_elem?-of_end (x ∷ xs) (suc i) h = get_elem?-of_end xs i h

cut_at_equals_whole :
    (name : Bytes) → All (λ x. (x == b'=') ≡ false) name → cut_at_equals name ≡ (name, none)
unfolding cut_at_equals
cut_at_equals_whole [] h = refl
cut_at_equals_whole (c ∷ s) h =
    rw (h.0, cut_at_equals) (ap (in_front c) (cut_at_equals_whole s h.1))

-- The token of an inlined option is cut behind its name.
cut_at_equals_append :
    (name v : Bytes)
    → All (λ x. (x == b'=') ≡ false) name
    → cut_at_equals (name ++ b'=' ∷ v) ≡ (name, some v)
unfolding cut_at_equals
cut_at_equals_append [] v h = refl
cut_at_equals_append (c ∷ s) v h =
    rw (h.0, cut_at_equals) (ap (in_front c) (cut_at_equals_append s v h.1))

same_longer : (s v : Bytes) → same (s ++ b'=' ∷ v) [] ≡ false
unfolding same
same_longer [] v = refl
same_longer (c ∷ s) v = refl

both_false : (x y : Bool) → (x && (y && false)) ≡ false
both_false x y = ground arith

starts_append :
    (name v : Bytes)
    → starts_with_dash_dash name ≡ true
    → (starts_with_dash_dash (name ++ b'=' ∷ v) ≡ true)
      × (same (name ++ b'=' ∷ v) dash_dash ≡ false)
unfolding starts_with_dash_dash same
starts_append [] v h = cc
starts_append (a ∷ []) v h = cc
starts_append (a ∷ b ∷ s) v h = (
  h,
  ap (λ y. (a == b'-') && ((b == b'-') && y)) (same_longer s v)
      ∙ both_false (a == b'-') (b == b'-'),
)

abbrev pub moved : CmdlineOptionsIterator → CmdlineOptionsIterator
moved it = record it { index = it.index + 1 }

pub plus_one : (n : ℕ) → n + 1 ≡ suc n
plus_one n = omega arith

pub At-moved :
    {c : CliCommand} {tok : Bytes} {rest : List Bytes} {seen : Bool} (it : CmdlineOptionsIterator)
    → At c (tok ∷ rest) seen it
    → At c rest seen (moved it)
At-moved it a = record {
  left =
      ap (λ n. drop n it.argv) (plus_one it.index) ∙ (get_elem?-of_drop it.argv it.index a.left).1;
  command_same = a.command_same;
  seen_same = a.seen_same;
}

pub next_ordinary :
    {c : CliCommand} {tok : Bytes} {rest : List Bytes} (it : CmdlineOptionsIterator)
    → At c (tok ∷ rest) false it
    → same tok dash_dash ≡ false
    → next it ≡ classify (moved it) tok
unfolding next
next_ordinary it a h =
    let (here, there) = get_elem?-of_drop it.argv it.index a.left in
    ap (next_element it) here ∙ if_false _ _ (ap₂ (λ x y. not x && y) a.seen_same h)

pub classify_option :
    (it : CmdlineOptionsIterator) (tok : Bytes)
    → it.args_only ≡ false
    → starts_with_dash_dash tok ≡ true
    → classify it tok ≡ option_token it (cut_at_equals tok)
unfolding classify
classify_option it tok a h = if_false _ _ (ap₂ (λ x y. x || not y) a h)

pub classify_argument :
    (it : CmdlineOptionsIterator) (tok : Bytes)
    → (it.args_only || not (starts_with_dash_dash tok)) ≡ true
    → classify it tok ≡ (ok (some (argument_of tok)), it)
unfolding classify
classify_argument it tok h = if_true _ _ h

-- What one call yields, and where the walk then is.
pub record Yields (c : CliCommand) (rest : List Bytes) (seen : Bool) (v : OptionValue) (r : Next)
    : Type 0 where
  pub yielded : r.0 ≡ ok (some v)
  pub onward : At c rest seen r.1

pub yields :
    {c : CliCommand} {rest : List Bytes} {seen : Bool} {v : OptionValue} {r : Next}
    (it : CmdlineOptionsIterator)
    → r ≡ (ok (some v), it)
    → At c rest seen it
    → Yields c rest seen v r
yields {c} {rest} {seen} {v} {r} it e a = record {
  yielded = ap (λ q. q.0) e;
  onward = subst (At c rest seen) (sym (ap (λ q. q.1) e)) a;
}

last_false : (x : Bool) → (x && false) ≡ false
last_false x = ground arith

front_false : (x y z : Bool) → (x && y) ≡ false → (x && (y && z)) ≡ false
front_false x y z h = ground arith

not_terminator : (a : Bytes) → starts_with_dash_dash a ≡ false → same a dash_dash ≡ false
unfolding starts_with_dash_dash same
not_terminator [] h = refl
not_terminator (a ∷ []) h = last_false (a == b'-')
not_terminator (a ∷ b ∷ s) h = front_false (a == b'-') (b == b'-') (same s []) h

-- An option that is found, with its value in the token or not.
option_token_found :
    {c : CliCommand} {rest : List Bytes} {seen : Bool} (it : CmdlineOptionsIterator) (o : CliOption)
    (v : Option Bytes)
    → Names c o
    → At c rest seen it
    → option_token it (o.long_option, v) ≡ with_parameter it o.long_option v o o.parameter
unfolding option_token
option_token_found it o v n a =
    ap (λ d. found_option it o.long_option v (find_option o.long_option d.options)) a.command_same
    ∙ ap (found_option it o.long_option v) n.listed

with_parameter-some :
    (it : CmdlineOptionsIterator) (o : CliOption) (v p : Bytes)
    → p ≢ []
    → with_parameter it o.long_option (some v) o p ≡ (ok (some (option_of o v)), it)
with_parameter-some it o v [] e = absurd (e refl)
with_parameter-some it o v (x ∷ p) e = refl

with_parameter-none :
    (it : CmdlineOptionsIterator) (o : CliOption) (p : Bytes)
    → p ≢ []
    → with_parameter it o.long_option none o p
      ≡ taken_value it o.long_option o (get_elem? it.argv it.index)
with_parameter-none it o [] e = absurd (e refl)
with_parameter-none it o (x ∷ p) e = refl

pub next-Item :
    {c : CliCommand} {rest : List Bytes} (i : Item c) (it : CmdlineOptionsIterator)
    → At c (tokens i ++ rest) false it
    → Yields c rest false (meaning i) (next it)
unfolding tokens meaning
next-Item (plain a h) it w =
    let w' = At-moved it w in
    yields (moved it)
      (next_ordinary it w (not_terminator a h)
        ∙ classify_argument (moved it) a (ap₂ (λ x y. x || not y) w'.seen_same h))
      w'
next-Item (flag o n e) it w =
    let w' = At-moved it w in
    yields (moved it)
      (next_ordinary it w n.longer
        ∙ classify_option (moved it) o.long_option w'.seen_same n.dashes
        ∙ ap (option_token (moved it)) (cut_at_equals_whole o.long_option n.no_equals)
        ∙ option_token_found (moved it) o none n w'
        ∙ ap (with_parameter (moved it) o.long_option none o) e)
      w'
next-Item (inlined o n e v) it w =
    let w' = At-moved it w in
    let (dashes, longer) = starts_append o.long_option v n.dashes in
    yields (moved it)
      (next_ordinary it w longer
        ∙ classify_option (moved it) (o.long_option ++ b'=' ∷ v) w'.seen_same dashes
        ∙ ap (option_token (moved it)) (cut_at_equals_append o.long_option v n.no_equals)
        ∙ option_token_found (moved it) o (some v) n w'
        ∙ with_parameter-some (moved it) o v o.parameter e)
      w'
next-Item (spaced o n e v) it w =
    let w' = At-moved it w in
    yields (moved (moved it))
      (next_ordinary it w n.longer
        ∙ classify_option (moved it) o.long_option w'.seen_same n.dashes
        ∙ ap (option_token (moved it)) (cut_at_equals_whole o.long_option n.no_equals)
        ∙ option_token_found (moved it) o none n w'
        ∙ with_parameter-none (moved it) o o.parameter e
        ∙ ap (taken_value (moved it) o.long_option o)
            (get_elem?-of_drop it.argv (it.index + 1) w'.left).0)
      (At-moved (moved it) w')

pub next_argument :
    {c : CliCommand} {rest : List Bytes} (a : Bytes) (it : CmdlineOptionsIterator)
    → At c (a ∷ rest) true it
    → Yields c rest true (argument_of a) (next it)
unfolding next
next_argument a it w =
    let w' = At-moved it w in
    yields (moved it)
      (ap (next_element it) (get_elem?-of_drop it.argv it.index w.left).0
        ∙ if_false _ _ (ap (λ x. not x && same a dash_dash) w.seen_same)
        ∙ classify_argument (moved it) a
            (ap (λ x. x || not (starts_with_dash_dash a)) w'.seen_same))
      w'
