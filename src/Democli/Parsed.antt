-- ===== src/Democli/Parsed.antt =====
-- `ParseArguments` on the command line of a command.
use cpp_template.Base.{
  ℕ, zero, suc, true, false, Option, none, some, List, [], ◌∷◌, ◌++◌, Bytes, codes, ◌≡◌, refl, sym,
  ◌∙◌, ap, ap₂, same, length, if_true, if_false, Bool-cases, list_cases, inl, inr, ◌⊎◌,
  if◌then◌else◌,
}
use cpp_template.Core.{Category, Result, ok, err, fail, ◌>>=◌}
use cpp_template.Conf.{OptionValue, CmdlineOptionsIterator, iterator, next, find_command}
use cpp_template.Conf.Walk.{Item}
use cpp_template.Conf.Line.{walk, walk_on, walk-line, all_tokens, terminated, meanings, arguments}
use cpp_template.Democli.{
  install_command, install, help, Pool, set_command, set_artifact, Given, nothing_given, take_value,
  too_many_args, on_with, on_next, walk_given, unless_blank, dispatch, any_help_flag, when_walked,
  parse_arguments, is_help_flag,
}

-- The walk of `ParseArguments` over values that have been yielded.
unfoldable take_values : List OptionValue → Given → Result Given
take_values [] g = ok g
take_values (v ∷ vs) g = take_value v g >>= take_values vs

-- The arguments among the values, and the last value of `--stop-before`, if any.
unfoldable pub plain_texts : List OptionValue → List Bytes
plain_texts [] = []
plain_texts (v ∷ vs) = if v.is_argument then v.text ∷ plain_texts vs else plain_texts vs

unfoldable pub last_stop : List OptionValue → Bytes → Bytes
last_stop [] stop = stop
last_stop (v ∷ vs) stop =
    if v.is_argument
    then last_stop vs stop
    else if same v.option (codes "--stop-before")
    then last_stop vs v.text
    else last_stop vs stop

on_with-values :
    (loop : Given → Option (Result Given)) (vs : List OptionValue)
    → ((g : Given) → loop g ≡ some (take_values vs g))
    → (r : Result Given) → on_with loop r ≡ some (r >>= take_values vs)
on_with-values loop vs h (err e) = refl
on_with-values loop vs h (ok g) = h g

ok_values : {vs ws : List OptionValue} → some (ok vs) ≡ some (ok ws) → vs ≡ ws
ok_values {vs} e =
    ap
      (λ (o : Option (Result (List OptionValue))). elim o [
        | none ↦ vs
        | some r ↦ elim r [ ok us ↦ us | err x ↦ vs ]
      ])
      e

-- A round of the walk, whose rest `w` yields what its client would collect.
on_next-values :
    (loop : Given → Option (Result Given)) (w : Option (Result (List OptionValue)))
    → ((vs : List OptionValue) → w ≡ some (ok vs) → (g : Given) → loop g ≡ some (take_values vs g))
    → (r : Result (Option OptionValue)) (g : Given) (vs : List OptionValue)
    → walk_on r w ≡ some (ok vs)
    → on_next loop r g ≡ some (take_values vs g)
unfolding take_values
on_next-values loop w k (err e) g vs h = cc
on_next-values loop w k (ok none) g vs h = ap (λ us. some (take_values us g)) (ok_values h)
on_next-values loop none k (ok (some v)) g vs h = cc
on_next-values loop (some (err e)) k (ok (some v)) g vs h = cc
on_next-values loop (some (ok ws)) k (ok (some v)) g vs h =
    on_with-values loop ws (k ws refl) (take_value v g)
    ∙ ap (λ us. some (take_values us g)) (ok_values h)

walk_given-walk :
    (f : ℕ) (it : CmdlineOptionsIterator) (g : Given) (vs : List OptionValue)
    → walk f it ≡ some (ok vs)
    → walk_given f it g ≡ some (take_values vs g)
unfolding walk walk_given
walk_given-walk zero it g vs h = cc
walk_given-walk (suc f) it g vs h =
    on_next-values (walk_given f (next it).1) (walk f (next it).1)
      (λ us e g'. walk_given-walk f (next it).1 g' us e) (next it).0 g vs h

-- What the values come to: at most one argument, and the last value of `--stop-before`.
abbrev pub too_many : Result Given
too_many = fail Category.conf too_many_args (codes "unexpected extra argument")

unfoldable come_to : List Bytes → Bytes → Given → Result Given
come_to [] stop g = ok (record g { stop_at = stop })
come_to (a ∷ ps) stop g =
    if g.have_argument
    then too_many
    else come_to ps stop (record g { argument = a; have_argument = true })

come_to_stop :
    (ps : List Bytes) (stop s : Bytes) (g : Given)
    → come_to ps stop (record g { stop_at = s }) ≡ come_to ps stop g
unfolding come_to
come_to_stop [] stop s g = refl
come_to_stop (a ∷ ps) stop s g =
    ap (λ r. if g.have_argument then too_many else r)
      (come_to_stop ps stop s (record g { argument = a; have_argument = true }))

abbrev with_argument : Given → OptionValue → Given
with_argument g v = record g { argument = v.text; have_argument = true }

-- One more value, which is an argument, in front.
argument_front :
    (v : OptionValue) (vs : List OptionValue) (g : Given)
    → v.is_argument ≡ true
    → come_to (plain_texts (v ∷ vs)) (last_stop (v ∷ vs) g.stop_at) g
      ≡ come_to (v.text ∷ plain_texts vs) (last_stop vs g.stop_at) g
unfolding plain_texts last_stop
argument_front v vs g is =
    ap₂ (λ ps stop. come_to ps stop g) (if_true (v.text ∷ plain_texts vs) (plain_texts vs) is)
      (if_true _ _ is)

take_argument :
    (v : OptionValue) (vs : List OptionValue) (g : Given)
    → ((g : Given) → take_values vs g ≡ come_to (plain_texts vs) (last_stop vs g.stop_at) g)
    → v.is_argument ≡ true
    → take_values (v ∷ vs) g ≡ come_to (v.text ∷ plain_texts vs) (last_stop vs g.stop_at) g
unfolding take_values take_value come_to fail
take_argument v vs g h is =
    ap (λ r. r >>= take_values vs) (if_true _ _ is) ∙ elim (Bool-cases g.have_argument) [
      | inl more ↦
          ap (λ r. r >>= take_values vs) (if_true too_many (ok (with_argument g v)) more)
          ∙ sym (if_true too_many _ more)
      | inr first ↦
          ap (λ r. r >>= take_values vs) (if_false too_many (ok (with_argument g v)) first)
          ∙ (h (with_argument g v) ∙ sym (if_false too_many _ first))
    ]

-- One more value, which is an option, in front.
option_front :
    (v : OptionValue) (vs : List OptionValue) (g : Given)
    → v.is_argument ≡ false
    → come_to (plain_texts (v ∷ vs)) (last_stop (v ∷ vs) g.stop_at) g
      ≡ come_to
          (plain_texts vs)
          (if same v.option (codes "--stop-before")
            then last_stop vs v.text
            else last_stop vs g.stop_at)
          g
unfolding plain_texts last_stop
option_front v vs g isnt =
    ap₂ (λ ps stop. come_to ps stop g) (if_false (v.text ∷ plain_texts vs) (plain_texts vs) isnt)
      (if_false _ _ isnt)

take_option :
    (v : OptionValue) (vs : List OptionValue) (g : Given)
    → ((g : Given) → take_values vs g ≡ come_to (plain_texts vs) (last_stop vs g.stop_at) g)
    → v.is_argument ≡ false
    → take_values (v ∷ vs) g
      ≡ come_to
          (plain_texts vs)
          (if same v.option (codes "--stop-before")
            then last_stop vs v.text
            else last_stop vs g.stop_at)
          g
unfolding take_values take_value
take_option v vs g h isnt =
    ap (λ r. r >>= take_values vs) (if_false _ _ isnt)
    ∙ elim (Bool-cases (same v.option (codes "--stop-before"))) [
      | inl stop ↦
          ap (λ r. r >>= take_values vs) (if_true (ok (record g { stop_at = v.text })) (ok g) stop)
          ∙ (h (record g { stop_at = v.text })
              ∙ (come_to_stop (plain_texts vs) (last_stop vs v.text) v.text g
                  ∙ ap (λ s. come_to (plain_texts vs) s g) (sym (if_true _ _ stop))))
      | inr other ↦
          ap (λ r. r >>= take_values vs)
            (if_false (ok (record g { stop_at = v.text })) (ok g) other)
          ∙ (h g ∙ ap (λ s. come_to (plain_texts vs) s g) (sym (if_false _ _ other)))
    ]

take_values-come_to :
    (vs : List OptionValue) (g : Given)
    → take_values vs g ≡ come_to (plain_texts vs) (last_stop vs g.stop_at) g
take_values-come_to [] g = unfold take_values come_to plain_texts last_stop in refl
take_values-come_to (v ∷ vs) g = elim (Bool-cases v.is_argument) [
  | inl is ↦ take_argument v vs g (take_values-come_to vs) is ∙ sym (argument_front v vs g is)
  | inr isnt ↦ take_option v vs g (take_values-come_to vs) isnt ∙ sym (option_front v vs g isnt)
]

-- `ParseArguments` of a well formed command line for `install` that asks for no help: without an
-- argument, or with one, which the action keeps, up to 128 bytes, it returns the action; and the
-- action keeps the last state given with `--stop-before`, unless it is empty; with more arguments
-- it returns `TooManyArgs`, and no action is changed. What no argument or option is given for is as
-- an earlier call left it. One round more than there are tokens is enough.
pub parse_arguments-install :
    (program : Bytes) (is : List (Item install_command)) (args : Option (List Bytes)) (pool : Pool)
    → any_help_flag (all_tokens is ++ terminated args) ≡ false
    → let tokens = all_tokens is ++ terminated args in
      let vs = meanings is ++ arguments args in
      let r = parse_arguments (suc (length tokens)) (program ∷ codes "install" ∷ tokens) pool in
      ((plain_texts vs ≡ []) × (r ≡ some (ok install, unless_blank (last_stop vs []) pool)))
      ⊎ (((a : Bytes) × (plain_texts vs ≡ a ∷ [])
            × (r ≡ some (ok install, unless_blank (last_stop vs []) (set_artifact pool a))))
          ⊎ ((a : Bytes) × (b : Bytes) × (ps : List Bytes) × (plain_texts vs ≡ a ∷ b ∷ ps)
              × (r
                  ≡ some (
                    fail Category.conf too_many_args (codes "unexpected extra argument"),
                    pool,
                  ))))
unfolding parse_arguments is_help_flag find_command same dispatch come_to fail
parse_arguments-install program is args pool quiet =
    let tokens : List Bytes = all_tokens is ++ terminated args in
    let vs : List OptionValue = meanings is ++ arguments args in
    let walked : walk_given (suc (length tokens)) (iterator tokens install_command) nothing_given
        ≡ some (come_to (plain_texts vs) (last_stop vs []) nothing_given) =
      walk_given-walk (suc (length tokens)) (iterator tokens install_command) nothing_given vs
        (walk-line is args)
      ∙ ap some (take_values-come_to vs nothing_given) in
    let parsed : (us : List Bytes)
        → plain_texts vs ≡ us
        → parse_arguments (suc (length tokens)) (program ∷ codes "install" ∷ tokens) pool
          ≡ when_walked (codes "install") pool (some (come_to us (last_stop vs []) nothing_given)) =
      λ us e.
        if_false (some (ok help, set_command pool (codes "install"))) _ quiet
        ∙ (ap (when_walked (codes "install") pool) walked
            ∙ ap
                (λ ps.
                  when_walked (codes "install") pool
                    (some (come_to ps (last_stop vs []) nothing_given)))
                e) in
    elim (list_cases (plain_texts vs)) [
      | inl e ↦ inl (e, parsed [] e)
      | inr (a, ps, e) ↦ elim (list_cases ps) [
        | inl d ↦
            let e' : plain_texts vs ≡ a ∷ [] = e ∙ ap (λ us. a ∷ us) d in
            inr (inl (a, e', parsed (a ∷ []) e'))
        | inr (b, qs, d) ↦
            let e' : plain_texts vs ≡ a ∷ b ∷ qs = e ∙ ap (λ us. a ∷ us) d in
            inr (inr (a, b, qs, e', parsed (a ∷ b ∷ qs) e'))
      ]
    ]
