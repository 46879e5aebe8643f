-- ===== src/Sm/Plain.antt =====
-- A plain dispatcher, whose machine is the state itself.
use cpp_template.Base.{Option, none, some, ◌≡◌, refl}
use cpp_template.Sm.{StateId, on_event, Engine}

abbrev or_stay : StateId → Option StateId → StateId
or_stay s none = s
or_stay s (some t) = t

pub or_stay-none : (s : StateId) (o : Option StateId) → o ≡ none → or_stay s o ≡ s
or_stay-none s none h = refl
or_stay-none s (some t) h = cc

pub or_stay-some : (s t : StateId) (o : Option StateId) → o ≡ some t → or_stay s o ≡ t
or_stay-some s t none h = cc
or_stay-some s t (some u) h = cc

abbrev pub plain : Engine
plain = record {
  Machine = StateId;
  start_in = λ s rest. s;
  receive = λ s e. or_stay s (on_event s e);
  get_state_id = λ s. s;
  start_first = λ s rest. refl;
  receive_stay = λ s e h. or_stay-none s (on_event s e) h;
  receive_move = λ s e t h. or_stay-some s t (on_event s e) h;
}
