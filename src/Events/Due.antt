-- ===== src/Events/Due.antt =====
-- Which timers are due: the search through the timer table.
use cpp_template.Base.{
  ℕ, suc, ◌≡◌, true, false, not, none, some, List, [], ◌∷◌, ◌++◌, refl, sym, ap, length, ◌≤◌, All,
  arith, inl, inr, Bool-cases, if◌then◌else◌, if_true, if_false, ◌⊎◌, ◌∙◌,
}
use cpp_template.Events.{TimerEntry, take_due, before, passed}

module _ {Callback : Type 0} where
  -- `Splits now ts t rest`: `t` is the first timer of `ts` that is due, and `rest` the others.
  pub data Splits (now : ℕ)
      : List (TimerEntry Callback) → TimerEntry Callback → List (TimerEntry Callback) → Type 0 where
    here :
        {t : TimerEntry Callback} {ts : List (TimerEntry Callback)}
        → before now t.due ≡ false
        → Splits now (t ∷ ts) t ts
    there :
        {t u : TimerEntry Callback} {ts rest : List (TimerEntry Callback)}
        → before now u.due ≡ true
        → Splits now ts t rest
        → Splits now (u ∷ ts) t (u ∷ rest)

  -- The callbacks of the timers that are due, in the order of the table.
  unfoldable pub due_callbacks : ℕ → List (TimerEntry Callback) → List Callback
  due_callbacks now [] = []
  due_callbacks now (t ∷ ts) =
      if before now t.due then due_callbacks now ts else t.cb ∷ due_callbacks now ts

  pub record Takes (now : ℕ) (ts : List (TimerEntry Callback)) : Type 0 where
    pub timer : TimerEntry Callback
    pub rest : List (TimerEntry Callback)
    pub taken : take_due now ts ≡ some (timer, rest)
    pub splits : Splits now ts timer rest

  taken_there :
      (now : ℕ) (u : TimerEntry Callback) (ts : List (TimerEntry Callback))
      → before now u.due ≡ true
      → take_due now (u ∷ ts) ≡ passed u (take_due now ts)
  unfolding take_due
  taken_there now u ts h = if_false _ _ (ap not h)

  taken_here :
      (now : ℕ) (u : TimerEntry Callback) (ts : List (TimerEntry Callback))
      → before now u.due ≡ false
      → take_due now (u ∷ ts) ≡ some (u, ts)
  unfolding take_due
  taken_here now u ts h = if_true _ _ (ap not h)

  pub due_there :
      (now : ℕ) (u : TimerEntry Callback) (ts : List (TimerEntry Callback))
      → before now u.due ≡ true
      → due_callbacks now (u ∷ ts) ≡ due_callbacks now ts
  unfolding due_callbacks
  due_there now u ts h = if_true _ _ h

  pub due_here :
      (now : ℕ) (u : TimerEntry Callback) (ts : List (TimerEntry Callback))
      → before now u.due ≡ false
      → due_callbacks now (u ∷ ts) ≡ u.cb ∷ due_callbacks now ts
  unfolding due_callbacks
  due_here now u ts h = if_false _ _ h

  -- The search finds nothing where no timer is due, and takes out the first one that is.
  pub take_due-cases :
      (now : ℕ) (ts : List (TimerEntry Callback))
      → ((take_due now ts ≡ none) × (due_callbacks now ts ≡ [])) ⊎ Takes now ts
  take_due-cases now [] = inl (unfold take_due in refl, unfold due_callbacks in refl)
  take_due-cases now (u ∷ ts) = elim (Bool-cases (before now u.due)) [
    | inl early ↦ elim (take_due-cases now ts) [
      | inl (h, d) ↦
          inl (taken_there now u ts early ∙ ap (passed u) h, due_there now u ts early ∙ d)
      | inr found ↦ inr (record {
        timer = found.timer;
        rest = u ∷ found.rest;
        taken = taken_there now u ts early ∙ ap (passed u) found.taken;
        splits = there early found.splits;
      })
    ]
    | inr due ↦
        inr (record { timer = u; rest = ts; taken = taken_here now u ts due; splits = here due })
  ]

  pub Splits-length :
      {now : ℕ} {ts rest : List (TimerEntry Callback)} {t : TimerEntry Callback}
      → Splits now ts t rest
      → length ts ≡ suc (length rest)
  Splits-length (here h) = refl
  Splits-length (there h s) = ap suc (Splits-length s)

  pub Splits-due :
      {now : ℕ} {ts rest : List (TimerEntry Callback)} {t : TimerEntry Callback}
      → Splits now ts t rest
      → due_callbacks now ts ≡ t.cb ∷ due_callbacks now rest
  Splits-due (here h) = due_here _ _ _ h
  Splits-due {now} (there {t} {u} {ts} {rest} h s) =
      due_there now u ts h ∙ (Splits-due s ∙ sym (ap (λ l. t.cb ∷ l) (due_there now u rest h)))

  -- Timers that are set for a later time are none of them due.
  pub due_callbacks_append :
      (now : ℕ) (ts us : List (TimerEntry Callback))
      → All (λ t. before now t.due ≡ true) us
      → due_callbacks now (ts ++ us) ≡ due_callbacks now ts
  due_callbacks_append now [] [] a = refl
  due_callbacks_append now [] (u ∷ us) a =
      due_there now u us a.0 ∙ due_callbacks_append now [] us a.1
  due_callbacks_append now (t ∷ ts) us a = elim (Bool-cases (before now t.due)) [
    | inl early ↦
        due_there now t _ early
        ∙ (due_callbacks_append now ts us a ∙ sym (due_there now t ts early))
    | inr due ↦
        due_here now t _ due
        ∙ (ap (λ l. t.cb ∷ l) (due_callbacks_append now ts us a) ∙ sym (due_here now t ts due))
  ]

  pub due_callbacks-length :
      (now : ℕ) (ts : List (TimerEntry Callback)) → length (due_callbacks now ts) ≤ length ts
  due_callbacks-length now [] = unfold due_callbacks in omega arith
  due_callbacks-length now (t ∷ ts) = elim (Bool-cases (before now t.due)) [
    | inl early ↦ rw (due_there now t ts early) (omega (arith, due_callbacks-length now ts))
    | inr due ↦ rw (due_here now t ts due) (omega (arith, due_callbacks-length now ts))
  ]
