-- ===== src/Democli/Phases.antt =====
-- `InstallAction` and the workflow that it drives.
use cpp_template.Base.{
  ℕ, Bool, true, false, not, ◌&&◌, some, List, [], ◌∷◌, ◌++◌, Bytes, codes, ◌≡◌, ◌≢◌, refl, sym,
  ◌∙◌, ap, ap₂, arith, subst, ◌⊎◌, inl, inr, same, same_iff, Bool-cases, if_true, if_false,
}
use cpp_template.Core.{error_ok, make}
use cpp_template.Io.{Writer}
use cpp_template.Sm.{
  StateId, download, verify, install, await_commit, idle, Engine, Message, start, on_event,
  update_fsm, call,
}
use cpp_template.Democli.Actions.{
  is_blank, new_line, puts, run_phases, after_phases, install_artifact, exit_status,
}

not_both : {b : Bool} → b ≡ true → b ≡ false → ⊥
not_both e h = cc

and_false : (b : Bool) → (b && false) ≡ false
and_false b = ground arith

equal_or_not : (a b : Bytes) → (a ≡ b) ⊎ (a ≢ b)
equal_or_not a b = elim (Bool-cases (same a b)) [
  | inl e ↦ inl ((same_iff a b).0 e)
  | inr e ↦ inr (λ h. absurd (not_both ((same_iff a b).1 h) e))
]

same_ne : {a b : Bytes} → a ≢ b → same a b ≡ false
same_ne {a} {b} ne = elim (Bool-cases (same a b)) [
  | inl e ↦ absurd (ne ((same_iff a b).0 e))
  | inr e ↦ e
]

module _ (writer : Writer) (engine : Engine) where
  open writer use {Sink}
  open engine use {Machine, receive, get_state_id, start_first, receive_move}

  moved_to :
      (m : Machine) (e : Message) (s t : StateId)
      → get_state_id m ≡ s
      → on_event s e ≡ some t
      → get_state_id (call engine m e).1 ≡ t
  unfolding call
  moved_to m e s t at go = receive_move m e t (ap (λ u. on_event u e) at ∙ go)

  begun : get_state_id (update_fsm engine) ≡ idle
  unfolding update_fsm
  begun = start_first idle _

  -- The state in which the phases behind `phase` end.
  phase_stopped :
      (stop phase : Bytes) (rest : List Bytes) (m : Machine) (k : Sink)
      → stop ≡ phase
      → is_blank phase ≡ false
      → run_phases writer engine stop (phase ∷ rest) m k
        ≡ (true, m, puts writer (codes "stopping before " ∷ phase ∷ new_line ∷ []) k)
  unfolding run_phases
  phase_stopped stop phase rest m k e b =
      if_true _ _ (ap₂ (λ x y. not x && y) (ap is_blank e ∙ b) ((same_iff stop phase).1 e))

  phase_passed :
      (stop phase : Bytes) (rest : List Bytes) (m : Machine) (k : Sink)
      → stop ≢ phase
      → run_phases writer engine stop (phase ∷ rest) m k
        ≡ run_phases writer engine stop rest
            (call engine m Message.next).1
            (puts writer (codes "  " ∷ phase ∷ (codes " ok" ++ new_line) ∷ []) k)
  unfolding run_phases
  phase_passed stop phase rest m k ne =
      if_false _ _
        (ap (λ y. not (is_blank stop) && y) (same_ne ne) ∙ and_false (not (is_blank stop)))

  no_phase :
      (stop : Bytes) (m : Machine) (k : Sink) → run_phases writer engine stop [] m k ≡ (false, m, k)
  unfolding run_phases
  no_phase stop m k = refl

  -- How a machine and an error tell that the action stopped in front of a phase, or went through.
  record Halted (s : StateId) (code : ℕ) (r : Bool × Machine × Sink) : Type 0 where
    state_eq : get_state_id (after_phases writer engine r).1 ≡ s
    code_eq : exit_status (after_phases writer engine r).0 ≡ code

  stopped_at :
      {s : StateId} {m : Machine} {k : Sink} {r : Bool × Machine × Sink}
      → r ≡ (true, m, k)
      → get_state_id m ≡ s
      → Halted s 0 r
  stopped_at {s} e at =
      subst (Halted s 0) (sym e)
        (record { state_eq = at; code_eq = unfold exit_status error_ok in refl })

  through :
      {s : StateId} {m : Machine} {k : Sink} {r : Bool × Machine × Sink}
      → r ≡ (false, m, k)
      → get_state_id m ≡ s
      → Halted s 4 r
  through {s} e at =
      subst (Halted s 4) (sym e)
        (record { state_eq = at; code_eq = unfold exit_status error_ok make in refl })

  -- `install` with an artifact drives the workflow: with `--stop-before` naming a phase, it exits
  -- with 0 and the machine is in the state of that phase; otherwise it exits with 4, for the
  -- reboot that is needed, and the machine awaits the commit.
  pub install_artifact-Phases :
      (artifact stop : Bytes) (k : Sink)
      → let (e, m, k') = install_artifact writer engine artifact stop k in
        let s = get_state_id m in
        ((stop ≡ codes "download") × (exit_status e ≡ 0) × (s ≡ download))
        ⊎ (((stop ≡ codes "verify") × (exit_status e ≡ 0) × (s ≡ verify))
            ⊎ (((stop ≡ codes "install") × (exit_status e ≡ 0) × (s ≡ install))
                ⊎ ((stop ≢ codes "download")
                    × (stop ≢ codes "verify")
                    × (stop ≢ codes "install")
                    × (exit_status e ≡ 4)
                    × (s ≡ await_commit))))
  unfolding install_artifact
  install_artifact-Phases artifact stop k =
      let m₀ : Machine = (call engine (update_fsm engine) start).1 in
      let k₀ : Sink = puts writer (codes "installing " ∷ artifact ∷ new_line ∷ []) k in
      let at₀ : get_state_id m₀ ≡ download =
        moved_to (update_fsm engine) start idle download begun (unfold on_event in refl) in
      let step : (m : Machine) (s t : StateId)
          → get_state_id m ≡ s
          → on_event s Message.next ≡ some t
          → get_state_id (call engine m Message.next).1 ≡ t =
        λ m s t. moved_to m Message.next s t in
      let m₁ : Machine = (call engine m₀ Message.next).1 in
      let at₁ : get_state_id m₁ ≡ verify = step m₀ download verify at₀ (unfold on_event in refl) in
      let m₂ : Machine = (call engine m₁ Message.next).1 in
      let at₂ : get_state_id m₂ ≡ install = step m₁ verify install at₁ (unfold on_event in refl) in
      let m₃ : Machine = (call engine m₂ Message.next).1 in
      let at₃ : get_state_id m₃ ≡ await_commit =
        step m₂ install await_commit at₂ (unfold on_event in refl) in
      elim (equal_or_not stop (codes "download")) [
        | inl e ↦
            let h : Halted download 0 _ =
              stopped_at (phase_stopped stop (codes "download") _ m₀ k₀ e refl) at₀ in
            inl (e, h.code_eq, h.state_eq)
        | inr n₁ ↦
            let p₁ = phase_passed stop (codes "download") _ m₀ k₀ n₁ in
            elim (equal_or_not stop (codes "verify")) [
              | inl e ↦
                  let h : Halted verify 0 _ =
                    stopped_at (p₁ ∙ phase_stopped stop (codes "verify") _ m₁ _ e refl) at₁ in
                  inr (inl (e, h.code_eq, h.state_eq))
              | inr n₂ ↦
                  let p₂ = p₁ ∙ phase_passed stop (codes "verify") _ m₁ _ n₂ in
                  elim (equal_or_not stop (codes "install")) [
                    | inl e ↦
                        let h : Halted install 0 _ =
                          stopped_at (p₂ ∙ phase_stopped stop (codes "install") [] m₂ _ e refl)
                            at₂ in
                        inr (inr (inl (e, h.code_eq, h.state_eq)))
                    | inr n₃ ↦
                        let h : Halted await_commit 4 _ =
                          through
                            (p₂
                              ∙ (phase_passed stop (codes "install") [] m₂ _ n₃
                                  ∙ no_phase stop m₃ _))
                            at₃ in
                        inr (inr (inr (n₁, n₂, n₃, h.code_eq, h.state_eq)))
                  ]
            ]
      ]
