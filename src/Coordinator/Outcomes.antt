-- ===== src/Coordinator/Outcomes.antt =====
-- pkg/coordinator/coordinator.go: what a sent and an unsent milestone leave, and how the state file is
-- moved and written.
use inx_coordinator.Base.{
  ℕ, Bool, false, Option, none, some, List, [], ◌∷◌, ◌++◌, Error, ok, err, critical, wrap,
  move_to_old, ◌≡◌, refl, inl, inr, Result-cases, StateFile,
}
use inx_coordinator.Coordinator.Types.{
  State, ReceiptOpt, Block, World, Effect, Env, quorum_finished, persisted_migrator,
  moved_state_file, sent_block, wrote_state_file, issued_milestone, issued_checkpoint,
}
use inx_coordinator.Coordinator.Hoare.{Ends, succeeds, fails}
use inx_coordinator.Coordinator.Milestone.{critical_wrap, move_state_file, store_state}
use inx_coordinator.Coordinator.Stages.{IsFatal}

module _ {F : Type 0} where
  abbrev pub IsUnsent : Effect F → Type 0
  IsUnsent x = elim x [
    | sent_block b i ↦ ⊥
    | quorum_finished e ↦ Unit
    | persisted_migrator b ↦ Unit
    | moved_state_file ↦ Unit
    | wrote_state_file ↦ Unit
    | issued_milestone i m b ↦ Unit
    | issued_checkpoint c i n b ↦ Unit
  ]

module _ {F : Type 0} (env : Env F) where
  -- The effects of the receipt's persistence.
  abbrev pub flags : Option (ReceiptOpt F) → Bool → List (Effect F)
  flags none b = []
  flags (some r) b = persisted_migrator b ∷ []

  -- The end of a sent milestone.
  pub record Sent (block : Block F) (opts : Option (ReceiptOpt F)) (index id : ℕ) (w w' : World F)
      : Type 0 where
    pub block_id : ℕ
    pub sends : env.send_block block (some index) ≡ ok block_id
    pub state_eq : w'.state ≡ record {
      latest_milestone_index = index;
      latest_milestone_block_id = block_id;
      latest_milestone_id = id;
      latest_milestone_time = env.now;
    }
    pub writes : w'.file.current ≡ some w'.state
    pub bootstrapped_eq : w'.bootstrapped ≡ w.bootstrapped
    pub effects_eq :
        w'.effects
        ≡ w.effects
          ++ (moved_state_file
              ∷ sent_block block (some index)
              ∷ (flags opts false ++ (wrote_state_file ∷ issued_milestone index id block_id ∷ [])))

  -- The end of a milestone that failed from the rename on.
  pub data Unsent (index : ℕ) (w : World F) : Error → World F → Type 0 where
    unmoved : {e : Error} → Unsent index w (critical e) w
    torn :
        {e : Error} {w' : World F}
        → IsFatal e
        → w'.file.current ≡ none
        → w'.state ≡ w.state
        → w'.bootstrapped ≡ w.bootstrapped
        → Unsent index w e w'
    unwritten :
        {e : Error} {w' : World F} (f : StateFile State) (d : Error)
        → move_to_old env.rename_fault w.file ≡ ok f
        → (env.state_io.write w'.state f).0 ≡ err d
        → w'.file ≡ (env.state_io.write w'.state f).1
        → w'.state.latest_milestone_index ≡ index
        → w'.bootstrapped ≡ w.bootstrapped
        → Unsent index w (critical e) w'

  pub move_state_file-Ends :
      (w : World F)
      → Ends
          (move_state_file env w)
          (λ _ v.
            (move_to_old env.rename_fault w.file ≡ ok v.file)
            × (v ≡ record w { file = v.file; effects = w.effects ++ (moved_state_file ∷ []) }))
          (λ e v. ((d : Error) × (e ≡ critical d)) × (v ≡ w))
  unfolding move_state_file
  move_state_file-Ends w = elim (Result-cases (move_to_old env.rename_fault w.file)) [
    | inl (f, e) ↦
        succeeds tt (record w { file = f; effects = w.effects ++ (moved_state_file ∷ []) })
          (simp (e, move_state_file) refl) (e, refl)
    | inr (d, e) ↦ fails (critical_wrap d) w (simp (e, move_state_file) refl) ((wrap d, refl), refl)
  ]

  pub store_state-Ends :
      (s : State) (w : World F)
      → Ends
          (store_state env s w)
          (λ _ v.
            (v.file.current ≡ some s)
            × (v ≡ record w {
              state = s;
              file = v.file;
              effects = w.effects ++ (wrote_state_file ∷ []);
            }))
          (λ e v.
            ((d : Error) × (e ≡ critical (wrap d)) × ((env.state_io.write s w.file).0 ≡ err d))
            × (v ≡ record w { state = s; file = (env.state_io.write s w.file).1 }))
  unfolding store_state
  store_state-Ends s w = elim (Result-cases (env.state_io.write s w.file).0) [
    | inl (f, e) ↦
        succeeds tt
          (record w {
            state = s;
            file = (env.state_io.write s w.file).1;
            effects = w.effects ++ (wrote_state_file ∷ []);
          })
          (simp (e, store_state) refl) (env.state_io.write_ok s w.file e, refl)
    | inr (d, e) ↦
        fails (critical_wrap d) (record w { state = s; file = (env.state_io.write s w.file).1 })
          (simp (e, store_state) refl) ((d, refl, e), refl)
  ]
