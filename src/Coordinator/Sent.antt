-- ===== src/Coordinator/Sent.antt =====
-- pkg/coordinator/coordinator.go: the milestones that an operation sends.
use inx_coordinator.Base.{
  ℕ, Option, none, some, List, [], ◌∷◌, ◌++◌, Result, ok, ◌≡◌, refl, sym, ap, ◌∙◌, inl, inr, All,
  All-append, false, append_assoc, Result-cases, arith, Option-cases,
}
use inx_coordinator.Coordinator.Types.{
  ReceiptOpt, Milestone, Block, World, Effect, Env, quorum_finished, persisted_migrator,
  moved_state_file, sent_block, wrote_state_file, issued_milestone, issued_checkpoint,
}
use inx_coordinator.Coordinator.Build.{new_milestone, create_milestone, block_of}
use inx_coordinator.Coordinator.Stages.{quorum_effects}
use inx_coordinator.Coordinator.Outcomes.{IsUnsent, flags}
use inx_coordinator.Coordinator.Endings.{Issued, Prepared-Keeps}
use inx_coordinator.Coordinator.Emits.{IsOfCheckpoint}
use inx_coordinator.Coordinator.Safety.{next_index}
use inx_coordinator.Coordinator.Restart.{flags-IsUnsent, quorum-IsUnsent}

module _ {F : Type 0} where
  -- The milestones that were sent, in order.
  abbrev pub milestones : List (Effect F) → List (Milestone F)
  milestones [] = []
  milestones (sent_block b i ∷ es) = elim b.payload [
    | none ↦ milestones es
    | some m ↦ m ∷ milestones es
  ]
  milestones (e ∷ es) = milestones es

  pub milestones-append :
      (es fs : List (Effect F)) → milestones (es ++ fs) ≡ milestones es ++ milestones fs
  milestones-append [] fs = refl
  milestones-append (sent_block b i ∷ es) fs = elim (Option-cases b.payload) [
    | inl q ↦ rw (q) (milestones-append es fs)
    | inr (m, q) ↦ rw (q) (ap (◌∷◌ m) (milestones-append es fs))
  ]
  milestones-append (quorum_finished e ∷ es) fs = milestones-append es fs
  milestones-append (persisted_migrator b ∷ es) fs = milestones-append es fs
  milestones-append (moved_state_file ∷ es) fs = milestones-append es fs
  milestones-append (wrote_state_file ∷ es) fs = milestones-append es fs
  milestones-append (issued_milestone i m b ∷ es) fs = milestones-append es fs
  milestones-append (issued_checkpoint c i n b ∷ es) fs = milestones-append es fs

  pub unsent-milestones : (es : List (Effect F)) → All IsUnsent es → milestones es ≡ []
  unsent-milestones [] h = refl
  unsent-milestones (sent_block b i ∷ es) h = absurd h.0
  unsent-milestones (quorum_finished e ∷ es) h = unsent-milestones es h.1
  unsent-milestones (persisted_migrator b ∷ es) h = unsent-milestones es h.1
  unsent-milestones (moved_state_file ∷ es) h = unsent-milestones es h.1
  unsent-milestones (wrote_state_file ∷ es) h = unsent-milestones es h.1
  unsent-milestones (issued_milestone i m b ∷ es) h = unsent-milestones es h.1
  unsent-milestones (issued_checkpoint c i n b ∷ es) h = unsent-milestones es h.1

  pub create_milestone-payload :
      (env : Env F) (m : Milestone F) (block : Block F)
      → create_milestone env m ≡ ok block
      → block.payload ≡ some m
  unfolding create_milestone
  create_milestone-payload env m block e =
      elim (Result-cases (env.build (block_of env m.parents (some m)))) [
        | inr (d, x) ↦ ground arith
        | inl (u, x) ↦ elim (Result-cases (env.sign m)) [
          | inr (d, y) ↦ ground arith
          | inl (u, y) ↦ elim (Result-cases (env.verify_signatures m)) [
            | inr (d, z) ↦ ground arith
            | inl (u, z) ↦ elim (Result-cases (env.serialize (block_of env m.parents (some m)))) [
              | inr (d, t) ↦ ground arith
              | inl (u, t) ↦ ground arith
            ]
          ]
        ]
      ]

  tail-milestones :
      (env : Env F) (block : Block F) (m : Milestone F) (opts : Option (ReceiptOpt F)) (i id b : ℕ)
      → block.payload ≡ some m
      → milestones (
          moved_state_file
          ∷ sent_block block (some i)
          ∷ (flags env opts false ++ (wrote_state_file ∷ issued_milestone i id b ∷ [])))
        ≡ m ∷ []
  tail-milestones env block m none i id b e = rw (e) refl
  tail-milestones env block m (some r) i id b e = rw (e) refl

  -- What one success adds.
  pub record Adds (hash : Milestone F → Result ℕ) (w v : World F) : Type 0 where
    pub effects : List (Effect F)
    pub milestone : Milestone F
    pub effects_eq : v.effects ≡ w.effects ++ effects
    pub only : milestones effects ≡ milestone ∷ []
    pub next_eq : milestone.index ≡ next_index w
    pub index_eq : milestone.index ≡ v.state.latest_milestone_index
    pub previous_eq : milestone.previous_milestone_id ≡ w.state.latest_milestone_id
    pub id_eq : hash milestone ≡ ok v.state.latest_milestone_id

  pub Issued-Adds :
      (env : Env F) (parents : List ℕ) (w v : World F)
      → Issued env parents (next_index w) w.state.latest_milestone_id w v
      → Adds (env.milestone_id) w v
  Issued-Adds env parents w v i =
      let (fs, c, k) = Prepared-Keeps env [] 0 0 i.prepares in
      let m =
        new_milestone env (next_index w) (env.remove_dups_and_sort parents) i.opts
          w.state.latest_milestone_id i.roots in
      let tail =
        moved_state_file
        ∷ sent_block i.block (some (next_index w))
        ∷ (flags env i.opts false
            ++ (wrote_state_file ∷ issued_milestone (next_index w) i.id i.sent.block_id ∷ [])) in
      record {
        effects = (quorum_effects env ++ fs) ++ tail;
        milestone = m;
        effects_eq =
            i.sent.effects_eq
            ∙ ap (λ es. es ++ tail) (k.effects_eq ∙ append_assoc w.effects (quorum_effects env) fs)
            ∙ append_assoc w.effects (quorum_effects env ++ fs) tail;
        only =
            milestones-append (quorum_effects env ++ fs) tail
            ∙ ap (λ ms. ms ++ milestones tail)
                (unsent-milestones (quorum_effects env ++ fs) (
                  All-append IsUnsent (quorum_effects env) fs (quorum-IsUnsent env)
                    (flags-IsUnsent env fs c)))
            ∙ tail-milestones env i.block m i.opts (next_index w) i.id i.sent.block_id
                (create_milestone-payload env m i.block i.creates);
        next_eq = refl;
        index_eq = sym (ap (λ s. s.latest_milestone_index) i.sent.state_eq);
        previous_eq = refl;
        id_eq = i.identifies ∙ ap ok (sym (ap (λ s. s.latest_milestone_id) i.sent.state_eq));
      }

  -- Checkpoints send no milestone.
  pub checkpoint-milestones : (es : List (Effect F)) → All IsOfCheckpoint es → milestones es ≡ []
  checkpoint-milestones [] h = refl
  checkpoint-milestones (sent_block b i ∷ es) h = rw (h.0.0) (checkpoint-milestones es h.1)
  checkpoint-milestones (quorum_finished e ∷ es) h = absurd h.0
  checkpoint-milestones (persisted_migrator b ∷ es) h = absurd h.0
  checkpoint-milestones (moved_state_file ∷ es) h = absurd h.0
  checkpoint-milestones (wrote_state_file ∷ es) h = absurd h.0
  checkpoint-milestones (issued_milestone i m b ∷ es) h = absurd h.0
  checkpoint-milestones (issued_checkpoint c i n b ∷ es) h = checkpoint-milestones es h.1
