-- ===== src/Coordinator/Emits.antt =====
-- pkg/coordinator/coordinator.go: what `IssueCheckpoint` may do to the world.
use inx_coordinator.Base.{
  ℕ, ◌≤◌, none, List, [], ◌++◌, length, ok, soft, Error, ◌≡◌, sym, ap, ◌∙◌, Result-cases, inl, inr,
  arith, append_assoc, append-nil, All, All-append,
}
use inx_coordinator.Coordinator.Types.{
  Block, World, Effect, Env, sent_block, quorum_finished, persisted_migrator, moved_state_file,
  wrote_state_file, issued_milestone, issued_checkpoint,
}
use inx_coordinator.Coordinator.Build.{block_of, create_checkpoint}

-- An error that is soft and wraps the cause.
pub data IsSoft : Error → Type 0 where
  is_soft : {e : Error} → IsSoft (soft e)

module _ {F : Type 0} where
  -- Only the effects have changed.
  abbrev pub Emits : World F → World F → List (Effect F) → Type 0
  Emits w v es = v ≡ record w { effects = w.effects ++ es }

  pub Emits-none : (w : World F) → Emits w w []
  Emits-none w = ap (λ es. record w { effects = es }) (sym (append-nil w.effects))

  pub Emits-append :
      (w : World F) (es fs : List (Effect F))
      → Emits w (record w { effects = (w.effects ++ es) ++ fs }) (es ++ fs)
  Emits-append w es fs = ap (λ gs. record w { effects = gs }) (append_assoc w.effects es fs)

  pub Emits-trans :
      (w v u : World F) (es fs : List (Effect F))
      → Emits w v es
      → Emits v u fs
      → Emits w u (es ++ fs)
  Emits-trans w v u es fs p q =
      q ∙ ap {A = World F} (λ y. record y { effects = y.effects ++ fs }) p ∙ Emits-append w es fs

  -- A block has at most eight parents.
  abbrev pub HasFewParents : Effect F → Type 0
  HasFewParents x = elim x [
    | sent_block b i ↦ length b.parents ≤ 8
    | quorum_finished e ↦ Unit
    | persisted_migrator b ↦ Unit
    | moved_state_file ↦ Unit
    | wrote_state_file ↦ Unit
    | issued_milestone i m b ↦ Unit
    | issued_checkpoint c i n b ↦ Unit
  ]

  -- A block without a payload that is sent as no milestone, or the event of a checkpoint.
  abbrev pub IsOfCheckpoint : Effect F → Type 0
  IsOfCheckpoint x = elim x [
    | sent_block b i ↦ (b.payload ≡ none) × (i ≡ none)
    | quorum_finished e ↦ ⊥
    | persisted_migrator b ↦ ⊥
    | moved_state_file ↦ ⊥
    | wrote_state_file ↦ ⊥
    | issued_milestone i m b ↦ ⊥
    | issued_checkpoint c i n b ↦ Unit
  ]

  -- Only effects of checkpoints are added.
  abbrev pub AddsBlocks : World F → World F → Type 0
  AddsBlocks w v = (es : List (Effect F)) × Emits w v es × All IsOfCheckpoint es

  pub AddsBlocks-none : (w : World F) → AddsBlocks w w
  AddsBlocks-none w = ([], Emits-none w, tt)

  pub AddsBlocks-trans : (w v u : World F) → AddsBlocks w v → AddsBlocks v u → AddsBlocks w u
  AddsBlocks-trans w v u (es, p, a) (fs, q, b) =
      (es ++ fs, Emits-trans w v u es fs p q, All-append IsOfCheckpoint es fs a b)

  pub create_checkpoint-eq-ok :
      (env : Env F) (parents : List ℕ) (block : Block F)
      → create_checkpoint env parents ≡ ok block
      → block ≡ block_of env parents none
  unfolding create_checkpoint
  create_checkpoint-eq-ok env parents block e =
      elim (Result-cases (env.build (block_of env parents none))) [
        | inr (d, x) ↦ ground arith
        | inl (u, x) ↦ elim (Result-cases (env.serialize (block_of env parents none))) [
          | inr (d, y) ↦ ground arith
          | inl (v, y) ↦ ground arith
        ]
      ]
