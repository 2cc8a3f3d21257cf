-- ===== src/Coordinator/Milestone.antt =====
-- pkg/coordinator/coordinator.go and milestones.go: a milestone is created, signed and sent.
use inx_coordinator.Base.{
  ℕ, Bool, true, false, Option, none, some, List, Error, ok, err, critical, wrap, move_to_old,
  panicked,
}
use inx_coordinator.Migrator.Service.{Receipt, panic, returns, receipt, persist_state}
use inx_coordinator.Quorum.Group.{MilestoneMerkleRoots}
use inx_coordinator.Coordinator.Types.{
  State, LatestTreasuryOutput, ReceiptOpt, Block, World, Env, quorum_finished, persisted_migrator,
  moved_state_file, sent_block, wrote_state_file, issued_milestone, unix_seconds, sub_u64,
}
use inx_coordinator.Coordinator.Build.{new_milestone, create_milestone}
use inx_coordinator.Coordinator.Actions.{Action, ◌>>=◌, ◌>>◌, return, lift, emit}

-- `CriticalError(fmt.Errorf("…: %w", err))`
abbrev pub critical_wrap : Error → Error
critical_wrap e = critical (wrap e)

module _ {F : Type 0} (env : Env F) where
  -- The quorum part of `createAndSendMilestone`: its error is returned as it is.
  unfoldable pub ask_quorum : MilestoneMerkleRoots → ℕ → List ℕ → ℕ → Action (World F) (Unit {0})
  ask_quorum roots index parents previous = elim env.quorum [
    | none ↦ return tt
    | some check ↦
        let result = check roots index (unix_seconds env.now) parents previous in
        do
          emit (quorum_finished result)
          elim result [ none ↦ return tt | some e ↦ λ w. (err e, w) ]
  ]

  -- `coo.migratorService.Receipt()`
  unfoldable pub next_receipt : Action (World F) (Option (Receipt F))
  next_receipt w = elim w.migrator [
    | none ↦ (ok none, w)
    | some s ↦ elim (receipt env.received s.state) [
      | panic ↦ (err panicked, w)
      | returns t r ↦ (ok r, record w { migrator = some (record s { state = t }) })
    ]
  ]

  -- `coo.migratorService.PersistState(sending)`, with its error wrapped as critical.
  unfoldable pub persist_migrator : Bool → Action (World F) (Unit {0})
  persist_migrator sending w = elim w.migrator [
    | none ↦ (ok tt, w)
    | some s ↦
        let (r, t) = persist_state env.migrator_io (env.migrator_rename_fault sending) sending s in
        let w' = record w { migrator = some t } in
        elim r [ err e ↦ (err (critical_wrap e), w') | ok _ ↦ emit (persisted_migrator sending) w' ]
  ]

  -- The receipt with the treasury transaction, sorted; a uint64 subtraction.
  unfoldable pub embed_treasury : Receipt F → LatestTreasuryOutput → ReceiptOpt F
  embed_treasury r t = record {
    migrated_at = r.migrated_at;
    final = r.final;
    funds = env.sort_funds r.funds;
    transaction = record {
      input = t.milestone_id;
      output_amount = sub_u64 t.amount (env.receipt_sum r.funds);
    };
  }

  -- The receipt part: the migrator's state is persisted with its flag before the treasury is asked.
  unfoldable pub prepare_receipt : Action (World F) (Option (ReceiptOpt F))
  unfolding next_receipt persist_migrator embed_treasury
  prepare_receipt = do
    r ← next_receipt
    elim r [
      | none ↦ return none
      | some r' ↦ do
        persist_migrator true
        t ← lift critical_wrap env.treasury_output
        return (some (embed_treasury r' t))
    ]

  -- The state file is moved to its backup, which marks the state as invalid.
  unfoldable pub move_state_file : Action (World F) (Unit {0})
  move_state_file w = elim (move_to_old env.rename_fault w.file) [
    | err e ↦ (err (critical_wrap e), w)
    | ok f ↦ emit moved_state_file (record w { file = f })
  ]

  -- `coo.sendBlockFunc`
  unfoldable pub send : (Error → Error) → Block F → Option ℕ → Action (World F) ℕ
  send f block index = do emit (sent_block block index); lift f (env.send_block block index)

  -- The new state is set, and written to the state file.
  unfoldable pub store_state : State → Action (World F) (Unit {0})
  store_state s w =
      let (r, f) = env.state_io.write s w.file in
      let w' = record w { state = s; file = f } in
      elim r [ err e ↦ (err (critical_wrap e), w') | ok _ ↦ emit wrote_state_file w' ]

  -- `createAndSendMilestone` from the rename of the state file on, with the milestone's ID.
  unfoldable pub send_milestone :
      Block F → Option (ReceiptOpt F) → ℕ → ℕ → Action (World F) (Unit {0})
  send_milestone block opts index id = do
    move_state_file
    block_id ← send critical_wrap block (some index)
    elim opts [ none ↦ return tt | some _ ↦ persist_migrator false ]
    store_state (record {
      latest_milestone_index = index;
      latest_milestone_block_id = block_id;
      latest_milestone_id = id;
      latest_milestone_time = env.now;
    })
    emit (issued_milestone index id block_id)

  -- `createAndSendMilestone`; the clock is read once for the milestone.
  unfoldable pub create_and_send_milestone : List ℕ → ℕ → ℕ → Action (World F) (Unit {0})
  create_and_send_milestone parents' index previous = do
    let parents = env.remove_dups_and_sort parents'
    roots ← lift critical_wrap (env.merkle_root index (unix_seconds env.now) parents previous)
    ask_quorum roots index parents previous
    opts ← prepare_receipt
    let m = new_milestone env index parents opts previous roots
    block ← lift critical_wrap (create_milestone env m)
    id ← lift critical_wrap (env.milestone_id m)
    send_milestone block opts index id
