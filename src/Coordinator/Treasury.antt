-- ===== src/Coordinator/Treasury.antt =====
-- pkg/coordinator/coordinator.go: what a receipt does to the treasury and to the migrator's file.
use inx_coordinator.Base.{
  ℕ, ◌+◌, ◌≤◌, ◌<◌, true, Option, some, List, ok, ◌≡◌, refl, sym, ap, ◌∙◌, subst, arith, u64_mod,
  some-injective,
}
use inx_coordinator.Migrator.Service.{Service}
use inx_coordinator.Migrator.StateFile.{persisted, persist_state-flag}
use inx_coordinator.Coordinator.Types.{LatestTreasuryOutput, ReceiptOpt, World, Env, sub_u64}
use inx_coordinator.Coordinator.Hoare.{Ends-ok}
use inx_coordinator.Coordinator.Milestone.{prepare_receipt, embed_treasury}
use inx_coordinator.Coordinator.Receipts.{Prepared, no_receipt, with_receipt, prepare_receipt-Ends}

module _ {F : Type 0} (env : Env F) where
  -- The receipt spends the treasury's output, its funds are those of a receipt of the migrator, and
  -- the state with the set flag is in the migrator's file.
  pub record Spends (o : ReceiptOpt F) (v : World F) : Type 0 where
    pub output : LatestTreasuryOutput
    pub funds : List F
    pub service : Service
    pub answers : env.treasury_output ≡ ok output
    pub sorted : o.funds ≡ env.sort_funds funds
    pub input_eq : o.transaction.input ≡ output.milestone_id
    pub conserved :
        output.amount < u64_mod
        → env.receipt_sum funds ≤ output.amount
        → o.transaction.output_amount + env.receipt_sum funds ≡ output.amount
    pub migrator_eq : v.migrator ≡ some service
    pub flagged : service.state.sending_receipt ≡ true
    pub stored : service.file.current ≡ some service.state

  sub_u64_lem : (a b : ℕ) → a < u64_mod → b ≤ a → sub_u64 a b + b ≡ a
  sub_u64_lem a b h k = omega arith

  Prepared-Spends :
      (w : World F) {v : World F} (x : Option (ReceiptOpt F)) (o : ReceiptOpt F)
      → x ≡ some o
      → Prepared env w x v
      → Spends o v
  unfolding embed_treasury
  Prepared-Spends w x o e (no_receipt y k) = cc
  Prepared-Spends w x o e (with_receipt {w' = v} s t r out p m q h i g k) =
      subst (λ y. Spends y v) (some-injective _ _ e)
        (record {
          output = out;
          funds = r.funds;
          service = p;
          answers = h;
          sorted = refl;
          input_eq = refl;
          conserved = sub_u64_lem out.amount (env.receipt_sum r.funds);
          migrator_eq = g;
          flagged =
              ap (λ y. y.state.sending_receipt) i.1
              ∙ ap (λ y. y.sending_receipt)
                  (persist_state-flag env.migrator_io (env.migrator_rename_fault true) true
                    (record s { state = t }));
          stored =
              persisted env.migrator_io (env.migrator_rename_fault true) true
                (record s { state = t }) p (λ j. (i.0 j, sym i.1 j))
              ∙ ap some (
                  sym (
                    ap (λ y. y.state) i.1
                    ∙ persist_state-flag env.migrator_io (env.migrator_rename_fault true) true
                        (record s { state = t })));
        })

  -- When a milestone gets a receipt, the treasury transaction spends the output that the node named,
  -- and if that holds at least the sum of the funds, the new output and the funds add up to it; the
  -- migrator's file has the state of the receipt with the flag set, before anything is sent.
  pub prepare_receipt-Spends :
      (w v : World F) (o : ReceiptOpt F) → prepare_receipt env w ≡ (ok (some o), v) → Spends o v
  prepare_receipt-Spends w v o q =
      Prepared-Spends w (some o) o refl (Ends-ok (prepare_receipt-Ends env w) q)
