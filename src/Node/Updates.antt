-- ===== src/Node/Updates.antt =====
-- core/coordinator/treasury_listener.go with pkg/coordinator: the output that a receipt spends.
use inx_coordinator.Base.{
  ◌+◌, ◌≤◌, ◌<◌, true, false, none, some, List, [], ◌∷◌, ◌++◌, Result, ok, err, no_treasury_output,
  ◌≡◌, ◌≢◌, refl, sym, ap, ◌∙◌, subst, u64_mod,
}
use inx_coordinator.Coordinator.Types.{LatestTreasuryOutput, ReceiptOpt, World, Env}
use inx_coordinator.Coordinator.Milestone.{prepare_receipt}
use inx_coordinator.Coordinator.Treasury.{Spends, prepare_receipt-Spends}
use inx_coordinator.Node.Treasury.{
  TreasuryUpdate, TreasuryListener, new_treasury_listener, process_treasury_update,
  latest_treasury_output, Received, failed, update, listen, listen_to_treasury_updates, listener_of,
}

-- No update is processed at the head: there is none yet, or the stream has failed, or the context was
-- cancelled.
abbrev pub Stops : List Received → Type 0
Stops [] = Unit
Stops (failed e ∷ rs) = Unit
Stops (update u cancelled ∷ rs) = cancelled ≡ true

-- The results with these updates, and none cancelled.
abbrev pub delivered : List TreasuryUpdate → List Received
delivered [] = []
delivered (u ∷ us) = update u false ∷ delivered us

-- What the listener answers after these results.
abbrev pub answer_after : List Received → Result LatestTreasuryOutput
answer_after rs =
    latest_treasury_output (listener_of (listen_to_treasury_updates none rs new_treasury_listener))

listen-Stops :
    (rs : List Received) (n : TreasuryListener) → Stops rs → listener_of (listen rs n) ≡ n
unfolding listen
listen-Stops [] n h = refl
listen-Stops (failed e ∷ rs) n h = refl
listen-Stops (update u true ∷ rs) n h = refl
listen-Stops (update u false ∷ rs) n h = cc

listen_last :
    (us : List TreasuryUpdate) (u : TreasuryUpdate) (rs : List Received) (n : TreasuryListener)
    → Stops rs
    → listener_of (listen (delivered (us ++ (u ∷ [])) ++ rs) n)
      ≡ record { latest_treasury_output = some u.created }
unfolding listen process_treasury_update
listen_last [] u rs n h = listen-Stops rs (process_treasury_update u n) h
listen_last (x ∷ us) u rs n h = listen_last us u rs (process_treasury_update x n) h

-- The listener answers with the last update before the stop.
pub answer_last :
    (us : List TreasuryUpdate) (u : TreasuryUpdate) (rs : List Received)
    → Stops rs
    → answer_after (delivered (us ++ (u ∷ [])) ++ rs) ≡ ok u.created
unfolding latest_treasury_output listen_to_treasury_updates
answer_last us u rs h = ap latest_treasury_output (listen_last us u rs new_treasury_listener h)

pub answer_none : (rs : List Received) → Stops rs → answer_after rs ≡ err no_treasury_output
unfolding latest_treasury_output listen_to_treasury_updates
answer_none rs h = ap latest_treasury_output (listen-Stops rs new_treasury_listener h)

module _ {F : Type 0} (env : Env F) where
  -- The coordinator asks the listener that has seen these results.
  abbrev pub with_listener : List Received → Env F
  with_listener rs = record env { treasury_output = answer_after rs }

  -- The receipt spends the output of the update; the sum is conserved if the output holds at least the
  -- sum of the funds.
  pub record SpendsUpdate (u : TreasuryUpdate) (o : ReceiptOpt F) : Type 0 where
    pub funds : List F
    pub funds_eq : o.funds ≡ env.sort_funds funds
    pub input_eq : o.transaction.input ≡ u.created.milestone_id
    pub conserved :
        u.created.amount < u64_mod
        → env.receipt_sum funds ≤ u.created.amount
        → o.transaction.output_amount + env.receipt_sum funds ≡ u.created.amount

  same_output :
      (rs : List Received) (u : TreasuryUpdate) {v : World F} (o : ReceiptOpt F)
      → answer_after rs ≡ ok u.created
      → Spends (with_listener rs) o v
      → SpendsUpdate u o
  same_output rs u o h s =
      let same : ok u.created ≡ ok s.output = sym h ∙ s.answers in
      let e : s.output ≡ u.created = cc in
      record {
        funds = s.funds;
        funds_eq = s.sorted;
        input_eq = s.input_eq ∙ ap (λ t. t.milestone_id) e;
        conserved =
            subst
              (λ (t : LatestTreasuryOutput).
                t.amount < u64_mod
                → env.receipt_sum s.funds ≤ t.amount
                → o.transaction.output_amount + env.receipt_sum s.funds ≡ t.amount)
              e s.conserved;
      }

  -- With the listener's output, a receipt spends the output of the last update that came before the
  -- stream stopped, and if that output holds at least the sum of the funds, the new output and the
  -- funds add up to it; and there is no receipt before the first update.
  pub prepare_receipt-latest :
      (rs : List Received)
      → Stops rs
      → ((us : List TreasuryUpdate) (u : TreasuryUpdate) (w v : World F) (o : ReceiptOpt F)
          → prepare_receipt (with_listener (delivered (us ++ (u ∷ [])) ++ rs)) w ≡ (ok (some o), v)
          → SpendsUpdate u o)
        × ((w v : World F) (o : ReceiptOpt F)
            → prepare_receipt (with_listener rs) w ≢ (ok (some o), v))
  prepare_receipt-latest rs h = (
    (λ us u w v o q.
        same_output (delivered (us ++ (u ∷ [])) ++ rs) u o (answer_last us u rs h)
          (prepare_receipt-Spends (with_listener (delivered (us ++ (u ∷ [])) ++ rs)) w v o q)),
    (λ w v o q.
        let s = prepare_receipt-Spends (with_listener rs) w v o q in
        let f : err no_treasury_output ≡ ok s.output = sym (answer_none rs h) ∙ s.answers in cc),
  )
