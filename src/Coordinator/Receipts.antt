-- ===== src/Coordinator/Receipts.antt =====
-- pkg/coordinator/coordinator.go: how the receipt part of `createAndSendMilestone` ends.
use inx_coordinator.Base.{
  err, true, Option, none, some, List, [], ◌∷◌, Error, ok, panicked, ◌≡◌, refl, sym, subst, ◌⊎◌,
  inl, inr, Option-cases, append-nil,
}
use inx_coordinator.Migrator.Service.{
  Receipt, Receive, panic, returns, receipt, persist_state, Service,
}
use inx_coordinator.Migrator.Service
use inx_coordinator.Coordinator.Types.{
  LatestTreasuryOutput, ReceiptOpt, World, Effect, Env, persisted_migrator,
}
use inx_coordinator.Coordinator.Hoare.{Ends, succeeds, fails, Ends->>=, lift->>=-Ends}
use inx_coordinator.Coordinator.Actions.{Action, ◌>>=◌, ◌>>◌, lift, return}
use inx_coordinator.Coordinator.Milestone.{
  critical_wrap, next_receipt, persist_migrator, embed_treasury, prepare_receipt,
}
use inx_coordinator.Coordinator.Stages.{
  IsFatal, Keeps, Keeps-same, Keeps-trans, Persists, Receive-cases, is_critical, is_panic,
  persist_migrator-Ends,
}

module _ {F : Type 0} (env : Env F) where
  -- There is no receipt: no migrator is configured, or it yields none, and only its state has moved.
  pub data YieldsNone (w w' : World F) : Type 0 where
    no_migrator : w.migrator ≡ none → w'.migrator ≡ none → YieldsNone w w'
    nothing_new :
        (s : Service) (t : Service.State)
        → w.migrator ≡ some s
        → receipt env.received s.state ≡ returns t none
        → w'.migrator ≡ some (record s { state = t })
        → YieldsNone w w'

  -- How a receipt comes into a milestone: there is none, or the migrator yields it, its state is in
  -- the file with the flag set, and the treasury's output is embedded.
  pub data Prepared (w : World F) : Option (ReceiptOpt F) → World F → Type 0 where
    no_receipt : {w' : World F} → YieldsNone w w' → Keeps w w' [] → Prepared w none w'
    with_receipt :
        {w' : World F} (s : Service) (t : Service.State) (r : Receipt F) (o : LatestTreasuryOutput)
        (p : Service)
        → w.migrator ≡ some s
        → receipt env.received s.state ≡ returns t (some r)
        → env.treasury_output ≡ ok o
        → Persists env true (record s { state = t }) p
        → w'.migrator ≡ some p
        → Keeps w w' (persisted_migrator true ∷ [])
        → Prepared w (some (embed_treasury env r o)) w'

  -- Why the receipt part fails: the migrator panics, or it yields a receipt and its state could not be
  -- stored, or the treasury's output is missing.
  pub data LacksReceipt (w : World F) : Type 0 where
    migrator_panics :
        (s : Service) → w.migrator ≡ some s → receipt env.received s.state ≡ panic → LacksReceipt w
    not_persisted :
        (s : Service) (t : Service.State) (r : Receipt F)
        → w.migrator ≡ some s
        → receipt env.received s.state ≡ returns t (some r)
        → LacksReceipt w
    no_treasury :
        (s : Service) (t : Service.State) (r : Receipt F) (d : Error)
        → w.migrator ≡ some s
        → receipt env.received s.state ≡ returns t (some r)
        → env.treasury_output ≡ err d
        → LacksReceipt w

  -- A failure of the receipt part: nothing is sent.
  pub data Unprepared (w : World F) : Error → World F → Type 0 where
    unprepared :
        {e : Error} {w' : World F} (es : List (Effect F))
        → IsFatal e
        → Keeps w w' es
        → (es ≡ []) ⊎ (es ≡ persisted_migrator true ∷ [])
        → LacksReceipt w
        → Unprepared w e w'

  abbrev embed : Receipt F → Action (World F) (Option (ReceiptOpt F))
  embed r = lift critical_wrap env.treasury_output >>= λ t. return (some (embed_treasury env r t))

  embedded-Ends :
      (w : World F) (s : Service) (t : Service.State) (r : Receipt F)
      → w.migrator ≡ some s
      → receipt env.received s.state ≡ returns t (some r)
      → Ends
          ((persist_migrator env true >> embed r)
            (record w { migrator = some (record s { state = t }) }))
          (Prepared w)
          (Unprepared w)
  embedded-Ends w s t r m e =
      Ends->>= (persist_migrator env true) (λ _. embed r) _
        (persist_migrator-Ends env true (record s { state = t }) _ refl)
        (λ x v (f, k).
          unprepared [] f (Keeps-trans (Keeps-same (append-nil w.effects)) k) (inl refl)
            (not_persisted s t r m e))
        (λ _ v (k, (p, q, i)).
          let kept : Keeps w v (persisted_migrator true ∷ []) =
            Keeps-trans (Keeps-same (append-nil w.effects)) k in
          lift->>=-Ends critical_wrap env.treasury_output
            (λ x. return (some (embed_treasury env r x))) v
            (λ d h.
              unprepared (persisted_migrator true ∷ []) is_critical kept (inr refl)
                (no_treasury s t r d m e h))
            (λ o h.
              succeeds (some (embed_treasury env r o)) v refl
                (with_receipt s t r o p m e h i q kept)))

  data Next (w : World F) : Option (Receipt F) → World F → Type 0 where
    next_none : {w' : World F} → YieldsNone w w' → Keeps w w' [] → Next w none w'
    next_some :
        (s : Service) (t : Service.State) (r : Receipt F)
        → w.migrator ≡ some s
        → receipt env.received s.state ≡ returns t (some r)
        → Next w (some r) (record w { migrator = some (record s { state = t }) })

  next_receipt-Ends :
      (w : World F)
      → Ends (next_receipt env w) (Next w) (λ e v. (e ≡ panicked) × (v ≡ w) × LacksReceipt w)
  unfolding next_receipt
  next_receipt-Ends w = elim (Option-cases w.migrator) [
    | inl m ↦
        succeeds none w (simp (m, next_receipt) refl)
          (next_none (no_migrator m m) (Keeps-same (append-nil w.effects)))
    | inr (s, m) ↦ elim (Receive-cases (receipt env.received s.state)) [
      | inl e ↦
          fails panicked w (simp (m, next_receipt, e) refl) (refl, refl, migrator_panics s m e)
      | inr (inl (t, e)) ↦
          succeeds none (record w { migrator = some (record s { state = t }) })
            (simp (m, next_receipt, e) refl)
            (next_none (nothing_new s t m e refl) (Keeps-same (append-nil w.effects)))
      | inr (inr (t, r, e)) ↦
          succeeds (some r) (record w { migrator = some (record s { state = t }) })
            (simp (m, next_receipt, e) refl) (next_some s t r m e)
    ]
  ]

  after_receipt :
      (w : World F) {o : Option (Receipt F)} {v : World F}
      → Next w o v
      → Ends
          ((elim o as (λ _. Action (World F) (Option (ReceiptOpt F))) [
            | none ↦ return none
            | some r ↦ persist_migrator env true >> embed r
          ])
            v)
          (Prepared w)
          (Unprepared w)
  after_receipt w (next_none y k) = succeeds none _ refl (no_receipt y k)
  after_receipt w (next_some s t r m e) = embedded-Ends w s t r m e

  pub prepare_receipt-Ends :
      (w : World F) → Ends (prepare_receipt env w) (Prepared w) (Unprepared w)
  unfolding prepare_receipt
  prepare_receipt-Ends w =
      Ends->>= (next_receipt env) _ w (next_receipt-Ends w)
        (λ e v (p, q, y).
          unprepared [] (subst IsFatal (sym p) is_panic)
            (subst (λ x. Keeps w x []) (sym q) (Keeps-same (append-nil w.effects))) (inl refl) y)
        (λ o v. after_receipt w)
