-- ===== src/Coordinator/Endings.antt =====
-- pkg/coordinator/coordinator.go: the endings of `createAndSendMilestone` as a whole.
use inx_coordinator.Base.{
  err, ℕ, true, Option, some, List, [], ◌∷◌, ◌++◌, Error, ok, ◌≡◌, refl, subst, ◌⊎◌, inl, inr,
  append-nil,
}
use inx_coordinator.Quorum.Group.{MilestoneMerkleRoots}
use inx_coordinator.Coordinator.Types.{
  ReceiptOpt, Block, World, Effect, Env, quorum_finished, persisted_migrator, unix_seconds,
}
use inx_coordinator.Coordinator.Hoare.{Ends, Ends->>=, lift->>=-Ends, Ends-map}
use inx_coordinator.Coordinator.Actions.{Action, ◌>>=◌, ◌>>◌, lift}
use inx_coordinator.Coordinator.Build.{new_milestone, create_milestone}
use inx_coordinator.Coordinator.Milestone.{
  critical_wrap, ask_quorum, prepare_receipt, send_milestone, create_and_send_milestone,
}
use inx_coordinator.Coordinator.Stages.{
  IsFatal, is_critical, Keeps, Keeps-trans, Keeps-same, quorum_effects, Agrees, Refuses,
  ask_quorum-Ends,
}
use inx_coordinator.Coordinator.Receipts.{
  Prepared, no_receipt, with_receipt, Unprepared, unprepared, LacksReceipt, prepare_receipt-Ends,
}
use inx_coordinator.Coordinator.Outcomes.{Sent, Unsent}
use inx_coordinator.Coordinator.Sending.{HasMigrator, send_milestone-Ends}

module _ {F : Type 0} (env : Env F) (parents : List ℕ) (index previous : ℕ) where
  -- The parents of the milestone.
  abbrev pub unique_parents : List ℕ
  unique_parents = env.remove_dups_and_sort parents

  -- A milestone that was issued: the quorum has agreed with the roots that the node computed, a
  -- receipt is the migrator's next one, and the milestone of these data was built, signed and sent.
  pub record Issued (w w' : World F) : Type 0 where
    pub roots : MilestoneMerkleRoots
    pub computes : env.merkle_root index (unix_seconds env.now) unique_parents previous ≡ ok roots
    pub agrees : Agrees env roots index unique_parents previous
    pub opts : Option (ReceiptOpt F)
    pub prepared : World F
    pub prepares :
        Prepared env (record w { effects = w.effects ++ quorum_effects env }) opts prepared
    pub block : Block F
    pub creates :
        create_milestone env (new_milestone env index unique_parents opts previous roots) ≡ ok block
    pub id : ℕ
    pub identifies :
        env.milestone_id (new_milestone env index unique_parents opts previous roots) ≡ ok id
    pub sent : Sent env block opts index id prepared w'

  -- Why a run stops before the state file is moved: there are no roots, the receipt part fails, or the
  -- milestone cannot be built, or has no ID.
  pub data Stops (w : World F) : Type 0 where
    no_roots :
        (d : Error)
        → env.merkle_root index (unix_seconds env.now) unique_parents previous ≡ err d
        → Stops w
    lacks_receipt :
        LacksReceipt env (record w { effects = w.effects ++ quorum_effects env }) → Stops w
    no_block :
        (roots : MilestoneMerkleRoots) (opts : Option (ReceiptOpt F)) (d : Error)
        → create_milestone env (new_milestone env index unique_parents opts previous roots) ≡ err d
        → Stops w
    no_id :
        (roots : MilestoneMerkleRoots) (opts : Option (ReceiptOpt F)) (d : Error)
        → env.milestone_id (new_milestone env index unique_parents opts previous roots) ≡ err d
        → Stops w

  -- A milestone that was not issued: the quorum refuses it, or the run stops before the state file is
  -- moved, or it fails from there on.
  pub data Failed (w : World F) : Error → World F → Type 0 where
    refused :
        {e : Error} {w' : World F} (roots : MilestoneMerkleRoots)
        → Refuses env roots index unique_parents previous e
        → w' ≡ record w { effects = w.effects ++ (quorum_finished (some e) ∷ []) }
        → Failed w e w'
    halted :
        {e : Error} {w' : World F} (flags : List (Effect F))
        → IsFatal e
        → (flags ≡ []) ⊎ (flags ≡ persisted_migrator true ∷ [])
        → Keeps w w' ([] ++ flags) ⊎ Keeps w w' (quorum_effects env ++ flags)
        → Stops w
        → Failed w e w'
    broken :
        {e : Error} {v w' : World F} (opts : Option (ReceiptOpt F))
        → Prepared env (record w { effects = w.effects ++ quorum_effects env }) opts v
        → Unsent env index v e w'
        → Failed w e w'

  Prepared-HasMigrator :
      {w v : World F} {opts : Option (ReceiptOpt F)}
      → Prepared env w opts v
      → HasMigrator env opts v.migrator
  Prepared-HasMigrator (no_receipt y k) = tt
  Prepared-HasMigrator (with_receipt s t r o p m e i q h k) = (p, h)

  -- The effects of a prepared receipt.
  pub Prepared-Keeps :
      {w v : World F} {opts : Option (ReceiptOpt F)}
      → Prepared env w opts v
      → (fs : List (Effect F)) × ((fs ≡ []) ⊎ (fs ≡ persisted_migrator true ∷ [])) × Keeps w v fs
  Prepared-Keeps (no_receipt y k) = ([], inl refl, k)
  Prepared-Keeps (with_receipt s t r o p m e i q h k) = (persisted_migrator true ∷ [], inr refl, k)

  asked-Keeps :
      (w : World F)
      → Keeps w (record w { effects = w.effects ++ quorum_effects env }) (quorum_effects env)
  asked-Keeps w = Keeps-same refl

  Prepared-halts :
      (w v : World F) (opts : Option (ReceiptOpt F)) (d : Error)
      → Prepared env (record w { effects = w.effects ++ quorum_effects env }) opts v
      → Stops w
      → Failed w (critical_wrap d) v
  Prepared-halts w v opts d p y =
      let (fs, c, k) = Prepared-Keeps p in
      halted fs is_critical c (inr (Keeps-trans (asked-Keeps w) k)) y

  -- The parts of `createAndSendMilestone`, from the last one on.
  abbrev identify :
      MilestoneMerkleRoots → Option (ReceiptOpt F) → Block F → Action (World F) (Unit {0})
  identify roots opts block =
      lift critical_wrap
        (env.milestone_id (new_milestone env index unique_parents opts previous roots))
      >>= send_milestone env block opts index

  abbrev create : MilestoneMerkleRoots → Option (ReceiptOpt F) → Action (World F) (Unit {0})
  create roots opts =
      lift critical_wrap
        (create_milestone env (new_milestone env index unique_parents opts previous roots))
      >>= identify roots opts

  abbrev ask : MilestoneMerkleRoots → Action (World F) (Unit {0})
  ask roots =
      ask_quorum env roots index unique_parents previous >> (prepare_receipt env >>= create roots)

  create-Ends :
      (roots : MilestoneMerkleRoots) (opts : Option (ReceiptOpt F)) (w v : World F)
      → env.merkle_root index (unix_seconds env.now) unique_parents previous ≡ ok roots
      → Agrees env roots index unique_parents previous
      → Prepared env (record w { effects = w.effects ++ quorum_effects env }) opts v
      → Ends (create roots opts v) (λ _ w'. Issued w w') (Failed w)
  create-Ends roots opts w v c g p =
      lift->>=-Ends critical_wrap _ (identify roots opts) v
        (λ d e. Prepared-halts w v opts d p (no_block roots opts d e))
        (λ block e.
          lift->>=-Ends critical_wrap _ (send_milestone env block opts index) v
            (λ d h. Prepared-halts w v opts d p (no_id roots opts d h))
            (λ id h.
              Ends-map (send_milestone-Ends env block opts index id v (Prepared-HasMigrator p))
                (λ _ u s. record {
                  roots = roots;
                  computes = c;
                  agrees = g;
                  opts = opts;
                  prepared = v;
                  prepares = p;
                  block = block;
                  creates = e;
                  id = id;
                  identifies = h;
                  sent = s;
                })
                (λ e u s. broken opts p s)))

  Unprepared-halts :
      (w u : World F) (e : Error)
      → Unprepared env (record w { effects = w.effects ++ quorum_effects env }) e u
      → Failed w e u
  Unprepared-halts w u e (unprepared fs f k c y) =
      halted fs f c (inr (Keeps-trans (asked-Keeps w) k)) (lacks_receipt y)

  ask-Ends :
      (roots : MilestoneMerkleRoots) (w : World F)
      → env.merkle_root index (unix_seconds env.now) unique_parents previous ≡ ok roots
      → Ends (ask roots w) (λ _ w'. Issued w w') (Failed w)
  ask-Ends roots w c =
      Ends->>= (ask_quorum env roots index unique_parents previous)
        (λ _. prepare_receipt env >>= create roots) w
        (ask_quorum-Ends env roots index unique_parents previous w)
        (λ e u (r, q). refused roots r q)
        (λ _ u (g, q).
          Ends->>= (prepare_receipt env) (create roots) u (prepare_receipt-Ends env u)
            (λ e t h. Unprepared-halts w t e (subst (λ y. Unprepared env y e t) q h))
            (λ opts t h. create-Ends roots opts w t c g (subst (λ y. Prepared env y opts t) q h)))

  pub create_and_send_milestone-Ends :
      (w : World F)
      → Ends
          (create_and_send_milestone env parents index previous w)
          (λ _ w'. Issued w w')
          (Failed w)
  unfolding create_and_send_milestone
  create_and_send_milestone-Ends w =
      lift->>=-Ends critical_wrap
        (env.merkle_root index (unix_seconds env.now) unique_parents previous) ask w
        (λ d e.
          halted [] is_critical (inl refl) (inl (Keeps-same (append-nil w.effects))) (no_roots d e))
        (λ roots c. ask-Ends roots w c)
