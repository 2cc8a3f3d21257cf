-- ===== src/Coordinator/Sending.antt =====
-- pkg/coordinator/coordinator.go: how `createAndSendMilestone` ends from the move of the state file on.
use inx_coordinator.Base.{
  ℕ, false, Option, none, some, List, [], ◌∷◌, ◌++◌, Error, ok, critical, wrap, move_to_old,
  move_to_old_lem, ◌≡◌, refl, sym, ap, subst, ◌∙◌, inl, inr, Result-cases, append_assoc, append-nil,
}
use inx_coordinator.Migrator.Service.{Service}
use inx_coordinator.Coordinator.Types.{
  ReceiptOpt, Block, World, Effect, Env, moved_state_file, sent_block, issued_milestone,
}
use inx_coordinator.Coordinator.Hoare.{Ends, succeeds, fails, Ends->>=, Ends-map}
use inx_coordinator.Coordinator.Actions.{Action, ◌>>◌, return, emit}
use inx_coordinator.Coordinator.Milestone.{
  critical_wrap, persist_migrator, move_state_file, send, store_state, send_milestone,
}
use inx_coordinator.Coordinator.Stages.{
  IsFatal, is_critical, Keeps, Keeps-same, persist_migrator-Ends,
}
use inx_coordinator.Coordinator.Outcomes.{
  Sent, Unsent, flags, move_state_file-Ends, store_state-Ends, torn, unmoved, unwritten,
}

module _ {F : Type 0} (env : Env F) where
  -- Past the move of the state file: it is moved, and the effects are `es`.
  record After (w w' : World F) (es : List (Effect F)) : Type 0 where
    moved : move_to_old env.rename_fault w.file ≡ ok w'.file
    same_state : w'.state ≡ w.state
    same_flag : w'.bootstrapped ≡ w.bootstrapped
    effects_eq : w'.effects ≡ w.effects ++ es

  After-Keeps :
      {w v v' : World F} {es fs : List (Effect F)}
      → After w v es
      → Keeps v v' fs
      → After w v' (es ++ fs)
  After-Keeps {w = w} {es = es} {fs = fs} a k = record {
    moved = a.moved ∙ ap ok (sym k.file_eq);
    same_state = k.state_eq ∙ a.same_state;
    same_flag = k.bootstrapped_eq ∙ a.same_flag;
    effects_eq = rw (k.effects_eq, a.effects_eq) rw (append_assoc) refl;
  }

  After-torn :
      {w v : World F} {es : List (Effect F)} {e : Error} (index : ℕ)
      → After w v es
      → IsFatal e
      → Unsent env index w e v
  After-torn {w = w} {v = v} index a f =
      torn f (move_to_old_lem env.rename_fault w.file v.file a.moved) a.same_state a.same_flag

  send-Ends :
      (block : Block F) (index : ℕ) (w : World F)
      → Ends
          (send env critical_wrap block (some index) w)
          (λ b v.
            (env.send_block block (some index) ≡ ok b)
            × Keeps w v (sent_block block (some index) ∷ [])
            × (v.migrator ≡ w.migrator))
          (λ e v. IsFatal e × Keeps w v (sent_block block (some index) ∷ []))
  unfolding send
  send-Ends block index w = elim (Result-cases (env.send_block block (some index))) [
    | inl (b, e) ↦
        succeeds b (record w { effects = w.effects ++ (sent_block block (some index) ∷ []) })
          (simp (e, send) refl) (e, Keeps-same refl, refl)
    | inr (d, e) ↦
        fails (critical_wrap d)
          (record w { effects = w.effects ++ (sent_block block (some index) ∷ []) })
          (simp (e, send) refl) (is_critical, Keeps-same refl)
  ]

  -- A receipt comes from a migrator.
  abbrev pub HasMigrator : Option (ReceiptOpt F) → Option Service → Type 0
  HasMigrator none m = Unit
  HasMigrator (some r) m = (s : Service) × (m ≡ some s)

  abbrev persist_sent : Option (ReceiptOpt F) → Action (World F) (Unit {0})
  persist_sent opts = elim opts [ none ↦ return tt | some _ ↦ persist_migrator env false ]

  persist_sent-Ends :
      (opts : Option (ReceiptOpt F)) (w : World F)
      → HasMigrator opts w.migrator
      → Ends
          (persist_sent opts w)
          (λ _ v. Keeps w v (flags env opts false))
          (λ e v. IsFatal e × Keeps w v [])
  persist_sent-Ends none w m = succeeds tt w refl (Keeps-same (append-nil w.effects))
  persist_sent-Ends (some r) w (s, m) =
      Ends-map (persist_migrator-Ends env false s w m) (λ _ v (k, p). k) (λ e v q. q)

  stored-Ends :
      (block : Block F) (opts : Option (ReceiptOpt F)) (index id b : ℕ) (w v : World F)
      → env.send_block block (some index) ≡ ok b
      → After w v
          ((moved_state_file ∷ []) ++ (sent_block block (some index) ∷ []) ++ flags env opts false)
      → Ends
          ((store_state env (record {
            latest_milestone_index = index;
            latest_milestone_block_id = b;
            latest_milestone_id = id;
            latest_milestone_time = env.now;
          })
              >> emit (issued_milestone index id b))
            v)
          (λ _ v'. Sent env block opts index id w v')
          (Unsent env index w)
  stored-Ends block opts index id b w v h a =
      Ends->>= (store_state env _) _ v (store_state-Ends env _ v)
        (λ e u ((d, p, x), q).
          subst (λ y. Unsent env index w y u) (sym p)
            (subst (Unsent env index w (critical (wrap d))) (sym q)
              (unwritten v.file d a.moved x refl refl a.same_flag)))
        (λ _ u (x, q).
          succeeds tt (record u { effects = u.effects ++ (issued_milestone index id b ∷ []) }) refl
            (record {
              block_id = b;
              sends = h;
              state_eq = ap (λ y. y.state) q;
              writes = x ∙ ap some (sym (ap (λ y. y.state) q));
              bootstrapped_eq = ap (λ y. y.bootstrapped) q ∙ a.same_flag;
              effects_eq = rw (ap (λ y. y.effects) q, a.effects_eq) simp (append_assoc) refl;
            }))

  pub send_milestone-Ends :
      (block : Block F) (opts : Option (ReceiptOpt F)) (index id : ℕ) (w : World F)
      → HasMigrator opts w.migrator
      → Ends
          (send_milestone env block opts index id w)
          (λ _ v. Sent env block opts index id w v)
          (Unsent env index w)
  unfolding send_milestone
  send_milestone-Ends block opts index id w m =
      Ends->>= (move_state_file env) _ w (move_state_file-Ends env w)
        (λ e v ((d, p), q).
          subst (λ y. Unsent env index w y v) (sym p)
            (subst (λ y. Unsent env index w (critical d) y) (sym q) unmoved))
        (λ _ v (x, q).
          let a : After w v (moved_state_file ∷ []) = record {
            moved = x;
            same_state = ap (λ y. y.state) q;
            same_flag = ap (λ y. y.bootstrapped) q;
            effects_eq = ap (λ y. y.effects) q;
          } in
          Ends->>= (send env critical_wrap block (some index)) _ v (send-Ends block index v)
            (λ e u (f, k). After-torn index (After-Keeps a k) f)
            (λ b u (h, k, g).
              Ends->>= (persist_sent opts) _ u
                (persist_sent-Ends opts u
                  (subst (HasMigrator opts) (sym (g ∙ ap (λ y. y.migrator) q)) m))
                (λ e t (f, l). After-torn index (After-Keeps (After-Keeps a k) l) f)
                (λ _ t l.
                  stored-Ends block opts index id b w t h (After-Keeps (After-Keeps a k) l))))
