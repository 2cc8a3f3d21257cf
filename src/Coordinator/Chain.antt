-- ===== src/Coordinator/Chain.antt =====
-- pkg/coordinator/coordinator.go: the milestones of successive calls of the coordinator.
use inx_coordinator.Base.{
  ℕ, ◌+◌, List, [], ◌∷◌, ◌++◌, Error, Result, ok, err, ◌≡◌, sym, ap, subst, ◌∙◌, inl, inr, u32,
  append_assoc, append-nil,
}
use inx_coordinator.Coordinator.Types.{Milestone, World, Effect, Env}
use inx_coordinator.Coordinator.Hoare.{Ends-ok, succeeds, fails}
use inx_coordinator.Coordinator.Operations.{issue_milestone, issue_checkpoint, bootstrap}
use inx_coordinator.Coordinator.Stages.{IsFatal}
use inx_coordinator.Coordinator.Safety.{issue_milestone-Ends, issue_milestone-nonfatal}
use inx_coordinator.Coordinator.Start.{bootstrap-Ends}
use inx_coordinator.Coordinator.Checkpoints.{issue_checkpoint-Ends, Chain-IsOfCheckpoint}
use inx_coordinator.Coordinator.Sent.{
  milestones, milestones-append, unsent-milestones, checkpoint-milestones, Adds, Issued-Adds,
}

module _ {F : Type 0} where
  -- The milestones follow a milestone of an index and ID: each has the next index and the ID of the
  -- one before, up to the last index and ID.
  pub data Links (hash : Milestone F → Result ℕ) : ℕ → ℕ → List (Milestone F) → ℕ → ℕ → Type 0 where
    unlinked : {index id : ℕ} → Links hash index id [] index id
    linked :
        {index id next_id end_index end_id : ℕ} {ms : List (Milestone F)} (m : Milestone F)
        → m.index ≡ u32 (index + 1)
        → m.previous_milestone_id ≡ id
        → hash m ≡ ok next_id
        → Links hash m.index next_id ms end_index end_id
        → Links hash index id (m ∷ ms) end_index end_id

  -- Successive calls, with any environment, parents, and errors that do not stop the program. A
  -- checkpoint's errors stop nothing, and those of `Bootstrap` are all fatal.
  pub data Calls (hash : Milestone F → Result ℕ) : World F → World F → Type 0 where
    no_call : {w : World F} → Calls hash w w
    first_milestone :
        {w v u : World F} (env : Env F) (id : ℕ)
        → env.milestone_id ≡ hash
        → bootstrap env w ≡ (ok id, v)
        → Calls hash v u
        → Calls hash w u
    success :
        {w v u : World F} (env : Env F) (parents : List ℕ) (id : ℕ)
        → env.milestone_id ≡ hash
        → issue_milestone env parents w ≡ (ok id, v)
        → Calls hash v u
        → Calls hash w u
    failure :
        {w v u : World F} (env : Env F) (parents : List ℕ) (e : Error)
        → issue_milestone env parents w ≡ (err e, v)
        → ¬ IsFatal e
        → Calls hash v u
        → Calls hash w u
    checkpoint :
        {w u : World F} (env : Env F) (index last : ℕ) (tips : List ℕ)
        → Calls hash (issue_checkpoint env index last tips w).1 u
        → Calls hash w u

  Links-append :
      {hash : Milestone F → Result ℕ} {i d j e k f : ℕ} {ms ns : List (Milestone F)}
      → Links hash i d ms j e
      → Links hash j e ns k f
      → Links hash i d (ms ++ ns) k f
  Links-append unlinked l = l
  Links-append (linked m a b c more) l = linked m a b c (Links-append more l)

  -- The milestones lead from one world's latest milestone to the other's.
  abbrev Leads : (Milestone F → Result ℕ) → World F → List (Milestone F) → World F → Type 0
  Leads hash w ms v =
      Links hash w.state.latest_milestone_index w.state.latest_milestone_id ms
        v.state.latest_milestone_index v.state.latest_milestone_id

  -- The effects that a run adds, with their milestones linked.
  abbrev pub IsLinked : (Milestone F → Result ℕ) → World F → World F → Type 0
  IsLinked hash w v =
      (es : List (Effect F)) × (v.effects ≡ w.effects ++ es)
      × Links hash w.state.latest_milestone_index w.state.latest_milestone_id (milestones es)
          v.state.latest_milestone_index v.state.latest_milestone_id

  pub none-IsLinked : (hash : Milestone F → Result ℕ) (w : World F) → IsLinked hash w w
  none-IsLinked hash w = ([], sym (append-nil w.effects), unlinked)

  pub trans-IsLinked :
      (hash : Milestone F → Result ℕ) (w v u : World F)
      → IsLinked hash w v
      → IsLinked hash v u
      → IsLinked hash w u
  trans-IsLinked hash w v u (es, e, l) (fs, f, k) = (
    es ++ fs,
    f ∙ ap (λ x. x ++ fs) e ∙ append_assoc w.effects es fs,
    subst (λ ms. Leads hash w ms u) (sym (milestones-append es fs)) (Links-append l k),
  )

  -- No milestone was sent, and the state is the same.
  pub quiet-IsLinked :
      (hash : Milestone F → Result ℕ) (w v : World F) (es : List (Effect F))
      → v.effects ≡ w.effects ++ es
      → milestones es ≡ []
      → v.state ≡ w.state
      → IsLinked hash w v
  quiet-IsLinked hash w v es e m s = (
    es,
    e,
    subst (λ ms. Leads hash w ms v) (sym m)
        (subst
          (λ s.
            Links hash w.state.latest_milestone_index w.state.latest_milestone_id []
              s.latest_milestone_index s.latest_milestone_id)
          (sym s) unlinked),
  )

  pub Adds-IsLinked :
      (hash : Milestone F → Result ℕ) (w v : World F) → Adds hash w v → IsLinked hash w v
  Adds-IsLinked hash w v a = (
    a.effects,
    a.effects_eq,
    subst (λ ms. Leads hash w ms v) (sym a.only)
        (linked a.milestone a.next_eq a.previous_eq a.id_eq (
          subst
            (λ i.
              Links hash a.milestone.index v.state.latest_milestone_id [] i
                v.state.latest_milestone_id)
            a.index_eq unlinked)),
  )

module _ {F : Type 0} (env : Env F) where
  pub issue_milestone_ok-IsLinked :
      (parents : List ℕ) (w v : World F) (id : ℕ)
      → issue_milestone env parents w ≡ (ok id, v)
      → IsLinked env.milestone_id w v
  issue_milestone_ok-IsLinked parents w v id q =
      Adds-IsLinked env.milestone_id w v
        (Issued-Adds env parents w v (Ends-ok (issue_milestone-Ends env parents w) q).0)

  pub issue_milestone_err-IsLinked :
      (hash : Milestone F → Result ℕ) (parents : List ℕ) (w v : World F) (e : Error)
      → issue_milestone env parents w ≡ (err e, v)
      → ¬ IsFatal e
      → IsLinked hash w v
  issue_milestone_err-IsLinked hash parents w v e q n =
      let (m, u) = issue_milestone-nonfatal env parents w v e q n in
      quiet-IsLinked hash w v u.new_effects u.effects_eq
        (unsent-milestones u.new_effects u.are_unsent) u.same_state

  pub bootstrap-IsLinked :
      (w v : World F) (id : ℕ) → bootstrap env w ≡ (ok id, v) → IsLinked env.milestone_id w v
  bootstrap-IsLinked w v id q =
      let (a, b, c) = Ends-ok (bootstrap-Ends env w) q in
      elim c [
        | inl (x, same) ↦ subst (IsLinked env.milestone_id w) (sym same) (none-IsLinked _ w)
        | inr (x, (u, same, i)) ↦ subst (IsLinked env.milestone_id w) (sym same) (
            Adds-IsLinked env.milestone_id w u
              (Issued-Adds env (w.state.latest_milestone_block_id ∷ []) w u i))
      ]

  pub issue_checkpoint-IsLinked :
      (hash : Milestone F → Result ℕ) (index last : ℕ) (tips : List ℕ) (w : World F)
      → IsLinked hash w (issue_checkpoint env index last tips w).1
  issue_checkpoint-IsLinked hash index last tips w =
      elim (issue_checkpoint-Ends env index last tips w) [
        | succeeds id v q (es, c, m) ↦ subst (IsLinked hash w) (sym (ap (λ r. r.1) q)) (
            quiet-IsLinked hash w v es (ap (λ y. y.effects) m)
              (checkpoint-milestones es (Chain-IsOfCheckpoint env c)) (ap (λ y. y.state) m))
        | fails e v q (s, (es, m, a)) ↦ subst (IsLinked hash w) (sym (ap (λ r. r.1) q)) (
            quiet-IsLinked hash w v es (ap (λ y. y.effects) m) (checkpoint-milestones es a)
              (ap (λ y. y.state) m))
      ]

module _ {F : Type 0} where
  -- Over any successive calls of `Bootstrap`, `IssueMilestone` and `IssueCheckpoint`, with errors that
  -- do not stop the program in between, the milestones that were sent form a chain from the
  -- coordinator's first state to its last one: each has the next index and the ID of the one before.
  -- The milestone ID is one function in all calls.
  pub Calls-IsLinked :
      (hash : Milestone F → Result ℕ) (w v : World F) → Calls hash w v → IsLinked hash w v
  Calls-IsLinked hash w v no_call = none-IsLinked hash w
  Calls-IsLinked hash w v (first_milestone {v = u} env id h q more) =
      trans-IsLinked hash w u v (subst (λ f. IsLinked f w u) h (bootstrap-IsLinked env w u id q))
        (Calls-IsLinked hash u v more)
  Calls-IsLinked hash w v (success {v = u} env parents id h q more) =
      trans-IsLinked hash w u v
        (subst (λ f. IsLinked f w u) h (issue_milestone_ok-IsLinked env parents w u id q))
        (Calls-IsLinked hash u v more)
  Calls-IsLinked hash w v (failure {v = u} env parents e q n more) =
      trans-IsLinked hash w u v (issue_milestone_err-IsLinked env hash parents w u e q n)
        (Calls-IsLinked hash u v more)
  Calls-IsLinked hash w v (checkpoint env index last tips more) =
      trans-IsLinked hash w (issue_checkpoint env index last tips w).1 v
        (issue_checkpoint-IsLinked env hash index last tips w)
        (Calls-IsLinked hash (issue_checkpoint env index last tips w).1 v more)
