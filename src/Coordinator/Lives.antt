-- ===== src/Coordinator/Lives.antt =====
-- pkg/coordinator/coordinator.go: the milestones of successive processes, each of which resumes from the
-- state file that the one before has left.
use inx_coordinator.Base.{
  ℕ, arith, Option-cases, false, some, List, Error, Result, ok, err, ◌≡◌, refl, sym, ap, subst, ◌∙◌,
  inl, inr, JsonIo, StateFile,
}
use inx_coordinator.Coordinator.Types.{State, LatestMilestoneInfo, Milestone, World, Env}
use inx_coordinator.Coordinator.Hoare.{Ends-ok, Ends-err, succeeds, fails}
use inx_coordinator.Coordinator.Operations.{
  issue_milestone, issue_checkpoint, bootstrap, init_resume,
}
use inx_coordinator.Coordinator.Safety.{
  Unchanged, Unchanged-same, issue_milestone-Ends, issue_milestone-nonfatal,
}
use inx_coordinator.Coordinator.Restart.{
  untouched, no_file, write_failed, Failed-Leaves, init_resume_gone,
}
use inx_coordinator.Coordinator.Start.{bootstrap-Ends}
use inx_coordinator.Coordinator.Checkpoints.{issue_checkpoint-Ends}
use inx_coordinator.Coordinator.Sent.{unsent-milestones}
use inx_coordinator.Coordinator.Kills.{Kills, Kills-IsLinked}
use inx_coordinator.Coordinator.Resumes.{IsSaved, Restarts, resumed}
use inx_coordinator.Coordinator.Chain.{
  Calls, no_call, first_milestone, success, failure, checkpoint, IsLinked, quiet-IsLinked,
  trans-IsLinked, Calls-IsLinked,
}

module _ {F : Type 0} where
  -- A call of `IssueMilestone` has failed, and its writes of the state file report no error.
  pub record Crashes (w v : World F) : Type 0 where
    pub env : Env F
    pub parents : List ℕ
    pub error : Error
    pub stops : issue_milestone env parents w ≡ (err error, v)
    pub writes : (s : State) (f : StateFile State) → (env.state_io.write s f).0 ≡ ok tt

  -- A process has begun: `InitState` has resumed from the file, or `Bootstrap` has issued the first
  -- milestone.
  pub data Begins (w : World F) : Type 0 where
    resuming :
        (io : JsonIo State) (latest : LatestMilestoneInfo) (process : World F)
        → init_resume io latest process ≡ (ok tt, w)
        → Begins w
    bootstrapping :
        (env : Env F) (id : ℕ) (process : World F)
        → process.bootstrapped ≡ false
        → bootstrap env process ≡ (ok id, w)
        → Begins w

  -- Successive processes: each ends between two calls, by an error of `IssueMilestone`, or in the
  -- course of it.
  pub data Lives (hash : Milestone F → Result ℕ) : World F → World F → Type 0 where
    last_life : {w v : World F} → Calls hash w v → Lives hash w v
    stopped : {w v t u : World F} → Calls hash w v → Restarts v t → Lives hash t u → Lives hash w u
    crashed :
        {w v x t u : World F}
        → Calls hash w v
        → Crashes v x
        → Restarts x t
        → Lives hash t u
        → Lives hash w u
    killed :
        {w v x t u : World F} (env : Env F)
        → Calls hash w v
        → env.milestone_id ≡ hash
        → Kills env v x
        → Restarts x t
        → Lives hash t u
        → Lives hash w u

  Unchanged-IsSaved : (w v : World F) → Unchanged w v → IsSaved w → IsSaved v
  Unchanged-IsSaved w v n h =
      ap (λ f. f.current) n.same_file ∙ h ∙ ap (λ s. some s) (sym n.same_state)

  issue_checkpoint-IsSaved :
      (env : Env F) (index last : ℕ) (tips : List ℕ) (w : World F)
      → IsSaved w
      → IsSaved (issue_checkpoint env index last tips w).1
  issue_checkpoint-IsSaved env index last tips w h =
      elim (issue_checkpoint-Ends env index last tips w) [
        | succeeds id v q (es, c, m) ↦ subst IsSaved (sym (ap (λ r. r.1) q ∙ m)) h
        | fails e v q (s, (es, m, a)) ↦ subst IsSaved (sym (ap (λ r. r.1) q ∙ m)) h
      ]

  bootstrap-IsSaved :
      (env : Env F) (w v : World F) (id : ℕ) → bootstrap env w ≡ (ok id, v) → IsSaved w → IsSaved v
  bootstrap-IsSaved env w v id q h =
      let (a, b, c) = Ends-ok (bootstrap-Ends env w) q in
      elim c [
        | inl (x, same) ↦ subst IsSaved (sym same) h
        | inr (x, (u, same, i)) ↦ subst IsSaved (sym same) i.sent.writes
      ]

  Calls-IsSaved :
      (hash : Milestone F → Result ℕ) (w v : World F) → Calls hash w v → IsSaved w → IsSaved v
  Calls-IsSaved hash w v no_call h = h
  Calls-IsSaved hash w v (first_milestone {v = u} env id g q more) h =
      Calls-IsSaved hash u v more (bootstrap-IsSaved env w u id q h)
  Calls-IsSaved hash w v (success {v = u} env parents id g q more) h =
      Calls-IsSaved hash u v more (Ends-ok (issue_milestone-Ends env parents w) q).0.sent.writes
  Calls-IsSaved hash w v (failure {v = u} env parents e q n more) h =
      Calls-IsSaved hash u v more
        (Unchanged-IsSaved w u (issue_milestone-nonfatal env parents w u e q n).1 h)
  Calls-IsSaved hash w v (checkpoint env index last tips more) h =
      Calls-IsSaved hash (issue_checkpoint env index last tips w).1 v more
        (issue_checkpoint-IsSaved env index last tips w h)

  Begins-IsSaved : (w : World F) → Begins w → IsSaved w
  Begins-IsSaved w (resuming io latest r q) = elim (Option-cases r.file.current) [
    | inl g ↦
        let d = ap (λ x. x.0) (sym q ∙ init_resume_gone io latest r g) in absurd (ground arith)
    | inr (s, g) ↦ subst IsSaved (sym (resumed io latest r w s g q)) g
  ]
  Begins-IsSaved w (bootstrapping env id r f q) =
      let (a, b, c) = Ends-ok (bootstrap-Ends env r) q in
      elim c [
        | inl (x, same) ↦ absurd (ground (arith, x, f))
        | inr (x, (u, same, i)) ↦ subst IsSaved (sym same) i.sent.writes
      ]

  -- The state of the file is the new process's.
  Restarts-IsLinked :
      (hash : Milestone F → Result ℕ) (w v t : World F)
      → Unchanged w v
      → IsSaved w
      → Restarts v t
      → IsSaved t × IsLinked hash w t
  Restarts-IsLinked hash w v t n h r =
      let c : r.process.file.current ≡ some w.state =
        ap (λ f. f.current) (r.same_file ∙ n.same_file) ∙ h in
      let e = resumed r.io r.latest r.process t w.state c r.resumes in
      (
        subst IsSaved (sym e) c,
        quiet-IsLinked hash w t n.new_effects
            (ap (λ x. x.effects) e ∙ r.same_effects ∙ n.effects_eq)
            (unsent-milestones n.new_effects n.are_unsent) (ap (λ x. x.state) e),
      )

  Crashes-Unchanged : (w v t : World F) → Crashes w v → Restarts v t → Unchanged w v
  Crashes-Unchanged w v t c r = elim (Ends-err (issue_milestone-Ends c.env c.parents w) c.stops) [
    | inl (x, k) ↦ Unchanged-same k
    | inr f ↦ elim (Failed-Leaves c.env f) [
      | untouched k ↦ k
      | no_file g ↦
          let d =
            ap (λ x. x.0)
              (sym r.resumes
                ∙ init_resume_gone r.io r.latest r.process (ap (λ y. y.current) r.same_file ∙ g)) in
          absurd (ground arith)
      | write_failed f ↦ absurd (ground (arith, f.reports, c.writes v.state f.moved_file))
    ]
  ]

  saved-IsLinked :
      (hash : Milestone F → Result ℕ) (w v : World F)
      → Lives hash w v
      → IsSaved w
      → IsLinked hash w v
  saved-IsLinked hash w v (last_life calls) h = Calls-IsLinked hash w v calls
  saved-IsLinked hash w u (stopped {v = v} {t = t} calls r more) h =
      let saved = Calls-IsSaved hash w v calls h in
      let (again, linked) = Restarts-IsLinked hash v v t (Unchanged-same refl) saved r in
      trans-IsLinked hash w v u (Calls-IsLinked hash w v calls)
        (trans-IsLinked hash v t u linked (saved-IsLinked hash t u more again))
  saved-IsLinked hash w u (crashed {v = v} {x = x} {t = t} calls c r more) h =
      let saved = Calls-IsSaved hash w v calls h in
      let (again, linked) = Restarts-IsLinked hash v x t (Crashes-Unchanged v x t c r) saved r in
      trans-IsLinked hash w v u (Calls-IsLinked hash w v calls)
        (trans-IsLinked hash v t u linked (saved-IsLinked hash t u more again))
  saved-IsLinked hash w u (killed {v = v} {x = x} {t = t} env calls g k r more) h =
      let saved = Calls-IsSaved hash w v calls h in
      let (again, linked) = Kills-IsLinked env v x t saved k r in
      trans-IsLinked hash w v u (Calls-IsLinked hash w v calls) (
        trans-IsLinked hash v t u (subst (λ f. IsLinked f v t) g linked)
          (saved-IsLinked hash t u more again))

  -- Over any number of processes, with any successive calls of `Bootstrap`, `IssueMilestone` and
  -- `IssueCheckpoint` in each, the milestones that were sent form one chain: each has the next
  -- index and the ID of the one before. A process ends between two calls, by an error of
  -- `IssueMilestone`, or is killed in the course of a call of it that would have succeeded, between
  -- any two of its effects; the next one resumes from the state file that it has left. The first
  -- process has resumed from a file or issued the first milestone, no write of a failed call has
  -- reported an error, and the milestone ID is one function in all calls.
  pub Lives-IsLinked :
      (hash : Milestone F → Result ℕ) (w v : World F)
      → Begins w
      → Lives hash w v
      → IsLinked hash w v
  Lives-IsLinked hash w v b l = saved-IsLinked hash w v l (Begins-IsSaved w b)
