-- ===== src/Coordinator/Resumes.antt =====
-- pkg/coordinator/coordinator.go: a new process that resumes from a state file.
use inx_coordinator.Base.{
  arith, true, false, some, ok, ◌≡◌, sym, ap, ◌∙◌, inl, inr, JsonIo, ◌==◌, Bool-cases,
}
use inx_coordinator.Coordinator.Types.{State, LatestMilestoneInfo, World}
use inx_coordinator.Coordinator.Operations.{init_resume}
use inx_coordinator.Coordinator.Restart.{init_resume_found}

module _ {F : Type 0} where
  -- The state file holds the state.
  abbrev pub IsSaved : World F → Type 0
  IsSaved w = w.file.current ≡ some w.state

  -- A new process has resumed from the file; its own state and flag before that are of no matter.
  pub record Restarts (v t : World F) : Type 0 where
    pub io : JsonIo State
    pub latest : LatestMilestoneInfo
    pub process : World F
    pub same_file : process.file ≡ v.file
    pub same_effects : process.effects ≡ v.effects
    pub resumes : init_resume io latest process ≡ (ok tt, t)

  pub resumed :
      (io : JsonIo State) (latest : LatestMilestoneInfo) (r t : World F) (s : State)
      → r.file.current ≡ some s
      → init_resume io latest r ≡ (ok tt, t)
      → t ≡ record r { state = s; bootstrapped = true }
  resumed io latest r t s h q = elim (Bool-cases (latest.index == s.latest_milestone_index)) [
    | inl e ↦ ap (λ x. x.1) (sym q ∙ init_resume_found io latest r s true h e)
    | inr e ↦
        let c = ap (λ x. x.0) (sym q ∙ init_resume_found io latest r s false h e) in
        absurd (ground arith)
  ]
