-- ===== src/Coordinator/Kills.antt =====
-- pkg/coordinator/coordinator.go: a process that is killed in the course of `IssueMilestone`, at any point
-- between two of its effects.
use inx_coordinator.Base.{
  ℕ, false, none, some, List, [], ◌∷◌, ◌++◌, ok, ◌≡◌, sym, ap, subst, ◌∙◌, ◌⊎◌, inl, inr, All,
  All-append, Option, Option-cases, append_assoc, append_cancel_left, arith, true,
}
use inx_coordinator.Coordinator.Types.{ReceiptOpt, World, Effect, Env, persisted_migrator}
use inx_coordinator.Coordinator.Hoare.{Ends-ok}
use inx_coordinator.Coordinator.Operations.{issue_milestone}
use inx_coordinator.Coordinator.Stages.{quorum_effects}
use inx_coordinator.Coordinator.Outcomes.{flags}
use inx_coordinator.Coordinator.Endings.{Prepared-Keeps}
use inx_coordinator.Coordinator.Safety.{next_index, issue_milestone-Ends}
use inx_coordinator.Coordinator.Restart.{init_resume_gone, flags-IsUnsent, quorum-IsUnsent}
use inx_coordinator.Coordinator.Sent.{milestones, unsent-milestones, Adds, Issued-Adds}
use inx_coordinator.Coordinator.Chain.{IsLinked, quiet-IsLinked, Adds-IsLinked}
use inx_coordinator.Coordinator.Progress.{
  disk_after, IsDiskless, Progress, early, amid, late, call, call-Progress,
}
use inx_coordinator.Coordinator.Resumes.{IsSaved, Restarts, resumed}

module _ {F : Type 0} (env : Env F) where
  -- The process is killed after the effects `done` of a call that would have succeeded with the
  -- effects `rest`; the file is as these effects leave it.
  pub record Kills (w x : World F) : Type 0 where
    pub parents : List ℕ
    pub id : ℕ
    pub issued : World F
    pub issues : issue_milestone env parents w ≡ (ok id, issued)
    pub done : List (Effect F)
    pub rest : List (Effect F)
    pub all_effects : issued.effects ≡ w.effects ++ (done ++ rest)
    pub killed_effects : x.effects ≡ w.effects ++ done
    pub killed_file : x.file.current ≡ disk_after issued.state done w.file.current

  quorum-IsDiskless : All IsDiskless (quorum_effects env)
  quorum-IsDiskless = elim (Option-cases env.quorum) [
    | inl q ↦ rw (q) tt
    | inr (c, q) ↦ rw (q) (tt, tt)
  ]

  persisted-IsDiskless :
      (fs : List (Effect F)) → (fs ≡ []) ⊎ (fs ≡ persisted_migrator true ∷ []) → All IsDiskless fs
  persisted-IsDiskless fs (inl e) = subst (All IsDiskless) (sym e) tt
  persisted-IsDiskless fs (inr e) = subst (All IsDiskless) (sym e) (tt, tt)

  flags-IsDiskless : (opts : Option (ReceiptOpt F)) → All IsDiskless (flags env opts false)
  flags-IsDiskless none = tt
  flags-IsDiskless (some r) = (tt, tt)

  Kills-Progress :
      (w x : World F) (k : Kills w x)
      → (a : Adds env.milestone_id w k.issued) × Progress k.issued.state a.milestone w.file.current
          k.done
  Kills-Progress w x k =
      let (i, z) = Ends-ok (issue_milestone-Ends env k.parents w) k.issues in
      let (fs, c, p) = Prepared-Keeps env [] 0 0 i.prepares in
      let a = Issued-Adds env k.parents w k.issued i in
      let before = quorum_effects env ++ fs in
      let after = flags env i.opts false in
      let of_call = call after i.block (next_index w) i.id i.sent.block_id in
      let es = of_call before in
      let effects : k.issued.effects ≡ w.effects ++ es =
        i.sent.effects_eq
        ∙ ap (λ es. es ++ of_call [])
            (p.effects_eq ∙ append_assoc w.effects (quorum_effects env) fs)
        ∙ append_assoc w.effects before (of_call []) in
      (
        a,
        call-Progress k.issued.state a.milestone w.file.current before after i.block (next_index w)
            i.id i.sent.block_id k.done k.rest
            (All-append IsDiskless (quorum_effects env) fs quorum-IsDiskless
              (persisted-IsDiskless fs c))
            (unsent-milestones before (
              All-append _ (quorum_effects env) fs (quorum-IsUnsent env) (flags-IsUnsent env fs c)))
            (flags-IsDiskless i.opts)
            (ap milestones (append_cancel_left w.effects es a.effects (sym effects ∙ a.effects_eq))
              ∙ a.only)
            (append_cancel_left w.effects (k.done ++ k.rest) es (sym k.all_effects ∙ effects)),
      )

  -- If a new process resumes behind the kill, its milestones are linked to the ones before.
  pub Kills-IsLinked :
      (w x t : World F)
      → IsSaved w
      → Kills w x
      → Restarts x t
      → IsSaved t × IsLinked env.milestone_id w t
  Kills-IsLinked w x t h k r =
      let (a, progress) = Kills-Progress w x k in
      let file : r.process.file.current ≡ disk_after k.issued.state k.done w.file.current =
        ap (λ f. f.current) r.same_file ∙ k.killed_file in
      elim progress [
        | early no_milestone same ↦
            let c = file ∙ same ∙ h in
            let e = resumed r.io r.latest r.process t w.state c r.resumes in
            (
              subst IsSaved (sym e) c,
              quiet-IsLinked env.milestone_id w t k.done
                  (ap (λ y. y.effects) e ∙ r.same_effects ∙ k.killed_effects) no_milestone
                  (ap (λ y. y.state) e),
            )
        | amid gone ↦
            let d =
              ap (λ y. y.0)
                (sym r.resumes ∙ init_resume_gone r.io r.latest r.process (file ∙ gone)) in
            absurd (ground arith)
        | late only new ↦
            let c = file ∙ new in
            let e = resumed r.io r.latest r.process t k.issued.state c r.resumes in
            let state : t.state ≡ k.issued.state = ap (λ y. y.state) e in
            (
              subst IsSaved (sym e) c,
              Adds-IsLinked env.milestone_id w t (record {
                effects = k.done;
                milestone = a.milestone;
                effects_eq = ap (λ y. y.effects) e ∙ r.same_effects ∙ k.killed_effects;
                only = only;
                next_eq = a.next_eq;
                index_eq = a.index_eq ∙ sym (ap (λ s. s.latest_milestone_index) state);
                previous_eq = a.previous_eq;
                id_eq = a.id_eq ∙ ap ok (sym (ap (λ s. s.latest_milestone_id) state));
              }),
            )
      ]
