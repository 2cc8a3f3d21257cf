-- ===== src/Coordinator/Restart.antt =====
-- pkg/coordinator/coordinator.go: what a failed milestone leaves on the disk, and what a new process does with it.
use inx_coordinator.Base.{
  ℕ, true, false, none, some, List, [], ◌∷◌, Error, ok, err, ◌≡◌, ◌≢◌, refl, sym, subst, ap, ◌∙◌,
  ◌⊎◌, inl, inr, All, All-append, if◌then◌else◌, Bool, Option-cases, ◌==◌, ==_iff, ==_other,
  exists_none, exists_some, previous_milestone_mismatch, state_file_not_found, JsonIo, StateFile,
  move_to_old,
}
use inx_coordinator.Coordinator.Types.{
  State, LatestMilestoneInfo, World, Effect, Env, persisted_migrator,
}
use inx_coordinator.Coordinator.Hoare.{Ends-ok, Ends-err}
use inx_coordinator.Coordinator.Operations.{issue_milestone, init_resume}
use inx_coordinator.Coordinator.Stages.{Keeps-trans, Keeps-same, quorum_effects}
use inx_coordinator.Coordinator.Outcomes.{IsUnsent, unmoved, torn, unwritten}
use inx_coordinator.Coordinator.Endings.{Failed, refused, halted, broken, Prepared-Keeps}
use inx_coordinator.Coordinator.Safety.{
  next_index, issue_milestone-Ends, Unchanged, Unchanged-same, Keeps-Unchanged, refused-Unchanged,
}

module _ {F : Type 0} where
  pub init_resume_gone :
      (io : JsonIo State) (latest : LatestMilestoneInfo) (u : World F)
      → u.file.current ≡ none
      → init_resume io latest u ≡ (err state_file_not_found, u)
  unfolding init_resume
  init_resume_gone io latest u g = simp (exists_none u.file g, init_resume) refl

  pub init_resume_found :
      (io : JsonIo State) (latest : LatestMilestoneInfo) (u : World F) (s : State) (b : Bool)
      → u.file.current ≡ some s
      → (latest.index == s.latest_milestone_index) ≡ b
      → init_resume io latest u ≡ (
          if b
          then (ok tt, record u { state = s; bootstrapped = true })
          else (err previous_milestone_mismatch, record u { state = s }))
  unfolding init_resume
  init_resume_found io latest u s b g c =
      simp (exists_some u.file g, io.read_ok s u.file g, c, init_resume) refl

module _ {F : Type 0} (env : Env F) where
  pub flags-IsUnsent :
      (fs : List (Effect F)) → (fs ≡ []) ⊎ (fs ≡ persisted_migrator true ∷ []) → All IsUnsent fs
  flags-IsUnsent fs (inl e) = subst (All IsUnsent) (sym e) tt
  flags-IsUnsent fs (inr e) = subst (All IsUnsent) (sym e) (tt, tt)

  pub quorum-IsUnsent : All IsUnsent (quorum_effects env)
  quorum-IsUnsent = elim (Option-cases env.quorum) [
    | inl q ↦ rw (q) tt
    | inr (c, q) ↦ rw (q) (tt, tt)
  ]

  -- The state file was moved, the write of the new state, that of the next milestone, has reported an
  -- error, and the file is as that write has left it.
  pub record WriteFailed (w v : World F) : Type 0 where
    pub moved_file : StateFile State
    pub reported : Error
    pub moves : move_to_old env.rename_fault w.file ≡ ok moved_file
    pub reports : (env.state_io.write v.state moved_file).0 ≡ err reported
    pub index_eq : v.state.latest_milestone_index ≡ next_index w
    pub left : v.file ≡ (env.state_io.write v.state moved_file).1

  -- What a failure leaves on the disk.
  pub data Leaves (w v : World F) : Type 0 where
    -- nothing was sent, and the state file is the one before
    untouched : Unchanged w v → Leaves w v
    -- there is no state file
    no_file : v.file.current ≡ none → Leaves w v
    -- the write of the new state behind the move of the file has reported an error
    write_failed : WriteFailed w v → Leaves w v

  pub Failed-Leaves :
      {parents : List ℕ} {p : ℕ} {w v : World F} {e : Error}
      → Failed env parents (next_index w) p w e v
      → Leaves w v
  Failed-Leaves (refused {e = e} roots r q) = untouched (refused-Unchanged e q)
  Failed-Leaves (halted flags f c (inl k) y) =
      untouched (Keeps-Unchanged k (flags-IsUnsent flags c))
  Failed-Leaves (halted flags f c (inr k) y) = untouched (
      Keeps-Unchanged k
        (All-append IsUnsent (quorum_effects env) flags quorum-IsUnsent (flags-IsUnsent flags c)))
  Failed-Leaves (broken opts p unmoved) =
      let (fs, c, k) = Prepared-Keeps env [] 0 0 p in
      untouched (
        Keeps-Unchanged (Keeps-trans (Keeps-same refl) k)
          (All-append IsUnsent (quorum_effects env) fs quorum-IsUnsent (flags-IsUnsent fs c)))
  Failed-Leaves (broken opts p (torn f g s b)) = no_file g
  Failed-Leaves (broken opts p (unwritten f d m x l i b)) =
      let (fs, c, k) = Prepared-Keeps env [] 0 0 p in
      write_failed (record {
        moved_file = f;
        reported = d;
        moves = ap (move_to_old env.rename_fault) (sym k.file_eq) ∙ m;
        reports = x;
        index_eq = i;
        left = l;
      })

  -- After an error of `IssueMilestone`, fatal or not, a new process cannot issue the milestone again
  -- on a state from before it: either nothing was sent and the state file is untouched, or the
  -- resume of the new process is refused since the state file is not found, or the state file was
  -- moved and this call's write of the new state behind it has reported an error.
  pub issue_milestone-restart :
      (parents : List ℕ) (w v u : World F) (e : Error) (latest : LatestMilestoneInfo)
      → issue_milestone env parents w ≡ (err e, v)
      → u.file ≡ v.file
      → Unchanged w v
        ⊎ (init_resume env.state_io latest u ≡ (err state_file_not_found, u))
        ⊎ WriteFailed w v
  unfolding init_resume
  issue_milestone-restart parents w v u e latest q h =
      elim (Ends-err (issue_milestone-Ends env parents w) q) [
        | inl (r, k) ↦ inl (Unchanged-same k)
        | inr f ↦ elim (Failed-Leaves f) [
          | untouched k ↦ inl k
          | no_file g ↦
              inr (inl (init_resume_gone env.state_io latest u (ap (λ y. y.current) h ∙ g)))
          | write_failed f ↦ inr (inr f)
        ]
      ]

  -- After a success of `IssueMilestone`, a new process resumes from the state file with the state of
  -- the issued milestone exactly if the index of the node's latest milestone is that of the issued
  -- one. Only the index is compared; the milestone ID that the node names plays no part.
  pub issue_milestone-resumes :
      (parents : List ℕ) (w v u : World F) (id : ℕ) (latest : LatestMilestoneInfo)
      → issue_milestone env parents w ≡ (ok id, v)
      → u.file ≡ v.file
      → ((latest.index ≡ next_index w)
          → init_resume env.state_io latest u
            ≡ (ok tt, record u { state = v.state; bootstrapped = true }))
        × ((latest.index ≢ next_index w)
            → (init_resume env.state_io latest u).0 ≡ err previous_milestone_mismatch)
  unfolding init_resume
  issue_milestone-resumes parents w v u id latest q h =
      let (i, z) = Ends-ok (issue_milestone-Ends env parents w) q in
      let c : u.file.current ≡ some v.state = ap (λ y. y.current) h ∙ i.sent.writes in
      let x : v.state.latest_milestone_index ≡ next_index w =
        ap (λ y. y.latest_milestone_index) i.sent.state_eq in
      (
        (λ y. init_resume_found env.state_io latest u v.state true c ((==_iff _ _).1 (y ∙ sym x))),
        (λ n.
            ap (λ y. y.0)
              (init_resume_found env.state_io latest u v.state false c
                (==_other _ _ (λ y. n (y ∙ x))))),
      )
