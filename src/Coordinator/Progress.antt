-- ===== src/Coordinator/Progress.antt =====
-- pkg/coordinator/coordinator.go: how far a call of `IssueMilestone` has come at any point between two of
-- its effects.
use inx_coordinator.Base.{
  ℕ, Option, none, some, List, [], ◌∷◌, ◌++◌, ◌≡◌, refl, sym, ap, subst, ◌∙◌, ◌⊎◌, inl, inr, All,
  append-nil,
}
use inx_coordinator.Coordinator.Types.{
  State, Milestone, Block, Effect, quorum_finished, persisted_migrator, moved_state_file,
  sent_block, wrote_state_file, issued_milestone, issued_checkpoint,
}
use inx_coordinator.Coordinator.Sent.{milestones, milestones-append}

-- A list that is a part of two lists after each other ends in the first or in the second.
prefix-cases :
    {A : Type 0} (a b done rest : List A)
    → done ++ rest ≡ a ++ b
    → ((c : List A) × (a ≡ done ++ c)) ⊎ ((c : List A) × (done ≡ a ++ c) × (c ++ rest ≡ b))
prefix-cases [] b done rest e = inr (done, refl, e)
prefix-cases (x ∷ a) b [] rest e = inl (x ∷ a, refl)
prefix-cases (x ∷ a) b (y ∷ done) rest e =
    let same : y ≡ x = cc in
    let tails : done ++ rest ≡ a ++ b = cc in
    elim (prefix-cases a b done rest tails) [
      | inl (c, h) ↦ inl (c, cc (h, same))
      | inr (c, h, k) ↦ inr (c, cc (h, same), k)
    ]

module _ {F : Type 0} where
  -- The state file after the effects, when the state that is written is `s`.
  abbrev pub disk_after : State → List (Effect F) → Option State → Option State
  disk_after s [] f = f
  disk_after s (moved_state_file ∷ es) f = disk_after s es none
  disk_after s (wrote_state_file ∷ es) f = disk_after s es (some s)
  disk_after s (e ∷ es) f = disk_after s es f

  -- The effect leaves the state file alone.
  abbrev pub IsDiskless : Effect F → Type 0
  IsDiskless x = elim x [
    | sent_block b i ↦ Unit
    | quorum_finished e ↦ Unit
    | persisted_migrator b ↦ Unit
    | moved_state_file ↦ ⊥
    | wrote_state_file ↦ ⊥
    | issued_milestone i m b ↦ Unit
    | issued_checkpoint c i n b ↦ Unit
  ]

  diskless_disk :
      (s : State) (es : List (Effect F)) (f : Option State)
      → All IsDiskless es
      → disk_after s es f ≡ f
  diskless_disk s [] f h = refl
  diskless_disk s (sent_block b i ∷ es) f h = diskless_disk s es f h.1
  diskless_disk s (quorum_finished e ∷ es) f h = diskless_disk s es f h.1
  diskless_disk s (persisted_migrator b ∷ es) f h = diskless_disk s es f h.1
  diskless_disk s (moved_state_file ∷ es) f h = absurd h.0
  diskless_disk s (wrote_state_file ∷ es) f h = absurd h.0
  diskless_disk s (issued_milestone i m b ∷ es) f h = diskless_disk s es f h.1
  diskless_disk s (issued_checkpoint c i n b ∷ es) f h = diskless_disk s es f h.1

  disk_after-append :
      (s : State) (es fs : List (Effect F)) (f : Option State)
      → disk_after s (es ++ fs) f ≡ disk_after s fs (disk_after s es f)
  disk_after-append s [] fs f = refl
  disk_after-append s (sent_block b i ∷ es) fs f = disk_after-append s es fs f
  disk_after-append s (quorum_finished e ∷ es) fs f = disk_after-append s es fs f
  disk_after-append s (persisted_migrator b ∷ es) fs f = disk_after-append s es fs f
  disk_after-append s (moved_state_file ∷ es) fs f = disk_after-append s es fs none
  disk_after-append s (wrote_state_file ∷ es) fs f = disk_after-append s es fs (some s)
  disk_after-append s (issued_milestone i m b ∷ es) fs f = disk_after-append s es fs f
  disk_after-append s (issued_checkpoint c i n b ∷ es) fs f = disk_after-append s es fs f

  IsDiskless-prefix : (es fs : List (Effect F)) → All IsDiskless (es ++ fs) → All IsDiskless es
  IsDiskless-prefix [] fs h = tt
  IsDiskless-prefix (e ∷ es) fs h = (h.0, IsDiskless-prefix es fs h.1)

  none-prefix : (es fs : List (Effect F)) → milestones (es ++ fs) ≡ [] → milestones es ≡ []
  none-prefix es fs h = elim-nil (milestones es) (milestones fs) (sym (milestones-append es fs) ∙ h)
    where
      elim-nil : (ms ns : List (Milestone F)) → ms ++ ns ≡ [] → ms ≡ []
      elim-nil [] ns e = refl
      elim-nil (m ∷ ms) ns e = cc

  -- How far the call has come: nothing was sent and the file is the one before; there is no file;
  -- or the milestone was sent and the file has its state.
  pub data Progress (s : State) (m : Milestone F) (f : Option State) (done : List (Effect F))
      : Type 0 where
    early : milestones done ≡ [] → disk_after s done f ≡ f → Progress s m f done
    amid : disk_after s done f ≡ none → Progress s m f done
    late : milestones done ≡ m ∷ [] → disk_after s done f ≡ some s → Progress s m f done

  IsDiskless-suffixed :
      (a es : List (Effect F)) → es ≡ a ++ [] → All IsDiskless a → All IsDiskless es
  IsDiskless-suffixed a es h d = subst (All IsDiskless) (sym (h ∙ append-nil a)) d

-- The effects from the write of the state file on.
abbrev written : {F : Type 0} → ℕ → ℕ → ℕ → List (Effect F)
written i id b = wrote_state_file ∷ issued_milestone i id b ∷ []

module _ {F : Type 0} (fl : List (Effect F)) (block : Block F) (i id b : ℕ) where
  -- The effects from the sending on.
  abbrev sending : List (Effect F)
  sending = sent_block block (some i) ∷ (fl ++ written i id b)

  -- The effects of a call that succeeds, behind those before the move of the state file.
  abbrev pub call : List (Effect F) → List (Effect F)
  call a = a ++ (moved_state_file ∷ sending)

module _ {F : Type 0} (s : State) (m : Milestone F) (f : Option State) (a fl : List (Effect F))
    (block : Block F) (i id b : ℕ) where
  nothing_left :
      (d rest : List (Effect F)) → d ++ rest ≡ issued_milestone i id b ∷ [] → milestones rest ≡ []
  nothing_left [] rest e = ap milestones e
  nothing_left (x ∷ d) rest e = tail_left d rest cc
    where
      tail_left : (d rest : List (Effect F)) → d ++ rest ≡ [] → milestones rest ≡ []
      tail_left [] rest e = ap milestones e
      tail_left (x ∷ d) rest e = cc

  -- The effects behind the move, of which `done` has the part `c`.
  moved-Progress :
      (c done rest : List (Effect F))
      → All IsDiskless fl
      → milestones (done ++ rest) ≡ m ∷ []
      → disk_after s done f ≡ disk_after s c none
      → c ++ rest ≡ sending fl block i id b
      → Progress s m f done
  moved-Progress c done rest q only moved e =
      elim (prefix-cases (sent_block block (some i) ∷ fl) (written i id b) c rest e) [
        | inl (d, h) ↦ amid (
            moved
            ∙ diskless_disk s c none (IsDiskless-prefix c d (subst (All IsDiskless) h (tt, q))))
        | inr ([], h, k) ↦ amid (
            moved
            ∙ diskless_disk s c none
                (IsDiskless-suffixed (sent_block block (some i) ∷ fl) c h (tt, q)))
        | inr (y ∷ d, h, k) ↦
            let same : y ≡ wrote_state_file = cc in
            let tails : d ++ rest ≡ issued_milestone i id b ∷ [] = cc in
            late
              (sym (append-nil (milestones done))
                ∙ ap (λ ms. milestones done ++ ms) (sym (nothing_left d rest tails))
                ∙ sym (milestones-append done rest)
                ∙ only)
              (moved
                ∙ ap (λ x. disk_after s x none)
                    (h ∙ ap (λ x. (sent_block block (some i) ∷ fl) ++ (x ∷ d)) same)
                ∙ disk_after-append s (sent_block block (some i) ∷ fl) (wrote_state_file ∷ d) none
                ∙ diskless_disk s d (some s)
                    (IsDiskless-prefix d rest (subst (All IsDiskless) (sym tails) (tt, tt))))
      ]

  pub call-Progress :
      (done rest : List (Effect F))
      → All IsDiskless a
      → milestones a ≡ []
      → All IsDiskless fl
      → milestones (call fl block i id b a) ≡ m ∷ []
      → done ++ rest ≡ call fl block i id b a
      → Progress s m f done
  call-Progress done rest p none_before q only e =
      elim (prefix-cases a (moved_state_file ∷ sending fl block i id b) done rest e) [
        | inl (c, h) ↦
            early (none-prefix done c (ap milestones (sym h) ∙ none_before))
              (diskless_disk s done f (IsDiskless-prefix done c (subst (All IsDiskless) h p)))
        | inr ([], h, k) ↦
            early (ap milestones (h ∙ append-nil a) ∙ none_before)
              (diskless_disk s done f (IsDiskless-suffixed a done h p))
        | inr (x ∷ c, h, k) ↦
            let same : x ≡ moved_state_file = cc in
            let tails : c ++ rest ≡ sending fl block i id b = cc in
            moved-Progress c done rest q (ap milestones e ∙ only)
              (ap (λ y. disk_after s y f) (h ∙ ap (λ y. a ++ (y ∷ c)) same)
                ∙ disk_after-append s a (moved_state_file ∷ c) f)
              tails
      ]
