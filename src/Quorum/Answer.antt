-- ===== src/Quorum/Answer.antt =====
-- pkg/coordinator/quorum.go: what `checkMerkleTreeHash` returns, and which groups never return.
use inx_coordinator.Base.{
  ℕ, suc, ◌≡◌, ◌≢◌, refl, ap, sym, ◌∙◌, subst, inl, inr, true, false, none, some, List, [], ◌∷◌,
  ◌++◌, Error, All, Among, Among-middle, Among-replace, All-Among, length, length-replace,
}
use inx_coordinator.Quorum.Group.{MilestoneMerkleRoots, sending, returned}
use inx_coordinator.Quorum.Race.{
  Member, Race, Receives, receives, HasReturned, Step, loop, hand_over, close, finish, Run, here,
  then, members_of, start,
}
use inx_coordinator.Quorum.Agreement.{
  Agrees, IsJustified, Fits, Sound, IsSilent, Inv, Step-Inv, still_open,
}

module _ (coo : MilestoneMerkleRoots) where
  start-Sound : (ks : List ℕ) → All (Sound coo) (members_of ks) × All IsSilent (members_of ks)
  start-Sound [] = (tt, tt)
  start-Sound (k ∷ ks) = let (s, r) = start-Sound ks in (((tt, refl, refl), s), (refl, r))

  start-Inv : (ks : List ℕ) → Inv coo (start ks)
  start-Inv ks = record {
    sound = (start-Sound ks).0;
    closed = λ d. cc;
    success = λ v. cc;
    silent = λ v. (start-Sound ks).1;
    failure = λ e v. cc;
  }

  Run-Inv : (x y : Race) → Run coo x y → Inv coo x → Inv coo y
  Run-Inv x y here i = i
  Run-Inv x y (then {y = z} r s) i = Step-Inv coo z y s (Run-Inv x z r i)

  -- A group that has returned without reporting has heard matching answers only, and at least one.
  abbrev pub HasAgreed : Member → Type 0
  HasAgreed m = (m.phase ≡ returned) × All (Agrees coo) m.seen × (m.seen ≢ [])

  agreed :
      (ms : List Member)
      → All (Sound coo) ms
      → All HasReturned ms
      → All IsSilent ms
      → All HasAgreed ms
  agreed [] s r q = tt
  agreed (m ∷ ms) s r q = (
    elim (subst (λ p. Fits coo p m.seen m.reported) r.0 s.0) [
      | inl t ↦ absurd (clash m t q.0)
      | inr (a, some_seen, _) ↦ (r.0, a, some_seen)
    ],
    agreed ms s.1 r.1 q.1,
  )
    where
      clash : (m : Member) → m.reported ≡ true → m.reported ≡ false → ⊥
      clash m a b = cc

  Step-length : (x y : Race) → Step coo x y → length y.members ≡ length x.members
  Step-length x y (loop before after m n e r q) =
      ap (λ (z : Race). length z.members) q ∙ length-replace before n m after ∙ ap length (sym e)
  Step-length x y (hand_over before after m er e p v q) =
      ap (λ (z : Race). length z.members) q ∙ length-replace before _ m after ∙ ap length (sym e)
  Step-length x y (close all q) = ap (λ (z : Race). length z.members) q
  Step-length x y (finish d v q) = ap (λ (z : Race). length z.members) q

  Run-length : (x y : Race) → Run coo x y → length y.members ≡ length x.members
  Run-length x y here = refl
  Run-length x y (then {y = z} r s) = Step-length z y s ∙ Run-length x z r

  members_of-length : (ks : List ℕ) → length (members_of ks) ≡ length ks
  members_of-length [] = refl
  members_of-length (k ∷ ks) = ap suc (members_of-length ks)

  -- If the call returns nil, in whatever order the groups and nodes go on, then every group has
  -- returned, has heard at least one answer, and has heard no answer that differs from the
  -- coordinator's roots.
  pub nil-HasAgreed :
      (ks : List ℕ) (x : Race)
      → Run coo (start ks) x
      → x.verdict ≡ some none
      → (length x.members ≡ length ks) × All HasAgreed x.members
  nil-HasAgreed ks x r v =
      let i = Run-Inv (start ks) x r (start-Inv ks) in
      (
        Run-length (start ks) x r ∙ members_of-length ks,
        agreed x.members i.sound (i.closed (i.success v)) (i.silent (inr v)),
      )

  -- If the call returns an error, it is the critical mismatch and some group heard an answer that
  -- differs, or it is the soft "no answer" and some group heard no answer.
  pub error-IsJustified :
      (ks : List ℕ) (x : Race) (e : Error)
      → Run coo (start ks) x
      → x.verdict ≡ some (some e)
      → (m : Member) × Among m x.members × IsJustified coo m.seen e
  error-IsJustified ks x e r v =
      let (m, a, _, j) = (Run-Inv (start ks) x r (start-Inv ks)).failure e v in (m, a, j)

  -- Nobody receives the error of a second group.
  abbrev Stuck : Error → Error → Member → Race → Type 0
  Stuck e e' m x =
      (x.verdict ≡ some (some e)) × (m.phase ≡ sending e') × Among m x.members × (x.done ≢ true)

  Step-Stuck :
      (e e' : Error) (m : Member) (x y : Race) → Step coo x y → Stuck e e' m x → Stuck e e' m y
  Step-Stuck e e' m x y (loop before after n n' q r same) (v, p, a, d) =
      subst (Stuck e e' m) (sym same) (
        v,
        p,
        elim (Among-replace before n n' m after (subst (Among m) q a)) [
          | inl k ↦ absurd (not_waiting n n' r k)
          | inr b ↦ b
        ],
        d,
      )
    where
      not_waiting : (n n' : Member) → Receives coo x.done n n' → m ≡ n → ⊥
      not_waiting n n' (receives k w ev h c z) same = cc
  Step-Stuck e e' m x y (hand_over before after n er q h none_yet same) (v, p, a, d) = cc
  Step-Stuck e e' m x y (close all same) (v, p, a, d) =
      let r : m.phase ≡ returned = All-Among HasReturned x.members m all a in cc
  Step-Stuck e e' m x y (finish h none_yet same) (v, p, a, d) = cc

  Run-Stuck :
      (e e' : Error) (m : Member) (x y : Race) → Run coo x y → Stuck e e' m x → Stuck e e' m y
  Run-Stuck e e' m x y here s = s
  Run-Stuck e e' m x y (then {y = z} r t) s = Step-Stuck e e' m z y t (Run-Stuck e e' m x z r s)

  -- Once the call has returned an error, a group that has an error of its own to send is blocked for
  -- ever: in every continuation it is still sending, and the channel that says that all groups are
  -- done is never closed, so no group ever sees that the quorum was aborted.
  pub second_error_blocks :
      (ks : List ℕ) (x y : Race) (before after : List Member) (m : Member) (e e' : Error)
      → Run coo (start ks) x
      → x.verdict ≡ some (some e)
      → x.members ≡ before ++ (m ∷ after)
      → m.phase ≡ sending e'
      → Run coo x y
      → Among m y.members × (y.done ≢ true)
  second_error_blocks ks x y before after m e e' r v q p s =
      let i = Run-Inv (start ks) x r (start-Inv ks) in
      let shut = still_open coo x before after m i q (λ h. cc) in
      let (v', p', a, d) =
        Run-Stuck e e' m x y s
          (v, p, subst (Among m) (sym q) (Among-middle before m after), shut) in
      (a, d)
