-- ===== src/Quorum/Agreement.antt =====
-- pkg/coordinator/quorum.go: what a returned call says about the groups.
use inx_coordinator.Base.{
  ℕ, zero, suc, ◌≡◌, ◌≢◌, refl, ap, sym, subst, ◌⊎◌, inl, inr, Bool, true, false, none, some, List,
  [], ◌∷◌, ◌++◌, Error, All, All-at, All-replace, Among, Among-middle, Among-replace, length, arith,
  critical, soft, quorum_merkle_tree_hash_mismatch, quorum_group_no_answer, Bool-cases, ◌==◌,
}
use inx_coordinator.Quorum.Group.{
  MilestoneMerkleRoots, Event, aborted, failed, answered, timed_out, Phase, waiting, sending,
  returned, differs, receive, end_of_loop, next_round,
}
use inx_coordinator.Quorum.Race.{
  Member, Race, note, Receives, receives, HasReturned, Step, loop, hand_over, close, finish,
}

-- A group that has not reported an error.
abbrev pub IsSilent : Member → Type 0
IsSilent m = m.reported ≡ false

module _ (coo : MilestoneMerkleRoots) where
  abbrev pub Agrees : MilestoneMerkleRoots → Type 0
  Agrees r = differs coo r ≡ false

  -- Why a group sends an error.
  pub data IsJustified (seen : List MilestoneMerkleRoots) : Error → Type 0 where
    mismatch :
        (r : MilestoneMerkleRoots)
        → Among r seen
        → differs coo r ≡ true
        → IsJustified seen (critical quorum_merkle_tree_hash_mismatch)
    no_answer : seen ≡ [] → IsJustified seen (soft quorum_group_no_answer)

  -- What a group's answers have to do with its phase.
  abbrev pub Fits : Phase → List MilestoneMerkleRoots → Bool → Type 0
  Fits (waiting k v) seen reported = All Agrees seen × (v ≡ length seen) × (reported ≡ false)
  Fits (sending e) seen reported = IsJustified seen e × (reported ≡ false)
  Fits returned seen reported =
      (reported ≡ true) ⊎ (All Agrees seen × (seen ≢ []) × (reported ≡ false))

  abbrev pub Sound : Member → Type 0
  Sound m = Fits m.phase m.seen m.reported

  Fits-end_of_loop :
      (v : ℕ) (seen : List MilestoneMerkleRoots)
      → All Agrees seen
      → v ≡ length seen
      → Fits (end_of_loop v) seen false
  unfolding end_of_loop
  Fits-end_of_loop zero [] a e = (no_answer refl, refl)
  Fits-end_of_loop zero (r ∷ seen) a e = absurd (omega arith)
  Fits-end_of_loop (suc v) [] a e = absurd (omega arith)
  Fits-end_of_loop (suc v) (r ∷ seen) a e =
      let z : (suc v == 0) ≡ false = ground arith in rw z (inr (a, (λ q. cc), refl))

  Fits-next_round :
      (k v : ℕ) (seen : List MilestoneMerkleRoots)
      → All Agrees seen
      → v ≡ length seen
      → Fits (next_round k v) seen false
  unfolding next_round
  Fits-next_round zero v seen a e = Fits-end_of_loop v seen a e
  Fits-next_round (suc k) v seen a e = (a, e, refl)

  Fits-receive :
      (k v : ℕ) (ev : Event) (seen : List MilestoneMerkleRoots)
      → ev ≢ aborted
      → All Agrees seen
      → v ≡ length seen
      → Fits (receive coo k v ev) (note ev seen) false
  unfolding receive
  Fits-receive k v aborted seen n a e = absurd (n refl)
  Fits-receive k v failed seen n a e = Fits-next_round k v seen a e
  Fits-receive k v timed_out seen n a e = Fits-end_of_loop v seen a e
  Fits-receive k v (answered r) seen n a e = elim (Bool-cases (differs coo r)) [
    | inl d ↦ rw d (mismatch r (inl refl) d, refl)
    | inr d ↦ rw d (Fits-next_round k (suc v) (r ∷ seen) (d, a) (ap suc e))
  ]

  pub record Inv (x : Race) : Type 0 where
    pub sound : All Sound x.members
    pub closed : x.done ≡ true → All HasReturned x.members
    pub success : x.verdict ≡ some none → x.done ≡ true
    pub silent :
        (x.verdict ≡ none) ⊎ (x.verdict ≡ some none)
        → All (λ (m : Member). m.reported ≡ false) x.members
    pub failure :
        (e : Error)
        → x.verdict ≡ some (some e)
        → (m : Member) × Among m x.members × (m.reported ≡ true) × IsJustified m.seen e

  waiting-Sound :
      (m : Member) (k v : ℕ)
      → m.phase ≡ waiting k v
      → Sound m
      → All Agrees m.seen × (v ≡ length m.seen) × (m.reported ≡ false)
  waiting-Sound m k v p h = subst (λ q. Fits q m.seen m.reported) p h

  sending-Sound :
      (m : Member) (e : Error)
      → m.phase ≡ sending e
      → Sound m
      → IsJustified m.seen e × (m.reported ≡ false)
  sending-Sound m e p h = subst (λ q. Fits q m.seen m.reported) p h

  received-Sound :
      (m : Member) (k v : ℕ) (ev : Event)
      → m.phase ≡ waiting (suc k) v
      → ev ≢ aborted
      → Sound m
      → Sound (record m { phase = receive coo k v ev; seen = note ev m.seen })
  received-Sound m k v ev p n h =
      let (a, l, r) = waiting-Sound m (suc k) v p h in
      subst (Fits (receive coo k v ev) (note ev m.seen)) (sym r) (Fits-receive k v ev m.seen n a l)

  -- While a group waits or sends, the channel is open.
  pub still_open :
      (x : Race) (before after : List Member) (m : Member)
      → Inv x
      → x.members ≡ before ++ (m ∷ after)
      → m.phase ≢ returned
      → x.done ≢ true
  still_open x before after m i e p d =
      p (All-at HasReturned before m after (subst (All HasReturned) e (i.closed d)))

  -- One member is replaced by another in a state that keeps its verdict.
  replaced-Inv :
      (x : Race) (before after : List Member) (m n : Member)
      → Inv x
      → x.members ≡ before ++ (m ∷ after)
      → m.phase ≢ returned
      → m.reported ≡ false
      → n.reported ≡ false
      → Sound n
      → Inv (record x { members = before ++ (n ∷ after) })
  replaced-Inv x before after m n i e p rm rn s =
      let shut = still_open x before after m i e p in
      record {
        sound = All-replace Sound before m n after s (subst (All Sound) e i.sound);
        closed = λ d. absurd (shut d);
        success = i.success;
        silent =
            λ v. All-replace IsSilent before m n after rn (subst (All IsSilent) e (i.silent v));
        failure = λ x' v.
            let (z, a, r, j) = i.failure x' v in
            (
              z,
              elim (Among-replace before m n z after (subst (Among z) e a)) [
                | inl q ↦ absurd (clash m z q rm r)
                | inr b ↦ b
              ],
              r,
              j,
            );
      }
    where
      clash : (m z : Member) → z ≡ m → m.reported ≡ false → z.reported ≡ true → ⊥
      clash m z q a b = cc

  loop-Inv :
      (x : Race) (before after : List Member) (m n : Member)
      → Inv x
      → x.members ≡ before ++ (m ∷ after)
      → Receives coo x.done m n
      → Inv (record x { members = before ++ (n ∷ after) })
  loop-Inv x before after m n i e (receives k v ev p open_needed same) =
      let busy : m.phase ≢ returned = λ q. cc in
      let h = All-at Sound before m after (subst (All Sound) e i.sound) in
      let r = (waiting-Sound m (suc k) v p h).2 in
      let n' : Member = record m { phase = receive coo k v ev; seen = note ev m.seen } in
      subst (λ z. Inv (record x { members = before ++ (z ∷ after) })) (sym same)
        (replaced-Inv x before after m n' i e busy r r
          (received-Sound m k v ev p (λ q. still_open x before after m i e busy (open_needed q)) h))

  hand_over-Inv :
      (x : Race) (before after : List Member) (m : Member) (er : Error)
      → Inv x
      → x.members ≡ before ++ (m ∷ after)
      → m.phase ≡ sending er
      → Inv (record x {
        members = before ++ (record m { phase = returned; reported = true } ∷ after);
        verdict = some (some er);
      })
  hand_over-Inv x before after m er i e p =
      let busy : m.phase ≢ returned = λ q. cc in
      let h = All-at Sound before m after (subst (All Sound) e i.sound) in
      let n : Member = record m { phase = returned; reported = true } in
      record {
        sound = All-replace Sound before m n after (inl refl) (subst (All Sound) e i.sound);
        closed = λ d. absurd (still_open x before after m i e busy d);
        success = λ v. cc;
        silent = λ v. elim v [ inl q ↦ cc | inr q ↦ cc ];
        failure = λ er' v. (
          n,
          Among-middle before n after,
          refl,
          subst (IsJustified m.seen) (ground arith) (sending-Sound m er p h).0,
        );
      }

  pub Step-Inv : (x y : Race) → Step coo x y → Inv x → Inv y
  Step-Inv x y (loop before after m n e r q) i =
      subst Inv (sym q) (loop-Inv x before after m n i e r)
  Step-Inv x y (hand_over before after m er e p v q) i =
      subst Inv (sym q) (hand_over-Inv x before after m er i e p)
  Step-Inv x y (close all q) i = subst Inv (sym q) (record {
    sound = i.sound;
    closed = λ d. all;
    success = λ v. refl;
    silent = i.silent;
    failure = i.failure;
  })
  Step-Inv x y (finish d v q) i = subst Inv (sym q) (record {
    sound = i.sound;
    closed = i.closed;
    success = λ w. d;
    silent = λ w. i.silent (inl v);
    failure = λ e w. cc;
  })
