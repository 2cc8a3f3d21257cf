-- ===== src/Node/Closes.antt =====
-- core/coordinator/component.go: `sendBlock` leaves no registration behind, and returns when the block
-- has arrived.
use inx_coordinator.Base.{
  ℕ, ◌+◌, ◌≤◌, Option, none, some, List, [], ◌∷◌, Error, Result, ok, err, ◌≡◌, ◌↔◌, refl, sym, ap,
  ◌∙◌, subst, inl, inr, Result-cases, Option-cases, arith, Bool, false, ◌==◌, if◌then◌else◌,
}
use inx_coordinator.Node.Send.{
  Registration, milestone_confirmed, block_solid, Call, register, deregister, arrived, Answers,
  wait, wait_confirmed, wait_for_block, submit, send_block,
}

abbrev pub is_same : Registration → Registration → Bool
is_same (milestone_confirmed i) (milestone_confirmed j) = i == j
is_same (block_solid i) (block_solid j) = i == j
is_same _ _ = false

abbrev one_if : Bool → ℕ
one_if b = if b then 1 else 0

-- How often the registration was made, and how often it was ended: by its event or by hand.
abbrev pub made : Registration → List Call → ℕ
made r [] = 0
made r (register q ∷ cs) = one_if (is_same r q) + made r cs
made r (deregister q ∷ cs) = made r cs
made r (arrived q ∷ cs) = made r cs

abbrev pub ended : Registration → List Call → ℕ
ended r [] = 0
ended r (register q ∷ cs) = ended r cs
ended r (deregister q ∷ cs) = one_if (is_same r q) + ended r cs
ended r (arrived q ∷ cs) = one_if (is_same r q) + ended r cs

module _ {B : Type 0} (node : Answers B) where
  -- The milestone, if it is one, was confirmed.
  abbrev pub IsConfirmed : Option ℕ → Type 0
  IsConfirmed none = Unit
  IsConfirmed (some i) = node.wait_for (milestone_confirmed i) ≡ none

  -- The node has taken the block under this ID, the block became solid, and the milestone, if it is
  -- one, was confirmed.
  pub record HasArrived (block : B) (index : Option ℕ) (id : ℕ) : Type 0 where
    pub submitted : node.submit_block block ≡ ok id
    pub solid : node.wait_for (block_solid id) ≡ none
    pub confirmed : IsConfirmed index

  -- No registration is left, and the ID is returned exactly if the block has arrived under it.
  abbrev pub Settles : B → Option ℕ → Result ℕ × List Call → Type 0
  Settles block index r =
      ((q : Registration) → made q r.1 ≤ ended q r.1)
      × ((id : ℕ) → (r.0 ≡ ok id) ↔ HasArrived block index id)

  refused :
      (block : B) (e : Error)
      → node.submit_block block ≡ err e
      → (index : Option ℕ) (d : Error) (id : ℕ) → (err d ≡ ok id) ↔ HasArrived block index id
  refused block e s index d id =
      ((λ h. cc), (λ h. let f : ok id ≡ err e = sym h.submitted ∙ s in cc))

  never_solid :
      (block : B) (id : ℕ) (e : Error)
      → node.submit_block block ≡ ok id
      → node.wait_for (block_solid id) ≡ some e
      → (index : Option ℕ) (d : Error) (k : ℕ) → (err d ≡ ok k) ↔ HasArrived block index k
  never_solid block id e s w index d k = (
    (λ h. cc),
    (λ h.
        let same : ◌≡◌ {A = Result ℕ} (ok id) (ok k) = sym s ∙ h.submitted in
        let t : id ≡ k = cc in
        let f : ◌≡◌ {A = Option Error} none (some e) =
          sym h.solid ∙ ap (λ j. node.wait_for (block_solid j)) (sym t) ∙ w in
        cc),
  )

  arrived_as :
      (block : B) (id : ℕ) (index : Option ℕ)
      → node.submit_block block ≡ ok id
      → node.wait_for (block_solid id) ≡ none
      → IsConfirmed index
      → (k : ℕ) → (ok id ≡ ok k) ↔ HasArrived block index k
  arrived_as block id index s w c k = (
    (λ h.
        let t : id ≡ k = cc in
        subst (HasArrived block index) t (record { submitted = s; solid = w; confirmed = c })),
    (λ h. sym s ∙ h.submitted),
  )

  -- The runs, with their calls.
  module _ (block : B) where
    unsubmitted :
        {e : Error} → node.submit_block block ≡ err e → send_block node block none [] ≡ (err e, [])
    unfolding send_block submit wait_for_block wait wait_confirmed
    unsubmitted s = simp (s, submit) refl

    unsolid :
        {id : ℕ} {e : Error}
        → node.submit_block block ≡ ok id
        → node.wait_for (block_solid id) ≡ some e
        → send_block node block none []
          ≡ (err e, register (block_solid id) ∷ deregister (block_solid id) ∷ [])
    unfolding send_block submit wait_for_block wait wait_confirmed
    unsolid s w = simp (s, w, submit, wait) refl

    sent :
        {id : ℕ}
        → node.submit_block block ≡ ok id
        → node.wait_for (block_solid id) ≡ none
        → send_block node block none []
          ≡ (ok id, register (block_solid id) ∷ arrived (block_solid id) ∷ [])
    unfolding send_block submit wait_for_block wait wait_confirmed
    sent s w = simp (s, w, submit, wait) refl

  module _ (block : B) (i : ℕ) where
    milestone_unsubmitted :
        {e : Error}
        → node.submit_block block ≡ err e
        → send_block node block (some i) []
          ≡ (err e, register (milestone_confirmed i) ∷ deregister (milestone_confirmed i) ∷ [])
    unfolding send_block submit wait_for_block wait wait_confirmed
    milestone_unsubmitted s = simp (s, submit) refl

    milestone_unsolid :
        {id : ℕ} {e : Error}
        → node.submit_block block ≡ ok id
        → node.wait_for (block_solid id) ≡ some e
        → send_block node block (some i) [] ≡ (
          err e,
          register (milestone_confirmed i)
              ∷ register (block_solid id)
              ∷ deregister (block_solid id)
              ∷ deregister (milestone_confirmed i)
              ∷ [],
        )
    unfolding send_block submit wait_for_block wait wait_confirmed
    milestone_unsolid s w = simp (s, w, submit, wait) refl

    unconfirmed :
        {id : ℕ} {e : Error}
        → node.submit_block block ≡ ok id
        → node.wait_for (block_solid id) ≡ none
        → node.wait_for (milestone_confirmed i) ≡ some e
        → send_block node block (some i) [] ≡ (
          err e,
          register (milestone_confirmed i)
              ∷ register (block_solid id)
              ∷ arrived (block_solid id)
              ∷ deregister (block_solid id)
              ∷ deregister (milestone_confirmed i)
              ∷ [],
        )
    unfolding send_block submit wait_for_block wait wait_confirmed
    unconfirmed s w c = simp (s, w, c, submit, wait) refl

    milestone_sent :
        {id : ℕ}
        → node.submit_block block ≡ ok id
        → node.wait_for (block_solid id) ≡ none
        → node.wait_for (milestone_confirmed i) ≡ none
        → send_block node block (some i) [] ≡ (
          ok id,
          register (milestone_confirmed i)
              ∷ register (block_solid id)
              ∷ arrived (block_solid id)
              ∷ arrived (milestone_confirmed i)
              ∷ [],
        )
    unfolding send_block submit wait_for_block wait wait_confirmed
    milestone_sent s w c = simp (s, w, c, submit, wait) refl

  block-Settles : (block : B) → Settles block none (send_block node block none [])
  block-Settles block = elim (Result-cases (node.submit_block block)) [
    | inr (e, s) ↦
        subst (Settles block none) (sym (unsubmitted block s))
          ((λ q. omega arith), refused block e s none e)
    | inl (id, s) ↦ elim (Option-cases (node.wait_for (block_solid id))) [
      | inr (e, w) ↦
          subst (Settles block none) (sym (unsolid block s w))
            ((λ q. omega arith), never_solid block id e s w none e)
      | inl w ↦
          subst (Settles block none) (sym (sent block s w))
            ((λ q. omega arith), arrived_as block id none s w tt)
    ]
  ]

  unconfirmed_as :
      (block : B) (i id : ℕ) (e : Error)
      → node.wait_for (milestone_confirmed i) ≡ some e
      → (k : ℕ) → (err e ≡ ok k) ↔ HasArrived block (some i) k
  unconfirmed_as block i id e c k =
      ((λ h. cc), (λ h. let f : ◌≡◌ {A = Option Error} none (some e) = sym h.confirmed ∙ c in cc))

  milestone-Settles :
      (block : B) (i : ℕ) → Settles block (some i) (send_block node block (some i) [])
  milestone-Settles block i = elim (Result-cases (node.submit_block block)) [
    | inr (e, s) ↦
        subst (Settles block (some i)) (sym (milestone_unsubmitted block i s))
          ((λ q. omega arith), refused block e s (some i) e)
    | inl (id, s) ↦ elim (Option-cases (node.wait_for (block_solid id))) [
      | inr (e, w) ↦
          subst (Settles block (some i)) (sym (milestone_unsolid block i s w))
            ((λ q. omega arith), never_solid block id e s w (some i) e)
      | inl w ↦ elim (Option-cases (node.wait_for (milestone_confirmed i))) [
        | inr (e, c) ↦
            subst (Settles block (some i)) (sym (unconfirmed block i s w c))
              ((λ q. omega arith), unconfirmed_as block i id e c)
        | inl c ↦
            subst (Settles block (some i)) (sym (milestone_sent block i s w c))
              ((λ q. omega arith), arrived_as block id (some i) s w c)
      ]
    ]
  ]

  -- Every registration that `sendBlock` makes has ended when it returns, at least as often as it
  -- was made: its event has arrived, or it was removed. It returns an ID exactly if the node has
  -- taken the block under this ID, the block became solid and the milestone, if it is one, was
  -- confirmed.
  pub send_block-Settles :
      (block : B) (index : Option ℕ) → Settles block index (send_block node block index [])
  send_block-Settles block none = block-Settles block
  send_block-Settles block (some i) = milestone-Settles block i
