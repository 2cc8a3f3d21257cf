-- ===== src/Signing/Signed.antt =====
-- pkg/coordinator/milestones.go: the signing and the check of the signatures in `createMilestone`, with
-- the keys of a signing provider. iota.go's `Sign` and `VerifySignatures` are parameters.
use inx_coordinator.Base.{
  ℕ, ◌≤◌, ◌<◌, Bool, true, List, Error, Result, ok, err, All, Among, length, map, ◌≡◌, sym, ◌∙◌,
  ◌>>=◌,
}
use inx_coordinator.Coordinator.Types.{Milestone, Env}
use inx_coordinator.Coordinator.Signing.{
  sign_with_retries, sign_with_retries-IsFirst, first_success, all_failed,
}
use inx_coordinator.Signing.Provider.{
  Signature, Distinct, KeyManager, Signers, MilestoneIndexSigner, MilestoneSignerProvider,
  milestone_index_signer, public_keys_count,
}

abbrev pub signer_of : Signature → ℕ
signer_of t = t.public_key

-- iota.go's `Milestone.Sign` and `Milestone.VerifySignatures` for milestones with funds `F`. Signing
-- stores the sorted signatures of the signing function, between 1 and 255; the check wants at least
-- as many as the threshold, from distinct valid keys, each of the milestone's essence.
pub record Sealing (F : Type 0) (is_signed : ℕ → Signature → Bool) : Type 1 where
  pub essence : Milestone F → Result ℕ
  pub sort_signatures : List Signature → List Signature
  pub sign : Milestone F → List ℕ → (List ℕ → ℕ → Result (List Signature)) → Result (List Signature)
  pub verify_signatures : ℕ → List ℕ → Milestone F → List Signature → Result (Unit {0})
  pub sort_length : (s : List Signature) → length (sort_signatures s) ≡ length s
  pub sort_all : (P : Signature → Type 0) (s : List Signature) → All P s → All P (sort_signatures s)
  pub sort_distinct :
      (s : List Signature)
      → Distinct (map signer_of s)
      → Distinct (map signer_of (sort_signatures s))
  pub sign_ok :
      (m : Milestone F) (keys : List ℕ) (f : List ℕ → ℕ → Result (List Signature)) (x : ℕ)
      (s : List Signature)
      → essence m ≡ ok x
      → f keys x ≡ ok s
      → 1 ≤ length s
      → length s ≤ 255
      → sign m keys f ≡ ok (sort_signatures s)
  pub sign_inv :
      (m : Milestone F) (keys : List ℕ) (f : List ℕ → ℕ → Result (List Signature))
      (t : List Signature)
      → sign m keys f ≡ ok t
      → (x : ℕ) × (s : List Signature) × (f keys x ≡ ok s) × (t ≡ sort_signatures s)
  pub verify_ok :
      (threshold : ℕ) (keys : List ℕ) (m : Milestone F) (x : ℕ) (s : List Signature)
      → 1 ≤ threshold
      → threshold ≤ length s
      → Distinct (map signer_of s)
      → All (λ t. Among (signer_of t) keys) s
      → essence m ≡ ok x
      → All (λ t. is_signed x t ≡ true) s
      → verify_signatures threshold keys m s ≡ ok tt
  pub verify_few :
      (threshold : ℕ) (keys : List ℕ) (m : Milestone F) (s : List Signature)
      → length s < threshold
      → (e : Error) × (verify_signatures threshold keys m s ≡ err e)

module _ {F : Type 0} {manager : KeyManager} (signers : Signers manager)
    (sealing : Sealing F signers.is_signed) (amount : ℕ) where
  -- `createSigningFuncWithRetries` of the signing function.
  abbrev pub with_retries : MilestoneIndexSigner → List ℕ → ℕ → Result (List Signature)
  with_retries s keys x = (sign_with_retries (λ attempt. s.signing_func attempt keys x) amount).0

  -- `msPayload.Sign(pubKeys, …)`
  unfoldable pub signed : MilestoneSignerProvider → Milestone F → Result (List Signature)
  unfolding milestone_index_signer
  signed p m =
      let s = milestone_index_signer signers.in_memory p m.index in
      sealing.sign m s.public_keys (with_retries s)

  -- `msPayload.VerifySignatures(…)`, on the milestone that was signed.
  unfoldable pub verified : MilestoneSignerProvider → Milestone F → Result (Unit {0})
  unfolding signed milestone_index_signer
  verified p m =
      let s = milestone_index_signer signers.in_memory p m.index in
      signed p m >>= sealing.verify_signatures (public_keys_count p) s.public_keys_set m

  -- The environment in which milestones are signed with the provider.
  abbrev pub with_provider : MilestoneSignerProvider → Env F → Env F
  with_provider p env = record env {
    sign = λ m. signed p m >>= (λ _. ok tt);
    verify_signatures = verified p;
  }

  pub retry_inv :
      {A : Type 0} (f : ℕ → Result A) (x : A)
      → (sign_with_retries f amount).0 ≡ ok x
      → (k : ℕ) × (f k ≡ ok x)
  retry_inv f x h = elim (sign_with_retries-IsFirst f amount) [
    | first_success k y a b fails q r n ↦ let same : ok y ≡ ok x = sym r ∙ h in (k, q ∙ same)
    | all_failed k e q fails r s n ↦ let g : err e ≡ ok x = sym s ∙ h in cc
  ]

  pub retry_const :
      {A : Type 0} (f : ℕ → Result A) (x : A)
      → ((k : ℕ) → f k ≡ ok x)
      → (sign_with_retries f amount).0 ≡ ok x
  retry_const f x h = elim (sign_with_retries-IsFirst f amount) [
    | first_success k y a b fails q r n ↦ r ∙ sym q ∙ h k
    | all_failed k e q fails r s n ↦ let g : err e ≡ ok x = sym r ∙ h k in cc
  ]
