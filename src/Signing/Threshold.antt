-- ===== src/Signing/Threshold.antt =====
-- pkg/coordinator/milestones.go, signing_provider.go: when a milestone is signed by local keys.
use inx_coordinator.Base.{
  ℕ, suc, ◌≤◌, ◌<◌, true, some, List, [], ◌∷◌, Error, ok, err, All, Among, length, map, ◌≡◌, ◌↔◌,
  refl, sym, ap, ◌∙◌, subst, inl, inr, Result-cases, arith, leb, Bool-cases, All-map,
}
use inx_coordinator.Coordinator.Types.{Milestone, Block, Env}
use inx_coordinator.Coordinator.Build.{block_of, create_milestone}
use inx_coordinator.Signing.Keys.{PrivateKey}
use inx_coordinator.Signing.Provider.{
  Signature, Distinct, Mapping, key_of, KeyManager, Signers, MilestoneIndexSigner,
  MilestoneSignerProvider, local, new_in_memory, milestone_index_signer,
}
use inx_coordinator.Signing.Signed.{
  Sealing, signer_of, with_retries, signed, verified, with_provider, retry_inv, retry_const,
}

length-map : {A B : Type 0} (f : A → B) (xs : List A) → length (map f xs) ≡ length xs
length-map f [] = refl
length-map f (x ∷ xs) = ap suc (length-map f xs)

All-of_map :
    {A B : Type 0} (f : A → B) (P : B → Type 0) (xs : List A)
    → All P (map f xs)
    → All (λ x. P (f x)) xs
All-of_map f P [] h = tt
All-of_map f P (x ∷ xs) h = (h.0, All-of_map f P xs h.1)

All-to_map :
    {A B : Type 0} (f : A → B) (P : B → Type 0) (xs : List A)
    → All (λ x. P (f x)) xs
    → All P (map f xs)
All-to_map f P [] h = tt
All-to_map f P (x ∷ xs) h = (h.0, All-to_map f P xs h.1)

-- Every element is among the elements.
All-self : {A : Type 0} (xs : List A) → All (λ x. Among x xs) xs
All-self [] = tt
All-self (x ∷ xs) = (inl refl, All-map _ _ xs (λ y h. inr h) (All-self xs))

module _ {F : Type 0} {manager : KeyManager} (signers : Signers manager)
    (sealing : Sealing F signers.is_signed) (amount : ℕ) (keys : List PrivateKey) (count : ℕ)
    (m : Milestone F) where
  abbrev pub provider : MilestoneSignerProvider
  provider = local (new_in_memory keys manager count)

  -- The keys that the key manager finds for the milestone's index.
  abbrev pub found : Mapping
  found = manager.public_key_mapping m.index keys count

  abbrev names : List ℕ
  names = map key_of found

  abbrev index_signer : MilestoneIndexSigner
  index_signer = milestone_index_signer signers.in_memory provider m.index

  length-names : length names ≡ length found
  length-names = length-map key_of found

  -- What the signatures of the signing function are.
  keys_of :
      (x : ℕ) (s : List Signature)
      → signers.in_memory found names x ≡ ok s
      → (map signer_of s ≡ names) × (length s ≡ length found)
  keys_of x s h =
      let e = signers.in_memory_keys found names x s h in
      (e, sym (length-map signer_of s) ∙ ap length e ∙ length-names)

  signed_ok :
      (x : ℕ) (s : List Signature)
      → sealing.essence m ≡ ok x
      → signers.in_memory found names x ≡ ok s
      → 1 ≤ length found
      → length found ≤ 255
      → signed signers sealing amount provider m ≡ ok (sealing.sort_signatures s)
  unfolding signed milestone_index_signer
  signed_ok x s e h a b =
      let n = (keys_of x s h).1 in
      sealing.sign_ok m names (with_retries signers sealing amount index_signer) x s e
        (retry_const signers sealing amount (λ k. signers.in_memory found names x) s (λ k. h))
        (omega (arith, n)) (omega (arith, n))

  -- With enough keys the signatures pass the check.
  verified_ok :
      (x : ℕ) (s : List Signature)
      → sealing.essence m ≡ ok x
      → signers.in_memory found names x ≡ ok s
      → 1 ≤ count
      → count ≤ length found
      → sealing.verify_signatures count
          (manager.public_keys_set m.index)
          m
          (sealing.sort_signatures s)
        ≡ ok tt
  verified_ok x s e h a b =
      let (names_eq, n) = keys_of x s h in
      let valid = manager.mapping_valid m.index keys count in
      sealing.verify_ok count (manager.public_keys_set m.index) m x (sealing.sort_signatures s) a
        (omega (arith, n, sealing.sort_length s))
        (sealing.sort_distinct s
          (subst Distinct (sym names_eq) (manager.mapping_distinct m.index keys count)))
        (sealing.sort_all (λ t. Among (signer_of t) (manager.public_keys_set m.index)) s
          (All-of_map signer_of (λ k. Among k (manager.public_keys_set m.index)) s
            (subst (All (λ k. Among k (manager.public_keys_set m.index))) (sym names_eq)
              (All-to_map key_of (λ k. Among k (manager.public_keys_set m.index)) found valid))))
        e
        (sealing.sort_all (λ t. signers.is_signed x t ≡ true) s
          (signers.in_memory_signed found names x s (manager.mapping_owned m.index keys count) h))

  -- With too few keys the signing or the check fails.
  verified_few :
      length found < count → (e : Error) × (verified signers sealing amount provider m ≡ err e)
  unfolding verified signed milestone_index_signer
  verified_few few = elim (Result-cases (signed signers sealing amount provider m)) [
    | inr (e, q) ↦ (e, rw (q) refl)
    | inl (t, q) ↦
        let (x, s, h, same) =
          sealing.sign_inv m names (with_retries signers sealing amount index_signer) t q in
        let (k, g) = retry_inv signers sealing amount (λ k. signers.in_memory found names x) s h in
        let n = (keys_of x s g).1 in
        let small : length t < count = omega (arith, n, sealing.sort_length s, ap length same) in
        let (e, v) = sealing.verify_few count (manager.public_keys_set m.index) m t small in
        (e, rw (q) v)
  ]

  module _ (env : Env F) where
    abbrev pub signing_env : Env F
    signing_env = with_provider signers sealing amount provider env

    abbrev pub whole : Block F
    whole = block_of env m.parents (some m)

    created_ok :
        (x : ℕ)
        → sealing.essence m ≡ ok x
        → 1 ≤ count
        → count ≤ 255
        → env.build whole ≡ ok tt
        → env.serialize whole ≡ ok tt
        → count ≤ length found
        → create_milestone signing_env m ≡ ok whole
    unfolding create_milestone verified
    created_ok x e a b built serialized enough =
        let (s, h) = signers.in_memory_total found names x (All-self names) in
        let at_most = manager.mapping_bounded m.index keys count a in
        let q = signed_ok x s e h (omega arith) (omega arith) in
        simp (built, q, verified_ok x s e h a enough, serialized) refl

    created_few : (b : Block F) → create_milestone signing_env m ≡ ok b → count ≤ length found
    unfolding create_milestone
    created_few b h = elim (Bool-cases (leb count (length found))) [
      | inl l ↦ ground arith
      | inr l ↦
          let (e, v) = verified_few (ground arith) in
          elim (Result-cases (env.build whole)) [
            | inr (d, c) ↦ let f : err d ≡ ok b = (rw (c) at h) in cc
            | inl (u, c) ↦ elim (Result-cases (signed signers sealing amount provider m)) [
              | inr (d, g) ↦ let f : err d ≡ ok b = (rw (c, g) at h) in cc
              | inl (t, g) ↦ let f : err e ≡ ok b = (rw (c, g, v) at h) in cc
            ]
          ]
    ]

    -- With local keys, where the block is built and is valid for iota.go, and between 1 and 255
    -- signatures are wanted, `createMilestone` returns the signed block exactly if the key manager
    -- finds as many of the keys valid at the milestone's index as signatures are wanted.
    pub create_milestone-threshold :
        (x : ℕ)
        → sealing.essence m ≡ ok x
        → 1 ≤ count
        → count ≤ 255
        → env.build whole ≡ ok tt
        → env.serialize whole ≡ ok tt
        → (create_milestone signing_env m ≡ ok whole) ↔ (count ≤ length found)
    create_milestone-threshold x e a b built serialized =
        (created_few whole, created_ok x e a b built serialized)
