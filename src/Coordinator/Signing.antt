-- ===== src/Coordinator/Signing.antt =====
-- pkg/coordinator/milestones.go: `createSigningFuncWithRetries`. The signer is a function of the number
-- of the attempt; an amount below 0 is 0 here.
use inx_coordinator.Base.{
  ℕ, zero, suc, ◌+◌, ◌≤◌, ◌<◌, Error, Result, ok, err, ◌==◌, if◌then◌else◌, ◌≡◌, refl, inl, inr, ap,
  sym, ◌∙◌, Bool-cases, Result-cases, arith, subst,
}

module _ {A : Type 0} (sign : ℕ → Result A) where
  -- The loop, with the rounds left, the number of the next attempt, and the result so far; it returns
  -- the attempts that were made, too.
  unfoldable pub retry_loop : ℕ → ℕ → Result A → Result A × ℕ
  retry_loop zero i last = (last, i)
  retry_loop (suc left) i last =
      let rest = retry_loop left (suc i) (sign i) in
      elim (sign i) [ ok x ↦ (ok x, suc i) | err e ↦ rest ]

  -- The function that is returned; before the first attempt there are no signatures and no error,
  -- which is never returned since the loop then has a round.
  unfoldable pub sign_with_retries : ℕ → Result A × ℕ
  unfolding retry_loop
  sign_with_retries zero = (sign 0, 1)
  sign_with_retries (suc n) = retry_loop (suc n) 0 (sign 0)

  -- All attempts in a range fail.
  abbrev pub AllFail : ℕ → ℕ → Type 0
  AllFail i n = (k : ℕ) → i ≤ k → k < n → (e : Error) × (sign k ≡ err e)

  -- The first attempt that succeeds ends the loop; else the last one does.
  pub data IsFirst (from upto : ℕ) (result : Result A) (attempts : ℕ) : Type 0 where
    first_success :
        (k : ℕ) (x : A)
        → from ≤ k
        → k < upto
        → AllFail from k
        → sign k ≡ ok x
        → result ≡ ok x
        → attempts ≡ suc k
        → IsFirst from upto result attempts
    all_failed :
        (k : ℕ) (e : Error)
        → suc k ≡ upto
        → AllFail from upto
        → sign k ≡ err e
        → result ≡ err e
        → attempts ≡ upto
        → IsFirst from upto result attempts

  extend : (i n : ℕ) (e : Error) → sign i ≡ err e → AllFail (suc i) n → AllFail i n
  extend i n e q f k a b = elim (Bool-cases (i == k)) [
    | inl same ↦ let s : i ≡ k = ground arith in (e, ap sign (sym s) ∙ q)
    | inr other ↦ f k (ground arith) b
  ]

  IsFirst-extend :
      (i n : ℕ) (e : Error) (r : Result A) (m : ℕ)
      → sign i ≡ err e
      → IsFirst (suc i) n r m
      → IsFirst i n r m
  IsFirst-extend i n e r m q (first_success k x a b f s t u) =
      first_success k x (omega arith) b (extend i k e q f) s t u
  IsFirst-extend i n e r m q (all_failed k d a f s t u) = all_failed k d a (extend i n e q f) s t u

  hit :
      (left i : ℕ) (last : Result A) (x : A)
      → sign i ≡ ok x
      → retry_loop (suc left) i last ≡ (ok x, suc i)
  unfolding retry_loop
  hit left i last x s = simp (s, retry_loop) refl

  miss :
      (left i : ℕ) (last : Result A) (e : Error)
      → sign i ≡ err e
      → retry_loop (suc left) i last ≡ retry_loop left (suc i) (err e)
  unfolding retry_loop
  miss left i last e s = simp (s, retry_loop) refl

  -- The rounds after a failed attempt.
  after_miss :
      (left i : ℕ) (e : Error)
      → sign i ≡ err e
      → IsFirst i
          (i + suc left)
          (retry_loop left (suc i) (err e)).0
          (retry_loop left (suc i) (err e)).1
  unfolding retry_loop
  after_miss zero i e s =
      all_failed i e (omega arith)
        (λ k a b. let same : i ≡ k = omega arith in (e, ap sign (sym same) ∙ s)) s refl
        (omega arith)
  after_miss (suc left) i e s =
      IsFirst-extend i (i + suc (suc left)) e _ _ s (elim (Result-cases (sign (suc i))) [
        | inl (x, t) ↦
            subst (λ r. IsFirst (suc i) (i + suc (suc left)) r.0 r.1)
              (sym (hit left (suc i) (err e) x t))
              (first_success (suc i) x (omega arith) (omega arith) (λ k a b. absurd (omega arith)) t
                refl refl)
        | inr (d, t) ↦
            let upto : suc i + suc left ≡ i + suc (suc left) = omega arith in
            subst
              (λ n.
                IsFirst (suc i) n (retry_loop (suc left) (suc i) (err e)).0
                  (retry_loop (suc left) (suc i) (err e)).1)
              upto
              (subst (λ r. IsFirst (suc i) (suc i + suc left) r.0 r.1)
                (sym (miss left (suc i) (err e) d t)) (after_miss left (suc i) d t))
      ])

  retry_loop_lem :
      (left i : ℕ) (last : Result A)
      → IsFirst i (i + suc left) (retry_loop (suc left) i last).0 (retry_loop (suc left) i last).1
  retry_loop_lem left i last = elim (Result-cases (sign i)) [
    | inl (x, s) ↦
        subst (λ r. IsFirst i (i + suc left) r.0 r.1) (sym (hit left i last x s))
          (first_success i x (omega arith) (omega arith) (λ k a b. absurd (omega arith)) s refl
            refl)
    | inr (e, s) ↦
        subst (λ r. IsFirst i (i + suc left) r.0 r.1) (sym (miss left i last e s))
          (after_miss left i e s)
  ]

  -- With retries the signing ends with the first attempt that succeeds, and fails only if all attempts
  -- fail, with the error of the last; an amount of 0 means one attempt.
  pub sign_with_retries-IsFirst :
      (amount : ℕ)
      → IsFirst 0
          (if amount == 0 then 1 else amount)
          (sign_with_retries amount).0
          (sign_with_retries amount).1
  unfolding sign_with_retries
  sign_with_retries-IsFirst zero = elim (Result-cases (sign 0)) [
    | inl (x, s) ↦
        first_success 0 x (omega arith) (omega arith) (λ k a b. absurd (omega arith)) s s refl
    | inr (e, s) ↦
        all_failed 0 e refl (λ k a b. let same : 0 ≡ k = omega arith in (e, ap sign (sym same) ∙ s))
          s s refl
  ]
  sign_with_retries-IsFirst (suc n) =
      let same : 0 + suc n ≡ (if suc n == 0 then 1 else suc n) = ground arith in
      subst (λ m. IsFirst 0 m (retry_loop (suc n) 0 (sign 0)).0 (retry_loop (suc n) 0 (sign 0)).1)
        same (retry_loop_lem n 0 (sign 0))
