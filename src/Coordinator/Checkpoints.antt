-- ===== src/Coordinator/Checkpoints.antt =====
-- pkg/coordinator/coordinator.go: the blocks of `IssueCheckpoint`.
use inx_coordinator.Base.{
  ℕ, zero, suc, ◌+◌, ◌*◌, ◌≤◌, none, List, [], ◌∷◌, ◌++◌, length, take, drop, Error, ok,
  no_tips_given, ◌≡◌, refl, sym, subst, ap, ◌∙◌, ◌⊎◌, inl, inr, Result-cases, take-append-drop,
  drop_all, drop-drop, length-take, arith, All,
}
use inx_coordinator.Coordinator.Types.{Block, World, Effect, Env, sent_block, issued_checkpoint}
use inx_coordinator.Coordinator.Hoare.{Ends, succeeds, fails, Ends->>=, Ends-map, Ends-ok}
use inx_coordinator.Coordinator.Build.{create_checkpoint}
use inx_coordinator.Coordinator.Milestone.{send}
use inx_coordinator.Coordinator.Operations.{
  soft_wrap, check_node, checkpoints_number, issue_one, issue_rounds, issue_checkpoint,
}
use inx_coordinator.Coordinator.Emits.{
  IsSoft, is_soft, Emits, Emits-none, Emits-append, Emits-trans, HasFewParents, IsOfCheckpoint,
  AddsBlocks, AddsBlocks-none, AddsBlocks-trans, create_checkpoint-eq-ok,
}
use inx_coordinator.Coordinator.Safety.{NotReady, not_synced, too_busy, check_node-Ends}

module _ {F : Type 0} (env : Env F) where
  abbrev pub parents_of : ℕ → List ℕ → List ℕ
  parents_of last tips = env.remove_dups_and_sort (last ∷ tips)

  -- Chained checkpoints from round `i` on, by their number: each block has the block before it and
  -- up to seven tips as its parents. The indices are the first parent, the tips that are used, the
  -- effects, and the last block.
  pub data Chain (index number : ℕ) : ℕ → ℕ → ℕ → List ℕ → List (Effect F) → ℕ → Type 0 where
    end : {i last : ℕ} → Chain index number i 0 last [] [] last
    link :
        {i left last end_id : ℕ} {tips : List ℕ} {es : List (Effect F)} (used : List ℕ)
        (block : Block F) (id : ℕ)
        → length used ≤ 7
        → create_checkpoint env (parents_of last used) ≡ ok block
        → env.send_block block none ≡ ok id
        → Chain index number (suc i) left id tips es end_id
        → Chain index number i
            (suc left)
            last
            (used ++ tips)
            (sent_block block none ∷ issued_checkpoint index i number id ∷ es)
            end_id

  no_payload :
      (parents : List ℕ) (block : Block F)
      → create_checkpoint env parents ≡ ok block
      → block.payload ≡ none
  no_payload parents block c = ap (λ b. b.payload) (create_checkpoint-eq-ok env parents block c)

  NotReady-IsSoft : {e : Error} → NotReady env e → IsSoft e
  NotReady-IsSoft (not_synced h) = is_soft
  NotReady-IsSoft (too_busy h k) = is_soft

  issue_one-Ends :
      (index number i last : ℕ) (tips : List ℕ) (w : World F)
      → Ends
          (issue_one env index number i last tips w)
          (λ id v.
            ((block : Block F) × (create_checkpoint env
                  (parents_of last (take 7 (drop (i * 7) tips)))
                ≡ ok block)
              × (env.send_block block none ≡ ok id)
              × Emits w v (sent_block block none ∷ issued_checkpoint index i number id ∷ [])))
          (λ e v. IsSoft e × AddsBlocks w v)
  unfolding issue_one send
  issue_one-Ends index number i last tips w =
      elim (Result-cases (create_checkpoint env (parents_of last (take 7 (drop (i * 7) tips))))) [
        | inr (e, x) ↦ fails (soft_wrap e) w (simp (x, issue_one) refl) (is_soft, AddsBlocks-none w)
        | inl (block, x) ↦ elim (Result-cases (env.send_block block none)) [
          | inr (e, y) ↦
              fails (soft_wrap e) (record w { effects = w.effects ++ (sent_block block none ∷ []) })
                (simp (x, y, issue_one, send) refl)
                (is_soft, (sent_block block none ∷ [], refl, ((no_payload _ block x, refl), tt)))
          | inl (id, y) ↦
              succeeds id
                (record w {
                  effects =
                      (w.effects ++ (sent_block block none ∷ []))
                      ++ (issued_checkpoint index i number id ∷ []);
                })
                (simp (x, y, issue_one, send) refl) (block, x, y, Emits-append w _ _)
        ]
      ]

  abbrev Rounds : ℕ → ℕ → ℕ → ℕ → ℕ → List ℕ → World F → ℕ → World F → Type 0
  Rounds index number i left last tips w id v =
      (es : List (Effect F)) × Chain index number i left last tips es id × Emits w v es

  abbrev Stops : World F → Error → World F → Type 0
  Stops w e v = IsSoft e × AddsBlocks w v

  next_tips :
      (i : ℕ) (tips : List ℕ)
      → take 7 (drop (i * 7) tips) ++ drop (suc i * 7) tips ≡ drop (i * 7) tips
  next_tips i tips =
      let e : i * 7 + 7 ≡ suc i * 7 = omega arith in
      ap (λ ts. take 7 (drop (i * 7) tips) ++ ts)
        (sym (ap (λ k. drop k tips) e) ∙ sym (drop-drop 7 (i * 7) tips))
      ∙ take-append-drop 7 (drop (i * 7) tips)

  issue_rounds-Ends :
      (index number left i last : ℕ) (tips : List ℕ) (w : World F)
      → length tips ≤ (i + left) * 7
      → Ends
          (issue_rounds env index number left i last tips w)
          (Rounds index number i left last (drop (i * 7) tips) w)
          (Stops w)
  unfolding issue_rounds
  issue_rounds-Ends index number zero i last tips w h = succeeds last w refl (
    [],
    subst (λ ts. Chain index number i 0 last ts [] last) (sym (drop_all (i * 7) tips (omega arith)))
        end,
    Emits-none w,
  )
  issue_rounds-Ends index number (suc left) i last tips w h =
      Ends->>= (issue_one env index number i last tips)
        (λ id. issue_rounds env index number left (suc i) id tips) w
        (issue_one-Ends index number i last tips w) (λ e v s. s)
        (λ id v (block, c, s, m).
          Ends-map (issue_rounds-Ends index number left (suc i) id tips v (omega arith))
            (λ end_id u (es, chain, n). (
              sent_block block none ∷ issued_checkpoint index i number id ∷ es,
              subst
                  (λ ts.
                    Chain index number i (suc left) last ts
                      (sent_block block none ∷ issued_checkpoint index i number id ∷ es) end_id)
                  (next_tips i tips)
                  (link (take 7 (drop (i * 7) tips)) block id
                    (omega (arith, length-take 7 (drop (i * 7) tips))) c s chain),
              Emits-trans w v u _ es m n,
            ))
            (λ e u (s, t).
              (s, AddsBlocks-trans w v u (_, m, ((no_payload _ block c, refl), (tt, tt))) t)))

  -- `IssueCheckpoint` uses all tips: the blocks are a chain from the last checkpoint, one for each
  -- started seven tips, and together they have exactly the tips as parents. Every error is soft or
  -- the error for no tips, and until it only blocks without a payload are sent, and nothing else has
  -- changed.
  pub issue_checkpoint-Ends :
      (index last : ℕ) (tips : List ℕ) (w : World F)
      → Ends
          (issue_checkpoint env index last tips w)
          (λ id v.
            (es : List (Effect F)) × Chain index
              (checkpoints_number (length tips))
              0
              (checkpoints_number (length tips))
              last
              tips
              es
              id
            × Emits w v es)
          (λ e v. (IsSoft e ⊎ (e ≡ no_tips_given)) × AddsBlocks w v)
  unfolding issue_checkpoint
  issue_checkpoint-Ends index last [] w = fails no_tips_given w refl (inr refl, AddsBlocks-none w)
  issue_checkpoint-Ends index last (t ∷ ts) w =
      Ends->>= (check_node env)
        (λ _.
          issue_rounds env index (checkpoints_number (length (t ∷ ts)))
            (checkpoints_number (length (t ∷ ts))) 0 last (t ∷ ts))
        w (check_node-Ends env w)
        (λ e v (h, q). (inl (NotReady-IsSoft h), ([], q ∙ Emits-none w, tt)))
        (λ _ v (y, b, q).
          Ends-map
            (issue_rounds-Ends index (checkpoints_number (length (t ∷ ts)))
              (checkpoints_number (length (t ∷ ts))) 0 last (t ∷ ts) v (omega arith))
            (λ id u (es, c, m). (es, c, subst (λ y. Emits y u es) q m))
            (λ e u (s, (es, m, a)). (inl s, (es, subst (λ y. Emits y u es) q m, a))))

  -- A chain has only effects of checkpoints.
  pub Chain-IsOfCheckpoint :
      {index number i left last : ℕ} {tips : List ℕ} {es : List (Effect F)} {id : ℕ}
      → Chain index number i left last tips es id
      → All IsOfCheckpoint es
  Chain-IsOfCheckpoint end = tt
  Chain-IsOfCheckpoint (link used block id l c s chain) =
      ((no_payload _ block c, refl), (tt, Chain-IsOfCheckpoint chain))

  Chain-parents :
      ((ts : List ℕ) → length (env.remove_dups_and_sort ts) ≤ length ts)
      → {index number i left last : ℕ} {tips : List ℕ} {es : List (Effect F)} {id : ℕ}
      → Chain index number i left last tips es id
      → All HasFewParents es
  Chain-parents h end = tt
  Chain-parents h (link {last = last} used block id l c s chain) = (
    rw (create_checkpoint-eq-ok env _ block c) (omega (arith, h (last ∷ used), l)),
    (tt, Chain-parents h chain),
  )

  -- If iotago's removal of duplicates makes no list longer, every block that a successful
  -- `IssueCheckpoint` sends has at most eight parents.
  pub issue_checkpoint-parents :
      ((ts : List ℕ) → length (env.remove_dups_and_sort ts) ≤ length ts)
      → (index last id : ℕ) (tips : List ℕ) (w v : World F)
      → issue_checkpoint env index last tips w ≡ (ok id, v)
      → (es : List (Effect F)) × (v.effects ≡ w.effects ++ es) × All HasFewParents es
  issue_checkpoint-parents h index last id tips w v q =
      let (es, c, m) = Ends-ok (issue_checkpoint-Ends index last tips w) q in
      (es, ap (λ y. y.effects) m, Chain-parents h c)
