-- ===== src/Quorum/Verdict.antt =====
-- pkg/coordinator/quorum.go: what a group decides, as a function of what it heard.
use inx_coordinator.Base.{
  ℕ, zero, suc, ◌+◌, ◌<◌, ◌≡◌, refl, ap, ◌∙◌, Bool, false, ◌||◌, ◌&&◌, not, List, [], ◌∷◌,
  if◌then◌else◌, ◌≢◌, arith, critical, soft, quorum_merkle_tree_hash_mismatch,
  quorum_group_no_answer, ◌==◌, Bool-cases, inl, inr,
}
use inx_coordinator.Quorum.Group.{
  MilestoneMerkleRoots, Event, aborted, failed, answered, timed_out, Phase, waiting, sending,
  returned, differs, end_of_loop, next_round, group_loop,
}

-- The events of a group with `k` nodes that count: one for each node, up to a timeout.
abbrev pub heard : ℕ → List Event → List Event
heard zero es = []
heard (suc k) [] = []
heard (suc k) (timed_out ∷ es) = []
heard (suc k) (aborted ∷ es) = []
heard (suc k) (failed ∷ es) = failed ∷ heard k es
heard (suc k) (answered r ∷ es) = answered r ∷ heard k es

-- All nodes have been heard, or the time is over.
abbrev pub IsComplete : ℕ → List Event → Type 0
IsComplete zero es = Unit
IsComplete (suc k) [] = ⊥
IsComplete (suc k) (timed_out ∷ es) = Unit
IsComplete (suc k) (aborted ∷ es) = ⊥
IsComplete (suc k) (failed ∷ es) = IsComplete k es
IsComplete (suc k) (answered r ∷ es) = IsComplete k es

abbrev pub has_same_roots : MilestoneMerkleRoots → MilestoneMerkleRoots → Bool
has_same_roots a b =
    (a.inclusion_merkle_root == b.inclusion_merkle_root)
    && (a.applied_merkle_root == b.applied_merkle_root)

abbrev pub any_mismatch : MilestoneMerkleRoots → List Event → Bool
any_mismatch coo [] = false
any_mismatch coo (answered r ∷ es) = not (has_same_roots coo r) || any_mismatch coo es
any_mismatch coo (e ∷ es) = any_mismatch coo es

abbrev pub answers : List Event → ℕ
answers [] = 0
answers (answered r ∷ es) = suc (answers es)
answers (e ∷ es) = answers es

-- The decision on what was heard, with `valid` answers before it.
abbrev pub verdict : MilestoneMerkleRoots → ℕ → List Event → Phase
verdict coo valid hs =
    if any_mismatch coo hs
    then sending (critical quorum_merkle_tree_hash_mismatch)
    else if valid + answers hs == 0
    then sending (soft quorum_group_no_answer)
    else returned

roots_differ :
    (a b : MilestoneMerkleRoots) (d : Bool) → differs a b ≡ d → not (has_same_roots a b) ≡ d
roots_differ a b d e = ground arith

loop_of_sent :
    (coo : MilestoneMerkleRoots) (p : Phase) (es : List Event)
    → ((k v : ℕ) → p ≢ waiting k v)
    → group_loop coo p es ≡ p
unfolding group_loop
loop_of_sent coo p [] h = refl
loop_of_sent coo (waiting k v) (e ∷ es) h = absurd (h k v refl)
loop_of_sent coo (sending x) (e ∷ es) h = refl
loop_of_sent coo returned (e ∷ es) h = refl

end_not_waiting : (v k w : ℕ) → end_of_loop v ≢ waiting k w
unfolding end_of_loop
end_not_waiting v k w h = ground arith

ended :
    (coo : MilestoneMerkleRoots) (v : ℕ) (es : List Event)
    → group_loop coo (end_of_loop v) es
      ≡ (if v + 0 == 0 then sending (soft quorum_group_no_answer) else returned)
unfolding end_of_loop
ended coo v es =
    loop_of_sent coo (end_of_loop v) es (end_not_waiting v)
    ∙ ap (λ n. if n == 0 then sending (soft quorum_group_no_answer) else returned) (omega arith)

from_round :
    (coo : MilestoneMerkleRoots) (k v : ℕ) (es : List Event)
    → IsComplete k es
    → group_loop coo (next_round k v) es ≡ verdict coo v (heard k es)
unfolding group_loop
from_round coo zero v es h = ended coo v es
from_round coo (suc k) v [] h = absurd h
from_round coo (suc k) v (timed_out ∷ es) h = ended coo v es
from_round coo (suc k) v (aborted ∷ es) h = absurd h
from_round coo (suc k) v (failed ∷ es) h = from_round coo k v es h
from_round coo (suc k) v (answered r ∷ es) h = elim (Bool-cases (differs coo r)) [
  | inl e ↦ rw (e, roots_differ coo r _ e) (loop_of_sent coo _ es (λ a b q. cc))
  | inr e ↦
      let moved : suc v + answers (heard k es) ≡ v + suc (answers (heard k es)) = omega arith in
      rw (e, roots_differ coo r _ e, ← moved) (from_round coo k (suc v) es h)
]

-- A group with `k` nodes decides as follows, once all of them were heard or the time was over, and
-- if it was not aborted: it reports a mismatch, a critical error, exactly if one of the answers
-- heard differs from the coordinator's roots; else it reports that nobody answered, a soft error,
-- exactly if there was no answer; and else it returns with no error. Neither the order of the
-- answers nor the errors of single nodes play a part.
pub group_loop-verdict :
    (coo : MilestoneMerkleRoots) (k : ℕ) (es : List Event)
    → 0 < k
    → IsComplete k es
    → group_loop coo (waiting k 0) es ≡ verdict coo 0 (heard k es)
unfolding next_round
group_loop-verdict coo zero es h c = absurd (omega arith)
group_loop-verdict coo (suc k) es h c = from_round coo (suc k) 0 es c
