-- ===== src/Selection/Bits.antt =====
-- The bit sets of github.com/bits-and-blooms/bitset, as the selector uses them.
use inx_coordinator.Base.{
  ℕ, zero, suc, ◌≤◌, ◌≡◌, Bool, true, false, not, ◌&&◌, ◌||◌, ◌==◌, if◌then◌else◌,
}

-- How many numbers below `n` pass a test.
unfoldable pub tally : (ℕ → Bool) → ℕ → ℕ
tally p zero = 0
tally p (suc n) = if p n then suc (tally p n) else tally p n

-- `New`, `Set`, `InPlaceUnion`, `InPlaceDifference` and `Count` in terms of `Test`.
pub record Bitset : Type 1 where
  pub Bits : Type 0
  pub new : ℕ → Bits
  pub set : Bits → ℕ → Bits
  pub union : Bits → Bits → Bits
  pub difference : Bits → Bits → Bits
  pub count : Bits → ℕ
  pub test : Bits → ℕ → Bool
  pub test-new : (n i : ℕ) → test (new n) i ≡ false
  pub test-set : (b : Bits) (i j : ℕ) → test (set b i) j ≡ (if i == j then true else test b j)
  pub test-union : (a b : Bits) (i : ℕ) → test (union a b) i ≡ (test a i || test b i)
  pub test-difference :
      (a b : Bits) (i : ℕ) → test (difference a b) i ≡ (test a i && not (test b i))
  pub count-tally :
      (b : Bits) (n : ℕ) → ((i : ℕ) → n ≤ i → test b i ≡ false) → count b ≡ tally (test b) n
