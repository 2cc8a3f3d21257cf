-- ===== src/Tests/Bits.antt =====
-- A bit set with the laws that the selector relies on: a bound, and a test below it.
use inx_coordinator.Base.{
  ℕ, zero, suc, ◌+◌, ◌≤◌, ◌≡◌, refl, sym, Bool, true, false, not, ◌&&◌, ◌||◌, ◌==◌, ltb,
  if◌then◌else◌, arith,
}
use native.Mathlib.Decide.{dec_le}
use inx_coordinator.Selection.Bits.{Bitset, tally}

abbrev Words : Type 0
Words = ℕ × (ℕ → Bool)

abbrev has : Words → ℕ → Bool
has (m, p) i = ltb i m && p i

tally_more :
    (p : ℕ → Bool) (n k : ℕ) → n ≤ k → ((i : ℕ) → n ≤ i → p i ≡ false) → tally p k ≡ tally p n
unfolding tally
tally_more p zero zero le h = refl
tally_more p (suc n) zero le h = absurd (omega arith)
tally_more p n (suc k) le h = elim (dec_le n k) [
  | yes l ↦ rw (h k l) (tally_more p n k l h)
  | no g ↦ let e : n ≡ suc k = omega arith in rw (e) refl
]

has_bound : (b : Words) (i : ℕ) → b.0 ≤ i → has b i ≡ false
has_bound (m, p) i le = ground arith

pub count_tally :
    (b : Words) (n : ℕ) → ((i : ℕ) → n ≤ i → has b i ≡ false) → tally (has b) b.0 ≡ tally (has b) n
count_tally b n h = elim (dec_le n b.0) [
  | yes le ↦ tally_more (has b) n b.0 le h
  | no gt ↦ sym (tally_more (has b) b.0 n (omega arith) (has_bound b))
]

abbrev with_member : Words → ℕ → Words
with_member (m, p) i = (m + suc i, λ j. if i == j then true else has (m, p) j)

abbrev joined : Words → Words → Words
joined (m, p) (n, q) = (m + n, λ i. has (m, p) i || has (n, q) i)

abbrev without : Words → Words → Words
without (m, p) (n, q) = (m, λ i. p i && not (has (n, q) i))

pub has-none : (i : ℕ) → has (0, λ i. false) i ≡ false
has-none i = ground arith

pub has-with_member :
    (b : Words) (i j : ℕ) → has (with_member b i) j ≡ (if i == j then true else has b j)
has-with_member (m, p) i j = ground arith

pub has-joined : (a b : Words) (i : ℕ) → has (joined a b) i ≡ (has a i || has b i)
has-joined (m, p) (n, q) i = ground arith

pub has-without : (a b : Words) (i : ℕ) → has (without a b) i ≡ (has a i && not (has b i))
has-without (m, p) (n, q) i = ground arith

abbrev pub words : Bitset
words = record {
  Bits = Words;
  new = λ n. (0, λ i. false);
  set = with_member;
  union = joined;
  difference = without;
  count = λ b. tally (has b) b.0;
  test = has;
  test-new = λ n i. has-none i;
  test-set = has-with_member;
  test-union = has-joined;
  test-difference = has-without;
  count-tally = count_tally;
}
