-- ===== src/Sorting/Kept.antt =====
-- The sort of a3/bubble_sort_dynamic.c keeps the values.
use cs213_assignments.Common.{
  ℕ, zero, suc, ◌+◌, ◌-◌, ◌≤◌, ◌<◌, ◌≡◌, ◌∙◌, refl, Bool, arith, if◌then◌else◌, update,
}
use cs213_assignments.Common.Int.{ℤ}
use cs213_assignments.Sorting.Passes.{exchanged, passed, sorted_from, sorted}

module _ (test : ℤ → Bool) where
  unfoldable pub weight : ℤ → ℕ
  weight v = if test v then 1 else 0

  -- How many of the first `n` values passed the test.
  unfoldable pub count : ℕ → (ℕ → ℤ) → ℕ
  count zero val = 0
  count (suc n) val = weight (val n) + count n val

  count-outside : (n i : ℕ) (val : ℕ → ℤ) (v : ℤ) → n ≤ i → count n (update val i v) ≡ count n val
  unfolding count
  count-outside zero i val v h = refl
  count-outside (suc n) i val v h = ground (arith, count-outside n i val v)

  count-update :
      (n i : ℕ) (val : ℕ → ℤ) (v : ℤ)
      → i < n
      → count n (update val i v) + weight (val i) ≡ count n val + weight v
  unfolding count
  count-update zero i val v h = absurd (omega arith)
  count-update (suc n) i val v h = ground (arith, count-update n i val v, count-outside n i val v)

  count-exchanged :
      (n i j : ℕ) (val : ℕ → ℤ) → j < i → i < n → count n (exchanged i j val) ≡ count n val
  unfolding exchanged
  count-exchanged n i j val h inside =
      ground (arith, count-update n i val (val j), count-update n j (update val i (val j)) (val i))

  count-passed : (n i j : ℕ) (val : ℕ → ℤ) → j ≤ i → i < n → count n (passed i j val) ≡ count n val
  unfolding passed
  count-passed n i zero val h inside = refl
  count-passed n i (suc j) val h inside =
      count-passed n i j (exchanged i j val) (omega arith) inside
      ∙ count-exchanged n i j val (omega arith) inside

  count-sorted_from : (n i : ℕ) (val : ℕ → ℤ) → i < n → count n (sorted_from i val) ≡ count n val
  unfolding sorted_from
  count-sorted_from n zero val inside = refl
  count-sorted_from n (suc i) val inside =
      count-sorted_from n i (passed (suc i) (suc i) val) (omega arith)
      ∙ count-passed n (suc i) (suc i) val (omega arith) inside

  pub count-sorted : (n : ℕ) (val : ℕ → ℤ) → count n (sorted n val) ≡ count n val
  unfolding sorted sorted_from
  count-sorted zero val = refl
  count-sorted (suc n) val =
      let one_less : suc n - 1 ≡ n = omega arith in
      rw one_less (count-sorted_from (suc n) n val (omega arith))
