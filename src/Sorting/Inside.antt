-- ===== src/Sorting/Inside.antt =====
-- The sort of a3/bubble_sort_dynamic.c stays inside an array that is large enough.
use cs213_assignments.Common.{ℕ, zero, suc, ◌-◌, ◌≤◌, ◌<◌, ◌≡◌, refl, some, arith, lt→ltb}
use cs213_assignments.Common.Int.{ℤ}
use cs213_assignments.Sorting.{exchange, pass, sort_from, sort}
use cs213_assignments.Sorting.Passes.{exchanged, passed, sorted_from, sorted}

module _ (size : ℕ) where
  exchange-inside :
      (i j : ℕ) (val : ℕ → ℤ) → j < i → i < size → exchange size i j val ≡ some (exchanged i j val)
  unfolding exchange exchanged
  exchange-inside i j val h inside = rw (lt→ltb i size inside, lt→ltb j size (omega arith)) refl

  pass-inside :
      (i j : ℕ) (val : ℕ → ℤ) → j ≤ i → i < size → pass size i j val ≡ some (passed i j val)
  unfolding pass passed
  pass-inside i zero val h inside = refl
  pass-inside i (suc j) val h inside =
      rw (exchange-inside i j val (omega arith) inside)
        (pass-inside i j (exchanged i j val) (omega arith) inside)

  sort_from-inside :
      (i : ℕ) (val : ℕ → ℤ) → i < size → sort_from size i val ≡ some (sorted_from i val)
  unfolding sort_from sorted_from
  sort_from-inside zero val inside = refl
  sort_from-inside (suc i) val inside =
      rw (pass-inside (suc i) (suc i) val (omega arith) inside)
        (sort_from-inside i (passed (suc i) (suc i) val) (omega arith))

  -- With room for `n` values no access is outside.
  pub sort-inside : (n : ℕ) (val : ℕ → ℤ) → n ≤ size → sort size n val ≡ some (sorted n val)
  unfolding sort sorted sort_from sorted_from
  sort-inside zero val room = refl
  sort-inside (suc n) val room =
      let one_less : suc n - 1 ≡ n = omega arith in
      rw one_less (sort_from-inside n val (omega arith))
