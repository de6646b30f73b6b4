-- ===== src/ArrayList/Slice.antt =====
-- The values of consecutive cells as a list.
use cs213_assignments.Common.{
  ℕ, zero, suc, ◌+◌, ◌-◌, ◌<◌, ◌≤◌, ◌≡◌, refl, ap, ap₂, ◌∙◌, some, List, [], ◌∷◌, ◌++◌, arith,
  get_elem?, take, drop, length,
}

module _ {E : Type 0} where
  -- The `n` cells from `i` on.
  unfoldable pub slice : (ℕ → E) → ℕ → ℕ → List E
  slice d i zero = []
  slice d i (suc n) = d i ∷ slice d (i + 1) n

  pub length-slice : (d : ℕ → E) (i n : ℕ) → length (slice d i n) ≡ n
  unfolding slice
  length-slice d i zero = refl
  length-slice d i (suc n) = ap suc (length-slice d (i + 1) n)

  -- Only the cells in the range matter, and where they lie does not.
  pub slice_ext :
      (d d' : ℕ → E) (i i' n : ℕ)
      → ((k : ℕ) → k < n → d (i + k) ≡ d' (i' + k))
      → slice d i n ≡ slice d' i' n
  unfolding slice
  slice_ext d d' i i' zero same = refl
  slice_ext d d' i i' (suc n) same =
      ap₂ ◌∷◌ (here (same 0 (omega arith)))
        (slice_ext d d' (i + 1) (i' + 1) n (λ k h. there k (same (suc k) (omega arith))))
    where
      here : d (i + 0) ≡ d' (i' + 0) → d i ≡ d' i'
      here e = ap d (omega arith) ∙ e ∙ ap d' (omega arith)

      there : (k : ℕ) → d (i + suc k) ≡ d' (i' + suc k) → d (i + 1 + k) ≡ d' (i' + 1 + k)
      there k e = ap d (omega arith) ∙ e ∙ ap d' (omega arith)

  pub slice-append : (d : ℕ → E) (i m n : ℕ) → slice d i (m + n) ≡ slice d i m ++ slice d (i + m) n
  unfolding slice
  slice-append d i zero n =
      ap₂ (λ (j k : ℕ). slice d j k) {x = i} {y = i + 0} (omega arith) (omega arith)
  slice-append d i (suc m) n =
      ap (slice d i) {x = suc m + n} {y = suc (m + n)} (omega arith)
      ∙ ap (λ xs. d i ∷ xs)
          (slice-append d (i + 1) m n
            ∙ ap (λ (j : ℕ). slice d (i + 1) m ++ slice d j n) {x = i + 1 + m} {y = i + suc m}
                (omega arith))

  pub slice-snoc : (d : ℕ → E) (i n : ℕ) → slice d i (n + 1) ≡ slice d i n ++ d (i + n) ∷ []
  unfolding slice
  slice-snoc d i n = slice-append d i n 1

  pub get_elem?-slice :
      (d : ℕ → E) (i n k : ℕ) → k < n → get_elem? (slice d i n) k ≡ some (d (i + k))
  unfolding slice
  get_elem?-slice d i zero k h = elim h [ ]
  get_elem?-slice d i (suc n) zero h = ap (λ (j : ℕ). some (d j)) {x = i} {y = i + 0} (omega arith)
  get_elem?-slice d i (suc n) (suc k) h =
      get_elem?-slice d (i + 1) n k (omega arith)
      ∙ ap (λ (j : ℕ). some (d j)) {x = i + 1 + k} {y = i + suc k} (omega arith)

  pub take-slice : (d : ℕ → E) (i n k : ℕ) → k ≤ n → take k (slice d i n) ≡ slice d i k
  unfolding slice
  take-slice d i n zero h = refl
  take-slice d i zero (suc k) h = elim h [ ]
  take-slice d i (suc n) (suc k) h = ap (λ xs. d i ∷ xs) (take-slice d (i + 1) n k (omega arith))

  pub drop-slice : (d : ℕ → E) (i n k : ℕ) → k ≤ n → drop k (slice d i n) ≡ slice d (i + k) (n - k)
  unfolding slice
  drop-slice d i n zero h =
      ap₂ (λ (j m : ℕ). slice d j m) {x = i} {y = i + 0} (omega arith) (omega arith)
  drop-slice d i zero (suc k) h = elim h [ ]
  drop-slice d i (suc n) (suc k) h =
      drop-slice d (i + 1) n k (omega arith)
      ∙ ap₂ (λ (j m : ℕ). slice d j m) {x = i + 1 + k} {y = i + suc k} (omega arith) (omega arith)
