-- ===== src/ArrayList/Mapping/Written.antt =====
-- Cells that a loop of a8/q1/list.c has written in order, from the cell `i` on.
use cs213_assignments.Common.{
  ℕ, zero, suc, ◌+◌, ◌≡◌, refl, ap, ap₂, ◌∙◌, ◌&&◌, Option, some, List, [], ◌∷◌, ◌++◌, arith, ltb,
  leb, if◌then◌else◌, update, map, min,
}
use cs213_assignments.ArrayList.{ArrayList, IsValid}
use cs213_assignments.ArrayList.Slice.{slice, slice_ext, slice-append}
use cs213_assignments.ArrayList.Cells.{contents}

module _ {E : Type 0} where
  abbrev pub written : (d values : ℕ → E) → (i rounds : ℕ) → ℕ → E
  written d values i rounds j = if leb i j && ltb j (i + rounds) then values j else d j

  pub written-suc :
      (d values : ℕ → E) (i rounds j : ℕ)
      → written (update d i (values i)) values (i + 1) rounds j ≡ written d values i (suc rounds) j
  written-suc d values i rounds j = ground arith

  -- The list `r` results, well-formed, of `n` elements, and its cells are those of `d`.
  pub record Holds (r : Option (ArrayList E)) (d : ℕ → E) (n : ℕ) : Type 0 where
    pub result : ArrayList E
    pub returned : r ≡ some result
    pub valid : IsValid result
    pub count : result.len ≡ n
    pub cells : (j : ℕ) → result.data_of j ≡ d j

  -- The elements, if the first `rounds` cells of a list of `n + rounds` have been written.
  pub Holds-contents :
      {r : Option (ArrayList E)} (d values : ℕ → E) (rounds n : ℕ)
      (h : Holds r (written d values 0 rounds) (n + rounds))
      → contents h.result ≡ slice values 0 rounds ++ slice d rounds n
  Holds-contents d values rounds n h =
      ap (slice h.result.data_of 0) (h.count ∙ omega arith)
      ∙ slice-append h.result.data_of 0 rounds n
      ∙ ap₂ ◌++◌ (slice_ext _ values 0 0 rounds (λ k hk. ground (arith, h.cells k)))
          (slice_ext _ d (0 + rounds) rounds n (λ k hk. ground (arith, h.cells (rounds + k))))

  pub map-slice :
      {F : Type 0} (g : E → F) (d : ℕ → E) (i n : ℕ)
      → map g (slice d i n) ≡ slice (λ j. g (d j)) i n
  unfolding slice
  map-slice g d i zero = refl
  map-slice g d i (suc n) = ap (λ xs. g (d i) ∷ xs) (map-slice g d (i + 1) n)

  -- Element by element, as far as the shorter list goes.
  pub zip_with : (E → E → E) → List E → List E → List E
  zip_with g [] ys = []
  zip_with g (x ∷ xs) [] = []
  zip_with g (x ∷ xs) (y ∷ ys) = g x y ∷ zip_with g xs ys

  pub zip_with-slice :
      (g : E → E → E) (d d' : ℕ → E) (i m n : ℕ)
      → zip_with g (slice d i m) (slice d' i n) ≡ slice (λ j. g (d j) (d' j)) i (min m n)
  unfolding zip_with slice
  zip_with-slice g d d' i zero n = ap (slice both i) {x = 0} {y = min 0 n} (omega arith)
    where
      both : ℕ → E
      both j = g (d j) (d' j)
  zip_with-slice g d d' i (suc m) zero = ap (slice both i) {x = 0} {y = min (suc m) 0} (omega arith)
    where
      both : ℕ → E
      both j = g (d j) (d' j)
  zip_with-slice g d d' i (suc m) (suc n) =
      ap (λ xs. both i ∷ xs) (zip_with-slice g d d' (i + 1) m n)
      ∙ ap (slice both i) {x = suc (min m n)} {y = min (suc m) (suc n)} (omega arith)
    where
      both : ℕ → E
      both j = g (d j) (d' j)
