-- ===== src/Sorting/Tests.antt =====
-- The program of a3/bubble_sort_dynamic.c at concrete arguments.
use cs213_assignments.Common.{
  ◌≤◌, ◌<◌, ℕ, ◌-◌, ◌+◌, ◌*◌, ◌≡◌, refl, Bool, List, [], ◌∷◌, length, ltb, ◌==◌, if◌then◌else◌,
}
use cs213_assignments.Common.Int.{ℤ, pos, negsuc}
use cs213_assignments.Sorting.{
  numbers, not_a_number, bad_access, listed, print_sorted, sort, main, sort_from, pass, exchange,
}
use cs213_assignments.Sorting.Passes.{IsOrdered}
use cs213_assignments.Sorting.Kept.{count}
use cs213_assignments.Sorting.Printed.{values_from, numbers_in, main-sorts}

-- The digits at the start of a text, and what follows them.
digits : ℕ → List ℕ → ℕ × List ℕ
digits n [] = (n, [])
digits n (c ∷ text) =
    let rest = digits (10 * n + (c - 48)) text in
    if ltb 47 c then if ltb c 58 then rest else (n, c ∷ text) else (n, c ∷ text)

minus : ℕ → ℤ
minus n = if n == 0 then pos 0 else negsuc (n - 1)

decimal : List ℕ → ℤ × List ℕ
unfolding digits minus
decimal [] = (pos 0, [])
decimal (c ∷ text) =
    let (n, rest) = digits 0 text in
    let (m, rest') = digits 0 (c ∷ text) in if c == b'-' then (minus n, rest) else (pos m, rest')

abbrev arguments : List (List ℕ)
arguments = (b'3' ∷ []) ∷ (b'-' ∷ b'1' ∷ []) ∷ (b'1' ∷ b'2' ∷ []) ∷ (b'3' ∷ []) ∷ []

sorted_arguments :
    main 4 decimal (λ i. pos 0) arguments ≡ numbers (negsuc 0 ∷ pos 3 ∷ pos 3 ∷ pos 12 ∷ [])
unfolding main decimal print_sorted sort sort_from pass exchange listed
sorted_arguments = refl

-- The first argument that is no number is reported.
word_argument :
    main 4 decimal (λ i. pos 0) ((b'3' ∷ []) ∷ (b'4' ∷ b'x' ∷ []) ∷ (b'y' ∷ []) ∷ [])
    ≡ not_a_number 1
unfolding main decimal print_sorted sort sort_from pass exchange listed
word_argument = refl

-- Room for three numbers is not enough for four.
small_array : main 3 decimal (λ i. pos 0) arguments ≡ bad_access
unfolding main decimal
small_array = refl

main-sorts_example :
    (length arguments ≤ 4
      → (val sorted : ℕ → ℤ) × (values_from decimal 0 4 val ≡ numbers_in decimal arguments)
        × (main 4 decimal (λ i. pos 0) arguments ≡ numbers (values_from decimal 0 4 sorted))
        × IsOrdered 0 4 sorted
        × ((test : ℤ → Bool) → count test 4 sorted ≡ count test 4 val))
    × (4 < length arguments → main 4 decimal (λ i. pos 0) arguments ≡ bad_access)
unfolding decimal
main-sorts_example = main-sorts decimal 4 (λ i. pos 0) arguments (refl, (refl, (refl, (refl, tt))))
