-- ===== src/Sorting.antt =====
-- The sort and the program of a3/bubble_sort_dynamic.c. The array has the size that malloc gives it,
-- an argument of the definitions, since `n` has no value yet when malloc is called. An access outside
-- the array is undefined. A parameter stands for `strtol` with base 10 and the conversion of its
-- result to int: it gives the number and the text behind it.
pub mod Passes
pub mod Kept
pub mod Inside
pub mod Printed
pub mod Tests
use cs213_assignments.Common.{
  ℕ, zero, suc, ◌+◌, ◌-◌, Bool, ◌&&◌, Option, none, some, ◌>>=◌, List, [], ◌∷◌, ltb, if◌then◌else◌,
  update, length,
}
use cs213_assignments.Common.Int.{ℤ, ltb_ℤ}

-- What the program prints: the numbers, or that an argument is no number.
pub data Output : Type 0 where
  numbers : List ℤ → Output
  not_a_number : ℕ → Output
  bad_access : Output

-- The arguments as numbers, the index of one that is none, or an access outside the array.
pub data Read : Type 0 where
  values : (ℕ → ℤ) → Read
  word : ℕ → Read
  outside : Read

module _ (size : ℕ) where
  -- `if (val[i] < val[j])`, the two values change places.
  unfoldable pub exchange : ℕ → ℕ → (ℕ → ℤ) → Option (ℕ → ℤ)
  exchange i j val =
      if ltb i size && ltb j size
      then some (if ltb_ℤ (val i) (val j) then update (update val i (val j)) j (val i) else val)
      else none

  -- `for (int j=i-1; j>=0; j--)`, from `j` - 1 on.
  unfoldable pub pass : ℕ → ℕ → (ℕ → ℤ) → Option (ℕ → ℤ)
  pass i zero val = some val
  pass i (suc j) val = do val ← exchange i j val; pass i j val

  -- `for (int i=n-1; i>0; i--)`, from `i` on.
  unfoldable pub sort_from : ℕ → (ℕ → ℤ) → Option (ℕ → ℤ)
  sort_from zero val = some val
  sort_from (suc i) val = do val ← pass (suc i) (suc i) val; sort_from i val

  unfoldable pub sort : ℕ → (ℕ → ℤ) → Option (ℕ → ℤ)
  sort n val = sort_from (n - 1) val

  -- The loop that prints the values.
  unfoldable pub listed : ℕ → ℕ → (ℕ → ℤ) → Option (List ℤ)
  listed i zero val = some []
  listed i (suc n) val =
      let rest = listed (i + 1) n val in
      if ltb i size then (do vs ← rest; some (val i ∷ vs)) else none

  unfoldable pub printed : Option (List ℤ) → Output
  printed none = bad_access
  printed (some vs) = numbers vs

  -- What `main` does when the arguments have been read.
  unfoldable pub print_sorted : ℕ → Read → Output
  unfolding printed
  print_sorted n (values val) = printed (do val ← sort n val; listed 0 n val)
  print_sorted n (word i) = not_a_number i
  print_sorted n outside = bad_access

module _ (size : ℕ) (strtol : List ℕ → ℤ × List ℕ) where
  -- The loop that reads the arguments, from the argument `i` on.
  unfoldable pub read_from : ℕ → List (List ℕ) → (ℕ → ℤ) → Read
  read_from i [] val = values val
  read_from i (arg ∷ args) val =
      let (n, ep) = strtol arg in
      let rest = read_from (i + 1) args (update val i n) in
      if ltb i size then elim ep [ [] ↦ rest | c ∷ cs ↦ word i ] else outside

  -- The arguments without the name of the program; `memory` is what the array holds at first.
  unfoldable pub main : (memory : ℕ → ℤ) → List (List ℕ) → Output
  unfolding read_from print_sorted
  main memory args = print_sorted size (length args) (read_from 0 args memory)
