-- ===== src/BinaryTree.antt =====
-- The binary tree of a4/BinaryTree.c. A node owns its children. `atoi` is a parameter.
pub mod Ascending
pub mod Tests
use Prim.Native.Nat.{Ordering}
use Prim.Native.Nat.Ordering.{gt}
use cs213_assignments.Common.{ℕ, Bool, true, false, List, [], ◌∷◌, ◌++◌, if◌then◌else◌}
use cs213_assignments.Common.Int.{ℤ, compare_ℤ}

mutual
  -- `struct Node`.
  pub data Node : Type 0 where
    node : (value : ℤ) → (left right : Child) → Node

  -- `struct Node *`.
  pub data Child : Type 0 where
    null : Child
    to : Node → Child

abbrev pub number_of : Node → ℤ
number_of (node value left right) = value

-- `a <= b`.
abbrev pub is_at_most : ℤ → ℤ → Bool
is_at_most a b = elim (compare_ℤ a b) [ gt ↦ false | _ ↦ true ]

pub create : ℤ → Node
create value = node value null null

mutual
  pub insert : Node → Node → Node
  insert (node value left right) n = elim (is_at_most (number_of n) value) [
    | true ↦ node value (insert_below left n) right
    | false ↦ node value left (insert_below right n)
  ]

  pub insert_below : Child → Node → Child
  insert_below null n = to n
  insert_below (to m) n = to (insert m n)

-- What is printed.
mutual
  pub print_in_order : Node → List ℤ
  print_in_order (node value left right) = print_below left ++ value ∷ print_below right

  pub print_below : Child → List ℤ
  print_below null = []
  print_below (to m) = print_in_order m

module _ {A : Type 0} (atoi : A → ℤ) where
  pub insert_all : List A → Node → Node
  insert_all [] root = root
  insert_all (arg ∷ args) root = insert_all args (insert root (create (atoi arg)))

  -- With the first argument and the others.
  pub main : A → List A → List ℤ
  main arg args = print_in_order (insert_all args (create (atoi arg)))
