-- ===== src/Switches.antt =====
-- The three forms of one function in a8/q2/SB-switch.c: a switch, a chain of ifs and a jump table. The
-- global `i` is the argument, and the result is what `j` is set to.
pub mod Agreement
use cs213_assignments.Common.{
  ℕ, ◌-◌, Bool, true, false, ◌||◌, Option, none, some, List, [], ◌∷◌, get_elem?, ◌==◌, ltb, ◌>>=◌,
  if◌then◌else◌,
}
use cs213_assignments.Common.Int.{ℤ, pos, negsuc}

abbrev pub is_num : ℤ → ℕ → Bool
is_num (pos n) k = n == k
is_num (negsuc n) k = false

pub foo : ℤ → ℕ
foo i = if is_num i 20 then 10 else if is_num i 21 then 11 else if is_num i 23 then 13 else 14

pub foo_using_if : ℤ → ℕ
foo_using_if i =
    if is_num i 20
    then 10
    else if is_num i 21
    then 11
    else if is_num i 22
    then 14
    else if is_num i 23
    then 13
    else 14

pub data Label : Type 0 where
  l20 : Label
  l21 : Label
  l23 : Label
  default : Label

abbrev pub jump_table : List Label
jump_table = l20 ∷ l21 ∷ default ∷ l23 ∷ []

abbrev pub is_below : ℤ → ℕ → Bool
is_below (pos n) k = ltb n k
is_below (negsuc n) k = true

abbrev pub is_above : ℤ → ℕ → Bool
is_above (pos n) k = ltb k n
is_above (negsuc n) k = false

-- `i - 20`, where `i` is at least 20.
abbrev pub table_index : ℤ → ℕ
table_index (pos n) = n - 20
table_index (negsuc n) = 0

abbrev pub at_label : Label → ℕ
at_label l20 = 10
at_label l21 = 11
at_label l23 = 13
at_label default = 14

-- A jump through an entry outside of the table is none.
pub foo_using_jumptable : ℤ → Option ℕ
foo_using_jumptable i =
    if is_below i 20 || is_above i 23
    then some (at_label default)
    else (do label ← get_elem? jump_table (table_index i); some (at_label label))
