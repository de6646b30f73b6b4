-- ===== src/Sorting/Passes.antt =====
-- Each pass of a3/bubble_sort_dynamic.c puts the largest value behind the others.
use cs213_assignments.Common.{
  if◌then◌else◌, update, ℕ, zero, suc, ◌-◌, ◌≤◌, ◌<◌, ◌≡◌, ◌≢◌, ◌∙◌, refl, arith, dec_lt, subst,
}
use cs213_assignments.Common.Int.{ltb_ℤ, ℤ, ◌≤ℤ◌}

-- The two values change places if they are not in order.
unfoldable pub exchanged : ℕ → ℕ → (ℕ → ℤ) → ℕ → ℤ
exchanged i j val = if ltb_ℤ (val i) (val j) then update (update val i (val j)) j (val i) else val

unfoldable pub passed : ℕ → ℕ → (ℕ → ℤ) → ℕ → ℤ
passed i zero val = val
passed i (suc j) val = passed i j (exchanged i j val)

unfoldable pub sorted_from : ℕ → (ℕ → ℤ) → ℕ → ℤ
sorted_from zero val = val
sorted_from (suc i) val = sorted_from i (passed (suc i) (suc i) val)

unfoldable pub sorted : ℕ → (ℕ → ℤ) → ℕ → ℤ
sorted n val = sorted_from (n - 1) val

-- The values at the indices up to `i` are at most `top`.
abbrev pub AtMost : ℕ → (ℕ → ℤ) → ℤ → Type 0
AtMost i val top = (k : ℕ) → k ≤ i → val k ≤ℤ top

exchanged-AtMost :
    (i j : ℕ) (val : ℕ → ℤ) (top : ℤ) → j < i → AtMost i val top → AtMost i (exchanged i j val) top
unfolding exchanged
exchanged-AtMost i j val top h most k lower = ground (arith, most i, most j, most k)

exchanged-larger :
    (i j : ℕ) (val : ℕ → ℤ)
    → j < i
    → (exchanged i j val j ≤ℤ exchanged i j val i) × (val i ≤ℤ exchanged i j val i)
unfolding exchanged
exchanged-larger i j val h = ground arith

exchanged-other : (i j k : ℕ) (val : ℕ → ℤ) → i ≢ k → j ≢ k → exchanged i j val k ≡ val k
unfolding exchanged
exchanged-other i j k val h h' = ground arith

passed-AtMost :
    (i j : ℕ) (val : ℕ → ℤ) (top : ℤ) → j ≤ i → AtMost i val top → AtMost i (passed i j val) top
unfolding passed
passed-AtMost i zero val top h most = most
passed-AtMost i (suc j) val top h most =
    passed-AtMost i j (exchanged i j val) top (omega arith)
      (exchanged-AtMost i j val top (omega arith) most)

-- The value at `i` does not get smaller, and those from `j` on stay, but for that at `i`.
passed-grows : (i j : ℕ) (val : ℕ → ℤ) → j ≤ i → val i ≤ℤ passed i j val i
unfolding passed
passed-grows i zero val h = omega arith
passed-grows i (suc j) val h = omega (
  arith,
  passed-grows i j (exchanged i j val) (omega arith),
  exchanged-larger i j val (omega arith),
)

passed-other : (i j k : ℕ) (val : ℕ → ℤ) → j ≤ i → i ≢ k → j ≤ k → passed i j val k ≡ val k
unfolding passed
passed-other i zero k val h ne far = refl
passed-other i (suc j) k val h ne far =
    passed-other i j k (exchanged i j val) (omega arith) ne (omega arith)
    ∙ exchanged-other i j k val ne (omega arith)

passed-largest : (i j k : ℕ) (val : ℕ → ℤ) → j ≤ i → k < j → passed i j val k ≤ℤ passed i j val i
unfolding passed
passed-largest i zero k val h lower = absurd (omega arith)
passed-largest i (suc j) k val h lower = elim (dec_lt k j) [
  | yes before ↦ passed-largest i j k (exchanged i j val) (omega arith) before
  | no not_before ↦
      let at : j ≡ k = omega arith in
      let stays =
        passed-other i j j (exchanged i j val) (omega arith) (omega arith) (omega arith) in
      let grows = passed-grows i j (exchanged i j val) (omega arith) in
      let larger = exchanged-larger i j val (omega arith) in
      subst (λ k. passed i j (exchanged i j val) k ≤ℤ passed i j (exchanged i j val) i) at
        (rw stays (omega (arith, grows, larger)))
]

-- The values behind `i` are in order, and none before is larger.
abbrev pub IsOrdered : ℕ → ℕ → (ℕ → ℤ) → Type 0
IsOrdered i n val = (a b : ℕ) → a < b → i < b → b < n → val a ≤ℤ val b

-- One passed puts one more value in order.
passed-IsOrdered :
    (i n : ℕ) (val : ℕ → ℤ)
    → IsOrdered i n val
    → (a b : ℕ) → a < b
    → i ≤ b
    → b < n
    → passed i i val a ≤ℤ passed i i val b
passed-IsOrdered i n val ordered a b before after inside = elim (dec_lt i b) [
  | no not_behind ↦
      let at : i ≡ b = omega arith in
      subst (λ b. passed i i val a ≤ℤ passed i i val b) at
        (passed-largest i i a val (omega arith) (omega arith))
  | yes behind ↦
      let stays = passed-other i i b val (omega arith) (omega arith) (omega arith) in
      elim (dec_lt i a) [
        | yes both ↦
            let stays' = passed-other i i a val (omega arith) (omega arith) (omega arith) in
            rw stays (rw stays' (ordered a b before behind inside))
        | no not_both ↦ rw stays (
            passed-AtMost i i val (val b) (omega arith)
              (λ k low. ordered k b (omega arith) behind inside) a (omega arith))
      ]
]

sorted_from-IsOrdered :
    (i n : ℕ) (val : ℕ → ℤ) → i < n → IsOrdered i n val → IsOrdered 0 n (sorted_from i val)
unfolding sorted_from
sorted_from-IsOrdered zero n val h ordered = ordered
sorted_from-IsOrdered (suc i) n val h ordered =
    sorted_from-IsOrdered i n (passed (suc i) (suc i) val) (omega arith) (λ a b before after inside.
      passed-IsOrdered (suc i) n val ordered a b before (omega arith) inside)

pub sorted-IsOrdered : (n : ℕ) (val : ℕ → ℤ) → IsOrdered 0 n (sorted n val)
unfolding sorted
sorted-IsOrdered zero val = λ a b before after inside. absurd (omega arith)
sorted-IsOrdered (suc n) val =
    let one_less : suc n - 1 ≡ n = omega arith in
    rw one_less (
      sorted_from-IsOrdered n (suc n) val (omega arith)
        λ a b before after inside. absurd (omega arith))
