-- ===== src/Malloc.antt =====
-- The allocator of a5/q2/mymalloc.c. An address is an offset from the start of the heap, and the
-- pointer that a client gets lies behind the header of its block. Requests are not negative, and the
-- sums of sizes do not reach 2 ^ 31.
pub mod Chain
pub mod Walking
pub mod FirstFit
pub mod Free
pub mod Tests
use cs213_assignments.Common.{
  ℕ, zero, suc, ◌+◌, ◌-◌, ◌*◌, ◌/◌, Bool, ◌&&◌, Option, none, some, ltb, leb, ◌==◌, if◌then◌else◌,
  update,
}

-- `struct Node`, 16 bytes in front of each block.
pub record Node : Type 0 where
  pub size : ℕ
  pub next : Option ℕ

abbrev pub header : ℕ
header = 16

-- The statics: the headers by their addresses, the list of free blocks, the size of the heap and
-- the first address that has never been allocated.
pub record Heap : Type 0 where
  pub node : ℕ → Node
  pub head : Option ℕ
  pub heapsize : ℕ
  pub top : ℕ

-- A pointer and the heap behind the call, or NULL. The walks take fuel: enough is one round for each
-- free block.
pub data Result : Type 0 where
  allocated : (ptr : ℕ) → Heap → Result
  null : Result
  out_of_fuel : Result

-- What a walk along the free blocks gives.
pub data Walk : Type 0 where
  taken : (ptr : ℕ) → Heap → Walk
  no_fit : Walk
  no_fuel : Walk

-- `memory` is what the heap holds at first.
pub mymalloc_init : (memory : ℕ → Node) → ℕ → Heap
mymalloc_init memory heapsize = record { node = memory; head = none; heapsize = heapsize; top = 0 }

pub set_next : ℕ → Option ℕ → Heap → Heap
set_next n next h = record h {
  node = update h.node n (record { size = (h.node n).size; next = next });
}

abbrev pub is_head : ℕ → Option ℕ → Bool
is_head n none = Bool.false
is_head n (some p) = n == p

-- `while (n->next != NULL)`: the head of the list is looked at if `n` is the head, then the block
-- behind `n`.
pub walk : (fuel n size : ℕ) → Heap → Walk
walk zero n size h = no_fuel
walk (suc fuel) n size h = elim ((h.node n).next) [
  | none ↦ no_fit
  | some q ↦
      let rest = walk fuel q size h in
      if is_head n h.head && (h.node n).size == size
      then taken (n + header) (record h { head = some q })
      else (if (h.node q).size == size
          then taken (q + header) (set_next n ((h.node q).next) h)
          else rest)
]

abbrev pub round_up : ℕ → ℕ
round_up size = (size + 7) / 8 * 8

-- The block at `top`, for a size up to that of the heap. `m->next` is not written.
pub bump : ℕ → Heap → Result
bump size h =
    if ltb (h.heapsize - size) h.top
    then null
    else allocated (h.top + header) (record h {
      node = update h.node h.top (record { size = size; next = (h.node h.top).next });
      top = h.top + size + header;
    })

-- What follows a walk without success: `after` is what the code does next.
pub or_else : Walk → Result → Result
or_else (taken ptr h) after = allocated ptr h
or_else no_fit after = after
or_else no_fuel after = out_of_fuel

-- A list of one block is taken as a whole if that block fits; both walks then look at the list.
pub reuse : (fuel n size : ℕ) → Heap → Result
unfolding walk or_else bump
reuse fuel n size h = elim ((h.node n).next) [
  | none ↦
      if (h.node n).size == size
      then allocated (n + header) (record h { head = none })
      else bump size h
  | some q ↦ or_else (walk fuel n size h) (or_else (walk fuel n size h) (bump size h))
]

pub mymalloc : (fuel size : ℕ) → Heap → Result
unfolding reuse
mymalloc fuel size h =
    let size = round_up size in
    if ltb h.heapsize size
    then null
    else elim h.head [ none ↦ bump size h | some n ↦ reuse fuel n size h ]

-- The block's `next` is written only if the list of free blocks is not empty.
pub myfree : (ptr : ℕ) → Heap → Heap
unfolding set_next
myfree ptr h =
    let n = ptr - header in
    elim h.head [
      | none ↦ record h { head = some n }
      | some p ↦ record (set_next n (some p) h) { head = some n }
    ]
