-- ===== src/ElementList.antt =====
-- The doubly linked list of elements of a7/q3/list.c. The heap of the elements, and what the list does
-- to an element that it takes in or deletes, are parameters: a7 counts references, and a5/q3/list.c,
-- which is the same otherwise, takes an element as it is and deletes it.
pub mod Segment
pub mod Laws
pub mod Whole
pub mod Tests
use cs213_assignments.Common.{
  ℕ, zero, suc, ◌+◌, Bool, true, false, Option, none, some, ◌==◌, ◌>>=◌, if◌then◌else◌, update,
}

-- `struct list_node`.
pub record ListNode : Type 0 where
  pub elem : ℕ
  pub prev : Option ℕ
  pub next : Option ℕ

-- `struct list` and the nodes by their addresses; a freed node is none, and from `fresh` on nothing
-- has been allocated.
pub record ElementList : Type 0 where
  pub head : Option ℕ
  pub tail : Option ℕ
  pub node : ℕ → Option ListNode
  pub fresh : ℕ

pub list_new : ElementList
list_new = record { head = none; tail = none; node = λ a. none; fresh = 0 }

abbrev pub is_at : ℕ → Option ℕ → Bool
is_at a none = false
is_at a (some p) = a == p

pub set_node : ℕ → Option ListNode → ElementList → ElementList
set_node a n l = record l { node = update l.node a n }

-- `p->next = q`, and `p->prev = q`: undefined behaviour if `p` is NULL or has been freed.
pub set_next : Option ℕ → Option ℕ → ElementList → Option ElementList
unfolding set_node
set_next p q l = do a ← p; n ← l.node a; some (set_node a (some (record n { next = q })) l)

pub set_prev : Option ℕ → Option ℕ → ElementList → Option ElementList
unfolding set_node
set_prev p q l = do a ← p; n ← l.node a; some (set_node a (some (record n { prev = q })) l)

-- The new node behind the others, or alone.
pub link_last : ℕ → ElementList → Option ElementList
unfolding set_next set_prev
link_last n l = elim l.head [
  | none ↦ some (record l { head = some n; tail = some n })
  | some first ↦ do
    l ← set_next l.tail (some n) l
    l ← set_prev (some n) l.tail l
    some (record l { tail = some n })
]

-- The node is taken out of the list, and is there as before.
pub unlink_next : ℕ → ListNode → ElementList → Option ElementList
unfolding set_next
unlink_next n node l =
    if is_at n l.head then some (record l { head = node.next }) else set_next node.prev node.next l

pub unlink_prev : ℕ → ListNode → ElementList → Option ElementList
unfolding set_prev
unlink_prev n node l =
    if is_at n l.tail then some (record l { tail = node.prev }) else set_prev node.next node.prev l

pub list_get_head : ElementList → Option ℕ
list_get_head l = l.head

unfoldable pub list_node_get_next : ℕ → ElementList → Option (Option ℕ)
list_node_get_next n l = do node ← l.node n; some node.next

unfoldable pub list_node_get_element : ℕ → ElementList → Option ℕ
list_node_get_element n l = do node ← l.node n; some node.elem

module _ {H : Type 0} (keep release : ℕ → H → Option H) where
  -- The address of the new node, the list and the elements.
  pub list_add_element : ℕ → ElementList → H → Option (ℕ × ElementList × H)
  unfolding set_node link_last
  list_add_element e l h = do
    let n = l.fresh
    h ← keep e h
    l ← link_last n (
        set_node n (some (record { elem = e; prev = none; next = none }))
          (record l { fresh = n + 1 }))
    some (n, l, h)

  pub list_delete_element : ℕ → ElementList → H → Option (ElementList × H)
  unfolding unlink_next unlink_prev set_node
  list_delete_element n l h = do
    node ← l.node n
    l ← unlink_next n node l
    l ← unlink_prev n node l
    h ← release node.elem h
    some (set_node n none l, h)

  -- The loop, on fuel: one round for each node and one more is enough.
  pub delete_from : ℕ → Option ℕ → ElementList → H → Option (ElementList × H)
  unfolding list_delete_element list_node_get_next
  delete_from zero n l h = none
  delete_from (suc fuel) none l h = some (l, h)
  delete_from (suc fuel) (some n) l h = do
    next ← list_node_get_next n l
    (l, h) ← list_delete_element n l h
    delete_from fuel next l h

  pub list_delete : ℕ → ElementList → H → Option (ElementList × H)
  unfolding delete_from
  list_delete fuel l h = delete_from fuel l.head l h
