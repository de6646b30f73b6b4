-- ===== src/RequestNodes.antt =====
-- The nodes that a9/queue.c and a9/disk.c link in the same way: a queue from `front` along `prev` to
-- `back`, and a list of free nodes along `next`, from which a new node is taken before one is
-- allocated. A read or a write of a node that is not allocated fails. The spinlock, which both files
-- hold during an operation, is left out.
pub mod Line
pub mod Kept
pub mod Freed
use cs213_assignments.Common.{ℕ, ◌+◌, Option, none, some, ◌>>=◌, update}

pub record Node (C : Type 0) : Type 0 where
  pub content : C
  pub prev : Option ℕ
  pub next : Option ℕ

-- `struct queue`, and the variables `prq_front`, `prq_back` and `prq_free`, with the memory. The next
-- call of malloc gives the address `unused`.
pub record Links (C : Type 0) : Type 0 where
  pub node : ℕ → Option (Node C)
  pub front : Option ℕ
  pub back : Option ℕ
  pub free : Option ℕ
  pub unused : ℕ

module _ {C : Type 0} where
  unfoldable pub no_nodes : Links C
  no_nodes = record { node = λ a. none; front = none; back = none; free = none; unused = 0 }

  -- The first free node, or a new one.
  pub new_node : Links C → Option (ℕ × Links C)
  new_node q = elim q.free [
    | some p ↦ do n ← q.node p; some (p, record q { free = n.next })
    | none ↦ some (q.unused, record q { unused = q.unused + 1 })
  ]

  -- The fields of the new node.
  pub fill_node : ℕ → C → Links C → Links C
  fill_node a c q = record q {
    node = update q.node a (some (record { content = c; prev = none; next = q.back }));
  }

  pub set_prev : ℕ → Option ℕ → Links C → Option (Links C)
  set_prev a p q = do
    n ← q.node a
    some (record q { node = update q.node a (some (record n { prev = p })) })

  unfoldable pub set_next : ℕ → Option ℕ → Links C → Option (Links C)
  set_next a p q = do
    n ← q.node a
    some (record q { node = update q.node a (some (record n { next = p })) })

  -- The new node behind the last one, or as the only one.
  pub link_last : ℕ → Links C → Option (Links C)
  unfolding set_prev
  link_last a q = elim q.back [
    | some last ↦ do q ← set_prev last (some a) q; some (record q { back = some a })
    | none ↦ some (record q { front = some a; back = some a })
  ]

  unfoldable pub enqueue : C → Links C → Option (Links C)
  unfolding new_node fill_node link_last
  enqueue c q = do (a, q) ← new_node q; link_last a (fill_node a c q)
