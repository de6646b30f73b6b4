-- ===== src/RequestQueue.antt =====
-- The queue of a9/queue.c. A pointer to a value or an argument is an address, NULL is 0, and `K` is
-- what a callback is. malloc does not fail.
pub mod Fifo
pub mod Runs
pub mod Destroy
pub mod Tests
use cs213_assignments.Common.{ℕ, zero, suc, Option, none, some, ◌>>=◌, ◌==◌, if◌then◌else◌, update}
use cs213_assignments.RequestNodes.{Links, no_nodes, set_next, enqueue}

-- What `struct queue_e` has besides its links.
pub record Request (K : Type 0) : Type 0 where
  pub val : ℕ
  pub arg : ℕ
  pub callback : Option K

-- The variables that `queue_dequeue` writes: `arg` and `callback` are none where the caller passes
-- NULL.
pub record Outputs (K : Type 0) : Type 0 where
  pub val : ℕ
  pub arg : Option ℕ
  pub callback : Option (Option K)

-- `if (p) *p = a`
abbrev pub write_out {ℓ} : {A : Type ℓ} → Option A → A → Option A
write_out none a = none
write_out (some _) a = some a

pub data Destroyed : Type 0 where
  destroyed : Destroyed
  bad_access : Destroyed
  out_of_fuel : Destroyed

module _ {K : Type 0} where
  unfoldable pub queue_create : Links (Request K)
  unfolding no_nodes
  queue_create = no_nodes

  unfoldable pub queue_enqueue :
      (val arg : ℕ) → Option K → Links (Request K) → Option (Links (Request K))
  unfolding enqueue
  queue_enqueue val arg callback q =
      enqueue (record { val = val; arg = arg; callback = callback }) q

  -- The new first node has none before it, or the queue has become empty.
  unfoldable pub end_at : Option ℕ → Links (Request K) → Option (Links (Request K))
  unfolding set_next
  end_at none q = some (record q { back = none })
  end_at (some new_front) q = set_next new_front none q

  -- The first node, `front`, goes before the free ones.
  unfoldable pub unlink_front :
      (front : ℕ) (new_front : Option ℕ) → Links (Request K) → Option (Links (Request K))
  unfolding end_at
  unlink_front front new_front q = do
    q ← set_next front q.free q
    q ← end_at new_front (record q { free = some front })
    some (record q { front = new_front })

  unfoldable pub queue_dequeue :
      Outputs K → Links (Request K) → Option (Outputs K × Links (Request K))
  queue_dequeue out q = elim q.front [
    | some p ↦ do
      n ← q.node p
      q ← unlink_front p n.prev q
      some (
        record {
          val = n.content.val;
          arg = write_out out.arg n.content.arg;
          callback = write_out out.callback n.content.callback;
        },
        q,
      )
    | none ↦ some (record out { val = 0; callback = write_out out.callback none }, q)
  ]

  -- `for (struct queue_e* e = q->free; e; e = e->next) free (e)`, on fuel.
  pub free_from : ℕ → Option ℕ → Links (Request K) → Destroyed
  free_from zero e q = out_of_fuel
  free_from (suc fuel) e q = elim e [
    | none ↦ destroyed
    | some a ↦
        let q = record q { node = update q.node a none } in
        elim (q.node a) [ none ↦ bad_access | some n ↦ free_from fuel n.next q ]
  ]

  -- The loop that empties the queue ends with a value of NULL.
  pub queue_destroy : ℕ → Links (Request K) → Destroyed
  unfolding free_from queue_dequeue
  queue_destroy zero q = out_of_fuel
  queue_destroy (suc fuel) q =
      elim (queue_dequeue (record { val = 0; arg = none; callback = none }) q) [
        | none ↦ bad_access
        | some (out, q) ↦
            let rest = queue_destroy fuel q in
            if out.val == 0 then free_from (suc fuel) q.free q else rest
      ]
