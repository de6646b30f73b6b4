-- ===== src/RefCount.antt =====
-- Reference-counted blocks, a5/refcount.c. An allocation is known by its address, and a client
-- pointer and the header in front of it count as one address. Counts do not reach 2 ^ 31.
pub mod Counts
pub mod Mapped
use cs213_assignments.Common.{ℕ, ◌+◌, ◌-◌, Option, none, some, ◌==◌, ◌>>=◌, if◌then◌else◌, update}

-- A block: the count in front of it, and what the client keeps in it.
pub record Block (P : Type 0) : Type 0 where
  pub refcount : ℕ
  pub body : P

-- The blocks by their addresses; from `fresh` on nothing has been allocated. What has been freed is
-- none.
pub record Blocks (P : Type 0) : Type 0 where
  pub block : ℕ → Option (Block P)
  pub fresh : ℕ

module _ {P : Type 0} where
  pub set_block : ℕ → Option (Block P) → Blocks P → Blocks P
  set_block a b bs = record bs { block = update bs.block a b }

  -- Writing to a block: undefined behaviour if it has been freed.
  pub set_body : ℕ → P → Blocks P → Option (Blocks P)
  unfolding set_block
  set_body a body bs = do b ← bs.block a; some (set_block a (some (record b { body = body })) bs)

  -- `body` is what the client writes to the new block.
  pub rc_malloc : P → Blocks P → ℕ × Blocks P
  unfolding set_block
  rc_malloc body bs = (
    bs.fresh,
    set_block bs.fresh (some (record { refcount = 1; body = body }))
        (record bs { fresh = bs.fresh + 1 }),
  )

  -- A pointer to a freed block is undefined behaviour.
  pub rc_keep_ref : ℕ → Blocks P → Option (Blocks P)
  unfolding set_block
  rc_keep_ref a bs = do
    b ← bs.block a
    some (set_block a (some (record b { refcount = b.refcount + 1 })) bs)

  pub rc_free_ref : ℕ → Blocks P → Option (Blocks P)
  unfolding set_block
  rc_free_ref a bs = do
    b ← bs.block a
    let count = b.refcount - 1
    some (set_block a (if count == 0 then none else some (record b { refcount = count })) bs)
