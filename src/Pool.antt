-- ===== src/Pool.antt =====
-- Free-list pools: `MemoryPool` of extras/latency/common.hpp, `FixedSizePool` of
-- topics/memory/fixed_size_memory_pool.cpp and `SlabSlotPool` of topics/memory/slab_allocator.cpp.
-- A block is its number, in the order of addresses and, in the pools that grow, of allocation. The
-- pointer that a free block holds is its entry of `next`; a null pointer is `none`.
pub mod Chain
pub mod Blocks
pub mod Growth
mod Tests
use learn_cpp.Prelude.{
  ℕ, zero, suc, ◌+◌, Option, none, some, List, [], ◌∷◌, ◌++◌, length, get_elem?, set,
}

pub record Pool : Type 0 where
  pub next : List (Option ℕ)
  pub free_head : Option ℕ

-- The pointers of `n` new blocks from the number on: each to the one behind it, the last as given.
unfoldable pub links : ℕ → ℕ → Option ℕ → List (Option ℕ)
links base zero last = []
links base (suc zero) last = last ∷ []
links base (suc (suc n)) last = some (suc base) ∷ links (suc base) (suc n) last

abbrev pub pointer : Option (Option ℕ) → Option ℕ
pointer none = none
pointer (some p) = p

-- `MemoryPool`
unfoldable pub init : ℕ → Pool
unfolding links
init capacity = record { next = links 0 capacity none; free_head = some 0 }

-- The block that the free list starts with, taken from it.
abbrev pub take_head : Pool → Option ℕ → Option ℕ × Pool
take_head p none = (none, p)
take_head p (some i) = (some i, record p { free_head = pointer (get_elem? p.next i) })

unfoldable pub alloc : Pool → Option ℕ × Pool
alloc p = take_head p p.free_head

unfoldable pub free : ℕ → Pool → Pool
free i p = record { next = set p.next i p.free_head; free_head = some i }

-- `FixedSizePool` and `SlabSlotPool`, which grow by `block_size` blocks.
unfoldable pub grow : ℕ → Pool → Pool
unfolding links
grow block_size p = record {
  next = p.next ++ links (length p.next) block_size p.free_head;
  free_head = some (length p.next);
}

abbrev pub grow_if_empty : ℕ → Pool → Option ℕ → Pool
grow_if_empty block_size p none = grow block_size p
grow_if_empty block_size p (some i) = p

unfoldable pub allocate : ℕ → Pool → Option ℕ × Pool
unfolding grow
allocate block_size p = let q = grow_if_empty block_size p p.free_head in take_head q q.free_head

-- `deallocate` of a null pointer does nothing.
unfoldable pub deallocate : Option ℕ → Pool → Pool
deallocate none p = p
deallocate (some i) p = record { next = set p.next i p.free_head; free_head = some i }
