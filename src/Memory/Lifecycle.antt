-- ===== src/Memory/Lifecycle.antt =====
-- What a client of a FixedBlockPool can rely on: fresh blocks, round trips, double frees, exhaustion.
use mmo_server.Common.{
  ℕ, ◌+◌, ◌*◌, ◌≤◌, ◌<◌, ◌≡◌, refl, ◌≢◌, ◌⊎◌, inl, inr, true, false, some, List, ◌∷◌, arith, get_or,
  set, ap, sym, subst, ◌∙◌, get_or-set_self, get_or-set_ne, set-set_self, get_elem?-get_or, sum,
  length,
}
use mmo_server.Memory.{
  FixedBlockPool, MemoryBlock, block_at, null_block, owns, allocate, allocate_from, deallocate,
  available_blocks,
}
use mmo_server.Memory.Invariant.{
  IsValid, IsBalanced, deallocate-IsValid, put_back, head_free, allocate-IsValid,
}
use mmo_server.Memory.Blocks.{
  Fits, blocks_disjoint, owns-block_at, deallocate_exact, deallocate-block_at,
}

-- `Allocate` with block `i` at the head of the free list.
pub allocate-head :
    (p : FixedBlockPool) (i : ℕ) (free : List ℕ)
    → p.free_list ≡ i ∷ free
    → allocate p ≡ (block_at p i, record p { free_list = free; allocated = set p.allocated i 1 })
unfolding allocate allocate_from
allocate-head p i free e = rw (e, allocate_from)

module _ (p : FixedBlockPool) (i : ℕ) (free : List ℕ) (v : IsValid p) (fits : Fits p)
    (e : p.free_list ≡ i ∷ free) where
  head_block : (i < p.block_count) × (get_or p.allocated i 0 ≡ 0)
  head_block = head_free (subst (λ l. IsBalanced p.block_count l p.allocated) e v.balanced)

  in_range : i < length p.allocated
  in_range = omega (arith, head_block, v.balanced.flagged)

  other_blocks :
      (j : ℕ)
      → j < p.block_count
      → get_or p.allocated j 0 ≢ 0
      → (get_or (set p.allocated i 1) j 0 ≡ get_or p.allocated j 0)
        × ((i * p.block_size + p.block_size ≤ j * p.block_size)
            ⊎ (j * p.block_size + p.block_size ≤ i * p.block_size))
  other_blocks j low busy =
      let differs : i ≢ j = λ h. busy (ap (λ k. get_or p.allocated k 0) (sym h) ∙ head_block.1) in
      (get_or-set_ne p.allocated i j 1 0 differs, blocks_disjoint i j p.block_size differs)

  -- On a consistent pool with a free block, whose size in bytes is below 2 ^ 64, `Allocate` returns a
  -- block that lies in the storage, was not in use and is in use afterwards, and that overlaps no block
  -- in use; the number of available blocks falls by one.
  pub allocate_fresh :
      ((allocate p).0 ≡ block_at p i)
      × (i < p.block_count)
      × (owns p (allocate p).0 ≡ true)
      × (get_or p.allocated i 0 ≡ 0)
      × (get_or (allocate p).1.allocated i 0 ≡ 1)
      × (available_blocks (allocate p).1 + 1 ≡ available_blocks p)
      × ((j : ℕ)
          → j < p.block_count
          → get_or p.allocated j 0 ≢ 0
          → (get_or (allocate p).1.allocated j 0 ≡ get_or p.allocated j 0)
            × ((i * p.block_size + p.block_size ≤ j * p.block_size)
                ⊎ (j * p.block_size + p.block_size ≤ i * p.block_size)))
  unfolding available_blocks
  allocate_fresh = rw (allocate-head p i free e) (
    refl,
    head_block.0,
    owns-block_at p v fits i head_block.0,
    head_block.1,
    get_or-set_self p.allocated i 1 0 in_range,
    rw e (omega arith),
    other_blocks,
  )

  -- A block that `Allocate` returned can be handed back, and then the pool is as it was.
  deallocate-allocate : deallocate (allocate p).1 (allocate p).0 ≡ (true, p)
  deallocate-allocate = rw (allocate-head p i free e) (
      deallocate-block_at _ (rw (allocate-head p i free e) at (allocate-IsValid p v)) fits i
        head_block.0
      ∙ ground (
        arith,
        get_or-set_self p.allocated i 1 0 in_range,
        set-set_self p.allocated i 1 0
            (get_elem?-get_or p.allocated i 0 in_range ∙ ap some head_block.1),
      ))

-- On a consistent pool, a block that was handed back with success is refused when it is handed back
-- again, and the second call changes nothing.
deallocate_twice :
    (p : FixedBlockPool) (b : MemoryBlock)
    → IsValid p
    → Fits p
    → (deallocate p b).0 ≡ true
    → deallocate (deallocate p b).1 b ≡ (false, (deallocate p b).1)
deallocate_twice p b v fits h = elim ((deallocate_exact p v fits b).0) [
  | inr same ↦ absurd (ground arith)
  | inl (i, low, e, busy, done) ↦ rw done (
      ap (deallocate (put_back p i)) e
      ∙ deallocate-block_at (put_back p i) (rw done at (deallocate-IsValid p b v)) fits i low
      ∙ ground (arith, get_or-set_self p.allocated i 0 0 (omega (arith, v.balanced.flagged))))
]

-- `Allocate` on a consistent pool returns the null block exactly when as many blocks are in use as
-- the pool holds, and then changes nothing.
allocate_exhausted :
    (p : FixedBlockPool)
    → IsValid p
    → (sum p.allocated ≡ p.block_count → allocate p ≡ (null_block, p))
      × (sum p.allocated ≢ p.block_count → (allocate p).0 ≢ null_block)
unfolding allocate allocate_from
allocate_exhausted p v =
    (λ full. ground (arith, v.balanced.total), λ some_left. ground (arith, v.balanced.total))
