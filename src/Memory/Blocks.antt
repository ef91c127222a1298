-- ===== src/Memory/Blocks.antt =====
-- Which blocks `Owns` and `Deallocate` accept: addresses of blocks against indices.
use native.Mathlib.Decide.{dec_lt}
use native.Mathlib.Nat.{mod-eq_of_lt}
use mmo_server.Common.{
  ℕ, ◌+◌, ◌-◌, ◌*◌, ◌/◌, ◌%◌, ◌^◌, ◌≤◌, ◌<◌, ◌≡◌, ◌≢◌, ◌⊎◌, inl, inr, true, false, arith, get_or,
  ◌==◌, if◌then◌else◌, Bool-cases, Option-cases, ==_refl, ap, ◌∙◌,
}
use mmo_server.Memory.{FixedBlockPool, MemoryBlock, block_at, owns, deallocate}
use mmo_server.Memory.Invariant.{IsValid, put_back, offset-index}

block-mod : (i b : ℕ) → 0 < b → (i * b) % b ≡ 0
block-mod i b h = grind arith

block-div : (i b : ℕ) → 0 < b → (i * b) / b ≡ i
block-div i b h = grind arith

block-lt : (i b c : ℕ) → 0 < b → i < c → i * b < b * c
block-lt i b c pos h = grind arith

block_above : (i j b : ℕ) → i < j → i * b + b ≤ j * b
block_above i j b h = grind arith

-- Blocks of different indices do not overlap.
pub blocks_disjoint : (i j b : ℕ) → i ≢ j → (i * b + b ≤ j * b) ⊎ (j * b + b ≤ i * b)
blocks_disjoint i j b h = elim (dec_lt i j) [
  | yes p ↦ inl (grind arith)
  | no p ↦ inr (block_above j i b (omega arith))
]

exact_division : (o b : ℕ) → o % b ≡ 0 → o ≡ (o / b) * b
exact_division o b h = grind arith

-- The sizes of the blocks, multiplied out, fit in a `std::size_t`.
abbrev pub Fits : FixedBlockPool → Type 0
Fits p = p.block_size * p.block_count < 2 ^ 64

whole_size :
    (p : FixedBlockPool)
    → Fits p
    → p.block_size * p.block_count % 2 ^ 64 ≡ p.block_size * p.block_count
whole_size p h = mod-eq_of_lt h

module _ (p : FixedBlockPool) (v : IsValid p) (fits : Fits p) where
  -- A block of the pool is owned.
  pub owns-block_at : (i : ℕ) → i < p.block_count → owns p (block_at p i) ≡ true
  unfolding owns
  owns-block_at i low = ground (
    arith,
    whole_size p fits,
    block-lt i p.block_size p.block_count v.positive low,
    ==_refl p.block_size,
  )

  -- What `Deallocate` does with a block of the pool.
  pub deallocate-block_at :
      (i : ℕ)
      → i < p.block_count
      → deallocate p (block_at p i)
        ≡ (if get_or p.allocated i 0 == 0 then (false, p) else (true, put_back p i))
  unfolding deallocate
  deallocate-block_at i low = ground (
    arith,
    whole_size p fits,
    block-lt i p.block_size p.block_count v.positive low,
    block-mod i p.block_size v.positive,
    block-div i p.block_size v.positive,
  )

  -- What `Deallocate` accepts is a block of the pool that is in use.
  pub deallocate_accepts :
      (b : MemoryBlock)
      → (deallocate p b).0 ≡ true
      → (i : ℕ) × (i < p.block_count) × (b ≡ block_at p i) × (get_or p.allocated i 0 ≢ 0)
  unfolding deallocate
  deallocate_accepts b h = elim (Option-cases b.address) [
    | inl e ↦ absurd (ground arith)
    | inr (a, e) ↦ (
      (a - p.storage) / p.block_size,
      ground (
        arith,
        whole_size p fits,
        offset-index (a - p.storage) p.block_size p.block_count v.positive,
      ),
      ground (arith, exact_division (a - p.storage) p.block_size),
      ground arith,
    )
  ]

  deallocate-in_use :
      (i : ℕ)
      → i < p.block_count
      → get_or p.allocated i 0 ≢ 0
      → deallocate p (block_at p i) ≡ (true, put_back p i)
  deallocate-in_use i low busy = ground (arith, deallocate-block_at i low)

  deallocate_refuses : (b : MemoryBlock) → (deallocate p b).0 ≡ false → deallocate p b ≡ (false, p)
  unfolding deallocate
  deallocate_refuses b h = ground arith

  -- `Deallocate` on a consistent pool whose size fits in 64 bits, given any block: either the block
  -- is the one at some index below the capacity, with the block size and a flag that is set, and the
  -- call returns true and puts that index back; or the call returns false and changes nothing.
  -- The block at each index below the capacity whose flag is set is accepted.
  pub deallocate_exact :
      (b : MemoryBlock)
      → (((i : ℕ) × (i < p.block_count)
            × (b ≡ block_at p i)
            × (get_or p.allocated i 0 ≢ 0)
            × (deallocate p b ≡ (true, put_back p i)))
          ⊎ (deallocate p b ≡ (false, p)))
        × ((i : ℕ)
            → i < p.block_count
            → get_or p.allocated i 0 ≢ 0
            → deallocate p (block_at p i) ≡ (true, put_back p i))
  deallocate_exact b = (
    elim (Bool-cases (deallocate p b).0) [
      | inl h ↦
          let (i, low, e, busy) = deallocate_accepts b h in
          inl (i, low, e, busy, ap (deallocate p) e ∙ deallocate-in_use i low busy)
      | inr h ↦ inr (deallocate_refuses b h)
    ],
    deallocate-in_use,
  )
