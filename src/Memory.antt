-- ===== src/Memory.antt =====
-- infrastructure/memory_pool: FixedBlockPool, a pool of equal blocks cut from one allocation.
-- An address is a number; `none` is the null pointer. The address that `make_unique` returns is
-- the constructor's argument `storage`. `std::size_t` products wrap at 2 ^ 64.
pub mod Invariant
pub mod Blocks
pub mod Lifecycle
mod Tests
use mmo_server.Common.{
  ℕ, zero, suc, ◌+◌, ◌-◌, ◌*◌, ◌/◌, ◌%◌, ◌^◌, Bool, true, false, not, ◌&&◌, Option, none, some,
  List, [], ◌∷◌, length, get_or, set, replicate, ltb, leb, ◌==◌, if◌then◌else◌, Result, returned,
  thrown, invalid_argument,
}

-- `struct MemoryBlock`
pub record MemoryBlock : Type 0 where
  pub address : Option ℕ
  pub size : ℕ

-- `MemoryBlock{}`
abbrev pub null_block : MemoryBlock
null_block = record { address = none; size = 0 }

-- `free_list` is the vector `m_freeList` read from its back; `allocated` holds one byte a block.
pub record FixedBlockPool : Type 0 where
  pub storage : ℕ
  pub free_list : List ℕ
  pub allocated : List ℕ
  pub block_size : ℕ
  pub block_count : ℕ

-- The constructor's loop, with `n` rounds left and `i` the counter.
unfoldable pub fill : ℕ → ℕ → ℕ → List ℕ → List ℕ
fill zero i block_count free = free
fill (suc n) i block_count free = fill n (i + 1) block_count ((block_count - 1 - i) ∷ free)

unfoldable pub construct : ℕ → ℕ → ℕ → Result FixedBlockPool
construct storage block_size block_count =
    if block_size == 0
    then thrown invalid_argument
    else if block_count == 0
    then thrown invalid_argument
    else returned (record {
      storage = storage;
      free_list = fill block_count 0 block_count [];
      allocated = replicate block_count 0;
      block_size = block_size;
      block_count = block_count;
    })

unfoldable pub is_valid : MemoryBlock → Bool
is_valid b = elim b.address [ none ↦ false | some a ↦ true ]

-- `m_storage.get() + index * m_blockSize`, with the block's size
abbrev pub block_at : FixedBlockPool → ℕ → MemoryBlock
block_at p i = record { address = some (p.storage + i * p.block_size); size = p.block_size }

allocate_from : FixedBlockPool → List ℕ → MemoryBlock × FixedBlockPool
allocate_from p [] = (null_block, p)
allocate_from p (index ∷ free) =
    (block_at p index, record p { free_list = free; allocated = set p.allocated index 1 })

unfoldable pub allocate : FixedBlockPool → MemoryBlock × FixedBlockPool
unfolding allocate_from
allocate p = allocate_from p p.free_list

-- The range test of `Owns` on an address that is not null.
owns_address : FixedBlockPool → ℕ → ℕ → Bool
owns_address p a size =
    leb p.storage a
    && (ltb a (p.storage + p.block_size * p.block_count % 2 ^ 64) && size == p.block_size)

unfoldable pub owns : FixedBlockPool → MemoryBlock → Bool
unfolding owns_address
owns p b = elim b.address [ none ↦ false | some a ↦ owns_address p a b.size ]

-- `Deallocate` behind the test of `Owns`, at the offset of the block.
release_offset : FixedBlockPool → ℕ → Bool × FixedBlockPool
release_offset p offset =
    if not (offset % p.block_size == 0)
    then (false, p)
    else if get_or p.allocated (offset / p.block_size) 0 == 0
    then (false, p)
    else (
      true,
      record p {
        free_list = (offset / p.block_size) ∷ p.free_list;
        allocated = set p.allocated (offset / p.block_size) 0;
      },
    )

unfoldable pub deallocate : FixedBlockPool → MemoryBlock → Bool × FixedBlockPool
unfolding owns release_offset
deallocate p b = elim b.address [
  | none ↦ (false, p)
  | some a ↦ if owns_address p a b.size then release_offset p (a - p.storage) else (false, p)
]

abbrev pub capacity : FixedBlockPool → ℕ
capacity p = p.block_count

unfoldable pub available_blocks : FixedBlockPool → ℕ
available_blocks p = length p.free_list

-- The calls of a client.
pub data Call : Type 0 where
  allocates : Call
  deallocates : MemoryBlock → Call

unfoldable pub step : FixedBlockPool → Call → FixedBlockPool
unfolding allocate deallocate
step p allocates = (allocate p).1
step p (deallocates b) = (deallocate p b).1

unfoldable pub run : FixedBlockPool → List Call → FixedBlockPool
unfolding step
run p [] = p
run p (c ∷ cs) = run (step p c) cs
