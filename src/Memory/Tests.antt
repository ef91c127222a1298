-- ===== src/Memory/Tests.antt =====
-- A pool of three blocks of 16 bytes at address 4096, and the theorems at it.
use mmo_server.Common.{
  ℕ, ◌+◌, ◌*◌, ◌≤◌, ◌<◌, ◌≡◌, refl, ◌≢◌, ◌⊎◌, true, false, some, List, [], ◌∷◌, arith, get_or,
  returned,
}
use mmo_server.Memory.{
  FixedBlockPool, MemoryBlock, Call, allocates, deallocates, construct, fill, run, block_at, owns,
  allocate, deallocate, available_blocks,
}
use mmo_server.Memory.Invariant.{IsValid, put_back, run-construct-IsValid}
use mmo_server.Memory.Blocks.{deallocate_exact}
use mmo_server.Memory.Lifecycle.{allocate_fresh}

abbrev fresh_pool : FixedBlockPool
fresh_pool = record {
  storage = 4096;
  free_list = 0 ∷ 1 ∷ 2 ∷ [];
  allocated = 0 ∷ 0 ∷ 0 ∷ [];
  block_size = 16;
  block_count = 3;
}

abbrev second_block : MemoryBlock
second_block = record { address = some 4112; size = 16 }

abbrev history : List Call
history = allocates ∷ allocates ∷ deallocates second_block ∷ []

construct_three : construct 4096 16 3 ≡ returned fresh_pool
unfolding construct fill
construct_three = refl

-- The pool with blocks 0 and 1 in use.
abbrev used_pool : FixedBlockPool
used_pool = record fresh_pool { free_list = 2 ∷ []; allocated = 1 ∷ 1 ∷ 0 ∷ [] }

run_two : run fresh_pool (allocates ∷ allocates ∷ []) ≡ used_pool
unfolding run
run_two = refl

fresh_pool-IsValid : IsValid fresh_pool
unfolding run
fresh_pool-IsValid = run-construct-IsValid 4096 16 3 [] construct_three

used_pool-IsValid : IsValid used_pool
unfolding run
used_pool-IsValid = run-construct-IsValid 4096 16 3 (allocates ∷ allocates ∷ []) construct_three

run-construct-IsValid_example : IsValid (run fresh_pool history)
run-construct-IsValid_example = run-construct-IsValid 4096 16 3 history construct_three

deallocate_exact_example :
    (((i : ℕ) × (i < 3)
        × (second_block ≡ block_at used_pool i)
        × (get_or used_pool.allocated i 0 ≢ 0)
        × (deallocate used_pool second_block ≡ (true, put_back used_pool i)))
      ⊎ (deallocate used_pool second_block ≡ (false, used_pool)))
    × ((i : ℕ)
        → i < 3
        → get_or used_pool.allocated i 0 ≢ 0
        → deallocate used_pool (block_at used_pool i) ≡ (true, put_back used_pool i))
deallocate_exact_example = deallocate_exact used_pool used_pool-IsValid (omega arith) second_block

allocate_fresh_example :
    ((allocate used_pool).0 ≡ block_at used_pool 2)
    × (2 < used_pool.block_count)
    × (owns used_pool (allocate used_pool).0 ≡ true)
    × (get_or used_pool.allocated 2 0 ≡ 0)
    × (get_or (allocate used_pool).1.allocated 2 0 ≡ 1)
    × (available_blocks (allocate used_pool).1 + 1 ≡ available_blocks used_pool)
    × ((j : ℕ)
        → j < used_pool.block_count
        → get_or used_pool.allocated j 0 ≢ 0
        → (get_or (allocate used_pool).1.allocated j 0 ≡ get_or used_pool.allocated j 0)
          × ((2 * used_pool.block_size + used_pool.block_size ≤ j * used_pool.block_size)
              ⊎ (j * used_pool.block_size + used_pool.block_size ≤ 2 * used_pool.block_size)))
allocate_fresh_example = allocate_fresh used_pool 2 [] used_pool-IsValid (omega arith) refl
