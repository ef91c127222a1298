-- ===== src/Memory/Invariant.antt =====
-- What every call on a FixedBlockPool keeps: the free list and the flags describe one set of blocks.
use mmo_server.Common.{
  ℕ, zero, suc, ◌+◌, ◌-◌, ◌*◌, ◌/◌, ◌≤◌, ◌<◌, ◌≡◌, refl, ◌≢◌, inl, inr, List, [], ◌∷◌, arith,
  length, get_or, set, replicate, count, sum, length-set, length-replicate, get_or-set_self,
  get_or-set_ne, sum-set, sum-replicate_zero, get_or-replicate, subst, Option-cases, ltb,
  if◌then◌else◌, returned,
}
use native.Mathlib.Nat.{div-lt_iff_lt-mul, mul_comm}
use native.Mathlib.Decide.{ℕ_discrete, dec_lt}
use mmo_server.Memory.{
  FixedBlockPool, MemoryBlock, Call, allocates, deallocates, fill, construct, allocate,
  allocate_from, deallocate, step, run,
}

-- Block `i` of `n` is in the free list once if its flag is 0, and nowhere if its flag is 1; no
-- other index is in the list.
pub record IsBalanced (n : ℕ) (free flags : List ℕ) : Type 0 where
  pub flagged : length flags ≡ n
  pub balance : (i : ℕ) → i < n → count i free + get_or flags i 0 ≡ 1
  pub bounded : (i : ℕ) → n ≤ i → count i free ≡ 0
  pub total : length free + sum flags ≡ n

module _ {n x : ℕ} {free flags : List ℕ} where
  -- The head of the free list is a block whose flag is 0.
  pub head_free : IsBalanced n (x ∷ free) flags → (x < n) × (get_or flags x 0 ≡ 0)
  head_free v = elim (dec_lt x n) [
    | yes h ↦ (h, ground (arith, v.balance x h))
    | no h ↦ absurd (ground (arith, v.bounded x (omega arith)))
  ]

  pub take-IsBalanced : IsBalanced n (x ∷ free) flags → IsBalanced n free (set flags x 1)
  take-IsBalanced v =
      let (low, zeroed) = head_free v in
      record {
        flagged = omega (arith, length-set flags x 1, v.flagged);
        balance = λ i h. elim (ℕ_discrete x i) [
          | yes e ↦
              ground
                (arith, v.balance x low, get_or-set_self flags x 1 0 (omega (arith, v.flagged)))
          | no e ↦ ground (arith, v.balance i h, get_or-set_ne flags x i 1 0 e)
        ];
        bounded = λ i h. ground (arith, v.bounded i h);
        total = omega (arith, v.total, sum-set flags x 1 0 (omega (arith, v.flagged)));
      }

  pub put-IsBalanced :
      x < n
      → get_or flags x 0 ≢ 0
      → IsBalanced n free flags
      → IsBalanced n (x ∷ free) (set flags x 0)
  put-IsBalanced low busy v = record {
    flagged = omega (arith, length-set flags x 0, v.flagged);
    balance = λ i h. elim (ℕ_discrete x i) [
      | yes e ↦
          ground (arith, v.balance x low, get_or-set_self flags x 0 0 (omega (arith, v.flagged)))
      | no e ↦ ground (arith, v.balance i h, get_or-set_ne flags x i 0 0 e)
    ];
    bounded = λ i h. ground (arith, v.bounded i h);
    total = omega (arith, v.total, v.balance x low, sum-set flags x 0 0 (omega (arith, v.flagged)));
  }

pub record IsValid (p : FixedBlockPool) : Type 0 where
  pub positive : 0 < p.block_size
  pub balanced : IsBalanced p.block_count p.free_list p.allocated

-- The constructor's list holds each index below `b` once, after `b` rounds.
count-fill :
    (k i b c : ℕ) (free : List ℕ)
    → k + i ≡ b
    → count c (fill k i b free) ≡ count c free + (if ltb c k then 1 else 0)
unfolding fill
count-fill zero i b c free e = ground arith
count-fill (suc k) i b c free e =
    ground (arith, count-fill k (i + 1) b c ((b - 1 - i) ∷ free) (omega arith))

length-fill : (k i b : ℕ) (free : List ℕ) → length (fill k i b free) ≡ k + length free
unfolding fill
length-fill zero i b free = omega arith
length-fill (suc k) i b free = omega (arith, length-fill k (i + 1) b ((b - 1 - i) ∷ free))

fill-IsBalanced : (b : ℕ) → IsBalanced b (fill b 0 b []) (replicate b 0)
fill-IsBalanced b = record {
  flagged = length-replicate b 0;
  balance = λ i h. ground (arith, count-fill b 0 b i [], get_or-replicate b i 0 0 h);
  bounded = λ i h. ground (arith, count-fill b 0 b i []);
  total = omega (arith, length-fill b 0 b [], sum-replicate_zero b);
}

construct-IsValid :
    (storage size blocks : ℕ) {p : FixedBlockPool}
    → construct storage size blocks ≡ returned p
    → IsValid p
unfolding construct
construct-IsValid storage size blocks e = ground (arith, fill-IsBalanced blocks)

allocate_from-IsValid :
    (p : FixedBlockPool) (free : List ℕ)
    → p.free_list ≡ free
    → IsValid p
    → IsValid (allocate_from p free).1
unfolding allocate_from
allocate_from-IsValid p [] e v = v
allocate_from-IsValid p (index ∷ free) e v = record {
  positive = v.positive;
  balanced = take-IsBalanced (subst (λ l. IsBalanced p.block_count l p.allocated) e v.balanced);
}

pub allocate-IsValid : (p : FixedBlockPool) → IsValid p → IsValid (allocate p).1
unfolding allocate
allocate-IsValid p v = allocate_from-IsValid p p.free_list refl v

-- An offset below the whole size falls in a block of the pool.
pub offset-index : (o b c : ℕ) → 0 < b → o < b * c → o / b < c
offset-index o b c positive h = (div-lt_iff_lt-mul positive).1 (omega (arith, mul_comm b c))

-- The pool after a block is put back.
abbrev pub put_back : FixedBlockPool → ℕ → FixedBlockPool
put_back p i = record p { free_list = i ∷ p.free_list; allocated = set p.allocated i 0 }

-- `Deallocate` leaves the pool alone, or puts back a block that is in use.
pub deallocate_cases :
    (P : FixedBlockPool → Type 0) (p : FixedBlockPool) (b : MemoryBlock)
    → IsValid p
    → P p
    → ((i : ℕ) → i < p.block_count → get_or p.allocated i 0 ≢ 0 → P (put_back p i))
    → P (deallocate p b).1
unfolding deallocate
deallocate_cases P p b v refused released = elim (Option-cases b.address) [
  | inl e ↦ rw (e, deallocate) refused
  | inr (a, e) ↦
      rw (e, deallocate)
        (ground (
          arith,
          released ((a - p.storage) / p.block_size),
          offset-index (a - p.storage) p.block_size p.block_count v.positive,
        ))
]

pub deallocate-IsValid :
    (p : FixedBlockPool) (b : MemoryBlock) → IsValid p → IsValid (deallocate p b).1
deallocate-IsValid p b v =
    deallocate_cases IsValid p b v v
      λ i low busy. record { positive = v.positive; balanced = put-IsBalanced low busy v.balanced }

-- Every call keeps the pool consistent, whatever block a client hands back.
pub step-IsValid : (p : FixedBlockPool) (c : Call) → IsValid p → IsValid (step p c)
unfolding step
step-IsValid p allocates v = allocate-IsValid p v
step-IsValid p (deallocates b) v = deallocate-IsValid p b v

run-IsValid : (p : FixedBlockPool) (cs : List Call) → IsValid p → IsValid (run p cs)
unfolding run
run-IsValid p [] v = v
run-IsValid p (c ∷ cs) v = run-IsValid (step p c) cs (step-IsValid p c v)

-- A pool that the constructor returns is consistent, and stays so after any sequence of calls to
-- `Allocate` and `Deallocate`, whatever blocks are handed back: the flags are one a block; a block
-- stands in the free list exactly once if its flag is 0 and not at all otherwise; and free blocks
-- and blocks in use add up to the capacity.
pub run-construct-IsValid :
    (storage size blocks : ℕ) (cs : List Call) {p : FixedBlockPool}
    → construct storage size blocks ≡ returned p
    → IsValid (run p cs)
run-construct-IsValid storage size blocks cs e =
    run-IsValid _ cs (construct-IsValid storage size blocks e)
