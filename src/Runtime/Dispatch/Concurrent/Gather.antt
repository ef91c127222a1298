-- ===== src/Runtime/Dispatch/Concurrent/Gather.antt =====
-- What the workers hold between them, as one list.
use native.Mathlib.Decide.{dec_lt, ℕ_discrete}
use mmo_server.Common.{
  ℕ, zero, suc, ◌+◌, ◌≤◌, ◌<◌, ◌≡◌, ◌≢◌, refl, List, [], ◌∷◌, ◌++◌, arith, length, count,
  count-append, update,
}

module _ {P : Type 0} (f : P → List ℕ) where
  abbrev pub gather : ℕ → (ℕ → P) → List ℕ
  gather zero pc = []
  gather (suc n) pc = f (pc n) ++ gather n pc

  gather-update_above :
      (n : ℕ) (pc : ℕ → P) (i : ℕ) (p : P) → n ≤ i → gather n (update pc i p) ≡ gather n pc
  gather-update_above zero pc i p h = refl
  gather-update_above (suc n) pc i p h = ground (arith, gather-update_above n pc i p)

  -- A worker that moves exchanges what it holds.
  pub gather-update :
      (n : ℕ) (pc : ℕ → P) (i : ℕ) (p : P) (c : ℕ)
      → i < n
      → count c (gather n (update pc i p)) + count c (f (pc i))
        ≡ count c (gather n pc) + count c (f p)
  gather-update zero pc i p c h = absurd (omega arith)
  gather-update (suc n) pc i p c h = elim (dec_lt i n) [
    | yes below ↦ ground (
      arith,
      gather-update n pc i p c below,
      count-append c (f (update pc i p n)) (gather n (update pc i p)),
      count-append c (f (pc n)) (gather n pc),
    )
    | no last ↦ ground (
      arith,
      gather-update_above n pc i p,
      count-append c (f (update pc i p n)) (gather n (update pc i p)),
      count-append c (f (pc n)) (gather n pc),
    )
  ]

  pub gather-none : (n : ℕ) (pc : ℕ → P) → ((i : ℕ) → i < n → f (pc i) ≡ []) → gather n pc ≡ []
  gather-none zero pc h = refl
  gather-none (suc n) pc h =
      ground (arith, h n (omega arith), gather-none n pc (λ i k. h i (omega arith)))

-- Who holds `a` of one kind holds `k` of `b` of another.
pub gather-le :
    {P : Type 0} (f h : P → List ℕ) (a b k : ℕ)
    → ((x : P) → count a (f x) ≢ 0 → k ≤ count b (h x))
    → (n : ℕ) (pc : ℕ → P) → count a (gather f n pc) ≢ 0
    → k ≤ count b (gather h n pc)
gather-le f h a b k each zero pc some_a = absurd (some_a refl)
gather-le f h a b k each (suc n) pc some_a = elim (ℕ_discrete (count a (f (pc n))) 0) [
  | no ne ↦ omega (arith, each (pc n) ne, count-append b (h (pc n)) (gather h n pc))
  | yes e ↦ omega (
    arith,
    gather-le f h a b k each n pc (omega (arith, count-append a (f (pc n)) (gather f n pc))),
    count-append b (h (pc n)) (gather h n pc),
  )
]

pub count-le-length : (c : ℕ) (xs : List ℕ) → count c xs ≤ length xs
count-le-length c [] = omega arith
count-le-length c (x ∷ xs) = ground (arith, count-le-length c xs)
