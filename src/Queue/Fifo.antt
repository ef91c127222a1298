-- ===== src/Queue/Fifo.antt =====
-- What the queues promise: a first-in first-out list of at most `capacity` items.
use mmo_server.Common.{
  ℕ, Bool, true, false, Option, none, some, List, [], ◌∷◌, ◌++◌, length, ltb, if◌then◌else◌,
}

-- A client's call, and what it returns: `Dequeue` returns true with an item, or false.
pub data Call {ℓ} (A : Type ℓ) : Type ℓ where
  enqueues : A → Call A
  dequeues : Call A

pub data Reply {ℓ} (A : Type ℓ) : Type ℓ where
  accepted : Bool → Reply A
  taken : Option A → Reply A

module _ {ℓ} {A : Type ℓ} where
  unfoldable pub step : ℕ → List A → Call A → Reply A × List A
  step capacity xs (enqueues x) =
      if ltb (length xs) capacity then (accepted true, xs ++ x ∷ []) else (accepted false, xs)
  step capacity [] dequeues = (taken none, [])
  step capacity (x ∷ xs) dequeues = (taken (some x), xs)

  -- The replies to a sequence of calls, and what the queue holds after it.
  unfoldable pub run : ℕ → List A → List (Call A) → List (Reply A) × List A
  unfolding step
  run capacity xs [] = ([], xs)
  run capacity xs (c ∷ cs) =
      let (r, ys) = step capacity xs c in let (rs, zs) = run capacity ys cs in (r ∷ rs, zs)
