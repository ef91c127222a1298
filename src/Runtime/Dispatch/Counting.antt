-- ===== src/Runtime/Dispatch/Counting.antt =====
-- Sums over the nodes of a graph and over lists of task ids.
use mmo_server.Common.{
  ℕ, zero, suc, ◌+◌, ◌*◌, ◌≤◌, ◌<◌, ◌≡◌, refl, sym, ap, ◌∙◌, ◌⊎◌, inl, inr, List, [], ◌∷◌, ◌++◌,
  arith, length, count, ◌==◌, if◌then◌else◌,
}
use native.Mathlib.Decide.{ℕ_discrete}

abbrev pub sum_to : ℕ → (ℕ → ℕ) → ℕ
sum_to zero f = 0
sum_to (suc n) f = sum_to n f + f n

-- The sum of `f` over a list of tasks.
abbrev pub sum_over : (ℕ → ℕ) → List ℕ → ℕ
sum_over f [] = 0
sum_over f (t ∷ ts) = f t + sum_over f ts

pub sum_to-cong : (n : ℕ) (f g : ℕ → ℕ) → ((i : ℕ) → i < n → f i ≡ g i) → sum_to n f ≡ sum_to n g
sum_to-cong zero f g h = refl
sum_to-cong (suc n) f g h =
    omega (arith, h n (omega arith), sum_to-cong n f g (λ i p. h i (omega arith)))

pub sum_to-add : (n : ℕ) (f g : ℕ → ℕ) → sum_to n (λ i. f i + g i) ≡ sum_to n f + sum_to n g
sum_to-add zero f g = omega arith
sum_to-add (suc n) f g = omega (arith, sum_to-add n f g)

pub sum_to-zero : (n : ℕ) → sum_to n (λ _. 0) ≡ 0
sum_to-zero zero = refl
sum_to-zero (suc n) = omega (arith, sum_to-zero n)

pub sum_to-one : (n : ℕ) → sum_to n (λ _. 1) ≡ n
sum_to-one zero = refl
sum_to-one (suc n) = omega (arith, sum_to-one n)

pub sum_to-le : (n : ℕ) (f g : ℕ → ℕ) → ((i : ℕ) → i < n → f i ≤ g i) → sum_to n f ≤ sum_to n g
sum_to-le zero f g h = omega arith
sum_to-le (suc n) f g h =
    omega (arith, h n (omega arith), sum_to-le n f g (λ i p. h i (omega arith)))

-- Where each term is at most the other's and the sums agree, the terms agree.
pub sum_to-tight :
    (n : ℕ) (f g : ℕ → ℕ)
    → ((i : ℕ) → i < n → f i ≤ g i)
    → sum_to n f ≡ sum_to n g
    → (i : ℕ) → i < n
    → f i ≡ g i
sum_to-tight zero f g h e i p = absurd (omega arith)
sum_to-tight (suc n) f g h e i p =
    let below : sum_to n f ≤ sum_to n g = sum_to-le n f g (λ j q. h j (omega arith)) in
    elim (ℕ_discrete i n) [
      | yes at ↦ ap f at ∙ omega (arith, h n (omega arith)) ∙ ap g (sym at)
      | no ne ↦
          sum_to-tight n f g (λ j q. h j (omega arith)) (omega (arith, h n (omega arith))) i
            (omega arith)
    ]

-- The sum of an indicator.
pub sum_to-indicator :
    (n k : ℕ) (w : ℕ → ℕ) → k < n → sum_to n (λ i. (if k == i then 1 else 0) * w i) ≡ w k
sum_to-indicator zero k w p = absurd (omega arith)
sum_to-indicator (suc n) k w p = elim (ℕ_discrete k n) [
  | yes e ↦
      let below : sum_to n (λ i. (if k == i then 1 else 0) * w i) ≡ 0 =
        sum_to-cong n _ (λ _. 0) (λ i q. ground arith) ∙ sum_to-zero n in
      ground (arith, below, ap w e)
  | no ne ↦ ground (arith, sum_to-indicator n k w (omega arith))
]

pub sum_over-one : (ts : List ℕ) → sum_over (λ _. 1) ts ≡ length ts
sum_over-one [] = refl
sum_over-one (t ∷ ts) = omega (arith, sum_over-one ts)

pub sum_over-append :
    (f : ℕ → ℕ) (ts us : List ℕ) → sum_over f (ts ++ us) ≡ sum_over f ts + sum_over f us
sum_over-append f [] us = omega arith
sum_over-append f (t ∷ ts) us = omega (arith, sum_over-append f ts us)

-- A numbering of task ids: node `i` of `n` has id `id i`, and `index` finds it.
module _ (n : ℕ) (id index : ℕ → ℕ) (indexed : (i : ℕ) → i < n → index (id i) ≡ i) where
  abbrev pub IsTask : ℕ → Type 0
  IsTask t = (index t < n) × (id (index t) ≡ t)

  pub id-IsTask : (i : ℕ) → i < n → IsTask (id i)
  id-IsTask i h = (omega (arith, indexed i h), ap id (indexed i h))

  same_node : (t : ℕ) → IsTask t → (i : ℕ) → i < n → (t == id i) ≡ (index t == i)
  same_node t task i h = elim (ℕ_discrete (index t) i) [
    | yes e ↦ ground (arith, ap id e, task.1)
    | no ne ↦ ground (arith, indexed i h, ap index)
  ]

  head_task : (t : ℕ) (ts : List ℕ) → ((u : ℕ) → (count u (t ∷ ts) ≡ 0) ⊎ IsTask u) → IsTask t
  head_task t ts valid = elim (valid t) [ inl e ↦ absurd (ground arith) | inr task ↦ task ]

  tail_valid :
      (t : ℕ) (ts : List ℕ)
      → ((u : ℕ) → (count u (t ∷ ts) ≡ 0) ⊎ IsTask u)
      → (u : ℕ) → (count u ts ≡ 0) ⊎ IsTask u
  tail_valid t ts valid u = elim (valid u) [ inl e ↦ inl (omega arith) | inr task ↦ inr task ]

  share :
      (t : ℕ) (ts : List ℕ) (task : IsTask t) (f : ℕ → ℕ) (i : ℕ)
      → i < n
      → count (id i) (t ∷ ts) * f (id i)
        ≡ (if index t == i then 1 else 0) * f (id i) + count (id i) ts * f (id i)
  share t ts task f i h = rw (← same_node t task i h) (grind arith)

  -- A sum over tasks, task by task, is the sum over the nodes of each node's share.
  pub sum_over-nodes :
      (f : ℕ → ℕ) (ts : List ℕ)
      → ((t : ℕ) → (count t ts ≡ 0) ⊎ IsTask t)
      → sum_over f ts ≡ sum_to n (λ i. count (id i) ts * f (id i))
  sum_over-nodes f [] valid = sym (sum_to-cong n _ (λ _. 0) (λ i h. omega arith) ∙ sum_to-zero n)
  sum_over-nodes f (t ∷ ts) valid =
      let task : IsTask t = head_task t ts valid in
      omega (
        arith,
        sum_over-nodes f ts (tail_valid t ts valid),
        sum_to-cong n (λ i. count (id i) (t ∷ ts) * f (id i))
            (λ i. (if index t == i then 1 else 0) * f (id i) + count (id i) ts * f (id i))
            (λ i h. share t ts task f i h),
        sum_to-add n (λ i. (if index t == i then 1 else 0) * f (id i))
            (λ i. count (id i) ts * f (id i)),
        sum_to-indicator n (index t) (λ i. f (id i)) task.0,
        ap f task.1,
      )
