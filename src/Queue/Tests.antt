-- ===== src/Queue/Tests.antt =====
-- A queue of four places whose counters are about to wrap, and the theorems at it.
use mmo_server.Common.{
  ℕ, zero, suc, ◌+◌, ◌-◌, ◌%◌, ◌^◌, ◌≤◌, ◌<◌, ◌≡◌, refl, ap, true, Option, none, some, List, [],
  ◌∷◌, arith, length, get_elem?, ◌==◌, if◌then◌else◌,
}
use mmo_server.Queue.{IsCapacity, Queue, wrap}
use mmo_server.Queue.Fifo
use mmo_server.Queue.Fifo.{Call, enqueues, dequeues, Reply, accepted, taken}
use mmo_server.Queue.Window.{Holds}
use mmo_server.Queue.Mpmc
use mmo_server.Queue.Mpsc
use mmo_server.Queue.Mpmc.Refinement.{run_refines, approx_size-Holds}
use mmo_server.Queue.Mpsc.Refinement.{single_consumer_refines}

pub four-IsCapacity : IsCapacity 4
four-IsCapacity = record {
  rounds = 2 ^ 62;
  divides = omega arith;
  at_least_two = omega arith;
  addressable = omega arith;
}

abbrev last_position : ℕ
last_position = 2 ^ 64 - 1

-- One item at the last position before the counters wrap.
abbrev wrapping : Queue ℕ
wrapping = record {
  slots = λ i. record { sequence = if i == 3 then 0 else i; item = 7 };
  head = last_position;
  tail = 0;
}

wrapping-Holds : Holds 4 wrapping last_position (7 ∷ [])
wrapping-Holds = record {
  room = omega arith;
  head_at = refl;
  tail_at = refl;
  filled = one;
  vacant = rest;
}
  where
    value_of : Option ℕ → ℕ
    value_of none = 0
    value_of (some x) = x

    one :
        (j : ℕ) (x : ℕ)
        → get_elem? (7 ∷ []) j ≡ some x
        → wrapping.slots ((last_position + j) % 4)
          ≡ record { sequence = wrap (last_position + j + 1); item = x }
    one zero x e = ap (λ y. record { sequence = 0; item = value_of y }) e
    one (suc j) x e = cc

    rest :
        (j : ℕ)
        → length {A = ℕ} (7 ∷ []) ≤ j
        → j < 4
        → (wrapping.slots ((last_position + j) % 4)).sequence ≡ wrap (last_position + j)
    rest zero h k = absurd (omega arith)
    rest (suc zero) h k = refl
    rest (suc (suc zero)) h k = refl
    rest (suc (suc (suc zero))) h k = refl
    rest (suc (suc (suc (suc j)))) h k = absurd (omega arith)

abbrev calls : List (Call ℕ)
calls = enqueues 8 ∷ dequeues ∷ dequeues ∷ dequeues ∷ []

run_refines_example :
    (q' : Queue ℕ) × (h' : ℕ) × (Mpmc.run 4 1 wrapping calls
      ≡ some (accepted true ∷ taken (some 7) ∷ taken (some 8) ∷ taken none ∷ [], q'))
    × Holds 4 q' h' []
unfolding Fifo.run Fifo.step
run_refines_example =
    run_refines 4 four-IsCapacity 0 wrapping last_position (7 ∷ []) calls wrapping-Holds

single_consumer_refines_example :
    (q' : Queue ℕ) × (h' : ℕ) × (Mpsc.run 4 1 wrapping calls
      ≡ some (accepted true ∷ taken (some 7) ∷ taken (some 8) ∷ taken none ∷ [], q'))
    × Holds 4 q' h' []
unfolding Fifo.run Fifo.step
single_consumer_refines_example =
    single_consumer_refines 4 four-IsCapacity 0 wrapping last_position (7 ∷ []) calls wrapping-Holds

approx_size-Holds_example :
    (wrap last_position + 1 < 2 ^ 64 → Mpmc.approx_size wrapping ≡ 1)
    × (2 ^ 64 ≤ wrap last_position + 1 → Mpmc.approx_size wrapping ≡ 0)
approx_size-Holds_example =
    approx_size-Holds 4 four-IsCapacity wrapping last_position (7 ∷ []) wrapping-Holds
