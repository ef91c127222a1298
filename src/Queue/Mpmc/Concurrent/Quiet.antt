-- ===== src/Queue/Mpmc/Concurrent/Quiet.antt =====
-- An MPMCQueue that no thread is in: what threads have left is what the calls of one thread start from.
use native.Mathlib.Nat.{add-mod_right, mod-eq_of_lt}
use native.Mathlib.Decide.{dec_lt, ℕ_discrete}
use mmo_server.Common.{
  ℕ, ◌+◌, ◌-◌, ◌%◌, ◌^◌, ◌≤◌, ◌<◌, ◌≡◌, sym, ap, ◌∙◌, ◌⊎◌, inl, inr, subst, update, update_ne, some,
  length, arith, List, [], ◌∷◌, get_elem?, drop, length-drop, get_elem?-lt, zero, suc, ap₂,
}
use mmo_server.Queue.{IsCapacity, Queue, construct}
use mmo_server.Queue.Fifo
use mmo_server.Queue.Fifo.{Call}
use mmo_server.Queue.Mpmc.{run}
use mmo_server.Queue.Mpmc.Refinement.{run_refines}
use mmo_server.Queue.Window.{Holds}
use mmo_server.Queue.Mpmc.Concurrent.{
  Shared, Pc, slot, Move, System, pick, init, Reach, start, later,
}
use mmo_server.Queue.Mpmc.Concurrent.Invariant.{reads, Inv}
use mmo_server.Queue.Mpmc.Concurrent.Tickets.{writes-lt, reads-lt}
use mmo_server.Queue.Mpmc.Concurrent.Memory.{Move-entered}
use mmo_server.Queue.Mpmc.Concurrent.Safety.{construct-sequence, Reach-Inv}
use mmo_server.Queue.Mpmc.Concurrent.Ring.{
  same_place, Ring, Move-heads, Move-tails, Move-sequences, Move-handed_on, Move-unread,
  Move-bounded, Move-held,
}

module _ {A : Type 0} (capacity : ℕ) (c : IsCapacity capacity) {m : Shared A} {pc : ℕ → Pc A}
    (inv : Inv capacity m pc) (ring : Ring capacity m pc) (i : ℕ) {m' : Shared A} {p' : Pc A}
    (mv : Move capacity m (pc i) m' p') where
  low : m.queue.tail < 2 ^ 63
  low = omega (arith, inv.tail_at, inv.few)

  -- A slot that is free stays so; what a consumer hands on carries the number of the next round.
  still_free :
      (pos : ℕ)
      → m.queue.tail ≤ pos
      → pos < m.queue.head + capacity
      → (slot capacity m pos).sequence ≡ pos
      → (slot capacity m' pos).sequence ≡ pos
  still_free pos above below e = elim (Move-sequences capacity mv (pos % capacity)) [
    | inl same ↦ same ∙ e
    | inr (inl (r, own, at)) ↦
        let unread : m.queue.head ≤ r = ring.unread i r own in
        let lt : r < m.queue.tail = writes-lt capacity m (pc i) r (inv.fresh i) own in
        absurd (
          omega (
            arith,
            lt,
            above,
            same_place capacity m.queue.head r pos unread (omega (arith, lt, above, below))
                (omega (arith, inv.ordered, above)) below at,
          ))
    | inr (inr (q, own, at, next)) ↦
        let lt : q < m.queue.head = reads-lt capacity m (pc i) q (inv.fresh i) own in
        let held : m.queue.tail ≤ q + capacity = ring.held i q own in
        let same : q + capacity ≡ pos =
          same_place capacity m.queue.head (q + capacity) pos (omega (arith, inv.ordered, held))
            (omega (arith, lt)) (omega (arith, inv.ordered, above)) below
            (add-mod_right q capacity ∙ at) in
        omega (arith, next, same, below, inv.ordered, low, c.addressable)
  ]

  Move-free :
      (pos : ℕ)
      → m'.queue.tail ≤ pos
      → pos < m'.queue.head + capacity
      → ((slot capacity m' pos).sequence ≡ pos)
        ⊎ ((j : ℕ) × (q : ℕ) × (reads (update pc i p' j) ≡ some q) × (q + capacity ≡ pos))
  Move-free pos above below = elim (dec_lt pos (m.queue.head + capacity)) [
    | no new ↦ elim (Move-heads capacity mv (omega (arith, inv.ordered, low)) (inv.fresh i)) [
      | inl same ↦ absurd (omega (arith, same, new, below))
      | inr (next, _, _, _, taken) ↦
          inr (i, m.queue.head, (ground (arith, taken)), omega (arith, next, new, below))
    ]
    | yes old ↦ elim (ring.free pos above' old) [
      | inl e ↦ inl (still_free pos above' old e)
      | inr (j, q, e, at) ↦ elim (ℕ_discrete i j) [
        | no ne ↦ inr (j, q, (ap reads (update_ne pc i j p' ne) ∙ e), at)
        | yes here ↦
            elim (Move-handed_on capacity mv q (subst (λ k. reads (pc k) ≡ some q) (sym here) e)) [
              | inl kept ↦ inr (i, q, (ground (arith, kept)), at)
              | inr next ↦ inl (
                  ap (λ (k : ℕ). (m'.queue.slots k).sequence)
                    (ap (λ (k : ℕ). k % capacity) (sym at) ∙ add-mod_right q capacity)
                  ∙ next
                  ∙ omega (arith, at, old, inv.ordered, low, c.addressable))
            ]
      ]
    ]
  ]
    where
      above' : m.queue.tail ≤ pos
      above' = elim (Move-tails capacity mv low (inv.fresh i)) [
        | inl same ↦ omega (arith, same, above)
        | inr (more, _, _, _) ↦ omega (arith, more, above)
      ]

module _ {A : Type 0} {capacity : ℕ} (c : IsCapacity capacity) where
  Reach-Ring :
      {d : A} {s : System A}
      → Reach capacity d s
      → length s.mem.entered < 2 ^ 63
      → Ring capacity s.mem s.pc
  unfolding init construct
  Reach-Ring {d} start few = record {
    unread = λ j r e. cc;
    held = λ j q e. cc;
    bounded = omega arith;
    free = λ pos above below. inl (
        ground
          (arith, construct-sequence c d (pos % capacity), native_mod pos below, c.addressable));
  }
    where
      native_mod : (pos : ℕ) → pos < 0 + capacity → pos % capacity ≡ pos
      native_mod pos h = mod-eq_of_lt (omega (arith, h))
  Reach-Ring (later {s} r (pick i mv)) few =
      let few' : length s.mem.entered < 2 ^ 63 = omega (arith, Move-entered capacity mv, few) in
      let inv = Reach-Inv c r few' in
      let ring = Reach-Ring r few' in
      record {
        unread = Move-unread capacity c inv ring i mv;
        held = Move-held capacity c inv ring i mv;
        bounded = Move-bounded capacity c inv ring i mv;
        free = Move-free capacity c inv ring i mv;
      }

get_elem?-drop :
    {A : Type 0} (n : ℕ) (xs : List A) (j : ℕ) (x : A)
    → get_elem? (drop n xs) j ≡ some x
    → (get_elem? xs (n + j) ≡ some x) × (n + j < length xs)
get_elem?-drop zero xs j x e =
    let at : zero + j ≡ j = omega arith in
    (ap (get_elem? xs) at ∙ e, omega (arith, get_elem?-lt xs j x e))
get_elem?-drop (suc n) [] j x e = cc
get_elem?-drop (suc n) (y ∷ xs) j x e =
    let (found, below) = get_elem?-drop n xs j x e in
    let at : suc n + j ≡ suc (n + j) = omega arith in
    (ap (get_elem? (y ∷ xs)) at ∙ found, omega (arith, below))

module _ {A : Type 0} {capacity : ℕ} (c : IsCapacity capacity) {d : A} {s : System A}
    (r : Reach capacity d s) (few : length s.mem.entered < 2 ^ 63)
    (outside : (i : ℕ) → s.pc i ≡ Pc.idle) where
  inv : Inv capacity s.mem s.pc
  inv = Reach-Inv c r few

  ring : Ring capacity s.mem s.pc
  ring = Reach-Ring c r few

  -- A queue that no thread is in holds the items that have entered and not been won.
  quiet-Holds : Holds capacity s.mem.queue s.mem.queue.head (drop s.mem.queue.head s.mem.entered)
  quiet-Holds = record {
    room = omega (arith, size, inv.tail_at, ring.bounded);
    head_at = omega (arith, inv.ordered, inv.tail_at, few);
    tail_at = omega (arith, size, inv.ordered, inv.tail_at, few);
    filled = λ j x e.
        let (found, below) = get_elem?-drop s.mem.queue.head s.mem.entered j x e in
        let pos : ℕ = s.mem.queue.head + j in
        elim (inv.waiting pos (omega (arith, below, inv.tail_at)) (omega arith)) [
          | inl seq ↦
              let here : some (slot capacity s.mem pos).item ≡ some x =
                sym ((inv.published pos seq).1 (omega arith)) ∙ found in
              ap₂ (λ n y. record { sequence = n; item = y }) (seq ∙ omega (arith, below, few)) (cc)
          | inr (i, e') ↦ absurd (ground (arith, outside i, e'))
        ];
    vacant = λ j above low.
        let pos : ℕ = s.mem.queue.head + j in
        elim (ring.free pos (omega (arith, size, inv.tail_at, above)) (omega (arith, low))) [
          | inl seq ↦ seq ∙ omega (arith, low, inv.ordered, inv.tail_at, few, c.addressable)
          | inr (i, q, e', _) ↦ absurd (ground (arith, outside i, e'))
        ];
  }
    where
      size : length (drop s.mem.queue.head s.mem.entered) ≡ length s.mem.entered - s.mem.queue.head
      size = length-drop s.mem.queue.head s.mem.entered

  -- When every thread has returned from its calls on an MPMCQueue, after any interleaving in which
  -- fewer than 2 ^ 63 items have entered, the calls that one thread then makes with no other in between
  -- end without spinning and give the replies of the bounded FIFO that holds the items that have
  -- entered less those at the positions that consumers have won, and the queue then holds what that
  -- FIFO holds.
  pub rest_refines :
      (fuel : ℕ) (cs : List (Call A))
      → (q' : Queue A) × (h' : ℕ) × (run capacity (suc fuel) s.mem.queue cs
          ≡ some ((Fifo.run capacity (drop s.mem.queue.head s.mem.entered) cs).0, q'))
        × Holds capacity q' h' (Fifo.run capacity (drop s.mem.queue.head s.mem.entered) cs).1
  rest_refines fuel cs = run_refines capacity c fuel s.mem.queue s.mem.queue.head _ cs quiet-Holds
