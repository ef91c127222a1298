-- ===== src/Queue/Mpsc/Concurrent/Order.antt =====
-- The consumer of an MPSCQueue takes the items in the order in which they entered.
use mmo_server.Common.{
  ℕ, zero, suc, ◌+◌, ◌^◌, ◌≤◌, ◌<◌, ◌≡◌, refl, sym, ap, ◌∙◌, subst, List, [], ◌∷◌, ◌++◌, some,
  length, length-append, get_elem?, take, arith, All,
}
use mmo_server.Queue.{IsCapacity, construct}
use mmo_server.Queue.Mpmc.Concurrent.{Shared}
use mmo_server.Queue.Mpmc.Concurrent.Safety.{delivers_once}
use mmo_server.Queue.Mpsc.Concurrent.{
  Producer, Consumer, EnqueueMove, DequeueMove, System, produces, consumes, init, Reach, start,
  later,
}
use mmo_server.Queue.Mpsc.Concurrent.Simulation.{Reach-Simulated}

-- The answers, oldest first.
abbrev pub in_order : {A : Type 0} → List (ℕ × A) → List A
in_order [] = []
in_order ((pos, x) ∷ left) = in_order left ++ x ∷ []

-- The answers have the positions 0, 1, 2 and so on.
abbrev Numbered : {A : Type 0} → List (ℕ × A) → Type 0
Numbered [] = Unit
Numbered ((pos, x) ∷ left) = (pos ≡ length left) × Numbered left

-- Where the consumer stands, against the number of its answers.
abbrev Counts : {A : Type 0} → Consumer A → (head answered : ℕ) → Type 0
Counts Consumer.outside head n = head ≡ n
Counts (Consumer.dequeuing pos) head n = (head ≡ n) × (pos ≡ n)
Counts (Consumer.moving pos) head n = (head ≡ n) × (pos ≡ n)
Counts (Consumer.retiring pos out) head n = (head ≡ n) × (pos ≡ n)
Counts (Consumer.advancing pos) head n = pos + 1 ≡ n

get_elem?-lt : {A : Type 0} (xs : List A) (n : ℕ) (x : A) → get_elem? xs n ≡ some x → n < length xs
get_elem?-lt [] n x e = cc
get_elem?-lt (y ∷ xs) zero x e = omega arith
get_elem?-lt (y ∷ xs) (suc n) x e = omega (arith, get_elem?-lt xs n x e)

take-next :
    {A : Type 0} (xs : List A) (n : ℕ) (x : A)
    → get_elem? xs n ≡ some x
    → take (suc n) xs ≡ take n xs ++ x ∷ []
take-next [] n x e = cc
take-next (y ∷ xs) zero x e = cc
take-next (y ∷ xs) (suc n) x e = ap (λ l. y ∷ l) (take-next xs n x e)

-- Answers with consecutive positions are the first items.
in_order-take :
    {A : Type 0} (entered : List A) (left : List (ℕ × A))
    → Numbered left
    → All (λ e. get_elem? entered e.0 ≡ some e.1) left
    → in_order left ≡ take (length left) entered
in_order-take entered [] numbered delivered = refl
in_order-take entered ((pos, x) ∷ left) (at, numbered) (here, delivered) =
    ap (λ l. l ++ x ∷ []) (in_order-take entered left numbered delivered)
    ∙ sym (take-next entered (length left) x (ap (get_elem? entered) (sym at) ∙ here))

answers-bound :
    {A : Type 0} (entered : List A) (left : List (ℕ × A))
    → Numbered left
    → All (λ e. get_elem? entered e.0 ≡ some e.1) left
    → length left ≤ length entered
answers-bound entered [] numbered delivered = omega arith
answers-bound entered ((pos, x) ∷ left) (at, numbered) (here, delivered) =
    omega (arith, at, get_elem?-lt entered pos x here)

-- The answers so far, and what the consumer knows of their number.
abbrev Counted : {A : Type 0} → Shared A → Consumer A → Type 0
Counted m p = Numbered m.left × Counts p m.queue.head (length m.left)

enqueue-Counted :
    {A : Type 0} (capacity : ℕ) {m m' : Shared A} {p p' : Producer A} (q : Consumer A)
    → EnqueueMove capacity m p m' p'
    → Counted m q
    → Counted m' q
enqueue-Counted capacity q (EnqueueMove.load_position item) h = h
enqueue-Counted capacity q (EnqueueMove.see_free e) h = h
enqueue-Counted capacity q (EnqueueMove.see_full e) h = h
enqueue-Counted capacity q (EnqueueMove.see_claimed e) h = h
enqueue-Counted capacity q EnqueueMove.reload_position h = h
enqueue-Counted capacity q (EnqueueMove.win_position e) h = h
enqueue-Counted capacity q EnqueueMove.lose_position h = h
enqueue-Counted capacity q EnqueueMove.store_item h = h
enqueue-Counted capacity q EnqueueMove.publish_slot h = h

dequeue-Counted :
    {A : Type 0} (capacity : ℕ) {m m' : Shared A} {q q' : Consumer A}
    → DequeueMove capacity m q m' q'
    → length m.left < 2 ^ 64
    → Counted m q
    → Counted m' q'
dequeue-Counted capacity DequeueMove.load_position few (numbered, h) = (numbered, (h, h))
dequeue-Counted capacity (DequeueMove.see_item e) few h = h
dequeue-Counted capacity (DequeueMove.see_nothing e) few (numbered, (h, _)) = (numbered, h)
dequeue-Counted capacity (DequeueMove.move_item rest) few h = h
dequeue-Counted capacity DequeueMove.retire_slot few (numbered, (_, at)) =
    ((at, numbered), omega (arith, at))
dequeue-Counted capacity DequeueMove.store_position few (numbered, at) =
    (numbered, omega (arith, at, few))

dequeue-entered :
    {A : Type 0} (capacity : ℕ) {m m' : Shared A} {q q' : Consumer A}
    → DequeueMove capacity m q m' q'
    → m'.entered ≡ m.entered
dequeue-entered capacity DequeueMove.load_position = refl
dequeue-entered capacity (DequeueMove.see_item e) = refl
dequeue-entered capacity (DequeueMove.see_nothing e) = refl
dequeue-entered capacity (DequeueMove.move_item rest) = refl
dequeue-entered capacity DequeueMove.retire_slot = refl
dequeue-entered capacity DequeueMove.store_position = refl

enqueue-entered :
    {A : Type 0} (capacity : ℕ) {m m' : Shared A} {p p' : Producer A}
    → EnqueueMove capacity m p m' p'
    → length m.entered ≤ length m'.entered
enqueue-entered capacity {m} (EnqueueMove.win_position {item} e) =
    omega (arith, length-append m.entered (item ∷ []))
enqueue-entered capacity mv = omega arith

module _ {A : Type 0} {capacity : ℕ} (c : IsCapacity capacity) {d : A} where
  delivered :
      {s : System A}
      → Reach capacity d s
      → length s.mem.entered < 2 ^ 63
      → All (λ e. get_elem? s.mem.entered e.0 ≡ some e.1) s.mem.left
  delivered {s} r few =
      let (t, r', sim) = Reach-Simulated capacity r in
      subst (λ (m : Shared A). All (λ e. get_elem? m.entered e.0 ≡ some e.1) m.left) sim.same_mem
        (delivers_once c r'
          (omega (arith, ap (λ (m : Shared A). length m.entered) sim.same_mem, few))).0

  Reach-Counted :
      {s : System A} → Reach capacity d s → length s.mem.entered < 2 ^ 63 → Counted s.mem s.consumer
  unfolding init construct
  Reach-Counted start few = (tt, refl)
  Reach-Counted (later r (produces i mv)) few =
      enqueue-Counted capacity _ mv
        (Reach-Counted r (omega (arith, enqueue-entered capacity mv, few)))
  Reach-Counted (later {s} r (consumes mv)) few =
      let few' : length s.mem.entered < 2 ^ 63 =
        subst (λ l. length l < 2 ^ 63) (dequeue-entered capacity mv) few in
      let (numbered, counts) = Reach-Counted r few' in
      dequeue-Counted capacity mv
        (omega (arith, answers-bound s.mem.entered s.mem.left numbered (delivered r few'), few'))
        (numbered, counts)

  -- Producers enqueue into a new MPSCQueue while one consumer dequeues from it, their accesses to
  -- shared memory interleaved in any order, compare-exchanges failing at will: while fewer than 2 ^ 63
  -- items have entered, the consumer's answers, oldest first, are the first of the items that entered,
  -- in the order in which their producers won a position.
  pub consumer_order :
      {s : System A}
      → Reach capacity d s
      → length s.mem.entered < 2 ^ 63
      → in_order s.mem.left ≡ take (length s.mem.left) s.mem.entered
  consumer_order {s} r few =
      in_order-take s.mem.entered s.mem.left (Reach-Counted r few).0 (delivered r few)
