-- ===== src/Queue/Mpsc/Concurrent/Simulation.antt =====
-- A run of MPSCQueue is a run of MPMCQueue in which one thread dequeues: the consumer's position is the
-- head that its claim would have left.
use native.Mathlib.Decide.{ℕ_discrete}
use mmo_server.Common.{
  ℕ, suc, ◌+◌, ◌≡◌, ◌≢◌, refl, sym, ap, ◌∙◌, subst, ◌⊎◌, inl, inr, update, update_self, update_ne,
  arith,
}
use mmo_server.Queue.{wrap, Probe}
use mmo_server.Queue.Mpmc.Concurrent as Mpmc
use mmo_server.Queue.Mpmc.Concurrent.{Shared, Pc, slot, set_slot, Move}
use mmo_server.Queue.Mpsc.Concurrent.{
  Producer, Consumer, EnqueueMove, DequeueMove, System, produces, consumes, init, Reach, start,
  later,
}

abbrev pub produce_pc {ℓ} : {A : Type ℓ} → Producer A → Pc A
produce_pc Producer.outside = Pc.idle
produce_pc (Producer.enqueuing item pos) = Pc.enqueuing item pos
produce_pc (Producer.claiming item pos) = Pc.claiming item pos
produce_pc (Producer.reloading item) = Pc.reloading_tail item
produce_pc (Producer.storing item pos) = Pc.storing item pos
produce_pc (Producer.publishing pos) = Pc.publishing pos

-- A consumer that has left after it saw nothing may still be one that loads the head again.
abbrev pub Stands {ℓ} : {A : Type ℓ} → Consumer A → Pc A → Type ℓ
Stands Consumer.outside p = (p ≡ Pc.idle) ⊎ (p ≡ Pc.reloading_head)
Stands (Consumer.dequeuing pos) p = p ≡ Pc.dequeuing pos
Stands (Consumer.moving pos) p = p ≡ Pc.moving pos
Stands (Consumer.retiring pos out) p = p ≡ Pc.retiring pos out
Stands (Consumer.advancing pos) p = p ≡ Pc.idle

-- The head that the consumer has claimed.
abbrev pub claimed {ℓ} : {A : Type ℓ} → Consumer A → ℕ → ℕ
claimed (Consumer.moving pos) head = wrap (pos + 1)
claimed (Consumer.retiring pos out) head = wrap (pos + 1)
claimed (Consumer.advancing pos) head = wrap (pos + 1)
claimed _ head = head

abbrev pub with_head {ℓ} : {A : Type ℓ} → Shared A → ℕ → Shared A
with_head m h = record m { queue = record m.queue { head = h } }

-- The consumer's position is the head until it stores the next one.
abbrev pub AtHead {ℓ} : {A : Type ℓ} → Consumer A → ℕ → Type 0
AtHead (Consumer.dequeuing pos) head = head ≡ pos
AtHead _ head = Unit

enqueue-Move :
    {A : Type 0} (capacity : ℕ) {m m' : Shared A} {p p' : Producer A} (h : ℕ)
    → EnqueueMove capacity m p m' p'
    → Move capacity (with_head m h) (produce_pc p) (with_head m' h) (produce_pc p')
enqueue-Move capacity h (EnqueueMove.load_position item) = Move.load_tail item
enqueue-Move capacity h (EnqueueMove.see_free e) = Move.see_free e
enqueue-Move capacity h (EnqueueMove.see_full e) = Move.see_full e
enqueue-Move capacity h (EnqueueMove.see_claimed e) = Move.see_claimed e
enqueue-Move capacity h EnqueueMove.reload_position = Move.reload_tail
enqueue-Move capacity h (EnqueueMove.win_position e) = Move.win_tail e
enqueue-Move capacity h EnqueueMove.lose_position = Move.lose_tail
enqueue-Move capacity h EnqueueMove.store_item = Move.store_item
enqueue-Move capacity h EnqueueMove.publish_slot = Move.publish_slot

enqueue-head :
    {A : Type 0} (capacity : ℕ) {m m' : Shared A} {p p' : Producer A}
    → EnqueueMove capacity m p m' p'
    → m'.queue.head ≡ m.queue.head
enqueue-head capacity (EnqueueMove.load_position item) = refl
enqueue-head capacity (EnqueueMove.see_free e) = refl
enqueue-head capacity (EnqueueMove.see_full e) = refl
enqueue-head capacity (EnqueueMove.see_claimed e) = refl
enqueue-head capacity EnqueueMove.reload_position = refl
enqueue-head capacity (EnqueueMove.win_position e) = refl
enqueue-head capacity EnqueueMove.lose_position = refl
enqueue-head capacity EnqueueMove.store_item = refl
enqueue-head capacity EnqueueMove.publish_slot = refl

-- Thread 0 of the other run is the consumer, thread i + 1 the producer i.
pub record Simulates {A : Type 0} (s : System A) (t : Mpmc.System A) : Type 0 where
  pub same_mem : t.mem ≡ with_head s.mem (claimed s.consumer s.mem.queue.head)
  pub producing : (i : ℕ) → t.pc (suc i) ≡ produce_pc (s.producers i)
  pub consuming : Stands s.consumer (t.pc 0)
  pub at_head : AtHead s.consumer s.mem.queue.head

abbrev pub Simulated : {A : Type 0} → ℕ → A → System A → Type 0
Simulated {A} capacity d s = (t : Mpmc.System A) × Mpmc.Reach capacity d t × Simulates s t

-- What the consumer does not find ready is an empty slot, or one that another consumer has emptied.
not_ready : (x : Probe) → x ≢ Probe.ready → (x ≡ Probe.behind) ⊎ (x ≡ Probe.ahead)
not_ready Probe.ready ne = absurd (ne refl)
not_ready Probe.behind ne = inl refl
not_ready Probe.ahead ne = inr refl

module _ {A : Type 0} (capacity : ℕ) {d : A} where
  move_on :
      {t : Mpmc.System A} {m m' : Shared A} {p p' : Pc A}
      → Mpmc.Reach capacity d t
      → (i : ℕ) → t.mem ≡ m
      → t.pc i ≡ p
      → Move capacity m p m' p'
      → Mpmc.Reach capacity d (record { mem = m'; pc = update t.pc i p' })
  move_on {t} {m} {m'} {p} {p'} r i same_mem same_pc mv = Mpmc.later r (
      Mpmc.pick i (
        subst (λ x. Move capacity x (t.pc i) m' p') (sym same_mem)
          (subst (λ y. Move capacity m y m' p') (sym same_pc) mv)))

  simulate_produces :
      {s : System A} (i : ℕ) {m : Shared A} {p : Producer A}
      → EnqueueMove capacity s.mem (s.producers i) m p
      → Simulated capacity d s
      → Simulated capacity d (record s { mem = m; producers = update s.producers i p })
  simulate_produces {s} i {m} {p} mv (t, r, sim) = (
    record { mem = with_head m h; pc = update t.pc (suc i) (produce_pc p) },
    move_on r (suc i) sim.same_mem (sim.producing i) (enqueue-Move capacity h mv),
    record {
      same_mem = ap (λ x. with_head m (claimed s.consumer x)) (sym (enqueue-head capacity mv));
      producing = λ j. elim (ℕ_discrete i j) [
        | yes e ↦
            ap (λ k. update t.pc (suc i) (produce_pc p) (suc k)) (sym e)
            ∙ update_self t.pc (suc i) (produce_pc p)
            ∙ ap produce_pc (sym (update_self s.producers i p))
            ∙ ap (λ k. produce_pc (update s.producers i p k)) e
        | no ne ↦
            update_ne t.pc (suc i) (suc j) (produce_pc p) (λ e. ne (omega (arith, e)))
            ∙ sim.producing j
            ∙ ap produce_pc (sym (update_ne s.producers i j p ne))
      ];
      consuming =
          subst (Stands s.consumer)
            (sym (update_ne t.pc (suc i) 0 (produce_pc p) (λ e. omega (arith, e)))) sim.consuming;
      at_head = subst (AtHead s.consumer) (sym (enqueue-head capacity mv)) sim.at_head;
    },
  )
    where
      h : ℕ
      h = claimed s.consumer s.mem.queue.head

  -- The consumer's move, which takes the other run from `t` to memory `m` with thread 0 at `p`.
  consumer_turn :
      {s s' : System A} {t : Mpmc.System A} {m : Shared A} {p q : Pc A}
      → Mpmc.Reach capacity d t
      → Simulates s t
      → t.pc 0 ≡ p
      → Move capacity (with_head s.mem (claimed s.consumer s.mem.queue.head)) p m q
      → s'.producers ≡ s.producers
      → m ≡ with_head s'.mem (claimed s'.consumer s'.mem.queue.head)
      → Stands s'.consumer q
      → AtHead s'.consumer s'.mem.queue.head
      → Simulated capacity d s'
  consumer_turn {s} {s'} {t} {m} {p} {q} r sim at mv same same_mem stands at_head = (
    record { mem = m; pc = update t.pc 0 q },
    move_on r 0 sim.same_mem at mv,
    record {
      same_mem = same_mem;
      producing = λ i.
          update_ne t.pc 0 (suc i) q (λ e. omega (arith, e))
          ∙ sim.producing i
          ∙ ap (λ (f : ℕ → Producer A). produce_pc (f i)) (sym same);
      consuming = subst (Stands s'.consumer) (sym (update_self t.pc 0 q)) stands;
      at_head = at_head;
    },
  )

  simulate_consumes :
      {mem m : Shared A} {producers : ℕ → Producer A} {from to : Consumer A}
      → DequeueMove capacity mem from m to
      → Simulated capacity d (record { mem = mem; producers = producers; consumer = from })
      → Simulated capacity d (record { mem = m; producers = producers; consumer = to })
  simulate_consumes DequeueMove.load_position (t, r, sim) = elim sim.consuming [
    | inl idle ↦ consumer_turn r sim idle Move.load_head refl refl refl refl
    | inr again ↦ consumer_turn r sim again Move.reload_head refl refl refl refl
  ]
  simulate_consumes {mem} {m} {producers} (DequeueMove.see_item {pos} e) (t, r, sim) =
      let r' = move_on r 0 sim.same_mem sim.consuming (Move.see_item e) in
      let r'' =
        move_on r' 0 refl (update_self t.pc 0 (Pc.taking pos)) (Move.win_head sim.at_head) in
      (
        record { mem = with_head mem (wrap (pos + 1)); pc = pc },
        r'',
        record {
          same_mem = refl;
          producing = λ i.
              update_ne (update t.pc 0 (Pc.taking pos)) 0 (suc i) (Pc.moving pos)
                (λ e. omega (arith, e))
              ∙ update_ne t.pc 0 (suc i) (Pc.taking pos) (λ e. omega (arith, e))
              ∙ sim.producing i;
          consuming = update_self (update t.pc 0 (Pc.taking pos)) 0 (Pc.moving pos);
          at_head = tt;
        },
      )
    where
      pc : ℕ → Pc A
      pc = update (update t.pc 0 (Pc.taking pos)) 0 (Pc.moving pos)
  simulate_consumes (DequeueMove.see_nothing ne) (t, r, sim) = elim (not_ready _ ne) [
    | inl e ↦ consumer_turn r sim sim.consuming (Move.see_empty e) refl refl (inl refl) tt
    | inr e ↦ consumer_turn r sim sim.consuming (Move.see_taken e) refl refl (inr refl) tt
  ]
  simulate_consumes (DequeueMove.move_item rest) (t, r, sim) =
      consumer_turn r sim sim.consuming (Move.move_item rest) refl refl refl tt
  simulate_consumes DequeueMove.retire_slot (t, r, sim) =
      consumer_turn r sim sim.consuming Move.retire_slot refl refl refl tt
  simulate_consumes DequeueMove.store_position (t, r, sim) = (
    t,
    r,
    record {
      same_mem = sim.same_mem;
      producing = sim.producing;
      consuming = inl sim.consuming;
      at_head = tt;
    },
  )

  -- Every run has such a run of MPMCQueue beside it.
  pub Reach-Simulated : {s : System A} → Reach capacity d s → Simulated capacity d s
  unfolding init Mpmc.init
  Reach-Simulated start = (
    Mpmc.init capacity d,
    Mpmc.start,
    record { same_mem = refl; producing = λ i. refl; consuming = inl refl; at_head = tt },
  )
  Reach-Simulated (later r (produces i mv)) = simulate_produces i mv (Reach-Simulated r)
  Reach-Simulated (later r (consumes mv)) = simulate_consumes mv (Reach-Simulated r)
