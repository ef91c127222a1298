-- ===== src/Queue/Window.antt =====
-- What a queue holds between calls: the window of positions from the head on, round by round.
use native.Mathlib.Nat.{mod-eq_of_lt, mul-add-mod_self_left, div-add-mod, add-mod_right}
use native.Mathlib.Decide.{dec_lt}
use mmo_server.Common.{
  ℕ, zero, suc, ◌+◌, ◌*◌, ◌/◌, ◌%◌, ◌^◌, ◌≤◌, ◌<◌, ◌≡◌, ◌≢◌, refl, sym, ap, ap₂, ◌∙◌, some, List,
  [], ◌∷◌, ◌++◌, arith, ◌&&◌, leb, ltb, if◌then◌else◌, update, update_ne, update_self, length,
  get_elem?, length-append, get_elem?-append_last, get_elem?-lt, subst, inl, inr,
}
use mmo_server.Queue.{
  wrap, IsCapacity, QueueSlot, Queue, Probe, probe, init_slots, construct, publish, retire,
}

whole :
    (capacity n : ℕ) (c : IsCapacity capacity) → n ≡ capacity * (c.rounds * (n / 2 ^ 64)) + wrap n
whole capacity n c = omega (arith, ap (λ (t : ℕ). t * (n / 2 ^ 64)) c.divides)

-- Wrapping at 2 ^ 64 does not move a position to another slot.
pub wrap-mod : (capacity n : ℕ) → IsCapacity capacity → wrap n % capacity ≡ n % capacity
wrap-mod capacity n c = sym (
    ap (λ (m : ℕ). m % capacity) (whole capacity n c)
    ∙ mul-add-mod_self_left capacity (c.rounds * (n / 2 ^ 64)) (wrap n))

mul_step : (c a b : ℕ) → a < b → c * a + c ≤ c * b
mul_step c a b h = grind arith

-- Positions of one slot in different rounds are at least a round apart.
round_apart : (c x y : ℕ) → x / c < y / c → x % c ≡ y % c → x + c ≤ y
round_apart c x y p e =
    omega (arith, mul_step c (x / c) (y / c) p, div-add-mod x c, div-add-mod y c)

-- Two positions within one round fall in different slots.
pub window-ne :
    (capacity h i j : ℕ)
    → i < capacity
    → j < capacity
    → (h + i) % capacity ≡ (h + j) % capacity
    → i ≡ j
window-ne capacity h i j hi hj e = elim (dec_lt ((h + i) / capacity) ((h + j) / capacity)) [
  | yes p ↦ absurd (omega (arith, round_apart capacity (h + i) (h + j) p e))
  | no p ↦ elim (dec_lt ((h + j) / capacity) ((h + i) / capacity)) [
    | yes q ↦ absurd (omega (arith, round_apart capacity (h + j) (h + i) q (sym e)))
    | no q ↦
        let same : (h + i) / capacity ≡ (h + j) / capacity = omega arith in
        omega (
          arith,
          ap (λ (t : ℕ). capacity * t) same,
          div-add-mod (h + i) capacity,
          div-add-mod (h + j) capacity,
        )
  ]
]

pub probe_ready : (n : ℕ) → probe (wrap n) (wrap n) ≡ Probe.ready
unfolding probe
probe_ready n = ground arith

-- A sequence number at most half the range behind the expected one.
pub probe_behind : (n d : ℕ) → 0 < d → d ≤ 2 ^ 63 → probe (wrap n) (wrap (n + d)) ≡ Probe.behind
unfolding probe
probe_behind n d positive small = ground arith

-- The queue `q` holds `xs`, oldest first, with the oldest at position `h`. Positions count every
-- enqueue and dequeue since the start, and are not wrapped.
pub record Holds {ℓ} {A : Type ℓ} (capacity : ℕ) (q : Queue A) (h : ℕ) (xs : List A) : Type ℓ where
  pub room : length xs ≤ capacity
  pub head_at : q.head ≡ wrap h
  pub tail_at : q.tail ≡ wrap (h + length xs)
  pub filled :
      (j : ℕ) (x : A)
      → get_elem? xs j ≡ some x
      → q.slots ((h + j) % capacity) ≡ record { sequence = wrap (h + j + 1); item = x }
  pub vacant :
      (j : ℕ)
      → length xs ≤ j
      → j < capacity
      → (q.slots ((h + j) % capacity)).sequence ≡ wrap (h + j)

low_mod : (n j : ℕ) → j < n → (0 + j) % n ≡ j
low_mod n j h = ap (λ (k : ℕ). k % n) (omega arith) ∙ mod-eq_of_lt h

next_round : (capacity h j : ℕ) → suc j ≡ capacity → h % capacity ≡ (h + 1 + j) % capacity
next_round capacity h j e =
    sym (ap (λ (k : ℕ). k % capacity) (omega arith) ∙ add-mod_right h capacity)

module _ {ℓ} {A : Type ℓ} where
  pub init_slots-sequence :
      (n i : ℕ) (slots : ℕ → QueueSlot A) (j : ℕ)
      → (init_slots n i slots j).sequence
        ≡ (if leb i j && ltb j (i + n) then wrap j else (slots j).sequence)
  unfolding init_slots
  init_slots-sequence zero i slots j = ground arith
  init_slots-sequence (suc n) i slots j =
      init_slots-sequence n (i + 1) (update slots i (record (slots i) { sequence = wrap i })) j
      ∙ ground arith

  pub construct-Holds : (capacity : ℕ) (d : A) → Holds capacity (construct capacity d) 0 []
  unfolding construct
  construct-Holds capacity d = record {
    room = omega arith;
    head_at = refl;
    tail_at = refl;
    filled = λ j x e. cc;
    vacant = λ j _ h.
        subst (λ k. ((construct capacity d).slots k).sequence ≡ wrap (0 + j))
          (sym (low_mod capacity j h)) (init_slots-sequence capacity 0 _ j ∙ ground arith);
  }

  module _ (capacity : ℕ) (c : IsCapacity capacity) where
    -- A write to the slot of position `p`, number `i` from `h` on, as that slot is read, and as
    -- another slot of the round is.
    slot_self :
        (f : ℕ → QueueSlot A) (p : ℕ) (s : QueueSlot A)
        → update f (wrap p % capacity) s (p % capacity) ≡ s
    slot_self f p s = rw (wrap-mod capacity p c) (update_self f _ s)

    slot_other :
        (f : ℕ → QueueSlot A) (h i j p : ℕ) (s : QueueSlot A)
        → p ≡ h + i
        → i < capacity
        → j < capacity
        → i ≢ j
        → update f (wrap p % capacity) s ((h + j) % capacity) ≡ f ((h + j) % capacity)
    slot_other f h i j p s at hi hj differ = update_ne f _ _ s (λ e. differ (
        window-ne capacity h i j hi hj
          (ap (λ (k : ℕ). k % capacity) (sym at) ∙ sym (wrap-mod capacity p c) ∙ e)))

    pub publish-Holds :
        (q : Queue A) (h : ℕ) (xs : List A) (x : A)
        → Holds capacity q h xs
        → length xs < capacity
        → Holds capacity (publish capacity q x (wrap (h + length xs))) h (xs ++ x ∷ [])
    unfolding publish
    publish-Holds q h xs x v room = record {
      room = omega (arith, length-append xs (x ∷ []));
      head_at = v.head_at;
      tail_at = omega (arith, length-append xs (x ∷ []));
      filled = λ j y e. elim (get_elem?-append_last xs x j y e) [
        | inl old ↦
            let below : j < length xs = get_elem?-lt xs j y old in
            slot_other q.slots h (length xs) j _ _ refl room (omega arith) (omega arith)
            ∙ v.filled j y old
        | inr (at, new) ↦
            ap (λ k. (publish capacity q x (wrap (h + length xs))).slots ((h + k) % capacity)) at
            ∙ slot_self q.slots (h + length xs) _
            ∙ ground arith
      ];
      vacant = λ j above low.
          let beyond : length xs < j = omega (arith, length-append xs (x ∷ [])) in
          ap (λ s. s.sequence) (slot_other q.slots h (length xs) j _ _ refl room low (omega arith))
          ∙ v.vacant j (omega arith) low;
    }

    pub retire-Holds :
        (q : Queue A) (h : ℕ) (x : A) (xs : List A)
        → Holds capacity q h (x ∷ xs)
        → Holds capacity (retire capacity q (wrap h)) (h + 1) xs
    unfolding retire
    retire-Holds q h x xs v = record {
      room = omega arith;
      head_at = omega arith;
      tail_at = omega arith;
      filled = λ j y e.
          let below : j < length xs = get_elem?-lt xs j y e in
          subst
            (λ k.
              (retire capacity q (wrap h)).slots (k % capacity)
              ≡ record { sequence = wrap (k + 1); item = y })
            (omega arith)
            (slot_other q.slots h 0 (suc j) h _ (omega arith) (omega arith) (omega arith)
                (omega arith)
              ∙ v.filled (suc j) y e);
      vacant = λ j above low. elim (dec_lt (suc j) capacity) [
        | yes p ↦
            subst (λ k. ((retire capacity q (wrap h)).slots (k % capacity)).sequence ≡ wrap k)
              (omega arith)
              (ap (λ s. s.sequence)
                  (slot_other q.slots h 0 (suc j) h _ (omega arith) (omega arith) p (omega arith))
                ∙ v.vacant (suc j) (omega arith) p)
        | no p ↦
            subst (λ k. ((retire capacity q (wrap h)).slots k).sequence ≡ wrap (h + 1 + j))
              (next_round capacity h j (omega arith))
              (ap (λ s. s.sequence) (slot_self q.slots h _) ∙ omega arith)
      ];
    }

    -- What the slot at the tail tells an enqueue, and the slot at the head a dequeue.
    module _ (q : Queue A) (h : ℕ) (xs : List A) (v : Holds capacity q h xs) where
      slot_at :
          (p k : ℕ) {s : QueueSlot A}
          → p ≡ wrap (h + k)
          → q.slots ((h + k) % capacity) ≡ s
          → q.slots (p % capacity) ≡ s
      slot_at p k at e =
          ap (λ n. q.slots (n % capacity)) at ∙ ap q.slots (wrap-mod capacity (h + k) c) ∙ e

      pub tail_ready :
          length xs < capacity → probe (q.slots (q.tail % capacity)).sequence q.tail ≡ Probe.ready
      tail_ready room =
          ap₂ probe
            (ap (λ s. s.sequence) (slot_at q.tail (length xs) v.tail_at refl)
              ∙ v.vacant (length xs) (omega arith) room)
            v.tail_at
          ∙ probe_ready (h + length xs)

    pub tail_behind :
        (q : Queue A) (h : ℕ) (x : A) (xs : List A)
        → Holds capacity q h (x ∷ xs)
        → length (x ∷ xs) ≡ capacity
        → probe (q.slots (q.tail % capacity)).sequence q.tail ≡ Probe.behind
    tail_behind q h x xs v full =
        ap₂ probe
          (ap (λ s. s.sequence)
            (ap (λ n. q.slots (n % capacity)) v.tail_at
              ∙ ap q.slots (
                  wrap-mod capacity _ c
                  ∙ ap (λ k. (h + k) % capacity) full
                  ∙ add-mod_right h capacity
                  ∙ ap (λ (k : ℕ). k % capacity) (omega arith))
              ∙ v.filled 0 x refl))
          (v.tail_at ∙ omega arith)
        ∙ probe_behind (h + 0 + 1) (length xs) (omega (arith, c.at_least_two))
            (omega (arith, c.addressable))

    pub head_slot :
        (q : Queue A) (h : ℕ) (x : A) (xs : List A)
        → Holds capacity q h (x ∷ xs)
        → q.slots (q.head % capacity) ≡ record { sequence = wrap (h + 1); item = x }
    head_slot q h x xs v =
        slot_at q h (x ∷ xs) v q.head 0 (v.head_at ∙ omega arith) (v.filled 0 x refl) ∙ ground arith

    pub head_ready :
        (q : Queue A) (h : ℕ) (x : A) (xs : List A)
        → Holds capacity q h (x ∷ xs)
        → probe (q.slots (q.head % capacity)).sequence (wrap (q.head + 1)) ≡ Probe.ready
    head_ready q h x xs v =
        ap₂ probe (ap (λ s. s.sequence) (head_slot q h x xs v)) (omega (arith, v.head_at))
        ∙ probe_ready (h + 1)

    pub head_behind :
        (q : Queue A) (h : ℕ)
        → Holds capacity q h []
        → probe (q.slots (q.head % capacity)).sequence (wrap (q.head + 1)) ≡ Probe.behind
    head_behind q h v =
        ap₂ probe
          (ap (λ s. s.sequence) (slot_at q h [] v q.head 0 (v.head_at ∙ omega arith) refl)
            ∙ v.vacant 0 (omega arith) (omega (arith, c.at_least_two))
            ∙ omega arith)
          (omega (arith, v.head_at))
        ∙ probe_behind h 1 (omega arith) (omega arith)
