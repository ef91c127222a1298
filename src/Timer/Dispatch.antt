-- ===== src/Timer/Dispatch.antt =====
-- DispatchExpired runs the timers that are due.
use native.Mathlib.Decide.{ℕ_discrete}
use mmo_server.Common.{
  ℕ, zero, suc, ◌==◌, ◌<◌, ◌≡◌, ◌≢◌, refl, ap, ◌∙◌, inl, inr, true, false, ==_refl, Bool-cases,
  Option, none, some, List, [], ◌∷◌, All, arith, length, ltb, lt→ltb, ltb→lt, if◌then◌else◌,
}
use mmo_server.Timer.{
  cancel, TimerTask, later, TimerQueue, contains, erase, top, call, dispatch_expired, tick,
}
use mmo_server.Timer.Order.{All-map, Sorted, Distinct, IsValid, later-deadline}

abbrev pub with_callback : Option ℕ → List ℕ → List ℕ
with_callback none callbacks = callbacks
with_callback (some callback) callbacks = callback ∷ callbacks

-- The callbacks of the tasks that are due and not cancelled, and the tasks that are not due, in order.
abbrev pub due_callbacks : ℕ → List ℕ → List TimerTask → List ℕ
due_callbacks now cancelled [] = []
due_callbacks now cancelled (t ∷ ts) =
    if ltb now t.deadline
    then due_callbacks now cancelled ts
    else if contains t.id cancelled
    then due_callbacks now cancelled ts
    else with_callback t.callback (due_callbacks now cancelled ts)

abbrev pub not_due : ℕ → List TimerTask → List TimerTask
not_due now [] = []
not_due now (t ∷ ts) = if ltb now t.deadline then t ∷ not_due now ts else not_due now ts

-- Tasks behind one that is not due are not due.
none_due :
    (now : ℕ) (cancelled : List ℕ) (ts : List TimerTask)
    → All (λ u. now < u.deadline) ts
    → (due_callbacks now cancelled ts ≡ []) × (not_due now ts ≡ ts)
none_due now cancelled [] h = (refl, refl)
none_due now cancelled (t ∷ ts) (h, hs) =
    let (a, b) = none_due now cancelled ts hs in rw (lt→ltb now t.deadline h) (a, ap (λ l. t ∷ l) b)

contains-erase : (id c : ℕ) (cs : List ℕ) → id ≢ c → contains id (erase c cs) ≡ contains id cs
unfolding contains erase
contains-erase id c [] ne = refl
contains-erase id c (d ∷ cs) ne = ground (arith, contains-erase id c cs ne)

due_callbacks-erase :
    (now c : ℕ) (cancelled : List ℕ) (ts : List TimerTask)
    → All (λ u. u.id ≢ c) ts
    → due_callbacks now (erase c cancelled) ts ≡ due_callbacks now cancelled ts
due_callbacks-erase now c cancelled [] h = refl
due_callbacks-erase now c cancelled (t ∷ ts) (h, hs) =
    rw (contains-erase t.id c cancelled h, due_callbacks-erase now c cancelled ts hs) refl

not_due-All :
    (P : TimerTask → Type 0) (now : ℕ) (ts : List TimerTask) → All P ts → All P (not_due now ts)
not_due-All P now [] ps = tt
not_due-All P now (t ∷ ts) (p, ps) = elim (Bool-cases (ltb now t.deadline)) [
  | inl e ↦ rw e (p, not_due-All P now ts ps)
  | inr e ↦ rw e (not_due-All P now ts ps)
]

not_due-Sorted : (now : ℕ) (ts : List TimerTask) → Sorted ts → Sorted (not_due now ts)
not_due-Sorted now [] s = tt
not_due-Sorted now (t ∷ ts) (h, s) = elim (Bool-cases (ltb now t.deadline)) [
  | inl e ↦ rw e (not_due-All (λ u. later t u ≡ false) now ts h, not_due-Sorted now ts s)
  | inr e ↦ rw e (not_due-Sorted now ts s)
]

not_due-Distinct : (now : ℕ) (ts : List TimerTask) → Distinct ts → Distinct (not_due now ts)
not_due-Distinct now [] s = tt
not_due-Distinct now (t ∷ ts) (h, s) = elim (Bool-cases (ltb now t.deadline)) [
  | inl e ↦ rw e (not_due-All (λ u. u.id ≢ t.id) now ts h, not_due-Distinct now ts s)
  | inr e ↦ rw e (not_due-Distinct now ts s)
]

-- The world after some callbacks were called one after the other.
abbrev pub run_all {ℓ} : {W : Type ℓ} → (ℕ → W → W) → List ℕ → W → W
run_all effect [] w = w
run_all effect (callback ∷ callbacks) w = run_all effect callbacks (effect callback w)

-- The tasks of other timers.
abbrev pub others : ℕ → List TimerTask → List TimerTask
others id [] = []
others id (t ∷ ts) = if t.id == id then others id ts else t ∷ others id ts

module _ {W : Type 0} (invoke : ℕ → W → TimerQueue → W × TimerQueue) (effect : ℕ → W → W)
    (quiet : (callback : ℕ) (w : W) (q : TimerQueue)
      → invoke callback w q ≡ (effect callback w, q)) where
  call_quiet :
      (callback : Option ℕ) (w : W) (q : TimerQueue)
      → call invoke callback w q ≡ (run_all effect (with_callback callback []) w, q)
  unfolding call
  call_quiet none w q = refl
  call_quiet (some callback) w q = quiet callback w q

  run_all-with_callback :
      (callback : Option ℕ) (callbacks : List ℕ) (w : W)
      → run_all effect callbacks (run_all effect (with_callback callback []) w)
        ≡ run_all effect (with_callback callback callbacks) w
  run_all-with_callback none callbacks w = refl
  run_all-with_callback (some callback) callbacks w = refl

  -- The loop, over the members of the queue.
  loop_runs_due :
      (fuel now : ℕ) (w : W) (ts : List TimerTask) (cancelled : List ℕ) (n m : ℕ)
      → Sorted ts
      → Distinct ts
      → length ts < fuel
      → (left : List ℕ) × (dispatch_expired invoke fuel now w
            (record { tasks = ts; cancelled_timers = cancelled; next_id = n; next_sequence = m })
          ≡ some (
            run_all effect (due_callbacks now cancelled ts) w,
            record {
              tasks = not_due now ts;
              cancelled_timers = left;
              next_id = n;
              next_sequence = m;
            },
          ))
  unfolding dispatch_expired top
  loop_runs_due zero now w ts cancelled n m s d enough = absurd (omega arith)
  loop_runs_due (suc fuel) now w [] cancelled n m s d enough = (cancelled, refl)
  loop_runs_due (suc fuel) now w (t ∷ ts) cancelled n m (h, s) (k, d) enough =
      elim (Bool-cases (ltb now t.deadline)) [
        | inl e ↦
            let later_too : All (λ u. now < u.deadline) ts =
              All-map _ _ ts (λ u le. omega (arith, ltb→lt now t.deadline e, later-deadline t u le))
                h in
            let (a, b) = none_due now cancelled ts later_too in (cancelled, ground (arith, e, a, b))
        | inr e ↦ elim (Bool-cases (contains t.id cancelled)) [
          | inl gone ↦
              let (left, eq) =
                loop_runs_due fuel now w ts (erase t.id cancelled) n m s d (omega arith) in
              (left, ground (arith, e, gone, eq, due_callbacks-erase now t.id cancelled ts k))
          | inr kept ↦
              let w' : W = run_all effect (with_callback t.callback []) w in
              let (left, eq) = loop_runs_due fuel now w' ts cancelled n m s d (omega arith) in
              let after : TimerQueue = record {
                tasks = ts;
                cancelled_timers = cancelled;
                next_id = n;
                next_sequence = m;
              } in
              (
                left,
                ground (arith, e, kept)
                    ∙ ap (λ x. dispatch_expired invoke fuel now x.0 x.1)
                        (call_quiet t.callback w after)
                    ∙ eq
                    ∙ ap
                        (λ x.
                          some
                            (x, record after { tasks = not_due now ts; cancelled_timers = left }))
                        (run_all-with_callback t.callback (due_callbacks now cancelled ts) w)
                    ∙ ground (arith, e, kept),
              )
        ]
      ]

  -- Tick on a valid queue, when the callbacks leave the queue alone and with fuel above the number
  -- of tasks: it ends, the world is as the callbacks of the tasks whose deadline has come and that
  -- were not cancelled leave it, called once each in the order of the queue and no other called, and
  -- the queue keeps exactly the tasks that are not due.
  pub tick_runs_due :
      (fuel now : ℕ) (w : W) (q : TimerQueue)
      → IsValid q
      → length q.tasks < fuel
      → (q' : TimerQueue) × (tick invoke fuel w q now
          ≡ some (run_all effect (due_callbacks now q.cancelled_timers q.tasks) w, q'))
        × (q'.tasks ≡ not_due now q.tasks)
        × (q'.next_id ≡ q.next_id)
        × (q'.next_sequence ≡ q.next_sequence)
        × IsValid q'
  unfolding tick
  tick_runs_due fuel now w q v enough =
      let (left, eq) =
        loop_runs_due fuel now w q.tasks q.cancelled_timers q.next_id q.next_sequence v.sorted
          v.distinct enough in
      (
        _,
        eq,
        refl,
        refl,
        refl,
        record {
          sorted = not_due-Sorted now q.tasks v.sorted;
          distinct = not_due-Distinct now q.tasks v.distinct;
          issued = not_due-All (λ t. t.id < q.next_id) now q.tasks v.issued;
          numbered = not_due-All (λ t. t.sequence < q.next_sequence) now q.tasks v.numbered;
        },
      )

  -- A cancelled timer counts as one that is not there.
  due_callbacks-cancelled :
      (now id : ℕ) (before after : List ℕ)
      → contains id after ≡ true
      → ((i : ℕ) → id ≢ i → contains i after ≡ contains i before)
      → (ts : List TimerTask) → due_callbacks now after ts ≡ due_callbacks now before (others id ts)
  due_callbacks-cancelled now id before after marked same [] = refl
  due_callbacks-cancelled now id before after marked same (t ∷ ts) =
      let rest = due_callbacks-cancelled now id before after marked same ts in
      elim (ℕ_discrete id t.id) [
        | yes e ↦ ground (arith, rest, ap (λ i. contains i after) e, marked, e)
        | no ne ↦ ground (arith, rest, same t.id ne, ne)
      ]

  cancel_lem :
      (q : TimerQueue) (id : ℕ)
      → (contains id (cancel q id).1.cancelled_timers ≡ true)
        × ((i : ℕ)
            → id ≢ i
            → contains i (cancel q id).1.cancelled_timers ≡ contains i q.cancelled_timers)
        × ((cancel q id).1.tasks ≡ q.tasks)
        × (IsValid q → IsValid (cancel q id).1)
  unfolding cancel contains
  cancel_lem q id = elim (Bool-cases (contains id q.cancelled_timers)) [
    | inl e ↦ rw e (e, (λ i ne. refl), refl, λ v. v)
    | inr e ↦ rw e (
      ground (arith, ==_refl id),
      (λ i ne. ground (arith, ne)),
      refl,
      λ v. record {
        sorted = v.sorted;
        distinct = v.distinct;
        issued = v.issued;
        numbered = v.numbered;
      },
    )
  ]

  -- A timer of a valid queue that was cancelled does not run in the next Tick, when the callbacks
  -- leave the queue alone and with fuel above the number of tasks: the Tick ends, the world is as the
  -- callbacks of the other timers that are due and not cancelled leave it, and the queue keeps the
  -- tasks that are not due.
  pub cancelled_never_runs :
      (fuel now id : ℕ) (w : W) (q : TimerQueue)
      → IsValid q
      → length q.tasks < fuel
      → (q' : TimerQueue) × (tick invoke fuel w (cancel q id).1 now
          ≡ some (run_all effect (due_callbacks now q.cancelled_timers (others id q.tasks)) w, q'))
        × (q'.tasks ≡ not_due now q.tasks)
  cancelled_never_runs fuel now id w q v enough =
      let (marked, unmarked, same, valid) = cancel_lem q id in
      let (q', ran, left, _, _, _) =
        tick_runs_due fuel now w (cancel q id).1 (valid v) (omega (arith, ap length same)) in
      (
        q',
        ran
            ∙ ap (λ l. some (run_all effect l w, q'))
                (ap (due_callbacks now (cancel q id).1.cancelled_timers) same
                  ∙ due_callbacks-cancelled now id q.cancelled_timers
                      (cancel q id).1.cancelled_timers marked unmarked q.tasks),
        left ∙ ap (not_due now) same,
      )
