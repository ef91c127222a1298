-- ===== src/Runtime/Threads.antt =====
-- The loops of TaskRegistry::Validate and of the worker pool.
use native.Mathlib.Decide.{ℕ_discrete}
use mmo_server.Common.{
  ℕ, zero, suc, ◌+◌, ◌-◌, ◌≤◌, ◌<◌, ◌≡◌, ◌≢◌, refl, sym, ap, ◌∙◌, subst, inl, inr, ◌↔◌, Bool, true,
  false, Bool-cases, Option, none, some, Option-cases, arith, leb, ltb, if◌then◌else◌, update,
}
use mmo_server.Runtime.Graph.{TaskGraph}
use mmo_server.Runtime.Registry.{TaskRegistry, TaskFunction, resolve, is_registered, validate_from}
use mmo_server.Runtime.Workers.{WorkerPool, worker_count, start_threads, join_threads}

-- The pool gets at least one worker and at most 32, and the hardware's number where that is within
-- these bounds.
worker_count_bounds :
    (hardware : ℕ)
    → (1 ≤ worker_count hardware)
      × (worker_count hardware ≤ 32)
      × (1 ≤ hardware → hardware ≤ 32 → worker_count hardware ≡ hardware)
unfolding worker_count
worker_count_bounds hardware = (ground arith, ground arith, λ low high. ground arith)

-- A function is registered for the task.
abbrev pub HasFunction : TaskRegistry → ℕ → Type 0
HasFunction r id = (f : TaskFunction) × (resolve r id ≡ some f)

pub is_registered_iff : (r : TaskRegistry) (id : ℕ) → (is_registered r id ≡ true) ↔ HasFunction r id
unfolding is_registered
is_registered_iff r id = elim (Option-cases (resolve r id)) [
  | inl e ↦ (
    (λ h. absurd (true_ne_false (sym h ∙ ap present e))),
    (λ (f, h). absurd (true_ne_false (sym (ap present h) ∙ ap present e))),
  )
  | inr (f, e) ↦ ((λ _. (f, e)), (λ _. ap present e))
]
  where
    present : Option TaskFunction → Bool
    present none = false
    present (some f) = true

    true_ne_false : true ≢ false
    true_ne_false e = cc

pub validate_from_iff :
    (r : TaskRegistry) (g : TaskGraph) (n i : ℕ)
    → (validate_from r g n i ≡ true) ↔ ((k : ℕ) → k < n → HasFunction r (g.nodes (i + k)).id)
unfolding validate_from
validate_from_iff r g zero i = ((λ h k low. absurd (omega arith)), (λ h. refl))
validate_from_iff r g (suc n) i =
    let (into, back) = validate_from_iff r g n (i + 1) in
    let (has, is) = is_registered_iff r (g.nodes i).id in
    (
      (λ h k low. elim (ℕ_discrete k 0) [
        | yes e ↦
            subst (λ j. HasFunction r (g.nodes j).id) (omega (arith, e)) (has (ground (arith, h)))
        | no ne ↦
            subst (λ j. HasFunction r (g.nodes j).id) (omega (arith, ne))
              (into (ground (arith, h)) (k - 1) (omega (arith, ne, low)))
      ]),
      (λ h.
          rw
            (
              is (subst (λ j. HasFunction r (g.nodes j).id) (omega arith) (h 0 (omega arith))),
              back (λ k low.
                  subst (λ j. HasFunction r (g.nodes j).id) (omega arith)
                    (h (k + 1) (omega arith))),
            )
            refl),
    )

pub start_threads-joinable :
    (n i : ℕ) (p : WorkerPool) (j : ℕ)
    → ((start_threads n i p).threads j).joinable ≡ (
        if leb i j
        then (if ltb j (i + n) then true else (p.threads j).joinable)
        else (p.threads j).joinable)
unfolding start_threads
start_threads-joinable zero i p j = ground arith
start_threads-joinable (suc n) i p j = ground (
  arith,
  start_threads-joinable n (i + 1)
      (record p {
        contexts = update p.contexts i i;
        threads =
            update p.threads i
              (record { joinable = true; worker_index = i; executed_tasks = 0; steal_count = 0 });
      })
      j,
)

pub start_threads-counts :
    (n i : ℕ) (p : WorkerPool)
    → ((start_threads n i p).active_worker_count ≡ p.active_worker_count)
      × ((start_threads n i p).running ≡ p.running)
unfolding start_threads
start_threads-counts zero i p = (refl, refl)
start_threads-counts (suc n) i p = start_threads-counts n (i + 1) _

pub join_threads-joinable :
    (n i : ℕ) (p : WorkerPool) (j : ℕ)
    → ((join_threads n i p).threads j).joinable ≡ (
        if leb i j
        then (if ltb j (i + n) then false else (p.threads j).joinable)
        else (p.threads j).joinable)
unfolding join_threads
join_threads-joinable zero i p j = ground arith
join_threads-joinable (suc n) i p j =
    let p' =
      if (p.threads i).joinable
      then record p { threads = update p.threads i (record (p.threads i) { joinable = false }) }
      else p in
    ground (arith, join_threads-joinable n (i + 1) p' j, ap (λ k. (p.threads k).joinable))

pub join_threads-running : (n i : ℕ) (p : WorkerPool) → (join_threads n i p).running ≡ p.running
unfolding join_threads
join_threads-running zero i p = refl
join_threads-running (suc n) i p = elim (Bool-cases (p.threads i).joinable) [
  | inl e ↦ join_threads-running n (i + 1) _ ∙ rw e refl
  | inr e ↦ join_threads-running n (i + 1) _ ∙ rw e refl
]
