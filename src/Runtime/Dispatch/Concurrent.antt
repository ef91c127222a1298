-- ===== src/Runtime/Dispatch/Concurrent.antt =====
-- runtime/JobDispatch and WorkerPool between threads: one move of a worker in WorkerLoop,
-- OnTaskCompleted or ReleaseSuccessors is one call of the ready queue, one access to a shared counter
-- or one call of a task's function. The main thread has seeded the queue and waits.
pub mod Gather
pub mod Account
pub mod Releasing
pub mod Moves
pub mod Safety
use mmo_server.Common.{
  ℕ, zero, suc, ◌+◌, ◌-◌, ◌%◌, ◌^◌, ◌<◌, ◌≡◌, ◌≢◌, List, [], ◌∷◌, ◌++◌, update, Option, none, some,
  ◌==◌, if◌then◌else◌,
}
use mmo_server.Queue.Fifo
use mmo_server.Queue.Fifo.{enqueues}
use mmo_server.Runtime.Phase.{RuntimePhaseId, phase_index}
use mmo_server.Runtime.Graph.{TaskGraph, max_nodes, get_node}
use mmo_server.Runtime.Registry.{TaskRegistry}
use mmo_server.Runtime.Dispatch.{JobDispatch, execute_task}
use mmo_server.Runtime.Dispatch.Setup.{children}
use mmo_server.Runtime.Dispatch.Edges.{released}

-- The dispatcher, with the tasks that were taken from the queue and those whose function was called,
-- the last one first.
pub record Shared : Type 0 where
  pub dispatch : JobDispatch
  pub taken : List ℕ
  pub executed : List ℕ

-- Where a worker stands; `rest` are the edges that ReleaseSuccessors still has to look at.
pub data Pc : Type 0 where
  idle : Pc  -- head of the loop in WorkerLoop
  executing : (task : ℕ) → Pc  -- the queue has given `task` out
  releasing : (rest : List ℕ) → Pc
  submitting : (child : ℕ) (rest : List ℕ) → Pc  -- before m_readyQueue.Enqueue
  counting : (rest : List ℕ) → Pc  -- before m_activeTaskCount.fetch_add
  notifying : Pc  -- the last active task is done: before m_phaseEpoch.fetch_add

-- `m_activeTaskCount.fetch_sub(1)`, and whether `prev` was 1.
abbrev pub completed : JobDispatch → JobDispatch
completed d = record d { active_task_count = (d.active_task_count + 2 ^ 32 - 1) % 2 ^ 32 }

abbrev pub after_completed : JobDispatch → Pc
after_completed d = if d.active_task_count == 1 then Pc.notifying else Pc.idle

pub data Move (g : TaskGraph) (r : TaskRegistry) (m : Shared) : Pc → Shared → Pc → Type 0 where
  yield_empty : m.dispatch.ready_queue ≡ [] → Move g r m Pc.idle m Pc.idle
  take :
      {task : ℕ} {rest : List ℕ}
      → m.dispatch.ready_queue ≡ task ∷ rest
      → Move g r m Pc.idle
          (record m { dispatch = record m.dispatch { ready_queue = rest }; taken = task ∷ m.taken })
          (Pc.executing task)
  execute :
      {task : ℕ}
      → Move g r m
          (Pc.executing task)
          (record m { dispatch = execute_task m.dispatch r task; executed = task ∷ m.executed })
          (Pc.releasing (children g task))
  release_last :
      {child : ℕ} {rest : List ℕ}
      → m.dispatch.runtime_state child ≡ 1
      → phase_index (get_node g child).phase_id ≡ phase_index m.dispatch.current_phase
      → Move g r m
          (Pc.releasing (child ∷ rest))
          (record m { dispatch = released m.dispatch child })
          (Pc.submitting child rest)
  release_later :
      {child : ℕ} {rest : List ℕ}
      → m.dispatch.runtime_state child ≡ 1
      → phase_index (get_node g child).phase_id ≢ phase_index m.dispatch.current_phase
      → Move g r m
          (Pc.releasing (child ∷ rest))
          (record m { dispatch = released m.dispatch child })
          (Pc.releasing rest)
  release_waiting :
      {child : ℕ} {rest : List ℕ}
      → m.dispatch.runtime_state child ≢ 1
      → Move g r m
          (Pc.releasing (child ∷ rest))
          (record m { dispatch = released m.dispatch child })
          (Pc.releasing rest)
  enqueue :
      {child : ℕ} {rest : List ℕ}
      → Move g r m
          (Pc.submitting child rest)
          (record m {
            dispatch = record m.dispatch {
              ready_queue = (Fifo.step max_nodes m.dispatch.ready_queue (enqueues child)).1;
            };
          })
          (Pc.counting rest)
  count_active :
      {rest : List ℕ}
      → Move g r m
          (Pc.counting rest)
          (record m {
            dispatch = record m.dispatch {
              active_task_count = (m.dispatch.active_task_count + 1) % 2 ^ 32;
            };
          })
          (Pc.releasing rest)
  complete :
      Move g r m
        (Pc.releasing [])
        (record m { dispatch = completed m.dispatch })
        (after_completed m.dispatch)
  notify :
      Move g r m Pc.notifying
        (record m {
          dispatch = record m.dispatch { phase_epoch = (m.dispatch.phase_epoch + 1) % 2 ^ 64 };
        })
        Pc.idle

pub record System : Type 0 where
  pub mem : Shared
  pub pc : ℕ → Pc

-- `n` workers, in any order.
pub data Step (g : TaskGraph) (r : TaskRegistry) (n : ℕ) (s : System) : System → Type 0 where
  pick :
      (i : ℕ) {m : Shared} {p : Pc}
      → i < n
      → Move g r s.mem (s.pc i) m p
      → Step g r n s (record { mem = m; pc = update s.pc i p })

-- From a dispatcher whose phase is open, with `finished` the tasks of the phases before.
abbrev pub opened : JobDispatch → List ℕ → System
opened d finished = record {
  mem = record { dispatch = d; taken = finished; executed = finished };
  pc = λ _. Pc.idle;
}

pub data Reach (g : TaskGraph) (r : TaskRegistry) (n : ℕ) (d : JobDispatch) (finished : List ℕ)
    : System → Type 0 where
  start : Reach g r n d finished (opened d finished)
  later : {s t : System} → Reach g r n d finished s → Step g r n s t → Reach g r n d finished t
