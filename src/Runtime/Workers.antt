-- ===== src/Runtime/Workers.antt =====
-- runtime/JobDispatch: WorkerPool, the threads. `std::thread::hardware_concurrency()` is an
-- argument; a thread is a Boolean, true while it can be joined. Join waits for the workers' loops
-- to end, which they do once `running` is false.
use mmo_server.Common.{
  ℕ, zero, suc, ◌+◌, ◌%◌, ◌^◌, Bool, true, false, not, ◌||◌, update, ltb, ◌==◌, if◌then◌else◌,
}

pub record WorkerThread : Type 0 where
  pub joinable : Bool
  pub worker_index : ℕ
  pub executed_tasks : ℕ
  pub steal_count : ℕ

-- Which of the three pointers are set.
pub record WorkerPoolConfig : Type 0 where
  pub executor : Bool
  pub ready_queue : Bool
  pub completion_sink : Bool

pub record WorkerPool : Type 0 where
  pub config : WorkerPoolConfig
  pub running : Bool
  pub active_worker_count : ℕ
  pub threads : ℕ → WorkerThread
  pub contexts : ℕ → ℕ

abbrev pub max_hardware_workers : ℕ
max_hardware_workers = 32

abbrev pub construct : WorkerPool
construct = record {
  config = record { executor = false; ready_queue = false; completion_sink = false };
  running = false;
  active_worker_count = 0;
  threads = λ _. record { joinable = false; worker_index = 0; executed_tasks = 0; steal_count = 0 };
  contexts = λ _. 0;
}

-- `static_cast<std::uint16_t>`, and the range test that falls back to one worker.
unfoldable pub worker_count : ℕ → ℕ
worker_count hardware =
    let n = hardware % 2 ^ 16 in if (n == 0) || ltb max_hardware_workers n then 1 else n

-- The loop that starts the threads, with `n` rounds left and `i` the counter.
unfoldable pub start_threads : ℕ → ℕ → WorkerPool → WorkerPool
start_threads zero i p = p
start_threads (suc n) i p = start_threads n (i + 1) (record p {
  contexts = update p.contexts i i;
  threads =
      update p.threads i
        (record { joinable = true; worker_index = i; executed_tasks = 0; steal_count = 0 });
})

unfoldable pub start : WorkerPool → WorkerPoolConfig → ℕ → Bool × WorkerPool
unfolding worker_count start_threads
start p config hardware =
    if p.running
    then (false, p)
    else if not config.executor || (not config.completion_sink || not config.ready_queue)
    then (false, p)
    else (
      true,
      start_threads (worker_count hardware) 0 (record p {
        config = config;
        active_worker_count = worker_count hardware;
        running = true;
      }),
    )

unfoldable pub stop : WorkerPool → WorkerPool
stop p = record p { running = false }

unfoldable pub join_threads : ℕ → ℕ → WorkerPool → WorkerPool
join_threads zero i p = p
join_threads (suc n) i p = join_threads n (i + 1) (
    if (p.threads i).joinable
    then record p { threads = update p.threads i (record (p.threads i) { joinable = false }) }
    else p)

unfoldable pub join : WorkerPool → WorkerPool
unfolding join_threads
join p = record (join_threads p.active_worker_count 0 p) { active_worker_count = 0 }
