-- ===== src/Lib.antt =====
-- The server core of an MMO server: infrastructure that a game server stands on (a memory pool,
-- lock-free queues, timers, the network) and the runtime that drives its ticks. A tick goes through
-- the phases of a pipeline: TickScheduler paces the ticks and fires the timers, RuntimePipelineExecutor
-- hands the phases to a job dispatcher, and JobDispatch runs the tasks of a phase on worker threads
-- in the order of the task graph, through an MPMC queue of ready tasks. NetServer decodes what its
-- connections receive into an MPSC queue of inbound packets.
--
-- Which file models which part, with paths from server_core:
--   Memory     infrastructure/memory_pool: FixedBlockPool (construct, allocate, deallocate, owns)
--   Queue      infrastructure/lockfree_queue: Queue/Mpmc is MPMCQueue, Queue/Mpsc MPSCQueue (enqueue,
--              dequeue, approx_size); Queue/Fifo is the list that both implement, Queue/Window says
--              how the slots and the counters hold it; Queue/Mpmc/Concurrent and
--              Queue/Mpsc/Concurrent are the queues between threads, one access to shared memory at a
--              time
--   Timer      infrastructure/timer: TimerQueue (schedule, cancel, tick)
--   Packet     infrastructure/packet: PacketBuffer, PacketView, PacketWriter and PacketReader (write,
--              write_string, read, read_string)
--   Serialization  infrastructure/serialization: BinaryWriter, BinaryReader and StringSerializer
--   EventBus   infrastructure/EventBus: EventBus (subscribe_internal, unsubscribe, publish_internal,
--              clear); EventBus/Promise is the abstract bus that it implements
--   Net        infrastructure/Net: PacketCodec (encode, decode) and the decode loop of NetServer;
--              Net/Connection is TcpConnection with the read and write loops of NetServer;
--              Net/Server is NetServer: the table of connections, Start, Stop, Send, PollPacket and
--              the handlers of the io thread
--   Config     infrastructure/ConfigSystem: ConfigSystem (load, get, try_get, clear) over the
--              interface IConfigParser, and KeyValueConfigParser (parse_file)
--   Logger     infrastructure/logger: Logger (log, add_sink, flush), TextFormatter (format) and the
--              sinks
--   Runtime    runtime: Runtime/Phase and Runtime/Graph are the data of a tick, Runtime/Registry is
--              TaskRegistry, Runtime/Workers is WorkerPool, Runtime/Dispatch is JobDispatch,
--              Runtime/Dispatch/Concurrent a phase of it between the moves of its workers,
--              Runtime/Executor is RuntimePipelineExecutor over the interface IJobDispatch,
--              Runtime/Scheduler is TickScheduler; Runtime/Pipeline puts JobDispatch behind the
--              interface of the executor
--   Common     shared names, tests, lists, arrays, bytes and results
--
-- A class is a record of its members, an operation a function from the state to what it returns and
-- the state after it; an exception is the result `thrown`. Numbers are natural numbers, and where a
-- machine integer can wrap the wrap-around is written out. A `std::array` or the slots of a queue
-- are functions of the index.
--
-- Loops: a loop over an array counts down its rounds. The compare-exchange loops of the queues, the
-- dispatch loop of the timers, the decode loop and the worker's loop take fuel, and `none` is the
-- answer when it runs out; the theorems give the fuel that is enough (one round for a queue that no
-- other thread touches, one more than the number of tasks, timers or bytes for the others).
--
-- Threads: MPMCQueue, MPSCQueue with one consumer, and a phase of JobDispatch are also step relations,
-- in which any thread makes the next access to shared memory. Every load reads the latest store, so
-- that the memory orders of the code count for nothing; the counters of the queues are taken below the
-- point where they wrap; and the ready queue of JobDispatch is taken as a FIFO list whose calls are
-- single moves.
--
-- Schedules: Runtime/Dispatch and Runtime/Pipeline run a phase with the pool's only worker, which
-- starts once the phase is seeded; only Runtime/Dispatch/Concurrent has several. TickScheduler meets a
-- Shutdown at any point of a round.
--
-- Not modelled: weak memory. The calls of the event bus, of the timers and of the logger run with no
-- other thread in between, and so do the handlers and the calls of NetServer. What the handlers of an
-- event do to the bus is subscribe and unsubscribe; they publish nothing and do not clear it. No worker
-- runs while a phase is seeded, and the main thread only waits. Delays of timers are not negative, and
-- times stay below the 2 ^ 63 nanoseconds of a time point. The sockets and the io context, the clock,
-- the files, `snprintf` and the callbacks of timers are arguments.
-- FileConfigSource, which walks the file system, and the unit tests are not in this development.
pub mod Common
pub mod Memory
pub mod Queue
pub mod Timer
pub mod Packet
pub mod Serialization
pub mod Net
pub mod EventBus
pub mod Config
pub mod Logger
pub mod Runtime
