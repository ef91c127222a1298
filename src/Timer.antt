-- ===== src/Timer.antt =====
-- infrastructure/timer: TimerQueue. Times are nanoseconds of the steady clock; a `Duration` counts
-- milliseconds. `std::priority_queue` is the list of its tasks, the one that is due first at the
-- head. A callback is a name, `none` for an empty `std::function`; what a call of it does to the world
-- outside and to the queue (it may call `Schedule` and `Cancel`, no lock is held) is the parameter
-- `invoke`. A delay is not negative, and the times stay below the 2 ^ 63 nanoseconds of a time point.
pub mod Order
pub mod Dispatch
mod Tests
use mmo_server.Common.{
  ℕ, zero, suc, ◌+◌, ◌*◌, ◌%◌, ◌^◌, Bool, true, false, ◌||◌, ◌&&◌, Option, none, some, List, [],
  ◌∷◌, length, ltb, ◌==◌, if◌then◌else◌,
}

pub data TimerState : Type 0 where
  created scheduled cancelled executing completed : TimerState

pub record TimerTask : Type 0 where
  pub id : ℕ
  pub deadline : ℕ
  pub sequence : ℕ
  pub callback : Option ℕ
  pub state : TimerState

-- `operator>` of TimerTask: `a` comes after `b`.
abbrev pub later : TimerTask → TimerTask → Bool
later a b =
    if a.deadline == b.deadline then ltb b.sequence a.sequence else ltb b.deadline a.deadline

pub record TimerQueue : Type 0 where
  pub tasks : List TimerTask
  pub cancelled_timers : List ℕ
  pub next_id : ℕ
  pub next_sequence : ℕ

abbrev pub construct : TimerQueue
construct = record { tasks = []; cancelled_timers = []; next_id = 1; next_sequence = 0 }

-- `tasks_.push`
unfoldable pub push : TimerTask → List TimerTask → List TimerTask
push t [] = t ∷ []
push t (u ∷ us) = if later t u then u ∷ push t us else t ∷ u ∷ us

unfoldable pub contains : ℕ → List ℕ → Bool
contains id [] = false
contains id (c ∷ cs) = (c == id) || contains id cs

-- `cancelledTimers_.erase`
unfoldable pub erase : ℕ → List ℕ → List ℕ
erase id [] = []
erase id (c ∷ cs) = if c == id then cs else c ∷ erase id cs

-- `Schedule`, with `now` the clock's reading; it returns the timer's id, 0 for an empty callback.
unfoldable pub schedule : TimerQueue → ℕ → ℕ → Option ℕ → ℕ × TimerQueue
unfolding push
schedule q now delay none = (0, q)
schedule q now delay (some callback) = (
  q.next_id,
  record q {
    tasks =
        push
          (record {
            id = q.next_id;
            deadline = now + delay * 1000000;
            sequence = q.next_sequence;
            callback = some callback;
            state = TimerState.scheduled;
          })
          q.tasks;
    next_id = (q.next_id + 1) % 2 ^ 64;
    next_sequence = (q.next_sequence + 1) % 2 ^ 64;
  },
)

unfoldable pub cancel : TimerQueue → ℕ → Bool × TimerQueue
unfolding contains
cancel q id =
    if contains id q.cancelled_timers
    then (false, q)
    else (true, record q { cancelled_timers = id ∷ q.cancelled_timers })

abbrev pub size : TimerQueue → ℕ
size q = length q.tasks

-- What a round of the dispatch loop does with the task at the top.
pub data Top : Type 0 where
  idle : Top
  due : TimerTask → List TimerTask → Top

unfoldable pub top : List TimerTask → ℕ → Top
top [] now = Top.idle
top (t ∷ ts) now = if ltb now t.deadline then Top.idle else Top.due t ts

module _ {W : Type 0} (invoke : ℕ → W → TimerQueue → W × TimerQueue) where
  -- `if (task.callback) task.callback();`
  unfoldable pub call : Option ℕ → W → TimerQueue → W × TimerQueue
  call none w q = (w, q)
  call (some callback) w q = invoke callback w q

  -- The loop of `DispatchExpired`; `none` when the fuel runs out. A callback is called on the queue
  -- with the top task popped.
  unfoldable pub dispatch_expired : ℕ → ℕ → W → TimerQueue → Option (W × TimerQueue)
  unfolding top contains erase call
  dispatch_expired zero now w q = none
  dispatch_expired (suc fuel) now w q = elim (top q.tasks now) [
    | Top.idle ↦ some (w, q)
    | Top.due t ts ↦ elim (contains t.id q.cancelled_timers) [
      | true ↦
          dispatch_expired fuel now w
            (record q { tasks = ts; cancelled_timers = erase t.id q.cancelled_timers })
      | false ↦
          let (w', q') = call t.callback w (record q { tasks = ts }) in
          dispatch_expired fuel now w' q'
    ]
  ]

  unfoldable pub tick : ℕ → W → TimerQueue → ℕ → Option (W × TimerQueue)
  unfolding dispatch_expired
  tick fuel w q now = dispatch_expired fuel now w q
