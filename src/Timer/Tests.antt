-- ===== src/Timer/Tests.antt =====
-- A queue with two timers, and the theorems at it.
use mmo_server.Common.{ℕ, ◌≤◌, ◌<◌, ◌≡◌, refl, some, List, [], ◌∷◌, ◌++◌, arith, All}
use mmo_server.Timer.{
  cancel, TimerTask, TimerState, TimerQueue, construct, schedule, tick, contains,
}
use mmo_server.Timer.Order.{IsValid, schedule_place}
use mmo_server.Timer.Dispatch.{cancelled_never_runs, tick_runs_due}

abbrev early_task : TimerTask
early_task = record {
  id = 2;
  deadline = 3000000;
  sequence = 1;
  callback = some 20;
  state = TimerState.scheduled;
}

abbrev late_task : TimerTask
late_task = record {
  id = 1;
  deadline = 5000000;
  sequence = 0;
  callback = some 10;
  state = TimerState.scheduled;
}

abbrev two_timers : TimerQueue
two_timers = record {
  tasks = early_task ∷ late_task ∷ [];
  cancelled_timers = [];
  next_id = 3;
  next_sequence = 2;
}

two_timers_scheduled : (schedule (schedule construct 0 5 (some 10)).1 0 3 (some 20)).1 ≡ two_timers
unfolding schedule
two_timers_scheduled = refl

two_timers-IsValid : IsValid two_timers
two_timers-IsValid = record {
  sorted = ((refl, tt), (tt, tt));
  distinct = (((λ e. omega (arith, e)), tt), (tt, tt));
  issued = (omega arith, (omega arith, tt));
  numbered = (omega arith, (omega arith, tt));
}

schedule_place_example :
    (t : TimerTask) × (before after : List TimerTask) × (t.id
      ≡ (schedule two_timers 1000000 3 (some 30)).0)
    × (t.deadline ≡ 4000000)
    × (t.callback ≡ some 30)
    × ((schedule two_timers 1000000 3 (some 30)).1.tasks ≡ before ++ t ∷ after)
    × (two_timers.tasks ≡ before ++ after)
    × All (λ u. u.deadline ≤ t.deadline) before
    × All (λ u. t.deadline < u.deadline) after
schedule_place_example = schedule_place two_timers 1000000 3 30 two_timers-IsValid

-- A callback writes its name down.
abbrev noted : ℕ → List ℕ → TimerQueue → List ℕ × TimerQueue
noted callback seen q = (callback ∷ seen, q)

tick_runs_due_example :
    (q' : TimerQueue) × (tick noted 3 [] two_timers 4000000 ≡ some (20 ∷ [], q'))
    × (q'.tasks ≡ late_task ∷ [])
    × (q'.next_id ≡ 3)
    × (q'.next_sequence ≡ 2)
    × IsValid q'
unfolding contains
tick_runs_due_example =
    tick_runs_due noted (λ callback seen. callback ∷ seen) (λ callback seen q. refl) 3 4000000 []
      two_timers two_timers-IsValid (omega arith)

cancelled_never_runs_example :
    (q' : TimerQueue) × (tick noted 3 [] (cancel two_timers 2).1 9000000 ≡ some (10 ∷ [], q'))
    × (q'.tasks ≡ [])
unfolding contains
cancelled_never_runs_example =
    cancelled_never_runs noted (λ callback seen. callback ∷ seen) (λ callback seen q. refl) 3
      9000000 2 [] two_timers two_timers-IsValid (omega arith)
