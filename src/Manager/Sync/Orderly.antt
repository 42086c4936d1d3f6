-- ===== src/Manager/Sync/Orderly.antt =====
-- What always holds between the status of a manager, what it is told to do and its thread
-- (backend/src/manager).
use start_os.Common.{◌≡◌, refl, Bool, true, false, ◌&&◌, not, arith, and_left, and_right}
use start_os.Manager.Sync.{
  Status, running, paused, shutdown, OnStop, sleep, restart, exit, Thread, deciding, entering,
  finished, sleeping, in_main, ManagerSharedState, on_change, kill, is_finished, begin_exit,
}
use start_os.Manager.Sync.Loop.{
  ThreadStep, decides, wakes, enters, fails, leaves, TaskSteps, rests, moves, told, notified,
  decide, enter_main, fetch_starting_to_running, starting_to_running,
}

abbrev pub is_stopped : Status → Bool
is_stopped Status.stopped = true
is_stopped _ = false

abbrev pub is_shutdown : Status → Bool
is_shutdown shutdown = true
is_shutdown _ = false

-- the main procedure runs, or is frozen
abbrev pub is_up : Status → Bool
is_up running = true
is_up paused = true
is_up _ = false

abbrev pub is_sleep : OnStop → Bool
is_sleep sleep = true
is_sleep _ = false

abbrev pub is_exit : OnStop → Bool
is_exit exit = true
is_exit _ = false

-- A thread that has left its loop was told to exit and has said so, and no other one has; a thread that
-- waits undisturbed was told to sleep; while `run_main` runs, the status is running or paused.
unfoldable pub orderly : Status → OnStop → Thread → Bool
orderly status on_stop finished = is_shutdown status && is_exit on_stop
orderly status on_stop (sleeping false) = not (is_shutdown status) && is_sleep on_stop
orderly status on_stop (sleeping true) = not (is_shutdown status)
orderly status on_stop deciding = not (is_shutdown status)
orderly status on_stop entering = is_up status
orderly status on_stop (in_main killed) = is_up status

abbrev pub IsOrderly : ManagerSharedState → Type 0
IsOrderly shared = orderly shared.status shared.on_stop shared.thread ≡ true

pub orderly-change :
    (change : OnStop → OnStop) (status : Status) (on_stop : OnStop) (thread : Thread)
    → change exit ≡ exit
    → orderly status on_stop thread ≡ true
    → orderly status (change on_stop) (on_change thread) ≡ true
unfolding orderly
orderly-change change shutdown exit finished e h = rw e refl
orderly-change change status sleep (sleeping false) e h = and_left _ true h
orderly-change change status on_stop (sleeping true) e h = h
orderly-change change status on_stop deciding e h = h
orderly-change change status on_stop entering e h = h
orderly-change change status on_stop (in_main killed) e h = h
orderly-change change _ _ _ e h = absurd (ground arith)

pub orderly-kill :
    (status : Status) (on_stop : OnStop) (thread : Thread)
    → orderly status on_stop thread ≡ true
    → orderly status on_stop (kill thread) ≡ true
unfolding orderly
orderly-kill status on_stop (in_main killed) h = h
orderly-kill status on_stop finished h = h
orderly-kill status on_stop (sleeping changed) h = h
orderly-kill status on_stop deciding h = h
orderly-kill status on_stop entering h = h

pub orderly-up :
    (status status' : Status) (on_stop : OnStop) (thread : Thread)
    → is_finished thread ≡ false
    → is_up status' ≡ true
    → orderly status on_stop thread ≡ true
    → orderly status' on_stop thread ≡ true
unfolding orderly
orderly-up status status' on_stop (in_main killed) b u h = u
orderly-up status status' on_stop entering b u h = u
orderly-up status running on_stop deciding b u h = refl
orderly-up status paused on_stop deciding b u h = refl
orderly-up status running on_stop (sleeping true) b u h = refl
orderly-up status paused on_stop (sleeping true) b u h = refl
orderly-up status running on_stop (sleeping false) b u h =
    and_right (not (is_shutdown status)) (is_sleep on_stop) h
orderly-up status paused on_stop (sleeping false) b u h =
    and_right (not (is_shutdown status)) (is_sleep on_stop) h
orderly-up _ _ _ _ b u h = absurd (ground arith)

is_up-starting_to_running :
    (status : Status) → is_up status ≡ true → is_up (starting_to_running status) ≡ true
is_up-starting_to_running running h = refl
is_up-starting_to_running paused h = refl
is_up-starting_to_running _ h = absurd (ground arith)

up_not_shutdown : (status : Status) → is_up status ≡ true → not (is_shutdown status) ≡ true
up_not_shutdown running h = refl
up_not_shutdown paused h = refl
up_not_shutdown _ h = absurd (ground arith)

decide-IsOrderly :
    (status : Status) (on_stop : OnStop) (commit : Bool) (thread : Thread)
    → IsOrderly (
        decide (record {
          status = status;
          on_stop = on_stop;
          commit_health_check_results = commit;
          thread = thread;
        }))
unfolding orderly decide
decide-IsOrderly status sleep commit thread = refl
decide-IsOrderly status restart commit thread = refl
decide-IsOrderly status exit commit thread = refl

pub ThreadStep-IsOrderly :
    {shared shared' : ManagerSharedState}
    → ThreadStep shared shared'
    → IsOrderly shared
    → IsOrderly shared'
unfolding orderly enter_main fetch_starting_to_running
ThreadStep-IsOrderly {shared} (decides e) h =
    decide-IsOrderly shared.status shared.on_stop shared.commit_health_check_results shared.thread
ThreadStep-IsOrderly {shared} (wakes e) h = rw e at h
ThreadStep-IsOrderly {shared} (enters e) h = is_up-starting_to_running shared.status (rw e at h)
ThreadStep-IsOrderly {shared} (fails e) h = up_not_shutdown shared.status (rw e at h)
ThreadStep-IsOrderly {shared} (leaves killed e) h = up_not_shutdown shared.status (rw e at h)

pub TaskSteps-IsOrderly :
    {shared shared' : ManagerSharedState}
    → TaskSteps shared shared'
    → IsOrderly shared
    → IsOrderly shared'
unfolding begin_exit
TaskSteps-IsOrderly rests h = h
TaskSteps-IsOrderly (moves step rest) h = TaskSteps-IsOrderly rest (ThreadStep-IsOrderly step h)
TaskSteps-IsOrderly {shared} (told rest) h =
    TaskSteps-IsOrderly rest
      (orderly-change (λ _. exit) shared.status shared.on_stop shared.thread refl h)
TaskSteps-IsOrderly {shared} (notified rest) h =
    TaskSteps-IsOrderly rest (orderly-kill shared.status shared.on_stop shared.thread h)
