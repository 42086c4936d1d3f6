-- ===== src/Manager/Sync/Samples.antt =====
-- A service that is told to exit, and one whose main procedure ends while a pause waits for Docker.
use start_os.Common.{◌≤◌, ◌≡◌, refl, true, false, [], none, arith}
use start_os.Status.{starting_up, restarting, stopping, backing_up}
use start_os.Manager.Sync.{
  Status, shutdown, paused, exit, sleep, finished, deciding, sleeping, Synced, begin_exit, Await,
  pausing, waiting, Docker, ManagerSharedState, synchronize_once, when_stopped, when_running, start,
  stop, pause, terminate, send_signal,
}
use start_os.Manager.Sync.Loop.{
  thread_moves, commands, exits, synchronizes, IsReachable, creates, steps, decides, wakes, enters,
  created, decide, enter_main, fetch_starting_to_running, with_thread, TaskSteps, rests,
}
use start_os.Manager.Sync.Orderly.{orderly}
use start_os.Manager.Sync.Reaches.{reachable-IsOrderly}
use start_os.Manager.Sync.Finished.{ServiceSteps, stays, continues, finished-ServiceSteps}
use start_os.Manager.Sync.Rounds.{
  rounds, obeying, obeying-TaskSteps, ending, settle, react, is_done,
}
use start_os.Manager.Sync.Converges.{rounds-converges}

abbrev fresh : Synced
fresh = record { main = restarting; shared = created }

fresh-IsReachable : IsReachable fresh
fresh-IsReachable = creates restarting

-- told to exit before the thread has looked
abbrev exiting : Synced
exiting = record {
  main = restarting;
  shared = record {
    status = Status.stopped;
    on_stop = exit;
    commit_health_check_results = false;
    thread = deciding;
  };
}

exiting-IsReachable : IsReachable exiting
unfolding begin_exit
exiting-IsReachable = steps fresh-IsReachable exits

abbrev gone : Synced
gone = record exiting { shared = decide (exiting.shared) }

gone-IsReachable : IsReachable gone
gone-IsReachable = steps exiting-IsReachable (thread_moves (decides refl))

gone-finished : gone.shared.thread ≡ finished
unfolding decide
gone-finished = refl

abbrev asked : Synced
asked = record gone { main = starting_up false }

asked-follows : ServiceSteps gone asked
asked-follows = continues (commands (starting_up false)) stays

-- started, and stopped before the main procedure has started
abbrev created_state : Synced
created_state = record { main = starting_up false; shared = created }

abbrev decided_state : Synced
decided_state = record created_state { shared = decide (created_state.shared) }

abbrev started_state : Synced
started_state = (synchronize_once (obeying true false) 7 decided_state).0

abbrev entering_state : Synced
entering_state = record started_state {
  shared = decide (with_thread deciding (started_state.shared));
}

abbrev stopped_state : Synced
stopped_state =
    (synchronize_once (obeying true false) 8 (record entering_state { main = stopping })).0

abbrev in_main_state : Synced
in_main_state = record { main = backing_up none []; shared = enter_main (stopped_state.shared) }

-- the main procedure ends, and the thread goes to sleep, while `pause` waits
abbrev leaves_main : Await → ManagerSharedState → ManagerSharedState
leaves_main pausing shared = ending true waiting shared
leaves_main _ shared = shared

abbrev leaving : Docker
leaving = record { pauses = true; unpauses = true; signals = true; meanwhile = leaves_main }

abbrev paused_state : Synced
paused_state = (synchronize_once leaving 9 in_main_state).0

leaves_main-TaskSteps :
    (for : Await) (shared : ManagerSharedState) → TaskSteps shared (leaves_main for shared)
leaves_main-TaskSteps pausing shared = obeying-TaskSteps true true waiting shared
leaves_main-TaskSteps _ shared = rests

entering_state-IsReachable : IsReachable entering_state
unfolding synchronize_once when_stopped start decide
entering_state-IsReachable =
    steps
      (steps
        (steps (steps (creates (starting_up false)) (thread_moves (decides refl)))
          (synchronizes (obeying true false) 7 (obeying-TaskSteps true false)))
        (thread_moves (wakes refl)))
      (thread_moves (decides refl))

in_main_state-IsReachable : IsReachable in_main_state
unfolding synchronize_once when_stopped when_running start stop terminate send_signal decide
in_main_state-IsReachable =
    steps
      (steps
        (steps (steps entering_state-IsReachable (commands stopping))
          (synchronizes (obeying true false) 8 (obeying-TaskSteps true false)))
        (thread_moves (enters refl)))
      (commands (backing_up none []))

paused_state-IsReachable : IsReachable paused_state
paused_state-IsReachable =
    steps in_main_state-IsReachable (synchronizes leaving 9 leaves_main-TaskSteps)

finished-ServiceSteps_example : asked.shared.status ≡ shutdown
finished-ServiceSteps_example =
    finished-ServiceSteps gone asked gone-IsReachable gone-finished asked-follows

reachable-IsOrderly_example : orderly paused sleep (sleeping false) ≡ true
unfolding synchronize_once when_stopped when_running start stop pause terminate send_signal decide
    enter_main fetch_starting_to_running settle react
reachable-IsOrderly_example = reachable-IsOrderly paused_state paused_state-IsReachable

four_long : 4 ≤ 6
four_long = omega arith

rounds-converges_example :
    is_done restarting
      (rounds (obeying false true) 7 6 (record fresh { shared = settle (fresh.shared) }))
    ≡ true
rounds-converges_example =
    rounds-converges false true 7 6 fresh four_long fresh-IsReachable refl refl
