-- ===== src/Manager/Sync/Reaches.antt =====
-- The states that a service reaches are orderly (backend/src/manager).
use start_os.Common.{◌≡◌, refl, true}
use start_os.Manager.Sync.{Synced, exit, begin_exit}
use start_os.Manager.Sync.Loop.{
  ServiceStep, thread_moves, synchronizes, commands, exits, kills, IsReachable, creates, steps,
}
use start_os.Manager.Sync.Orderly.{
  orderly, IsOrderly, orderly-change, orderly-kill, ThreadStep-IsOrderly,
}
use start_os.Manager.Sync.Calls.{synchronize_once-IsOrderly}

ServiceStep-IsOrderly :
    {s s' : Synced} → ServiceStep s s' → IsOrderly s.shared → IsOrderly s'.shared
unfolding begin_exit
ServiceStep-IsOrderly (thread_moves step) h = ThreadStep-IsOrderly step h
ServiceStep-IsOrderly {s} (synchronizes docker now tasks) h =
    let shared = s.shared in
    synchronize_once-IsOrderly docker tasks now s.main shared.status shared.on_stop
      shared.commit_health_check_results shared.thread h
ServiceStep-IsOrderly (commands main) h = h
ServiceStep-IsOrderly {s} exits h =
    orderly-change (λ _. exit) s.shared.status s.shared.on_stop s.shared.thread refl h
ServiceStep-IsOrderly {s} kills h = orderly-kill s.shared.status s.shared.on_stop s.shared.thread h

-- In every state that a service reaches, whatever Docker answers and however the steps of its thread,
-- of the synchronizer, of the commands and of an exit interleave, also where a call waits for Docker:
-- the status is shutdown just when the thread has left its loop, which it does when it has been told
-- to exit; it waits undisturbed only when it has been told to sleep; and while it is in `run_main` the
-- status is running or paused.
pub reachable-IsOrderly :
    (s : Synced) → IsReachable s → orderly s.shared.status s.shared.on_stop s.shared.thread ≡ true
unfolding orderly
reachable-IsOrderly s (creates main) = refl
reachable-IsOrderly s (steps reached step) =
    ServiceStep-IsOrderly step (reachable-IsOrderly _ reached)
