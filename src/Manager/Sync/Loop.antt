-- ===== src/Manager/Sync/Loop.antt =====
-- The loop of the manager's thread, `manager_thread_loop` with `run_main` of
-- backend/src/manager/mod.rs, in the pieces between which other tasks run, and the steps of a
-- service.
use start_os.Common.{Bool, true, false, ◌≡◌}
use start_os.Status.{DateTime, MainStatus}
use start_os.Manager.Sync.{
  Status, starting, running, shutdown, sleep, restart, exit, Thread, deciding, entering, finished,
  sleeping, in_main, ManagerSharedState, Await, Docker, Synced, synchronize_once, with_status,
  begin_exit, notify_killer,
}

-- `handle_stop_action` and the match on what it gives
unfoldable pub decide : ManagerSharedState → ManagerSharedState
decide shared = elim shared.on_stop [
  | sleep ↦ record shared { status = Status.stopped; thread = sleeping false }
  | exit ↦ record shared { status = shutdown; thread = finished }
  | restart ↦ record shared { status = running; thread = entering }
]

abbrev pub starting_to_running : Status → Status
starting_to_running starting = running
starting_to_running status = status

unfoldable pub fetch_starting_to_running : ManagerSharedState → ManagerSharedState
fetch_starting_to_running shared = with_status (starting_to_running shared.status) shared

-- `run_main`, once the container has an address, up to where it waits
unfoldable pub enter_main : ManagerSharedState → ManagerSharedState
enter_main shared =
    record (fetch_starting_to_running (record shared { commit_health_check_results = true })) {
      thread = in_main false;
    }

abbrev pub with_thread : Thread → ManagerSharedState → ManagerSharedState
with_thread thread shared = record shared { thread = thread }

-- What the thread may do next. `run_main` may return at any time, with an error before it waits too.
pub data ThreadStep : ManagerSharedState → ManagerSharedState → Type 0 where
  decides :
      {shared : ManagerSharedState} → shared.thread ≡ deciding → ThreadStep shared (decide shared)
  wakes :
      {shared : ManagerSharedState}
      → shared.thread ≡ sleeping true
      → ThreadStep shared (with_thread deciding shared)
  enters :
      {shared : ManagerSharedState}
      → shared.thread ≡ entering
      → ThreadStep shared (enter_main shared)
  fails :
      {shared : ManagerSharedState}
      → shared.thread ≡ entering
      → ThreadStep shared (with_thread deciding shared)
  leaves :
      {shared : ManagerSharedState}
      → (killed : Bool) → shared.thread ≡ in_main killed
      → ThreadStep shared (with_thread deciding shared)

-- What other tasks do while a call waits: the thread moves, and the manager is told to exit.
pub data TaskSteps : ManagerSharedState → ManagerSharedState → Type 0 where
  rests : {shared : ManagerSharedState} → TaskSteps shared shared
  moves :
      {shared shared₁ shared₂ : ManagerSharedState}
      → ThreadStep shared shared₁
      → TaskSteps shared₁ shared₂
      → TaskSteps shared shared₂
  told :
      {shared shared₂ : ManagerSharedState}
      → TaskSteps (begin_exit shared) shared₂
      → TaskSteps shared shared₂
  notified :
      {shared shared₂ : ManagerSharedState}
      → TaskSteps (notify_killer shared) shared₂
      → TaskSteps shared shared₂

-- What may happen to a service: its thread moves, the synchronizer runs, a command or a health check
-- writes another status to the database, and the manager is told to exit, which notifies the killer
-- later.
pub data ServiceStep : Synced → Synced → Type 0 where
  thread_moves :
      {s : Synced} {shared : ManagerSharedState}
      → ThreadStep s.shared shared
      → ServiceStep s (record s { shared = shared })
  synchronizes :
      {s : Synced}
      → (docker : Docker) (now : DateTime)
      → ((for : Await) (shared : ManagerSharedState)
          → TaskSteps shared (docker.meanwhile for shared))
      → ServiceStep s (synchronize_once docker now s).0
  commands : {s : Synced} → (main : MainStatus) → ServiceStep s (record s { main = main })
  exits : {s : Synced} → ServiceStep s (record s { shared = begin_exit (s.shared) })
  kills : {s : Synced} → ServiceStep s (record s { shared = notify_killer (s.shared) })

-- the states that are reached from the one that `Manager::create` makes
abbrev pub created : ManagerSharedState
created = record {
  status = Status.stopped;
  on_stop = sleep;
  commit_health_check_results = true;
  thread = deciding;
}

pub data IsReachable : Synced → Type 0 where
  creates : (main : MainStatus) → IsReachable (record { main = main; shared = created })
  steps : {s s' : Synced} → IsReachable s → ServiceStep s s' → IsReachable s'
