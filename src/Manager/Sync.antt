-- ===== src/Manager/Sync.antt =====
-- A running service and its synchronizer: backend/src/manager/mod.rs and backend/src/manager/sync.rs.
-- Docker is external: its answers are an argument, and so is what other tasks do while a call waits
-- for it. A pair of a state and `false` is a call that does not reach its end, by an error or because
-- it is dropped; it keeps what has been written to the shared state.
pub mod Loop
pub mod Orderly
pub mod Calls
pub mod Reaches
pub mod Finished
pub mod Rounds
pub mod Converges
mod Samples
use start_os.Common.{Bool, true, false, ◌&&◌, not, List, if◌then◌else◌}
use start_os.Status.{
  DateTime, MainStatus, restarting, stopping, starting_up, running_since, backing_up,
}

pub data Status : Type 0 where
  starting running stopped paused shutdown : Status

pub data OnStop : Type 0 where
  restart sleep exit : OnStop

-- Where `manager_thread_loop` stands: before it reads `on_stop`, waiting for `on_stop` to change
-- (`true` when it has), in `run_main` before the checks run, waiting in `run_main` (`true` when the
-- killer has notified it), and after the loop.
pub data Thread : Type 0 where
  deciding entering finished : Thread
  sleeping : (changed : Bool) → Thread
  in_main : (killed : Bool) → Thread

pub record ManagerSharedState : Type 0 where
  pub status : Status
  pub on_stop : OnStop
  pub commit_health_check_results : Bool
  pub thread : Thread

-- where a call of the synchronizer waits: for Docker, or in `wait_for_status`
pub data Await : Type 0 where
  pausing unpausing signalling waiting : Await

-- Whether the calls of Docker succeed. While a call waits, other tasks run: `meanwhile` is what they do
-- to the shared state.
pub record Docker : Type 0 where
  pub pauses : Bool
  pub unpauses : Bool
  pub signals : Bool
  pub meanwhile : Await → ManagerSharedState → ManagerSharedState

-- a state with another status, or with health checks that are not committed
abbrev pub with_status : Status → ManagerSharedState → ManagerSharedState
with_status status shared = record shared { status = status }

abbrev pub dont_commit : ManagerSharedState → ManagerSharedState
dont_commit shared = record shared { commit_health_check_results = false }

abbrev pub is_running : Status → Bool
is_running running = true
is_running _ = false

abbrev pub is_paused : Status → Bool
is_paused paused = true
is_paused _ = false

-- a thread that waits is notified of a new value of `on_stop`, even of the same one
abbrev pub on_change : Thread → Thread
on_change (sleeping _) = sleeping true
on_change thread = thread

abbrev pub modify_on_stop : (OnStop → OnStop) → ManagerSharedState → ManagerSharedState
modify_on_stop change shared = record shared {
  on_stop = change (shared.on_stop);
  thread = on_change (shared.thread);
}

abbrev pub to_sleep : OnStop → OnStop
to_sleep restart = sleep
to_sleep on_stop = on_stop

abbrev pub to_restart : OnStop → OnStop
to_restart sleep = restart
to_restart on_stop = on_stop

-- `killer.notify_waiters()`
abbrev pub kill : Thread → Thread
kill (in_main _) = in_main true
kill thread = thread

abbrev pub notify_killer : ManagerSharedState → ManagerSharedState
notify_killer shared = record shared { thread = kill (shared.thread) }

unfoldable pub start : ManagerSharedState → ManagerSharedState
start shared =
    let shared₁ = modify_on_stop to_restart shared in
    if is_running shared₁.status then shared₁ else with_status starting shared₁

abbrev pub is_finished : Thread → Bool
is_finished finished = true
is_finished _ = false

-- `.await`, and what follows it. The `select!` of `Manager::create` drops the synchronizer when the
-- thread has left its loop meanwhile.
abbrev pub awaits :
    Docker
    → Await
    → ManagerSharedState
    → (ManagerSharedState → ManagerSharedState × Bool)
    → ManagerSharedState × Bool
awaits docker for shared next =
    let shared₁ = docker.meanwhile for shared in
    if is_finished shared₁.thread then (shared₁, false) else next shared₁

unfoldable pub send_signal : Docker → ManagerSharedState → ManagerSharedState × Bool
send_signal docker shared =
    awaits docker signalling (dont_commit shared) λ shared₁. (shared₁, docker.signals)

unfoldable pub resume : Docker → ManagerSharedState → ManagerSharedState × Bool
resume docker shared =
    awaits docker unpausing shared
      λ shared₁. if docker.unpauses then (with_status running shared₁, true) else (shared₁, false)

-- the rest of `stop`, after the service has been resumed
unfoldable pub terminate : Docker → ManagerSharedState → ManagerSharedState × Bool
terminate docker shared =
    let sent = send_signal docker shared in
    if sent.1
    then awaits docker waiting (sent.0) (λ shared₁. (notify_killer shared₁, true))
    else sent

unfoldable pub stop : Docker → ManagerSharedState → ManagerSharedState × Bool
stop docker shared =
    let shared₁ = modify_on_stop to_sleep (dont_commit shared) in
    let resumed = resume docker shared₁ in
    if not (is_paused shared₁.status)
    then terminate docker shared₁
    else if resumed.1
    then terminate docker resumed.0
    else resumed

unfoldable pub pause : Docker → ManagerSharedState → ManagerSharedState × Bool
pause docker shared =
    awaits docker pausing shared
      λ shared₁. if docker.pauses then (with_status paused shared₁, true) else stop docker shared₁

-- The status of the service in the database, with the state of its manager.
pub record Synced : Type 0 where
  pub main : MainStatus
  pub shared : ManagerSharedState

-- the status in the database is only saved where no call has failed
abbrev pub with_call : MainStatus → ManagerSharedState × Bool → Synced × Bool
with_call main (shared, ok) = (record { main = main; shared = shared }, ok)

-- The rows of the table in `synchronize_once`, for each status of the manager.
module _ (docker : Docker) (now : DateTime) (shared : ManagerSharedState) where
  unfoldable pub when_stopped : MainStatus → Synced × Bool
  when_stopped MainStatus.stopped = with_call MainStatus.stopped (shared, true)
  when_stopped stopping = with_call MainStatus.stopped (shared, true)
  when_stopped restarting = with_call (starting_up true) (shared, true)
  when_stopped (starting_up is_restart) = with_call (starting_up is_restart) (start shared, true)
  when_stopped (running_since started health) =
      with_call (running_since now health) (start shared, true)
  when_stopped (backing_up started health) = with_call (backing_up started health) (shared, true)

  unfoldable pub when_starting : MainStatus → Synced × Bool
  when_starting (starting_up is_restart) = with_call (starting_up is_restart) (shared, true)
  when_starting (running_since started health) =
      with_call (running_since started health) (shared, true)
  when_starting (backing_up started health) =
      with_call (backing_up started health) (pause docker shared)
  when_starting main = with_call main (stop docker shared)

  unfoldable pub when_running : MainStatus → Synced × Bool
  when_running (starting_up is_restart) = with_call (running_since now List.[]) (shared, true)
  when_running (running_since started health) =
      with_call (running_since started health) (shared, true)
  when_running (backing_up started health) =
      with_call (backing_up started health) (pause docker shared)
  when_running main = with_call main (stop docker shared)

  unfoldable pub when_paused : MainStatus → Synced × Bool
  when_paused (starting_up is_restart) = with_call (starting_up is_restart) (resume docker shared)
  when_paused (running_since started health) =
      with_call (running_since started health) (resume docker shared)
  when_paused (backing_up started health) = with_call (backing_up started health) (shared, true)
  when_paused main = with_call main (stop docker shared)

-- of a service that is installed, so that its status is found
unfoldable pub synchronize_once : Docker → DateTime → Synced → Synced × Bool
synchronize_once docker now s = elim s.shared.status as (λ _. Synced × Bool) [
  | Status.stopped ↦ when_stopped docker now s.shared s.main
  | starting ↦ when_starting docker now s.shared s.main
  | running ↦ when_running docker now s.shared s.main
  | paused ↦ when_paused docker now s.shared s.main
  | shutdown ↦ (s, true)
]

-- the part of `Manager::exit` before it waits for the thread
unfoldable pub begin_exit : ManagerSharedState → ManagerSharedState
begin_exit shared = modify_on_stop (λ _. exit) (dont_commit shared)
