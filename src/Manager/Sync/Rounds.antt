-- ===== src/Manager/Sync/Rounds.antt =====
-- Rounds of the synchronizer and of the thread (backend/src/manager), in which nothing else happens
-- and the main procedure starts and goes on until it is killed.
use start_os.Common.{ℕ, zero, suc, refl, Bool, true, false, ◌&&◌}
use start_os.Status.{
  DateTime, MainStatus, restarting, stopping, starting_up, running_since, backing_up,
}
use start_os.Manager.Sync.{
  Status, running, paused, OnStop, Thread, deciding, entering, finished, sleeping, in_main,
  ManagerSharedState, Await, waiting, Docker, Synced, synchronize_once,
}
use start_os.Manager.Sync.Loop.{
  decides, wakes, enters, leaves, TaskSteps, rests, moves, told, notified, exits, kills, decide,
  enter_main, with_thread, IsReachable, steps, synchronizes, thread_moves,
}

-- What the thread does next where nothing else happens and `run_main` succeeds: it starts, and goes on
-- until it is killed. (`ThreadStep` allows it to fail, and to end by itself, at any time.)
unfoldable pub react : ManagerSharedState → ManagerSharedState
react shared = elim shared.thread as (λ _. ManagerSharedState) [
  | deciding ↦ decide shared
  | sleeping true ↦ with_thread deciding shared
  | sleeping false ↦ shared
  | entering ↦ enter_main shared
  | in_main true ↦ with_thread deciding shared
  | in_main false ↦ shared
  | finished ↦ shared
]

-- The thread runs until it waits.
unfoldable pub settle : ManagerSharedState → ManagerSharedState
settle shared = react (react (react shared))

-- `run_main` ends by itself
abbrev pub leave : Thread → Thread
leave (in_main _) = deciding
leave thread = thread

-- what happens while a call waits: the container ends on the signal, or nothing
abbrev pub ending : (ends : Bool) → Await → ManagerSharedState → ManagerSharedState
ending true waiting shared = settle (with_thread (leave (shared.thread)) shared)
ending true _ shared = shared
ending false _ shared = shared

-- Docker obeys, but a container may refuse to be paused, and it may or may not end on a signal before
-- the time is up. The other calls are answered before anything else happens.
abbrev pub obeying : (pauses ends : Bool) → Docker
obeying pauses ends = record {
  pauses = pauses;
  unpauses = true;
  signals = true;
  meanwhile = ending ends;
}

-- The synchronizer runs once, and then the thread.
unfoldable pub round : Docker → DateTime → Synced → Synced
round docker now s =
    let synced = (synchronize_once docker now s).0 in
    record synced { shared = settle (synced.shared) }

unfoldable pub rounds : Docker → DateTime → ℕ → Synced → Synced
rounds docker now zero s = s
rounds docker now (suc n) s = rounds docker now n (round docker now s)

-- The thread waits, and the service does what its status in the database says.
unfoldable pub agrees : MainStatus → Status → Thread → Bool
agrees MainStatus.stopped Status.stopped (sleeping false) = true
agrees (running_since _ _) running (in_main false) = true
agrees (backing_up _ _) Status.stopped (sleeping false) = true
agrees (backing_up _ _) paused (in_main false) = true
agrees _ _ _ = false

-- The second status is where the first one leads to.
unfoldable pub leads_to : MainStatus → MainStatus → Bool
leads_to MainStatus.stopped MainStatus.stopped = true
leads_to stopping MainStatus.stopped = true
leads_to restarting (running_since _ _) = true
leads_to (starting_up _) (running_since _ _) = true
leads_to (running_since _ _) (running_since _ _) = true
leads_to (backing_up _ _) (backing_up _ _) = true
leads_to _ _ = false

-- the service is as `main` asks
abbrev pub is_done : MainStatus → Synced → Bool
is_done main s = leads_to main s.main && agrees s.main s.shared.status s.shared.thread

abbrev pub state : Status → OnStop → Bool → Thread → ManagerSharedState
state status on_stop commit thread = record {
  status = status;
  on_stop = on_stop;
  commit_health_check_results = commit;
  thread = thread;
}

react-TaskSteps :
    (status : Status) (on_stop : OnStop) (commit : Bool) (thread : Thread)
    → TaskSteps (state status on_stop commit thread) (react (state status on_stop commit thread))
unfolding react
react-TaskSteps status on_stop commit deciding = moves (decides refl) rests
react-TaskSteps status on_stop commit (sleeping true) = moves (wakes refl) rests
react-TaskSteps status on_stop commit (sleeping false) = rests
react-TaskSteps status on_stop commit entering = moves (enters refl) rests
react-TaskSteps status on_stop commit (in_main true) = moves (leaves true refl) rests
react-TaskSteps status on_stop commit (in_main false) = rests
react-TaskSteps status on_stop commit finished = rests

and_then : {a b c : ManagerSharedState} → TaskSteps a b → TaskSteps b c → TaskSteps a c
and_then rests more = more
and_then (moves step rest) more = moves step (and_then rest more)
and_then (told rest) more = told (and_then rest more)
and_then (notified rest) more = notified (and_then rest more)

settle-TaskSteps : (shared : ManagerSharedState) → TaskSteps shared (settle shared)
unfolding settle
settle-TaskSteps shared =
    and_then (reacts shared) (and_then (reacts (react shared)) (reacts (react (react shared))))
  where
    reacts : (s : ManagerSharedState) → TaskSteps s (react s)
    reacts s = react-TaskSteps s.status s.on_stop s.commit_health_check_results s.thread

leave-TaskSteps :
    (status : Status) (on_stop : OnStop) (commit : Bool) (thread : Thread)
    → TaskSteps (state status on_stop commit thread) (state status on_stop commit (leave thread))
leave-TaskSteps status on_stop commit (in_main killed) = moves (leaves killed refl) rests
leave-TaskSteps status on_stop commit deciding = rests
leave-TaskSteps status on_stop commit (sleeping changed) = rests
leave-TaskSteps status on_stop commit entering = rests
leave-TaskSteps status on_stop commit finished = rests

pub obeying-TaskSteps :
    (pauses ends : Bool) (for : Await) (shared : ManagerSharedState)
    → TaskSteps shared ((obeying pauses ends).meanwhile for shared)
obeying-TaskSteps pauses true waiting shared =
    and_then
      (leave-TaskSteps shared.status shared.on_stop shared.commit_health_check_results
        shared.thread)
      (settle-TaskSteps (with_thread (leave (shared.thread)) shared))
obeying-TaskSteps pauses true _ shared = rests
obeying-TaskSteps pauses false _ shared = rests

TaskSteps-IsReachable :
    {main : MainStatus} {a b : ManagerSharedState}
    → TaskSteps a b
    → IsReachable (record { main = main; shared = a })
    → IsReachable (record { main = main; shared = b })
TaskSteps-IsReachable rests reached = reached
TaskSteps-IsReachable (moves step rest) reached =
    TaskSteps-IsReachable rest (steps reached (thread_moves step))
TaskSteps-IsReachable (told rest) reached = TaskSteps-IsReachable rest (steps reached exits)
TaskSteps-IsReachable (notified rest) reached = TaskSteps-IsReachable rest (steps reached kills)

-- Rounds that start in a state that the service reaches are a run of its steps.
pub rounds-IsReachable :
    (pauses ends : Bool) (now : DateTime) (n : ℕ) (s : Synced)
    → IsReachable s
    → IsReachable (rounds (obeying pauses ends) now n s)
unfolding rounds round
rounds-IsReachable pauses ends now zero s reached = reached
rounds-IsReachable pauses ends now (suc n) s reached =
    let docker = obeying pauses ends in
    rounds-IsReachable pauses ends now n (round docker now s) (
      TaskSteps-IsReachable (settle-TaskSteps (synchronize_once docker now s).0.shared)
        (steps reached (synchronizes docker now (obeying-TaskSteps pauses ends))))
