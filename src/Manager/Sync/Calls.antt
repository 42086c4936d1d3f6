-- ===== src/Manager/Sync/Calls.antt =====
-- What the calls of the synchronizer keep (backend/src/manager/sync.rs).
use start_os.Common.{◌≡◌, refl, Bool, true, false, not, if◌then◌else◌, arith, Bool-cases, inl, inr}
use start_os.Status.{
  DateTime, MainStatus, restarting, stopping, starting_up, running_since, backing_up,
}
use start_os.Manager.Sync.{
  Status, starting, running, paused, shutdown, OnStop, Thread, deciding, sleeping,
  ManagerSharedState, Docker, synchronize_once, when_stopped, when_starting, when_running,
  when_paused, start, stop, pause, resume, terminate, send_signal, is_paused, to_sleep, dont_commit,
  modify_on_stop, Await, pausing, unpausing, signalling, waiting, awaits, is_finished,
  notify_killer, with_status,
}
use start_os.Manager.Sync.Loop.{TaskSteps}
use start_os.Manager.Sync.Orderly.{
  orderly, IsOrderly, orderly-change, orderly-kill, orderly-up, TaskSteps-IsOrderly,
}

if-IsOrderly :
    (b : Bool) (x y : ManagerSharedState × Bool)
    → IsOrderly x.0
    → IsOrderly y.0
    → IsOrderly (if b then x else y).0
if-IsOrderly true x y h k = h
if-IsOrderly false x y h k = k

-- what follows an `.await` is reached only where the thread has not left its loop
awaits-IsOrderly :
    (docker : Docker) (for : Await) (shared : ManagerSharedState)
    (next : ManagerSharedState → ManagerSharedState × Bool)
    → IsOrderly (docker.meanwhile for shared)
    → ((s : ManagerSharedState) → is_finished s.thread ≡ false → IsOrderly s → IsOrderly (next s).0)
    → IsOrderly (awaits docker for shared next).0
awaits-IsOrderly docker for shared next h k =
    let shared₁ = docker.meanwhile for shared in
    elim (Bool-cases (is_finished shared₁.thread)) [
      | inl gone ↦ rw gone h
      | inr there ↦ rw there (k shared₁ there h)
    ]

-- What the calls of the synchronizer keep, where other tasks take steps of theirs meanwhile.
module _ (docker : Docker)
    (tasks : (for : Await) (shared : ManagerSharedState)
      → TaskSteps shared (docker.meanwhile for shared)) where
  send_signal-IsOrderly :
      (shared : ManagerSharedState) → IsOrderly shared → IsOrderly (send_signal docker shared).0
  unfolding send_signal
  send_signal-IsOrderly shared h =
      awaits-IsOrderly docker signalling (dont_commit shared) (λ s. (s, docker.signals))
        (TaskSteps-IsOrderly (tasks signalling (dont_commit shared)) h) (λ s there k. k)

  terminate-IsOrderly :
      (shared : ManagerSharedState) → IsOrderly shared → IsOrderly (terminate docker shared).0
  unfolding terminate
  terminate-IsOrderly shared h =
      let sent = send_signal docker shared in
      let sent_ok = send_signal-IsOrderly shared h in
      if-IsOrderly sent.1 _ _
        (awaits-IsOrderly docker waiting sent.0 (λ s. (notify_killer s, true))
          (TaskSteps-IsOrderly (tasks waiting sent.0) sent_ok)
          (λ s there k. orderly-kill s.status s.on_stop s.thread k))
        sent_ok

  resume-IsOrderly :
      (shared : ManagerSharedState) → IsOrderly shared → IsOrderly (resume docker shared).0
  unfolding resume
  resume-IsOrderly shared h =
      awaits-IsOrderly docker unpausing shared
        (λ s. if docker.unpauses then (with_status running s, true) else (s, false))
        (TaskSteps-IsOrderly (tasks unpausing shared) h)
        (λ s there k.
          if-IsOrderly docker.unpauses (with_status running s, true) (s, false)
            (orderly-up s.status running s.on_stop s.thread there refl k) k)

  stop-IsOrderly :
      (shared : ManagerSharedState) → IsOrderly shared → IsOrderly (stop docker shared).0
  unfolding stop
  stop-IsOrderly shared h =
      let shared₁ = modify_on_stop to_sleep (dont_commit shared) in
      let h₁ : IsOrderly shared₁ =
        orderly-change to_sleep shared.status shared.on_stop shared.thread refl h in
      let resumed = resume-IsOrderly shared₁ h₁ in
      if-IsOrderly (not (is_paused shared.status)) _ _ (terminate-IsOrderly shared₁ h₁) (
        if-IsOrderly (resume docker shared₁).1 _ _
          (terminate-IsOrderly (resume docker shared₁).0 resumed) resumed)

  pause-IsOrderly :
      (shared : ManagerSharedState) → IsOrderly shared → IsOrderly (pause docker shared).0
  unfolding pause
  pause-IsOrderly shared h =
      awaits-IsOrderly docker pausing shared
        (λ s. if docker.pauses then (with_status paused s, true) else stop docker s)
        (TaskSteps-IsOrderly (tasks pausing shared) h)
        (λ s there k.
          if-IsOrderly docker.pauses (with_status paused s, true) (stop docker s)
            (orderly-up s.status paused s.on_stop s.thread there refl k) (stop-IsOrderly s k))

  start-IsOrderly :
      (on_stop : OnStop) (commit : Bool) (thread : Thread)
      → orderly Status.stopped on_stop thread ≡ true
      → IsOrderly (
          start (record {
            status = Status.stopped;
            on_stop = on_stop;
            commit_health_check_results = commit;
            thread = thread;
          }))
  unfolding start orderly
  start-IsOrderly on_stop commit (sleeping true) h = refl
  start-IsOrderly on_stop commit (sleeping false) h = refl
  start-IsOrderly on_stop commit deciding h = refl
  start-IsOrderly on_stop commit _ h = absurd (ground arith)

  pub synchronize_once-IsOrderly :
      (now : DateTime) (main : MainStatus) (status : Status) (on_stop : OnStop) (commit : Bool)
      (thread : Thread)
      → orderly status on_stop thread ≡ true
      → IsOrderly
          (synchronize_once docker now (record {
            main = main;
            shared = record {
              status = status;
              on_stop = on_stop;
              commit_health_check_results = commit;
              thread = thread;
            };
          })).0.shared
  unfolding synchronize_once when_stopped when_starting when_running when_paused
  synchronize_once-IsOrderly now MainStatus.stopped Status.stopped on_stop commit thread h = h
  synchronize_once-IsOrderly now stopping Status.stopped on_stop commit thread h = h
  synchronize_once-IsOrderly now restarting Status.stopped on_stop commit thread h = h
  synchronize_once-IsOrderly now (backing_up _ _) Status.stopped on_stop commit thread h = h
  synchronize_once-IsOrderly now (starting_up _) Status.stopped on_stop commit thread h =
      start-IsOrderly on_stop commit thread h
  synchronize_once-IsOrderly now (running_since _ _) Status.stopped on_stop commit thread h =
      start-IsOrderly on_stop commit thread h
  synchronize_once-IsOrderly now main shutdown on_stop commit thread h = h
  synchronize_once-IsOrderly now (starting_up _) paused on_stop commit thread h =
      resume-IsOrderly _ h
  synchronize_once-IsOrderly now (running_since _ _) paused on_stop commit thread h =
      resume-IsOrderly _ h
  synchronize_once-IsOrderly now (backing_up _ _) paused on_stop commit thread h = h
  synchronize_once-IsOrderly now (starting_up _) _ on_stop commit thread h = h
  synchronize_once-IsOrderly now (running_since _ _) _ on_stop commit thread h = h
  synchronize_once-IsOrderly now (backing_up _ _) starting on_stop commit thread h =
      pause-IsOrderly _ h
  synchronize_once-IsOrderly now (backing_up _ _) running on_stop commit thread h =
      pause-IsOrderly _ h
  synchronize_once-IsOrderly now _ starting on_stop commit thread h = stop-IsOrderly _ h
  synchronize_once-IsOrderly now _ running on_stop commit thread h = stop-IsOrderly _ h
  synchronize_once-IsOrderly now _ paused on_stop commit thread h = stop-IsOrderly _ h
