-- ===== src/Manager/Sync/Finished.antt =====
-- What happens after the thread of a manager has left its loop (backend/src/manager).
use start_os.Common.{◌≡◌, refl, true, and_left, arith}
use start_os.Manager.Sync.{
  Status, shutdown, finished, Synced, begin_exit, synchronize_once, ManagerSharedState,
}
use start_os.Manager.Sync.Loop.{
  ServiceStep, thread_moves, synchronizes, commands, exits, kills, IsReachable, steps, ThreadStep,
  decides, wakes, enters, fails, leaves,
}
use start_os.Manager.Sync.Orderly.{orderly, is_shutdown}
use start_os.Manager.Sync.Reaches.{reachable-IsOrderly}

is_shutdown_only : (status : Status) → is_shutdown status ≡ true → status ≡ shutdown
is_shutdown_only shutdown h = refl
is_shutdown_only _ h = absurd (ground arith)

finished_shutdown :
    (s : Synced) → IsReachable s → s.shared.thread ≡ finished → s.shared.status ≡ shutdown
unfolding orderly
finished_shutdown s reached e =
    is_shutdown_only s.shared.status
      (and_left (is_shutdown s.shared.status) _ (rw e at (reachable-IsOrderly s reached)))

finished-ThreadStep :
    {shared shared' : ManagerSharedState}
    → ThreadStep shared shared'
    → shared.thread ≡ finished
    → shared'.thread ≡ finished
finished-ThreadStep (decides e) h = absurd (ground arith)
finished-ThreadStep (wakes e) h = absurd (ground arith)
finished-ThreadStep (enters e) h = absurd (ground arith)
finished-ThreadStep (fails e) h = absurd (ground arith)
finished-ThreadStep (leaves killed e) h = absurd (ground arith)

-- The steps of a service, one after another.
pub data ServiceSteps : Synced → Synced → Type 0 where
  stays : {s : Synced} → ServiceSteps s s
  continues : {s s₁ s₂ : Synced} → ServiceStep s s₁ → ServiceSteps s₁ s₂ → ServiceSteps s s₂

finished-ServiceStep :
    {s s' : Synced}
    → ServiceStep s s'
    → IsReachable s
    → s.shared.thread ≡ finished
    → s'.shared.thread ≡ finished
unfolding begin_exit synchronize_once
finished-ServiceStep (thread_moves step) reached e = finished-ThreadStep step e
finished-ServiceStep {s} (synchronizes docker now tasks) reached e =
    rw (finished_shutdown s reached e) e
finished-ServiceStep (commands main) reached e = e
finished-ServiceStep exits reached e = rw e refl
finished-ServiceStep kills reached e = rw e refl

-- Once the thread of a manager has left its loop, the status is shutdown and stays so, whatever the
-- synchronizer, the commands and Docker do.
pub finished-ServiceSteps :
    (s s' : Synced)
    → IsReachable s
    → s.shared.thread ≡ finished
    → ServiceSteps s s'
    → s'.shared.status ≡ shutdown
finished-ServiceSteps s s' reached e stays = finished_shutdown s reached e
finished-ServiceSteps s s' reached e (continues step rest) =
    finished-ServiceSteps _ s' (steps reached step) (finished-ServiceStep step reached e) rest
