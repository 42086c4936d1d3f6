-- ===== src/Status/Laws.antt =====
-- What `MainStatus::stop` does to a status (backend/src/status/mod.rs).
use start_os.Common.{◌≡◌, false, none, arith}
use start_os.Status.{MainStatus, running, stop, started}

-- After `stop` a package does not count as running and has no start time; stopping again changes
-- nothing.
pub stop-running :
    (m : MainStatus)
    → (running (stop m) ≡ false) × (started (stop m) ≡ none) × (stop (stop m) ≡ stop m)
unfolding running stop started
stop-running m = ground arith
