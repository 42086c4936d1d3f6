-- ===== src/Status.antt =====
-- The status of a package (backend/src/status/mod.rs, backend/src/status/health_check.rs).
pub mod Laws
use start_os.Common.{ℕ, Bool, true, false, Option, none, some, List}
use start_os.Common.Map.{Map}

-- Identifiers are interned texts that the program only compares and orders.
abbrev pub PackageId : Type 0
PackageId = ℕ

abbrev pub HealthCheckId : Type 0
HealthCheckId = ℕ

-- code points
abbrev pub Text : Type 0
Text = List ℕ

-- `DateTime<Utc>`, in milliseconds
abbrev pub DateTime : Type 0
DateTime = ℕ

pub data HealthCheckResult : Type 0 where
  success disabled starting : HealthCheckResult
  loading : Text → HealthCheckResult
  failure : Text → HealthCheckResult

abbrev pub Health : Type 0
Health = Map HealthCheckId HealthCheckResult

pub data MainStatus : Type 0 where
  stopped restarting stopping : MainStatus
  starting_up : (is_restart : Bool) → MainStatus
  running_since : DateTime → Health → MainStatus
  backing_up : Option DateTime → Health → MainStatus

unfoldable pub running : MainStatus → Bool
running (starting_up _) = true
running (running_since _ _) = true
running (backing_up (some _) _) = true
running (backing_up none _) = false
running stopped = false
running stopping = false
running restarting = false

unfoldable pub stop : MainStatus → MainStatus
stop (starting_up _) = stopping
stop (running_since _ _) = stopping
stop (backing_up _ health) = backing_up none health
stop stopped = stopped
stop stopping = stopping
stop restarting = restarting

unfoldable pub started : MainStatus → Option DateTime
started (running_since t _) = some t
started (backing_up t _) = t
started stopped = none
started restarting = none
started stopping = none
started (starting_up _) = none
