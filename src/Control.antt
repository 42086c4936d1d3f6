-- ===== src/Control.antt =====
-- The commands that start, stop and restart a service (backend/src/control.rs), up to the call of its
-- manager. The recursions of backend/src/dependencies.rs take their fuel.
pub mod Recorded
pub mod Consistent
pub mod Restart
mod Samples
use start_os.Common.{
  ℕ, Bool, true, false, Option, none, some, List, [], if◌then◌else◌, Result, ok, err, ◌>>=◌, ok_or,
}
use start_os.Status.{PackageId, MainStatus, running_since, restarting, stopping, starting_up}
use start_os.Dependencies.Errors.{not_running}
use start_os.Dependencies.Store.{
  Env, Installed, PatchDb, Failure, database, read, read_found, write,
}
use start_os.Dependencies.Break.{Breakages, break_all_dependents_transitive}
use start_os.Dependencies.HealAll.{heal_all_dependents_transitive}

-- Why a command is refused; what it has committed by then is kept.
pub data Refusal (State : Type 0) : Type 0 where
  failed : Failure → Refusal State
  not_started : Refusal State
  no_manager : State → Refusal State

module _ {State : Type 0} where
  -- `?` on the error of an operation
  abbrev pub or_failed : {A : Type 0} → Result Failure A → Result (Refusal State) A
  or_failed (ok a) = ok a
  or_failed (err e) = err (failed e)

module _ (env : Env) (db : PatchDb env) where
  open db use {State, begin, save}

  -- `e` with another status
  abbrev pub set_main : Installed env → MainStatus → Installed env
  set_main e main = record e { status = record (e.status) { main = main } }

  -- the transaction of `start`
  unfoldable pub start_in : ℕ → PackageId → State → Result Failure State
  start_in fuel id s = do
    tx ← ok_or (begin s) database
    e ← read_found db tx id
    tx₁ ← write db tx id (set_main e (starting_up false))
    tx₂ ← heal_all_dependents_transitive env db fuel id tx₁
    ok_or (save tx₂) database

  -- `has_manager` says whether there is a manager of the package at its version, which is then told
  -- to synchronize.
  unfoldable pub start : (has_manager : Bool) → ℕ → PackageId → State → Result (Refusal State) State
  start has_manager fuel id s =
      or_failed (start_in fuel id s) >>= λ s'. if has_manager then ok s' else err (no_manager s')

  -- the transaction in which the status is set
  unfoldable pub set_stopping : PackageId → State → Result Failure (State × MainStatus)
  set_stopping id s = do
    tx ← ok_or (begin s) database
    e ← read_found db tx id
    tx₁ ← write db tx id (set_main e stopping)
    s₁ ← ok_or (save tx₁) database
    ok (s₁, e.status.main)

  -- The old status, and the packages that break.
  unfoldable pub stop_common :
      ℕ
      → PackageId
      → State
      → Breakages env db
      → Result Failure ((State × Breakages env db) × MainStatus)
  stop_common fuel id s breakages = do
    (s₁, last_status) ← set_stopping id s
    broken ← break_all_dependents_transitive env db fuel id not_running s₁ breakages
    ok (broken, last_status)

  -- The transaction is dropped: the database stays as it is.
  unfoldable pub stop_dry : ℕ → PackageId → State → Result Failure (Breakages env db)
  stop_dry fuel id s = do
    tx ← ok_or (begin s) database
    ((tx₁, breakages), last_status) ← stop_common fuel id tx []
    ok breakages

  unfoldable pub stop_impl : ℕ → PackageId → State → Result Failure (State × MainStatus)
  stop_impl fuel id s = do
    tx ← ok_or (begin s) database
    ((tx₁, breakages), last_status) ← stop_common fuel id tx []
    s' ← ok_or (save tx₁) database
    ok (s', last_status)

  -- the entry of a package that runs
  abbrev pub if_running : MainStatus → Installed env → Option (Installed env)
  if_running (running_since started health) e = some e
  if_running _ e = none

  abbrev pub running_entry : Option (Installed env) → Option (Installed env)
  running_entry none = none
  running_entry (some e) = if_running (e.status.main) e

  unfoldable pub restart : PackageId → State → Result (Refusal State) State
  restart id s = do
    tx ← or_failed (ok_or (begin s) database)
    found ← or_failed (read db tx id)
    e ← ok_or (running_entry found) not_started
    tx₁ ← or_failed (write db tx id (set_main e restarting))
    or_failed (ok_or (save tx₁) database)
