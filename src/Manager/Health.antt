-- ===== src/Manager/Health.antt =====
-- `check` of backend/src/manager/health.rs: the health checks of a service are run and recorded, and each
-- dependent is broken or healed by what they say. The checks run in containers, a parameter.
use start_os.Common.{
  ℕ, Bool, Option, none, some, List, [], ◌∷◌, ◌&&◌, not, if◌then◌else◌, Result, ok, ◌>>=◌, ok_or,
}
use start_os.Common.Map.{Map, nat_key, contains}
use start_os.Status.{PackageId, HealthCheckId, Health, DateTime, MainStatus, running_since, started}
use start_os.Dependencies.Errors.{health_checks_failed}
use start_os.Dependencies.Store.{
  Env, Manifest, DependencyUse, Installed, PatchDb, Failure, database, procedure, read_found, write,
}
use start_os.Dependencies.Heal.{is_success}
use start_os.Dependencies.Break.{break_transitive}
use start_os.Dependencies.HealAll.{heal_transitive}

module _ (env : Env) (db : PatchDb env) where
  open db use {State, begin, save}

  -- `HealthChecks::check_all`; `none` is an error
  abbrev pub CheckAll : Type 0
  CheckAll = PackageId → Manifest env → DateTime → Option Health

  -- the failed checks that a dependent asks for
  abbrev pub failures_for : List HealthCheckId → Health → Health
  failures_for required [] = []
  failures_for required ((k, v) ∷ rest) =
      if not (is_success v) && contains k required
      then (k, v) ∷ failures_for required rest
      else failures_for required rest

  abbrev pub with_main : Installed env → MainStatus → Installed env
  with_main e main = record e { status = record (e.status) { main = main } }

  -- one dependent
  unfoldable pub update_dependent :
      ℕ → PackageId → Health → PackageId → List HealthCheckId → State → Result Failure State
  update_dependent fuel id health dependent required s = elim (failures_for required health) [
    | [] ↦ heal_transitive env db fuel dependent id s
    | f ∷ fs ↦
        break_transitive env db fuel dependent id (health_checks_failed (f ∷ fs)) s [] >>= λ broken.
        ok broken.0
  ]

  unfoldable pub update_dependents :
      ℕ → PackageId → Health → Map PackageId (DependencyUse env) → State → Result Failure State
  update_dependents fuel id health [] s = ok s
  update_dependents fuel id health ((dependent, info) ∷ rest) s = do
    s' ← update_dependent fuel id health dependent info.health_checks s
    update_dependents fuel id health rest s'

  -- the second checkpoint: the results are recorded if the service still runs
  unfoldable pub record_health :
      PackageId → Health → State → Result Failure (State × Map PackageId (DependencyUse env))
  record_health id health tx = do
    checkpoint ← ok_or (begin tx) database
    e ← read_found db checkpoint id
    written ← elim e.status.main as (λ _. Result Failure State) [
      | running_since t old ↦ write db checkpoint id (with_main e (running_since t health))
      | _ ↦ ok checkpoint
    ]
    tx' ← ok_or (save written) database
    ok (tx', e.current_dependents)

  -- What the results do to the database, in the transaction that has begun.
  unfoldable pub commit_health : ℕ → PackageId → Health → State → Result Failure State
  commit_health fuel id health tx = do
    (tx₁, dependents) ← record_health id health tx
    tx₂ ← update_dependents fuel id health dependents tx₁
    ok_or (save tx₂) database

  -- `should_commit` is what is read from the flag after the checks. A transaction that is not saved
  -- leaves the database as it was.
  unfoldable pub check : CheckAll → Bool → ℕ → PackageId → State → Result Failure State
  check check_all should_commit fuel id s = do
    tx ← ok_or (begin s) database
    checkpoint ← ok_or (begin tx) database
    e ← read_found db checkpoint id
    tx₁ ← ok_or (save checkpoint) database
    elim (started e.status.main) [
      | none ↦ ok s
      | some since ↦ do
        health ← ok_or (check_all id e.manifest since) procedure
        if should_commit then commit_health fuel id health tx₁ else ok s
    ]
