-- ===== src/Dependencies/HealAll/Fails.antt =====
-- None of the checks of a dependency runs on fuel (backend/src/dependencies.rs).
use start_os.Common.{
  ◌≢◌, Bool, true, false, Option, none, some, [], ◌∷◌, arith, Result, ok, err, ◌>>=◌, >>=-ne-err,
  ok_or, ok_or-ne-err, Option-cases, inl, inr,
}
use start_os.Common.Map.{nat_key, lookup}
use start_os.Status.{
  PackageId, Health, HealthCheckId, HealthCheckResult, MainStatus, starting_up, running_since,
  backing_up, restarting, stopped, stopping,
}
use start_os.Dependencies.Errors.{
  DependencyError, not_installed, incorrect_version, config_unsatisfied, not_running,
  health_checks_failed, transitive,
}
use start_os.Dependencies.Store.{
  Env, DepInfo, Installed, PatchDb, Failure, database, not_found, out_of_fuel, read, read_found,
}
use start_os.Dependencies.Heal.{
  requires, is_success, failing_checks, dependency_config, heal_dependency_errors, heal_health,
  heal_main, heal_health_checks, heal_not_running, heal_config, heal_version, heal_not_installed,
  try_heal,
}
use start_os.Dependencies.HealAll.Defs.{retry_error, heal_error}

module _ (env : Env) (db : PatchDb env) (s : db.State) where
  read-fuel : (id : PackageId) → read db s id ≢ err out_of_fuel
  read-fuel id = ok_or-ne-err (db.get s id) database out_of_fuel (λ p. cc)

  read_found-fuel : (id : PackageId) → read_found db s id ≢ err out_of_fuel
  read_found-fuel id =
      >>=-ne-err (read db s id) _ out_of_fuel (read-fuel id)
        (λ e _. ok_or-ne-err e not_found out_of_fuel (λ p. cc))

  module _ (id dependency : PackageId) (info : DepInfo env) where
    heal_dependency_errors-fuel :
        heal_dependency_errors env db s id dependency info ≢ err out_of_fuel
    unfolding heal_dependency_errors
    heal_dependency_errors-fuel =
        >>=-ne-err (read db s dependency) _ out_of_fuel (read-fuel dependency) (λ e _ p. cc)

    is_needed-fuel :
        (r : HealthCheckResult) (k : HealthCheckId)
        → (elim (is_success r) as (λ _. Result Failure Bool) [
          | true ↦ ok false
          | false ↦ read_found db s id >>= λ e. ok (requires env db e dependency k)
        ])
          ≢ err out_of_fuel
    is_needed-fuel r k = ground (arith, read_found-fuel id)

    failing_checks-fuel :
        (health failures : Health)
        → failing_checks env db s id dependency info health failures ≢ err out_of_fuel
    unfolding failing_checks
    failing_checks-fuel [] failures = λ p. cc
    failing_checks-fuel ((k, r) ∷ rest) failures =
        >>=-ne-err
          (elim (is_success r) as (λ _. Result Failure Bool) [
            | true ↦ ok false
            | false ↦ read_found db s id >>= λ e. ok (requires env db e dependency k)
          ])
          _ out_of_fuel (is_needed-fuel r k) (λ b _. failing_checks-fuel rest _)

    heal_health-fuel :
        (health : Health) → heal_health env db s id dependency info health ≢ err out_of_fuel
    unfolding heal_health
    heal_health-fuel health =
        >>=-ne-err (failing_checks env db s id dependency info health []) _ out_of_fuel
          (failing_checks-fuel health []) (λ l _. ground (arith, heal_dependency_errors-fuel))

    heal_main-fuel :
        (main : MainStatus) → heal_main env db s id dependency info main ≢ err out_of_fuel
    unfolding heal_main
    heal_main-fuel (running_since t health) = heal_health-fuel health
    heal_main-fuel (backing_up (some t) health) = heal_health-fuel health
    heal_main-fuel (backing_up none health) = λ p. cc
    heal_main-fuel (starting_up b) = heal_dependency_errors-fuel
    heal_main-fuel restarting = heal_dependency_errors-fuel
    heal_main-fuel stopped = λ p. cc
    heal_main-fuel stopping = λ p. cc

    heal_health_checks-fuel : heal_health_checks env db s id dependency info ≢ err out_of_fuel
    unfolding heal_health_checks
    heal_health_checks-fuel =
        >>=-ne-err (read_found db s dependency) _ out_of_fuel (read_found-fuel dependency)
          (λ e _. heal_main-fuel e.status.main)

    heal_not_running-fuel : heal_not_running env db s id dependency info ≢ err out_of_fuel
    unfolding heal_not_running
    heal_not_running-fuel =
        >>=-ne-err (read_found db s dependency) _ out_of_fuel (read_found-fuel dependency)
          (λ e _. ground (arith, heal_health_checks-fuel))

    dependency_config-fuel :
        (e : Installed env) (given : Option env.Config)
        → dependency_config env db s id dependency info e given ≢ err out_of_fuel
    unfolding dependency_config
    dependency_config-fuel e given = ground arith

    heal_config-fuel :
        (given : Option env.Config)
        → heal_config env db s id dependency info given ≢ err out_of_fuel
    unfolding heal_config
    heal_config-fuel given =
        >>=-ne-err (read_found db s id) _ out_of_fuel (read_found-fuel id) (λ m _.
          >>=-ne-err (read_found db s dependency) _ out_of_fuel (read_found-fuel dependency) (λ e _.
            >>=-ne-err (dependency_config env db s id dependency info e given) _ out_of_fuel
              (dependency_config-fuel e given) (λ c _. ground (arith, heal_not_running-fuel))))

    heal_version-fuel :
        (expected : env.VersionRange) (given : Option env.Config)
        → heal_version env db s id dependency info expected given ≢ err out_of_fuel
    unfolding heal_version
    heal_version-fuel expected given =
        >>=-ne-err (read db s dependency) _ out_of_fuel (read-fuel dependency)
          (λ e _. ground (arith, heal_config-fuel given))

    try_heal-fuel :
        (old : DependencyError env.VersionRange env.Version) (given : Option env.Config)
        → try_heal env db s id dependency info old given ≢ err out_of_fuel
    unfolding try_heal heal_not_installed
    try_heal-fuel not_installed given =
        >>=-ne-err (read db s id) _ out_of_fuel (read-fuel id) (λ _ _.
          >>=-ne-err (read db s dependency) _ out_of_fuel (read-fuel dependency)
            (λ e _. ground (arith, heal_version-fuel info.version given)))
    try_heal-fuel (incorrect_version expected v) given =
        >>=-ne-err (read db s id) _ out_of_fuel (read-fuel id)
          (λ _ _. heal_version-fuel expected given)
    try_heal-fuel (config_unsatisfied e) given =
        >>=-ne-err (read db s id) _ out_of_fuel (read-fuel id) (λ _ _. heal_config-fuel given)
    try_heal-fuel not_running given =
        >>=-ne-err (read db s id) _ out_of_fuel (read-fuel id) (λ _ _. heal_not_running-fuel)
    try_heal-fuel (health_checks_failed f) given =
        >>=-ne-err (read db s id) _ out_of_fuel (read-fuel id) (λ _ _. heal_health_checks-fuel)
    try_heal-fuel transitive given =
        >>=-ne-err (read db s id) _ out_of_fuel (read-fuel id) (λ _ _. heal_dependency_errors-fuel)

  pub heal_error-fuel :
      (id dependency : PackageId) → heal_error env db id dependency s ≢ err out_of_fuel
  unfolding heal_error retry_error
  heal_error-fuel id dependency =
      >>=-ne-err (read_found db s id) _ out_of_fuel (read_found-fuel id) (λ e _.
        elim (Option-cases (lookup dependency e.status.dependency_errors)) [
          | inl no_error ↦ rw no_error (λ p. cc)
          | inr (old, has_old) ↦ rw has_old (
              >>=-ne-err (ok_or (lookup dependency e.manifest.dependencies) not_found) _ out_of_fuel
                (ok_or-ne-err _ not_found out_of_fuel (λ p. cc))
                (λ info _.
                  >>=-ne-err (try_heal env db s id dependency info old none) _ out_of_fuel
                    (try_heal-fuel id dependency info old none)
                    (λ new _. elim new [ none ↦ ground arith | some error ↦ ground arith ])))
        ])
