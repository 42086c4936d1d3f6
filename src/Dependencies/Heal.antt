-- ===== src/Dependencies/Heal.antt =====
-- `DependencyError::try_heal` and `DepInfo::satisfied` of backend/src/dependencies.rs. Each error is
-- the name of a check, and a check that passes goes on to the next one; the recursive call on the
-- next error is the function of that error.
pub mod Sound
pub mod Refuses
use start_os.Common.{
  Bool, true, false, Option, none, some, [], ◌∷◌, if◌then◌else◌, Result, ok, ◌>>=◌, ok_or,
}
use start_os.Common.Map.{nat_key, lookup, insert, contains}
use start_os.Status.{
  PackageId, HealthCheckId, HealthCheckResult, success, Health, MainStatus, starting_up,
  running_since, backing_up, restarting, running,
}
use start_os.Dependencies.Errors.{
  DependencyError, not_installed, incorrect_version, config_unsatisfied, not_running,
  health_checks_failed, transitive,
}
use start_os.Dependencies.Store.{
  Env, DepInfo, Installed, DependencyErrors, PatchDb, Failure, procedure, read, read_found,
}

-- `matches!(res, HealthCheckResult::Success)`
abbrev pub is_success : HealthCheckResult → Bool
is_success success = true
is_success _ = false

module _ (env : Env) (db : PatchDb env) where
  open env use {
    Version, VersionRange, Config, ConfigActions, satisfies, default_version, default_config,
    get_config, check,
  }

  abbrev pub Healed : Type 0
  Healed = Result Failure (Option (DependencyError VersionRange Version))

  -- `info.health_checks.contains(&check)` of the dependency, if it is a current one
  abbrev pub requires : Installed env → PackageId → HealthCheckId → Bool
  requires e dependency check_id = elim (lookup dependency e.current_dependencies) [
    | none ↦ false
    | some info ↦ contains check_id info.health_checks
  ]

  abbrev pub version_or_default : Option (Installed env) → Version
  version_or_default none = default_version
  version_or_default (some e) = e.manifest.version

  abbrev pub errors_or_default : Option (Installed env) → DependencyErrors env
  errors_or_default none = []
  errors_or_default (some e) = e.status.dependency_errors

  module _ (s : db.State) (id dependency : PackageId) (info : DepInfo env) where
    -- `Transitive`
    unfoldable pub heal_dependency_errors : Healed
    heal_dependency_errors = do
      e ← read db s dependency
      ok (elim (errors_or_default e) [ [] ↦ none | _ ∷ _ ↦ some transitive ])

    -- the failures among the health checks that the dependent requires
    unfoldable pub failing_checks : Health → Health → Result Failure Health
    failing_checks [] failures = ok failures
    failing_checks ((check_id, res) ∷ rest) failures = do
      needed ← elim (is_success res) [
        | true ↦ ok false
        | false ↦ read_found db s id >>= λ e. ok (requires e dependency check_id)
      ]
      failing_checks rest (if needed then insert check_id res failures else failures)

    unfoldable pub heal_health : Health → Healed
    heal_health health = do
      failures ← failing_checks health []
      elim failures [
        | [] ↦ heal_dependency_errors
        | f ∷ fs ↦ ok (some (health_checks_failed (f ∷ fs)))
      ]

    -- `HealthChecksFailed`, at the main status of the dependency
    unfoldable pub heal_main : MainStatus → Healed
    heal_main (backing_up (some _) health) = heal_health health
    heal_main (running_since _ health) = heal_health health
    heal_main (starting_up _) = heal_dependency_errors
    heal_main restarting = heal_dependency_errors
    heal_main _ = ok (some not_running)

    unfoldable pub heal_health_checks : Healed
    heal_health_checks = do e ← read_found db s dependency; heal_main e.status.main

    -- `NotRunning`
    unfoldable pub heal_not_running : Healed
    heal_not_running = do
      e ← read_found db s dependency
      if running e.status.main then heal_health_checks else ok (some not_running)

    -- the configuration of the dependency, fetched if none is given
    unfoldable pub dependency_config : Installed env → Option Config → Result Failure Config
    dependency_config e (some config) = ok config
    dependency_config e none = elim e.manifest.config [
      | none ↦ ok default_config
      | some actions ↦ do
        got ← ok_or (get_config actions dependency e.manifest.version) procedure
        ok (elim got [ none ↦ default_config | some config ↦ config ])
    ]

    -- `ConfigUnsatisfied`
    unfoldable pub heal_config : Option Config → Healed
    heal_config given = do
      dependent_manifest ← read_found db s id
      e ← read_found db s dependency
      config ← dependency_config e given
      elim info.config [
        | none ↦ heal_not_running
        | some requirement ↦ do
          complaint ← ok_or (check requirement id dependency config) procedure
          elim complaint [
            | none ↦ heal_not_running
            | some error ↦ ok (some (config_unsatisfied error))
          ]
      ]

    -- `IncorrectVersion`
    unfoldable pub heal_version : VersionRange → Option Config → Healed
    heal_version expected given = do
      e ← read db s dependency
      let version = version_or_default e
      if satisfies version expected
          then heal_config given
          else ok (some (incorrect_version expected version))

    -- `NotInstalled`
    unfoldable pub heal_not_installed : Option Config → Healed
    heal_not_installed given = do
      e ← read db s dependency
      elim e [ none ↦ ok (some not_installed) | some _ ↦ heal_version info.version given ]

    -- The containers of the dependent are read first.
    unfoldable pub try_heal : DependencyError VersionRange Version → Option Config → Healed
    try_heal not_installed given = read db s id >>= λ _. heal_not_installed given
    try_heal (incorrect_version expected _) given =
        read db s id >>= λ _. heal_version expected given
    try_heal (config_unsatisfied _) given = read db s id >>= λ _. heal_config given
    try_heal not_running given = read db s id >>= λ _. heal_not_running
    try_heal (health_checks_failed _) given = read db s id >>= λ _. heal_health_checks
    try_heal transitive given = read db s id >>= λ _. heal_dependency_errors

    -- `DepInfo::satisfied`: the error that is left, if any
    unfoldable pub satisfied : Option Config → Healed
    satisfied given = try_heal not_installed given
