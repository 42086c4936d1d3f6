-- ===== src/Dependencies/Heal/Sound.antt =====
-- What a dependency that `satisfied` lets pass looks like (backend/src/dependencies.rs).
use start_os.Common.{
  ◌≡◌, ◌≢◌, refl, ap, ◌∙◌, true, ◌||◌, not, Option, none, some, [], ◌∷◌, All, arith, ok, >>=-eq-ok,
  Option-cases, inl, inr,
}
use start_os.Common.Map.{nat_key, insert}
use start_os.Status.{
  PackageId, HealthCheckId, HealthCheckResult, Health, MainStatus, starting_up, running_since,
  backing_up, restarting, stopped, stopping, running,
}
use start_os.Dependencies.Store.{Env, DepInfo, Installed, PatchDb, read_found}
use start_os.Dependencies.Heal.{
  requires, is_success, heal_dependency_errors, failing_checks, heal_health, heal_main,
  heal_health_checks, heal_not_running, dependency_config, heal_config, heal_version,
  heal_not_installed, try_heal, satisfied,
}

-- the health checks whose results the status holds
abbrev pub health_of : MainStatus → Health
health_of (running_since _ health) = health
health_of (backing_up (some _) health) = health
health_of _ = []

module _ (env : Env) (db : PatchDb env) (s : db.State) (id dependency : PackageId)
    (info : DepInfo env) where
  open env use {Config, satisfies, check}

  -- a check with this result has succeeded, or is not required
  abbrev pub Passes : Installed env → HealthCheckId × HealthCheckResult → Type 0
  Passes dependent (check_id, res) =
      is_success res || not (requires env db dependent dependency check_id) ≡ true

  -- The dependency is installed at a version in range, accepts to be used with its configuration, is
  -- starting or running, or was so when its backup began, and has no dependency errors of its own. The
  -- health checks that the dependent requires have succeeded, as far as the status holds their results.
  pub record IsSatisfied (given : Option Config) : Type 0 where
    pub entry : Installed env
    pub found : db.get s dependency ≡ some (some entry)
    pub version : satisfies entry.manifest.version info.version ≡ true
    pub config : Config
    pub fetched : dependency_config env db s id dependency info entry given ≡ ok config
    pub accepted :
        (requirement : env.DependencyConfig)
        → info.config ≡ some requirement
        → check requirement id dependency config ≡ some none
    pub is_running : running entry.status.main ≡ true
    pub healthy :
        (dependent : Installed env)
        → db.get s id ≡ some (some dependent)
        → All (Passes dependent) (health_of entry.status.main)
    pub no_errors : entry.status.dependency_errors ≡ []

  insert-ne-nil : (k : HealthCheckId) (v : HealthCheckResult) (m : Health) → insert k v m ≢ []
  insert-ne-nil k v [] h = cc
  insert-ne-nil k v ((j, w) ∷ m) h = ground arith

  module _ (dependent : Installed env) (has_dependent : db.get s id ≡ some (some dependent)) where
    pub failing_checks-nil :
        (health failures : Health)
        → failing_checks env db s id dependency info health failures ≡ ok []
        → (failures ≡ []) × All (Passes dependent) health
    unfolding failing_checks
    failing_checks-nil [] failures h = (ground arith, tt)
    failing_checks-nil ((c, res) ∷ rest) failures h = ground (
      arith,
      insert-ne-nil c res failures,
      failing_checks-nil rest failures,
      failing_checks-nil rest (insert c res failures),
    )

  module _ (entry : Installed env) (found : db.get s dependency ≡ some (some entry)) where
    heal_dependency_errors-none :
        heal_dependency_errors env db s id dependency info ≡ ok none
        → entry.status.dependency_errors ≡ []
    unfolding heal_dependency_errors
    heal_dependency_errors-none h = ground arith

    -- The results of the checks decide, where the status holds any.
    heal_health-none :
        (health : Health)
        → heal_health env db s id dependency info health ≡ ok none
        → (failing_checks env db s id dependency info health [] ≡ ok [])
          × (entry.status.dependency_errors ≡ [])
    unfolding heal_health
    heal_health-none health h = ground (arith, heal_dependency_errors-none)

    heal_main-none :
        (main : MainStatus)
        → heal_main env db s id dependency info main ≡ ok none
        → (failing_checks env db s id dependency info (health_of main) [] ≡ ok [])
          × (entry.status.dependency_errors ≡ [])
    unfolding heal_main failing_checks
    heal_main-none (running_since t health) h = heal_health-none health h
    heal_main-none (backing_up (some t) health) h = heal_health-none health h
    heal_main-none (backing_up none health) h = absurd (ground arith)
    heal_main-none (starting_up b) h = (refl, heal_dependency_errors-none h)
    heal_main-none restarting h = (refl, heal_dependency_errors-none h)
    heal_main-none stopped h = absurd (ground arith)
    heal_main-none stopping h = absurd (ground arith)

    heal_not_running-none :
        heal_not_running env db s id dependency info ≡ ok none
        → (running entry.status.main ≡ true)
          × (failing_checks env db s id dependency info (health_of entry.status.main) [] ≡ ok [])
          × (entry.status.dependency_errors ≡ [])
    unfolding heal_not_running heal_health_checks
    heal_not_running-none h = ground (arith, heal_main-none entry.status.main)

    -- the configuration that was looked at, and the answer to it
    heal_config-none :
        (given : Option Config)
        → heal_config env db s id dependency info given ≡ ok none
        → (config : Config) × (dependency_config env db s id dependency info entry given
            ≡ ok config)
          × ((requirement : env.DependencyConfig)
              → info.config ≡ some requirement
              → check requirement id dependency config ≡ some none)
          × (heal_not_running env db s id dependency info ≡ ok none)
    unfolding heal_config
    heal_config-none given h =
        let (_, h₁, h₂) = >>=-eq-ok (read_found db s id) _ h in
        let (e, h₃, h₄) = >>=-eq-ok (read_found db s dependency) _ h₂ in
        let same : e ≡ entry = ground arith in
        let (config, h₅, h₆) =
          >>=-eq-ok (dependency_config env db s id dependency info e given) _ h₄ in
        (
          config,
          rw (← same) h₅,
          λ requirement asked. ground (arith, h₆, asked),
          elim (Option-cases info.config) [
            | inl free ↦ ground (arith, h₆, free)
            | inr (requirement, asked) ↦ ground (arith, h₆, asked)
          ],
        )

  -- A dependency that `satisfied` finds no error in is installed at a version in range, accepts to be
  -- used with its configuration, is starting or running, or was so when its backup began, and has no
  -- errors of its own. Of the health checks that its dependent requires, those have succeeded whose
  -- results its status holds: a check without a result is not asked for.
  pub satisfied-IsSatisfied :
      (given : Option Config)
      → satisfied env db s id dependency info given ≡ ok none
      → IsSatisfied given
  unfolding satisfied try_heal heal_not_installed heal_version
  satisfied-IsSatisfied given h = elim (Option-cases (db.get s dependency)) [
    | inl failed ↦ absurd (ground arith)
    | inr (o, found) ↦ elim (Option-cases o) [
      | inl absent ↦ absurd (ground arith)
      | inr (entry, some_entry) ↦
          let here : db.get s dependency ≡ some (some entry) = found ∙ ap some some_entry in
          let version : satisfies entry.manifest.version info.version ≡ true = ground arith in
          let rest : heal_config env db s id dependency info given ≡ ok none = ground arith in
          let (config, fetched, accepted, up) = heal_config-none entry here given rest in
          let (is_running, checks, no_errors) = heal_not_running-none entry here up in
          record {
            entry = entry;
            found = here;
            version = version;
            config = config;
            fetched = fetched;
            accepted = accepted;
            is_running = is_running;
            healthy = λ dependent has_dependent.
                (failing_checks-nil dependent has_dependent (health_of entry.status.main) []
                  checks).1;
            no_errors = no_errors;
          }
    ]
  ]
