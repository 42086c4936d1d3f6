-- ===== src/Dependencies/Heal/Refuses.antt =====
-- No retry takes away an error on a dependency of which a required check has failed
-- (`DependencyError::try_heal` of backend/src/dependencies.rs).
use start_os.Common.{
  ◌≡◌, Bool, true, false, not, Option, none, some, [], ◌∷◌, All, arith, ==_iff, ok, >>=-eq-ok,
}
use start_os.Common.Map.{nat_key, lookup}
use start_os.Status.{PackageId, HealthCheckId, DateTime, Health, running_since}
use start_os.Dependencies.Errors.{
  DependencyError, not_installed, incorrect_version, config_unsatisfied, not_running,
  health_checks_failed, transitive,
}
use start_os.Dependencies.Store.{Env, DepInfo, Installed, PatchDb}
use start_os.Dependencies.Heal.{
  Healed, requires, is_success, heal_dependency_errors, failing_checks, heal_health, heal_main,
  heal_health_checks, heal_not_running, heal_config, heal_version, heal_not_installed, try_heal,
}
use start_os.Dependencies.Heal.Sound.{Passes, failing_checks-nil}

module _ {Range Version : Type 0} where
  -- an error of the dependency itself, and not one that it has passed on
  abbrev pub is_direct : Option (DependencyError Range Version) → Bool
  is_direct none = false
  is_direct (some transitive) = false
  is_direct (some _) = true

-- a check that has not succeeded
abbrev pub has_failed : HealthCheckId → Health → Bool
has_failed check_id health = elim (lookup check_id health) [
  | none ↦ false
  | some res ↦ not (is_success res)
]

module _ (env : Env) (db : PatchDb env) (s : db.State) (id dependency : PackageId)
    (info : DepInfo env) where
  -- what has failed has not passed
  failed-Passes :
      (e : Installed env) (check_id : HealthCheckId) (health : Health)
      → requires env db e dependency check_id ≡ true
      → has_failed check_id health ≡ true
      → ¬ All (Passes env db s id dependency info e) health
  failed-Passes e check_id [] asked failed passes = ground arith
  failed-Passes e check_id ((k, res) ∷ rest) asked failed passes =
      ground (arith, ==_iff check_id k, failed-Passes e check_id rest)

  -- The dependency runs, and a check that the package requires has failed.
  module _ (e : Installed env) (has_entry : db.get s id ≡ some (some e)) (d : Installed env)
      (has_dependency : db.get s dependency ≡ some (some d)) (t : DateTime) (health : Health)
      (runs : d.status.main ≡ running_since t health) (check_id : HealthCheckId)
      (asked : requires env db e dependency check_id ≡ true)
      (failed : has_failed check_id health ≡ true) where
    heal_health-direct :
        (r : Option (DependencyError env.VersionRange env.Version))
        → heal_health env db s id dependency info health ≡ ok r
        → is_direct r ≡ true
    unfolding heal_health
    heal_health-direct r h =
        let (failures, h₁, h₂) =
          >>=-eq-ok (failing_checks env db s id dependency info health []) _ h in
        left_over failures h₁ h₂
      where
        left_over :
            (failures : Health)
            → failing_checks env db s id dependency info health [] ≡ ok failures
            → (elim failures as (λ _. Healed env db) [
              | [] ↦ heal_dependency_errors env db s id dependency info
              | f ∷ fs ↦ ok (some (health_checks_failed (f ∷ fs)))
            ])
              ≡ ok r
            → is_direct r ≡ true
        left_over [] h₁ h₂ = absurd (
            failed-Passes e check_id health asked failed
              (failing_checks-nil env db s id dependency info e has_entry health [] h₁).1)
        left_over (f ∷ fs) h₁ h₂ = ground (arith, h₂)

    heal_health_checks-direct :
        (r : Option (DependencyError env.VersionRange env.Version))
        → heal_health_checks env db s id dependency info ≡ ok r
        → is_direct r ≡ true
    unfolding heal_health_checks heal_main
    heal_health_checks-direct r h = ground (arith, heal_health-direct r)

    heal_not_running-direct :
        (r : Option (DependencyError env.VersionRange env.Version))
        → heal_not_running env db s id dependency info ≡ ok r
        → is_direct r ≡ true
    unfolding heal_not_running
    heal_not_running-direct r h = ground (arith, heal_health_checks-direct r)

    heal_config-direct :
        (given : Option env.Config) (r : Option (DependencyError env.VersionRange env.Version))
        → heal_config env db s id dependency info given ≡ ok r
        → is_direct r ≡ true
    unfolding heal_config
    heal_config-direct given r h = ground (arith, heal_not_running-direct r)

    heal_version-direct :
        (expected : env.VersionRange) (given : Option env.Config)
        (r : Option (DependencyError env.VersionRange env.Version))
        → heal_version env db s id dependency info expected given ≡ ok r
        → is_direct r ≡ true
    unfolding heal_version
    heal_version-direct expected given r h = ground (arith, heal_config-direct given r)

    -- What is left of an error of the dependency itself is one, too.
    pub try_heal-direct :
        (old : DependencyError env.VersionRange env.Version) (given : Option env.Config)
        (r : Option (DependencyError env.VersionRange env.Version))
        → is_direct (some old) ≡ true
        → try_heal env db s id dependency info old given ≡ ok r
        → is_direct r ≡ true
    unfolding try_heal heal_not_installed
    try_heal-direct not_installed given r own h =
        ground (arith, heal_version-direct info.version given r)
    try_heal-direct (incorrect_version expected v) given r own h =
        ground (arith, heal_version-direct expected given r)
    try_heal-direct (config_unsatisfied x) given r own h =
        ground (arith, heal_config-direct given r)
    try_heal-direct not_running given r own h = ground (arith, heal_not_running-direct r)
    try_heal-direct (health_checks_failed f) given r own h =
        ground (arith, heal_health_checks-direct r)
    try_heal-direct transitive given r own h = absurd (ground arith)
