-- ===== src/Dependencies/HealAll/Cleared.antt =====
-- One step of `heal_transitive` (backend/src/dependencies.rs), seen through the errors that it leaves.
use mathlib.Core.Path.{subst}
use start_os.Common.{
  ◌≡◌, refl, Bool, true, false, ◌&&◌, Option, none, some, [], if◌then◌else◌, ◌==◌, arith, Result,
  ok, ◌>>=◌, >>=-eq-ok, ok_or, Option-cases, inl, inr,
}
use start_os.Common.Map.{nat_key, lookup, insert, remove, lookup-remove}
use start_os.Status.{
  PackageId, MainStatus, starting_up, running_since, backing_up, restarting, stopped, stopping,
}
use start_os.Dependencies.Errors.{
  DependencyError, not_installed, incorrect_version, config_unsatisfied, not_running,
  health_checks_failed, transitive,
}
use start_os.Dependencies.Store.{
  Env, DepInfo, Installed, PatchDb, Failure, not_found, read_found, write, with_errors,
}
use start_os.Dependencies.Heal.{
  heal_dependency_errors, heal_health, heal_main, heal_health_checks, heal_not_running, heal_config,
  heal_version, heal_not_installed, try_heal,
}
use start_os.Dependencies.Break.Recorded.{dependents, errors_of, lookup-replace}
use start_os.Dependencies.Break.Visits.{has_error}
use start_os.Dependencies.HealAll.Defs.{retry_error, heal_error}

module _ (env : Env) (db : PatchDb env) where
  open db use {State, get}

  -- Whatever check an error starts from, the last one asks for the dependency's own errors.
  module _ (s : State) (id dependency : PackageId) (info : DepInfo env) where
    heal_dependency_errors-clean :
        heal_dependency_errors env db s id dependency info ≡ ok none
        → errors_of env db s dependency ≡ []
    unfolding heal_dependency_errors
    heal_dependency_errors-clean h = ground arith

    heal_main-clean :
        (main : MainStatus)
        → heal_main env db s id dependency info main ≡ ok none
        → errors_of env db s dependency ≡ []
    unfolding heal_main heal_health
    heal_main-clean (running_since t health) h = ground (arith, heal_dependency_errors-clean)
    heal_main-clean (backing_up (some t) health) h = ground (arith, heal_dependency_errors-clean)
    heal_main-clean (backing_up none health) h = absurd (ground arith)
    heal_main-clean (starting_up b) h = heal_dependency_errors-clean h
    heal_main-clean restarting h = heal_dependency_errors-clean h
    heal_main-clean stopped h = absurd (ground arith)
    heal_main-clean stopping h = absurd (ground arith)

    heal_health_checks-clean :
        heal_health_checks env db s id dependency info ≡ ok none
        → errors_of env db s dependency ≡ []
    unfolding heal_health_checks
    heal_health_checks-clean h =
        let (e, h₁, h₂) = >>=-eq-ok (read_found db s dependency) _ h in
        heal_main-clean e.status.main h₂

    heal_not_running-clean :
        heal_not_running env db s id dependency info ≡ ok none → errors_of env db s dependency ≡ []
    unfolding heal_not_running
    heal_not_running-clean h = ground (arith, heal_health_checks-clean)

    heal_config-clean :
        (given : Option env.Config)
        → heal_config env db s id dependency info given ≡ ok none
        → errors_of env db s dependency ≡ []
    unfolding heal_config
    heal_config-clean given h = ground (arith, heal_not_running-clean)

    heal_version-clean :
        (expected : env.VersionRange) (given : Option env.Config)
        → heal_version env db s id dependency info expected given ≡ ok none
        → errors_of env db s dependency ≡ []
    unfolding heal_version
    heal_version-clean expected given h = ground (arith, heal_config-clean given)

    try_heal-clean :
        (old : DependencyError env.VersionRange env.Version) (given : Option env.Config)
        → try_heal env db s id dependency info old given ≡ ok none
        → errors_of env db s dependency ≡ []
    unfolding try_heal heal_not_installed
    try_heal-clean not_installed given h = ground (arith, heal_version-clean info.version given)
    try_heal-clean (incorrect_version expected v) given h =
        ground (arith, heal_version-clean expected given)
    try_heal-clean (config_unsatisfied e) given h = ground (arith, heal_config-clean given)
    try_heal-clean not_running given h = ground (arith, heal_not_running-clean)
    try_heal-clean (health_checks_failed f) given h = ground (arith, heal_health_checks-clean)
    try_heal-clean transitive given h = ground (arith, heal_dependency_errors-clean)

  -- At most the error on the dependency is gone, and then the dependency has no errors of its own.
  pub record Cleared (id dependency : PackageId) (s s' : State) (healed : Bool) : Type 0 where
    pub same_dependents : (j : PackageId) → dependents env db s' j ≡ dependents env db s j
    pub errors :
        (j d : PackageId)
        → has_error env db s' j d
          ≡ (if healed && (j == id && d == dependency) then false else has_error env db s j d)
    pub present : healed ≡ true → has_error env db s id dependency ≡ true
    pub clean : healed ≡ true → errors_of env db s dependency ≡ []

  Cleared-refl : (id dependency : PackageId) (s : State) → Cleared id dependency s s false
  Cleared-refl id dependency s = record {
    same_dependents = λ j. refl;
    errors = λ j d. refl;
    present = λ h. cc;
    clean = λ h. cc;
  }

  module _ (id dependency : PackageId) (s s' : State) (e : Installed env)
      (old : DependencyError env.VersionRange env.Version) (found : get s id ≡ some (some e))
      (has_old : lookup dependency e.status.dependency_errors ≡ some old) where
    -- the entry is written with what is left of the error
    written-replaced :
        (new : DependencyError env.VersionRange env.Version)
        → db.put s id (
            with_errors {env = env} e
              (insert dependency new (remove dependency e.status.dependency_errors)))
          ≡ some s'
        → Cleared id dependency s s' false
    written-replaced new put = record {
      same_dependents = λ j. ground (arith, found, db.get-put s s' id j _ put);
      errors = λ j d. ground (
        arith,
        found,
        has_old,
        db.get-put s s' id j _ put,
        lookup-replace d dependency new e.status.dependency_errors,
      );
      present = λ h. cc;
      clean = λ h. cc;
    }

    -- the entry is written without it
    written-removed :
        db.put s id (with_errors {env = env} e (remove dependency e.status.dependency_errors))
          ≡ some s'
        → errors_of env db s dependency ≡ []
        → Cleared id dependency s s' true
    written-removed put clean = record {
      same_dependents = λ j. ground (arith, found, db.get-put s s' id j _ put);
      errors = λ j d. ground (
        arith,
        found,
        has_old,
        db.get-put s s' id j _ put,
        lookup-remove d dependency e.status.dependency_errors,
      );
      present = λ h. ground (arith, found, has_old);
      clean = λ h. clean;
    }

  retry_error-Cleared :
      (id dependency : PackageId) (s s' : State) (e : Installed env)
      (old : DependencyError env.VersionRange env.Version) (healed : Bool)
      → get s id ≡ some (some e)
      → lookup dependency e.status.dependency_errors ≡ some old
      → retry_error env db id dependency s e old ≡ ok (s', healed)
      → Cleared id dependency s s' healed
  unfolding retry_error
  retry_error-Cleared id dependency s s' e old healed found has_old h =
      let (info, h₁, h₂) =
        >>=-eq-ok (ok_or (lookup dependency e.manifest.dependencies) not_found) _ h in
      let (new, h₃, h₄) = >>=-eq-ok (try_heal env db s id dependency info old none) _ h₂ in
      decide info new h₃ h₄
    where
      decide :
          (info : DepInfo env) (new : Option (DependencyError env.VersionRange env.Version))
          → try_heal env db s id dependency info old none ≡ ok new
          → (elim new as (λ _. Result Failure (State × Bool)) [
            | some error ↦
                write db s id (
                  with_errors {env = env} e
                    (insert dependency error (remove dependency e.status.dependency_errors)))
                >>= λ s₁. ok (s₁, false)
            | none ↦
                write db s id
                  (with_errors {env = env} e (remove dependency e.status.dependency_errors))
                >>= λ s₁. ok (s₁, true)
          ])
            ≡ ok (s', healed)
          → Cleared id dependency s s' healed
      decide info (some error) tried q =
          let (s₁, put, same) = >>=-eq-ok (write db s id _) _ q in
          let is_false : false ≡ healed = ground arith in
          subst (Cleared id dependency s s') is_false
            (written-replaced id dependency s s' e old found has_old error (ground arith))
      decide info none tried q =
          let (s₁, put, same) = >>=-eq-ok (write db s id _) _ q in
          let is_true : true ≡ healed = ground arith in
          subst (Cleared id dependency s s') is_true (
            written-removed id dependency s s' e old found has_old (ground arith)
              (try_heal-clean s id dependency info old none tried))

  pub heal_error-Cleared :
      (id dependency : PackageId) (s s' : State) (healed : Bool)
      → heal_error env db id dependency s ≡ ok (s', healed)
      → Cleared id dependency s s' healed
  unfolding heal_error
  heal_error-Cleared id dependency s s' healed h =
      let (e, h₁, h₂) = >>=-eq-ok (read_found db s id) _ h in
      let found : get s id ≡ some (some e) = ground arith in
      elim (Option-cases (lookup dependency e.status.dependency_errors)) [
        | inl no_error ↦
            let same : s ≡ s' = ground arith in
            let is_false : false ≡ healed = ground arith in
            subst (Cleared id dependency s s') is_false
              (subst (λ t. Cleared id dependency s t false) same (Cleared-refl id dependency s))
        | inr (old, has_old) ↦
            retry_error-Cleared id dependency s s' e old healed found has_old (ground arith)
      ]
