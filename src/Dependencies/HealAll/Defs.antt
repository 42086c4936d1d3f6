-- ===== src/Dependencies/HealAll/Defs.antt =====
-- `heal_transitive` and `heal_all_dependents_transitive` of backend/src/dependencies.rs. The two call
-- each other: the first recurs on a bound, and hands the call to the loop of the second.
use start_os.Common.{
  ℕ, zero, suc, Bool, true, false, none, some, List, [], ◌∷◌, if◌then◌else◌, ◌==◌, Result, ok, err,
  ◌>>=◌, ok_or,
}
use start_os.Common.Map.{nat_key, lookup, insert, remove, keys}
use start_os.Status.{PackageId}
use start_os.Dependencies.Errors.{DependencyError}
use start_os.Dependencies.Store.{
  Env, Installed, PatchDb, Failure, not_found, out_of_fuel, read_found, write, with_errors,
}
use start_os.Dependencies.Heal.{try_heal}

module _ (env : Env) (db : PatchDb env) where
  open db use {State}

  -- the old error tried once more: the entry with what is left of it, and whether it is gone
  unfoldable pub retry_error :
      PackageId
      → PackageId
      → State
      → Installed env
      → DependencyError env.VersionRange env.Version
      → Result Failure (State × Bool)
  retry_error id dependency s e old = do
    let errors = remove dependency e.status.dependency_errors
    info ← ok_or (lookup dependency e.manifest.dependencies) not_found
    new ← try_heal env db s id dependency info old none
    elim new [
      | some error ↦ do
        s' ← write db s id (with_errors {env = env} e (insert dependency error errors))
        ok (s', false)
      | none ↦ do s' ← write db s id (with_errors {env = env} e errors); ok (s', true)
    ]

  -- One call, up to the point where it goes on to the dependents: nothing happens if the package
  -- has no error on the dependency.
  unfoldable pub heal_error : PackageId → PackageId → State → Result Failure (State × Bool)
  heal_error id dependency s = do
    e ← read_found db s id
    elim (lookup dependency e.status.dependency_errors) [
      | none ↦ ok (s, false)
      | some old ↦ retry_error id dependency s e old
    ]

  unfoldable pub heal_dependents :
      (PackageId → State → Result Failure State)
      → PackageId
      → List PackageId
      → State
      → Result Failure State
  heal_dependents call id [] s = ok s
  heal_dependents call id (dependent ∷ rest) s =
      (if id == dependent then ok s else call dependent s) >>= λ s'. heal_dependents call id rest s'

  unfoldable pub heal_all_dependents :
      (PackageId → State → Result Failure State) → PackageId → State → Result Failure State
  heal_all_dependents call id s = do
    e ← read_found db s id
    heal_dependents call id (keys e.current_dependents) s

  -- The body of `heal_transitive`; `call` is the recursive call on a dependent.
  unfoldable pub heal_step :
      (PackageId → State → Result Failure State)
      → PackageId
      → PackageId
      → State
      → Result Failure State
  heal_step call id dependency s = heal_error id dependency s >>= λ (s', healed). elim healed [
    | false ↦ ok s'
    | true ↦ heal_all_dependents call id s'
  ]

  unfoldable pub heal_transitive : ℕ → PackageId → PackageId → State → Result Failure State
  heal_transitive zero id dependency s = err out_of_fuel
  heal_transitive (suc fuel) id dependency s =
      heal_step (λ dependent. heal_transitive fuel dependent id) id dependency s

  -- `heal_all_dependents_transitive`, as it is called from outside
  unfoldable pub heal_all_dependents_transitive : ℕ → PackageId → State → Result Failure State
  heal_all_dependents_transitive fuel id s =
      heal_all_dependents (λ dependent. heal_transitive fuel dependent id) id s
