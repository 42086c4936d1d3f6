-- ===== src/Dependencies/Break/Recorded.antt =====
-- One step of `break_transitive` (backend/src/dependencies.rs), seen through what it leaves in the
-- database: which packages are installed, their dependents, and their dependency errors.
use start_os.Common.{
  ◌≡◌, ◌≢◌, ap, sym, Bool, true, false, ◌&&◌, Option, none, some, List, [], if◌then◌else◌, ◌==◌,
  arith, ok, err, Option-cases, inl, inr,
}
use mathlib.Core.Path.{subst}
use start_os.Common.Map.{Map, nat_key, lookup, insert, remove, keys, lookup-insert, lookup-remove}
use start_os.Status.{PackageId}
use start_os.Dependencies.Store.{
  Env, Installed, DependencyErrors, PatchDb, out_of_fuel, with_errors,
}
use start_os.Dependencies.Break.Defs.{Error, is_newly_broken, merged, record_error}

-- what a read of the database says of a package
module _ {env : Env} where
  abbrev pub installed_in : Option (Option (Installed env)) → Bool
  installed_in (some (some _)) = true
  installed_in (some none) = false
  installed_in none = false

  abbrev pub dependents_in : Option (Option (Installed env)) → List PackageId
  dependents_in (some (some e)) = keys e.current_dependents
  dependents_in (some none) = []
  dependents_in none = []

  abbrev pub errors_in : Option (Option (Installed env)) → DependencyErrors env
  errors_in (some (some e)) = e.status.dependency_errors
  errors_in (some none) = []
  errors_in none = []

-- replacing the entry of one key
pub lookup-replace {ℓ} :
    {V : Type ℓ} (d k : PackageId) (v : V) (m : Map PackageId V)
    → lookup d (insert k v (remove k m)) ≡ (if d == k then some v else lookup d m)
lookup-replace d k v m = ground (arith, lookup-insert d k v (remove k m), lookup-remove d k m)

module _ (env : Env) (db : PatchDb env) where
  open db use {State, get}

  abbrev pub is_installed : State → PackageId → Bool
  is_installed s j = installed_in (get s j)

  abbrev pub dependents : State → PackageId → List PackageId
  dependents s j = dependents_in (get s j)

  abbrev pub errors_of : State → PackageId → DependencyErrors env
  errors_of s j = errors_in (get s j)

  -- the error that package `j` has on its dependency `d`
  abbrev pub error_at : State → PackageId → PackageId → Option (Error env db)
  error_at s j d = lookup d (errors_of s j)

  -- The package is installed; its error on the dependency is the merged one, and nothing else
  -- differs in the new database.
  pub record Recorded (id dependency : PackageId) (error : Error env db) (s s' : State)
      (newly_broken : Bool) : Type 0 where
    pub present : is_installed s id ≡ true
    pub decided : newly_broken ≡ is_newly_broken env db (error_at s id dependency) error
    pub installed : (j : PackageId) → is_installed s' j ≡ is_installed s j
    pub same_dependents : (j : PackageId) → dependents s' j ≡ dependents s j
    pub errors :
        (j d : PackageId)
        → error_at s' j d ≡ (
            if j == id && d == dependency
            then some (merged env db (error_at s id dependency) error)
            else error_at s j d)

  put_errors-Recorded :
      (id dependency : PackageId) (error : Error env db) (s s' : State) (e : Installed env)
      → get s id ≡ some (some e)
      → ((j : PackageId)
          → get s' j ≡ (
              if j == id
              then some (
                  some (
                    with_errors {env = env} e (
                      insert dependency
                        (merged env db (lookup dependency e.status.dependency_errors) error)
                        (remove dependency e.status.dependency_errors))))
              else get s j))
      → Recorded id dependency error s s'
          (is_newly_broken env db (lookup dependency e.status.dependency_errors) error)
  put_errors-Recorded id dependency error s s' e found after = record {
    present = ap installed_in found;
    decided = ap (λ o. is_newly_broken env db (lookup dependency (errors_in o)) error) (sym found);
    installed = λ j. ground (arith, after j);
    same_dependents = λ j. ground (arith, after j);
    errors = λ j d.
        let old = e.status.dependency_errors in
        let new = merged env db (lookup dependency old) error in
        ground (arith, after j, found, lookup-replace d dependency new old);
  }

  pub record_error-Recorded :
      (id dependency : PackageId) (error : Error env db) (s s' : State) (newly_broken : Bool)
      → record_error env db id dependency error s ≡ ok (s', newly_broken)
      → Recorded id dependency error s s' newly_broken
  unfolding record_error
  record_error-Recorded id dependency error s s' newly_broken h = elim (Option-cases (db.begin s)) [
    | inl failed ↦ absurd (ground arith)
    | inr (tx, e₁) ↦ elim (Option-cases (get tx id)) [
      | inl failed ↦ absurd (ground arith)
      | inr (o, e₂) ↦ elim (Option-cases o) [
        | inl absent ↦ absurd (ground arith)
        | inr (e, e₃) ↦
            let errors = e.status.dependency_errors in
            let new = with_errors {env = env} e (
              insert dependency (merged env db (lookup dependency errors) error)
                (remove dependency errors)) in
            elim (Option-cases (db.put tx id new)) [
              | inl failed ↦ absurd (ground arith)
              | inr (tx', e₄) ↦ elim (Option-cases (db.save tx')) [
                | inl failed ↦ absurd (ground arith)
                | inr (s₁, e₅) ↦
                    let same : s₁ ≡ s' = ground arith in
                    let decided : is_newly_broken env db (lookup dependency errors) error
                        ≡ newly_broken =
                      ground arith in
                    subst (λ nb. Recorded id dependency error s s' nb) decided
                      (put_errors-Recorded id dependency error s s' e
                        (ground (arith, db.get-begin s tx id e₁))
                        (λ j. ground (
                          arith,
                          db.get-begin s tx j e₁,
                          db.get-put tx tx' id j new e₄,
                          db.get-save tx' s₁ j e₅,
                        )))
              ]
            ]
      ]
    ]
  ]

  pub record_error-fuel :
      (id dependency : PackageId) (error : Error env db) (s : State)
      → record_error env db id dependency error s ≢ err out_of_fuel
  unfolding record_error
  record_error-fuel id dependency error s h = ground arith
