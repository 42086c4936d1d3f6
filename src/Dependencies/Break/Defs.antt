-- ===== src/Dependencies/Break/Defs.antt =====
-- `break_transitive` and `break_all_dependents_transitive` of backend/src/dependencies.rs. The two
-- call each other: the first recurs on a bound, and hands the call to the loop of the second.
use Prim.Native.Nat.{Ordering}
use start_os.Common.{
  ℕ, zero, suc, Bool, true, false, Option, none, some, List, [], ◌∷◌, if◌then◌else◌, ◌==◌, Result,
  ok, err, ◌>>=◌, ok_or,
}
use start_os.Common.Map.{Map, nat_key, lookup, insert, remove, keys}
use start_os.Status.{PackageId}
use start_os.Dependencies.Errors.{DependencyError, transitive, cmp_priority, merge_with}
use start_os.Dependencies.Store.{
  Env, Installed, PatchDb, Failure, database, out_of_fuel, read, read_found, write, with_errors,
}

module _ (env : Env) (db : PatchDb env) where
  open env use {Version, VersionRange}
  open db use {State, begin, save}

  abbrev pub Error : Type 0
  Error = DependencyError VersionRange Version

  pub record TaggedDependencyError : Type 0 where
    pub dependency : PackageId
    pub error : Error

  -- the packages that a change breaks, which the caller shows
  abbrev pub Breakages : Type 0
  Breakages = Map PackageId TaggedDependencyError

  abbrev pub Outcome : Type 0
  Outcome = Result Failure (State × Breakages)

  -- `error.cmp_priority(&e) == Ordering::Greater`, or no old error
  abbrev pub is_newly_broken : Option Error → Error → Bool
  is_newly_broken none error = true
  is_newly_broken (some old) error = elim (cmp_priority error old) [
    | Ordering.gt ↦ true
    | _ ↦ false
  ]

  abbrev pub merged : Option Error → Error → Error
  merged none error = error
  merged (some old) error = merge_with old error

  -- `receipts.current_dependents.get(db, id).await?.iter().flat_map(|x| x.0.keys())`
  abbrev pub dependents_of : Option (Installed env) → List PackageId
  dependents_of none = []
  dependents_of (some e) = keys e.current_dependents

  -- the loop over the dependents but the package itself
  unfoldable pub for_dependents :
      (PackageId → State → Breakages → Outcome)
      → PackageId
      → List PackageId
      → State
      → Breakages
      → Outcome
  for_dependents call id [] s breakages = ok (s, breakages)
  for_dependents call id (dependent ∷ rest) s breakages =
      (if id == dependent then ok (s, breakages) else call dependent s breakages)
      >>= λ (s', breakages'). for_dependents call id rest s' breakages'

  unfoldable pub break_all_dependents :
      (PackageId → State → Breakages → Outcome) → PackageId → State → Breakages → Outcome
  break_all_dependents call id s breakages = do
    e ← read db s id
    for_dependents call id (dependents_of e) s breakages

  -- One call, up to the point where it goes on to the dependents: the new database, and whether the
  -- package was newly broken.
  unfoldable pub record_error :
      PackageId → PackageId → Error → State → Result Failure (State × Bool)
  record_error id dependency error s = do
    tx ← ok_or (begin s) database
    e ← read_found db tx id
    let errors = e.status.dependency_errors
    let old = lookup dependency errors
    let errors' = insert dependency (merged old error) (remove dependency errors)
    tx' ← write db tx id (with_errors {env = env} e errors')
    s' ← ok_or (save tx') database
    ok (s', is_newly_broken old error)

  -- The body of `break_transitive`; `call` is the recursive call on a dependent.
  unfoldable pub break_step :
      (PackageId → State → Breakages → Outcome)
      → PackageId
      → PackageId
      → Error
      → State
      → Breakages
      → Outcome
  break_step call id dependency error s breakages =
      record_error id dependency error s >>= λ (s', newly_broken). elim newly_broken [
        | false ↦ ok (s', breakages)
        | true ↦
            let tagged : TaggedDependencyError = record {
              dependency = dependency;
              error = error;
            } in
            break_all_dependents call id s' (insert id tagged breakages)
      ]

  unfoldable pub break_transitive : ℕ → PackageId → PackageId → Error → State → Breakages → Outcome
  break_transitive zero id dependency error s breakages = err out_of_fuel
  break_transitive (suc fuel) id dependency error s breakages =
      break_step (λ dependent. break_transitive fuel dependent id transitive) id dependency error s
        breakages

  -- `break_all_dependents_transitive`, as it is called from outside
  unfoldable pub break_all_dependents_transitive :
      ℕ → PackageId → Error → State → Breakages → Outcome
  break_all_dependents_transitive fuel id error s breakages =
      break_all_dependents (λ dependent. break_transitive fuel dependent id error) id s breakages
