-- ===== src/Dependencies/SameButErrors.antt =====
-- What breaking and healing leave alone (backend/src/dependencies.rs): of every package, all but its
-- dependency errors.
use mathlib.Core.Path.{subst}
use start_os.Common.{
  ℕ, ◌≡◌, refl, ap, ◌∙◌, Bool, true, false, Option, none, some, [], if◌then◌else◌, ◌==◌, arith,
  Result, ok, ◌>>=◌, ok_or, >>=-eq-ok,
}
use start_os.Common.Map.{nat_key, lookup, insert, remove}
use start_os.Status.{PackageId}
use start_os.Dependencies.Errors.{DependencyError}
use start_os.Dependencies.Store.{
  Env, Installed, DependencyErrors, PatchDb, Failure, database, not_found, read_found, write,
  with_errors,
}
use start_os.Dependencies.Heal.{try_heal}
use start_os.Dependencies.Break.{
  Error, Breakages, merged, record_error, break_all_dependents_transitive,
}
use start_os.Dependencies.HealAll.{retry_error, heal_error, heal_all_dependents_transitive}
use start_os.Dependencies.Preserved.{
  break_all_dependents_transitive_preserves, heal_all_dependents_transitive_preserves,
}

-- what a read says, without the dependency errors
module _ {env : Env} where
  abbrev pub but_errors : Option (Option (Installed env)) → Option (Option (Installed env))
  but_errors (some (some e)) = some (some (with_errors {env = env} e []))
  but_errors (some none) = some none
  but_errors none = none

module _ (env : Env) (db : PatchDb env) where
  open db use {State, get, put, begin, save}

  abbrev pub SameButErrors : State → State → Type 0
  SameButErrors s s' = (j : PackageId) → but_errors (get s' j) ≡ but_errors (get s j)

  pub stays : (s s' : State) → s ≡ s' → SameButErrors s s'
  stays s s' same = subst (SameButErrors s) same (λ j. refl)

  pub SameButErrors-trans :
      (s s' s'' : State) → SameButErrors s s' → SameButErrors s' s'' → SameButErrors s s''
  SameButErrors-trans s s' s'' a b j = b j ∙ a j

  begin-SameButErrors : (s s' : State) → ok_or (begin s) database ≡ ok s' → SameButErrors s s'
  begin-SameButErrors s s' h j = ap but_errors (db.get-begin s s' j (ground arith))

  pub save-SameButErrors : (s s' : State) → ok_or (save s) database ≡ ok s' → SameButErrors s s'
  save-SameButErrors s s' h j = ap but_errors (db.get-save s s' j (ground arith))

  write-SameButErrors :
      (s s' : State) (id : PackageId) (e : Installed env) (errors : DependencyErrors env)
      → read_found db s id ≡ ok e
      → write db s id (with_errors {env = env} e errors) ≡ ok s'
      → SameButErrors s s'
  write-SameButErrors s s' id e errors found written j =
      let here : get s id ≡ some (some e) = ground arith in
      let put_it : put s id (with_errors {env = env} e errors) ≡ some s' = ground arith in
      ground (arith, here, db.get-put s s' id j (with_errors {env = env} e errors) put_it)

  -- the packages of `s` with this entry for `id`
  abbrev pub Holds : PackageId → Installed env → State → State → Type 0
  Holds id e s s' =
      (j : PackageId)
      → but_errors (get s' j) ≡ but_errors (if j == id then some (some e) else get s j)

  pub Holds-SameButErrors :
      (id : PackageId) (e : Installed env) (s t s' : State)
      → Holds id e s t
      → SameButErrors t s'
      → Holds id e s s'
  Holds-SameButErrors id e s t s' h w j = w j ∙ h j

  pub record_error-SameButErrors :
      (id dependency : PackageId) (error : Error env db) (s s' : State) (nb : Bool)
      → record_error env db id dependency error s ≡ ok (s', nb)
      → SameButErrors s s'
  unfolding record_error
  record_error-SameButErrors id dependency error s s' nb h =
      let (tx, h₁, h₂) = >>=-eq-ok (ok_or (begin s) database) _ h in
      let (e, h₃, h₄) = >>=-eq-ok (read_found db tx id) _ h₂ in
      let errors = e.status.dependency_errors in
      let new =
        insert dependency (merged env db (lookup dependency errors) error)
          (remove dependency errors) in
      let (tx', h₅, h₆) = >>=-eq-ok (write db tx id (with_errors {env = env} e new)) _ h₄ in
      let (s₁, h₇, h₈) = >>=-eq-ok (ok_or (save tx') database) _ h₆ in
      let same : s₁ ≡ s' = ground arith in
      subst (SameButErrors s) same (λ j.
        save-SameButErrors tx' s₁ h₇ j
        ∙ write-SameButErrors tx tx' id e new h₃ h₅ j
        ∙ begin-SameButErrors s tx h₁ j)

  retry_error-SameButErrors :
      (id dependency : PackageId) (s s' : State) (e : Installed env)
      (old : DependencyError env.VersionRange env.Version) (healed : Bool)
      → read_found db s id ≡ ok e
      → retry_error env db id dependency s e old ≡ ok (s', healed)
      → SameButErrors s s'
  unfolding retry_error
  retry_error-SameButErrors id dependency s s' e old healed found h =
      let (info, h₁, h₂) =
        >>=-eq-ok (ok_or (lookup dependency e.manifest.dependencies) not_found) _ h in
      let (new, h₃, h₄) = >>=-eq-ok (try_heal env db s id dependency info old none) _ h₂ in
      decide new h₄
    where
      decide :
          (new : Option (DependencyError env.VersionRange env.Version))
          → (elim new as (λ _. Result Failure (State × Bool)) [
            | some error ↦
                write db s id (
                  with_errors {env = env} e
                    (insert dependency error (remove dependency e.status.dependency_errors)))
                >>= λ s₁. ok (s₁, false)
            | none ↦
                write db s id
                  (with_errors {env = env} e (remove dependency e.status.dependency_errors))
                >>= λ s₁. ok (s₁, true)
          ])
            ≡ ok (s', healed)
          → SameButErrors s s'
      decide (some error) q =
          let (s₁, put_it, done) = >>=-eq-ok (write db s id _) _ q in
          let same : s₁ ≡ s' = ground arith in
          subst (SameButErrors s) same (write-SameButErrors s s₁ id e _ found put_it)
      decide none q =
          let (s₁, put_it, done) = >>=-eq-ok (write db s id _) _ q in
          let same : s₁ ≡ s' = ground arith in
          subst (SameButErrors s) same (write-SameButErrors s s₁ id e _ found put_it)

  pub heal_error-SameButErrors :
      (id dependency : PackageId) (s s' : State) (healed : Bool)
      → heal_error env db id dependency s ≡ ok (s', healed)
      → SameButErrors s s'
  unfolding heal_error
  heal_error-SameButErrors id dependency s s' healed h =
      let (e, h₁, h₂) = >>=-eq-ok (read_found db s id) _ h in
      decide e h₁ (lookup dependency e.status.dependency_errors) h₂
    where
      decide :
          (e : Installed env)
          → read_found db s id ≡ ok e
          → (old : Option (DependencyError env.VersionRange env.Version))
          → (elim old as (λ _. Result Failure (State × Bool)) [
            | none ↦ ok (s, false)
            | some old ↦ retry_error env db id dependency s e old
          ])
            ≡ ok (s', healed)
          → SameButErrors s s'
      decide e found none q = stays s s' (ground arith)
      decide e found (some old) q =
          retry_error-SameButErrors id dependency s s' e old healed found q

  pub break_all_dependents_transitive-SameButErrors :
      (fuel : ℕ) (id : PackageId) (error : Error env db) (s s' : State) (b b' : Breakages env db)
      → break_all_dependents_transitive env db fuel id error s b ≡ ok (s', b')
      → SameButErrors s s'
  break_all_dependents_transitive-SameButErrors fuel id error s s' b b' h =
      break_all_dependents_transitive_preserves env db (SameButErrors s)
        (λ i d x t t' nb e same.
          SameButErrors-trans s t t' same (record_error-SameButErrors i d x t t' nb e))
        fuel id error s s' b b' h (λ j. refl)

  pub heal_all_dependents_transitive-SameButErrors :
      (fuel : ℕ) (id : PackageId) (s s' : State)
      → heal_all_dependents_transitive env db fuel id s ≡ ok s'
      → SameButErrors s s'
  heal_all_dependents_transitive-SameButErrors fuel id s s' h =
      heal_all_dependents_transitive_preserves env db (SameButErrors s)
        (λ i d t t' nb e same.
          SameButErrors-trans s t t' same (heal_error-SameButErrors i d t t' nb e))
        fuel id s s' h (λ j. refl)
