-- ===== src/Manager/DirectErrors.antt =====
-- What a health check that fails records on a dependent stays while it does
-- (backend/src/manager/health.rs with backend/src/dependencies.rs).
use start_os.Common.{
  ok-injective, ◌≡◌, refl, ap, ◌∙◌, Bool, true, false, Option, none, some, [], arith, if◌then◌else◌,
  ◌==◌, ==_iff, Result, ok, ◌>>=◌, ok_or, >>=-eq-ok,
}
use mathlib.Core.Path.{subst}
use start_os.Common.Map.{nat_key, lookup, insert, remove, lookup-remove}
use start_os.Status.{PackageId, HealthCheckId, Health, DateTime, running_since}
use start_os.Dependencies.Errors.{DependencyError, health_checks_failed, merge_with}
use start_os.Dependencies.Store.{
  Env, DepInfo, Installed, DependencyErrors, PatchDb, Failure, not_found, read_found, write,
  with_errors,
}
use start_os.Dependencies.Heal.{requires, try_heal}
use start_os.Dependencies.Heal.Refuses.{is_direct, has_failed, try_heal-direct}
use start_os.Dependencies.Break.{Error, merged, record_error}
use start_os.Dependencies.Break.Recorded.{error_at, lookup-replace, record_error-Recorded}
use start_os.Dependencies.HealAll.{retry_error, heal_error}
use start_os.Dependencies.SameButErrors.{but_errors, SameButErrors}

module _ {Range Version : Type 0} where
  -- Merging keeps an error of the dependency itself.
  merge_with-direct :
      (old new : DependencyError Range Version)
      → is_direct (some old) ≡ true
      → is_direct (some (merge_with old new)) ≡ true
  unfolding merge_with
  merge_with-direct old new h = ground arith

  merge_with-failed :
      (old : DependencyError Range Version) (failures : Health)
      → is_direct (some (merge_with old (health_checks_failed failures))) ≡ true
  unfolding merge_with
  merge_with-failed old failures = ground arith

module _ (env : Env) (db : PatchDb env) where
  open db use {State, get}

  -- package `d` has an error on its dependency `id` that is one of `id` itself
  abbrev pub has_direct_error : State → PackageId → PackageId → Bool
  has_direct_error s d id = is_direct (error_at env db s d id)

  merged-direct :
      (old : Option (Error env db)) (error : Error env db)
      → is_direct old ≡ true
      → is_direct (some (merged env db old error)) ≡ true
  merged-direct none error h = cc
  merged-direct (some old) error h = merge_with-direct old error h

  merged-failed :
      (old : Option (Error env db)) (failures : Health)
      → is_direct (some (merged env db old (health_checks_failed failures))) ≡ true
  merged-failed none failures = refl
  merged-failed (some old) failures = merge_with-failed old failures

  module _ (d id : PackageId) where
    pub record_error_keeps :
        (i k : PackageId) (error : Error env db) (s s' : State) (nb : Bool)
        → record_error env db i k error s ≡ ok (s', nb)
        → has_direct_error s d id ≡ true
        → has_direct_error s' d id ≡ true
    record_error_keeps i k error s s' nb h own =
        let r = record_error-Recorded env db i k error s s' nb h in
        ground (
          arith,
          r.errors d id,
          merged-direct (error_at env db s i k) error,
          ==_iff d i,
          ==_iff id k,
        )

    pub record_error_direct :
        (failures : Health) (s s' : State) (nb : Bool)
        → record_error env db d id (health_checks_failed failures) s ≡ ok (s', nb)
        → has_direct_error s' d id ≡ true
    record_error_direct failures s s' nb h =
        let r = record_error-Recorded env db d id (health_checks_failed failures) s s' nb h in
        ground (arith, r.errors d id, merged-failed (error_at env db s d id) failures)

  pub entry_as :
      (o : Option (Option (Installed env))) (e : Installed env)
      → but_errors o ≡ but_errors (some (some e))
      → (e' : Installed env) × (o ≡ some (some e'))
        × (e'.status.main ≡ e.status.main)
        × (e'.current_dependencies ≡ e.current_dependencies)
  entry_as none e h = absurd (ground arith)
  entry_as (some none) e h = absurd (ground arith)
  entry_as (some (some e')) e h =
      let same : with_errors {env = env} e' [] ≡ with_errors {env = env} e [] = cc in
      (e', refl, ap (λ x. x.status.main) same, ap (λ x. x.current_dependencies) same)

  -- The service `id` runs in `s₀`, and a check has failed that its dependent `d` requires.
  module _ (s₀ : State) (id d : PackageId) (e f : Installed env)
      (service : get s₀ id ≡ some (some e)) (dependent : get s₀ d ≡ some (some f)) (t : DateTime)
      (health : Health) (runs : e.status.main ≡ running_since t health) (check_id : HealthCheckId)
      (asked : requires env db f id check_id ≡ true)
      (failed : has_failed check_id health ≡ true) where
    try_heal_keeps :
        (s : State) (info : DepInfo env) (old : DependencyError env.VersionRange env.Version)
        (new : Option (DependencyError env.VersionRange env.Version))
        → SameButErrors env db s₀ s
        → is_direct (some old) ≡ true
        → try_heal env db s d id info old none ≡ ok new
        → is_direct new ≡ true
    try_heal_keeps s info old new same own h =
        let (e', e-here, e-main, _) = entry_as (get s id) e (same id ∙ ap but_errors service) in
        let (f', f-here, _, f-uses) = entry_as (get s d) f (same d ∙ ap but_errors dependent) in
        let needs : requires env db f' id check_id ≡ true = rw (requires, f-uses) asked in
        try_heal-direct env db s d id info f' f-here e' e-here t health (e-main ∙ runs) check_id
          needs failed old none new own h

    -- writing what is left of an error of package `i` on `k`
    written_keeps :
        (i k : PackageId) (s s' : State) (a : Installed env) (errors : DependencyErrors env)
        (new : Option (Error env db))
        → get s i ≡ some (some a)
        → db.put s i (with_errors {env = env} a errors) ≡ some s'
        → ((q : PackageId)
            → lookup q errors ≡ (if q == k then new else lookup q a.status.dependency_errors))
        → (d ≡ i → id ≡ k → is_direct new ≡ true)
        → has_direct_error s d id ≡ true
        → has_direct_error s' d id ≡ true
    written_keeps i k s s' a errors new here put left kept own = ground (
      arith,
      db.get-put s s' i d (with_errors {env = env} a errors) put,
      left id,
      ==_iff d i,
      ==_iff id k,
    )

    retry_error_keeps :
        (i k : PackageId) (s s' : State) (a : Installed env) (old : Error env db) (healed : Bool)
        → SameButErrors env db s₀ s
        → get s i ≡ some (some a)
        → lookup k a.status.dependency_errors ≡ some old
        → retry_error env db i k s a old ≡ ok (s', healed)
        → has_direct_error s d id ≡ true
        → has_direct_error s' d id ≡ true
    unfolding retry_error
    retry_error_keeps i k s s' a old healed same here was h own =
        let (info, h₁, h₂) = >>=-eq-ok (ok_or (lookup k a.manifest.dependencies) not_found) _ h in
        let (new, h₃, h₄) = >>=-eq-ok (try_heal env db s i k info old none) _ h₂ in
        by_answer new (tried info new h₃) h₄
      where
        old_errors : DependencyErrors env
        old_errors = a.status.dependency_errors

        tried :
            (info : DepInfo env) (new : Option (Error env db))
            → try_heal env db s i k info old none ≡ ok new
            → d ≡ i
            → id ≡ k
            → is_direct new ≡ true
        tried info new q di ik =
            let at_d : get s d ≡ some (some a) = ap (get s) di ∙ here in
            let found : lookup id old_errors ≡ some old = ap (λ x. lookup x old_errors) ik ∙ was in
            let direct : is_direct (some old) ≡ true = ground (arith, own, at_d, found) in
            try_heal_keeps s info old new same direct (rw (di, ik) q)

        by_answer :
            (new : Option (Error env db))
            → (d ≡ i → id ≡ k → is_direct new ≡ true)
            → (elim new as (λ _. Result Failure (State × Bool)) [
              | some error ↦
                  write db s i (with_errors {env = env} a (insert k error (remove k old_errors)))
                  >>= λ s₁. ok (s₁, false)
              | none ↦ write db s i (with_errors {env = env} a (remove k old_errors)) >>= λ s₁.
                  ok (s₁, true)
            ])
              ≡ ok (s', healed)
            → has_direct_error s' d id ≡ true
        by_answer (some error) kept q =
            let (s₁, put, done) = >>=-eq-ok (write db s i _) _ q in
            subst (λ u. has_direct_error u d id ≡ true)
              (ap (λ r. r.0) (ok-injective (s₁, false) (s', healed) done))
              (written_keeps i k s s₁ a (insert k error (remove k old_errors)) (some error) here
                (ground arith) (λ q. lookup-replace q k error old_errors) kept own)
        by_answer none kept q =
            let (s₁, put, done) = >>=-eq-ok (write db s i _) _ q in
            subst (λ u. has_direct_error u d id ≡ true)
              (ap (λ r. r.0) (ok-injective (s₁, true) (s', healed) done))
              (written_keeps i k s s₁ a (remove k old_errors) none here (ground arith)
                (λ q. lookup-remove q k old_errors) kept own)

    pub heal_error_keeps :
        (i k : PackageId) (s s' : State) (healed : Bool)
        → SameButErrors env db s₀ s
        → heal_error env db i k s ≡ ok (s', healed)
        → has_direct_error s d id ≡ true
        → has_direct_error s' d id ≡ true
    unfolding heal_error
    heal_error_keeps i k s s' healed same h own =
        let (a, h₁, h₂) = >>=-eq-ok (read_found db s i) _ h in
        by_error a (ground arith) (lookup k a.status.dependency_errors) refl h₂
      where
        by_error :
            (a : Installed env)
            → get s i ≡ some (some a)
            → (old : Option (Error env db)) → lookup k a.status.dependency_errors ≡ old
            → (elim old as (λ _. Result Failure (State × Bool)) [
              | none ↦ ok (s, false)
              | some old ↦ retry_error env db i k s a old
            ])
              ≡ ok (s', healed)
            → has_direct_error s' d id ≡ true
        by_error a here none was q =
            subst (λ u. has_direct_error u d id ≡ true)
              (ap (λ r. r.0) (ok-injective (s, false) (s', healed) q)) own
        by_error a here (some old) was q =
            retry_error_keeps i k s s' a old healed same here was q own
