-- ===== src/Manager/Updates.antt =====
-- What the update of a dependent leaves on it, where it requires a health check that has failed
-- (backend/src/manager/health.rs).
use start_os.Common.{
  ok-injective, ℕ, ◌≡◌, ◌≢◌, refl, sym, Bool, true, some, List, [], ◌∷◌, arith, ◌==◌, ==_iff,
  Result, ok, ◌>>=◌, >>=-eq-ok, Bool-cases, inl, inr,
}
use mathlib.Core.Path.{subst}
use start_os.Common.Map.{Map, nat_key, lookup, contains}
use start_os.Status.{PackageId, HealthCheckId, Health, DateTime, running_since}
use start_os.Dependencies.Errors.{health_checks_failed}
use start_os.Dependencies.Store.{Env, DependencyUse, Installed, PatchDb, Failure}
use start_os.Dependencies.Heal.{requires}
use start_os.Dependencies.Heal.Refuses.{has_failed}
use start_os.Dependencies.Break.{Error, record_error, break_transitive}
use start_os.Dependencies.HealAll.{heal_error, heal_transitive}
use start_os.Dependencies.Preserved.{break_transitive_reaches}
use start_os.Dependencies.SameButErrors.{
  SameButErrors, SameButErrors-trans, record_error-SameButErrors, heal_error-SameButErrors,
}
use start_os.Manager.Preserved.{update_dependent_preserves, update_dependents_preserves}
use start_os.Manager.DirectErrors.{
  has_direct_error, record_error_keeps, record_error_direct, heal_error_keeps,
}
use start_os.Manager.Health.{failures_for, update_dependent, update_dependents}

module _ (env : Env) (db : PatchDb env) where
  open db use {State, get}

  -- The service `id` runs in `s₀`, and a check has failed that its dependent `d` requires.
  module _ (s₀ : State) (id d : PackageId) (e f : Installed env)
      (service : get s₀ id ≡ some (some e)) (dependent : get s₀ d ≡ some (some f)) (t : DateTime)
      (health : Health) (runs : e.status.main ≡ running_since t health) (check_id : HealthCheckId)
      (asked : requires env db f id check_id ≡ true)
      (failed : has_failed check_id health ≡ true) where
    -- nothing but errors has changed, and the dependent has its error
    abbrev Reported : State → Type 0
    Reported s = SameButErrors env db s₀ s × (has_direct_error env db s d id ≡ true)

    abbrev recording :
        (i k : PackageId) (error : Error env db) (s s' : State) (nb : Bool)
        → record_error env db i k error s ≡ ok (s', nb)
        → SameButErrors env db s₀ s
        → SameButErrors env db s₀ s'
    recording i k error s s' nb h same =
        SameButErrors-trans env db s₀ s s' same
          (record_error-SameButErrors env db i k error s s' nb h)

    abbrev retrying :
        (i k : PackageId) (s s' : State) (healed : Bool)
        → heal_error env db i k s ≡ ok (s', healed)
        → SameButErrors env db s₀ s
        → SameButErrors env db s₀ s'
    retrying i k s s' healed h same =
        SameButErrors-trans env db s₀ s s' same (heal_error-SameButErrors env db i k s s' healed h)

    record_error-Reported :
        (i k : PackageId) (error : Error env db) (s s' : State) (nb : Bool)
        → record_error env db i k error s ≡ ok (s', nb)
        → Reported s
        → Reported s'
    record_error-Reported i k error s s' nb h (same, own) =
        (recording i k error s s' nb h same, record_error_keeps env db d id i k error s s' nb h own)

    heal_error-Reported :
        (i k : PackageId) (s s' : State) (healed : Bool)
        → heal_error env db i k s ≡ ok (s', healed)
        → Reported s
        → Reported s'
    heal_error-Reported i k s s' healed h (same, own) = (
      retrying i k s s' healed h same,
      heal_error_keeps env db s₀ id d e f service dependent t health runs check_id asked failed i k
          s s' healed same h own,
    )

    failures_for-ne-nil :
        (required : List HealthCheckId) (results : Health)
        → contains check_id required ≡ true
        → has_failed check_id results ≡ true
        → failures_for env db required results ≢ []
    failures_for-ne-nil required [] m h = λ q. ground arith
    failures_for-ne-nil required ((k, v) ∷ rest) m h =
        λ q. ground (arith, ==_iff check_id k, failures_for-ne-nil required rest m)

    -- the dependent's own turn
    update_dependent-Reported :
        (fuel : ℕ) (required : List HealthCheckId) (s s' : State)
        → contains check_id required ≡ true
        → SameButErrors env db s₀ s
        → update_dependent env db fuel id health d required s ≡ ok s'
        → Reported s'
    unfolding update_dependent
    update_dependent-Reported fuel required s s' m same =
        by_failures (failures_for env db required health)
          (failures_for-ne-nil required health m failed)
      where
        by_failures :
            (failures : Health)
            → failures ≢ []
            → (elim failures as (λ _. Result Failure State) [
              | [] ↦ heal_transitive env db fuel d id s
              | f ∷ fs ↦
                  break_transitive env db fuel d id (health_checks_failed (f ∷ fs)) s []
                  >>= λ broken. ok broken.0
            ])
              ≡ ok s'
            → Reported s'
        by_failures [] ne h = absurd (ne refl)
        by_failures (x ∷ xs) ne h =
            let error = health_checks_failed (x ∷ xs) in
            let ((mid, b), h₁, h₂) = >>=-eq-ok (break_transitive env db fuel d id error s []) _ h in
            subst Reported (ok-injective mid s' h₂) (
              break_transitive_reaches env db Reported record_error-Reported fuel d id error s mid
                [] b
                (λ u nb q. (
                  recording d id error s u nb q same,
                  record_error_direct env db d id (x ∷ xs) s u nb q,
                ))
                h₁)

    pub update_dependents-Reported :
        (fuel : ℕ) (info : DependencyUse env) (l : Map PackageId (DependencyUse env)) (s s' : State)
        → lookup d l ≡ some info
        → contains check_id info.health_checks ≡ true
        → SameButErrors env db s₀ s
        → update_dependents env db fuel id health l s ≡ ok s'
        → has_direct_error env db s' d id ≡ true
    unfolding update_dependents
    update_dependents-Reported fuel info [] s s' listed m same h = absurd (ground arith)
    update_dependents-Reported fuel info ((x, other) ∷ rest) s s' listed m same h =
        let (mid, h₁, h₂) =
          >>=-eq-ok (update_dependent env db fuel id health x other.health_checks s) _ h in
        elim (Bool-cases (d == x)) [
          | inl hit ↦
              let self : x ≡ d = sym ((==_iff d x).0 hit) in
              let same_info : other ≡ info = ground (arith, listed, hit) in
              let turn =
                update_dependent-Reported fuel other.health_checks s mid (rw same_info m) same (
                  subst
                    (λ y. update_dependent env db fuel id health y other.health_checks s ≡ ok mid)
                    self h₁) in
              (update_dependents_preserves env db Reported record_error-Reported heal_error-Reported
                fuel id health rest mid s' h₂ turn).1
          | inr miss ↦
              update_dependents-Reported fuel info rest mid s' (rw miss at listed) m
                (update_dependent_preserves env db (SameButErrors env db s₀) recording retrying fuel
                  id health x other.health_checks s mid h₁ same)
                h₂
        ]
