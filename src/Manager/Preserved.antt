-- ===== src/Manager/Preserved.antt =====
-- What recording an error and retrying one preserve, the updates of the dependents of a service
-- preserve (backend/src/manager/health.rs with backend/src/dependencies.rs).
use start_os.Common.{ok-injective, ℕ, ◌≡◌, Bool, List, [], ◌∷◌, Result, ok, ◌>>=◌, >>=-eq-ok}
use mathlib.Core.Path.{subst}
use start_os.Common.Map.{Map, nat_key}
use start_os.Status.{PackageId, HealthCheckId, Health}
use start_os.Dependencies.Errors.{health_checks_failed}
use start_os.Dependencies.Store.{Env, DependencyUse, PatchDb, Failure}
use start_os.Dependencies.Break.{Error, record_error, break_transitive}
use start_os.Dependencies.HealAll.{heal_error, heal_transitive}
use start_os.Dependencies.Preserved.{break_transitive_preserves, heal_transitive_preserves}
use start_os.Manager.Health.{failures_for, update_dependent, update_dependents}

module _ (env : Env) (db : PatchDb env) (P : db.State → Type 0)
    (recording : (id dependency : PackageId) (error : Error env db) (s s' : db.State) (nb : Bool)
      → record_error env db id dependency error s ≡ ok (s', nb)
      → P s
      → P s')
    (retrying : (id dependency : PackageId) (s s' : db.State) (healed : Bool)
      → heal_error env db id dependency s ≡ ok (s', healed)
      → P s
      → P s') where
  open db use {State}

  pub update_dependent_preserves :
      (fuel : ℕ) (id : PackageId) (health : Health) (dependent : PackageId)
      (required : List HealthCheckId) (s s' : State)
      → update_dependent env db fuel id health dependent required s ≡ ok s'
      → P s
      → P s'
  unfolding update_dependent
  update_dependent_preserves fuel id health dependent required s s' =
      by_failures (failures_for env db required health)
    where
      by_failures :
          (failures : Health)
          → (elim failures as (λ _. Result Failure State) [
            | [] ↦ heal_transitive env db fuel dependent id s
            | f ∷ fs ↦
                break_transitive env db fuel dependent id (health_checks_failed (f ∷ fs)) s []
                >>= λ broken. ok broken.0
          ])
            ≡ ok s'
          → P s
          → P s'
      by_failures [] h = heal_transitive_preserves env db P retrying fuel dependent id s s' h
      by_failures (f ∷ fs) h =
          let failed = health_checks_failed (f ∷ fs) in
          let ((mid, b), h₁, h₂) =
            >>=-eq-ok (break_transitive env db fuel dependent id failed s []) _ h in
          subst (λ t. P s → P t) (ok-injective mid s' h₂)
            (break_transitive_preserves env db P recording fuel dependent id failed s mid [] b h₁)

  pub update_dependents_preserves :
      (fuel : ℕ) (id : PackageId) (health : Health) (l : Map PackageId (DependencyUse env))
      (s s' : State)
      → update_dependents env db fuel id health l s ≡ ok s'
      → P s
      → P s'
  unfolding update_dependents
  update_dependents_preserves fuel id health [] s s' h p = subst P (ok-injective s s' h) p
  update_dependents_preserves fuel id health ((d, info) ∷ rest) s s' h p =
      let (mid, h₁, h₂) =
        >>=-eq-ok (update_dependent env db fuel id health d info.health_checks s) _ h in
      update_dependents_preserves fuel id health rest mid s' h₂
        (update_dependent_preserves fuel id health d info.health_checks s mid h₁ p)
