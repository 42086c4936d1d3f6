-- ===== src/Manager/Consistent.antt =====
-- A health check keeps the errors of the dependents consistent (backend/src/manager/health.rs).
use start_os.Common.{
  ok-injective, ℕ, ◌≡◌, Bool, true, false, Option, none, some, List, [], ◌∷◌, arith, if◌then◌else◌,
  Result, ok, ◌>>=◌, ok_or, >>=-eq-ok,
}
use mathlib.Core.Path.{subst}
use start_os.Common.Map.{Map, nat_key}
use start_os.Status.{
  PackageId, HealthCheckId, Health, MainStatus, running_since, stopped, restarting, stopping,
  starting_up, backing_up, started,
}
use start_os.Dependencies.Errors.{health_checks_failed}
use start_os.Dependencies.Store.{
  Env, DependencyUse, Installed, PatchDb, Failure, database, procedure, read_found, write,
}
use start_os.Dependencies.Break.{break_transitive}
use start_os.Dependencies.Break.Visits.{IsConsistent}
use start_os.Dependencies.Break.Spreads.{break_transitive-IsConsistent}
use start_os.Dependencies.Agrees.{
  IsConsistent-Agrees, Agrees-put, opened-IsConsistent, saved-IsConsistent,
}
use start_os.Dependencies.HealAll.{heal_transitive}
use start_os.Dependencies.HealAll.Keeps.{heal_transitive-IsConsistent}
use start_os.Dependencies.SameButErrors.{Holds}
use start_os.Manager.Recorded.{checked_as, check-Holds}
use start_os.Manager.Health.{
  CheckAll, failures_for, with_main, update_dependent, update_dependents, record_health,
  commit_health, check,
}

module _ (env : Env) (db : PatchDb env) where
  open db use {State, begin, save}

  update_dependent-IsConsistent :
      (fuel : ℕ) (id : PackageId) (health : Health) (dependent : PackageId)
      (required : List HealthCheckId) (s s' : State)
      → IsConsistent env db s
      → update_dependent env db fuel id health dependent required s ≡ ok s'
      → IsConsistent env db s'
  unfolding update_dependent
  update_dependent-IsConsistent fuel id health dependent required s s' c =
      decide (failures_for env db required health)
    where
      decide :
          (failures : Health)
          → (elim failures as (λ _. Result Failure State) [
            | [] ↦ heal_transitive env db fuel dependent id s
            | f ∷ fs ↦
                break_transitive env db fuel dependent id (health_checks_failed (f ∷ fs)) s []
                >>= λ broken. ok broken.0
          ])
            ≡ ok s'
          → IsConsistent env db s'
      decide [] h = (heal_transitive-IsConsistent env db fuel dependent id s s' c h).0
      decide (f ∷ fs) h =
          let failed = health_checks_failed (f ∷ fs) in
          let ((mid, b), h₁, h₂) =
            >>=-eq-ok (break_transitive env db fuel dependent id failed s []) _ h in
          let same : mid ≡ s' = ground arith in
          subst (IsConsistent env db) same
            (break_transitive-IsConsistent env db fuel dependent id failed s mid [] b c h₁).0

  update_dependents-IsConsistent :
      (fuel : ℕ) (id : PackageId) (health : Health) (l : Map PackageId (DependencyUse env))
      (s s' : State)
      → IsConsistent env db s
      → update_dependents env db fuel id health l s ≡ ok s'
      → IsConsistent env db s'
  unfolding update_dependents
  update_dependents-IsConsistent fuel id health [] s s' c h =
      let same : s ≡ s' = ground arith in subst (IsConsistent env db) same c
  update_dependents-IsConsistent fuel id health ((d, info) ∷ rest) s s' c h =
      let (mid, h₁, h₂) =
        >>=-eq-ok (update_dependent env db fuel id health d info.health_checks s) _ h in
      update_dependents-IsConsistent fuel id health rest mid s'
        (update_dependent-IsConsistent fuel id health d info.health_checks s mid c h₁) h₂

  record_health-IsConsistent :
      (id : PackageId) (health : Health) (tx tx' : State) (l : Map PackageId (DependencyUse env))
      → IsConsistent env db tx
      → record_health env db id health tx ≡ ok (tx', l)
      → IsConsistent env db tx'
  unfolding record_health
  record_health-IsConsistent id health tx tx' l c h =
      let (checkpoint, h₁, h₂) = >>=-eq-ok (ok_or (begin tx) database) _ h in
      let (e, h₃, h₄) = >>=-eq-ok (read_found db checkpoint id) _ h₂ in
      let (written, h₅, h₆) =
        >>=-eq-ok
          (elim e.status.main as (λ _. Result Failure State) [
            | running_since t old ↦
                write db checkpoint id (with_main env db e (running_since t health))
            | _ ↦ ok checkpoint
          ])
          _ h₄ in
      let (tx₁, h₇, h₈) = >>=-eq-ok (ok_or (save written) database) _ h₆ in
      let same : tx₁ ≡ tx' = ground arith in
      let opened = opened-IsConsistent env db tx checkpoint c h₁ in
      let found : db.get checkpoint id ≡ some (some e) = ground arith in
      subst (IsConsistent env db) same (
        saved-IsConsistent env db written tx₁
          (decide checkpoint e written opened found e.status.main h₅) h₇)
    where
      decide :
          (checkpoint : State) (e : Installed env) (written : State)
          → IsConsistent env db checkpoint
          → db.get checkpoint id ≡ some (some e)
          → (main : MainStatus)
          → (elim main as (λ _. Result Failure State) [
            | running_since t old ↦
                write db checkpoint id (with_main env db e (running_since t health))
            | _ ↦ ok checkpoint
          ])
            ≡ ok written
          → IsConsistent env db written
      decide checkpoint e written c found (running_since t old) q =
          IsConsistent-Agrees env db checkpoint written
            (Agrees-put env db checkpoint written id e (running_since t health) found
              (ground arith))
            c
      decide checkpoint e written c found stopped q =
          subst (IsConsistent env db) (ok-injective checkpoint written q) c
      decide checkpoint e written c found restarting q =
          subst (IsConsistent env db) (ok-injective checkpoint written q) c
      decide checkpoint e written c found stopping q =
          subst (IsConsistent env db) (ok-injective checkpoint written q) c
      decide checkpoint e written c found (starting_up b) q =
          subst (IsConsistent env db) (ok-injective checkpoint written q) c
      decide checkpoint e written c found (backing_up t old) q =
          subst (IsConsistent env db) (ok-injective checkpoint written q) c

  commit_health-IsConsistent :
      (fuel : ℕ) (id : PackageId) (health : Health) (tx s' : State)
      → IsConsistent env db tx
      → commit_health env db fuel id health tx ≡ ok s'
      → IsConsistent env db s'
  unfolding commit_health
  commit_health-IsConsistent fuel id health tx s' c h =
      let ((tx₁, l), h₁, h₂) = >>=-eq-ok (record_health env db id health tx) _ h in
      let (tx₂, h₃, h₄) = >>=-eq-ok (update_dependents env db fuel id health l tx₁) _ h₂ in
      saved-IsConsistent env db tx₂ s'
        (update_dependents-IsConsistent fuel id health l tx₁ tx₂
          (record_health-IsConsistent id health tx tx₁ l c h₁) h₃)
        h₄

  check_keeps :
      (check_all : CheckAll env db) (should_commit : Bool) (fuel : ℕ) (id : PackageId)
      (s s' : State)
      → IsConsistent env db s
      → check env db check_all should_commit fuel id s ≡ ok s'
      → IsConsistent env db s'
  unfolding check
  check_keeps check_all should_commit fuel id s s' c h =
      let (tx, h₁, h₂) = >>=-eq-ok (ok_or (begin s) database) _ h in
      let (checkpoint, h₃, h₄) = >>=-eq-ok (ok_or (begin tx) database) _ h₂ in
      let (e, h₅, h₆) = >>=-eq-ok (read_found db checkpoint id) _ h₄ in
      let (tx₁, h₇, h₈) = >>=-eq-ok (ok_or (save checkpoint) database) _ h₆ in
      let ready =
        saved-IsConsistent env db checkpoint tx₁
          (opened-IsConsistent env db tx checkpoint (opened-IsConsistent env db s tx c h₁) h₃) h₇ in
      decide tx₁ e ready (started e.status.main) h₈
    where
      committed :
          (tx : State) (health : Health) (commit : Bool)
          → IsConsistent env db tx
          → (if commit then commit_health env db fuel id health tx else ok s) ≡ ok s'
          → IsConsistent env db s'
      committed tx health true ready q = commit_health-IsConsistent fuel id health tx s' ready q
      committed tx health false ready q = subst (IsConsistent env db) (ok-injective s s' q) c

      decide :
          (tx : State) (e : Installed env)
          → IsConsistent env db tx
          → (since : Option ℕ)
          → (elim since as (λ _. Result Failure State) [
            | none ↦ ok s
            | some since ↦ ok_or (check_all id e.manifest since) procedure >>= λ health.
                if should_commit then commit_health env db fuel id health tx else ok s
          ])
            ≡ ok s'
          → IsConsistent env db s'
      decide tx e ready none q = subst (IsConsistent env db) (ok-injective s s' q) c
      decide tx e ready (some since) q =
          let (health, q₁, q₂) = >>=-eq-ok (ok_or (check_all id e.manifest since) procedure) _ q in
          committed tx health should_commit ready q₂

  -- If every package with an error has passed it on to its dependents, so it is after a successful
  -- health check, whatever its results are. The service is installed; if its results are committed and
  -- it runs, they are in its status afterwards, with the time since which it runs as before; nothing
  -- else has changed but the errors of packages on their dependencies.
  pub check-IsConsistent :
      (check_all : CheckAll env db) (should_commit : Bool) (fuel : ℕ) (id : PackageId)
      (s s' : State)
      → IsConsistent env db s
      → check env db check_all should_commit fuel id s ≡ ok s'
      → IsConsistent env db s'
        × ((e : Installed env) × (db.get s id ≡ some (some e))
            × Holds env db id (checked_as env db check_all should_commit id e) s s')
  check-IsConsistent check_all should_commit fuel id s s' c h = (
    check_keeps check_all should_commit fuel id s s' c h,
    check-Holds env db check_all should_commit fuel id s s' h,
  )
