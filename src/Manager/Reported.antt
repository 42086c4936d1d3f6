-- ===== src/Manager/Reported.antt =====
-- What a health check that fails leaves on the dependents that ask for it
-- (backend/src/manager/health.rs).
use start_os.Common.{
  ℕ, ◌≡◌, refl, ap, ◌∙◌, true, none, some, arith, if◌then◌else◌, ◌==◌, ==_iff, Result, ok, ◌>>=◌,
  ok_or, >>=-eq-ok, Bool-cases, inl, inr,
}
use mathlib.Core.Path.{subst}
use start_os.Common.Map.{nat_key, lookup, contains}
use start_os.Status.{PackageId, HealthCheckId, Health, DateTime, MainStatus, running_since, started}
use start_os.Dependencies.Store.{
  Env, DependencyUse, Installed, PatchDb, Failure, database, procedure, read_found,
}
use start_os.Dependencies.Heal.{requires}
use start_os.Dependencies.Heal.Refuses.{is_direct, has_failed}
use start_os.Dependencies.Break.Recorded.{errors_in}
use start_os.Dependencies.SameButErrors.{but_errors, Holds}
use start_os.Manager.DirectErrors.{has_direct_error, entry_as}
use start_os.Manager.Updates.{update_dependents-Reported}
use start_os.Manager.Recorded.{with_results, record_health-Holds}
use start_os.Manager.Health.{
  CheckAll, with_main, update_dependents, record_health, commit_health, check,
}

module _ (env : Env) (db : PatchDb env) where
  open db use {State, get}

  -- The service `id` of `s` runs, its dependent `d` requires a check, and both say so.
  pub record IsAskedFor (s : State) (id d : PackageId) (check_id : HealthCheckId) (t : DateTime)
      (e : Installed env) : Type 0 where
    pub old : Health
    pub service : get s id ≡ some (some e)
    pub runs : e.status.main ≡ running_since t old
    pub info : DependencyUse env
    pub listed : lookup d e.current_dependents ≡ some info
    pub wanted : contains check_id info.health_checks ≡ true
    pub entry : Installed env
    pub dependent : get s d ≡ some (some entry)
    pub asked : requires env db entry id check_id ≡ true

  module _ (id d : PackageId) (health : Health) (check_id : HealthCheckId) (t : DateTime)
      (e : Installed env) (failed : has_failed check_id health ≡ true) where
    -- What packages use stays as it was when the results are recorded.
    uses_kept :
        (tx tx₁ : State) (main : MainStatus) (j : PackageId) (g : Installed env)
        → Holds env db id (with_main env db e main) tx tx₁
        → get tx id ≡ some (some e)
        → get tx j ≡ some (some g)
        → (g' : Installed env) × (get tx₁ j ≡ some (some g'))
          × (g'.current_dependencies ≡ g.current_dependencies)
    uses_kept tx tx₁ main j g held service here = elim (Bool-cases (j == id)) [
      | inl self ↦
          let now : but_errors (get tx₁ j) ≡ but_errors (some (some (with_main env db e main))) =
            held j ∙ rw self refl in
          let (g', here', _, uses) = entry_as env db (get tx₁ j) (with_main env db e main) now in
          let same : e ≡ g = ground (arith, ==_iff j id) in
          (g', here', uses ∙ ap (λ x. x.current_dependencies) same)
      | inr other ↦
          let now : but_errors (get tx₁ j) ≡ but_errors (some (some g)) =
            held j ∙ rw (other, here) refl in
          let (g', here', _, uses) = entry_as env db (get tx₁ j) g now in (g', here', uses)
    ]

    commit_health_reports :
        (fuel : ℕ) (tx s' : State)
        → IsAskedFor tx id d check_id t e
        → commit_health env db fuel id health tx ≡ ok s'
        → has_direct_error env db s' d id ≡ true
    unfolding commit_health
    commit_health_reports fuel tx s' q h =
        let ((tx₁, l), h₁, h₂) = >>=-eq-ok (record_health env db id health tx) _ h in
        let (tx₂, h₃, h₄) = >>=-eq-ok (update_dependents env db fuel id health l tx₁) _ h₂ in
        let (held, dependents) = record_health-Holds env db id health tx tx₁ e l q.service h₁ in
        let main = running_since t health in
        let new = with_main env db e main in
        let results : with_results env db e health ≡ new = rw q.runs refl in
        let set = subst (λ x. Holds env db id x tx tx₁) results held in
        let now : but_errors (get tx₁ id) ≡ but_errors (some (some new)) =
          set id ∙ rw ((==_iff id id).1 refl) refl in
        let (e', service, runs, _) = entry_as env db (get tx₁ id) new now in
        let (f, dependent, uses) = uses_kept tx tx₁ main d q.entry set q.service q.dependent in
        let asked : requires env db f id check_id ≡ true = rw (requires, uses) q.asked in
        let listed : lookup d l ≡ some q.info = rw dependents q.listed in
        let reported =
          update_dependents-Reported env db tx₁ id d e' f service dependent t health runs check_id
            asked failed fuel q.info l tx₁ tx₂ listed q.wanted (λ j. refl) h₃ in
        ap (λ x. is_direct (lookup id (errors_in x))) (db.get-save tx₂ s' d (ground arith))
        ∙ reported

    -- Where a service runs, a check of its health whose results are committed leaves on each dependent
    -- that requires a check that has not succeeded an error that is the service's own. Service and
    -- dependent both say that the check is required.
    pub check_reports :
        (check_all : CheckAll env db) (fuel : ℕ) (s s' : State)
        → IsAskedFor s id d check_id t e
        → check_all id e.manifest t ≡ some health
        → check env db check_all true fuel id s ≡ ok s'
        → has_direct_error env db s' d id ≡ true
    unfolding check started
    check_reports check_all fuel s s' q answer h =
        let (tx, h₁, h₂) = >>=-eq-ok (ok_or (db.begin s) database) _ h in
        let (checkpoint, h₃, h₄) = >>=-eq-ok (ok_or (db.begin tx) database) _ h₂ in
        let (e', h₅, h₆) = >>=-eq-ok (read_found db checkpoint id) _ h₄ in
        let (tx₁, h₇, h₈) = >>=-eq-ok (ok_or (db.save checkpoint) database) _ h₆ in
        let before = λ (j : PackageId).
          db.get-begin tx checkpoint j (ground arith) ∙ db.get-begin s tx j (ground arith) in
        let same = λ (j : PackageId). db.get-save checkpoint tx₁ j (ground arith) ∙ before j in
        let here : get checkpoint id ≡ some (some e) = before id ∙ q.service in
        let same_entry : e' ≡ e = ground arith in
        commit_health_reports fuel tx₁ s'
          (record {
            old = q.old;
            service = same id ∙ q.service;
            runs = q.runs;
            info = q.info;
            listed = q.listed;
            wanted = q.wanted;
            entry = q.entry;
            dependent = same d ∙ q.dependent;
            asked = q.asked;
          })
          (committed tx₁ e' same_entry h₈)
      where
        committed :
            (tx : State) (e' : Installed env)
            → e' ≡ e
            → (elim (started e'.status.main) as (λ _. Result Failure State) [
              | none ↦ ok s
              | some since ↦ ok_or (check_all id e'.manifest since) procedure >>= λ found.
                  if true then commit_health env db fuel id found tx else ok s
            ])
              ≡ ok s'
            → commit_health env db fuel id health tx ≡ ok s'
        committed tx e' same_entry result =
            let runs : e'.status.main ≡ running_since t q.old =
              ap (λ x. x.status.main) same_entry ∙ q.runs in
            let found : check_all id e'.manifest t ≡ some health =
              ap (λ x. check_all id x.manifest t) same_entry ∙ answer in
            rw (runs, found) at result
