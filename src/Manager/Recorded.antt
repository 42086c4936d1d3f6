-- ===== src/Manager/Recorded.antt =====
-- What a health check writes (backend/src/manager/health.rs): the status of the service, and the errors
-- of its dependents.
use start_os.Common.{
  ok-injective, ℕ, ◌≡◌, refl, sym, ap, ◌∙◌, Bool, true, false, Option, none, some, arith,
  if◌then◌else◌, ◌==◌, Result, ok, ◌>>=◌, ok_or, >>=-eq-ok,
}
use start_os.Common.Map.{Map, nat_key}
use start_os.Status.{
  PackageId, Health, MainStatus, running_since, stopped, restarting, stopping, starting_up,
  backing_up, started, DateTime,
}
use start_os.Dependencies.Store.{
  Env, DependencyUse, Installed, PatchDb, Failure, database, procedure, read_found, write,
}
use start_os.Dependencies.SameButErrors.{
  record_error-SameButErrors, heal_error-SameButErrors, but_errors, Holds, Holds-SameButErrors,
  SameButErrors, SameButErrors-trans, save-SameButErrors,
}
use start_os.Manager.Preserved.{update_dependents_preserves}
use start_os.Manager.Health.{
  CheckAll, with_main, update_dependents, record_health, commit_health, check,
}

module _ (env : Env) (db : PatchDb env) where
  open db use {State, get, begin, save}

  update_dependents-SameButErrors :
      (fuel : ℕ) (id : PackageId) (health : Health) (l : Map PackageId (DependencyUse env))
      (s s' : State)
      → update_dependents env db fuel id health l s ≡ ok s'
      → SameButErrors env db s s'
  update_dependents-SameButErrors fuel id health l s s' h =
      update_dependents_preserves env db (SameButErrors env db s)
        (λ i d x t t' nb e same.
          SameButErrors-trans env db s t t' same
            (record_error-SameButErrors env db i d x t t' nb e))
        (λ i d t t' healed e same.
          SameButErrors-trans env db s t t' same
            (heal_error-SameButErrors env db i d t t' healed e))
        fuel id health l s s' h (λ j. refl)

  -- the entry of a service with the results of its checks: they replace those of one that runs
  abbrev recorded_as : MainStatus → Installed env → Health → Installed env
  recorded_as (running_since t old) e health = with_main env db e (running_since t health)
  recorded_as _ e health = e

  abbrev pub with_results : Installed env → Health → Installed env
  with_results e health = recorded_as (e.status.main) e health

  -- the second checkpoint
  pub record_health-Holds :
      (id : PackageId) (health : Health) (tx tx' : State) (e : Installed env)
      (l : Map PackageId (DependencyUse env))
      → get tx id ≡ some (some e)
      → record_health env db id health tx ≡ ok (tx', l)
      → Holds env db id (with_results e health) tx tx' × (l ≡ e.current_dependents)
  unfolding record_health
  record_health-Holds id health tx tx' e l found h =
      let (checkpoint, h₁, h₂) = >>=-eq-ok (ok_or (begin tx) database) _ h in
      let (e', h₃, h₄) = >>=-eq-ok (read_found db checkpoint id) _ h₂ in
      let (written, h₅, h₆) =
        >>=-eq-ok
          (elim e'.status.main as (λ _. Result Failure State) [
            | running_since t old ↦
                write db checkpoint id (with_main env db e' (running_since t health))
            | _ ↦ ok checkpoint
          ])
          _ h₄ in
      let (tx₁, h₇, h₈) = >>=-eq-ok (ok_or (save written) database) _ h₆ in
      let saved : save written ≡ some tx' = ground arith in
      let opened : begin tx ≡ some checkpoint = ground arith in
      let here : get checkpoint id ≡ some (some e) = db.get-begin tx checkpoint id opened ∙ found in
      let same : e' ≡ e = ground arith in
      let wrote = written_as checkpoint e' written (ground arith) e'.status.main h₅ in
      let after = λ (j : PackageId).
        db.get-save written tx' j saved
        ∙ wrote j
        ∙ ap (λ x. if j == id then some (some (with_results x health)) else get checkpoint j) same
        ∙ ap (λ x. if j == id then some (some (with_results e health)) else x)
            (db.get-begin tx checkpoint j opened) in
      let listed : e'.current_dependents ≡ l = ground arith in
      (λ j. ap but_errors (after j), sym listed ∙ ap (λ x. x.current_dependents) same)
    where
      written_as :
          (checkpoint : State) (e : Installed env) (written : State)
          → get checkpoint id ≡ some (some e)
          → (main : MainStatus)
          → (elim main as (λ _. Result Failure State) [
            | running_since t old ↦
                write db checkpoint id (with_main env db e (running_since t health))
            | _ ↦ ok checkpoint
          ])
            ≡ ok written
          → (j : PackageId)
          → get written j
            ≡ (if j == id then some (some (recorded_as main e health)) else get checkpoint j)
      written_as checkpoint e written found (running_since t old) q j =
          db.get-put checkpoint written id j (with_main env db e (running_since t health))
            (ground arith)
      written_as checkpoint e written found stopped q j = ground (arith, found)
      written_as checkpoint e written found restarting q j = ground (arith, found)
      written_as checkpoint e written found stopping q j = ground (arith, found)
      written_as checkpoint e written found (starting_up b) q j = ground (arith, found)
      written_as checkpoint e written found (backing_up t old) q j = ground (arith, found)

  commit_health-Holds :
      (fuel : ℕ) (id : PackageId) (health : Health) (tx s' : State) (e : Installed env)
      → get tx id ≡ some (some e)
      → commit_health env db fuel id health tx ≡ ok s'
      → Holds env db id (with_results e health) tx s'
  unfolding commit_health
  commit_health-Holds fuel id health tx s' e found h =
      let ((tx₁, l), h₁, h₂) = >>=-eq-ok (record_health env db id health tx) _ h in
      let (tx₂, h₃, h₄) = >>=-eq-ok (update_dependents env db fuel id health l tx₁) _ h₂ in
      Holds-SameButErrors env db id (with_results e health) tx tx₁ s'
        (record_health-Holds id health tx tx₁ e l found h₁).0
        (SameButErrors-trans env db tx₁ tx₂ s'
          (update_dependents-SameButErrors fuel id health l tx₁ tx₂ h₃)
          (save-SameButErrors env db tx₂ s' h₄))

  -- what a check makes of the entry of its service: by the answer of the checks, by the time since
  -- which the service runs, and by the flag
  abbrev answered_as : Option Health → Installed env → Installed env
  answered_as none e = e
  answered_as (some health) e = with_results e health

  abbrev run_as : CheckAll env db → PackageId → Option DateTime → Installed env → Installed env
  run_as check_all id none e = e
  run_as check_all id (some since) e = answered_as (check_all id e.manifest since) e

  abbrev pub checked_as : CheckAll env db → Bool → PackageId → Installed env → Installed env
  checked_as check_all should_commit id e =
      if should_commit then run_as check_all id (started e.status.main) e else e

  module _ (check_all : CheckAll env db) (fuel : ℕ) (id : PackageId) (s tx s' : State)
      (e : Installed env) (found : get s id ≡ some (some e))
      (same : (j : PackageId) → get tx j ≡ get s j) where
    unchanged : s ≡ s' → Holds env db id e s s'
    unchanged kept j = ground (arith, found, kept)

    answered-Holds :
        (commit : Bool) (answer : Option Health) (since : DateTime)
        → check_all id e.manifest since ≡ answer
        → (ok_or answer procedure >>= λ health.
            if commit then commit_health env db fuel id health tx else ok s)
          ≡ ok s'
        → Holds env db id (if commit then answered_as answer e else e) s s'
    answered-Holds commit none since asked h = absurd (ground arith)
    answered-Holds false (some health) since asked h = unchanged (ok-injective s s' h)
    answered-Holds true (some health) since asked h = λ j.
        commit_health-Holds fuel id health tx s' e (same id ∙ found) h j
        ∙ ap (λ x. but_errors (if j == id then some (some (with_results e health)) else x)) (same j)

    run-Holds :
        (commit : Bool) (since : Option DateTime)
        → (elim since as (λ _. Result Failure State) [
          | none ↦ ok s
          | some since ↦ ok_or (check_all id e.manifest since) procedure >>= λ health.
              if commit then commit_health env db fuel id health tx else ok s
        ])
          ≡ ok s'
        → Holds env db id (if commit then run_as check_all id since e else e) s s'
    run-Holds true none h = unchanged (ok-injective s s' h)
    run-Holds false none h = unchanged (ok-injective s s' h)
    run-Holds true (some since) h = answered-Holds true (check_all id e.manifest since) since refl h
    run-Holds false (some since) h =
        answered-Holds false (check_all id e.manifest since) since refl h

  -- A health check that succeeds was one of an installed service. If its results are committed and it
  -- runs, they are in its status afterwards, with the time since which it runs as before; nothing else
  -- has changed in the database but the errors of packages on their dependencies.
  pub check-Holds :
      (check_all : CheckAll env db) (should_commit : Bool) (fuel : ℕ) (id : PackageId)
      (s s' : State)
      → check env db check_all should_commit fuel id s ≡ ok s'
      → (e : Installed env) × (get s id ≡ some (some e))
        × Holds env db id (checked_as check_all should_commit id e) s s'
  unfolding check
  check-Holds check_all should_commit fuel id s s' h =
      let (tx, h₁, h₂) = >>=-eq-ok (ok_or (begin s) database) _ h in
      let (checkpoint, h₃, h₄) = >>=-eq-ok (ok_or (begin tx) database) _ h₂ in
      let (e, h₅, h₆) = >>=-eq-ok (read_found db checkpoint id) _ h₄ in
      let (tx₁, h₇, h₈) = >>=-eq-ok (ok_or (save checkpoint) database) _ h₆ in
      let before = λ (j : PackageId).
        db.get-begin tx checkpoint j (ground arith) ∙ db.get-begin s tx j (ground arith) in
      let same = λ (j : PackageId). db.get-save checkpoint tx₁ j (ground arith) ∙ before j in
      let found : get s id ≡ some (some e) = sym (before id) ∙ ground arith in
      (
        e,
        found,
        run-Holds check_all fuel id s tx₁ s' e found same should_commit (started e.status.main) h₈,
      )
