-- ===== src/Manager/Samples.antt =====
-- A health check of a service whose dependents ask for a check that fails.
use start_os.Common.{◌≡◌, refl, true, some, [], ◌∷◌, Result, ok}
use start_os.Status.{failure, success, started}
use start_os.Dependencies.Errors.{cmp_priority}
use start_os.Dependencies.Store.{Failure, Installed}
use start_os.Dependencies.Samples.{
  env, db, Packages, packages, IsConsistent-packages, healed_of, installed_package,
}
use start_os.Dependencies.Break.{
  break_transitive, break_step, record_error, break_all_dependents, for_dependents,
}
use start_os.Dependencies.Break.Visits.{IsConsistent}
use start_os.Manager.Health.{
  CheckAll, check, commit_health, record_health, update_dependents, update_dependent,
}
use start_os.Dependencies.SameButErrors.{Holds}
use start_os.Manager.DirectErrors.{has_direct_error}
use start_os.Manager.Reported.{IsAskedFor, check_reports}
use start_os.Manager.Recorded.{checked_as}
use start_os.Manager.Consistent.{check-IsConsistent}

abbrev failing : CheckAll env db
failing id manifest since = some ((5, failure []) ∷ [])

checked : Result Failure Packages
checked = check env db failing true 11 2 packages

checked-ok : checked ≡ ok (healed_of checked)
unfolding checked healed_of check commit_health record_health update_dependents update_dependent
    started break_transitive break_step record_error break_all_dependents for_dependents
    cmp_priority
checked-ok = refl

check-IsConsistent_example :
    IsConsistent env db (healed_of checked)
    × ((e : Installed env) × (db.get packages 2 ≡ some (some e))
        × Holds env db 2 (checked_as env db failing true 2 e) packages (healed_of checked))
unfolding checked
check-IsConsistent_example =
    check-IsConsistent env db failing true 11 2 packages (healed_of checked) IsConsistent-packages
      checked-ok

abbrev service : Installed env
service = installed_package 2 (1 ∷ 3 ∷ []) (3 ∷ [])

abbrev dependent : Installed env
dependent = installed_package 1 [] (2 ∷ [])

service-IsAskedFor : IsAskedFor env db packages 2 1 5 1000 service
service-IsAskedFor = record {
  old = (5, success) ∷ (6, failure []) ∷ [];
  service = refl;
  runs = refl;
  info = record { health_checks = 5 ∷ [] };
  listed = refl;
  wanted = refl;
  entry = dependent;
  dependent = refl;
  asked = refl;
}

check_reports_example : has_direct_error env db (healed_of checked) 1 2 ≡ true
unfolding checked
check_reports_example =
    check_reports env db 2 1 ((5, failure []) ∷ []) 5 1000 service refl failing 11 packages
      (healed_of checked) service-IsAskedFor refl checked-ok
