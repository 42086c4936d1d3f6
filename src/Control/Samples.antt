-- ===== src/Control/Samples.antt =====
-- The packages of `Dependencies/Samples.antt`, of which one is stopped, started and restarted.
use start_os.Common.{◌≡◌, refl, true, false, [], ◌==◌, Result, ok, err}
use start_os.Common.Map.{nat_key, contains}
use start_os.Status.{PackageId, MainStatus, restarting, stopping, starting_up}
use start_os.Dependencies.Errors.{cmp_priority}
use start_os.Dependencies.Store.{Failure}
use start_os.Dependencies.Samples.{env, db, Packages, packages, IsConsistent-packages, healed_of}
use start_os.Dependencies.Break.{
  break_all_dependents_transitive, break_transitive, break_step, record_error, break_all_dependents,
  for_dependents,
}
use start_os.Dependencies.Break.Recorded.{dependents}
use start_os.Dependencies.Break.Visits.{has_error, IsConsistent}
use start_os.Dependencies.HealAll.{
  heal_all_dependents_transitive, heal_transitive, heal_step, heal_error, heal_all_dependents,
  heal_dependents,
}
use start_os.Control.{Refusal, start_in, set_stopping, stop_common, stop_impl, restart}
use start_os.Control.Recorded.{IsAt}
use start_os.Control.Consistent.{stop_impl-IsConsistent, start_in-IsConsistent}

stopped_result : Result Failure (Packages × MainStatus)
stopped_result = stop_impl env db 11 2 packages

abbrev outcome : Result Failure (Packages × MainStatus) → Packages × MainStatus
outcome (ok r) = r
outcome (err e) = ([], restarting)

stopped_result-ok : stopped_result ≡ ok ((outcome stopped_result).0, (outcome stopped_result).1)
unfolding stopped_result stop_impl stop_common set_stopping break_all_dependents_transitive
    break_transitive break_step record_error break_all_dependents for_dependents cmp_priority
stopped_result-ok = refl

stop_impl-IsConsistent_example :
    let s' = (outcome stopped_result).0 in
    IsConsistent env db s'
    × ((d : PackageId)
        → contains d (dependents env db packages 2) ≡ true
        → (2 == d) ≡ false
        → has_error env db s' d 2 ≡ true)
    × ((j d : PackageId) → has_error env db packages j d ≡ true → has_error env db s' j d ≡ true)
    × IsAt env db 2 (outcome stopped_result).1 stopping packages s'
unfolding stopped_result
stop_impl-IsConsistent_example =
    stop_impl-IsConsistent env db 11 2 packages (outcome stopped_result).0
      (outcome stopped_result).1 IsConsistent-packages stopped_result-ok

started_result : Result Failure Packages
started_result = start_in env db 11 2 packages

started_result-ok : started_result ≡ ok (healed_of started_result)
unfolding started_result healed_of start_in heal_all_dependents_transitive heal_all_dependents
    heal_dependents heal_transitive heal_step heal_error
started_result-ok = refl

start_in-IsConsistent_example :
    let s' = healed_of started_result in
    IsConsistent env db s'
    × ((j d : PackageId) → has_error env db s' j d ≡ true → has_error env db packages j d ≡ true)
    × ((j d : PackageId)
        → has_error env db packages j d ≡ true
        → has_error env db s' j d ≡ false
        → (q : PackageId) → has_error env db s' d q ≡ false)
    × ((old : MainStatus) × IsAt env db 2 old (starting_up false) packages s')
unfolding started_result
start_in-IsConsistent_example =
    start_in-IsConsistent env db 11 2 packages (healed_of started_result) IsConsistent-packages
      started_result-ok

abbrev restarted : Result (Refusal Packages) Packages → Packages
restarted (ok s) = s
restarted (err e) = []

restart-ok : restart env db 2 packages ≡ ok (restarted (restart env db 2 packages))
unfolding restart
restart-ok = refl
