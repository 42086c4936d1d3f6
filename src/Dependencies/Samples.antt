-- ===== src/Dependencies/Samples.antt =====
-- Three packages on which the theorems about dependencies are run: 1 needs 2, and 2 and 3 need each
-- other.
use start_os.Common.{
  ℕ, ◌≡◌, ◌≢◌, refl, sym, ◌∙◌, true, false, none, some, List, [], ◌∷◌, if◌then◌else◌, ◌==◌, arith,
  leb, Result, ok, err,
}
use start_os.Common.Map.{Map, nat_key, lookup, insert, lookup-insert}
use start_os.Status.{PackageId, success, failure, running_since, running}
use start_os.Dependencies.Errors.{not_running, cmp_priority}
use mathlib.Core.Bool.{false≢true}
use start_os.Dependencies.Store.{
  Env, DepInfo, DependencyUse, Installed, PatchDb, Failure, out_of_fuel, required,
}
use start_os.Dependencies.Heal.{
  satisfied, try_heal, heal_not_installed, heal_version, heal_config, dependency_config,
  heal_not_running, heal_health_checks, heal_main, heal_health, failing_checks,
  heal_dependency_errors,
}
use start_os.Dependencies.Heal.Sound.{IsSatisfied, satisfied-IsSatisfied}
use start_os.Dependencies.Break.{
  break_transitive, break_step, record_error, break_all_dependents, for_dependents, Breakages,
}
use start_os.Dependencies.Break.Ends.{Slot, Covers, break_transitive-fuel}
use start_os.Dependencies.HealAll.{
  heal_transitive, heal_step, heal_error, retry_error, heal_all_dependents, heal_dependents,
}
use start_os.Dependencies.HealAll.Ends.{CoversErrors, heal_transitive-fuel}
use start_os.Dependencies.HealAll.Keeps.{heal_transitive-IsConsistent}
use start_os.Dependencies.Break.Visits.{IsConsistent, has_error}
use start_os.Dependencies.Break.Spreads.{break_transitive-IsConsistent}

-- a range is the lowest version in it; every configuration is accepted
abbrev pub env : Env
env = record {
  Version = ℕ;
  VersionRange = ℕ;
  Config = ℕ;
  ConfigActions = Unit;
  DependencyConfig = Unit;
  satisfies = λ v r. leb r v;
  default_version = 0;
  default_config = 0;
  get_config = λ _ _ _. some (some 7);
  check = λ _ _ _ _. some none;
}

abbrev pub Packages : Type 0
Packages = Map PackageId (Installed env)

pub get-put :
    (s s' : Packages) (i j : PackageId) (e : Installed env)
    → some (insert i e s) ≡ some s'
    → some (lookup j s') ≡ (if j == i then some (some e) else some (lookup j s))
get-put s s' i j e h = ground (arith, lookup-insert j i e s)

pub get_same :
    (s s' : Packages) (j : PackageId) → some s ≡ some s' → some (lookup j s') ≡ some (lookup j s)
get_same s s' j h = ground arith

-- a database in memory, in which nothing fails
abbrev pub db : PatchDb env
db = record {
  State = Packages;
  get = λ s j. some (lookup j s);
  put = λ s i e. some (insert i e s);
  begin = some;
  save = some;
  get-begin = get_same;
  get-save = get_same;
  get-put = get-put;
}

abbrev uses : List PackageId → Map PackageId (DependencyUse env)
uses [] = []
uses (k ∷ ks) = (k, record { health_checks = 5 ∷ [] }) ∷ uses ks

abbrev pub installed_package : PackageId → List PackageId → List PackageId → Installed env
installed_package id dependents dependencies = record {
  status = record {
    configured = true;
    main = running_since 1000 ((5, success) ∷ (6, failure []) ∷ []);
    dependency_errors = [];
  };
  manifest = record { id = id; version = 3; config = some tt; dependencies = [] };
  current_dependents = uses dependents;
  current_dependencies = uses dependencies;
}

abbrev pub packages : Packages
packages =
    (1, installed_package 1 [] (2 ∷ []))
    ∷ (2, installed_package 2 (1 ∷ 3 ∷ []) (3 ∷ []))
    ∷ (3, installed_package 3 (2 ∷ []) (2 ∷ []))
    ∷ []

abbrev info : DepInfo env
info = record { version = 2; requirement = required; config = some tt }

satisfied-packages : satisfied env db packages 1 2 info none ≡ ok none
unfolding satisfied try_heal heal_not_installed heal_version heal_config dependency_config
    heal_not_running heal_health_checks heal_main heal_health failing_checks heal_dependency_errors
    running
satisfied-packages = refl

satisfied-IsSatisfied_example : IsSatisfied env db packages 1 2 info none
satisfied-IsSatisfied_example =
    satisfied-IsSatisfied env db packages 1 2 info none satisfied-packages

-- every pair of the three packages
abbrev slots : List Slot
slots = (1, 1) ∷ (1, 2) ∷ (1, 3) ∷ (2, 1) ∷ (2, 2) ∷ (2, 3) ∷ (3, 1) ∷ (3, 2) ∷ (3, 3) ∷ []

Covers-packages : Covers env db slots packages
Covers-packages j d hj hd = ground arith

break_transitive-fuel_example :
    break_transitive env db 11 1 2 not_running packages [] ≢ err out_of_fuel
break_transitive-fuel_example =
    break_transitive-fuel env db slots 11 1 2 not_running packages [] Covers-packages (omega arith)

no_error-packages : (p q : PackageId) → has_error env db packages p q ≡ false
no_error-packages p q = ground arith

pub IsConsistent-packages : IsConsistent env db packages
IsConsistent-packages p q h = absurd (false≢true (sym (no_error-packages p q) ∙ h))

-- Package 3, on which package 2 depends, has stopped.
broken : Result Failure (Packages × Breakages env db)
broken = break_transitive env db 11 2 3 not_running packages []

state_of : Result Failure (Packages × Breakages env db) → Packages × Breakages env db
state_of (ok s) = s
state_of (err e) = ([], [])

broken-ok : broken ≡ ok ((state_of broken).0, (state_of broken).1)
unfolding broken state_of break_transitive break_step record_error break_all_dependents
    for_dependents cmp_priority
broken-ok = refl

break_transitive-IsConsistent_example :
    let s' = (state_of broken).0 in
    IsConsistent env db s'
    × (has_error env db s' 2 3 ≡ true)
    × ((j d : PackageId) → has_error env db packages j d ≡ true → has_error env db s' j d ≡ true)
unfolding broken
break_transitive-IsConsistent_example =
    break_transitive-IsConsistent env db 11 2 3 not_running packages (state_of broken).0 []
      (state_of broken).1 IsConsistent-packages broken-ok

-- Package 1 has an error on package 2, which is well again.
abbrev ailing : Packages
ailing =
    (1, installed_ailing)
    ∷ (2, installed_package 2 (1 ∷ 3 ∷ []) (3 ∷ []))
    ∷ (3, installed_package 3 (2 ∷ []) (2 ∷ []))
    ∷ []
  where
    installed_ailing : Installed env
    installed_ailing = record {
      status = record {
        configured = true;
        main = running_since 1000 [];
        dependency_errors = (2, not_running) ∷ [];
      };
      manifest = record { id = 1; version = 3; config = none; dependencies = (2, info) ∷ [] };
      current_dependents = [];
      current_dependencies = uses (2 ∷ []);
    }

CoversErrors-ailing : CoversErrors env db slots ailing
CoversErrors-ailing j d h = ground arith

heal_transitive-fuel_example : heal_transitive env db 10 1 2 ailing ≢ err out_of_fuel
heal_transitive-fuel_example =
    heal_transitive-fuel env db slots 10 1 2 ailing CoversErrors-ailing (omega arith)

IsConsistent-ailing : IsConsistent env db ailing
IsConsistent-ailing p q h d m ne = ground arith

unfoldable pub healed_of : Result Failure Packages → Packages
healed_of (ok s) = s
healed_of (err e) = []

healed : Result Failure Packages
healed = heal_transitive env db 10 1 2 ailing

healed-ok : healed ≡ ok (healed_of healed)
unfolding healed healed_of heal_transitive heal_step heal_error retry_error heal_all_dependents
    heal_dependents try_heal heal_not_running heal_health_checks heal_main heal_health
    failing_checks heal_dependency_errors running
healed-ok = refl

heal_transitive-IsConsistent_example :
    let s' = healed_of healed in
    IsConsistent env db s'
    × ((j d : PackageId) → has_error env db s' j d ≡ true → has_error env db ailing j d ≡ true)
    × ((j d : PackageId)
        → has_error env db ailing j d ≡ true
        → has_error env db s' j d ≡ false
        → (q : PackageId) → has_error env db s' d q ≡ false)
unfolding healed
heal_transitive-IsConsistent_example =
    heal_transitive-IsConsistent env db 10 1 2 ailing (healed_of healed) IsConsistent-ailing
      healed-ok
