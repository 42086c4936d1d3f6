-- ===== src/Dependencies/Errors.antt =====
-- `DependencyError` of backend/src/dependencies.rs: its constructors, priorities and merging. The
-- types of versions and of version ranges are those of the crate `emver`, a parameter.
pub mod Laws
use Prim.Native.Nat.{Ordering}
use start_os.Common.{ℕ, Bool, Option, none, some, List, [], ◌∷◌, ◌++◌}
use start_os.Common.Map.{Map, insert, nat_key}
use start_os.Status.{PackageId, HealthCheckId, HealthCheckResult, Health, Text}

pub data DependencyError (Range Version : Type 0) : Type 0 where
  not_installed : DependencyError Range Version
  incorrect_version : (expected : Range) (received : Version) → DependencyError Range Version
  config_unsatisfied : (error : Text) → DependencyError Range Version
  not_running : DependencyError Range Version
  health_checks_failed : (failures : Health) → DependencyError Range Version
  transitive : DependencyError Range Version

-- `collect` into a `BTreeMap`: what comes later replaces what came before
unfoldable pub collect_into : Health → Health → Health
collect_into acc [] = acc
collect_into acc ((k, v) ∷ rest) = collect_into (insert k v acc) rest

-- "\n"
abbrev pub newline : Text
newline = 10 ∷ []

module _ {Range Version : Type 0} where
  unfoldable pub cmp_priority :
      DependencyError Range Version → DependencyError Range Version → Ordering
  cmp_priority not_installed not_installed = Ordering.eq
  cmp_priority not_installed _ = Ordering.gt
  cmp_priority _ not_installed = Ordering.lt
  cmp_priority (incorrect_version _ _) (incorrect_version _ _) = Ordering.eq
  cmp_priority (incorrect_version _ _) _ = Ordering.gt
  cmp_priority _ (incorrect_version _ _) = Ordering.lt
  cmp_priority (config_unsatisfied _) (config_unsatisfied _) = Ordering.eq
  cmp_priority (config_unsatisfied _) _ = Ordering.gt
  cmp_priority _ (config_unsatisfied _) = Ordering.lt
  cmp_priority not_running not_running = Ordering.eq
  cmp_priority not_running _ = Ordering.gt
  cmp_priority _ not_running = Ordering.lt
  cmp_priority (health_checks_failed _) (health_checks_failed _) = Ordering.eq
  cmp_priority (health_checks_failed _) _ = Ordering.gt
  cmp_priority _ (health_checks_failed _) = Ordering.lt
  cmp_priority transitive transitive = Ordering.eq

  unfoldable pub merge_with :
      DependencyError Range Version → DependencyError Range Version → DependencyError Range Version
  merge_with not_installed _ = not_installed
  merge_with _ not_installed = not_installed
  merge_with (incorrect_version e r) _ = incorrect_version e r
  merge_with _ (incorrect_version e r) = incorrect_version e r
  merge_with (config_unsatisfied e₀) (config_unsatisfied e₁) =
      config_unsatisfied ((e₀ ++ newline) ++ e₁)
  merge_with (config_unsatisfied e) _ = config_unsatisfied e
  merge_with _ (config_unsatisfied e) = config_unsatisfied e
  merge_with not_running _ = not_running
  merge_with _ not_running = not_running
  merge_with (health_checks_failed f₀) (health_checks_failed f₁) =
      health_checks_failed (collect_into [] (f₀ ++ f₁))
  merge_with (health_checks_failed f) _ = health_checks_failed f
  merge_with _ (health_checks_failed f) = health_checks_failed f
  merge_with transitive _ = transitive
