-- ===== src/Dependencies/Errors/Laws.antt =====
-- Priorities and merging of dependency errors (backend/src/dependencies.rs).
use Prim.Native.Nat.{compare, max}
use start_os.Common.{ℕ, ◌<◌, ◌≡◌, arith}
use start_os.Dependencies.Errors.{
  DependencyError, not_installed, incorrect_version, config_unsatisfied, not_running,
  health_checks_failed, transitive, cmp_priority, merge_with,
}

module _ {Range Version : Type 0} where
  -- the place of an error in the chain of checks: the earlier the check, the higher
  abbrev pub rank : DependencyError Range Version → ℕ
  rank not_installed = 5
  rank (incorrect_version _ _) = 4
  rank (config_unsatisfied _) = 3
  rank not_running = 2
  rank (health_checks_failed _) = 1
  rank transitive = 0

  -- `cmp_priority` compares the ranks, so it is a total preorder.
  pub cmp_priority-compare :
      (a b : DependencyError Range Version) → cmp_priority a b ≡ compare (rank a) (rank b)
  unfolding cmp_priority
  cmp_priority-compare a b = ground arith

  -- Merging never lowers a priority below either error's: the result has the higher of the two
  -- ranks, and it is the error of higher rank itself where the ranks differ.
  pub merge_with-rank :
      (a b : DependencyError Range Version)
      → (rank (merge_with a b) ≡ max (rank a) (rank b))
        × (rank b < rank a → merge_with a b ≡ a)
        × (rank a < rank b → merge_with a b ≡ b)
  unfolding merge_with
  merge_with-rank a b = ground arith
