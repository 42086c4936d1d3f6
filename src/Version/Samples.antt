-- ===== src/Version/Samples.antt =====
-- A server at version 0.3.4 on which the theorems about migrations are run.
use Prim.Native.Nat.{Ordering, compare}
use start_os.Common.{true, ℕ, suc, ◌≤◌, ◌≡◌, ◌↔◌, refl, Option, some, ok, err, arith, if◌then◌else◌}
use start_os.Version.Store.{Emver, Server, and_then, cannot_downgrade}
use start_os.Version.Chain.{
  Bodies, semver, current, v0_3_0, v0_3_0_1, v0_3_0_2, v0_3_0_3, v0_3_1, v0_3_1_1, v0_3_1_2, v0_3_2,
  v0_3_2_1, v0_3_3, v0_3_4, v0_3_4_1, v0_3_4_2, v0_3_4_3, v0_3_4_4,
}
use start_os.Version.Migrate.{commit, migrate_to, migrate_from_unchecked, rollback_to_unchecked}
use start_os.Version.Init.{from_util_version, implementation, init}
use start_os.Version.Later.{IsIncreasing, has_version, later, upgrade_all, depth}
use start_os.Version.Rollback.{undone, downgrade_all, rollback_to_unchecked-undone}
use start_os.Version.Current.{IsIncreasing-current, init-upgrade_all, init-server_version}

abbrev Numbers : Type 0
Numbers = ℕ × ℕ × ℕ × ℕ

abbrev by_numbers : Numbers → Numbers → Ordering
by_numbers (a, b, c, d) (a', b', c', d') =
    and_then (compare a a') (and_then (compare b b') (and_then (compare c c') (compare d d')))

by_numbers_iff : (v w : Numbers) → (by_numbers v w ≡ Ordering.eq) ↔ (v ≡ w)
by_numbers_iff (a, b, c, d) (a', b', c', d') = ground arith

by_numbers_swap : (v w : Numbers) → (by_numbers v w ≡ Ordering.lt) ↔ (by_numbers w v ≡ Ordering.gt)
by_numbers_swap (a, b, c, d) (a', b', c', d') = ground arith

by_numbers_trans :
    (u v w : Numbers)
    → by_numbers u v ≡ Ordering.lt
    → by_numbers v w ≡ Ordering.lt
    → by_numbers u w ≡ Ordering.lt
by_numbers_trans (a, b, c, d) (a', b', c', d') (x, y, z, t) h h' = ground arith

abbrev emver : Emver
emver = record {
  Version = Numbers;
  Range = Unit;
  new = λ a b c d. (a, b, c, d);
  cmp = by_numbers;
  gte = λ _. tt;
  lte = λ _. tt;
  conj = λ _ _. tt;
  cmp-new = λ a b c d a' b' c' d'. refl;
  cmp_eq = by_numbers_iff;
  cmp_swap = by_numbers_swap;
  cmp_trans = by_numbers_trans;
}

read_back : (v : Numbers) (s s' : Numbers × ℕ) → some (v, s.1) ≡ some s' → some s'.0 ≡ some v
read_back v s s' h = ground arith

-- the recorded version, and how many migrations did something
abbrev server : Server emver
server = record {
  State = Numbers × ℕ;
  server_version = λ s. some s.0;
  set_server_version = λ v s. some (v, s.1);
  set_version_range = λ _ s. some s;
  server_version-set = read_back;
}

abbrev counts : Numbers × ℕ → Option (Numbers × ℕ)
counts (v, n) = some (v, suc n)

abbrev bodies : Bodies emver server
bodies = record {
  up_v0_3_2 = counts;
  up_v0_3_3 = counts;
  up_v0_3_4 = counts;
  up_v0_3_4_3 = counts;
  up_v0_3_4_4 = counts;
  down_v0_3_3 = counts;
  down_v0_3_4 = counts;
}

abbrev v0_3_4_server : Numbers × ℕ
v0_3_4_server = ((0, 3, 4, 0), 0)

init-v0_3_4 : init server bodies 15 v0_3_4_server ≡ ok ((0, 3, 4, 4), 2)
unfolding init from_util_version implementation migrate_to migrate_from_unchecked commit v0_3_0
    v0_3_0_1 v0_3_0_2 v0_3_0_3 v0_3_1 v0_3_1_1 v0_3_1_2 v0_3_2 v0_3_2_1 v0_3_3 v0_3_4 v0_3_4_1
    v0_3_4_2 v0_3_4_3 v0_3_4_4
init-v0_3_4 = refl

enough_fuel : depth server (current emver server bodies) ≤ 15
unfolding v0_3_0 v0_3_0_1 v0_3_0_2 v0_3_0_3 v0_3_1 v0_3_1_1 v0_3_1_2 v0_3_2 v0_3_2_1 v0_3_3 v0_3_4
    v0_3_4_1 v0_3_4_2 v0_3_4_3 v0_3_4_4
enough_fuel = omega arith

init-upgrade_all_example : init server bodies 15 v0_3_4_server ≡ (
    if has_version server (0, 3, 4, 0) (current emver server bodies)
    then upgrade_all server (later server (0, 3, 4, 0) (current emver server bodies)) v0_3_4_server
    else err cannot_downgrade)
init-upgrade_all_example =
    init-upgrade_all server bodies 15 (0, 3, 4, 0) v0_3_4_server refl enough_fuel

init-server_version_example :
    some (0, 3, 4, 4) ≡ some (semver emver server (current emver server bodies))
init-server_version_example =
    init-server_version server bodies 15 (0, 3, 4, 0) v0_3_4_server ((0, 3, 4, 4), 2) refl
      enough_fuel init-v0_3_4

IsIncreasing-samples : IsIncreasing server (current emver server bodies)
IsIncreasing-samples = IsIncreasing-current server bodies

has_version-v0_3_3 : has_version server (0, 3, 3, 0) (current emver server bodies) ≡ true
unfolding v0_3_0 v0_3_0_1 v0_3_0_2 v0_3_0_3 v0_3_1 v0_3_1_1 v0_3_1_2 v0_3_2 v0_3_2_1 v0_3_3 v0_3_4
    v0_3_4_1 v0_3_4_2 v0_3_4_3 v0_3_4_4
has_version-v0_3_3 = refl

v0_3_3-older :
    by_numbers (0, 3, 3, 0) (semver emver server (current emver server bodies)) ≡ Ordering.lt
unfolding v0_3_4_4
v0_3_3-older = refl

rollback_to_unchecked-undone_example :
    let top = current emver server bodies in
    rollback_to_unchecked server 15 top (0, 3, 3, 0) v0_3_4_server
    ≡ downgrade_all server (undone server (0, 3, 3, 0) top) v0_3_4_server
rollback_to_unchecked-undone_example =
    rollback_to_unchecked-undone server 15 (current emver server bodies) (0, 3, 3, 0) v0_3_4_server
      IsIncreasing-samples has_version-v0_3_3 v0_3_3-older enough_fuel

rolled_back :
    rollback_to_unchecked server 15 (current emver server bodies) (0, 3, 3, 0) v0_3_4_server
    ≡ ok ((0, 3, 3, 0), 1)
unfolding rollback_to_unchecked commit v0_3_0 v0_3_0_1 v0_3_0_2 v0_3_0_3 v0_3_1 v0_3_1_1 v0_3_1_2
    v0_3_2 v0_3_2_1 v0_3_3 v0_3_4 v0_3_4_1 v0_3_4_2 v0_3_4_3 v0_3_4_4
rolled_back = refl
