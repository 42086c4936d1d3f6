-- ===== src/Version/Migrate.antt =====
-- `commit`, `migrate_to`, `migrate_from_unchecked` and `rollback_to_unchecked` of the trait `VersionT`
-- (backend/src/version/mod.rs). The two recursive ones take fuel.
use Prim.Native.Nat.{Ordering}
use start_os.Common.{ℕ, zero, suc, Result, ok, err, ◌>>=◌, ok_or}
use start_os.Version.Store.{Emver, Server, Failure, database, migration, no_path, out_of_fuel}
use start_os.Version.Chain.{VersionT, methods, previous, semver}

module _ {emver : Emver} (server : Server emver) where
  open server use {State}

  abbrev pub Chain : Type 0
  Chain = VersionT emver server

  unfoldable pub commit : Chain → State → Result Failure State
  commit v s = do
    s₁ ← ok_or (server.set_version_range (methods emver server v).compat s) database
    ok_or (server.set_server_version (semver emver server v) s₁) database

  unfoldable pub migrate_from_unchecked : ℕ → Chain → emver.Version → State → Result Failure State
  migrate_from_unchecked zero self version s = err out_of_fuel
  migrate_from_unchecked (suc fuel) self version s = do
    let before = previous emver server self
    let earlier = migrate_from_unchecked fuel before version s
    s₁ ← elim (emver.cmp version (semver emver server before)) [
      | Ordering.lt ↦ earlier
      | Ordering.eq ↦ ok s
      | Ordering.gt ↦ err no_path
    ]
    s₂ ← ok_or ((methods emver server self).up s₁) migration
    commit self s₂

  unfoldable pub rollback_to_unchecked : ℕ → Chain → emver.Version → State → Result Failure State
  rollback_to_unchecked zero self version s = err out_of_fuel
  rollback_to_unchecked (suc fuel) self version s = do
    let before = previous emver server self
    s₁ ← ok_or ((methods emver server self).down s) migration
    s₂ ← commit before s₁
    let earlier = rollback_to_unchecked fuel before version s₂
    elim (emver.cmp version (semver emver server before)) [
      | Ordering.lt ↦ earlier
      | Ordering.eq ↦ ok s₂
      | Ordering.gt ↦ err no_path
    ]

  unfoldable pub migrate_to : ℕ → Chain → Chain → State → Result Failure State
  migrate_to fuel self version s =
      elim (emver.cmp (semver emver server self) (semver emver server version)) [
        | Ordering.gt ↦ rollback_to_unchecked fuel self (semver emver server version) s
        | Ordering.lt ↦ migrate_from_unchecked fuel version (semver emver server self) s
        | Ordering.eq ↦ ok s
      ]
