-- ===== src/Version/Init.antt =====
-- `init` of backend/src/version/mod.rs, which brings the server to the current version.
use start_os.Common.{ℕ, Option, none, some, if◌then◌else◌, Result, ◌>>=◌, ok_or}
use start_os.Version.Store.{Emver, Server, Failure, database, cannot_downgrade}
use start_os.Version.Chain.{
  Bodies, semver, current, v0_3_0, v0_3_0_1, v0_3_0_2, v0_3_0_3, v0_3_1, v0_3_1_1, v0_3_1_2, v0_3_2,
  v0_3_2_1, v0_3_3, v0_3_4, v0_3_4_1, v0_3_4_2, v0_3_4_3, v0_3_4_4,
}
use start_os.Version.Migrate.{Chain, migrate_to}
use start_os.Version.Later.{is_eq}

-- the enum `Version`; `at_v0_3_0` is `V0_3_0`, and so on
pub data Version {ℓ} (V : Type ℓ) : Type ℓ where
  at_v0_3_0 : Version V
  at_v0_3_0_1 : Version V
  at_v0_3_0_2 : Version V
  at_v0_3_0_3 : Version V
  at_v0_3_1 : Version V
  at_v0_3_1_1 : Version V
  at_v0_3_1_2 : Version V
  at_v0_3_2 : Version V
  at_v0_3_2_1 : Version V
  at_v0_3_3 : Version V
  at_v0_3_4 : Version V
  at_v0_3_4_1 : Version V
  at_v0_3_4_2 : Version V
  at_v0_3_4_3 : Version V
  at_v0_3_4_4 : Version V
  other : (version : V) → Version V

module _ {emver : Emver} (server : Server emver) (bodies : Bodies emver server) where
  open server use {State}

  -- One variant of the untagged enum: `Wrapper::deserialize` takes the version of its type only.
  abbrev pub variant :
      emver.Version
      → Chain server
      → Version emver.Version
      → Version emver.Version
      → Version emver.Version
  variant v implementation tag rest =
      if is_eq (emver.cmp v (semver emver server implementation)) then tag else rest

  unfoldable pub from_util_version : emver.Version → Version emver.Version
  from_util_version v = variant v (v0_3_0 emver server bodies) at_v0_3_0 (
      variant v (v0_3_0_1 emver server bodies) at_v0_3_0_1 (
        variant v (v0_3_0_2 emver server bodies) at_v0_3_0_2 (
          variant v (v0_3_0_3 emver server bodies) at_v0_3_0_3 (
            variant v (v0_3_1 emver server bodies) at_v0_3_1 (
              variant v (v0_3_1_1 emver server bodies) at_v0_3_1_1 (
                variant v (v0_3_1_2 emver server bodies) at_v0_3_1_2 (
                  variant v (v0_3_2 emver server bodies) at_v0_3_2 (
                    variant v (v0_3_2_1 emver server bodies) at_v0_3_2_1 (
                      variant v (v0_3_3 emver server bodies) at_v0_3_3 (
                        variant v (v0_3_4 emver server bodies) at_v0_3_4 (
                          variant v (v0_3_4_1 emver server bodies) at_v0_3_4_1 (
                            variant v (v0_3_4_2 emver server bodies) at_v0_3_4_2 (
                              variant v (v0_3_4_3 emver server bodies) at_v0_3_4_3 (
                                variant v (v0_3_4_4 emver server bodies) at_v0_3_4_4
                                  (other v)))))))))))))))

  -- the type of a known version
  unfoldable pub implementation : Version emver.Version → Option (Chain server)
  implementation at_v0_3_0 = some (v0_3_0 emver server bodies)
  implementation at_v0_3_0_1 = some (v0_3_0_1 emver server bodies)
  implementation at_v0_3_0_2 = some (v0_3_0_2 emver server bodies)
  implementation at_v0_3_0_3 = some (v0_3_0_3 emver server bodies)
  implementation at_v0_3_1 = some (v0_3_1 emver server bodies)
  implementation at_v0_3_1_1 = some (v0_3_1_1 emver server bodies)
  implementation at_v0_3_1_2 = some (v0_3_1_2 emver server bodies)
  implementation at_v0_3_2 = some (v0_3_2 emver server bodies)
  implementation at_v0_3_2_1 = some (v0_3_2_1 emver server bodies)
  implementation at_v0_3_3 = some (v0_3_3 emver server bodies)
  implementation at_v0_3_4 = some (v0_3_4 emver server bodies)
  implementation at_v0_3_4_1 = some (v0_3_4_1 emver server bodies)
  implementation at_v0_3_4_2 = some (v0_3_4_2 emver server bodies)
  implementation at_v0_3_4_3 = some (v0_3_4_3 emver server bodies)
  implementation at_v0_3_4_4 = some (v0_3_4_4 emver server bodies)
  implementation (other v) = none

  -- The fuel is for the migration.
  unfoldable pub init : ℕ → State → Result Failure State
  init fuel s = do
    v ← ok_or (server.server_version s) database
    known ← ok_or (implementation (from_util_version v)) cannot_downgrade
    migrate_to server fuel known (current emver server bodies) s
