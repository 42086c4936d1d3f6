-- ===== src/Rules/Configure.antt =====
-- The commands on configurations: `validate_configuration`, `validate_dependency_configuration` and
-- `apply_dependency_configuration` of system-images/compat/src/config/mod.rs. The files of the rules are
-- read already; what a command writes to the configuration's file is part of its result.
pub mod Verdicts
pub mod Applied
pub mod Spared
use start_os.Common.{Bool, Option, none, some, List, [], ◌∷◌, if◌then◌else◌, Result, ok, err, ◌>>=◌}
use start_os.Common.Map.{Map, insert}
use start_os.S9pk.Bytes.{Bytes, bytes_key}
use start_os.Config.Json.{Fields, end}
use start_os.Config.CharSet.Gen.{Rng}
use start_os.Rules.Syntax.{Floats, Config, Configs}
use start_os.Rules.Elements.{Outcome}
use start_os.Rules.Suggest.{
  ConfigRule, ConfigRuleEntry, check, Changing, ConfigRuleEntryWithSuggestions, apply_entry,
}

-- `bcollect` of the crate beau_collector: all the errors
abbrev pub Collected : Type 0
Collected = Result (List Bytes) (Unit {0})

abbrev pub also : Result Bytes (Unit {0}) → Collected → Collected
also (ok u) rest = rest
also (err e) (ok u) = err (e ∷ [])
also (err e) (err es) = err (e ∷ es)

-- `depends_on`: the health checks that a package must pass, by its name
abbrev pub DependsOn : Type 0
DependsOn = Map Bytes (List Bytes)

module _ (floats : Floats) where
  open floats use {Number}

  pub record DepRuleInfo : Type 0 where
    pub condition : ConfigRule floats
    pub health_checks : List Bytes

  unfoldable pub check_all :
      List (ConfigRuleEntry floats) → Config Number → Configs Number → Outcome Collected
  check_all [] cfg cfgs = ok (ok tt)
  check_all (r ∷ rest) cfg cfgs = do
    checked ← check floats r cfg cfgs
    others ← check_all rest cfg cfgs
    ok (also checked others)

  -- `filter` and `map` into the map
  unfoldable pub dependencies_of :
      List (Bytes × DepRuleInfo) → Config Number → Configs Number → DependsOn → Outcome DependsOn
  dependencies_of [] cfg cfgs depends_on = ok depends_on
  dependencies_of ((pkg_id, info) ∷ rest) cfg cfgs depends_on = do
    holds ← info.condition.compiled cfg cfgs
    let extended = if holds then insert pkg_id info.health_checks depends_on else depends_on
    dependencies_of rest cfg cfgs extended

  -- `SetResult`, whose signal is SIGTERM, and the file of the configuration
  pub record SetResult : Type 0 where
    pub depends_on : DependsOn
    pub written : Config Number

  unfoldable pub validate_configuration :
      Bytes
      → Config Number
      → List (ConfigRuleEntry floats)
      → List (Bytes × DepRuleInfo)
      → Outcome (Result (List Bytes) SetResult)
  validate_configuration name config rules deps = do
    let cfgs = insert name config []
    depends_on ← dependencies_of deps config cfgs []
    rule_check ← check_all rules config cfgs
    elim rule_check [
      | ok u ↦ ok (ok (record { depends_on = depends_on; written = config }))
      | err e ↦ ok (err e)
    ]

  -- a package that is not configured has no entries
  abbrev pub config_or_empty : Option (Config Number) → Config Number
  config_or_empty none = end
  config_or_empty (some config) = config

  unfoldable pub validate_dependency_configuration :
      Bytes
      → Option (Config Number)
      → Bytes
      → Config Number
      → List (ConfigRuleEntry floats)
      → Outcome Collected
  validate_dependency_configuration name config parent_name parent_config rules =
      check_all rules parent_config
        (insert name (config_or_empty config) (insert parent_name parent_config []))

module _ (rng : Rng) (floats : Floats) where
  open rng use {Source}
  open floats use {Number}

  unfoldable pub apply_all :
      List (ConfigRuleEntryWithSuggestions rng floats)
      → Bytes
      → Changing rng floats
      → Outcome (Changing rng floats × Collected)
  apply_all [] id c = ok (c, ok tt)
  apply_all (r ∷ rest) id c = do
    applied ← apply_entry rng floats r id c
    others ← apply_all rest id applied.0
    ok (others.0, also applied.1 others.1)

  unfoldable pub apply_dependency_configuration :
      Bytes
      → Option (Config Number)
      → Bytes
      → Config Number
      → List (ConfigRuleEntryWithSuggestions rng floats)
      → Source
      → Outcome (Result (List Bytes) (Config Number))
  apply_dependency_configuration package_id config dependency_id dep_config rules source = do
    let cfgs =
        insert package_id (config_or_empty floats config) (insert dependency_id dep_config [])
    applied ←
        apply_all rules dependency_id (record { cfg = dep_config; cfgs = cfgs; source = source })
    elim (applied.1) [ ok u ↦ ok (ok (applied.0).cfg) | err e ↦ ok (err e) ]
