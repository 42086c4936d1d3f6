-- ===== src/Rules/Configure/Applied.antt =====
-- What a package does to the configuration of a dependency: `apply_dependency_configuration` of
-- system-images/compat/src/config/mod.rs.
use start_os.Common.{
  ◌≡◌, refl, ap, ◌∙◌, true, false, Option, some, List, [], ◌∷◌, Result, ok, err, >>=-eq-ok,
  ok-injective,
}
use start_os.Common.Map.{lookup, insert, lookup-insert}
use start_os.S9pk.Bytes.{Bytes, bytes_beq, bytes_key}
use start_os.Config.CharSet.Gen.{Rng}
use start_os.Config.Spec.Agree.{bytes_beq_refl}
use start_os.Rules.Returns.{Returns, Returns_elim, >>=-Returns}
use start_os.Rules.Syntax.{Floats, Config}
use start_os.Rules.Elements.{Panic}
use start_os.Rules.Text.Order.{bytes_beq_comm}
use start_os.Rules.Suggest.{
  ConfigRuleEntry, check, Changing, ConfigRuleEntryWithSuggestions, apply_entry,
}
use start_os.Rules.Suggest.Held.{IsInStep, Held, apply_entry-Held}
use start_os.Rules.Configure.{
  Collected, also, config_or_empty, check_all, validate_dependency_configuration, apply_all,
  apply_dependency_configuration,
}

also_ok :
    (first : Result Bytes (Unit {0})) (others : Collected)
    → also first others ≡ ok tt
    → (first ≡ ok tt) × (others ≡ ok tt)
also_ok (ok u) others h = (refl, h)
also_ok (err d) (ok u) h = absurd (cc)
also_ok (err d) (err texts) h = absurd (cc)

module _ (rng : Rng) (floats : Floats) (id : Bytes) where
  -- The rules have their turns one after the other, and each holds after its own.
  pub data HaveTurns
      : List (ConfigRuleEntryWithSuggestions rng floats)
        → Changing rng floats
        → Changing rng floats
        → Type 0 where
    no_more : {c : Changing rng floats} → HaveTurns [] c c
    turn :
        {r : ConfigRuleEntryWithSuggestions rng floats}
        {rest : List (ConfigRuleEntryWithSuggestions rng floats)} {c c₁ c' : Changing rng floats}
        → apply_entry rng floats r id c ≡ ok (c₁, ok tt)
        → r.entry.rule.compiled c₁.cfg c₁.cfgs ≡ ok true
        → HaveTurns rest c₁ c'
        → HaveTurns (r ∷ rest) c c'

  module _ (j : Bytes) (other : bytes_beq j id ≡ false)
      (config : Option (Config floats.Number)) where
    -- what the application of all rules leaves
    abbrev Applied :
        List (ConfigRuleEntryWithSuggestions rng floats)
        → Changing rng floats
        → Changing rng floats × Collected
        → Type 0
    Applied rules c (c', ok u) = HaveTurns rules c c' × IsInStep rng floats id j other config c'
    Applied rules c (c', err texts) = Unit

    joined :
        (r : ConfigRuleEntryWithSuggestions rng floats)
        (rest : List (ConfigRuleEntryWithSuggestions rng floats)) (c c₁ c' : Changing rng floats)
        (first : Result Bytes (Unit {0})) (others : Collected)
        → apply_entry rng floats r id c ≡ ok (c₁, first)
        → Held rng floats id j other config r (c₁, first)
        → Applied rest c₁ (c', others)
        → Applied (r ∷ rest) c (c', also first others)
    joined r rest c c₁ c' (ok u) (ok v) e (step, holds) (turns, after) = (turn e holds turns, after)
    joined r rest c c₁ c' (ok u) (err texts) e h after = tt
    joined r rest c c₁ c' (err d) (ok v) e h after = tt
    joined r rest c c₁ c' (err d) (err texts) e h after = tt

    stays :
        (r : ConfigRuleEntryWithSuggestions rng floats) (c₁ : Changing rng floats)
        (first : Result Bytes (Unit {0}))
        → Held rng floats id j other config r (c₁, first)
        → IsInStep rng floats id j other config c₁
    stays r c₁ (ok u) (step, holds) = step
    stays r c₁ (err d) step = step

    apply_all-Applied :
        (rules : List (ConfigRuleEntryWithSuggestions rng floats)) (c : Changing rng floats)
        → IsInStep rng floats id j other config c
        → Returns (Applied rules c) (apply_all rng floats rules id c)
    unfolding apply_all
    apply_all-Applied [] c h = (no_more, h)
    apply_all-Applied (r ∷ rest) c h =
        >>=-Returns (Applied (r ∷ rest) c) (apply_entry rng floats r id c) _ λ applied e.
          let held =
            Returns_elim (Held rng floats id j other config r) (apply_entry rng floats r id c)
              applied e (apply_entry-Held rng floats id j other config r c h) in
          >>=-Returns (Applied (r ∷ rest) c) (apply_all rng floats rest id applied.0) _ λ others e'.
            joined r rest c applied.0 others.0 applied.1 others.1 e held (
              Returns_elim (Applied rest applied.0) (apply_all rng floats rest id applied.0) others
                e' (apply_all-Applied rest applied.0 (stays r applied.0 applied.1 held)))

  -- the result of the command, from that of the rules
  abbrev pub IsApplied :
      Bytes
      → Option (Config floats.Number)
      → Changing rng floats
      → List (ConfigRuleEntryWithSuggestions rng floats)
      → Result (List Bytes) (Config floats.Number)
      → Type 0
  IsApplied package_id config c rules (err texts) = Unit
  IsApplied package_id config c rules (ok cfg) =
      (c' : Changing rng floats) × HaveTurns rules c c'
      × (c'.cfg ≡ cfg)
      × (lookup id c'.cfgs ≡ some cfg)
      × (lookup package_id c'.cfgs ≡ some (config_or_empty floats config))

  -- what the rules start from
  abbrev pub started :
      Bytes
      → Option (Config floats.Number)
      → Config floats.Number
      → rng.Source
      → Changing rng floats
  started package_id config dep_config source = record {
    cfg = dep_config;
    cfgs = insert package_id (config_or_empty floats config) (insert id dep_config []);
    source = source;
  }

  finished :
      (package_id : Bytes) (other : bytes_beq package_id id ≡ false)
      (config : Option (Config floats.Number)) (c : Changing rng floats)
      (rules : List (ConfigRuleEntryWithSuggestions rng floats))
      (applied : Changing rng floats × Collected)
      → Applied package_id other (some (config_or_empty floats config)) rules c applied
      → Returns {E = Panic}
          (IsApplied package_id config c rules)
          (elim (applied.1) [ ok u ↦ ok (ok (applied.0).cfg) | err e ↦ ok (err e) ])
  finished package_id other config c rules (c', ok u) (turns, (same, kept)) =
      (c', turns, refl, same, kept)
  finished package_id other config c rules (c', err texts) h = tt

  -- Where a package's rules succeed on the configuration of a dependency, every rule has held after
  -- its own suggestions; the rules that came after it have seen the configuration that it left, under
  -- the dependency's name, and the package's own configuration is as it was.
  pub apply_dependency_configuration-IsApplied :
      (package_id : Bytes) (config : Option (Config floats.Number))
      (dep_config : Config floats.Number) (rules : List (ConfigRuleEntryWithSuggestions rng floats))
      (source : rng.Source)
      → bytes_beq package_id id ≡ false
      → Returns
          (IsApplied package_id config (started package_id config dep_config source) rules)
          (apply_dependency_configuration rng floats package_id config id dep_config rules source)
  unfolding apply_dependency_configuration
  apply_dependency_configuration-IsApplied package_id config dep_config rules source other =
      let c = started package_id config dep_config source in
      let given = config_or_empty floats config in
      let step : IsInStep rng floats id package_id other (some given) c = (
        lookup-insert id package_id given (insert id dep_config [])
            ∙ rw (bytes_beq_comm id package_id ∙ other, bytes_beq_refl id) refl,
        lookup-insert package_id package_id given (insert id dep_config [])
            ∙ rw (bytes_beq_refl package_id) refl,
      ) in
      >>=-Returns (IsApplied package_id config c rules) (apply_all rng floats rules id c) _
        λ applied e. finished package_id other config c rules applied (
          Returns_elim (Applied package_id other (some given) rules c)
            (apply_all rng floats rules id c) applied e
            (apply_all-Applied package_id other (some given) rules c step))

  -- the rules without their suggestions
  abbrev pub entries :
      List (ConfigRuleEntryWithSuggestions rng floats) → List (ConfigRuleEntry floats)
  entries [] = []
  entries (r ∷ rest) = r.entry ∷ entries rest

  unchanged :
      (rules : List (ConfigRuleEntryWithSuggestions rng floats)) (c : Changing rng floats)
      → check_all floats (entries rules) c.cfg c.cfgs ≡ ok (ok tt)
      → apply_all rng floats rules id c ≡ ok (c, ok tt)
  unfolding check_all apply_all apply_entry
  unchanged [] c h = refl
  unchanged (r ∷ rest) c h =
      let (first, e, h₁) = >>=-eq-ok (check floats r.entry c.cfg c.cfgs) _ h in
      let (others, e', h₂) = >>=-eq-ok (check_all floats (entries rest) c.cfg c.cfgs) _ h₁ in
      let (passes, others_pass) = also_ok first others (ok-injective _ _ h₂) in
      let now : apply_entry rng floats r id c ≡ ok (c, ok tt) = rw (e ∙ ap ok passes) refl in
      rw (now, unchanged rest c (e' ∙ ap ok others_pass)) refl

  -- Where the configuration of a dependency is valid, nothing is changed in it.
  apply_dependency_configuration_valid :
      (package_id : Bytes) (config : Option (Config floats.Number))
      (dep_config : Config floats.Number) (rules : List (ConfigRuleEntryWithSuggestions rng floats))
      (source : rng.Source)
      → validate_dependency_configuration floats package_id config id dep_config (entries rules)
        ≡ ok (ok tt)
      → apply_dependency_configuration rng floats package_id config id dep_config rules source
        ≡ ok (ok dep_config)
  unfolding apply_dependency_configuration validate_dependency_configuration
  apply_dependency_configuration_valid package_id config dep_config rules source h =
      rw (unchanged rules (started package_id config dep_config source) h) refl
