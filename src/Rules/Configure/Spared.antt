-- ===== src/Rules/Configure/Spared.antt =====
-- What a package cannot change in the configuration of a dependency:
-- `apply_dependency_configuration` of system-images/compat/src/config/mod.rs.
use start_os.Common.{
  ◌≡◌, refl, ◌∙◌, inl, inr, Bool, true, false, Option, List, [], ◌∷◌, All, Result, ok, err, ◌>>=◌,
  Option-cases,
}
use start_os.S9pk.Bytes.{Bytes, bytes_beq}
use start_os.Config.Json.{get}
use start_os.Config.CharSet.Gen.{Rng}
use start_os.Rules.Returns.{Returns, Returns_elim, >>=-Returns}
use start_os.Rules.Syntax.{Floats, Config}
use start_os.Rules.Elements.{Panic}
use start_os.Rules.Suggest.{
  check, RawSuggestionVariant, deserialize, compiled_of, Changing, apply_variant, Suggestion,
  apply_suggestion, apply_each, ConfigRuleEntryWithSuggestions, apply_entry,
}
use start_os.Rules.Assign.Frame.{Agrees}
use start_os.Rules.Actions.Frame.{key_of, compiled_of-Spares}
use start_os.Rules.Configure.{Collected, apply_all, apply_dependency_configuration}

module _ (rng : Rng) (floats : Floats) (k : Bytes) where
  -- a suggestion that is read from the rules, and whose path starts from another key
  abbrev pub IsElsewhere : Suggestion rng floats → Type 0
  IsElsewhere s =
      (raw : RawSuggestionVariant rng floats) × (deserialize rng floats raw ≡ ok s.variant)
      × (bytes_beq k (key_of rng floats raw) ≡ false)

  abbrev pub AreElsewhere : ConfigRuleEntryWithSuggestions rng floats → Type 0
  AreElsewhere r = All IsElsewhere r.suggestions

  module _ (id : Bytes) (start : Config floats.Number) where
    -- the key is as it was at the start
    abbrev Spared : Changing rng floats → Type 0
    Spared c = Agrees k start c.cfg

    apply_variant-Spared :
        (s : Suggestion rng floats) (c : Changing rng floats)
        → IsElsewhere s
        → Spared c
        → Returns Spared (apply_variant rng floats s.variant id c)
    unfolding apply_variant
    apply_variant-Spared s c (raw, read, other) h =
        >>=-Returns Spared (compiled_of rng floats s.variant c.cfg c.cfgs c.source) _ λ changed e.
          compiled_of-Spares rng floats raw s.variant k c.cfg c.cfgs c.source changed.0 changed.1
            read other e
          ∙ h

    decided-Spared :
        (b : Bool) (s : Suggestion rng floats) (c : Changing rng floats)
        → IsElsewhere s
        → Spared c
        → Returns {E = Panic} Spared
            (elim b [ true ↦ apply_variant rng floats s.variant id c | false ↦ ok c ])
    decided-Spared true s c away h = apply_variant-Spared s c away h
    decided-Spared false s c away h = h

    apply_suggestion-Spared :
        (s : Suggestion rng floats) (c : Changing rng floats)
        → IsElsewhere s
        → Spared c
        → Returns Spared (apply_suggestion rng floats s id c)
    unfolding apply_suggestion
    apply_suggestion-Spared s c away h = elim (Option-cases s.condition) [
      | inl always ↦ rw always (apply_variant-Spared s c away h)
      | inr (condition, found) ↦ rw found (
          >>=-Returns Spared (condition.compiled c.cfg c.cfgs) _ λ b _. decided-Spared b s c away h)
    ]

    apply_each-Spared :
        (l : List (Suggestion rng floats)) (c : Changing rng floats)
        → All IsElsewhere l
        → Spared c
        → Returns Spared (apply_each rng floats l id c)
    unfolding apply_each
    apply_each-Spared [] c away h = h
    apply_each-Spared (s ∷ rest) c (first, others) h =
        >>=-Returns Spared (apply_suggestion rng floats s id c) _ λ c' e.
          apply_each-Spared rest c' others (
            Returns_elim Spared (apply_suggestion rng floats s id c) c' e
              (apply_suggestion-Spared s c first h))

    -- the configuration in a result with a verdict
    abbrev SparedIn : {V : Type 0} → Changing rng floats × V → Type 0
    SparedIn applied = Spared applied.0

    checked-Spared :
        (r : ConfigRuleEntryWithSuggestions rng floats) (c : Changing rng floats)
        (before : Result Bytes (Unit {0}))
        → AreElsewhere r
        → Spared c
        → Returns {E = Panic} {A = Changing rng floats × Result Bytes (Unit {0})} SparedIn
            (elim before [
              | ok u ↦ ok (c, ok tt)
              | err e ↦ do
                c' ← apply_each rng floats r.suggestions id c
                after ← check floats r.entry c'.cfg c'.cfgs
                ok (c', after)
            ])
    checked-Spared r c (ok u) away h = h
    checked-Spared r c (err d) away h =
        >>=-Returns SparedIn (apply_each rng floats r.suggestions id c) _ λ c' e.
          >>=-Returns SparedIn (check floats r.entry c'.cfg c'.cfgs) _ λ after _.
            Returns_elim Spared (apply_each rng floats r.suggestions id c) c' e
              (apply_each-Spared r.suggestions c away h)

    apply_entry-Spared :
        (r : ConfigRuleEntryWithSuggestions rng floats) (c : Changing rng floats)
        → AreElsewhere r
        → Spared c
        → Returns SparedIn (apply_entry rng floats r id c)
    unfolding apply_entry
    apply_entry-Spared r c away h =
        >>=-Returns SparedIn (check floats r.entry c.cfg c.cfgs) _
          λ before _. checked-Spared r c before away h

    apply_all-Spared :
        (rules : List (ConfigRuleEntryWithSuggestions rng floats)) (c : Changing rng floats)
        → All AreElsewhere rules
        → Spared c
        → Returns SparedIn (apply_all rng floats rules id c)
    unfolding apply_all
    apply_all-Spared [] c away h = h
    apply_all-Spared (r ∷ rest) c (first, others) h =
        >>=-Returns SparedIn (apply_entry rng floats r id c) _ λ applied e.
          >>=-Returns SparedIn (apply_all rng floats rest id applied.0) _ λ left e'.
            Returns_elim SparedIn (apply_all rng floats rest id applied.0) left e' (
              apply_all-Spared rest applied.0 others (
                Returns_elim SparedIn (apply_entry rng floats r id c) applied e
                  (apply_entry-Spared r c first h)))

    -- what the command returns, if it succeeds
    abbrev SparedResult : Result (List Bytes) (Config floats.Number) → Type 0
    SparedResult (ok cfg) = Agrees k start cfg
    SparedResult (err texts) = Unit

    finished-Spared :
        (applied : Changing rng floats × Collected)
        → SparedIn applied
        → Returns {E = Panic} SparedResult
            (elim (applied.1) [ ok u ↦ ok (ok (applied.0).cfg) | err e ↦ ok (err e) ])
    finished-Spared (c, ok u) h = h
    finished-Spared (c, err texts) h = tt

  -- The rules of a package leave a key of a dependency's configuration alone, if the path of none of
  -- their suggestions starts from it.
  pub apply_dependency_configuration-Agrees :
      (package_id id : Bytes) (config : Option (Config floats.Number))
      (dep_config cfg : Config floats.Number)
      (rules : List (ConfigRuleEntryWithSuggestions rng floats)) (source : rng.Source)
      → All AreElsewhere rules
      → apply_dependency_configuration rng floats package_id config id dep_config rules source
        ≡ ok (ok cfg)
      → get k cfg ≡ get k dep_config
  unfolding apply_dependency_configuration
  apply_dependency_configuration-Agrees package_id id config dep_config cfg rules source away h =
      Returns_elim (SparedResult id dep_config)
        (apply_dependency_configuration rng floats package_id config id dep_config rules source)
        (ok cfg) h
        (>>=-Returns (SparedResult id dep_config) (apply_all rng floats rules id _) _ λ applied e.
          finished-Spared id dep_config applied (
            Returns_elim (SparedIn id dep_config) (apply_all rng floats rules id _) applied e
              (apply_all-Spared id dep_config rules _ away refl)))
