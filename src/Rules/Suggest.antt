-- ===== src/Rules/Suggest.antt =====
-- The rules and their suggestions: `ConfigRuleEntry`, `SuggestionVariant`, `Suggestion` and
-- `ConfigRuleEntryWithSuggestions` of system-images/compat/src/config/rules.rs.
pub mod Held
use start_os.Common.{Bool, true, false, Option, none, some, List, [], ◌∷◌, Result, ok, err, ◌>>=◌}
use start_os.Common.Map.{insert}
use start_os.S9pk.Bytes.{Bytes, bytes_key}
use start_os.Config.Json.{Value}
use start_os.Config.CharSet.Gen.{Rng}
use start_os.Rules.Syntax.{Floats, Var, BoolExpr, DelAction, Config, Configs}
use start_os.Rules.Elements.{Outcome}
use start_os.Rules.Eval.{compile_bool_expr}
use start_os.Rules.Assign.{NotAssignable}
use start_os.Rules.Actions.{
  SetVariant, Mutator, compile_del_action, compile_push_action, compile_set_action,
}

module _ (floats : Floats) where
  open floats use {Number}

  -- the text of a rule is its tree
  pub record ConfigRule : Type 0 where
    pub src : BoolExpr
    pub compiled : Config Number → Configs Number → Outcome Bool

  -- `deserialize`
  abbrev pub compile : BoolExpr → ConfigRule
  compile src = record { src = src; compiled = compile_bool_expr floats src }

  pub record ConfigRuleEntry : Type 0 where
    pub rule : ConfigRule
    pub description : Bytes

  -- the error is the description
  unfoldable pub check :
      ConfigRuleEntry → Config Number → Configs Number → Outcome (Result Bytes (Unit {0}))
  check entry cfg cfgs = do
    holds ← entry.rule.compiled cfg cfgs
    ok (elim holds [ true ↦ ok tt | false ↦ err entry.description ])

module _ (rng : Rng) (floats : Floats) where
  open rng use {Source}
  open floats use {Number}

  pub data SuggestionVariant : Type 0 where
    set : Var → SetVariant Number → (compiled : Mutator rng floats) → SuggestionVariant
    delete : DelAction → (compiled : Mutator rng floats) → SuggestionVariant
    push : Var → Value Number → (compiled : Mutator rng floats) → SuggestionVariant

  -- `_SuggestionVariant`, and `deserialize`
  pub data RawSuggestionVariant : Type 0 where
    raw_set : Var → SetVariant Number → RawSuggestionVariant
    raw_delete : DelAction → RawSuggestionVariant
    raw_push : Var → Value Number → RawSuggestionVariant

  unfoldable pub deserialize : RawSuggestionVariant → Result NotAssignable SuggestionVariant
  deserialize (raw_set v value) = do
    compiled ← compile_set_action rng floats v value
    ok (set v value compiled)
  deserialize (raw_delete src) = do
    compiled ← compile_del_action rng floats src
    ok (delete src compiled)
  deserialize (raw_push list value) = do
    compiled ← compile_push_action rng floats list value
    ok (push list value compiled)

  -- what the suggestions change: the configuration of a package, and all of them
  pub record Changing : Type 0 where
    pub cfg : Config Number
    pub cfgs : Configs Number
    pub source : Source

  abbrev pub compiled_of : SuggestionVariant → Mutator rng floats
  compiled_of (set v value compiled) = compiled
  compiled_of (delete src compiled) = compiled
  compiled_of (push list value compiled) = compiled

  unfoldable pub apply_variant : SuggestionVariant → Bytes → Changing → Outcome Changing
  apply_variant v id c = do
    changed ← compiled_of v c.cfg c.cfgs c.source
    ok (record { cfg = changed.0; cfgs = insert id (changed.0) c.cfgs; source = changed.1 })

  pub record Suggestion : Type 0 where
    pub condition : Option (ConfigRule floats)
    pub variant : SuggestionVariant

  unfoldable pub apply_suggestion : Suggestion → Bytes → Changing → Outcome Changing
  apply_suggestion s id c = elim s.condition [
    | none ↦ apply_variant s.variant id c
    | some condition ↦ do
      holds ← condition.compiled c.cfg c.cfgs
      elim holds [ true ↦ apply_variant s.variant id c | false ↦ ok c ]
  ]

  -- the loop over the suggestions
  unfoldable pub apply_each : List Suggestion → Bytes → Changing → Outcome Changing
  apply_each [] id c = ok c
  apply_each (s ∷ rest) id c = do c' ← apply_suggestion s id c; apply_each rest id c'

  pub record ConfigRuleEntryWithSuggestions : Type 0 where
    pub entry : ConfigRuleEntry floats
    pub suggestions : List Suggestion

  unfoldable pub apply_entry :
      ConfigRuleEntryWithSuggestions
      → Bytes
      → Changing
      → Outcome (Changing × Result Bytes (Unit {0}))
  apply_entry r id c = do
    before ← check floats r.entry c.cfg c.cfgs
    elim before [
      | ok u ↦ ok (c, ok tt)
      | err e ↦ do
        c' ← apply_each r.suggestions id c
        after ← check floats r.entry c'.cfg c'.cfgs
        ok (c', after)
    ]
