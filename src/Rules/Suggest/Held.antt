-- ===== src/Rules/Suggest/Held.antt =====
-- What the suggestions of a rule achieve: `ConfigRuleEntryWithSuggestions::apply` of
-- system-images/compat/src/config/rules.rs, and that the configurations by name follow what changes.
use start_os.Common.{
  ◌≡◌, refl, ◌∙◌, inl, inr, Bool, true, false, Option, some, List, [], ◌∷◌, Result, ok, err, ◌>>=◌,
  Option-cases,
}
use start_os.Common.Map.{lookup, lookup-insert}
use start_os.S9pk.Bytes.{Bytes, bytes_beq, bytes_key}
use start_os.Config.CharSet.Gen.{Rng}
use start_os.Config.Spec.Agree.{bytes_beq_refl}
use start_os.Rules.Returns.{Returns, Returns_elim, >>=-Returns}
use start_os.Rules.Syntax.{Floats, Config, Configs}
use start_os.Rules.Elements.{Panic}
use start_os.Rules.Suggest.{
  ConfigRuleEntry, check, SuggestionVariant, Changing, compiled_of, apply_variant, Suggestion,
  apply_suggestion, apply_each, ConfigRuleEntryWithSuggestions, apply_entry,
}

-- what a check says of the rule
module _ (floats : Floats) (entry : ConfigRuleEntry floats) (cfg : Config floats.Number)
    (cfgs : Configs floats.Number) where
  abbrev pub Verdict : Result Bytes (Unit {0}) → Type 0
  Verdict (ok u) = entry.rule.compiled cfg cfgs ≡ ok true
  Verdict (err d) = (entry.rule.compiled cfg cfgs ≡ ok false) × (d ≡ entry.description)

  by_bool :
      (b : Bool)
      → entry.rule.compiled cfg cfgs ≡ ok b
      → Verdict (elim b as (λ _. Result Bytes (Unit {0})) [
        | true ↦ ok tt
        | false ↦ err entry.description
      ])
  by_bool true e = e
  by_bool false e = (e, refl)

  pub check-Verdict : Returns Verdict (check floats entry cfg cfgs)
  unfolding check
  check-Verdict = >>=-Returns Verdict (entry.rule.compiled cfg cfgs) _ by_bool

module _ (rng : Rng) (floats : Floats) (id j : Bytes) (other : bytes_beq j id ≡ false)
    (config : Option (Config floats.Number)) where
  -- The configurations by name have the one that is changed under its name, and another as it was.
  abbrev pub IsInStep : Changing rng floats → Type 0
  IsInStep c = (lookup id c.cfgs ≡ some c.cfg) × (lookup j c.cfgs ≡ config)

  apply_variant-IsInStep :
      (v : SuggestionVariant rng floats) (c : Changing rng floats)
      → IsInStep c
      → Returns IsInStep (apply_variant rng floats v id c)
  unfolding apply_variant
  apply_variant-IsInStep v c (same, kept) =
      >>=-Returns IsInStep (compiled_of rng floats v c.cfg c.cfgs c.source) _ λ changed _. (
        lookup-insert id id changed.0 c.cfgs ∙ rw (bytes_beq_refl id) refl,
        lookup-insert j id changed.0 c.cfgs ∙ rw other kept,
      )

  decided-IsInStep :
      (b : Bool) (v : SuggestionVariant rng floats) (c : Changing rng floats)
      → IsInStep c
      → Returns {E = Panic} IsInStep
          (elim b [ true ↦ apply_variant rng floats v id c | false ↦ ok c ])
  decided-IsInStep true v c h = apply_variant-IsInStep v c h
  decided-IsInStep false v c h = h

  apply_suggestion-IsInStep :
      (s : Suggestion rng floats) (c : Changing rng floats)
      → IsInStep c
      → Returns IsInStep (apply_suggestion rng floats s id c)
  unfolding apply_suggestion
  apply_suggestion-IsInStep s c h = elim (Option-cases s.condition) [
    | inl always ↦ rw always (apply_variant-IsInStep s.variant c h)
    | inr (condition, found) ↦ rw found (
        >>=-Returns IsInStep (condition.compiled c.cfg c.cfgs) _
          λ b _. decided-IsInStep b s.variant c h)
  ]

  apply_each-IsInStep :
      (l : List (Suggestion rng floats)) (c : Changing rng floats)
      → IsInStep c
      → Returns IsInStep (apply_each rng floats l id c)
  unfolding apply_each
  apply_each-IsInStep [] c h = h
  apply_each-IsInStep (s ∷ rest) c h =
      >>=-Returns IsInStep (apply_suggestion rng floats s id c) _ λ c' e.
        apply_each-IsInStep rest c' (
          Returns_elim IsInStep (apply_suggestion rng floats s id c) c' e
            (apply_suggestion-IsInStep s c h))

  -- what a rule is left with: where it passes, it holds
  abbrev pub Held :
      ConfigRuleEntryWithSuggestions rng floats
      → Changing rng floats × Result Bytes (Unit {0})
      → Type 0
  Held r (c, ok u) = IsInStep c × (r.entry.rule.compiled c.cfg c.cfgs ≡ ok true)
  Held r (c, err e) = IsInStep c

  after_check :
      (r : ConfigRuleEntryWithSuggestions rng floats) (c : Changing rng floats)
      (verdict : Result Bytes (Unit {0}))
      → IsInStep c
      → Verdict floats r.entry c.cfg c.cfgs verdict
      → Held r (c, verdict)
  after_check r c (ok u) h holds = (h, holds)
  after_check r c (err d) h fails = h

  after_suggestions :
      (r : ConfigRuleEntryWithSuggestions rng floats) (c : Changing rng floats)
      (verdict : Result Bytes (Unit {0}))
      → IsInStep c
      → Verdict floats r.entry c.cfg c.cfgs verdict
      → Returns {E = Panic} (Held r) (elim verdict [
        | ok u ↦ ok (c, ok tt)
        | err e ↦ do
          c' ← apply_each rng floats r.suggestions id c
          after ← check floats r.entry c'.cfg c'.cfgs
          ok (c', after)
      ])
  after_suggestions r c (ok u) h holds = (h, holds)
  after_suggestions r c (err d) h fails =
      >>=-Returns (Held r) (apply_each rng floats r.suggestions id c) _ λ c' e.
        >>=-Returns (Held r) (check floats r.entry c'.cfg c'.cfgs) _ λ after e'.
          after_check r c' after
            (Returns_elim IsInStep (apply_each rng floats r.suggestions id c) c' e
              (apply_each-IsInStep r.suggestions c h))
            (Returns_elim (Verdict floats r.entry c'.cfg c'.cfgs)
              (check floats r.entry c'.cfg c'.cfgs) after e'
              (check-Verdict floats r.entry c'.cfg c'.cfgs))

  pub apply_entry-Held :
      (r : ConfigRuleEntryWithSuggestions rng floats) (c : Changing rng floats)
      → IsInStep c
      → Returns (Held r) (apply_entry rng floats r id c)
  unfolding apply_entry
  apply_entry-Held r c h = >>=-Returns (Held r) (check floats r.entry c.cfg c.cfgs) _ λ before e.
      after_suggestions r c before h (
        Returns_elim (Verdict floats r.entry c.cfg c.cfgs) (check floats r.entry c.cfg c.cfgs)
          before e (check-Verdict floats r.entry c.cfg c.cfgs))
