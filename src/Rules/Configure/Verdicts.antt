-- ===== src/Rules/Configure/Verdicts.antt =====
-- Which rules fail: `validate_configuration` and `validate_dependency_configuration` of
-- system-images/compat/src/config/mod.rs.
use start_os.Common.{All, ◌≡◌, refl, true, false, List, [], ◌∷◌, Result, ok, err}
use start_os.Common.Map.{insert}
use start_os.S9pk.Bytes.{Bytes, bytes_key}
use start_os.Rules.Returns.{Returns, Returns_elim, >>=-Returns}
use start_os.Rules.Syntax.{Floats, Config, Configs}
use start_os.Rules.Elements.{Panic}
use start_os.Rules.VarRes.Total.{Succeeds, bind-Succeeds}
use start_os.Rules.Suggest.{ConfigRuleEntry, check}
use start_os.Rules.Suggest.Held.{Verdict, check-Verdict}
use start_os.Rules.Configure.{
  Collected, DependsOn, also, check_all, dependencies_of, DepRuleInfo, SetResult,
  validate_configuration,
}

module _ (floats : Floats) (cfg : Config floats.Number) (cfgs : Configs floats.Number) where
  -- The texts are the descriptions of those rules that fail, in the order of the rules.
  pub data AreFailures : List (ConfigRuleEntry floats) → List Bytes → Type 0 where
    no_rules : AreFailures [] []
    holds :
        {r : ConfigRuleEntry floats} {rest : List (ConfigRuleEntry floats)} {texts : List Bytes}
        → r.rule.compiled cfg cfgs ≡ ok true
        → AreFailures rest texts
        → AreFailures (r ∷ rest) texts
    fails :
        {r : ConfigRuleEntry floats} {rest : List (ConfigRuleEntry floats)} {texts : List Bytes}
        → r.rule.compiled cfg cfgs ≡ ok false
        → AreFailures rest texts
        → AreFailures (r ∷ rest) (r.description ∷ texts)

  -- an error has a text at least
  abbrev pub IsCollected : List (ConfigRuleEntry floats) → Collected → Type 0
  IsCollected rules (ok u) = AreFailures rules []
  IsCollected rules (err []) = ⊥
  IsCollected rules (err (d ∷ texts)) = AreFailures rules (d ∷ texts)

  also-IsCollected :
      (r : ConfigRuleEntry floats) (rest : List (ConfigRuleEntry floats))
      (first : Result Bytes (Unit {0})) (others : Collected)
      → Verdict floats r cfg cfgs first
      → IsCollected rest others
      → IsCollected (r ∷ rest) (also first others)
  also-IsCollected r rest (ok u) (ok v) h after = holds h after
  also-IsCollected r rest (ok u) (err (d ∷ texts)) h after = holds h after
  also-IsCollected r rest (err e) (ok v) (h, text) after = rw text (fails h after)
  also-IsCollected r rest (err e) (err (d ∷ texts)) (h, text) after = rw text (fails h after)
  also-IsCollected r rest first (err []) h after = absurd after

  -- Where no rule panics, all of them are checked: the check of all passes exactly where each of them
  -- holds, and otherwise its errors are the descriptions of those that fail.
  pub check_all-IsCollected :
      (rules : List (ConfigRuleEntry floats))
      → Returns (IsCollected rules) (check_all floats rules cfg cfgs)
  unfolding check_all
  check_all-IsCollected [] = no_rules
  check_all-IsCollected (r ∷ rest) =
      >>=-Returns (IsCollected (r ∷ rest)) (check floats r cfg cfgs) _ λ first e.
        >>=-Returns (IsCollected (r ∷ rest)) (check_all floats rest cfg cfgs) _ λ others e'.
          also-IsCollected r rest first others
            (Returns_elim (Verdict floats r cfg cfgs) (check floats r cfg cfgs) first e
              (check-Verdict floats r cfg cfgs))
            (Returns_elim (IsCollected rest) (check_all floats rest cfg cfgs) others e'
              (check_all-IsCollected rest))

-- Where no condition panics, neither does a command.
module _ (floats : Floats) (cfg : Config floats.Number) (cfgs : Configs floats.Number) where
  abbrev pub RuleReturns : ConfigRuleEntry floats → Type 0
  RuleReturns r = Succeeds (r.rule.compiled cfg cfgs)

  abbrev pub DependencyReturns : Bytes × DepRuleInfo floats → Type 0
  DependencyReturns d = Succeeds ((d.1).condition.compiled cfg cfgs)

  check_all-Succeeds :
      (rules : List (ConfigRuleEntry floats))
      → All RuleReturns rules
      → Succeeds (check_all floats rules cfg cfgs)
  unfolding check_all check
  check_all-Succeeds [] h = (_, refl)
  check_all-Succeeds (r ∷ rest) (first, others) =
      bind-Succeeds (check floats r cfg cfgs) _
        (bind-Succeeds (r.rule.compiled cfg cfgs) _ first (λ b. (_, refl)))
        λ checked.
          bind-Succeeds (check_all floats rest cfg cfgs) _ (check_all-Succeeds rest others)
            (λ collected. (_, refl))

  dependencies_of-Succeeds :
      (deps : List (Bytes × DepRuleInfo floats)) (depends_on : DependsOn)
      → All DependencyReturns deps
      → Succeeds (dependencies_of floats deps cfg cfgs depends_on)
  unfolding dependencies_of
  dependencies_of-Succeeds [] depends_on h = (_, refl)
  dependencies_of-Succeeds (d ∷ rest) depends_on (first, others) =
      bind-Succeeds ((d.1).condition.compiled cfg cfgs) _ first
        λ holds. dependencies_of-Succeeds rest _ others

-- what `validate_configuration` has done where it returns
abbrev pub IsValidated :
    (floats : Floats)
    → Bytes
    → Config floats.Number
    → List (ConfigRuleEntry floats)
    → List (Bytes × DepRuleInfo floats)
    → Result (List Bytes) (SetResult floats)
    → Type 0
IsValidated floats name config rules deps (ok r) =
    AreFailures floats config (insert name config []) rules []
    × (r.written ≡ config)
    × (dependencies_of floats deps config (insert name config []) [] ≡ ok r.depends_on)
IsValidated floats name config rules deps (err texts) =
    IsCollected floats config (insert name config []) rules (err texts)

as_result :
    (floats : Floats) (name : Bytes) (config : Config floats.Number)
    (rules : List (ConfigRuleEntry floats)) (deps : List (Bytes × DepRuleInfo floats))
    (depends_on : DependsOn) (found : Collected)
    → dependencies_of floats deps config (insert name config []) [] ≡ ok depends_on
    → IsCollected floats config (insert name config []) rules found
    → Returns {E = Panic} (IsValidated floats name config rules deps) (elim found [
      | ok u ↦ ok (ok (record { depends_on = depends_on; written = config }))
      | err e ↦ ok (err e)
    ])
as_result floats name config rules deps depends_on (ok u) e all_hold = (all_hold, refl, e)
as_result floats name config rules deps depends_on (err texts) e some_fail = some_fail

validate_configuration-Returns :
    (floats : Floats) (name : Bytes) (config : Config floats.Number)
    (rules : List (ConfigRuleEntry floats)) (deps : List (Bytes × DepRuleInfo floats))
    → Returns
        (IsValidated floats name config rules deps)
        (validate_configuration floats name config rules deps)
unfolding validate_configuration
validate_configuration-Returns floats name config rules deps =
    >>=-Returns (IsValidated floats name config rules deps)
      (dependencies_of floats deps config (insert name config []) []) _
      λ depends_on e.
        >>=-Returns (IsValidated floats name config rules deps)
          (check_all floats rules config (insert name config [])) _
          λ found e'. as_result floats name config rules deps depends_on found e (
            Returns_elim (IsCollected floats config (insert name config []) rules)
              (check_all floats rules config (insert name config [])) found e'
              (check_all-IsCollected floats config (insert name config []) rules))

reported :
    (floats : Floats) (config : Config floats.Number) (depends_on : DependsOn) (found : Collected)
    → Succeeds {E = Panic} {A = Result (List Bytes) (SetResult floats)} (elim found [
      | ok u ↦ ok (ok (record { depends_on = depends_on; written = config }))
      | err e ↦ ok (err e)
    ])
reported floats config depends_on (ok u) = (_, refl)
reported floats config depends_on (err e) = (_, refl)

validate_configuration-Succeeds :
    (floats : Floats) (name : Bytes) (config : Config floats.Number)
    (rules : List (ConfigRuleEntry floats)) (deps : List (Bytes × DepRuleInfo floats))
    → All (RuleReturns floats config (insert name config [])) rules
    → All (DependencyReturns floats config (insert name config [])) deps
    → Succeeds (validate_configuration floats name config rules deps)
unfolding validate_configuration
validate_configuration-Succeeds floats name config rules deps h k =
    let cfgs = insert name config [] in
    bind-Succeeds (dependencies_of floats deps config cfgs []) _
      (dependencies_of-Succeeds floats config cfgs deps [] k)
      λ depends_on.
        bind-Succeeds (check_all floats rules config cfgs) _
          (check_all-Succeeds floats config cfgs rules h) (reported floats config depends_on)

-- Where no rule and no condition panics, the command returns: a configuration is written exactly as it
-- is given, and only where every rule holds of it; otherwise the descriptions of the rules that fail
-- are returned, in their order.
pub validate_configuration-IsValidated :
    (floats : Floats) (name : Bytes) (config : Config floats.Number)
    (rules : List (ConfigRuleEntry floats)) (deps : List (Bytes × DepRuleInfo floats))
    → All (RuleReturns floats config (insert name config [])) rules
    → All (DependencyReturns floats config (insert name config [])) deps
    → (result : Result (List Bytes) (SetResult floats)) × (validate_configuration floats name config
          rules deps
        ≡ ok result)
      × IsValidated floats name config rules deps result
validate_configuration-IsValidated floats name config rules deps h k =
    let (result, e) = validate_configuration-Succeeds floats name config rules deps h k in
    (
      result,
      e,
      Returns_elim (IsValidated floats name config rules deps)
          (validate_configuration floats name config rules deps) result e
          (validate_configuration-Returns floats name config rules deps),
    )
