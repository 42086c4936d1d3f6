-- ===== src/Rules/CommandSamples.antt =====
-- Commands with rules on small configurations.
use start_os.Common.{All, List, false, ℕ, ◌≡◌, refl, true, none, [], ◌∷◌, Result, ok, err}
use start_os.S9pk.Bytes.{Bytes, bytes_key}
use start_os.Config.Json.{null, number, array, object, nil, item, end, field}
use start_os.Config.CharSet.Samples.{lowest}
use start_os.Rules.Returns.{Returns}
use start_os.Rules.VarRes.{map, and_then, resolve}
use start_os.Rules.Syntax
use start_os.Rules.Syntax.{
  Floats, Var, Segments, NumExpr, StrExpr, BoolExpr, ValueExpr, DelAction, Config, Configs,
}
use start_os.Rules.Elements.{parse_index}
use start_os.Rules.Eval.{compile_var, compile_bool_expr, deref, compile_var_rec}
use start_os.Rules.Assign.{deref_mut, compile_var_mut_rec, compile_var_mut}
use start_os.Rules.Actions.{to_value, compile_set_action}
use start_os.Rules.Configure.Spared.{AreElsewhere, apply_dependency_configuration-Agrees}
use start_os.Config.Json.{get}
use start_os.Rules.Suggest.{
  raw_set, deserialize, apply_entry, apply_each, apply_suggestion, apply_variant, ConfigRuleEntry,
  compile, check, SuggestionVariant, ConfigRuleEntryWithSuggestions,
}
use start_os.Rules.Configure.{
  SetResult, apply_all, check_all, dependencies_of, validate_configuration,
  apply_dependency_configuration,
}
use start_os.Rules.Configure.Verdicts.{IsValidated, validate_configuration-IsValidated}
use start_os.Rules.Configure.Applied.{IsApplied, started, apply_dependency_configuration-IsApplied}
use start_os.Rules.Samples.{digits, foo, bar, cfg}
use start_os.Rules.ChangeSamples.{beside, path, x, set_bar, returned, unchanging}

-- a rule that holds, with a suggestion, and one that fails
abbrev bar_entry : ConfigRuleEntry digits
bar_entry = record { rule = compile digits (Syntax.bool_var path); description = bar }

abbrev no_foo : ConfigRuleEntry digits
no_foo = record {
  rule = compile digits (Syntax.inv_bool_expr (Syntax.bool_var path));
  description = foo;
}

abbrev suggesting : ConfigRuleEntry digits → ConfigRuleEntryWithSuggestions lowest digits
suggesting entry = record {
  entry = entry;
  suggestions = record { condition = none; variant = set_bar } ∷ [];
}

validate_configuration-IsValidated_example :
    (result : Result (List Bytes) (SetResult digits)) × (validate_configuration digits x cfg
        (bar_entry ∷ no_foo ∷ [])
        []
      ≡ ok result)
    × IsValidated digits x cfg (bar_entry ∷ no_foo ∷ []) [] result
unfolding compile_bool_expr compile_var compile_var_rec deref map and_then resolve parse_index
validate_configuration-IsValidated_example =
    validate_configuration-IsValidated digits x cfg (bar_entry ∷ no_foo ∷ []) []
      ((true, refl), ((false, refl), tt)) tt

fails_test : validate_configuration digits x cfg (bar_entry ∷ no_foo ∷ []) [] ≡ ok (err (foo ∷ []))
unfolding validate_configuration dependencies_of check_all check compile_bool_expr compile_var
    compile_var_rec deref map and_then resolve parse_index
fails_test = refl

apply_dependency_configuration-IsApplied_example :
    Returns
      (IsApplied lowest digits x bar none
        (started lowest digits x bar none cfg 0)
        (suggesting bar_entry ∷ []))
      (apply_dependency_configuration lowest digits bar none x cfg (suggesting bar_entry ∷ []) 0)
apply_dependency_configuration-IsApplied_example =
    apply_dependency_configuration-IsApplied lowest digits x bar none cfg
      (suggesting bar_entry ∷ []) 0 refl

-- what holds after a rule's turn may fail after the next one's
abbrev clear_bar : SuggestionVariant lowest digits
clear_bar =
    SuggestionVariant.set path (to_value null)
      (returned (compile_set_action lowest digits path (to_value null)) unchanging)

abbrev contrary : List (ConfigRuleEntryWithSuggestions lowest digits)
contrary =
    suggesting bar_entry
    ∷ record { entry = no_foo; suggestions = record { condition = none; variant = clear_bar } ∷ [] }
    ∷ []

abbrev cleared : Config ℕ
cleared =
    field foo (array (item null (item (object (field bar null end)) (item (number 3) nil)))) end

contrary_test :
    (apply_dependency_configuration lowest digits bar none x cfg contrary 0 ≡ ok (ok cleared))
    × (check digits bar_entry cleared [] ≡ ok (err bar))
unfolding apply_dependency_configuration apply_all apply_entry apply_each apply_suggestion
    apply_variant check compile_set_action compile_var_mut compile_var_mut_rec deref_mut parse_index
    compile_bool_expr compile_var compile_var_rec deref map and_then resolve
contrary_test = (refl, refl)

contrary_elsewhere : All (AreElsewhere lowest digits bar) contrary
unfolding deserialize compile_set_action compile_var_mut compile_var_mut_rec
contrary_elsewhere = (
  ((raw_set path (to_value (number 4)), refl, refl), tt),
  (((raw_set path (to_value null), refl, refl), tt), tt),
)

contrary_done :
    apply_dependency_configuration lowest digits bar none x (beside cfg) contrary 0
    ≡ ok (ok (beside cleared))
unfolding apply_dependency_configuration apply_all apply_entry apply_each apply_suggestion
    apply_variant check compile_set_action compile_var_mut compile_var_mut_rec deref_mut parse_index
    compile_bool_expr compile_var compile_var_rec deref map and_then resolve
contrary_done = refl

apply_dependency_configuration-Agrees_example : get bar (beside cleared) ≡ get bar (beside cfg)
apply_dependency_configuration-Agrees_example =
    apply_dependency_configuration-Agrees lowest digits bar bar x none (beside cfg) (beside cleared)
      contrary 0 contrary_elsewhere contrary_done
