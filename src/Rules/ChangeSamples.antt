-- ===== src/Rules/ChangeSamples.antt =====
-- Values and suggestions on small configurations.
use start_os.Common.{ℕ, ◌≡◌, refl, true, Option, none, some, [], Result, ok, err}
use start_os.S9pk.Bytes.{Bytes, codes, bytes_key}
use start_os.Config.Json.{Value, null, bool, number, array, object, nil, item, end, field}
use start_os.Config.CharSet.Samples.{lowest}
use start_os.Rules.VarRes.{
  VarRes, exactly, any, more, empty, map, map_each, resolve, any_resolves, all_resolve,
}
use start_os.Rules.VarRes.Laws.{quantify}
use start_os.Rules.VarRes.Total.{Succeeds}
use start_os.Rules.Syntax
use start_os.Rules.Syntax.{
  Floats, Var, Segments, NumExpr, StrExpr, BoolExpr, ValueExpr, DelAction, Config, Configs,
}
use start_os.Rules.Elements.{parse_index}
use start_os.Rules.Eval.{
  num_cmp, as_number, compile_var, compile_num_expr, compile_bool_expr, compile_value_expr,
  compile_expr, deref, compile_var_rec,
}
use start_os.Rules.Eval.Reading.{num_cmp_reading}
use start_os.Rules.Eval.Numberless.{
  has_no_numbers, str_has_none, var_has_none, path_has_none, segment_has_none,
}
use start_os.Rules.Eval.Safe.{compile_bool_expr_total}
use start_os.Rules.Eval.Typed.{has_kind, compile_expr-has_kind}
use start_os.Rules.Assign.{
  Place, Reached, CompiledReference, satisfies, deref_mut, compile_var_mut_rec, compile_var_mut,
}
use start_os.Rules.Assign.RoundTrip.{compile_var-put}
use start_os.Rules.Actions.{
  retain, retain_items, Mutator, to_value, compile_del_action, compile_set_action,
}
use start_os.Rules.Actions.Deletes.{IsValueWithout, compile_del_action-IsValueWithout}
use start_os.Rules.Suggest.{SuggestionVariant}
use start_os.Rules.Samples.{digits, foo, bar, cfg, cfgs}

abbrev pub returned {ℓ κ} : {E : Type ℓ} {A : Type κ} → Result E A → A → A
returned (ok a) b = a
returned (err e) b = b

abbrev found {ℓ} : {A : Type ℓ} → Option A → A → A
found (some a) b = a
found none b = b

-- foo.1.bar
abbrev pub path : Var
path =
    Syntax.var none foo
      (Syntax.dot (Syntax.index_base 1) (Syntax.dot (Syntax.regular_base bar) Syntax.here))

abbrev nowhere_in : CompiledReference digits
nowhere_in c cs = ok (record { whole = c; place = none })

abbrev get_mut : CompiledReference digits
get_mut = returned (compile_var_mut digits path) nowhere_in

abbrev place_at_end : Place ℕ (Config ℕ)
place_at_end = record { focus = null; put = λ w. end }

abbrev reached : Reached ℕ (Config ℕ)
reached = returned (get_mut cfg []) (record { whole = end; place = none })

abbrev place : Place ℕ (Config ℕ)
place = found reached.place place_at_end

abbrev pub cfg_set : Config ℕ
cfg_set =
    field foo (array (item null (item (object (field bar (number 4) end)) (item (number 3) nil))))
      end

compile_var-put_example :
    (compile_var digits path (place.put (number 4)) [] ≡ ok (exactly (number 4)))
    × (compile_var digits path reached.whole [] ≡ ok (exactly place.focus))
unfolding compile_var_mut compile_var_mut_rec deref_mut parse_index
compile_var-put_example =
    compile_var-put digits path get_mut cfg [] reached place (number 4) refl refl refl refl

put_test : place.put (number 4) ≡ cfg_set
unfolding compile_var_mut compile_var_mut_rec deref_mut parse_index
put_test = refl

-- FROM foo AS x WHERE x?
abbrev pub x : Bytes
x = codes "x"

abbrev del : DelAction
del = record {
  list = Syntax.var none foo Syntax.here;
  item_var = x;
  predicate = Syntax.bool_var (Syntax.var none x Syntax.here);
}

abbrev pub unchanging : Mutator lowest digits
unchanging c cs s = ok (c, s)

abbrev list_mut : CompiledReference digits
list_mut = returned (compile_var_mut digits del.list) nowhere_in

abbrev list_reached : Reached ℕ (Config ℕ)
list_reached = returned (list_mut cfg []) (record { whole = end; place = none })

abbrev delete_set : Mutator lowest digits
delete_set = returned (compile_del_action lowest digits del) unchanging

compile_del_action-IsValueWithout_example :
    (w : Value ℕ) × (compile_var digits del.list (field foo (array (item null nil)) end) []
      ≡ ok (exactly w))
    × IsValueWithout
        (satisfies digits x del.predicate [])
        (array (item null (item (object (field bar (number 3) end)) (item (number 3) nil))))
        w
unfolding compile_del_action compile_var_mut compile_var_mut_rec retain retain_items
    compile_bool_expr compile_var compile_var_rec map map_each resolve any_resolves all_resolve
compile_del_action-IsValueWithout_example =
    compile_del_action-IsValueWithout lowest digits del delete_set list_mut cfg [] 0 list_reached
      (found list_reached.place place_at_end) (field foo (array (item null nil)) end) 0 refl refl
      refl refl refl refl

-- foo.[any(x => x?)].bar? AND 'foo = 'bar
abbrev textual : BoolExpr
textual =
    Syntax.bool_op Syntax.and
      (Syntax.bool_var (
        Syntax.var none foo (
          Syntax.dot (Syntax.any_where x del.predicate)
            (Syntax.dot (Syntax.regular_base bar) Syntax.here))))
      (Syntax.str_cmp_expr (Syntax.str_var (Syntax.var none foo Syntax.here)) Syntax.eq
        (Syntax.str_var (Syntax.var none bar Syntax.here)))

compile_bool_expr_total_example : Succeeds (compile_bool_expr digits textual cfg cfgs)
unfolding has_no_numbers str_has_none var_has_none path_has_none segment_has_none
compile_bool_expr_total_example = compile_bool_expr_total digits textual cfg cfgs refl

-- { "foo": [1, 3] }, and #foo.* = 3
abbrev ones : Config ℕ
ones = field foo (array (item (number 1) (item (number 3) nil))) end

abbrev any_foo : NumExpr
any_foo = Syntax.num_var (Syntax.var none foo (Syntax.dot Syntax.any_item Syntax.here))

abbrev three : NumExpr
three = Syntax.num (codes "3")

abbrev one_and_three : VarRes ℕ
one_and_three = any (more (exactly 1) (more (exactly 3) empty))

num_cmp_reading_example :
    compile_bool_expr digits (Syntax.num_cmp_expr any_foo Syntax.eq three) ones []
    ≡ ok (quantify (λ a. quantify (λ b. num_cmp digits Syntax.eq a b) (exactly 3)) one_and_three)
unfolding compile_num_expr compile_var compile_var_rec deref map map_each as_number
num_cmp_reading_example =
    num_cmp_reading digits any_foo three Syntax.eq ones [] one_and_three (exactly 3) refl refl

compile_expr-has_kind_example : has_kind {Number = ℕ} (Syntax.num_expr three) (number 3) ≡ true
unfolding compile_expr compile_value_expr compile_num_expr map
compile_expr-has_kind_example =
    compile_expr-has_kind digits (Syntax.num_expr three) cfg [] (number 3) refl

-- SET foo.1.bar to 4, beside another key
abbrev pub beside : Config ℕ → Config ℕ
beside (field k v end) = field k v (field bar (bool true) end)
beside c = c

abbrev pub set_bar : SuggestionVariant lowest digits
set_bar =
    SuggestionVariant.set path (to_value (number 4))
      (returned (compile_set_action lowest digits path (to_value (number 4))) unchanging)
