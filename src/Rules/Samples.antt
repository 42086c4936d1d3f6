-- ===== src/Rules/Samples.antt =====
-- Rules on small configurations. The numbers are natural numbers, written with one digit.
use start_os.Common.{
  ℕ, ◌≡◌, refl, ◌+◌, ◌-◌, ◌*◌, ◌/◌, ◌^◌, true, ◌&&◌, none, some, List, [], ◌∷◌, if◌then◌else◌, ltb,
  leb, ◌==◌, ok, err,
}
use start_os.S9pk.Bytes.{Bytes, codes}
use start_os.Config.Json.{null, number, array, object, nil, item, end, field}
use start_os.Rules.VarRes.{
  map, map_each, and_then, and_then_each, resolve, any_resolves, all_resolve,
}
use start_os.Rules.Syntax
use start_os.Rules.Syntax.{
  Floats, Var, Segments, NumExpr, StrExpr, BoolExpr, ValueExpr, DelAction, Config, Configs, CmpOp,
}
use start_os.Rules.Text.{unescape, compile_str}
use start_os.Rules.Text.Escapes.{quoted, compile_str_escaped}
use start_os.Rules.Elements.{Panic, find}
use start_os.Rules.Eval.{
  as_number, deref, compile_var_rec, compile_var, compile_num_expr, compile_str_expr,
  compile_bool_expr,
}

abbrev pub digits : Floats
digits = record {
  Number = ℕ;
  Float = ℕ;
  as_f64 = λ n. n;
  from_f64 = λ n. some n;
  parse =
      λ s. elim s [ [] ↦ none | c ∷ rest ↦ if leb 48 c && leb c 57 then some (c - 48) else none ];
  display = λ n. (48 + n) ∷ [];
  zero = 0;
  one = 1;
  plus = ◌+◌;
  minus = ◌-◌;
  times = ◌*◌;
  over = ◌/◌;
  powf = ◌^◌;
  less = ltb;
  at_most = leb;
  equal = ◌==◌;
  as_usize = λ n. n;
}

-- { "foo": [null, { "bar": 3 }, 3] }
abbrev pub foo : Bytes
foo = codes "foo"

abbrev pub bar : Bytes
bar = codes "bar"

abbrev pub cfg : Config ℕ
cfg =
    field foo (array (item null (item (object (field bar (number 3) end)) (item (number 3) nil))))
      end

abbrev pub cfgs : Configs ℕ
cfgs = (codes "my-app", cfg) ∷ []

abbrev chars : Bytes → List Bytes
chars [] = []
chars (b ∷ rest) = (b ∷ []) ∷ chars rest

-- #[my-app].foo.[0 + 1].["ba" + "r"] = 3
abbrev pub dotted : Segments → Var
dotted path = Syntax.var (some (codes "my-app")) foo path

abbrev one_by_sum : NumExpr
one_by_sum = Syntax.num_op Syntax.add (Syntax.num (codes "0")) (Syntax.num (codes "1"))

abbrev bar_by_sum : StrExpr
bar_by_sum =
    Syntax.str_add (Syntax.str (quoted (chars (codes "ba"))))
      (Syntax.str (quoted (chars (codes "r"))))

abbrev access : BoolExpr
access =
    Syntax.num_cmp_expr
      (Syntax.num_var (
        dotted (
          Syntax.dot (Syntax.index_expr one_by_sum)
            (Syntax.dot (Syntax.regular_expr bar_by_sum) Syntax.here))))
      Syntax.eq (Syntax.num (codes "3"))

test_access_expr : compile_bool_expr digits access end cfgs ≡ ok true
unfolding compile_bool_expr compile_num_expr compile_str_expr compile_var compile_var_rec deref map
    map_each and_then and_then_each resolve any_resolves all_resolve as_number compile_str unescape
test_access_expr = refl

-- #foo.[first(item => item.bar?)].bar = 3, and the same of the last
abbrev has_bar : BoolExpr
has_bar =
    Syntax.bool_var
      (Syntax.var none (codes "item") (Syntax.dot (Syntax.regular_base bar) Syntax.here))

abbrev first_bar : Syntax.SubIdent → BoolExpr
first_bar idx =
    Syntax.num_cmp_expr
      (Syntax.num_var
        (Syntax.var none foo (Syntax.dot idx (Syntax.dot (Syntax.regular_base bar) Syntax.here))))
      Syntax.eq (Syntax.num (codes "3"))

test_first_last :
    (compile_bool_expr digits (first_bar (Syntax.first (codes "item") has_bar)) cfg [] ≡ ok true)
    × (compile_bool_expr digits (first_bar (Syntax.last (codes "item") has_bar)) cfg [] ≡ ok true)
unfolding compile_bool_expr compile_num_expr compile_var compile_var_rec deref map map_each and_then
    and_then_each resolve any_resolves all_resolve as_number find
test_first_last = (refl, refl)

-- what an item without the key is: no number
test_any : compile_bool_expr digits (first_bar Syntax.any_item) cfg [] ≡ err Panic.not_a_number
unfolding compile_bool_expr compile_num_expr compile_var compile_var_rec deref map map_each and_then
    and_then_each as_number
test_any = refl

-- "\nn" is two line feeds
compile_str_escaped_example : compile_str (quoted (chars (92 ∷ 110 ∷ 110 ∷ []))) ≡ 10 ∷ 10 ∷ []
compile_str_escaped_example = compile_str_escaped [] (chars (110 ∷ 110 ∷ [])) refl
