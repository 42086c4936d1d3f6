-- ===== src/Rules/Eval/Numberless.antt =====
-- The rules of system-images/compat/src/config/rules.rs that compute with no numbers, and what their
-- loops over items need in order not to panic.
use start_os.Common.{
  ◌≡◌, refl, Bool, true, false, ◌&&◌, none, some, List, [], ◌∷◌, if◌then◌else◌, ok, ltb,
}
use start_os.Config.Json.{Value}
use start_os.Rules.VarRes.Total.{Succeeds}
use start_os.Rules.Syntax
use start_os.Rules.Syntax.{Var, Segments, SubIdent, NumExpr, StrExpr, BoolExpr}
use start_os.Rules.Elements.{Outcome, usize_limit, filter, find}

-- no number is computed, neither by the expression nor by a path or a predicate in it, and literal
-- indices fit into a `usize`
unfoldable mutual
  pub has_no_numbers : BoolExpr → Bool
  has_no_numbers (Syntax.bool_var v) = var_has_none v
  has_no_numbers (Syntax.inv_bool_expr e) = has_no_numbers e
  has_no_numbers (Syntax.num_cmp_expr l op r) = false
  has_no_numbers (Syntax.str_cmp_expr l op r) = str_has_none l && str_has_none r
  has_no_numbers (Syntax.bool_op op l r) = has_no_numbers l && has_no_numbers r

  pub str_has_none : StrExpr → Bool
  str_has_none (Syntax.str_var v) = var_has_none v
  str_has_none (Syntax.str s) = true
  str_has_none (Syntax.str_add l r) = str_has_none l && str_has_none r

  pub var_has_none : Var → Bool
  var_has_none (Syntax.var app_id first_seg path) = path_has_none path

  pub path_has_none : Segments → Bool
  path_has_none Syntax.here = true
  path_has_none (Syntax.dot idx ident) = segment_has_none idx && path_has_none ident

  pub segment_has_none : SubIdent → Bool
  segment_has_none (Syntax.first item_var predicate) = has_no_numbers predicate
  segment_has_none (Syntax.last item_var predicate) = has_no_numbers predicate
  segment_has_none (Syntax.any_where item_var predicate) = has_no_numbers predicate
  segment_has_none (Syntax.all_where item_var predicate) = has_no_numbers predicate
  segment_has_none (Syntax.regular_expr e) = str_has_none e
  segment_has_none (Syntax.index_expr e) = false
  segment_has_none (Syntax.index_base idx) = ltb idx usize_limit
  segment_has_none _ = true

if_ok :
    {A : Type 0} (b : Bool) (x y : A)
    → ◌≡◌ {A = Outcome A} (if b then ok x else ok y) (ok (if b then x else y))
if_ok true x y = refl
if_ok false x y = refl

module _ {Number : Type 0} (p : Value Number → Outcome Bool)
    (total : (v : Value Number) → Succeeds (p v)) where
  pub filter-Succeeds : (l : List (Value Number)) → Succeeds (filter p l)
  unfolding filter
  filter-Succeeds [] = ([], refl)
  filter-Succeeds (v ∷ rest) =
      let (b, e) = total v in
      let (kept, e') = filter-Succeeds rest in (if b then v ∷ kept else kept, rw (e, e') refl)

  pub find-Succeeds : (l : List (Value Number)) → Succeeds (find p l)
  unfolding find
  find-Succeeds [] = (none, refl)
  find-Succeeds (v ∷ rest) =
      let (b, e) = total v in
      let (found, e') = find-Succeeds rest in
      (if b then some v else found, rw (e, e') (if_ok b (some v) found))
