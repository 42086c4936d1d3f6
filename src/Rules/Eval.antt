-- ===== src/Rules/Eval.antt =====
-- The evaluation of a rule: `compile_var`, `compile_bool_expr`, `compile_num_expr`,
-- `compile_str_expr` and `compile_value_expr` of system-images/compat/src/config/rules.rs. A compiled
-- expression is a function of the configuration and of those of the packages.
pub mod Reading
pub mod Numberless
pub mod Safe
pub mod Typed
use start_os.Common.{
  Bool, true, false, not, Option, none, some, List, [], ◌∷◌, ◌++◌, if◌then◌else◌, ◌>>=◌, Result, ok,
  err, ok_or, ℕ, zero, suc,
}
use mathlib.Core.List.{reverse}
use start_os.Common.Map.{lookup}
use start_os.S9pk.Bytes.{Bytes, bytes_key, codes}
use start_os.Config.Json.{
  Value, null, bool, number, string, array, object, Items, nil, item, Fields, end, field, get,
  insert, get_or_null,
}
use start_os.Rules.VarRes.{VarRes, exactly, each, map, and_then, resolve}
use start_os.Rules.Syntax
use start_os.Rules.Syntax.{
  Floats, NumOp, CmpOp, BoolOp, Var, Segments, SubIdent, NumExpr, StrExpr, BoolExpr, ValueExpr,
  Config, Configs,
}
use start_os.Rules.Text.{compile_str, str_cmp}
use start_os.Rules.Elements.{
  Panic, not_a_number, not_finite, no_characters, Outcome, parse_index, to_list, values, elements,
  at, or_null, filter, find,
}

-- The numbers of a rule, and the texts of `true` and `false`
module _ (floats : Floats) where
  open floats use {
    Number, Float, as_f64, from_f64, parse, display, plus, minus, times, over, powf, less, at_most,
    equal, as_usize,
  }

  abbrev pub arithmetic : NumOp → Float → Float → Float
  arithmetic Syntax.add a b = plus a b
  arithmetic Syntax.sub a b = minus a b
  arithmetic Syntax.mul a b = times a b
  arithmetic Syntax.div a b = over a b
  arithmetic Syntax.pow a b = powf a b

  abbrev pub num_cmp : CmpOp → Float → Float → Bool
  num_cmp Syntax.lt a b = less a b
  num_cmp Syntax.lte a b = at_most a b
  num_cmp Syntax.eq a b = equal a b
  num_cmp Syntax.neq a b = not (equal a b)
  num_cmp Syntax.gt a b = less b a
  num_cmp Syntax.gte a b = at_most b a

  -- the closures of `compile_bool_var`, `compile_num_var` and `compile_str_var`
  abbrev pub is_set : Value Number → Bool
  is_set (bool false) = false
  is_set null = false
  is_set _ = true

  unfoldable pub as_number : Value Number → Outcome Float
  as_number (number n) = ok (as_f64 n)
  as_number (string s) = ok_or (parse s) not_a_number
  as_number (bool b) = ok (if b then floats.one else floats.zero)
  as_number _ = err not_a_number

  unfoldable pub as_string : Value Number → Option Bytes
  as_string (string s) = some s
  as_string (number n) = some (display n)
  as_string (bool b) = some (if b then codes "true" else codes "false")
  as_string _ = none

  -- `Some(lhs? + &rhs?)`
  abbrev pub concat : Option Bytes → Option Bytes → Option Bytes
  concat (some l) (some r) = some (l ++ r)
  concat _ _ = none

  -- `&&` and `||` ask the right-hand side where they must, and `^` always
  abbrev pub short_circuit : BoolOp → Bool → Outcome Bool → Outcome Bool
  short_circuit Syntax.and false rhs = ok false
  short_circuit Syntax.and true rhs = rhs
  short_circuit Syntax.or false rhs = rhs
  short_circuit Syntax.or true rhs = ok true
  short_circuit Syntax.xor a rhs = rhs >>= λ b. ok (if a then not b else b)

  -- the configuration that a variable is about
  abbrev pub config_of : Option Bytes → Config Number → Configs Number → Option (Config Number)
  config_of none cfg cfgs = some cfg
  config_of (some app_id) cfg cfgs = lookup app_id cfgs

  -- the closure of `compile_var`
  abbrev pub Accessor : Type 0
  Accessor = Value Number → Configs Number → Outcome (VarRes (Value Number))

  abbrev pub compiled_var :
      Option (Config Number)
      → Bytes
      → Option Accessor
      → Configs Number
      → Outcome (VarRes (Value Number))
  compiled_var none first_seg accessor cfgs = ok (exactly null)
  compiled_var (some cfg) first_seg none cfgs = ok (exactly (get_or_null first_seg cfg))
  compiled_var (some cfg) first_seg (some accessor) cfgs = accessor (get_or_null first_seg cfg) cfgs

  -- the closure of a literal index
  abbrev pub at_index : ℕ → Value Number → VarRes (Value Number)
  at_index n (array l) = exactly (or_null (at (to_list l) n))
  at_index n _ = exactly null

  -- a configuration that has only the item
  abbrev pub only : Bytes → Value Number → Config Number
  only item_var v = insert item_var v end

  unfoldable mutual
    -- the accessor `deref` of a segment
    pub deref : SubIdent → Value Number → Configs Number → Outcome (VarRes (Value Number))
    deref Syntax.any_item v cfgs =
        ok (elim (elements v) [ none ↦ exactly null | some l ↦ VarRes.any (each l) ])
    deref Syntax.all_items v cfgs =
        ok (elim (elements v) [ none ↦ exactly null | some l ↦ VarRes.all (each l) ])
    deref (Syntax.first item_var predicate) v cfgs = elim (elements v) [
      | none ↦ ok (exactly null)
      | some l ↦ do
        found ← find (λ i. compile_bool_expr predicate (only item_var i) cfgs) l
        ok (exactly (or_null found))
    ]
    deref (Syntax.last item_var predicate) v cfgs = elim (elements v) [
      | none ↦ ok (exactly null)
      | some l ↦ do
        found ← find (λ i. compile_bool_expr predicate (only item_var i) cfgs) (reverse l)
        ok (exactly (or_null found))
    ]
    deref (Syntax.any_where item_var predicate) v cfgs = elim (elements v) [
      | none ↦ ok (exactly null)
      | some l ↦ do
        kept ← filter (λ i. compile_bool_expr predicate (only item_var i) cfgs) l
        ok (VarRes.any (each kept))
    ]
    deref (Syntax.all_where item_var predicate) v cfgs = elim (elements v) [
      | none ↦ ok (exactly null)
      | some l ↦ do
        kept ← filter (λ i. compile_bool_expr predicate (only item_var i) cfgs) l
        ok (VarRes.all (each kept))
    ]
    deref (Syntax.regular_base idx) (object o) cfgs = ok (exactly (get_or_null idx o))
    deref (Syntax.regular_base idx) v cfgs = ok (exactly null)
    deref (Syntax.regular_expr idx) (object o) cfgs = do
      names ← compile_str_expr idx end cfgs
      map names λ name. ok (elim name [ none ↦ null | some k ↦ get_or_null k o ])
    deref (Syntax.regular_expr idx) v cfgs = ok (exactly null)
    deref (Syntax.index_base idx) v cfgs = do n ← parse_index idx; ok (at_index n v)
    deref (Syntax.index_expr idx) (array l) cfgs = do
      numbers ← compile_num_expr idx end cfgs
      map numbers λ n. ok (or_null (at (to_list l) (as_usize n)))
    deref (Syntax.index_expr idx) v cfgs = ok (exactly null)

    pub compile_var_rec : Segments → Option Accessor
    compile_var_rec Syntax.here = none
    compile_var_rec (Syntax.dot idx ident) = some (elim (compile_var_rec ident) [
      | some rest ↦ λ v cfgs. deref idx v cfgs >>= λ r. and_then r (λ w. rest w cfgs)
      | none ↦ λ v cfgs. deref idx v cfgs
    ])

    pub compile_var : Var → Config Number → Configs Number → Outcome (VarRes (Value Number))
    compile_var (Syntax.var app_id first_seg rest) cfg cfgs =
        compiled_var (config_of app_id cfg cfgs) first_seg (compile_var_rec rest) cfgs

    -- A literal that is not a number panics where the rule is compiled; the grammar has none.
    pub compile_num_expr : NumExpr → Config Number → Configs Number → Outcome (VarRes Float)
    compile_num_expr (Syntax.num_var v) cfg cfgs = do r ← compile_var v cfg cfgs; map r as_number
    compile_num_expr (Syntax.num num_str) cfg cfgs = do
      n ← ok_or (parse num_str) not_a_number
      ok (exactly n)
    compile_num_expr (Syntax.num_op op l r) cfg cfgs = do
      lhs ← compile_num_expr l cfg cfgs
      and_then lhs λ a. do rhs ← compile_num_expr r cfg cfgs; map rhs (λ b. ok (arithmetic op a b))

    pub compile_str_expr :
        StrExpr → Config Number → Configs Number → Outcome (VarRes (Option Bytes))
    compile_str_expr (Syntax.str_var v) cfg cfgs = do
      r ← compile_var v cfg cfgs
      map r (λ a. ok (as_string a))
    compile_str_expr (Syntax.str str_str) cfg cfgs = ok (exactly (some (compile_str str_str)))
    compile_str_expr (Syntax.str_add l r) cfg cfgs = do
      lhs ← compile_str_expr l cfg cfgs
      and_then lhs λ a. do rhs ← compile_str_expr r cfg cfgs; map rhs (λ b. ok (concat a b))

    pub compile_bool_expr : BoolExpr → Config Number → Configs Number → Outcome Bool
    compile_bool_expr (Syntax.bool_var v) cfg cfgs = do
      r ← compile_var v cfg cfgs
      s ← map r (λ a. ok (is_set a))
      ok (resolve s)
    compile_bool_expr (Syntax.inv_bool_expr e) cfg cfgs = do
      b ← compile_bool_expr e cfg cfgs
      ok (not b)
    compile_bool_expr (Syntax.num_cmp_expr l op r) cfg cfgs = do
      lhs ← compile_num_expr l cfg cfgs
      s ← and_then lhs λ a. do rhs ← compile_num_expr r cfg cfgs; map rhs (λ b. ok (num_cmp op a b))
      ok (resolve s)
    compile_bool_expr (Syntax.str_cmp_expr l op r) cfg cfgs = do
      lhs ← compile_str_expr l cfg cfgs
      s ← and_then lhs λ a. do rhs ← compile_str_expr r cfg cfgs; map rhs (λ b. ok (str_cmp op a b))
      ok (resolve s)
    compile_bool_expr (Syntax.bool_op op l r) cfg cfgs = do
      let rhs = compile_bool_expr r cfg cfgs
      a ← compile_bool_expr l cfg cfgs
      short_circuit op a rhs

  unfoldable pub compile_value_expr :
      ValueExpr → Config Number → Configs Number → Outcome (VarRes (Value Number))
  compile_value_expr (Syntax.any_var v) cfg cfgs = compile_var v cfg cfgs
  compile_value_expr (Syntax.str_expr e) cfg cfgs = do
    r ← compile_str_expr e cfg cfgs
    map r λ s. ok (elim s [ none ↦ null | some t ↦ string t ])
  compile_value_expr (Syntax.num_expr e) cfg cfgs = do
    r ← compile_num_expr e cfg cfgs
    map r λ n. ok_or (from_f64 n) not_finite >>= λ a. ok (number a)
  compile_value_expr (Syntax.bool_expr e) cfg cfgs = do
    b ← compile_bool_expr e cfg cfgs
    map (exactly b) (λ c. ok (bool c))

  -- `compile_expr`: several values are none
  unfoldable pub compile_expr : ValueExpr → Config Number → Configs Number → Outcome (Value Number)
  compile_expr e cfg cfgs = do
    r ← compile_value_expr e cfg cfgs
    elim r [ exactly v ↦ ok v | _ ↦ ok null ]
