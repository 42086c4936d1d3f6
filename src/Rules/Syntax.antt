-- ===== src/Rules/Syntax.antt =====
-- The grammar of system-images/compat/src/config/rule_parser.pest, as the trees that the parser pest
-- builds of a rule; the operators of an expression are nested as the precedence climbers say. What the
-- rules use of floating-point numbers is a parameter.
use start_os.Common.{ℕ, Bool, Option, List}
use start_os.Common.Map.{Map}
use start_os.S9pk.Bytes.{Bytes}
use start_os.Config.Json.{Fields}

-- `f64`, with the numbers of serde_json
pub record Floats : Type 1 where
  pub Number : Type 0
  pub Float : Type 0
  pub as_f64 : Number → Float
  pub from_f64 : Float → Option Number
  -- `str::parse` and the `Display` of a number
  pub parse : Bytes → Option Float
  pub display : Number → Bytes
  pub zero : Float
  pub one : Float
  pub plus : Float → Float → Float
  pub minus : Float → Float → Float
  pub times : Float → Float → Float
  pub over : Float → Float → Float
  pub powf : Float → Float → Float
  -- `<`, `<=` and `==`
  pub less : Float → Float → Bool
  pub at_most : Float → Float → Bool
  pub equal : Float → Float → Bool
  -- `as usize`
  pub as_usize : Float → ℕ

pub data NumOp : Type 0 where
  add sub mul div pow : NumOp

pub data CmpOp : Type 0 where
  lt lte eq neq gt gte : CmpOp

pub data BoolOp : Type 0 where
  and or xor : BoolOp

mutual
  -- `app_id`, the first segment, and the rest
  pub data Var : Type 0 where
    var : (app_id : Option Bytes) → (first_seg : Bytes) → Segments → Var

  pub data Segments : Type 0 where
    here : Segments
    dot : SubIdent → Segments → Segments

  -- The functions are those of lists, with a variable for the item; a literal index is a `usize`.
  pub data SubIdent : Type 0 where
    any_item all_items : SubIdent
    first last any_where all_where : (item_var : Bytes) → (predicate : BoolExpr) → SubIdent
    regular_base : Bytes → SubIdent
    regular_expr : StrExpr → SubIdent
    index_base : ℕ → SubIdent
    index_expr : NumExpr → SubIdent

  pub data NumExpr : Type 0 where
    num_var : Var → NumExpr
    num : Bytes → NumExpr
    num_op : NumOp → NumExpr → NumExpr → NumExpr

  -- a literal with its quotes: its characters, each as its bytes
  pub data StrExpr : Type 0 where
    str_var : Var → StrExpr
    str : List Bytes → StrExpr
    str_add : StrExpr → StrExpr → StrExpr

  pub data BoolExpr : Type 0 where
    bool_var : Var → BoolExpr
    inv_bool_expr : BoolExpr → BoolExpr
    num_cmp_expr : NumExpr → CmpOp → NumExpr → BoolExpr
    str_cmp_expr : StrExpr → CmpOp → StrExpr → BoolExpr
    bool_op : BoolOp → BoolExpr → BoolExpr → BoolExpr

pub data ValueExpr : Type 0 where
  any_var : Var → ValueExpr
  str_expr : StrExpr → ValueExpr
  num_expr : NumExpr → ValueExpr
  bool_expr : BoolExpr → ValueExpr

-- `DELETE`: from a list or an object, what satisfies a predicate on a variable
pub record DelAction : Type 0 where
  pub list : Var
  pub item_var : Bytes
  pub predicate : BoolExpr

-- A `Config`, and the configurations by the packages' names: a `LinearMap`, of which `get` and
-- `insert` are used, which do not depend on the order of the keys
abbrev pub Config : Type 0 → Type 0
Config Number = Fields Number

abbrev pub Configs : Type 0 → Type 0
Configs Number = Map Bytes (Fields Number)
