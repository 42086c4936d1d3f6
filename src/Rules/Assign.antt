-- ===== src/Rules/Assign.antt =====
-- `compile_var_mut` of system-images/compat/src/config/rules.rs: the place in a configuration that a
-- path leads to. A `&mut` is what stands there and a function that puts another value in its place.
-- What a path enters is made where it is missing, and stays though the rest of the path fails.
pub mod Lens
pub mod Frame
pub mod Steps
pub mod RoundTrip
use start_os.Common.{
  ℕ, zero, suc, ◌-◌, Bool, Option, none, some, List, [], ◌∷◌, if◌then◌else◌, ◌==◌, ltb, Result, ok,
  err, ◌>>=◌,
}
use mathlib.Core.List.{reverse}
use start_os.S9pk.Bytes.{Bytes}
use start_os.Config.Json.{
  Value, null, array, object, Items, nil, item, Fields, end, field, get, insert, set, get_or_null,
  count_items, count_fields, push,
}
use start_os.Rules.VarRes.{VarRes, exactly}
use start_os.Rules.Syntax
use start_os.Rules.Syntax.{Floats, Var, Segments, SubIdent, Config, Configs}
use start_os.Rules.Elements.{parse_index, Outcome, to_list, values, at, or_null}
use start_os.Rules.Eval.{only, compile_bool_expr, compile_num_expr, compile_str_expr}

-- "Any and All are immutable", "invalid token", "Can only assign to relative path"
pub data NotAssignable : Type 0 where
  immutable invalid_token not_relative : NotAssignable

pub record Place (Number W : Type 0) : Type 0 where
  pub focus : Value Number
  pub put : Value Number → W

-- the whole as it is left, and the reference into it
pub record Reached (Number W : Type 0) : Type 0 where
  pub whole : W
  pub place : Option (Place Number W)

-- a position from the end, counted from the start
abbrev pub from_end : ℕ → ℕ → ℕ
from_end count idx = count - suc idx

module _ {Number : Type 0} where
  abbrev pub nowhere : {W : Type 0} → W → Reached Number W
  nowhere w = record { whole = w; place = none }

  abbrev pub set_item : ℕ → Value Number → Items Number → Items Number
  set_item idx w nil = nil
  set_item zero w (item v rest) = item w rest
  set_item (suc idx) w (item v rest) = item v (set_item idx w rest)

  abbrev pub set_value : ℕ → Value Number → Fields Number → Fields Number
  set_value idx w end = end
  set_value zero w (field k v rest) = field k w rest
  set_value (suc idx) w (field k v rest) = field k v (set_value idx w rest)

  -- `get_mut(idx)` of a list, and the n-th value of an object
  abbrev pub item_place : ℕ → Items Number → Reached Number (Value Number)
  item_place idx l = record {
    whole = array l;
    place =
        some (record { focus = or_null (at (to_list l) idx); put = λ w. array (set_item idx w l) });
  }

  abbrev pub value_place : ℕ → Fields Number → Reached Number (Value Number)
  value_place idx o = record {
    whole = object o;
    place =
        some
          (record { focus = or_null (at (values o) idx); put = λ w. object (set_value idx w o) });
  }

  -- where the first that satisfies a predicate stands, and the last
  unfoldable pub position : (Value Number → Outcome Bool) → List (Value Number) → Outcome (Option ℕ)
  position p [] = ok none
  position p (v ∷ rest) = do
    let later = position p rest
    satisfied ← p v
    if satisfied
        then ok (some 0)
        else later >>= λ n. ok (elim n [ none ↦ none | some idx ↦ some (suc idx) ])

  unfoldable pub last_position :
      ℕ → (Value Number → Outcome Bool) → List (Value Number) → Outcome (Option ℕ)
  unfolding position
  last_position count p l = do
    n ← position p (reverse l)
    ok (elim n [ none ↦ none | some idx ↦ some (from_end count idx) ])

  abbrev pub item_found : Items Number → Option ℕ → Reached Number (Value Number)
  item_found l none = nowhere (array l)
  item_found l (some idx) = item_place idx l

  abbrev pub value_found : Fields Number → Option ℕ → Reached Number (Value Number)
  value_found o none = nowhere (object o)
  value_found o (some idx) = value_place idx o

  -- a key is entered with `null` where it is missing
  abbrev pub entered : Bytes → Fields Number → Fields Number
  entered k o = elim (get k o) [ none ↦ insert k null o | some v ↦ o ]

  -- `get_mut` of the key, in what holds the fields
  abbrev pub entry : {W : Type 0} → (Fields Number → W) → Bytes → Fields Number → Reached Number W
  entry holds k o = record {
    whole = holds (entered k o);
    place =
        some (record {
          focus = get_or_null k (entered k o);
          put = λ w. holds (set k w (entered k o));
        });
  }

  -- the index of a list, of which the first beyond its end is pushed
  abbrev pub index : ℕ → Items Number → Reached Number (Value Number)
  index idx l =
      if ltb idx (count_items l)
      then item_place idx l
      else if idx == count_items l
      then item_place idx (push l null)
      else nowhere (array l)

  -- `deref(v, cfgs).and_then(|v| rest(v, cfgs))`
  abbrev pub beyond :
      {W : Type 0} → Place Number W → Reached Number (Value Number) → Reached Number W
  beyond p r = record {
    whole = p.put r.whole;
    place = elim r.place [
      | none ↦ none
      | some q ↦ some (record { focus = q.focus; put = λ w. p.put (q.put w) })
    ];
  }

  abbrev pub continue :
      {W : Type 0}
      → Reached Number W
      → (Value Number → Outcome (Reached Number (Value Number)))
      → Outcome (Reached Number W)
  continue d rest = elim d.place [ none ↦ ok d | some p ↦ rest p.focus >>= λ r. ok (beyond p r) ]

module _ (floats : Floats) where
  open floats use {Number, Float, as_usize}

  abbrev pub AccessorMut : Type 0
  AccessorMut = Value Number → Configs Number → Outcome (Reached Number (Value Number))

  abbrev pub CompiledReference : Type 0
  CompiledReference = Config Number → Configs Number → Outcome (Reached Number (Config Number))

  -- what the predicate of a function of lists says of an item
  abbrev pub satisfies : Bytes → Syntax.BoolExpr → Configs Number → Value Number → Outcome Bool
  satisfies item_var predicate cfgs i =
      compile_bool_expr floats predicate (only floats item_var i) cfgs

  -- `match (v, idx(..))` of the computed keys and indices
  abbrev pub named : Value Number → VarRes (Option Bytes) → Reached Number (Value Number)
  named (object o) (exactly (some k)) = entry object k o
  named v _ = nowhere v

  abbrev pub numbered : Value Number → VarRes Float → Reached Number (Value Number)
  numbered (array l) (exactly n) = index (as_usize n) l
  numbered v _ = nowhere v

  -- the closure of a literal index
  abbrev pub place_at : ℕ → Value Number → Reached Number (Value Number)
  place_at n (array l) = index n l
  place_at n v = nowhere v

  -- the accessor `deref` of a segment
  unfoldable pub deref_mut :
      SubIdent → Value Number → Configs Number → Outcome (Reached Number (Value Number))
  deref_mut (Syntax.first item_var predicate) (array l) cfgs = do
    n ← position (satisfies item_var predicate cfgs) (to_list l)
    ok (item_found l n)
  deref_mut (Syntax.first item_var predicate) (object o) cfgs = do
    n ← position (satisfies item_var predicate cfgs) (values o)
    ok (value_found o n)
  deref_mut (Syntax.last item_var predicate) (array l) cfgs = do
    n ← last_position (count_items l) (satisfies item_var predicate cfgs) (to_list l)
    ok (item_found l n)
  deref_mut (Syntax.last item_var predicate) (object o) cfgs = do
    n ← last_position (count_fields o) (satisfies item_var predicate cfgs) (values o)
    ok (value_found o n)
  deref_mut (Syntax.regular_base idx) (object o) cfgs = ok (entry object idx o)
  deref_mut (Syntax.regular_expr idx) v cfgs = do
    names ← compile_str_expr floats idx end cfgs
    ok (named v names)
  deref_mut (Syntax.index_base idx) v cfgs = do n ← parse_index idx; ok (place_at n v)
  deref_mut (Syntax.index_expr idx) v cfgs = do
    numbers ← compile_num_expr floats idx end cfgs
    ok (numbered v numbers)
  deref_mut _ v cfgs = ok (nowhere v)

  -- the segments that have no such accessor
  abbrev pub accessor_mut : SubIdent → Result NotAssignable AccessorMut
  accessor_mut Syntax.any_item = err invalid_token
  accessor_mut Syntax.all_items = err invalid_token
  accessor_mut (Syntax.any_where item_var predicate) = err immutable
  accessor_mut (Syntax.all_where item_var predicate) = err immutable
  accessor_mut idx = ok (deref_mut idx)

  -- `deref` and then the rest of the path, if there is more of it
  abbrev pub followed : AccessorMut → Option AccessorMut → AccessorMut
  followed deref none v cfgs = deref v cfgs
  followed deref (some rest) v cfgs = deref v cfgs >>= λ d. continue d (λ w. rest w cfgs)

  unfoldable pub compile_var_mut_rec : Segments → Result NotAssignable (Option AccessorMut)
  compile_var_mut_rec Syntax.here = ok none
  compile_var_mut_rec (Syntax.dot idx ident) = do
    deref ← accessor_mut idx
    rest ← compile_var_mut_rec ident
    ok (some (followed deref rest))

  -- the closure of `compile_var_mut`
  abbrev pub started : Bytes → Option AccessorMut → CompiledReference
  started first_seg none cfg cfgs = ok (entry (λ c. c) first_seg cfg)
  started first_seg (some rest) cfg cfgs =
      continue (entry (λ c. c) first_seg cfg) (λ w. rest w cfgs)

  unfoldable pub compile_var_mut : Var → Result NotAssignable CompiledReference
  compile_var_mut (Syntax.var (some app_id) first_seg path) = err not_relative
  compile_var_mut (Syntax.var none first_seg path) = do
    rest ← compile_var_mut_rec path
    ok (started first_seg rest)
