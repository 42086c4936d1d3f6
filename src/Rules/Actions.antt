-- ===== src/Rules/Actions.antt =====
-- The changes of a suggestion: `compile_del_action`, `compile_push_action` and `compile_set_action`
-- of system-images/compat/src/config/rules.rs. The randomness of the system is a source that each use
-- moves on.
pub mod Frame
pub mod Deletes
use start_os.Common.{Bool, none, some, List, if◌then◌else◌, Option, Result, ok, ok_or, ◌>>=◌}
use start_os.S9pk.Bytes.{Bytes}
use start_os.Config.Json.{Value, string, array, object, Items, nil, item, Fields, end, field, push}
use start_os.Config.CharSet.Gen.{Rng}
use start_os.Config.Spec.Syntax.{Entropy}
use start_os.Config.Spec.Text.{gen_entropy}
use start_os.Rules.Syntax.{Floats, Var, ValueExpr, DelAction, Config, Configs}
use start_os.Rules.Elements.{Outcome, no_characters}
use start_os.Rules.Eval.{compile_expr}
use start_os.Rules.Assign.{NotAssignable, Place, Reached, satisfies, compile_var_mut}

module _ {Number : Type 0} where
  -- `into_iter().filter(|item| !predicate(..)).collect()`
  unfoldable pub retain_items :
      (Value Number → Outcome Bool) → Items Number → Outcome (Items Number)
  retain_items p nil = ok nil
  retain_items p (item v rest) = do
    satisfied ← p v
    kept ← retain_items p rest
    ok (if satisfied then kept else item v kept)

  unfoldable pub retain_fields :
      (Value Number → Outcome Bool) → Fields Number → Outcome (Fields Number)
  retain_fields p end = ok end
  retain_fields p (field k v rest) = do
    satisfied ← p v
    kept ← retain_fields p rest
    ok (if satisfied then kept else field k v kept)

  unfoldable pub retain : (Value Number → Outcome Bool) → Value Number → Outcome (Value Number)
  unfolding retain_items retain_fields
  retain p (array l) = retain_items p l >>= λ kept. ok (array kept)
  retain p (object o) = retain_fields p o >>= λ kept. ok (object kept)
  retain p v = ok v

  -- the whole after a value is put in the place, if there is one
  abbrev pub assign : {W : Type 0} → Reached Number W → Value Number → W
  assign r v = elim r.place [ none ↦ r.whole | some p ↦ p.put v ]

  -- the whole after a list in the place is pushed to
  abbrev pub push_to : Value Number → Value Number → Value Number
  push_to (array l) v = array (push l v)
  push_to w v = w

-- `SetVariant`; the expression of `To` is compiled
pub data SetVariant (Number : Type 0) : Type 0 where
  to : ValueExpr → SetVariant Number
  to_value : Value Number → SetVariant Number
  to_entropy : Entropy → SetVariant Number

module _ (rng : Rng) (floats : Floats) where
  open rng use {Source}
  open floats use {Number}

  -- `Mutator`
  abbrev pub Mutator : Type 0
  Mutator = Config Number → Configs Number → Source → Outcome (Config Number × Source)

  unfoldable pub compile_del_action : DelAction → Result NotAssignable Mutator
  compile_del_action del = do
    list_mut ← compile_var_mut floats del.list
    ok λ cfg cfgs s. do
      r ← list_mut cfg cfgs
      elim r.place [
        | none ↦ ok (r.whole, s)
        | some p ↦ do
          kept ← retain (satisfies floats del.item_var del.predicate cfgs) p.focus
          ok (p.put kept, s)
      ]

  unfoldable pub compile_push_action : Var → Value Number → Result NotAssignable Mutator
  compile_push_action list value = do
    list_mut ← compile_var_mut floats list
    ok λ cfg cfgs s. do
      r ← list_mut cfg cfgs
      ok (elim r.place [ none ↦ r.whole | some p ↦ p.put (push_to p.focus value) ], s)

  unfoldable pub compile_set_action : Var → SetVariant Number → Result NotAssignable Mutator
  compile_set_action v (SetVariant.to e) = do
    get_mut ← compile_var_mut floats v
    ok λ cfg cfgs s. do
      val ← compile_expr floats e cfg cfgs
      r ← get_mut cfg cfgs
      ok (assign r val, s)
  compile_set_action v (to_value val) = do
    get_mut ← compile_var_mut floats v
    ok λ cfg cfgs s. do r ← get_mut cfg cfgs; ok (assign r val, s)
  compile_set_action v (to_entropy e) = do
    get_mut ← compile_var_mut floats v
    ok λ cfg cfgs s. do
      r ← get_mut cfg cfgs
      elim r.place [
        | none ↦ ok (r.whole, s)
        | some p ↦ do
          gen ← ok_or (gen_entropy rng e s) no_characters
          ok (p.put (string gen.0), gen.1)
      ]
