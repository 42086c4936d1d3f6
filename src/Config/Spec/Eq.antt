-- ===== src/Config/Spec/Eq.antt =====
-- When two values of one specification count as equal: the methods `eq` of
-- backend/src/config/spec.rs.
use start_os.Common.{Bool, false}
use start_os.S9pk.Bytes.{bytes_beq}
use start_os.Config.Json.{Value, bool, number, string, array, object, bool_beq, items_beq}
use start_os.Config.UniqueBy.{UniqueBy, eq}
use start_os.Config.Spec.Syntax.{
  Crates, ValueSpecAny, ValueSpecObject, object_spec, ValueSpecUnion, union_spec,
}

module _ (crates : Crates) where
  open crates use {Number, number_eq}

  unfoldable pub boolean_eq : Value Number → Value Number → Bool
  boolean_eq (bool lhs) (bool rhs) = bool_beq lhs rhs
  boolean_eq _ _ = false

  -- of an enum and of a string
  unfoldable pub string_eq : Value Number → Value Number → Bool
  string_eq (string lhs) (string rhs) = bytes_beq lhs rhs
  string_eq _ _ = false

  unfoldable pub number_spec_eq : Value Number → Value Number → Bool
  number_spec_eq (number lhs) (number rhs) = number_eq lhs rhs
  number_spec_eq _ _ = false

  unfoldable pub list_eq : Value Number → Value Number → Bool
  list_eq (array lhs) (array rhs) = items_beq number_eq lhs rhs
  list_eq _ _ = false

  unfoldable pub unique_by_eq : UniqueBy → Value Number → Value Number → Bool
  unique_by_eq unique_by (object lhs) (object rhs) = eq number_eq lhs rhs unique_by
  unique_by_eq unique_by _ _ = false

  unfoldable pub object_eq : ValueSpecObject crates → Value Number → Value Number → Bool
  object_eq (object_spec spec display_as unique_by) lhs rhs = unique_by_eq unique_by lhs rhs

  unfoldable pub union_eq : ValueSpecUnion crates → Value Number → Value Number → Bool
  union_eq (union_spec tag variants display_as unique_by) lhs rhs = unique_by_eq unique_by lhs rhs

  unfoldable pub any_spec_eq : ValueSpecAny crates → Value Number → Value Number → Bool
  any_spec_eq (ValueSpecAny.boolean d default) lhs rhs = boolean_eq lhs rhs
  any_spec_eq (ValueSpecAny.enum d default spec) lhs rhs = string_eq lhs rhs
  any_spec_eq (ValueSpecAny.list spec) lhs rhs = list_eq lhs rhs
  any_spec_eq (ValueSpecAny.number d default nullable spec) lhs rhs = number_spec_eq lhs rhs
  any_spec_eq (ValueSpecAny.object d spec) lhs rhs = object_eq spec lhs rhs
  any_spec_eq (ValueSpecAny.string d default nullable spec) lhs rhs = string_eq lhs rhs
  any_spec_eq (ValueSpecAny.union d default spec) lhs rhs = union_eq spec lhs rhs
  any_spec_eq (ValueSpecAny.pointer d spec) lhs rhs = false
