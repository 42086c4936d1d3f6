-- ===== src/Config/UniqueBy.antt =====
-- `UniqueBy` of backend/src/config/util.rs: when two objects of a list count as equal.
pub mod Visit
use start_os.Common.{Bool, true, false, ◌&&◌, ◌||◌, Option, none, some}
use start_os.S9pk.Bytes.{Bytes}
use start_os.Config.Json.{Value, Fields, get, value_beq}

mutual
  pub data UniqueBy : Type 0 where
    any all : (rules : Rules) → UniqueBy
    exactly : Bytes → UniqueBy
    not_unique : UniqueBy

  pub data Rules : Type 0 where
    no_rules : Rules
    rule : UniqueBy → Rules → Rules

-- `==` of two lookups
unfoldable pub same_entry :
    {Number : Type 0}
    → (Number → Number → Bool)
    → Option (Value Number)
    → Option (Value Number)
    → Bool
same_entry eq none none = true
same_entry eq (some v) (some w) = value_beq eq v w
same_entry eq _ _ = false

module _ {Number : Type 0} (number_eq : Number → Number → Bool) (lhs rhs : Fields Number) where
  unfoldable mutual
    pub eq : UniqueBy → Bool
    eq (any rules) = any_eq rules
    eq (all rules) = all_eq rules
    eq (exactly key) = same_entry number_eq (get key lhs) (get key rhs)
    eq not_unique = false

    -- `any.iter().any(..)` and `all.iter().all(..)`
    pub any_eq : Rules → Bool
    any_eq no_rules = false
    any_eq (rule u rest) = eq u || any_eq rest

    pub all_eq : Rules → Bool
    all_eq no_rules = true
    all_eq (rule u rest) = eq u && all_eq rest
