-- ===== src/Config/UniqueBy/Visit.antt =====
-- How `UniqueBy` of backend/src/config/util.rs is read and written as JSON.
mod Samples
use start_os.Common.{
  ◌≡◌, refl, ap, ◌∙◌, Option, none, some, [], ◌∷◌, if◌then◌else◌, true, false, Bool,
}
use start_os.S9pk.Bytes.{Bytes, bytes_beq}
use start_os.Config.Json.{
  Value, Items, Fields, null, bool, number, string, array, object, nil, item, end, field,
}
use start_os.Config.UniqueBy.{UniqueBy, Rules, any, all, exactly, not_unique, no_rules, rule}

-- "any" and "all"
abbrev pub any_key : Bytes
any_key = 97 ∷ 110 ∷ 121 ∷ []

abbrev pub all_key : Bytes
all_key = 97 ∷ 108 ∷ 108 ∷ []

-- `any(..)` and `all(..)` on rules that were read
abbrev pub with_rules : (Rules → UniqueBy) → Option Rules → Option UniqueBy
with_rules rules none = none
with_rules rules (some r) = some (rules r)

abbrev pub cons_rule : Option UniqueBy → Option Rules → Option Rules
cons_rule (some u) (some r) = some (rule u r)
cons_rule none _ = none
cons_rule (some _) none = none

-- `serde_json` refuses an object of which the visitor has left entries
abbrev pub all_read : {Number : Type 0} → Fields Number → Option UniqueBy → Option UniqueBy
all_read end u = u
all_read (field _ _ _) u = none

unfoldable mutual
  -- `visit_str`, `visit_map`, `visit_unit`; `none` is an error
  pub deserialize : {Number : Type 0} → Value Number → Option UniqueBy
  deserialize null = some not_unique
  deserialize (string key) = some (exactly key)
  deserialize (object o) = visit_map o
  deserialize _ = none

  -- the first key that is "any" or "all" decides, and must be the last one
  pub visit_map : {Number : Type 0} → Fields Number → Option UniqueBy
  visit_map end = none
  visit_map (field k v rest) =
      let read_any = all_read rest (with_rules any (deserialize_rules v)) in
      let read_all = all_read rest (with_rules all (deserialize_rules v)) in
      let others = visit_map rest in
      if bytes_beq k any_key then read_any else if bytes_beq k all_key then read_all else others

  -- `Vec<UniqueBy>`
  pub deserialize_rules : {Number : Type 0} → Value Number → Option Rules
  deserialize_rules (array l) = deserialize_items l
  deserialize_rules _ = none

  pub deserialize_items : {Number : Type 0} → Items Number → Option Rules
  deserialize_items nil = some no_rules
  deserialize_items (item v rest) = cons_rule (deserialize v) (deserialize_items rest)

module _ (Number : Type 0) where
  unfoldable mutual
    pub serialize : UniqueBy → Value Number
    serialize (any rules) = object (field any_key (array (serialize_rules rules)) end)
    serialize (all rules) = object (field all_key (array (serialize_rules rules)) end)
    serialize (exactly key) = string key
    serialize not_unique = null

    pub serialize_rules : Rules → Items Number
    serialize_rules no_rules = nil
    serialize_rules (rule u rest) = item (serialize u) (serialize_rules rest)

  mutual
    unfolding deserialize serialize

    serialize_lem : (u : UniqueBy) → deserialize (serialize u) ≡ some u
    serialize_lem (any rules) = ap (with_rules any) (serialize_rules_lem rules)
    serialize_lem (all rules) = ap (with_rules all) (serialize_rules_lem rules)
    serialize_lem (exactly key) = refl
    serialize_lem not_unique = refl

    serialize_rules_lem : (rules : Rules) → deserialize_items (serialize_rules rules) ≡ some rules
    serialize_rules_lem no_rules = refl
    serialize_rules_lem (rule u rest) =
        ap (λ r. cons_rule r (deserialize_items (serialize_rules rest))) (serialize_lem u)
        ∙ ap (cons_rule (some u)) (serialize_rules_lem rest)

  -- A rule that is written as JSON is read back as it was.
  pub deserialize-serialize_rule : (u : UniqueBy) → deserialize (serialize u) ≡ some u
  deserialize-serialize_rule u = serialize_lem u
