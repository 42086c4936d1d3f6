-- ===== src/Config/UniqueBy/Visit/Samples.antt =====
-- A rule of two keys, one of which must differ.
use start_os.Common.{ℕ, ◌≡◌, some, [], ◌∷◌}
use start_os.Config.UniqueBy.{UniqueBy, any, exactly, rule, no_rules}
use start_os.Config.UniqueBy.Visit.{deserialize, serialize, deserialize-serialize_rule}

abbrev name_or_id : UniqueBy
name_or_id = any (rule (exactly (1 ∷ [])) (rule (exactly (2 ∷ [])) no_rules))

deserialize-serialize_rule_example : deserialize (serialize ℕ name_or_id) ≡ some name_or_id
deserialize-serialize_rule_example = deserialize-serialize_rule ℕ name_or_id
