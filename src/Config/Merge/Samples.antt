-- ===== src/Config/Merge/Samples.antt =====
-- Part of the test `merge_with_tests` of backend/src/config/util.rs.
use start_os.Common.{ℕ, ◌≡◌, refl, [], ◌∷◌}
use start_os.S9pk.Bytes.{Bytes}
use start_os.Config.Json.{Value, number, string, object, Fields, end, field}
use start_os.Config.Merge.{merge_with, merge_fields}

abbrev key_a : Bytes
key_a = 97 ∷ []

abbrev key_b : Bytes
key_b = 98 ∷ []

abbrev key_c : Bytes
key_c = 99 ∷ []

-- {"a": 1, "c": {"a": 2}}
abbrev original : Fields ℕ
original = field key_a (number 1) (field key_c (object (field key_a (number 2) end)) end)

-- {"a": "b", "b": 3, "c": {"a": 4, "b": 5}}
abbrev other : Value ℕ
other = object (
    field key_a (string key_b) (
      field key_b (number 3)
        (field key_c (object (field key_a (number 4) (field key_b (number 5) end))) end)))

-- {"a": 1, "c": {"a": 2, "b": 5}, "b": 3}
merge_with_test :
    merge_with (object original) other
    ≡ object (
        field key_a (number 1) (
          field key_c
            (object (field key_a (number 2) (field key_b (number 5) end)))
            (field key_b (number 3) end)))
unfolding merge_with merge_fields
merge_with_test = refl
