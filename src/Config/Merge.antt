-- ===== src/Config/Merge.antt =====
-- `MergeWith` of backend/src/config/util.rs on the values of the crate serde_json.
pub mod Keys
mod Samples
use start_os.Common.{◌&&◌, none, some, if◌then◌else◌}
use start_os.Config.Json.{Value, Fields, object, end, field, get, insert_last, set, is_object}

-- The loop over the fields of `other`, and the recursive call on two objects under one key.
unfoldable mutual
  pub merge_with : {Number : Type 0} → Value Number → Value Number → Value Number
  merge_with (object orig) (object other) = object (merge_fields orig other)
  merge_with self _ = self

  pub merge_fields : {Number : Type 0} → Fields Number → Fields Number → Fields Number
  merge_fields orig end = orig
  merge_fields orig (field key val rest) =
      merge_fields
        (elim (get key orig) [
          | none ↦ insert_last key val orig
          | some old ↦
              if is_object old && is_object val then set key (merge_with old val) orig else orig
        ])
        rest
