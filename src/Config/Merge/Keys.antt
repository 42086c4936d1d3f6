-- ===== src/Config/Merge/Keys.antt =====
-- What `merge_with` of backend/src/config/util.rs leaves under each key.
use start_os.Common.{
  ◌≡◌, refl, sym, ap, ◌∙◌, inl, inr, true, false, ◌&&◌, Option, none, some, if◌then◌else◌, arith,
  Option-cases, Bool-cases,
}
use start_os.S9pk.Bytes.{Bytes, bytes_beq, bytes_beq_iff}
use start_os.Config.Json.{
  Value, Fields, null, bool, number, string, array, object, end, field, get, insert_last, set,
  is_object, is_distinct, get_in, has_distinct_keys,
}
use start_os.Config.Json.Laws.{get-insert_last, get-set}
use start_os.Config.Merge.{merge_with, merge_fields}

module _ {Number : Type 0} where
  -- A value that only one side has is kept; where both have one, the two are merged.
  abbrev pub merge_both : Option (Value Number) → Option (Value Number) → Option (Value Number)
  merge_both none other = other
  merge_both (some a) none = some a
  merge_both (some a) (some b) = some (merge_with a b)

  merge_with-not_objects :
      (a b : Value Number) → (is_object a && is_object b) ≡ false → merge_with a b ≡ a
  unfolding merge_with
  merge_with-not_objects (object o) (object p) h = absurd (ground arith)
  merge_with-not_objects (object o) null h = refl
  merge_with-not_objects (object o) (bool b) h = refl
  merge_with-not_objects (object o) (number n) h = refl
  merge_with-not_objects (object o) (string t) h = refl
  merge_with-not_objects (object o) (array l) h = refl
  merge_with-not_objects null b h = refl
  merge_with-not_objects (bool x) b h = refl
  merge_with-not_objects (number n) b h = refl
  merge_with-not_objects (string t) b h = refl
  merge_with-not_objects (array l) b h = refl

  merge_both-none : (a : Option (Value Number)) → merge_both a none ≡ a
  merge_both-none none = refl
  merge_both-none (some a) = refl

  -- one round of the loop
  abbrev with_field : Bytes → Value Number → Fields Number → Fields Number
  with_field key val orig = elim (get key orig) [
    | none ↦ insert_last key val orig
    | some old ↦ if is_object old && is_object val then set key (merge_with old val) orig else orig
  ]

  get-with_field :
      (k j : Bytes) (v : Value Number) (orig : Fields Number)
      → get k (with_field j v orig)
        ≡ (if bytes_beq k j then merge_both (get j orig) (some v) else get k orig)
  get-with_field k j v orig = elim (Option-cases (get j orig)) [
    | inl missing ↦ ground (arith, get-insert_last k j v orig missing)
    | inr (old, found) ↦ elim (Bool-cases (is_object old && is_object v)) [
      | inl both ↦ ground (arith, get-set k j (merge_with old v) old orig found)
      | inr kept ↦ ground (arith, bytes_beq_iff k j, merge_with-not_objects old v kept)
    ]
  ]

  get-merge_fields :
      (k : Bytes) (orig other : Fields Number)
      → is_distinct other ≡ true
      → get k (merge_fields orig other) ≡ merge_both (get k orig) (get k other)
  unfolding merge_fields
  get-merge_fields k orig end distinct = sym (merge_both-none (get k orig))
  get-merge_fields k orig (field j v rest) distinct =
      get-merge_fields k (with_field j v orig) rest (ground arith)
      ∙ ap (λ a. merge_both a (get k rest)) (get-with_field k j v orig)
      ∙ elim (Bool-cases (bytes_beq k j)) [
        | inl same ↦
            let k≡j : k ≡ j = (bytes_beq_iff k j).0 same in
            let gone : get k rest ≡ none = ground arith in
            rw (same, gone)
              (merge_both-none (merge_both (get j orig) (some v))
                ∙ ap (λ i. merge_both (get i orig) (some v)) (sym k≡j))
        | inr other_key ↦ rw other_key
      ]

  -- After an object is merged with a value whose keys are distinct, a key that only one of them has
  -- keeps its value, and under a key that both have the two values are merged.
  pub merge_with-get :
      (k : Bytes) (orig : Fields Number) (other : Value Number)
      → has_distinct_keys other ≡ true
      → get_in k (merge_with (object orig) other) ≡ merge_both (get k orig) (get_in k other)
  unfolding merge_with
  merge_with-get k orig (object p) distinct = get-merge_fields k orig p distinct
  merge_with-get k orig null distinct = sym (merge_both-none (get k orig))
  merge_with-get k orig (bool b) distinct = sym (merge_both-none (get k orig))
  merge_with-get k orig (number n) distinct = sym (merge_both-none (get k orig))
  merge_with-get k orig (string t) distinct = sym (merge_both-none (get k orig))
  merge_with-get k orig (array l) distinct = sym (merge_both-none (get k orig))
