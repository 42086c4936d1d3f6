-- ===== src/Config/Spec/Matches.antt =====
-- Whether a value is consistent with a specification: the methods `matches` of
-- backend/src/config/spec.rs.
use start_os.Common.{
  ℕ, suc, Bool, true, false, ◌&&◌, ◌||◌, not, none, some, List, [], ◌∷◌, if◌then◌else◌, ◌==◌, leb,
  ltb, ok, err, ◌>>◌,
}
use start_os.Common.Map.{contains}
use start_os.S9pk.Bytes.{Bytes, bytes_beq, bytes_key}
use start_os.Config.Json.{
  Value, Items, Fields, null, string, number, array, object, bool, nil, item, get, get_or_null,
  remove, count_items,
}
use start_os.Config.NumRange
use start_os.Config.NumRange.{NumRange}
use start_os.Config.Spec.Syntax.{
  Crates, ValueSpecEnum, ValueSpecNumber, ValueSpecString, ValueSpecPointer, ValueSpecAny,
  ValueSpecList, enums, numbers, objects, strings, unions, ValueSpecObject, object_spec,
  ValueSpecUnion, union_spec, ConfigSpec, no_keys, key, Variants, no_more, variant,
}
use start_os.Config.Spec.Errors.{Kind, type_of, Matched, MatchError, no_match, at, name, index}
use start_os.Config.Spec.Eq.{string_eq, number_spec_eq, object_eq, union_eq}

module _ (crates : Crates) where
  open crates use {Number, as_f64, is_whole, le, lt, is_match}

  -- `InvalidType`, or `NotNullable` for `null`
  abbrev pub refuse : Kind → Value Number → Matched crates
  refuse expected null = err (no_match crates MatchError.not_nullable)
  refuse expected value = err (no_match crates (MatchError.invalid_type expected (type_of value)))

  unfoldable pub matches_boolean : Value Number → Matched crates
  matches_boolean (bool _) = ok tt
  matches_boolean value = refuse Kind.boolean value

  unfoldable pub matches_enum : ValueSpecEnum → Value Number → Matched crates
  matches_enum spec (string b) =
      if contains b spec.values
      then ok tt
      else err (no_match crates (MatchError.enum b spec.values))
  matches_enum spec value = refuse Kind.string value

  unfoldable pub matches_number : ValueSpecNumber crates → Value Number → Matched crates
  matches_number spec (number n) =
      if spec.integral && not (is_whole (as_f64 n))
      then err (no_match crates (MatchError.non_integral (as_f64 n)))
      else elim spec.range as (λ _. Matched crates) [
        | none ↦ ok tt
        | some range ↦
            if NumRange.contains le lt range (as_f64 n)
            then ok tt
            else err (no_match crates (MatchError.out_of_range range (as_f64 n)))
      ]
  matches_number spec value = refuse Kind.object value

  unfoldable pub matches_string : ValueSpecString crates → Value Number → Matched crates
  matches_string spec (string s) = elim spec.pattern as (λ _. Matched crates) [
    | none ↦ ok tt
    | some p ↦
        if is_match p.pattern s
        then ok tt
        else err (no_match crates (MatchError.pattern s p.pattern))
  ]
  matches_string spec value = refuse Kind.string value

  -- both kinds of pointers
  unfoldable pub matches_pointer : ValueSpecPointer crates → Value Number → Matched crates
  matches_pointer spec value = ok tt

  -- `WithNullable`
  abbrev pub nullable_or : Bool → (Value Number → Matched crates) → Value Number → Matched crates
  nullable_or true matches null = ok tt
  nullable_or true matches value = matches value
  nullable_or false matches value = matches value

  -- another item of the list that is equal to the item `v` at `i`
  abbrev pub has_equal :
      (Value Number → Value Number → Bool) → ℕ → Value Number → ℕ → Items Number → Bool
  has_equal eq i v i₂ nil = false
  has_equal eq i v i₂ (item v₂ rest) = not (i == i₂) && eq v v₂ || has_equal eq i v (suc i₂) rest

  -- the items from the `i`th on, of the whole list `l`
  unfoldable pub matches_items :
      (Value Number → Matched crates)
      → (Value Number → Value Number → Bool)
      → Items Number
      → ℕ
      → Items Number
      → Matched crates
  matches_items matches eq l i nil = ok tt
  matches_items matches eq l i (item v rest) =
      at crates (index i) (matches v)
      >> at crates (index i) (
          if has_equal eq i v 0 l
          then err (no_match crates MatchError.list_uniqueness_violation)
          else ok tt)
      >> matches_items matches eq l (suc i) rest

  -- `ListSpec`
  unfoldable pub matches_list :
      NumRange ℕ
      → (Value Number → Matched crates)
      → (Value Number → Value Number → Bool)
      → Value Number
      → Matched crates
  matches_list range matches eq (array l) =
      if NumRange.contains leb ltb range (count_items l)
      then matches_items matches eq l 0 l
      else err (no_match crates (MatchError.length_mismatch range (count_items l)))
  matches_list range matches eq value = refuse Kind.list value

  -- `self.variants.keys().cloned().collect()`
  unfoldable pub variant_keys : Variants crates → List Bytes
  variant_keys no_more = []
  variant_keys (variant n spec rest) = n ∷ variant_keys rest

  unfoldable mutual
    pub matches_any : ValueSpecAny crates → Value Number → Matched crates
    matches_any (ValueSpecAny.boolean d default) value = matches_boolean value
    matches_any (ValueSpecAny.enum d default spec) value = matches_enum spec value
    matches_any (ValueSpecAny.list spec) value = matches_value_list spec value
    matches_any (ValueSpecAny.number d default nullable spec) value =
        nullable_or nullable (matches_number spec) value
    matches_any (ValueSpecAny.object d spec) value = matches_object spec value
    matches_any (ValueSpecAny.string d default nullable spec) value =
        nullable_or nullable (matches_string spec) value
    matches_any (ValueSpecAny.union d default spec) value = matches_union spec value
    matches_any (ValueSpecAny.pointer d spec) value = matches_pointer spec value

    pub matches_value_list : ValueSpecList crates → Value Number → Matched crates
    matches_value_list (enums d default range spec) value =
        matches_list range (matches_enum spec) (string_eq crates) value
    matches_value_list (numbers d default range spec) value =
        matches_list range (matches_number spec) (number_spec_eq crates) value
    matches_value_list (objects d default range spec) value =
        matches_list range (λ v. matches_object spec v) (object_eq crates spec) value
    matches_value_list (strings d default range spec) value =
        matches_list range (matches_string spec) (string_eq crates) value
    matches_value_list (unions d default range inner spec) value =
        matches_list range (λ v. matches_union spec v) (union_eq crates spec) value

    pub matches_object : ValueSpecObject crates → Value Number → Matched crates
    matches_object (object_spec spec display_as unique_by) (object o) = matches_config spec o
    matches_object (object_spec spec display_as unique_by) value = refuse Kind.object value

    pub matches_union : ValueSpecUnion crates → Value Number → Matched crates
    matches_union (union_spec tag variants display_as unique_by) (object o) =
        elim (get tag.id o) as (λ _. Matched crates) [
          | some (string t) ↦ matches_variant variants (variant_keys variants) t (remove tag.id o)
          | _ ↦ err (no_match crates (MatchError.missing_tag tag.id))
        ]
    matches_union (union_spec tag variants display_as unique_by) value = refuse Kind.object value

    -- the variant that the tag `t` names, on the object without the tag
    pub matches_variant : Variants crates → List Bytes → Bytes → Fields Number → Matched crates
    matches_variant no_more all t o = err (no_match crates (MatchError.union t all))
    matches_variant (variant n spec rest) all t o =
        let this = matches_config spec o in
        let others = matches_variant rest all t o in if bytes_beq t n then this else others

    -- an entry that is missing counts as `null`
    pub matches_config : ConfigSpec crates → Fields Number → Matched crates
    matches_config no_keys o = ok tt
    matches_config (key n val rest) o =
        at crates (name n) (matches_any val (get_or_null n o)) >> matches_config rest o
