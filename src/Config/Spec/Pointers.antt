-- ===== src/Config/Spec/Pointers.antt =====
-- The pointers of a specification that a configuration uses: the methods `requires` and `pointers` of
-- backend/src/config/spec.rs.
use start_os.Common.{
  Bool, false, ◌||◌, Option, none, some, List, [], ◌∷◌, ◌++◌, if◌then◌else◌, ◌==◌, Result, ok, err,
}
use start_os.Status.{PackageId}
use start_os.S9pk.Bytes.{Bytes, bytes_beq}
use start_os.Config.Json.{
  Value, Items, Fields, string, array, object, nil, item, end, field, get, get_or_null,
}
use start_os.Config.Spec.Syntax.{
  Crates, ValueSpecPointer, of_package, of_system, ValueSpecAny, ValueSpecList, enums, numbers,
  objects, strings, unions, ValueSpecObject, object_spec, ValueSpecUnion, union_spec, ConfigSpec,
  no_keys, key, Variants, no_more, variant,
}
use start_os.Config.Spec.Errors.{
  Kind, type_of, MatchError, NoMatchWithPath, no_match, prepend, name,
}
use start_os.Config.Spec.Matches.{variant_keys}
use start_os.Config.Spec.Validate.{package_id}

module _ (crates : Crates) where
  open crates use {Number}

  -- of each kind of pointer
  unfoldable pub requires_pointer : PackageId → ValueSpecPointer crates → Bool
  requires_pointer id (of_package spec) = package_id spec == id
  requires_pointer id (of_system spec) = false

  -- `ls.into_iter().any(..)`, and `false` for what is no list
  abbrev pub any_item : (Value Number → Bool) → Items Number → Bool
  any_item p nil = false
  any_item p (item v rest) = p v || any_item p rest

  abbrev pub requires_item : (Value Number → Bool) → Value Number → Bool
  requires_item p (array l) = any_item p l
  requires_item p _ = false

  unfoldable mutual
    pub requires_any : PackageId → ValueSpecAny crates → Value Number → Bool
    requires_any id (ValueSpecAny.boolean d default) value = false
    requires_any id (ValueSpecAny.enum d default spec) value = false
    requires_any id (ValueSpecAny.list spec) value = requires_list id spec value
    requires_any id (ValueSpecAny.number d default nullable spec) value = false
    requires_any id (ValueSpecAny.object d spec) value = requires_object id spec value
    requires_any id (ValueSpecAny.string d default nullable spec) value = false
    requires_any id (ValueSpecAny.union d default spec) value = requires_union id spec value
    requires_any id (ValueSpecAny.pointer d spec) value = requires_pointer id spec

    pub requires_list : PackageId → ValueSpecList crates → Value Number → Bool
    requires_list id (enums d default range spec) value = requires_item (λ v. false) value
    requires_list id (numbers d default range spec) value = requires_item (λ v. false) value
    requires_list id (objects d default range spec) value =
        requires_item (λ v. requires_object id spec v) value
    requires_list id (strings d default range spec) value = requires_item (λ v. false) value
    requires_list id (unions d default range inner spec) value =
        requires_item (λ v. requires_union id spec v) value

    pub requires_object : PackageId → ValueSpecObject crates → Value Number → Bool
    requires_object id (object_spec spec display_as unique_by) (object o) =
        requires_config id spec o
    requires_object id (object_spec spec display_as unique_by) value = false

    pub requires_union : PackageId → ValueSpecUnion crates → Value Number → Bool
    requires_union id (union_spec tag variants display_as unique_by) (object o) =
        elim (get tag.id o) as (λ _. Bool) [
          | some (string t) ↦ requires_variant id variants t o
          | _ ↦ false
        ]
    requires_union id (union_spec tag variants display_as unique_by) value = false

    pub requires_variant : PackageId → Variants crates → Bytes → Fields Number → Bool
    requires_variant id no_more t o = false
    requires_variant id (variant n spec rest) t o =
        let this = requires_config id spec o in
        let others = requires_variant id rest t o in if bytes_beq t n then this else others

    pub requires_config : PackageId → ConfigSpec crates → Fields Number → Bool
    requires_config id no_keys o = false
    requires_config id (key n val rest) o =
        requires_any id val (get_or_null n o) || requires_config id rest o

  -- `BTreeSet<ValueSpecPointer>`, as a list of its members
  abbrev pub Pointers : Type 0
  Pointers = Result (NoMatchWithPath crates) (List (ValueSpecPointer crates))

  -- The fold over the entries of a configuration that the specification knows: the first error wins.
  unfoldable pub fold_pointers :
      (Bytes → Value Number → Option Pointers) → Fields Number → Pointers → Pointers
  fold_pointers of_entry end acc = acc
  fold_pointers of_entry (field k v rest) acc =
      fold_pointers of_entry rest (elim (of_entry k v) as (λ _. Pointers) [
        | none ↦ acc
        | some found ↦ elim acc as (λ _. Pointers) [
          | err e ↦ err e
          | ok s₀ ↦ elim found as (λ _. Pointers) [
            | err e ↦ err (prepend crates (name k) e)
            | ok s₁ ↦ ok (s₀ ++ s₁)
          ]
        ]
      ])

  abbrev pub not_an_object : Value Number → Pointers
  not_an_object value = err (no_match crates (MatchError.invalid_type Kind.object (type_of value)))

  unfoldable mutual
    pub pointers_any : ValueSpecAny crates → Value Number → Pointers
    pointers_any (ValueSpecAny.boolean d default) value = ok []
    pointers_any (ValueSpecAny.enum d default spec) value = ok []
    pointers_any (ValueSpecAny.list spec) value = ok []
    pointers_any (ValueSpecAny.number d default nullable spec) value = ok []
    pointers_any (ValueSpecAny.object d spec) value = pointers_object spec value
    pointers_any (ValueSpecAny.string d default nullable spec) value = ok []
    pointers_any (ValueSpecAny.union d default spec) value = pointers_union spec value
    pointers_any (ValueSpecAny.pointer d spec) value = ok (spec ∷ [])

    pub pointers_object : ValueSpecObject crates → Value Number → Pointers
    pointers_object (object_spec spec display_as unique_by) (object o) =
        fold_pointers (λ k v. pointers_entry spec k v) o (ok [])
    pointers_object (object_spec spec display_as unique_by) value = not_an_object value

    pub pointers_union : ValueSpecUnion crates → Value Number → Pointers
    pointers_union (union_spec tag variants display_as unique_by) (object o) =
        elim (get tag.id o) as (λ _. Pointers) [
          | none ↦ err (no_match crates (MatchError.missing_tag tag.id))
          | some (string t) ↦ pointers_variant variants (variant_keys crates variants) t o
          | some other ↦ err (
              prepend crates (name tag.id)
                (no_match crates (MatchError.invalid_type Kind.string (type_of other))))
        ]
    pointers_union (union_spec tag variants display_as unique_by) value = not_an_object value

    pub pointers_variant : Variants crates → List Bytes → Bytes → Fields Number → Pointers
    pointers_variant no_more all t o = err (no_match crates (MatchError.union t all))
    pointers_variant (variant n spec rest) all t o =
        let this = fold_pointers (λ k v. pointers_entry spec k v) o (ok []) in
        let others = pointers_variant rest all t o in if bytes_beq t n then this else others

    -- the specification of the entry `k`, if there is one, at its value
    pub pointers_entry : ConfigSpec crates → Bytes → Value Number → Option Pointers
    pointers_entry no_keys k v = none
    pointers_entry (key n val rest) k v =
        let this = pointers_any val v in
        let others = pointers_entry rest k v in if bytes_beq k n then some this else others

  -- `ConfigSpec::pointers`; the calls of it above are written out
  unfoldable pub pointers_config : ConfigSpec crates → Fields Number → Pointers
  pointers_config spec o = fold_pointers (λ k v. pointers_entry spec k v) o (ok [])
