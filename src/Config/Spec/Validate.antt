-- ===== src/Config/Spec/Validate.antt =====
-- Whether a specification is consistent with itself and with the manifest: the methods `validate` of
-- backend/src/config/spec.rs. Of the manifest, the package's id and its dependencies are looked at.
use start_os.Common.{Bool, true, false, ◌&&◌, not, List, if◌then◌else◌, ◌==◌, ok, err, ◌>>◌}
use start_os.Common.Map.{nat_key, contains}
use start_os.Status.{PackageId}
use start_os.S9pk.Bytes.{Bytes, bytes_beq}
use start_os.Config.Spec.Syntax.{
  Crates, PackagePointerSpec, tor_key, tor_address, lan_address, config, ValueSpecPointer,
  of_package, of_system, ValueSpecAny, ValueSpecList, enums, numbers, objects, strings, unions,
  ValueSpecObject, object_spec, ValueSpecUnion, union_spec, ConfigSpec, no_keys, key, Variants,
  no_more, variant,
}
use start_os.Config.Spec.Errors.{Matched, MatchError, no_match, at, name}

module _ {crates : Crates} where
  unfoldable pub package_id : PackagePointerSpec crates → PackageId
  package_id (tor_key id interface) = id
  package_id (tor_address id interface) = id
  package_id (lan_address id interface) = id
  package_id (config id selector multi) = id

  -- `variant.0.get(..).is_some()`
  abbrev pub has_key : Bytes → ConfigSpec crates → Bool
  has_key k no_keys = false
  has_key k (key n val rest) = if bytes_beq k n then true else has_key k rest

module _ (crates : Crates) (manifest_id : PackageId) (dependencies : List PackageId) where
  unfoldable pub validate_package : PackagePointerSpec crates → Matched crates
  validate_package spec =
      if not (manifest_id == package_id spec) && not (contains (package_id spec) dependencies)
      then err (no_match crates (MatchError.invalid_pointer (of_package spec)))
      else ok tt

  unfoldable pub validate_pointer : ValueSpecPointer crates → Matched crates
  validate_pointer (of_package spec) = validate_package spec
  validate_pointer (of_system spec) = ok tt

  unfoldable mutual
    pub validate_any : ValueSpecAny crates → Matched crates
    validate_any (ValueSpecAny.boolean d default) = ok tt
    validate_any (ValueSpecAny.enum d default spec) = ok tt
    validate_any (ValueSpecAny.list spec) = validate_list spec
    validate_any (ValueSpecAny.number d default nullable spec) = ok tt
    validate_any (ValueSpecAny.object d spec) = validate_object spec
    validate_any (ValueSpecAny.string d default nullable spec) = ok tt
    validate_any (ValueSpecAny.union d default spec) = validate_union spec
    validate_any (ValueSpecAny.pointer d spec) = validate_pointer spec

    pub validate_list : ValueSpecList crates → Matched crates
    validate_list (enums d default range spec) = ok tt
    validate_list (numbers d default range spec) = ok tt
    validate_list (objects d default range spec) = validate_object spec
    validate_list (strings d default range spec) = ok tt
    validate_list (unions d default range inner spec) = validate_union spec

    pub validate_object : ValueSpecObject crates → Matched crates
    validate_object (object_spec spec display_as unique_by) = validate_config spec

    pub validate_union : ValueSpecUnion crates → Matched crates
    validate_union (union_spec tag variants display_as unique_by) =
        validate_variants tag.id variants

    pub validate_variants : Bytes → Variants crates → Matched crates
    validate_variants id no_more = ok tt
    validate_variants id (variant n spec rest) =
        (if has_key id spec
          then err (no_match crates (MatchError.property_matches_union_tag id n))
          else ok tt)
        >> validate_config spec
        >> validate_variants id rest

    pub validate_config : ConfigSpec crates → Matched crates
    validate_config no_keys = ok tt
    validate_config (key n val rest) = at crates (name n) (validate_any val) >> validate_config rest
