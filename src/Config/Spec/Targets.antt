-- ===== src/Config/Spec/Targets.antt =====
-- Where the pointers of a valid specification lead (backend/src/config/spec.rs).
use start_os.Common.{
  ◌≡◌, refl, inl, inr, Bool, true, false, ◌&&◌, ◌||◌, not, Option, none, some, List, if◌then◌else◌,
  ◌==◌, arith, ok, err, >>-eq-ok, Bool-cases, ==_iff,
}
use mathlib.Core.Path.{subst}
use start_os.Common.Map.{nat_key, contains}
use start_os.Status.{PackageId}
use start_os.S9pk.Bytes.{Bytes, bytes_beq}
use start_os.Config.Json.{
  Value, Items, Fields, null, bool, number, string, array, object, nil, item, get, get_or_null,
}
use start_os.Config.Spec.Syntax.{
  Crates, ValueSpecPointer, of_package, of_system, ValueSpecAny, ValueSpecList, enums, numbers,
  objects, strings, unions, ValueSpecObject, object_spec, ValueSpecUnion, union_spec, ConfigSpec,
  no_keys, key, Variants, no_more, variant,
}
use start_os.Config.Spec.Errors.{at-ok, Matched, NoMatchWithPath, name}
use start_os.Config.Spec.Validate.{
  package_id, validate_package, validate_pointer, validate_any, validate_list, validate_object,
  validate_union, validate_variants, validate_config,
}
use start_os.Config.Spec.Pointers.{
  requires_pointer, any_item, requires_item, requires_any, requires_list, requires_object,
  requires_union, requires_variant, requires_config,
}

module _ (crates : Crates) (manifest_id : PackageId) (dependencies : List PackageId)
    (id : PackageId) where
  open crates use {Number}

  -- the package itself or a dependency of it
  abbrev pub IsAllowed : Type 0
  IsAllowed = (manifest_id == id || contains id dependencies) ≡ true

  not_refused :
      (a b : Bool) (e : NoMatchWithPath crates)
      → ◌≡◌ {A = Matched crates} (if not a && not b then err e else ok tt) (ok tt)
      → (a || b) ≡ true
  not_refused true b e h = refl
  not_refused false true e h = refl
  not_refused false false e h = absurd (ground arith)

  pointer-IsAllowed :
      (spec : ValueSpecPointer crates)
      → validate_pointer crates manifest_id dependencies spec ≡ ok tt
      → requires_pointer crates id spec ≡ true
      → IsAllowed
  unfolding validate_pointer requires_pointer validate_package
  pointer-IsAllowed (of_package spec) h r =
      subst (λ k. (manifest_id == k || contains k dependencies) ≡ true)
        ((==_iff (package_id spec) id).0 r)
        (not_refused (manifest_id == package_id spec) (contains (package_id spec) dependencies) _ h)
  pointer-IsAllowed (of_system spec) h r = absurd (ground arith)

  any_item-IsAllowed :
      (p : Value Number → Bool) (l : Items Number)
      → ((v : Value Number) → p v ≡ true → IsAllowed)
      → any_item crates p l ≡ true
      → IsAllowed
  any_item-IsAllowed p nil f h = absurd (ground arith)
  any_item-IsAllowed p (item v rest) f h = elim (Bool-cases (p v)) [
    | inl hit ↦ f v hit
    | inr miss ↦ any_item-IsAllowed p rest f (ground arith)
  ]

  requires_item-IsAllowed :
      (p : Value Number → Bool) (value : Value Number)
      → ((v : Value Number) → p v ≡ true → IsAllowed)
      → requires_item crates p value ≡ true
      → IsAllowed
  requires_item-IsAllowed p (array l) f h = any_item-IsAllowed p l f h
  requires_item-IsAllowed p (object l) f h = absurd (ground arith)
  requires_item-IsAllowed p null f h = absurd (ground arith)
  requires_item-IsAllowed p (bool b) f h = absurd (ground arith)
  requires_item-IsAllowed p (number n) f h = absurd (ground arith)
  requires_item-IsAllowed p (string s) f h = absurd (ground arith)

  -- the variant is looked for where the tag is a string
  tagged :
      (tag : Option (Value Number)) {of_variant : Bytes → Bool}
      → ((t : Bytes) → of_variant t ≡ true → IsAllowed)
      → (elim tag as (λ _. Bool) [ some (string t) ↦ of_variant t | _ ↦ false ]) ≡ true
      → IsAllowed
  tagged none f h = absurd (ground arith)
  tagged (some (string t)) f h = f t h
  tagged (some null) f h = absurd (ground arith)
  tagged (some (bool b)) f h = absurd (ground arith)
  tagged (some (number n)) f h = absurd (ground arith)
  tagged (some (array l)) f h = absurd (ground arith)
  tagged (some (object o)) f h = absurd (ground arith)

  mutual
    unfolding validate_any requires_any

    any-IsAllowed :
        (spec : ValueSpecAny crates) (value : Value Number)
        → validate_any crates manifest_id dependencies spec ≡ ok tt
        → requires_any crates id spec value ≡ true
        → IsAllowed
    any-IsAllowed (ValueSpecAny.boolean d default) value h r = absurd (ground arith)
    any-IsAllowed (ValueSpecAny.enum d default spec) value h r = absurd (ground arith)
    any-IsAllowed (ValueSpecAny.list spec) value h r = list-IsAllowed spec value h r
    any-IsAllowed (ValueSpecAny.number d default nullable spec) value h r = absurd (ground arith)
    any-IsAllowed (ValueSpecAny.object d spec) value h r = object-IsAllowed spec value h r
    any-IsAllowed (ValueSpecAny.string d default nullable spec) value h r = absurd (ground arith)
    any-IsAllowed (ValueSpecAny.union d default spec) value h r = union-IsAllowed spec value h r
    any-IsAllowed (ValueSpecAny.pointer d spec) value h r = pointer-IsAllowed spec h r

    list-IsAllowed :
        (spec : ValueSpecList crates) (value : Value Number)
        → validate_list crates manifest_id dependencies spec ≡ ok tt
        → requires_list crates id spec value ≡ true
        → IsAllowed
    list-IsAllowed (enums d default range spec) value h r =
        requires_item-IsAllowed (λ v. false) value (λ v p. absurd (ground arith)) r
    list-IsAllowed (numbers d default range spec) value h r =
        requires_item-IsAllowed (λ v. false) value (λ v p. absurd (ground arith)) r
    list-IsAllowed (objects d default range spec) value h r =
        requires_item-IsAllowed (λ v. requires_object crates id spec v) value
          (λ v p. object-IsAllowed spec v h p) r
    list-IsAllowed (strings d default range spec) value h r =
        requires_item-IsAllowed (λ v. false) value (λ v p. absurd (ground arith)) r
    list-IsAllowed (unions d default range inner spec) value h r =
        requires_item-IsAllowed (λ v. requires_union crates id spec v) value
          (λ v p. union-IsAllowed spec v h p) r

    object-IsAllowed :
        (spec : ValueSpecObject crates) (value : Value Number)
        → validate_object crates manifest_id dependencies spec ≡ ok tt
        → requires_object crates id spec value ≡ true
        → IsAllowed
    object-IsAllowed (object_spec spec display_as unique_by) (object o) h r =
        config-IsAllowed spec o h r
    object-IsAllowed (object_spec spec display_as unique_by) null h r = absurd (ground arith)
    object-IsAllowed (object_spec spec display_as unique_by) (bool b) h r = absurd (ground arith)
    object-IsAllowed (object_spec spec display_as unique_by) (number n) h r = absurd (ground arith)
    object-IsAllowed (object_spec spec display_as unique_by) (string s) h r = absurd (ground arith)
    object-IsAllowed (object_spec spec display_as unique_by) (array l) h r = absurd (ground arith)

    union-IsAllowed :
        (spec : ValueSpecUnion crates) (value : Value Number)
        → validate_union crates manifest_id dependencies spec ≡ ok tt
        → requires_union crates id spec value ≡ true
        → IsAllowed
    union-IsAllowed (union_spec tag variants display_as unique_by) (object o) h r =
        tagged (get tag.id o) (λ t. variants-IsAllowed variants tag.id t o h) r
    union-IsAllowed (union_spec tag variants display_as unique_by) null h r = absurd (ground arith)
    union-IsAllowed (union_spec tag variants display_as unique_by) (bool b) h r =
        absurd (ground arith)
    union-IsAllowed (union_spec tag variants display_as unique_by) (number n) h r =
        absurd (ground arith)
    union-IsAllowed (union_spec tag variants display_as unique_by) (string s) h r =
        absurd (ground arith)
    union-IsAllowed (union_spec tag variants display_as unique_by) (array l) h r =
        absurd (ground arith)

    variants-IsAllowed :
        (variants : Variants crates) (tag t : Bytes) (o : Fields Number)
        → validate_variants crates manifest_id dependencies tag variants ≡ ok tt
        → requires_variant crates id variants t o ≡ true
        → IsAllowed
    variants-IsAllowed no_more tag t o h r = absurd (ground arith)
    variants-IsAllowed (variant n spec rest) tag t o h r =
        let valid =
          (>>-eq-ok _ (validate_variants crates manifest_id dependencies tag rest) tt h).0 in
        elim (Bool-cases (bytes_beq t n)) [
          | inl this ↦
              config-IsAllowed spec o
                (>>-eq-ok _ (validate_config crates manifest_id dependencies spec) tt valid).1
                (rw this at r)
          | inr other ↦
              variants-IsAllowed rest tag t o
                (>>-eq-ok _ (validate_variants crates manifest_id dependencies tag rest) tt h).1
                (rw other at r)
        ]

    config-IsAllowed :
        (spec : ConfigSpec crates) (o : Fields Number)
        → validate_config crates manifest_id dependencies spec ≡ ok tt
        → requires_config crates id spec o ≡ true
        → IsAllowed
    config-IsAllowed no_keys o h r = absurd (ground arith)
    config-IsAllowed (key n val rest) o h r =
        elim (Bool-cases (requires_any crates id val (get_or_null n o))) [
          | inl hit ↦
              any-IsAllowed val (get_or_null n o)
                (at-ok crates (name n) (validate_any crates manifest_id dependencies val)
                  (>>-eq-ok _ (validate_config crates manifest_id dependencies rest) tt h).0)
                hit
          | inr miss ↦
              config-IsAllowed rest o
                (>>-eq-ok _ (validate_config crates manifest_id dependencies rest) tt h).1
                (ground arith)
        ]

  -- In a configuration, a specification that `validate` accepts has pointers only to the package
  -- itself and to its dependencies, in lists and variants too.
  pub requires_config-IsAllowed :
      (spec : ConfigSpec crates) (o : Fields Number)
      → validate_config crates manifest_id dependencies spec ≡ ok tt
      → requires_config crates id spec o ≡ true
      → (manifest_id == id || contains id dependencies) ≡ true
  requires_config-IsAllowed spec o valid required = config-IsAllowed spec o valid required
