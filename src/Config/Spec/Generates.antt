-- ===== src/Config/Spec/Generates.antt =====
-- The default configuration matches its specification (backend/src/config/spec.rs).
use start_os.Common.{
  ℕ, ◌≡◌, refl, sym, inl, inr, true, Option, some, List, arith, ok, >>=-eq-ok, Bool-cases,
}
use mathlib.Core.Path.{subst}
use start_os.S9pk.Bytes.{Bytes, bytes_beq, bytes_key}
use start_os.Config.Json.{
  Value, Fields, bool, string, array, object, end, field, get, insert, extend, remove, is_distinct,
}
use start_os.Config.Json.Laws.{is_distinct-insert}
use start_os.Config.CharSet.Gen.{Rng}
use start_os.Config.Spec.Syntax.{
  Crates, ValueSpecList, enums, numbers, objects, strings, unions, ValueSpecAny, ValueSpecObject,
  object_spec, ValueSpecUnion, union_spec, ConfigSpec, no_keys, key, Variants, no_more, variant,
}
use start_os.Config.Spec.Matches.{
  matches_any, matches_value_list, matches_boolean, matches_enum, matches_number, matches_pointer,
  matches_object, matches_union, matches_variant, matches_config, nullable_or, variant_keys,
}
use start_os.Config.Spec.Gen.{
  number_or_null, texts, numbers_or_null, objects_of, gen_list, gen_any, gen_object, gen_union,
  gen_variant, gen_config,
}
use start_os.Config.Spec.Defaults.{
  HasDefaults, ListDefaults, ObjectDefaults, UnionDefaults, VariantDefaults, ConfigDefaults,
}
use start_os.Config.Spec.DefaultTexts.{made_value, string-matches}
use start_os.Config.Spec.MadeLists.{objects_default-match, objects_filled-match, unions-match}
use start_os.Config.Spec.MadeStrings.{strings-match}
use start_os.Config.Spec.Tagged.{GetsFrom, key-matches, tagged, union_tagged}

module _ (rng : Rng) (crates : Crates) (timeout : Option ℕ) where
  open rng use {Source}
  open crates use {Number}

  mutual
    unfolding HasDefaults gen_any gen_list matches_any matches_value_list matches_boolean
        matches_enum matches_pointer GetsFrom

    any-matches :
        (spec : ValueSpecAny crates) (s s' : Source) (v : Value Number)
        → HasDefaults rng crates timeout spec
        → gen_any rng crates timeout spec s ≡ ok (v, s')
        → matches_any crates spec v ≡ ok tt
    any-matches (ValueSpecAny.boolean d default) s s' v good h =
        subst (λ x. matches_boolean crates x ≡ ok tt)
          (made_value rng crates timeout (bool default) v s s' h) refl
    any-matches (ValueSpecAny.enum d default spec) s s' v good h =
        subst (λ x. matches_enum crates spec x ≡ ok tt)
          (made_value rng crates timeout (string default) v s s' h) (rw good refl)
    any-matches (ValueSpecAny.list spec) s s' v good h = list-matches spec s s' v good h
    any-matches (ValueSpecAny.number d default nullable spec) s s' v good h =
        subst (λ x. nullable_or crates nullable (matches_number crates spec) x ≡ ok tt)
          (made_value rng crates timeout (number_or_null crates default) v s s' h) good
    any-matches (ValueSpecAny.object d spec) s s' v good h = object-matches spec s s' v good h
    any-matches (ValueSpecAny.string d default nullable spec) s s' v good h =
        string-matches rng crates timeout spec nullable default s s' v good h
    any-matches (ValueSpecAny.union d default spec) s s' v good h =
        union-matches spec default s s' v good h
    any-matches (ValueSpecAny.pointer d spec) s s' v good h = refl

    list-matches :
        (spec : ValueSpecList crates) (s s' : Source) (v : Value Number)
        → ListDefaults rng crates timeout spec
        → gen_list rng crates timeout spec s ≡ ok (v, s')
        → matches_value_list crates spec v ≡ ok tt
    list-matches (enums d default range spec) s s' v good h =
        subst (λ x. matches_value_list crates (enums d default range spec) x ≡ ok tt)
          (made_value rng crates timeout (array (texts crates default)) v s s' h) good
    list-matches (numbers d default range spec) s s' v good h =
        subst (λ x. matches_value_list crates (numbers d default range spec) x ≡ ok tt)
          (made_value rng crates timeout (array (numbers_or_null crates default)) v s s' h) good
    list-matches (objects d default range spec) s s' v (inl good) h =
        objects_default-match rng crates timeout spec range (objects_of crates default) s s' v good
          h
    list-matches (objects d default range spec) s s' v (inr (good, repeats, all, few)) h =
        objects_filled-match rng crates timeout spec range (objects_of crates default) s s' v
          (λ t t' w. object-matches spec t t' w good) repeats all few h
    list-matches (strings d default range spec) s s' v good h =
        strings-match rng crates timeout d range spec default s s' v good h
    list-matches (unions d default range inner spec) s s' v (good, repeats, inside) h =
        unions-match rng crates timeout spec range default s s' v
          (λ m t t' w. union-matches spec m t t' w good) repeats inside h

    object-matches :
        (spec : ValueSpecObject crates) (s s' : Source) (v : Value Number)
        → ObjectDefaults rng crates timeout spec
        → gen_object rng crates timeout spec s ≡ ok (v, s')
        → matches_object crates spec v ≡ ok tt
    object-matches (object_spec spec display_as unique_by) s s' v good h =
        let ((o, s₁), made, e) = >>=-eq-ok (gen_config rng crates timeout spec end s) _ h in
        subst (λ x. matches_object crates (object_spec spec display_as unique_by) x ≡ ok tt)
          (made_value rng crates timeout (object o) v s₁ s' e)
          (config-matches spec end o s s₁ good refl made).1

    union-matches :
        (spec : ValueSpecUnion crates) (default : Bytes) (s s' : Source) (v : Value Number)
        → UnionDefaults rng crates timeout spec
        → gen_union rng crates timeout spec default s ≡ ok (v, s')
        → matches_union crates spec v ≡ ok tt
    union-matches (union_spec tag variants display_as unique_by) default s s' v good h =
        let (o, same, at_tag, matched) =
          variant-matches tag.id variants (variant_keys crates variants) default s s' v good h in
        subst (λ x. matches_union crates (union_spec tag variants display_as unique_by) x ≡ ok tt)
          (sym same)
          (union_tagged crates tag variants display_as unique_by o default at_tag matched)

    variant-matches :
        (id : Bytes) (variants : Variants crates) (all : List Bytes) (default : Bytes)
        (s s' : Source) (v : Value Number)
        → VariantDefaults rng crates timeout id variants
        → gen_variant rng crates timeout id variants all default s ≡ ok (v, s')
        → (o : Fields Number) × (v ≡ object o)
          × (get id o ≡ some (string default))
          × (matches_variant crates variants all default (remove id o) ≡ ok tt)
    variant-matches id no_more all default s s' v good h = absurd (ground arith)
    variant-matches id (variant n spec rest) all default s s' v good h =
        elim (Bool-cases (bytes_beq default n)) [
          | inl this ↦
              let ((o, s₁), made, e) =
                >>=-eq-ok (gen_config rng crates timeout spec end s) _ (rw this at h) in
              let (gets, matched, distinct) = config-matches spec end o s s₁ good.1 refl made in
              let (at_tag, rest_ok) =
                tagged crates id spec o default good.0 gets matched distinct in
              (
                extend (field id (string default) end) o,
                sym (
                    made_value rng crates timeout
                      (object (extend (field id (string default) end) o)) v s₁ s' e),
                at_tag,
                rw this rest_ok,
              )
          | inr other ↦
              let (o, same, at_tag, matched) =
                variant-matches id rest all default s s' v good.2 (rw other at h) in
              (o, same, at_tag, rw other matched)
        ]

    config-matches :
        (spec : ConfigSpec crates) (res o : Fields Number) (s s' : Source)
        → ConfigDefaults rng crates timeout spec
        → is_distinct res ≡ true
        → gen_config rng crates timeout spec res s ≡ ok (o, s')
        → GetsFrom crates spec res o
          × (matches_config crates spec o ≡ ok tt)
          × (is_distinct o ≡ true)
    config-matches no_keys res o s s' good d h =
        subst
          (λ x.
            GetsFrom crates no_keys res x
            × (matches_config crates no_keys x ≡ ok tt)
            × (is_distinct x ≡ true))
          (made_value rng crates timeout res o s s' h) (λ k e. refl, refl, d)
    config-matches (key n val rest) res o s s' good d h =
        let ((v, s₁), made, e) = >>=-eq-ok (gen_any rng crates timeout val s) _ h in
        let (gets, matched, distinct) =
          config-matches rest (insert n v res) o s₁ s' good.2 (is_distinct-insert n v res d) e in
        let (gets', matched') =
          key-matches crates n val rest res o v good.0 (any-matches val s s₁ v good.1 made) gets
            matched in
        (gets', matched', distinct)

  -- The configuration that is generated from a specification with good defaults matches the
  -- specification. The keys of a specification are distinct and none of a variant is the tag, as
  -- `validate` checks; the default of an enum, of a number, of a fixed string, and of a list of these
  -- matches; a random string has a usable set of characters and a timeout, and stands alone in a list
  -- of strings; a list of objects has a default that matches, or one whose objects do and which is
  -- filled with good ones that need not differ, not beyond its range; and so are those in a list of
  -- unions, whose length is in the range.
  pub gen_config-matches :
      (spec : ConfigSpec crates) (o : Fields Number) (s s' : Source)
      → ConfigDefaults rng crates timeout spec
      → gen_config rng crates timeout spec end s ≡ ok (o, s')
      → matches_config crates spec o ≡ ok tt
  gen_config-matches spec o s s' good h = (config-matches spec end o s s' good refl h).1
