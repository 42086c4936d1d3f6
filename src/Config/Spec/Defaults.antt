-- ===== src/Config/Spec/Defaults.antt =====
-- Defaults with which a generated configuration matches its specification
-- (backend/src/config/spec.rs).
use start_os.Common.{
  ℕ, ◌≡◌, Bool, true, false, Option, none, some, ok, List, [], ◌∷◌, ◌⊎◌, if◌then◌else◌, leb, ltb,
  length,
}
use start_os.Common.Map.{contains}
use start_os.S9pk.Bytes.{Bytes, bytes_key}
use start_os.Config.Json.{string, array, count_items}
use start_os.Config.CharSet.Gen.{Rng}
use start_os.Config.Spec.Syntax.{
  Crates, WithDescription, ValueSpecList, enums, numbers, objects, strings, unions, DefaultString,
  literal, entropy, ValueSpecString, ValueSpecAny, ValueSpecObject, object_spec, ValueSpecUnion,
  union_spec, ConfigSpec, no_keys, key, Variants, no_more, variant,
}
use start_os.Config.Spec.Validate.{has_key}
use start_os.Config.Spec.Matches.{
  matches_number, matches_string, matches_value_list, matches_object, nullable_or,
}
use start_os.Config.Spec.Patterns.{IsUsable}
use start_os.Config.NumRange
use start_os.Config.NumRange.{NumRange, below}
use start_os.Config.UniqueBy.{UniqueBy, not_unique}
use start_os.Config.Spec.Made.{AllMatch}
use start_os.Config.Spec.Gen.{number_or_null, texts, numbers_or_null, objects_of, enough}

abbrev pub is_not_unique : UniqueBy → Bool
is_not_unique not_unique = true
is_not_unique _ = false

-- how long a list of objects gets: its default, filled up to the lower bound
abbrev pub filled : NumRange ℕ → ℕ → ℕ
filled range n = if leb (enough (range.start_bound)) n then n else enough (range.start_bound)

module _ (crates : Crates) where
  open crates use {Number}

  -- items of the list need not differ
  abbrev pub objects_repeat : ValueSpecObject crates → Bool
  objects_repeat (object_spec spec display_as unique_by) = is_not_unique unique_by

  abbrev pub unions_repeat : ValueSpecUnion crates → Bool
  unions_repeat (union_spec tag variants display_as unique_by) = is_not_unique unique_by

  abbrev pub literals : List Bytes → List (Option DefaultString)
  literals [] = []
  literals (t ∷ ts) = some (literal t) ∷ literals ts

  abbrev pub FixedStrings :
      WithDescription → List (Option DefaultString) → NumRange ℕ → ValueSpecString crates → Type 0
  FixedStrings d default range spec =
      (ts : List Bytes) × (default ≡ literals ts)
      × (matches_value_list crates (strings d default range spec) (array (texts crates ts)) ≡ ok tt)

module _ (rng : Rng) (crates : Crates) (timeout : Option ℕ) where
  open rng use {Source}
  open crates use {Number}

  -- what is asked of the default of a string: a random one needs a timeout, without which the first
  -- candidate is taken as it is
  abbrev pub StringDefaults : ValueSpecString crates → Bool → Option DefaultString → Type 0
  StringDefaults spec nullable none = nullable ≡ true
  StringDefaults spec nullable (some (literal t)) = matches_string crates spec (string t) ≡ ok tt
  StringDefaults spec nullable (some (entropy e)) =
      IsUsable e.charset × ((rounds : ℕ) × (timeout ≡ some rounds))

  -- The default is fixed strings, which match the list, or one string.
  unfoldable pub StringsDefaults :
      WithDescription → List (Option DefaultString) → NumRange ℕ → ValueSpecString crates → Type 0
  StringsDefaults d (m ∷ []) range spec =
      StringDefaults spec false m × (NumRange.contains leb ltb range 1 ≡ true)
  StringsDefaults d [] range spec = FixedStrings crates d [] range spec
  StringsDefaults d (m ∷ n ∷ rest) range spec = FixedStrings crates d (m ∷ n ∷ rest) range spec

  unfoldable mutual
    pub HasDefaults : ValueSpecAny crates → Type 0
    HasDefaults (ValueSpecAny.boolean d default) = Unit
    HasDefaults (ValueSpecAny.enum d default spec) = contains default spec.values ≡ true
    HasDefaults (ValueSpecAny.list spec) = ListDefaults spec
    HasDefaults (ValueSpecAny.number d default nullable spec) =
        nullable_or crates nullable (matches_number crates spec) (number_or_null crates default)
        ≡ ok tt
    HasDefaults (ValueSpecAny.object d spec) = ObjectDefaults spec
    HasDefaults (ValueSpecAny.string d default nullable spec) = StringDefaults spec nullable default
    HasDefaults (ValueSpecAny.union d default spec) = UnionDefaults spec
    HasDefaults (ValueSpecAny.pointer d spec) = Unit

    -- The default matches, or the objects that are generated behind it are good, may repeat, and do not
    -- exceed the range; and so are the unions of which a list is generated.
    pub ListDefaults : ValueSpecList crates → Type 0
    ListDefaults (enums d default range spec) =
        matches_value_list crates (enums d default range spec) (array (texts crates default))
        ≡ ok tt
    ListDefaults (numbers d default range spec) =
        matches_value_list crates (numbers d default range spec)
          (array (numbers_or_null crates default))
        ≡ ok tt
    ListDefaults (objects d default range spec) =
        (matches_value_list crates (objects d default range spec)
            (array (objects_of crates default))
          ≡ ok tt)
        ⊎ (ObjectDefaults spec
            × (objects_repeat crates spec ≡ true)
            × AllMatch crates (λ v. matches_object crates spec v) (objects_of crates default)
            × (below leb ltb range.end_bound
                  (filled range (count_items (objects_of crates default)))
                ≡ true))
    ListDefaults (strings d default range spec) = StringsDefaults d default range spec
    ListDefaults (unions d default range inner spec) =
        UnionDefaults spec
        × (unions_repeat crates spec ≡ true)
        × (NumRange.contains leb ltb range (length default) ≡ true)

    pub ObjectDefaults : ValueSpecObject crates → Type 0
    ObjectDefaults (object_spec spec display_as unique_by) = ConfigDefaults spec

    pub UnionDefaults : ValueSpecUnion crates → Type 0
    UnionDefaults (union_spec tag variants display_as unique_by) = VariantDefaults tag.id variants

    -- no variant has the tag as a key
    pub VariantDefaults : Bytes → Variants crates → Type 0
    VariantDefaults id no_more = Unit
    VariantDefaults id (variant n spec rest) =
        (has_key id spec ≡ false) × ConfigDefaults spec × VariantDefaults id rest

    -- the keys are distinct
    pub ConfigDefaults : ConfigSpec crates → Type 0
    ConfigDefaults no_keys = Unit
    ConfigDefaults (key n val rest) =
        (has_key n rest ≡ false) × HasDefaults val × ConfigDefaults rest
