-- ===== src/Config/Spec/Gen.antt =====
-- The default configuration of a specification: the methods `gen` and `gen_with` of
-- backend/src/config/spec.rs, with the timeout of `Text`.
use start_os.Common.{
  ℕ, zero, suc, Option, none, some, List, [], ◌∷◌, if◌then◌else◌, leb, ltb, Result, ok, err, ◌>>=◌,
}
use start_os.S9pk.Bytes.{Bytes, bytes_beq}
use start_os.Config.Json.{
  Value, Items, Fields, null, bool, number, string, array, object, nil, item, end, field, insert,
  extend, push, count_items,
}
use start_os.Config.NumRange.{Bound, included, excluded, unbounded, above}
use start_os.Config.CharSet.Gen.{Rng}
use start_os.Config.Spec.Syntax.{
  Crates, ValueSpecAny, ValueSpecList, enums, numbers, objects, strings, unions, ValueSpecObject,
  object_spec, ValueSpecUnion, union_spec, ConfigSpec, no_keys, key, Variants, no_more, variant,
}
use start_os.Config.Spec.Errors.{MatchError, NoMatchWithPath, no_match}
use start_os.Config.Spec.Matches.{variant_keys}
use start_os.Config.Spec.Text.{GenFailure, Generated, gen_string}

module _ (crates : Crates) where
  open crates use {Number}

  -- `ConfigurationError`, as far as `gen` raises it, or a panic
  pub data ConfigurationError : Type 0 where
    failed : GenFailure → ConfigurationError
    refused : NoMatchWithPath crates → ConfigurationError

  -- the default of a number, which may be missing
  abbrev pub number_or_null : Option Number → Value Number
  number_or_null none = null
  number_or_null (some n) = number n

  abbrev pub texts : List Bytes → Items Number
  texts [] = nil
  texts (t ∷ rest) = item (string t) (texts rest)

  abbrev pub numbers_or_null : List (Option Number) → Items Number
  numbers_or_null [] = nil
  numbers_or_null (n ∷ rest) = item (number_or_null n) (numbers_or_null rest)

  abbrev pub objects_of : List (Fields Number) → Items Number
  objects_of [] = nil
  objects_of (o ∷ rest) = item (object o) (objects_of rest)

-- how many items are enough for a lower bound on their number
abbrev pub enough : Bound ℕ → ℕ
enough (included n) = n
enough (excluded n) = suc n
enough unbounded = 0

module _ (rng : Rng) (crates : Crates) (timeout : Option ℕ) where
  open rng use {Source}
  open crates use {Number}

  -- what is generated, and the random numbers that are left
  abbrev pub Outcome : Type 0 → Type 0
  Outcome A = Result (ConfigurationError crates) (A × Source)

  abbrev pub or_failed : Generated rng crates → Outcome (Value Number)
  or_failed (ok made) = ok made
  or_failed (err e) = err (failed e)

  -- the loop over the members of a list's default
  unfoldable pub gen_each :
      {A : Type 0}
      → (A → Source → Outcome (Value Number))
      → List A
      → Items Number
      → Source
      → Outcome (Items Number)
  gen_each gen_with [] res s = ok (res, s)
  gen_each gen_with (d ∷ rest) res s =
      gen_with d s >>= λ (v, s'). gen_each gen_with rest (push res v) s'

  -- The loop that fills a list of objects up to the lower bound of its range; each round adds an
  -- item, so the bound itself is fuel enough.
  unfoldable pub fill :
      (Source → Outcome (Value Number))
      → Bound ℕ
      → (fuel : ℕ) → Items Number
      → Source
      → Outcome (Items Number)
  fill gen start_bound zero ret s = ok (ret, s)
  fill gen start_bound (suc fuel) ret s =
      let more = gen s >>= λ (v, s'). fill gen start_bound fuel (push ret v) s' in
      if above leb ltb start_bound (count_items ret) then ok (ret, s) else more

  abbrev pub as_array : Outcome (Items Number) → Outcome (Value Number)
  as_array made = made >>= λ (l, s). ok (array l, s)

  unfoldable mutual
    pub gen_any : ValueSpecAny crates → Source → Outcome (Value Number)
    gen_any (ValueSpecAny.boolean d default) s = ok (bool default, s)
    gen_any (ValueSpecAny.enum d default spec) s = ok (string default, s)
    gen_any (ValueSpecAny.list spec) s = gen_list spec s
    gen_any (ValueSpecAny.number d default nullable spec) s = ok (number_or_null crates default, s)
    gen_any (ValueSpecAny.object d spec) s = gen_object spec s
    gen_any (ValueSpecAny.string d default nullable spec) s =
        or_failed (gen_string rng crates timeout spec default s)
    gen_any (ValueSpecAny.union d default spec) s = gen_union spec default s
    gen_any (ValueSpecAny.pointer d spec) s = ok (null, s)

    pub gen_list : ValueSpecList crates → Source → Outcome (Value Number)
    gen_list (enums d default range spec) s = ok (array (texts crates default), s)
    gen_list (numbers d default range spec) s = ok (array (numbers_or_null crates default), s)
    gen_list (objects d default range spec) s = as_array (
        fill (λ t. gen_object spec t) range.start_bound (enough (range.start_bound))
          (objects_of crates default) s)
    gen_list (strings d default range spec) s =
        as_array
          (gen_each (λ m t. or_failed (gen_string rng crates timeout spec m t)) default nil s)
    gen_list (unions d default range inner spec) s =
        as_array (gen_each (λ m t. gen_union spec m t) default nil s)

    pub gen_object : ValueSpecObject crates → Source → Outcome (Value Number)
    gen_object (object_spec spec display_as unique_by) s =
        gen_config spec end s >>= λ (o, s'). ok (object o, s')

    pub gen_union : ValueSpecUnion crates → Bytes → Source → Outcome (Value Number)
    gen_union (union_spec tag variants display_as unique_by) default s =
        gen_variant tag.id variants (variant_keys crates variants) default s

    -- the variant that the default names, with its tag in front
    pub gen_variant : Bytes → Variants crates → List Bytes → Bytes → Source → Outcome (Value Number)
    gen_variant id no_more all default s =
        err (refused (no_match crates (MatchError.union default all)))
    gen_variant id (variant n spec rest) all default s =
        let this = gen_config spec end s >>= λ (o, s').
        ok (object (extend (field id (string default) end) o), s') in
        let others = gen_variant id rest all default s in
        if bytes_beq default n then this else others

    -- `res` is what has been generated for the keys before
    pub gen_config : ConfigSpec crates → Fields Number → Source → Outcome (Fields Number)
    gen_config no_keys res s = ok (res, s)
    gen_config (key n val rest) res s =
        gen_any val s >>= λ (v, s'). gen_config rest (insert n v res) s'
