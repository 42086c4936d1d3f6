-- ===== src/Config/Spec/Tagged.antt =====
-- How the entries of a configuration come together when it is generated
-- (backend/src/config/spec.rs).
use start_os.Common.{
  ◌≡◌, refl, sym, ap, ◌∙◌, inl, inr, true, false, Option, none, some, arith, ok, err, Bool-cases,
}
use mathlib.Core.Path.{subst}
use mathlib.Core.Bool.{false≢true}
use start_os.S9pk.Bytes.{Bytes, bytes_beq, bytes_beq_iff, bytes_key}
use start_os.Config.Json.{
  Value, Fields, string, object, end, field, get, get_or_null, insert, extend, remove, is_distinct,
}
use start_os.Config.Json.Laws.{get-insert, get-extend, get-remove}
use start_os.Config.UniqueBy.{UniqueBy}
use start_os.Config.Spec.Syntax.{
  Crates, ValueSpecAny, union_spec, UnionTag, ConfigSpec, key, Variants,
}
use start_os.Config.Spec.Errors.{Matched, MatchError, no_match}
use start_os.Config.Spec.Validate.{has_key}
use start_os.Config.Spec.Matches.{
  matches_any, matches_union, matches_variant, matches_config, variant_keys,
}
use start_os.Config.Spec.Agree.{bytes_beq_refl, matches_config-agree}

module _ (crates : Crates) where
  open crates use {Number}

  -- a key of the specification is none that is not
  key_differs :
      (k id : Bytes) (spec : ConfigSpec crates)
      → has_key k spec ≡ true
      → has_key id spec ≡ false
      → bytes_beq k id ≡ false
  key_differs k id spec known absent = elim (Bool-cases (bytes_beq k id)) [
    | inl same ↦ absurd (
        false≢true
          (sym absent ∙ subst (λ j. has_key j spec ≡ true) ((bytes_beq_iff k id).0 same) known))
    | inr other ↦ other
  ]

  or_nothing :
      (a b : Option (Value Number))
      → b ≡ none
      → elim a as (λ _. Option (Value Number)) [ none ↦ b | some v ↦ some v ] ≡ a
  or_nothing none b h = h
  or_nothing (some v) b h = refl

  -- keys that the specification does not have are those of `res`
  unfoldable pub GetsFrom : ConfigSpec crates → Fields Number → Fields Number → Type 0
  GetsFrom spec res o = (k : Bytes) → has_key k spec ≡ false → get k o ≡ get k res

  -- what is generated for one key, before those that follow
  pub key-matches :
      (n : Bytes) (val : ValueSpecAny crates) (rest : ConfigSpec crates) (res o : Fields Number)
      (v : Value Number)
      → has_key n rest ≡ false
      → matches_any crates val v ≡ ok tt
      → GetsFrom rest (insert n v res) o
      → matches_config crates rest o ≡ ok tt
      → GetsFrom (key n val rest) res o × (matches_config crates (key n val rest) o ≡ ok tt)
  unfolding GetsFrom matches_config
  key-matches n val rest res o v fresh matched gets others =
      let here : get n o ≡ some v =
        gets n fresh ∙ get-insert n n v res ∙ rw (bytes_beq_refl n) refl in
      let value : get_or_null n o ≡ v = rw (get_or_null, here) refl in
      (
        λ k absent. elim (Bool-cases (bytes_beq k n)) [
          | inl this ↦ absurd (ground (arith, rw this at absent))
          | inr other ↦ gets k (rw other at absent) ∙ get-insert k n v res ∙ rw other refl
        ],
        rw (value, matched, others) refl,
      )

  -- what is generated for a variant, with the tag
  pub tagged :
      (id : Bytes) (spec : ConfigSpec crates) (o : Fields Number) (t : Bytes)
      → has_key id spec ≡ false
      → GetsFrom spec end o
      → matches_config crates spec o ≡ ok tt
      → is_distinct o ≡ true
      → (get id (extend (field id (string t) end) o) ≡ some (string t))
        × (matches_config crates spec (remove id (extend (field id (string t) end) o)) ≡ ok tt)
  unfolding GetsFrom
  tagged id spec o t absent gets matched distinct =
      let both = λ (k : Bytes). get-extend k (field id (string t) end) o distinct in
      let at_tag : get id (extend (field id (string t) end) o) ≡ some (string t) =
        both id ∙ rw (gets id absent, bytes_beq_refl id) refl in
      (
        at_tag,
        matches_config-agree crates spec o (remove id (extend (field id (string t) end) o))
            (λ k known.
              let other : bytes_beq k id ≡ false = key_differs k id spec known absent in
              get-remove k id (extend (field id (string t) end) o)
              ∙ rw other (both k)
              ∙ or_nothing (get k o) (get k (field id (string t) end)) (rw other refl))
            matched,
      )

  pub union_tagged :
      (tag : UnionTag) (variants : Variants crates) (display_as : Option Bytes)
      (unique_by : UniqueBy) (o : Fields Number) (t : Bytes)
      → get tag.id o ≡ some (string t)
      → matches_variant crates variants (variant_keys crates variants) t (remove tag.id o) ≡ ok tt
      → matches_union crates (union_spec tag variants display_as unique_by) (object o) ≡ ok tt
  unfolding matches_union
  union_tagged tag variants display_as unique_by o t at_tag matched =
      ap
        (λ found. elim found as (λ _. Matched crates) [
          | some (string t) ↦
              matches_variant crates variants (variant_keys crates variants) t (remove tag.id o)
          | _ ↦ err (no_match crates (MatchError.missing_tag tag.id))
        ])
        at_tag
      ∙ matched
