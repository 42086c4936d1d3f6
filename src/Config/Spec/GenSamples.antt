-- ===== src/Config/Spec/GenSamples.antt =====
-- A specification with defaults, and what is generated from it.
use start_os.Common.{ℕ, ◌≡◌, refl, true, false, none, some, [], ◌∷◌, leb, ltb, ok, err, inr}
use start_os.Config.Json.{
  Value, Items, Fields, end, field, nil, item, array, string, object, count_items,
}
use start_os.Config.NumRange.{NumRange, included, excluded, unbounded, above}
use start_os.Config.CharSet.Samples.{lowest}
use start_os.Config.CharSet.Gen.{gen, pick}
use start_os.Config.UniqueBy.{not_unique}
use start_os.Config.Spec.Samples.{crates, about, password, three, IsUsable-three, tag}
use start_os.Config.Spec.Syntax.{
  ValueSpecAny, ValueSpecEnum, objects, enums, object_spec, union_spec, ConfigSpec, no_keys, key,
  entropy, no_more, variant,
}
use start_os.Config.Spec.Matches.{
  matches_config, matches_any, matches_list, matches_items, matches_enum,
}
use start_os.Config.Spec.Eq.{string_eq}
use start_os.Config.Spec.Text.{
  gen_string, try_candidates, gen_default, gen_entropy, gen_chars, encode_utf8,
}
use start_os.Config.Spec.Gen.{Outcome, gen_config, fill, enough}
use start_os.Config.Spec.Fill.{fill-above}
use start_os.Config.Spec.Defaults.{HasDefaults, ConfigDefaults}
use start_os.Config.Spec.Generates.{gen_config-matches}

abbrev colour : ValueSpecEnum
colour = record { values = (114 ∷ []) ∷ (103 ∷ []) ∷ []; value_names = [] }

abbrev choice : ValueSpecAny crates
choice = ValueSpecAny.union about (118 ∷ []) (
    union_spec tag
      (variant (118 ∷ []) (key (98 ∷ []) (ValueSpecAny.boolean about true) no_keys) no_more) none
      not_unique)

-- at least two objects, of which the default has none, and a colour
abbrev at_least : ℕ → NumRange ℕ
at_least n = record { start_bound = included n; end_bound = unbounded }

abbrev flag : ConfigSpec crates
flag = key (98 ∷ []) (ValueSpecAny.boolean about true) no_keys

abbrev pair : ValueSpecAny crates
pair = ValueSpecAny.list (objects about [] (at_least 2) (object_spec flag none not_unique))

abbrev colours : ValueSpecAny crates
colours = ValueSpecAny.list (enums about ((103 ∷ []) ∷ []) (at_least 1) colour)

abbrev defaults : ConfigSpec crates
defaults = key (97 ∷ []) (ValueSpecAny.enum about (103 ∷ []) colour) (
    key (112 ∷ []) (ValueSpecAny.string about (some (entropy three)) false password)
      (key (117 ∷ []) choice (key (108 ∷ []) pair (key (99 ∷ []) colours no_keys))))

ConfigDefaults-defaults : ConfigDefaults lowest crates (some 3) defaults
unfolding HasDefaults matches_any matches_list matches_items matches_enum string_eq
ConfigDefaults-defaults = (
  refl,
  refl,
  (
    refl,
    (IsUsable-three, (3, refl)),
    (
      refl,
      (refl, (refl, tt, tt), tt),
      (refl, inr ((refl, tt, tt), refl, tt, refl), (refl, refl, tt)),
    ),
  ),
)

abbrev state_of : Outcome lowest crates (some 3) (Fields ℕ) → Fields ℕ
state_of (ok (o, s)) = o
state_of (err e) = end

abbrev flagged : Value ℕ
flagged = object (field (98 ∷ []) (Value.bool true) end)

abbrev generated : Fields ℕ
generated = field (97 ∷ []) (string (103 ∷ [])) (
    field (112 ∷ []) (string (33 ∷ 33 ∷ 33 ∷ [])) (
      field (117 ∷ [])
        (object (field (116 ∷ []) (string (118 ∷ [])) (field (98 ∷ []) (Value.bool true) end)))
        (field (108 ∷ []) (array (item flagged (item flagged nil)))
          (field (99 ∷ []) (array (item (string (103 ∷ [])) nil)) end))))

defaults-generated : gen_config lowest crates (some 3) defaults end 5 ≡ ok (generated, 5)
unfolding gen_config fill gen_string try_candidates gen_default gen_entropy gen_chars gen pick
    encode_utf8
defaults-generated = refl

gen_config-matches_example : matches_config crates defaults generated ≡ ok tt
gen_config-matches_example =
    gen_config-matches lowest crates (some 3) defaults generated 5 5 ConfigDefaults-defaults
      defaults-generated

one_object : ℕ → Outcome lowest crates (some 3) (Value ℕ)
one_object t = ok (object end, t)

one_object-made : (t : ℕ) → (v : Value ℕ) × (t' : ℕ) × (one_object t ≡ ok (v, t'))
unfolding one_object
one_object-made t = (object end, t, refl)

fill-above_example :
    (l : Items ℕ) × (s' : ℕ) × (fill lowest crates
        (some 3)
        one_object
        (excluded 2)
        (enough (excluded 2))
        nil
        5
      ≡ ok (l, s'))
    × (above leb ltb (excluded 2) (count_items l) ≡ true)
fill-above_example = fill-above lowest crates (some 3) one_object (excluded 2) nil 5 one_object-made
