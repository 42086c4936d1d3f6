-- ===== src/Config/Spec/Samples.antt =====
-- A specification with a pointer in an object, one in a list and one in a variant.
use start_os.Common.{
  ◌↔◌, some, err, ◌⊎◌, inr, arith, ℕ, ◌≡◌, refl, true, false, none, List, [], ◌∷◌, ◌||◌, ◌==◌, any,
  leb, ltb, ok,
}
use start_os.Common.Map.{nat_key, contains}
use start_os.S9pk.Bytes.{Bytes}
use start_os.Config.Json.{
  Value, Fields, field, end, object, array, string, item, nil, fields_distinct,
}
use start_os.Config.NumRange.{NumRange, unbounded}
use start_os.Config.UniqueBy.{not_unique}
use start_os.Config.Spec.Syntax.{
  Crates, WithDescription, PackagePointerSpec, tor_address, lan_address, ValueSpecPointer,
  of_package, ValueSpecAny, objects, ValueSpecObject, object_spec, ValueSpecUnion, union_spec,
  UnionTag, Entropy, entropy, ValueSpecString, ConfigSpec, no_keys, key, no_more, variant,
}
use start_os.Config.Spec.Validate.{validate_config, validate_pointer, validate_package, package_id}
use start_os.Config.Spec.Pointers.{
  requires_pointer, requires_config, fold_pointers, pointers_entry, pointers_config,
}
use start_os.Config.Spec.Targets.{requires_config-IsAllowed}
use start_os.Config.CharSet.Samples.{lowest}
use start_os.Config.Spec.Text.{timed_out, gen_string}
use start_os.Config.Spec.Patterns.{IsUsable, gen_string-matches}
use start_os.Config.Spec.Matches.{matches_string, matches_items, matches_list}
use start_os.Config.Spec.Eq.{string_eq}
use start_os.Config.Spec.Lists.{MatchesList, matches_list_iff}
use start_os.Config.Spec.Live.{pointers_config-requires}

-- numbers are natural, a pattern is the one string that it matches
abbrev pub crates : Crates
crates = record {
  Number = ℕ;
  number_eq = ◌==◌;
  Float = ℕ;
  as_f64 = λ n. n;
  is_whole = λ n. true;
  le = leb;
  lt = ltb;
  Regex = Bytes;
  is_match = λ p s. true;
  Selector = Bytes;
}

abbrev pub about : WithDescription
about = record { description = none; name = 65 ∷ []; warning = none }

abbrev point : PackagePointerSpec crates → ValueSpecAny crates
point p = ValueSpecAny.pointer about (of_package p)

abbrev peer : ValueSpecObject crates
peer = object_spec (key (98 ∷ []) (point (tor_address 2 (120 ∷ []))) no_keys) none not_unique

abbrev pub tag : UnionTag
tag = record { id = 116 ∷ []; name = 84 ∷ []; description = none; variant_names = [] }

abbrev choice : ValueSpecUnion crates
choice =
    union_spec tag
      (variant (118 ∷ []) (key (99 ∷ []) (point (lan_address 3 (121 ∷ []))) no_keys) no_more) none
      not_unique

abbrev pub everything : NumRange ℕ
everything = record { start_bound = unbounded; end_bound = unbounded }

abbrev spec : ConfigSpec crates
spec = key (97 ∷ []) (ValueSpecAny.object about peer) (
    key (108 ∷ []) (ValueSpecAny.list (objects about [] everything peer))
      (key (117 ∷ []) (ValueSpecAny.union about (118 ∷ []) choice) no_keys))

abbrev a_peer : Value ℕ
a_peer = object (field (98 ∷ []) (string (111 ∷ [])) end)

abbrev settings : Fields ℕ
settings = field (97 ∷ []) a_peer (
    field (108 ∷ []) (array (item a_peer nil)) (
      field (117 ∷ [])
        (object (field (116 ∷ []) (string (118 ∷ [])) (field (99 ∷ []) (string (111 ∷ [])) end)))
        end))

spec-valid : validate_config crates 1 (2 ∷ 3 ∷ []) spec ≡ ok tt
unfolding validate_config validate_pointer validate_package package_id
spec-valid = refl

spec-requires : requires_config crates 3 spec settings ≡ true
unfolding requires_config requires_pointer package_id
spec-requires = refl

requires_config-IsAllowed_example : (1 == 3 || contains {K = ℕ} 3 (2 ∷ 3 ∷ [])) ≡ true
requires_config-IsAllowed_example =
    requires_config-IsAllowed crates 1 (2 ∷ 3 ∷ []) 3 spec settings spec-valid spec-requires

abbrev found : List (ValueSpecPointer crates)
found = of_package (tor_address 2 (120 ∷ [])) ∷ of_package (lan_address 3 (121 ∷ [])) ∷ []

settings-distinct : fields_distinct settings ≡ true
unfolding fields_distinct
settings-distinct = refl

settings-pointers : pointers_config crates spec settings ≡ ok found
unfolding pointers_config fold_pointers pointers_entry
settings-pointers = refl

found-targets : any (requires_pointer crates 3) found ≡ true
unfolding requires_pointer package_id
found-targets = refl

pointers_config-requires_example : requires_config crates 3 spec settings ≡ true
pointers_config-requires_example =
    pointers_config-requires crates 3 spec settings found settings-distinct settings-pointers
      found-targets

-- three random characters, with a pattern
abbrev pub password : ValueSpecString crates
password = record {
  pattern = some (record { pattern = 46 ∷ []; pattern_description = [] });
  textarea = false;
  copyable = true;
  masked = true;
  placeholder = none;
}

abbrev pub three : Entropy
three = record { charset = none; len = 3 }

pub IsUsable-three : IsUsable three.charset
IsUsable-three =
    (((inr (omega arith, omega arith, refl), tt), refl), ((refl, refl), tt), omega arith)

gen_string-matches_example :
    (gen_string lowest crates (some 4) password (some (entropy three)) 5 ≡ err timed_out)
    ⊎ ((v : Value ℕ) × (s' : ℕ) × (gen_string lowest crates
            (some 4)
            password
            (some (entropy three))
            5
          ≡ ok (v, s'))
        × (matches_string crates password v ≡ ok tt))
gen_string-matches_example = gen_string-matches lowest crates 4 password three 5 IsUsable-three

abbrev two_texts : Value ℕ
two_texts = array (item (string (65 ∷ [])) (item (string (66 ∷ [])) nil))

matches_list_iff_example :
    (matches_list crates everything (matches_string crates password) (string_eq crates) two_texts
      ≡ ok tt)
    ↔ MatchesList crates (matches_string crates password) (string_eq crates) everything two_texts
matches_list_iff_example =
    matches_list_iff crates (matches_string crates password) (string_eq crates) everything two_texts

-- and so it does
two_texts-match :
    matches_list crates everything (matches_string crates password) (string_eq crates) two_texts
    ≡ ok tt
unfolding matches_list matches_items matches_string string_eq
two_texts-match = refl
