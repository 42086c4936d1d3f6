-- ===== src/Config/Spec/Text.antt =====
-- The strings that a specification generates: `Entropy::gen`, `DefaultString::gen` and
-- `ValueSpecString::gen_with` of backend/src/config/spec.rs. `none` is a panic.
use start_os.Common.{
  ℕ, zero, suc, ◌+◌, ◌%◌, ◌/◌, Bool, false, Option, none, some, [], ◌∷◌, ◌++◌, if◌then◌else◌, ltb,
  not, ok_or, ◌>>=◌, Result, ok, err,
}
use start_os.S9pk.Bytes.{Bytes}
use start_os.Config.Json.{Value, null, string}
use start_os.Config.CharSet.{Char, CharSet}
use start_os.Config.CharSet.Gen.{Rng, gen, default}
use start_os.Config.Spec.Syntax.{
  Crates, Entropy, DefaultString, literal, entropy, ValueSpecString, Pattern,
}

-- the bytes of a character in UTF-8
unfoldable pub encode_utf8 : Char → Bytes
encode_utf8 c =
    if ltb c 128
    then c ∷ []
    else if ltb c 2048
    then (192 + c / 64) ∷ (128 + c % 64) ∷ []
    else if ltb c 65536
    then (224 + c / 4096) ∷ (128 + c / 64 % 64) ∷ (128 + c % 64) ∷ []
    else (240 + c / 262144) ∷ (128 + c / 4096 % 64) ∷ (128 + c / 64 % 64) ∷ (128 + c % 64) ∷ []

-- `TimeoutError`, or a panic
pub data GenFailure : Type 0 where
  timed_out panic : GenFailure

-- the set that is chosen from
abbrev pub charset_of : Option CharSet → CharSet
charset_of none = default
charset_of (some set) = set

module _ (rng : Rng) where
  open rng use {Source}

  -- `repeat_with(|| set.gen(rng)).take(len).collect()`
  unfoldable pub gen_chars : CharSet → ℕ → Source → Option (Bytes × Source)
  gen_chars set zero s = some ([], s)
  gen_chars set (suc len) s = elim (gen rng set s) as (λ _. Option (Bytes × Source)) [
    | none ↦ none
    | some first ↦ elim (gen_chars set len first.1) as (λ _. Option (Bytes × Source)) [
      | none ↦ none
      | some rest ↦ some (encode_utf8 first.0 ++ rest.0, rest.1)
    ]
  ]

  unfoldable pub gen_entropy : Entropy → Source → Option (Bytes × Source)
  gen_entropy e s = gen_chars (charset_of e.charset) e.len s

  unfoldable pub gen_default : DefaultString → Source → Option (Bytes × Source)
  gen_default (literal text) s = some (text, s)
  gen_default (entropy e) s = gen_entropy e s

  module _ (crates : Crates) where
    open crates use {Number, is_match}

    -- a random candidate that does not match the pattern
    abbrev pub is_refused : DefaultString → Option (Pattern crates) → Bytes → Bool
    is_refused (entropy e) (some p) candidate = not (is_match p.pattern candidate)
    is_refused _ _ candidate = false

    abbrev pub Generated : Type 0
    Generated = Result GenFailure (Value Number × Source)

    -- The loop where there is a timeout: `rounds` more candidates are tried before the time is up.
    unfoldable pub try_candidates :
        (rounds : ℕ) → ValueSpecString crates → DefaultString → Source → Generated
    try_candidates zero spec d s = ok_or (gen_default d s) panic >>= λ (candidate, s').
        if is_refused d spec.pattern candidate then err timed_out else ok (string candidate, s')
    try_candidates (suc rounds) spec d s = ok_or (gen_default d s) panic >>= λ (candidate, s').
        let again = try_candidates rounds spec d s' in
        if is_refused d spec.pattern candidate then again else ok (string candidate, s')

    -- `ValueSpecString::gen_with`. Without a timeout the first candidate is taken as it is.
    unfoldable pub gen_string :
        (timeout : Option ℕ) → ValueSpecString crates → Option DefaultString → Source → Generated
    gen_string timeout spec none s = ok (null, s)
    gen_string none spec (some d) s =
        ok_or (gen_default d s) panic >>= λ (candidate, s'). ok (string candidate, s')
    gen_string (some rounds) spec (some d) s = try_candidates rounds spec d s
