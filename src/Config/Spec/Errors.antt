-- ===== src/Config/Spec/Errors.antt =====
-- The errors of backend/src/config/mod.rs with which a configuration is refused.
use start_os.Common.{ℕ, List, [], ◌∷◌, ◌++◌, ◌≡◌, refl, arith, Result, ok, err}
use start_os.S9pk.Bytes.{Bytes}
use start_os.Config.Json.{Value}
use start_os.Config.NumRange.{NumRange}
use start_os.Config.Spec.Syntax.{Crates, ValueSpecPointer}

-- `TypeOf`
pub data Kind : Type 0 where
  list boolean null number object string : Kind

unfoldable pub type_of : {Number : Type 0} → Value Number → Kind
type_of (Value.array _) = list
type_of (Value.bool _) = boolean
type_of Value.null = null
type_of (Value.number _) = number
type_of (Value.object _) = object
type_of (Value.string _) = string

module _ (crates : Crates) where
  open crates use {Float, Regex}

  pub data MatchError : Type 0 where
    pattern : Bytes → Regex → MatchError
    enum : Bytes → List Bytes → MatchError
    not_nullable : MatchError
    length_mismatch : NumRange ℕ → ℕ → MatchError
    invalid_type : (expected actual : Kind) → MatchError
    out_of_range : NumRange Float → Float → MatchError
    non_integral : Float → MatchError
    union : Bytes → List Bytes → MatchError
    missing_tag : Bytes → MatchError
    property_matches_union_tag : Bytes → Bytes → MatchError
    property_name_matches_map_tag : Bytes → MatchError
    invalid_pointer : ValueSpecPointer crates → MatchError
    invalid_key : Bytes → MatchError
    list_uniqueness_violation : MatchError

  -- a key of an object, or an index of a list
  pub data Segment : Type 0 where
    name : Bytes → Segment
    index : ℕ → Segment

  pub record NoMatchWithPath : Type 0 where
    pub path : List Segment
    pub error : MatchError

  abbrev pub no_match : MatchError → NoMatchWithPath
  no_match error = record { path = []; error = error }

  -- The path is kept in reverse: the outermost segment stands last.
  unfoldable pub prepend : Segment → NoMatchWithPath → NoMatchWithPath
  prepend seg e = record e { path = e.path ++ seg ∷ [] }

  abbrev pub Matched : Type 0
  Matched = Result NoMatchWithPath (Unit {0})

  -- `map_err(|e| e.prepend(..))`
  abbrev pub at : Segment → Matched → Matched
  at seg m = elim m [ err e ↦ err (prepend seg e) | ok u ↦ ok u ]

  pub at-ok : (seg : Segment) (m : Matched) → at seg m ≡ ok tt → m ≡ ok tt
  at-ok seg (ok u) h = refl
  at-ok seg (err e) h = absurd (ground arith)
