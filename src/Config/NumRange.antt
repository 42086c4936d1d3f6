-- ===== src/Config/NumRange.antt =====
-- `NumRange` of backend/src/config/util.rs: two bounds, read and written as "[1,5)", with "*" for a
-- missing bound. The type of the numbers with its `FromStr`, `Display` and `PartialOrd` is a parameter.
-- Subtractions wrap around, as in the release builds: a slice that would start there is none.
pub mod RoundTrip
mod Samples
use start_os.Common.{
  ℕ, zero, suc, ◌-◌, ◌<◌, ◌≡◌, Bool, true, false, Option, none, some, List, [], ◌∷◌, ◌++◌, ◌&&◌,
  ◌||◌, if◌then◌else◌, ◌==◌, length, take, drop, all, not, Result, ok, err, ◌>>=◌, ok_or,
}
use start_os.S9pk.Bytes.{Bytes}

pub data Bound (T : Type 0) : Type 0 where
  included excluded : (n : T) → Bound T
  unbounded : Bound T

pub record NumRange (T : Type 0) : Type 0 where
  pub start_bound : Bound T
  pub end_bound : Bound T

-- `RangeBounds::contains`, given `<=` and `<` of the numbers
module _ {T : Type 0} (le lt : T → T → Bool) where
  abbrev pub above : Bound T → T → Bool
  above (included n) x = le n x
  above (excluded n) x = lt n x
  above unbounded x = true

  abbrev pub below : Bound T → T → Bool
  below (included n) x = le x n
  below (excluded n) x = lt x n
  below unbounded x = true

  abbrev pub contains : NumRange T → T → Bool
  contains r x = above r.start_bound x && below r.end_bound x

-- ',' '(' ')' '*' '[' ']'
abbrev pub comma : ℕ
comma = 44

abbrev pub star : ℕ
star = 42

abbrev pub is_byte : ℕ → Bytes → Bool
is_byte c (b ∷ []) = b == c
is_byte c _ = false

-- `str::parse` behind `str::trim`, and `to_string`. What is printed is read back, and is written
-- in some bytes without ',' and '*'.
pub record Numeral (T : Type 0) : Type 0 where
  pub parse : Bytes → Option T
  pub print : T → Bytes
  pub parse-print : (n : T) → parse (print n) ≡ some n
  pub print_plain : (n : T) → all (λ c. not (c == 44 || c == 42)) (print n) ≡ true

pub data Error : Type 0 where
  left_bound right_bound not_a_number : Error

-- `split(",")`: up to the first ',', and the text behind it, if there is one
unfoldable pub split_first : Bytes → Bytes × Option Bytes
split_first [] = ([], none)
split_first (c ∷ rest) =
    if c == comma
    then ([], some rest)
    else let (before, after) = split_first rest in (c ∷ before, after)

-- the last byte of a text, if it has any, and the text without it
abbrev pub last_byte : Bytes → Bytes
last_byte s = drop (length s - 1) s

abbrev pub before_last : Bytes → Bytes
before_last s = take (length s - 1) s

module _ {T : Type 0} (numeral : Numeral T) where
  open numeral use {parse, print}

  abbrev pub number : Bytes → Result Error T
  number s = ok_or (parse s) not_a_number

  unfoldable pub left : Bytes → Result Error (Bound T)
  left [] = err left_bound
  left (c ∷ rest) =
      if c == 40
      then (if is_byte star (take 1 rest)
          then ok unbounded
          else number rest >>= λ n. ok (excluded n))
      else if c == 91
      then (number rest >>= λ n. ok (included n))
      else err left_bound

  unfoldable pub right : Bytes → Result Error (Bound T)
  right s =
      if is_byte 41 (last_byte s)
      then (if is_byte star (drop (length s - 2) (before_last s))
          then ok unbounded
          else number (before_last s) >>= λ n. ok (excluded n))
      else if is_byte 93 (last_byte s)
      then (number (before_last s) >>= λ n. ok (included n))
      else err right_bound

  -- What stands behind a second ',' is not looked at.
  unfoldable pub deserialize : Bytes → Result Error (NumRange T)
  deserialize s = do
    let parts = split_first s
    start ← left parts.0
    end ← elim parts.1 as (λ _. Result Error (Bound T)) [
      | none ↦ ok unbounded
      | some rest ↦ right (split_first rest).0
    ]
    ok (record { start_bound = start; end_bound = end })

  abbrev pub print_start : Bound T → Bytes
  print_start (excluded n) = 40 ∷ print n ++ 44 ∷ []
  print_start (included n) = 91 ∷ print n ++ 44 ∷ []
  print_start unbounded = 40 ∷ 42 ∷ 44 ∷ []

  abbrev pub print_end : Bound T → Bytes
  print_end (excluded n) = print n ++ 41 ∷ []
  print_end (included n) = print n ++ 93 ∷ []
  print_end unbounded = 42 ∷ 41 ∷ []

  -- `Display`, which `serialize` writes
  unfoldable pub fmt : NumRange T → Bytes
  fmt r = print_start r.start_bound ++ print_end r.end_bound
