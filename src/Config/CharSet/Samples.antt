-- ===== src/Config/CharSet/Samples.antt =====
-- The set "!-~,\\n" of one range and one character.
use start_os.Common.{ℕ, ◌≤◌, ◌<◌, ◌≡◌, refl, All, inl, inr, [], ◌∷◌, ok, arith}
use start_os.Config.CharSet.{
  CharSet, deserialize, serialize, scan, step, close, push_range, on_comma, on_dash, on_other,
}
use start_os.Config.CharSet.Sizes.{IsWellFormed, deserialize-IsWellFormed}
use start_os.Config.CharSet.Gen.{Rng, AreChars}
use start_os.Config.CharSet.RoundTrip.{deserialize-serialize_set}

abbrev pub printable : CharSet
printable = record {
  ranges =
      record { start = 33; end = 126; size = 94 } ∷ record { start = 10; end = 10; size = 1 } ∷ [];
  total = 95;
}

printed : deserialize (33 ∷ 45 ∷ 126 ∷ 44 ∷ 10 ∷ []) ≡ ok printable
unfolding deserialize scan step close push_range on_comma on_dash on_other
printed = refl

pub IsWellFormed-printable : IsWellFormed printable
IsWellFormed-printable = ((inr (omega arith, omega arith, refl), (inl (refl, refl), tt)), refl)

deserialize-serialize_set_example : deserialize (serialize printable) ≡ ok printable
deserialize-serialize_set_example = deserialize-serialize_set printable IsWellFormed-printable

deserialize-IsWellFormed_example : IsWellFormed printable
deserialize-IsWellFormed_example =
    deserialize-IsWellFormed (33 ∷ 45 ∷ 126 ∷ 44 ∷ 10 ∷ []) printable printed

-- every choice is the lowest one
pub lowest_lt : (n : ℕ) (s : ℕ) → 0 < n → 0 < n
lowest_lt n s h = h

pub lowest_ge : (a b : ℕ) (s : ℕ) → a ≤ b → a ≤ a
lowest_ge a b s h = omega arith

pub lowest_le : (a b : ℕ) (s : ℕ) → a ≤ b → a ≤ b
lowest_le a b s h = h

abbrev pub lowest : Rng
lowest = record {
  Source = ℕ;
  gen_range = λ n s. (0, s);
  sample = λ a b s. (a, s);
  gen_range-lt = lowest_lt;
  sample-ge = lowest_ge;
  sample-le = lowest_le;
}

AreChars-printable : All AreChars printable.ranges
AreChars-printable = ((refl, refl), ((refl, refl), tt))
