-- ===== src/Config/CharSet/Gen.antt =====
-- `CharSet::gen` of backend/src/config/util.rs: a character at random. The crate rand is a parameter;
-- `none` is a panic.
use start_os.Common.{
  ℕ, ◌-◌, ◌≤◌, ◌<◌, ◌≡◌, refl, sym, inl, inr, Bool, true, false, ◌&&◌, ◌||◌, Option, none, some,
  List, [], ◌∷◌, if◌then◌else◌, ◌==◌, ltb, leb, any, All, arith, Bool-cases, lt→ltb, or_true,
}
use mathlib.Core.Path.{subst}
use start_os.Config.CharSet.{CharSet, Range, Char, contains}
use start_os.Config.CharSet.Sizes.{IsSound, IsWellFormed, sum}

-- A source of random numbers: `gen_range(0..n)`, and a sample of `Uniform::new_inclusive(a, b)`.
pub record Rng : Type 1 where
  pub Source : Type 0
  pub gen_range : ℕ → Source → ℕ × Source
  pub sample : ℕ → ℕ → Source → ℕ × Source
  pub gen_range-lt : (n : ℕ) (s : Source) → 0 < n → (gen_range n s).0 < n
  pub sample-ge : (a b : ℕ) (s : Source) → a ≤ b → a ≤ (sample a b s).0
  pub sample-le : (a b : ℕ) (s : Source) → a ≤ b → (sample a b s).0 ≤ b

-- whether the number is that of a `char`: no surrogate, and in the range of Unicode
abbrev pub is_char : ℕ → Bool
is_char n = ltb n 55296 || leb 57344 n && ltb n 1114112

-- `CharSet::default`: from '!' to '~'
abbrev pub default : CharSet
default = record { ranges = record { start = 33; end = 126; size = 94 } ∷ []; total = 94 }

-- both ends of a range are characters
abbrev pub AreChars : Range → Type 0
AreChars r = (is_char r.start ≡ true) × (is_char r.end ≡ true)

abbrev in_range : Char → Range → Bool
in_range c r = leb r.start c && leb c r.end

-- what lies in a range that the parser lets through is a character
in_range-is_char :
    (r : Range) (c : Char) → IsSound r → AreChars r → r.start ≤ c → c ≤ r.end → is_char c ≡ true
in_range-is_char r c (inl (single, size)) chars from to =
    let same : c ≡ r.end = omega (arith, single, from, to) in
    subst (λ d. is_char d ≡ true) (sym same) chars.1
in_range-is_char r c (inr (less, ascii, size)) chars from to =
    let low : c < 55296 = omega (arith, ascii, to) in rw (lt→ltb c 55296 low) refl

sound_le : (r : Range) → IsSound r → r.start ≤ r.end
sound_le r (inl (single, size)) = omega (arith, single)
sound_le r (inr (less, ascii, size)) = omega (arith, less)

in_range_true : (r : Range) (c : Char) → r.start ≤ c → c ≤ r.end → in_range c r ≡ true
in_range_true r c from to = ground arith

module _ (rng : Rng) where
  open rng use {Source, gen_range, sample}

  -- the loop over the ranges
  unfoldable pub pick : List Range → ℕ → Source → Option (Char × Source)
  pick [] idx s = none
  pick (r ∷ rest) idx s =
      let later = pick rest (idx - r.size) s in
      let (c, s') = sample r.start r.end s in
      if ltb idx r.size then (if is_char c then some (c, s') else none) else later

  -- an empty range of numbers panics
  unfoldable pub gen : CharSet → Source → Option (Char × Source)
  gen set s =
      if set.total == 0
      then none
      else let (idx, s') = gen_range set.total s in pick set.ranges idx s'

  abbrev Picks : List Range → ℕ → Source → Type 0
  Picks l idx s =
      (c : Char) × (s' : Source) × (pick l idx s ≡ some (c, s')) × (any (in_range c) l ≡ true)

  pick-Picks :
      (l : List Range) (idx : ℕ) (s : Source)
      → All IsSound l
      → All AreChars l
      → idx < sum l
      → Picks l idx s
  unfolding pick
  pick-Picks [] idx s sound chars h = absurd (omega arith)
  pick-Picks (r ∷ rest) idx s sound chars h = elim (Bool-cases (ltb idx r.size)) [
    | inl here ↦
        let c = (sample r.start r.end s).0 in
        let ordered = sound_le r sound.0 in
        let from = rng.sample-ge r.start r.end s ordered in
        let to = rng.sample-le r.start r.end s ordered in
        let scalar = in_range-is_char r c sound.0 chars.0 from to in
        (c, (sample r.start r.end s).1, rw (here, scalar) refl, rw (in_range_true r c from to) refl)
    | inr later ↦
        let left : idx - r.size < sum rest = ground arith in
        let (c, s', e, found) = pick-Picks rest (idx - r.size) s sound.1 chars.1 left in
        (c, s', rw later e, or_true _ _ found)
  ]

  -- A well-formed set that is not empty, and whose ranges are between characters, gives a character
  -- that it contains: the choice does not panic.
  pub gen-contains :
      (set : CharSet) (s : Source)
      → IsWellFormed set
      → All AreChars set.ranges
      → 0 < set.total
      → (c : Char) × (s' : Source) × (gen set s ≡ some (c, s')) × (contains set c ≡ true)
  unfolding gen contains
  gen-contains set s well chars positive =
      let (idx, s₁) = gen_range set.total s in
      let below : idx < sum set.ranges =
        omega (arith, rng.gen_range-lt set.total s positive, well.1) in
      let (c, s', e, found) = pick-Picks set.ranges idx s₁ well.0 chars below in
      let some_left : (set.total == 0) ≡ false = ground arith in (c, s', rw some_left e, found)
