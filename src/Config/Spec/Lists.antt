-- ===== src/Config/Spec/Lists.antt =====
-- When a list matches its specification: `ListSpec::matches` of backend/src/config/spec.rs.
use start_os.Common.{
  ℕ, zero, suc, ◌+◌, ◌≡◌, refl, sym, ap, ◌∙◌, inl, inr, Bool, true, false, ◌&&◌, ◌||◌, not, ◌↔◌,
  Option, none, some, if◌then◌else◌, ◌==◌, leb, ltb, arith, ok, err, >>-eq-ok, Bool-cases,
}
use mathlib.Core.Path.{subst}
use start_os.Config.Json.{
  Value, Items, null, string, number, array, object, bool, nil, item, count_items,
}
use start_os.Config.NumRange
use start_os.Config.NumRange.{NumRange}
use start_os.Config.Spec.Syntax.{Crates}
use start_os.Config.Spec.Errors.{Matched, at, at-ok, index, NoMatchWithPath}
use start_os.Config.Spec.Matches.{has_equal, matches_items, matches_list}

or_false_left : (a b : Bool) → (a || b) ≡ false → a ≡ false
or_false_left false b h = refl
or_false_left true b h = absurd (ground arith)

or_false_right : (a b : Bool) → (a || b) ≡ false → b ≡ false
or_false_right false b h = h
or_false_right true b h = absurd (ground arith)

and_not : (a b : Bool) → a ≡ false → (not a && b) ≡ false → b ≡ false
and_not false b h k = k
and_not true b h k = absurd (ground arith)

at_zero : (i n : ℕ) → (i == 0 + n) ≡ (i == n)
at_zero i n = ap (λ m. i == m) (omega arith)

shifted : (i k n : ℕ) → (i == k + suc n) ≡ (i == suc k + n)
shifted i k n = ap (λ m. i == m) (omega arith)

module _ (crates : Crates) where
  open crates use {Number}

  abbrev pub nth : ℕ → Items Number → Option (Value Number)
  nth i nil = none
  nth zero (item v rest) = some v
  nth (suc i) (item v rest) = nth i rest

  module _ (matches : Value Number → Matched crates) (eq : Value Number → Value Number → Bool) where
    -- Each item matches, and no two are equal.
    abbrev pub IsUnique : Items Number → Type 0
    IsUnique l =
        ((i : ℕ) (v : Value Number) → nth i l ≡ some v → matches v ≡ ok tt)
        × ((i j : ℕ) (v w : Value Number)
            → nth i l ≡ some v
            → nth j l ≡ some w
            → (i == j) ≡ false
            → eq v w ≡ false)

    some_inj : (v w : Value Number) → ◌≡◌ {A = Option (Value Number)} (some v) (some w) → v ≡ w
    some_inj v w h = cc

    has_equal-none :
        (i : ℕ) (v : Value Number) (i₂ : ℕ) (l : Items Number)
        → has_equal crates eq i v i₂ l ≡ false
        → (k : ℕ) (w : Value Number) → nth k l ≡ some w
        → (i == k + i₂) ≡ false
        → eq v w ≡ false
    has_equal-none i v i₂ nil h k w e other = absurd (ground arith)
    has_equal-none i v i₂ (item x rest) h zero w e other =
        sym (ap (eq v) (some_inj x w e))
        ∙ and_not (i == i₂) (eq v x) (sym (at_zero i i₂) ∙ other)
            (or_false_left _ (has_equal crates eq i v (suc i₂) rest) h)
    has_equal-none i v i₂ (item x rest) h (suc k) w e other =
        has_equal-none i v (suc i₂) rest (or_false_right _ _ h) k w e (shifted i k i₂ ∙ other)

    none-has_equal :
        (i : ℕ) (v : Value Number) (i₂ : ℕ) (l : Items Number)
        → ((k : ℕ) (w : Value Number) → nth k l ≡ some w → (i == k + i₂) ≡ false → eq v w ≡ false)
        → has_equal crates eq i v i₂ l ≡ false
    none-has_equal i v i₂ nil h = refl
    none-has_equal i v i₂ (item x rest) h = elim (Bool-cases (i == i₂)) [
      | inl same ↦ rw same (
          none-has_equal i v (suc i₂) rest
            (λ k w e other. h (suc k) w e (sym (shifted i k i₂) ∙ other)))
      | inr other ↦
          rw (other, h 0 x refl (at_zero i i₂ ∙ other))
            (none-has_equal i v (suc i₂) rest
              (λ k w e other'. h (suc k) w e (sym (shifted i k i₂) ∙ other')))
    ]

    -- what the loop over the items from the `i`th on asks for
    abbrev Accepts : Items Number → ℕ → Items Number → Type 0
    Accepts l i rest =
        (k : ℕ) (v : Value Number)
        → nth k rest ≡ some v
        → (matches v ≡ ok tt) × (has_equal crates eq (k + i) v 0 l ≡ false)

    unequal :
        (b : Bool) (e : NoMatchWithPath crates)
        → ◌≡◌ {A = Matched crates} (if b then err e else ok tt) (ok tt)
        → b ≡ false
    unequal false e h = refl
    unequal true e h = absurd (ground arith)

    matches_items-Accepts :
        (l : Items Number) (i : ℕ) (rest : Items Number)
        → matches_items crates matches eq l i rest ≡ ok tt
        → Accepts l i rest
    unfolding matches_items
    matches_items-Accepts l i nil h k v e = absurd (ground arith)
    matches_items-Accepts l i (item x rest) h k v e =
        let (here, later) = >>-eq-ok _ (matches_items crates matches eq l (suc i) rest) tt h in
        let (matched, alone) = >>-eq-ok (at crates (index i) (matches x)) _ tt here in
        split k v e (at-ok crates (index i) (matches x) matched)
          (unequal (has_equal crates eq i x 0 l) _ (at-ok crates (index i) _ alone))
          (matches_items-Accepts l (suc i) rest later)
      where
        split :
            (k : ℕ) (v : Value Number)
            → nth k (item x rest) ≡ some v
            → matches x ≡ ok tt
            → has_equal crates eq i x 0 l ≡ false
            → Accepts l (suc i) rest
            → (matches v ≡ ok tt) × (has_equal crates eq (k + i) v 0 l ≡ false)
        split zero v e matched alone later =
            let from_here : i ≡ 0 + i = omega arith in
            subst (λ y. (matches y ≡ ok tt) × (has_equal crates eq (0 + i) y 0 l ≡ false))
              (some_inj x v e)
              (matched, subst (λ m. has_equal crates eq m x 0 l ≡ false) from_here alone)
        split (suc k) v e matched alone later =
            let moved : k + suc i ≡ suc k + i = omega arith in
            subst (λ m. (matches v ≡ ok tt) × (has_equal crates eq m v 0 l ≡ false)) moved
              (later k v e)

    Accepts-matches_items :
        (l : Items Number) (i : ℕ) (rest : Items Number)
        → Accepts l i rest
        → matches_items crates matches eq l i rest ≡ ok tt
    unfolding matches_items
    Accepts-matches_items l i nil h = refl
    Accepts-matches_items l i (item x rest) h =
        let first = h 0 x refl in
        let rest_ok = Accepts-matches_items l (suc i) rest (λ k v e.
          let moved : suc k + i ≡ k + suc i = omega arith in
          subst (λ m. (matches v ≡ ok tt) × (has_equal crates eq m v 0 l ≡ false)) moved
            (h (suc k) v e)) in
        let from_here : 0 + i ≡ i = omega arith in
        let alone = subst (λ m. has_equal crates eq m x 0 l ≡ false) from_here first.1 in
        rw (first.0, alone, rest_ok) refl

    plus_zero : (k : ℕ) → k ≡ k + 0
    plus_zero k = omega arith

    Accepts-IsUnique : (l : Items Number) → Accepts l 0 l → IsUnique l
    Accepts-IsUnique l h = (
      λ i v e. (h i v e).0,
      λ i j v w e e' other.
          has_equal-none (i + 0) v 0 l (h i v e).1 j w e' (
            ap (λ m. m == j + 0) (sym (plus_zero i))
            ∙ ap (λ m. i == m) (sym (plus_zero j))
            ∙ other),
    )

    IsUnique-Accepts : (l : Items Number) → IsUnique l → Accepts l 0 l
    IsUnique-Accepts l (each, distinct) i v e = (
      each i v e,
      none-has_equal (i + 0) v 0 l (λ j w e' other.
          distinct i j v w e e'
            (ap (λ m. i == m) (plus_zero j) ∙ ap (λ m. m == j + 0) (plus_zero i) ∙ other)),
    )

    -- A list whose length is in the range, of which each item matches and no two are equal.
    abbrev pub MatchesList : NumRange ℕ → Value Number → Type 0
    MatchesList range value =
        (l : Items Number) × (value ≡ array l)
        × (NumRange.contains leb ltb range (count_items l) ≡ true)
        × IsUnique l

    matches_list-only :
        (range : NumRange ℕ) (value : Value Number)
        → matches_list crates range matches eq value ≡ ok tt
        → MatchesList range value
    unfolding matches_list
    matches_list-only range (array l) h =
        elim (Bool-cases (NumRange.contains leb ltb range (count_items l))) [
          | inl inside ↦
              (l, refl, inside, Accepts-IsUnique l (matches_items-Accepts l 0 l (rw inside at h)))
          | inr outside ↦ absurd (ground (arith, rw outside at h))
        ]
    matches_list-only range null h = absurd (ground arith)
    matches_list-only range (bool b) h = absurd (ground arith)
    matches_list-only range (number n) h = absurd (ground arith)
    matches_list-only range (string t) h = absurd (ground arith)
    matches_list-only range (object o) h = absurd (ground arith)

    matches_list-if :
        (range : NumRange ℕ) (value : Value Number)
        → MatchesList range value
        → matches_list crates range matches eq value ≡ ok tt
    unfolding matches_list
    matches_list-if range value (l, e, inside, unique) =
        let loop = Accepts-matches_items l 0 l (IsUnique-Accepts l unique) in
        subst (λ v. matches_list crates range matches eq v ≡ ok tt) (sym e) (rw inside loop)

    -- A value matches the specification of a list exactly if it is a list whose length is in the
    -- range, whose items all match, and of which no two items at different places are equal.
    pub matches_list_iff :
        (range : NumRange ℕ) (value : Value Number)
        → (matches_list crates range matches eq value ≡ ok tt) ↔ MatchesList range value
    matches_list_iff range value = (matches_list-only range value, matches_list-if range value)
