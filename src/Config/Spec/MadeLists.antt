-- ===== src/Config/Spec/MadeLists.antt =====
-- The lists that are generated with good defaults match: the methods of `ValueSpecList` of
-- backend/src/config/spec.rs.
use start_os.Common.{
  ℕ, zero, suc, ◌≤◌, ◌≡◌, refl, sym, ap, ◌∙◌, true, false, Option, List, leb, ltb, length, arith,
  ok, >>=-eq-ok, and_left,
}
use mathlib.Core.Path.{subst}
use start_os.S9pk.Bytes.{Bytes}
use start_os.Config.Json.{Value, array, object, Items, nil, count_items}
use start_os.Config.NumRange
use start_os.Config.NumRange.{NumRange, Bound, included, excluded, unbounded, above, below}
use start_os.Config.UniqueBy.{UniqueBy, not_unique, eq}
use start_os.Config.CharSet.Gen.{Rng}
use start_os.Config.Spec.Syntax.{Crates, ValueSpecObject, object_spec, ValueSpecUnion, union_spec}
use start_os.Config.Spec.Eq.{unique_by_eq, object_eq, union_eq}
use start_os.Config.Spec.Matches.{matches_list, matches_object, matches_union}
use start_os.Config.Spec.Lists.{matches_list_iff}
use start_os.Config.Spec.Gen.{Outcome, enough, gen_each, fill, as_array, gen_object, gen_union}
use start_os.Config.Spec.Fill.{fill-above_from}
use start_os.Config.Spec.Made.{AllMatch, repeats-match, gen_each-AllMatch, fill-AllMatch}
use start_os.Config.Spec.Defaults.{objects_repeat, unions_repeat, filled, is_not_unique}
use start_os.Config.Spec.DefaultTexts.{made_value}

module _ (crates : Crates) where
  open crates use {Number}

  never_equal :
      (u : UniqueBy) (v w : Value Number)
      → is_not_unique u ≡ true
      → unique_by_eq crates u v w ≡ false
  unfolding unique_by_eq eq
  never_equal not_unique (object o) (object o') h = refl
  never_equal not_unique v w h = refl
  never_equal u v w h = absurd (ground arith)

  objects_never_equal :
      (spec : ValueSpecObject crates) (v w : Value Number)
      → objects_repeat crates spec ≡ true
      → object_eq crates spec v w ≡ false
  unfolding object_eq
  objects_never_equal (object_spec spec display_as u) v w h = never_equal u v w h

  unions_never_equal :
      (spec : ValueSpecUnion crates) (v w : Value Number)
      → unions_repeat crates spec ≡ true
      → union_eq crates spec v w ≡ false
  unfolding union_eq
  unions_never_equal (union_spec tag variants display_as u) v w h = never_equal u v w h

-- a bound that allows more items allows fewer
below_fewer : (b : Bound ℕ) (m n : ℕ) → m ≤ n → below leb ltb b n ≡ true → below leb ltb b m ≡ true
below_fewer (included k) m n h e = ground arith
below_fewer (excluded k) m n h e = ground arith
below_fewer unbounded m n h e = refl

filled-enough : (range : NumRange ℕ) (n : ℕ) → enough (range.start_bound) ≤ filled range n
filled-enough range n = ground arith

filled-more : (range : NumRange ℕ) (n : ℕ) → n ≤ filled range n
filled-more range n = ground arith

module _ (rng : Rng) (crates : Crates) (timeout : Option ℕ) where
  open rng use {Source}
  open crates use {Number}

  abbrev Good :
      (Source → Outcome rng crates timeout (Value Number)) → (Value Number → Type 0) → Type 0
  Good gen P = (t t' : Source) (v : Value Number) → gen t ≡ ok (v, t') → P v

  -- a default that is long enough is not filled
  fill_full :
      (gen : Source → Outcome rng crates timeout (Value Number)) (b : Bound ℕ) (fuel : ℕ)
      (ret : Items Number) (s : Source)
      → above leb ltb b (count_items ret) ≡ true
      → fill rng crates timeout gen b fuel ret s ≡ ok (ret, s)
  unfolding fill
  fill_full gen b zero ret s h = refl
  fill_full gen b (suc fuel) ret s h = rw h refl

  pub objects_default-match :
      (spec : ValueSpecObject crates) (range : NumRange ℕ) (ret : Items Number) (s s' : Source)
      (v : Value Number)
      → matches_list crates range
          (λ w. matches_object crates spec w)
          (object_eq crates spec)
          (array ret)
        ≡ ok tt
      → as_array rng crates timeout (
          fill rng crates timeout
            (λ t. gen_object rng crates timeout spec t)
            range.start_bound
            (enough (range.start_bound))
            ret
            s)
        ≡ ok (v, s')
      → matches_list crates range (λ w. matches_object crates spec w) (object_eq crates spec) v
        ≡ ok tt
  objects_default-match spec range ret s s' v good made =
      let gen = λ (t : Source). gen_object rng crates timeout spec t in
      let b = range.start_bound in
      let full = fill_full gen b (enough b) ret s (long_enough good) in
      let same : ◌≡◌ {A = Outcome rng crates timeout (Value Number)} (ok (array ret, s))
          (ok (v, s')) =
        sym (ap (as_array rng crates timeout) full) ∙ made in
      subst
        (λ x.
          matches_list crates range (λ w. matches_object crates spec w) (object_eq crates spec) x
          ≡ ok tt)
        (made_value rng crates timeout (array ret) v s s' same) good
    where
      long_enough :
          matches_list crates range
              (λ w. matches_object crates spec w)
              (object_eq crates spec)
              (array ret)
            ≡ ok tt
          → above leb ltb range.start_bound (count_items ret) ≡ true
      long_enough h =
          let (l, e, inside, unique) =
            (matches_list_iff crates (λ w. matches_object crates spec w) (object_eq crates spec)
                range (array ret)).0
              h in
          let same : l ≡ ret = sym (cc) in
          and_left _ (below leb ltb range.end_bound (count_items ret))
            (subst (λ x. NumRange.contains leb ltb range (count_items x) ≡ true) same inside)

  pub objects_filled-match :
      (spec : ValueSpecObject crates) (range : NumRange ℕ) (ret : Items Number) (s s' : Source)
      (v : Value Number)
      → Good (λ t. gen_object rng crates timeout spec t) (λ w. matches_object crates spec w ≡ ok tt)
      → objects_repeat crates spec ≡ true
      → AllMatch crates (λ w. matches_object crates spec w) ret
      → below leb ltb range.end_bound (filled range (count_items ret)) ≡ true
      → as_array rng crates timeout (
          fill rng crates timeout
            (λ t. gen_object rng crates timeout spec t)
            range.start_bound
            (enough (range.start_bound))
            ret
            s)
        ≡ ok (v, s')
      → matches_list crates range (λ w. matches_object crates spec w) (object_eq crates spec) v
        ≡ ok tt
  objects_filled-match spec range ret s s' v good repeats all few made =
      let gen = λ (t : Source). gen_object rng crates timeout spec t in
      let b = range.start_bound in
      let n = filled range (count_items ret) in
      let ((l, s₁), e₁, e₂) = >>=-eq-ok (fill rng crates timeout gen b (enough b) ret s) _ made in
      let (each, count) =
        fill-AllMatch crates (λ w. matches_object crates spec w) rng timeout gen b n
          (filled-enough range (count_items ret)) good (enough b) ret l s s₁
          (filled-more range (count_items ret)) all e₁ in
      let long = fill-above_from rng crates timeout gen b (enough b) ret l s s₁ (omega arith) e₁ in
      let short = below_fewer range.end_bound (count_items l) n count few in
      let inside : NumRange.contains leb ltb range (count_items l) ≡ true = rw (long, short) refl in
      subst
        (λ x.
          matches_list crates range (λ w. matches_object crates spec w) (object_eq crates spec) x
          ≡ ok tt)
        (made_value rng crates timeout (array l) v s₁ s' e₂)
        (repeats-match crates (λ w. matches_object crates spec w) range (object_eq crates spec) l
          (λ x y. objects_never_equal crates spec x y repeats) inside each)

  pub unions-match :
      (spec : ValueSpecUnion crates) (range : NumRange ℕ) (default : List Bytes) (s s' : Source)
      (v : Value Number)
      → ((m : Bytes)
          → Good
              (λ t. gen_union rng crates timeout spec m t)
              (λ w. matches_union crates spec w ≡ ok tt))
      → unions_repeat crates spec ≡ true
      → NumRange.contains leb ltb range (length default) ≡ true
      → as_array rng crates timeout
          (gen_each rng crates timeout (λ m t. gen_union rng crates timeout spec m t) default nil s)
        ≡ ok (v, s')
      → matches_list crates range (λ w. matches_union crates spec w) (union_eq crates spec) v
        ≡ ok tt
  unions-match spec range default s s' v good repeats inside made =
      let gen = λ (m : Bytes) (t : Source). gen_union rng crates timeout spec m t in
      let ((l, s₁), e₁, e₂) = >>=-eq-ok (gen_each rng crates timeout gen default nil s) _ made in
      let (each, count) =
        gen_each-AllMatch crates (λ w. matches_union crates spec w) rng timeout gen
          (λ m t t' w. good m t t' w) default nil l s s₁ tt e₁ in
      let counted : length default ≡ count_items l = omega (arith, count) in
      subst
        (λ x.
          matches_list crates range (λ w. matches_union crates spec w) (union_eq crates spec) x
          ≡ ok tt)
        (made_value rng crates timeout (array l) v s₁ s' e₂)
        (repeats-match crates (λ w. matches_union crates spec w) range (union_eq crates spec) l
          (λ x y. unions_never_equal crates spec x y repeats)
          (subst (λ k. NumRange.contains leb ltb range k ≡ true) counted inside) each)
