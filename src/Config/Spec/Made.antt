-- ===== src/Config/Spec/Made.antt =====
-- The items that the loops of `gen` make match where each one does (backend/src/config/spec.rs).
use start_os.Common.{
  ℕ, zero, suc, ◌+◌, ◌≤◌, ◌≡◌, refl, ◌∙◌, inl, inr, Bool, true, false, Option, some, List, [], ◌∷◌,
  ◌==◌, leb, ltb, length, arith, ok, >>=-eq-ok, Bool-cases,
}
use mathlib.Core.Path.{subst}
use start_os.Config.Json.{Value, array, Items, nil, item, push, count_items}
use start_os.Config.NumRange
use start_os.Config.NumRange.{NumRange, Bound, above}
use start_os.Config.CharSet.Gen.{Rng}
use start_os.Config.Spec.Syntax.{Crates}
use start_os.Config.Spec.Errors.{Matched}
use start_os.Config.Spec.Matches.{matches_list}
use start_os.Config.Spec.Lists.{nth, matches_list_iff}
use start_os.Config.Spec.Gen.{Outcome, enough, gen_each, fill}
use start_os.Config.Spec.Fill.{count_items-push, above-enough}

module _ (crates : Crates) (matches : Value (crates.Number) → Matched crates) where
  open crates use {Number}

  abbrev pub AllMatch : Items Number → Type 0
  AllMatch nil = Unit
  AllMatch (item v rest) = (matches v ≡ ok tt) × AllMatch rest

  AllMatch-push :
      (l : Items Number) (v : Value Number) → AllMatch l → matches v ≡ ok tt → AllMatch (push l v)
  AllMatch-push nil v h e = (e, tt)
  AllMatch-push (item w rest) v h e = (h.0, AllMatch-push rest v h.1 e)

  AllMatch-nth :
      (l : Items Number) (i : ℕ) (v : Value Number)
      → AllMatch l
      → nth crates i l ≡ some v
      → matches v ≡ ok tt
  AllMatch-nth nil i v h e = absurd (ground arith)
  AllMatch-nth (item w rest) zero v h e = ground (arith, h.0, e)
  AllMatch-nth (item w rest) (suc i) v h e = AllMatch-nth rest i v h.1 e

  -- a list whose items need not differ
  pub repeats-match :
      (range : NumRange ℕ) (eq : Value Number → Value Number → Bool) (l : Items Number)
      → ((v w : Value Number) → eq v w ≡ false)
      → NumRange.contains leb ltb range (count_items l) ≡ true
      → AllMatch l
      → matches_list crates range matches eq (array l) ≡ ok tt
  repeats-match range eq l never inside h =
      (matches_list_iff crates matches eq range (array l)).1
        (l, refl, inside, (λ i v e. AllMatch-nth l i v h e, λ i j v w e e' other. never v w))

  -- a list of one item
  pub single-matches :
      (range : NumRange ℕ) (eq : Value Number → Value Number → Bool) (v : Value Number)
      → NumRange.contains leb ltb range 1 ≡ true
      → matches v ≡ ok tt
      → matches_list crates range matches eq (array (item v nil)) ≡ ok tt
  single-matches range eq v inside h =
      (matches_list_iff crates matches eq range (array (item v nil))).1
        (item v nil, refl, inside, (λ i w e. AllMatch-nth (item v nil) i w (h, tt) e, alone))
    where
      alone :
          (i j : ℕ) (w w' : Value Number)
          → nth crates i (item v nil) ≡ some w
          → nth crates j (item v nil) ≡ some w'
          → (i == j) ≡ false
          → eq w w' ≡ false
      alone zero zero w w' e e' other = absurd (ground arith)
      alone (suc i) j w w' e e' other = absurd (ground arith)
      alone zero (suc j) w w' e e' other = absurd (ground arith)

  module _ (rng : Rng) (timeout : Option ℕ) where
    open rng use {Source}

    items_made :
        (a b : Items Number) (s s' : Source)
        → ◌≡◌ {A = Outcome rng crates timeout (Items Number)} (ok (a, s)) (ok (b, s'))
        → a ≡ b
    items_made a b s s' h = cc

    pub gen_each-AllMatch :
        {A : Type 0} (gen_with : A → Source → Outcome rng crates timeout (Value Number))
        → ((m : A) (t t' : Source) (v : Value Number)
            → gen_with m t ≡ ok (v, t')
            → matches v ≡ ok tt)
        → (ms : List A) (res l : Items Number) (s s' : Source) → AllMatch res
        → gen_each rng crates timeout gen_with ms res s ≡ ok (l, s')
        → AllMatch l × (count_items l ≡ length ms + count_items res)
    unfolding gen_each
    gen_each-AllMatch gen_with good [] res l s s' h made =
        subst (λ x. AllMatch x × (count_items x ≡ 0 + count_items res)) (items_made res l s s' made)
          (h, omega arith)
    gen_each-AllMatch gen_with good (m ∷ ms) res l s s' h made =
        let ((v, s₁), e₁, e₂) = >>=-eq-ok (gen_with m s) _ made in
        let (all, count) =
          gen_each-AllMatch gen_with good ms (push res v) l s₁ s'
            (AllMatch-push res v h (good m s s₁ v e₁)) e₂ in
        (all, count ∙ omega (arith, count_items-push res v))

    pub fill-AllMatch :
        (gen : Source → Outcome rng crates timeout (Value Number)) (b : Bound ℕ) (n : ℕ)
        → enough b ≤ n
        → ((t t' : Source) (v : Value Number) → gen t ≡ ok (v, t') → matches v ≡ ok tt)
        → (fuel : ℕ) (ret l : Items Number) (s s' : Source) → count_items ret ≤ n
        → AllMatch ret
        → fill rng crates timeout gen b fuel ret s ≡ ok (l, s')
        → AllMatch l × (count_items l ≤ n)
    unfolding fill
    fill-AllMatch gen b n big good zero ret l s s' few h made =
        subst (λ x. AllMatch x × (count_items x ≤ n)) (items_made ret l s s' made) (h, few)
    fill-AllMatch gen b n big good (suc fuel) ret l s s' few h made =
        elim (Bool-cases (above leb ltb b (count_items ret))) [
          | inl full ↦
              subst (λ x. AllMatch x × (count_items x ≤ n))
                (items_made ret l s s' (rw full at made)) (h, few)
          | inr short ↦
              let ((v, s₁), e₁, e₂) = >>=-eq-ok (gen s) _ (rw short at made) in
              let more : suc (count_items ret) ≤ n =
                ground (arith, big, short, above-enough b (count_items ret)) in
              fill-AllMatch gen b n big good fuel (push ret v) l s₁ s'
                (omega (arith, more, count_items-push ret v))
                (AllMatch-push ret v h (good s s₁ v e₁)) e₂
        ]
