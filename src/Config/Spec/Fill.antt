-- ===== src/Config/Spec/Fill.antt =====
-- The loop that fills a list of objects (`ValueSpecList::gen` of backend/src/config/spec.rs).
use start_os.Common.{
  ℕ, zero, suc, ◌+◌, ◌≤◌, ◌≡◌, refl, ap, inl, inr, true, Option, leb, ltb, arith, ok, >>=-eq-ok,
  Bool-cases,
}
use mathlib.Core.Path.{subst}
use start_os.Config.Json.{Value, Items, nil, item, push, count_items}
use start_os.Config.NumRange.{Bound, included, excluded, unbounded, above}
use start_os.Config.CharSet.Gen.{Rng}
use start_os.Config.Spec.Syntax.{Crates}
use start_os.Config.Spec.Gen.{Outcome, enough, fill}

pub count_items-push :
    {Number : Type 0} (l : Items Number) (v : Value Number)
    → count_items (push l v) ≡ suc (count_items l)
count_items-push nil v = refl
count_items-push (item w rest) v = ap suc (count_items-push rest v)

pub above-enough : (b : Bound ℕ) (n : ℕ) → enough b ≤ n → above leb ltb b n ≡ true
above-enough (included m) n h = ground arith
above-enough (excluded m) n h = ground arith
above-enough unbounded n h = refl

module _ (rng : Rng) (crates : Crates) (timeout : Option ℕ) where
  open rng use {Source}
  open crates use {Number}

  items_made :
      (a b : Items Number) (s s' : Source)
      → ◌≡◌ {A = Outcome rng crates timeout (Items Number)} (ok (a, s)) (ok (b, s'))
      → a ≡ b
  items_made a b s s' h = cc

  pub fill-above_from :
      (gen : Source → Outcome rng crates timeout (Value Number)) (b : Bound ℕ) (fuel : ℕ)
      (ret l : Items Number) (s s' : Source)
      → enough b ≤ fuel + count_items ret
      → fill rng crates timeout gen b fuel ret s ≡ ok (l, s')
      → above leb ltb b (count_items l) ≡ true
  unfolding fill
  fill-above_from gen b zero ret l s s' long h =
      subst (λ x. above leb ltb b (count_items x) ≡ true) (items_made ret l s s' h)
        (above-enough b (count_items ret) (omega (arith, long)))
  fill-above_from gen b (suc fuel) ret l s s' long h =
      elim (Bool-cases (above leb ltb b (count_items ret))) [
        | inl full ↦
            subst (λ x. above leb ltb b (count_items x) ≡ true)
              (items_made ret l s s' (rw full at h)) full
        | inr short ↦
            let ((v, s₁), made, e) = >>=-eq-ok (gen s) _ (rw short at h) in
            fill-above_from gen b fuel (push ret v) l s₁ s'
              (omega (arith, long, count_items-push ret v)) e
      ]

  abbrev Made : Outcome rng crates timeout (Items Number) → Type 0
  Made outcome = (l : Items Number) × (s' : Source) × (outcome ≡ ok (l, s'))

  fill-Made :
      (gen : Source → Outcome rng crates timeout (Value Number)) (b : Bound ℕ) (fuel : ℕ)
      (ret : Items Number) (s : Source)
      → ((t : Source) → (v : Value Number) × (t' : Source) × (gen t ≡ ok (v, t')))
      → Made (fill rng crates timeout gen b fuel ret s)
  unfolding fill
  fill-Made gen b zero ret s each = (ret, s, refl)
  fill-Made gen b (suc fuel) ret s each = elim (Bool-cases (above leb ltb b (count_items ret))) [
    | inl full ↦ (ret, s, rw full refl)
    | inr short ↦
        let (v, s₁, made) = each s in
        let (l, s', e) = fill-Made gen b fuel (push ret v) s₁ each in (l, s', rw (short, made) e)
  ]

  -- If each object can be generated, so can the list that is filled with them, and it has at least as
  -- many items as the lower bound of its range asks for: the bound is fuel enough, whatever the
  -- default is.
  pub fill-above :
      (gen : Source → Outcome rng crates timeout (Value Number)) (b : Bound ℕ) (ret : Items Number)
      (s : Source)
      → ((t : Source) → (v : Value Number) × (t' : Source) × (gen t ≡ ok (v, t')))
      → (l : Items Number) × (s' : Source) × (fill rng crates timeout gen b (enough b) ret s
          ≡ ok (l, s'))
        × (above leb ltb b (count_items l) ≡ true)
  fill-above gen b ret s each =
      let (l, s', made) = fill-Made gen b (enough b) ret s each in
      (l, s', made, fill-above_from gen b (enough b) ret l s s' (omega arith) made)
