-- ===== src/Rules/VarRes/Laws.antt =====
-- What a `VarRes` quantifies over: `resolve`, `map` and `and_then` against the reading of a value as
-- nested quantifiers.
use start_os.Common.{
  ◌≡◌, refl, sym, ap, ◌∙◌, Bool, true, false, ◌&&◌, ◌||◌, Result, ok, >>=-eq-ok, ok-injective,
}
use start_os.Rules.VarRes.{
  VarRes, exactly, any, all, Several, empty, more, map, map_each, and_then, and_then_each, resolve,
  any_resolves, all_resolve,
}

-- whether a test holds of the value, or of any, or of all
unfoldable mutual
  pub quantify {ℓ} : {T : Type ℓ} → (T → Bool) → VarRes T → Bool
  quantify p (exactly a) = p a
  quantify p (any s) = some_hold p s
  quantify p (all s) = all_hold p s

  pub some_hold {ℓ} : {T : Type ℓ} → (T → Bool) → Several T → Bool
  some_hold p empty = false
  some_hold p (more r rest) = quantify p r || some_hold p rest

  pub all_hold {ℓ} : {T : Type ℓ} → (T → Bool) → Several T → Bool
  all_hold p empty = true
  all_hold p (more r rest) = quantify p r && all_hold p rest

mutual
  unfolding quantify some_hold all_hold resolve any_resolves all_resolve

  pub resolve-quantify : (r : VarRes Bool) → resolve r ≡ quantify (λ b. b) r
  resolve-quantify (exactly b) = refl
  resolve-quantify (any s) = any_quantify s
  resolve-quantify (all s) = all_quantify s

  any_quantify : (s : Several Bool) → any_resolves s ≡ some_hold (λ b. b) s
  any_quantify empty = refl
  any_quantify (more r rest) = rw (resolve-quantify r, any_quantify rest) refl

  all_quantify : (s : Several Bool) → all_resolve s ≡ all_hold (λ b. b) s
  all_quantify empty = refl
  all_quantify (more r rest) = rw (resolve-quantify r, all_quantify rest) refl

-- A test of what a closure returns is a test of what it is applied to.
module _ {ε ℓ κ} {E : Type ε} {T : Type ℓ} {U : Type κ} (p : U → Bool) (q : T → Bool) where
  module _ (f : T → Result E U) (related : (a : T) (b : U) → f a ≡ ok b → p b ≡ q a) where
    mutual
      unfolding quantify some_hold all_hold map map_each

      pub quantify-map :
          (r : VarRes T) (s : VarRes U) → map r f ≡ ok s → quantify p s ≡ quantify q r
      quantify-map (exactly a) s h =
          let (b, e, h₁) = >>=-eq-ok (f a) _ h in
          ap (quantify p) (sym (ok-injective _ _ h₁)) ∙ related a b e
      quantify-map (any t) s h =
          let (u, e, h₁) = >>=-eq-ok (map_each t f) _ h in
          ap (quantify p) (sym (ok-injective _ _ h₁)) ∙ (some_hold-map t u e)
      quantify-map (all t) s h =
          let (u, e, h₁) = >>=-eq-ok (map_each t f) _ h in
          ap (quantify p) (sym (ok-injective _ _ h₁)) ∙ (all_hold-map t u e)

      some_hold-map :
          (t : Several T) (u : Several U) → map_each t f ≡ ok u → some_hold p u ≡ some_hold q t
      some_hold-map empty u h = ap (some_hold p) (sym (ok-injective _ _ h))
      some_hold-map (more r rest) u h =
          let (s, e, h₁) = >>=-eq-ok (map r f) _ h in
          let (t, e', h₂) = >>=-eq-ok (map_each rest f) _ h₁ in
          ap (some_hold p) (sym (ok-injective _ _ h₂))
          ∙ rw (quantify-map r s e, some_hold-map rest t e') refl

      all_hold-map :
          (t : Several T) (u : Several U) → map_each t f ≡ ok u → all_hold p u ≡ all_hold q t
      all_hold-map empty u h = ap (all_hold p) (sym (ok-injective _ _ h))
      all_hold-map (more r rest) u h =
          let (s, e, h₁) = >>=-eq-ok (map r f) _ h in
          let (t, e', h₂) = >>=-eq-ok (map_each rest f) _ h₁ in
          ap (all_hold p) (sym (ok-injective _ _ h₂))
          ∙ rw (quantify-map r s e, all_hold-map rest t e') refl

  module _ (f : T → Result E (VarRes U))
      (related : (a : T) (s : VarRes U) → f a ≡ ok s → quantify p s ≡ q a) where
    mutual
      unfolding quantify some_hold all_hold and_then and_then_each

      pub quantify-and_then :
          (r : VarRes T) (s : VarRes U) → and_then r f ≡ ok s → quantify p s ≡ quantify q r
      quantify-and_then (exactly a) s h = related a s h
      quantify-and_then (any t) s h =
          let (u, e, h₁) = >>=-eq-ok (and_then_each t f) _ h in
          ap (quantify p) (sym (ok-injective _ _ h₁)) ∙ (some_hold-and_then t u e)
      quantify-and_then (all t) s h =
          let (u, e, h₁) = >>=-eq-ok (and_then_each t f) _ h in
          ap (quantify p) (sym (ok-injective _ _ h₁)) ∙ (all_hold-and_then t u e)

      some_hold-and_then :
          (t : Several T) (u : Several U) → and_then_each t f ≡ ok u → some_hold p u ≡ some_hold q t
      some_hold-and_then empty u h = ap (some_hold p) (sym (ok-injective _ _ h))
      some_hold-and_then (more r rest) u h =
          let (s, e, h₁) = >>=-eq-ok (and_then r f) _ h in
          let (t, e', h₂) = >>=-eq-ok (and_then_each rest f) _ h₁ in
          ap (some_hold p) (sym (ok-injective _ _ h₂))
          ∙ rw (quantify-and_then r s e, some_hold-and_then rest t e') refl

      all_hold-and_then :
          (t : Several T) (u : Several U) → and_then_each t f ≡ ok u → all_hold p u ≡ all_hold q t
      all_hold-and_then empty u h = ap (all_hold p) (sym (ok-injective _ _ h))
      all_hold-and_then (more r rest) u h =
          let (s, e, h₁) = >>=-eq-ok (and_then r f) _ h in
          let (t, e', h₂) = >>=-eq-ok (and_then_each rest f) _ h₁ in
          ap (all_hold p) (sym (ok-injective _ _ h₂))
          ∙ rw (quantify-and_then r s e, all_hold-and_then rest t e') refl
