-- ===== src/Rules/VarRes.antt =====
-- `VarRes` of system-images/compat/src/config/rules.rs: what a path through a configuration leads
-- to, which is one value, or several of which any or all are meant. A closure may panic, so `map` and
-- `and_then` return a result.
pub mod Laws
pub mod Total
use start_os.Common.{Bool, false, true, ◌&&◌, ◌||◌, List, [], ◌∷◌, Result, ok, ◌>>=◌}

mutual
  pub data VarRes {ℓ} (T : Type ℓ) : Type ℓ where
    exactly : T → VarRes T
    any : Several T → VarRes T
    all : Several T → VarRes T

  pub data Several {ℓ} (T : Type ℓ) : Type ℓ where
    empty : Several T
    more : VarRes T → Several T → Several T

-- `iter().map(VarRes::Exactly).collect()`
abbrev pub each {ℓ} : {T : Type ℓ} → List T → Several T
each [] = empty
each (a ∷ as') = more (exactly a) (each as')

unfoldable mutual
  pub map {ε ℓ κ} :
      {E : Type ε} {T : Type ℓ} {U : Type κ} → VarRes T → (T → Result E U) → Result E (VarRes U)
  map (exactly a) f = f a >>= λ b. ok (exactly b)
  map (any s) f = map_each s f >>= λ t. ok (any t)
  map (all s) f = map_each s f >>= λ t. ok (all t)

  pub map_each {ε ℓ κ} :
      {E : Type ε} {T : Type ℓ} {U : Type κ} → Several T → (T → Result E U) → Result E (Several U)
  map_each empty f = ok empty
  map_each (more r rest) f = do s ← map r f; t ← map_each rest f; ok (more s t)

unfoldable mutual
  pub and_then {ε ℓ κ} :
      {E : Type ε} {T : Type ℓ} {U : Type κ}
      → VarRes T
      → (T → Result E (VarRes U))
      → Result E (VarRes U)
  and_then (exactly a) f = f a
  and_then (any s) f = and_then_each s f >>= λ t. ok (any t)
  and_then (all s) f = and_then_each s f >>= λ t. ok (all t)

  pub and_then_each {ε ℓ κ} :
      {E : Type ε} {T : Type ℓ} {U : Type κ}
      → Several T
      → (T → Result E (VarRes U))
      → Result E (Several U)
  and_then_each empty f = ok empty
  and_then_each (more r rest) f = do s ← and_then r f; t ← and_then_each rest f; ok (more s t)

unfoldable mutual
  pub resolve : VarRes Bool → Bool
  resolve (exactly a) = a
  resolve (any s) = any_resolves s
  resolve (all s) = all_resolve s

  pub any_resolves : Several Bool → Bool
  any_resolves empty = false
  any_resolves (more r rest) = resolve r || any_resolves rest

  pub all_resolve : Several Bool → Bool
  all_resolve empty = true
  all_resolve (more r rest) = resolve r && all_resolve rest
