-- ===== src/Rules/VarRes/Total.antt =====
-- `map` and `and_then` of a `VarRes` with closures that do not fail.
use start_os.Common.{◌≡◌, refl, Result, ok, ◌>>=◌}
use start_os.Rules.VarRes.{
  VarRes, exactly, any, all, Several, empty, more, map, map_each, and_then, and_then_each,
}

abbrev pub Succeeds {ε ℓ} : {E : Type ε} {A : Type ℓ} → Result E A → Type (ε ⊔ ℓ)
Succeeds {A = A} m = (a : A) × (m ≡ ok a)

pub bind-Succeeds {ε ℓ κ} :
    {E : Type ε} {A : Type ℓ} {B : Type κ} (m : Result E A) (f : A → Result E B)
    → Succeeds m
    → ((a : A) → Succeeds (f a))
    → Succeeds (m >>= f)
bind-Succeeds m f (a, e) each = let (b, e') = each a in (b, rw e e')

module _ {ε ℓ κ} {E : Type ε} {T : Type ℓ} {U : Type κ} where
  module _ (f : T → Result E U) (total : (a : T) → Succeeds (f a)) where
    mutual
      unfolding map map_each

      pub map-Succeeds : (r : VarRes T) → Succeeds (map r f)
      map-Succeeds (exactly a) = let (b, e) = total a in (exactly b, rw e refl)
      map-Succeeds (any s) = let (t, e) = map_each-Succeeds s in (any t, rw e refl)
      map-Succeeds (all s) = let (t, e) = map_each-Succeeds s in (all t, rw e refl)

      map_each-Succeeds : (s : Several T) → Succeeds (map_each s f)
      map_each-Succeeds empty = (empty, refl)
      map_each-Succeeds (more r rest) =
          let (s, e) = map-Succeeds r in
          let (t, e') = map_each-Succeeds rest in (more s t, rw (e, e') refl)

  module _ (f : T → Result E (VarRes U)) (total : (a : T) → Succeeds (f a)) where
    mutual
      unfolding and_then and_then_each

      pub and_then-Succeeds : (r : VarRes T) → Succeeds (and_then r f)
      and_then-Succeeds (exactly a) = total a
      and_then-Succeeds (any s) = let (t, e) = and_then_each-Succeeds s in (any t, rw e refl)
      and_then-Succeeds (all s) = let (t, e) = and_then_each-Succeeds s in (all t, rw e refl)

      and_then_each-Succeeds : (s : Several T) → Succeeds (and_then_each s f)
      and_then_each-Succeeds empty = (empty, refl)
      and_then_each-Succeeds (more r rest) =
          let (s, e) = and_then-Succeeds r in
          let (t, e') = and_then_each-Succeeds rest in (more s t, rw (e, e') refl)
