-- ===== src/Rules/Returns.antt =====
-- What holds of whatever a computation returns, if it returns.
use start_os.Common.{◌≡◌, refl, Bool, true, false, if◌then◌else◌, Result, ok, err, ◌>>=◌}
use mathlib.Core.Path.{subst}

abbrev pub Returns {ε ℓ κ} : {E : Type ε} {A : Type ℓ} → (A → Type κ) → Result E A → Type κ
Returns P (ok a) = P a
Returns P (err x) = Unit

pub >>=-Returns {ε ℓ κ μ} :
    {E : Type ε} {A : Type ℓ} {B : Type κ} (P : B → Type μ) (m : Result E A) (f : A → Result E B)
    → ((a : A) → m ≡ ok a → Returns P (f a))
    → Returns P (m >>= f)
>>=-Returns P (ok a) f h = h a refl
>>=-Returns P (err x) f h = tt

pub Returns_elim {ε ℓ κ} :
    {E : Type ε} {A : Type ℓ} (P : A → Type κ) (m : Result E A) (a : A)
    → m ≡ ok a
    → Returns P m
    → P a
Returns_elim P m a h r = subst (Returns P) h r

pub if_both {ℓ κ} :
    {A : Type ℓ} (P : A → Type κ) (b : Bool) (x y : A) → P x → P y → P (if b then x else y)
if_both P true x y h k = h
if_both P false x y h k = k

pub Returns_map {ε ℓ κ μ} :
    {E : Type ε} {A : Type ℓ} (P : A → Type κ) (Q : A → Type μ) (m : Result E A)
    → ((a : A) → P a → Q a)
    → Returns P m
    → Returns Q m
Returns_map P Q (ok a) f r = f a r
Returns_map P Q (err x) f r = tt

pub Returns_always {ε ℓ κ} :
    {E : Type ε} {A : Type ℓ} (P : A → Type κ) (m : Result E A) → ((a : A) → P a) → Returns P m
Returns_always P (ok a) f = f a
Returns_always P (err x) f = tt
