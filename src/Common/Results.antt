-- ===== src/Common/Results.antt =====
-- `std::result::Result` with the error type left open; `?` is the bind.
use mathlib.Core.Logic.{◌≢◌}
use mathlib.Core.Path.{◌≡◌, refl}
use mathlib.Core.Bool.{Bool, true, false}
use mathlib.Core.Option.{Option, none, some}

pub data Result {ℓ κ} (E : Type ℓ) (A : Type κ) : Type (ℓ ⊔ κ) where
  ok : A → Result E A
  err : E → Result E A

module _ {ℓ κ} {E : Type ℓ} {B : Type κ} where
  infixl 5 ◌>>=◌ ◌>>◌
  -- `let a = m?; f(a)`
  abbrev pub ◌>>=◌ {μ} : {A : Type μ} (m : Result E A) (f : A → Result E B) → Result E B
  m >>= f = elim m [ err x ↦ err x | ok a ↦ f a ]

  -- `m?; rest`, where `m` yields nothing
  abbrev pub ◌>>◌ : (m : Result E (Unit {0})) (rest : Result E B) → Result E B
  m >> rest = m >>= λ (_ : Unit {0}). rest

module _ {ℓ} {E : Type ℓ} where
  -- `if !test { return Err(e) }`
  abbrev pub guard : Bool → E → Result E (Unit {0})
  guard test e = elim test [ true ↦ ok tt | false ↦ err e ]

  -- `Option::ok_or_else`
  abbrev pub ok_or {κ} : {A : Type κ} → Option A → E → Result E A
  ok_or found e = elim found [ some a ↦ ok a | none ↦ err e ]

module _ {ℓ κ μ} {E : Type ℓ} {A : Type κ} {B : Type μ} where
  -- Where a chain succeeds, so does its first step.
  pub >>=-eq-ok :
      (m : Result E A) (f : A → Result E B) {b : B}
      → (m >>= f) ≡ ok b
      → (a : A) × (m ≡ ok a) × (f a ≡ ok b)
  >>=-eq-ok (err x) f failed = cc
  >>=-eq-ok (ok a) f done = (a, refl, done)

  -- An error that neither part raises is not raised by a chain.
  pub >>=-ne-err :
      (m : Result E A) (f : A → Result E B) (x : E)
      → m ≢ err x
      → ((a : A) → m ≡ ok a → f a ≢ err x)
      → (m >>= f) ≢ err x
  >>=-ne-err (ok a) f x first rest = rest a refl
  >>=-ne-err (err e) f x first rest = λ h. first (cc)

pub ok_or-ne-err {ℓ κ} :
    {E : Type ℓ} {A : Type κ} (o : Option A) (e x : E) → e ≢ x → ok_or o e ≢ err x
ok_or-ne-err none e x h = λ p. h (cc)
ok_or-ne-err (some a) e x h = λ p. cc

pub guard-ne-err {ℓ} : {E : Type ℓ} (b : Bool) (e x : E) → e ≢ x → guard b e ≢ err x
guard-ne-err true e x h = λ p. cc
guard-ne-err false e x h = λ p. h (cc)

pub ok-injective {ℓ κ} :
    {E : Type ℓ} {A : Type κ} (a b : A) → ◌≡◌ {A = Result E A} (ok a) (ok b) → a ≡ b
ok-injective a b h = cc

-- Nothing happens after `Ok`, and the order of brackets is free.
pub >>=-ok {ℓ κ} : {E : Type ℓ} {A : Type κ} (m : Result E A) → (m >>= λ a. ok a) ≡ m
>>=-ok (ok a) = refl
>>=-ok (err x) = refl

pub >>=_assoc {ℓ κ μ ν} :
    {E : Type ℓ} {A : Type κ} {B : Type μ} {C : Type ν} (m : Result E A) (f : A → Result E B)
    (g : B → Result E C)
    → ((m >>= f) >>= g) ≡ (m >>= λ a. f a >>= g)
>>=_assoc (ok a) f g = refl
>>=_assoc (err x) f g = refl

-- Where a chain of two succeeds, both do.
pub >>-eq-ok {ℓ κ} :
    {E : Type ℓ} {B : Type κ} (m : Result E (Unit {0})) (n : Result E B) (b : B)
    → (m >> n) ≡ ok b
    → (m ≡ ok tt) × (n ≡ ok b)
>>-eq-ok (err x) n b failed = cc
>>-eq-ok (ok u) n b done = (refl, done)
