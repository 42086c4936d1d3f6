-- ===== src/Version/Later.antt =====
-- A migration in `migrate_from_unchecked` (backend/src/version/mod.rs), as the list of the versions that it
-- goes through.
use Prim.Native.Nat.{Ordering}
use start_os.Common.{
  ℕ, zero, suc, ◌≤◌, ◌≡◌, ◌≢◌, refl, sym, ap, ◌∙◌, ◌⊎◌, inl, inr, Bool, true, false, ◌||◌, List, [],
  ◌∷◌, ◌++◌, Result, ok, ◌>>=◌, ok_or, arith, >>=-ok, >>=_assoc,
}
use mathlib.Core.Path.{fun_ext}
use start_os.Version.Store.{Emver, Server, Failure, migration}
use start_os.Version.Chain.{first, next, methods, semver}
use start_os.Version.Migrate.{Chain, commit, migrate_from_unchecked}

abbrev pub is_eq : Ordering → Bool
is_eq Ordering.eq = true
is_eq _ = false

pub Ordering-cases : (o : Ordering) → (o ≡ Ordering.lt) ⊎ ((o ≡ Ordering.eq) ⊎ (o ≡ Ordering.gt))
Ordering-cases Ordering.lt = inl refl
Ordering-cases Ordering.eq = inr (inl refl)
Ordering-cases Ordering.gt = inr (inr refl)

module _ {emver : Emver} (server : Server emver) where
  open server use {State}
  open emver use {Version, cmp}

  -- Every version comes after its predecessor.
  abbrev pub IsIncreasing : Chain server → Type 0
  IsIncreasing (first m) = Unit
  IsIncreasing (next m p) = (cmp (semver emver server p) m.semver ≡ Ordering.lt) × IsIncreasing p

  -- `version` is a version of the chain
  abbrev pub has_version : Version → Chain server → Bool
  has_version version (first m) = is_eq (cmp version m.semver)
  has_version version (next m p) = is_eq (cmp version m.semver) || has_version version p

  -- the versions of the chain after `version`, the oldest one first
  abbrev pub later : Version → Chain server → List (Chain server)
  later version (first m) = []
  later version (next m p) = elim (cmp version m.semver) [
    | Ordering.lt ↦ later version p ++ next m p ∷ []
    | _ ↦ []
  ]

  -- `up`, then `commit`, of each version of a list
  abbrev pub upgrade : Chain server → State → Result Failure State
  upgrade v s = ok_or ((methods emver server v).up s) migration >>= λ s'. commit server v s'

  abbrev pub upgrade_all : List (Chain server) → State → Result Failure State
  upgrade_all [] s = ok s
  upgrade_all (v ∷ rest) s = upgrade v s >>= λ s'. upgrade_all rest s'

  abbrev pub depth : Chain server → ℕ
  depth (first m) = 1
  depth (next m p) = suc (depth p)

  pub upgrade_all-append :
      (l : List (Chain server)) (v : Chain server) (s : State)
      → upgrade_all (l ++ v ∷ []) s ≡ (upgrade_all l s >>= λ s'. upgrade v s')
  upgrade_all-append [] v s = >>=-ok (upgrade v s)
  upgrade_all-append (w ∷ l) v s =
      ap (λ f. upgrade w s >>= f) (fun_ext (λ s'. upgrade_all-append l v s'))
      ∙ sym (>>=_assoc (upgrade w s) (upgrade_all l) (upgrade v))

  -- No version of an increasing chain comes after its newest one.
  pub has_version-le :
      (c : Chain server) (version : Version)
      → IsIncreasing c
      → has_version version c ≡ true
      → cmp version (semver emver server c) ≢ Ordering.gt
  has_version-le (first m) version inc h over = ground arith
  has_version-le (next m p) version inc h over =
      elim (Ordering-cases (cmp version (semver emver server p))) [
        | inl lt ↦ ground (arith, emver.cmp_trans version (semver emver server p) m.semver lt inc.0)
        | inr (inl eq) ↦ ground (arith, inc.0, (emver.cmp_eq version (semver emver server p)).0 eq)
        | inr (inr gt) ↦ has_version-le p version inc.1 (ground arith) gt
      ]

  pub later-eq :
      (c : Chain server) (version : Version)
      → cmp version (semver emver server c) ≡ Ordering.eq
      → later version c ≡ []
  later-eq (first m) version h = refl
  later-eq (next m p) version h = ground arith

  -- From an older version of an increasing chain, `migrate_from_unchecked` upgrades to each later
  -- version in their order, if there is fuel for the whole chain.
  pub migrate_from_unchecked-later :
      (fuel : ℕ) (c : Chain server) (version : Version) (s : State)
      → IsIncreasing c
      → has_version version c ≡ true
      → cmp version (semver emver server c) ≡ Ordering.lt
      → depth c ≤ fuel
      → migrate_from_unchecked server fuel c version s ≡ upgrade_all (later version c) s
  unfolding migrate_from_unchecked
  migrate_from_unchecked-later zero (first m) version s inc h older le = absurd (omega arith)
  migrate_from_unchecked-later zero (next m p) version s inc h older le = absurd (omega arith)
  migrate_from_unchecked-later (suc fuel) (first m) version s inc h older le = absurd (ground arith)
  migrate_from_unchecked-later (suc fuel) (next m p) version s inc h older le =
      elim (Ordering-cases (cmp version (semver emver server p))) [
        | inl lt ↦ ground (
          arith,
          migrate_from_unchecked-later fuel p version s inc.1 (ground arith) lt (omega arith),
          upgrade_all-append (later version p) (next m p) s,
        )
        | inr (inl eq) ↦ ground (arith, later-eq p version eq, upgrade_all-append [] (next m p) s)
        | inr (inr gt) ↦ absurd (has_version-le p version inc.1 (ground arith) gt)
      ]
