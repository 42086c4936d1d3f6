-- ===== src/Dependencies/Break/Visits.antt =====
-- What the loop over the dependents of a broken package passes on (backend/src/dependencies.rs).
use start_os.Common.{
  ◌≡◌, refl, sym, ◌∙◌, ◌⊎◌, Bool, true, false, Option, none, some, List, [], ◌∷◌, if◌then◌else◌,
  ◌==◌, arith, ok, >>=-eq-ok, ==_iff, Bool-cases, Option-cases, inl, inr,
}
use mathlib.Core.Path.{subst}
use start_os.Common.Map.{nat_key, contains}
use start_os.Status.{PackageId}
use start_os.Dependencies.Store.{Env, Installed, PatchDb}
use start_os.Dependencies.Break.Defs.{
  Breakages, Outcome, dependents_of, for_dependents, break_all_dependents,
}
use start_os.Dependencies.Break.Recorded.{dependents, error_at}

abbrev pub is_some {ℓ} : {A : Type ℓ} → Option A → Bool
is_some none = false
is_some (some _) = true

module _ (env : Env) (db : PatchDb env) where
  open db use {State}

  -- package `j` has an error on its dependency `d`
  abbrev pub has_error : State → PackageId → PackageId → Bool
  has_error s j d = is_some (error_at env db s j d)

  -- Every dependent of `p`, but `p` itself, has an error on `p`.
  abbrev pub IsPassedOn : State → PackageId → Type 0
  IsPassedOn s p =
      (d : PackageId)
      → contains d (dependents env db s p) ≡ true
      → (p == d) ≡ false
      → has_error s d p ≡ true

  -- Every package with an error has passed it on to its dependents.
  abbrev pub IsConsistent : State → Type 0
  IsConsistent s = (p q : PackageId) → has_error s p q ≡ true → IsPassedOn s p

  -- Errors only appear, and a package that gets its first one has passed it on at the end.
  pub record Spreads (s s' : State) : Type 0 where
    pub kept : (j d : PackageId) → has_error s j d ≡ true → has_error s' j d ≡ true
    pub same : (j : PackageId) → dependents env db s' j ≡ dependents env db s j
    pub fresh :
        (p q : PackageId)
        → has_error s' p q ≡ true
        → IsPassedOn s' p ⊎ ((q' : PackageId) × (has_error s p q' ≡ true))

  Spreads-refl : (s : State) → Spreads s s
  Spreads-refl s = record { kept = λ j d h. h; same = λ j. refl; fresh = λ p q h. inr (q, h) }

  pub IsPassedOn-Spreads :
      (s s' : State) (p : PackageId) → Spreads s s' → IsPassedOn s p → IsPassedOn s' p
  IsPassedOn-Spreads s s' p w h d m ne = w.kept d p (h d (rw (← w.same p) m) ne)

  Spreads-trans : (s s' s'' : State) → Spreads s s' → Spreads s' s'' → Spreads s s''
  Spreads-trans s s' s'' w w' = record {
    kept = λ j d h. w'.kept j d (w.kept j d h);
    same = λ j. w'.same j ∙ w.same j;
    fresh = λ p q h. elim (w'.fresh p q h) [
      | inl on ↦ inl on
      | inr (q', h') ↦ elim (w.fresh p q' h') [
        | inl on ↦ inl (IsPassedOn-Spreads s' s'' p w' on)
        | inr old ↦ inr old
      ]
    ];
  }

  -- what a call on dependent `d` of `id` does, if it succeeds
  abbrev pub CallSpreads :
      (PackageId → State → Breakages env db → Outcome env db) → PackageId → Type 0
  CallSpreads call id =
      (d : PackageId) (s s' : State) (b b' : Breakages env db)
      → call d s b ≡ ok (s', b')
      → Spreads s s' × (has_error s' d id ≡ true)

  visit-Spreads :
      (call : PackageId → State → Breakages env db → Outcome env db) (id d : PackageId)
      (s s' : State) (b b' : Breakages env db)
      → CallSpreads call id
      → (if id == d then ok (s, b) else call d s b) ≡ ok (s', b')
      → Spreads s s' × ((id == d) ≡ false → has_error s' d id ≡ true)
  visit-Spreads call id d s s' b b' calls h = elim (Bool-cases (id == d)) [
    | inl self ↦
        let same : s ≡ s' = ground arith in (subst (Spreads s) same (Spreads-refl s), λ ne. cc)
    | inr other ↦ let (w, e) = calls d s s' b b' (rw other at h) in (w, λ _. e)
  ]

  for_dependents-Spreads :
      (call : PackageId → State → Breakages env db → Outcome env db) (id : PackageId)
      → CallSpreads call id
      → (l : List PackageId) (s s' : State) (b b' : Breakages env db)
      → for_dependents env db call id l s b ≡ ok (s', b')
      → Spreads s s'
        × ((d : PackageId) → contains d l ≡ true → (id == d) ≡ false → has_error s' d id ≡ true)
  unfolding for_dependents
  for_dependents-Spreads call id calls [] s s' b b' h =
      let same : s ≡ s' = ground arith in (subst (Spreads s) same (Spreads-refl s), λ d m ne. cc)
  for_dependents-Spreads call id calls (x ∷ l) s s' b b' h =
      let (mid, h₁, h₂) = >>=-eq-ok (if id == x then ok (s, b) else call x s b) _ h in
      let (w₁, e₁) = visit-Spreads call id x s mid.0 b mid.1 calls h₁ in
      let (w₂, e₂) = for_dependents-Spreads call id calls l mid.0 s' mid.1 b' h₂ in
      (
        Spreads-trans s mid.0 s' w₁ w₂,
        λ d m ne. elim (Bool-cases (d == x)) [
          | inl hit ↦
              let same : d ≡ x = (==_iff d x).0 hit in
              subst (λ y. has_error s' y id ≡ true) (sym same) (w₂.kept x id (e₁ (rw same at ne)))
          | inr miss ↦ e₂ d (rw miss at m) ne
        ],
      )

  -- the loop over the dependents that the database lists
  pub break_all_dependents-Spreads :
      (call : PackageId → State → Breakages env db → Outcome env db) (id : PackageId) (s s' : State)
      (b b' : Breakages env db)
      → CallSpreads call id
      → break_all_dependents env db call id s b ≡ ok (s', b')
      → Spreads s s' × IsPassedOn s' id
  unfolding break_all_dependents
  break_all_dependents-Spreads call id s s' b b' calls h = elim (Option-cases (db.get s id)) [
    | inl failed ↦ absurd (ground arith)
    | inr (e, found) ↦
        let loop : for_dependents env db call id (dependents_of env db e) s b ≡ ok (s', b') =
          rw found at h in
        let (w, visited) =
          for_dependents-Spreads call id calls (dependents_of env db e) s s' b b' loop in
        (w, λ d m ne. visited d (listed e found d (rw (w.same id) at m)) ne)
  ]
    where
      listed :
          (e : Option (Installed env))
          → db.get s id ≡ some e
          → (d : PackageId) → contains d (dependents env db s id) ≡ true
          → contains d (dependents_of env db e) ≡ true
      listed none found d m = rw found at m
      listed (some e) found d m = rw found at m
