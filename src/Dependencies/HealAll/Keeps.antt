-- ===== src/Dependencies/HealAll/Keeps.antt =====
-- Which errors `heal_transitive` takes away (backend/src/dependencies.rs): an error goes only where
-- the dependency has no errors of its own.
use start_os.Common.{
  ℕ, ◌≡◌, refl, sym, ◌∙◌, Bool, true, false, [], arith, ok, ==_iff, Bool-cases, inl, inr,
}
use mathlib.Core.Bool.{false≢true}
use start_os.Common.Map.{nat_key}
use start_os.Status.{PackageId}
use start_os.Dependencies.Store.{Env, PatchDb}
use start_os.Dependencies.Break.Recorded.{dependents, errors_of}
use start_os.Dependencies.Break.Visits.{has_error, IsConsistent}
use start_os.Dependencies.HealAll.Defs.{heal_error, heal_transitive, heal_all_dependents_transitive}
use start_os.Dependencies.Preserved.{
  heal_transitive_preserves, heal_all_dependents_transitive_preserves,
}
use start_os.Dependencies.HealAll.Cleared.{Cleared, heal_error-Cleared}

module _ (env : Env) (db : PatchDb env) where
  open db use {State}

  -- Errors only disappear, and only those on a dependency that ends without errors.
  record Heals (s s' : State) : Type 0 where
    same : (j : PackageId) → dependents env db s' j ≡ dependents env db s j
    old : (j d : PackageId) → has_error env db s' j d ≡ true → has_error env db s j d ≡ true
    justified :
        (j d : PackageId)
        → has_error env db s j d ≡ true
        → has_error env db s' j d ≡ false
        → (q : PackageId) → has_error env db s' d q ≡ false

  Heals-refl : (s : State) → Heals s s
  Heals-refl s = record { same = λ j. refl; old = λ j d h. h; justified = λ j d h h' q. cc }

  Heals-trans : (s s' s'' : State) → Heals s s' → Heals s' s'' → Heals s s''
  Heals-trans s s' s'' w w' = record {
    same = λ j. w'.same j ∙ w.same j;
    old = λ j d h. w.old j d (w'.old j d h);
    justified = λ j d h gone q. elim (Bool-cases (has_error env db s' j d)) [
      | inl still ↦ w'.justified j d still gone q
      | inr went ↦ elim (Bool-cases (has_error env db s'' d q)) [
        | inl bad ↦ absurd (false≢true (sym (w.justified j d h went q) ∙ w'.old d q bad))
        | inr good ↦ good
      ]
    ];
  }

  clean-has_error :
      (s : State) (d q : PackageId) → errors_of env db s d ≡ [] → has_error env db s d q ≡ false
  clean-has_error s d q h = ground arith

  Heals-Cleared :
      (id dependency : PackageId) (s s' : State) (healed : Bool)
      → Cleared env db id dependency s s' healed
      → Heals s s'
  Heals-Cleared id dependency s s' false r = record {
    same = r.same_dependents;
    old = λ j d h. sym (r.errors j d) ∙ h;
    justified = λ j d h gone q. absurd (false≢true (sym gone ∙ r.errors j d ∙ h));
  }
  Heals-Cleared id dependency s s' true r = record {
    same = r.same_dependents;
    old = λ j d h. ground (arith, r.errors j d);
    justified = λ j d h gone q. ground (
      arith,
      r.errors j d,
      r.errors d q,
      ==_iff j id,
      ==_iff d dependency,
      clean-has_error s dependency q (r.clean refl),
    );
  }

  -- one call, on top of what has happened
  heal_error-Heals :
      (s : State) (id dependency : PackageId) (t t' : State) (healed : Bool)
      → heal_error env db id dependency t ≡ ok (t', healed)
      → Heals s t
      → Heals s t'
  heal_error-Heals s id dependency t t' healed h w = Heals-trans s t t' w (
      Heals-Cleared id dependency t t' healed
        (heal_error-Cleared env db id dependency t t' healed h))

  Heals-IsConsistent : (s s' : State) → Heals s s' → IsConsistent env db s → IsConsistent env db s'
  Heals-IsConsistent s s' w consistent p q has d m ne =
      let before : has_error env db s d p ≡ true =
        consistent p q (w.old p q has) d (rw (← w.same p) m) ne in
      elim (Bool-cases (has_error env db s' d p)) [
        | inl still ↦ still
        | inr gone ↦ absurd (false≢true (sym (w.justified d p before gone q) ∙ has))
      ]

  -- If every package with an error has passed it on to its dependents, so it is after a successful
  -- `heal_transitive`; no error is new, and an error is gone only if the dependency that it was on
  -- ends without any error.
  pub heal_transitive-IsConsistent :
      (fuel : ℕ) (id dependency : PackageId) (s s' : State)
      → IsConsistent env db s
      → heal_transitive env db fuel id dependency s ≡ ok s'
      → IsConsistent env db s'
        × ((j d : PackageId) → has_error env db s' j d ≡ true → has_error env db s j d ≡ true)
        × ((j d : PackageId)
            → has_error env db s j d ≡ true
            → has_error env db s' j d ≡ false
            → (q : PackageId) → has_error env db s' d q ≡ false)
  heal_transitive-IsConsistent fuel id dependency s s' consistent h =
      let w =
        heal_transitive_preserves env db (Heals s) (heal_error-Heals s) fuel id dependency s s' h
          (Heals-refl s) in
      (Heals-IsConsistent s s' w consistent, w.old, w.justified)

  -- the same of `heal_all_dependents_transitive`
  pub heal_all_dependents_transitive-IsConsistent :
      (fuel : ℕ) (id : PackageId) (s s' : State)
      → IsConsistent env db s
      → heal_all_dependents_transitive env db fuel id s ≡ ok s'
      → IsConsistent env db s'
        × ((j d : PackageId) → has_error env db s' j d ≡ true → has_error env db s j d ≡ true)
        × ((j d : PackageId)
            → has_error env db s j d ≡ true
            → has_error env db s' j d ≡ false
            → (q : PackageId) → has_error env db s' d q ≡ false)
  heal_all_dependents_transitive-IsConsistent fuel id s s' consistent h =
      let w =
        heal_all_dependents_transitive_preserves env db (Heals s) (heal_error-Heals s) fuel id s s'
          h (Heals-refl s) in
      (Heals-IsConsistent s s' w consistent, w.old, w.justified)
