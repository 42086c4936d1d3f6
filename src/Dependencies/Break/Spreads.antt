-- ===== src/Dependencies/Break/Spreads.antt =====
-- How far `break_transitive` carries an error (backend/src/dependencies.rs).
use start_os.Common.{
  ℕ, zero, suc, ◌≡◌, refl, sym, ◌∙◌, ◌⊎◌, Bool, true, false, arith, ok, >>=-eq-ok, inl, inr,
}
use mathlib.Core.Path.{subst}
use start_os.Common.Map.{nat_key, insert}
use start_os.Status.{PackageId}
use start_os.Dependencies.Errors.{transitive}
use start_os.Dependencies.Store.{Env, PatchDb}
use start_os.Dependencies.Break.Defs.{
  Error, Breakages, TaggedDependencyError, Outcome, record_error, break_all_dependents, break_step,
  break_transitive, break_all_dependents_transitive,
}
use start_os.Dependencies.Break.Recorded.{dependents, Recorded, record_error-Recorded}
use start_os.Dependencies.Break.Visits.{
  has_error, IsPassedOn, IsConsistent, Spreads, CallSpreads, IsPassedOn-Spreads,
  break_all_dependents-Spreads,
}

module _ (env : Env) (db : PatchDb env) where
  open db use {State}

  module _ (id dependency : PackageId) (error : Error env db) (s s' : State) (nb : Bool)
      (r : Recorded env db id dependency error s s' nb) where
    Recorded-kept :
        (j d : PackageId) → has_error env db s j d ≡ true → has_error env db s' j d ≡ true
    Recorded-kept j d h = ground (arith, r.errors j d)

    Recorded-self : has_error env db s' id dependency ≡ true
    Recorded-self = ground (arith, r.errors id dependency)

    -- an error in the new database was there before, or is the one that was recorded
    Recorded-old :
        (p q : PackageId)
        → has_error env db s' p q ≡ true
        → (p ≡ id) ⊎ (has_error env db s p q ≡ true)
    Recorded-old p q h = ground (arith, r.errors p q)

    Recorded-known : nb ≡ false → has_error env db s id dependency ≡ true
    Recorded-known e = ground (arith, r.decided)

  -- A call that goes on: the recorded error, then the loop.
  Recorded-Spreads :
      (id dependency : PackageId) (error : Error env db) (s mid s' : State)
      → Recorded env db id dependency error s mid true
      → Spreads env db mid s'
      → IsPassedOn env db s' id
      → Spreads env db s s'
  Recorded-Spreads id dependency error s mid s' r w on = record {
    kept = λ j d h. w.kept j d (Recorded-kept id dependency error s mid true r j d h);
    same = λ j. w.same j ∙ r.same_dependents j;
    fresh = λ p q h. elim (w.fresh p q h) [
      | inl passed ↦ inl passed
      | inr (q', h') ↦ elim (Recorded-old id dependency error s mid true r p q' h') [
        | inl self ↦ inl (subst (IsPassedOn env db s') (sym self) on)
        | inr old ↦ inr (q', old)
      ]
    ];
  }

  -- A call that stops: the package had an error on the dependency already.
  Recorded-Spreads_known :
      (id dependency : PackageId) (error : Error env db) (s s' : State)
      → Recorded env db id dependency error s s' false
      → Spreads env db s s'
  Recorded-Spreads_known id dependency error s s' r = record {
    kept = Recorded-kept id dependency error s s' false r;
    same = r.same_dependents;
    fresh = λ p q h. elim (Recorded-old id dependency error s s' false r p q h) [
      | inl self ↦ inr (dependency, rw self (Recorded-known id dependency error s s' false r refl))
      | inr old ↦ inr (q, old)
    ];
  }

  break_step-Spreads :
      (call : PackageId → State → Breakages env db → Outcome env db) (id dependency : PackageId)
      (error : Error env db) (s s' : State) (b b' : Breakages env db)
      → CallSpreads env db call id
      → break_step env db call id dependency error s b ≡ ok (s', b')
      → Spreads env db s s' × (has_error env db s' id dependency ≡ true)
  unfolding break_step
  break_step-Spreads call id dependency error s s' b b' calls h =
      let ((mid, nb), h₁, h₂) = >>=-eq-ok (record_error env db id dependency error s) _ h in
      next mid nb (record_error-Recorded env db id dependency error s mid nb h₁) h₂
    where
      next :
          (mid : State) (nb : Bool)
          → Recorded env db id dependency error s mid nb
          → (elim nb as (λ _. Outcome env db) [
            | false ↦ ok (mid, b)
            | true ↦
                let tagged : TaggedDependencyError env db = record {
                  dependency = dependency;
                  error = error;
                } in
                break_all_dependents env db call id mid (insert id tagged b)
          ])
            ≡ ok (s', b')
          → Spreads env db s s' × (has_error env db s' id dependency ≡ true)
      next mid false r e =
          let same : mid ≡ s' = ground arith in
          subst (λ t. Spreads env db s t × (has_error env db t id dependency ≡ true)) same
            (
              Recorded-Spreads_known id dependency error s mid r,
              Recorded-self id dependency error s mid false r,
            )
      next mid true r e =
          let (w, on) = break_all_dependents-Spreads env db call id mid s' _ b' calls e in
          (
            Recorded-Spreads id dependency error s mid s' r w on,
            w.kept id dependency (Recorded-self id dependency error s mid true r),
          )

  break_transitive-Spreads :
      (fuel : ℕ) (id dependency : PackageId) (error : Error env db) (s s' : State)
      (b b' : Breakages env db)
      → break_transitive env db fuel id dependency error s b ≡ ok (s', b')
      → Spreads env db s s' × (has_error env db s' id dependency ≡ true)
  unfolding break_transitive
  break_transitive-Spreads zero id dependency error s s' b b' h = absurd (ground arith)
  break_transitive-Spreads (suc fuel) id dependency error s s' b b' h =
      break_step-Spreads (λ d. break_transitive env db fuel d id transitive) id dependency error s
        s' b b' (λ d t t' c c' e. break_transitive-Spreads fuel d id transitive t t' c c' e) h

  Spreads-IsConsistent :
      (s s' : State) → Spreads env db s s' → IsConsistent env db s → IsConsistent env db s'
  Spreads-IsConsistent s s' w consistent p q has = elim (w.fresh p q has) [
    | inl on ↦ on
    | inr (q', old) ↦ IsPassedOn-Spreads env db s s' p w (consistent p q' old)
  ]

  -- If every package with an error has passed it on to its dependents, so it is after a successful
  -- `break_transitive`; the broken package has an error on the dependency, and no error is lost.
  pub break_transitive-IsConsistent :
      (fuel : ℕ) (id dependency : PackageId) (error : Error env db) (s s' : State)
      (b b' : Breakages env db)
      → IsConsistent env db s
      → break_transitive env db fuel id dependency error s b ≡ ok (s', b')
      → IsConsistent env db s'
        × (has_error env db s' id dependency ≡ true)
        × ((j d : PackageId) → has_error env db s j d ≡ true → has_error env db s' j d ≡ true)
  break_transitive-IsConsistent fuel id dependency error s s' b b' consistent h =
      let (w, e) = break_transitive-Spreads fuel id dependency error s s' b b' h in
      (Spreads-IsConsistent s s' w consistent, e, w.kept)

  -- the same of `break_all_dependents_transitive`, after which each dependent has an error
  pub break_all_dependents_transitive-IsConsistent :
      (fuel : ℕ) (id : PackageId) (error : Error env db) (s s' : State) (b b' : Breakages env db)
      → IsConsistent env db s
      → break_all_dependents_transitive env db fuel id error s b ≡ ok (s', b')
      → IsConsistent env db s'
        × IsPassedOn env db s' id
        × ((j : PackageId) → dependents env db s' j ≡ dependents env db s j)
        × ((j d : PackageId) → has_error env db s j d ≡ true → has_error env db s' j d ≡ true)
  unfolding break_all_dependents_transitive
  break_all_dependents_transitive-IsConsistent fuel id error s s' b b' consistent h =
      let (w, on) =
        break_all_dependents-Spreads env db (λ d. break_transitive env db fuel d id error) id s s' b
          b' (λ d t t' c c' e. break_transitive-Spreads fuel d id error t t' c c' e) h in
      (Spreads-IsConsistent s s' w consistent, on, w.same, w.kept)
