-- ===== src/Dependencies/Preserved.antt =====
-- What one call of `break_transitive` or of `heal_transitive` preserves before it goes on to the
-- dependents, the whole recursion preserves (backend/src/dependencies.rs).
use mathlib.Core.Path.{subst}
use start_os.Common.{
  ℕ, zero, suc, ◌≡◌, ap, Bool, true, false, List, [], ◌∷◌, if◌then◌else◌, ◌==◌, arith, Result, ok,
  ok-injective, >>=-eq-ok, Bool-cases, inl, inr,
}
use start_os.Common.Map.{nat_key, insert, keys}
use start_os.Status.{PackageId}
use start_os.Dependencies.Errors.{transitive}
use start_os.Dependencies.Store.{Env, PatchDb, Failure, read, read_found}
use start_os.Dependencies.Break.{
  Error, Breakages, Outcome, TaggedDependencyError, dependents_of, for_dependents,
  break_all_dependents, record_error, break_step, break_transitive, break_all_dependents_transitive,
}
use start_os.Dependencies.HealAll.{
  heal_error, heal_dependents, heal_all_dependents, heal_step, heal_transitive,
  heal_all_dependents_transitive,
}

module _ (env : Env) (db : PatchDb env) (P : db.State → Type 0) where
  open db use {State}

  -- what `record_error` preserves
  module _
      (step : (id dependency : PackageId) (error : Error env db) (s s' : State) (nb : Bool)
        → record_error env db id dependency error s ≡ ok (s', nb)
        → P s
        → P s') where
    module _ (call : PackageId → State → Breakages env db → Outcome env db)
        (calls : (d : PackageId) (s s' : State) (b b' : Breakages env db)
          → call d s b ≡ ok (s', b')
          → P s
          → P s')
        (id : PackageId) where
      for_dependents_preserves :
          (l : List PackageId) (s s' : State) (b b' : Breakages env db)
          → for_dependents env db call id l s b ≡ ok (s', b')
          → P s
          → P s'
      unfolding for_dependents
      for_dependents_preserves [] s s' b b' h p =
          subst P (ap (λ r. r.0) (ok-injective (s, b) (s', b') h)) p
      for_dependents_preserves (x ∷ l) s s' b b' h p =
          let ((mid, c), h₁, h₂) = >>=-eq-ok (if id == x then ok (s, b) else call x s b) _ h in
          for_dependents_preserves l mid s' c b' h₂ (elim (Bool-cases (id == x)) [
            | inl self ↦ let same : s ≡ mid = ground arith in subst P same p
            | inr other ↦ calls x s mid b c (rw other at h₁) p
          ])

      break_all_dependents_preserves :
          (s s' : State) (b b' : Breakages env db)
          → break_all_dependents env db call id s b ≡ ok (s', b')
          → P s
          → P s'
      unfolding break_all_dependents
      break_all_dependents_preserves s s' b b' h =
          let (e, h₁, h₂) = >>=-eq-ok (read db s id) _ h in
          for_dependents_preserves (dependents_of env db e) s s' b b' h₂

      -- what holds once the error is recorded
      break_step_reaches :
          (dependency : PackageId) (error : Error env db) (s s' : State) (b b' : Breakages env db)
          → ((mid : State) (nb : Bool)
              → record_error env db id dependency error s ≡ ok (mid, nb)
              → P mid)
          → break_step env db call id dependency error s b ≡ ok (s', b')
          → P s'
      unfolding break_step
      break_step_reaches dependency error s s' b b' recorded h =
          let ((mid, nb), h₁, h₂) = >>=-eq-ok (record_error env db id dependency error s) _ h in
          next mid nb (recorded mid nb h₁) h₂
        where
          next :
              (mid : State) (nb : Bool)
              → P mid
              → (elim nb as (λ _. Outcome env db) [
                | false ↦ ok (mid, b)
                | true ↦
                    let tagged : TaggedDependencyError env db = record {
                      dependency = dependency;
                      error = error;
                    } in
                    break_all_dependents env db call id mid (insert id tagged b)
              ])
                ≡ ok (s', b')
              → P s'
          next mid false q e = subst P (ap (λ r. r.0) (ok-injective (mid, b) (s', b') e)) q
          next mid true q e = break_all_dependents_preserves mid s' _ b' e q

    pub break_transitive_preserves :
        (fuel : ℕ) (id dependency : PackageId) (error : Error env db) (s s' : State)
        (b b' : Breakages env db)
        → break_transitive env db fuel id dependency error s b ≡ ok (s', b')
        → P s
        → P s'
    unfolding break_transitive
    break_transitive_preserves zero id dependency error s s' b b' h = absurd (ground arith)
    break_transitive_preserves (suc fuel) id dependency error s s' b b' h = λ p.
        break_step_reaches (λ d. break_transitive env db fuel d id transitive)
          (λ d t t' c c'. break_transitive_preserves fuel d id transitive t t' c c') id dependency
          error s s' b b' (λ mid nb e. step id dependency error s mid nb e p) h

    -- what the first call's record of its error establishes is there at the end
    pub break_transitive_reaches :
        (fuel : ℕ) (id dependency : PackageId) (error : Error env db) (s s' : State)
        (b b' : Breakages env db)
        → ((mid : State) (nb : Bool)
            → record_error env db id dependency error s ≡ ok (mid, nb)
            → P mid)
        → break_transitive env db fuel id dependency error s b ≡ ok (s', b')
        → P s'
    unfolding break_transitive
    break_transitive_reaches zero id dependency error s s' b b' recorded h = absurd (ground arith)
    break_transitive_reaches (suc fuel) id dependency error s s' b b' recorded h =
        break_step_reaches (λ d. break_transitive env db fuel d id transitive)
          (λ d t t' c c'. break_transitive_preserves fuel d id transitive t t' c c') id dependency
          error s s' b b' recorded h

    pub break_all_dependents_transitive_preserves :
        (fuel : ℕ) (id : PackageId) (error : Error env db) (s s' : State) (b b' : Breakages env db)
        → break_all_dependents_transitive env db fuel id error s b ≡ ok (s', b')
        → P s
        → P s'
    unfolding break_all_dependents_transitive
    break_all_dependents_transitive_preserves fuel id error s s' b b' h =
        break_all_dependents_preserves (λ d. break_transitive env db fuel d id error)
          (λ d t t' c c'. break_transitive_preserves fuel d id error t t' c c') id s s' b b' h

  -- what `heal_error` preserves
  module _
      (step : (id dependency : PackageId) (s s' : State) (healed : Bool)
        → heal_error env db id dependency s ≡ ok (s', healed)
        → P s
        → P s') where
    module _ (call : PackageId → State → Result Failure State)
        (calls : (d : PackageId) (s s' : State) → call d s ≡ ok s' → P s → P s')
        (id : PackageId) where
      heal_dependents_preserves :
          (l : List PackageId) (s s' : State)
          → heal_dependents env db call id l s ≡ ok s'
          → P s
          → P s'
      unfolding heal_dependents
      heal_dependents_preserves [] s s' h p = subst P (ok-injective s s' h) p
      heal_dependents_preserves (x ∷ l) s s' h p =
          let (mid, h₁, h₂) = >>=-eq-ok (if id == x then ok s else call x s) _ h in
          heal_dependents_preserves l mid s' h₂ (elim (Bool-cases (id == x)) [
            | inl self ↦ let same : s ≡ mid = ground arith in subst P same p
            | inr other ↦ calls x s mid (rw other at h₁) p
          ])

      heal_all_dependents_preserves :
          (s s' : State) → heal_all_dependents env db call id s ≡ ok s' → P s → P s'
      unfolding heal_all_dependents
      heal_all_dependents_preserves s s' h =
          let (e, h₁, h₂) = >>=-eq-ok (read_found db s id) _ h in
          heal_dependents_preserves (keys e.current_dependents) s s' h₂

      heal_step_preserves :
          (dependency : PackageId) (s s' : State)
          → heal_step env db call id dependency s ≡ ok s'
          → P s
          → P s'
      unfolding heal_step
      heal_step_preserves dependency s s' h p =
          let ((mid, healed), h₁, h₂) = >>=-eq-ok (heal_error env db id dependency s) _ h in
          next mid healed (step id dependency s mid healed h₁ p) h₂
        where
          next :
              (mid : State) (healed : Bool)
              → P mid
              → (elim healed as (λ _. Result Failure State) [
                | false ↦ ok mid
                | true ↦ heal_all_dependents env db call id mid
              ])
                ≡ ok s'
              → P s'
          next mid false q e = subst P (ok-injective mid s' e) q
          next mid true q e = heal_all_dependents_preserves mid s' e q

    pub heal_transitive_preserves :
        (fuel : ℕ) (id dependency : PackageId) (s s' : State)
        → heal_transitive env db fuel id dependency s ≡ ok s'
        → P s
        → P s'
    unfolding heal_transitive
    heal_transitive_preserves zero id dependency s s' h = absurd (ground arith)
    heal_transitive_preserves (suc fuel) id dependency s s' h =
        heal_step_preserves (λ d. heal_transitive env db fuel d id)
          (λ d t t'. heal_transitive_preserves fuel d id t t') id dependency s s' h

    pub heal_all_dependents_transitive_preserves :
        (fuel : ℕ) (id : PackageId) (s s' : State)
        → heal_all_dependents_transitive env db fuel id s ≡ ok s'
        → P s
        → P s'
    unfolding heal_all_dependents_transitive
    heal_all_dependents_transitive_preserves fuel id s s' h =
        heal_all_dependents_preserves (λ d. heal_transitive env db fuel d id)
          (λ d t t'. heal_transitive_preserves fuel d id t t') id s s' h
