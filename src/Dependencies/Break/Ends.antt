-- ===== src/Dependencies/Break/Ends.antt =====
-- `break_transitive` ends on every graph of dependencies, cycles included (backend/src/dependencies.rs).
-- A call from another package goes on only where there was no error yet, so each such call fills
-- one more of finitely many slots, (package, dependency).
use start_os.Common.{
  ℕ, zero, suc, ◌+◌, ◌-◌, ◌<◌, ◌≤◌, ◌≡◌, ◌≢◌, refl, ap, sym, ◌∙◌, Bool, true, false, ◌&&◌, ◌||◌,
  Option, none, some, List, [], ◌∷◌, if◌then◌else◌, ◌==◌, arith, length, Result, ok, err, ◌>>=◌,
  inl, inr, Option-cases,
}
use mathlib.Core.Path.{subst}
use start_os.Common.Map.{nat_key, insert}
use start_os.Status.{PackageId}
use start_os.Dependencies.Errors.{transitive, cmp_priority}
use start_os.Dependencies.Store.{Env, PatchDb, Failure, out_of_fuel}
use start_os.Dependencies.Break.Defs.{
  Error, Breakages, TaggedDependencyError, Outcome, is_newly_broken, dependents_of, record_error,
  for_dependents, break_all_dependents, break_step, break_transitive,
}
use start_os.Dependencies.Break.Recorded.{
  is_installed, error_at, Recorded, record_error-Recorded, record_error-fuel,
}

-- a package and a dependency of it
abbrev pub Slot : Type 0
Slot = PackageId × PackageId

abbrev pub has_slot : PackageId → PackageId → List Slot → Bool
has_slot j d [] = false
has_slot j d ((k, e) ∷ rest) = j == k && d == e || has_slot j d rest

abbrev is_free {ℓ} : {A : Type ℓ} → Option A → ℕ
is_free none = 1
is_free (some _) = 0

-- An old error is never of lower priority than a transitive one.
pub newly_broken-transitive :
    (env : Env) (db : PatchDb env) (old : Option (Error env db))
    → is_newly_broken env db old transitive ≡ true
    → old ≡ none
unfolding cmp_priority
newly_broken-transitive env db none h = refl
newly_broken-transitive env db (some e) h = ground arith

module _ (env : Env) (db : PatchDb env) where
  open db use {State}

  -- the slots of a list that hold no error
  abbrev pub missing : State → List Slot → ℕ
  missing s [] = 0
  missing s ((j, d) ∷ rest) = is_free (error_at env db s j d) + missing s rest

  missing-le-length : (s : State) (slots : List Slot) → missing s slots ≤ length slots
  missing-le-length s [] = omega arith
  missing-le-length s ((j, d) ∷ rest) = ground (arith, missing-le-length s rest)

  module _ (id dependency : PackageId) (error : Error env db) (s s' : State) (nb : Bool)
      (r : Recorded env db id dependency error s s' nb) where
    missing-Recorded : (slots : List Slot) → missing s' slots ≤ missing s slots
    missing-Recorded [] = omega arith
    missing-Recorded ((j, d) ∷ rest) = ground (arith, r.errors j d, missing-Recorded rest)

    missing-Recorded_lt :
        (slots : List Slot)
        → error_at env db s id dependency ≡ none
        → has_slot id dependency slots ≡ true
        → missing s' slots < missing s slots
    missing-Recorded_lt [] free h = cc
    missing-Recorded_lt ((j, d) ∷ rest) free h =
        ground (arith, r.errors j d, missing-Recorded rest, missing-Recorded_lt rest free)

  -- The slots cover every pair of installed packages.
  abbrev pub Covers : List Slot → State → Type 0
  Covers slots s =
      (j d : PackageId)
      → is_installed env db s j ≡ true
      → is_installed env db s d ≡ true
      → has_slot j d slots ≡ true

  module _ (slots : List Slot) (inst : PackageId → Bool)
      (covers : (j d : PackageId) → inst j ≡ true → inst d ≡ true → has_slot j d slots ≡ true) where
    -- The same packages are installed, and at most `n` slots are free.
    record Within (n : ℕ) (s : State) : Type 0 where
      same : (j : PackageId) → is_installed env db s j ≡ inst j
      free : missing s slots ≤ n

    abbrev Ends : ℕ → Outcome env db → Type 0
    Ends n (ok (s, _)) = Within n s
    Ends n (err e) = e ≢ out_of_fuel

    Recorded-Within :
        (n : ℕ) (id dependency : PackageId) (error : Error env db) (s s' : State) (nb : Bool)
        → Recorded env db id dependency error s s' nb
        → Within n s
        → Within n s'
    Recorded-Within n id dependency error s s' nb r w = record {
      same = λ j. r.installed j ∙ w.same j;
      free = omega (arith, missing-Recorded id dependency error s s' nb r slots, w.free);
    }

    Ends-le : (n m : ℕ) (x : Outcome env db) → m ≤ n → Ends m x → Ends n x
    Ends-le n m (ok (s, b)) h w = record { same = w.same; free = omega (arith, w.free) }
    Ends-le n m (err e) h w = w

    Ends-bind :
        (n : ℕ) (x : Outcome env db) (f : State × Breakages env db → Outcome env db)
        → Ends n x
        → ((s : State) (b : Breakages env db) → Within n s → Ends n (f (s, b)))
        → Ends n (x >>= f)
    Ends-bind n (ok (s, b)) f w next = next s b w
    Ends-bind n (err e) f w next = w

    Ends-if :
        (n : ℕ) (t : Bool) (x y : Outcome env db)
        → Ends n x
        → Ends n y
        → Ends n (if t then x else y)
    Ends-if n true x y hx hy = hx
    Ends-if n false x y hx hy = hy

    for_dependents-Ends :
        (n : ℕ) (call : PackageId → State → Breakages env db → Outcome env db) (id : PackageId)
        → ((d : PackageId) (s : State) (b : Breakages env db) → Within n s → Ends n (call d s b))
        → (l : List PackageId) (s : State) (b : Breakages env db) → Within n s
        → Ends n (for_dependents env db call id l s b)
    unfolding for_dependents
    for_dependents-Ends n call id ends [] s b w = w
    for_dependents-Ends n call id ends (d ∷ l) s b w =
        Ends-bind n (if id == d then ok (s, b) else call d s b) _
          (Ends-if n (id == d) (ok (s, b)) (call d s b) w (ends d s b w))
          (λ s' b' w'. for_dependents-Ends n call id ends l s' b' w')

    break_all_dependents-Ends :
        (n : ℕ) (call : PackageId → State → Breakages env db → Outcome env db) (id : PackageId)
        (s : State) (b : Breakages env db)
        → ((d : PackageId) (s : State) (b : Breakages env db) → Within n s → Ends n (call d s b))
        → Within n s
        → Ends n (break_all_dependents env db call id s b)
    unfolding break_all_dependents
    break_all_dependents-Ends n call id s b ends w = elim (Option-cases (db.get s id)) [
      | inl failed ↦ rw failed (λ p. cc)
      | inr (e, found) ↦
          rw found (for_dependents-Ends n call id ends (dependents_of env db e) s b w)
    ]

    -- One call ends if the calls that it makes do, on the database that it has written.
    break_step-Ends :
        (n m : ℕ) (call : PackageId → State → Breakages env db → Outcome env db)
        (id dependency : PackageId) (error : Error env db) (s : State) (b : Breakages env db)
        → m ≤ n
        → ((s' : State)
            → Recorded env db id dependency error s s' true
            → Within m s'
              × ((d : PackageId) (s : State) (b : Breakages env db)
                  → Within m s
                  → Ends m (call d s b)))
        → Within n s
        → Ends n (break_step env db call id dependency error s b)
    unfolding break_step
    break_step-Ends n m call id dependency error s b le after w =
        next (record_error env db id dependency error s) refl
      where
        next :
            (x : Result Failure (State × Bool))
            → record_error env db id dependency error s ≡ x
            → Ends n (
                x >>= λ (s', newly_broken). elim newly_broken [
                  | false ↦ ok (s', b)
                  | true ↦
                      let tagged : TaggedDependencyError env db = record {
                        dependency = dependency;
                        error = error;
                      } in
                      break_all_dependents env db call id s' (insert id tagged b)
                ])
        next (err e) h = λ p. record_error-fuel env db id dependency error s (h ∙ ap err p)
        next (ok (s', false)) h =
            Recorded-Within n id dependency error s s' false
              (record_error-Recorded env db id dependency error s s' false h) w
        next (ok (s', true)) h =
            let r = record_error-Recorded env db id dependency error s s' true h in
            Ends-le n m _ le
              (break_all_dependents-Ends m call id s' _ (after s' r).1 (after s' r).0)

    -- A call with a transitive error: every newly broken package has filled a slot.
    break_transitive-Ends :
        (fuel : ℕ) (id dependency : PackageId) (s : State) (b : Breakages env db)
        → inst dependency ≡ true
        → (n : ℕ) → n < fuel
        → Within n s
        → Ends n (break_transitive env db fuel id dependency transitive s b)
    unfolding break_transitive
    break_transitive-Ends zero id dependency s b known n h w = absurd (omega arith)
    break_transitive-Ends (suc fuel) id dependency s b known n h w =
        break_step-Ends n (n - 1) (λ d. break_transitive env db fuel d id transitive) id dependency
          transitive s b (omega arith)
          (λ s' r.
            let inst_id : inst id ≡ true = sym (w.same id) ∙ r.present in
            let fewer =
              missing-Recorded_lt id dependency transitive s s' true r slots
                (newly_broken-transitive env db _ (sym r.decided))
                (covers id dependency inst_id known) in
            (
              record { same = λ j. r.installed j ∙ w.same j; free = omega (arith, fewer, w.free) },
              λ d s₁ b₁ w₁.
                  break_transitive-Ends fuel d id s₁ b₁ inst_id (n - 1)
                    (omega (arith, fewer, w.free)) w₁,
            ))
          w

    -- A call with any error goes on at most once before its calls are transitive ones.
    break_any-Ends :
        (n fuel : ℕ) (id dependency : PackageId) (error : Error env db) (s : State)
        (b : Breakages env db)
        → n < fuel
        → Within n s
        → Ends n (break_transitive env db (suc fuel) id dependency error s b)
    unfolding break_transitive
    break_any-Ends n fuel id dependency error s b h w =
        break_step-Ends n n (λ d. break_transitive env db fuel d id transitive) id dependency error
          s b (omega arith)
          (λ s' r. (
            Recorded-Within n id dependency error s s' true r w,
            λ d s₁ b₁ w₁.
                break_transitive-Ends fuel d id s₁ b₁ (sym (w.same id) ∙ r.present) n h w₁,
          ))
          w

  -- Breaking a package ends whatever the error and the graph of dependencies: two calls more than
  -- there are slots are fuel enough.
  pub break_transitive-fuel :
      (slots : List Slot) (fuel : ℕ) (id dependency : PackageId) (error : Error env db) (s : State)
      (b : Breakages env db)
      → Covers slots s
      → length slots + 2 ≤ fuel
      → break_transitive env db fuel id dependency error s b ≢ err out_of_fuel
  break_transitive-fuel slots zero id dependency error s b covers h e = absurd (omega arith)
  break_transitive-fuel slots (suc fuel) id dependency error s b covers h e =
      subst (Ends slots (is_installed env db s) covers (length slots)) e
        (break_any-Ends slots (is_installed env db s) covers (length slots) fuel id dependency error
          s b (omega arith) (record { same = λ j. refl; free = missing-le-length s slots }))
        refl
