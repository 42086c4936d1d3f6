-- ===== src/Dependencies/HealAll/Ends.antt =====
-- `heal_transitive` ends on every graph of dependencies, cycles included (backend/src/dependencies.rs):
-- a call goes on only where it has taken an error away.
use start_os.Common.{
  ℕ, zero, suc, ◌+◌, ◌-◌, ◌<◌, ◌≤◌, ◌≡◌, ◌≢◌, refl, ap, ◌∙◌, Bool, true, false, none, some, List,
  [], ◌∷◌, if◌then◌else◌, ◌==◌, arith, length, Result, ok, err, ◌>>=◌, inl, inr, Option-cases,
}
use mathlib.Core.Path.{subst}
use start_os.Common.Map.{nat_key, keys}
use start_os.Status.{PackageId}
use start_os.Dependencies.Store.{Env, PatchDb, Failure, out_of_fuel}
use start_os.Dependencies.Break.Ends.{Slot, has_slot}
use start_os.Dependencies.Break.Visits.{has_error}
use start_os.Dependencies.HealAll.Defs.{
  heal_error, heal_dependents, heal_all_dependents, heal_step, heal_transitive,
}
use start_os.Dependencies.HealAll.Cleared.{Cleared, heal_error-Cleared}
use start_os.Dependencies.HealAll.Fails.{heal_error-fuel}

module _ (env : Env) (db : PatchDb env) where
  open db use {State}

  -- The slots cover every error.
  abbrev pub CoversErrors : List Slot → State → Type 0
  CoversErrors slots s =
      (j d : PackageId) → has_error env db s j d ≡ true → has_slot j d slots ≡ true

  -- the slots of a list that hold an error
  abbrev filled : State → List Slot → ℕ
  filled s [] = 0
  filled s ((j, d) ∷ rest) = (if has_error env db s j d then 1 else 0) + filled s rest

  filled-le-length : (s : State) (slots : List Slot) → filled s slots ≤ length slots
  filled-le-length s [] = omega arith
  filled-le-length s ((j, d) ∷ rest) = ground (arith, filled-le-length s rest)

  module _ (id dependency : PackageId) (s s' : State) (healed : Bool)
      (r : Cleared env db id dependency s s' healed) where
    filled-Cleared : (slots : List Slot) → filled s' slots ≤ filled s slots
    filled-Cleared [] = omega arith
    filled-Cleared ((j, d) ∷ rest) = ground (arith, r.errors j d, filled-Cleared rest)

    filled-Cleared_lt :
        (slots : List Slot)
        → healed ≡ true
        → has_slot id dependency slots ≡ true
        → filled s' slots < filled s slots
    filled-Cleared_lt [] h m = cc
    filled-Cleared_lt ((j, d) ∷ rest) h m =
        ground (arith, r.errors j d, r.present h, filled-Cleared rest, filled-Cleared_lt rest h)

    CoversErrors-Cleared : (slots : List Slot) → CoversErrors slots s → CoversErrors slots s'
    CoversErrors-Cleared slots covers j d h = covers j d (ground (arith, r.errors j d))

  module _ (slots : List Slot) where
    -- The slots cover the errors, of which there are at most `n`.
    record Within (n : ℕ) (s : State) : Type 0 where
      covers : CoversErrors slots s
      full : filled s slots ≤ n

    abbrev Ends : ℕ → Result Failure State → Type 0
    Ends n (ok s) = Within n s
    Ends n (err e) = e ≢ out_of_fuel

    Ends-le : (n m : ℕ) (x : Result Failure State) → m ≤ n → Ends m x → Ends n x
    Ends-le n m (ok s) h w = record { covers = w.covers; full = omega (arith, w.full) }
    Ends-le n m (err e) h w = w

    Ends-bind :
        (n : ℕ) (x : Result Failure State) (f : State → Result Failure State)
        → Ends n x
        → ((s : State) → Within n s → Ends n (f s))
        → Ends n (x >>= f)
    Ends-bind n (ok s) f w next = next s w
    Ends-bind n (err e) f w next = w

    Ends-if :
        (n : ℕ) (t : Bool) (x y : Result Failure State)
        → Ends n x
        → Ends n y
        → Ends n (if t then x else y)
    Ends-if n true x y hx hy = hx
    Ends-if n false x y hx hy = hy

    abbrev CallEnds : ℕ → (PackageId → State → Result Failure State) → Type 0
    CallEnds n call = (d : PackageId) (s : State) → Within n s → Ends n (call d s)

    heal_dependents-Ends :
        (n : ℕ) (call : PackageId → State → Result Failure State) (id : PackageId)
        → CallEnds n call
        → (l : List PackageId) (s : State) → Within n s
        → Ends n (heal_dependents env db call id l s)
    unfolding heal_dependents
    heal_dependents-Ends n call id ends [] s w = w
    heal_dependents-Ends n call id ends (d ∷ l) s w =
        Ends-bind n (if id == d then ok s else call d s) _
          (Ends-if n (id == d) (ok s) (call d s) w (ends d s w))
          (λ s' w'. heal_dependents-Ends n call id ends l s' w')

    heal_all_dependents-Ends :
        (n : ℕ) (call : PackageId → State → Result Failure State) (id : PackageId) (s : State)
        → CallEnds n call
        → Within n s
        → Ends n (heal_all_dependents env db call id s)
    unfolding heal_all_dependents
    heal_all_dependents-Ends n call id s ends w = elim (Option-cases (db.get s id)) [
      | inl failed ↦ rw failed (λ p. cc)
      | inr (none, found) ↦ rw found (λ p. cc)
      | inr (some e, found) ↦
          rw found (heal_dependents-Ends n call id ends (keys e.current_dependents) s w)
    ]

    heal_step-Ends :
        (n : ℕ) (call : PackageId → State → Result Failure State) (id dependency : PackageId)
        (s : State)
        → (0 < n → CallEnds (n - 1) call)
        → Within n s
        → Ends n (heal_step env db call id dependency s)
    unfolding heal_step
    heal_step-Ends n call id dependency s calls w = next (heal_error env db id dependency s) refl
      where
        next :
            (x : Result Failure (State × Bool))
            → heal_error env db id dependency s ≡ x
            → Ends n (
                x >>= λ (s', healed). elim healed [
                  | false ↦ ok s'
                  | true ↦ heal_all_dependents env db call id s'
                ])
        next (err e) h = λ p. heal_error-fuel env db s id dependency (h ∙ ap err p)
        next (ok (s', false)) h =
            let r = heal_error-Cleared env db id dependency s s' false h in
            record {
              covers = CoversErrors-Cleared id dependency s s' false r slots w.covers;
              full = omega (arith, filled-Cleared id dependency s s' false r slots, w.full);
            }
        next (ok (s', true)) h =
            let r = heal_error-Cleared env db id dependency s s' true h in
            let fewer =
              filled-Cleared_lt id dependency s s' true r slots refl
                (w.covers id dependency (r.present refl)) in
            Ends-le n (n - 1) _ (omega arith) (
              heal_all_dependents-Ends (n - 1) call id s' (calls (omega (arith, fewer, w.full)))
                (record {
                  covers = CoversErrors-Cleared id dependency s s' true r slots w.covers;
                  full = omega (arith, fewer, w.full);
                }))

    heal_transitive-Ends :
        (fuel n : ℕ) (id dependency : PackageId) (s : State)
        → n < fuel
        → Within n s
        → Ends n (heal_transitive env db fuel id dependency s)
    unfolding heal_transitive
    heal_transitive-Ends zero n id dependency s h w = absurd (omega arith)
    heal_transitive-Ends (suc fuel) n id dependency s h w =
        heal_step-Ends n (λ d. heal_transitive env db fuel d id) id dependency s
          (λ positive d t. heal_transitive-Ends fuel (n - 1) d id t (omega (arith, positive))) w

  -- Healing a package ends whatever the graph of dependencies: one call more than there are slots
  -- for the errors is fuel enough.
  pub heal_transitive-fuel :
      (slots : List Slot) (fuel : ℕ) (id dependency : PackageId) (s : State)
      → CoversErrors slots s
      → length slots < fuel
      → heal_transitive env db fuel id dependency s ≢ err out_of_fuel
  heal_transitive-fuel slots fuel id dependency s covers h e =
      subst (Ends slots (length slots)) e
        (heal_transitive-Ends slots fuel (length slots) id dependency s h
          (record { covers = covers; full = filled-le-length s slots }))
        refl
