-- ===== src/Control/Consistent.antt =====
-- Starting and stopping a service keeps the errors of the dependents consistent
-- (backend/src/control.rs with backend/src/dependencies.rs).
use start_os.Common.{
  ok-injective, ℕ, ◌≡◌, sym, ap, ◌∙◌, true, false, [], arith, ◌==◌, ok, ok_or, >>=-eq-ok,
}
use mathlib.Core.Path.{subst}
use start_os.Common.Map.{nat_key, contains}
use start_os.Status.{PackageId, MainStatus, stopping, starting_up}
use start_os.Dependencies.Errors.{not_running}
use start_os.Dependencies.Store.{Env, Installed, PatchDb, database, read_found, write}
use start_os.Dependencies.Break.{Breakages, break_all_dependents_transitive}
use start_os.Dependencies.Break.Recorded.{dependents}
use start_os.Dependencies.Break.Visits.{has_error, IsConsistent}
use start_os.Dependencies.Break.Spreads.{break_all_dependents_transitive-IsConsistent}
use start_os.Dependencies.HealAll.{heal_all_dependents_transitive}
use start_os.Dependencies.HealAll.Keeps.{heal_all_dependents_transitive-IsConsistent}
use start_os.Dependencies.Agrees.{
  Agrees, Agrees-trans, Agrees-begin, Agrees-save, Agrees-put, IsConsistent-Agrees,
}
use start_os.Control.{set_main, start_in, set_stopping, stop_common, stop_impl}
use start_os.Control.Recorded.{IsAt, start_in-IsAt, stop_impl-IsAt}

module _ (env : Env) (db : PatchDb env) where
  open db use {State, begin, save}

  -- another status of one package, in a transaction that has begun
  Agrees-set_main :
      (s tx tx₁ : State) (id : PackageId) (e : Installed env) (main : MainStatus)
      → ok_or (begin s) database ≡ ok tx
      → read_found db tx id ≡ ok e
      → write db tx id (set_main env db e main) ≡ ok tx₁
      → Agrees env db s tx₁
  Agrees-set_main s tx tx₁ id e main begun found written =
      Agrees-trans env db s tx tx₁ (Agrees-begin env db s tx begun)
        (Agrees-put env db tx tx₁ id e main (ground arith) (ground arith))

  set_stopping-Agrees :
      (id : PackageId) (s s' : State) (last : MainStatus)
      → set_stopping env db id s ≡ ok (s', last)
      → Agrees env db s s'
  unfolding set_stopping
  set_stopping-Agrees id s s' last h =
      let (tx, h₁, h₂) = >>=-eq-ok (ok_or (begin s) database) _ h in
      let (e, h₃, h₄) = >>=-eq-ok (read_found db tx id) _ h₂ in
      let (tx₁, h₅, h₆) = >>=-eq-ok (write db tx id (set_main env db e stopping)) _ h₄ in
      let (s₁, h₇, h₈) = >>=-eq-ok (ok_or (save tx₁) database) _ h₆ in
      let same : s₁ ≡ s' = ap (λ r. r.0) (ok-injective (s₁, e.status.main) (s', last) h₈) in
      subst (Agrees env db s) same (
        Agrees-trans env db s tx₁ s₁ (Agrees-set_main s tx tx₁ id e stopping h₁ h₃ h₅)
          (Agrees-save env db tx₁ s₁ h₇))

  -- the errors that were there are there, and the dependents of `id` have one on it
  abbrev Breaks : PackageId → State → State → Type 0
  Breaks id s s' =
      ((d : PackageId)
        → contains d (dependents env db s id) ≡ true
        → (id == d) ≡ false
        → has_error env db s' d id ≡ true)
      × ((j d : PackageId) → has_error env db s j d ≡ true → has_error env db s' j d ≡ true)

  stop_common-Breaks :
      (fuel : ℕ) (id : PackageId) (s s' : State) (b b' : Breakages env db) (last : MainStatus)
      → IsConsistent env db s
      → stop_common env db fuel id s b ≡ ok ((s', b'), last)
      → IsConsistent env db s' × Breaks id s s'
  unfolding stop_common
  stop_common-Breaks fuel id s s' b b' last c h =
      let ((s₁, l), h₁, h₂) = >>=-eq-ok (set_stopping env db id s) _ h in
      let ((s₂, b₂), h₃, h₄) =
        >>=-eq-ok (break_all_dependents_transitive env db fuel id not_running s₁ b) _ h₂ in
      let same : s₂ ≡ s' = ap (λ r. r.0.0) (ok-injective ((s₂, b₂), l) ((s', b'), last) h₄) in
      let agrees = set_stopping-Agrees id s s₁ l h₁ in
      let (c₂, on, dependents₂, kept) =
        break_all_dependents_transitive-IsConsistent env db fuel id not_running s₁ s₂ b b₂
          (IsConsistent-Agrees env db s s₁ agrees c) h₃ in
      subst (λ t. IsConsistent env db t × Breaks id s t) same
        (
          c₂,
          (
            λ d m ne.
                on d (ap (contains d) (dependents₂ id) ∙ ap (contains d) (agrees id).0 ∙ m) ne,
            λ j d has. kept j d ((agrees j).1 d ∙ has),
          ),
        )

  -- If every package with an error has passed it on to its dependents, so it is after a service has
  -- been stopped successfully; then each of its dependents, but itself, has an error on it, and no
  -- error is lost. The service was installed with the status that is returned, and is stopping;
  -- nothing else has changed but the errors of packages on their dependencies.
  pub stop_impl-IsConsistent :
      (fuel : ℕ) (id : PackageId) (s s' : State) (last_status : MainStatus)
      → IsConsistent env db s
      → stop_impl env db fuel id s ≡ ok (s', last_status)
      → IsConsistent env db s'
        × ((d : PackageId)
            → contains d (dependents env db s id) ≡ true
            → (id == d) ≡ false
            → has_error env db s' d id ≡ true)
        × ((j d : PackageId) → has_error env db s j d ≡ true → has_error env db s' j d ≡ true)
        × IsAt env db id last_status stopping s s'
  unfolding stop_impl
  stop_impl-IsConsistent fuel id s s' last c h =
      let (tx, h₁, h₂) = >>=-eq-ok (ok_or (begin s) database) _ h in
      let (((tx₁, b), l), h₃, h₄) = >>=-eq-ok (stop_common env db fuel id tx []) _ h₂ in
      let (s₁, h₅, h₆) = >>=-eq-ok (ok_or (save tx₁) database) _ h₄ in
      let same : s₁ ≡ s' = ap (λ r. r.0) (ok-injective (s₁, l) (s', last) h₆) in
      let opened = Agrees-begin env db s tx h₁ in
      let saved = subst (Agrees env db tx₁) same (Agrees-save env db tx₁ s₁ h₅) in
      let (c₁, (on, kept)) =
        stop_common-Breaks fuel id tx tx₁ [] b l (IsConsistent-Agrees env db s tx opened c) h₃ in
      (
        IsConsistent-Agrees env db tx₁ s' saved c₁,
        λ d m ne. (saved d).1 id ∙ on d (ap (contains d) (opened id).0 ∙ m) ne,
        λ j d has. (saved j).1 d ∙ kept j d ((opened j).1 d ∙ has),
        stop_impl-IsAt env db fuel id s s' last h,
      )

  -- If every package with an error has passed it on to its dependents, so it is after the transaction
  -- that starts a service; no error is new, and an error is gone only if the dependency that it was on
  -- ends without any error. The service was installed, and its status is that it starts up; nothing
  -- else has changed but the errors of packages on their dependencies.
  pub start_in-IsConsistent :
      (fuel : ℕ) (id : PackageId) (s s' : State)
      → IsConsistent env db s
      → start_in env db fuel id s ≡ ok s'
      → IsConsistent env db s'
        × ((j d : PackageId) → has_error env db s' j d ≡ true → has_error env db s j d ≡ true)
        × ((j d : PackageId)
            → has_error env db s j d ≡ true
            → has_error env db s' j d ≡ false
            → (q : PackageId) → has_error env db s' d q ≡ false)
        × ((old : MainStatus) × IsAt env db id old (starting_up false) s s')
  unfolding start_in
  start_in-IsConsistent fuel id s s' c h =
      let (tx, h₁, h₂) = >>=-eq-ok (ok_or (begin s) database) _ h in
      let (e, h₃, h₄) = >>=-eq-ok (read_found db tx id) _ h₂ in
      let (tx₁, h₅, h₆) = >>=-eq-ok (write db tx id (set_main env db e (starting_up false))) _ h₄ in
      let (tx₂, h₇, h₈) = >>=-eq-ok (heal_all_dependents_transitive env db fuel id tx₁) _ h₆ in
      let set = Agrees-set_main s tx tx₁ id e (starting_up false) h₁ h₃ h₅ in
      let saved = Agrees-save env db tx₂ s' h₈ in
      let (c₂, old, justified) =
        heal_all_dependents_transitive-IsConsistent env db fuel id tx₁ tx₂
          (IsConsistent-Agrees env db s tx₁ set c) h₇ in
      (
        IsConsistent-Agrees env db tx₂ s' saved c₂,
        λ j d has. sym ((set j).1 d) ∙ old j d (sym ((saved j).1 d) ∙ has),
        λ j d has gone q.
            (saved d).1 q ∙ justified j d ((set j).1 d ∙ has) (sym ((saved j).1 d) ∙ gone) q,
        start_in-IsAt env db fuel id s s' h,
      )
