-- ===== src/Control/Recorded.antt =====
-- What stopping and starting a service write (backend/src/control.rs): the status of the service, and
-- the errors of the packages that depend on it.
use start_os.Common.{
  ok-injective, ℕ, ◌≡◌, refl, sym, ap, ◌∙◌, false, some, [], arith, if◌then◌else◌, ◌==◌, ok, ok_or,
  >>=-eq-ok,
}
use mathlib.Core.Path.{subst}
use start_os.Common.Map.{nat_key}
use start_os.Status.{PackageId, MainStatus, stopping, starting_up}
use start_os.Dependencies.Errors.{not_running}
use start_os.Dependencies.Store.{Env, Installed, PatchDb, database, read_found, write}
use start_os.Dependencies.Break.{Breakages, break_all_dependents_transitive}
use start_os.Dependencies.HealAll.{heal_all_dependents_transitive}
use start_os.Dependencies.SameButErrors.{
  break_all_dependents_transitive-SameButErrors, heal_all_dependents_transitive-SameButErrors,
  but_errors, Holds, Holds-SameButErrors, SameButErrors-trans, save-SameButErrors,
}
use start_os.Control.{set_main, start_in, set_stopping, stop_common, stop_impl}

module _ (env : Env) (db : PatchDb env) where
  open db use {State, get, begin, save}

  -- The package `id` of `s` is installed with the status `old`, and has the status `main` in `s'`;
  -- nothing else differs but the errors of packages on their dependencies.
  abbrev pub IsAt : PackageId → MainStatus → MainStatus → State → State → Type 0
  IsAt id old main s s' =
      (e : Installed env) × (get s id ≡ some (some e))
      × (e.status.main ≡ old)
      × Holds env db id (set_main env db e main) s s'

  set_main-Holds :
      (s tx tx₁ : State) (id : PackageId) (e : Installed env) (main : MainStatus)
      → ok_or (begin s) database ≡ ok tx
      → read_found db tx id ≡ ok e
      → write db tx id (set_main env db e main) ≡ ok tx₁
      → (get s id ≡ some (some e)) × Holds env db id (set_main env db e main) s tx₁
  set_main-Holds s tx tx₁ id e main begun found written =
      let opened = λ (j : PackageId). db.get-begin s tx j (ground arith) in
      let put_it : db.put tx id (set_main env db e main) ≡ some tx₁ = ground arith in
      (
        sym (opened id) ∙ ground arith,
        λ j. ap but_errors (
            db.get-put tx tx₁ id j (set_main env db e main) put_it
            ∙ ap (λ x. if j == id then some (some (set_main env db e main)) else x) (opened j)),
      )

  -- the whole transaction of `start`
  pub start_in-IsAt :
      (fuel : ℕ) (id : PackageId) (s s' : State)
      → start_in env db fuel id s ≡ ok s'
      → (old : MainStatus) × IsAt id old (starting_up false) s s'
  unfolding start_in
  start_in-IsAt fuel id s s' h =
      let (tx, h₁, h₂) = >>=-eq-ok (ok_or (begin s) database) _ h in
      let (e, h₃, h₄) = >>=-eq-ok (read_found db tx id) _ h₂ in
      let main = starting_up false in
      let (tx₁, h₅, h₆) = >>=-eq-ok (write db tx id (set_main env db e main)) _ h₄ in
      let (tx₂, h₇, h₈) = >>=-eq-ok (heal_all_dependents_transitive env db fuel id tx₁) _ h₆ in
      let (found, set) = set_main-Holds s tx tx₁ id e main h₁ h₃ h₅ in
      let rest =
        SameButErrors-trans env db tx₁ tx₂ s'
          (heal_all_dependents_transitive-SameButErrors env db fuel id tx₁ tx₂ h₇)
          (save-SameButErrors env db tx₂ s' h₈) in
      let held = Holds-SameButErrors env db id (set_main env db e main) s tx₁ s' set rest in
      (e.status.main, (e, found, refl, held))

  set_stopping-IsAt :
      (id : PackageId) (s s' : State) (last : MainStatus)
      → set_stopping env db id s ≡ ok (s', last)
      → IsAt id last stopping s s'
  unfolding set_stopping
  set_stopping-IsAt id s s' last h =
      let (tx, h₁, h₂) = >>=-eq-ok (ok_or (begin s) database) _ h in
      let (e, h₃, h₄) = >>=-eq-ok (read_found db tx id) _ h₂ in
      let (tx₁, h₅, h₆) = >>=-eq-ok (write db tx id (set_main env db e stopping)) _ h₄ in
      let (s₁, h₇, h₈) = >>=-eq-ok (ok_or (save tx₁) database) _ h₆ in
      let same = ok-injective (s₁, e.status.main) (s', last) h₈ in
      let (found, set) = set_main-Holds s tx tx₁ id e stopping h₁ h₃ h₅ in
      let held =
        Holds-SameButErrors env db id (set_main env db e stopping) s tx₁ s₁ set
          (save-SameButErrors env db tx₁ s₁ h₇) in
      subst (λ r. IsAt id r.1 stopping s r.0) same (e, found, refl, held)

  stop_common-IsAt :
      (fuel : ℕ) (id : PackageId) (s s' : State) (b b' : Breakages env db) (last : MainStatus)
      → stop_common env db fuel id s b ≡ ok ((s', b'), last)
      → IsAt id last stopping s s'
  unfolding stop_common
  stop_common-IsAt fuel id s s' b b' last h =
      let ((s₁, l), h₁, h₂) = >>=-eq-ok (set_stopping env db id s) _ h in
      let ((s₂, b₂), h₃, h₄) =
        >>=-eq-ok (break_all_dependents_transitive env db fuel id not_running s₁ b) _ h₂ in
      let same = ok-injective ((s₂, b₂), l) ((s', b'), last) h₄ in
      let (e, found, was, set) = set_stopping-IsAt id s s₁ l h₁ in
      let rest =
        break_all_dependents_transitive-SameButErrors env db fuel id not_running s₁ s₂ b b₂ h₃ in
      let held = Holds-SameButErrors env db id (set_main env db e stopping) s s₁ s₂ set rest in
      subst (λ r. IsAt id r.1 stopping s r.0.0) same (e, found, was, held)

  pub stop_impl-IsAt :
      (fuel : ℕ) (id : PackageId) (s s' : State) (last : MainStatus)
      → stop_impl env db fuel id s ≡ ok (s', last)
      → IsAt id last stopping s s'
  unfolding stop_impl
  stop_impl-IsAt fuel id s s' last h =
      let (tx, h₁, h₂) = >>=-eq-ok (ok_or (begin s) database) _ h in
      let (((tx₁, b), l), h₃, h₄) = >>=-eq-ok (stop_common env db fuel id tx []) _ h₂ in
      let (s₁, h₅, h₆) = >>=-eq-ok (ok_or (save tx₁) database) _ h₄ in
      let same = ok-injective (s₁, l) (s', last) h₆ in
      let (e, found, was, set) = stop_common-IsAt fuel id tx tx₁ [] b l h₃ in
      let opened = λ (j : PackageId). db.get-begin s tx j (ground arith) in
      let held =
        Holds-SameButErrors env db id (set_main env db e stopping) s tx₁ s₁
          (λ j.
            set j
            ∙ ap (λ x. but_errors (if j == id then some (some (set_main env db e stopping)) else x))
                (opened j))
          (save-SameButErrors env db tx₁ s₁ h₅) in
      subst (λ r. IsAt id r.1 stopping s r.0) same (e, sym (opened id) ∙ found, was, held)
