-- ===== src/Control/Restart.antt =====
-- What `restart` changes, and what it refuses (backend/src/control.rs).
use start_os.Common.{
  ◌≡◌, refl, sym, ap, ◌∙◌, Bool, true, false, Option, none, some, arith, ◌==◌, ok, err, ok_or,
  >>=-eq-ok,
}
use start_os.Common.Map.{nat_key}
use start_os.Status.{PackageId, MainStatus, running_since, restarting}
use start_os.Dependencies.Store.{Env, Installed, PatchDb, Failure, database, read, write}
use start_os.Control.{Refusal, not_started, or_failed, set_main, if_running, running_entry, restart}

module _ {State : Type 0} where
  or_failed-some :
      {A : Type 0} (o : Option A) (e : Failure) (a : A)
      → or_failed {State = State} (ok_or o e) ≡ ok a
      → o ≡ some a
  or_failed-some (some x) e a h = cc
  or_failed-some none e a h = absurd (ground arith)

  ok_or-some :
      {A : Type 0} (o : Option A) (e : Refusal State) (a : A) → ok_or o e ≡ ok a → o ≡ some a
  ok_or-some (some x) e a h = cc
  ok_or-some none e a h = absurd (ground arith)

module _ (env : Env) (db : PatchDb env) where
  open db use {State, begin, save}

  -- the package is installed and runs
  abbrev pub is_some_entry : Option (Installed env) → Bool
  is_some_entry none = false
  is_some_entry (some e) = true

  abbrev pub runs_in : Option (Option (Installed env)) → Bool
  runs_in none = false
  runs_in (some found) = is_some_entry (running_entry env db found)

  abbrev pub runs : State → PackageId → Bool
  runs s id = runs_in (db.get s id)

  -- the status of an installed package
  abbrev pub main_of : State → PackageId → Option MainStatus
  main_of s id = elim (db.get s id) as (λ _. Option MainStatus) [
    | some (some e) ↦ some (e.status.main)
    | _ ↦ none
  ]

  if_running-same :
      (main : MainStatus) (e e' : Installed env) → if_running env db main e ≡ some e' → e ≡ e'
  if_running-same (running_since started health) e e' h = cc
  if_running-same _ e e' h = absurd (ground arith)

  entry_found :
      (found : Option (Installed env)) (e : Installed env)
      → running_entry env db found ≡ some e
      → found ≡ some e
  entry_found none e h = absurd (ground arith)
  entry_found (some e') e h = ap some (if_running-same e'.status.main e' e h)

  -- A restart that succeeds was one of a service that runs: its status is restarting, and nothing else
  -- has changed in the database.
  pub restart-restarting :
      (id : PackageId) (s s' : State)
      → restart env db id s ≡ ok s'
      → (runs s id ≡ true)
        × (main_of s' id ≡ some restarting)
        × ((j : PackageId) → (j == id) ≡ false → db.get s' j ≡ db.get s j)
  unfolding restart
  restart-restarting id s s' h =
      let (tx, h₁, h₂) = >>=-eq-ok (or_failed (ok_or (begin s) database)) _ h in
      let (found, h₃, h₄) = >>=-eq-ok (or_failed (read db tx id)) _ h₂ in
      let (e, h₅, h₆) = >>=-eq-ok (ok_or (running_entry env db found) not_started) _ h₄ in
      let (tx₁, h₇, h₈) =
        >>=-eq-ok (or_failed (write db tx id (set_main env db e restarting))) _ h₆ in
      let begun : begin s ≡ some tx = or_failed-some (begin s) database tx h₁ in
      let got : db.get tx id ≡ some found = or_failed-some (db.get tx id) database found h₃ in
      let entry : running_entry env db found ≡ some e =
        ok_or-some (running_entry env db found) not_started e h₅ in
      let written : db.put tx id (set_main env db e restarting) ≡ some tx₁ =
        or_failed-some (db.put tx id (set_main env db e restarting)) database tx₁ h₇ in
      let saved : save tx₁ ≡ some s' = or_failed-some (save tx₁) database s' h₈ in
      let before : db.get s id ≡ some found = sym (db.get-begin s tx id begun) ∙ got in
      let after = λ (j : PackageId).
        db.get-save tx₁ s' j saved
        ∙ db.get-put tx tx₁ id j (set_main env db e restarting) written in
      (
        ap runs_in before ∙ ap is_some_entry entry,
        ground (arith, after id),
        λ j other. ground (arith, after j, db.get-begin s tx j begun, other),
      )

  no_entry : (o : Option (Installed env)) → is_some_entry o ≡ false → o ≡ none
  no_entry none h = refl
  no_entry (some e) h = absurd (ground arith)

  -- A package that is not installed, or does not run, is not restarted.
  pub restart-not_started :
      (id : PackageId) (s tx : State) (found : Option (Installed env))
      → begin s ≡ some tx
      → db.get s id ≡ some found
      → runs s id ≡ false
      → restart env db id s ≡ err not_started
  unfolding restart
  restart-not_started id s tx found begun got stopped =
      let idle = no_entry (running_entry env db found) (sym (ap runs_in got) ∙ stopped) in
      let read_it : db.get tx id ≡ some found = db.get-begin s tx id begun ∙ got in
      rw (begun, read_it, idle) refl
