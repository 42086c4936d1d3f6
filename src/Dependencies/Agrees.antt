-- ===== src/Dependencies/Agrees.antt =====
-- What an operation of the database leaves as it is: the dependents of each package, and which
-- dependencies it has errors on (backend/src/dependencies.rs).
use start_os.Common.{◌≡◌, sym, ap, ◌∙◌, some, arith, ok, ok_or}
use start_os.Common.Map.{nat_key, contains}
use start_os.Status.{PackageId, MainStatus}
use start_os.Dependencies.Store.{Env, Installed, PatchDb, database}
use start_os.Dependencies.Break.Recorded.{dependents}
use start_os.Dependencies.Break.Visits.{has_error, IsConsistent}

module _ (env : Env) (db : PatchDb env) where
  open db use {State, begin, save}

  -- `e` with another status
  abbrev set_main : Installed env → MainStatus → Installed env
  set_main e main = record e { status = record (e.status) { main = main } }

  -- the same dependents, and errors on the same dependencies
  abbrev pub Agrees : State → State → Type 0
  Agrees s s' =
      (j : PackageId)
      → (dependents env db s' j ≡ dependents env db s j)
        × ((d : PackageId) → has_error env db s' j d ≡ has_error env db s j d)

  pub IsConsistent-Agrees :
      (s s' : State) → Agrees s s' → IsConsistent env db s → IsConsistent env db s'
  IsConsistent-Agrees s s' same c p q has d m ne =
      (same d).1 p
      ∙ c p q (sym ((same p).1 q) ∙ has) d (ap (λ l. contains d l) (sym (same p).0) ∙ m) ne

  Agrees-get : (s s' : State) → ((j : PackageId) → db.get s' j ≡ db.get s j) → Agrees s s'
  Agrees-get s s' same j = (rw (same j), λ d. rw (same j))

  pub Agrees-put :
      (s s' : State) (id : PackageId) (e : Installed env) (main : MainStatus)
      → db.get s id ≡ some (some e)
      → db.put s id (set_main e main) ≡ some s'
      → Agrees s s'
  Agrees-put s s' id e main found put j = (
    ground (arith, found, db.get-put s s' id j _ put),
    λ d. ground (arith, found, db.get-put s s' id j _ put),
  )

  pub Agrees-trans : (s s' s'' : State) → Agrees s s' → Agrees s' s'' → Agrees s s''
  Agrees-trans s s' s'' a b j = ((b j).0 ∙ (a j).0, λ d. (b j).1 d ∙ (a j).1 d)

  pub Agrees-begin : (s s' : State) → ok_or (begin s) database ≡ ok s' → Agrees s s'
  Agrees-begin s s' h = Agrees-get s s' (λ j. db.get-begin s s' j (ground arith))

  pub Agrees-save : (s s' : State) → ok_or (save s) database ≡ ok s' → Agrees s s'
  Agrees-save s s' h = Agrees-get s s' (λ j. db.get-save s s' j (ground arith))

  pub opened-IsConsistent :
      (s s' : State)
      → IsConsistent env db s
      → ok_or (begin s) database ≡ ok s'
      → IsConsistent env db s'
  opened-IsConsistent s s' c h = IsConsistent-Agrees s s' (Agrees-begin s s' h) c

  pub saved-IsConsistent :
      (s s' : State)
      → IsConsistent env db s
      → ok_or (save s) database ≡ ok s'
      → IsConsistent env db s'
  saved-IsConsistent s s' c h = IsConsistent-Agrees s s' (Agrees-save s s' h) c
