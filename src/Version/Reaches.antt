-- ===== src/Version/Reaches.antt =====
-- Where a migration to the newest version of an increasing chain ends (backend/src/version/mod.rs).
use Prim.Native.Nat.{Ordering}
use start_os.Common.{
  ℕ, ◌≤◌, ◌≡◌, sym, ap, ◌∙◌, inl, inr, true, some, List, [], ◌∷◌, ◌++◌, ok, ok_or, arith, >>=-eq-ok,
}
use start_os.Version.Store.{Emver, Server, database, migration}
use start_os.Version.Chain.{Methods, first, next, methods, semver}
use start_os.Version.Migrate.{Chain, commit, migrate_to}
use start_os.Version.Later.{
  Ordering-cases, IsIncreasing, has_version, later, upgrade_all, depth, upgrade_all-append,
  has_version-le, later-eq, migrate_from_unchecked-later,
}

module _ {emver : Emver} (server : Server emver) where
  open server use {State}
  open emver use {cmp}

  -- From a version of the chain, `migrate_to` its newest one upgrades to each later version.
  pub migrate_to-later :
      (fuel : ℕ) (c top : Chain server) (s : State)
      → IsIncreasing server top
      → has_version server (semver emver server c) top ≡ true
      → depth server top ≤ fuel
      → migrate_to server fuel c top s
        ≡ upgrade_all server (later server (semver emver server c) top) s
  unfolding migrate_to
  migrate_to-later fuel c top s inc known enough =
      let v = semver emver server c in
      elim (Ordering-cases (cmp v (semver emver server top))) [
        | inl lt ↦
            rw (lt, migrate_to)
              (migrate_from_unchecked-later server fuel top v s inc known lt enough)
        | inr (inl eq) ↦ rw (eq, migrate_to, later-eq server top v eq)
        | inr (inr gt) ↦ absurd (has_version-le server top v inc known gt)
      ]

  pub commit-server_version :
      (c : Chain server) (s s' : State)
      → commit server c s ≡ ok s'
      → server.server_version s' ≡ some (semver emver server c)
  unfolding commit
  commit-server_version c s s' h =
      let (s₁, h₁, h₂) =
        >>=-eq-ok (ok_or (server.set_version_range (methods emver server c).compat s) database) _
          h in
      server.server_version-set (semver emver server c) s₁ s' (ground arith)

  -- the last version of a list is the one recorded at the end
  upgrade_all-server_version :
      (l : List (Chain server)) (c : Chain server) (s s' : State)
      → upgrade_all server (l ++ c ∷ []) s ≡ ok s'
      → server.server_version s' ≡ some (semver emver server c)
  upgrade_all-server_version l c s s' h =
      let (s₁, h₁, h₂) =
        >>=-eq-ok (upgrade_all server l s) _ (sym (upgrade_all-append server l c s) ∙ h) in
      let (s₂, h₃, h₄) = >>=-eq-ok (ok_or ((methods emver server c).up s₁) migration) _ h₂ in
      commit-server_version c s₂ s' h₄

  later-lt :
      (m : Methods emver server) (p : Chain server) (v : emver.Version)
      → cmp v m.semver ≡ Ordering.lt
      → later server v (next m p) ≡ later server v p ++ next m p ∷ []
  later-lt m p v h = ground arith

  -- the newest version of a chain is reached from every version that is not newer
  pub upgrade_all-later-server_version :
      (v : emver.Version) (top : Chain server) (s s' : State)
      → IsIncreasing server top
      → has_version server v top ≡ true
      → server.server_version s ≡ some v
      → upgrade_all server (later server v top) s ≡ ok s'
      → server.server_version s' ≡ some (semver emver server top)
  upgrade_all-later-server_version v (first m) s s' inc known recorded h =
      ground (arith, (emver.cmp_eq v m.semver).0)
  upgrade_all-later-server_version v (next m p) s s' inc known recorded h =
      elim (Ordering-cases (cmp v m.semver)) [
        | inl lt ↦
            upgrade_all-server_version (later server v p) (next m p) s s'
              (ap (λ l. upgrade_all server l s) (sym (later-lt m p v lt)) ∙ h)
        | inr (inl eq) ↦ ground (arith, (emver.cmp_eq v m.semver).0 eq)
        | inr (inr gt) ↦ absurd (has_version-le server (next m p) v inc known gt)
      ]
