-- ===== src/Version/Rollback.antt =====
-- A migration in `rollback_to_unchecked` (backend/src/version/mod.rs), as the list of the versions that it
-- takes back.
use Prim.Native.Nat.{Ordering}
use start_os.Common.{
  ℕ, zero, suc, ◌≤◌, ◌≡◌, refl, sym, ap, ◌∙◌, inl, inr, true, some, List, [], ◌∷◌, Result, ok, err,
  ◌>>=◌, ok_or, arith, >>=_assoc, >>=-eq-ok,
}
use mathlib.Core.Path.{fun_ext}
use start_os.Version.Store.{Emver, Server, Failure, migration, no_path}
use start_os.Version.Chain.{Methods, first, next, methods, previous, semver}
use start_os.Version.Migrate.{Chain, commit, rollback_to_unchecked}
use start_os.Version.Later.{Ordering-cases, IsIncreasing, has_version, depth, has_version-le}
use start_os.Version.Reaches.{commit-server_version}

module _ {emver : Emver} (server : Server emver) where
  open server use {State}
  open emver use {Version, cmp}

  -- the versions of the chain after `version`, the newest one first
  abbrev pub undone : Version → Chain server → List (Chain server)
  undone version (first m) = []
  undone version (next m p) = elim (cmp version m.semver) [
    | Ordering.lt ↦ next m p ∷ undone version p
    | _ ↦ []
  ]

  -- `down`, then `commit` of the predecessor, of each version of a list
  abbrev pub downgrade : Chain server → State → Result Failure State
  downgrade v s = ok_or ((methods emver server v).down s) migration >>= λ s'.
      commit server (previous emver server v) s'

  abbrev pub downgrade_all : List (Chain server) → State → Result Failure State
  downgrade_all [] s = ok s
  downgrade_all (v ∷ rest) s = downgrade v s >>= λ s'. downgrade_all rest s'

  undone-eq :
      (c : Chain server) (version : Version)
      → cmp version (semver emver server c) ≡ Ordering.eq
      → undone version c ≡ []
  undone-eq (first m) version h = refl
  undone-eq (next m p) version h = ground arith

  undone-lt :
      (m : Methods emver server) (p : Chain server) (version : Version)
      → cmp version m.semver ≡ Ordering.lt
      → undone version (next m p) ≡ next m p ∷ undone version p
  undone-lt m p version h = ground arith

  -- To an older version of an increasing chain, `rollback_to_unchecked` takes back each later version,
  -- the newest one first, if there is fuel for the whole chain.
  pub rollback_to_unchecked-undone :
      (fuel : ℕ) (c : Chain server) (version : Version) (s : State)
      → IsIncreasing server c
      → has_version server version c ≡ true
      → cmp version (semver emver server c) ≡ Ordering.lt
      → depth server c ≤ fuel
      → rollback_to_unchecked server fuel c version s ≡ downgrade_all (undone version c) s
  unfolding rollback_to_unchecked
  rollback_to_unchecked-undone zero (first m) version s inc h older le = absurd (omega arith)
  rollback_to_unchecked-undone zero (next m p) version s inc h older le = absurd (omega arith)
  rollback_to_unchecked-undone (suc fuel) (first m) version s inc h older le = absurd (ground arith)
  rollback_to_unchecked-undone (suc fuel) (next m p) version s inc h older le =
      sym (
        >>=_assoc (ok_or (m.down s) migration) (commit server p) (λ s₂.
          let earlier = rollback_to_unchecked server fuel p version s₂ in
          elim (cmp version (semver emver server p)) as (λ _. Result Failure State) [
            | Ordering.lt ↦ earlier
            | Ordering.eq ↦ ok s₂
            | Ordering.gt ↦ err no_path
          ]))
      ∙ ap (λ f. (ok_or (m.down s) migration >>= commit server p) >>= f)
          (fun_ext (λ s₂. elim (Ordering-cases (cmp version (semver emver server p))) [
            | inl lt ↦ rw lt (
                rollback_to_unchecked-undone fuel p version s₂ inc.1 (ground arith) lt
                  (omega arith))
            | inr (inl eq) ↦ rw (eq, undone-eq p version eq)
            | inr (inr gt) ↦ absurd (has_version-le server p version inc.1 (ground arith) gt)
          ]))
      ∙ ap (λ l. downgrade_all l s) (sym (undone-lt m p version older))

  -- Where `rollback_to_unchecked` succeeds, on whatever chain, the version that it was asked for is
  -- recorded.
  pub rollback_to_unchecked-server_version :
      (fuel : ℕ) (c : Chain server) (version : Version) (s s' : State)
      → rollback_to_unchecked server fuel c version s ≡ ok s'
      → server.server_version s' ≡ some version
  unfolding rollback_to_unchecked
  rollback_to_unchecked-server_version zero c version s s' h = absurd (ground arith)
  rollback_to_unchecked-server_version (suc fuel) c version s s' h =
      let p = previous emver server c in
      let (s₁, h₁, h₂) = >>=-eq-ok (ok_or ((methods emver server c).down s) migration) _ h in
      let (s₂, h₃, h₄) = >>=-eq-ok (commit server p s₁) _ h₂ in
      elim (Ordering-cases (cmp version (semver emver server p))) [
        | inl lt ↦ rollback_to_unchecked-server_version fuel p version s₂ s' (ground arith)
        | inr (inl eq) ↦ ground (
          arith,
          commit-server_version server p s₁ s₂ h₃,
          (emver.cmp_eq version (semver emver server p)).0 eq,
        )
        | inr (inr gt) ↦ absurd (ground arith)
      ]
