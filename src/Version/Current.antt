-- ===== src/Version/Current.antt =====
-- What `init` does from any recorded version (backend/src/version/mod.rs).
use Prim.Native.Nat.{Ordering}
use start_os.Common.{
  ℕ, ◌≤◌, ◌≡◌, ◌≢◌, refl, sym, ap, ◌∙◌, Bool, true, false, ◌||◌, Option, none, some, if◌then◌else◌,
  ok, err, ◌>>=◌, ok_or, arith,
}
use start_os.Version.Store.{Emver, Server, cannot_downgrade}
use start_os.Version.Chain.{
  Bodies, first, next, semver, current, v0_3_0, v0_3_0_1, v0_3_0_2, v0_3_0_3, v0_3_1, v0_3_1_1,
  v0_3_1_2, v0_3_2, v0_3_2_1, v0_3_3, v0_3_4, v0_3_4_1, v0_3_4_2, v0_3_4_3, v0_3_4_4,
}
use start_os.Version.Migrate.{Chain, migrate_to}
use start_os.Version.Init.{
  Version, variant, from_util_version, implementation, init, at_v0_3_0, at_v0_3_0_1, at_v0_3_0_2,
  at_v0_3_0_3, at_v0_3_1, at_v0_3_1_1, at_v0_3_1_2, at_v0_3_2, at_v0_3_2_1, at_v0_3_3, at_v0_3_4,
  at_v0_3_4_1, at_v0_3_4_2, at_v0_3_4_3, at_v0_3_4_4,
}
use start_os.Version.Reaches.{migrate_to-later, upgrade_all-later-server_version}
use start_os.Version.Later.{is_eq, IsIncreasing, has_version, later, upgrade_all, depth}

err-ne-ok {ℓ κ} : {E : Type ℓ} {A : Type κ} (e : E) (a : A) → err e ≢ ok a
err-ne-ok e a h = cc

is_eq-eq : (o : Ordering) → is_eq o ≡ true → o ≡ Ordering.eq
is_eq-eq o h = ground arith

module _ {emver : Emver} (server : Server emver) (bodies : Bodies emver server) where
  open server use {State}
  open emver use {cmp, cmp-new}

  abbrev is_version : emver.Version → Chain server → Bool
  is_version v c = is_eq (cmp v (semver emver server c))

  pub IsIncreasing-current : IsIncreasing server (current emver server bodies)
  unfolding v0_3_0 v0_3_0_1 v0_3_0_2 v0_3_0_3 v0_3_1 v0_3_1_1 v0_3_1_2 v0_3_2 v0_3_2_1 v0_3_3 v0_3_4
      v0_3_4_1 v0_3_4_2 v0_3_4_3 v0_3_4_4
  IsIncreasing-current = (
    cmp-new 0 3 4 3 0 3 4 4,
    (
      cmp-new 0 3 4 2 0 3 4 3,
      (
        cmp-new 0 3 4 1 0 3 4 2,
        (
          cmp-new 0 3 4 0 0 3 4 1,
          (
            cmp-new 0 3 3 0 0 3 4 0,
            (
              cmp-new 0 3 2 1 0 3 3 0,
              (
                cmp-new 0 3 2 0 0 3 2 1,
                (
                  cmp-new 0 3 1 2 0 3 2 0,
                  (
                    cmp-new 0 3 1 1 0 3 1 2,
                    (
                      cmp-new 0 3 1 0 0 3 1 1,
                      (
                        cmp-new 0 3 0 3 0 3 1 0,
                        (
                          cmp-new 0 3 0 2 0 3 0 3,
                          (cmp-new 0 3 0 1 0 3 0 2, (cmp-new 0 3 0 0 0 3 0 1, tt)),
                        ),
                      ),
                    ),
                  ),
                ),
              ),
            ),
          ),
        ),
      ),
    ),
  )

  -- The type found for a version has that version, or there is none, as `found` says.
  abbrev Stands : emver.Version → Option (Chain server) → Bool → Type 0
  Stands v none found = found ≡ false
  Stands v (some c) found = (semver emver server c ≡ v) × (found ≡ true)

  variant-Stands :
      (v : emver.Version) (c : Chain server) (tag rest : Version emver.Version) (found : Bool)
      → implementation server bodies tag ≡ some c
      → Stands v (implementation server bodies rest) found
      → Stands v
          (implementation server bodies (variant server bodies v c tag rest))
          (is_version v c || found)
  variant-Stands v c tag rest found known before = split (is_version v c) refl
    where
      split :
          (hit : Bool)
          → is_version v c ≡ hit
          → Stands v (implementation server bodies (if hit then tag else rest)) (hit || found)
      split true h =
          rw known (sym ((emver.cmp_eq v (semver emver server c)).0 (is_eq-eq _ h)), refl)
      split false h = before

  -- the versions of a chain tried from the oldest one on
  abbrev tried : emver.Version → Chain server → Bool → Bool
  tried v (first m) rest = is_version v (first m) || rest
  tried v (next m p) rest = tried v p (is_version v (next m p) || rest)

  tried-has_version :
      (v : emver.Version) (c : Chain server) (rest : Bool)
      → tried v c rest ≡ (has_version server v c || rest)
  tried-has_version v (first m) rest = refl
  tried-has_version v (next m p) rest =
      ground (arith, tried-has_version v p (is_version v (next m p) || rest))

  from_util_version-Stands :
      (v : emver.Version)
      → Stands v
          (implementation server bodies (from_util_version server bodies v))
          (tried v (current emver server bodies) false)
  unfolding from_util_version implementation v0_3_0 v0_3_0_1 v0_3_0_2 v0_3_0_3 v0_3_1 v0_3_1_1
      v0_3_1_2 v0_3_2 v0_3_2_1 v0_3_3 v0_3_4 v0_3_4_1 v0_3_4_2 v0_3_4_3 v0_3_4_4
  from_util_version-Stands v =
      (variant-Stands v (v0_3_0 emver server bodies) at_v0_3_0 _ _ refl (
        variant-Stands v (v0_3_0_1 emver server bodies) at_v0_3_0_1 _ _ refl (
          variant-Stands v (v0_3_0_2 emver server bodies) at_v0_3_0_2 _ _ refl (
            variant-Stands v (v0_3_0_3 emver server bodies) at_v0_3_0_3 _ _ refl (
              variant-Stands v (v0_3_1 emver server bodies) at_v0_3_1 _ _ refl (
                variant-Stands v (v0_3_1_1 emver server bodies) at_v0_3_1_1 _ _ refl (
                  variant-Stands v (v0_3_1_2 emver server bodies) at_v0_3_1_2 _ _ refl (
                    variant-Stands v (v0_3_2 emver server bodies) at_v0_3_2 _ _ refl (
                      variant-Stands v (v0_3_2_1 emver server bodies) at_v0_3_2_1 _ _ refl (
                        variant-Stands v (v0_3_3 emver server bodies) at_v0_3_3 _ _ refl (
                          variant-Stands v (v0_3_4 emver server bodies) at_v0_3_4 _ _ refl (
                            variant-Stands v (v0_3_4_1 emver server bodies) at_v0_3_4_1 _ _ refl (
                              variant-Stands v (v0_3_4_2 emver server bodies) at_v0_3_4_2 _ _ refl (
                                variant-Stands v (v0_3_4_3 emver server bodies) at_v0_3_4_3 _ _ refl
                                  (variant-Stands v (v0_3_4_4 emver server bodies) at_v0_3_4_4 _ _
                                    refl refl)))))))))))))))

  from_util_version-cases :
      (v : emver.Version)
      → Stands v
          (implementation server bodies (from_util_version server bodies v))
          (has_version server v (current emver server bodies))
  from_util_version-cases v = rw (← found) (from_util_version-Stands v)
    where
      found :
          tried v (current emver server bodies) false
          ≡ has_version server v (current emver server bodies)
      found = tried-has_version v (current emver server bodies) false ∙ or_false _
        where
          or_false : (b : Bool) → (b || false) ≡ b
          or_false true = refl
          or_false false = refl

  -- From a recorded version, `init` upgrades to each later version up to the current one, in their
  -- order, if the recorded version is known; it refuses to touch the server if it is not.
  pub init-upgrade_all :
      (fuel : ℕ) (v : emver.Version) (s : State)
      → server.server_version s ≡ some v
      → depth server (current emver server bodies) ≤ fuel
      → init server bodies fuel s ≡ (
          if has_version server v (current emver server bodies)
          then upgrade_all server (later server v (current emver server bodies)) s
          else err cannot_downgrade)
  unfolding init
  init-upgrade_all fuel v s recorded enough = rw recorded (
      decide (implementation server bodies (from_util_version server bodies v))
        (has_version server v (current emver server bodies)) refl (from_util_version-cases v))
    where
      decide :
          (o : Option (Chain server)) (found : Bool)
          → has_version server v (current emver server bodies) ≡ found
          → Stands v o found
          → (ok_or o cannot_downgrade >>= λ known.
              migrate_to server fuel known (current emver server bodies) s)
            ≡ (if found
                then upgrade_all server (later server v (current emver server bodies)) s
                else err cannot_downgrade)
      decide none found h stands = rw stands
      decide (some c) found h stands = rw stands.1 (
          migrate_to-later server fuel c (current emver server bodies) s IsIncreasing-current
            (ap (λ w. has_version server w (current emver server bodies)) stands.0 ∙ h ∙ stands.1)
            enough
          ∙ ap (λ w. upgrade_all server (later server w (current emver server bodies)) s) stands.0)

  -- Where `init` succeeds, the server is at the current version.
  pub init-server_version :
      (fuel : ℕ) (v : emver.Version) (s s' : State)
      → server.server_version s ≡ some v
      → depth server (current emver server bodies) ≤ fuel
      → init server bodies fuel s ≡ ok s'
      → server.server_version s' ≡ some (semver emver server (current emver server bodies))
  init-server_version fuel v s s' recorded enough done =
      decide (has_version server v (current emver server bodies)) refl
        (sym (init-upgrade_all fuel v s recorded enough) ∙ done)
    where
      decide :
          (known : Bool)
          → has_version server v (current emver server bodies) ≡ known
          → (if known
              then upgrade_all server (later server v (current emver server bodies)) s
              else err cannot_downgrade)
            ≡ ok s'
          → server.server_version s' ≡ some (semver emver server (current emver server bodies))
      decide true known h =
          upgrade_all-later-server_version server v (current emver server bodies) s s'
            IsIncreasing-current known recorded h
      decide false known h = absurd (err-ne-ok cannot_downgrade s' h)
