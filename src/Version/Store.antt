-- ===== src/Version/Store.antt =====
-- What backend/src/version/mod.rs relies on: the versions of the crate emver, the record of the
-- server's version in the database patch-db (a submodule).
use Prim.Native.Nat.{Ordering, compare}
use start_os.Common.{ℕ, ◌≡◌, ◌↔◌, Option, some}

-- one ordering, or the next one where it says `eq`
abbrev pub and_then : Ordering → Ordering → Ordering
and_then Ordering.eq next = next
and_then first next = first

-- `emver::Version`, ordered by its four numbers from the left, and `emver::VersionRange`
pub record Emver : Type 1 where
  pub Version : Type 0
  pub Range : Type 0
  pub new : ℕ → ℕ → ℕ → ℕ → Version
  pub cmp : Version → Version → Ordering
  -- `Anchor(GTE, v)`, `Anchor(LTE, v)`, `Conj`
  pub gte : Version → Range
  pub lte : Version → Range
  pub conj : Range → Range → Range
  pub cmp-new :
      (a b c d a' b' c' d' : ℕ)
      → cmp (new a b c d) (new a' b' c' d')
        ≡ and_then (compare a a') (and_then (compare b b') (and_then (compare c c') (compare d d')))
  pub cmp_eq : (v w : Version) → (cmp v w ≡ Ordering.eq) ↔ (v ≡ w)
  pub cmp_swap : (v w : Version) → (cmp v w ≡ Ordering.lt) ↔ (cmp w v ≡ Ordering.gt)
  pub cmp_trans :
      (u v w : Version) → cmp u v ≡ Ordering.lt → cmp v w ≡ Ordering.lt → cmp u w ≡ Ordering.lt

-- The database and the secrets, of which only the recorded version is looked at. Every call may
-- fail; a recorded version is read back.
pub record Server (emver : Emver) : Type 1 where
  pub State : Type 0
  pub server_version : State → Option emver.Version
  pub set_server_version : emver.Version → State → Option State
  pub set_version_range : emver.Range → State → Option State
  pub server_version-set :
      (v : emver.Version) (s s' : State)
      → set_server_version v s ≡ some s'
      → server_version s' ≡ some v

-- Why `init` fails.
pub data Failure : Type 0 where
  database : Failure
  -- an error in the body of a migration
  migration : Failure
  -- "NO PATH FROM ..", "NO PATH TO .."
  no_path : Failure
  cannot_downgrade : Failure
  -- not an outcome of the program: the bound on a recursion was too small
  out_of_fuel : Failure
