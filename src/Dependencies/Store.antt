-- ===== src/Dependencies/Store.antt =====
-- The part of the database that backend/src/dependencies.rs reads and writes, and what it relies on:
-- the database `patch-db` (a submodule), the crate `emver`, and the procedures of the packages,
-- which run in containers.
use start_os.Common.{◌≡◌, Bool, Option, some, List, Result, ◌>>=◌, ok_or, ◌==◌, if◌then◌else◌}
use start_os.Common.Map.{Map}
use start_os.Status.{PackageId, HealthCheckId, MainStatus, Text}
use start_os.Dependencies.Errors.{DependencyError}

-- Versions, and the procedures of packages. `none` is a failed call; a procedure gives the same
-- answer to the same question while one operation runs.
pub record Env : Type 1 where
  pub Version : Type 0
  pub VersionRange : Type 0
  pub Config : Type 0
  pub ConfigActions : Type 0
  pub DependencyConfig : Type 0
  pub satisfies : Version → VersionRange → Bool
  pub default_version : Version
  pub default_config : Config
  -- `ConfigActions::get` on the dependency: its configuration, if it has one
  pub get_config : ConfigActions → PackageId → Version → Option (Option Config)
  -- `DependencyConfig::check`: the dependent's complaint about the dependency's configuration
  pub check : DependencyConfig → PackageId → PackageId → Config → Option (Option Text)

pub data DependencyRequirement : Type 0 where
  opt_in opt_out : (how : Text) → DependencyRequirement
  required : DependencyRequirement

module _ (env : Env) where
  open env use {Version, VersionRange, ConfigActions, DependencyConfig}

  pub record DepInfo : Type 0 where
    pub version : VersionRange
    pub requirement : DependencyRequirement
    pub config : Option DependencyConfig

  pub record Manifest : Type 0 where
    pub id : PackageId
    pub version : Version
    pub config : Option ConfigActions
    pub dependencies : Map PackageId DepInfo

  abbrev pub DependencyErrors : Type 0
  DependencyErrors = Map PackageId (DependencyError VersionRange Version)

  pub record Status : Type 0 where
    pub configured : Bool
    pub main : MainStatus
    pub dependency_errors : DependencyErrors

  -- `CurrentDependencyInfo`; its pointers play no part here
  pub record DependencyUse : Type 0 where
    pub health_checks : List HealthCheckId

  -- `InstalledPackageDataEntry`
  pub record Installed : Type 0 where
    pub status : Status
    pub manifest : Manifest
    pub current_dependents : Map PackageId DependencyUse
    pub current_dependencies : Map PackageId DependencyUse

  -- The installed packages of the database. Every call may fail; `begin` and `save` open and commit
  -- a transaction, in which the same entries are seen; a written entry is read back.
  pub record PatchDb : Type 1 where
    pub State : Type 0
    pub get : State → PackageId → Option (Option Installed)
    pub put : State → PackageId → Installed → Option State
    pub begin : State → Option State
    pub save : State → Option State
    pub get-begin : (s s' : State) (j : PackageId) → begin s ≡ some s' → get s' j ≡ get s j
    pub get-save : (s s' : State) (j : PackageId) → save s ≡ some s' → get s' j ≡ get s j
    pub get-put :
        (s s' : State) (i j : PackageId) (e : Installed)
        → put s i e ≡ some s'
        → get s' j ≡ (if j == i then some (some e) else get s j)

-- Why an operation fails.
pub data Failure : Type 0 where
  database not_found procedure : Failure
  -- not an outcome of the program: the bound on a recursion was too small
  out_of_fuel : Failure

module _ {env : Env} (db : PatchDb env) where
  -- `receipts.….get(db, id).await?`
  abbrev pub read : db.State → PackageId → Result Failure (Option (Installed env))
  read s id = ok_or (db.get s id) database

  -- the same behind `.ok_or_else(|| not_found!(id))?`
  abbrev pub read_found : db.State → PackageId → Result Failure (Installed env)
  read_found s id = read s id >>= λ e. ok_or e not_found

  abbrev pub write : db.State → PackageId → Installed env → Result Failure db.State
  write s id e = ok_or (db.put s id e) database

-- `e` with other dependency errors, and with another status
abbrev pub with_errors : {env : Env} → Installed env → DependencyErrors env → Installed env
with_errors e errors = record e { status = record (e.status) { dependency_errors = errors } }
