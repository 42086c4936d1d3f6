-- ===== src/Version/Chain.antt =====
-- `VersionT` of backend/src/version/mod.rs with its associated type `Previous`, and the versions of
-- backend/src/version/v0_*.rs.
use start_os.Common.{Option, some}
use start_os.Version.Store.{Emver, Server}

module _ (emver : Emver) (server : Server emver) where
  open emver use {new, gte, lte, conj}
  open server use {State}

  -- the methods of an implementation of `VersionT`
  pub record Methods : Type 0 where
    pub semver : emver.Version
    pub compat : emver.Range
    pub up : State → Option State
    pub down : State → Option State

  -- An implementation with its `Previous`, which is itself for the first one.
  pub data VersionT : Type 0 where
    first : (methods : Methods) → VersionT
    next : (methods : Methods) (previous : VersionT) → VersionT

  abbrev pub methods : VersionT → Methods
  methods (first m) = m
  methods (next m p) = m

  -- `Self::Previous::new()`
  abbrev pub previous : VersionT → VersionT
  previous (first m) = first m
  previous (next m p) = p

  abbrev pub semver : VersionT → emver.Version
  semver v = (methods v).semver

  -- The bodies of the migrations that do something; `none` is an error.
  pub record Bodies : Type 0 where
    pub up_v0_3_2 : State → Option State
    pub up_v0_3_3 : State → Option State
    pub up_v0_3_4 : State → Option State
    pub up_v0_3_4_3 : State → Option State
    pub up_v0_3_4_4 : State → Option State
    pub down_v0_3_3 : State → Option State
    pub down_v0_3_4 : State → Option State

  -- `V0_3_0_COMPAT`; its upper end is `Current::new().semver()`
  abbrev pub v0_3_0_compat : emver.Range
  v0_3_0_compat = conj (gte (new 0 3 0 0)) (lte (new 0 3 4 4))

  abbrev version : emver.Version → (State → Option State) → (State → Option State) → Methods
  version v up down = record { semver = v; compat = v0_3_0_compat; up = up; down = down }

  module _ (bodies : Bodies) where
    open bodies use {
      up_v0_3_2, up_v0_3_3, up_v0_3_4, up_v0_3_4_3, up_v0_3_4_4, down_v0_3_3, down_v0_3_4,
    }

    unfoldable pub v0_3_0 : VersionT
    v0_3_0 = first (version (new 0 3 0 0) some some)

    unfoldable pub v0_3_0_1 : VersionT
    v0_3_0_1 = next (version (new 0 3 0 1) some some) v0_3_0

    unfoldable pub v0_3_0_2 : VersionT
    v0_3_0_2 = next (version (new 0 3 0 2) some some) v0_3_0_1

    unfoldable pub v0_3_0_3 : VersionT
    v0_3_0_3 = next (version (new 0 3 0 3) some some) v0_3_0_2

    unfoldable pub v0_3_1 : VersionT
    v0_3_1 = next (version (new 0 3 1 0) some some) v0_3_0_3

    unfoldable pub v0_3_1_1 : VersionT
    v0_3_1_1 = next (version (new 0 3 1 1) some some) v0_3_1

    unfoldable pub v0_3_1_2 : VersionT
    v0_3_1_2 = next (version (new 0 3 1 2) some some) v0_3_1_1

    unfoldable pub v0_3_2 : VersionT
    v0_3_2 = next (version (new 0 3 2 0) up_v0_3_2 some) v0_3_1_2

    unfoldable pub v0_3_2_1 : VersionT
    v0_3_2_1 = next (version (new 0 3 2 1) some some) v0_3_2

    unfoldable pub v0_3_3 : VersionT
    v0_3_3 = next (version (new 0 3 3 0) up_v0_3_3 down_v0_3_3) v0_3_2_1

    unfoldable pub v0_3_4 : VersionT
    v0_3_4 = next (version (new 0 3 4 0) up_v0_3_4 down_v0_3_4) v0_3_3

    unfoldable pub v0_3_4_1 : VersionT
    v0_3_4_1 = next (version (new 0 3 4 1) some some) v0_3_4

    unfoldable pub v0_3_4_2 : VersionT
    v0_3_4_2 = next (version (new 0 3 4 2) some some) v0_3_4_1

    unfoldable pub v0_3_4_3 : VersionT
    v0_3_4_3 = next (version (new 0 3 4 3) up_v0_3_4_3 some) v0_3_4_2

    unfoldable pub v0_3_4_4 : VersionT
    v0_3_4_4 = next (version (new 0 3 4 4) up_v0_3_4_4 some) v0_3_4_3

    -- `Current`
    abbrev pub current : VersionT
    current = v0_3_4_4
