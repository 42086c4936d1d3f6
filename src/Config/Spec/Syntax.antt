-- ===== src/Config/Spec/Syntax.antt =====
-- The types of backend/src/config/spec.rs. A wrapper (`WithDescription`, `WithDefault`, `WithNullable`)
-- stands as arguments of the constructor that it wraps.
use start_os.Common.{ℕ, Bool, Option, List}
use start_os.Common.Map.{Map}
use start_os.Status.{PackageId}
use start_os.S9pk.Bytes.{Bytes}
use start_os.Config.Json.{Fields}
use start_os.Config.CharSet.{CharSet}
use start_os.Config.NumRange.{NumRange}
use start_os.Config.UniqueBy.{UniqueBy}

-- What is used of other crates: the numbers of serde_json with their values as `f64`, regular
-- expressions and JSON paths.
pub record Crates : Type 1 where
  pub Number : Type 0
  pub number_eq : Number → Number → Bool
  pub Float : Type 0
  pub as_f64 : Number → Float
  -- `n.floor() == n`, `<=` and `<`
  pub is_whole : Float → Bool
  pub le : Float → Float → Bool
  pub lt : Float → Float → Bool
  pub Regex : Type 0
  pub is_match : Regex → Bytes → Bool
  pub Selector : Type 0

-- `InterfaceId`
abbrev pub InterfaceId : Type 0
InterfaceId = Bytes

pub record WithDescription : Type 0 where
  pub description : Option Bytes
  pub name : Bytes
  pub warning : Option Bytes

pub record ValueSpecEnum : Type 0 where
  pub values : List Bytes
  pub value_names : Map Bytes Bytes

pub record Entropy : Type 0 where
  pub charset : Option CharSet
  pub len : ℕ

pub data DefaultString : Type 0 where
  literal : Bytes → DefaultString
  entropy : Entropy → DefaultString

pub record UnionTag : Type 0 where
  pub id : Bytes
  pub name : Bytes
  pub description : Option Bytes
  pub variant_names : Map Bytes Bytes

module _ (crates : Crates) where
  open crates use {Number, Float, Regex, Selector}

  pub record ValueSpecNumber : Type 0 where
    pub range : Option (NumRange Float)
    pub integral : Bool
    pub units : Option Bytes
    pub placeholder : Option Number

  pub record Pattern : Type 0 where
    pub pattern : Regex
    pub pattern_description : Bytes

  pub record ValueSpecString : Type 0 where
    pub pattern : Option Pattern
    pub textarea : Bool
    pub copyable : Bool
    pub masked : Bool
    pub placeholder : Option Bytes

  pub data PackagePointerSpec : Type 0 where
    tor_key tor_address lan_address :
        (package_id : PackageId) (interface : InterfaceId) → PackagePointerSpec
    config : (package_id : PackageId) (selector : Selector) (multi : Bool) → PackagePointerSpec

  -- an enum without variants
  pub data SystemPointerSpec : Type 0 where

  pub data ValueSpecPointer : Type 0 where
    of_package : PackagePointerSpec → ValueSpecPointer
    of_system : SystemPointerSpec → ValueSpecPointer

  mutual
    pub data ValueSpecAny : Type 0 where
      boolean : WithDescription → (default : Bool) → ValueSpecAny
      enum : WithDescription → (default : Bytes) → ValueSpecEnum → ValueSpecAny
      list : ValueSpecList → ValueSpecAny
      number :
          WithDescription
          → (default : Option Number) → (nullable : Bool) → ValueSpecNumber
          → ValueSpecAny
      object : WithDescription → ValueSpecObject → ValueSpecAny
      string :
          WithDescription
          → (default : Option DefaultString) → (nullable : Bool) → ValueSpecString
          → ValueSpecAny
      union : WithDescription → (default : Bytes) → ValueSpecUnion → ValueSpecAny
      pointer : WithDescription → ValueSpecPointer → ValueSpecAny

    -- `ListSpec` of each kind, with its range
    pub data ValueSpecList : Type 0 where
      enums :
          WithDescription
          → (default : List Bytes) → (range : NumRange ℕ) → (spec : ValueSpecEnum) → ValueSpecList
      numbers :
          WithDescription
          → (default : List (Option Number)) → (range : NumRange ℕ) → (spec : ValueSpecNumber)
          → ValueSpecList
      objects :
          WithDescription
          → (default : List (Fields Number)) → (range : NumRange ℕ) → (spec : ValueSpecObject)
          → ValueSpecList
      strings :
          WithDescription
          → (default : List (Option DefaultString)) → (range : NumRange ℕ)
          → (spec : ValueSpecString) → ValueSpecList
      unions :
          WithDescription
          → (default : List Bytes) → (range : NumRange ℕ) → (inner_default : Bytes)
          → (spec : ValueSpecUnion) → ValueSpecList

    pub data ValueSpecObject : Type 0 where
      object_spec :
          (spec : ConfigSpec)
          → (display_as : Option Bytes) → (unique_by : UniqueBy) → ValueSpecObject

    pub data ValueSpecUnion : Type 0 where
      union_spec :
          (tag : UnionTag)
          → (variants : Variants) → (display_as : Option Bytes) → (unique_by : UniqueBy)
          → ValueSpecUnion

    -- `IndexMap<String, ValueSpecAny>` and `BTreeMap<String, ConfigSpec>`
    pub data ConfigSpec : Type 0 where
      no_keys : ConfigSpec
      key : (name : Bytes) → (val : ValueSpecAny) → (rest : ConfigSpec) → ConfigSpec

    pub data Variants : Type 0 where
      no_more : Variants
      variant : (name : Bytes) → (spec : ConfigSpec) → (rest : Variants) → Variants
