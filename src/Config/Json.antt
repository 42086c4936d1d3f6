-- ===== src/Config/Json.antt =====
-- The values of the crate serde_json, which a configuration consists of. An object keeps its keys in
-- the order of their insertion; a string is its bytes. The crate's numbers are a parameter.
pub mod Laws
use start_os.Common.{
  ℕ, zero, suc, Bool, true, false, ◌&&◌, ◌||◌, not, Option, none, some, if◌then◌else◌, ◌==◌,
}
use start_os.S9pk.Bytes.{Bytes, bytes_beq}

mutual
  pub data Value (Number : Type 0) : Type 0 where
    null : Value Number
    bool : Bool → Value Number
    number : Number → Value Number
    string : Bytes → Value Number
    array : Items Number → Value Number
    object : Fields Number → Value Number

  pub data Items (Number : Type 0) : Type 0 where
    nil : Items Number
    item : Value Number → Items Number → Items Number

  pub data Fields (Number : Type 0) : Type 0 where
    end : Fields Number
    field : Bytes → Value Number → Fields Number → Fields Number

module _ {Number : Type 0} where
  -- `get`, `insert` of a new key, and what is written through `get_mut`
  abbrev pub get : Bytes → Fields Number → Option (Value Number)
  get k end = none
  get k (field j v rest) = if bytes_beq k j then some v else get k rest

  abbrev pub insert_last : Bytes → Value Number → Fields Number → Fields Number
  insert_last k v end = field k v end
  insert_last k v (field j w rest) = field j w (insert_last k v rest)

  abbrev pub set : Bytes → Value Number → Fields Number → Fields Number
  set k v end = end
  set k v (field j w rest) = if bytes_beq k j then field j v rest else field j w (set k v rest)

  -- `insert`, and `extend` by the entries of another map
  abbrev pub insert : Bytes → Value Number → Fields Number → Fields Number
  insert k v o = elim (get k o) [ none ↦ insert_last k v o | some _ ↦ set k v o ]

  abbrev pub extend : Fields Number → Fields Number → Fields Number
  extend o end = o
  extend o (field k v rest) = extend (insert k v o) rest

  -- `remove`; the crate also moves the last entry, which no lookup shows
  abbrev pub remove : Bytes → Fields Number → Fields Number
  remove k end = end
  remove k (field j v rest) = if bytes_beq k j then remove k rest else field j v (remove k rest)

  abbrev pub is_object : Value Number → Bool
  is_object (object _) = true
  is_object _ = false

  -- the keys of an object are distinct
  abbrev pub is_distinct : Fields Number → Bool
  is_distinct end = true
  is_distinct (field key val rest) = elim (get key rest) [
    | none ↦ is_distinct rest
    | some _ ↦ false
  ]

  -- `Value::get`
  abbrev pub get_in : Bytes → Value Number → Option (Value Number)
  get_in k (object o) = get k o
  get_in k _ = none

  -- no object at the top of a value has a key twice
  abbrev pub has_distinct_keys : Value Number → Bool
  has_distinct_keys (object o) = is_distinct o
  has_distinct_keys _ = true

  -- `Vec::len`, `Map::len` and `Vec::push`
  abbrev pub count_items : Items Number → ℕ
  count_items nil = 0
  count_items (item v rest) = suc (count_items rest)

  abbrev pub count_fields : Fields Number → ℕ
  count_fields end = 0
  count_fields (field k v rest) = suc (count_fields rest)

  abbrev pub push : Items Number → Value Number → Items Number
  push nil v = item v nil
  push (item w rest) v = item w (push rest v)

  -- the entry under a key, or `null`
  abbrev pub get_or_null : Bytes → Fields Number → Value Number
  get_or_null k o = elim (get k o) [ none ↦ null | some v ↦ v ]

-- `==` of two values; the order of an object's entries does not matter.
abbrev pub bool_beq : Bool → Bool → Bool
bool_beq true b = b
bool_beq false b = not b

unfoldable mutual
  pub value_beq : {Number : Type 0} → (Number → Number → Bool) → Value Number → Value Number → Bool
  value_beq eq null null = true
  value_beq eq (bool a) (bool b) = bool_beq a b
  value_beq eq (number a) (number b) = eq a b
  value_beq eq (string a) (string b) = bytes_beq a b
  value_beq eq (array a) (array b) = items_beq eq a b
  value_beq eq (object a) (object b) = count_fields a == count_fields b && fields_within eq a b
  value_beq eq _ _ = false

  pub items_beq : {Number : Type 0} → (Number → Number → Bool) → Items Number → Items Number → Bool
  items_beq eq nil nil = true
  items_beq eq (item v a) (item w b) = value_beq eq v w && items_beq eq a b
  items_beq eq _ _ = false

  -- every entry of the first object is one of the second
  pub fields_within :
      {Number : Type 0} → (Number → Number → Bool) → Fields Number → Fields Number → Bool
  fields_within eq end b = true
  fields_within eq (field k v rest) b =
      elim (get k b) [ none ↦ false | some w ↦ value_beq eq v w ] && fields_within eq rest b

abbrev pub is_missing {ℓ} : {A : Type ℓ} → Option A → Bool
is_missing none = true
is_missing (some _) = false

-- No object of a value has a key twice, at whatever depth.
unfoldable mutual
  pub is_deeply_distinct : {Number : Type 0} → Value Number → Bool
  is_deeply_distinct (array l) = items_distinct l
  is_deeply_distinct (object o) = fields_distinct o
  is_deeply_distinct _ = true

  pub items_distinct : {Number : Type 0} → Items Number → Bool
  items_distinct nil = true
  items_distinct (item v rest) = is_deeply_distinct v && items_distinct rest

  pub fields_distinct : {Number : Type 0} → Fields Number → Bool
  fields_distinct end = true
  fields_distinct (field k v rest) =
      is_deeply_distinct v && (is_missing (get k rest) && fields_distinct rest)
