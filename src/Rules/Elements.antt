-- ===== src/Rules/Elements.antt =====
-- What the rules of system-images/compat/src/config/rules.rs do with the items of a list or of an
-- object, and the ways in which they panic.
use start_os.Common.{
  Bool, Option, none, some, List, [], ◌∷◌, if◌then◌else◌, ◌>>=◌, Result, ok, err, ℕ, zero, suc, ltb,
}
use start_os.Config.Json.{Value, null, array, object, Items, nil, item, Fields, end, field}

-- `panic!`: a value is not a number, a number is not finite, no character can be chosen, or a literal
-- index does not fit into a `usize`
pub data Panic : Type 0 where
  not_a_number not_finite no_characters not_an_index : Panic

abbrev pub Outcome : Type 0 → Type 0
Outcome T = Result Panic T

-- 2 ^ 64: `usize` has 64 bits
abbrev pub usize_limit : ℕ
usize_limit = 18446744073709551616

-- `idx.as_str().parse::<usize>().unwrap()` on digits that stand for `idx`
unfoldable pub parse_index : ℕ → Outcome ℕ
parse_index idx = if ltb idx usize_limit then ok idx else err not_an_index

module _ {Number : Type 0} where
  -- `l.iter()`, and `o.iter()` without the keys
  abbrev pub to_list : Items Number → List (Value Number)
  to_list nil = []
  to_list (item v rest) = v ∷ to_list rest

  abbrev pub values : Fields Number → List (Value Number)
  values end = []
  values (field k v rest) = v ∷ values rest

  -- what the two arms for arrays and for objects range over
  abbrev pub elements : Value Number → Option (List (Value Number))
  elements (array l) = some (to_list l)
  elements (object o) = some (values o)
  elements _ = none

  -- `l.get(idx)`
  abbrev pub at : List (Value Number) → ℕ → Option (Value Number)
  at [] idx = none
  at (v ∷ rest) zero = some v
  at (v ∷ rest) (suc idx) = at rest idx

  -- `unwrap_or(&STATIC_NULL)`
  abbrev pub or_null : Option (Value Number) → Value Number
  or_null none = null
  or_null (some v) = v

  -- `filter`, and `filter` with `next`, which asks no further
  unfoldable pub filter :
      (Value Number → Outcome Bool) → List (Value Number) → Outcome (List (Value Number))
  filter p [] = ok []
  filter p (v ∷ rest) = do
    satisfied ← p v
    kept ← filter p rest
    ok (if satisfied then v ∷ kept else kept)

  unfoldable pub find :
      (Value Number → Outcome Bool) → List (Value Number) → Outcome (Option (Value Number))
  find p [] = ok none
  find p (v ∷ rest) = do
    let later = find p rest
    satisfied ← p v
    if satisfied then ok (some v) else later
