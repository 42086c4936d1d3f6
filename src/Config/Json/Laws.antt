-- ===== src/Config/Json/Laws.antt =====
-- Lookups in the objects of serde_json.
use start_os.Common.{
  ◌≡◌, refl, ◌∙◌, inl, inr, true, Option, none, some, if◌then◌else◌, arith, Bool-cases,
  Option-cases,
}
use start_os.S9pk.Bytes.{Bytes, bytes_beq, bytes_beq_iff}
use start_os.Config.Json.{
  Value, Fields, end, field, get, insert_last, set, insert, extend, remove, is_distinct,
}

module _ {Number : Type 0} where
  pub get-insert_last :
      (k j : Bytes) (v : Value Number) (o : Fields Number)
      → get j o ≡ none
      → get k (insert_last j v o) ≡ (if bytes_beq k j then some v else get k o)
  get-insert_last k j v end h = refl
  get-insert_last k j v (field i w rest) h =
      ground
        (arith, bytes_beq_iff k j, bytes_beq_iff k i, bytes_beq_iff j i, get-insert_last k j v rest)

  pub get-set :
      (k j : Bytes) (v w : Value Number) (o : Fields Number)
      → get j o ≡ some w
      → get k (set j v o) ≡ (if bytes_beq k j then some v else get k o)
  get-set k j v w end h = absurd (ground arith)
  get-set k j v w (field i u rest) h =
      ground (arith, bytes_beq_iff k j, bytes_beq_iff k i, bytes_beq_iff j i, get-set k j v w rest)

  pub get-insert :
      (k j : Bytes) (v : Value Number) (o : Fields Number)
      → get k (insert j v o) ≡ (if bytes_beq k j then some v else get k o)
  get-insert k j v o = elim (Option-cases (get j o)) [
    | inl new ↦ ground (arith, get-insert_last k j v o new)
    | inr (w, old) ↦ ground (arith, get-set k j v w o old)
  ]

  pub get-remove :
      (k j : Bytes) (o : Fields Number)
      → get k (remove j o) ≡ (if bytes_beq k j then none else get k o)
  get-remove k j end = ground arith
  get-remove k j (field i u rest) =
      ground (arith, bytes_beq_iff k j, bytes_beq_iff k i, bytes_beq_iff j i, get-remove k j rest)

  -- the entries of the second map win, if its keys are distinct
  pub get-extend :
      (k : Bytes) (o p : Fields Number)
      → is_distinct p ≡ true
      → get k (extend o p)
        ≡ elim (get k p) as (λ _. Option (Value Number)) [ none ↦ get k o | some v ↦ some v ]
  get-extend k o end h = refl
  get-extend k o (field j v rest) h =
      get-extend k (insert j v o) rest (ground arith)
      ∙ ground (arith, get-insert k j v o, bytes_beq_iff k j)

  -- an entry is missing, and so are the keys of the rest
  distinct_get :
      (j : Bytes) (w : Value Number) (rest : Fields Number)
      → is_distinct (field j w rest) ≡ true
      → get j rest ≡ none
  distinct_get j w rest h = ground arith

  distinct_rest :
      (j : Bytes) (w : Value Number) (rest : Fields Number)
      → is_distinct (field j w rest) ≡ true
      → is_distinct rest ≡ true
  distinct_rest j w rest h = ground arith

  is_distinct_field :
      (j : Bytes) (w : Value Number) (rest : Fields Number)
      → get j rest ≡ none
      → is_distinct rest ≡ true
      → is_distinct (field j w rest) ≡ true
  is_distinct_field j w rest h k = rw (is_distinct, h) k

  is_distinct-insert_last :
      (k : Bytes) (v : Value Number) (o : Fields Number)
      → get k o ≡ none
      → is_distinct o ≡ true
      → is_distinct (insert_last k v o) ≡ true
  is_distinct-insert_last k v end h d = refl
  is_distinct-insert_last k v (field j w rest) h d =
      let missing : get k rest ≡ none = ground arith in
      is_distinct_field j w (insert_last k v rest)
        (get-insert_last j k v rest missing
          ∙ ground (arith, bytes_beq_iff k j, bytes_beq_iff j k, distinct_get j w rest d))
        (is_distinct-insert_last k v rest missing (distinct_rest j w rest d))

  set_missing :
      (j k : Bytes) (v : Value Number) (o : Fields Number)
      → get j o ≡ none
      → get j (set k v o) ≡ none
  set_missing j k v end h = refl
  set_missing j k v (field i u rest) h = elim (Bool-cases (bytes_beq k i)) [
    | inl here ↦ rw here (ground arith)
    | inr other ↦ rw other (elim (Bool-cases (bytes_beq j i)) [
      | inl found ↦ absurd (ground arith)
      | inr away ↦ rw away (set_missing j k v rest (rw away at h))
    ])
  ]

  is_distinct-set :
      (k : Bytes) (v : Value Number) (o : Fields Number)
      → is_distinct o ≡ true
      → is_distinct (set k v o) ≡ true
  is_distinct-set k v end d = refl
  is_distinct-set k v (field j w rest) d = elim (Bool-cases (bytes_beq k j)) [
    | inl here ↦
        rw here (is_distinct_field j v rest (distinct_get j w rest d) (distinct_rest j w rest d))
    | inr other ↦ rw other (
        is_distinct_field j w (set k v rest) (set_missing j k v rest (distinct_get j w rest d))
          (is_distinct-set k v rest (distinct_rest j w rest d)))
  ]

  pub is_distinct-insert :
      (k : Bytes) (v : Value Number) (o : Fields Number)
      → is_distinct o ≡ true
      → is_distinct (insert k v o) ≡ true
  is_distinct-insert k v o d = elim (Option-cases (get k o)) [
    | inl new ↦ rw (insert, new) (is_distinct-insert_last k v o new d)
    | inr (w, old) ↦ rw (insert, old) (is_distinct-set k v o d)
  ]
