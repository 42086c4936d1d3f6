-- ===== src/Config/Spec/Fold.antt =====
-- Where the pointers of a configuration come from: the fold of `ConfigSpec::pointers`
-- (backend/src/config/spec.rs).
use start_os.Common.{
  ◌≡◌, refl, sym, ap, ◌∙◌, inl, inr, Bool, true, ◌||◌, Option, none, some, List, [], ◌∷◌, ◌++◌, any,
  arith, and_left, and_right, ok, err, Bool-cases,
}
use start_os.Status.{PackageId}
use start_os.S9pk.Bytes.{Bytes, bytes_beq_iff}
use start_os.Config.Json.{
  Value, Fields, end, field, get, is_deeply_distinct, fields_distinct, is_missing,
}
use start_os.Config.Spec.Syntax.{Crates, ValueSpecPointer}
use start_os.Config.Spec.Errors.{prepend, name}
use start_os.Config.Spec.Pointers.{requires_pointer, Pointers, fold_pointers}

module _ (crates : Crates) (id : PackageId) where
  open crates use {Number}

  -- a pointer to `id` is among them
  abbrev pub targets : List (ValueSpecPointer crates) → Bool
  targets ps = any (requires_pointer crates id) ps

  targets-append :
      (ps qs : List (ValueSpecPointer crates)) → targets (ps ++ qs) ≡ (targets ps || targets qs)
  targets-append [] qs = refl
  targets-append (p ∷ ps) qs = ground (arith, targets-append ps qs)

  field-value :
      (k : Bytes) (v : Value Number) (rest : Fields Number)
      → fields_distinct (field k v rest) ≡ true
      → is_deeply_distinct v ≡ true
  unfolding is_deeply_distinct
  field-value k v rest h = and_left (is_deeply_distinct v) _ h

  field-fresh :
      (k : Bytes) (v : Value Number) (rest : Fields Number)
      → fields_distinct (field k v rest) ≡ true
      → get k rest ≡ none
  unfolding is_deeply_distinct
  field-fresh k v rest h =
      missing (get k rest)
        (and_left _ (fields_distinct rest) (and_right (is_deeply_distinct v) _ h))
    where
      missing : (o : Option (Value Number)) → is_missing o ≡ true → o ≡ none
      missing none h = refl
      missing (some w) h = absurd (ground arith)

  field-rest :
      (k : Bytes) (v : Value Number) (rest : Fields Number)
      → fields_distinct (field k v rest) ≡ true
      → fields_distinct rest ≡ true
  unfolding is_deeply_distinct
  field-rest k v rest h =
      and_right (is_missing (get k rest)) _ (and_right (is_deeply_distinct v) _ h)

  -- an entry of the rest is one of the whole
  get-field_rest :
      (j k : Bytes) (v w : Value Number) (rest : Fields Number)
      → get k rest ≡ none
      → get j rest ≡ some w
      → get j (field k v rest) ≡ some w
  get-field_rest j k v w rest fresh h = ground (arith, bytes_beq_iff j k)

  -- Where the fold succeeds, each of its pointers was there before, or is one of an entry.
  pub fold_pointers-targets :
      (f : Bytes → Value Number → Option (Pointers crates)) (all : Fields Number) (G : Type 0)
      → ((k : Bytes) (v : Value Number) (found : List (ValueSpecPointer crates))
          → get k all ≡ some v
          → is_deeply_distinct v ≡ true
          → f k v ≡ some (ok found)
          → targets found ≡ true
          → G)
      → (o : Fields Number) → fields_distinct o ≡ true
      → ((k : Bytes) (v : Value Number) → get k o ≡ some v → get k all ≡ some v)
      → (acc : Pointers crates) (ps : List (ValueSpecPointer crates))
      → ((s₀ : List (ValueSpecPointer crates)) → acc ≡ ok s₀ → targets s₀ ≡ true → G)
      → fold_pointers crates f o acc ≡ ok ps
      → targets ps ≡ true
      → G
  unfolding fold_pointers
  fold_pointers-targets f all G entry end d within acc ps before h t = before ps h t
  fold_pointers-targets f all G entry (field k v rest) d within acc ps before h t =
      fold_pointers-targets f all G entry rest (field-rest k v rest d)
        (λ j w e. within j w (get-field_rest j k v w rest (field-fresh k v rest d) e)) _ ps
        (next (f k v) refl acc before) h t
    where
      here : get k (field k v rest) ≡ some v
      here = rw ((bytes_beq_iff k k).1 refl)

      next :
          (found : Option (Pointers crates))
          → f k v ≡ found
          → (acc : Pointers crates)
          → ((s₀ : List (ValueSpecPointer crates)) → acc ≡ ok s₀ → targets s₀ ≡ true → G)
          → (s₀ : List (ValueSpecPointer crates))
          → (elim found as (λ _. Pointers crates) [
            | none ↦ acc
            | some found ↦ elim acc as (λ _. Pointers crates) [
              | err e ↦ err e
              | ok s₀ ↦ elim found as (λ _. Pointers crates) [
                | err e ↦ err (prepend crates (name k) e)
                | ok s₁ ↦ ok (s₀ ++ s₁)
              ]
            ]
          ])
            ≡ ok s₀
          → targets s₀ ≡ true
          → G
      next none e acc before s₀ q t = before s₀ q t
      next (some found) e (err x) before s₀ q t = absurd (ground arith)
      next (some (err x)) e (ok s) before s₀ q t = absurd (ground arith)
      next (some (ok s₁)) e (ok s) before s₀ q t =
          let joined : (targets s || targets s₁) ≡ true =
            sym (targets-append s s₁) ∙ ap targets (ok_inj (s ++ s₁) s₀ q) ∙ t in
          elim (Bool-cases (targets s)) [
            | inl old ↦ before s refl old
            | inr new ↦ entry k v s₁ (within k v here) (field-value k v rest d) e (rw new at joined)
          ]
        where
          ok_inj :
              (a b : List (ValueSpecPointer crates))
              → ◌≡◌ {A = Pointers crates} (ok a) (ok b)
              → a ≡ b
          ok_inj a b h = cc
