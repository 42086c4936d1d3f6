-- ===== src/Config/Spec/Live.antt =====
-- The pointers that `pointers` finds in a configuration are among those that `requires` sees
-- (backend/src/config/spec.rs).
use start_os.Common.{
  ◌≡◌, sym, ap, ◌∙◌, inl, inr, Bool, true, false, Option, none, some, List, [], any, arith, or_true,
  ok, err, Bool-cases,
}
use start_os.Status.{PackageId}
use start_os.S9pk.Bytes.{Bytes, bytes_beq, bytes_beq_iff}
use start_os.Config.Json.{
  Value, Fields, null, bool, number, string, array, object, get, get_or_null, is_deeply_distinct,
  fields_distinct,
}
use start_os.Config.Spec.Syntax.{
  Crates, ValueSpecPointer, ValueSpecAny, ValueSpecObject, object_spec, ValueSpecUnion, union_spec,
  ConfigSpec, no_keys, key, Variants, no_more, variant,
}
use start_os.Config.Spec.Errors.{
  Kind, MatchError, NoMatchWithPath, no_match, prepend, name, type_of,
}
use start_os.Config.Spec.Matches.{variant_keys}
use start_os.Config.Spec.Pointers.{
  requires_pointer, requires_any, requires_object, requires_union, requires_variant,
  requires_config, Pointers, pointers_any, pointers_object, pointers_union, pointers_variant,
  pointers_entry, pointers_config,
}
use start_os.Config.Spec.Fold.{targets, fold_pointers-targets}

module _ (crates : Crates) (id : PackageId) where
  open crates use {Number}

  -- the variant is looked for where the tag is a string
  tagged :
      (tag : Option (Value Number)) (of_tag : Bytes → Pointers crates) (is_required : Bytes → Bool)
      (ps : List (ValueSpecPointer crates)) (e : NoMatchWithPath crates)
      (e' : Value Number → NoMatchWithPath crates)
      → ((t : Bytes) → of_tag t ≡ ok ps → is_required t ≡ true)
      → (elim tag as (λ _. Pointers crates) [
        | none ↦ err e
        | some (string t) ↦ of_tag t
        | some other ↦ err (e' other)
      ])
        ≡ ok ps
      → (elim tag as (λ _. Bool) [ some (string t) ↦ is_required t | _ ↦ false ]) ≡ true
  tagged none f r ps e e' k h = absurd (ground arith)
  tagged (some (string t)) f r ps e e' k h = k t h
  tagged (some null) f r ps e e' k h = absurd (ground arith)
  tagged (some (bool b)) f r ps e e' k h = absurd (ground arith)
  tagged (some (number n)) f r ps e e' k h = absurd (ground arith)
  tagged (some (array l)) f r ps e e' k h = absurd (ground arith)
  tagged (some (object o)) f r ps e e' k h = absurd (ground arith)

  found_inj :
      (a : Pointers crates) (b : List (ValueSpecPointer crates))
      → ◌≡◌ {A = Option (Pointers crates)} (some a) (some (ok b))
      → a ≡ ok b
  found_inj a b h = cc

  mutual
    unfolding pointers_any requires_any is_deeply_distinct

    any-requires :
        (spec : ValueSpecAny crates) (value : Value Number) (ps : List (ValueSpecPointer crates))
        → is_deeply_distinct value ≡ true
        → pointers_any crates spec value ≡ ok ps
        → targets crates id ps ≡ true
        → requires_any crates id spec value ≡ true
    any-requires (ValueSpecAny.boolean d default) value ps dist h t = absurd (ground arith)
    any-requires (ValueSpecAny.enum d default spec) value ps dist h t = absurd (ground arith)
    any-requires (ValueSpecAny.list spec) value ps dist h t = absurd (ground arith)
    any-requires (ValueSpecAny.number d default nullable spec) value ps dist h t =
        absurd (ground arith)
    any-requires (ValueSpecAny.object d spec) value ps dist h t =
        object-requires spec value ps dist h t
    any-requires (ValueSpecAny.string d default nullable spec) value ps dist h t =
        absurd (ground arith)
    any-requires (ValueSpecAny.union d default spec) value ps dist h t =
        union-requires spec value ps dist h t
    any-requires (ValueSpecAny.pointer d spec) value ps dist h t = ground arith

    object-requires :
        (spec : ValueSpecObject crates) (value : Value Number) (ps : List (ValueSpecPointer crates))
        → is_deeply_distinct value ≡ true
        → pointers_object crates spec value ≡ ok ps
        → targets crates id ps ≡ true
        → requires_object crates id spec value ≡ true
    object-requires (object_spec spec display_as unique_by) (object o) ps dist h t =
        fold_pointers-targets crates id (λ k v. pointers_entry crates spec k v) o
          (requires_config crates id spec o ≡ true)
          (λ k v found at_k dv e tv. entry-requires spec k v o found dv at_k e tv) o dist
          (λ k v e. e) (ok []) ps (λ s e u. absurd (ground arith)) h t
    object-requires (object_spec spec display_as unique_by) null ps dist h t = absurd (ground arith)
    object-requires (object_spec spec display_as unique_by) (bool b) ps dist h t =
        absurd (ground arith)
    object-requires (object_spec spec display_as unique_by) (number n) ps dist h t =
        absurd (ground arith)
    object-requires (object_spec spec display_as unique_by) (string s) ps dist h t =
        absurd (ground arith)
    object-requires (object_spec spec display_as unique_by) (array l) ps dist h t =
        absurd (ground arith)

    union-requires :
        (spec : ValueSpecUnion crates) (value : Value Number) (ps : List (ValueSpecPointer crates))
        → is_deeply_distinct value ≡ true
        → pointers_union crates spec value ≡ ok ps
        → targets crates id ps ≡ true
        → requires_union crates id spec value ≡ true
    union-requires (union_spec tag variants display_as unique_by) (object o) ps dist h t =
        tagged (get tag.id o)
          (λ s. pointers_variant crates variants (variant_keys crates variants) s o)
          (λ s. requires_variant crates id variants s o) ps
          (no_match crates (MatchError.missing_tag tag.id))
          (λ other.
            prepend crates (name tag.id)
              (no_match crates (MatchError.invalid_type Kind.string (type_of other))))
          (λ s h'. variant-requires variants (variant_keys crates variants) s o ps dist h' t) h
    union-requires (union_spec tag variants display_as unique_by) null ps dist h t =
        absurd (ground arith)
    union-requires (union_spec tag variants display_as unique_by) (bool b) ps dist h t =
        absurd (ground arith)
    union-requires (union_spec tag variants display_as unique_by) (number n) ps dist h t =
        absurd (ground arith)
    union-requires (union_spec tag variants display_as unique_by) (string s) ps dist h t =
        absurd (ground arith)
    union-requires (union_spec tag variants display_as unique_by) (array l) ps dist h t =
        absurd (ground arith)

    variant-requires :
        (variants : Variants crates) (all : List Bytes) (s : Bytes) (o : Fields Number)
        (ps : List (ValueSpecPointer crates))
        → fields_distinct o ≡ true
        → pointers_variant crates variants all s o ≡ ok ps
        → targets crates id ps ≡ true
        → requires_variant crates id variants s o ≡ true
    variant-requires no_more all s o ps dist h t = absurd (ground arith)
    variant-requires (variant n spec rest) all s o ps dist h t = elim (Bool-cases (bytes_beq s n)) [
      | inl this ↦ rw this (
          fold_pointers-targets crates id (λ k v. pointers_entry crates spec k v) o
            (requires_config crates id spec o ≡ true)
            (λ k v found at_k dv e tv. entry-requires spec k v o found dv at_k e tv) o dist
            (λ k v e. e) (ok []) ps (λ z e u. absurd (ground arith)) (rw this at h) t)
      | inr other ↦ rw other (variant-requires rest all s o ps dist (rw other at h) t)
    ]

    entry-requires :
        (spec : ConfigSpec crates) (k : Bytes) (v : Value Number) (o : Fields Number)
        (found : List (ValueSpecPointer crates))
        → is_deeply_distinct v ≡ true
        → get k o ≡ some v
        → pointers_entry crates spec k v ≡ some (ok found)
        → targets crates id found ≡ true
        → requires_config crates id spec o ≡ true
    entry-requires no_keys k v o found dist here h t = absurd (ground arith)
    entry-requires (key n val rest) k v o found dist here h t = elim (Bool-cases (bytes_beq k n)) [
      | inl this ↦
          let found_here : pointers_any crates val v ≡ ok found = found_inj _ _ (rw this at h) in
          let value : get_or_null n o ≡ v =
            ap (λ j. get_or_null j o) (sym ((bytes_beq_iff k n).0 this)) ∙ rw (here, get_or_null) in
          rw (value, any-requires val v found dist found_here t)
      | inr other ↦ or_true _ _ (entry-requires rest k v o found dist here (rw other at h) t)
    ]

  -- In a configuration whose objects have distinct keys, a package that one of the pointers found by
  -- `pointers` leads to is one that the configuration requires.
  pub pointers_config-requires :
      (spec : ConfigSpec crates) (o : Fields Number) (ps : List (ValueSpecPointer crates))
      → fields_distinct o ≡ true
      → pointers_config crates spec o ≡ ok ps
      → any (requires_pointer crates id) ps ≡ true
      → requires_config crates id spec o ≡ true
  unfolding pointers_config
  pointers_config-requires spec o ps distinct h t =
      fold_pointers-targets crates id (λ k v. pointers_entry crates spec k v) o
        (requires_config crates id spec o ≡ true)
        (λ k v found at_k dv e tv. entry-requires spec k v o found dv at_k e tv) o distinct
        (λ k v e. e) (ok []) ps (λ s e u. absurd (ground arith)) h t
