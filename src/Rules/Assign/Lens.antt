-- ===== src/Rules/Assign/Lens.antt =====
-- What is known of every place that a path leads to: the places of
-- system-images/compat/src/config/rules.rs as pairs of what stands there and of how it is replaced.
use start_os.Common.{
  ℕ, zero, suc, ◌≡◌, refl, ap, ◌∙◌, inl, inr, Option, none, some, ◌==◌, ltb, ok, >>=-eq-ok,
  ok-injective, arith, Option-cases,
}
use start_os.S9pk.Bytes.{Bytes}
use start_os.Config.Json.{
  Value, null, array, object, Items, nil, item, Fields, end, field, get, set, get_or_null,
  count_items, count_fields, push,
}
use start_os.Config.Json.Laws.{get-insert}
use start_os.Config.Spec.Agree.{bytes_beq_refl}
use start_os.Rules.Returns.{Returns, Returns_elim, >>=-Returns, if_both}
use start_os.Rules.VarRes.{VarRes, exactly}
use start_os.Rules.Syntax
use start_os.Rules.Syntax.{Floats, Segments, SubIdent, Var, Configs, Config}
use start_os.Rules.Elements.{Outcome, parse_index, to_list, values, at, or_null}
use start_os.Rules.Eval.{compile_num_expr, compile_str_expr}
use start_os.Rules.Assign.{
  Place, Reached, set_item, set_value, item_found, value_found, entered, entry, index, beyond,
  continue, named, numbered, place_at, AccessorMut, CompiledReference, position, last_position,
  satisfies, deref_mut, accessor_mut, followed, started, compile_var_mut_rec, compile_var_mut,
}

-- a property of a place, with its whole
module _ {Number W : Type 0} where
  abbrev pub AtPlace : (Place Number W → W → Type 0) → Reached Number W → Type 0
  AtPlace P r = elim r.place [ none ↦ Unit | some p ↦ P p r.whole ]

  pub AtPlace_elim :
      (P : Place Number W → W → Type 0) (r : Reached Number W) (p : Place Number W)
      → r.place ≡ some p
      → AtPlace P r
      → P p r.whole
  AtPlace_elim P r p found holds = rw found at holds

  -- What stands in a place is what is put back.
  abbrev pub IsLens : Reached Number W → Type 0
  IsLens = AtPlace λ p whole. p.put p.focus ≡ whole

module _ {Number : Type 0} where
  some_or_null :
      (k : Bytes) (o : Fields Number) (v : Value Number)
      → get k o ≡ some v
      → get k o ≡ some (get_or_null k o)
  some_or_null k o v h = h ∙ rw (get_or_null, h) refl

  pub get-entered :
      (k : Bytes) (o : Fields Number) → get k (entered k o) ≡ some (get_or_null k (entered k o))
  get-entered k o = elim (Option-cases (get k o)) [
    | inl new ↦
        some_or_null k _ null
          (rw (entered, new) (get-insert k k null o ∙ rw (bytes_beq_refl k) refl))
    | inr (v, old) ↦ some_or_null k _ v (rw (entered, old) old)
  ]

  set_same : (k : Bytes) (v : Value Number) (o : Fields Number) → get k o ≡ some v → set k v o ≡ o
  set_same k v end h = refl
  set_same k v (field j w rest) h = ground (arith, set_same k v rest)

  item_same : (n : ℕ) (l : Items Number) → set_item n (or_null (at (to_list l) n)) l ≡ l
  item_same n nil = refl
  item_same zero (item v rest) = refl
  item_same (suc n) (item v rest) = ap (item v) (item_same n rest)

  value_same : (n : ℕ) (o : Fields Number) → set_value n (or_null (at (values o) n)) o ≡ o
  value_same n end = refl
  value_same zero (field k v rest) = refl
  value_same (suc n) (field k v rest) = ap (field k v) (value_same n rest)

  entry-IsLens :
      {W : Type 0} (holds : Fields Number → W) (k : Bytes) (o : Fields Number)
      → IsLens (entry holds k o)
  entry-IsLens holds k o = ap holds (set_same k _ (entered k o) (get-entered k o))

  item_found-IsLens : (l : Items Number) (n : Option ℕ) → IsLens (item_found l n)
  item_found-IsLens l none = tt
  item_found-IsLens l (some n) = ap array (item_same n l)

  value_found-IsLens : (o : Fields Number) (n : Option ℕ) → IsLens (value_found o n)
  value_found-IsLens o none = tt
  value_found-IsLens o (some n) = ap object (value_same n o)

  index-IsLens : (n : ℕ) (l : Items Number) → IsLens (index n l)
  index-IsLens n l =
      if_both IsLens (ltb n (count_items l)) _ _ (ap array (item_same n l))
        (if_both IsLens (n == count_items l) _ _ (ap array (item_same n (push l null))) tt)

  beyond-IsLens :
      {W : Type 0} (p : Place Number W) (r : Reached Number (Value Number))
      → IsLens r
      → IsLens (beyond p r)
  beyond-IsLens p r lens = elim (Option-cases r.place) [
    | inl none_left ↦ rw none_left tt
    | inr (q, found) ↦ rw found (ap p.put (rw found at lens))
  ]

module _ (floats : Floats) where
  open floats use {Number, Float}

  named-IsLens : (v : Value Number) (names : VarRes (Option Bytes)) → IsLens (named floats v names)
  named-IsLens (object o) (exactly (some k)) = entry-IsLens object k o
  named-IsLens _ _ = tt

  numbered-IsLens : (v : Value Number) (numbers : VarRes Float) → IsLens (numbered floats v numbers)
  numbered-IsLens (array l) (exactly n) = index-IsLens (floats.as_usize n) l
  numbered-IsLens _ _ = tt

  place_at-IsLens : (n : ℕ) (v : Value Number) → IsLens (place_at floats n v)
  place_at-IsLens n (array l) = index-IsLens n l
  place_at-IsLens n _ = tt

  deref_mut-IsLens :
      (idx : SubIdent) (v : Value Number) (cfgs : Configs Number)
      → Returns IsLens (deref_mut floats idx v cfgs)
  unfolding deref_mut
  deref_mut-IsLens (Syntax.first item_var predicate) (array l) cfgs =
      >>=-Returns IsLens (position (satisfies floats item_var predicate cfgs) (to_list l)) _
        λ n _. item_found-IsLens l n
  deref_mut-IsLens (Syntax.first item_var predicate) (object o) cfgs =
      >>=-Returns IsLens (position (satisfies floats item_var predicate cfgs) (values o)) _
        λ n _. value_found-IsLens o n
  deref_mut-IsLens (Syntax.last item_var predicate) (array l) cfgs =
      >>=-Returns IsLens
        (last_position (count_items l) (satisfies floats item_var predicate cfgs) (to_list l)) _
        λ n _. item_found-IsLens l n
  deref_mut-IsLens (Syntax.last item_var predicate) (object o) cfgs =
      >>=-Returns IsLens
        (last_position (count_fields o) (satisfies floats item_var predicate cfgs) (values o)) _
        λ n _. value_found-IsLens o n
  deref_mut-IsLens (Syntax.regular_base idx) (object o) cfgs = entry-IsLens object idx o
  deref_mut-IsLens (Syntax.regular_expr idx) v cfgs =
      >>=-Returns IsLens (compile_str_expr floats idx end cfgs) _ λ names _. named-IsLens v names
  deref_mut-IsLens (Syntax.index_base idx) v cfgs =
      >>=-Returns IsLens (parse_index idx) _ λ n _. place_at-IsLens n v
  deref_mut-IsLens (Syntax.index_expr idx) v cfgs =
      >>=-Returns IsLens (compile_num_expr floats idx end cfgs) _
        λ numbers _. numbered-IsLens v numbers
  deref_mut-IsLens _ v cfgs = tt

  -- whatever a compiled path leads to
  abbrev LeadsToLens : Option (AccessorMut floats) → Type 0
  LeadsToLens none = Unit
  LeadsToLens (some accessor) =
      (v : Value Number) (cfgs : Configs Number) → Returns IsLens (accessor v cfgs)

  continue-IsLens :
      {W : Type 0} (d : Reached Number W)
      (rest : Value Number → Outcome (Reached Number (Value Number)))
      → IsLens d
      → ((w : Value Number) → Returns IsLens (rest w))
      → Returns IsLens (continue d rest)
  continue-IsLens d rest lens each = elim (Option-cases d.place) [
    | inl nothing ↦ rw nothing tt
    | inr (p, found) ↦ rw found (
        >>=-Returns IsLens (rest p.focus) _
          λ r e. beyond-IsLens p r (Returns_elim IsLens (rest p.focus) r e (each p.focus)))
  ]

  accessor_mut-IsLens :
      (idx : SubIdent) → Returns (λ a. LeadsToLens (some a)) (accessor_mut floats idx)
  accessor_mut-IsLens Syntax.any_item = tt
  accessor_mut-IsLens Syntax.all_items = tt
  accessor_mut-IsLens (Syntax.any_where item_var predicate) = tt
  accessor_mut-IsLens (Syntax.all_where item_var predicate) = tt
  accessor_mut-IsLens idx = deref_mut-IsLens idx

  followed-IsLens :
      (step : AccessorMut floats) (rest : Option (AccessorMut floats))
      → LeadsToLens (some step)
      → LeadsToLens rest
      → LeadsToLens (some (followed floats step rest))
  followed-IsLens step none first after = first
  followed-IsLens step (some rest) first after = λ v cfgs. >>=-Returns IsLens (step v cfgs) _ λ d e.
      continue-IsLens d (λ w. rest w cfgs) (Returns_elim IsLens (step v cfgs) d e (first v cfgs))
        (λ w. after w cfgs)

  compile_var_mut_rec-IsLens :
      (path : Segments) → Returns LeadsToLens (compile_var_mut_rec floats path)
  unfolding compile_var_mut_rec
  compile_var_mut_rec-IsLens Syntax.here = tt
  compile_var_mut_rec-IsLens (Syntax.dot idx ident) =
      >>=-Returns LeadsToLens (accessor_mut floats idx) _ λ step e.
        >>=-Returns LeadsToLens (compile_var_mut_rec floats ident) _ λ rest e'.
          followed-IsLens step rest
            (Returns_elim (λ a. LeadsToLens (some a)) (accessor_mut floats idx) step e
              (accessor_mut-IsLens idx))
            (Returns_elim LeadsToLens (compile_var_mut_rec floats ident) rest e'
              (compile_var_mut_rec-IsLens ident))

  started-IsLens :
      (first_seg : Bytes) (rest : Option (AccessorMut floats)) (cfg : Config Number)
      (cfgs : Configs Number)
      → LeadsToLens rest
      → Returns IsLens (started floats first_seg rest cfg cfgs)
  started-IsLens first_seg none cfg cfgs after = entry-IsLens (λ c. c) first_seg cfg
  started-IsLens first_seg (some rest) cfg cfgs after =
      continue-IsLens (entry (λ c. c) first_seg cfg) (λ w. rest w cfgs)
        (entry-IsLens (λ c. c) first_seg cfg) (λ w. after w cfgs)

  -- The place that a path leads to, if it leads anywhere, holds what is put back: a configuration in
  -- which what stands in the place is assigned to it is the one that the search for it has left.
  pub compile_var_mut-IsLens :
      (v : Var) (get_mut : CompiledReference floats) (cfg : Config Number) (cfgs : Configs Number)
      (r : Reached Number (Config Number))
      → compile_var_mut floats v ≡ ok get_mut
      → get_mut cfg cfgs ≡ ok r
      → IsLens r
  unfolding compile_var_mut
  compile_var_mut-IsLens (Syntax.var (some app_id) first_seg path) get_mut cfg cfgs r h k = cc
  compile_var_mut-IsLens (Syntax.var none first_seg path) get_mut cfg cfgs r h k =
      let (rest, e, h₁) = >>=-eq-ok (compile_var_mut_rec floats path) _ h in
      let same = ok-injective _ _ h₁ in
      Returns_elim IsLens (started floats first_seg rest cfg cfgs) r (ap (λ m. m cfg cfgs) same ∙ k)
        (started-IsLens first_seg rest cfg cfgs (
          Returns_elim LeadsToLens (compile_var_mut_rec floats path) rest e
            (compile_var_mut_rec-IsLens path)))
