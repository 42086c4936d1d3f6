-- ===== src/Rules/Assign/Steps.antt =====
-- Reading back through one segment of a path: `deref` of `compile_var_rec` against that of
-- `compile_var_mut_rec` of
-- system-images/compat/src/config/rules.rs.
use start_os.Common.{
  ℕ, zero, suc, ◌≡◌, refl, ap, ◌∙◌, inl, inr, Bool-cases, Bool, true, false, ◌&&◌, Option, some,
  ◌==◌, ltb, ok, arith,
}
use start_os.S9pk.Bytes.{Bytes}
use start_os.Config.Json.{
  Value, null, array, object, Items, nil, item, Fields, end, set, get_or_null, count_items, push,
}
use start_os.Config.Json.Laws.{get-set}
use start_os.Config.Spec.Agree.{bytes_beq_refl}
use start_os.Rules.Returns.{Returns, >>=-Returns}
use start_os.Rules.VarRes.{VarRes, exactly, map}
use start_os.Rules.Syntax
use start_os.Rules.Syntax.{Floats, Segments, SubIdent, Var, Configs, Config}
use start_os.Rules.Elements.{parse_index, to_list, at, or_null}
use start_os.Rules.Eval.{deref, compile_num_expr, compile_str_expr}
use start_os.Rules.Assign.{Reached, set_item, entered, index, named, numbered, place_at, deref_mut}
use start_os.Rules.Assign.Lens.{AtPlace, get-entered}

-- a segment that leads to the same item whatever stands there: none that looks for an item
abbrev pub is_fixed_segment : SubIdent → Bool
is_fixed_segment (Syntax.first item_var predicate) = false
is_fixed_segment (Syntax.last item_var predicate) = false
is_fixed_segment _ = true

abbrev pub is_fixed : Segments → Bool
is_fixed Syntax.here = true
is_fixed (Syntax.dot idx ident) = is_fixed_segment idx && is_fixed ident

abbrev pub is_fixed_var : Var → Bool
is_fixed_var (Syntax.var app_id first_seg path) = is_fixed path

module _ {Number : Type 0} where
  at-set_item :
      (n : ℕ) (w : Value Number) (l : Items Number)
      → ltb n (count_items l) ≡ true
      → or_null (at (to_list (set_item n w l)) n) ≡ w
  at-set_item n w nil h = absurd (ground arith)
  at-set_item zero w (item v rest) h = refl
  at-set_item (suc n) w (item v rest) h = at-set_item n w rest (ground arith)

  count-push : (l : Items Number) (v : Value Number) → count_items (push l v) ≡ suc (count_items l)
  count-push nil v = refl
  count-push (item w rest) v = ap suc (count-push rest v)

  pub get-set-entered :
      (k : Bytes) (w : Value Number) (o : Fields Number) → get_or_null k (set k w (entered k o)) ≡ w
  get-set-entered k w o =
      rw (get_or_null, get-set k k w _ (entered k o) (get-entered k o), bytes_beq_refl k) refl

module _ (floats : Floats) where
  open floats use {Number, Float, as_usize}

  -- What is put in a place is what a segment reads.
  abbrev pub IsRead : SubIdent → Configs Number → Reached Number (Value Number) → Type 0
  IsRead idx cfgs =
      AtPlace λ p whole. (w : Value Number) → deref floats idx (p.put w) cfgs ≡ ok (exactly w)

  index-IsRead :
      (idx : SubIdent) (cfgs : Configs Number) (n : ℕ) (l : Items Number)
      → ((m : Items Number)
          → deref floats idx (array m) cfgs ≡ ok (exactly (or_null (at (to_list m) n))))
      → IsRead idx cfgs (index n l)
  index-IsRead idx cfgs n l reads = elim (Bool-cases (ltb n (count_items l))) [
    | inl inside ↦ rw inside (λ w. reads _ ∙ ap (λ v. ok (exactly v)) (at-set_item n w l inside))
    | inr outside ↦ elim (Bool-cases (n == count_items l)) [
      | inl next ↦
          rw (outside, next)
            (λ w.
              reads _
              ∙ ap (λ v. ok (exactly v))
                  (at-set_item n w (push l null) (ground (arith, next, count-push l null))))
      | inr far ↦ rw (outside, far) tt
    ]
  ]

  named-IsRead :
      (idx : Syntax.StrExpr) (v : Value Number) (cfgs : Configs Number)
      (names : VarRes (Option Bytes))
      → compile_str_expr floats idx end cfgs ≡ ok names
      → IsRead (Syntax.regular_expr idx) cfgs (named floats v names)
  unfolding deref map
  named-IsRead idx (object o) cfgs (exactly (some k)) e =
      λ w. rw e (ap (λ x. ok (exactly x)) (get-set-entered k w o))
  named-IsRead idx _ cfgs _ e = tt

  numbered-IsRead :
      (idx : Syntax.NumExpr) (v : Value Number) (cfgs : Configs Number) (numbers : VarRes Float)
      → compile_num_expr floats idx end cfgs ≡ ok numbers
      → IsRead (Syntax.index_expr idx) cfgs (numbered floats v numbers)
  unfolding deref map
  numbered-IsRead idx (array l) cfgs (exactly n) e =
      index-IsRead (Syntax.index_expr idx) cfgs (as_usize n) l (λ m. rw e refl)
  numbered-IsRead idx _ cfgs _ e = tt

  place_at-IsRead :
      (idx : ℕ) (v : Value Number) (cfgs : Configs Number) (n : ℕ)
      → parse_index idx ≡ ok n
      → IsRead (Syntax.index_base idx) cfgs (place_at floats n v)
  unfolding deref
  place_at-IsRead idx (array l) cfgs n e =
      index-IsRead (Syntax.index_base idx) cfgs n l (λ m. rw e refl)
  place_at-IsRead idx _ cfgs n e = tt

  pub deref_mut-IsRead :
      (idx : SubIdent) (v : Value Number) (cfgs : Configs Number)
      → is_fixed_segment idx ≡ true
      → Returns (IsRead idx cfgs) (deref_mut floats idx v cfgs)
  unfolding deref_mut deref
  deref_mut-IsRead (Syntax.first item_var predicate) v cfgs h = cc
  deref_mut-IsRead (Syntax.last item_var predicate) v cfgs h = cc
  deref_mut-IsRead (Syntax.regular_base idx) (object o) cfgs h =
      λ w. ap (λ x. ok (exactly x)) (get-set-entered idx w o)
  deref_mut-IsRead (Syntax.regular_expr idx) v cfgs h =
      >>=-Returns (IsRead (Syntax.regular_expr idx) cfgs) (compile_str_expr floats idx end cfgs) _
        λ names e. named-IsRead idx v cfgs names e
  deref_mut-IsRead (Syntax.index_base idx) v cfgs h =
      >>=-Returns (IsRead (Syntax.index_base idx) cfgs) (parse_index idx) _
        λ n e. place_at-IsRead idx v cfgs n e
  deref_mut-IsRead (Syntax.index_expr idx) v cfgs h =
      >>=-Returns (IsRead (Syntax.index_expr idx) cfgs) (compile_num_expr floats idx end cfgs) _
        λ numbers e. numbered-IsRead idx v cfgs numbers e
  deref_mut-IsRead _ v cfgs h = tt
