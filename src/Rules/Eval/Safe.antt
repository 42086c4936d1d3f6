-- ===== src/Rules/Eval/Safe.antt =====
-- Which rules cannot panic: those of system-images/compat/src/config/rules.rs that compute with no
-- numbers.
use start_os.Common.{
  ◌≡◌, refl, inl, inr, Bool, true, false, not, Option, none, some, List, if◌then◌else◌, ok, ◌>>=◌,
  and_left, and_right, Option-cases,
}
use mathlib.Core.List.{reverse}
use start_os.S9pk.Bytes.{Bytes}
use start_os.Config.Json.{Value, null, object, end}
use start_os.Rules.VarRes.{VarRes, exactly, map, and_then, resolve}
use start_os.Rules.VarRes.Total.{Succeeds, bind-Succeeds, map-Succeeds, and_then-Succeeds}
use start_os.Rules.Syntax
use start_os.Rules.Syntax.{
  Floats, BoolOp, Var, Segments, SubIdent, NumExpr, StrExpr, BoolExpr, ValueExpr, Config, Configs,
}
use start_os.Rules.Text.{str_cmp}
use start_os.Rules.Eval.Numberless.{
  has_no_numbers, str_has_none, var_has_none, path_has_none, segment_has_none, filter-Succeeds,
  find-Succeeds,
}
use start_os.Rules.Elements.{Panic, Outcome, parse_index, elements, filter, find}
use start_os.Rules.Eval.{
  is_set, as_string, concat, short_circuit, config_of, Accessor, compiled_var, only, deref,
  compile_var_rec, compile_var, compile_str_expr, compile_bool_expr, at_index,
}

module _ (floats : Floats) where
  open floats use {Number}

  short_circuit-Succeeds :
      (op : BoolOp) (a : Bool) (rhs : Outcome Bool)
      → Succeeds rhs
      → Succeeds (short_circuit floats op a rhs)
  short_circuit-Succeeds Syntax.and false rhs h = (false, refl)
  short_circuit-Succeeds Syntax.and true rhs h = h
  short_circuit-Succeeds Syntax.or false rhs h = h
  short_circuit-Succeeds Syntax.or true rhs h = (true, refl)
  short_circuit-Succeeds Syntax.xor a rhs (b, e) = (if a then not b else b, rw e refl)

  -- the arms for arrays and objects, and the one for the rest
  over_elements :
      (v : Value Number) (f : List (Value Number) → Outcome (VarRes (Value Number)))
      → ((l : List (Value Number)) → Succeeds (f l))
      → Succeeds {E = Panic} {A = VarRes (Value Number)}
          (elim (elements v) [ none ↦ ok (exactly null) | some l ↦ f l ])
  over_elements v f each = elim (Option-cases (elements v)) [
    | inl other ↦ (exactly null, rw other refl)
    | inr (l, found) ↦ rw found (each l)
  ]

  compared-Succeeds :
      {T U : Type 0} (lhs : VarRes T) (rhs : Outcome (VarRes T)) (test : T → T → U)
      → Succeeds rhs
      → Succeeds {E = Panic} (and_then lhs λ a. rhs >>= λ r. map r (λ b. ok (test a b)))
  compared-Succeeds lhs rhs test h =
      and_then-Succeeds _
        (λ a.
          let (r, e) = h in
          let (s, e') = map-Succeeds {E = Panic} (λ b. ok (test a b)) (λ b. (test a b, refl)) r in
          (s, rw e e'))
        lhs

  -- an accessor that a path compiles to
  abbrev AccessorSucceeds : Option (Accessor floats) → Type 0
  AccessorSucceeds none = Unit
  AccessorSucceeds (some accessor) =
      (v : Value Number) (cfgs : Configs Number) → Succeeds (accessor v cfgs)

  compiled_var-Succeeds :
      (c : Option (Config Number)) (first_seg : Bytes) (accessor : Option (Accessor floats))
      (cfgs : Configs Number)
      → AccessorSucceeds accessor
      → Succeeds (compiled_var floats c first_seg accessor cfgs)
  compiled_var-Succeeds none first_seg accessor cfgs h = (_, refl)
  compiled_var-Succeeds (some cfg) first_seg none cfgs h = (_, refl)
  compiled_var-Succeeds (some cfg) first_seg (some accessor) cfgs h = h _ cfgs

  mutual
    unfolding has_no_numbers str_has_none var_has_none path_has_none segment_has_none deref
        parse_index compile_var_rec compile_var compile_str_expr compile_bool_expr

    compile_bool_expr-Succeeds :
        (e : BoolExpr) (cfg : Config Number) (cfgs : Configs Number)
        → has_no_numbers e ≡ true
        → Succeeds (compile_bool_expr floats e cfg cfgs)
    compile_bool_expr-Succeeds (Syntax.bool_var v) cfg cfgs h =
        bind-Succeeds (compile_var floats v cfg cfgs) _ (compile_var-Succeeds v cfg cfgs h) λ r.
          bind-Succeeds (map r (λ a. ok (is_set floats a))) _
            (map-Succeeds _ (λ a. (is_set floats a, refl)) r) (λ s. (resolve s, refl))
    compile_bool_expr-Succeeds (Syntax.inv_bool_expr e) cfg cfgs h =
        bind-Succeeds (compile_bool_expr floats e cfg cfgs) _
          (compile_bool_expr-Succeeds e cfg cfgs h) (λ b. (not b, refl))
    compile_bool_expr-Succeeds (Syntax.num_cmp_expr l op r) cfg cfgs h = cc
    compile_bool_expr-Succeeds (Syntax.str_cmp_expr l op r) cfg cfgs h =
        bind-Succeeds (compile_str_expr floats l cfg cfgs) _
          (compile_str_expr-Succeeds l cfg cfgs (and_left _ _ h))
          λ lhs.
            bind-Succeeds
              (and_then lhs λ a.
                compile_str_expr floats r cfg cfgs >>= λ rhs. map rhs (λ b. ok (str_cmp op a b)))
              _
              (compared-Succeeds lhs (compile_str_expr floats r cfg cfgs) (str_cmp op)
                (compile_str_expr-Succeeds r cfg cfgs (and_right (str_has_none l) _ h)))
              (λ s. (resolve s, refl))
    compile_bool_expr-Succeeds (Syntax.bool_op op l r) cfg cfgs h =
        bind-Succeeds (compile_bool_expr floats l cfg cfgs) _
          (compile_bool_expr-Succeeds l cfg cfgs (and_left _ _ h))
          λ a.
            short_circuit-Succeeds op a (compile_bool_expr floats r cfg cfgs)
              (compile_bool_expr-Succeeds r cfg cfgs (and_right (has_no_numbers l) _ h))

    compile_str_expr-Succeeds :
        (e : StrExpr) (cfg : Config Number) (cfgs : Configs Number)
        → str_has_none e ≡ true
        → Succeeds (compile_str_expr floats e cfg cfgs)
    compile_str_expr-Succeeds (Syntax.str_var v) cfg cfgs h =
        bind-Succeeds (compile_var floats v cfg cfgs) _ (compile_var-Succeeds v cfg cfgs h)
          (λ r. map-Succeeds _ (λ a. (as_string floats a, refl)) r)
    compile_str_expr-Succeeds (Syntax.str s) cfg cfgs h = (_, refl)
    compile_str_expr-Succeeds (Syntax.str_add l r) cfg cfgs h =
        bind-Succeeds (compile_str_expr floats l cfg cfgs) _
          (compile_str_expr-Succeeds l cfg cfgs (and_left _ _ h))
          λ lhs.
            compared-Succeeds lhs (compile_str_expr floats r cfg cfgs) (concat floats)
              (compile_str_expr-Succeeds r cfg cfgs (and_right (str_has_none l) _ h))

    compile_var-Succeeds :
        (v : Var) (cfg : Config Number) (cfgs : Configs Number)
        → var_has_none v ≡ true
        → Succeeds (compile_var floats v cfg cfgs)
    compile_var-Succeeds (Syntax.var app_id first_seg path) cfg cfgs h =
        compiled_var-Succeeds (config_of floats app_id cfg cfgs) first_seg
          (compile_var_rec floats path) cfgs (compile_var_rec-Succeeds path h)

    compile_var_rec-Succeeds :
        (path : Segments)
        → path_has_none path ≡ true
        → AccessorSucceeds (compile_var_rec floats path)
    compile_var_rec-Succeeds Syntax.here h = tt
    compile_var_rec-Succeeds (Syntax.dot idx ident) h =
        elim (Option-cases (compile_var_rec floats ident)) [
          | inl last_segment ↦
              rw last_segment (λ v cfgs. deref-Succeeds idx v cfgs (and_left _ _ h))
          | inr (rest, found) ↦
              let after =
                rw found at
                  (compile_var_rec-Succeeds ident (and_right (segment_has_none idx) _ h)) in
              rw found (λ v cfgs.
                bind-Succeeds (deref floats idx v cfgs) _
                  (deref-Succeeds idx v cfgs (and_left _ _ h))
                  (λ r. and_then-Succeeds _ (λ w. after w cfgs) r))
        ]

    deref-Succeeds :
        (idx : SubIdent) (v : Value Number) (cfgs : Configs Number)
        → segment_has_none idx ≡ true
        → Succeeds (deref floats idx v cfgs)
    deref-Succeeds Syntax.any_item v cfgs h = (_, refl)
    deref-Succeeds Syntax.all_items v cfgs h = (_, refl)
    deref-Succeeds (Syntax.first item_var predicate) v cfgs h = over_elements v _ λ l.
        bind-Succeeds
          (find (λ i. compile_bool_expr floats predicate (only floats item_var i) cfgs) l) _
          (find-Succeeds _
            (λ i. compile_bool_expr-Succeeds predicate (only floats item_var i) cfgs h) l)
          (λ found. (_, refl))
    deref-Succeeds (Syntax.last item_var predicate) v cfgs h = over_elements v _ λ l.
        bind-Succeeds
          (find (λ i. compile_bool_expr floats predicate (only floats item_var i) cfgs) (reverse l))
          _
          (find-Succeeds _
            (λ i. compile_bool_expr-Succeeds predicate (only floats item_var i) cfgs h) (reverse l))
          (λ found. (_, refl))
    deref-Succeeds (Syntax.any_where item_var predicate) v cfgs h = over_elements v _ λ l.
        bind-Succeeds
          (filter (λ i. compile_bool_expr floats predicate (only floats item_var i) cfgs) l) _
          (filter-Succeeds _
            (λ i. compile_bool_expr-Succeeds predicate (only floats item_var i) cfgs h) l)
          (λ kept. (_, refl))
    deref-Succeeds (Syntax.all_where item_var predicate) v cfgs h = over_elements v _ λ l.
        bind-Succeeds
          (filter (λ i. compile_bool_expr floats predicate (only floats item_var i) cfgs) l) _
          (filter-Succeeds _
            (λ i. compile_bool_expr-Succeeds predicate (only floats item_var i) cfgs h) l)
          (λ kept. (_, refl))
    deref-Succeeds (Syntax.regular_base idx) (object o) cfgs h = (_, refl)
    deref-Succeeds (Syntax.regular_base idx) _ cfgs h = (_, refl)
    deref-Succeeds (Syntax.regular_expr idx) (object o) cfgs h =
        bind-Succeeds (compile_str_expr floats idx end cfgs) _
          (compile_str_expr-Succeeds idx end cfgs h)
          (λ names. map-Succeeds _ (λ name. (_, refl)) names)
    deref-Succeeds (Syntax.regular_expr idx) _ cfgs h = (_, refl)
    deref-Succeeds (Syntax.index_base idx) v cfgs h = (at_index floats idx v, rw h refl)
    deref-Succeeds (Syntax.index_expr idx) v cfgs h = cc

  -- A rule that computes with no numbers, and whose literal indices are below 2 ^ 64, does not panic,
  -- whatever the configurations.
  pub compile_bool_expr_total :
      (e : BoolExpr) (cfg : Config Number) (cfgs : Configs Number)
      → has_no_numbers e ≡ true
      → Succeeds (compile_bool_expr floats e cfg cfgs)
  compile_bool_expr_total e cfg cfgs h = compile_bool_expr-Succeeds e cfg cfgs h
