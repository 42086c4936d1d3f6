-- ===== src/Rules/Assign/RoundTrip.antt =====
-- Reading back what has been assigned: `compile_var` against `compile_var_mut` of
-- system-images/compat/src/config/rules.rs.
use start_os.Common.{
  ◌≡◌, refl, sym, ap, ◌∙◌, inl, inr, and_left, and_right, true, Option, none, some, ok, >>=-eq-ok,
  ok-injective, Option-cases,
}
use start_os.S9pk.Bytes.{Bytes}
use start_os.Config.Json.{Value, set, get_or_null}
use start_os.Rules.Returns.{Returns, Returns_elim, Returns_map, >>=-Returns}
use start_os.Rules.VarRes.{VarRes, exactly, and_then}
use start_os.Rules.Syntax
use start_os.Rules.Syntax.{Floats, Segments, SubIdent, Var, Configs, Config}
use start_os.Rules.Elements.{Outcome}
use start_os.Rules.Eval.{deref, compile_var_rec, compile_var}
use start_os.Rules.Assign.{
  Place, Reached, entered, beyond, continue, AccessorMut, CompiledReference, accessor_mut, followed,
  started, compile_var_mut_rec, compile_var_mut,
}
use start_os.Rules.Assign.Lens.{AtPlace, AtPlace_elim, compile_var_mut-IsLens}
use start_os.Rules.Assign.Steps.{
  is_fixed_segment, is_fixed, is_fixed_var, IsRead, get-set-entered, deref_mut-IsRead,
}

module _ (floats : Floats) where
  open floats use {Number, Float, as_usize}

  -- what a path reads of a value
  abbrev read : Segments → Value Number → Configs Number → Outcome (VarRes (Value Number))
  read path v cfgs = elim (compile_var_rec floats path) [
    | some accessor ↦ accessor v cfgs
    | none ↦ ok (exactly v)
  ]

  read_dot :
      (idx : SubIdent) (ident : Segments) (v w : Value Number) (cfgs : Configs Number)
      → deref floats idx v cfgs ≡ ok (exactly w)
      → read (Syntax.dot idx ident) v cfgs ≡ read ident w cfgs
  unfolding compile_var_rec and_then
  read_dot idx ident v w cfgs e = elim (Option-cases (compile_var_rec floats ident)) [
    | inl last_segment ↦ rw (read, last_segment, e) refl
    | inr (rest, found) ↦ rw (read, found, e) refl
  ]

  abbrev IsReadBy : Segments → Configs Number → Reached Number (Value Number) → Type 0
  IsReadBy path cfgs =
      AtPlace λ p whole. (w : Value Number) → read path (p.put w) cfgs ≡ ok (exactly w)

  abbrev ReadsBack : Segments → Option (AccessorMut floats) → Type 0
  ReadsBack path none =
      (w : Value Number) (cfgs : Configs Number) → read path w cfgs ≡ ok (exactly w)
  ReadsBack path (some accessor) =
      (v : Value Number) (cfgs : Configs Number) → Returns (IsReadBy path cfgs) (accessor v cfgs)

  abbrev ReadsSegment : SubIdent → AccessorMut floats → Type 0
  ReadsSegment idx accessor =
      (v : Value Number) (cfgs : Configs Number)
      → Returns (IsRead floats idx cfgs) (accessor v cfgs)

  accessor_mut-ReadsSegment :
      (idx : SubIdent)
      → is_fixed_segment idx ≡ true
      → Returns (ReadsSegment idx) (accessor_mut floats idx)
  accessor_mut-ReadsSegment Syntax.any_item h = tt
  accessor_mut-ReadsSegment Syntax.all_items h = tt
  accessor_mut-ReadsSegment (Syntax.any_where item_var predicate) h = tt
  accessor_mut-ReadsSegment (Syntax.all_where item_var predicate) h = tt
  accessor_mut-ReadsSegment idx h = λ v cfgs. deref_mut-IsRead floats idx v cfgs h

  beyond-IsReadBy :
      (idx : SubIdent) (ident : Segments) (cfgs : Configs Number) (p : Place Number (Value Number))
      (r : Reached Number (Value Number))
      → ((w : Value Number) → deref floats idx (p.put w) cfgs ≡ ok (exactly w))
      → IsReadBy ident cfgs r
      → IsReadBy (Syntax.dot idx ident) cfgs (beyond p r)
  beyond-IsReadBy idx ident cfgs p r first after = elim (Option-cases r.place) [
    | inl nothing ↦ rw nothing tt
    | inr (q, found) ↦ rw found (λ w.
        read_dot idx ident (p.put (q.put w)) (q.put w) cfgs (first (q.put w))
        ∙ (rw found at after) w)
  ]

  continue-IsReadBy :
      (idx : SubIdent) (ident : Segments) (cfgs : Configs Number)
      (d : Reached Number (Value Number)) (rest : AccessorMut floats)
      → IsRead floats idx cfgs d
      → ReadsBack ident (some rest)
      → Returns (IsReadBy (Syntax.dot idx ident) cfgs) (continue d (λ w. rest w cfgs))
  continue-IsReadBy idx ident cfgs d rest first after = elim (Option-cases d.place) [
    | inl nothing ↦ rw nothing tt
    | inr (p, found) ↦ rw found (
        >>=-Returns (IsReadBy (Syntax.dot idx ident) cfgs) (rest p.focus cfgs) _ λ r e.
          beyond-IsReadBy idx ident cfgs p r (rw found at first)
            (Returns_elim (IsReadBy ident cfgs) (rest p.focus cfgs) r e (after p.focus cfgs)))
  ]

  segment-IsReadBy :
      (idx : SubIdent) (ident : Segments) (cfgs : Configs Number)
      (d : Reached Number (Value Number))
      → IsRead floats idx cfgs d
      → ReadsBack ident none
      → IsReadBy (Syntax.dot idx ident) cfgs d
  segment-IsReadBy idx ident cfgs d first after = elim (Option-cases d.place) [
    | inl nothing ↦ rw nothing tt
    | inr (p, found) ↦
        rw found (λ w. read_dot idx ident (p.put w) w cfgs ((rw found at first) w) ∙ after w cfgs)
  ]

  followed-ReadsBack :
      (idx : SubIdent) (ident : Segments) (step : AccessorMut floats)
      (rest : Option (AccessorMut floats))
      → ReadsSegment idx step
      → ReadsBack ident rest
      → ReadsBack (Syntax.dot idx ident) (some (followed floats step rest))
  followed-ReadsBack idx ident step none first after = λ v cfgs.
      Returns_map (IsRead floats idx cfgs) (IsReadBy (Syntax.dot idx ident) cfgs) (step v cfgs)
        (λ d at. segment-IsReadBy idx ident cfgs d at after) (first v cfgs)
  followed-ReadsBack idx ident step (some rest) first after = λ v cfgs.
      >>=-Returns (IsReadBy (Syntax.dot idx ident) cfgs) (step v cfgs) _ λ d e.
        continue-IsReadBy idx ident cfgs d rest
          (Returns_elim (IsRead floats idx cfgs) (step v cfgs) d e (first v cfgs)) after

  compile_var_mut_rec-ReadsBack :
      (path : Segments)
      → is_fixed path ≡ true
      → Returns (ReadsBack path) (compile_var_mut_rec floats path)
  unfolding compile_var_mut_rec compile_var_rec
  compile_var_mut_rec-ReadsBack Syntax.here h = λ w cfgs. refl
  compile_var_mut_rec-ReadsBack (Syntax.dot idx ident) h =
      >>=-Returns (ReadsBack (Syntax.dot idx ident)) (accessor_mut floats idx) _ λ step e.
        >>=-Returns (ReadsBack (Syntax.dot idx ident)) (compile_var_mut_rec floats ident) _
          λ rest e'.
            followed-ReadsBack idx ident step rest
              (Returns_elim (ReadsSegment idx) (accessor_mut floats idx) step e
                (accessor_mut-ReadsSegment idx (and_left _ _ h)))
              (Returns_elim (ReadsBack ident) (compile_var_mut_rec floats ident) rest e'
                (compile_var_mut_rec-ReadsBack ident (and_right (is_fixed_segment idx) _ h)))

  abbrev IsVarRead : Var → Configs Number → Reached Number (Config Number) → Type 0
  IsVarRead v cfgs =
      AtPlace λ p whole. (w : Value Number) → compile_var floats v (p.put w) cfgs ≡ ok (exactly w)

  read-compile_var :
      (first_seg : Bytes) (path : Segments) (cfg : Config Number) (cfgs : Configs Number)
      → compile_var floats (Syntax.var none first_seg path) cfg cfgs
        ≡ read path (get_or_null first_seg cfg) cfgs
  unfolding compile_var
  read-compile_var first_seg path cfg cfgs = elim (Option-cases (compile_var_rec floats path)) [
    | inl no_more ↦ rw (read, no_more) refl
    | inr (rest, found) ↦ rw (read, found) refl
  ]

  -- what is put under the first key of a path
  under :
      (first_seg : Bytes) (path : Segments) (w : Value Number) (cfg : Config Number)
      (cfgs : Configs Number)
      → compile_var floats
          (Syntax.var none first_seg path)
          (set first_seg w (entered first_seg cfg))
          cfgs
        ≡ read path w cfgs
  under first_seg path w cfg cfgs =
      read-compile_var first_seg path (set first_seg w (entered first_seg cfg)) cfgs
      ∙ ap (λ v. read path v cfgs) (get-set-entered first_seg w cfg)

  beyond-IsVarRead :
      (first_seg : Bytes) (path : Segments) (cfg : Config Number) (cfgs : Configs Number)
      (r : Reached Number (Value Number))
      → IsReadBy path cfgs r
      → IsVarRead (Syntax.var none first_seg path) cfgs (
          beyond
            (record {
              focus = get_or_null first_seg (entered first_seg cfg);
              put = λ w. set first_seg w (entered first_seg cfg);
            })
            r)
  beyond-IsVarRead first_seg path cfg cfgs r after = elim (Option-cases r.place) [
    | inl nothing ↦ rw nothing tt
    | inr (q, found) ↦
        rw found (λ w. under first_seg path (q.put w) cfg cfgs ∙ (rw found at after) w)
  ]

  started-IsVarRead :
      (first_seg : Bytes) (path : Segments) (rest : Option (AccessorMut floats))
      (cfg : Config Number) (cfgs : Configs Number)
      → ReadsBack path rest
      → Returns
          (IsVarRead (Syntax.var none first_seg path) cfgs)
          (started floats first_seg rest cfg cfgs)
  started-IsVarRead first_seg path none cfg cfgs after =
      λ w. under first_seg path w cfg cfgs ∙ after w cfgs
  started-IsVarRead first_seg path (some rest) cfg cfgs after =
      >>=-Returns (IsVarRead (Syntax.var none first_seg path) cfgs)
        (rest (get_or_null first_seg (entered first_seg cfg)) cfgs) _
        λ r e. beyond-IsVarRead first_seg path cfg cfgs r (
          Returns_elim (IsReadBy path cfgs)
            (rest (get_or_null first_seg (entered first_seg cfg)) cfgs) r e
            (after (get_or_null first_seg (entered first_seg cfg)) cfgs))

  -- What is assigned to the place that a path leads to is what the path reads from then on, and what
  -- stands there when it is found is what the path reads. No segment of the path looks for an item.
  pub compile_var-put :
      (v : Var) (get_mut : CompiledReference floats) (cfg : Config Number) (cfgs : Configs Number)
      (r : Reached Number (Config Number)) (p : Place Number (Config Number)) (w : Value Number)
      → is_fixed_var v ≡ true
      → compile_var_mut floats v ≡ ok get_mut
      → get_mut cfg cfgs ≡ ok r
      → r.place ≡ some p
      → (compile_var floats v (p.put w) cfgs ≡ ok (exactly w))
        × (compile_var floats v r.whole cfgs ≡ ok (exactly p.focus))
  unfolding compile_var_mut
  compile_var-put (Syntax.var (some app_id) first_seg path) get_mut cfg cfgs r p w fixed h k found =
      cc
  compile_var-put (Syntax.var none first_seg path) get_mut cfg cfgs r p w fixed h k found =
      let (rest, e, h₁) = >>=-eq-ok (compile_var_mut_rec floats path) _ h in
      let reads =
        Returns_elim (IsVarRead (Syntax.var none first_seg path) cfgs)
          (started floats first_seg rest cfg cfgs) r
          (ap (λ m. m cfg cfgs) (ok-injective _ _ h₁) ∙ k)
          (started-IsVarRead first_seg path rest cfg cfgs (
            Returns_elim (ReadsBack path) (compile_var_mut_rec floats path) rest e
              (compile_var_mut_rec-ReadsBack path fixed))) in
      let after =
        AtPlace_elim
          (λ q whole.
            (x : Value Number)
            → compile_var floats (Syntax.var none first_seg path) (q.put x) cfgs ≡ ok (exactly x))
          r p found reads in
      let lens =
        AtPlace_elim (λ q whole. q.put q.focus ≡ whole) r p found
          (compile_var_mut-IsLens floats (Syntax.var none first_seg path) get_mut cfg cfgs r h k) in
      (
        after w,
        ap (λ c. compile_var floats (Syntax.var none first_seg path) c cfgs) (sym lens)
            ∙ after p.focus,
      )
