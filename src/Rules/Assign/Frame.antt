-- ===== src/Rules/Assign/Frame.antt =====
-- What an assignment leaves alone: a path from a key of a configuration, by `compile_var_mut` of
-- system-images/compat/src/config/rules.rs, reaches nothing under another key.
use start_os.Common.{
  ◌≡◌, refl, ap, ◌∙◌, inl, inr, false, Option, none, some, ok, >>=-eq-ok, ok-injective,
  Option-cases,
}
use start_os.S9pk.Bytes.{Bytes, bytes_beq}
use start_os.Config.Json.{Value, null, get, set, get_or_null}
use start_os.Config.Json.Laws.{get-insert, get-set}
use start_os.Rules.Returns.{Returns, Returns_elim, >>=-Returns}
use start_os.Rules.Syntax
use start_os.Rules.Syntax.{Floats, Var, Config, Configs}
use start_os.Rules.Assign.{
  Place, Reached, entered, entry, beyond, AccessorMut, CompiledReference, started,
  compile_var_mut_rec, compile_var_mut,
}
use start_os.Rules.Assign.Lens.{AtPlace, get-entered}

-- the key that a path starts from
abbrev pub first_seg_of : Var → Bytes
first_seg_of (Syntax.var app_id first_seg path) = first_seg

module _ {Number : Type 0} (k : Bytes) (cfg : Config Number) where
  -- a configuration that has the same under the key
  abbrev pub Agrees : Config Number → Type 0
  Agrees c = get k c ≡ get k cfg

  -- Neither the search for the place nor any assignment to it changes the key.
  abbrev pub IsFramed : Reached Number (Config Number) → Type 0
  IsFramed r = Agrees r.whole × AtPlace (λ p whole. (w : Value Number) → Agrees (p.put w)) r

  module _ (first_seg : Bytes) (other : bytes_beq k first_seg ≡ false) where
    entered-Agrees : Agrees (entered first_seg cfg)
    entered-Agrees = elim (Option-cases (get first_seg cfg)) [
      | inl new ↦ rw (entered, new) (get-insert k first_seg null cfg ∙ rw other refl)
      | inr (v, old) ↦ rw (entered, old) refl
    ]

    set-Agrees : (w : Value Number) → Agrees (set first_seg w (entered first_seg cfg))
    set-Agrees w =
        get-set k first_seg w _ (entered first_seg cfg) (get-entered first_seg cfg)
        ∙ rw other entered-Agrees

    entry-IsFramed : IsFramed (entry (λ c. c) first_seg cfg)
    entry-IsFramed = (entered-Agrees, set-Agrees)

    beyond-IsFramed :
        (p : Place Number (Config Number)) (r : Reached Number (Value Number))
        → ((w : Value Number) → Agrees (p.put w))
        → IsFramed (beyond p r)
    beyond-IsFramed p r puts = elim (Option-cases r.place) [
      | inl nothing ↦ (puts r.whole, rw nothing tt)
      | inr (q, found) ↦ (puts r.whole, rw found (λ w. puts (q.put w)))
    ]

module _ (floats : Floats) where
  open floats use {Number}

  started-IsFramed :
      (k first_seg : Bytes) (rest : Option (AccessorMut floats)) (cfg : Config Number)
      (cfgs : Configs Number)
      → bytes_beq k first_seg ≡ false
      → Returns (IsFramed k cfg) (started floats first_seg rest cfg cfgs)
  started-IsFramed k first_seg none cfg cfgs other = entry-IsFramed k cfg first_seg other
  started-IsFramed k first_seg (some rest) cfg cfgs other =
      >>=-Returns (IsFramed k cfg) (rest (get_or_null first_seg (entered first_seg cfg)) cfgs) _
        λ r e.
          beyond-IsFramed k cfg first_seg other
            (record {
              focus = get_or_null first_seg (entered first_seg cfg);
              put = λ w. set first_seg w (entered first_seg cfg);
            })
            r (set-Agrees k cfg first_seg other)

  -- A path from another key changes nothing under a key, neither by what it enters on its way nor by
  -- what is assigned to where it leads.
  pub compile_var_mut-IsFramed :
      (v : Var) (k : Bytes) (get_mut : CompiledReference floats) (cfg : Config Number)
      (cfgs : Configs Number) (r : Reached Number (Config Number))
      → compile_var_mut floats v ≡ ok get_mut
      → bytes_beq k (first_seg_of v) ≡ false
      → get_mut cfg cfgs ≡ ok r
      → IsFramed k cfg r
  unfolding compile_var_mut
  compile_var_mut-IsFramed (Syntax.var (some app_id) first_seg path) k get_mut cfg cfgs r h other
        e =
      cc
  compile_var_mut-IsFramed (Syntax.var none first_seg path) k get_mut cfg cfgs r h other e =
      let (rest, found, h₁) = >>=-eq-ok (compile_var_mut_rec floats path) _ h in
      Returns_elim (IsFramed k cfg) (started floats first_seg rest cfg cfgs) r
        (ap (λ m. m cfg cfgs) (ok-injective _ _ h₁) ∙ e)
        (started-IsFramed k first_seg rest cfg cfgs other)
