-- ===== src/Rules/Actions/Frame.antt =====
-- What the changes of a suggestion leave alone: `compile_del_action`, `compile_push_action` and
-- `compile_set_action` of system-images/compat/src/config/rules.rs.
use start_os.Common.{◌≡◌, inl, inr, false, none, some, ok, ok_or, ◌>>=◌, Option-cases}
use start_os.S9pk.Bytes.{Bytes, bytes_beq}
use start_os.Config.Json.{Value, string, get}
use start_os.Config.CharSet.Gen.{Rng}
use start_os.Config.Spec.Text.{gen_entropy}
use start_os.Rules.Returns.{Returns, Returns_elim, >>=-Returns}
use start_os.Rules.Syntax.{Floats, Var, DelAction, Config, Configs}
use start_os.Rules.Elements.{Panic, Outcome, no_characters}
use start_os.Rules.Eval.{compile_expr}
use start_os.Rules.Assign.{Place, Reached, satisfies, compile_var_mut}
use start_os.Rules.Assign.Frame.{Agrees, IsFramed, first_seg_of, compile_var_mut-IsFramed}
use start_os.Rules.Actions.{
  retain, push_to, SetVariant, to, to_value, to_entropy, Mutator, compile_del_action,
  compile_push_action, compile_set_action,
}
use start_os.Rules.Suggest.{
  RawSuggestionVariant, raw_set, raw_delete, raw_push, SuggestionVariant, deserialize, compiled_of,
}

module _ {Number : Type 0} (k : Bytes) (cfg : Config Number) where
  assigned-Agrees :
      (r : Reached Number (Config Number)) (f : Value Number → Value Number)
      → IsFramed k cfg r
      → Agrees k cfg (elim r.place [ none ↦ r.whole | some p ↦ p.put (f p.focus) ])
  assigned-Agrees r f (searched, puts) = elim (Option-cases r.place) [
    | inl nothing ↦ rw nothing searched
    | inr (p, found) ↦ rw found ((rw found at puts) (f p.focus))
  ]

  computed-Agrees :
      {X S : Type 0} (r : Reached Number (Config Number)) (s : S)
      (m : Place Number (Config Number) → Outcome X) (value : X → Value Number) (left : X → S)
      → IsFramed k cfg r
      → Returns {E = Panic} {A = Config Number × S}
          (λ changed. Agrees k cfg changed.0)
          (elim r.place [
            | none ↦ ok (r.whole, s)
            | some p ↦ m p >>= λ x. ok (p.put (value x), left x)
          ])
  computed-Agrees r s m value left (searched, puts) = elim (Option-cases r.place) [
    | inl nothing ↦ rw nothing searched
    | inr (p, found) ↦ rw found (
        >>=-Returns (λ changed. Agrees k cfg changed.0) (m p) _ λ x _. (rw found at puts) (value x))
  ]

module _ (rng : Rng) (floats : Floats) where
  open rng use {Source}
  open floats use {Number}

  -- a change that leaves a key alone
  abbrev pub Spares : Bytes → Mutator rng floats → Type 0
  Spares k m =
      (cfg : Config Number) (cfgs : Configs Number) (s : Source)
      → Returns (λ changed. Agrees k cfg changed.0) (m cfg cfgs s)

  module _ (k : Bytes) (v : Var) (other : bytes_beq k (first_seg_of v) ≡ false) where
    compile_set_action-Spares :
        (value : SetVariant Number) → Returns (Spares k) (compile_set_action rng floats v value)
    unfolding compile_set_action
    compile_set_action-Spares (to e) =
        >>=-Returns (Spares k) (compile_var_mut floats v) _ λ get_mut h cfg cfgs s.
          >>=-Returns (λ changed. Agrees k cfg changed.0) (compile_expr floats e cfg cfgs) _
            λ val _.
              >>=-Returns (λ changed. Agrees k cfg changed.0) (get_mut cfg cfgs) _
                λ r e'.
                  assigned-Agrees k cfg r (λ _. val)
                    (compile_var_mut-IsFramed floats v k get_mut cfg cfgs r h other e')
    compile_set_action-Spares (to_value val) =
        >>=-Returns (Spares k) (compile_var_mut floats v) _ λ get_mut h cfg cfgs s.
          >>=-Returns (λ changed. Agrees k cfg changed.0) (get_mut cfg cfgs) _
            λ r e.
              assigned-Agrees k cfg r (λ _. val)
                (compile_var_mut-IsFramed floats v k get_mut cfg cfgs r h other e)
    compile_set_action-Spares (to_entropy e) =
        >>=-Returns (Spares k) (compile_var_mut floats v) _ λ get_mut h cfg cfgs s.
          >>=-Returns (λ changed. Agrees k cfg changed.0) (get_mut cfg cfgs) _
            λ r e'.
              computed-Agrees k cfg r s (λ _. ok_or (gen_entropy rng e s) no_characters)
                (λ x. string x.0) (λ x. x.1)
                (compile_var_mut-IsFramed floats v k get_mut cfg cfgs r h other e')

    compile_push_action-Spares :
        (value : Value Number) → Returns (Spares k) (compile_push_action rng floats v value)
    unfolding compile_push_action
    compile_push_action-Spares value =
        >>=-Returns (Spares k) (compile_var_mut floats v) _ λ get_mut h cfg cfgs s.
          >>=-Returns (λ changed. Agrees k cfg changed.0) (get_mut cfg cfgs) _
            λ r e.
              assigned-Agrees k cfg r (λ w. push_to w value)
                (compile_var_mut-IsFramed floats v k get_mut cfg cfgs r h other e)

  compile_del_action-Spares :
      (k : Bytes) (del : DelAction)
      → bytes_beq k (first_seg_of del.list) ≡ false
      → Returns (Spares k) (compile_del_action rng floats del)
  unfolding compile_del_action
  compile_del_action-Spares k del other =
      >>=-Returns (Spares k) (compile_var_mut floats del.list) _ λ get_mut h cfg cfgs s.
        >>=-Returns (λ changed. Agrees k cfg changed.0) (get_mut cfg cfgs) _
          λ r e.
            computed-Agrees k cfg r s
              (λ p. retain (satisfies floats del.item_var del.predicate cfgs) p.focus) (λ x. x)
              (λ _. s) (compile_var_mut-IsFramed floats del.list k get_mut cfg cfgs r h other e)

  -- the key that a suggestion is about
  abbrev pub key_of : RawSuggestionVariant rng floats → Bytes
  key_of (raw_set v value) = first_seg_of v
  key_of (raw_delete del) = first_seg_of del.list
  key_of (raw_push v value) = first_seg_of v

  deserialize-Spares :
      (raw : RawSuggestionVariant rng floats) (k : Bytes)
      → bytes_beq k (key_of raw) ≡ false
      → Returns (λ v. Spares k (compiled_of rng floats v)) (deserialize rng floats raw)
  unfolding deserialize
  deserialize-Spares (raw_set v value) k other =
      >>=-Returns (λ w. Spares k (compiled_of rng floats w)) (compile_set_action rng floats v value)
        _
        λ m e.
          Returns_elim (Spares k) (compile_set_action rng floats v value) m e
            (compile_set_action-Spares k v other value)
  deserialize-Spares (raw_delete del) k other =
      >>=-Returns (λ w. Spares k (compiled_of rng floats w)) (compile_del_action rng floats del) _
        λ m e.
          Returns_elim (Spares k) (compile_del_action rng floats del) m e
            (compile_del_action-Spares k del other)
  deserialize-Spares (raw_push v value) k other =
      >>=-Returns (λ w. Spares k (compiled_of rng floats w))
        (compile_push_action rng floats v value) _
        λ m e.
          Returns_elim (Spares k) (compile_push_action rng floats v value) m e
            (compile_push_action-Spares k v other value)

  -- A suggestion changes nothing of a configuration but what is under the first key of its path.
  pub compiled_of-Spares :
      (raw : RawSuggestionVariant rng floats) (variant : SuggestionVariant rng floats) (k : Bytes)
      (cfg : Config Number) (cfgs : Configs Number) (s : Source) (cfg' : Config Number)
      (s' : Source)
      → deserialize rng floats raw ≡ ok variant
      → bytes_beq k (key_of raw) ≡ false
      → compiled_of rng floats variant cfg cfgs s ≡ ok (cfg', s')
      → get k cfg' ≡ get k cfg
  compiled_of-Spares raw variant k cfg cfgs s cfg' s' h other e =
      Returns_elim (λ changed. Agrees k cfg changed.0) (compiled_of rng floats variant cfg cfgs s)
        (cfg', s') e
        (Returns_elim (λ v. Spares k (compiled_of rng floats v)) (deserialize rng floats raw)
          variant h (deserialize-Spares raw k other) cfg cfgs s)
