-- ===== src/Rules/Actions/Deletes.antt =====
-- What is left of a list: `compile_del_action` of system-images/compat/src/config/rules.rs.
use start_os.Common.{
  ◌≡◌, refl, sym, ap, ◌∙◌, Bool, true, false, some, List, [], ◌∷◌, if◌then◌else◌, ok, >>=-eq-ok,
  ok-injective,
}
use start_os.S9pk.Bytes.{Bytes}
use start_os.Config.Json.{
  Value, null, bool, number, string, array, object, Items, nil, item, Fields, end, field,
}
use start_os.Config.CharSet.Gen.{Rng}
use start_os.Rules.Returns.{Returns, Returns_elim, >>=-Returns}
use start_os.Rules.VarRes.{exactly}
use start_os.Rules.Syntax.{Floats, DelAction, Config, Configs}
use start_os.Rules.Elements.{Outcome, to_list, values}
use start_os.Rules.Eval.{compile_var}
use start_os.Rules.Assign.{Place, Reached, CompiledReference, satisfies, compile_var_mut}
use start_os.Rules.Assign.Steps.{is_fixed_var}
use start_os.Rules.Assign.RoundTrip.{compile_var-put}
use start_os.Rules.Actions.{retain_items, retain_fields, retain, Mutator, compile_del_action}

-- The second list is the first without the items that satisfy a predicate.
pub data IsWithout {Number : Type 0} (p : Value Number → Outcome Bool)
    : List (Value Number) → List (Value Number) → Type 0 where
  nothing_left : IsWithout p [] []
  kept :
      {v : Value Number} {l l' : List (Value Number)}
      → p v ≡ ok false
      → IsWithout p l l'
      → IsWithout p (v ∷ l) (v ∷ l')
  dropped :
      {v : Value Number} {l l' : List (Value Number)}
      → p v ≡ ok true
      → IsWithout p l l'
      → IsWithout p (v ∷ l) l'

-- the same of two values, where one that has no items is left as it is
abbrev pub IsValueWithout :
    {Number : Type 0} → (Value Number → Outcome Bool) → Value Number → Value Number → Type 0
IsValueWithout p (array l) (array l') = IsWithout p (to_list l) (to_list l')
IsValueWithout p (object o) (object o') = IsWithout p (values o) (values o')
IsValueWithout p v w = v ≡ w

module _ {Number : Type 0} (p : Value Number → Outcome Bool) where
  item_chosen :
      (v : Value Number) (rest l' : Items Number) (b : Bool)
      → p v ≡ ok b
      → IsWithout p (to_list rest) (to_list l')
      → IsWithout p (v ∷ to_list rest) (to_list (if b then l' else item v l'))
  item_chosen v rest l' true e h = dropped e h
  item_chosen v rest l' false e h = kept e h

  field_chosen :
      (k : Bytes) (v : Value Number) (rest o' : Fields Number) (b : Bool)
      → p v ≡ ok b
      → IsWithout p (values rest) (values o')
      → IsWithout p (v ∷ values rest) (values (if b then o' else field k v o'))
  field_chosen k v rest o' true e h = dropped e h
  field_chosen k v rest o' false e h = kept e h

  retain_items-IsWithout :
      (l : Items Number) → Returns (λ l'. IsWithout p (to_list l) (to_list l')) (retain_items p l)
  unfolding retain_items
  retain_items-IsWithout nil = nothing_left
  retain_items-IsWithout (item v rest) =
      >>=-Returns (λ l'. IsWithout p (v ∷ to_list rest) (to_list l')) (p v) _
        λ b e.
          >>=-Returns (λ l'. IsWithout p (v ∷ to_list rest) (to_list l')) (retain_items p rest) _
            λ l' e'. item_chosen v rest l' b e (
              Returns_elim (λ m. IsWithout p (to_list rest) (to_list m)) (retain_items p rest) l' e'
                (retain_items-IsWithout rest))

  retain_fields-IsWithout :
      (o : Fields Number) → Returns (λ o'. IsWithout p (values o) (values o')) (retain_fields p o)
  unfolding retain_fields
  retain_fields-IsWithout end = nothing_left
  retain_fields-IsWithout (field k v rest) =
      >>=-Returns (λ o'. IsWithout p (v ∷ values rest) (values o')) (p v) _
        λ b e.
          >>=-Returns (λ o'. IsWithout p (v ∷ values rest) (values o')) (retain_fields p rest) _
            λ o' e'. field_chosen k v rest o' b e (
              Returns_elim (λ m. IsWithout p (values rest) (values m)) (retain_fields p rest) o' e'
                (retain_fields-IsWithout rest))

  retain-IsValueWithout : (v : Value Number) → Returns (IsValueWithout p v) (retain p v)
  unfolding retain
  retain-IsValueWithout (array l) =
      >>=-Returns (IsValueWithout p (array l)) (retain_items p l) _ λ l' e.
        Returns_elim (λ m. IsWithout p (to_list l) (to_list m)) (retain_items p l) l' e
          (retain_items-IsWithout l)
  retain-IsValueWithout (object o) =
      >>=-Returns (IsValueWithout p (object o)) (retain_fields p o) _ λ o' e.
        Returns_elim (λ m. IsWithout p (values o) (values m)) (retain_fields p o) o' e
          (retain_fields-IsWithout o)
  retain-IsValueWithout null = refl
  retain-IsValueWithout (bool b) = refl
  retain-IsValueWithout (number n) = refl
  retain-IsValueWithout (string s) = refl

module _ (rng : Rng) (floats : Floats) where
  open rng use {Source}
  open floats use {Number}

  -- A deletion leaves in the place of its list those items, in their order, that do not satisfy its
  -- predicate, and no other. Its path leads to a place, and no segment of it looks for an item.
  pub compile_del_action-IsValueWithout :
      (del : DelAction) (m : Mutator rng floats) (get_mut : CompiledReference floats)
      (cfg : Config Number) (cfgs : Configs Number) (s : Source)
      (r : Reached Number (Config Number)) (p : Place Number (Config Number)) (cfg' : Config Number)
      (s' : Source)
      → is_fixed_var del.list ≡ true
      → compile_del_action rng floats del ≡ ok m
      → compile_var_mut floats del.list ≡ ok get_mut
      → get_mut cfg cfgs ≡ ok r
      → r.place ≡ some p
      → m cfg cfgs s ≡ ok (cfg', s')
      → (w : Value Number) × (compile_var floats del.list cfg' cfgs ≡ ok (exactly w))
        × IsValueWithout (satisfies floats del.item_var del.predicate cfgs) p.focus w
  unfolding compile_del_action
  compile_del_action-IsValueWithout del m get_mut cfg cfgs s r p cfg' s' fixed h g e found done =
      let test = satisfies floats del.item_var del.predicate cfgs in
      let ran = ap (λ f. f cfg cfgs s) (ok-injective _ _ (rw g at h)) ∙ done in
      let (w, left, put) = >>=-eq-ok (retain test p.focus) _ (rw (e, found) at ran) in
      let same = ap (λ c. c.0) (ok-injective _ _ put) in
      let (reads, _) = compile_var-put floats del.list get_mut cfg cfgs r p w fixed g e found in
      (
        w,
        ap (λ c. compile_var floats del.list c cfgs) (sym same) ∙ reads,
        Returns_elim (IsValueWithout test p.focus) (retain test p.focus) w left
            (retain-IsValueWithout test p.focus),
      )
