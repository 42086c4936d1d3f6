-- ===== src/Rules/Eval/Typed.antt =====
-- The kinds of the values that a rule computes: `compile_value_expr` and `compile_expr` of
-- system-images/compat/src/config/rules.rs.
use start_os.Common.{◌≡◌, refl, Bool, true, false, Option, none, some, ok, ok_or}
use start_os.S9pk.Bytes.{Bytes}
use start_os.Config.Json.{Value, null, bool, number, string}
use start_os.Rules.Returns.{Returns, Returns_elim, Returns_always, >>=-Returns}
use start_os.Rules.VarRes.{VarRes, exactly, any, all, map, map_each}
use start_os.Rules.Syntax.{
  Floats, Var, StrExpr, ValueExpr, any_var, str_expr, num_expr, bool_expr, Config, Configs,
}
use start_os.Rules.Elements.{Panic, not_finite, Outcome}
use start_os.Rules.Eval.{
  compile_var, compile_str_expr, compile_num_expr, compile_bool_expr, compile_value_expr,
  compile_expr,
}

module _ {Number : Type 0} where
  -- a text is missing, a number is never a text, and a truth value is never missing
  abbrev pub has_kind : ValueExpr → Value Number → Bool
  has_kind (any_var v) w = true
  has_kind (str_expr e) (string s) = true
  has_kind (str_expr e) null = true
  has_kind (num_expr e) (number n) = true
  has_kind (num_expr e) null = true
  has_kind (bool_expr e) (bool b) = true
  has_kind _ _ = false

  -- the value in a result is of the kind, and so is a missing one if there are several
  abbrev AllOfKind : ValueExpr → VarRes (Value Number) → Type 0
  AllOfKind e (exactly v) = has_kind e v ≡ true
  AllOfKind e _ = has_kind e null ≡ true

  all_any : (v : Var) (r : VarRes (Value Number)) → AllOfKind (any_var v) r
  all_any v (exactly w) = refl
  all_any v (any s) = refl
  all_any v (all s) = refl

  map-AllOfKind :
      {T : Type 0} (e : ValueExpr) (f : T → Outcome (Value Number)) (r : VarRes T)
      → has_kind e null ≡ true
      → ((a : T) → Returns (λ v. has_kind e v ≡ true) (f a))
      → Returns (AllOfKind e) (map r f)
  unfolding map map_each
  map-AllOfKind e f (exactly a) h each =
      >>=-Returns (AllOfKind e) (f a) _
        λ v found. Returns_elim (λ w. has_kind e w ≡ true) (f a) v found (each a)
  map-AllOfKind e f (any s) h each = >>=-Returns (AllOfKind e) (map_each s f) _ λ t _. h
  map-AllOfKind e f (all s) h each = >>=-Returns (AllOfKind e) (map_each s f) _ λ t _. h

module _ (floats : Floats) where
  open floats use {Number, from_f64}

  text_kind :
      (e : StrExpr) (s : Option Bytes)
      → has_kind {Number = Number} (str_expr e) (elim s [ none ↦ null | some t ↦ string t ]) ≡ true
  text_kind e none = refl
  text_kind e (some t) = refl

  single_kind :
      (e : ValueExpr) (r : VarRes (Value Number))
      → AllOfKind e r
      → Returns {E = Panic} (λ v. has_kind e v ≡ true) (elim r [ exactly v ↦ ok v | _ ↦ ok null ])
  single_kind e (exactly v) h = h
  single_kind e (any s) h = h
  single_kind e (all s) h = h

  compile_value_expr-AllOfKind :
      (e : ValueExpr) (cfg : Config Number) (cfgs : Configs Number)
      → Returns (AllOfKind e) (compile_value_expr floats e cfg cfgs)
  unfolding compile_value_expr map
  compile_value_expr-AllOfKind (any_var v) cfg cfgs =
      Returns_always (AllOfKind (any_var v)) (compile_var floats v cfg cfgs) (all_any v)
  compile_value_expr-AllOfKind (str_expr e) cfg cfgs =
      >>=-Returns (AllOfKind (str_expr e)) (compile_str_expr floats e cfg cfgs) _
        λ r _. map-AllOfKind (str_expr e) _ r refl (text_kind e)
  compile_value_expr-AllOfKind (num_expr e) cfg cfgs =
      >>=-Returns (AllOfKind (num_expr e)) (compile_num_expr floats e cfg cfgs) _ λ r _.
        map-AllOfKind (num_expr e) _ r refl λ n.
          >>=-Returns (λ v. has_kind (num_expr e) v ≡ true) (ok_or (from_f64 n) not_finite) _
            λ a _. refl
  compile_value_expr-AllOfKind (bool_expr e) cfg cfgs =
      >>=-Returns (AllOfKind (bool_expr e)) (compile_bool_expr floats e cfg cfgs) _ λ b _. refl

  -- An expression has a value of its kind: a string or nothing, a number or nothing, or a truth value.
  -- That of a comparison or a connective is never missing.
  pub compile_expr-has_kind :
      (e : ValueExpr) (cfg : Config Number) (cfgs : Configs Number) (v : Value Number)
      → compile_expr floats e cfg cfgs ≡ ok v
      → has_kind e v ≡ true
  unfolding compile_expr
  compile_expr-has_kind e cfg cfgs v h =
      Returns_elim (λ w. has_kind e w ≡ true) (compile_expr floats e cfg cfgs) v h
        (>>=-Returns (λ w. has_kind e w ≡ true) (compile_value_expr floats e cfg cfgs) _
          λ r found. single_kind e r (
            Returns_elim (AllOfKind e) (compile_value_expr floats e cfg cfgs) r found
              (compile_value_expr-AllOfKind e cfg cfgs)))
