-- ===== src/Rules/Eval/Reading.antt =====
-- What the comparisons of a rule say: `compile_num_cmp_expr`, `compile_str_cmp_expr` and
-- `compile_bool_var` of system-images/compat/src/config/rules.rs, read as nested quantifiers.
use start_os.Common.{◌≡◌, refl, sym, ap, ◌∙◌, Bool, Option, ok, ◌>>=◌, ok-injective}
use start_os.S9pk.Bytes.{Bytes}
use start_os.Config.Json.{Value}
use start_os.Rules.VarRes.{VarRes, map, and_then, resolve}
use start_os.Rules.VarRes.Laws.{quantify, resolve-quantify, quantify-map, quantify-and_then}
use start_os.Rules.VarRes.Total.{map-Succeeds, and_then-Succeeds}
use start_os.Rules.Syntax.{
  Floats, CmpOp, Var, NumExpr, StrExpr, num_cmp_expr, str_cmp_expr, bool_var, Config, Configs,
}
use start_os.Rules.Text.{str_cmp}
use start_os.Rules.Elements.{Panic, Outcome}
use start_os.Rules.Eval.{
  num_cmp, is_set, compile_var, compile_num_expr, compile_str_expr, compile_bool_expr,
}

module _ {T : Type 0} (test : T → T → Bool) (lhs rhs : VarRes T) where
  -- the closures of a comparison, whose right-hand side is evaluated
  abbrev compared : Outcome (VarRes Bool)
  compared = and_then lhs (λ a. map rhs (λ b. ok (test a b)))

  compared-quantify :
      (s : VarRes Bool)
      → compared ≡ ok s
      → resolve s ≡ quantify (λ a. quantify (λ b. test a b) rhs) lhs
  compared-quantify s h =
      resolve-quantify s
      ∙ quantify-and_then (λ b. b) (λ a. quantify (λ b. test a b) rhs)
          (λ a. map rhs (λ b. ok (test a b)))
          (λ a t e.
            quantify-map (λ b. b) (λ b. test a b) (λ b. ok (test a b))
              (λ b c k. sym (ok-injective _ _ k)) rhs t e)
          lhs s h

  resolve-compared :
      (compared >>= λ s. ok (resolve s)) ≡ ok (quantify (λ a. quantify (λ b. test a b) rhs) lhs)
  resolve-compared =
      let (s, e) =
        and_then-Succeeds {E = Panic} (λ a. map rhs (λ b. ok (test a b)))
          (λ a. map-Succeeds (λ b. ok (test a b)) (λ b. (test a b, refl)) rhs) lhs in
      rw e (ap ok (compared-quantify s e))

module _ (floats : Floats) where
  open floats use {Number, Float}

  -- A comparison of numbers does not panic where its sides do not.
  pub num_cmp_reading :
      (l r : NumExpr) (op : CmpOp) (cfg : Config Number) (cfgs : Configs Number)
      (lhs rhs : VarRes Float)
      → compile_num_expr floats l cfg cfgs ≡ ok lhs
      → compile_num_expr floats r cfg cfgs ≡ ok rhs
      → compile_bool_expr floats (num_cmp_expr l op r) cfg cfgs
        ≡ ok (quantify (λ a. quantify (λ b. num_cmp floats op a b) rhs) lhs)
  unfolding compile_bool_expr
  num_cmp_reading l r op cfg cfgs lhs rhs hl hr =
      rw (hl, hr) (resolve-compared (num_cmp floats op) lhs rhs)

  -- A comparison of strings does not panic where its sides do not.
  pub str_cmp_reading :
      (l r : StrExpr) (op : CmpOp) (cfg : Config Number) (cfgs : Configs Number)
      (lhs rhs : VarRes (Option Bytes))
      → compile_str_expr floats l cfg cfgs ≡ ok lhs
      → compile_str_expr floats r cfg cfgs ≡ ok rhs
      → compile_bool_expr floats (str_cmp_expr l op r) cfg cfgs
        ≡ ok (quantify (λ a. quantify (λ b. str_cmp op a b) rhs) lhs)
  unfolding compile_bool_expr
  str_cmp_reading l r op cfg cfgs lhs rhs hl hr =
      rw (hl, hr) (resolve-compared (str_cmp op) lhs rhs)

  pub bool_var_reading :
      (v : Var) (cfg : Config Number) (cfgs : Configs Number) (r : VarRes (Value Number))
      → compile_var floats v cfg cfgs ≡ ok r
      → compile_bool_expr floats (bool_var v) cfg cfgs ≡ ok (quantify (is_set floats) r)
  unfolding compile_bool_expr
  bool_var_reading v cfg cfgs r h =
      let (s, e) =
        map-Succeeds {E = Panic} (λ a. ok (is_set floats a)) (λ a. (is_set floats a, refl)) r in
      rw (h, e)
        (ap ok (
          resolve-quantify s
          ∙ quantify-map (λ b. b) (is_set floats) (λ a. ok (is_set floats a))
              (λ a b k. sym (ok-injective _ _ k)) r s e))
