-- ===== src/Config/Spec/DefaultTexts.antt =====
-- The strings that are generated with good defaults match (backend/src/config/spec.rs).
use start_os.Common.{
  ℕ, zero, suc, ◌≡◌, refl, sym, ap, ◌∙◌, inl, inr, Bool, true, false, Option, none, some, arith, ok,
}
use mathlib.Core.Path.{subst}
use start_os.S9pk.Bytes.{Bytes, bytes_key}
use start_os.Config.Json.{Value, null, bool, number, string, object}
use start_os.Config.CharSet.Gen.{Rng}
use start_os.Config.Spec.Syntax.{Crates, DefaultString, literal, entropy, ValueSpecString}
use start_os.Config.Spec.Errors.{Matched}
use start_os.Config.Spec.Matches.{matches_string, nullable_or}
use start_os.Config.Spec.Text.{try_candidates, gen_string, gen_default}
use start_os.Config.Spec.Patterns.{gen_string-matches}
use start_os.Config.Spec.Gen.{Outcome, or_failed}
use start_os.Config.Spec.Defaults.{StringDefaults}

pub gen_string-literal :
    (rng : Rng) (crates : Crates) (timeout : Option ℕ) (spec : ValueSpecString crates) (t : Bytes)
    (s : rng.Source)
    → gen_string rng crates timeout spec (some (literal t)) s ≡ ok (string t, s)
unfolding gen_string try_candidates gen_default
gen_string-literal rng crates none spec t s = refl
gen_string-literal rng crates (some zero) spec t s = refl
gen_string-literal rng crates (some (suc rounds)) spec t s = refl

module _ (rng : Rng) (crates : Crates) (timeout : Option ℕ) where
  open rng use {Source}
  open crates use {Number}

  nullable_or-ok :
      (b : Bool) (matches : Value Number → Matched crates) (v : Value Number)
      → matches v ≡ ok tt
      → nullable_or crates b matches v ≡ ok tt
  nullable_or-ok false matches v h = h
  nullable_or-ok true matches null h = refl
  nullable_or-ok true matches (bool b) h = h
  nullable_or-ok true matches (number n) h = h
  nullable_or-ok true matches (string t) h = h
  nullable_or-ok true matches (Value.array l) h = h
  nullable_or-ok true matches (object o) h = h

  null_ok :
      (b : Bool) (matches : Value Number → Matched crates)
      → b ≡ true
      → nullable_or crates b matches null ≡ ok tt
  null_ok true matches h = refl
  null_ok false matches h = absurd (ground arith)

  pub made_value :
      {A : Type 0} (a b : A) (s s' : Source)
      → ◌≡◌ {A = Outcome rng crates timeout A} (ok (a, s)) (ok (b, s'))
      → a ≡ b
  made_value a b s s' h = cc

  pub string-matches :
      (spec : ValueSpecString crates) (nullable : Bool) (default : Option DefaultString)
      (s s' : Source) (v : Value Number)
      → StringDefaults rng crates timeout spec nullable default
      → or_failed rng crates timeout (gen_string rng crates timeout spec default s) ≡ ok (v, s')
      → nullable_or crates nullable (matches_string crates spec) v ≡ ok tt
  unfolding gen_string
  string-matches spec nullable none s s' v good h =
      subst (λ x. nullable_or crates nullable (matches_string crates spec) x ≡ ok tt)
        (made_value null v s s' h) (null_ok nullable (matches_string crates spec) good)
  string-matches spec nullable (some (literal t)) s s' v good h =
      let made : ◌≡◌ {A = Outcome rng crates timeout (Value Number)} (ok (string t, s))
          (ok (v, s')) =
        sym (ap (or_failed rng crates timeout) (gen_string-literal rng crates timeout spec t s))
        ∙ h in
      nullable_or-ok nullable (matches_string crates spec) v
        (subst (λ x. matches_string crates spec x ≡ ok tt) (made_value (string t) v s s' made) good)
  string-matches spec nullable (some (entropy e)) s s' v (usable, (rounds, given)) h =
      elim (gen_string-matches rng crates rounds spec e s usable) [
        | inl late ↦ absurd (ground (arith, rw (given, late) at h))
        | inr (w, s₁, made, matched) ↦
            let same : ◌≡◌ {A = Outcome rng crates timeout (Value Number)} (ok (w, s₁))
                (ok (v, s')) =
              rw (given, made) at h in
            nullable_or-ok nullable (matches_string crates spec) v (
              subst (λ x. matches_string crates spec x ≡ ok tt) (made_value w v s₁ s' same) matched)
      ]
