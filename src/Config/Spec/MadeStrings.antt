-- ===== src/Config/Spec/MadeStrings.antt =====
-- The lists of strings that are generated with good defaults match (`ValueSpecList::gen` of
-- backend/src/config/spec.rs).
use start_os.Common.{
  ℕ, ◌≡◌, refl, sym, ap, ◌∙◌, true, false, Option, List, [], ◌∷◌, leb, ltb, ok, >>=-eq-ok,
}
use mathlib.Core.Path.{subst}
use start_os.S9pk.Bytes.{Bytes}
use start_os.Config.Json.{Value, string, array, Items, nil, item, push}
use start_os.Config.NumRange
use start_os.Config.NumRange.{NumRange, Bound, included, excluded, unbounded, above, below}
use start_os.Config.CharSet.Gen.{Rng}
use start_os.Config.Spec.Syntax.{Crates, DefaultString, WithDescription, ValueSpecString}
use start_os.Config.Spec.Eq.{string_eq}
use start_os.Config.Spec.Matches.{matches_list, matches_string, matches_value_list}
use start_os.Config.Spec.Gen.{Outcome, gen_each, texts, or_failed, as_array}
use start_os.Config.Spec.Text.{gen_string}
use start_os.Config.Spec.Made.{single-matches}
use start_os.Config.Spec.Defaults.{StringDefaults, StringsDefaults, FixedStrings, literals}
use start_os.Config.Spec.DefaultTexts.{made_value, string-matches, gen_string-literal}

module _ (rng : Rng) (crates : Crates) (timeout : Option ℕ) where
  open rng use {Source}
  open crates use {Number}

  abbrev pub MatchesStrings : NumRange ℕ → ValueSpecString crates → Value Number → Type 0
  MatchesStrings range spec v =
      matches_list crates range (matches_string crates spec) (string_eq crates) v ≡ ok tt

  abbrev gen_one :
      ValueSpecString crates
      → Option DefaultString
      → Source
      → Outcome rng crates timeout (Value Number)
  gen_one spec m t = or_failed rng crates timeout (gen_string rng crates timeout spec m t)

  -- fixed strings are taken as they are
  push_all : Items Number → List Bytes → Items Number
  push_all res [] = res
  push_all res (t ∷ ts) = push_all (push res (string t)) ts

  gen_each-literals :
      (spec : ValueSpecString crates) (ts : List Bytes) (res : Items Number) (s : Source)
      → gen_each rng crates timeout (gen_one spec) (literals crates ts) res s
        ≡ ok (push_all res ts, s)
  unfolding gen_each push_all
  gen_each-literals spec [] res s = refl
  gen_each-literals spec (t ∷ ts) res s =
      rw (gen_string-literal rng crates timeout spec t s)
        (gen_each-literals spec ts (push res (string t)) s)

  beside : Items Number → Items Number → Items Number
  beside nil l = l
  beside (item v rest) l = item v (beside rest l)

  beside-push :
      (res : Items Number) (v : Value Number) (l : Items Number)
      → beside (push res v) l ≡ beside res (item v l)
  unfolding beside
  beside-push nil v l = refl
  beside-push (item w rest) v l = ap (item w) (beside-push rest v l)

  beside-nil : (res : Items Number) → beside res nil ≡ res
  unfolding beside
  beside-nil nil = refl
  beside-nil (item w rest) = ap (item w) (beside-nil rest)

  push_all-texts :
      (res : Items Number) (ts : List Bytes) → push_all res ts ≡ beside res (texts crates ts)
  unfolding push_all
  push_all-texts res [] = sym (beside-nil res)
  push_all-texts res (t ∷ ts) =
      push_all-texts (push res (string t)) ts ∙ beside-push res (string t) (texts crates ts)

  all_texts : (ts : List Bytes) → push_all nil ts ≡ texts crates ts
  unfolding beside
  all_texts ts = push_all-texts nil ts

  abbrev gen_strings :
      ValueSpecString crates
      → List (Option DefaultString)
      → Source
      → Outcome rng crates timeout (Value Number)
  gen_strings spec default s =
      as_array rng crates timeout (gen_each rng crates timeout (gen_one spec) default nil s)

  fixed-match :
      (d : WithDescription) (range : NumRange ℕ) (spec : ValueSpecString crates)
      (default : List (Option DefaultString)) (s s' : Source) (v : Value Number)
      → FixedStrings crates d default range spec
      → gen_strings spec default s ≡ ok (v, s')
      → MatchesStrings range spec v
  unfolding matches_value_list
  fixed-match d range spec default s s' v (ts, fixed, good) made =
      let list = as_array rng crates timeout in
      let gen = gen_each rng crates timeout (gen_one spec) in
      let taken : gen_strings spec default s ≡ ok (array (texts crates ts), s) =
        ap (λ ms. list (gen ms nil s)) fixed
        ∙ ap list (gen_each-literals spec ts nil s)
        ∙ ap (λ l. ok (array l, s)) (all_texts ts) in
      subst (MatchesStrings range spec)
        (made_value rng crates timeout (array (texts crates ts)) v s s' (sym taken ∙ made)) good

  one-matches :
      (range : NumRange ℕ) (spec : ValueSpecString crates) (m : Option DefaultString)
      (s s' : Source) (v : Value Number)
      → StringDefaults rng crates timeout spec false m
      → NumRange.contains leb ltb range 1 ≡ true
      → gen_strings spec (m ∷ []) s ≡ ok (v, s')
      → MatchesStrings range spec v
  unfolding gen_each
  one-matches range spec m s s' v good inside made =
      let ((w, s₁), e₁, e₂) =
        >>=-eq-ok (gen_each rng crates timeout (gen_one spec) (m ∷ []) nil s) _ made in
      let ((x, s₂), e₃, e₄) = >>=-eq-ok (gen_one spec m s) _ e₁ in
      let item_ok : matches_string crates spec x ≡ ok tt =
        string-matches rng crates timeout spec false m s s₂ x good e₃ in
      let same : array (item x nil) ≡ v =
        ap array (made_value rng crates timeout (item x nil) w s₂ s₁ e₄)
        ∙ made_value rng crates timeout (array w) v s₁ s' e₂ in
      subst (MatchesStrings range spec) same (
        single-matches crates (matches_string crates spec) range (string_eq crates) x inside
          item_ok)

  pub strings-match :
      (d : WithDescription) (range : NumRange ℕ) (spec : ValueSpecString crates)
      (default : List (Option DefaultString)) (s s' : Source) (v : Value Number)
      → StringsDefaults rng crates timeout d default range spec
      → gen_strings spec default s ≡ ok (v, s')
      → MatchesStrings range spec v
  unfolding StringsDefaults
  strings-match d range spec [] s s' v good made = fixed-match d range spec [] s s' v good made
  strings-match d range spec (m ∷ []) s s' v good made =
      one-matches range spec m s s' v good.0 good.1 made
  strings-match d range spec (m ∷ n ∷ rest) s s' v good made =
      fixed-match d range spec (m ∷ n ∷ rest) s s' v good made
