-- ===== src/Config/Spec/Patterns.antt =====
-- Random strings match the pattern of their specification (backend/src/config/spec.rs).
use start_os.Common.{
  ℕ, zero, suc, ◌<◌, ◌≡◌, refl, ◌⊎◌, inl, inr, Bool, true, false, not, Option, none, some, All,
  arith, ok, err, Bool-cases, ◌++◌, [],
}
use start_os.S9pk.Bytes.{Bytes}
use start_os.Config.Json.{Value, string}
use start_os.Config.CharSet.{CharSet}
use start_os.Config.CharSet.Sizes.{IsWellFormed}
use start_os.Config.CharSet.Gen.{Rng, gen-contains, AreChars}
use start_os.Config.Spec.Syntax.{Crates, Entropy, entropy, ValueSpecString, Pattern}
use start_os.Config.Spec.Matches.{matches_string}
use start_os.Config.Spec.Text.{
  encode_utf8, timed_out, gen_chars, charset_of, gen_entropy, gen_default, is_refused, Generated,
  try_candidates, gen_string,
}

-- The set that is chosen from is well-formed and not empty, and its ranges are between characters.
abbrev pub IsUsable : Option CharSet → Type 0
IsUsable charset =
    IsWellFormed (charset_of charset)
    × All AreChars (charset_of charset).ranges
    × (0 < (charset_of charset).total)

undo_not : (b : Bool) → not b ≡ false → b ≡ true
undo_not true h = refl
undo_not false h = absurd (ground arith)

module _ (rng : Rng) where
  open rng use {Source}

  gen_chars-some :
      (set : CharSet) (len : ℕ) (s : Source)
      → IsWellFormed set
      → All AreChars set.ranges
      → 0 < set.total
      → (text : Bytes) × (s' : Source) × (gen_chars rng set len s ≡ some (text, s'))
  unfolding gen_chars
  gen_chars-some set zero s well chars positive = ([], s, refl)
  gen_chars-some set (suc len) s well chars positive =
      let (c, s₁, e, found) = gen-contains rng set s well chars positive in
      let (text, s₂, e₂) = gen_chars-some set len s₁ well chars positive in
      (encode_utf8 c ++ text, s₂, rw (gen_chars, e, e₂) refl)

  module _ (crates : Crates) where
    open crates use {Number}

    accepted-matches :
        (spec : ValueSpecString crates) (e : Entropy) (candidate : Bytes)
        → is_refused rng crates (entropy e) spec.pattern candidate ≡ false
        → matches_string crates spec (string candidate) ≡ ok tt
    unfolding matches_string
    accepted-matches spec e candidate = by_pattern spec.pattern
      where
        by_pattern :
            (pattern : Option (Pattern crates))
            → is_refused rng crates (entropy e) pattern candidate ≡ false
            → matches_string crates (record spec { pattern = pattern }) (string candidate) ≡ ok tt
        by_pattern none h = refl
        by_pattern (some p) h = rw (undo_not (crates.is_match p.pattern candidate) h) refl

    -- there is no time left, or a string that matches
    abbrev MatchesInTime : ValueSpecString crates → Generated rng crates → Type 0
    MatchesInTime spec generated =
        (generated ≡ err timed_out)
        ⊎ ((v : Value Number) × (s' : Source) × (generated ≡ ok (v, s'))
            × (matches_string crates spec v ≡ ok tt))

    try_candidates-MatchesInTime :
        (rounds : ℕ) (spec : ValueSpecString crates) (e : Entropy) (s : Source)
        → IsUsable e.charset
        → MatchesInTime spec (try_candidates rng crates rounds spec (entropy e) s)
    unfolding try_candidates gen_default gen_entropy
    try_candidates-MatchesInTime zero spec e s usable =
        let (text, s', made) =
          gen_chars-some (charset_of e.charset) e.len s usable.0 usable.1 usable.2 in
        elim (Bool-cases (is_refused rng crates (entropy e) spec.pattern text)) [
          | inl refused ↦ inl (rw (made, refused) refl)
          | inr taken ↦
              inr (string text, s', rw (made, taken) refl, accepted-matches spec e text taken)
        ]
    try_candidates-MatchesInTime (suc rounds) spec e s usable =
        let (text, s', made) =
          gen_chars-some (charset_of e.charset) e.len s usable.0 usable.1 usable.2 in
        elim (Bool-cases (is_refused rng crates (entropy e) spec.pattern text)) [
          | inl refused ↦ rw (made, refused) (try_candidates-MatchesInTime rounds spec e s' usable)
          | inr taken ↦
              inr (string text, s', rw (made, taken) refl, accepted-matches spec e text taken)
        ]

    -- With a timeout, a string that is generated at random from a usable set of characters is
    -- generated without a panic, and matches the specification, its pattern included, unless the time
    -- runs out first.
    pub gen_string-matches :
        (rounds : ℕ) (spec : ValueSpecString crates) (e : Entropy) (s : Source)
        → IsUsable e.charset
        → (gen_string rng crates (some rounds) spec (some (entropy e)) s ≡ err timed_out)
          ⊎ ((v : Value Number) × (s' : Source) × (gen_string rng crates
                  (some rounds)
                  spec
                  (some (entropy e))
                  s
                ≡ ok (v, s'))
              × (matches_string crates spec v ≡ ok tt))
    unfolding gen_string
    gen_string-matches rounds spec e s usable = try_candidates-MatchesInTime rounds spec e s usable
