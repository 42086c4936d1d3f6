-- ===== src/Config/NumRange/RoundTrip.antt =====
-- A printed `NumRange` (backend/src/config/util.rs) is read back.
use start_os.Common.{
  ℕ, zero, suc, ◌-◌, ◌≡◌, refl, ap, ◌∙◌, Bool, true, false, none, some, [], ◌∷◌, ◌++◌, append_assoc,
  ◌||◌, ◌==◌, length, take, drop, all, not, ok, arith, take-append, drop-append, length-append,
}
use start_os.S9pk.Bytes.{Bytes}
use start_os.Config.NumRange.{
  Bound, NumRange, included, excluded, unbounded, Numeral, is_byte, split_first, left, right,
  last_byte, before_last, deserialize, print_start, print_end, fmt,
}

abbrev is_plain : ℕ → Bool
is_plain c = not (c == 44 || c == 42)

split_first-append :
    (s rest : Bytes) → all is_plain s ≡ true → split_first (s ++ 44 ∷ rest) ≡ (s, some rest)
unfolding split_first
split_first-append [] rest h = refl
split_first-append (c ∷ s) rest h = ground (arith, split_first-append s rest)

-- without ',' there is one part, with one byte more at the end too
split_first-whole :
    (s : Bytes) (c : ℕ)
    → all is_plain s ≡ true
    → (c == 44) ≡ false
    → split_first (s ++ c ∷ []) ≡ (s ++ c ∷ [], none)
unfolding split_first
split_first-whole [] c h k = ground arith
split_first-whole (b ∷ s) c h k = ground (arith, split_first-whole s c)

last_byte-append : (s : Bytes) (c : ℕ) → last_byte (s ++ c ∷ []) ≡ c ∷ []
last_byte-append s c =
    ap (λ n. drop n (s ++ c ∷ [])) (omega (arith, length-append s (c ∷ [])))
    ∙ drop-append (length s) s (c ∷ []) refl

before_last-append : (s : Bytes) (c : ℕ) → before_last (s ++ c ∷ []) ≡ s
before_last-append s c =
    ap (λ n. take n (s ++ c ∷ [])) (omega (arith, length-append s (c ∷ [])))
    ∙ take-append (length s) s (c ∷ []) refl

-- a plain text does not end in '*'
plain_end : (s : Bytes) (n : ℕ) → all is_plain s ≡ true → is_byte 42 (drop n s) ≡ false
plain_end [] zero h = refl
plain_end [] (suc n) h = refl
plain_end (c ∷ []) zero h = ground arith
plain_end (c ∷ d ∷ s) zero h = refl
plain_end (c ∷ s) (suc n) h = plain_end s n (ground arith)

plain_start : (s : Bytes) → all is_plain s ≡ true → is_byte 42 (take 1 s) ≡ false
plain_start [] h = refl
plain_start (c ∷ s) h = ground arith

module _ {T : Type 0} (numeral : Numeral T) where
  open numeral use {print, parse, parse-print, print_plain}

  abbrev start_text : Bound T → Bytes
  start_text (excluded n) = 40 ∷ print n
  start_text (included n) = 91 ∷ print n
  start_text unbounded = 40 ∷ 42 ∷ []

  left-start_text : (b : Bound T) → left numeral (start_text b) ≡ ok b
  unfolding left
  left-start_text (excluded n) = rw (plain_start (print n) (print_plain n), parse-print n)
  left-start_text (included n) = rw (parse-print n)
  left-start_text unbounded = refl

  split_first-print_start :
      (b : Bound T) (rest : Bytes)
      → split_first (print_start numeral b ++ rest) ≡ (start_text b, some rest)
  unfolding split_first
  split_first-print_start (excluded n) rest =
      ap (λ l. (40 ∷ l.0, l.1))
        (ap split_first (append_assoc (print n) (44 ∷ []) rest)
          ∙ split_first-append (print n) rest (print_plain n))
  split_first-print_start (included n) rest =
      ap (λ l. (91 ∷ l.0, l.1))
        (ap split_first (append_assoc (print n) (44 ∷ []) rest)
          ∙ split_first-append (print n) rest (print_plain n))
  split_first-print_start unbounded rest = refl

  right-print_end : (b : Bound T) → right numeral (print_end numeral b) ≡ ok b
  unfolding right
  right-print_end (excluded n) = rw (
    last_byte-append (print n) 41,
    before_last-append (print n) 41,
    plain_end (print n) (length (print n ++ 41 ∷ []) - 2) (print_plain n),
    parse-print n,
  )
  right-print_end (included n) =
      rw (last_byte-append (print n) 93, before_last-append (print n) 93, parse-print n)
  right-print_end unbounded = refl

  split_first-print_end :
      (b : Bound T) → split_first (print_end numeral b) ≡ (print_end numeral b, none)
  unfolding split_first
  split_first-print_end (excluded n) = split_first-whole (print n) 41 (print_plain n) refl
  split_first-print_end (included n) = split_first-whole (print n) 93 (print_plain n) refl
  split_first-print_end unbounded = refl

  -- Every range that is printed is read back as it was.
  pub deserialize-fmt : (r : NumRange T) → deserialize numeral (fmt numeral r) ≡ ok r
  unfolding deserialize fmt
  deserialize-fmt r = rw (
    split_first-print_start r.start_bound (print_end numeral r.end_bound),
    left-start_text r.start_bound,
    split_first-print_end r.end_bound,
    right-print_end r.end_bound,
  )
