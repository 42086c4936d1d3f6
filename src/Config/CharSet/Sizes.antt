-- ===== src/Config/CharSet/Sizes.antt =====
-- The ranges that the parser of `CharSet` (backend/src/config/util.rs) lets through, and their sizes.
use start_os.Common.{
  ok-injective, ℕ, ◌+◌, ◌-◌, ◌<◌, ◌≡◌, refl, ◌⊎◌, inl, inr, Bool, true, false, Option, none, some,
  List, [], ◌∷◌, ◌++◌, ltb, leb, ◌==◌, All, arith, ok, >>=-eq-ok, Bool-cases,
}
use mathlib.Core.Path.{subst}
use start_os.Config.CharSet.{
  Char, Range, CharSet, Scan, fresh, push_range, push_char, on_comma, on_dash, on_other, step, scan,
  close, deserialize,
}

-- One character, or an increasing range that ends in an ASCII character, with its size.
abbrev pub IsSound : Range → Type 0
IsSound r =
    ((r.start ≡ r.end) × (r.size ≡ 1))
    ⊎ ((r.start < r.end) × (r.end < 128) × (r.size ≡ r.end - r.start + 1))

abbrev pub sum : List Range → ℕ
sum [] = 0
sum (r ∷ rest) = r.size + sum rest

abbrev pub IsWellFormed : CharSet → Type 0
IsWellFormed set = All IsSound set.ranges × (set.total ≡ sum set.ranges)

pub sum-append : (l m : List Range) → sum (l ++ m) ≡ sum l + sum m
sum-append [] m = omega arith
sum-append (r ∷ l) m = omega (arith, sum-append l m)

All-append : (l : List Range) (r : Range) → All IsSound l → IsSound r → All IsSound (l ++ r ∷ [])
All-append [] r h k = (k, tt)
All-append (x ∷ l) r h k = (h.0, All-append l r h.1 k)

-- what the parser has found so far
abbrev IsFound : List Range → ℕ → Type 0
IsFound res len = All IsSound res × (len ≡ sum res)

abbrev Found : Scan → Type 0
Found s = IsFound s.res s.len

push-IsFound :
    (r : Range) (res : List Range) (len : ℕ)
    → IsSound r
    → IsFound res len
    → IsFound (res ++ r ∷ []) (len + r.size)
push-IsFound r res len sound found =
    (All-append res r found.0 sound, omega (arith, sum-append res (r ∷ []), found.1))

push_range-Found :
    (start end : Char) (res : List Range) (len : ℕ) (s : Scan)
    → IsFound res len
    → push_range start end res len ≡ ok s
    → Found s
unfolding push_range
push_range-Found start end res len s found h = elim (Bool-cases (ltb end 128)) [
  | inr large ↦ absurd (ground arith)
  | inl ascii ↦ elim (Bool-cases (leb end start)) [
    | inl reversed ↦ absurd (ground arith)
    | inr increasing ↦
        let r : Range = record { start = start; end = end; size = end - start + 1 } in
        let same : fresh (res ++ r ∷ []) (len + (end - start + 1)) ≡ s = ground arith in
        subst Found same (push-IsFound r res len (inr (ground arith, ground arith, refl)) found)
  ]
]

push_char-Found :
    (c : Char) (res : List Range) (len : ℕ) → IsFound res len → Found (push_char c res len)
push_char-Found c res len found =
    push-IsFound (record { start = c; end = c; size = 1 }) res len (inl (refl, refl)) found

on_comma-Found :
    (a b : Option Char) (in_range : Bool) (res : List Range) (len : ℕ) (s : Scan)
    → IsFound res len
    → on_comma a b in_range res len ≡ ok s
    → Found s
unfolding on_comma
on_comma-Found (some start) (some end) in_range res len s found h =
    push_range-Found start end res len s found h
on_comma-Found (some start) none false res len s found h =
    subst Found (ok-injective _ _ h) (push_char-Found start res len found)
on_comma-Found (some start) none true res len s found h = subst Found (ok-injective _ _ h) found
on_comma-Found none none false res len s found h = subst Found (ok-injective _ _ h) found
on_comma-Found none (some c) in_range res len s found h = absurd (ground arith)
on_comma-Found none none true res len s found h = absurd (ground arith)

on_dash-Found :
    (a b : Option Char) (in_range : Bool) (res : List Range) (len : ℕ) (s : Scan)
    → IsFound res len
    → on_dash a b in_range res len ≡ ok s
    → Found s
unfolding on_dash
on_dash-Found none b in_range res len s found h = subst Found (ok-injective _ _ h) found
on_dash-Found (some start) b false res len s found h = subst Found (ok-injective _ _ h) found
on_dash-Found (some start) none true res len s found h = subst Found (ok-injective _ _ h) found
on_dash-Found (some start) (some c) true res len s found h = absurd (ground arith)

on_other-Found :
    (c : Char) (a b : Option Char) (in_range : Bool) (res : List Range) (len : ℕ) (s : Scan)
    → IsFound res len
    → on_other c a b in_range res len ≡ ok s
    → Found s
unfolding on_other
on_other-Found c none b in_range res len s found h = subst Found (ok-injective _ _ h) found
on_other-Found c (some start) none true res len s found h = subst Found (ok-injective _ _ h) found
on_other-Found c (some start) none false res len s found h = absurd (ground arith)
on_other-Found c (some start) (some e) in_range res len s found h = absurd (ground arith)

step-Found : (c : Char) (s s' : Scan) → Found s → step c s ≡ ok s' → Found s'
unfolding step
step-Found c s s' found h = elim (Bool-cases (c == 44)) [
  | inl is_comma ↦ on_comma-Found s.a s.b s.in_range s.res s.len s' found (rw (is_comma, step) at h)
  | inr other ↦ elim (Bool-cases (c == 45)) [
    | inl is_dash ↦
        on_dash-Found s.a s.b s.in_range s.res s.len s' found (rw (other, is_dash, step) at h)
    | inr letter ↦
        on_other-Found c s.a s.b s.in_range s.res s.len s' found (rw (other, letter, step) at h)
  ]
]

scan-Found : (text : List Char) (s s' : Scan) → Found s → scan text s ≡ ok s' → Found s'
unfolding scan
scan-Found [] s s' found h = subst Found (ok-injective _ _ h) found
scan-Found (c ∷ rest) s s' found h =
    let (mid, h₁, h₂) = >>=-eq-ok (step c s) _ h in
    scan-Found rest mid s' (step-Found c s mid found h₁) h₂

close-Found :
    (a b : Option Char) (res : List Range) (len : ℕ) (s : Scan)
    → IsFound res len
    → close a b res len ≡ ok s
    → Found s
unfolding close
close-Found (some start) (some end) res len s found h = push_range-Found start end res len s found h
close-Found (some c) none res len s found h =
    subst Found (ok-injective _ _ h) (push_char-Found c res len found)
close-Found none b res len s found h = subst Found (ok-injective _ _ h) found

-- What the parser accepts consists of single characters and of increasing ranges that end in ASCII,
-- each with the number of its characters, and the total is the sum of these.
pub deserialize-IsWellFormed :
    (text : List Char) (set : CharSet) → deserialize text ≡ ok set → IsWellFormed set
unfolding deserialize
deserialize-IsWellFormed text set h =
    let (s, h₁, h₂) = >>=-eq-ok (scan text (fresh [] 0)) _ h in
    let (last, h₃, h₄) = >>=-eq-ok (close s.a s.b s.res s.len) _ h₂ in
    subst IsWellFormed (ok-injective _ _ h₄)
      (close-Found s.a s.b s.res s.len last (scan-Found text _ s (tt, refl) h₁) h₃)
