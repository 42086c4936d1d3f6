-- ===== src/Config/CharSet.antt =====
-- `CharSet` of backend/src/config/util.rs: ranges of characters, each with its size, and the sum of
-- the sizes; its parser and its printer. A character is its number.
pub mod Sizes
pub mod RoundTrip
pub mod Gen
pub mod Samples
use start_os.Common.{
  ℕ, ◌+◌, ◌-◌, Bool, true, false, Option, none, some, List, [], ◌∷◌, ◌++◌, ◌&&◌, if◌then◌else◌,
  ◌==◌, ltb, leb, any, Result, ok, err, ◌>>=◌,
}

abbrev pub Char : Type 0
Char = ℕ

-- ',' and '-'
abbrev pub comma : Char
comma = 44

abbrev pub dash : Char
dash = 45

-- `RangeInclusive<char>` with the number of its characters
pub record Range : Type 0 where
  pub start : Char
  pub end : Char
  pub size : ℕ

pub record CharSet : Type 0 where
  pub ranges : List Range
  pub total : ℕ

pub data Error : Type 0 where
  invalid_character invalid_bounds syntax_error : Error

unfoldable pub contains : CharSet → Char → Bool
contains set c = any (λ r. leb r.start c && leb c r.end) set.ranges

-- The variables of the parser: what it has found, and the range that it is in.
pub record Scan : Type 0 where
  pub res : List Range
  pub len : ℕ
  pub a : Option Char
  pub b : Option Char
  pub in_range : Bool

-- the same without a range that has begun
abbrev pub fresh : List Range → ℕ → Scan
fresh res len = record { res = res; len = len; a = none; b = none; in_range = false }

-- `res.push((start..=end, l)); len += l` behind its two checks
unfoldable pub push_range : Char → Char → List Range → ℕ → Result Error Scan
push_range start end res len =
    if ltb end 128
    then (if leb end start
        then err invalid_bounds
        else let l = end - start + 1 in
          ok (fresh (res ++ record { start = start; end = end; size = l } ∷ []) (len + l)))
    else err invalid_character

-- `len += 1; res.push((start..=start, 1))`
abbrev pub push_char : Char → List Range → ℕ → Scan
push_char c res len = fresh (res ++ record { start = c; end = c; size = 1 } ∷ []) (len + 1)

unfoldable pub on_comma : Option Char → Option Char → Bool → List Range → ℕ → Result Error Scan
on_comma (some start) (some end) _ res len = push_range start end res len
on_comma (some start) none false res len = ok (push_char start res len)
on_comma (some start) none true res len =
    ok (record { res = res; len = len; a = some start; b = some comma; in_range = true })
on_comma none none false res len =
    ok (record { res = res; len = len; a = some comma; b = none; in_range = false })
on_comma none (some _) _ res len = err syntax_error
on_comma none none true res len = err syntax_error

unfoldable pub on_dash : Option Char → Option Char → Bool → List Range → ℕ → Result Error Scan
on_dash none b in_range res len =
    ok (record { res = res; len = len; a = some dash; b = b; in_range = in_range })
on_dash (some start) b false res len =
    ok (record { res = res; len = len; a = some start; b = b; in_range = true })
on_dash (some start) none true res len =
    ok (record { res = res; len = len; a = some start; b = some dash; in_range = true })
on_dash (some start) (some _) true res len = err syntax_error

unfoldable pub on_other :
    Char → Option Char → Option Char → Bool → List Range → ℕ → Result Error Scan
on_other c none b in_range res len =
    ok (record { res = res; len = len; a = some c; b = b; in_range = in_range })
on_other c (some start) none true res len =
    ok (record { res = res; len = len; a = some start; b = some c; in_range = true })
on_other c (some start) (some _) true res len = err syntax_error
on_other c (some start) _ false res len = err syntax_error

unfoldable pub step : Char → Scan → Result Error Scan
step c s =
    if c == comma
    then on_comma s.a s.b s.in_range s.res s.len
    else if c == dash
    then on_dash s.a s.b s.in_range s.res s.len
    else on_other c s.a s.b s.in_range s.res s.len

unfoldable pub scan : List Char → Scan → Result Error Scan
scan [] s = ok s
scan (c ∷ rest) s = step c s >>= λ s'. scan rest s'

-- what is left at the end of the text
unfoldable pub close : Option Char → Option Char → List Range → ℕ → Result Error Scan
close (some start) (some end) res len = push_range start end res len
close (some c) none res len = ok (push_char c res len)
close none _ res len = ok (fresh res len)

unfoldable pub deserialize : List Char → Result Error CharSet
deserialize text = do
  s ← scan text (fresh [] 0)
  last ← close s.a s.b s.res s.len
  ok (record { ranges = last.res; total = last.len })

abbrev pub text_of : Range → List Char
text_of r = if r.size == 1 then r.start ∷ [] else r.start ∷ dash ∷ r.end ∷ []

-- `join(",")`
unfoldable pub join : List Range → List Char
join [] = []
join (r ∷ []) = text_of r
join (r ∷ s ∷ rest) = text_of r ++ comma ∷ join (s ∷ rest)

unfoldable pub serialize : CharSet → List Char
serialize set = join set.ranges
