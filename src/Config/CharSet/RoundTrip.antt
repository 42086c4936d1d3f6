-- ===== src/Config/CharSet/RoundTrip.antt =====
-- The printer of `CharSet` (backend/src/config/util.rs) against its parser. The characters ',' and '-'
-- are printed as they are, and are read back by their place.
use start_os.Common.{
  ℕ, ◌+◌, ◌-◌, ◌<◌, ◌≡◌, refl, sym, ap, ◌∙◌, inl, inr, true, false, none, some, List, [], ◌∷◌, ◌++◌,
  append_assoc, ==_iff, All, arith, ok, ◌>>=◌, >>=_assoc,
}
use mathlib.Core.Path.{subst}
use start_os.Config.CharSet.{
  Char, Range, CharSet, Scan, fresh, push_range, on_comma, on_dash, on_other, step, scan, close,
  deserialize, text_of, join, serialize,
}
use start_os.Config.CharSet.Sizes.{IsSound, sum, IsWellFormed}

-- a range that has begun with `start`, before and after its '-', and with its end
abbrev begun : Char → List Range → ℕ → Scan
begun start res len = record { res = res; len = len; a = some start; b = none; in_range = false }

abbrev dashed : Char → List Range → ℕ → Scan
dashed start res len = record { res = res; len = len; a = some start; b = none; in_range = true }

abbrev ended : Char → Char → List Range → ℕ → Scan
ended start end res len = record {
  res = res;
  len = len;
  a = some start;
  b = some end;
  in_range = true;
}

module _ (res : List Range) (len : ℕ) where
  step-fresh : (c : Char) → step c (fresh res len) ≡ ok (begun c res len)
  unfolding step on_comma on_dash on_other
  step-fresh c = ground (arith, ==_iff c 44, ==_iff c 45)

  step-begun : (c : Char) → step 45 (begun c res len) ≡ ok (dashed c res len)
  unfolding step on_dash
  step-begun c = refl

  step-dashed : (c d : Char) → step d (dashed c res len) ≡ ok (ended c d res len)
  unfolding step on_comma on_dash on_other
  step-dashed c d = ground (arith, ==_iff d 44, ==_iff d 45)

  push_range-ok :
      (start end : Char)
      → start < end
      → end < 128
      → push_range start end res len
        ≡ ok (
            fresh
              (res ++ record { start = start; end = end; size = end - start + 1 } ∷ [])
              (len + (end - start + 1)))
  unfolding push_range
  push_range-ok start end h h' = ground arith

  -- the ranges and their sizes, with one range more
  abbrev pushed : Range → Scan
  pushed r = fresh (res ++ r ∷ []) (len + r.size)

  -- A printed range is read back, at the end of the text and before a ','.
  abbrev IsRead : Range → Type 0
  IsRead r =
      ((s : Scan) × (scan (text_of r) (fresh res len) ≡ ok s)
        × (close s.a s.b s.res s.len ≡ ok (pushed r)))
      × ((rest : List Char) → scan (text_of r ++ 44 ∷ rest) (fresh res len) ≡ scan rest (pushed r))

  single-IsRead : (c : Char) → IsRead (record { start = c; end = c; size = 1 })
  unfolding scan close step on_comma
  single-IsRead c = ((begun c res len, rw (step-fresh c), refl), λ rest. rw (step-fresh c))

  range-IsRead :
      (start end : Char)
      → start < end
      → end < 128
      → IsRead (record { start = start; end = end; size = end - start + 1 })
  unfolding scan close step on_comma
  range-IsRead start end h h' =
      let r : Range = record { start = start; end = end; size = end - start + 1 } in
      let text : text_of r ≡ start ∷ 45 ∷ end ∷ [] = ground arith in
      (
        (
          ended start end res len,
          ap (λ l. scan l (fresh res len)) text
              ∙ rw (step-fresh start, step-begun start, step-dashed start end),
          push_range-ok start end h h',
        ),
        λ rest.
            ap (λ l. scan (l ++ 44 ∷ rest) (fresh res len)) text
            ∙ rw (
              step-fresh start,
              step-begun start,
              step-dashed start end,
              push_range-ok start end h h',
            ),
      )

  text_of-IsRead : (r : Range) → IsSound r → IsRead r
  text_of-IsRead r (inl (same, size)) =
      let shape : record { start = r.start; end = r.start; size = 1 } ≡ r = cc in
      subst IsRead shape (single-IsRead r.start)
  text_of-IsRead r (inr (h, h', size)) =
      let shape : record { start = r.start; end = r.end; size = r.end - r.start + 1 } ≡ r = cc in
      subst IsRead shape (range-IsRead r.start r.end h h')

-- The rest of the ranges is read behind what was read before.
join-read :
    (l : List Range) (r : Range) (res : List Range) (len : ℕ)
    → All IsSound (r ∷ l)
    → (scan (join (r ∷ l)) (fresh res len) >>= λ s. close s.a s.b s.res s.len)
      ≡ ok (fresh (res ++ r ∷ l) (len + sum (r ∷ l)))
unfolding join
join-read [] r res len sound =
    let ((s, h₁, h₂), _) = text_of-IsRead res len r sound.0 in
    ap (λ x. x >>= λ s. close s.a s.b s.res s.len) h₁
    ∙ h₂
    ∙ ap (λ n. ok (fresh (res ++ r ∷ []) n)) (omega arith)
join-read (q ∷ l) r res len sound =
    let (_, before) = text_of-IsRead res len r sound.0 in
    ap (λ x. x >>= λ s. close s.a s.b s.res s.len) (before (join (q ∷ l)))
    ∙ join-read l q (res ++ r ∷ []) (len + r.size) sound.1
    ∙ ap (λ m. ok (fresh m (len + r.size + sum (q ∷ l)))) (append_assoc res (r ∷ []) (q ∷ l))
    ∙ ap (λ n. ok (fresh (res ++ r ∷ q ∷ l) n)) (omega arith)

deserialize-join :
    (l : List Range) (n : ℕ)
    → All IsSound l
    → n ≡ sum l
    → deserialize (join l) ≡ ok (record { ranges = l; total = n })
unfolding deserialize join scan close
deserialize-join [] n sound total = ap (λ m. ok (record { ranges = []; total = m })) (sym total)
deserialize-join (r ∷ l) n sound total =
    sym (
      >>=_assoc (scan (join (r ∷ l)) (fresh [] 0)) (λ s. close s.a s.b s.res s.len)
        (λ last. ok (record { ranges = last.res; total = last.len })))
    ∙ ap (λ x. x >>= λ last. ok (record { ranges = last.res; total = last.len }))
        (join-read l r [] 0 sound)
    ∙ ap (λ m. ok (record { ranges = r ∷ l; total = m })) (omega (arith, total))

-- A well-formed set that is printed is read back as it was.
pub deserialize-serialize_set :
    (set : CharSet) → IsWellFormed set → deserialize (serialize set) ≡ ok set
unfolding serialize
deserialize-serialize_set set h = deserialize-join set.ranges set.total h.0 h.1
