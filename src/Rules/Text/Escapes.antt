-- ===== src/Rules/Text/Escapes.antt =====
-- What a literal of a rule stands for: `compile_str` of system-images/compat/src/config/rules.rs.
use start_os.Common.{
  ◌≡◌, refl, sym, ap, ◌∙◌, inl, inr, Bool, true, false, ◌&&◌, not, some, none, List, [], ◌∷◌, ◌++◌,
  if◌then◌else◌, arith, append_assoc, append-nil, Bool-cases, Option-cases,
}
use start_os.S9pk.Bytes.{Bytes}
use start_os.Rules.Text.{but_last, is_backslash, predefined, unescape, compile_str}

-- the bytes of characters that stand for themselves
abbrev pub flatten : List Bytes → Bytes
flatten [] = []
flatten (c ∷ rest) = c ++ flatten rest

-- a character once a backslash has been read
abbrev pub after_escape : Bytes → Bytes
after_escape c =
    if is_backslash c then 92 ∷ [] else elim (predefined c) [ some d ↦ d | none ↦ 92 ∷ c ]

abbrev pub translated : List Bytes → Bytes
translated [] = []
translated (c ∷ rest) = after_escape c ++ translated rest

abbrev pub is_plain : List Bytes → Bool
is_plain [] = true
is_plain (c ∷ rest) = not (is_backslash c) && is_plain rest

-- the quotes around the characters
abbrev pub quoted : List Bytes → List Bytes
quoted l = (34 ∷ []) ∷ (l ++ (34 ∷ []) ∷ [])

but_last-append : (l : List Bytes) (c : Bytes) → but_last (l ++ c ∷ []) ≡ l
but_last-append [] c = refl
but_last-append (d ∷ []) c = refl
but_last-append (d ∷ e ∷ rest) c = ap (λ t. d ∷ t) (but_last-append (e ∷ rest) c)

unescape-translated : (l : List Bytes) (out : Bytes) → unescape l true out ≡ out ++ translated l
unfolding unescape
unescape-translated [] out = sym (append-nil out)
unescape-translated (c ∷ rest) out = elim (Bool-cases (is_backslash c)) [
  | inl slash ↦
      rw slash
        (unescape-translated rest (out ++ 92 ∷ []) ∙ append_assoc out (92 ∷ []) (translated rest))
  | inr other ↦ elim (Option-cases (predefined c)) [
    | inl unknown ↦
        rw (other, unknown)
          (unescape-translated rest ((out ++ 92 ∷ []) ++ c)
            ∙ append_assoc (out ++ 92 ∷ []) c (translated rest)
            ∙ append_assoc out (92 ∷ []) (c ++ translated rest))
    | inr (d, known) ↦
        rw (other, known)
          (unescape-translated rest (out ++ d) ∙ append_assoc out d (translated rest))
  ]
]

unescape_plain :
    (l rest : List Bytes) (out : Bytes)
    → is_plain l ≡ true
    → unescape (l ++ rest) false out ≡ unescape rest false (out ++ flatten l)
unfolding unescape
unescape_plain [] rest out h = ap (unescape rest false) (sym (append-nil out))
unescape_plain (c ∷ l) rest out h = elim (Bool-cases (is_backslash c)) [
  | inl slash ↦ absurd (ground (arith, slash, h))
  | inr other ↦ rw other (
      unescape_plain l rest (out ++ c) (rw other at h)
      ∙ ap (unescape rest false) (append_assoc out c (flatten l)))
]

-- A literal without a backslash stands for the characters between its quotes.
pub compile_str-quoted : (l : List Bytes) → is_plain l ≡ true → compile_str (quoted l) ≡ flatten l
unfolding compile_str
compile_str-quoted l h =
    ap (λ t. unescape t false []) (but_last-append l _)
    ∙ ap (λ t. unescape t false []) (sym (append-nil l))
    ∙ unescape_plain l [] [] h

-- From the first backslash of a literal on, every character is read as if it followed a backslash: one
-- that has a meaning there is replaced, and each other one gets a backslash before it.
pub compile_str_escaped :
    (l rest : List Bytes)
    → is_plain l ≡ true
    → compile_str (quoted (l ++ (92 ∷ []) ∷ rest)) ≡ flatten l ++ translated rest
unfolding compile_str
compile_str_escaped l rest h =
    ap (λ t. unescape t false []) (but_last-append (l ++ (92 ∷ []) ∷ rest) _)
    ∙ unescape_plain l ((92 ∷ []) ∷ rest) [] h
    ∙ unescape-translated rest (flatten l)
