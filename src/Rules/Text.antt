-- ===== src/Rules/Text.antt =====
-- The strings of a rule: `compile_str` and the comparisons of `compile_str_cmp_expr` of
-- system-images/compat/src/config/rules.rs.
pub mod Escapes
pub mod Order
use start_os.Common.{
  Bool, true, false, ◌&&◌, ◌||◌, not, Option, none, some, List, [], ◌∷◌, ◌++◌, if◌then◌else◌,
  length, ltb,
}
use start_os.S9pk.Bytes.{Bytes, bytes_beq}
use start_os.Rules.Syntax.{CmpOp, lt, lte, eq, neq, gt, gte}

-- `&str_str[1..str_str.len() - 1]`: without the quotes
abbrev pub but_last : List Bytes → List Bytes
but_last [] = []
but_last (c ∷ []) = []
but_last (c ∷ d ∷ rest) = c ∷ but_last (d ∷ rest)

abbrev pub unquoted : List Bytes → List Bytes
unquoted [] = []
unquoted (c ∷ rest) = but_last rest

abbrev pub is_backslash : Bytes → Bool
is_backslash c = bytes_beq c (92 ∷ [])

-- what a character stands for after a backslash
abbrev pub predefined : Bytes → Option Bytes
predefined c =
    if bytes_beq c (110 ∷ [])
    then some (10 ∷ [])
    else if bytes_beq c (114 ∷ [])
    then some (13 ∷ [])
    else if bytes_beq c (116 ∷ [])
    then some (9 ∷ [])
    else if bytes_beq c (48 ∷ [])
    then some (0 ∷ [])
    else if bytes_beq c (34 ∷ [])
    then some (34 ∷ [])
    else if bytes_beq c (39 ∷ [])
    then some (39 ∷ [])
    else none

-- the loop over the characters, with `escape` and `out`
unfoldable pub unescape : List Bytes → Bool → Bytes → Bytes
unescape [] escape out = out
unescape (c ∷ rest) false out =
    let escaped = unescape rest true out in
    let plain = unescape rest false (out ++ c) in if is_backslash c then escaped else plain
unescape (c ∷ rest) true out =
    let backslash = unescape rest true (out ++ 92 ∷ []) in
    let replaced = λ (d : Bytes). unescape rest true (out ++ d) in
    let kept = unescape rest true (out ++ 92 ∷ [] ++ c) in
    if is_backslash c then backslash else elim (predefined c) [ some d ↦ replaced d | none ↦ kept ]

unfoldable pub compile_str : List Bytes → Bytes
unfolding unescape
compile_str str_str = unescape (unquoted str_str) false []

-- `str::starts_with` and `str::contains`
unfoldable pub starts_with : Bytes → Bytes → Bool
starts_with s [] = true
starts_with [] (b ∷ t) = false
starts_with (a ∷ s) (b ∷ t) = bytes_beq (a ∷ []) (b ∷ []) && starts_with s t

unfoldable pub contains : Bytes → Bytes → Bool
unfolding starts_with
contains [] t = starts_with [] t
contains (a ∷ s) t = starts_with (a ∷ s) t || contains s t

-- The closures of the comparisons: a string is less than one that contains it.
unfoldable pub str_cmp : CmpOp → Option Bytes → Option Bytes → Bool
str_cmp lt (some l) (some r) = contains r l && ltb (length l) (length r)
str_cmp lt _ _ = false
str_cmp lte (some l) (some r) = contains r l
str_cmp lte _ _ = false
str_cmp eq (some l) (some r) = bytes_beq l r
str_cmp eq none none = true
str_cmp eq _ _ = false
str_cmp neq (some l) (some r) = not (bytes_beq l r)
str_cmp neq none none = false
str_cmp neq _ _ = true
str_cmp gt (some l) (some r) = contains l r && ltb (length r) (length l)
str_cmp gt _ _ = true
str_cmp gte (some l) (some r) = contains l r
str_cmp gte _ _ = true
