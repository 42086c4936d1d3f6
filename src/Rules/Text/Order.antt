-- ===== src/Rules/Text/Order.antt =====
-- The order of strings in a rule: the closures of `compile_str_cmp_expr` of
-- system-images/compat/src/config/rules.rs.
use start_os.Common.{
  ◌≡◌, refl, ap, ◌∙◌, inl, inr, ◌≤◌, true, ◌&&◌, some, [], ◌∷◌, arith, length, ltb, not, Bool-cases,
}
use start_os.S9pk.Bytes.{Bytes, bytes_beq, bytes_beq_iff}
use start_os.Rules.Syntax.{lt, lte, eq, neq, gt, gte}
use start_os.Rules.Text.{starts_with, contains, str_cmp}

starts_with-le : (s t : Bytes) → starts_with s t ≡ true → length t ≤ length s
unfolding starts_with
starts_with-le s [] h = omega arith
starts_with-le [] (b ∷ t) h = absurd (ground arith)
starts_with-le (a ∷ s) (b ∷ t) h = ground (arith, starts_with-le s t)

contains-le : (s t : Bytes) → contains s t ≡ true → length t ≤ length s
unfolding contains
contains-le [] t h = starts_with-le [] t h
contains-le (a ∷ s) t h = ground (arith, starts_with-le (a ∷ s) t, contains-le s t)

starts_with_all : (s t : Bytes) → starts_with s t ≡ true → length t ≡ length s → t ≡ s
unfolding starts_with
starts_with_all [] [] h e = refl
starts_with_all (a ∷ s) [] h e = absurd (omega arith)
starts_with_all [] (b ∷ t) h e = absurd (ground arith)
starts_with_all (a ∷ s) (b ∷ t) h e = ground (arith, starts_with_all s t)

contains_all : (s t : Bytes) → contains s t ≡ true → length t ≡ length s → t ≡ s
unfolding contains
contains_all [] t h e = starts_with_all [] t h e
contains_all (a ∷ s) t h e = ground (arith, starts_with_all (a ∷ s) t, contains-le s t)

contained_lt :
    (l r : Bytes)
    → (contains r l && ltb (length l) (length r)) ≡ (contains r l && not (bytes_beq l r))
contained_lt l r = elim (Bool-cases (contains r l)) [
  | inr away ↦ rw away refl
  | inl inside ↦ ground (arith, bytes_beq_iff l r, contains_all r l inside, contains-le r l inside)
]

pub bytes_beq_comm : (l r : Bytes) → bytes_beq l r ≡ bytes_beq r l
bytes_beq_comm l r = ground (arith, bytes_beq_iff l r, bytes_beq_iff r l)

contained_gt :
    (l r : Bytes)
    → (contains l r && ltb (length r) (length l)) ≡ (contains l r && not (bytes_beq l r))
contained_gt l r = contained_lt r l ∙ ap (λ b. contains l r && not b) (bytes_beq_comm r l)

starts_with_refl : (s : Bytes) → starts_with s s ≡ true
unfolding starts_with
starts_with_refl [] = refl
starts_with_refl (a ∷ s) = ground (arith, starts_with_refl s)

contains_refl : (s : Bytes) → contains s s ≡ true
unfolding contains
contains_refl [] = starts_with_refl []
contains_refl (a ∷ s) = rw (starts_with_refl (a ∷ s)) refl

contained_eq : (l r : Bytes) → (contains r l && contains l r) ≡ bytes_beq l r
contained_eq l r = elim (Bool-cases (bytes_beq l r)) [
  | inl same ↦
      let e : l ≡ r = ground (arith, bytes_beq_iff l r, same) in rw (same, e, contains_refl r) refl
  | inr other ↦ elim (Bool-cases (contains r l)) [
    | inr away ↦ rw (away, other) refl
    | inl inside ↦ ground (
      arith,
      other,
      inside,
      bytes_beq_iff l r,
      contains_all r l inside,
      contains-le r l inside,
      contains-le l r,
    )
  ]
]

-- Strings are ordered by whether one contains the other: each is at most the other exactly where they
-- are equal, one is strictly less where it is at most the other and not equal to it, and strictly
-- greater likewise.
pub str_cmp_order :
    (l r : Bytes)
    → ((str_cmp lte (some l) (some r) && str_cmp lte (some r) (some l))
        ≡ str_cmp eq (some l) (some r))
      × (str_cmp lt (some l) (some r)
          ≡ (str_cmp lte (some l) (some r) && str_cmp neq (some l) (some r)))
      × (str_cmp gt (some l) (some r)
          ≡ (str_cmp gte (some l) (some r) && str_cmp neq (some l) (some r)))
unfolding str_cmp
str_cmp_order l r = (contained_eq l r, contained_lt l r, contained_gt l r)
