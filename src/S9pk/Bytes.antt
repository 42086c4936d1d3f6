-- ===== src/S9pk/Bytes.antt =====
-- What backend/src/s9pk/header.rs uses of the standard library: big-endian integers, byte strings
-- as map keys, and an `AsyncRead` as the bytes that are still to come. A byte is a number.
use Prim.Native.Char.{code}
use Prim.Native.String.{String}
use start_os.Common.{
  ℕ, zero, suc, ◌+◌, ◌*◌, ◌/◌, ◌%◌, ◌^◌, ◌<◌, ◌≡◌, refl, ◌↔◌, Bool, true, false, ◌&&◌, List, [],
  ◌∷◌, ◌++◌, arith, ltb, leb, ◌==◌, if◌then◌else◌, length, take, drop, length-append, take-append,
  drop-append, Result, ok, err,
}
use native.Mathlib.Nat.{pow-suc}
use start_os.Common.Map.{Key}

abbrev pub Bytes : Type 0
Bytes = List ℕ

-- the bytes of an ASCII text
abbrev pub codes : String → Bytes
codes String.[] = []
codes (String.◌∷◌ c s) = code c ∷ codes s

-- `Vec<u8>` as a key of a `BTreeMap`: equality and the lexicographic order
abbrev pub bytes_beq : Bytes → Bytes → Bool
bytes_beq [] [] = true
bytes_beq (a ∷ as') (b ∷ bs) = a == b && bytes_beq as' bs
bytes_beq _ _ = false

abbrev pub bytes_less : Bytes → Bytes → Bool
bytes_less [] [] = false
bytes_less [] (b ∷ bs) = true
bytes_less (a ∷ as') [] = false
bytes_less (a ∷ as') (b ∷ bs) = if a == b then bytes_less as' bs else ltb a b

pub bytes_beq_iff : (a b : Bytes) → (bytes_beq a b ≡ true) ↔ (a ≡ b)
bytes_beq_iff [] [] = (λ _. refl, λ _. refl)
bytes_beq_iff [] (b ∷ bs) = ground arith
bytes_beq_iff (a ∷ as') [] = ground arith
bytes_beq_iff (a ∷ as') (b ∷ bs) = ground (arith, bytes_beq_iff as' bs)

instance abbrev pub bytes_key : Key Bytes
bytes_key = record { beq = bytes_beq; less = bytes_less; beq_iff = bytes_beq_iff }

-- `uN::to_be_bytes` for a width of `w` bytes
unfoldable pub to_be_bytes : ℕ → ℕ → Bytes
to_be_bytes zero n = []
to_be_bytes (suc w) n = to_be_bytes w (n / 256) ++ (n % 256) ∷ []

unfoldable pub be_from : ℕ → Bytes → ℕ
be_from acc [] = acc
be_from acc (b ∷ bs) = be_from (acc * 256 + b) bs

-- `uN::from_be_bytes`
unfoldable pub from_be_bytes : Bytes → ℕ
unfolding be_from
from_be_bytes bs = be_from 0 bs

be_from-append :
    (acc : ℕ) (xs : Bytes) (b : ℕ) → be_from acc (xs ++ b ∷ []) ≡ be_from acc xs * 256 + b
unfolding be_from
be_from-append acc [] b = refl
be_from-append acc (x ∷ xs) b = be_from-append (acc * 256 + x) xs b

-- A number that fits the width is read back from its bytes.
pub from_be_bytes-to_be_bytes : (w n : ℕ) → n < 256 ^ w → from_be_bytes (to_be_bytes w n) ≡ n
unfolding from_be_bytes to_be_bytes
from_be_bytes-to_be_bytes zero n h = omega arith
from_be_bytes-to_be_bytes (suc w) n h =
    let fits : n / 256 < 256 ^ w = omega (arith, pow-suc 256 w) in
    omega (
      arith,
      be_from-append 0 (to_be_bytes w (n / 256)) (n % 256),
      from_be_bytes-to_be_bytes w (n / 256) fits,
    )

pub length-to_be_bytes : (w n : ℕ) → length (to_be_bytes w n) ≡ w
unfolding to_be_bytes
length-to_be_bytes zero n = refl
length-to_be_bytes (suc w) n = omega (
  arith,
  length-append (to_be_bytes w (n / 256)) ((n % 256) ∷ []),
  length-to_be_bytes w (n / 256),
)

-- why the header cannot be read
pub data Error : Type 0 where
  incorrect_magic unknown_version invalid_pubkey unexpected_eof missing_label : Error
  invalid_signature : Error
  -- `expect("Invalid ed25519 signature")`
  panicked : Error
  -- not an outcome of the program: the bound on a loop was too small
  out_of_fuel : Error

-- `AsyncReadExt::read_exact` into a buffer of `n` bytes: what was read, and what is left
unfoldable pub read_exact : ℕ → Bytes → Result Error (Bytes × Bytes)
read_exact n r = if leb n (length r) then ok (take n r, drop n r) else err unexpected_eof

pub read_exact-append :
    (n : ℕ) (xs rest : Bytes) → length xs ≡ n → read_exact n (xs ++ rest) ≡ ok (xs, rest)
unfolding read_exact
read_exact-append n xs rest h =
    ground (arith, length-append xs rest, take-append n xs rest h, drop-append n xs rest h)
