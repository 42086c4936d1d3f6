-- ===== src/S9pk/Samples.antt =====
-- A package on which the theorems about the s9pk format are run, with a simple signature scheme.
use start_os.Common.{
  ℕ, zero, suc, ◌≡◌, refl, ap, Bool, true, false, Option, none, some, [], ◌∷◌, ◌++◌, arith,
  if◌then◌else◌, length, replicate, ok,
}
use start_os.S9pk.Bytes.{Bytes}
use start_os.S9pk.Crypto.{Ed25519}
use start_os.S9pk.Header.{Header, serialize, deserialize}
use start_os.S9pk.Header.Size.{length-serialize}
use start_os.S9pk.Header.RoundTrip.{with_scripts, deserialize-serialize}
use start_os.S9pk.Pack.{File, new_file, seek, Sections, pack}
use start_os.S9pk.Pack.Layout.{layout, signed_header}
use start_os.S9pk.Reader.{S9pkReader, from_reader, read_section, read_scripts}
use start_os.S9pk.Reader.Places.{Section, section_of}
use start_os.S9pk.Reader.Sections.{
  IsOpen, read_section-IsOpen, read_scripts-IsOpen, from_reader-pack,
}

-- Keys and signatures are one bit; a signature is the parity of what was signed.
abbrev bit_bytes : ℕ → Bool → Bytes
bit_bytes n true = replicate n 1
bit_bytes n false = replicate n 0

abbrev bit_of : Bytes → Option Bool
bit_of [] = none
bit_of (zero ∷ _) = some false
bit_of (suc _ ∷ _) = some true

abbrev parity : Bytes → Bool
parity [] = false
parity (b ∷ bs) = if parity bs then false else true

abbrev same_bit : Bool → Bool → Bool
same_bit true b = b
same_bit false true = false
same_bit false false = true

same_bit_refl : (b : Bool) → same_bit b b ≡ true
same_bit_refl true = refl
same_bit_refl false = refl

length-bit_bytes : (n : ℕ) (b : Bool) → length (bit_bytes n b) ≡ n
length-bit_bytes zero true = refl
length-bit_bytes zero false = refl
length-bit_bytes (suc n) true = ap suc (length-bit_bytes n true)
length-bit_bytes (suc n) false = ap suc (length-bit_bytes n false)

bit_of-bit_bytes : (n : ℕ) (b : Bool) → bit_of (bit_bytes (suc n) b) ≡ some b
bit_of-bit_bytes n true = refl
bit_of-bit_bytes n false = refl

abbrev ed : Ed25519
ed = record {
  PublicKey = Bool;
  Signature = Bool;
  Keypair = Bool;
  Digest = Bool;
  pubkey_bytes = bit_bytes 32;
  pubkey_from_bytes = bit_of;
  default_pubkey = false;
  signature_bytes = bit_bytes 64;
  signature_from_bytes = bit_of;
  sha512 = parity;
  public = λ k. k;
  sign_prehashed = λ k d c. d;
  verify_prehashed = λ k d c s. same_bit d s;
  zero_signature = false;
  length-pubkey_bytes = length-bit_bytes 32;
  pubkey_from_bytes-pubkey_bytes = bit_of-bit_bytes 31;
  length-signature_bytes = length-bit_bytes 64;
  signature_from_bytes-signature_bytes = bit_of-bit_bytes 63;
  signature_from_bytes-zeros = refl;
  verify_prehashed-sign_prehashed = λ k d c. same_bit_refl d;
}

-- a package without scripts
abbrev sections : Sections
sections = record {
  manifest = 160 ∷ [];
  license = 77 ∷ 73 ∷ 84 ∷ [];
  instructions = 35 ∷ 32 ∷ 104 ∷ 105 ∷ [];
  icon = 137 ∷ 80 ∷ [];
  docker_images = 0 ∷ 0 ∷ 0 ∷ 1 ∷ [];
  assets = 7 ∷ [];
  scripts = none;
}

abbrev key : Bool
key = true

abbrev header : Header ed
header = signed_header ed sections key

length-serialize_example : length (serialize ed header) ≡ 279
length-serialize_example = length-serialize ed header

deserialize-serialize_example :
    deserialize ed (serialize ed header ++ 1 ∷ 2 ∷ [])
    ≡ ok (record header { table_of_contents = with_scripts (layout 279 sections) }, 1 ∷ 2 ∷ [])
deserialize-serialize_example = deserialize-serialize ed header (1 ∷ 2 ∷ []) (omega arith)

from_reader-pack_example :
    (w : File) × (r : S9pkReader ed) × (pack ed sections key new_file ≡ ok w)
    × (from_reader ed (seek w 0) true ≡ ok r)
    × IsOpen ed sections r
from_reader-pack_example = from_reader-pack ed sections key true (omega arith)

opened : S9pkReader ed
opened = from_reader-pack_example.1

opened-IsOpen : IsOpen ed sections opened
unfolding opened
opened-IsOpen = from_reader-pack_example.4

read_section-IsOpen_example :
    (r' : S9pkReader ed) × (read_section ed opened (section_of Section.icon opened.toc)
      ≡ ok (137 ∷ 80 ∷ [], r'))
    × IsOpen ed sections r'
read_section-IsOpen_example = read_section-IsOpen ed sections opened Section.icon opened-IsOpen

-- The package has no scripts, and its reader yields an empty one.
read_scripts-IsOpen_example :
    (r' : S9pkReader ed) × (read_scripts ed opened ≡ ok (some [], r')) × IsOpen ed sections r'
read_scripts-IsOpen_example = read_scripts-IsOpen ed sections opened opened-IsOpen
