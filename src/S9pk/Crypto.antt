-- ===== src/S9pk/Crypto.antt =====
-- What backend/src/s9pk relies on of the crates `ed25519_dalek` and `sha2`: keys and signatures have
-- a fixed size and are read back from their bytes, the all-zero signature is well formed, and a
-- signature made with a key pair verifies under its public half, in the same context.
use start_os.Common.{◌≡◌, Bool, true, Option, some, length, replicate, [], ◌∷◌}
use start_os.S9pk.Bytes.{Bytes}

-- `SIG_CONTEXT`: "s9pk"
abbrev pub sig_context : Bytes
sig_context = 115 ∷ 57 ∷ 112 ∷ 107 ∷ []

pub record Ed25519 : Type 1 where
  pub PublicKey : Type 0
  pub Signature : Type 0
  pub Keypair : Type 0
  pub Digest : Type 0
  pub pubkey_bytes : PublicKey → Bytes
  pub pubkey_from_bytes : Bytes → Option PublicKey
  pub default_pubkey : PublicKey
  pub signature_bytes : Signature → Bytes
  pub signature_from_bytes : Bytes → Option Signature
  pub sha512 : Bytes → Digest
  pub public : Keypair → PublicKey
  pub sign_prehashed : Keypair → Digest → (context : Bytes) → Signature
  pub verify_prehashed : PublicKey → Digest → (context : Bytes) → Signature → Bool
  pub zero_signature : Signature
  pub length-pubkey_bytes : (k : PublicKey) → length (pubkey_bytes k) ≡ 32
  pub pubkey_from_bytes-pubkey_bytes : (k : PublicKey) → pubkey_from_bytes (pubkey_bytes k) ≡ some k
  pub length-signature_bytes : (s : Signature) → length (signature_bytes s) ≡ 64
  pub signature_from_bytes-signature_bytes :
      (s : Signature) → signature_from_bytes (signature_bytes s) ≡ some s
  pub signature_from_bytes-zeros : signature_from_bytes (replicate 64 0) ≡ some zero_signature
  pub verify_prehashed-sign_prehashed :
      (k : Keypair) (d : Digest) (context : Bytes)
      → verify_prehashed (public k) d context (sign_prehashed k d context) ≡ true
