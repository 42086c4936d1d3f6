-- ===== src/S9pk/Header.antt =====
-- backend/src/s9pk/header.rs: `FileSection`, `TableOfContents` and `Header`, with their `serialize`
-- and `deserialize`. A writer is the bytes that it receives, a reader the bytes to come; what is
-- left in the reader is returned. Ed25519 keys and signatures are a parameter.
pub mod Size
pub mod RoundTrip
pub mod Rejects
use start_os.Common.{
  ℕ, zero, suc, ◌+◌, ◌%◌, ◌^◌, ◌≡◌, Bool, Option, none, some, List, [], ◌∷◌, ◌++◌, if◌then◌else◌,
  length, take, drop, replicate, Result, ok, err, ◌>>=◌, ◌>>◌, guard, ok_or,
}
use start_os.S9pk.Crypto.{Ed25519}
use start_os.Common.Map.{Map, lookup, insert}
use start_os.S9pk.Bytes.{
  Bytes, codes, bytes_beq, bytes_key, to_be_bytes, from_be_bytes, Error, incorrect_magic,
  unknown_version, invalid_pubkey, unexpected_eof, missing_label, panicked, out_of_fuel, read_exact,
}

pub record FileSection : Type 0 where
  pub position : ℕ
  pub length_ : ℕ

-- `FileSection::default()`
abbrev pub default_section : FileSection
default_section = record { position = 0; length_ = 0 }

pub record TableOfContents : Type 0 where
  pub manifest : FileSection
  pub license : FileSection
  pub instructions : FileSection
  pub icon : FileSection
  pub docker_images : FileSection
  pub assets : FileSection
  pub scripts : Option FileSection

-- `TableOfContents::default()`
abbrev pub default_toc : TableOfContents
default_toc = record {
  manifest = default_section;
  license = default_section;
  instructions = default_section;
  icon = default_section;
  docker_images = default_section;
  assets = default_section;
  scripts = none;
}

abbrev pub magic : Bytes
magic = 59 ∷ 59 ∷ []

abbrev pub version : ℕ
version = 1

unfoldable pub serialize_entry : FileSection → Bytes → Bytes
serialize_entry s label =
    (length label % 256) ∷ (label ++ (to_be_bytes 8 s.position ++ to_be_bytes 8 s.length_))

-- `Ok(None)` at the end of the reader: `read` returned no byte.
unfoldable pub deserialize_entry : Bytes → Result Error (Option (Bytes × FileSection) × Bytes)
deserialize_entry [] = ok (none, [])
deserialize_entry (label_len ∷ r) = do
  (label, r₁) ← read_exact label_len r
  (pos, r₂) ← read_exact 8 r₁
  (len, r₃) ← read_exact 8 r₂
  ok (some (label, record { position = from_be_bytes pos; length_ = from_be_bytes len }), r₃)

-- The `while let` loop over the entries. The bound is more than the bytes that are left.
unfoldable pub deserialize_entries :
    ℕ → Bytes → Map Bytes FileSection → Result Error (Map Bytes FileSection)
deserialize_entries zero r table = err out_of_fuel
deserialize_entries (suc fuel) r table = deserialize_entry r >>= λ (entry, r'). elim entry [
  | none ↦ ok table
  | some (label, section) ↦ deserialize_entries fuel r' (insert label section table)
]

unfoldable pub from_table : Map Bytes FileSection → Bytes → Result Error FileSection
from_table table label = ok_or (lookup label table) missing_label

-- The seven labels, in the order in which they are written.
abbrev pub toc_len : ℕ
toc_len =
    (1 + length (codes "manifest") + 16)
    + (1 + length (codes "license") + 16)
    + (1 + length (codes "instructions") + 16)
    + (1 + length (codes "icon") + 16)
    + (1 + length (codes "docker_images") + 16)
    + (1 + length (codes "assets") + 16)
    + (1 + length (codes "scripts") + 16)

-- `Option::unwrap_or_default`
abbrev pub unwrap_or_default : Option FileSection → FileSection
unwrap_or_default none = default_section
unwrap_or_default (some s) = s

-- the entries that follow the length, which `TableOfContents::serialize` writes one by one
unfoldable pub serialize_entries : TableOfContents → Bytes
serialize_entries t =
    serialize_entry t.manifest (codes "manifest")
    ++ (serialize_entry t.license (codes "license")
        ++ (serialize_entry t.instructions (codes "instructions")
            ++ (serialize_entry t.icon (codes "icon")
                ++ (serialize_entry t.docker_images (codes "docker_images")
                    ++ (serialize_entry t.assets (codes "assets")
                        ++ serialize_entry (unwrap_or_default t.scripts) (codes "scripts"))))))

unfoldable pub serialize_toc : TableOfContents → Bytes
serialize_toc t = to_be_bytes 4 (toc_len % 2 ^ 32) ++ serialize_entries t

-- the table read back by its labels; `scripts` alone may be missing
unfoldable pub toc_of_table : Map Bytes FileSection → Result Error TableOfContents
toc_of_table table = do
  manifest ← from_table table (codes "manifest")
  license ← from_table table (codes "license")
  instructions ← from_table table (codes "instructions")
  icon ← from_table table (codes "icon")
  docker_images ← from_table table (codes "docker_images")
  assets ← from_table table (codes "assets")
  ok (record {
    manifest = manifest;
    license = license;
    instructions = instructions;
    icon = icon;
    docker_images = docker_images;
    assets = assets;
    scripts = lookup (codes "scripts") table;
  })

-- The entries are read through `reader.take(toc_len)`.
unfoldable pub deserialize_toc : Bytes → Result Error (TableOfContents × Bytes)
deserialize_toc r = do
  (len_bytes, r₁) ← read_exact 4 r
  let len = from_be_bytes len_bytes
  let body = take len r₁
  table ← deserialize_entries (suc (length body)) body []
  toc ← toc_of_table table
  ok (toc, drop len r₁)

module _ (ed : Ed25519) where
  open ed use {
    PublicKey, Signature, pubkey_bytes, pubkey_from_bytes, default_pubkey, signature_bytes,
    signature_from_bytes,
  }

  pub record Header : Type 0 where
    pub pubkey : PublicKey
    pub signature : Signature
    pub table_of_contents : TableOfContents

  -- `Header::placeholder`, with the panic of its `expect`
  unfoldable pub placeholder : Result Error Header
  placeholder = do
    signature ← ok_or (signature_from_bytes (replicate 64 0)) panicked
    ok (record { pubkey = default_pubkey; signature = signature; table_of_contents = default_toc })

  unfoldable pub serialize : Header → Bytes
  serialize h =
      magic
      ++ (version
          ∷ (pubkey_bytes h.pubkey
              ++ (signature_bytes h.signature ++ serialize_toc h.table_of_contents)))

  unfoldable pub deserialize : Bytes → Result Error (Header × Bytes)
  deserialize r = do
    (magic_bytes, r₁) ← read_exact 2 r
    guard (bytes_beq magic_bytes magic) incorrect_magic
    (version_bytes, r₂) ← read_exact 1 r₁
    guard (bytes_beq version_bytes (version ∷ [])) unknown_version
    (key_bytes, r₃) ← read_exact 32 r₂
    pubkey ← ok_or (pubkey_from_bytes key_bytes) invalid_pubkey
    (sig_bytes, r₄) ← read_exact 64 r₃
    signature ← ok_or (signature_from_bytes sig_bytes) panicked
    (toc, rest) ← deserialize_toc r₄
    ok (record { pubkey = pubkey; signature = signature; table_of_contents = toc }, rest)
