-- ===== src/S9pk/Pack.antt =====
-- backend/src/s9pk/builder.rs: `S9pkPacker::pack`. The writer is a file with a position; the readers
-- of the packer are the bytes that they yield, `manifest` the CBOR that is written for it. Failures
-- of the file system are not modelled.
pub mod Layout
use start_os.Common.{
  ℕ, ◌+◌, ◌-◌, Option, none, some, [], ◌++◌, length, take, drop, Result, ok, ◌>>=◌,
}
use start_os.S9pk.Bytes.{Bytes, Error}
use start_os.S9pk.Crypto.{sig_context, Ed25519}
use start_os.S9pk.Header.{FileSection, TableOfContents, Header, placeholder, serialize}

-- An open file: its content and the position in it, which is at most its length.
pub record File : Type 0 where
  pub content : Bytes
  pub position : ℕ

abbrev pub new_file : File
new_file = record { content = []; position = 0 }

-- `write_all`: overwrites from the position on, and appends past the end.
unfoldable pub write_all : File → Bytes → File
write_all w bs = record {
  content = take w.position w.content ++ (bs ++ drop (w.position + length bs) w.content);
  position = w.position + length bs;
}

-- `seek(SeekFrom::Start(..))`
abbrev pub seek : File → ℕ → File
seek w pos = record w { position = pos }

pub record Sections : Type 0 where
  pub manifest : Bytes
  pub license : Bytes
  pub instructions : Bytes
  pub icon : Bytes
  pub docker_images : Bytes
  pub assets : Bytes
  pub scripts : Option Bytes

-- One section is copied through the hashing writer: the file, what was hashed, and the entry.
unfoldable pub copy_section : Bytes → File × Bytes → (File × Bytes) × FileSection
copy_section bs (w, hashed) =
    let w' = write_all w bs in
    ((w', hashed ++ bs), record { position = w.position; length_ = w'.position - w.position })

unfoldable pub copy_scripts : Option Bytes → File × Bytes → (File × Bytes) × Option FileSection
copy_scripts none s = (s, none)
copy_scripts (some bs) s = let (s', section) = copy_section bs s in (s', some section)

-- the table of contents that the sections get, the file behind them and what was hashed
unfoldable pub copy_sections : Sections → File → (File × Bytes) × TableOfContents
copy_sections p w =
    let (s₁, manifest) = copy_section p.manifest (w, []) in
    let (s₂, license) = copy_section p.license s₁ in
    let (s₃, instructions) = copy_section p.instructions s₂ in
    let (s₄, icon) = copy_section p.icon s₃ in
    let (s₅, docker_images) = copy_section p.docker_images s₄ in
    let (s₆, assets) = copy_section p.assets s₅ in
    let (s₇, scripts) = copy_scripts p.scripts s₆ in
    (
      s₇,
      record {
        manifest = manifest;
        license = license;
        instructions = instructions;
        icon = icon;
        docker_images = docker_images;
        assets = assets;
        scripts = scripts;
      },
    )

module _ (ed : Ed25519) where
  open ed use {Keypair, public, sign_prehashed, sha512}

  unfoldable pub pack : Sections → Keypair → File → Result Error File
  pack p key w = do
    header ← placeholder ed
    let w₁ = write_all w (serialize ed header)
    let copied = copy_sections p w₁
    let body = copied.0.0
    let signed : Header ed = record {
      pubkey = public key;
      signature = sign_prehashed key (sha512 copied.0.1) sig_context;
      table_of_contents = copied.1;
    }
    let w₂ = write_all (seek body w.position) (serialize ed signed)
    ok (seek w₂ body.position)
