-- ===== src/S9pk/Reader.antt =====
-- backend/src/s9pk/reader.rs: opening a package and reading its sections.
pub mod Places
pub mod Sections
use start_os.Common.{
  ℕ, ◌+◌, ◌-◌, Bool, true, Option, none, some, length, drop, if◌then◌else◌, ◌==◌, Result, ok, ◌>>=◌,
  ◌>>◌, guard,
}
use start_os.S9pk.Bytes.{Bytes, Error, invalid_signature, read_exact}
use start_os.S9pk.Crypto.{sig_context, Ed25519}
use start_os.S9pk.Header.{FileSection, TableOfContents, deserialize}
use start_os.S9pk.Pack.{File, seek}

module _ (ed : Ed25519) where
  open ed use {PublicKey, Digest, sha512, verify_prehashed}

  -- `pos` is the reader's own account of the file's position.
  pub record S9pkReader : Type 0 where
    pub hash : Option Digest
    pub developer_key : PublicKey
    pub toc : TableOfContents
    pub pos : ℕ
    pub rdr : File

  -- With `check_sig` the file is hashed to its end, and the signature must verify.
  unfoldable pub from_reader : File → Bool → Result Error S9pkReader
  from_reader rdr check_sig = do
    (header, rest) ← deserialize ed (drop rdr.position rdr.content)
    let hash = if check_sig then some (sha512 rest) else none
    let valid = verify_prehashed header.pubkey (sha512 rest) sig_context header.signature
    guard (if check_sig then valid else true) invalid_signature
    let consumed = length rdr.content - (if check_sig then 0 else length rest)
    ok (record {
      hash = hash;
      developer_key = header.pubkey;
      toc = header.table_of_contents;
      pos = consumed;
      rdr = seek rdr consumed;
    })

  -- `read_handle`: the reader is brought to the section.
  unfoldable pub read_handle : S9pkReader → FileSection → S9pkReader
  read_handle r section =
      if r.pos == section.position
      then r
      else record r { rdr = seek r.rdr section.position; pos = section.position }

  -- `read_handle(section).to_vec()`: exactly the bytes of the section's range.
  unfoldable pub read_section : S9pkReader → FileSection → Result Error (Bytes × S9pkReader)
  read_section r section = do
    let at = read_handle r section
    (buf, rest) ← read_exact section.length_ (drop at.rdr.position at.rdr.content)
    let pos = at.pos + section.length_
    ok (buf, record at { rdr = seek at.rdr (at.rdr.position + section.length_); pos = pos })

  -- `S9pkReader::scripts`, read to its end
  unfoldable pub read_scripts : S9pkReader → Result Error (Option Bytes × S9pkReader)
  read_scripts r = elim r.toc.scripts [
    | none ↦ ok (none, r)
    | some section ↦ do (buf, r') ← read_section r section; ok (some buf, r')
  ]
