-- ===== src/S9pk/Header/Size.antt =====
-- The size of a header (backend/src/s9pk/header.rs), which the packer relies on when it writes the
-- final header over the placeholder.
use start_os.Common.{◌+◌, ◌≡◌, ◌++◌, arith, length, length-append}
use start_os.S9pk.Bytes.{Bytes, to_be_bytes, length-to_be_bytes}
use start_os.S9pk.Crypto.{Ed25519}
use start_os.S9pk.Header.{
  FileSection, TableOfContents, Header, serialize_entry, serialize_entries, serialize_toc, toc_len,
  serialize,
}

length-serialize_entry :
    (s : FileSection) (label : Bytes) → length (serialize_entry s label) ≡ 1 + length label + 16
unfolding serialize_entry
length-serialize_entry s label =
    let pos = to_be_bytes 8 s.position in
    let len = to_be_bytes 8 s.length_ in
    omega (
      arith,
      length-append label (pos ++ len),
      length-append pos len,
      length-to_be_bytes 8 s.position,
      length-to_be_bytes 8 s.length_,
    )

-- The length that the table of contents states is that of the entries that follow.
pub length-serialize_entries : (t : TableOfContents) → length (serialize_entries t) ≡ toc_len
unfolding serialize_entries
length-serialize_entries t = omega (arith, length-append {0}, length-serialize_entry)

-- Every header has the same size, whatever it holds.
pub length-serialize : (ed : Ed25519) (h : Header ed) → length (serialize ed h) ≡ 279
unfolding serialize serialize_toc
length-serialize ed h = omega (
  arith,
  length-append {0},
  length-serialize_entries h.table_of_contents,
  ed.length-pubkey_bytes h.pubkey,
  ed.length-signature_bytes h.signature,
  length-to_be_bytes,
)
