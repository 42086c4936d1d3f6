-- ===== src/S9pk/Header/RoundTrip.antt =====
-- Reading back what `serialize` wrote (backend/src/s9pk/header.rs).
use start_os.Common.{
  ℕ, suc, ◌+◌, ◌^◌, ◌<◌, ◌≡◌, refl, some, [], ◌∷◌, ◌++◌, arith, ◌∙◌, length, append_assoc,
  append-nil, ok, take-append, drop-append,
}
use native.Mathlib.Numerals.{add_eight}
use start_os.Common.Map.{Map, insert}
use start_os.S9pk.Bytes.{
  Bytes, codes, bytes_key, to_be_bytes, from_be_bytes-to_be_bytes, length-to_be_bytes,
  read_exact-append,
}
use start_os.S9pk.Crypto.{Ed25519}
use start_os.S9pk.Header.{
  FileSection, TableOfContents, Header, serialize_entry, deserialize_entry, deserialize_entries,
  serialize_entries, serialize_toc, deserialize_toc, toc_of_table, from_table, unwrap_or_default,
  serialize, deserialize, magic, version,
}
use start_os.S9pk.Header.Size.{length-serialize_entries}

-- Both numbers of a section fit into a `u64`.
abbrev pub IsU64 : FileSection → Type 0
IsU64 s = (s.position < 2 ^ 64) × (s.length_ < 2 ^ 64)

pub deserialize_entry-serialize_entry :
    (s : FileSection) (label rest : Bytes)
    → length label < 256
    → IsU64 s
    → deserialize_entry (serialize_entry s label ++ rest) ≡ ok (some (label, s), rest)
unfolding serialize_entry deserialize_entry
deserialize_entry-serialize_entry s label rest short fits =
    let pos = to_be_bytes 8 s.position in
    let len = to_be_bytes 8 s.length_ in
    ground (
      arith,
      append_assoc label (pos ++ len) rest,
      append_assoc pos len rest,
      read_exact-append (length label) label (pos ++ (len ++ rest)) refl,
      read_exact-append 8 pos (len ++ rest) (length-to_be_bytes 8 s.position),
      read_exact-append 8 len rest (length-to_be_bytes 8 s.length_),
      from_be_bytes-to_be_bytes 8 s.position fits.0,
      from_be_bytes-to_be_bytes 8 s.length_ fits.1,
    )

-- One round of the loop on an entry that was written.
deserialize_entries-serialize_entry :
    (fuel : ℕ) (s : FileSection) (label rest : Bytes) (table : Map Bytes FileSection)
    → length label < 256
    → IsU64 s
    → deserialize_entries (suc fuel) (serialize_entry s label ++ rest) table
      ≡ deserialize_entries fuel rest (insert label s table)
unfolding deserialize_entries
deserialize_entries-serialize_entry fuel s label rest table short fits =
    rw (deserialize_entry-serialize_entry s label rest short fits)

-- A table of contents whose numbers all fit.
pub record IsU64Toc (t : TableOfContents) : Type 0 where
  pub manifest : IsU64 t.manifest
  pub license : IsU64 t.license
  pub instructions : IsU64 t.instructions
  pub icon : IsU64 t.icon
  pub docker_images : IsU64 t.docker_images
  pub assets : IsU64 t.assets
  pub scripts : IsU64 (unwrap_or_default t.scripts)

-- What comes back: a missing `scripts` has become the section 0/0.
abbrev pub with_scripts : TableOfContents → TableOfContents
with_scripts t = record t { scripts = some (unwrap_or_default t.scripts) }

table_of : TableOfContents → Map Bytes FileSection
table_of t = insert (codes "scripts") (unwrap_or_default t.scripts) (
    insert (codes "assets") t.assets (
      insert (codes "docker_images") t.docker_images (
        insert (codes "icon") t.icon (
          insert (codes "instructions") t.instructions
            (insert (codes "license") t.license (insert (codes "manifest") t.manifest []))))))

-- the loop at the end of its reader
deserialize_entries-nil :
    (fuel : ℕ) (table : Map Bytes FileSection) → deserialize_entries (suc fuel) [] table ≡ ok table
unfolding deserialize_entries deserialize_entry
deserialize_entries-nil fuel table = refl

-- the entry behind which the reader ends
last_entry :
    (fuel : ℕ) (s : FileSection) (label : Bytes) (table : Map Bytes FileSection)
    → length label < 256
    → IsU64 s
    → deserialize_entries (suc (suc fuel)) (serialize_entry s label) table
      ≡ ok (insert label s table)
last_entry fuel s label table short fits = rw (← append-nil (serialize_entry s label)) (
    deserialize_entries-serialize_entry (suc fuel) s label [] table short fits
    ∙ deserialize_entries-nil fuel (insert label s table))

deserialize_entries-serialize_entries :
    (fuel : ℕ) (t : TableOfContents)
    → IsU64Toc t
    → deserialize_entries (fuel + 8) (serialize_entries t) [] ≡ ok (table_of t)
unfolding serialize_entries table_of
deserialize_entries-serialize_entries fuel t fits =
    let step = deserialize_entries-serialize_entry in
    rw (add_eight fuel) (
      step (suc (suc (suc (suc (suc (suc (suc fuel))))))) t.manifest (codes "manifest") _ _
        (omega arith) fits.manifest
      ∙ step _ t.license (codes "license") _ _ (omega arith) fits.license
      ∙ step _ t.instructions (codes "instructions") _ _ (omega arith) fits.instructions
      ∙ step _ t.icon (codes "icon") _ _ (omega arith) fits.icon
      ∙ step _ t.docker_images (codes "docker_images") _ _ (omega arith) fits.docker_images
      ∙ step _ t.assets (codes "assets") _ _ (omega arith) fits.assets
      ∙ last_entry fuel (unwrap_or_default t.scripts) (codes "scripts") _ (omega arith)
          fits.scripts)

toc_of_table-table_of : (t : TableOfContents) → toc_of_table (table_of t) ≡ ok (with_scripts t)
unfolding toc_of_table from_table table_of
toc_of_table-table_of t = refl

pub deserialize_toc-serialize_toc :
    (t : TableOfContents) (rest : Bytes)
    → IsU64Toc t
    → deserialize_toc (serialize_toc t ++ rest) ≡ ok (with_scripts t, rest)
unfolding deserialize_toc serialize_toc
deserialize_toc-serialize_toc t rest fits =
    let entries = serialize_entries t in
    let size = length-serialize_entries t in
    rw (
      append_assoc (to_be_bytes 4 176) entries rest,
      read_exact-append 4 (to_be_bytes 4 176) (entries ++ rest) (length-to_be_bytes 4 176),
      from_be_bytes-to_be_bytes 4 176 (omega arith),
      take-append 176 entries rest size,
      drop-append 176 entries rest size,
      size,
      deserialize_entries-serialize_entries 169 t fits,
      toc_of_table-table_of t,
    )

-- A header that was written is read back, with nothing of what follows it consumed; a missing
-- `scripts` section comes back as the section 0/0. The numbers of the sections are those of a `u64`.
pub deserialize-serialize :
    (ed : Ed25519) (h : Header ed) (rest : Bytes)
    → IsU64Toc h.table_of_contents
    → deserialize ed (serialize ed h ++ rest)
      ≡ ok (record h { table_of_contents = with_scripts h.table_of_contents }, rest)
unfolding deserialize serialize
deserialize-serialize ed h rest fits =
    let key = ed.pubkey_bytes h.pubkey in
    let sig = ed.signature_bytes h.signature in
    let toc = serialize_toc h.table_of_contents in
    rw (
      append_assoc key (sig ++ toc) rest,
      append_assoc sig toc rest,
      read_exact-append 2 magic (version ∷ (key ++ (sig ++ (toc ++ rest)))) refl,
      read_exact-append 1 (version ∷ []) (key ++ (sig ++ (toc ++ rest))) refl,
      read_exact-append 32 key (sig ++ (toc ++ rest)) (ed.length-pubkey_bytes h.pubkey),
      ed.pubkey_from_bytes-pubkey_bytes h.pubkey,
      read_exact-append 64 sig (toc ++ rest) (ed.length-signature_bytes h.signature),
      ed.signature_from_bytes-signature_bytes h.signature,
      deserialize_toc-serialize_toc h.table_of_contents rest fits,
    )
