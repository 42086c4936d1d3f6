-- ===== src/S9pk/Reader/Sections.antt =====
-- Reading the sections of a packed file (backend/src/s9pk/reader.rs and builder.rs).
use start_os.Common.{
  ℕ, ◌+◌, ◌-◌, ◌<◌, ◌^◌, ◌≡◌, refl, ap, sym, ◌∙◌, Bool, true, Option, none, some, [], ◌++◌, arith,
  if_same, length, length-append, drop-append, append-nil, append_assoc, ok, if◌then◌else◌,
}
use start_os.S9pk.Bytes.{Bytes, read_exact-append}
use start_os.S9pk.Crypto.{sig_context, Ed25519}
use start_os.S9pk.Header.{FileSection, default_section, serialize, unwrap_or_default}
use start_os.S9pk.Header.Size.{length-serialize}
use start_os.S9pk.Header.RoundTrip.{with_scripts, deserialize-serialize}
use start_os.S9pk.Pack.{File, new_file, seek, Sections, pack}
use start_os.S9pk.Pack.Layout.{
  file, section, script_section, script_bytes, body, layout, signed_header, pack-new_file,
}
use start_os.S9pk.Reader.{S9pkReader, from_reader, read_handle, read_section, read_scripts}
use start_os.S9pk.Reader.Places.{
  assets, Section, section_of, packed, before, after, body-split, position-layout, length-layout,
  section_of-with_scripts, layout-IsU64,
}

module _ (ed : Ed25519) where
  -- A reader over the file of the sections `p`, at any place in it.
  pub record IsOpen (p : Sections) (r : S9pkReader ed) : Type 0 where
    pub header : Bytes
    pub size : length header ≡ 279
    pub content : r.rdr.content ≡ header ++ body p
    pub toc : r.toc ≡ with_scripts (layout 279 p)
    pub in_step : r.pos ≡ r.rdr.position

  -- The reader seeks only if its position differs, and ends there in either case.
  read_handle-seek :
      (r : S9pkReader ed) (s : FileSection)
      → r.pos ≡ r.rdr.position
      → read_handle ed r s ≡ record r { rdr = seek r.rdr s.position; pos = s.position }
  unfolding read_handle
  read_handle-seek r s in_step = ground arith

  -- A section whose bytes stand at its place is read, and only the position moves.
  read_section-found :
      (r : S9pkReader ed) (s : FileSection) (before bs after : Bytes)
      → r.rdr.content ≡ before ++ (bs ++ after)
      → s.position ≡ length before
      → s.length_ ≡ length bs
      → r.pos ≡ r.rdr.position
      → read_section ed r s
        ≡ ok (
          bs,
          record r { rdr = seek r.rdr (s.position + s.length_); pos = s.position + s.length_ },
        )
  unfolding read_section
  read_section-found r s before bs after content place size in_step = rw (
    read_handle-seek r s in_step,
    content,
    drop-append s.position before (bs ++ after) (sym place),
    read_exact-append s.length_ bs after (sym size),
  )

  -- From an open package every section is read as it was packed, from any place and in any order:
  -- the reader is open on the same package afterwards.
  pub read_section-IsOpen :
      (p : Sections) (r : S9pkReader ed) (k : Section)
      → IsOpen p r
      → (r' : S9pkReader ed) × (read_section ed r (section_of k r.toc) ≡ ok (packed k p, r'))
        × IsOpen p r'
  read_section-IsOpen p r k o =
      let s = section_of k (layout 279 p) in
      let same : section_of k r.toc ≡ s =
        ap (section_of k) o.toc ∙ section_of-with_scripts k (layout 279 p) in
      let place : s.position ≡ length (o.header ++ before k p) =
        omega (arith, position-layout k p, length-append o.header (before k p), o.size) in
      let content : r.rdr.content ≡ (o.header ++ before k p) ++ (packed k p ++ after k p) =
        rw (append_assoc, ← body-split k p) o.content in
      (
        record r { rdr = seek r.rdr (s.position + s.length_); pos = s.position + s.length_ },
        rw same (
            read_section-found r s (o.header ++ before k p) (packed k p) (after k p) content place
              (length-layout k p) o.in_step),
        record {
          header = o.header;
          size = o.size;
          content = o.content;
          toc = o.toc;
          in_step = refl;
        },
      )

  read_section-scripts :
      (r : S9pkReader ed) (scripts : Option Bytes) (before : Bytes) (n : ℕ)
      → r.rdr.content ≡ before ++ script_bytes scripts
      → n ≡ length before
      → r.pos ≡ r.rdr.position
      → let s = unwrap_or_default (script_section n scripts) in
        read_section ed r s
        ≡ ok (
          script_bytes scripts,
          record r { rdr = seek r.rdr (s.position + s.length_); pos = s.position + s.length_ },
        )
  read_section-scripts r none before n content place in_step =
      read_section-found r default_section [] [] r.rdr.content refl refl refl in_step
  read_section-scripts r (some bs) before n content place in_step =
      read_section-found r (section n (length bs)) before bs [] (rw (append-nil bs) content) place
        refl in_step

  read_scripts-some :
      (r r' : S9pkReader ed) (s : FileSection) (bs : Bytes)
      → r.toc.scripts ≡ some s
      → read_section ed r s ≡ ok (bs, r')
      → read_scripts ed r ≡ ok (some bs, r')
  unfolding read_scripts
  read_scripts-some r r' s bs e found = ground arith

  -- The optional section: a package without scripts has an empty one.
  pub read_scripts-IsOpen :
      (p : Sections) (r : S9pkReader ed)
      → IsOpen p r
      → (r' : S9pkReader ed) × (read_scripts ed r ≡ ok (some (script_bytes p.scripts), r'))
        × IsOpen p r'
  read_scripts-IsOpen p r o =
      let s = unwrap_or_default (layout 279 p).scripts in
      let front = o.header ++ (before assets p ++ p.assets) in
      let found =
        read_section-scripts r p.scripts front
          (279
            + length p.manifest
            + length p.license
            + length p.instructions
            + length p.icon
            + length p.docker_images
            + length p.assets)
          (rw (o.content) (simp append_assoc)) (omega (arith, o.size, length-append {0}))
          o.in_step in
      (
        record r { rdr = seek r.rdr (s.position + s.length_); pos = s.position + s.length_ },
        read_scripts-some r _ s (script_bytes p.scripts) (ap (λ t. t.scripts) o.toc) found,
        record {
          header = o.header;
          size = o.size;
          content = o.content;
          toc = o.toc;
          in_step = refl;
        },
      )

  -- A package that fits 2^64 bytes, packed into an empty file and opened from its start, has a valid
  -- signature, and is open on what was packed, whether or not the signature is checked.
  pub from_reader-pack :
      (p : Sections) (key : ed.Keypair) (check_sig : Bool)
      → 279 + length (body p) < 2 ^ 64
      → (w : File) × (r : S9pkReader ed) × (pack ed p key new_file ≡ ok w)
        × (from_reader ed (seek w 0) check_sig ≡ ok r)
        × IsOpen p r
  unfolding from_reader
  from_reader-pack p key check_sig fits =
      let h = signed_header ed p key in
      let packed_file = serialize ed h ++ body p in
      let consumed = length packed_file - (if check_sig then 0 else length (body p)) in
      (
        file packed_file (279 + length (body p)),
        record {
          hash = if check_sig then some (ed.sha512 (body p)) else none;
          developer_key = ed.public key;
          toc = with_scripts (layout 279 p);
          pos = consumed;
          rdr = file packed_file consumed;
        },
        pack-new_file ed p key,
        rw (
          deserialize-serialize ed h (body p) (layout-IsU64 p fits),
          ed.verify_prehashed-sign_prehashed key (ed.sha512 (body p)) sig_context,
          if_same check_sig true,
        ),
        record {
          header = serialize ed h;
          size = length-serialize ed h;
          content = refl;
          toc = refl;
          in_step = refl;
        },
      )
