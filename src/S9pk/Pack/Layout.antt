-- ===== src/S9pk/Pack/Layout.antt =====
-- What `pack` writes (backend/src/s9pk/builder.rs): the signed header, then the sections in order.
use start_os.Common.{
  ℕ, zero, suc, ◌+◌, ◌-◌, ◌<◌, ◌≡◌, refl, sym, ◌∙◌, Option, none, some, [], ◌∷◌, ◌++◌, arith,
  length, drop, length-append, take-append, drop-append, append-nil, append_assoc, ok,
}
use native.Mathlib.Nat.{add-zero, zero-add, add_assoc}
use start_os.S9pk.Bytes.{Bytes}
use start_os.S9pk.Crypto.{sig_context, Ed25519}
use start_os.S9pk.Header.{FileSection, TableOfContents, Header, placeholder, serialize, default_toc}
use start_os.S9pk.Header.Size.{length-serialize}
use start_os.S9pk.Pack.{
  File, new_file, write_all, Sections, copy_section, copy_scripts, copy_sections, pack,
}

abbrev pub file : Bytes → ℕ → File
file c n = record { content = c; position = n }

abbrev pub section : ℕ → ℕ → FileSection
section n len = record { position = n; length_ = len }

-- the bytes of the optional last section
abbrev pub script_bytes : Option Bytes → Bytes
script_bytes none = []
script_bytes (some bs) = bs

-- the sections, one behind the other
abbrev pub body : Sections → Bytes
body p =
    p.manifest
    ++ (p.license
        ++ (p.instructions
            ++ (p.icon ++ (p.docker_images ++ (p.assets ++ script_bytes p.scripts)))))

abbrev pub script_section : ℕ → Option Bytes → Option FileSection
script_section n none = none
script_section n (some bs) = some (section n (length bs))

-- the table of contents of sections that begin at `n`
abbrev pub layout : ℕ → Sections → TableOfContents
layout n p =
    let n₁ = n + length p.manifest in
    let n₂ = n₁ + length p.license in
    let n₃ = n₂ + length p.instructions in
    let n₄ = n₃ + length p.icon in
    let n₅ = n₄ + length p.docker_images in
    let n₆ = n₅ + length p.assets in
    record {
      manifest = section n (length p.manifest);
      license = section n₁ (length p.license);
      instructions = section n₂ (length p.instructions);
      icon = section n₃ (length p.icon);
      docker_images = section n₄ (length p.docker_images);
      assets = section n₅ (length p.assets);
      scripts = script_section n₆ p.scripts;
    }

drop-past : (n : ℕ) (xs : Bytes) → length xs < suc n → drop n xs ≡ []
drop-past zero [] h = refl
drop-past zero (x ∷ xs) h = absurd (omega arith)
drop-past (suc n) [] h = refl
drop-past (suc n) (x ∷ xs) h = drop-past n xs (omega arith)

write_all-end :
    (c bs : Bytes) (n : ℕ) → length c ≡ n → write_all (file c n) bs ≡ file (c ++ bs) (n + length bs)
unfolding write_all
write_all-end c bs n h = rw (
  drop-past (n + length bs) c (omega arith),
  append-nil bs,
  rw append-nil at (take-append n c [] h),
)

copy_section-end :
    (c hashed bs : Bytes) (n : ℕ)
    → length c ≡ n
    → copy_section bs (file c n, hashed)
      ≡ ((file (c ++ bs) (n + length bs), hashed ++ bs), section n (length bs))
unfolding copy_section
copy_section-end c hashed bs n h =
    let len : n + length bs - n ≡ length bs = omega arith in rw (write_all-end c bs n h, len)

copy_scripts-end :
    (c hashed : Bytes) (scripts : Option Bytes) (n : ℕ)
    → length c ≡ n
    → copy_scripts scripts (file c n, hashed) ≡ (
      (
        file (c ++ script_bytes scripts) (n + length (script_bytes scripts)),
        hashed ++ script_bytes scripts,
      ),
      script_section n scripts,
    )
unfolding copy_scripts
copy_scripts-end c hashed none n h = rw (append-nil c, append-nil hashed, add-zero n)
copy_scripts-end c hashed (some bs) n h = rw (copy_section-end c hashed bs n h)

length-extend : (c bs : Bytes) (n : ℕ) → length c ≡ n → length (c ++ bs) ≡ n + length bs
length-extend c bs n h = omega (arith, length-append c bs)

-- Copying all sections to the end of a file.
copy_sections-end :
    (p : Sections) (c : Bytes) (n : ℕ)
    → length c ≡ n
    → copy_sections p (file c n) ≡ ((file (c ++ body p) (n + length (body p)), body p), layout n p)
unfolding copy_sections
copy_sections-end p c n h =
    let h₁ = length-extend c p.manifest n h in
    let h₂ = length-extend _ p.license _ h₁ in
    let h₃ = length-extend _ p.instructions _ h₂ in
    let h₄ = length-extend _ p.icon _ h₃ in
    let h₅ = length-extend _ p.docker_images _ h₄ in
    let h₆ = length-extend _ p.assets _ h₅ in
    rw (copy_section-end c [] p.manifest n h) (
      rw (copy_section-end _ _ p.license _ h₁) (
        rw (copy_section-end _ _ p.instructions _ h₂) (
          rw (copy_section-end _ _ p.icon _ h₃) (
            rw (copy_section-end _ _ p.docker_images _ h₄) (
              rw (copy_section-end _ _ p.assets _ h₅) (
                rw (copy_scripts-end _ _ p.scripts _ h₆)
                  (simp (append_assoc, length-append, add_assoc))))))))

module _ (ed : Ed25519) where
  open ed use {Keypair, public, sign_prehashed, sha512}

  -- the header over the sections that begin behind it
  abbrev pub signed_header : Sections → Keypair → Header ed
  signed_header p key = record {
    pubkey = public key;
    signature = sign_prehashed key (sha512 (body p)) sig_context;
    table_of_contents = layout 279 p;
  }

  -- the final header takes the place of the placeholder
  write_all-start :
      (old new rest : Bytes)
      → length old ≡ length new
      → write_all (file (old ++ rest) 0) new ≡ file (new ++ rest) (length new)
  unfolding write_all
  write_all-start old new rest same =
      rw (zero-add (length new), drop-append (length new) old rest same)

  -- A package that is packed into an empty file is its signed header and its sections, and the file
  -- is left at its end.
  pub pack-new_file :
      (p : Sections) (key : Keypair)
      → pack ed p key new_file
        ≡ ok (file (serialize ed (signed_header p key) ++ body p) (279 + length (body p)))
  unfolding pack placeholder
  pack-new_file p key =
      let first : Header ed = record {
        pubkey = ed.default_pubkey;
        signature = ed.zero_signature;
        table_of_contents = default_toc;
      } in
      let old = serialize ed first in
      let new = serialize ed (signed_header p key) in
      let size_old = length-serialize ed first in
      let size_new = length-serialize ed (signed_header p key) in
      rw (
        ed.signature_from_bytes-zeros,
        write_all-end [] old 0 refl,
        size_old,
        copy_sections-end p old 279 size_old,
        write_all-start old new (body p) (size_old ∙ sym size_new),
      )
