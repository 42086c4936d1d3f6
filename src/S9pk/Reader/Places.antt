-- ===== src/S9pk/Reader/Places.antt =====
-- Where the sections of a packed file stand (backend/src/s9pk/reader.rs and builder.rs).
use start_os.Common.{
  ℕ, ◌+◌, ◌<◌, ◌^◌, ◌≡◌, refl, Option, none, some, [], ◌++◌, arith, length, length-append,
  append_assoc,
}
use start_os.S9pk.Bytes.{Bytes}
use start_os.S9pk.Header.{FileSection, TableOfContents, unwrap_or_default}
use start_os.S9pk.Header.RoundTrip.{with_scripts, IsU64, IsU64Toc}
use start_os.S9pk.Pack.{Sections}
use start_os.S9pk.Pack.Layout.{script_section, script_bytes, body, layout}

-- the accessors `manifest_raw`, `license`, ... of the reader
pub data Section : Type 0 where
  manifest license instructions icon docker_images assets : Section

abbrev pub section_of : Section → TableOfContents → FileSection
section_of manifest t = t.manifest
section_of license t = t.license
section_of instructions t = t.instructions
section_of icon t = t.icon
section_of docker_images t = t.docker_images
section_of assets t = t.assets

abbrev pub packed : Section → Sections → Bytes
packed manifest p = p.manifest
packed license p = p.license
packed instructions p = p.instructions
packed icon p = p.icon
packed docker_images p = p.docker_images
packed assets p = p.assets

-- the bytes in front of a section and behind it
abbrev pub before : Section → Sections → Bytes
before manifest p = []
before license p = p.manifest
before instructions p = p.manifest ++ p.license
before icon p = p.manifest ++ (p.license ++ p.instructions)
before docker_images p = p.manifest ++ (p.license ++ (p.instructions ++ p.icon))
before assets p = p.manifest ++ (p.license ++ (p.instructions ++ (p.icon ++ p.docker_images)))

abbrev pub after : Section → Sections → Bytes
after manifest p =
    p.license
    ++ (p.instructions ++ (p.icon ++ (p.docker_images ++ (p.assets ++ script_bytes p.scripts))))
after license p =
    p.instructions ++ (p.icon ++ (p.docker_images ++ (p.assets ++ script_bytes p.scripts)))
after instructions p = p.icon ++ (p.docker_images ++ (p.assets ++ script_bytes p.scripts))
after icon p = p.docker_images ++ (p.assets ++ script_bytes p.scripts)
after docker_images p = p.assets ++ script_bytes p.scripts
after assets p = script_bytes p.scripts

pub body-split : (k : Section) (p : Sections) → body p ≡ before k p ++ (packed k p ++ after k p)
body-split manifest p = refl
body-split license p = refl
body-split instructions p = simp append_assoc
body-split icon p = simp append_assoc
body-split docker_images p = simp append_assoc
body-split assets p = simp append_assoc

pub position-layout :
    (k : Section) (p : Sections)
    → (section_of k (layout 279 p)).position ≡ 279 + length (before k p)
position-layout manifest p = refl
position-layout license p = refl
position-layout instructions p = omega (arith, length-append p.manifest p.license)
position-layout icon p = omega (arith, length-append {0})
position-layout docker_images p = omega (arith, length-append {0})
position-layout assets p = omega (arith, length-append {0})

pub length-layout :
    (k : Section) (p : Sections) → (section_of k (layout 279 p)).length_ ≡ length (packed k p)
length-layout manifest p = refl
length-layout license p = refl
length-layout instructions p = refl
length-layout icon p = refl
length-layout docker_images p = refl
length-layout assets p = refl

pub section_of-with_scripts :
    (k : Section) (t : TableOfContents) → section_of k (with_scripts t) ≡ section_of k t
section_of-with_scripts manifest t = refl
section_of-with_scripts license t = refl
section_of-with_scripts instructions t = refl
section_of-with_scripts icon t = refl
section_of-with_scripts docker_images t = refl
section_of-with_scripts assets t = refl

script_section-IsU64 :
    (n : ℕ) (scripts : Option Bytes)
    → n + length (script_bytes scripts) < 2 ^ 64
    → IsU64 (unwrap_or_default (script_section n scripts))
script_section-IsU64 n none h = omega arith
script_section-IsU64 n (some bs) h = omega arith

pub layout-IsU64 : (p : Sections) → 279 + length (body p) < 2 ^ 64 → IsU64Toc (layout 279 p)
layout-IsU64 p h = record {
  manifest = omega (arith, h, length-append {0});
  license = omega (arith, h, length-append {0});
  instructions = omega (arith, h, length-append {0});
  icon = omega (arith, h, length-append {0});
  docker_images = omega (arith, h, length-append {0});
  assets = omega (arith, h, length-append {0});
  scripts = script_section-IsU64 _ p.scripts (omega (arith, h, length-append {0}));
}
