-- ===== src/Deploy/Names.antt =====
-- The names of PrePullImages.
use Prim.Native.String.{len, slice, ◌++◌ as str_append}
use text.Mathlib.TextLemmas.{append_assoc}
use text.Mathlib.TextPositions.{len-append}
use kwarm.Base.{
  ◌≤◌, ◌≡◌, sym, ap, ◌∙◌, String, truncate-slice, len-slice-le, slice-append_absorb, arith,
}
use kwarm.Cluster.{Library}
use kwarm.Deploy.Images.{generate_prepullimage_name}

-- The hash, as the name ends in it.
abbrev tail : Library → String → String
tail lib image = str_append (slice (lib.sha256_hex image) 0 8) ""

name-slice :
    (lib : Library) (d image : String)
    → generate_prepullimage_name lib d image
      ≡ slice (str_append (str_append d "-") (tail lib image)) 0 63
unfolding generate_prepullimage_name
name-slice lib d image =
    truncate-slice 63 _ ∙ ap (λ t. slice t 0 63) (sym (append_assoc d "-" (tail lib image)))

-- A PrePullImage's name has at most 63 bytes.
pub len-generate_prepullimage_name-le :
    (lib : Library) (d image : String) → len (generate_prepullimage_name lib d image) ≤ 63
len-generate_prepullimage_name-le lib d image = rw (name-slice lib d image) (len-slice-le _ 63)

-- When the deployment's name has 62 bytes or more, the hash of the image is cut off whole: the
-- PrePullImages of all its images have one name.
pub generate_prepullimage_name_collides :
    (lib : Library) (d image other : String)
    → 62 ≤ len d
    → generate_prepullimage_name lib d image ≡ generate_prepullimage_name lib d other
generate_prepullimage_name_collides lib d image other h =
    name-slice lib d image
    ∙ slice-append_absorb (str_append d "-") (tail lib image) 63 long
    ∙ sym (slice-append_absorb (str_append d "-") (tail lib other) 63 long)
    ∙ sym (name-slice lib d other)
  where
    long : 63 ≤ len (str_append d "-")
    long = omega (arith, len-append d "-", h)
