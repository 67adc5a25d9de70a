-- ===== src/Photo/Types.antt =====
-- The structures of mp2/photo.c and mp2/photo_headers.h, and the functions that read their sizes.
use computer_systems_enginee.Base.{ℕ, List}

-- `photo_header_t`: two 16-bit numbers.
pub record PhotoHeader : Type 0 where
  pub width : ℕ
  pub height : ℕ

-- One row of a palette: 6-bit red, green and blue.
pub record Colour : Type 0 where
  pub red : ℕ
  pub green : ℕ
  pub blue : ℕ

-- `struct photo_t`: the pixels of a room, row by row from the upper left.
pub record Photo : Type 0 where
  pub hdr : PhotoHeader
  pub palette : List Colour
  pub img : List ℕ

-- `struct image_t`: the pixels of an object.
pub record Image : Type 0 where
  pub hdr : PhotoHeader
  pub img : List ℕ

abbrev pub image_height : Image → ℕ
image_height im = im.hdr.height

abbrev pub image_width : Image → ℕ
image_width im = im.hdr.width

abbrev pub photo_height : Photo → ℕ
photo_height p = p.hdr.height

abbrev pub photo_width : Photo → ℕ
photo_width p = p.hdr.width
