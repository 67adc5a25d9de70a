-- ===== src/Photo/Read.antt =====
-- `read_obj_image` and `read_photo` of mp2/photo.c, and `prep_room`. A file is the list of its bytes; that
-- it opens, and that the memory can be had, are arguments, and `none` is NULL. What malloc leaves in
-- the new memory is an argument where it is not all written.
pub mod Rows
pub mod Images
pub mod Inserted
pub mod Photos
pub mod Palette
use computer_systems_enginee.Base.{
  ℕ, zero, suc, ◌+◌, ◌-◌, ◌*◌, ◌%◌, Bool, true, false, ◌&&◌, ◌||◌, not, ltb, if◌then◌else◌, Option,
  none, some, List, [], ◌∷◌, get_or, set, replicate,
}
use computer_systems_enginee.Photo.Types.{PhotoHeader, Colour, Photo, Image}
use computer_systems_enginee.Photo.Octree.{
  Node, Octree, Chosen, arr_initialize, insert_values, set_plt_values, calculate_vga,
}
use computer_systems_enginee.Modex.{VgaState}
use computer_systems_enginee.Modex.Vga.{palette_print}

abbrev pub max_photo_width : ℕ
max_photo_width = 1024

abbrev pub max_photo_height : ℕ
max_photo_height = 1024

abbrev pub max_object_width : ℕ
max_object_width = 160

abbrev pub max_object_height : ℕ
max_object_height = 100

-- What a successful read gives: a value, and the rest of the file.
abbrev pub Reader : Type 0 → Type 0
Reader A = List ℕ → Option (A × List ℕ)

-- `1 != fread (…, 1, in)`, for a number of one byte, and for one of two, the lower first.
abbrev pub read_byte : Reader ℕ
read_byte [] = none
read_byte (b ∷ file) = some (b, file)

abbrev pub read_word : Reader ℕ
read_word [] = none
read_word (b ∷ []) = none
read_word (b ∷ c ∷ file) = some (b + 256 * c, file)

abbrev pub read_header : Reader PhotoHeader
read_header (a ∷ b ∷ c ∷ d ∷ file) =
    some (record { width = a + 256 * b; height = c + 256 * d }, file)
read_header _ = none

module _ {S : Type 0} (next : Reader ℕ) (body : ℕ → ℕ → ℕ → S → S) where
  -- The loop over the columns of row `y`, from column `x` on, with `n` columns to go.
  unfoldable pub read_columns : ℕ → ℕ → ℕ → S → Reader S
  read_columns zero y x s file = some (s, file)
  read_columns (suc n) y x s file = elim (next file) [
    | none ↦ none
    | some (pixel, rest) ↦ read_columns n y (suc x) (body y x pixel s) rest
  ]

  -- `for (y = height; y-- > 0; )` around it.
  unfoldable pub read_rows : ℕ → ℕ → S → Reader S
  unfolding read_columns
  read_rows width zero s file = some (s, file)
  read_rows width (suc y) s file = elim (read_columns width y 0 s file) [
    | none ↦ none
    | some (s', rest) ↦ read_rows width y s' rest
  ]

-- `img->img[img->hdr.width * y + x] = …;`
abbrev pub store_pixel : ℕ → (ℕ → ℕ) → ℕ → ℕ → ℕ → List ℕ → List ℕ
store_pixel width code y x pixel img = set img (width * y + x) (code pixel)

-- The answers of the two calls of malloc.
pub record Memory : Type 0 where
  pub for_structure : Bool
  pub for_pixels : Bool

abbrev new_pixels : PhotoHeader → List ℕ
new_pixels hdr = replicate (hdr.width * hdr.height) 0

-- The rest of `read_obj_image`, after the header.
unfoldable pub read_obj_pixels : Memory → PhotoHeader → List ℕ → Option Image
unfolding read_rows
read_obj_pixels memory hdr file =
    let pixels =
      read_rows read_byte (store_pixel hdr.width (λ pixel. pixel)) hdr.width hdr.height
        (new_pixels hdr) file in
    if ltb max_object_width hdr.width || ltb max_object_height hdr.height || not memory.for_pixels
    then none
    else elim pixels [ none ↦ none | some (img, _) ↦ some (record { hdr = hdr; img = img }) ]

-- `read_obj_image`
unfoldable pub read_obj_image : Memory → Option (List ℕ) → Option Image
unfolding read_obj_pixels
read_obj_image memory none = none
read_obj_image memory (some file) =
    if memory.for_structure
    then elim (read_header file) [
      | none ↦ none
      | some (hdr, rest) ↦ read_obj_pixels memory hdr rest
    ]
    else none

module _ (qsort : List Node → List Node) (garbage : List Colour) where
  -- The second pass of `read_photo`, after `fseek (in, 0, SEEK_SET)`: it reads the file from its start.
  unfoldable pub code_pixels : PhotoHeader → List ℕ → Octree → Option Photo
  unfolding read_rows
  code_pixels hdr file tree =
      let chosen = set_plt_values qsort garbage tree in
      elim (read_rows read_word (store_pixel hdr.width (calculate_vga chosen.fourth)) hdr.width
        hdr.height (new_pixels hdr) file) [
          | none ↦ none
          | some (img, _) ↦ some (record { hdr = hdr; palette = chosen.palette; img = img })
        ]

  -- The rest of `read_photo`, after the header: `rest` is the file from there on.
  unfoldable pub read_photo_pixels : Memory → PhotoHeader → List ℕ → List ℕ → Option Photo
  unfolding read_rows code_pixels
  read_photo_pixels memory hdr file rest =
      let first =
        read_rows read_word (λ y x pixel tree. insert_values pixel tree) hdr.width hdr.height
          arr_initialize rest in
      if ltb max_photo_width hdr.width || ltb max_photo_height hdr.height || not memory.for_pixels
      then none
      else elim first [ none ↦ none | some (tree, _) ↦ code_pixels hdr file tree ]

  -- `read_photo`
  unfoldable pub read_photo : Memory → Option (List ℕ) → Option Photo
  unfolding read_photo_pixels
  read_photo memory none = none
  read_photo memory (some file) =
      if memory.for_structure
      then elim (read_header file) [
        | none ↦ none
        | some (hdr, rest) ↦ read_photo_pixels memory hdr file rest
      ]
      else none

-- The loop of `prep_room`, with `n` colours to go.
unfoldable pub print_palette : ℕ → ℕ → List Colour → VgaState → VgaState
print_palette zero i palette v = v
print_palette (suc n) i palette v =
    let c = get_or palette i (record { red = 0; green = 0; blue = 0 }) in
    print_palette n (suc i) palette
      (palette_print (64 + i) (c.red * 2 % 64) (c.green % 64) (c.blue * 2 % 64) v)

-- `prep_room`, but for the room that it records; `none` is a fault.
unfoldable pub prep_room : Option Photo → VgaState → Option VgaState
unfolding print_palette
prep_room none v = none
prep_room (some photo) v = some (print_palette 192 0 photo.palette v)
