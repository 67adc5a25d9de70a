-- ===== src/Photo/Read/Images.antt =====
-- The pixels that the loops of mp2/photo.c store, and what `read_obj_image` returns.
use computer_systems_enginee.Base.{
  ℕ, zero, suc, ◌+◌, ◌-◌, ◌*◌, ◌≤◌, ◌<◌, ◌≡◌, ◌⊎◌, inl, inr, refl, ap, ◌∙◌, Bool, ◌&&◌, leb, ◌==◌,
  ==_iff, if◌then◌else◌, Bool-cases, none, some, List, arith, get_or, length, drop, length-set,
  length-replicate, replicate, get_or-set_self, get_or-set_ne,
}
use computer_systems_enginee.Photo.Types.{PhotoHeader, Image}
use computer_systems_enginee.Photo.Read.{
  Memory, read_byte, read_header, read_rows, store_pixel, read_obj_pixels, read_obj_image,
}
use computer_systems_enginee.Photo.Read.Rows.{bytes_Stream, columns_result, rows_result, rows_all}

module _ (width : ℕ) (code pixel : ℕ → ℕ) where
  abbrev columns : ℕ → ℕ → ℕ → ℕ → List ℕ → List ℕ
  columns n y x k img = columns_result (store_pixel width code) pixel n y x k img

  abbrev pub rows : ℕ → ℕ → List ℕ → List ℕ
  rows y k img = rows_result (store_pixel width code) pixel width y k img

  length-columns : (n y x k : ℕ) (img : List ℕ) → length (columns n y x k img) ≡ length img
  unfolding columns_result
  length-columns zero y x k img = refl
  length-columns (suc n) y x k img =
      length-columns n y (suc x) (suc k) (store_pixel width code y x (pixel k) img)
      ∙ length-set img (width * y + x) (code (pixel k))

  pub length-rows : (y k : ℕ) (img : List ℕ) → length (rows y k img) ≡ length img
  unfolding rows_result
  length-rows zero k img = refl
  length-rows (suc y) k img =
      length-rows y (k + width) (columns width y 0 k img) ∙ length-columns width y 0 k img

  columns_out :
      (n y x k : ℕ) (img : List ℕ) (i : ℕ)
      → (i < width * y + x) ⊎ (width * y + x + n ≤ i)
      → get_or (columns n y x k img) i 0 ≡ get_or img i 0
  unfolding columns_result
  columns_out zero y x k img i h = refl
  columns_out (suc n) y x k img i h =
      columns_out n y (suc x) (suc k) (store_pixel width code y x (pixel k) img) i
        (ground (arith, h))
      ∙ get_or-set_ne img (width * y + x) i (code (pixel k)) 0 (ground (arith, h))

  columns_in :
      (n y x k : ℕ) (img : List ℕ) (c : ℕ)
      → c < n
      → width * y + x + n ≤ length img
      → get_or (columns n y x k img) (width * y + x + c) 0 ≡ code (pixel (k + c))
  unfolding columns_result
  columns_in zero y x k img c h m = absurd (omega (arith, h))
  columns_in (suc n) y x k img zero h m =
      let img' = store_pixel width code y x (pixel k) img in
      columns_out n y (suc x) (suc k) img' (width * y + x + 0) (inl (omega arith))
      ∙ ap (λ i. get_or img' i 0) {x = width * y + x + 0} {y = width * y + x} (omega arith)
      ∙ get_or-set_self img (width * y + x) (code (pixel k)) 0 (omega (arith, m))
      ∙ ap (λ i. code (pixel i)) (omega arith)
  columns_in (suc n) y x k img (suc c) h m =
      let img' = store_pixel width code y x (pixel k) img in
      ap (λ i. get_or (columns n y (suc x) (suc k) img') i 0) (omega arith)
      ∙ columns_in n y (suc x) (suc k) img' c (omega arith)
          (omega (arith, m, length-set img (width * y + x) (code (pixel k))))
      ∙ ap (λ i. code (pixel i)) (omega arith)

  rows_out :
      (y k : ℕ) (img : List ℕ) (i : ℕ) → width * y ≤ i → get_or (rows y k img) i 0 ≡ get_or img i 0
  unfolding rows_result
  rows_out zero k img i h = refl
  rows_out (suc y) k img i h =
      let le : width * y + width ≤ i = grind (arith, h) in
      rows_out y (k + width) (columns width y 0 k img) i (omega (arith, le))
      ∙ columns_out width y 0 k img i (inr (omega (arith, le)))

  -- The rows are stored in the order opposite to that of the file.
  pub rows_in :
      (y k : ℕ) (img : List ℕ) (j c : ℕ)
      → j < y
      → c < width
      → width * y ≤ length img
      → get_or (rows y k img) (width * j + c) 0 ≡ code (pixel (k + (y - 1 - j) * width + c))
  unfolding rows_result
  rows_in zero k img j c h l m = absurd (omega (arith, h))
  rows_in (suc y) k img j c h l m =
      let img' = columns width y 0 k img in
      let room : width * y + width ≤ length img = grind (arith, m) in
      elim (Bool-cases (j == y)) [
        | inl t ↦
            let e : j ≡ y = (==_iff j y).0 t in
            ap (λ z. get_or (rows y (k + width) img') (width * z + c) 0) e
            ∙ rows_out y (k + width) img' (width * y + c) (omega arith)
            ∙ ap (λ i. get_or img' i 0) {x = width * y + c} {y = width * y + 0 + c} (omega arith)
            ∙ columns_in width y 0 k img c l (omega (arith, room))
            ∙ ap (λ z. code (pixel z))
                (let z : suc y - 1 - j ≡ 0 = omega (arith, e) in rw z (omega arith))
        | inr f ↦
            let lt : j < y = ground (arith, f, h) in
            rows_in y (k + width) img' j c lt l
              (omega (arith, room, length-columns width y 0 k img))
            ∙ ap (λ z. code (pixel z))
                (let z : suc y - 1 - j ≡ suc (y - 1 - j) = omega (arith, lt) in rw z (grind arith))
      ]

-- What has to hold for the image to be read: memory, the limits, and enough bytes after the header.
abbrev pub image_reads : Memory → PhotoHeader → List ℕ → Bool
image_reads memory hdr file =
    (memory.for_structure && memory.for_pixels)
    && (leb hdr.width 160 && (leb hdr.height 100 && leb (hdr.height * hdr.width) (length file)))

-- The image has the pixels of the file, the last row of the file on top.
pub record ReadsImage (hdr : PhotoHeader) (file : List ℕ) (im : Image) : Type 0 where
  pub size : im.hdr ≡ hdr
  pub full : length im.img ≡ hdr.width * hdr.height
  pub pixels :
      (x y : ℕ)
      → x < hdr.width
      → y < hdr.height
      → get_or im.img (hdr.width * y + x) 0 ≡ get_or file ((hdr.height - 1 - y) * hdr.width + x) 0

module _ (hdr : PhotoHeader) (file : List ℕ) where
  abbrev image_of : List ℕ
  image_of =
      rows hdr.width (λ pixel. pixel) (λ k. get_or file k 0) hdr.height 0
        (replicate (hdr.width * hdr.height) 0)

  loop_eq :
      read_rows read_byte
        (store_pixel hdr.width (λ pixel. pixel))
        hdr.width
        hdr.height
        (replicate (hdr.width * hdr.height) 0)
        file
      ≡ (if leb (hdr.height * hdr.width) (length file)
          then some (image_of, drop (hdr.height * hdr.width) file)
          else none)
  loop_eq =
      rows_all (store_pixel hdr.width (λ pixel. pixel)) (λ k. get_or file k 0) read_byte
        (length file) (λ k. drop k file) (bytes_Stream file) hdr.width hdr.height
        (replicate (hdr.width * hdr.height) 0)

  image-Reads : ReadsImage hdr file (record { hdr = hdr; img = image_of })
  image-Reads =
      let blank = replicate (hdr.width * hdr.height) 0 in
      let size = length-replicate (hdr.width * hdr.height) 0 in
      record {
        size = refl;
        full =
            length-rows hdr.width (λ pixel. pixel) (λ k. get_or file k 0) hdr.height 0 blank ∙ size;
        pixels = λ x y h k.
            rows_in hdr.width (λ pixel. pixel) (λ k. get_or file k 0) hdr.height 0 blank y x k h
              (omega (arith, size))
            ∙ ap (λ z. get_or file z 0) (omega arith);
      }

  pixels_read :
      (memory : Memory)
      → read_obj_pixels memory hdr file ≡ (
          if memory.for_pixels
            && (leb hdr.width 160
                && (leb hdr.height 100 && leb (hdr.height * hdr.width) (length file)))
          then some (record { hdr = hdr; img = image_of })
          else none)
  unfolding read_obj_pixels
  pixels_read memory = elim (Bool-cases (leb (hdr.height * hdr.width) (length file))) [
    | inl t ↦ rw (loop_eq, t, read_obj_pixels) (ground arith)
    | inr f ↦ rw (loop_eq, f, read_obj_pixels) (ground arith)
  ]

-- Of a file with a header, read_obj_image returns an image of the size and the pixels that the file
-- gives, the last row of the file on top, where there is memory, the image is within the limits and
-- the file has all its pixels, and NULL where not.
pub read_obj_image_lem :
    (memory : Memory) (bytes file : List ℕ) (hdr : PhotoHeader)
    → read_header bytes ≡ some (hdr, file)
    → (im : Image) × (read_obj_image memory (some bytes)
        ≡ (if image_reads memory hdr file then some im else none))
      × ReadsImage hdr file im
unfolding read_obj_image
read_obj_image_lem memory bytes file hdr e =
    let whole : read_obj_image memory (some bytes)
        ≡ (if memory.for_structure then read_obj_pixels memory hdr file else none) =
      rw (e, read_obj_image) refl in
    let pixels = pixels_read hdr file memory in
    (
      record { hdr = hdr; img = image_of hdr file },
      whole ∙ ground (arith, pixels),
      image-Reads hdr file,
    )
