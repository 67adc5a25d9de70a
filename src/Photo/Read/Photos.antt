-- ===== src/Photo/Read/Photos.antt =====
-- What `read_photo` of mp2/photo.c returns.
use mathlib.Core.List.{Perm}
use computer_systems_enginee.Base.{
  ℕ, suc, ◌+◌, ◌-◌, ◌*◌, ◌/◌, ◌≤◌, ◌<◌, ◌≡◌, inl, inr, refl, sym, ap, ◌∙◌, subst, Bool, true, ◌&&◌,
  leb, if◌then◌else◌, Bool-cases, none, some, List, [], ◌∷◌, In, arith, get_or, length, drop,
  length-replicate, replicate,
}
use computer_systems_enginee.Photo.Types.{PhotoHeader, Colour, Photo}
use computer_systems_enginee.Photo.Octree.{
  Node, Octree, Chosen, arr_initialize, insert_values, insert_all, set_plt_values, calculate_vga,
}
use computer_systems_enginee.Photo.Octree.Coding.{Coded, calculate_vga_lem}
use computer_systems_enginee.Photo.Read.{
  Memory, read_word, read_header, read_rows, store_pixel, code_pixels, read_photo_pixels,
  read_photo,
}
use computer_systems_enginee.Photo.Read.Rows.{word_at, words_Stream, rows_all}
use computer_systems_enginee.Photo.Read.Images.{rows, rows_in, length-rows}
use computer_systems_enginee.Photo.Read.Inserted.{listed, In-listed, insert_body, rows_inserted}

-- What has to hold for the photo to be read.
abbrev pub photo_reads : Memory → PhotoHeader → List ℕ → Bool
photo_reads memory hdr file =
    (memory.for_structure && memory.for_pixels)
    && (leb hdr.width 1024
        && (leb hdr.height 1024 && leb (hdr.height * hdr.width) (length file / 2)))

-- Pixel `k` of the second pass, in which the file is read from its start, is pixel `k - 2` of the
-- picture: the header takes the first two places, and the last two pixels are not shown. Each of
-- the others is coded by a colour close to its own.
pub record ReadsPhoto (hdr : PhotoHeader) (bytes file : List ℕ) (p : Photo) : Type 0 where
  pub size : p.hdr ≡ hdr
  pub full : length p.img ≡ hdr.width * hdr.height
  pub shifted :
      (x y : ℕ)
      → x < hdr.width
      → y < hdr.height
      → 2 ≤ (hdr.height - 1 - y) * hdr.width + x
      → Coded
          (get_or p.img (hdr.width * y + x) 0)
          p.palette
          (word_at file (2 * ((hdr.height - 1 - y) * hdr.width + x - 2)))

header_size :
    (bytes file : List ℕ) (hdr : PhotoHeader)
    → read_header bytes ≡ some (hdr, file)
    → (length bytes ≡ 4 + length file) × ((i : ℕ) → get_or bytes (4 + i) 0 ≡ get_or file i 0)
header_size [] file hdr e = absurd (cc e)
header_size (a ∷ []) file hdr e = absurd (cc e)
header_size (a ∷ b ∷ []) file hdr e = absurd (cc e)
header_size (a ∷ b ∷ c ∷ []) file hdr e = absurd (cc e)
header_size (a ∷ b ∷ c ∷ d ∷ rest) file hdr e =
    let same : rest ≡ file = cc e in
    (
      ap (λ l. suc (suc (suc (suc (length l))))) same ∙ omega arith,
      λ i.
          ap (λ z. get_or (a ∷ b ∷ c ∷ d ∷ rest) z 0) {x = 4 + i} {y = suc (suc (suc (suc i)))}
            (omega arith)
          ∙ ap (λ l. get_or l i 0) same,
    )

module _ (qsort : List Node → List Node) (garbage : List Colour) (memory : Memory)
    (bytes file : List ℕ) (hdr : PhotoHeader) (header : read_header bytes ≡ some (hdr, file)) where
  abbrev picture_tree : Octree
  picture_tree =
      insert_all (listed (λ k. word_at file (2 * k)) 0 (hdr.height * hdr.width)) arr_initialize

  abbrev chosen : Chosen
  chosen = set_plt_values qsort garbage picture_tree

  abbrev photo_of : List ℕ
  photo_of =
      rows hdr.width (calculate_vga chosen.fourth) (λ k. word_at bytes (2 * k)) hdr.height 0
        (replicate (hdr.width * hdr.height) 0)

  first_pass :
      read_rows read_word
        (λ y x pixel tree. insert_values pixel tree)
        hdr.width
        hdr.height
        arr_initialize
        file
      ≡ (if leb (hdr.height * hdr.width) (length file / 2)
          then some (picture_tree, drop (2 * (hdr.height * hdr.width)) file)
          else none)
  first_pass =
      rows_all (insert_body (λ k. word_at file (2 * k))) (λ k. word_at file (2 * k)) read_word
        (length file / 2) (λ k. drop (2 * k) file) (words_Stream file) hdr.width hdr.height
        arr_initialize
      ∙ ap
          (λ t.
            if leb (hdr.height * hdr.width) (length file / 2)
            then some (t, drop (2 * (hdr.height * hdr.width)) file)
            else none)
          (rows_inserted (λ k. word_at file (2 * k)) hdr.width hdr.height 0 arr_initialize)

  second_pass :
      hdr.height * hdr.width ≤ length file / 2
      → code_pixels qsort garbage hdr bytes picture_tree
        ≡ some (record { hdr = hdr; palette = chosen.palette; img = photo_of })
  unfolding code_pixels
  second_pass h =
      let all =
        rows_all (store_pixel hdr.width (calculate_vga chosen.fourth)) (λ k. word_at bytes (2 * k))
          read_word (length bytes / 2) (λ k. drop (2 * k) bytes) (words_Stream bytes) hdr.width
          hdr.height (replicate (hdr.width * hdr.height) 0) in
      let fits : leb (hdr.height * hdr.width) (length bytes / 2) ≡ true =
        ground (arith, h, (header_size bytes file hdr header).0) in
      rw (all, fits, code_pixels) refl

  pixels_read : read_photo_pixels qsort garbage memory hdr bytes file ≡ (
      if memory.for_pixels
        && (leb hdr.width 1024
            && (leb hdr.height 1024 && leb (hdr.height * hdr.width) (length file / 2)))
      then some (record { hdr = hdr; palette = chosen.palette; img = photo_of })
      else none)
  unfolding read_photo_pixels
  pixels_read = elim (Bool-cases (leb (hdr.height * hdr.width) (length file / 2))) [
    | inl t ↦
        rw (first_pass, t, read_photo_pixels) (rw (second_pass (ground (arith, t))) (ground arith))
    | inr f ↦ rw (first_pass, f, read_photo_pixels) (ground arith)
  ]

  word_shift : (m n : ℕ) → m ≡ n → 2 ≤ n → word_at bytes (2 * m) ≡ word_at file (2 * (n - 2))
  word_shift m n e two =
      let (_, at) = header_size bytes file hdr header in
      let low : get_or bytes (2 * m) 0 ≡ get_or file (2 * (n - 2)) 0 =
        ap (λ z. get_or bytes z 0) {x = 2 * m} {y = 4 + 2 * (n - 2)} (omega (arith, e, two))
        ∙ at (2 * (n - 2)) in
      let high : get_or bytes (suc (2 * m)) 0 ≡ get_or file (suc (2 * (n - 2))) 0 =
        ap (λ z. get_or bytes z 0) {x = suc (2 * m)} {y = 4 + suc (2 * (n - 2))}
          (omega (arith, e, two))
        ∙ at (suc (2 * (n - 2))) in
      omega (arith, low, high)

  pixel_lt : (a x : ℕ) → a < hdr.height → x < hdr.width → a * hdr.width + x < hdr.height * hdr.width
  pixel_lt a x h k = grind arith

  pub photo-Reads :
      ((l : List Node) → Perm (qsort l) l)
      → length garbage ≡ 192
      → ReadsPhoto hdr bytes file (record { hdr = hdr; palette = chosen.palette; img = photo_of })
  photo-Reads sorts room = record {
    size = refl;
    full =
        length-rows hdr.width (calculate_vga chosen.fourth) (λ k. word_at bytes (2 * k)) hdr.height
          0 (replicate (hdr.width * hdr.height) 0)
        ∙ length-replicate (hdr.width * hdr.height) 0;
    shifted = λ x y h k two.
        let n = (hdr.height - 1 - y) * hdr.width + x in
        let stored : get_or photo_of (hdr.width * y + x) 0
            ≡ calculate_vga chosen.fourth (word_at file (2 * (n - 2))) =
          rows_in hdr.width (calculate_vga chosen.fourth) (λ k. word_at bytes (2 * k)) hdr.height 0
            (replicate (hdr.width * hdr.height) 0) y x k h
            (omega (arith, length-replicate {A = ℕ} (hdr.width * hdr.height) 0))
          ∙ ap (calculate_vga chosen.fourth)
              (word_shift (0 + (hdr.height - 1 - y) * hdr.width + x) n (omega arith) two) in
        subst (λ v. Coded v chosen.palette (word_at file (2 * (n - 2)))) (sym stored)
          (calculate_vga_lem qsort sorts garbage room
            (listed (λ k. word_at file (2 * k)) 0 (hdr.height * hdr.width))
            (word_at file (2 * (n - 2)))
            (subst
              (λ z.
                In (word_at file (2 * z))
                  (listed (λ k. word_at file (2 * k)) 0 (hdr.height * hdr.width)))
              {x = 0 + (n - 2)} (omega arith)
              (In-listed (λ k. word_at file (2 * k)) 0 (hdr.height * hdr.width) (n - 2)
                (omega (arith, pixel_lt (hdr.height - 1 - y) x (omega (arith, k)) h, two)))));
  }

-- Of a file with a header, read_photo returns a photo where there is memory, the photo is within
-- the limits and the file has all its pixels, and NULL where not. Whatever the order that qsort
-- puts the nodes in, as long as it keeps them, and for a palette of 192 colours: a pixel of the
-- photo, after the first two that are read, is coded by a colour close to that of the pixel two
-- places before it in the file.
pub read_photo_lem :
    (qsort : List Node → List Node) (garbage : List Colour) (memory : Memory) (bytes file : List ℕ)
    (hdr : PhotoHeader)
    → ((l : List Node) → Perm (qsort l) l)
    → length garbage ≡ 192
    → read_header bytes ≡ some (hdr, file)
    → (p : Photo) × (read_photo qsort garbage memory (some bytes)
        ≡ (if photo_reads memory hdr file then some p else none))
      × ReadsPhoto hdr bytes file p
unfolding read_photo read_photo_pixels
read_photo_lem qsort garbage memory bytes file hdr sorts room e =
    let whole : read_photo qsort garbage memory (some bytes) ≡ (
        if memory.for_structure
        then read_photo_pixels qsort garbage memory hdr bytes file
        else none) =
      rw (e, read_photo) refl in
    let pixels = pixels_read qsort garbage memory bytes file hdr e in
    (
      _,
      whole ∙ ground (arith, pixels),
      photo-Reads qsort garbage memory bytes file hdr e sorts room,
    )
