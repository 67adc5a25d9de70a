-- ===== src/Photo/Lines/Agreement.antt =====
-- `fill_horiz_buffer` and `fill_vert_buffer` of mp2/photo.c give the lines of one picture.
use computer_systems_enginee.Base.{
  ℕ, zero, suc, ◌+◌, ◌*◌, ◌<◌, ◌≡◌, inl, inr, refl, ap, ◌∙◌, sym, ◌&&◌, ltb, if◌then◌else◌, Option,
  none, some, get_or, List, [], ◌∷◌, arith, length, In, IsSome, IsSome-value, AllBelow-In,
  length-le_of_Distinct,
}
use native.Mathlib.Nat.{add_assoc}
use computer_systems_enginee.Photo.Types.{Photo, Image}
use computer_systems_enginee.World.Ids.{n_objects}
use computer_systems_enginee.World.State.{World}
use computer_systems_enginee.World.Access.{obj_get_x, obj_get_y, obj_image, room_photo}
use computer_systems_enginee.World.Objects.{walk_fuel}
use computer_systems_enginee.World.Objects.Chains.{Chain}
use computer_systems_enginee.World.Validity.{IsValid}
use computer_systems_enginee.Photo.Lines.{
  obj_clr_transp, scroll_x_dim, scroll_y_dim, horiz_object, vert_object, fill_objects, photo_row,
  photo_column, fill_horiz_buffer, fill_vert_buffer,
}
use computer_systems_enginee.Photo.Lines.Picture.{
  over, object_pixel, horiz_object_lem, vert_object_lem,
}

abbrev image_pixel : ℕ → ℕ → Option Image → ℕ → ℕ → ℕ
image_pixel obj_x obj_y none x y = obj_clr_transp
image_pixel obj_x obj_y (some img) x y = object_pixel obj_x obj_y img x y

-- The objects over a pixel, the last one on top.
abbrev pub objects_over : World → List ℕ → ℕ → ℕ → ℕ → ℕ
objects_over w [] x y below = below
objects_over w (o ∷ l) x y below =
    objects_over w l x y
      (over (image_pixel (obj_get_x w o) (obj_get_y w o) (obj_image w o) x y) below)

-- The pixel (x, y) of a room with this photo and these objects: black outside the photo.
abbrev pub picture : World → Photo → List ℕ → ℕ → ℕ → ℕ
picture w view l x y = objects_over w l x y (
    if ltb x view.hdr.width && ltb y view.hdr.height
    then get_or view.img (view.hdr.width * y + x) 0
    else 0)

-- The loop over the objects ends, and each index of the buffer has the pixel that it stands for.
pub record Fills (w : World) (l : List ℕ) (draw : ℕ → ℕ → Image → (ℕ → ℕ) → ℕ → ℕ) (buf : ℕ → ℕ)
    (result : Option (ℕ → ℕ)) : Type 0 where
  pub line : ℕ → ℕ
  pub returns : result ≡ some line
  pub pixels :
      (i x y : ℕ)
      → ((obj_x obj_y : ℕ) (img : Image) (b : ℕ → ℕ)
          → draw obj_x obj_y img b i ≡ over (object_pixel obj_x obj_y img x y) (b i))
      → line i ≡ objects_over w l x y (buf i)

drawn_object :
    (w : World) (draw : ℕ → ℕ → Image → (ℕ → ℕ) → ℕ → ℕ) (f o : ℕ) (img : Image) (buf : ℕ → ℕ)
    → (w.object o).img ≡ some img
    → fill_objects draw (suc f) (some o) buf w
      ≡ fill_objects draw f (w.object o).next (draw (w.object o).x (w.object o).y img buf) w
unfolding fill_objects
drawn_object w draw f o img buf e = rw (e, fill_objects) refl

fill_objects-Fills :
    (w : World) (draw : ℕ → ℕ → Image → (ℕ → ℕ) → ℕ → ℕ) (f : ℕ) (obj : Option ℕ) (l : List ℕ)
    (buf : ℕ → ℕ)
    → length l < f
    → Chain w.object obj l
    → ((o : ℕ) → In o l → IsSome (w.object o).img)
    → Fills w l draw buf (fill_objects draw f obj buf w)
unfolding fill_objects
fill_objects-Fills w draw zero obj l buf h c s = absurd (omega arith)
fill_objects-Fills w draw (suc f) obj [] buf h c s =
    rw c (record { line = buf; returns = refl; pixels = λ i x y d. refl })
fill_objects-Fills w draw (suc f) obj (o ∷ l) buf h c s =
    let (img, e) = IsSome-value (s o (inl refl)) in
    let rest =
      fill_objects-Fills w draw f (w.object o).next l (draw (w.object o).x (w.object o).y img buf)
        (omega arith) c.1 (λ q i. s q (inr i)) in
    record {
      line = rest.line;
      returns =
          ap (λ p. fill_objects draw (suc f) p buf w) c.0
          ∙ drawn_object w draw f o img buf e
          ∙ rest.returns;
      pixels = λ i x y d.
          rest.pixels i x y d
          ∙ ap (objects_over w l x y) (
              d (w.object o).x (w.object o).y img buf
              ∙ ap (λ p. over (image_pixel (w.object o).x (w.object o).y p x y) (buf i)) (sym e));
    }

module _ (w : World) (v : IsValid w) (r : ℕ) (view : Photo)
    (seen : room_photo w r ≡ some view) where
  room_Fills :
      (draw : ℕ → ℕ → Image → (ℕ → ℕ) → ℕ → ℕ) (buf : ℕ → ℕ)
      → Fills w (v.items r) draw buf (fill_objects draw walk_fuel (w.room r).contents buf w)
  room_Fills draw buf =
      fill_objects-Fills w draw walk_fuel (w.room r).contents (v.items r) buf
        (omega (
          arith,
          length-le_of_Distinct n_objects (v.items r) (v.holds.small r) (v.holds.distinct r),
        ))
        (v.holds.chained r)
        (λ o i. v.ready.drawn o (AllBelow-In n_objects o (v.items r) (v.holds.small r) i))

  -- In a well-formed world, fill_horiz_buffer ends for a room with a photo, and each pixel of the
  -- buffer is that of the room's picture, for a row of the photo.
  pub fill_horiz_buffer_lem :
      (x y : ℕ)
      → y < view.hdr.height
      → (line : ℕ → ℕ) × (fill_horiz_buffer r x y w ≡ some line)
        × ((i : ℕ) → i < scroll_x_dim → line i ≡ picture w view (v.items r) (x + i) y)
  unfolding fill_horiz_buffer
  fill_horiz_buffer_lem x y h =
      let fills = room_Fills (horiz_object x y) (photo_row view x y) in
      (
        fills.line,
        rw (seen, fill_horiz_buffer) fills.returns,
        λ i k.
            fills.pixels i (x + i) y (λ ox oy img b. horiz_object_lem x y ox oy img b i k)
            ∙ ap (objects_over w (v.items r) (x + i) y) (
                ground
                  (arith, h, ap (λ z. get_or view.img z 0) (add_assoc (view.hdr.width * y) x i))),
      )

  -- In a well-formed world, fill_vert_buffer ends for a room with a photo, and each pixel of the
  -- buffer is that of the room's picture, for a column of the photo.
  pub fill_vert_buffer_lem :
      (x y : ℕ)
      → x < view.hdr.width
      → (line : ℕ → ℕ) × (fill_vert_buffer r x y w ≡ some line)
        × ((i : ℕ) → i < scroll_y_dim → line i ≡ picture w view (v.items r) x (y + i))
  unfolding fill_vert_buffer
  fill_vert_buffer_lem x y h =
      let fills = room_Fills (vert_object x y) (photo_column view x y) in
      (
        fills.line,
        rw (seen, fill_vert_buffer) fills.returns,
        λ i k.
            fills.pixels i x (y + i) (λ ox oy img b. vert_object_lem x y ox oy img b i k)
            ∙ ap (objects_over w (v.items r) x (y + i)) (ground (arith, h)),
      )

  -- In a well-formed world, for a room with a photo, a row and a column that cross inside the
  -- photo: fill_horiz_buffer and fill_vert_buffer end, and where the row crosses the column their
  -- buffers have the same pixel.
  pub fill_buffers_agree :
      (x y i j : ℕ)
      → i < scroll_x_dim
      → j < scroll_y_dim
      → x + i < view.hdr.width
      → y + j < view.hdr.height
      → (row : ℕ → ℕ) × (column : ℕ → ℕ) × (fill_horiz_buffer r x (y + j) w ≡ some row)
        × (fill_vert_buffer r (x + i) y w ≡ some column)
        × (row i ≡ column j)
  fill_buffers_agree x y i j a b c d =
      let (row, e, rows) = fill_horiz_buffer_lem x (y + j) d in
      let (column, f, columns) = fill_vert_buffer_lem (x + i) y c in
      (row, column, e, f, rows i a ∙ sym (columns j b))
