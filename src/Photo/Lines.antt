-- ===== src/Photo/Lines.antt =====
-- The two functions of mp2/photo.c that make the picture of a line: the room's photo, and the objects
-- in the room over it. A buffer is a function from its indices.
pub mod Picture
pub mod Agreement
pub use computer_systems_enginee.Modex.{scroll_x_dim, scroll_y_dim}
use computer_systems_enginee.Base.{
  ℕ, zero, suc, ◌+◌, ◌-◌, ◌*◌, ◌||◌, ◌&&◌, leb, ltb, ◌==◌, if◌then◌else◌, Option, none, some,
  get_or,
}
use computer_systems_enginee.Photo.Types.{Photo, Image}
use computer_systems_enginee.World.State.{World, update}
use computer_systems_enginee.World.Access.{
  obj_get_x, obj_get_y, obj_image, obj_next, room_contents_iterate, room_photo,
}
use computer_systems_enginee.World.Objects.{walk_fuel}

abbrev pub obj_clr_transp : ℕ
obj_clr_transp = 0x40

-- The loop that copies an object's pixels, with `n` indices of the buffer to go: `pixels` gives the
-- pixels of the object along the line, of which there are `limit`.
unfoldable pub copy_pixels : ℕ → ℕ → ℕ → ℕ → (ℕ → ℕ) → (ℕ → ℕ) → ℕ → ℕ
copy_pixels zero idx k limit pixels buf = buf
copy_pixels (suc n) idx k limit pixels buf =
    let copied = if pixels k == obj_clr_transp then buf else update buf idx (pixels k) in
    let rest = copy_pixels n (suc idx) (suc k) limit pixels copied in
    if ltb k limit then rest else buf

-- The body of the loop over the objects in `fill_horiz_buffer`.
unfoldable pub horiz_object : ℕ → ℕ → ℕ → ℕ → Image → (ℕ → ℕ) → ℕ → ℕ
unfolding copy_pixels
horiz_object x y obj_x obj_y img buf =
    let outside =
      ltb y obj_y
      || leb (obj_y + img.hdr.height) y
      || (leb (x + scroll_x_dim) obj_x || leb (obj_x + img.hdr.width) x) in
    let yoff = (y - obj_y) * img.hdr.width in
    let pixels : ℕ → ℕ = λ imgx. get_or img.img (yoff + imgx) 0 in
    if outside
    then buf
    else if leb x obj_x
    then copy_pixels (scroll_x_dim - (obj_x - x)) (obj_x - x) 0 img.hdr.width pixels buf
    else copy_pixels scroll_x_dim 0 (x - obj_x) img.hdr.width pixels buf

-- The body of the loop over the objects in `fill_vert_buffer`.
unfoldable pub vert_object : ℕ → ℕ → ℕ → ℕ → Image → (ℕ → ℕ) → ℕ → ℕ
unfolding copy_pixels
vert_object x y obj_x obj_y img buf =
    let outside =
      ltb x obj_x
      || leb (obj_x + img.hdr.width) x
      || (leb (y + scroll_y_dim) obj_y || leb (obj_y + img.hdr.height) y) in
    let xoff = x - obj_x in
    let pixels : ℕ → ℕ = λ imgy. get_or img.img (xoff + img.hdr.width * imgy) 0 in
    if outside
    then buf
    else if leb y obj_y
    then copy_pixels (scroll_y_dim - (obj_y - y)) (obj_y - y) 0 img.hdr.height pixels buf
    else copy_pixels scroll_y_dim 0 (y - obj_y) img.hdr.height pixels buf

-- A loop over the objects of the room, from `obj` on, with the body `draw`; `none` is a fault.
unfoldable pub fill_objects :
    (ℕ → ℕ → Image → (ℕ → ℕ) → ℕ → ℕ) → ℕ → Option ℕ → (ℕ → ℕ) → World → Option (ℕ → ℕ)
fill_objects draw zero obj buf w = none
fill_objects draw (suc f) none buf w = some buf
fill_objects draw (suc f) (some o) buf w = elim (obj_image w o) [
  | none ↦ none
  | some img ↦ fill_objects draw f (obj_next w o) (draw (obj_get_x w o) (obj_get_y w o) img buf) w
]

-- The loop over the pixels of the photo in `fill_horiz_buffer`.
abbrev pub photo_row : Photo → ℕ → ℕ → ℕ → ℕ
photo_row view x y idx =
    if ltb (x + idx) view.hdr.width then get_or view.img (view.hdr.width * y + x + idx) 0 else 0

-- The loop over the pixels of the photo in `fill_vert_buffer`.
abbrev pub photo_column : Photo → ℕ → ℕ → ℕ → ℕ
photo_column view x y idx =
    if ltb (y + idx) view.hdr.height then get_or view.img (view.hdr.width * (y + idx) + x) 0 else 0

-- `fill_horiz_buffer`, for the room `r`.
unfoldable pub fill_horiz_buffer : ℕ → ℕ → ℕ → World → Option (ℕ → ℕ)
unfolding horiz_object fill_objects
fill_horiz_buffer r x y w = elim (room_photo w r) [
  | none ↦ none
  | some view ↦
      fill_objects (horiz_object x y) walk_fuel (room_contents_iterate w r) (photo_row view x y) w
]

-- `fill_vert_buffer`, for the room `r`.
unfoldable pub fill_vert_buffer : ℕ → ℕ → ℕ → World → Option (ℕ → ℕ)
unfolding vert_object fill_objects
fill_vert_buffer r x y w = elim (room_photo w r) [
  | none ↦ none
  | some view ↦
      fill_objects (vert_object x y) walk_fuel (room_contents_iterate w r) (photo_column view x y) w
]
