-- ===== src/Photo/Lines/Picture.antt =====
-- The picture of a room, pixel by pixel, and one object's part in a line of it.
use computer_systems_enginee.Base.{
  ℕ, zero, suc, ◌+◌, ◌-◌, ◌*◌, ◌≤◌, ◌<◌, ◌≡◌, inl, inr, ap, ◌∙◌, ◌||◌, ◌&&◌, leb, ltb, ◌==◌, ==_iff,
  if◌then◌else◌, false, Bool-cases, get_or, arith,
}
use native.Mathlib.Nat.{mul_comm, add_comm}
use computer_systems_enginee.Photo.Types.{Image}
use computer_systems_enginee.World.State.{update}
use computer_systems_enginee.Photo.Lines.{
  obj_clr_transp, scroll_x_dim, scroll_y_dim, copy_pixels, horiz_object, vert_object,
}

-- A pixel over another one.
abbrev pub over : ℕ → ℕ → ℕ
over p below = if p == obj_clr_transp then below else p

-- What an object at (obj_x, obj_y) shows at (x, y).
abbrev pub object_pixel : ℕ → ℕ → Image → ℕ → ℕ → ℕ
object_pixel obj_x obj_y img x y =
    if leb obj_x x
      && ltb x (obj_x + img.hdr.width)
      && (leb obj_y y && ltb y (obj_y + img.hdr.height))
    then get_or img.img (img.hdr.width * (y - obj_y) + (x - obj_x)) 0
    else obj_clr_transp

copied_ne :
    (pixels buf : ℕ → ℕ) (idx k i : ℕ)
    → (idx == i) ≡ false
    → (if pixels k == obj_clr_transp then buf else update buf idx (pixels k)) i ≡ buf i
copied_ne pixels buf idx k i h = ground (arith, h)

copied_self :
    (pixels buf : ℕ → ℕ) (idx k : ℕ)
    → (if pixels k == obj_clr_transp then buf else update buf idx (pixels k)) idx
      ≡ over (pixels k) (buf idx)
copied_self pixels buf idx k = ground arith

module _ (limit : ℕ) (pixels : ℕ → ℕ) where
  -- Which index of the buffer gets which pixel of the object.
  abbrev pub Copies : ℕ → ℕ → ℕ → (ℕ → ℕ) → ℕ → ℕ → Type 0
  Copies n idx k buf i v = v ≡ (
      if leb idx i && (ltb i (idx + n) && ltb (k + (i - idx)) limit)
      then over (pixels (k + (i - idx))) (buf i)
      else buf i)

  pub copy_pixels_lem :
      (n idx k : ℕ) (buf : ℕ → ℕ) (i : ℕ)
      → Copies n idx k buf i (copy_pixels n idx k limit pixels buf i)
  unfolding copy_pixels
  copy_pixels_lem zero idx k buf i = ground arith
  copy_pixels_lem (suc n) idx k buf i = elim (Bool-cases (ltb k limit)) [
    | inr f ↦ rw f (ground (arith, f))
    | inl t ↦
        let copied : ℕ → ℕ =
          if pixels k == obj_clr_transp then buf else update buf idx (pixels k) in
        let rest = copy_pixels_lem n (suc idx) (suc k) copied i in
        elim (Bool-cases (idx == i))
          as (λ _. Copies (suc n) idx k buf i (copy_pixels (suc n) idx k limit pixels buf i)) [
            | inl e ↦ rw t (rest ∙ ground (arith, copied_self pixels buf idx k, (==_iff idx i).0 e))
            | inr ne ↦
                let z : idx < i → suc k + (i - suc idx) ≡ k + (i - idx) = λ h. omega arith in
                let c = copied_ne pixels buf idx k i ne in rw t (rest ∙ ground (arith, z, c, ne))
          ]
  ]

  -- The object begins to the right or to the left of the start of the line.
  pub line_lem :
      (dim x obj : ℕ) (buf : ℕ → ℕ) (i : ℕ)
      → i < dim
      → (if leb x obj
            then copy_pixels (dim - (obj - x)) (obj - x) 0 limit pixels buf
            else copy_pixels dim 0 (x - obj) limit pixels buf)
          i
        ≡ (if leb obj (x + i) && ltb (x + i) (obj + limit)
            then over (pixels (x + i - obj)) (buf i)
            else buf i)
  line_lem dim x obj buf i h = elim (Bool-cases (leb x obj)) [
    | inl t ↦
        let e : obj ≤ x + i → 0 + (i - (obj - x)) ≡ x + i - obj = λ k. ground (arith, t, k) in
        rw t (copy_pixels_lem (dim - (obj - x)) (obj - x) 0 buf i ∙ ground (arith, h, t, e))
    | inr f ↦
        let e : x - obj + (i - 0) ≡ x + i - obj = ground (arith, f) in
        rw f (copy_pixels_lem dim 0 (x - obj) buf i ∙ ground (arith, h, f, e))
  ]

module _ (x y obj_x obj_y : ℕ) (img : Image) (buf : ℕ → ℕ) (i : ℕ) where
  -- One object in a row, at a pixel of the row.
  pub horiz_object_lem :
      i < scroll_x_dim
      → horiz_object x y obj_x obj_y img buf i
        ≡ over (object_pixel obj_x obj_y img (x + i) y) (buf i)
  unfolding horiz_object
  horiz_object_lem h =
      let width = img.hdr.width in
      let pixels : ℕ → ℕ = λ imgx. get_or img.img ((y - obj_y) * width + imgx) 0 in
      let at : pixels (x + i - obj_x) ≡ get_or img.img (width * (y - obj_y) + (x + i - obj_x)) 0 =
        ap (λ z. get_or img.img (z + (x + i - obj_x)) 0) (mul_comm (y - obj_y) width) in
      elim (Bool-cases (
        ltb y obj_y
        || leb (obj_y + img.hdr.height) y
        || (leb (x + scroll_x_dim) obj_x || leb (obj_x + img.hdr.width) x))) [
          | inl t ↦ rw t (ground (arith, h, t))
          | inr f ↦ rw f (line_lem width pixels 320 x obj_x buf i h ∙ ground (arith, f, at))
        ]

  -- One object in a column.
  pub vert_object_lem :
      i < scroll_y_dim
      → vert_object x y obj_x obj_y img buf i
        ≡ over (object_pixel obj_x obj_y img x (y + i)) (buf i)
  unfolding vert_object
  vert_object_lem h =
      let width = img.hdr.width in
      let height = img.hdr.height in
      let pixels : ℕ → ℕ = λ imgy. get_or img.img (x - obj_x + width * imgy) 0 in
      let at : pixels (y + i - obj_y) ≡ get_or img.img (width * (y + i - obj_y) + (x - obj_x)) 0 =
        ap (λ z. get_or img.img z 0) (add_comm (x - obj_x) (width * (y + i - obj_y))) in
      elim (Bool-cases (
        ltb x obj_x
        || leb (obj_x + img.hdr.width) x
        || (leb (y + scroll_y_dim) obj_y || leb (obj_y + img.hdr.height) y))) [
          | inl t ↦ rw t (ground (arith, h, t))
          | inr f ↦ rw f (line_lem height pixels 182 y obj_y buf i h ∙ ground (arith, f, at))
        ]
