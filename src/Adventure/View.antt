-- ===== src/Adventure/View.antt =====
-- How mp2/adventure.c moves the view over a room's photo. Each motion also gives the lines that it
-- draws, in their order. The photo's size is a number below 2 ^ 16, and the differences are those of
-- 32-bit words, which count as negative from 2 ^ 31 on.
pub mod Motions
pub use computer_systems_enginee.Modex.{scroll_x_dim, scroll_y_dim}
use computer_systems_enginee.Base.{
  ℕ, zero, suc, ◌+◌, ◌-◌, ◌*◌, ◌%◌, ◌^◌, Bool, ◌||◌, leb, ltb, if◌then◌else◌, List, [], ◌∷◌,
}

-- The numbers of `game_info_t`.
pub record View : Type 0 where
  pub map_x : ℕ
  pub map_y : ℕ
  pub x_speed : ℕ
  pub y_speed : ℕ

abbrev pub motion_speed : ℕ
motion_speed = 2

-- `init_game`, but for the room.
unfoldable pub init_view : View
init_view = record { map_x = 0; map_y = 0; x_speed = motion_speed; y_speed = motion_speed }

-- `size - dim - pos`
unfoldable pub room_left : ℕ → ℕ → ℕ → ℕ
room_left size dim pos = (size + 2 ^ 33 - dim - pos) % 2 ^ 32

-- `speed > delta ? delta : speed`, of signed numbers.
unfoldable pub clip : ℕ → ℕ → ℕ
clip speed delta = if leb (2 ^ 31) delta || ltb delta speed then delta else speed

-- `for (idx = 0; delta > idx; idx++) draw (idx);`, from `idx` on.
unfoldable pub first_lines : ℕ → ℕ → List ℕ
first_lines idx zero = []
first_lines idx (suc delta) = idx ∷ first_lines (suc idx) delta

-- `for (idx = 1; delta >= idx; idx++) draw (dim - idx);`, with `end` for `dim - idx + 1`.
unfoldable pub last_lines : ℕ → ℕ → List ℕ
last_lines end zero = []
last_lines end (suc delta) = (end - 1) ∷ last_lines (end - 1) delta

-- No line is drawn for a negative number.
abbrev pub drawn_last : ℕ → ℕ → List ℕ
drawn_last dim delta = if leb (2 ^ 31) delta then [] else last_lines dim delta

unfoldable pub move_photo_down : View → View × List ℕ
move_photo_down v =
    let delta = if ltb v.map_y v.y_speed then v.map_y else v.y_speed in
    (record v { map_y = v.map_y - delta }, first_lines 0 delta)

unfoldable pub move_photo_right : View → View × List ℕ
move_photo_right v =
    let delta = if ltb v.map_x v.x_speed then v.map_x else v.x_speed in
    (record v { map_x = v.map_x - delta }, first_lines 0 delta)

unfoldable pub move_photo_left : ℕ → View → View × List ℕ
move_photo_left width v =
    let delta = clip v.x_speed (room_left width scroll_x_dim v.map_x) in
    (record v { map_x = (v.map_x + delta) % 2 ^ 32 }, drawn_last scroll_x_dim delta)

unfoldable pub move_photo_up : ℕ → View → View × List ℕ
move_photo_up height v =
    let delta = clip v.y_speed (room_left height scroll_y_dim v.map_y) in
    (record v { map_y = (v.map_y + delta) % 2 ^ 32 }, drawn_last scroll_y_dim delta)
