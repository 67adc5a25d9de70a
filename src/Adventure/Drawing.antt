-- ===== src/Adventure/Drawing.antt =====
-- The drawing of mp2/adventure.c: a motion of the photo moves the window of the build buffer and
-- draws the lines that come into view, and a room that is entered is drawn as a whole.
pub mod Lines
pub mod Motions
pub mod Frames
use computer_systems_enginee.Base.{ℕ, Option, none, some, List, [], ◌∷◌}
use computer_systems_enginee.Modex.{Display}
use computer_systems_enginee.Modex.Window.{LineFn, set_view_window, draw_horiz_line, draw_vert_line}
use computer_systems_enginee.Modex.Screen.{show_screen}
use computer_systems_enginee.Input.Keyboard.{Cmd, cmd_right, cmd_left, cmd_up, cmd_down}
use computer_systems_enginee.Adventure.View.{
  View, scroll_y_dim, first_lines, move_photo_down, move_photo_right, move_photo_left,
  move_photo_up,
}

-- `(void)draw (idx);`, so that a line off the screen changes nothing.
abbrev pub drawn : Option Display → Display → Display
drawn none d = d
drawn (some d') d = d'

-- A loop that draws rows, or columns.
unfoldable pub draw_rows : LineFn → List ℕ → Display → Display
draw_rows f [] d = d
draw_rows f (y ∷ lines) d = draw_rows f lines (drawn (draw_horiz_line f y d) d)

unfoldable pub draw_columns : LineFn → List ℕ → Display → Display
draw_columns g [] d = d
draw_columns g (x ∷ lines) d = draw_columns g lines (drawn (draw_vert_line g x d) d)

-- `redraw_room`
unfoldable pub redraw_room : LineFn → Display → Display
redraw_room f d = draw_rows f (first_lines 0 scroll_y_dim) d

abbrev window_of : View → Display → Display
window_of v d = set_view_window v.map_x v.map_y d

-- The whole of the four motions: the view, the window, and the lines.
unfoldable pub scroll_down : LineFn → View → Display → View × Display
scroll_down f v d = let (v', lines) = move_photo_down v in (v', draw_rows f lines (window_of v' d))

unfoldable pub scroll_right : LineFn → View → Display → View × Display
scroll_right g v d =
    let (v', lines) = move_photo_right v in (v', draw_columns g lines (window_of v' d))

unfoldable pub scroll_left : LineFn → ℕ → View → Display → View × Display
scroll_left g width v d =
    let (v', lines) = move_photo_left width v in (v', draw_columns g lines (window_of v' d))

unfoldable pub scroll_up : LineFn → ℕ → View → Display → View × Display
scroll_up f height v d =
    let (v', lines) = move_photo_up height v in (v', draw_rows f lines (window_of v' d))

-- The start of a turn of the event loop after the player enters a room.
unfoldable pub draw_entered : LineFn → View → Display → View × Display
draw_entered f v d =
    let v' = record v { map_x = 0; map_y = 0 } in (v', redraw_room f (window_of v' d))

-- The case of the switch of `game_loop` that a command of the arrow keys takes.
unfoldable pub draw_command : LineFn → LineFn → ℕ → ℕ → Cmd → View → Display → View × Display
unfolding scroll_down scroll_right scroll_left scroll_up
draw_command f g width height cmd_up v d = scroll_down f v d
draw_command f g width height cmd_right v d = scroll_left g width v d
draw_command f g width height cmd_down v d = scroll_up f height v d
draw_command f g width height cmd_left v d = scroll_right g v d
draw_command f g width height _ v d = (v, d)

-- Turns of the event loop in one room, each of which shows the screen and then draws.
unfoldable pub draw_frames : LineFn → LineFn → ℕ → ℕ → List Cmd → View → Display → View × Display
unfolding draw_command
draw_frames f g width height [] v d = (v, d)
draw_frames f g width height (c ∷ cmds) v d =
    let (v', d') = draw_command f g width height c v (show_screen d) in
    draw_frames f g width height cmds v' d'
