-- ===== src/Examples/Pictures.antt =====
-- Pictures at concrete inputs: a display in order, the lab of World's example, and small files.
use mathlib.Core.List.{Perm}
use mathlib.Core.List.Perm
use computer_systems_enginee.Base.{
  ℕ, ◌+◌, ◌%◌, ◌≡◌, refl, inl, inr, arith, true, if◌then◌else◌, none, some, List, [], ◌∷◌,
  replicate, codes,
}
use computer_systems_enginee.Examples.Rooms.{lab_world, lab_photo, lab-IsValid}
use computer_systems_enginee.Photo.Types.{PhotoHeader, Colour, Photo, Image}
use computer_systems_enginee.Photo.Lines.{fill_horiz_buffer, fill_vert_buffer}
use computer_systems_enginee.Photo.Lines.Agreement.{fill_buffers_agree}
use computer_systems_enginee.Photo.Octree.{
  Node, insert_all, arr_initialize, set_plt_values, calculate_vga,
}
use computer_systems_enginee.Photo.Octree.Coding.{Coded, calculate_vga_lem}
use computer_systems_enginee.Photo.Read.{Memory, read_photo, read_obj_image, prep_room}
use computer_systems_enginee.Photo.Read.Images.{image_reads, ReadsImage, read_obj_image_lem}
use computer_systems_enginee.Photo.Read.Photos.{photo_reads, ReadsPhoto, read_photo_lem}
use computer_systems_enginee.Photo.Read.Palette.{Prepared, prep_room_lem}
use computer_systems_enginee.Modex.{VgaState, Display, origin}
use computer_systems_enginee.Modex.Pixels.{IsPlaced}
use computer_systems_enginee.Modex.Window.{LineFn, set_view_window, draw_horiz_line}
use computer_systems_enginee.Modex.Window.Moves.{Moved, set_view_window_lem}
use computer_systems_enginee.Modex.Window.Lines.{DrawsRow, draw_horiz_line_lem}
use computer_systems_enginee.Modex.Screen.{show_screen}
use computer_systems_enginee.Modex.Screen.Shown.{Shows, show_screen_lem}
use computer_systems_enginee.Modex.Setup.{set_mode_x}
use computer_systems_enginee.Modex.Setup.Fences.{IsFenced, IsReady, set_mode_x_lem}
use computer_systems_enginee.Input.Keyboard.{Cmd, cmd_right, cmd_down, cmd_up}
use computer_systems_enginee.Adventure.View.{init_view}
use computer_systems_enginee.Adventure.Drawing.{draw_entered, draw_frames}
use computer_systems_enginee.Adventure.Drawing.Frames.{
  row_line, column_line, RoomOnDisplay, draw_frames_lem,
}
use computer_systems_enginee.Adventure.StatusBar.{ShowsText, draw_status_bar, draw_status_bar_lem}
use computer_systems_enginee.Text.Strings.{shown_string}

abbrev pub blank_vga : VgaState
blank_vga = record {
  planes = λ p a. 0;
  misc = 0;
  seq = λ i. 0;
  crtc = λ i. 0;
  attr = record { regs = λ i. 0; index = 0; data_next = true };
  graphics = λ i. 0;
  dac = λ i. record { red = 0; green = 0; blue = 0 };
}

abbrev pub fresh_display : Display
fresh_display = record {
  build = λ a. 0xF3;
  img3_off = origin + 10000;
  img3 = origin + 10256;
  show_x = 0;
  show_y = 0;
  target_img = 0x05A0;
  vga = blank_vga;
}

fresh-IsPlaced : IsPlaced fresh_display
fresh-IsPlaced = record { pointer = refl; starts = omega arith; ends = omega arith }

fresh-IsFenced : IsFenced fresh_display
fresh-IsFenced = record { lower = λ k h. refl; upper = λ k h. refl }

abbrev pub stripes : LineFn
stripes x y i = (x + i) % 7 + y

abbrev moves : List Cmd
moves = cmd_right ∷ cmd_down ∷ cmd_down ∷ cmd_up ∷ []

draw_frames_example :
    let f = row_line lab_world 1 in
    let g = column_line lab_world 1 in
    let (v1, d1) = draw_entered f init_view fresh_display in
    let (v2, d2) = draw_frames f g 640 400 moves v1 d1 in
    RoomOnDisplay lab_world lab_photo (lab-IsValid.items 1) v2 (show_screen d2)
draw_frames_example =
    draw_frames_lem lab_world lab-IsValid 1 lab_photo refl fresh_display init_view moves
      (omega arith, omega arith) (omega arith, omega arith)
      (fresh-IsPlaced, inl refl, fresh-IsFenced)

fill_buffers_example :
    (row : ℕ → ℕ) × (column : ℕ → ℕ) × (fill_horiz_buffer 1 10 25 lab_world ≡ some row)
    × (fill_vert_buffer 1 13 20 lab_world ≡ some column)
    × (row 3 ≡ column 5)
fill_buffers_example =
    fill_buffers_agree lab_world lab-IsValid 1 lab_photo refl 10 20 3 5 (omega arith) (omega arith)
      (omega arith) (omega arith)

abbrev dark_palette : List Colour
dark_palette = replicate 192 (record { red = 0; green = 0; blue = 0 })

abbrev unsorted : List Node → List Node
unsorted l = l

unsorted-Perm : (l : List Node) → Perm (unsorted l) l
unsorted-Perm l = Perm.refl l

calculate_vga_example :
    let chosen =
      set_plt_values unsorted dark_palette (insert_all (0xF800 ∷ 0x07E0 ∷ []) arr_initialize) in
    Coded (calculate_vga chosen.fourth 0x07E0) chosen.palette 0x07E0
calculate_vga_example =
    calculate_vga_lem unsorted unsorted-Perm dark_palette refl (0xF800 ∷ 0x07E0 ∷ []) 0x07E0
      (inr (inl refl))

abbrev memory : Memory
memory = record { for_structure = true; for_pixels = true }

abbrev small_header : PhotoHeader
small_header = record { width = 3; height = 1 }

abbrev small_file : List ℕ
small_file = 3 ∷ 0 ∷ 1 ∷ 0 ∷ 0 ∷ 248 ∷ 224 ∷ 7 ∷ 31 ∷ 0 ∷ []

abbrev small_rest : List ℕ
small_rest = 0 ∷ 248 ∷ 224 ∷ 7 ∷ 31 ∷ 0 ∷ []

read_photo_example :
    (p : Photo) × (read_photo unsorted dark_palette memory (some small_file)
      ≡ (if photo_reads memory small_header small_rest then some p else none))
    × ReadsPhoto small_header small_file small_rest p
read_photo_example =
    read_photo_lem unsorted dark_palette memory small_file small_rest small_header unsorted-Perm
      refl refl

-- The file has enough bytes.
small_reads : photo_reads memory small_header small_rest ≡ true
small_reads = refl

read_obj_image_example :
    (im : Image) × (read_obj_image memory (some small_file)
      ≡ (if image_reads memory small_header small_rest then some im else none))
    × ReadsImage small_header small_rest im
read_obj_image_example = read_obj_image_lem memory small_file small_rest small_header refl

prep_room_example :
    (v' : VgaState) × (prep_room (some lab_photo) blank_vga ≡ some v')
    × Prepared lab_photo blank_vga v'
prep_room_example = prep_room_lem lab_photo blank_vga

set_view_window_example : Moved 300 160 fresh_display (set_view_window 300 160 fresh_display)
set_view_window_example =
    set_view_window_lem 300 160 fresh_display fresh-IsPlaced (omega arith, omega arith)

draw_horiz_line_example :
    (d' : Display) × (draw_horiz_line stripes 5 fresh_display ≡ some d')
    × DrawsRow stripes 5 fresh_display d'
draw_horiz_line_example = draw_horiz_line_lem stripes 5 fresh_display fresh-IsPlaced (omega arith)

-- What the arrays hold before.
abbrev stripe_bytes : ℕ → ℕ
stripe_bytes a = a % 7

draw_status_bar_example :
    ShowsText
      (shown_string [] stripe_bytes (codes "Lab") (codes "Ready") stripe_bytes)
      27
      fresh_display
      (draw_status_bar stripe_bytes stripe_bytes [] stripe_bytes
        (codes "Lab")
        (codes "Ready")
        stripe_bytes
        fresh_display)
draw_status_bar_example =
    draw_status_bar_lem stripe_bytes stripe_bytes [] stripe_bytes (codes "Lab") (codes "Ready")
      stripe_bytes fresh_display (omega arith)

show_screen_example : Shows fresh_display (show_screen fresh_display)
show_screen_example = show_screen_lem fresh_display (inl refl)

set_mode_x_example :
    (d' : Display) × (set_mode_x (some stripes) (some stripes) true fresh_display ≡ some d')
    × IsReady d'
set_mode_x_example = set_mode_x_lem stripes stripes fresh_display
