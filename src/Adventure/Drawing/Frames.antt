-- ===== src/Adventure/Drawing/Frames.antt =====
-- What is on the display while the player moves about in a room.
use computer_systems_enginee.Base.{
  ℕ, ◌+◌, ◌-◌, ◌≤◌, ◌<◌, ◌≡◌, ◌^◌, sym, ap, ◌∙◌, subst, Option, none, some, List, [], ◌∷◌, arith,
}
use computer_systems_enginee.Photo.Types.{Photo}
use computer_systems_enginee.Photo.Lines.{fill_horiz_buffer, fill_vert_buffer}
use computer_systems_enginee.Photo.Lines.Agreement.{
  picture, fill_horiz_buffer_lem, fill_vert_buffer_lem,
}
use computer_systems_enginee.World.State.{World}
use computer_systems_enginee.World.Access.{room_photo}
use computer_systems_enginee.World.Validity.{IsValid}
use computer_systems_enginee.Input.Keyboard.{
  Cmd, cmd_none, cmd_right, cmd_left, cmd_up, cmd_down, cmd_move_left, cmd_enter, cmd_move_right,
  cmd_typed, cmd_quit,
}
use computer_systems_enginee.Modex.{Display}
use computer_systems_enginee.Modex.Pixels.{OnScreen, IsPlaced}
use computer_systems_enginee.Modex.Window.{LineFn}
use computer_systems_enginee.Modex.Screen.{show_screen}
use computer_systems_enginee.Modex.Screen.Shown.{displayed, IsPage, show_screen_lem}
use computer_systems_enginee.Modex.Setup.{broken_fences}
use computer_systems_enginee.Modex.Setup.Fences.{IsFenced, IsFenced-kept, broken_fences_lem}
use computer_systems_enginee.Adventure.View.{View}
use computer_systems_enginee.Adventure.View.Motions.{
  InView, move_photo_down_lem, move_photo_right_lem, move_photo_left_lem, move_photo_up_lem,
}
use computer_systems_enginee.Adventure.Drawing.{
  scroll_down, scroll_right, scroll_left, scroll_up, draw_entered, draw_command, draw_frames,
}
use computer_systems_enginee.Adventure.Drawing.Motions.{
  Paints, Pictures, Drawn, scroll_down_lem, scroll_right_lem, scroll_left_lem, scroll_up_lem,
  draw_entered_lem,
}

-- A display that shows a picture of this size where the view is.
pub record Frame (width height : ℕ) (wanted : ℕ → ℕ → ℕ) (v : View) (d : Display) : Type 0 where
  pub inside : InView width height v
  pub pictures : Pictures wanted v d
  pub page : IsPage d.target_img
  pub fenced : IsFenced d

module _ (width height : ℕ) (wanted : ℕ → ℕ → ℕ) where
  Drawn-Frame :
      (d : Display) (v' : View) (d' : Display)
      → InView width height v'
      → Drawn wanted d (v', d')
      → IsPage d.target_img
      → IsFenced d
      → Frame width height wanted v' d'
  Drawn-Frame d v' d' inside r page fenced = record {
    inside = inside;
    pictures = r.pictures;
    page = subst IsPage (sym r.screen.0) page;
    fenced = IsFenced-kept d d' r.others fenced;
  }

  shown-Frame :
      (v : View) (d : Display)
      → Frame width height wanted v d
      → Frame width height wanted v (show_screen d)
  unfolding show_screen
  shown-Frame v d h =
      let p = h.pictures in
      let s = show_screen_lem d h.page in
      record {
        inside = h.inside;
        pictures = record {
          placed = record {
            pointer = p.placed.pointer;
            starts = p.placed.starts;
            ends = p.placed.ends;
          };
          at_x = p.at_x;
          at_y = p.at_y;
          pixels = p.pixels;
        };
        page = s.page;
        fenced = record { lower = h.fenced.lower; upper = h.fenced.upper };
      }

  -- What the display shows at the end.
  pub Frame-displayed :
      (v : View) (d : Display)
      → Frame width height wanted v d
      → (i j : ℕ) → i < 320
      → j < 182
      → displayed (show_screen d).vga i j ≡ wanted (v.map_x + i) (v.map_y + j)
  Frame-displayed v d h i j a b =
      let p = h.pictures in
      let x = d.show_x + i in
      let y = d.show_y + j in
      let v' = (show_screen d).vga in
      let on : OnScreen d x y = omega (arith, a, b) in
      ap (λ z. displayed v' z j) (omega arith)
      ∙ ap (displayed v' (x - d.show_x)) (omega arith)
      ∙ (show_screen_lem d h.page).pixels x y on
      ∙ p.pixels x y on
      ∙ ap (λ z. wanted (z + i) y) p.at_x
      ∙ ap (λ z. wanted (v.map_x + i) (z + j)) p.at_y

  module _ (f g : LineFn) (paints : Paints width height wanted f g) where
    command-Frame :
        (c : Cmd) (v : View) (d : Display)
        → Frame width height wanted v d
        → Frame width height wanted
            (draw_command f g width height c v d).0
            (draw_command f g width height c v d).1
    unfolding draw_command scroll_down scroll_right scroll_left scroll_up
    command-Frame cmd_up v d h =
        Drawn-Frame d _ _ (move_photo_down_lem width height v h.inside).inside
          (scroll_down_lem width height wanted f g paints v d h.inside h.pictures) h.page h.fenced
    command-Frame cmd_right v d h =
        Drawn-Frame d _ _ (move_photo_left_lem width height v h.inside).inside
          (scroll_left_lem width height wanted f g paints v d h.inside h.pictures) h.page h.fenced
    command-Frame cmd_down v d h =
        Drawn-Frame d _ _ (move_photo_up_lem width height v h.inside).inside
          (scroll_up_lem width height wanted f g paints v d h.inside h.pictures) h.page h.fenced
    command-Frame cmd_left v d h =
        Drawn-Frame d _ _ (move_photo_right_lem width height v h.inside).inside
          (scroll_right_lem width height wanted f g paints v d h.inside h.pictures) h.page h.fenced
    command-Frame cmd_none v d h = h
    command-Frame cmd_move_left v d h = h
    command-Frame cmd_enter v d h = h
    command-Frame cmd_move_right v d h = h
    command-Frame cmd_typed v d h = h
    command-Frame cmd_quit v d h = h

    pub frames-Frame :
        (cmds : List Cmd) (v : View) (d : Display)
        → Frame width height wanted v d
        → Frame width height wanted
            (draw_frames f g width height cmds v d).0
            (draw_frames f g width height cmds v d).1
    unfolding draw_frames
    frames-Frame [] v d h = h
    frames-Frame (c ∷ cmds) v d h =
        frames-Frame cmds _ _ (command-Frame c v (show_screen d) (shown-Frame v d h))

-- The lines that the callbacks give for a room. A fault would give a black line.
abbrev or_black : Option (ℕ → ℕ) → ℕ → ℕ
or_black none i = 0
or_black (some line) i = line i

abbrev pub row_line : World → ℕ → LineFn
row_line w r x y = or_black (fill_horiz_buffer r x y w)

abbrev pub column_line : World → ℕ → LineFn
column_line w r x y = or_black (fill_vert_buffer r x y w)

entered_inside :
    (width height : ℕ) (f : LineFn) (d : Display) (u : View)
    → (320 ≤ width) × (182 ≤ height)
    → (width < 2 ^ 16) × (height < 2 ^ 16)
    → InView width height (draw_entered f u d).0
unfolding draw_entered
entered_inside width height f d u big small = record {
  columns = big.0;
  rows = big.1;
  wide = small.0;
  high = small.1;
}

-- The display shows this part of the room, and the fences are whole.
pub record RoomOnDisplay (w : World) (view : Photo) (l : List ℕ) (v : View) (d : Display)
    : Type 0 where
  pub inside : InView view.hdr.width view.hdr.height v
  pub pixels :
      (i j : ℕ)
      → i < 320
      → j < 182
      → displayed d.vga i j ≡ picture w view l (v.map_x + i) (v.map_y + j)
  pub whole : broken_fences d ≡ []

module _ (w : World) (v : IsValid w) (r : ℕ) (view : Photo)
    (seen : room_photo w r ≡ some view) where
  room_Paints :
      Paints view.hdr.width view.hdr.height
        (picture w view (v.items r))
        (row_line w r)
        (column_line w r)
  room_Paints = record {
    rows = λ x y h i k.
        let (line, e, at) = fill_horiz_buffer_lem w v r view seen x y h in
        ap (λ o. or_black o i) e ∙ at i k;
    columns = λ x y h i k.
        let (line, e, at) = fill_vert_buffer_lem w v r view seen x y h in
        ap (λ o. or_black o i) e ∙ at i k;
  }

  -- In a well-formed world, for a room whose photo is no smaller than the screen and has sides
  -- below 65536: the room is entered on a display whose window and fences are in order, and
  -- commands are given in any sequence. Then show_screen shows the room's picture at the place of
  -- the view, which lies inside the photo, and the fences are whole.
  pub draw_frames_lem :
      (d : Display) (u : View) (cmds : List Cmd)
      → (320 ≤ view.hdr.width) × (182 ≤ view.hdr.height)
      → (view.hdr.width < 2 ^ 16) × (view.hdr.height < 2 ^ 16)
      → IsPlaced d × IsPage d.target_img × IsFenced d
      → let f = row_line w r in
        let g = column_line w r in
        let (v1, d1) = draw_entered f u d in
        let (v2, d2) = draw_frames f g view.hdr.width view.hdr.height cmds v1 d1 in
        RoomOnDisplay w view (v.items r) v2 (show_screen d2)
  draw_frames_lem d u cmds big small start =
      let f = row_line w r in
      let g = column_line w r in
      let entered = draw_entered f u d in
      let drawn =
        draw_entered_lem view.hdr.width view.hdr.height (picture w view (v.items r)) f g room_Paints
          u d big.0 big.1 small.0 small.1 start.0 in
      let first =
        Drawn-Frame view.hdr.width view.hdr.height (picture w view (v.items r)) d entered.0
          entered.1 (entered_inside view.hdr.width view.hdr.height f d u big small) drawn start.1
          start.2 in
      let last =
        frames-Frame view.hdr.width view.hdr.height (picture w view (v.items r)) f g room_Paints
          cmds entered.0 entered.1 first in
      record {
        inside = last.inside;
        pixels =
            Frame-displayed view.hdr.width view.hdr.height (picture w view (v.items r)) _ _ last;
        whole =
            broken_fences_lem _
              (shown-Frame view.hdr.width view.hdr.height (picture w view (v.items r)) _ _
                last).fenced;
      }
