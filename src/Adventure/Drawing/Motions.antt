-- ===== src/Adventure/Drawing/Motions.antt =====
-- The window shows the picture of the room after each motion, and after the room is entered.
use computer_systems_enginee.Base.{
  ℕ, ◌+◌, ◌-◌, ◌≤◌, ◌<◌, ◌≡◌, ◌⊎◌, ◌^◌, inl, inr, refl, sym, ◌∙◌, subst, List, In, arith,
}
use computer_systems_enginee.Modex.{Display}
use computer_systems_enginee.Modex.Pixels.{pixel, Within, OnScreen, IsPlaced, Inside}
use computer_systems_enginee.Modex.Window.{LineFn}
use computer_systems_enginee.Modex.Window.Moves.{set_view_window_lem}
use computer_systems_enginee.Modex.Window.{set_view_window}
use computer_systems_enginee.Adventure.View.{
  View, first_lines, move_photo_down, move_photo_right, move_photo_left, move_photo_up,
}
use computer_systems_enginee.Adventure.View.Motions.{
  InView, Exposes, In-first_lines, move_photo_down_lem, move_photo_right_lem, move_photo_left_lem,
  move_photo_up_lem,
}
use computer_systems_enginee.Adventure.Drawing.{
  draw_rows, draw_columns, redraw_room, scroll_down, scroll_right, scroll_left, scroll_up,
  draw_entered,
}
use computer_systems_enginee.Adventure.Drawing.Lines.{
  PaintsRow, PaintsColumn, rows-Draws, columns-Draws, Redrawn-IsPlaced,
}

-- The two line functions give the lines of one picture of this size.
pub record Paints (width height : ℕ) (wanted : ℕ → ℕ → ℕ) (f g : LineFn) : Type 0 where
  pub rows : (x y : ℕ) → y < height → PaintsRow wanted f x y
  pub columns : (x y : ℕ) → x < width → PaintsColumn wanted g x y

-- The window of the build buffer is where the view is, and shows the picture.
pub record Pictures (wanted : ℕ → ℕ → ℕ) (v : View) (d : Display) : Type 0 where
  pub placed : IsPlaced d
  pub at_x : d.show_x ≡ v.map_x
  pub at_y : d.show_y ≡ v.map_y
  pub pixels : (x y : ℕ) → OnScreen d x y → pixel d x y ≡ wanted x y

-- So it is after some drawing, which writes neither outside the build buffer nor to the screen.
pub record Drawn (wanted : ℕ → ℕ → ℕ) (d : Display) (result : View × Display) : Type 0 where
  pub pictures : Pictures wanted result.0 result.1
  pub others : (a : ℕ) → ¬ Inside a → result.1.build a ≡ d.build a
  pub screen : (result.1.target_img ≡ d.target_img) × (result.1.vga ≡ d.vga)

module _ (width height : ℕ) (wanted : ℕ → ℕ → ℕ) (f g : LineFn)
    (paints : Paints width height wanted f g) where
  -- The window goes where the view is, and some rows are drawn: then every pixel shows the picture
  -- whose row is drawn, or that was on the old screen.
  rows-Drawn :
      (v : View) (lines : List ℕ) (d : Display)
      → InView width height v
      → IsPlaced d
      → ((x y : ℕ)
          → Within v.map_x v.map_y x y
          → In (y - v.map_y) lines ⊎ (OnScreen d x y × (pixel d x y ≡ wanted x y)))
      → Drawn wanted d (v, draw_rows f lines (set_view_window v.map_x v.map_y d))
  rows-Drawn v lines d inside p known =
      let d1 = set_view_window v.map_x v.map_y d in
      let moved =
        set_view_window_lem v.map_x v.map_y d p
          (omega (arith, inside.columns, inside.wide), omega (arith, inside.rows, inside.high)) in
      let ex : d1.show_x ≡ v.map_x = moved.there.0 in
      let ey : d1.show_y ≡ v.map_y = moved.there.1 in
      let draws =
        rows-Draws wanted f lines d1 moved.placed
          (λ j l. paints.rows d1.show_x (j + d1.show_y) (omega (arith, ey, l, inside.rows))) in
      let r = draws.redrawn in
      record {
        pictures = record {
          placed = Redrawn-IsPlaced r moved.placed;
          at_x = r.same_x ∙ ex;
          at_y = r.same_y ∙ ey;
          pixels = λ x y s.
              let on1 : OnScreen d1 x y = omega (arith, s, r.same_x, r.same_y) in
              let on : Within v.map_x v.map_y x y = omega (arith, on1, ex, ey) in
              draws.pixels x y on1 (elim (known x y on) [
                | inl i ↦ inl (subst (λ b. In (y - b) lines) (sym ey) i)
                | inr h ↦ inr (moved.kept x y h.0 on ∙ h.1)
              ]);
        };
        others = λ a o. r.others a o ∙ moved.others a o;
        screen = (r.screen.0 ∙ moved.screen.0, r.screen.1 ∙ moved.screen.1);
      }

  -- The window goes where the view is, and some columns are drawn: then every pixel shows the picture
  -- whose column is drawn, or that was on the old screen.
  columns-Drawn :
      (v : View) (lines : List ℕ) (d : Display)
      → InView width height v
      → IsPlaced d
      → ((x y : ℕ)
          → Within v.map_x v.map_y x y
          → In (x - v.map_x) lines ⊎ (OnScreen d x y × (pixel d x y ≡ wanted x y)))
      → Drawn wanted d (v, draw_columns g lines (set_view_window v.map_x v.map_y d))
  columns-Drawn v lines d inside p known =
      let d1 = set_view_window v.map_x v.map_y d in
      let moved =
        set_view_window_lem v.map_x v.map_y d p
          (omega (arith, inside.columns, inside.wide), omega (arith, inside.rows, inside.high)) in
      let ex : d1.show_x ≡ v.map_x = moved.there.0 in
      let ey : d1.show_y ≡ v.map_y = moved.there.1 in
      let draws =
        columns-Draws wanted g lines d1 moved.placed (λ j l.
          paints.columns (j + d1.show_x) d1.show_y (omega (arith, ex, l, inside.columns))) in
      let r = draws.redrawn in
      record {
        pictures = record {
          placed = Redrawn-IsPlaced r moved.placed;
          at_x = r.same_x ∙ ex;
          at_y = r.same_y ∙ ey;
          pixels = λ x y s.
              let on1 : OnScreen d1 x y = omega (arith, s, r.same_x, r.same_y) in
              let on : Within v.map_x v.map_y x y = omega (arith, on1, ex, ey) in
              draws.pixels x y on1 (elim (known x y on) [
                | inl i ↦ inl (subst (λ b. In (x - b) lines) (sym ex) i)
                | inr h ↦ inr (moved.kept x y h.0 on ∙ h.1)
              ]);
        };
        others = λ a o. r.others a o ∙ moved.others a o;
        screen = (r.screen.0 ∙ moved.screen.0, r.screen.1 ∙ moved.screen.1);
      }

  -- The pixels of the new screen were in view before, or are on a row that is drawn.
  row_known :
      (v v' : View) (lines : List ℕ) (d : Display)
      → Pictures wanted v d
      → v'.map_x ≡ v.map_x
      → Exposes 182 v.map_y v'.map_y lines ⊎ (v'.map_y ≡ v.map_y)
      → (x y : ℕ) → Within v'.map_x v'.map_y x y
      → In (y - v'.map_y) lines ⊎ (OnScreen d x y × (pixel d x y ≡ wanted x y))
  row_known v v' lines d p e shown x y s = elim shown [
    | inl ex ↦ elim (ex (y - v'.map_y) (omega (arith, s))) [
      | inl h ↦ seen (omega (arith, s, e, h, p.at_x, p.at_y))
      | inr i ↦ inl i
    ]
    | inr same ↦ seen (omega (arith, s, e, same, p.at_x, p.at_y))
  ]
    where
      seen :
          OnScreen d x y → In (y - v'.map_y) lines ⊎ (OnScreen d x y × (pixel d x y ≡ wanted x y))
      seen on = inr (on, p.pixels x y on)

  -- The pixels of the new screen were in view before, or are on a column that is drawn.
  column_known :
      (v v' : View) (lines : List ℕ) (d : Display)
      → Pictures wanted v d
      → v'.map_y ≡ v.map_y
      → Exposes 320 v.map_x v'.map_x lines ⊎ (v'.map_x ≡ v.map_x)
      → (x y : ℕ) → Within v'.map_x v'.map_y x y
      → In (x - v'.map_x) lines ⊎ (OnScreen d x y × (pixel d x y ≡ wanted x y))
  column_known v v' lines d p e shown x y s = elim shown [
    | inl ex ↦ elim (ex (x - v'.map_x) (omega (arith, s))) [
      | inl h ↦ seen (omega (arith, s, e, h, p.at_x, p.at_y))
      | inr i ↦ inl i
    ]
    | inr same ↦ seen (omega (arith, s, e, same, p.at_x, p.at_y))
  ]
    where
      seen :
          OnScreen d x y → In (x - v'.map_x) lines ⊎ (OnScreen d x y × (pixel d x y ≡ wanted x y))
      seen on = inr (on, p.pixels x y on)

  -- From a view inside the photo whose window shows the picture, moving the photo down gives a
  -- window that shows it at the new place.
  pub scroll_down_lem :
      (v : View) (d : Display)
      → InView width height v
      → Pictures wanted v d
      → Drawn wanted d (scroll_down f v d)
  unfolding scroll_down move_photo_down
  scroll_down_lem v d h p =
      let m = move_photo_down_lem width height v h in
      rows-Drawn (move_photo_down v).0 (move_photo_down v).1 d m.inside p.placed
        (row_known v (move_photo_down v).0 (move_photo_down v).1 d p refl m.along)

  -- From a view inside the photo whose window shows the picture, moving the photo right gives a
  -- window that shows it at the new place.
  pub scroll_right_lem :
      (v : View) (d : Display)
      → InView width height v
      → Pictures wanted v d
      → Drawn wanted d (scroll_right g v d)
  unfolding scroll_right move_photo_right
  scroll_right_lem v d h p =
      let m = move_photo_right_lem width height v h in
      columns-Drawn (move_photo_right v).0 (move_photo_right v).1 d m.inside p.placed
        (column_known v (move_photo_right v).0 (move_photo_right v).1 d p refl m.across)

  -- From a view inside the photo whose window shows the picture, moving the photo left gives a
  -- window that shows it at the new place.
  pub scroll_left_lem :
      (v : View) (d : Display)
      → InView width height v
      → Pictures wanted v d
      → Drawn wanted d (scroll_left g width v d)
  unfolding scroll_left move_photo_left
  scroll_left_lem v d h p =
      let m = move_photo_left_lem width height v h in
      columns-Drawn (move_photo_left width v).0 (move_photo_left width v).1 d m.inside p.placed
        (column_known v (move_photo_left width v).0 (move_photo_left width v).1 d p refl m.across)

  -- From a view inside the photo whose window shows the picture, moving the photo up gives a
  -- window that shows it at the new place.
  pub scroll_up_lem :
      (v : View) (d : Display)
      → InView width height v
      → Pictures wanted v d
      → Drawn wanted d (scroll_up f height v d)
  unfolding scroll_up move_photo_up
  scroll_up_lem v d h p =
      let m = move_photo_up_lem width height v h in
      rows-Drawn (move_photo_up height v).0 (move_photo_up height v).1 d m.inside p.placed
        (row_known v (move_photo_up height v).0 (move_photo_up height v).1 d p refl m.along)

  -- Whatever the window showed, it shows the picture's corner after a room is entered.
  pub draw_entered_lem :
      (v : View) (d : Display)
      → 320 ≤ width
      → 182 ≤ height
      → width < 2 ^ 16
      → height < 2 ^ 16
      → IsPlaced d
      → Drawn wanted d (draw_entered f v d)
  unfolding draw_entered redraw_room
  draw_entered_lem v d a b wide high p =
      rows-Drawn (record v { map_x = 0; map_y = 0 }) (first_lines 0 182) d
        (record { columns = a; rows = b; wide = wide; high = high }) p
        (λ x y s. inl (In-first_lines (y - 0) 0 182 (omega arith) (omega (arith, s))))
