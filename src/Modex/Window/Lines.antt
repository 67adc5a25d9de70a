-- ===== src/Modex/Window/Lines.antt =====
-- The two functions of mp2/modex.c that draw a line into the build buffer.
use computer_systems_enginee.Base.{
  ℕ, ◌+◌, ◌-◌, ◌*◌, ◌/◌, ◌%◌, ◌≤◌, ◌<◌, ◌≡◌, ◌≢◌, refl, sym, ap, ◌∙◌, subst, arith, none, some,
}
use computer_systems_enginee.Modex.{Display, scroll_x_dim, scroll_y_dim}
use computer_systems_enginee.Modex.Pixels.{
  address, pixel, OnScreen, IsPlaced, Inside, address_inj, address-Inside,
}
use computer_systems_enginee.Modex.Window.{
  LineFn, vert_pixels, horiz_pixels, draw_vert_line, draw_horiz_line,
}
use computer_systems_enginee.Modex.Window.Rounds.{horiz_out, horiz_in, vert_out, vert_in}

-- A display that differs in the build buffer only, and there only between the fences.
pub record Redrawn (d d' : Display) : Type 0 where
  pub same_off : d'.img3_off ≡ d.img3_off
  pub same_img3 : d'.img3 ≡ d.img3
  pub same_x : d'.show_x ≡ d.show_x
  pub same_y : d'.show_y ≡ d.show_y
  pub screen : (d'.target_img ≡ d.target_img) × (d'.vga ≡ d.vga)
  pub others : (a : ℕ) → ¬ Inside a → d'.build a ≡ d.build a

-- A drawn line of the screen: its pixels are those of the line function, the other pixels of the
-- screen stay.
pub record DrawsRow (f : LineFn) (y : ℕ) (d d' : Display) : Type 0 where
  pub redrawn : Redrawn d d'
  pub line :
      (x : ℕ)
      → OnScreen d x (y + d.show_y)
      → pixel d' x (y + d.show_y) ≡ f d.show_x (y + d.show_y) (x - d.show_x)
  pub kept : (x j : ℕ) → OnScreen d x j → j ≢ y + d.show_y → pixel d' x j ≡ pixel d x j

pub record DrawsColumn (f : LineFn) (x : ℕ) (d d' : Display) : Type 0 where
  pub redrawn : Redrawn d d'
  pub line :
      (y : ℕ)
      → OnScreen d (x + d.show_x) y
      → pixel d' (x + d.show_x) y ≡ f (x + d.show_x) d.show_y (y - d.show_y)
  pub kept : (j y : ℕ) → OnScreen d j y → j ≢ x + d.show_x → pixel d' j y ≡ pixel d j y

-- On a display whose window lies inside the build buffer, draw_horiz_line succeeds for a row of the
-- screen, gives the row the pixels of the line function, keeps the other pixels of the screen, and
-- writes nothing outside the buffer.
pub draw_horiz_line_lem :
    (f : LineFn) (y : ℕ) (d : Display)
    → IsPlaced d
    → y < scroll_y_dim
    → (d' : Display) × (draw_horiz_line f y d ≡ some d') × DrawsRow f y d d'
unfolding draw_horiz_line
draw_horiz_line_lem f y d p h =
    let buf = f d.show_x (y + d.show_y) in
    let out = horiz_out 320 0 d.img3 d.show_x (y + d.show_y) buf d.build in
    (
      _,
      ground arith,
      record {
        redrawn = record {
          same_off = refl;
          same_img3 = refl;
          same_x = refl;
          same_y = refl;
          screen = (refl, refl);
          others = λ a o. out a (λ k l e. o (
              subst Inside (sym e)
                (address-Inside d (d.show_x + k) (y + d.show_y) p (omega arith))));
        };
        line = λ x s.
            ap
              (λ z.
                horiz_pixels 320 0 (d.img3 + d.show_x / 4 + (y + d.show_y) * 80) (3 - d.show_x % 4)
                  buf d.build (address d.img3 z (y + d.show_y)))
              (omega (arith, s))
            ∙ horiz_in 320 0 d.img3 d.show_x (y + d.show_y) buf d.build (x - d.show_x)
                (omega (arith, s)) (omega arith)
            ∙ ap buf (omega arith);
        kept = λ x j s ne. out (address d.img3 x j) (λ k l e.
            ne
              (address_inj d.img3 d.show_x d.show_y x j (d.show_x + k) (y + d.show_y) s
                (omega arith) e).1);
      },
    )

-- On a display whose window lies inside the build buffer, draw_vert_line succeeds for a column of
-- the screen, gives the column the pixels of the line function, keeps the other pixels of the
-- screen, and writes nothing outside the buffer.
pub draw_vert_line_lem :
    (f : LineFn) (x : ℕ) (d : Display)
    → IsPlaced d
    → x < scroll_x_dim
    → (d' : Display) × (draw_vert_line f x d ≡ some d') × DrawsColumn f x d d'
unfolding draw_vert_line
draw_vert_line_lem f x d p h =
    let buf = f (x + d.show_x) d.show_y in
    let out = vert_out 182 0 d.img3 (x + d.show_x) d.show_y buf d.build in
    (
      _,
      ground arith,
      record {
        redrawn = record {
          same_off = refl;
          same_img3 = refl;
          same_x = refl;
          same_y = refl;
          screen = (refl, refl);
          others = λ a o. out a (λ k l e. o (
              subst Inside (sym e)
                (address-Inside d (x + d.show_x) (d.show_y + k) p (omega arith))));
        };
        line = λ y s.
            ap
              (λ z.
                vert_pixels 182 0 (d.img3 + (x + d.show_x) / 4 + d.show_y * 80)
                  (3 - (x + d.show_x) % 4) buf d.build (address d.img3 (x + d.show_x) z))
              (omega (arith, s))
            ∙ vert_in 182 0 d.img3 (x + d.show_x) d.show_y buf d.build (y - d.show_y)
                (omega (arith, s))
            ∙ ap buf (omega arith);
        kept = λ j y s ne. out (address d.img3 j y) (λ k l e.
            ne
              (address_inj d.img3 d.show_x d.show_y j y (x + d.show_x) (d.show_y + k) s
                (omega arith) e).0);
      },
    )

-- A line off the screen is refused.
pub draw_horiz_line_off :
    (f : LineFn) (y : ℕ) (d : Display) → scroll_y_dim ≤ y → draw_horiz_line f y d ≡ none
unfolding draw_horiz_line
draw_horiz_line_off f y d h = ground (arith, h)

pub draw_vert_line_off :
    (f : LineFn) (x : ℕ) (d : Display) → scroll_x_dim ≤ x → draw_vert_line f x d ≡ none
unfolding draw_vert_line
draw_vert_line_off f x d h = ground (arith, h)
