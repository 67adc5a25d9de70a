-- ===== src/Modex/Screen/Shown.antt =====
-- What the VGA displays after `show_screen` and `print_status_bar` of mp2/modex.c.
use computer_systems_enginee.Base.{
  ℕ, zero, suc, ◌+◌, ◌-◌, ◌*◌, ◌/◌, ◌%◌, ◌≤◌, ◌<◌, ◌≡◌, ◌⊎◌, inl, inr, refl, ap, ◌∙◌, ltb, leb,
  ◌&&◌, if◌then◌else◌, arith,
}
use Prim.Native.Nat.{bit_xor}
use computer_systems_enginee.Modex.{VgaState, Display, scroll_x_dim, scroll_y_dim}
use computer_systems_enginee.Modex.Pixels.{pixel, OnScreen}
use computer_systems_enginee.Modex.Vga.{outw}
use computer_systems_enginee.Modex.Screen.{show_plane, show_screen, print_status_bar}

-- The pixel in column `i` and row `j` of the display, above the split and below it: a plane holds
-- every fourth column, and a row is 80 bytes long.
abbrev pub displayed : VgaState → ℕ → ℕ → ℕ
displayed v i j = v.planes (i % 4) (v.crtc 0x0C * 256 + v.crtc 0x0D + j * 80 + i / 4)

abbrev pub status_bar : VgaState → ℕ → ℕ → ℕ
status_bar v i j = v.planes (i % 4) (j * 80 + i / 4)

-- The two pages of the video memory, after the status bar.
abbrev pub IsPage : ℕ → Type 0
IsPage target_img = (target_img ≡ 0x05A0) ⊎ (target_img ≡ 0x45A0)

module _ (build : ℕ → ℕ) (addr p_off target : ℕ) (v : VgaState) where
  -- A plane gets its own copy and no other.
  shown_planes :
      (p : ℕ)
      → p < 4
      → (a : ℕ)
      → (show_plane build addr p_off target 3 (
            show_plane build addr p_off target 2 (
              show_plane build addr p_off target 1
                (show_plane build addr p_off target 0 v)))).planes
          p a
        ≡ (if leb target a && ltb a (target + 16000)
            then build
                (addr + (p_off + 4 - p) % 4 * 14560 + (if ltb p_off p then 1 else 0) + (a - target))
            else v.planes p a)
  shown_planes zero h a = refl
  shown_planes (suc zero) h a = refl
  shown_planes (suc (suc zero)) h a = refl
  shown_planes (suc (suc (suc zero))) h a = refl
  shown_planes (suc (suc (suc (suc p)))) h a = absurd (omega arith)

-- The byte of a pixel of the screen, as `show_screen` finds it.
shown_address :
    (img3 show_x show_y i j : ℕ)
    → i < scroll_x_dim
    → img3
        + show_x / 4
        + show_y * 80
        + (3 - show_x % 4 + 4 - i % 4) % 4 * 14560
        + (if ltb (3 - show_x % 4) (i % 4) then 1 else 0)
        + (j * 80 + i / 4)
      ≡ img3 + (show_x + i) / 4 + (show_y + j) * 80 + (3 - (show_x + i) % 4) * 14560
shown_address img3 show_x show_y i j h = ground arith

-- The start of the display after the two writes.
display_start :
    (t : ℕ) (regs : ℕ → ℕ)
    → t < 65536
    → outw (t % 256 * 256 + 0x0D) (outw (t / 256 * 256 + 0x0C) regs) 0x0C * 256
        + outw (t % 256 * 256 + 0x0D) (outw (t / 256 * 256 + 0x0C) regs) 0x0D
      ≡ t
display_start t regs h = ground arith

other-IsPage : (t : ℕ) → IsPage t → IsPage (bit_xor t 0x4000)
other-IsPage t (inl e) = inr (ap (λ z. bit_xor z 0x4000) e)
other-IsPage t (inr e) = inl (ap (λ z. bit_xor z 0x4000) e)

page-lt : (t : ℕ) → IsPage t → (1440 ≤ t) × (t < 65536)
page-lt t (inl e) = (omega (arith, e), omega (arith, e))
page-lt t (inr e) = (omega (arith, e), omega (arith, e))

in_page :
    (t a u w : ℕ) → t ≤ a → a < t + 16000 → (if leb t a && ltb a (t + 16000) then u else w) ≡ u
in_page t a u w h k = ground arith

-- The display shows the window of the build buffer, on the other page than before; the status bar
-- and the build buffer stay.
pub record Shows (d d' : Display) : Type 0 where
  pub pixels :
      (x y : ℕ) → OnScreen d x y → displayed d'.vga (x - d.show_x) (y - d.show_y) ≡ pixel d x y
  pub bar : (p a : ℕ) → p < 4 → a < 1440 → d'.vga.planes p a ≡ d.vga.planes p a
  pub page : IsPage d'.target_img
  pub rest : record d' { target_img = d.target_img; vga = d.vga } ≡ d

-- While one of the two pages is shown, show_screen puts every pixel of the window of the build
-- buffer in its place on the display, goes on to a page again, and changes neither the status bar
-- nor the rest of the display's state.
pub show_screen_lem : (d : Display) → IsPage d.target_img → Shows d (show_screen d)
unfolding show_screen
show_screen_lem d page =
    let t = bit_xor d.target_img 0x4000 in
    let next = other-IsPage d.target_img page in
    let (low, high) = page-lt t next in
    let addr = d.img3 + d.show_x / 4 + d.show_y * 80 in
    let p_off = 3 - d.show_x % 4 in
    record {
      pixels = λ x y s.
          let i = x - d.show_x in
          let j = y - d.show_y in
          let a = t + j * 80 + i / 4 in
          let at : (i < scroll_x_dim) × (j < scroll_y_dim) = (omega (arith, s), omega (arith, s)) in
          ap (λ z. (show_screen d).vga.planes (i % 4) (z + j * 80 + i / 4))
            (display_start t d.vga.crtc high)
          ∙ shown_planes d.build addr p_off t d.vga (i % 4) (omega arith) a
          ∙ in_page t a _ _ (omega arith) (omega (arith, at))
          ∙ ap d.build (
              ap
                (λ z.
                  addr + (p_off + 4 - i % 4) % 4 * 14560 + (if ltb p_off (i % 4) then 1 else 0) + z)
                (omega arith)
              ∙ shown_address d.img3 d.show_x d.show_y i j at.0
              ∙ omega (arith, s));
      bar = λ p a h k. shown_planes d.build addr p_off t d.vga p h a ∙ ground (arith, low, k);
      page = next;
      rest = refl;
    }

-- The status bar shows the buffer, plane after plane, and the display above it stays.
pub record ShowsBar (buffer : ℕ → ℕ) (d d' : Display) : Type 0 where
  pub pixels :
      (i j : ℕ)
      → i < 320
      → j < 18
      → status_bar d'.vga i j ≡ buffer (1440 * (i % 4) + j * 80 + i / 4)
  pub above : (p a : ℕ) → p < 4 → 1440 ≤ a → d'.vga.planes p a ≡ d.vga.planes p a
  pub registers : d'.vga.crtc ≡ d.vga.crtc
  pub rest : record d' { vga = d.vga } ≡ d

bar_planes :
    (buffer : ℕ → ℕ) (d : Display) (p : ℕ)
    → p < 4
    → (a : ℕ)
    → (print_status_bar buffer d).vga.planes p a
      ≡ (if ltb a 1440 then buffer (1440 * p + a) else d.vga.planes p a)
unfolding print_status_bar
bar_planes buffer d zero h a = ground arith
bar_planes buffer d (suc zero) h a = ground arith
bar_planes buffer d (suc (suc zero)) h a = ground arith
bar_planes buffer d (suc (suc (suc zero))) h a = ground arith
bar_planes buffer d (suc (suc (suc (suc p)))) h a = absurd (omega arith)

-- print_status_bar shows the four planes of its buffer in the status bar, and changes nothing above
-- it.
pub print_status_bar_lem :
    (buffer : ℕ → ℕ) (d : Display) → ShowsBar buffer d (print_status_bar buffer d)
unfolding print_status_bar
print_status_bar_lem buffer d = record {
  pixels = λ i j h k.
      bar_planes buffer d (i % 4) (omega arith) (j * 80 + i / 4)
      ∙ below (j * 80 + i / 4) (buffer (1440 * (i % 4) + (j * 80 + i / 4)))
          (d.vga.planes (i % 4) (j * 80 + i / 4)) (omega arith)
      ∙ ap buffer (omega arith);
  above = λ p a h k. bar_planes buffer d p h a ∙ ground (arith, k);
  registers = refl;
  rest = refl;
}
  where
    below : (a u w : ℕ) → a < 1440 → (if ltb a 1440 then u else w) ≡ u
    below a u w h = ground arith
