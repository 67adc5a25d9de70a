-- ===== src/Photo/Read/Palette.antt =====
-- The colours of the VGA after `prep_room` of mp2/photo.c.
use computer_systems_enginee.Base.{
  ℕ, zero, suc, ◌+◌, ◌*◌, ◌%◌, ◌≤◌, ◌<◌, ◌≡◌, ◌⊎◌, inl, refl, ap, ◌∙◌, ◌==◌, false, some, List,
  arith, get_or,
}
use computer_systems_enginee.Photo.Types.{Photo, Colour}
use computer_systems_enginee.Modex.{VgaState}
use computer_systems_enginee.Modex.Vga.{palette_print}
use computer_systems_enginee.Photo.Read.{print_palette, prep_room}

-- A colour of a palette, with 5:6:5 bits, as the VGA takes it.
abbrev pub vga_colour : Colour → Colour
vga_colour c = record { red = c.red * 2 % 64; green = c.green % 64; blue = c.blue * 2 % 64 }

abbrev pub black : Colour
black = record { red = 0; green = 0; blue = 0 }

printed_self :
    (i : ℕ) (c : Colour) (v : VgaState)
    → i ≤ 255
    → (palette_print i c.red c.green c.blue v).dac i ≡ c
unfolding palette_print
printed_self i c v h = ground (arith, h)

printed_ne :
    (i j : ℕ) (c : Colour) (v : VgaState)
    → (i == j) ≡ false
    → (palette_print i c.red c.green c.blue v).dac j ≡ v.dac j
unfolding palette_print
printed_ne i j c v h = ground (arith, h)

printed_planes :
    (i : ℕ) (c : Colour) (v : VgaState) → (palette_print i c.red c.green c.blue v).planes ≡ v.planes
unfolding palette_print
printed_planes i c v = ground arith

module _ (palette : List Colour) where
  abbrev slot : ℕ → Colour
  slot i = vga_colour (get_or palette i black)

  printed_out :
      (n i j : ℕ) (v : VgaState)
      → (j < 64 + i) ⊎ (64 + i + n ≤ j)
      → (print_palette n i palette v).dac j ≡ v.dac j
  unfolding print_palette
  printed_out zero i j v h = refl
  printed_out (suc n) i j v h =
      let c = slot i in
      printed_out n (suc i) j (palette_print (64 + i) c.red c.green c.blue v) (ground (arith, h))
      ∙ printed_ne (64 + i) j c v (ground (arith, h))

  printed_in :
      (n i k : ℕ) (v : VgaState)
      → k < n
      → i + n ≤ 192
      → (print_palette n i palette v).dac (64 + (i + k)) ≡ slot (i + k)
  unfolding print_palette
  printed_in zero i k v h m = absurd (omega (arith, h))
  printed_in (suc n) i zero v h m =
      let c = slot i in
      let v' = palette_print (64 + i) c.red c.green c.blue v in
      printed_out n (suc i) (64 + (i + 0)) v' (inl (omega arith))
      ∙ ap v'.dac {x = 64 + (i + 0)} {y = 64 + i} (omega arith)
      ∙ printed_self (64 + i) c v (omega arith)
      ∙ ap slot {x = i} {y = i + 0} (omega arith)
  printed_in (suc n) i (suc k) v h m =
      let c = slot i in
      let v' = palette_print (64 + i) c.red c.green c.blue v in
      ap (print_palette n (suc i) palette v').dac {x = 64 + (i + suc k)} {y = 64 + (suc i + k)}
        (omega arith)
      ∙ printed_in n (suc i) k v' (omega arith) (omega arith)
      ∙ ap slot {x = suc i + k} {y = i + suc k} (omega arith)

  printed_memory : (n i : ℕ) (v : VgaState) → (print_palette n i palette v).planes ≡ v.planes
  unfolding print_palette
  printed_memory zero i v = refl
  printed_memory (suc n) i v =
      let c = slot i in
      printed_memory n (suc i) (palette_print (64 + i) c.red c.green c.blue v)
      ∙ printed_planes (64 + i) c v

-- The VGA has the photo's colours after those of the objects.
pub record Prepared (p : Photo) (v v' : VgaState) : Type 0 where
  pub objects : (c : ℕ) → c < 64 → v'.dac c ≡ v.dac c
  pub photo : (k : ℕ) → k < 192 → v'.dac (64 + k) ≡ vga_colour (get_or p.palette k black)
  pub memory : v'.planes ≡ v.planes

-- For a room with a photo, prep_room sets the 192 colours from 64 on to those of the photo's
-- palette, and leaves the 64 colours of the objects and the video memory as they are.
pub prep_room_lem :
    (p : Photo) (v : VgaState)
    → (v' : VgaState) × (prep_room (some p) v ≡ some v') × Prepared p v v'
unfolding prep_room
prep_room_lem p v = (
  _,
  refl,
  record {
    objects = λ c h. printed_out p.palette 192 0 c v (inl (omega arith));
    photo = λ k h.
        ap (print_palette 192 0 p.palette v).dac {x = 64 + k} {y = 64 + (0 + k)} (omega arith)
        ∙ printed_in p.palette 192 0 k v h (omega arith)
        ∙ ap (λ z. vga_colour (get_or p.palette z black)) {x = 0 + k} {y = k} (omega arith);
    memory = printed_memory p.palette 192 0 v;
  },
)
