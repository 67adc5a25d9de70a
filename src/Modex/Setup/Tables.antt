-- ===== src/Modex/Setup/Tables.antt =====
-- The tables of mp2/modex.c for mode X.
use computer_systems_enginee.Base.{ℕ, suc, List, [], ◌∷◌}
use computer_systems_enginee.World.State.{update}
use computer_systems_enginee.Photo.Types.{Colour}
use computer_systems_enginee.Modex.{VgaState}

abbrev pub mode_x_seq : List ℕ
mode_x_seq = 0x0100 ∷ 0x2101 ∷ 0x0F02 ∷ 0x0003 ∷ 0x0604 ∷ []

abbrev pub mode_x_crtc : List ℕ
mode_x_crtc =
    0x5F00 ∷ 0x4F01 ∷ 0x5002 ∷ 0x8203 ∷ 0x5404 ∷ 0x8005 ∷ 0xBF06 ∷ 0x1F07 ∷ 0x0008 ∷ 0x0109 ∷ 0x000A
    ∷ 0x000B ∷ 0x000C ∷ 0x000D ∷ 0x000E ∷ 0x000F ∷ 0x9C10 ∷ 0x8E11 ∷ 0x8F12 ∷ 0x2813 ∷ 0x0014
    ∷ 0x9615 ∷ 0xB916 ∷ 0xE317 ∷ 0x6B18 ∷ []

abbrev pub mode_x_attr : List ℕ
mode_x_attr =
    0x00 ∷ 0x00 ∷ 0x01 ∷ 0x01 ∷ 0x02 ∷ 0x02 ∷ 0x03 ∷ 0x03 ∷ 0x04 ∷ 0x04 ∷ 0x05 ∷ 0x05 ∷ 0x06 ∷ 0x06
    ∷ 0x07 ∷ 0x07 ∷ 0x08 ∷ 0x08 ∷ 0x09 ∷ 0x09 ∷ 0x0A ∷ 0x0A ∷ 0x0B ∷ 0x0B ∷ 0x0C ∷ 0x0C ∷ 0x0D
    ∷ 0x0D ∷ 0x0E ∷ 0x0E ∷ 0x0F ∷ 0x0F ∷ 0x10 ∷ 0x61 ∷ 0x11 ∷ 0x00 ∷ 0x12 ∷ 0x0F ∷ 0x13 ∷ 0x00
    ∷ 0x14 ∷ 0x00 ∷ 0x15 ∷ 0x00 ∷ []

abbrev pub mode_x_graphics : List ℕ
mode_x_graphics =
    0x0000 ∷ 0x0001 ∷ 0x0002 ∷ 0x0003 ∷ 0x0004 ∷ 0x4005 ∷ 0x0506 ∷ 0x0F07 ∷ 0xFF08 ∷ []

abbrev rgb : ℕ → ℕ → ℕ → Colour
rgb red green blue = record { red = red; green = green; blue = blue }

-- The colours of `fill_palette_mode_x`.
abbrev pub palette_rgb : List Colour
palette_rgb =
    rgb 0x00 0x00 0x00
    ∷ rgb 0x00 0x00 0x15
    ∷ rgb 0x00 0x00 0x2A
    ∷ rgb 0x00 0x00 0x3F
    ∷ rgb 0x00 0x15 0x00
    ∷ rgb 0x00 0x15 0x15
    ∷ rgb 0x00 0x15 0x2A
    ∷ rgb 0x00 0x15 0x3F
    ∷ rgb 0x00 0x2A 0x00
    ∷ rgb 0x00 0x2A 0x15
    ∷ rgb 0x00 0x2A 0x2A
    ∷ rgb 0x00 0x2A 0x3F
    ∷ rgb 0x00 0x3F 0x00
    ∷ rgb 0x00 0x3F 0x15
    ∷ rgb 0x00 0x3F 0x2A
    ∷ rgb 0x00 0x3F 0x3F
    ∷ rgb 0x15 0x00 0x00
    ∷ rgb 0x15 0x00 0x15
    ∷ rgb 0x15 0x00 0x2A
    ∷ rgb 0x15 0x00 0x3F
    ∷ rgb 0x15 0x15 0x00
    ∷ rgb 0x15 0x15 0x15
    ∷ rgb 0x15 0x15 0x2A
    ∷ rgb 0x15 0x15 0x3F
    ∷ rgb 0x15 0x2A 0x00
    ∷ rgb 0x15 0x2A 0x15
    ∷ rgb 0x15 0x2A 0x2A
    ∷ rgb 0x15 0x2A 0x3F
    ∷ rgb 0x15 0x3F 0x00
    ∷ rgb 0x15 0x3F 0x15
    ∷ rgb 0x15 0x3F 0x2A
    ∷ rgb 0x15 0x3F 0x3F
    ∷ rgb 0x2A 0x00 0x00
    ∷ rgb 0x2A 0x00 0x15
    ∷ rgb 0x2A 0x00 0x2A
    ∷ rgb 0x2A 0x00 0x3F
    ∷ rgb 0x2A 0x15 0x00
    ∷ rgb 0x2A 0x15 0x15
    ∷ rgb 0x2A 0x15 0x2A
    ∷ rgb 0x2A 0x15 0x3F
    ∷ rgb 0x2A 0x2A 0x00
    ∷ rgb 0x2A 0x2A 0x15
    ∷ rgb 0x2A 0x2A 0x2A
    ∷ rgb 0x2A 0x2A 0x3F
    ∷ rgb 0x2A 0x3F 0x00
    ∷ rgb 0x2A 0x3F 0x15
    ∷ rgb 0x2A 0x3F 0x2A
    ∷ rgb 0x2A 0x3F 0x3F
    ∷ rgb 0x3F 0x00 0x00
    ∷ rgb 0x3F 0x00 0x15
    ∷ rgb 0x3F 0x00 0x2A
    ∷ rgb 0x3F 0x00 0x3F
    ∷ rgb 0x3F 0x15 0x00
    ∷ rgb 0x3F 0x15 0x15
    ∷ rgb 0x3F 0x15 0x2A
    ∷ rgb 0x3F 0x15 0x3F
    ∷ rgb 0x3F 0x2A 0x00
    ∷ rgb 0x3F 0x2A 0x15
    ∷ rgb 0x3F 0x2A 0x2A
    ∷ rgb 0x3F 0x2A 0x3F
    ∷ rgb 0x3F 0x3F 0x00
    ∷ rgb 0x3F 0x3F 0x15
    ∷ rgb 0x3F 0x3F 0x2A
    ∷ rgb 0x3F 0x3F 0x3F
    ∷ []

-- The colours from `i` on.
unfoldable pub fill_colours : List Colour → ℕ → (ℕ → Colour) → ℕ → Colour
fill_colours [] i dac = dac
fill_colours (c ∷ cs) i dac = fill_colours cs (suc i) (update dac i c)

-- `fill_palette_mode_x`
unfoldable pub fill_palette_mode_x : VgaState → VgaState
unfolding fill_colours
fill_palette_mode_x v = record v { dac = fill_colours palette_rgb 0 v.dac }
