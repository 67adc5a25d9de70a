-- ===== src/Text/Font/Accents.antt =====
-- The font of mp2/text.c: characters 128 to 191.
use computer_systems_enginee.Base.{ℕ, List, [], ◌∷◌}

abbrev pub font_accents : List (List ℕ)
font_accents =
    (0x00 ∷ 0x00 ∷ 0x3C ∷ 0x66 ∷ 0xC2 ∷ 0xC0 ∷ 0xC0 ∷ 0xC0 ∷ 0xC2 ∷ 0x66 ∷ 0x3C ∷ 0x0C ∷ 0x06 ∷ 0x7C
      ∷ 0x00 ∷ 0x00 ∷ [])
    ∷ (0x00 ∷ 0x00 ∷ 0xCC ∷ 0x00 ∷ 0x00 ∷ 0xCC ∷ 0xCC ∷ 0xCC ∷ 0xCC ∷ 0xCC ∷ 0xCC ∷ 0x76 ∷ 0x00
        ∷ 0x00 ∷ 0x00 ∷ 0x00 ∷ [])
    ∷ (0x00 ∷ 0x0C ∷ 0x18 ∷ 0x30 ∷ 0x00 ∷ 0x7C ∷ 0xC6 ∷ 0xFE ∷ 0xC0 ∷ 0xC0 ∷ 0xC6 ∷ 0x7C ∷ 0x00
        ∷ 0x00 ∷ 0x00 ∷ 0x00 ∷ [])
    ∷ (0x00 ∷ 0x10 ∷ 0x38 ∷ 0x6C ∷ 0x00 ∷ 0x78 ∷ 0x0C ∷ 0x7C ∷ 0xCC ∷ 0xCC ∷ 0xCC ∷ 0x76 ∷ 0x00
        ∷ 0x00 ∷ 0x00 ∷ 0x00 ∷ [])
    ∷ (0x00 ∷ 0x00 ∷ 0xCC ∷ 0x00 ∷ 0x00 ∷ 0x78 ∷ 0x0C ∷ 0x7C ∷ 0xCC ∷ 0xCC ∷ 0xCC ∷ 0x76 ∷ 0x00
        ∷ 0x00 ∷ 0x00 ∷ 0x00 ∷ [])
    ∷ (0x00 ∷ 0x60 ∷ 0x30 ∷ 0x18 ∷ 0x00 ∷ 0x78 ∷ 0x0C ∷ 0x7C ∷ 0xCC ∷ 0xCC ∷ 0xCC ∷ 0x76 ∷ 0x00
        ∷ 0x00 ∷ 0x00 ∷ 0x00 ∷ [])
    ∷ (0x00 ∷ 0x38 ∷ 0x6C ∷ 0x38 ∷ 0x00 ∷ 0x78 ∷ 0x0C ∷ 0x7C ∷ 0xCC ∷ 0xCC ∷ 0xCC ∷ 0x76 ∷ 0x00
        ∷ 0x00 ∷ 0x00 ∷ 0x00 ∷ [])
    ∷ (0x00 ∷ 0x00 ∷ 0x00 ∷ 0x00 ∷ 0x3C ∷ 0x66 ∷ 0x60 ∷ 0x60 ∷ 0x66 ∷ 0x3C ∷ 0x0C ∷ 0x06 ∷ 0x3C
        ∷ 0x00 ∷ 0x00 ∷ 0x00 ∷ [])
    ∷ (0x00 ∷ 0x10 ∷ 0x38 ∷ 0x6C ∷ 0x00 ∷ 0x7C ∷ 0xC6 ∷ 0xFE ∷ 0xC0 ∷ 0xC0 ∷ 0xC6 ∷ 0x7C ∷ 0x00
        ∷ 0x00 ∷ 0x00 ∷ 0x00 ∷ [])
    ∷ (0x00 ∷ 0x00 ∷ 0xC6 ∷ 0x00 ∷ 0x00 ∷ 0x7C ∷ 0xC6 ∷ 0xFE ∷ 0xC0 ∷ 0xC0 ∷ 0xC6 ∷ 0x7C ∷ 0x00
        ∷ 0x00 ∷ 0x00 ∷ 0x00 ∷ [])
    ∷ (0x00 ∷ 0x60 ∷ 0x30 ∷ 0x18 ∷ 0x00 ∷ 0x7C ∷ 0xC6 ∷ 0xFE ∷ 0xC0 ∷ 0xC0 ∷ 0xC6 ∷ 0x7C ∷ 0x00
        ∷ 0x00 ∷ 0x00 ∷ 0x00 ∷ [])
    ∷ (0x00 ∷ 0x00 ∷ 0x66 ∷ 0x00 ∷ 0x00 ∷ 0x38 ∷ 0x18 ∷ 0x18 ∷ 0x18 ∷ 0x18 ∷ 0x18 ∷ 0x3C ∷ 0x00
        ∷ 0x00 ∷ 0x00 ∷ 0x00 ∷ [])
    ∷ (0x00 ∷ 0x18 ∷ 0x3C ∷ 0x66 ∷ 0x00 ∷ 0x38 ∷ 0x18 ∷ 0x18 ∷ 0x18 ∷ 0x18 ∷ 0x18 ∷ 0x3C ∷ 0x00
        ∷ 0x00 ∷ 0x00 ∷ 0x00 ∷ [])
    ∷ (0x00 ∷ 0x60 ∷ 0x30 ∷ 0x18 ∷ 0x00 ∷ 0x38 ∷ 0x18 ∷ 0x18 ∷ 0x18 ∷ 0x18 ∷ 0x18 ∷ 0x3C ∷ 0x00
        ∷ 0x00 ∷ 0x00 ∷ 0x00 ∷ [])
    ∷ (0x00 ∷ 0xC6 ∷ 0x00 ∷ 0x10 ∷ 0x38 ∷ 0x6C ∷ 0xC6 ∷ 0xC6 ∷ 0xFE ∷ 0xC6 ∷ 0xC6 ∷ 0xC6 ∷ 0x00
        ∷ 0x00 ∷ 0x00 ∷ 0x00 ∷ [])
    ∷ (0x38 ∷ 0x6C ∷ 0x38 ∷ 0x00 ∷ 0x38 ∷ 0x6C ∷ 0xC6 ∷ 0xC6 ∷ 0xFE ∷ 0xC6 ∷ 0xC6 ∷ 0xC6 ∷ 0x00
        ∷ 0x00 ∷ 0x00 ∷ 0x00 ∷ [])
    ∷ (0x18 ∷ 0x30 ∷ 0x60 ∷ 0x00 ∷ 0xFE ∷ 0x66 ∷ 0x60 ∷ 0x7C ∷ 0x60 ∷ 0x60 ∷ 0x66 ∷ 0xFE ∷ 0x00
        ∷ 0x00 ∷ 0x00 ∷ 0x00 ∷ [])
    ∷ (0x00 ∷ 0x00 ∷ 0x00 ∷ 0x00 ∷ 0x00 ∷ 0xCC ∷ 0x76 ∷ 0x36 ∷ 0x7E ∷ 0xD8 ∷ 0xD8 ∷ 0x6E ∷ 0x00
        ∷ 0x00 ∷ 0x00 ∷ 0x00 ∷ [])
    ∷ (0x00 ∷ 0x00 ∷ 0x3E ∷ 0x6C ∷ 0xCC ∷ 0xCC ∷ 0xFE ∷ 0xCC ∷ 0xCC ∷ 0xCC ∷ 0xCC ∷ 0xCE ∷ 0x00
        ∷ 0x00 ∷ 0x00 ∷ 0x00 ∷ [])
    ∷ (0x00 ∷ 0x10 ∷ 0x38 ∷ 0x6C ∷ 0x00 ∷ 0x7C ∷ 0xC6 ∷ 0xC6 ∷ 0xC6 ∷ 0xC6 ∷ 0xC6 ∷ 0x7C ∷ 0x00
        ∷ 0x00 ∷ 0x00 ∷ 0x00 ∷ [])
    ∷ (0x00 ∷ 0x00 ∷ 0xC6 ∷ 0x00 ∷ 0x00 ∷ 0x7C ∷ 0xC6 ∷ 0xC6 ∷ 0xC6 ∷ 0xC6 ∷ 0xC6 ∷ 0x7C ∷ 0x00
        ∷ 0x00 ∷ 0x00 ∷ 0x00 ∷ [])
    ∷ (0x00 ∷ 0x60 ∷ 0x30 ∷ 0x18 ∷ 0x00 ∷ 0x7C ∷ 0xC6 ∷ 0xC6 ∷ 0xC6 ∷ 0xC6 ∷ 0xC6 ∷ 0x7C ∷ 0x00
        ∷ 0x00 ∷ 0x00 ∷ 0x00 ∷ [])
    ∷ (0x00 ∷ 0x30 ∷ 0x78 ∷ 0xCC ∷ 0x00 ∷ 0xCC ∷ 0xCC ∷ 0xCC ∷ 0xCC ∷ 0xCC ∷ 0xCC ∷ 0x76 ∷ 0x00
        ∷ 0x00 ∷ 0x00 ∷ 0x00 ∷ [])
    ∷ (0x00 ∷ 0x60 ∷ 0x30 ∷ 0x18 ∷ 0x00 ∷ 0xCC ∷ 0xCC ∷ 0xCC ∷ 0xCC ∷ 0xCC ∷ 0xCC ∷ 0x76 ∷ 0x00
        ∷ 0x00 ∷ 0x00 ∷ 0x00 ∷ [])
    ∷ (0x00 ∷ 0x00 ∷ 0xC6 ∷ 0x00 ∷ 0x00 ∷ 0xC6 ∷ 0xC6 ∷ 0xC6 ∷ 0xC6 ∷ 0xC6 ∷ 0xC6 ∷ 0x7E ∷ 0x06
        ∷ 0x0C ∷ 0x78 ∷ 0x00 ∷ [])
    ∷ (0x00 ∷ 0xC6 ∷ 0x00 ∷ 0x7C ∷ 0xC6 ∷ 0xC6 ∷ 0xC6 ∷ 0xC6 ∷ 0xC6 ∷ 0xC6 ∷ 0xC6 ∷ 0x7C ∷ 0x00
        ∷ 0x00 ∷ 0x00 ∷ 0x00 ∷ [])
    ∷ (0x00 ∷ 0xC6 ∷ 0x00 ∷ 0xC6 ∷ 0xC6 ∷ 0xC6 ∷ 0xC6 ∷ 0xC6 ∷ 0xC6 ∷ 0xC6 ∷ 0xC6 ∷ 0x7C ∷ 0x00
        ∷ 0x00 ∷ 0x00 ∷ 0x00 ∷ [])
    ∷ (0x00 ∷ 0x18 ∷ 0x18 ∷ 0x3C ∷ 0x66 ∷ 0x60 ∷ 0x60 ∷ 0x60 ∷ 0x66 ∷ 0x3C ∷ 0x18 ∷ 0x18 ∷ 0x00
        ∷ 0x00 ∷ 0x00 ∷ 0x00 ∷ [])
    ∷ (0x00 ∷ 0x38 ∷ 0x6C ∷ 0x64 ∷ 0x60 ∷ 0xF0 ∷ 0x60 ∷ 0x60 ∷ 0x60 ∷ 0x60 ∷ 0xE6 ∷ 0xFC ∷ 0x00
        ∷ 0x00 ∷ 0x00 ∷ 0x00 ∷ [])
    ∷ (0x00 ∷ 0x00 ∷ 0x66 ∷ 0x66 ∷ 0x3C ∷ 0x18 ∷ 0x7E ∷ 0x18 ∷ 0x7E ∷ 0x18 ∷ 0x18 ∷ 0x18 ∷ 0x00
        ∷ 0x00 ∷ 0x00 ∷ 0x00 ∷ [])
    ∷ (0x00 ∷ 0xF8 ∷ 0xCC ∷ 0xCC ∷ 0xF8 ∷ 0xC4 ∷ 0xCC ∷ 0xDE ∷ 0xCC ∷ 0xCC ∷ 0xCC ∷ 0xC6 ∷ 0x00
        ∷ 0x00 ∷ 0x00 ∷ 0x00 ∷ [])
    ∷ (0x00 ∷ 0x0E ∷ 0x1B ∷ 0x18 ∷ 0x18 ∷ 0x18 ∷ 0x7E ∷ 0x18 ∷ 0x18 ∷ 0x18 ∷ 0x18 ∷ 0x18 ∷ 0xD8
        ∷ 0x70 ∷ 0x00 ∷ 0x00 ∷ [])
    ∷ (0x00 ∷ 0x18 ∷ 0x30 ∷ 0x60 ∷ 0x00 ∷ 0x78 ∷ 0x0C ∷ 0x7C ∷ 0xCC ∷ 0xCC ∷ 0xCC ∷ 0x76 ∷ 0x00
        ∷ 0x00 ∷ 0x00 ∷ 0x00 ∷ [])
    ∷ (0x00 ∷ 0x0C ∷ 0x18 ∷ 0x30 ∷ 0x00 ∷ 0x38 ∷ 0x18 ∷ 0x18 ∷ 0x18 ∷ 0x18 ∷ 0x18 ∷ 0x3C ∷ 0x00
        ∷ 0x00 ∷ 0x00 ∷ 0x00 ∷ [])
    ∷ (0x00 ∷ 0x18 ∷ 0x30 ∷ 0x60 ∷ 0x00 ∷ 0x7C ∷ 0xC6 ∷ 0xC6 ∷ 0xC6 ∷ 0xC6 ∷ 0xC6 ∷ 0x7C ∷ 0x00
        ∷ 0x00 ∷ 0x00 ∷ 0x00 ∷ [])
    ∷ (0x00 ∷ 0x18 ∷ 0x30 ∷ 0x60 ∷ 0x00 ∷ 0xCC ∷ 0xCC ∷ 0xCC ∷ 0xCC ∷ 0xCC ∷ 0xCC ∷ 0x76 ∷ 0x00
        ∷ 0x00 ∷ 0x00 ∷ 0x00 ∷ [])
    ∷ (0x00 ∷ 0x00 ∷ 0x76 ∷ 0xDC ∷ 0x00 ∷ 0xDC ∷ 0x66 ∷ 0x66 ∷ 0x66 ∷ 0x66 ∷ 0x66 ∷ 0x66 ∷ 0x00
        ∷ 0x00 ∷ 0x00 ∷ 0x00 ∷ [])
    ∷ (0x76 ∷ 0xDC ∷ 0x00 ∷ 0xC6 ∷ 0xE6 ∷ 0xF6 ∷ 0xFE ∷ 0xDE ∷ 0xCE ∷ 0xC6 ∷ 0xC6 ∷ 0xC6 ∷ 0x00
        ∷ 0x00 ∷ 0x00 ∷ 0x00 ∷ [])
    ∷ (0x00 ∷ 0x3C ∷ 0x6C ∷ 0x6C ∷ 0x3E ∷ 0x00 ∷ 0x7E ∷ 0x00 ∷ 0x00 ∷ 0x00 ∷ 0x00 ∷ 0x00 ∷ 0x00
        ∷ 0x00 ∷ 0x00 ∷ 0x00 ∷ [])
    ∷ (0x00 ∷ 0x38 ∷ 0x6C ∷ 0x6C ∷ 0x38 ∷ 0x00 ∷ 0x7C ∷ 0x00 ∷ 0x00 ∷ 0x00 ∷ 0x00 ∷ 0x00 ∷ 0x00
        ∷ 0x00 ∷ 0x00 ∷ 0x00 ∷ [])
    ∷ (0x00 ∷ 0x00 ∷ 0x30 ∷ 0x30 ∷ 0x00 ∷ 0x30 ∷ 0x30 ∷ 0x60 ∷ 0xC0 ∷ 0xC6 ∷ 0xC6 ∷ 0x7C ∷ 0x00
        ∷ 0x00 ∷ 0x00 ∷ 0x00 ∷ [])
    ∷ (0x00 ∷ 0x00 ∷ 0x00 ∷ 0x00 ∷ 0x00 ∷ 0x00 ∷ 0xFE ∷ 0xC0 ∷ 0xC0 ∷ 0xC0 ∷ 0xC0 ∷ 0x00 ∷ 0x00
        ∷ 0x00 ∷ 0x00 ∷ 0x00 ∷ [])
    ∷ (0x00 ∷ 0x00 ∷ 0x00 ∷ 0x00 ∷ 0x00 ∷ 0x00 ∷ 0xFE ∷ 0x06 ∷ 0x06 ∷ 0x06 ∷ 0x06 ∷ 0x00 ∷ 0x00
        ∷ 0x00 ∷ 0x00 ∷ 0x00 ∷ [])
    ∷ (0x00 ∷ 0xC0 ∷ 0xC0 ∷ 0xC2 ∷ 0xC6 ∷ 0xCC ∷ 0x18 ∷ 0x30 ∷ 0x60 ∷ 0xDC ∷ 0x86 ∷ 0x0C ∷ 0x18
        ∷ 0x3E ∷ 0x00 ∷ 0x00 ∷ [])
    ∷ (0x00 ∷ 0xC0 ∷ 0xC0 ∷ 0xC2 ∷ 0xC6 ∷ 0xCC ∷ 0x18 ∷ 0x30 ∷ 0x66 ∷ 0xCE ∷ 0x9E ∷ 0x3E ∷ 0x06
        ∷ 0x06 ∷ 0x00 ∷ 0x00 ∷ [])
    ∷ (0x00 ∷ 0x00 ∷ 0x18 ∷ 0x18 ∷ 0x00 ∷ 0x18 ∷ 0x18 ∷ 0x18 ∷ 0x3C ∷ 0x3C ∷ 0x3C ∷ 0x18 ∷ 0x00
        ∷ 0x00 ∷ 0x00 ∷ 0x00 ∷ [])
    ∷ (0x00 ∷ 0x00 ∷ 0x00 ∷ 0x00 ∷ 0x00 ∷ 0x36 ∷ 0x6C ∷ 0xD8 ∷ 0x6C ∷ 0x36 ∷ 0x00 ∷ 0x00 ∷ 0x00
        ∷ 0x00 ∷ 0x00 ∷ 0x00 ∷ [])
    ∷ (0x00 ∷ 0x00 ∷ 0x00 ∷ 0x00 ∷ 0x00 ∷ 0xD8 ∷ 0x6C ∷ 0x36 ∷ 0x6C ∷ 0xD8 ∷ 0x00 ∷ 0x00 ∷ 0x00
        ∷ 0x00 ∷ 0x00 ∷ 0x00 ∷ [])
    ∷ (0x11 ∷ 0x44 ∷ 0x11 ∷ 0x44 ∷ 0x11 ∷ 0x44 ∷ 0x11 ∷ 0x44 ∷ 0x11 ∷ 0x44 ∷ 0x11 ∷ 0x44 ∷ 0x11
        ∷ 0x44 ∷ 0x11 ∷ 0x44 ∷ [])
    ∷ (0x55 ∷ 0xAA ∷ 0x55 ∷ 0xAA ∷ 0x55 ∷ 0xAA ∷ 0x55 ∷ 0xAA ∷ 0x55 ∷ 0xAA ∷ 0x55 ∷ 0xAA ∷ 0x55
        ∷ 0xAA ∷ 0x55 ∷ 0xAA ∷ [])
    ∷ (0xDD ∷ 0x77 ∷ 0xDD ∷ 0x77 ∷ 0xDD ∷ 0x77 ∷ 0xDD ∷ 0x77 ∷ 0xDD ∷ 0x77 ∷ 0xDD ∷ 0x77 ∷ 0xDD
        ∷ 0x77 ∷ 0xDD ∷ 0x77 ∷ [])
    ∷ (0x18 ∷ 0x18 ∷ 0x18 ∷ 0x18 ∷ 0x18 ∷ 0x18 ∷ 0x18 ∷ 0x18 ∷ 0x18 ∷ 0x18 ∷ 0x18 ∷ 0x18 ∷ 0x18
        ∷ 0x18 ∷ 0x18 ∷ 0x18 ∷ [])
    ∷ (0x18 ∷ 0x18 ∷ 0x18 ∷ 0x18 ∷ 0x18 ∷ 0x18 ∷ 0x18 ∷ 0xF8 ∷ 0x18 ∷ 0x18 ∷ 0x18 ∷ 0x18 ∷ 0x18
        ∷ 0x18 ∷ 0x18 ∷ 0x18 ∷ [])
    ∷ (0x18 ∷ 0x18 ∷ 0x18 ∷ 0x18 ∷ 0x18 ∷ 0xF8 ∷ 0x18 ∷ 0xF8 ∷ 0x18 ∷ 0x18 ∷ 0x18 ∷ 0x18 ∷ 0x18
        ∷ 0x18 ∷ 0x18 ∷ 0x18 ∷ [])
    ∷ (0x36 ∷ 0x36 ∷ 0x36 ∷ 0x36 ∷ 0x36 ∷ 0x36 ∷ 0x36 ∷ 0xF6 ∷ 0x36 ∷ 0x36 ∷ 0x36 ∷ 0x36 ∷ 0x36
        ∷ 0x36 ∷ 0x36 ∷ 0x36 ∷ [])
    ∷ (0x00 ∷ 0x00 ∷ 0x00 ∷ 0x00 ∷ 0x00 ∷ 0x00 ∷ 0x00 ∷ 0xFE ∷ 0x36 ∷ 0x36 ∷ 0x36 ∷ 0x36 ∷ 0x36
        ∷ 0x36 ∷ 0x36 ∷ 0x36 ∷ [])
    ∷ (0x00 ∷ 0x00 ∷ 0x00 ∷ 0x00 ∷ 0x00 ∷ 0xF8 ∷ 0x18 ∷ 0xF8 ∷ 0x18 ∷ 0x18 ∷ 0x18 ∷ 0x18 ∷ 0x18
        ∷ 0x18 ∷ 0x18 ∷ 0x18 ∷ [])
    ∷ (0x36 ∷ 0x36 ∷ 0x36 ∷ 0x36 ∷ 0x36 ∷ 0xF6 ∷ 0x06 ∷ 0xF6 ∷ 0x36 ∷ 0x36 ∷ 0x36 ∷ 0x36 ∷ 0x36
        ∷ 0x36 ∷ 0x36 ∷ 0x36 ∷ [])
    ∷ (0x36 ∷ 0x36 ∷ 0x36 ∷ 0x36 ∷ 0x36 ∷ 0x36 ∷ 0x36 ∷ 0x36 ∷ 0x36 ∷ 0x36 ∷ 0x36 ∷ 0x36 ∷ 0x36
        ∷ 0x36 ∷ 0x36 ∷ 0x36 ∷ [])
    ∷ (0x00 ∷ 0x00 ∷ 0x00 ∷ 0x00 ∷ 0x00 ∷ 0xFE ∷ 0x06 ∷ 0xF6 ∷ 0x36 ∷ 0x36 ∷ 0x36 ∷ 0x36 ∷ 0x36
        ∷ 0x36 ∷ 0x36 ∷ 0x36 ∷ [])
    ∷ (0x36 ∷ 0x36 ∷ 0x36 ∷ 0x36 ∷ 0x36 ∷ 0xF6 ∷ 0x06 ∷ 0xFE ∷ 0x00 ∷ 0x00 ∷ 0x00 ∷ 0x00 ∷ 0x00
        ∷ 0x00 ∷ 0x00 ∷ 0x00 ∷ [])
    ∷ (0x36 ∷ 0x36 ∷ 0x36 ∷ 0x36 ∷ 0x36 ∷ 0x36 ∷ 0x36 ∷ 0xFE ∷ 0x00 ∷ 0x00 ∷ 0x00 ∷ 0x00 ∷ 0x00
        ∷ 0x00 ∷ 0x00 ∷ 0x00 ∷ [])
    ∷ (0x18 ∷ 0x18 ∷ 0x18 ∷ 0x18 ∷ 0x18 ∷ 0xF8 ∷ 0x18 ∷ 0xF8 ∷ 0x00 ∷ 0x00 ∷ 0x00 ∷ 0x00 ∷ 0x00
        ∷ 0x00 ∷ 0x00 ∷ 0x00 ∷ [])
    ∷ (0x00 ∷ 0x00 ∷ 0x00 ∷ 0x00 ∷ 0x00 ∷ 0x00 ∷ 0x00 ∷ 0xF8 ∷ 0x18 ∷ 0x18 ∷ 0x18 ∷ 0x18 ∷ 0x18
        ∷ 0x18 ∷ 0x18 ∷ 0x18 ∷ [])
    ∷ []
