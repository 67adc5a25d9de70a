-- ===== src/Text/Font.antt =====
-- The font of mp2/text.c: character `c` has 16 bytes, one for a row of its picture. The table stands in
-- four parts of 64 characters.
mod Control
mod Letters
mod Accents
mod Lines
use computer_systems_enginee.Base.{ℕ, ◌%◌, ltb, if◌then◌else◌, [], get_or}
use computer_systems_enginee.Text.Font.Control.{font_control}
use computer_systems_enginee.Text.Font.Letters.{font_letters}
use computer_systems_enginee.Text.Font.Accents.{font_accents}
use computer_systems_enginee.Text.Font.Lines.{font_lines}

-- Row `i` of character `c` of `font_data`.
unfoldable pub font_data : ℕ → ℕ → ℕ
font_data c i =
    let part =
      if ltb c 64
      then font_control
      else if ltb c 128
      then font_letters
      else if ltb c 192
      then font_accents
      else font_lines in
    get_or (get_or part (c % 64) []) i 0
