-- ===== src/Adventure/StatusBar.antt =====
-- The status bar in the event loop of mp2/adventure.c: the text is made a picture, and the picture is
-- copied to the video memory.
use computer_systems_enginee.Base.{
  ℕ, suc, ◌+◌, ◌-◌, ◌*◌, ◌/◌, ◌%◌, ◌≤◌, ◌<◌, ◌≡◌, ap, ◌∙◌, ◌==◌, if◌then◌else◌, arith, Text, length,
}
use computer_systems_enginee.Modex.{Display}
use computer_systems_enginee.Modex.Screen.{print_status_bar}
use computer_systems_enginee.Modex.Screen.Shown.{status_bar, ShowsBar, print_status_bar_lem}
use computer_systems_enginee.Text.{lit, text_to_graphics}
use computer_systems_enginee.Text.Painted.{Pictures}
use computer_systems_enginee.Text.Strings.{shown_string, text_to_graphics_lem}

-- What `game_loop` does with the typed text, the room's name and the message in each round. The
-- arrays `buffer` and `tempstring` hold anything before.
unfoldable pub draw_status_bar :
    (ℕ → ℕ) → (ℕ → ℕ) → Text → (ℕ → ℕ) → Text → Text → (ℕ → ℕ) → Display → Display
draw_status_bar buffer tempstring written before room msg after =
    print_status_bar (text_to_graphics tempstring written before room msg after buffer)

-- The status bar shows 40 characters, moved to the right by `offset` bytes of four pixels: what
-- leaves a row at its right end goes on in the next row. What is above the bar stays.
pub record ShowsText (string : ℕ → ℕ) (offset : ℕ) (d d' : Display) : Type 0 where
  pub letters :
      (x y : ℕ)
      → x + 4 * offset < 320
      → y < 16
      → status_bar d'.vga (x + 4 * offset) (suc y)
        ≡ (if lit (string (x / 8)) y (x % 8) then 0x3C else 3)
  pub wrapped :
      (x y : ℕ)
      → x < 320
      → 320 ≤ x + 4 * offset
      → y < 16
      → status_bar d'.vga (x + 4 * offset - 320) (suc (suc y))
        ≡ (if lit (string (x / 8)) y (x % 8) then 0x3C else 3)
  pub above : (p a : ℕ) → p < 4 → 1440 ≤ a → d'.vga.planes p a ≡ d.vga.planes p a
  pub rest : record d' { vga = d.vga } ≡ d

Pictures-ShowsText :
    (string : ℕ → ℕ) (offset : ℕ) (b b' : ℕ → ℕ) (d d' : Display)
    → offset ≤ 30
    → Pictures string offset b b'
    → ShowsBar b' d d'
    → ShowsText string offset d d'
Pictures-ShowsText string offset b b' d d' small p s = record {
  letters = λ x y h hy.
      s.pixels (x + 4 * offset) (suc y) h (omega arith)
      ∙ ap b' (omega arith)
      ∙ p.letters x y (omega arith) hy;
  wrapped = λ x y hx h hy.
      s.pixels (x + 4 * offset - 320) (suc (suc y)) (omega arith) (omega arith)
      ∙ ap b' (omega arith)
      ∙ p.letters x y hx hy;
  above = s.above;
  rest = s.rest;
}

-- For a message of at most 40 characters, the round shows the 40 characters of the string in the
-- status bar: without a message the room's name and the typed text, from the left edge; else the
-- message, moved to the right by half of the bytes that its length leaves of 60, and what leaves a
-- row at its right end goes on in the next row. It changes nothing above the status bar.
pub draw_status_bar_lem :
    (buffer tempstring : ℕ → ℕ) (written : Text) (before : ℕ → ℕ) (room msg : Text) (after : ℕ → ℕ)
    (d : Display)
    → length msg ≤ 40
    → ShowsText
        (shown_string written before room msg after)
        (if length msg == 0 then 0 else (60 - length msg) / 2)
        d
        (draw_status_bar buffer tempstring written before room msg after d)
unfolding draw_status_bar
draw_status_bar_lem buffer tempstring written before room msg after d short =
    Pictures-ShowsText (shown_string written before room msg after)
      (if length msg == 0 then 0 else (60 - length msg) / 2) buffer
      (text_to_graphics tempstring written before room msg after buffer) d _ (ground arith)
      (text_to_graphics_lem tempstring written before room msg after buffer short)
      (print_status_bar_lem (text_to_graphics tempstring written before room msg after buffer) d)
