-- ===== src/Text.antt =====
-- `text_to_graphics` of mp2/text.c: the text of the status bar becomes an image of 320 by 18 pixels,
-- one plane after the other. A C string is the list of its codes before the NUL. The function also
-- reads bytes that are not of the string: those before the typed text, where `before i` is the byte
-- `i + 1` places before it, and those from the NUL of the message on, where `after i` is the byte
-- `i` places behind its last character. Both are arguments. The name of a room is taken to fit into
-- `tempstring`.
pub mod Font
pub mod Painted
pub mod Strings
use computer_systems_enginee.Base.{
  ℕ, zero, suc, ◌+◌, ◌-◌, ◌*◌, ◌/◌, ◌%◌, ◌^◌, Bool, ◌==◌, leb, ltb, if◌then◌else◌, Text, get_or,
  length,
}
use Prim.Native.Nat.{bit_and}
use computer_systems_enginee.World.State.{update}
use computer_systems_enginee.Text.Font.{font_data}

abbrev pub total_status_addr : ℕ
total_status_addr = 1440

abbrev pub tempstring_len : ℕ
tempstring_len = 40

abbrev pub total_status_pixel : ℕ
total_status_pixel = 5760

-- A loop of `n` rounds that counts from `i`.
unfoldable pub loop : {S : Type 0} → ℕ → ℕ → (ℕ → S → S) → S → S
loop zero i body s = s
loop (suc n) i body s = loop n (suc i) body (body i s)

-- Byte `n - i` of the typed text, of `n` characters, and what lies around it.
abbrev pub written_byte : Text → (ℕ → ℕ) → ℕ → ℕ
written_byte written before i =
    let n = length written in if leb i n then get_or written (n - i) 0 else before (i - n - 1)

-- Byte `i` of the message.
abbrev pub message_byte : Text → (ℕ → ℕ) → ℕ → ℕ
message_byte msg after i = let n = length msg in if ltb i n then get_or msg i 0 else after (i - n)

-- `tempstring` once it is filled, for a message that is empty and for another.
unfoldable pub room_and_typed : Text → (ℕ → ℕ) → Text → (ℕ → ℕ) → ℕ → ℕ
room_and_typed written before room tempstring =
    let blank = loop tempstring_len 0 (λ i s. update s i 32) (update tempstring tempstring_len 0) in
    let named = loop (length room) 0 (λ i s. update s i (get_or room i 0)) blank in
    loop 21 0 (λ i s. update s (tempstring_len - i) (written_byte written before i)) named

unfoldable pub message_string : Text → (ℕ → ℕ) → (ℕ → ℕ) → ℕ → ℕ
message_string msg after tempstring =
    let blank = loop tempstring_len 0 (λ i s. update s i 32) (update tempstring tempstring_len 0) in
    loop tempstring_len 0 (λ i s. update s i (message_byte msg after i)) blank

-- The test of a bit of the font: bit `m` from the left in row `i` of a character.
abbrev pub lit : ℕ → ℕ → ℕ → Bool
lit letter i m = let mask = 0x80 / 2 ^ m in bit_and mask (font_data letter i) == mask

-- Where a pixel of the character in place `k` is written.
abbrev pub glyph_place : ℕ → ℕ → ℕ → ℕ
glyph_place k i m =
    if leb m 3
    then 80 + 80 * i + 2 * k + m % 4 * total_status_addr
    else 80 + 80 * i + 2 * k + m % 4 * total_status_addr + 1

-- The loops over the rows and the columns of a character. The loop over `j` writes the same byte
-- four times.
abbrev pub paint_bit : ℕ → ℕ → ℕ → ℕ → ℕ → (ℕ → ℕ) → ℕ → ℕ
paint_bit letter offset k i m buffer =
    if lit letter i m then update buffer (glyph_place k i m + offset) 0x3C else buffer

abbrev pub paint_row : ℕ → ℕ → ℕ → ℕ → (ℕ → ℕ) → ℕ → ℕ
paint_row letter offset k i = loop 8 0 (paint_bit letter offset k i)

abbrev pub paint_letter : ℕ → ℕ → ℕ → (ℕ → ℕ) → ℕ → ℕ
paint_letter letter offset k = loop 16 0 (paint_row letter offset k)

unfoldable pub paint_string : (ℕ → ℕ) → ℕ → (ℕ → ℕ) → ℕ → ℕ
paint_string tempstring offset buffer =
    let filled = loop total_status_pixel 0 (λ i b. update b i 3) buffer in
    loop tempstring_len 0 (λ k. paint_letter (tempstring k) offset k) filled

-- `text_to_graphics`, with what the array `tempstring` holds before.
unfoldable pub text_to_graphics : (ℕ → ℕ) → Text → (ℕ → ℕ) → Text → Text → (ℕ → ℕ) → (ℕ → ℕ) → ℕ → ℕ
text_to_graphics tempstring written before room msg after buffer =
    if length msg == 0
    then paint_string (room_and_typed written before room tempstring) 0 buffer
    else paint_string (message_string msg after tempstring) ((60 - length msg) / 2) buffer
