-- ===== src/Input/Keyboard.antt =====
-- The commands that `get_command` of mp2/input.c reads: the keys, as compiled for the keyboard with
-- arrow keys, and then the buttons of the Tux controller.
pub mod Typing
pub mod Keys
use computer_systems_enginee.Base.{
  ℕ, zero, suc, ◌+◌, Bool, true, false, not, ◌&&◌, ◌||◌, leb, ltb, ◌==◌, if◌then◌else◌, Option,
  none, some, List, [], ◌∷◌, ◌++◌, Text, length,
}

-- `cmd_t`
pub data Cmd : Type 0 where
  cmd_none cmd_right cmd_left cmd_up cmd_down : Cmd
  cmd_move_left cmd_enter cmd_move_right cmd_typed cmd_quit : Cmd

abbrev pub max_typed_len : ℕ
max_typed_len = 20

abbrev pub is_alpha : ℕ → Bool
is_alpha c = (leb b'A' c && leb c b'Z') || (leb b'a' c && leb c b'z')

abbrev pub is_digit : ℕ → Bool
is_digit c = leb b'0' c && leb c b'9'

-- Backspace or delete.
abbrev pub is_erase : ℕ → Bool
is_erase c = c == 8 || c == 127

unfoldable pub valid_typing : ℕ → Bool
valid_typing c = is_alpha c || is_digit c || c == b' ' || is_erase c

abbrev pub drop_last : Text → Text
drop_last [] = []
drop_last (c ∷ []) = []
drop_last (c ∷ d ∷ t) = c ∷ drop_last (d ∷ t)

unfoldable pub typed_a_char : ℕ → Text → Text
typed_a_char c typing =
    if is_erase c
    then drop_last typing
    else if ltb (length typing) max_typed_len
    then typing ++ (c ∷ [])
    else typing

-- The static variables of `get_command`, the buffer `typing`, and its local variable `pushed`.
pub record Keyboard : Type 0 where
  pub state : ℕ
  pub typing : Text
  pub pushed : Cmd

-- What the states have in common: a character to be typed, or a line's end.
unfoldable pub plain_key : ℕ → Keyboard → Keyboard
plain_key ch k =
    if valid_typing ch
    then record k { typing = typed_a_char ch k.typing }
    else if ch == 10 || ch == 13
    then record k { pushed = cmd_typed }
    else k

-- The arrow keys.
unfoldable pub arrow : ℕ → Option Cmd
arrow ch =
    if ch == b'A'
    then some cmd_up
    else if ch == b'B'
    then some cmd_down
    else if ch == b'C'
    then some cmd_right
    else if ch == b'D'
    then some cmd_left
    else none

-- Insert, home and page up.
unfoldable pub digit_key : ℕ → Option Cmd
digit_key ch =
    if ch == b'2'
    then some cmd_move_left
    else if ch == b'1'
    then some cmd_enter
    else if ch == b'5'
    then some cmd_move_right
    else none

-- State 2, after ESC and a bracket.
unfoldable pub bracket_key : ℕ → Keyboard → Keyboard
bracket_key ch k = elim (arrow ch) [
  | some cmd ↦ record k { state = 0; pushed = cmd }
  | none ↦ elim (digit_key ch) [
    | some cmd ↦ record k { state = 3; pushed = cmd }
    | none ↦ plain_key ch (record k { state = 0 })
  ]
]

-- The switch over the states.
unfoldable pub press : ℕ → Keyboard → Keyboard
press ch k =
    if k.state == 0
    then (if ch == 27 then record k { state = 1 } else plain_key ch k)
    else if k.state == 1
    then (if ch == 91 then record k { state = 2 } else plain_key ch (record k { state = 0 }))
    else if k.state == 2
    then bracket_key ch k
    else if k.state == 3
    then (if ch == b'~' then record k { state = 0 } else plain_key ch (record k { state = 0 }))
    else k

-- The loop over the characters that can be read. It tells whether the player quits.
unfoldable pub read_keys : List ℕ → Keyboard → Bool × Keyboard
read_keys [] k = (false, k)
read_keys (ch ∷ chars) k =
    let rest = read_keys chars (press ch k) in if ch == b'`' then (true, k) else rest

-- The direction buttons, active low, while they are held.
unfoldable pub held_button : ℕ → Cmd → Cmd
held_button arg pushed =
    if arg == 239
    then cmd_up
    else if arg == 127
    then cmd_right
    else if arg == 191
    then cmd_down
    else if arg == 223
    then cmd_left
    else pushed

-- The other buttons, when they are pressed anew.
unfoldable pub new_button : ℕ → Cmd → Cmd
new_button arg pushed =
    if arg == 253
    then cmd_move_left
    else if arg == 251
    then cmd_enter
    else if arg == 247
    then cmd_move_right
    else if arg == 254
    then cmd_quit
    else pushed

-- `arg` is what the ioctl for the buttons wrote, and `pushedbutton` what it wrote the last time. The
-- result has the command and what to remember.
unfoldable pub get_tux_command : ℕ → ℕ → Cmd → Cmd × ℕ
get_tux_command arg pushedbutton pushed =
    let held = held_button arg pushed in
    if arg == pushedbutton then (held, pushedbutton) else (new_button arg held, arg)

-- The command, the keyboard and the button remembered. A player who quits does not reach the buttons.
unfoldable pub get_command : List ℕ → ℕ → ℕ → Keyboard → Cmd × Keyboard × ℕ
get_command chars arg pushedbutton k =
    let (quits, k') = read_keys chars (record k { pushed = cmd_none }) in
    let (cmd, button) = get_tux_command arg pushedbutton k'.pushed in
    if quits then (cmd_quit, k', pushedbutton) else (cmd, k', button)
