-- ===== src/Adventure/Loop.antt =====
-- One turn of the event loop of mp2/adventure.c: the command that the input gives, and what it does to
-- the world, the view and the typing. Adventure.Drawing has what is drawn.
pub mod Total
use computer_systems_enginee.Base.{
  ℕ, zero, suc, ◌+◌, ◌*◌, ◌<◌, ◌≡◌, refl, sym, ap, ◌∙◌, subst, Bool, true, false, not, inl, inr,
  ◌==◌, if◌then◌else◌, Bool-cases, Option, none, some, List, [], ◌∷◌, Text,
}
use computer_systems_enginee.World.Ids.{r_inventory}
use computer_systems_enginee.Photo.Types.{photo_width, photo_height}
use computer_systems_enginee.World.State.{
  World, Action, allow_edit, discard_text, redraw_room, change_room, show_status, is_at,
}
use computer_systems_enginee.World.Validity.{IsValid, Ends}
use computer_systems_enginee.World.Game.{
  Verb, tc_drop, tc_get, Request, move_left, move_right, enter, typed, request_in, request-Ends,
}
use computer_systems_enginee.World.Commands.Rules.{Valid}
use computer_systems_enginee.World.Commands.Standing.{IsIn}
use computer_systems_enginee.Input.Keyboard.{
  Cmd, cmd_none, cmd_right, cmd_left, cmd_up, cmd_down, cmd_move_left, cmd_enter, cmd_move_right,
  cmd_typed, cmd_quit, Keyboard, get_command,
}
use computer_systems_enginee.Input.Keyboard.Typing.{IsKeyboard, get_command-IsKeyboard}
use computer_systems_enginee.Adventure.View.{
  View, motion_speed, move_photo_down, move_photo_right, move_photo_left, move_photo_up,
}
use computer_systems_enginee.Adventure.Parser.{Parsed, nothing, babble, command, parse}

-- What the loop keeps: the world with the player's room, the view, and what the input keeps.
pub record Game : Type 0 where
  pub world : World
  pub view : View
  pub keyboard : Keyboard
  pub pushedbutton : ℕ
  pub enter_room : Bool

-- `object[0]` and `object[1]` are the board and the jetpack.
unfoldable pub player_has_board : World → Bool
player_has_board w = is_at 0 r_inventory w

unfoldable pub player_has_jetpack : World → Bool
player_has_jetpack w = is_at 1 r_inventory w

-- The speeds after a command.
unfoldable pub set_speeds : Verb → World → View → View
set_speeds tc_drop w v = record v {
  x_speed = if player_has_board w then v.x_speed else motion_speed;
  y_speed = if player_has_jetpack w then v.y_speed else motion_speed;
}
set_speeds tc_get w v = record v {
  x_speed = if player_has_board w then motion_speed * 3 else v.x_speed;
  y_speed = if player_has_jetpack w then motion_speed * 3 else v.y_speed;
}
set_speeds _ w v = v

-- The typed command is thrown away unless the player may go on with it, or the room changes.
unfoldable pub keep_typing : Action → Text → Text
keep_typing allow_edit typing = typing
keep_typing change_room typing = typing
keep_typing discard_text typing = []
keep_typing redraw_room typing = []

abbrev pub changes_room : Action → Bool
changes_room change_room = true
changes_room _ = false

unfoldable pub handle_typing : ℕ → Game → Option (Bool × Game)
handle_typing r g = elim (parse g.keyboard.typing) [
  | nothing ↦ some (false, g)
  | babble ↦ elim (show_status "What are you babbling about?" g.world) [
    | none ↦ none
    | some (_, w) ↦ some (false, record g { world = w })
  ]
  | command verb arg ↦ elim (request_in (typed verb arg) r g.world) [
    | none ↦ none
    | some (a, w) ↦ some (
      changes_room a,
      record g {
        world = w;
        view = set_speeds verb w g.view;
        keyboard = record g.keyboard { typing = keep_typing a g.keyboard.typing };
      },
    )
  ]
]

-- `enter_room = (TC_CHANGE_ROOM == …);`
unfoldable pub walk : Request → ℕ → Game → Option Game
walk q r g = elim (request_in q r g.world) [
  | none ↦ none
  | some (a, w) ↦ some (record g { world = w; enter_room = changes_room a })
]

-- A typed command sets `enter_room`, and does not clear it.
unfoldable pub obey_typing : ℕ → Game → Option Game
obey_typing r g = elim (handle_typing r g) [
  | none ↦ none
  | some (b, g') ↦ some (record g' { enter_room = if b then true else g'.enter_room })
]

-- The photo's motions, where the room has one.
unfoldable pub scroll : (ℕ → ℕ → View → View) → ℕ → Game → Option Game
scroll f r g = elim (g.world.room r).view [
  | none ↦ none
  | some p ↦ some (record g { view = f (photo_width p) (photo_height p) g.view })
]

-- The switch over the commands.
unfoldable pub obey : Cmd → ℕ → Game → Option Game
obey cmd_up r g = some (record g { view = (move_photo_down g.view).0 })
obey cmd_right r g = scroll (λ w h v. (move_photo_left w v).0) r g
obey cmd_down r g = scroll (λ w h v. (move_photo_up h v).0) r g
obey cmd_left r g = some (record g { view = (move_photo_right g.view).0 })
obey cmd_move_left r g = walk move_left r g
obey cmd_enter r g = walk enter r g
obey cmd_move_right r g = walk move_right r g
obey cmd_typed r g = obey_typing r g
obey cmd_quit r g = some g
obey cmd_none r g = some g

-- A room just entered is seen from its corner, and the typing is thrown away.
unfoldable pub show_room : Game → Game
show_room g =
    let entered = record g {
      view = record g.view { map_x = 0; map_y = 0 };
      keyboard = record g.keyboard { typing = [] };
      enter_room = false;
    } in
    if g.enter_room then entered else g

-- `game_condition_t`, and a game that goes on.
pub data Condition : Type 0 where
  playing game_won game_quit : Condition

abbrev pub quits : Cmd → Bool
quits cmd_quit = true
quits _ = false

-- `if (NULL == game_info.where) { return GAME_WON; }`
abbrev pub unless_won : Option ℕ → Condition
unless_won none = game_won
unless_won (some r) = playing

-- What the loop tests after a command.
unfoldable pub condition : Cmd → World → Condition
condition cmd w = if quits cmd then game_quit else unless_won w.location

-- One turn of the loop, with the characters that can be read and what the buttons' ioctl wrote.
unfoldable pub turn : List ℕ → ℕ → Game → Option (Condition × Game)
turn chars arg g =
    let shown = show_room g in
    let (cmd, keys, button) = get_command chars arg shown.pushedbutton shown.keyboard in
    elim shown.world.location [
      | none ↦ none
      | some r ↦ elim (obey cmd r (record shown { keyboard = keys; pushedbutton = button })) [
        | none ↦ none
        | some g' ↦ some (condition cmd g'.world, g')
      ]
    ]

-- The loop over the turns' input, until the game is over.
unfoldable pub game_loop : List (List ℕ × ℕ) → Game → Option (Condition × Game)
game_loop [] g = some (playing, g)
game_loop ((chars, arg) ∷ inputs) g = elim (turn chars arg g) [
  | none ↦ none
  | some (playing, g') ↦ game_loop inputs g'
  | some (game_won, g') ↦ some (game_won, g')
  | some (game_quit, g') ↦ some (game_quit, g')
]
