-- ===== src/Examples/Player.antt =====
-- Runs of the event loop of mp2/adventure.c, and of the functions that it calls.
use computer_systems_enginee.Base.{
  Option, ℕ, ◌≤◌, ◌≡◌, ◌↔◌, refl, arith, inl, true, false, some, List, [], ◌∷◌, ◌++◌, codes,
}
use computer_systems_enginee.Input.Keyboard.{
  Keyboard, cmd_none, cmd_typed, valid_typing, read_keys, get_command,
}
use computer_systems_enginee.Input.Keyboard.Typing.{IsKeyboard, get_command-IsKeyboard, AllPlain}
use computer_systems_enginee.Input.Keyboard.Keys.{
  AllKeys, key_codes, read_keys-word, read_keys-key_codes,
}
use computer_systems_enginee.Adventure.View.{init_view}
use computer_systems_enginee.Adventure.Clock.{
  Timeval, time_is_after, advance_tick, micros, NextTick, time_is_after_iff, advance_tick_lem,
}
use computer_systems_enginee.Adventure.Loop.{Game, game_loop}
use computer_systems_enginee.Adventure.Loop.Total.{IsGame, Continues, game_loop-Continues}
use Prim.Native.String.{String}
use computer_systems_enginee.Photo.Types.{Photo, Image}
use computer_systems_enginee.World.Validity.{Ends}
use computer_systems_enginee.World.Build.{build_world}
use computer_systems_enginee.World.Build.Start.{Built, build_world_lem}
use computer_systems_enginee.Adventure.Main.{Answers, main}
use computer_systems_enginee.Adventure.Main.Runs.{Plays, main-Plays}
use computer_systems_enginee.Examples.Pictures.{stripes, fresh_display}
use computer_systems_enginee.Examples.Rooms.{lab_photo, board_image, lab_world, lab-IsValid}

abbrev keyboard : Keyboard
keyboard = record { state = 0; typing = codes "g"; pushed = cmd_none }

keyboard-IsKeyboard : IsKeyboard keyboard
unfolding valid_typing
keyboard-IsKeyboard = record {
  typed = record { short = omega arith; plain = (refl, tt) };
  known = omega arith;
}

-- "et board", the end of the line, and a key that sends three bytes.
abbrev keys : List ℕ
keys = codes "et board" ++ (13 ∷ 27 ∷ 91 ∷ 65 ∷ [])

get_command_example : IsKeyboard (get_command keys 255 255 keyboard).1
get_command_example = get_command-IsKeyboard keys 255 255 keyboard keyboard-IsKeyboard

word-AllPlain : AllPlain (codes "et 4")
unfolding valid_typing
word-AllPlain = (refl, (refl, (refl, (refl, tt))))

read_keys-word_example :
    read_keys (codes "et 4" ++ (10 ∷ [])) keyboard
    ≡ (false, record { state = 0; typing = codes "get 4"; pushed = cmd_typed })
read_keys-word_example =
    read_keys-word (codes "et 4") 10 keyboard word-AllPlain (inl refl) refl (omega arith)

read_keys-key_codes_example :
    AllKeys
      (λ e. read_keys e.0 keyboard ≡ (false, record keyboard { state = 0; pushed = e.1 }))
      key_codes
read_keys-key_codes_example = read_keys-key_codes keyboard refl

abbrev late : Timeval
late = record { tv_sec = 11; tv_usec = 30000 }

abbrev tick : Timeval
tick = record { tv_sec = 10; tv_usec = 950000 }

time_is_after_example : (time_is_after late tick ≡ true) ↔ (micros tick ≤ micros late)
time_is_after_example = time_is_after_iff late tick (omega arith) (omega arith)

advance_tick_example : NextTick late tick (advance_tick 3 late tick)
advance_tick_example =
    advance_tick_lem 3 late tick (omega arith) (omega arith) (omega arith) (omega arith)

abbrev game : Game
game = record {
  world = lab_world;
  view = init_view;
  keyboard = keyboard;
  pushedbutton = 255;
  enter_room = true;
}

game-IsGame : IsGame game
game-IsGame = record { valid = lab-IsValid; keys = keyboard-IsKeyboard }

abbrev inputs : List (List ℕ × ℕ)
inputs = (codes "get board" ++ (13 ∷ []), 255) ∷ ([], 251) ∷ ([], 239) ∷ (codes "`", 255) ∷ []

game_loop_example : Continues (game_loop inputs game)
game_loop_example = game_loop-Continues inputs game game-IsGame tt

abbrev read_photo : String → Option Photo
read_photo f = some lab_photo

abbrev read_obj_image : String → Option Image
read_obj_image f = some board_image

build_world_example : Ends Built (build_world read_photo read_obj_image lab_world)
build_world_example = build_world_lem read_photo read_obj_image (λ f. tt) (λ f. tt) lab_world

abbrev answers : Answers
answers = record {
  pthread_create = 0;
  opened = true;
  terminal = record { fcntl = 0; tcgetattr = 0; tcsetattr = 0 };
}

main-Plays_example :
    Plays answers
      (main read_photo read_obj_image answers stripes stripes fresh_display inputs lab_world)
main-Plays_example =
    main-Plays read_photo read_obj_image (λ f. tt) (λ f. tt) answers stripes stripes fresh_display
      inputs lab_world
