-- ===== src/Adventure/Main.antt =====
-- `main` of mp2/adventure.c: the world is built, the game starts, and the event loop runs.
pub mod Runs
use computer_systems_enginee.Base.{
  ℕ, ◌==◌, if◌then◌else◌, Bool, true, false, Option, none, some, List, [],
}
use Prim.Native.String.{String}
use computer_systems_enginee.Photo.Types.{Photo, Image}
use computer_systems_enginee.World.State.{World}
use computer_systems_enginee.World.Build.{build_world, start_in_room}
use computer_systems_enginee.Input.Keyboard.{Keyboard, cmd_none}
use computer_systems_enginee.Input.Terminal.{Terminal, init_input}
use computer_systems_enginee.Modex.{Display}
use computer_systems_enginee.Modex.Window.{LineFn}
use computer_systems_enginee.Modex.Setup.{set_mode_x}
use computer_systems_enginee.Adventure.Parser.{cmd_list}
use computer_systems_enginee.Adventure.Sanity.{sanity_check}
use computer_systems_enginee.Adventure.View.{init_view}
use computer_systems_enginee.Adventure.Loop.{Game, Condition, game_loop}

-- The keyboard's static variables at the start.
abbrev pub quiet : Keyboard
quiet = record { state = 0; typing = []; pushed = cmd_none }

-- `init_game`, with the other static variables, and the first `enter_room = 1` of the loop.
unfoldable pub init_game : World → Game
init_game w = record {
  world = record w { location = some start_in_room };
  view = init_view;
  keyboard = quiet;
  pushedbutton = 0;
  enter_room = true;
}

pub data Outcome : Type 0 where
  panic : String → Outcome
  played : Condition → Game → Outcome

-- What the outside answers: pthread_create, opening the video memory and the ports, and the
-- terminal.
pub record Answers : Type 0 where
  pub pthread_create : ℕ
  pub opened : Bool
  pub terminal : Terminal

-- The input of each tick is given, with the two line functions and the display before. The cleanups
-- are left out.
unfoldable pub main :
    (String → Option Photo)
    → (String → Option Image)
    → Answers
    → LineFn
    → LineFn
    → Display
    → List (List ℕ × ℕ)
    → World
    → Option Outcome
main read_photo read_obj_image answers rows columns d inputs w =
    elim (build_world read_photo read_obj_image w) [
      | none ↦ none
      | some (false, w') ↦ some (panic "can't build world")
      | some (true, w') ↦
          if sanity_check cmd_list
          then if answers.pthread_create == 0
            then elim (set_mode_x (some rows) (some columns) answers.opened d) [
              | none ↦ some (panic "cannot initialize mode X")
              | some d' ↦
                  if init_input answers.terminal
                  then elim (game_loop inputs (init_game w')) [
                    | none ↦ none
                    | some (condition, game) ↦ some (played condition game)
                  ]
                  else some (panic "cannot initialize input")
            ]
            else some (panic "failed to create status thread")
          else some (panic "failed sanity checks")
    ]
