-- ===== src/Adventure/Main/Runs.antt =====
-- The whole game of mp2/adventure.c runs.
use computer_systems_enginee.Base.{
  ℕ, ◌≡◌, refl, ap, ◌∙◌, arith, ◌==◌, ◌&&◌, Bool, if◌then◌else◌, Bool-cases, inl, inr, true, Option,
  some, List, IsSome,
}
use Prim.Native.String.{String}
use computer_systems_enginee.Photo.Types.{Photo, Image}
use computer_systems_enginee.World.State.{World}
use computer_systems_enginee.World.Validity.{IsValid}
use computer_systems_enginee.World.Build.{build_world}
use computer_systems_enginee.World.Build.Start.{started, build_world_lem}
use computer_systems_enginee.Modex.{Display}
use computer_systems_enginee.Modex.Window.{LineFn}
use computer_systems_enginee.Modex.Setup.{set_mode_x}
use computer_systems_enginee.Input.Terminal.{Terminal, init_input}
use computer_systems_enginee.Adventure.Sanity.{sanity_check_passes}
use computer_systems_enginee.Adventure.Loop.{Game, Condition, playing}
use computer_systems_enginee.Adventure.Loop.Total.{IsGame, game_loop-Continues}
use computer_systems_enginee.Adventure.Main.{init_game, Outcome, panic, played, Answers, main}

-- Whether the three system calls on the terminal succeed.
abbrev pub is_ready : Terminal → Bool
is_ready t = t.fcntl == 0 && (t.tcgetattr == 0 && t.tcsetattr == 0)

init_input_lem : (t : Terminal) → init_input t ≡ is_ready t
unfolding init_input
init_input_lem t = ground arith

-- What the program comes to where it does not panic for its world: the answers that make it panic,
-- in their order, or else the game.
abbrev pub outcome : Answers → Outcome → Outcome
outcome answers game =
    if answers.pthread_create == 0
    then if answers.opened
      then if is_ready answers.terminal then game else panic "cannot initialize input"
      else panic "cannot initialize mode X"
    else panic "failed to create status thread"

-- A game that was played, and is well formed, unless an answer makes the program panic.
pub record Plays (answers : Answers) (result : Option Outcome) : Type 0 where
  pub status : Condition
  pub game : Game
  pub runs : result ≡ some (outcome answers (played status game))
  pub good : IsGame game
  pub somewhere : status ≡ playing → IsSome game.world.location

init_game-IsGame : (w : World) → IsValid (started w) → IsGame (init_game w)
unfolding init_game
init_game-IsGame w v = record {
  valid = v;
  keys = record { typed = record { short = omega arith; plain = tt }; known = omega arith };
}

init_game-location : (w : World) → IsSome (init_game w).world.location
unfolding init_game
init_game-location w = tt

-- Where every photo and every image can be read, the program builds its world and passes its sanity
-- checks, whatever the memory and the dice. It then panics exactly where the status thread cannot
-- be created, the video memory and the ports cannot be had, or the terminal cannot be set up, with
-- the message of the first of these. Else the event loop runs over every sequence of inputs to
-- their end or to the end of the game; nothing follows NULL, the game stays well formed, and the
-- player is in a room unless the game is over.
pub main-Plays :
    (read_photo : String → Option Photo) (read_obj_image : String → Option Image)
    (photos : (f : String) → IsSome (read_photo f))
    (images : (f : String) → IsSome (read_obj_image f)) (answers : Answers) (rows columns : LineFn)
    (d : Display) (inputs : List (List ℕ × ℕ)) (w : World)
    → Plays answers (main read_photo read_obj_image answers rows columns d inputs w)
unfolding main set_mode_x
main-Plays read_photo read_obj_image photos images answers rows columns d inputs w =
    let b = build_world_lem read_photo read_obj_image photos images w in
    let built : build_world read_photo read_obj_image w ≡ some (true, b.after) =
      b.runs ∙ ap (λ ok. some (ok, b.after)) b.post.0 in
    let g =
      game_loop-Continues inputs (init_game b.after) (init_game-IsGame b.after b.post.1)
        (init_game-location b.after) in
    record {
      status = g.status;
      game = g.after;
      runs =
          rw (built, sanity_check_passes, main)
            (elim (Bool-cases (answers.pthread_create == 0)) [
              | inr f ↦ rw f refl
              | inl t ↦ rw t (elim (Bool-cases answers.opened) [
                | inr f ↦ rw (f, set_mode_x) refl
                | inl o ↦
                    rw (o, set_mode_x, init_input_lem answers.terminal)
                      (elim (Bool-cases (is_ready answers.terminal)) [
                        | inr f ↦ rw f refl
                        | inl i ↦ rw (i, g.runs) refl
                      ])
              ])
            ]);
      good = g.good;
      somewhere = g.somewhere;
    }
