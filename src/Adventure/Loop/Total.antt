-- ===== src/Adventure/Loop/Total.antt =====
-- The event loop of mp2/adventure.c never follows NULL, and keeps the world and the input well formed.
use computer_systems_enginee.Base.{
  ℕ, ◌≡◌, refl, ap, ◌∙◌, Bool, true, false, Option, none, some, List, [], ◌∷◌, IsSome, IsSome-value,
  if◌then◌else◌, arith,
}
use computer_systems_enginee.World.State.{
  World, Action, allow_edit, discard_text, redraw_room, change_room,
}
use computer_systems_enginee.World.Validity.{IsValid}
use computer_systems_enginee.World.Game.{Request, typed, move_left, move_right, enter, request-Ends}
use computer_systems_enginee.World.Commands.Rules.{show-Keeps}
use computer_systems_enginee.World.Commands.Standing.{IsIn}
use computer_systems_enginee.World.Commands.Standing.Motions.{IsIn-lt}
use computer_systems_enginee.Input.Keyboard.{
  Cmd, cmd_none, cmd_right, cmd_left, cmd_up, cmd_down, cmd_move_left, cmd_enter, cmd_move_right,
  cmd_typed, cmd_quit, Keyboard, get_command,
}
use computer_systems_enginee.Input.Keyboard.Typing.{IsKeyboard, get_command-IsKeyboard}
use computer_systems_enginee.Photo.Types.{photo_width, photo_height}
use computer_systems_enginee.Adventure.View.{View}
use computer_systems_enginee.Adventure.Parser.{Parsed, nothing, babble, command, parse}
use computer_systems_enginee.Adventure.Loop.{
  Game, set_speeds, keep_typing, changes_room, handle_typing, walk, obey_typing, scroll, obey,
  show_room, Condition, playing, game_won, game_quit, condition, quits, unless_won, turn, game_loop,
}

pub record IsGame (g : Game) : Type 0 where
  pub valid : IsValid g.world
  pub keys : IsKeyboard g.keyboard

-- A result that is there, with a game that is well formed.
pub record Goes (result : Option Game) : Type 0 where
  pub after : Game
  pub runs : result ≡ some after
  pub good : IsGame after

keep-IsKeyboard :
    (a : Action) (k : Keyboard)
    → IsKeyboard k
    → IsKeyboard (record k { typing = keep_typing a k.typing })
unfolding keep_typing
keep-IsKeyboard allow_edit k h = record { typed = h.typed; known = h.known }
keep-IsKeyboard change_room k h = record { typed = h.typed; known = h.known }
keep-IsKeyboard discard_text k h = record {
  typed = record { short = omega arith; plain = tt };
  known = h.known;
}
keep-IsKeyboard redraw_room k h = record {
  typed = record { short = omega arith; plain = tt };
  known = h.known;
}

walk-Goes : (q : Request) (r : ℕ) (g : Game) → IsGame g → IsIn r g.world → Goes (walk q r g)
unfolding walk
walk-Goes q r g h here =
    let e = request-Ends q r g.world here in
    record {
      after = record g { world = e.after; enter_room = changes_room e.value };
      runs = rw (e.runs, walk) refl;
      good = record { valid = e.post; keys = h.keys };
    }

obey_typing-Goes : (r : ℕ) (g : Game) → IsGame g → IsIn r g.world → Goes (obey_typing r g)
unfolding obey_typing handle_typing
obey_typing-Goes r g h here = at (parse g.keyboard.typing) refl
  where
    at : (p : Parsed) → parse g.keyboard.typing ≡ p → Goes (obey_typing r g)
    at nothing e = record { after = g; runs = rw (e, handle_typing, obey_typing) refl; good = h }
    at babble e =
        let m = (show-Keeps "What are you babbling about?").apply g.world h.valid in
        record {
          after = record g { world = m.after };
          runs = rw (e, m.runs, handle_typing, obey_typing) refl;
          good = record { valid = m.post; keys = h.keys };
        }
    at (command verb arg) e =
        let m = request-Ends (typed verb arg) r g.world here in
        record {
          after = record g {
            world = m.after;
            view = set_speeds verb m.after g.view;
            keyboard = record g.keyboard { typing = keep_typing m.value g.keyboard.typing };
            enter_room = if changes_room m.value then true else g.enter_room;
          };
          runs = rw (e, m.runs, handle_typing, obey_typing) refl;
          good = record { valid = m.post; keys = keep-IsKeyboard m.value g.keyboard h.keys };
        }

scroll-Goes :
    (f : ℕ → ℕ → View → View) (r : ℕ) (g : Game) → IsGame g → IsIn r g.world → Goes (scroll f r g)
unfolding scroll
scroll-Goes f r g h here =
    let (p, e) = IsSome-value (h.valid.ready.viewed r (IsIn-lt r g.world here)) in
    record {
      after = record g { view = f (photo_width p) (photo_height p) g.view };
      runs = rw (e, scroll) refl;
      good = record { valid = h.valid; keys = h.keys };
    }

obey-Goes : (cmd : Cmd) (r : ℕ) (g : Game) → IsGame g → IsIn r g.world → Goes (obey cmd r g)
unfolding obey
obey-Goes cmd_up r g h here = record {
  after = _;
  runs = refl;
  good = record { valid = h.valid; keys = h.keys };
}
obey-Goes cmd_right r g h here = scroll-Goes _ r g h here
obey-Goes cmd_down r g h here = scroll-Goes _ r g h here
obey-Goes cmd_left r g h here = record {
  after = _;
  runs = refl;
  good = record { valid = h.valid; keys = h.keys };
}
obey-Goes cmd_move_left r g h here = walk-Goes move_left r g h here
obey-Goes cmd_enter r g h here = walk-Goes enter r g h here
obey-Goes cmd_move_right r g h here = walk-Goes move_right r g h here
obey-Goes cmd_typed r g h here = obey_typing-Goes r g h here
obey-Goes cmd_quit r g h here = record { after = g; runs = refl; good = h }
obey-Goes cmd_none r g h here = record { after = g; runs = refl; good = h }

IsGame-if : (b : Bool) (x y : Game) → IsGame x → IsGame y → IsGame (if b then x else y)
IsGame-if true x y h k = h
IsGame-if false x y h k = k

show_room-IsGame : (g : Game) → IsGame g → IsGame (show_room g)
unfolding show_room
show_room-IsGame g h =
    IsGame-if g.enter_room _ g
      (record {
        valid = h.valid;
        keys = record { typed = record { short = omega arith; plain = tt }; known = h.keys.known };
      })
      h

show_room-world : (g : Game) → (show_room g).world ≡ g.world
unfolding show_room
show_room-world g = ground arith

-- The player is in a room while the game goes on.
condition-playing : (cmd : Cmd) (w : World) → condition cmd w ≡ playing → IsSome w.location
unfolding condition
condition-playing cmd w e = at (quits cmd) w.location e
  where
    at : (b : Bool) (p : Option ℕ) → (if b then game_quit else unless_won p) ≡ playing → IsSome p
    at true p e = absurd (cc e)
    at false none e = absurd (cc e)
    at false (some r) e = tt

-- What a turn, or a game, gives: a game that is well formed, in a room if it goes on.
pub record Continues (result : Option (Condition × Game)) : Type 0 where
  pub status : Condition
  pub after : Game
  pub runs : result ≡ some (status, after)
  pub good : IsGame after
  pub somewhere : status ≡ playing → IsSome after.world.location

pub turn-Continues :
    (chars : List ℕ) (arg : ℕ) (g : Game)
    → IsGame g
    → IsSome g.world.location
    → Continues (turn chars arg g)
unfolding turn
turn-Continues chars arg g h here =
    let (r, e) = IsSome-value here in
    let shown = show_room g in
    let v = show_room-IsGame g h in
    let input = get_command chars arg shown.pushedbutton shown.keyboard in
    let at = ap (λ w. w.location) (show_room-world g) ∙ e in
    let ready = record shown { keyboard = input.1; pushedbutton = input.2 } in
    let o =
      obey-Goes input.0 r ready
        (record {
          valid = v.valid;
          keys = get_command-IsKeyboard chars arg shown.pushedbutton shown.keyboard v.keys;
        })
        (record { valid = v.valid; location = at }) in
    record {
      status = condition input.0 o.after.world;
      after = o.after;
      runs = rw (at, o.runs, turn) refl;
      good = o.good;
      somewhere = condition-playing input.0 o.after.world;
    }

-- From a well-formed game with the player in a room, the event loop, over every sequence of inputs,
-- goes on to their end or to the end of the game without following NULL; the world and the input
-- stay well formed, and the player is in a room unless the game is over.
pub game_loop-Continues :
    (inputs : List (List ℕ × ℕ)) (g : Game)
    → IsGame g
    → IsSome g.world.location
    → Continues (game_loop inputs g)
unfolding game_loop
game_loop-Continues [] g h here = record {
  status = playing;
  after = g;
  runs = refl;
  good = h;
  somewhere = λ _. here;
}
game_loop-Continues ((chars, arg) ∷ inputs) g h here =
    let t = turn-Continues chars arg g h here in
    at (turn chars arg g) t.status t.after t.runs t.good t.somewhere
      (λ g' h' here'. game_loop-Continues inputs g' h' here')
  where
    at :
        (result : Option (Condition × Game)) (c : Condition) (g' : Game)
        → result ≡ some (c, g')
        → IsGame g'
        → (c ≡ playing → IsSome g'.world.location)
        → ((g' : Game) → IsGame g' → IsSome g'.world.location → Continues (game_loop inputs g'))
        → Continues (elim result as (λ _. Option (Condition × Game)) [
          | none ↦ none
          | some (playing, g') ↦ game_loop inputs g'
          | some (game_won, g') ↦ some (game_won, g')
          | some (game_quit, g') ↦ some (game_quit, g')
        ])
    at result playing g' e h' l k = rw e (k g' h' (l refl))
    at result game_won g' e h' l k = rw e (record {
      status = game_won;
      after = g';
      runs = refl;
      good = h';
      somewhere = λ f. absurd (cc f);
    })
    at result game_quit g' e h' l k = rw e (record {
      status = game_quit;
      after = g';
      runs = refl;
      good = h';
      somewhere = λ f. absurd (cc f);
    })
