-- ===== src/World/Commands/Standing/Motions.antt =====
-- The motion commands of mp2/world.c end, from every well-formed world in which the player is in the
-- room given, and keep the world well formed.
use computer_systems_enginee.Base.{ℕ, ◌<◌, ◌≡◌, subst, Option, none, some}
use computer_systems_enginee.World.Ids.{n_rooms}
use computer_systems_enginee.World.State.{World, M, Action}
use computer_systems_enginee.World.Validity.{IsValid, Ends, InRooms, Leads}
use computer_systems_enginee.World.Motion.{
  walk_into, choose_picture, try_to_move_left, try_to_move_right, try_to_enter, enter_specially,
  sideways_fails,
}
use computer_systems_enginee.World.Commands.Rules.{Keeps, Valid, steps, move-Keeps}
use computer_systems_enginee.World.Commands.Total.{pass_named}

choose_picture-Keeps : (d : ℕ) → d < n_rooms → Keeps (choose_picture d)
unfolding choose_picture
choose_picture-Keeps d h = search (steps, h) depth 12

walk-Keeps : (d : ℕ) → Leads (some d) → Keeps (walk_into d)
unfolding walk_into
walk-Keeps d h = search (steps, move-Keeps d h.0 h.1, choose_picture-Keeps d h.0) depth 10

specially-Keeps : (r : ℕ) (w : World) → Keeps (enter_specially r w)
unfolding enter_specially
specially-Keeps r w = search (steps, pass_named) depth 20

-- A motion along one of the three ways.
way-Keeps :
    (p : Option ℕ) (m : M Action)
    → Leads p
    → Keeps m
    → Keeps (elim p as (λ _. M Action) [ some d ↦ walk_into d | none ↦ m ])
way-Keeps none m h k = k
way-Keeps (some d) m h k = walk-Keeps d h

sideways-Keeps : (r : ℕ) → Keeps (sideways_fails r)
sideways-Keeps r = search steps depth 6

-- What a command is given: a well-formed world, and the room that the player is in.
pub record IsIn (r : ℕ) (w : World) : Type 0 where
  pub valid : IsValid w
  pub location : w.location ≡ some r

pub IsIn-lt : (r : ℕ) (w : World) → IsIn r w → r < n_rooms
IsIn-lt r w v = subst InRooms v.location v.valid.ready.here

pub try_to_move_left-Ends : (r : ℕ) (w : World) → IsIn r w → Ends Valid (try_to_move_left r w)
unfolding try_to_move_left
try_to_move_left-Ends r w v =
    (way-Keeps (w.room r).left (sideways_fails r) (v.valid.ready.lefts r (IsIn-lt r w v))
        (sideways-Keeps r)).apply
      w v.valid

pub try_to_move_right-Ends : (r : ℕ) (w : World) → IsIn r w → Ends Valid (try_to_move_right r w)
unfolding try_to_move_right
try_to_move_right-Ends r w v =
    (way-Keeps (w.room r).right (sideways_fails r) (v.valid.ready.rights r (IsIn-lt r w v))
        (sideways-Keeps r)).apply
      w v.valid

pub try_to_enter-Ends : (r : ℕ) (w : World) → IsIn r w → Ends Valid (try_to_enter r w)
unfolding try_to_enter
try_to_enter-Ends r w v =
    (way-Keeps (w.room r).enter (enter_specially r w) (v.valid.ready.enters r (IsIn-lt r w v))
        (specially-Keeps r w)).apply
      w v.valid
