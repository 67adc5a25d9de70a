-- ===== src/World/Motion.antt =====
-- The motion commands of mp2/world.c. `r` is the player's room, `*rptr`.
use computer_systems_enginee.Base.{ℕ, ◌%◌, none, some, List, [], ◌∷◌, get_or, ◌==◌, if◌then◌else◌}
use Prim.Native.String.{String}
use computer_systems_enginee.World.Ids.{
  r_inventory, r_circle_n, r_by_cleanr, r_in_cleanr, r_by_395lab, r_in_395lab, r_csl_door,
  r_csl_lobby, r_beck_door, r_becklobby, r_mntl_lab1, r_cockpit, o_icard, o_robot_live,
  o_robot_dead, flag_wearing_suit, swap_circle,
}
use computer_systems_enginee.World.State.{
  World, M, Action, allow_edit, change_room, pure, ◌>>=◌, ◌>>◌, get, show_status, say, move_to,
  rand, is_at,
}
use computer_systems_enginee.World.Objects.{do_photo_swap, player_flag_is_set}

-- When entering the Boneyard Circle, the picture is chosen at random.
unfoldable pub choose_picture : ℕ → M (Unit {0})
choose_picture d =
    if d == r_circle_n
    then (do n ← rand; if n % 2 == 0 then do_photo_swap d swap_circle else pure tt)
    else pure tt

unfoldable pub walk_into : ℕ → M Action
walk_into d = do move_to (some d); choose_picture d; pure change_room

-- `*rptr = &room[d]; return TC_CHANGE_ROOM;`
unfoldable pub pass_to : ℕ → M Action
pass_to d = do move_to (some d); pure change_room

abbrev pub sideways_fails : ℕ → M Action
sideways_fails r =
    if r == r_inventory
    then say "Push 'home' or type 'inventory'." allow_edit
    else say "You can't go that way." allow_edit

unfoldable pub try_to_move_left : ℕ → M Action
try_to_move_left r = do
  w ← get
  elim (w.room r).left [ some d ↦ walk_into d | none ↦ sideways_fails r ]

unfoldable pub try_to_move_right : ℕ → M Action
try_to_move_right r = do
  w ← get
  elim (w.room r).right [ some d ↦ walk_into d | none ↦ sideways_fails r ]

-- A door that a valid Icard opens.
unfoldable pub swipe : ℕ → World → M Action
swipe d w =
    if is_at o_icard r_inventory w
    then (do show_status "You swiped your Icard."; pass_to d)
    else say "You need a valid Icard." allow_edit

unfoldable pub pick_lock : World → M Action
pick_lock w =
    if is_at o_robot_live r_inventory w
    then (do show_status "The robot hand picked the lock!"; pass_to r_becklobby)
    else if is_at o_robot_dead r_inventory w
    then say "Flash the robot's code again." allow_edit
    else say "Complex lock!  Find a nanotech robot." allow_edit

-- Kevin's.
abbrev advice : List String
advice =
    "Kevin says, \"Andres' board is FAST!\"" ∷ "Kevin asks, \"Got a jetpack?\""
    ∷ "Kevin: \"You can flash hardware in 395.\"" ∷ "Kevin suggests, \"Always carry a fish.\""
    ∷ "Kevin asks, \"Have you done your MP2?\"" ∷ "Kevin says, \"Cocomero sells yogurt.\""
    ∷ "Kevin asks, \"Maybe you need a Dew?\"" ∷ "Kevin: \"A magnet can charge a battery.\"" ∷ []

unfoldable pub ask_kevin : M Action
ask_kevin = do n ← rand; say (get_or advice (n % 8) "") allow_edit

-- The special conditions of `try_to_enter`, where no room is connected.
unfoldable pub enter_specially : ℕ → World → M Action
unfolding swipe pick_lock ask_kevin
enter_specially r w =
    if r == r_by_cleanr
    then if player_flag_is_set flag_wearing_suit w
      then pass_to r_in_cleanr
      else say "You're not wearing a bunnysuit!" allow_edit
    else if r == r_by_395lab
    then swipe r_in_395lab w
    else if r == r_csl_door
    then swipe r_csl_lobby w
    else if r == r_beck_door
    then pick_lock w
    else if r == r_mntl_lab1
    then ask_kevin
    else if r == r_cockpit
    then say "A MIMO transmitter card is missing!" allow_edit
    else say "You can't go that way." allow_edit

unfoldable pub try_to_enter : ℕ → M Action
unfolding enter_specially
try_to_enter r = do
  w ← get
  elim (w.room r).enter [ some d ↦ walk_into d | none ↦ enter_specially r w ]
