-- ===== src/World/Commands/Travel.antt =====
-- The typed commands of mp2/world.c to go somewhere, to use the car or the fish, and to wear the suit.
use computer_systems_enginee.Base.{ℕ, not, ◌&&◌, ◌||◌, Text, codes, same_word, ◌==◌, if◌then◌else◌}
use computer_systems_enginee.World.Ids.{
  r_inventory, r_allerton, r_willard, r_car_site, r_rem_lab, o_gps_good, o_gps_bad, o_car_key,
  o_batt_car, o_fish, o_tux, o_bunnysuit, flag_car_fixed, flag_car_open, flag_lured_tux,
  flag_wearing_suit, swap_car,
}
use computer_systems_enginee.World.State.{
  World, M, Action, allow_edit, discard_text, redraw_room, change_room, ◌>>=◌, ◌>>◌, get,
  show_status, say, is_at,
}
use computer_systems_enginee.World.Objects.{
  do_photo_swap, remove_object, insert_object_at, move_object_to_inventory, player_flag_is_set,
  player_set_flag,
}
use computer_systems_enginee.World.Motion.{pass_to}
use computer_systems_enginee.World.Commands.Shop.{at_hand}

abbrev car_is_broken : World → M Action
car_is_broken w =
    if player_flag_is_set flag_car_open w
    then say "The car isn't working." discard_text
    else say "Do you want to use that car?" discard_text

unfoldable pub go_allerton : ℕ → World → M Action
go_allerton r w =
    if r == r_allerton
    then say "Kazam!  You're at Allerton!" discard_text
    else if not (r == r_willard) && not (r == r_car_site)
    then say "That's quite a hike." discard_text
    else if not (player_flag_is_set flag_car_fixed w)
    then car_is_broken w
    else if not (is_at o_gps_good r_inventory w)
    then if is_at o_gps_bad r_inventory w
      then say "That's a long road with a broken GPS." discard_text
      else say "You'll need a GPS to find that place." discard_text
    else do show_status "You drive to Allerton Park."; pass_to r_allerton

unfoldable pub go_willard : ℕ → World → M Action
go_willard r w =
    if r == r_willard
    then say "Kazap!  You're at Willard!" discard_text
    else if not (r == r_allerton) && not (r == r_car_site)
    then say "That's quite a hike." discard_text
    else if not (player_flag_is_set flag_car_fixed w)
    then car_is_broken w
    else do show_status "You drive to Willard Airport."; pass_to r_willard

unfoldable pub go_campus : ℕ → M Action
go_campus r =
    if r == r_car_site
    then say "Kazar!  You're on campus!" discard_text
    else if not (r == r_allerton) && not (r == r_willard)
    then say "That's quite a hike." discard_text
    else do show_status "You drive back to campus."; pass_to r_car_site

unfoldable pub typed_cmd_go : ℕ → Text → M Action
unfolding go_allerton go_willard go_campus
typed_cmd_go r arg = do
  w ← get
  if same_word (codes "allerton") arg
      then go_allerton r w
      else if same_word (codes "willard") arg || same_word (codes "airport") arg
      then go_willard r w
      else if same_word (codes "campus") arg
      then go_campus r
      else say "The game map lacks certain places." allow_edit

unfoldable pub use_car : ℕ → World → M Action
use_car r w =
    if r == r_allerton
    then say "Go to campus or Willard Airport?" discard_text
    else if r == r_willard
    then say "Go to Allerton or campus?" discard_text
    else if not (r == r_car_site)
    then say "You have a car?" discard_text
    else if player_flag_is_set flag_car_fixed w
    then say "Go to Allerton or Willard Airport?" discard_text
    else if player_flag_is_set flag_car_open w
    then say "You'll have to charge the battery." discard_text
    else if not (is_at o_car_key r_inventory w)
    then say "Perhaps you can find a key?" discard_text
    else do
      do_photo_swap r swap_car
      remove_object o_car_key
      insert_object_at o_batt_car r 265 122
      player_set_flag flag_car_open
      say "The key works, but the battery's dead." change_room

unfoldable pub use_fish : ℕ → World → M Action
use_fish r w =
    if not (at_hand o_fish r w)
    then say "Using the invisible fish...no effect!" discard_text
    else if not (r == r_rem_lab)
    then say "I don't think that's sanitary." discard_text
    else do
      remove_object o_fish
      move_object_to_inventory o_tux
      player_set_flag flag_lured_tux
      say "Tux likes you!" redraw_room

unfoldable pub typed_cmd_use : ℕ → Text → M Action
unfolding use_car use_fish
typed_cmd_use r arg = do
  w ← get
  if same_word (codes "car") arg
      then use_car r w
      else if same_word (codes "fish") arg
      then use_fish r w
      else say "You want to use what!?" allow_edit

unfoldable pub typed_cmd_wear : ℕ → Text → M Action
typed_cmd_wear r arg = do
  w ← get
  if not (same_word (codes "bunnysuit") arg)
      then say "Big Brother forbids fashion statements." allow_edit
      else if not (at_hand o_bunnysuit r w)
      then say "Do you have a bunnysuit?" discard_text
      else do
        remove_object o_bunnysuit
        player_set_flag flag_wearing_suit
        say "You look good in pink!" redraw_room
