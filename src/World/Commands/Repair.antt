-- ===== src/World/Commands/Repair.antt =====
-- The typed commands of mp2/world.c to fix the GPS, to flash the robot, and to install parts.
use computer_systems_enginee.Base.{
  ℕ, not, ◌&&◌, ◌||◌, some, Text, codes, same_word, ◌==◌, if◌then◌else◌,
}
use computer_systems_enginee.World.Ids.{
  r_in_cleanr, r_in_395lab, r_car_site, r_cockpit, r_over_will, o_gps_good, o_gps_bad, o_gps_spec,
  o_robot_dead, o_robot_live, o_batt_empty, o_batt_full, o_mimo_card, flag_car_fixed, swap_car,
}
use computer_systems_enginee.World.State.{
  World, M, Action, allow_edit, discard_text, redraw_room, change_room, ◌>>=◌, ◌>>◌, get, modify,
  put_room, say,
}
use computer_systems_enginee.World.Objects.{
  do_photo_swap, remove_object, move_object_to_inventory, player_set_flag,
}
use computer_systems_enginee.World.Commands.Shop.{at_hand}

unfoldable pub typed_cmd_fix : ℕ → Text → M Action
typed_cmd_fix r arg = do
  w ← get
  if not (same_word (codes "gps") arg)
      then say "In the game, you're not as capable." allow_edit
      else if at_hand o_gps_good r w
      then say "It's working fine." discard_text
      else if not (at_hand o_gps_bad r w)
      then say "Do you have a GPS?" discard_text
      else if not (r == r_in_cleanr)
      then say "You'd better go to the cleanroom." discard_text
      else if not (at_hand o_gps_spec r w)
      then say "Maybe you'd better get a spec?" discard_text
      else do
        remove_object o_gps_bad
        remove_object o_gps_spec
        move_object_to_inventory o_gps_good
        say "All done--wow, you're good!" change_room

unfoldable pub typed_cmd_flash : ℕ → Text → M Action
typed_cmd_flash r arg = do
  w ← get
  if not (same_word (codes "robot") arg)
      then say "Don't waste your time." allow_edit
      else if not (at_hand o_robot_dead r w) && not (at_hand o_robot_live r w)
      then say "Maybe get the robot first?" discard_text
      else if not (r == r_in_395lab)
      then say "With spit and a lemon?  Try the lab." discard_text
      else if at_hand o_robot_live r w
      then say "You flash the robot's ROM again." discard_text
      else do
        remove_object o_robot_dead
        move_object_to_inventory o_robot_live
        say "You flash it with a lockpicking code." redraw_room

unfoldable pub install_battery : ℕ → World → M Action
install_battery r w =
    if not (at_hand o_batt_empty r w) && not (at_hand o_batt_full r w)
    then say "What battery?" discard_text
    else if not (r == r_car_site)
    then say "Do you see the car?" discard_text
    else if at_hand o_batt_empty r w
    then say "You want to install a dead battery?" discard_text
    else do
      remove_object o_batt_full
      player_set_flag flag_car_fixed
      do_photo_swap r swap_car
      say "Nice work!  Now you can use it!" change_room

-- `room[R_COCKPIT].enter = &room[R_OVER_WILL];`
unfoldable pub open_sky : M (Unit {0})
open_sky =
    modify (λ w. put_room r_cockpit (record (w.room r_cockpit) { enter = some r_over_will }) w)

unfoldable pub install_card : ℕ → World → M Action
install_card r w =
    if not (at_hand o_mimo_card r w)
    then say "Do you have one of those?" discard_text
    else if not (r == r_cockpit)
    then say "Nothing here needs that." discard_text
    else do remove_object o_mimo_card; open_sky; say "Ready for takeoff, captain!" redraw_room

unfoldable pub typed_cmd_install : ℕ → Text → M Action
unfolding install_battery install_card
typed_cmd_install r arg = do
  w ← get
  if same_word (codes "battery") arg
      then install_battery r w
      else if same_word (codes "mimo") arg
          || same_word (codes "card") arg
          || same_word (codes "transmitter") arg
      then install_card r w
      else say "What are you playing at?" allow_edit
