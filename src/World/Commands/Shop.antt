-- ===== src/World/Commands/Shop.antt =====
-- The typed commands of mp2/world.c to buy, to charge, to do one's homework, to drink, and to sigh.
use computer_systems_enginee.Base.{
  ℕ, Bool, not, ◌&&◌, ◌||◌, none, Text, codes, same_word, ◌==◌, if◌then◌else◌,
}
use computer_systems_enginee.World.Ids.{
  r_inventory, r_evrt_vend, r_in_cocomr, r_beck_mri, r_in_391lab, r_by_zas, o_mtn_dew, o_batt_empty,
  o_batt_full, o_book_c, o_mp2, o_tux, flag_has_eaten,
}
use computer_systems_enginee.World.State.{
  World, M, Action, allow_edit, discard_text, redraw_room, change_room, pure, ◌>>=◌, ◌>>◌, get,
  show_status, say, move_to, is_at,
}
use computer_systems_enginee.World.Objects.{
  player_flag_is_set, player_set_flag, in_limbo, remove_object, move_object_to_inventory,
}

-- An object that the player holds, or that lies in the room.
abbrev pub at_hand : ℕ → ℕ → World → Bool
at_hand o r w = is_at o r_inventory w || is_at o r w

unfoldable pub buy_dew : ℕ → World → M Action
buy_dew r w =
    if not (r == r_evrt_vend)
    then say "Great idea!  But ... where?" discard_text
    else if at_hand o_mtn_dew r w
    then say "Slow down!  One at a time..." discard_text
    else do
      if not (in_limbo o_mtn_dew w)
          then show_status "Last one get stolen?  Ok...here we go..."
          else show_status "You buy a Dew."
      move_object_to_inventory o_mtn_dew
      pure redraw_room

unfoldable pub buy_yogurt : ℕ → World → M Action
buy_yogurt r w =
    if not (r == r_in_cocomr)
    then say "Cocomero doesn't deliver here." discard_text
    else if player_flag_is_set flag_has_eaten w
    then say "You're not hungry." discard_text
    else do player_set_flag flag_has_eaten; say "So tasty and delicious!" discard_text

unfoldable pub typed_cmd_buy : ℕ → Text → M Action
unfolding buy_dew buy_yogurt
typed_cmd_buy r arg = do
  w ← get
  if same_word (codes "dew") arg
      then buy_dew r w
      else if same_word (codes "yogurt") arg
      then buy_yogurt r w
      else say "Sorry, purchasing options are limited." allow_edit

unfoldable pub charge_battery : ℕ → World → M Action
charge_battery r w =
    if not (at_hand o_batt_empty r w) && not (at_hand o_batt_full r w)
    then say "What battery?" discard_text
    else if not (r == r_beck_mri)
    then say "Find a bigger magnet." discard_text
    else if at_hand o_batt_full r w
    then say "Don't overdo it." discard_text
    else do
      remove_object o_batt_empty
      move_object_to_inventory o_batt_full
      say "Wow!  That's a strong magnet!" redraw_room

unfoldable pub typed_cmd_charge : ℕ → Text → M Action
unfolding charge_battery
typed_cmd_charge r arg = do
  w ← get
  if not (same_word (codes "battery") arg)
      then say "Electronic devices aren't (always) toys!" allow_edit
      else charge_battery r w

unfoldable pub typed_cmd_do : ℕ → Text → M Action
typed_cmd_do r arg = do
  w ← get
  if not (r == r_in_391lab)
      then say "You can't 'do' anything here." allow_edit
      else if not (same_word (codes "391") arg) && not (same_word (codes "mp2") arg)
      then say "Doing the 391 MP2 is more important!" allow_edit
      else if not (is_at o_book_c r_inventory w)
      then say "You'd better get a book from Grainger." discard_text
      else if not (is_at o_mp2 r_inventory w)
      then say "Web's down.  Bring your own MP2." discard_text
      else if not (is_at o_tux r_in_391lab w)
      then say "You'd have better luck if Tux were here." discard_text
      else do move_to none; pure change_room

unfoldable pub typed_cmd_drink : ℕ → Text → M Action
typed_cmd_drink r arg = do
  w ← get
  if not (same_word (codes "dew") arg)
      then say "That sounds less refreshing than Dew." allow_edit
      else if not (at_hand o_mtn_dew r w)
      then say "Uh-oh.  Hadewcinations.  Buy one soon!" discard_text
      else do remove_object o_mtn_dew; say "Ahhhhhhhhhhhhhhhh...........nother?" redraw_room

unfoldable pub typed_cmd_sigh : ℕ → Text → M Action
typed_cmd_sigh r arg =
    if not (r == r_by_zas) then say "MP2 got you down?  Take a break!" discard_text else do
      show_status "So sad... you lose your appetite."
      player_set_flag flag_has_eaten
      pure discard_text
