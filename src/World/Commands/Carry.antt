-- ===== src/World/Commands/Carry.antt =====
-- The typed commands of mp2/world.c to drop and to get an object, and to look at the inventory.
use computer_systems_enginee.Base.{
  ℕ, Bool, not, ◌&&◌, ◌||◌, Option, none, some, Text, ◌==◌, if◌then◌else◌,
}
use computer_systems_enginee.World.Ids.{
  r_inventory, r_car_site, r_rem_plane, o_batt_full, o_mimo_card, o_tux, flag_lured_tux,
}
use computer_systems_enginee.World.State.{
  World, M, Action, allow_edit, discard_text, redraw_room, change_room, pure, ◌>>=◌, ◌>>◌, get,
  modify, deref, put_room, show_status, say, move_to,
}
use computer_systems_enginee.World.Objects.{
  find_in_room, insert_object, obj_special_get, player_flag_is_set, move_object_to_inventory,
}

-- The room in which the player stands: the inventory remembers it as the room to 'enter'.
abbrev pub standing : ℕ → World → Option ℕ
standing r w = if r == r_inventory then (w.room r_inventory).enter else some r

abbrev pub seems_to_install : ℕ → ℕ → Bool
seems_to_install obj r =
    (obj == o_batt_full && r == r_car_site) || (obj == o_mimo_card && r == r_rem_plane)

unfoldable pub put_down : ℕ → ℕ → M Action
put_down r obj = do w ← get; dest ← deref (standing r w); insert_object obj dest; pure redraw_room

unfoldable pub drop_found : ℕ → ℕ → M Action
drop_found r obj = do
  if seems_to_install obj r then show_status "You may want to install it instead." else pure tt
  put_down r obj

unfoldable pub typed_cmd_drop : ℕ → Text → M Action
unfolding drop_found put_down
typed_cmd_drop r arg = do
  found ← find_in_room r_inventory arg
  elim found [ none ↦ say "You have no such thing." allow_edit | some obj ↦ drop_found r obj ]

-- The special search, and then the normal one.
unfoldable pub seek : ℕ → Text → M (Option ℕ)
seek src arg = do
  special ← obj_special_get src arg
  elim special [ some obj ↦ pure (some obj) | none ↦ find_in_room src arg ]

-- The player can't grab Tux!
unfoldable pub grab : ℕ → World → M Action
grab obj w =
    if obj == o_tux && not (player_flag_is_set flag_lured_tux w)
    then say "Tux must choose you!  Try using a fish." discard_text
    else do move_object_to_inventory obj; pure redraw_room

unfoldable pub get_found : ℕ → M Action
unfolding grab
get_found obj = do w' ← get; grab obj w'

unfoldable pub typed_cmd_get : ℕ → Text → M Action
unfolding seek get_found
typed_cmd_get r arg = do
  w ← get
  src ← deref (standing r w)
  found ← seek src arg
  elim found [ none ↦ say "You see no such thing here." allow_edit | some obj ↦ get_found obj ]

unfoldable pub typed_cmd_inventory : ℕ → Text → M Action
typed_cmd_inventory r arg = do
  w ← get
  if r == r_inventory then move_to (w.room r).enter else do
    modify (put_room r_inventory (record (w.room r_inventory) { enter = some r }))
    move_to (some r_inventory)
  pure change_room
