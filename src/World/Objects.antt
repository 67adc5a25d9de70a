-- ===== src/World/Objects.antt =====
-- The functions of mp2/world.c that keep the linked lists of objects, and the player's flags.
pub mod Chains
pub mod Holds
pub mod Removal
pub mod Insertion
pub mod Search
pub mod Placement
pub mod Stowing
use computer_systems_enginee.Base.{
  ℕ, zero, suc, ◌+◌, ◌-◌, ◌*◌, ◌/◌, ◌%◌, ◌^◌, Bool, true, false, ◌&&◌, Option, none, some, Text,
  codes, ◌==◌, leb, if◌then◌else◌, same_word, List, [], ◌∷◌,
}
use computer_systems_enginee.Photo.Types.{photo_width, photo_height, image_width, image_height}
use computer_systems_enginee.World.Ids.{
  r_inventory, r_reserve, r_car_site, o_book_c, o_book_wode, o_batt_car, o_batt_empty, n_objects,
  flag_has_eaten,
}
use computer_systems_enginee.World.State.{
  World, M, pure, ◌>>=◌, ◌>>◌, get, modify, deref, put_room, put_object, show_status, rand, is_at,
}

-- A room's list of objects has at most one node for each object, so a walk takes no more steps.
abbrev pub walk_fuel : ℕ
walk_fuel = suc n_objects

unfoldable pub do_photo_swap : ℕ → ℕ → M (Unit {0})
do_photo_swap r which = modify λ w.
    let tmp = (w.room r).view in
    let w' = put_room r (record (w.room r) { view = w.swap_photo which }) w in
    record w' { swap_photo = λ i. if which == i then tmp else w.swap_photo i }

-- The loop of `find_in_room`, from the node that `obj` points to.
find_from : ℕ → Option ℕ → Text → M (Option ℕ)
find_from zero obj arg w = none
find_from (suc f) none arg w = some (none, w)
find_from (suc f) (some o) arg w =
    let rest = find_from f (w.object o).next arg w in
    elim (w.object o).name [
      | none ↦ none
      | some name ↦ if same_word arg name then some (some o, w) else rest
    ]

unfoldable pub find_in_room : ℕ → Text → M (Option ℕ)
unfolding find_from
find_in_room r arg w = find_from walk_fuel (w.room r).contents arg w

-- What `find` of `remove_object` points to: the head of a room's list, or an object's next pointer.
pub data Cell : Type 0 where
  head_of : ℕ → Cell
  next_of : ℕ → Cell

abbrev pub read_cell : Cell → World → Option ℕ
read_cell (head_of r) w = (w.room r).contents
read_cell (next_of o) w = (w.object o).next

abbrev pub write_cell : Cell → Option ℕ → World → World
write_cell (head_of r) v w = put_room r (record (w.room r) { contents = v }) w
write_cell (next_of o) v w = put_object o (record (w.object o) { next = v }) w

-- The loop of `remove_object`, with `find` at a cell.
unfoldable pub unlink : ℕ → Cell → ℕ → M (Unit {0})
unlink zero find o w = none
unlink (suc f) find o w = elim (read_cell find w) [
  | none ↦ some (tt, w)
  | some q ↦
      let rest = unlink f (next_of q) o w in
      if q == o then some (tt, write_cell find (w.object o).next w) else rest
]

abbrev pub set_loc : ℕ → Option ℕ → World → World
set_loc o l w = put_object o (record (w.object o) { loc = l }) w

unfoldable pub remove_object : ℕ → M (Unit {0})
remove_object o w = elim (w.object o).loc [
  | none ↦ some (tt, w)
  | some r ↦ (unlink walk_fuel (head_of r) o >> modify (set_loc o none)) w
]

-- `o->x` and `o->y` are 16-bit.
abbrev pub place : ℕ → ℕ → ℕ → World → World
place o x y w = put_object o (record (w.object o) { x = x % 2 ^ 16; y = y % 2 ^ 16 }) w

-- `o->loc = r; o->next = r->contents; r->contents = o;`
abbrev pub link : ℕ → ℕ → World → World
link o r w =
    let w' = put_object o (record (w.object o) { loc = some r; next = (w.room r).contents }) w in
    put_room r (record (w'.room r) { contents = some o }) w'

unfoldable pub insert_object_at : ℕ → ℕ → ℕ → ℕ → M (Unit {0})
insert_object_at o r x y = do remove_object o; modify (place o x y); modify (link o r)

-- Photo and object sizes are at most 1024, so the signed differences of the source are the
-- differences below wherever these are positive, and its test is whether they are.
unfoldable pub random_below : ℕ → ℕ → M ℕ
random_below size part = if leb size part then pure 0 else do n ← rand; pure (n % (size - part))

-- The y position: in the lowest quarter of the photo if the object fits there.
unfoldable pub random_row : ℕ → ℕ → M ℕ
unfolding random_below
random_row space img_ht =
    if leb (space / 4) img_ht
    then random_below space img_ht
    else do n ← rand; pure (n % (space / 4 - img_ht) + (3 * space) / 4)

unfoldable pub insert_object : ℕ → ℕ → M (Unit {0})
unfolding random_below random_row
insert_object o r = do
  w ← get
  view ← deref (w.room r).view
  img ← deref (w.object o).img
  xpos ← random_below (photo_width view) (image_width img)
  ypos ← random_row (photo_height view) (image_height img)
  insert_object_at o r xpos ypos

-- The innermost loop of `move_object_to_inventory`: whether a node of the list from `conf` on stands
-- at (x, y).
unfoldable pub occupied : ℕ → Option ℕ → ℕ → ℕ → M Bool
occupied zero conf x y w = none
occupied (suc f) none x y w = some (false, w)
occupied (suc f) (some o) x y w =
    let rest = occupied f (w.object o).next x y w in
    if x == (w.object o).x && y == (w.object o).y then some (true, w) else rest

-- The places of the two outer loops, in their order.
abbrev pub grid : List (ℕ × ℕ)
grid =
    (10, 10)
    ∷ (110, 10)
    ∷ (210, 10)
    ∷ (10, 60)
    ∷ (110, 60)
    ∷ (210, 60)
    ∷ (10, 110)
    ∷ (110, 110)
    ∷ (210, 110)
    ∷ (10, 160)
    ∷ (110, 160)
    ∷ (210, 160)
    ∷ []

unfoldable pub first_free : List (ℕ × ℕ) → ℕ → M (Unit {0})
first_free [] obj = insert_object obj r_inventory
first_free ((x, y) ∷ places) obj = do
  w ← get
  taken ← occupied walk_fuel (w.room r_inventory).contents x y
  if taken then first_free places obj else insert_object_at obj r_inventory x y

unfoldable pub move_object_to_inventory : ℕ → M (Unit {0})
unfolding first_free
move_object_to_inventory obj = first_free grid obj

-- `player_flags & (1UL << fnum)`
unfoldable pub player_flag_is_set : ℕ → World → Bool
player_flag_is_set fnum w = w.player_flags / 2 ^ fnum % 2 == 1

-- `player_flags |= (1UL << fnum)`
unfoldable pub player_set_flag : ℕ → M (Unit {0})
player_set_flag fnum = modify λ w.
    if player_flag_is_set fnum w then w else record w { player_flags = w.player_flags + 2 ^ fnum }

abbrev pub in_limbo : ℕ → World → Bool
in_limbo o w = elim (w.object o).loc [ none ↦ true | some r ↦ false ]

-- The book from the reference desk: which one, and the message.
unfoldable pub check_out : World → M (Option ℕ)
check_out w =
    if player_flag_is_set flag_has_eaten w
    then if in_limbo o_book_c w
      then (do show_status "You check out the C book."; pure (some o_book_c))
      else pure none
    else if in_limbo o_book_wode w
    then (do show_status "Here's a nice Wodehouse collection."; pure (some o_book_wode))
    else pure none

unfoldable pub take_battery : ℕ → World → M (Option ℕ)
take_battery r w =
    if r == r_car_site && is_at o_batt_car r w
    then (do remove_object o_batt_car; pure (some o_batt_empty))
    else pure none

unfoldable pub obj_special_get : ℕ → Text → M (Option ℕ)
unfolding check_out take_battery
obj_special_get r arg = do
  w ← get
  book ← if r == r_reserve && same_word (codes "book") arg then check_out w else pure none
  elim book [ some o ↦ pure (some o) | none ↦ take_battery r w ]
