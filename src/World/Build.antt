-- ===== src/World/Build.antt =====
-- `build_world` of mp2/world.c, from its tables. The functions that read a photo or an image from a
-- file are parameters: the files are no part of the program.
pub mod Rooms
pub mod Items
pub mod Checks
pub mod Setup
pub mod Population
pub mod Start
use computer_systems_enginee.Base.{
  ℕ, Bool, true, false, Option, none, some, List, [], ◌∷◌, codes, leb, ◌==◌, if◌then◌else◌,
}
use Prim.Native.String.{String}
use computer_systems_enginee.Photo.Types.{Photo, Image}
use computer_systems_enginee.World.Ids.{n_rooms, n_objects, n_swaps, r_east_evrt}
use computer_systems_enginee.World.State.{
  World, Room, Object, M, pure, ◌>>=◌, ◌>>◌, get, modify, put_room, put_object,
}
use computer_systems_enginee.World.Objects.{insert_object_at, insert_object}
use computer_systems_enginee.World.Build.Rooms.{RoomData, room_data}
use computer_systems_enginee.World.Build.Items.{ObjData, obj_data, SwapData, swap_data}

-- What `memset` leaves.
abbrev pub no_room : Room
no_room = record {
  name = none;
  view = none;
  contents = none;
  left = none;
  enter = none;
  right = none;
}

abbrev pub no_object : Object
no_object = record { name = none; next = none; loc = none; x = 0; y = 0; img = none }

abbrev pub is_none : {A : Type 0} → Option A → Bool
is_none none = true
is_none (some a) = false

module _ (read_photo : String → Option Photo) (read_obj_image : String → Option Image) where
  -- One turn of the loop over the room data. The result is whether it is done.
  unfoldable pub set_up_room : RoomData → M Bool
  set_up_room d w =
      let ready : Option Photo → World = λ v.
        put_room d.id
          (record {
            name = some (codes d.name);
            view = v;
            contents = none;
            left = d.left;
            enter = d.enter;
            right = d.right;
          })
          w in
      let stopped =
        put_room d.id (record (w.room d.id) { name = some (codes d.name); view = none }) w in
      if leb n_rooms d.id
      then some (false, w)
      else if is_none (w.room d.id).name
      then elim (read_photo d.filename) [
        | none ↦ some (false, stopped)
        | some photo ↦ some (true, ready (some photo))
      ]
      else some (false, w)

  unfoldable pub set_up_rooms : List RoomData → M Bool
  set_up_rooms [] = pure true
  set_up_rooms (d ∷ ds) = do ok ← set_up_room d; if ok then set_up_rooms ds else pure false

  -- The object is put into its room, if it starts in one.
  unfoldable pub put_in_room : ObjData → M Bool
  put_in_room d = elim d.room [
    | none ↦ pure true
    | some r ↦ elim d.place [
      | some (x, y) ↦ insert_object_at d.id r x y >> pure true
      | none ↦ insert_object d.id r >> pure true
    ]
  ]

  unfoldable pub set_up_object : ObjData → M Bool
  set_up_object d w =
      let named : Option Image → World =
        λ im. put_object d.id (record (w.object d.id) { name = some (codes d.name); img = im }) w in
      let ready : Option Image → World = λ im.
        put_object d.id
          (record { name = some (codes d.name); next = none; loc = none; x = 0; y = 0; img = im })
          w in
      if leb n_objects d.id
      then some (false, w)
      else if is_none (w.object d.id).name
      then elim (read_obj_image d.filename) [
        | none ↦ some (false, named none)
        | some im ↦ put_in_room d (ready (some im))
      ]
      else some (false, w)

  unfoldable pub set_up_objects : List ObjData → M Bool
  set_up_objects [] = pure true
  set_up_objects (d ∷ ds) = do ok ← set_up_object d; if ok then set_up_objects ds else pure false

  unfoldable pub set_up_swap : SwapData → M Bool
  set_up_swap d w =
      let photo = read_photo d.filename in
      let w' = record w { swap_photo = λ i. if d.id == i then photo else w.swap_photo i } in
      if leb n_swaps d.id
      then some (false, w)
      else if is_none (w.swap_photo d.id)
      then some ((if is_none photo then false else true), w')
      else some (false, w)

  unfoldable pub set_up_swaps : List SwapData → M Bool
  set_up_swaps [] = pure true
  set_up_swaps (d ∷ ds) = do ok ← set_up_swap d; if ok then set_up_swaps ds else pure false

  abbrev pub clear_rooms : World → World
  clear_rooms w = record w { player_flags = 0; room = λ r. no_room }

  abbrev pub clear_objects : World → World
  clear_objects w = record w { object = λ o. no_object }

  abbrev pub clear_swaps : World → World
  clear_swaps w = record w { swap_photo = λ i. none }

  -- The loop over the swap photos, and those before it.
  unfoldable pub build_swaps : M Bool
  build_swaps = do modify clear_swaps; set_up_swaps swap_data

  unfoldable pub build_objects : M Bool
  build_objects = do
    modify clear_objects
    done ← set_up_objects obj_data
    if done then build_swaps else pure false

  unfoldable pub build_world : M Bool
  build_world = do
    modify clear_rooms
    done ← set_up_rooms room_data
    if done then build_objects else pure false

-- `start_in_room`
abbrev pub start_in_room : ℕ
start_in_room = r_east_evrt
