-- ===== src/World/Build/Start.antt =====
-- The world in which the game of mp2/adventure.c starts.
use computer_systems_enginee.Base.{
  ℕ, ◌<◌, ◌≡◌, refl, arith, Bool, true, false, inl, inr, Bool-cases, Option, none, some, [], ◌==◌,
  IsSome, IsSome-value, if◌then◌else◌,
}
use Prim.Native.String.{String}
use computer_systems_enginee.Photo.Types.{Photo, Image}
use computer_systems_enginee.World.Ids.{n_swaps, r_inventory}
use computer_systems_enginee.World.State.{World, pure}
use computer_systems_enginee.World.Validity.{IsValid, Ends, Holds-same}
use computer_systems_enginee.World.Commands.Rules.{Ends-bind}
use computer_systems_enginee.World.Build.{
  set_up_rooms, set_up_objects, set_up_swap, set_up_swaps, clear_rooms, clear_objects, build_swaps,
  build_objects, build_world, start_in_room,
}
use computer_systems_enginee.World.Build.Rooms.{room_data}
use computer_systems_enginee.World.Build.Items.{obj_data}
use computer_systems_enginee.World.Build.Setup.{RoomsSet, set_up_rooms_lem}
use computer_systems_enginee.World.Build.Population.{ItemsSet, set_up_objects_lem}
use computer_systems_enginee.World.Build.Checks.{
  room_ids, object_ids, room_data-GoodRooms, obj_data-GoodObjects, room_ids-In, object_ids-In,
}

-- The world once the player is in the room where the game starts.
abbrev pub started : World → World
started w = record w { location = some start_in_room }

-- Success, with a world in which the game can start.
abbrev pub Built : Bool → World → Type 0
Built b w = (b ≡ true) × IsValid (started w)

cleared-RoomsSet :
    (read : String → Option Photo) (im : String → Option Image) (w : World)
    → RoomsSet [] (clear_rooms read im w)
cleared-RoomsSet read im w = record {
  unset = λ r away. refl;
  viewed = λ r i. absurd i;
  lefts = λ r i. absurd i;
  enters = λ r i. absurd i;
  rights = λ r i. absurd i;
  empty = λ r. refl;
}

cleared-ItemsSet :
    (read : String → Option Photo) (im : String → Option Image) (w : World)
    → RoomsSet (room_ids [] room_data) w
    → ItemsSet [] (clear_objects read im w)
cleared-ItemsSet read im w s = record {
  items = λ r. [];
  holds = record {
    chained = s.empty;
    distinct = λ r. tt;
    located = λ r o i. absurd i;
    listed = λ r o e. absurd (cc e);
    small = λ r. tt;
  };
  rooms = record {
    viewed = λ r h. s.viewed r (room_ids-In r h);
    lefts = λ r h. s.lefts r (room_ids-In r h);
    enters = λ r h. s.enters r (room_ids-In r h);
    rights = λ r h. s.rights r (room_ids-In r h);
  };
  nameless = λ o away. refl;
  limbo = λ o away. refl;
  named = λ o i. absurd i;
  drawn = λ o i. absurd i;
}

-- The game does not start in the inventory.
start_elsewhere : Option.some start_in_room ≡ some r_inventory → ⊥
start_elsewhere e = omega (arith, inside e)
  where
    inside : Option.some start_in_room ≡ some r_inventory → start_in_room ≡ r_inventory
    inside e = cc e

two_swaps :
    (i : ℕ) (p q : Photo)
    → i < n_swaps
    → IsSome (if 1 == i then some q else if 0 == i then some p else none)
two_swaps i p q h = elim (Bool-cases (1 == i)) [
  | inl t ↦ rw t tt
  | inr f ↦
      elim (Bool-cases (0 == i))
        as (λ _. IsSome (if 1 == i then some q else if 0 == i then some p else none)) [
          | inl t ↦ rw (f, t) tt
          | inr g ↦ absurd (ground (arith, h, f, g))
        ]
]

module _ (read_photo : String → Option Photo) (read_obj_image : String → Option Image)
    (photos : (f : String) → IsSome (read_photo f))
    (images : (f : String) → IsSome (read_obj_image f)) where
  build_swaps_lem :
      (w : World)
      → ItemsSet (object_ids [] obj_data) w
      → Ends Built (build_swaps read_photo read_obj_image w)
  unfolding build_swaps set_up_swaps set_up_swap
  build_swaps_lem w s =
      let (p, ep) = IsSome-value (photos "images/circlen2.photo") in
      let (q, eq) = IsSome-value (photos "images/caropen.photo") in
      record {
        value = true;
        after = record w {
          swap_photo = λ i. if 1 == i then some q else if 0 == i then some p else none;
        };
        runs = rw (ep, eq) refl;
        post = (
          refl,
          record {
            items = s.items;
            holds = Holds-same refl (λ r. refl) s.holds;
            ready = record {
              named = λ o h. s.named o (object_ids-In o h);
              drawn = λ o h. s.drawn o (object_ids-In o h);
              viewed = s.rooms.viewed;
              swappable = λ i h. two_swaps i p q h;
              lefts = s.rooms.lefts;
              enters = s.rooms.enters;
              rights = s.rooms.rights;
              here = omega arith;
              bag = λ e. absurd (start_elsewhere e);
            };
          },
        );
      }

  build_objects_lem :
      (w : World)
      → RoomsSet (room_ids [] room_data) w
      → Ends Built (build_objects read_photo read_obj_image w)
  unfolding build_objects
  build_objects_lem w s =
      Ends-bind (set_up_objects read_photo read_obj_image obj_data)
        (λ done. if done then build_swaps read_photo read_obj_image else pure false)
        (clear_objects read_photo read_obj_image w)
        (set_up_objects_lem read_photo read_obj_image photos images obj_data []
          (clear_objects read_photo read_obj_image w)
          (cleared-ItemsSet read_photo read_obj_image w s) obj_data-GoodObjects)
        (λ b w' q. rw q.0 (build_swaps_lem w' q.1))

  -- Where every photo and every image can be read, build_world succeeds, whatever the memory and
  -- the dice, and the world with the player in the first room is well formed.
  pub build_world_lem : (w : World) → Ends Built (build_world read_photo read_obj_image w)
  unfolding build_world
  build_world_lem w =
      Ends-bind (set_up_rooms read_photo read_obj_image room_data)
        (λ done. if done then build_objects read_photo read_obj_image else pure false)
        (clear_rooms read_photo read_obj_image w)
        (set_up_rooms_lem read_photo read_obj_image photos images room_data []
          (clear_rooms read_photo read_obj_image w) (cleared-RoomsSet read_photo read_obj_image w)
          room_data-GoodRooms)
        (λ b w' q. rw q.0 (build_objects_lem w' q.1))
