-- ===== src/Examples/Rooms.antt =====
-- A small world of mp2/world.c, and runs in it: the player is in the lab, room 1, with the objects 2
-- and 5. Object 2 is in the way of no list but its own.
use computer_systems_enginee.Base.{
  ℕ, zero, suc, ◌≡◌, refl, subst, ◌+◌, inl, inr, arith, Bool, true, false, Bool-cases, ◌==◌, ◌||◌,
  if◌then◌else◌, Option, none, some, List, [], ◌∷◌, codes, In, Distinct, AllBelow,
}
use computer_systems_enginee.Photo.Types.{Photo, Image}
use computer_systems_enginee.World.Ids.{n_objects, r_inventory, r_in_391lab}
use computer_systems_enginee.World.State.{World, Room, Object}
use computer_systems_enginee.World.Objects.{remove_object, insert_object_at, find_in_room}
use computer_systems_enginee.World.Objects.Chains.{Chain}
use computer_systems_enginee.World.Objects.Holds.{Holds, Relocated}
use computer_systems_enginee.World.Objects.Removal.{without, remove_object_lem}
use computer_systems_enginee.World.Objects.Insertion.{cons_at, insert_object_at_lem}
use computer_systems_enginee.World.Objects.Placement.{Scattered, insert_object-Scattered}
use computer_systems_enginee.World.Objects.Search.{first_named, find_in_room_lem}
use computer_systems_enginee.World.Validity.{IsReady, IsValid, Ends, Leads}
use computer_systems_enginee.World.Commands.Rules.{Valid}
use computer_systems_enginee.World.Commands.Standing.{IsIn}
use computer_systems_enginee.World.Game.{
  Request, move_left, enter, typed, tc_get, tc_drop, tc_inventory, play, play-Ends,
}

abbrev pub lab_photo : Photo
lab_photo = record { hdr = record { width = 640; height = 400 }; palette = []; img = [] }

abbrev pub board_image : Image
board_image = record { hdr = record { width = 40; height = 30 }; img = [] }

abbrev lab_items : ℕ → List ℕ
lab_items zero = []
lab_items (suc zero) = 2 ∷ 5 ∷ []
lab_items (suc (suc r)) = []

abbrev lab_object : ℕ → Object
lab_object o = record {
  name = some (codes "Board");
  next = if o == 2 then some 5 else none;
  loc = if o == 2 || o == 5 then some 1 else none;
  x = 0;
  y = 0;
  img = some board_image;
}

abbrev lab_room : ℕ → Room
lab_room r = record {
  name = some (codes "Lab");
  view = some lab_photo;
  contents = if r == 1 then some 2 else none;
  left = none;
  enter = if r == 1 then some 2 else none;
  right = none;
}

abbrev pub lab_world : World
lab_world = record {
  room = lab_room;
  object = lab_object;
  player_flags = 0;
  swap_photo = λ i. some lab_photo;
  location = some r_in_391lab;
  status_msg = [];
  dice = λ k. 7 + k;
  rolls = 0;
}

lab_chained : (r : ℕ) → Chain lab_object (lab_room r).contents (lab_items r)
lab_chained zero = refl
lab_chained (suc zero) = (refl, (refl, refl))
lab_chained (suc (suc r)) = ground arith

lab-Distinct : (r : ℕ) → Distinct (lab_items r)
lab-Distinct zero = tt
lab-Distinct (suc zero) =
    ((λ h. elim h [ inl e ↦ absurd (omega arith) | inr k ↦ k ]), ((λ h. h), tt))
lab-Distinct (suc (suc r)) = tt

lab_located : (r o : ℕ) → In o (lab_items r) → (lab_object o).loc ≡ some r
lab_located zero o h = absurd h
lab_located (suc zero) o (inl e) = ground arith
lab_located (suc zero) o (inr (inl e)) = ground arith
lab_located (suc zero) o (inr (inr h)) = absurd h
lab_located (suc (suc r)) o h = absurd h

lab-In : (o : ℕ) → (o == 2 || o == 5) ≡ true → In o (lab_items 1)
lab-In o h = elim (Bool-cases (o == 2)) [
  | inl t ↦ inl (ground (arith, t))
  | inr f ↦ inr (inl (ground (arith, f, h)))
]

lab_listed : (r o : ℕ) → (lab_object o).loc ≡ some r → In o (lab_items r)
lab_listed r o h = elim (Bool-cases (o == 2 || o == 5)) as (λ _. In o (lab_items r)) [
  | inl t ↦ subst (λ s. In o (lab_items s)) (one r (rw t at h)) (lab-In o t)
  | inr f ↦ absurd (cc (rw f at h))
]
  where
    one : (r : ℕ) → Option.some 1 ≡ some r → 1 ≡ r
    one r e = cc e

lab_small : (r : ℕ) → AllBelow n_objects (lab_items r)
lab_small zero = tt
lab_small (suc zero) = (omega arith, (omega arith, tt))
lab_small (suc (suc r)) = tt

pub lab-Holds : Holds lab_world lab_items
lab-Holds = record {
  chained = lab_chained;
  distinct = lab-Distinct;
  located = lab_located;
  listed = lab_listed;
  small = lab_small;
}

lab_enters : (r : ℕ) (b : Bool) → Leads (if b then some 2 else none)
lab_enters r true = (omega arith, λ e. omega (arith, e))
lab_enters r false = tt

lab_bag : Option.some r_in_391lab ≡ some r_inventory → ⊥
lab_bag e = omega (arith, some_inj e)
  where
    some_inj : Option.some r_in_391lab ≡ some r_inventory → r_in_391lab ≡ r_inventory
    some_inj e = cc e

pub lab-IsReady : IsReady lab_world
lab-IsReady = record {
  named = λ o h. tt;
  drawn = λ o h. tt;
  viewed = λ r h. tt;
  swappable = λ i h. tt;
  lefts = λ r h. tt;
  enters = λ r h. lab_enters r (r == 1);
  rights = λ r h. tt;
  here = omega arith;
  bag = λ e. absurd (lab_bag e);
}

pub lab-IsValid : IsValid lab_world
lab-IsValid = record { items = lab_items; holds = lab-Holds; ready = lab-IsReady }

pub lab-IsIn : IsIn r_in_391lab lab_world
lab-IsIn = record { valid = lab-IsValid; location = refl }

remove_object_example : Relocated lab_world 5 none (without 5 lab_items) (remove_object 5 lab_world)
remove_object_example = remove_object_lem lab_world lab_items 5 lab-Holds

insert_object_at_example :
    Relocated lab_world 2
      (some 3)
      (cons_at 2 3 (without 2 lab_items))
      (insert_object_at 2 3 10 20 lab_world)
insert_object_at_example =
    insert_object_at_lem lab_world lab_items 2 3 10 20 lab-Holds (omega arith)

Scattered_example : Scattered lab_world 2 3 lab_photo board_image
Scattered_example = insert_object-Scattered lab_world 2 3 lab_photo board_image refl refl

find_in_room_example :
    find_in_room 1 (codes "board") lab_world
    ≡ some (first_named lab_world (codes "board") (lab_items 1), lab_world)
find_in_room_example = find_in_room_lem lab_world lab_items 1 (codes "board") lab-Holds (λ o h. tt)

abbrev few_requests : List Request
few_requests =
    typed tc_get (codes "board")
    ∷ enter
    ∷ typed tc_inventory []
    ∷ typed tc_drop (codes "board")
    ∷ move_left
    ∷ []

play-Ends_example : Ends Valid (play few_requests lab_world)
play-Ends_example = play-Ends few_requests lab_world lab-IsValid
