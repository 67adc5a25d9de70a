-- ===== src/World/Build/Checks.antt =====
-- That the tables of mp2/world.c fit together, by a computation.
use computer_systems_enginee.Base.{
  ℕ, zero, suc, ◌<◌, ◌≡◌, refl, arith, Bool, true, false, not, ◌&&◌, ◌||◌, inl, inr, Bool-cases,
  Option, none, some, List, [], ◌∷◌, ltb, ◌==◌, ==_iff, In,
}
use computer_systems_enginee.World.Ids.{n_rooms, n_objects, r_inventory}
use computer_systems_enginee.World.Validity.{Leads, InRooms}
use computer_systems_enginee.World.Build.Rooms.{RoomData, room_data}
use computer_systems_enginee.World.Build.Items.{ObjData, obj_data}

abbrev in_list : ℕ → List ℕ → Bool
in_list a [] = false
in_list a (x ∷ xs) = a == x || in_list a xs

abbrev leads : Option ℕ → Bool
leads none = true
leads (some r) = ltb r n_rooms && not (r == r_inventory)

abbrev in_rooms : Option ℕ → Bool
in_rooms none = true
in_rooms (some r) = ltb r n_rooms

-- Every entry has an id of its own, below the number of rooms, and ways that lead to rooms.
abbrev pub GoodRooms : List ℕ → List RoomData → Type 0
GoodRooms done [] = Unit {0}
GoodRooms done (d ∷ ds) =
    (d.id < n_rooms)
    × (In d.id done → ⊥)
    × (Leads d.left × Leads d.enter × Leads d.right)
    × GoodRooms (d.id ∷ done) ds

abbrev pub GoodObjects : List ℕ → List ObjData → Type 0
GoodObjects done [] = Unit {0}
GoodObjects done (d ∷ ds) =
    (d.id < n_objects) × (In d.id done → ⊥) × InRooms d.room × GoodObjects (d.id ∷ done) ds

-- The ids of the entries, after those that are done.
abbrev pub room_ids : List ℕ → List RoomData → List ℕ
room_ids done [] = done
room_ids done (d ∷ ds) = room_ids (d.id ∷ done) ds

abbrev pub object_ids : List ℕ → List ObjData → List ℕ
object_ids done [] = done
object_ids done (d ∷ ds) = object_ids (d.id ∷ done) ds

abbrev good_room : List ℕ → RoomData → Bool
good_room done d =
    ltb d.id n_rooms
    && (not (in_list d.id done) && (leads d.left && (leads d.enter && leads d.right)))

abbrev good_object : List ℕ → ObjData → Bool
good_object done d = ltb d.id n_objects && (not (in_list d.id done) && in_rooms d.room)

abbrev good_rooms : List ℕ → List RoomData → Bool
good_rooms done [] = true
good_rooms done (d ∷ ds) = good_room done d && good_rooms (d.id ∷ done) ds

abbrev good_objects : List ℕ → List ObjData → Bool
good_objects done [] = true
good_objects done (d ∷ ds) = good_object done d && good_objects (d.id ∷ done) ds

abbrev covers : ℕ → List ℕ → Bool
covers zero l = true
covers (suc n) l = in_list n l && covers n l

&&_left : (a b : Bool) → (a && b) ≡ true → a ≡ true
&&_left true b h = refl
&&_left false b h = h

&&_right : (a b : Bool) → (a && b) ≡ true → b ≡ true
&&_right true b h = h
&&_right false b h = absurd (cc h)

in_list-In : (a : ℕ) (l : List ℕ) → in_list a l ≡ true → In a l
in_list-In a [] h = absurd (cc h)
in_list-In a (x ∷ xs) h = elim (Bool-cases (a == x)) [
  | inl t ↦ inl ((==_iff a x).0 t)
  | inr f ↦ inr (in_list-In a xs (rw f at h))
]

not-in_list : (a : ℕ) (l : List ℕ) → not (in_list a l) ≡ true → In a l → ⊥
not-in_list a [] h i = i
not-in_list a (x ∷ xs) h (inl e) = ground (arith, h, e)
not-in_list a (x ∷ xs) h (inr i) = not-in_list a xs (ground (arith, h)) i

leads-Leads : (p : Option ℕ) → leads p ≡ true → Leads p
leads-Leads none h = tt
leads-Leads (some r) h = (ground (arith, h), λ e. ground (arith, h, e))

in_rooms-InRooms : (p : Option ℕ) → in_rooms p ≡ true → InRooms p
in_rooms-InRooms none h = tt
in_rooms-InRooms (some r) h = ground (arith, h)

ltb_lt : (a b : ℕ) → ltb a b ≡ true → a < b
ltb_lt a b h = ground (arith, h)

good_rooms-GoodRooms :
    (done : List ℕ) (ds : List RoomData) → good_rooms done ds ≡ true → GoodRooms done ds
good_rooms-GoodRooms done [] h = tt
good_rooms-GoodRooms done (d ∷ ds) h =
    let here = &&_left (good_room done d) (good_rooms (d.id ∷ done) ds) h in
    let rest = &&_right (good_room done d) (good_rooms (d.id ∷ done) ds) h in
    let fresh = &&_right (ltb d.id n_rooms) _ here in
    let ways = &&_right (not (in_list d.id done)) _ fresh in
    let others = &&_right (leads d.left) _ ways in
    (
      ltb_lt d.id n_rooms (&&_left (ltb d.id n_rooms) _ here),
      (not-in_list d.id done (&&_left (not (in_list d.id done)) _ fresh)),
      (
        leads-Leads d.left (&&_left (leads d.left) _ ways),
        leads-Leads d.enter (&&_left (leads d.enter) (leads d.right) others),
        leads-Leads d.right (&&_right (leads d.enter) (leads d.right) others),
      ),
      good_rooms-GoodRooms (d.id ∷ done) ds rest,
    )

good_objects-GoodObjects :
    (done : List ℕ) (ds : List ObjData) → good_objects done ds ≡ true → GoodObjects done ds
good_objects-GoodObjects done [] h = tt
good_objects-GoodObjects done (d ∷ ds) h =
    let here = &&_left (good_object done d) (good_objects (d.id ∷ done) ds) h in
    let rest = &&_right (good_object done d) (good_objects (d.id ∷ done) ds) h in
    let fresh = &&_right (ltb d.id n_objects) _ here in
    (
      ltb_lt d.id n_objects (&&_left (ltb d.id n_objects) _ here),
      (not-in_list d.id done (&&_left (not (in_list d.id done)) _ fresh)),
      in_rooms-InRooms d.room (&&_right (not (in_list d.id done)) _ fresh),
      good_objects-GoodObjects (d.id ∷ done) ds rest,
    )

covers-In : (n : ℕ) (l : List ℕ) → covers n l ≡ true → (r : ℕ) → r < n → In r l
covers-In zero l h r lt = absurd (omega arith)
covers-In (suc n) l h r lt = elim (Bool-cases (r == n)) [
  | inl t ↦ rw ((==_iff r n).0 t) (in_list-In n l (&&_left (in_list n l) (covers n l) h))
  | inr f ↦ covers-In n l (&&_right (in_list n l) (covers n l) h) r (ground (arith, f, lt))
]

pub room_data-GoodRooms : GoodRooms [] room_data
room_data-GoodRooms = good_rooms-GoodRooms [] room_data refl

pub obj_data-GoodObjects : GoodObjects [] obj_data
obj_data-GoodObjects = good_objects-GoodObjects [] obj_data refl

pub room_ids-In : (r : ℕ) → r < n_rooms → In r (room_ids [] room_data)
room_ids-In = covers-In n_rooms (room_ids [] room_data) refl

pub object_ids-In : (o : ℕ) → o < n_objects → In o (object_ids [] obj_data)
object_ids-In = covers-In n_objects (object_ids [] obj_data) refl
