-- ===== src/World/Objects/Search.antt =====
-- The loops of mp2/world.c that read a list of objects: `find_in_room`, and the search of
-- `move_object_to_inventory` for an object in the way.
use computer_systems_enginee.Base.{
  ℕ, zero, suc, ◌<◌, ◌≡◌, ◌∙◌, inl, inr, Bool, true, false, ◌&&◌, Option, none, some, List, [], ◌∷◌,
  Text, arith, length, In, AllBelow, ◌==◌, if◌then◌else◌, Bool-cases, IsSome, IsSome-value,
  same_word, length-le_of_Distinct,
}
use computer_systems_enginee.World.Ids.{n_objects}
use computer_systems_enginee.World.State.{World}
use computer_systems_enginee.World.Objects.{find_from, find_in_room, occupied, walk_fuel}
use computer_systems_enginee.World.Objects.Chains.{Chain}
use computer_systems_enginee.World.Objects.Holds.{Holds}

-- Whether an object has the name, in any case of the letters.
abbrev pub is_named : World → Text → ℕ → Bool
is_named w arg o = elim (w.object o).name [ none ↦ false | some name ↦ same_word arg name ]

-- The first object of a list that has the name.
abbrev pub first_named : World → Text → List ℕ → Option ℕ
first_named w arg [] = none
first_named w arg (o ∷ l) = if is_named w arg o then some o else first_named w arg l

find_step :
    (f o : ℕ) (arg name : Text) (w : World)
    → (w.object o).name ≡ some name
    → find_from (suc f) (some o) arg w
      ≡ (if same_word arg name then some (some o, w) else find_from f (w.object o).next arg w)
unfolding find_from
find_step f o arg name w e = rw (e, find_from)

find_from_eq :
    (f : ℕ) (l : List ℕ) (p : Option ℕ) (arg : Text) (w : World)
    → ((o : ℕ) → o < n_objects → IsSome (w.object o).name)
    → AllBelow n_objects l
    → length l < f
    → Chain w.object p l
    → find_from f p arg w ≡ some (first_named w arg l, w)
unfolding find_from
find_from_eq zero l p arg w named b h ch = elim h [ ]
find_from_eq (suc f) [] p arg w named b h ch = rw (ch, find_from)
find_from_eq (suc f) (o ∷ l) p arg w named b h ch =
    let (name, e) = IsSome-value (named o b.0) in
    let ih = find_from_eq f l (w.object o).next arg w named b.1 (omega arith) ch.1 in
    rw ch.0 (find_step f o arg name w e ∙ ground (arith, e, ih))

-- Where each room's linked list is its sequence in `items` and every object has a name,
-- find_in_room ends, changes nothing, and finds the first object of the room's sequence with the
-- name, in any case of the letters.
pub find_in_room_lem :
    (w : World) (items : ℕ → List ℕ) (r : ℕ) (arg : Text)
    → Holds w items
    → ((o : ℕ) → o < n_objects → IsSome (w.object o).name)
    → find_in_room r arg w ≡ some (first_named w arg (items r), w)
unfolding find_in_room
find_in_room_lem w items r arg v named =
    find_from_eq walk_fuel (items r) (w.room r).contents arg w named (v.small r)
      (omega (arith, length-le_of_Distinct n_objects (items r) (v.small r) (v.distinct r)))
      (v.chained r)

pub In-first_named :
    (w : World) (arg : Text) (l : List ℕ) (o : ℕ)
    → first_named w arg l ≡ some o
    → In o l × (is_named w arg o ≡ true)
In-first_named w arg [] o e = absurd (cc e)
In-first_named w arg (q ∷ l) o e = elim (Bool-cases (is_named w arg q)) [
  | inl t ↦ let same : o ≡ q = cc (rw t at e) in (inl same, rw same t)
  | inr f ↦ let (i, n) = In-first_named w arg l o (rw f at e) in (inr i, n)
]

-- Whether an object of a list stands at a place.
abbrev pub stands_at : World → ℕ → ℕ → List ℕ → Bool
stands_at w x y [] = false
stands_at w x y (o ∷ l) =
    if x == (w.object o).x && y == (w.object o).y then true else stands_at w x y l

occupied_eq :
    (f : ℕ) (l : List ℕ) (p : Option ℕ) (x y : ℕ) (w : World)
    → length l < f
    → Chain w.object p l
    → occupied f p x y w ≡ some (stands_at w x y l, w)
unfolding occupied
occupied_eq zero l p x y w h ch = elim h [ ]
occupied_eq (suc f) [] p x y w h ch = rw (ch, occupied)
occupied_eq (suc f) (o ∷ l) p x y w h ch =
    rw (ch.0, occupied) (ground (arith, occupied_eq f l (w.object o).next x y w (omega arith) ch.1))

pub occupied_lem :
    (w : World) (items : ℕ → List ℕ) (r x y : ℕ)
    → Holds w items
    → occupied walk_fuel (w.room r).contents x y w ≡ some (stands_at w x y (items r), w)
occupied_lem w items r x y v =
    occupied_eq walk_fuel (items r) (w.room r).contents x y w
      (omega (arith, length-le_of_Distinct n_objects (items r) (v.small r) (v.distinct r)))
      (v.chained r)
