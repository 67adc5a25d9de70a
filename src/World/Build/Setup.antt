-- ===== src/World/Build/Setup.antt =====
-- That `build_world` of mp2/world.c makes a well-formed world.
use computer_systems_enginee.Base.{
  ℕ, ◌<◌, ◌≡◌, refl, sym, arith, true, false, inl, inr, Bool-cases, Option, none, some, List, [],
  ◌∷◌, ◌==◌, ==_iff, In, IsSome, IsSome-value, if◌then◌else◌, codes, leb,
}
use Prim.Native.String.{String}
use computer_systems_enginee.Photo.Types.{Photo, Image}
use computer_systems_enginee.World.Ids.{n_rooms}
use computer_systems_enginee.World.State.{World, pure, put_room}
use computer_systems_enginee.World.Validity.{Ends, Leads}
use computer_systems_enginee.World.Commands.Rules.{Ends-bind}
use computer_systems_enginee.World.Build.{set_up_room, set_up_rooms}
use computer_systems_enginee.World.Build.Rooms.{RoomData}
use computer_systems_enginee.World.Build.Checks.{GoodRooms, room_ids}

-- The rooms that are done are set up, and the others are as `memset` left them.
pub record RoomsSet (done : List ℕ) (w : World) : Type 0 where
  pub unset : (r : ℕ) → (In r done → ⊥) → (w.room r).name ≡ none
  pub viewed : (r : ℕ) → In r done → IsSome (w.room r).view
  pub lefts : (r : ℕ) → In r done → Leads (w.room r).left
  pub enters : (r : ℕ) → In r done → Leads (w.room r).enter
  pub rights : (r : ℕ) → In r done → Leads (w.room r).right
  pub empty : (r : ℕ) → (w.room r).contents ≡ none

pub not_leb : (a b : ℕ) → a < b → leb b a ≡ false
not_leb a b h = ground arith

module _ (read_photo : String → Option Photo) (read_obj_image : String → Option Image)
    (photos : (f : String) → IsSome (read_photo f))
    (images : (f : String) → IsSome (read_obj_image f)) where
  set_up_room_lem :
      (d : RoomData) (done : List ℕ) (w : World)
      → RoomsSet done w
      → d.id < n_rooms
      → (In d.id done → ⊥)
      → Leads d.left
      → Leads d.enter
      → Leads d.right
      → Ends
          (λ b w'. (b ≡ true) × RoomsSet (d.id ∷ done) w')
          (set_up_room read_photo read_obj_image d w)
  unfolding set_up_room
  set_up_room_lem d done w s lt fresh l e r =
      let (photo, ep) = IsSome-value (photos d.filename) in
      record {
        value = true;
        after =
            put_room d.id
              (record {
                name = some (codes d.name);
                view = some photo;
                contents = none;
                left = d.left;
                enter = d.enter;
                right = d.right;
              })
              w;
        runs = rw (not_leb d.id n_rooms lt, s.unset d.id fresh, ep) refl;
        post = (
          refl,
          record {
            unset = λ q away. elim (Bool-cases (d.id == q)) [
              | inl t ↦ absurd (away (inl (sym ((==_iff d.id q).0 t))))
              | inr f ↦ rw f (s.unset q (λ i. away (inr i)))
            ];
            viewed = λ q i. elim (Bool-cases (d.id == q)) [
              | inl t ↦ rw t tt
              | inr f ↦ rw f (s.viewed q (older q f i))
            ];
            lefts = λ q i. elim (Bool-cases (d.id == q)) [
              | inl t ↦ rw t l
              | inr f ↦ rw f (s.lefts q (older q f i))
            ];
            enters = λ q i. elim (Bool-cases (d.id == q)) [
              | inl t ↦ rw t e
              | inr f ↦ rw f (s.enters q (older q f i))
            ];
            rights = λ q i. elim (Bool-cases (d.id == q)) [
              | inl t ↦ rw t r
              | inr f ↦ rw f (s.rights q (older q f i))
            ];
            empty =
                λ q. elim (Bool-cases (d.id == q)) [ inl t ↦ rw t refl | inr f ↦ rw f (s.empty q) ];
          },
        );
      }
    where
      older : (q : ℕ) → (d.id == q) ≡ false → In q (d.id ∷ done) → In q done
      older q f (inl x) = absurd (ground (arith, f, x))
      older q f (inr i) = i

  pub set_up_rooms_lem :
      (ds : List RoomData) (done : List ℕ) (w : World)
      → RoomsSet done w
      → GoodRooms done ds
      → Ends
          (λ b w'. (b ≡ true) × RoomsSet (room_ids done ds) w')
          (set_up_rooms read_photo read_obj_image ds w)
  unfolding set_up_rooms
  set_up_rooms_lem [] done w s g = record { value = true; after = w; runs = refl; post = (refl, s) }
  set_up_rooms_lem (d ∷ ds) done w s g =
      Ends-bind (set_up_room read_photo read_obj_image d)
        (λ ok. if ok then set_up_rooms read_photo read_obj_image ds else pure false) w
        (set_up_room_lem d done w s g.0 g.1 g.2.0 g.2.1 g.2.2)
        (λ b w' q. rw q.0 (set_up_rooms_lem ds (d.id ∷ done) w' q.1 g.3))
