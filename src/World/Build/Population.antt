-- ===== src/World/Build/Population.antt =====
-- That `build_world` of mp2/world.c puts the objects into the rooms where they start.
use computer_systems_enginee.Base.{
  ℕ, ◌<◌, ◌≡◌, refl, sym, ◌∙◌, subst, arith, true, false, inl, inr, Bool-cases, Option, none, some,
  List, [], ◌∷◌, ◌==◌, ==_iff, In, IsSome, IsSome-value, if◌then◌else◌, codes,
}
use Prim.Native.String.{String}
use computer_systems_enginee.Photo.Types.{Photo, Image}
use computer_systems_enginee.World.Ids.{n_rooms, n_objects}
use computer_systems_enginee.World.State.{World, Object, M, pure, ◌>>◌, put_object}
use computer_systems_enginee.World.Objects.{insert_object_at, insert_object}
use computer_systems_enginee.World.Objects.Chains.{Chain-frame}
use computer_systems_enginee.World.Objects.Holds.{Holds, Relocated}
use computer_systems_enginee.World.Objects.Insertion.{insert_object_at_lem}
use computer_systems_enginee.World.Objects.Placement.{insert_object_known}
use computer_systems_enginee.World.Validity.{Ends, Leads, InRooms}
use computer_systems_enginee.World.Commands.Rules.{Ends-bind}
use computer_systems_enginee.World.Build.{put_in_room, set_up_object, set_up_objects}
use computer_systems_enginee.World.Build.Items.{ObjData}
use computer_systems_enginee.World.Build.Setup.{not_leb}
use computer_systems_enginee.World.Build.Checks.{GoodObjects, object_ids}

-- Every room has a photo, and ways that lead to rooms.
pub record Grounds (w : World) : Type 0 where
  pub viewed : (r : ℕ) → r < n_rooms → IsSome (w.room r).view
  pub lefts : (r : ℕ) → r < n_rooms → Leads (w.room r).left
  pub enters : (r : ℕ) → r < n_rooms → Leads (w.room r).enter
  pub rights : (r : ℕ) → r < n_rooms → Leads (w.room r).right

-- The objects that are done have names and images, and the others are in away room.
pub record ItemsSet (done : List ℕ) (w : World) : Type 0 where
  pub items : ℕ → List ℕ
  pub holds : Holds w items
  pub rooms : Grounds w
  pub nameless : (o : ℕ) → (In o done → ⊥) → (w.object o).name ≡ none
  pub limbo : (o : ℕ) → (In o done → ⊥) → (w.object o).loc ≡ none
  pub named : (o : ℕ) → In o done → IsSome (w.object o).name
  pub drawn : (o : ℕ) → In o done → IsSome (w.object o).img

-- An object that is done may be moved.
moved-ItemsSet :
    {w : World} {done : List ℕ} {o : ℕ} {l : Option ℕ} {items : ℕ → List ℕ}
    {result : Option (Unit {0} × World)}
    → ItemsSet done w
    → In o done
    → Relocated w o l items result
    → Ends (λ _ w'. ItemsSet done w') result
moved-ItemsSet {w} {done} {o} {l} {items} s i a = record {
  value = tt;
  after = a.after;
  runs = a.runs;
  post = record {
    items = items;
    holds = a.holds;
    rooms = record {
      viewed = λ r h. subst IsSome (sym (a.stage.views r)) (s.rooms.viewed r h);
      lefts = λ r h. subst Leads (sym (a.stage.lefts r)) (s.rooms.lefts r h);
      enters = λ r h. subst Leads (sym (a.stage.enters r)) (s.rooms.enters r h);
      rights = λ r h. subst Leads (sym (a.stage.rights r)) (s.rooms.rights r h);
    };
    nameless = λ p away. a.stage.names p ∙ s.nameless p away;
    limbo = λ p away. elim (Bool-cases (o == p)) [
      | inl t ↦ absurd (away (subst (λ q. In q done) ((==_iff o p).0 t) i))
      | inr f ↦ a.moved p ∙ rw f (s.limbo p away)
    ];
    named = λ p k. subst IsSome (sym (a.stage.names p)) (s.named p k);
    drawn = λ p k. subst IsSome (sym (a.stage.images p)) (s.drawn p k);
  };
}

-- A new object.
abbrev fresh_object : ObjData → Image → Object
fresh_object d im = record {
  name = some (codes d.name);
  next = none;
  loc = none;
  x = 0;
  y = 0;
  img = some im;
}

fresh-ItemsSet :
    (d : ObjData) (im : Image) (done : List ℕ) (w : World)
    → ItemsSet done w
    → (In d.id done → ⊥)
    → ItemsSet (d.id ∷ done) (put_object d.id (fresh_object d im) w)
fresh-ItemsSet d im done w s fresh = record {
  items = s.items;
  holds = record {
    chained = λ r.
        Chain-frame w.object (put_object d.id (fresh_object d im) w).object (w.room r).contents
          (s.items r) (λ o i. rw (apart r o i) refl) (s.holds.chained r);
    distinct = s.holds.distinct;
    located = λ r o i. rw (apart r o i) (s.holds.located r o i);
    listed = λ r o h. elim (Bool-cases (d.id == o)) [
      | inl t ↦ absurd (cc (rw t at h))
      | inr f ↦ s.holds.listed r o (rw f at h)
    ];
    small = s.holds.small;
  };
  rooms = record {
    viewed = s.rooms.viewed;
    lefts = s.rooms.lefts;
    enters = s.rooms.enters;
    rights = s.rooms.rights;
  };
  nameless = λ o away. rw (other o away) (s.nameless o (λ k. away (inr k)));
  limbo = λ o away. rw (other o away) (s.limbo o (λ k. away (inr k)));
  named = λ o i. elim (Bool-cases (d.id == o)) [
    | inl t ↦ rw t tt
    | inr f ↦ rw f (s.named o (older o f i))
  ];
  drawn = λ o i. elim (Bool-cases (d.id == o)) [
    | inl t ↦ rw t tt
    | inr f ↦ rw f (s.drawn o (older o f i))
  ];
}
  where
    older : (o : ℕ) → (d.id == o) ≡ false → In o (d.id ∷ done) → In o done
    older o f (inl x) = absurd (ground (arith, f, x))
    older o f (inr i) = i

    other : (o : ℕ) → (In o (d.id ∷ done) → ⊥) → (d.id == o) ≡ false
    other o away = elim (Bool-cases (d.id == o)) [
      | inl t ↦ absurd (away (inl (sym ((==_iff d.id o).0 t))))
      | inr f ↦ f
    ]

    apart : (r o : ℕ) → In o (s.items r) → (d.id == o) ≡ false
    apart r o i = elim (Bool-cases (d.id == o)) [
      | inl t ↦ absurd (
          cc (
            s.holds.located r o i,
            subst (λ q. (w.object q).loc ≡ none) ((==_iff d.id o).0 t) (s.limbo d.id fresh),
          ))
      | inr f ↦ f
    ]

then_true :
    {P : World → Type 0} (m : M (Unit {0})) (w : World)
    → Ends (λ _ w'. P w') (m w)
    → Ends (λ b w'. (b ≡ true) × P w') ((m >> pure true) w)
then_true m w e =
    Ends-bind m (λ _. pure true) w e
      (λ _ w' p. record { value = true; after = w'; runs = refl; post = (refl, p) })

module _ (read_photo : String → Option Photo) (read_obj_image : String → Option Image)
    (photos : (f : String) → IsSome (read_photo f))
    (images : (f : String) → IsSome (read_obj_image f)) where
  -- The object goes to its room.
  put_in_room_lem :
      (d : ObjData) (done : List ℕ) (w : World) (room : Option ℕ) (place : Option (ℕ × ℕ))
      → ItemsSet done w
      → In d.id done
      → d.id < n_objects
      → InRooms room
      → Ends
          (λ b w'. (b ≡ true) × ItemsSet done w')
          (put_in_room read_photo read_obj_image (record d { room = room; place = place }) w)
  unfolding put_in_room
  put_in_room_lem d done w none place s i lt h = record {
    value = true;
    after = w;
    runs = refl;
    post = (refl, s);
  }
  put_in_room_lem d done w (some r) (some (x, y)) s i lt h =
      then_true (insert_object_at d.id r x y) w
        (moved-ItemsSet s i (insert_object_at_lem w s.items d.id r x y s.holds lt))
  put_in_room_lem d done w (some r) none s i lt h = then_true (insert_object d.id r) w (
      moved-ItemsSet s i
        (insert_object_known w s.items d.id r s.holds (s.rooms.viewed r h) (s.drawn d.id i) lt))

  set_up_object_lem :
      (d : ObjData) (done : List ℕ) (w : World)
      → ItemsSet done w
      → d.id < n_objects
      → (In d.id done → ⊥)
      → InRooms d.room
      → Ends
          (λ b w'. (b ≡ true) × ItemsSet (d.id ∷ done) w')
          (set_up_object read_photo read_obj_image d w)
  unfolding set_up_object
  set_up_object_lem d done w s lt fresh h =
      let (im, e) = IsSome-value (images d.filename) in
      rw (not_leb d.id n_objects lt, s.nameless d.id fresh, e)
        (put_in_room_lem d (d.id ∷ done) (put_object d.id (fresh_object d im) w) d.room d.place
          (fresh-ItemsSet d im done w s fresh) (inl refl) lt h)

  pub set_up_objects_lem :
      (ds : List ObjData) (done : List ℕ) (w : World)
      → ItemsSet done w
      → GoodObjects done ds
      → Ends
          (λ b w'. (b ≡ true) × ItemsSet (object_ids done ds) w')
          (set_up_objects read_photo read_obj_image ds w)
  unfolding set_up_objects
  set_up_objects_lem [] done w s g = record {
    value = true;
    after = w;
    runs = refl;
    post = (refl, s);
  }
  set_up_objects_lem (d ∷ ds) done w s g =
      Ends-bind (set_up_object read_photo read_obj_image d)
        (λ ok. if ok then set_up_objects read_photo read_obj_image ds else pure false) w
        (set_up_object_lem d done w s g.0 g.1 g.2)
        (λ b w' q. rw q.0 (set_up_objects_lem ds (d.id ∷ done) w' q.1 g.3))
