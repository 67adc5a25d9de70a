-- ===== src/World/Objects/Placement.antt =====
-- Where `insert_object` and `move_object_to_inventory` of mp2/world.c put an object.
use computer_systems_enginee.Base.{
  ℕ, suc, ◌+◌, ◌-◌, ◌*◌, ◌/◌, ◌%◌, ◌<◌, ◌≤◌, ◌≡◌, refl, ◌∙◌, inl, inr, Option, some, List, [], ◌∷◌,
  arith, leb, Bool-cases, IsSome, IsSome-value,
}
use computer_systems_enginee.Photo.Types.{
  Photo, Image, photo_width, photo_height, image_width, image_height,
}
use computer_systems_enginee.World.Ids.{n_rooms, n_objects, r_inventory}
use computer_systems_enginee.World.State.{World, ◌>>=◌, deref, rand, bind_eq}
use computer_systems_enginee.World.Objects.{
  random_below, random_row, insert_object_at, insert_object, grid, first_free,
  move_object_to_inventory,
}
use computer_systems_enginee.World.Objects.Holds.{Holds, SameStage, SameStage-trans, Relocated}
use computer_systems_enginee.World.Objects.Removal.{without}
use computer_systems_enginee.World.Objects.Insertion.{cons_at, insert_object_at_lem}
use computer_systems_enginee.World.Objects.Search.{stands_at, occupied_lem}
use computer_systems_enginee.World.Validity.{IsReady, Holds-same}

-- The world after `k` calls of rand() in all.
abbrev pub spun : ℕ → World → World
spun k w = record w { rolls = k }

pub spun-SameStage : (k : ℕ) (w : World) → SameStage w (spun k w)
spun-SameStage k w = record {
  views = λ s. refl;
  lefts = λ s. refl;
  enters = λ s. refl;
  rights = λ s. refl;
  names = λ p. refl;
  images = λ p. refl;
  swaps = λ i. refl;
  flags = refl;
  player = refl;
}

-- A coordinate drawn at random, and that rolling the dice is all that drawing it does.
record Drawn (w : World) (part size : ℕ) (result : Option (ℕ × World)) : Type 0 where
  value : ℕ
  count : ℕ
  runs : result ≡ some (value, spun count w)
  fits : part ≤ size → value + part ≤ size
  clipped : size ≤ part → value ≡ 0

random_below-Drawn : (w : World) (size part : ℕ) → Drawn w part size (random_below size part w)
unfolding random_below rand
random_below-Drawn w size part = elim (Bool-cases (leb size part)) [
  | inl t ↦ record {
    value = 0;
    count = w.rolls;
    runs = rw t;
    fits = λ h. omega arith;
    clipped = λ h. refl;
  }
  | inr f ↦ record {
    value = w.dice w.rolls % (size - part);
    count = suc w.rolls;
    runs = rw f;
    fits = λ h. ground arith;
    clipped = λ h. ground arith;
  }
]

random_row-Drawn : (w : World) (space img_ht : ℕ) → Drawn w img_ht space (random_row space img_ht w)
unfolding random_row rand
random_row-Drawn w space img_ht = elim (Bool-cases (leb (space / 4) img_ht)) [
  | inl t ↦ rw t (random_below-Drawn w space img_ht)
  | inr f ↦ record {
    value = w.dice w.rolls % (space / 4 - img_ht) + (3 * space) / 4;
    count = suc w.rolls;
    runs = rw f;
    fits = λ h. ground arith;
    clipped = λ h. ground arith;
  }
]

-- `insert_object` puts the object at a place of the room's photo: inside it, if the photo has room
-- for the object.
pub record Scattered (w : World) (o r : ℕ) (view : Photo) (im : Image) : Type 0 where
  pub x : ℕ
  pub y : ℕ
  pub count : ℕ
  pub runs : insert_object o r w ≡ insert_object_at o r x y (record w { rolls = count })
  pub fits_x : image_width im ≤ photo_width view → x + image_width im ≤ photo_width view
  pub fits_y : image_height im ≤ photo_height view → y + image_height im ≤ photo_height view

deref_eq :
    {A B : Type 0} (p : Option A) (a : A) (f : A → World → Option (B × World)) (w : World)
    → p ≡ some a
    → (deref p >>= f) w ≡ f a w
deref_eq p a f w e = rw e

-- Where the room has a photo and the object an image, insert_object is insert_object_at at some
-- place, after some calls of rand; along each side on which the image is no longer than the photo,
-- it lies inside the photo.
pub insert_object-Scattered :
    (w : World) (o r : ℕ) (view : Photo) (im : Image)
    → (w.room r).view ≡ some view
    → (w.object o).img ≡ some im
    → Scattered w o r view im
unfolding insert_object
insert_object-Scattered w o r view im ev ei =
    let across = random_below-Drawn w (photo_width view) (image_width im) in
    let w1 = spun across.count w in
    let down = random_row-Drawn w1 (photo_height view) (image_height im) in
    record {
      x = across.value;
      y = down.value;
      count = down.count;
      runs =
          rw (ev, ei)
            (bind_eq (random_below (photo_width view) (image_width im))
                (λ xpos. random_row (photo_height view) (image_height im) >>= λ ypos.
                  insert_object_at o r xpos ypos)
                w w1 across.value across.runs
              ∙ bind_eq (random_row (photo_height view) (image_height im))
                  (λ ypos. insert_object_at o r across.value ypos) w1 (spun down.count w) down.value
                  down.runs);
      fits_x = across.fits;
      fits_y = down.fits;
    }

-- An operation that ends as one does from a world whose dice stand elsewhere.
respun :
    {w : World} {o : ℕ} {l : Option ℕ} {items : ℕ → List ℕ} (k : ℕ)
    (m n : Option (Unit {0} × World))
    → m ≡ n
    → Relocated (spun k w) o l items n
    → Relocated w o l items m
respun {w} k m n e a = record {
  after = a.after;
  runs = e ∙ a.runs;
  holds = a.holds;
  stage = SameStage-trans (spun-SameStage k w) a.stage;
  moved = a.moved;
}

-- `insert_object` where the room has a photo and the object an image.
pub insert_object_known :
    (w : World) (items : ℕ → List ℕ) (o r : ℕ)
    → Holds w items
    → IsSome (w.room r).view
    → IsSome (w.object o).img
    → o < n_objects
    → Relocated w o (some r) (cons_at o r (without o items)) (insert_object o r w)
insert_object_known w items o r v view im ho =
    let (p, ev) = IsSome-value view in
    let (i, ei) = IsSome-value im in
    let s = insert_object-Scattered w o r p i ev ei in
    respun s.count (insert_object o r w) (insert_object_at o r s.x s.y (spun s.count w)) s.runs
      (insert_object_at_lem (spun s.count w) items o r s.x s.y (Holds-same refl (λ q. refl) v) ho)

-- In a ready world whose linked lists are the sequences in `items`, insert_object ends for an
-- object and a room of the game, and puts the object first into the sequence of the room; no other
-- object moves.
pub insert_object_lem :
    (w : World) (items : ℕ → List ℕ) (o r : ℕ)
    → Holds w items
    → IsReady w
    → o < n_objects
    → r < n_rooms
    → Relocated w o (some r) (cons_at o r (without o items)) (insert_object o r w)
insert_object_lem w items o r v ready ho hr =
    insert_object_known w items o r v (ready.viewed r hr) (ready.drawn o ho) ho

first_free_lem :
    (places : List (ℕ × ℕ)) (w : World) (items : ℕ → List ℕ) (o : ℕ)
    → Holds w items
    → IsReady w
    → o < n_objects
    → Relocated w o
        (some r_inventory)
        (cons_at o r_inventory (without o items))
        (first_free places o w)
unfolding first_free
first_free_lem [] w items o v ready ho =
    insert_object_lem w items o r_inventory v ready ho (omega arith)
first_free_lem ((x, y) ∷ places) w items o v ready ho =
    rw (occupied_lem w items r_inventory x y v, ◌>>=◌)
      (elim (Bool-cases (stands_at w x y (items r_inventory))) [
        | inl t ↦ rw t (first_free_lem places w items o v ready ho)
        | inr f ↦ rw f (insert_object_at_lem w items o r_inventory x y v ho)
      ])

-- In a ready world whose linked lists are the sequences in `items`, move_object_to_inventory ends
-- for an object of the game, and puts it first into the inventory; no other object moves.
pub move_object_to_inventory_lem :
    (w : World) (items : ℕ → List ℕ) (o : ℕ)
    → Holds w items
    → IsReady w
    → o < n_objects
    → Relocated w o
        (some r_inventory)
        (cons_at o r_inventory (without o items))
        (move_object_to_inventory o w)
unfolding move_object_to_inventory
move_object_to_inventory_lem w items o v ready ho = first_free_lem grid w items o v ready ho
