-- ===== src/World/Objects/Holds.antt =====
-- The abstract view of the object lists of mp2/world.c: which objects each room holds, in order. Also
-- what the operations on the lists leave alone.
use computer_systems_enginee.Base.{
  ℕ, ◌≡◌, refl, ◌∙◌, Option, some, List, In, Distinct, AllBelow, ◌==◌, if◌then◌else◌,
}
use computer_systems_enginee.World.Ids.{n_objects}
use computer_systems_enginee.World.State.{World}
use computer_systems_enginee.World.Objects.Chains.{Chain}

-- Each room's linked list is `items` of the room, and an object's `loc` is the room that lists it.
pub record Holds (w : World) (items : ℕ → List ℕ) : Type 0 where
  pub chained : (r : ℕ) → Chain w.object (w.room r).contents (items r)
  pub distinct : (r : ℕ) → Distinct (items r)
  pub located : (r o : ℕ) → In o (items r) → (w.object o).loc ≡ some r
  pub listed : (r o : ℕ) → (w.object o).loc ≡ some r → In o (items r)
  pub small : (r : ℕ) → AllBelow n_objects (items r)

-- Two worlds that differ in the lists, the positions, the message and the dice alone.
pub record SameStage (w w' : World) : Type 0 where
  pub views : (r : ℕ) → (w'.room r).view ≡ (w.room r).view
  pub lefts : (r : ℕ) → (w'.room r).left ≡ (w.room r).left
  pub enters : (r : ℕ) → (w'.room r).enter ≡ (w.room r).enter
  pub rights : (r : ℕ) → (w'.room r).right ≡ (w.room r).right
  pub names : (o : ℕ) → (w'.object o).name ≡ (w.object o).name
  pub images : (o : ℕ) → (w'.object o).img ≡ (w.object o).img
  pub swaps : (i : ℕ) → w'.swap_photo i ≡ w.swap_photo i
  pub flags : w'.player_flags ≡ w.player_flags
  pub player : w'.location ≡ w.location

pub SameStage-refl : (w : World) → SameStage w w
SameStage-refl w = record {
  views = λ r. refl;
  lefts = λ r. refl;
  enters = λ r. refl;
  rights = λ r. refl;
  names = λ o. refl;
  images = λ o. refl;
  swaps = λ i. refl;
  flags = refl;
  player = refl;
}

pub SameStage-trans : {u v w : World} → SameStage u v → SameStage v w → SameStage u w
SameStage-trans s t = record {
  views = λ r. t.views r ∙ s.views r;
  lefts = λ r. t.lefts r ∙ s.lefts r;
  enters = λ r. t.enters r ∙ s.enters r;
  rights = λ r. t.rights r ∙ s.rights r;
  names = λ o. t.names o ∙ s.names o;
  images = λ o. t.images o ∙ s.images o;
  swaps = λ i. t.swaps i ∙ s.swaps i;
  flags = t.flags ∙ s.flags;
  player = t.player ∙ s.player;
}

-- An operation that ends in `after`, with the object `o` put to `l` and no other object moved.
pub record Relocated (w : World) (o : ℕ) (l : Option ℕ) (items : ℕ → List ℕ)
    (result : Option (Unit {0} × World)) : Type 0 where
  pub after : World
  pub runs : result ≡ some (tt, after)
  pub holds : Holds after items
  pub stage : SameStage w after
  pub moved : (p : ℕ) → (after.object p).loc ≡ (if o == p then l else (w.object p).loc)
