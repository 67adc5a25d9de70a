-- ===== src/World/Validity.antt =====
-- When a world of mp2/world.c is well formed: its lists are lists, what it needs is loaded, and its
-- pointers lead into its arrays.
use computer_systems_enginee.Base.{
  ℕ, ◌<◌, ◌≡◌, ◌≢◌, sym, subst, ◌∙◌, Option, none, some, List, IsSome,
}
use computer_systems_enginee.World.Ids.{n_rooms, n_objects, n_swaps, r_inventory}
use computer_systems_enginee.World.State.{World}
use computer_systems_enginee.World.Objects.Holds.{Holds, SameStage}

-- NULL, or a pointer to a room.
abbrev pub InRooms : Option ℕ → Type 0
InRooms none = Unit {0}
InRooms (some r) = r < n_rooms

-- No way leads into the inventory.
abbrev pub Leads : Option ℕ → Type 0
Leads none = Unit {0}
Leads (some r) = (r < n_rooms) × (r ≢ r_inventory)

-- A player who looks at the inventory came from some room.
pub record IsReady (w : World) : Type 0 where
  pub named : (o : ℕ) → o < n_objects → IsSome (w.object o).name
  pub drawn : (o : ℕ) → o < n_objects → IsSome (w.object o).img
  pub viewed : (r : ℕ) → r < n_rooms → IsSome (w.room r).view
  pub swappable : (i : ℕ) → i < n_swaps → IsSome (w.swap_photo i)
  pub lefts : (r : ℕ) → r < n_rooms → Leads (w.room r).left
  pub enters : (r : ℕ) → r < n_rooms → Leads (w.room r).enter
  pub rights : (r : ℕ) → r < n_rooms → Leads (w.room r).right
  pub here : InRooms w.location
  pub bag : w.location ≡ some r_inventory → IsSome (w.room r_inventory).enter

pub record IsValid (w : World) : Type 0 where
  pub items : ℕ → List ℕ
  pub holds : Holds w items
  pub ready : IsReady w

pub IsReady-stage : {w w' : World} → SameStage w w' → IsReady w → IsReady w'
IsReady-stage s v = record {
  named = λ o h. subst IsSome (sym (s.names o)) (v.named o h);
  drawn = λ o h. subst IsSome (sym (s.images o)) (v.drawn o h);
  viewed = λ r h. subst IsSome (sym (s.views r)) (v.viewed r h);
  swappable = λ i h. subst IsSome (sym (s.swaps i)) (v.swappable i h);
  lefts = λ r h. subst Leads (sym (s.lefts r)) (v.lefts r h);
  enters = λ r h. subst Leads (sym (s.enters r)) (v.enters r h);
  rights = λ r h. subst Leads (sym (s.rights r)) (v.rights r h);
  here = subst InRooms (sym s.player) v.here;
  bag = λ e. subst IsSome (sym (s.enters r_inventory)) (v.bag (sym s.player ∙ e));
}

-- The lists are those of the objects and the rooms alone.
pub Holds-same :
    {w w' : World} {items : ℕ → List ℕ}
    → w'.object ≡ w.object
    → ((r : ℕ) → (w'.room r).contents ≡ (w.room r).contents)
    → Holds w items
    → Holds w' items
Holds-same {w} {w'} {items} e c v = record {
  chained = λ r. rw (e, c r) (v.chained r);
  distinct = v.distinct;
  located = λ r o i. rw e (v.located r o i);
  listed = λ r o l. v.listed r o (rw e at l);
  small = v.small;
}

-- A computation that ends, with a result and a world of which `Q` holds.
pub record Ends {A : Type 0} (Q : A → World → Type 0) (result : Option (A × World)) : Type 0 where
  pub value : A
  pub after : World
  pub runs : result ≡ some (value, after)
  pub post : Q value after
