-- ===== src/World/Commands/Rules/Lists.antt =====
-- Rules for computations over the world of mp2/world.c that end and keep it well formed: how they are
-- put together, and the steps on the lists of objects.
use computer_systems_enginee.Base.{
  ℕ, ◌<◌, ◌≡◌, refl, ◌∙◌, Bool, true, false, Option, List, if◌then◌else◌,
}
use computer_systems_enginee.World.Ids.{n_rooms, n_objects}
use computer_systems_enginee.World.State.{World, M, pure, ◌>>=◌, get, modify, bind_eq}
use computer_systems_enginee.World.Objects.{
  remove_object, insert_object_at, insert_object, move_object_to_inventory,
}
use computer_systems_enginee.World.Objects.Holds.{Relocated}
use computer_systems_enginee.World.Objects.Removal.{remove_object_lem}
use computer_systems_enginee.World.Objects.Insertion.{insert_object_at_lem}
use computer_systems_enginee.World.Objects.Placement.{
  insert_object_lem, move_object_to_inventory_lem,
}
use computer_systems_enginee.World.Validity.{IsReady, IsReady-stage, IsValid, Holds-same, Ends}

abbrev pub Valid : {A : Type 0} → A → World → Type 0
Valid a w = IsValid w

-- From every well-formed world the computation ends, in a well-formed one.
pub record Keeps {A : Type 0} (m : M A) : Type 0 where
  pub apply : (w : World) → IsValid w → Ends Valid (m w)

pub Ends-bind :
    {A B : Type 0} {Q : A → World → Type 0} {R : B → World → Type 0} (m : M A) (f : A → M B)
    (w : World)
    → Ends Q (m w)
    → ((a : A) (w' : World) → Q a w' → Ends R (f a w'))
    → Ends R ((m >>= f) w)
Ends-bind m f w a k =
    let b = k a.value a.after a.post in
    record {
      value = b.value;
      after = b.after;
      runs = bind_eq m f w a.after a.value a.runs ∙ b.runs;
      post = b.post;
    }

pub pure-Keeps : {A : Type 0} (a : A) → Keeps (pure a)
pure-Keeps a = record { apply = λ w v. record { value = a; after = w; runs = refl; post = v } }

pub get-Keeps : Keeps get
get-Keeps = record { apply = λ w v. record { value = w; after = w; runs = refl; post = v } }

pub bind-Keeps :
    {A B : Type 0} (m : M A) (f : A → M B) → Keeps m → ((a : A) → Keeps (f a)) → Keeps (m >>= f)
bind-Keeps m f k l = record {
  apply = λ w v. Ends-bind m f w (k.apply w v) (λ a w' v'. (l a).apply w' v');
}

pub branch-Keeps :
    {A : Type 0} (b : Bool) (x y : M A) → Keeps x → Keeps y → Keeps (if b then x else y)
branch-Keeps true x y k l = k
branch-Keeps false x y k l = l

pub Relocated-Valid :
    {w : World} {o : ℕ} {l : Option ℕ} {items : ℕ → List ℕ} (result : Option (Unit {0} × World))
    → IsReady w
    → Relocated w o l items result
    → Ends Valid result
Relocated-Valid {items} result ready a = record {
  value = tt;
  after = a.after;
  runs = a.runs;
  post = record { items = items; holds = a.holds; ready = IsReady-stage a.stage ready };
}

pub remove-Keeps : (o : ℕ) → Keeps (remove_object o)
remove-Keeps o = record {
  apply =
      λ w v. Relocated-Valid (remove_object o w) v.ready (remove_object_lem w v.items o v.holds);
}

pub insert_at-Keeps : (o r x y : ℕ) → o < n_objects → Keeps (insert_object_at o r x y)
insert_at-Keeps o r x y h = record {
  apply = λ w v.
      Relocated-Valid (insert_object_at o r x y w) v.ready
        (insert_object_at_lem w v.items o r x y v.holds h);
}

pub insert-Keeps : (o r : ℕ) → o < n_objects → r < n_rooms → Keeps (insert_object o r)
insert-Keeps o r ho hr = record {
  apply = λ w v.
      Relocated-Valid (insert_object o r w) v.ready
        (insert_object_lem w v.items o r v.holds v.ready ho hr);
}

pub take-Keeps : (o : ℕ) → o < n_objects → Keeps (move_object_to_inventory o)
take-Keeps o h = record {
  apply = λ w v.
      Relocated-Valid (move_object_to_inventory o w) v.ready
        (move_object_to_inventory_lem w v.items o v.holds v.ready h);
}

-- A change of the world that leaves the objects and the lists alone.
pub modify-Keeps :
    (f : World → World)
    → ((w : World) → (f w).object ≡ w.object)
    → ((w : World) (r : ℕ) → ((f w).room r).contents ≡ (w.room r).contents)
    → ((w : World) → IsReady w → IsReady (f w))
    → Keeps (modify f)
modify-Keeps f o c r = record {
  apply = λ w v. record {
    value = tt;
    after = f w;
    runs = refl;
    post = record { items = v.items; holds = Holds-same (o w) (c w) v.holds; ready = r w v.ready };
  };
}
