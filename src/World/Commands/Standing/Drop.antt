-- ===== src/World/Commands/Standing/Drop.antt =====
-- `drop` of mp2/world.c ends and keeps the world well formed.
use Prim.Native.String.{String}
use computer_systems_enginee.Base.{
  ℕ, ◌<◌, ◌≡◌, refl, subst, ap, ◌∙◌, inl, inr, Bool, true, false, Option, none, some, List, [], ◌∷◌,
  arith, Text, In, AllBelow, ◌==◌, ==_iff, if◌then◌else◌, Bool-cases, IsSome-value, take, codes,
}
use computer_systems_enginee.World.Ids.{n_rooms, n_objects, r_inventory}
use computer_systems_enginee.World.State.{
  World, M, Action, pure, ◌>>=◌, show_status, allow_edit, redraw_room, say,
}
use computer_systems_enginee.World.Objects.{insert_object}
use computer_systems_enginee.World.Objects.Search.{first_named, find_in_room_lem, In-first_named}
use computer_systems_enginee.World.Validity.{IsValid, Ends, Leads, Holds-same}
use computer_systems_enginee.World.Commands.{
  typed_cmd_drop, standing, drop_found, put_down, seems_to_install,
}
use computer_systems_enginee.World.Commands.Rules.{
  Valid, IsReady-status, Ends-bind, pure-Keeps, bind-Keeps, say-Keeps, insert-Keeps,
}
use computer_systems_enginee.World.Commands.Standing.Motions.{IsIn, IsIn-lt}

-- The room in which the player stands is a room.
pub standing-some :
    (r : ℕ) (w : World) → IsIn r w → (d : ℕ) × (standing r w ≡ some d) × (d < n_rooms)
standing-some r w v = elim (Bool-cases (r == r_inventory)) [
  | inl t ↦
      let e : w.location ≡ some r_inventory = v.location ∙ ap some ((==_iff r r_inventory).0 t) in
      let (d, ed) = IsSome-value (v.valid.ready.bag e) in
      (d, rw t ed, (subst Leads ed (v.valid.ready.enters r_inventory (omega arith))).0)
  | inr f ↦ (r, rw f, IsIn-lt r w v)
]

lt_of_In : (n o : ℕ) (l : List ℕ) → AllBelow n l → In o l → o < n
lt_of_In n o [] b i = absurd i
lt_of_In n o (x ∷ l) b (inl e) = rw e b.0
lt_of_In n o (x ∷ l) b (inr k) = lt_of_In n o l b.1 k

pub found_lt :
    (w : World) (v : IsValid w) (r o : ℕ) (arg : Text)
    → first_named w arg (v.items r) ≡ some o
    → o < n_objects
found_lt w v r o arg e =
    lt_of_In n_objects o (v.items r) (v.holds.small r) (In-first_named w arg (v.items r) o e).0

IsIn-status : (t : Text) (r : ℕ) (w : World) → IsIn r w → IsIn r (record w { status_msg = t })
IsIn-status t r w v = record {
  valid = record {
    items = v.valid.items;
    holds = Holds-same refl (λ s. refl) v.valid.holds;
    ready = IsReady-status t w v.valid.ready;
  };
  location = v.location;
}

-- A message leaves the player in the room.
hint-Ends :
    (b : Bool) (s : String) (r : ℕ) (w : World)
    → IsIn r w
    → Ends (λ _ w'. IsIn r w') ((if b then show_status s else pure tt) w)
unfolding show_status
hint-Ends true s r w v = record {
  value = tt;
  after = record w { status_msg = take 40 (codes s) };
  runs = refl;
  post = IsIn-status (take 40 (codes s)) r w v;
}
hint-Ends false s r w v = record { value = tt; after = w; runs = refl; post = v }

put_down-Ends : (r obj : ℕ) (w : World) → obj < n_objects → IsIn r w → Ends Valid (put_down r obj w)
unfolding put_down
put_down-Ends r obj w h v =
    let (d, e, hd) = standing-some r w v in
    rw e (
      (bind-Keeps (insert_object obj d) (λ _. pure redraw_room) (insert-Keeps obj d h hd)
          (λ _. pure-Keeps redraw_room)).apply
        w v.valid)

drop-Ends : (r obj : ℕ) (w : World) → obj < n_objects → IsIn r w → Ends Valid (drop_found r obj w)
unfolding drop_found
drop-Ends r obj w h v =
    Ends-bind
      (if seems_to_install obj r
        then show_status "You may want to install it instead."
        else pure tt)
      (λ _. put_down r obj) w
      (hint-Ends (seems_to_install obj r) "You may want to install it instead." r w v)
      (λ _ w1 v1. put_down-Ends r obj w1 h v1)

pub typed_cmd_drop-Ends :
    (r : ℕ) (arg : Text) (w : World) → IsIn r w → Ends Valid (typed_cmd_drop r arg w)
unfolding typed_cmd_drop
typed_cmd_drop-Ends r arg w v =
    rw (find_in_room_lem w v.valid.items r_inventory arg v.valid.holds v.valid.ready.named, ◌>>=◌)
      (found (first_named w arg (v.valid.items r_inventory)) refl)
  where
    found :
        (p : Option ℕ)
        → first_named w arg (v.valid.items r_inventory) ≡ p
        → Ends Valid (
            (elim p as (λ _. M Action) [
              | none ↦ say "You have no such thing." allow_edit
              | some obj ↦ drop_found r obj
            ])
              w)
    found none e = (say-Keeps "You have no such thing." allow_edit).apply w v.valid
    found (some obj) e = drop-Ends r obj w (found_lt w v.valid r_inventory obj arg e) v
