-- ===== src/World/Commands/Standing/Get.antt =====
-- `get` of mp2/world.c, with the search for the object, ends and keeps the world well formed.
use Prim.Native.String.{String}
use computer_systems_enginee.Base.{
  ℕ, ◌<◌, ◌≡◌, refl, inl, inr, Bool, true, false, not, ◌&&◌, Option, none, some, arith, Text, ◌==◌,
  if◌then◌else◌, Bool-cases, same_word, codes,
}
use computer_systems_enginee.World.Ids.{
  n_objects, o_tux, flag_lured_tux, r_car_site, r_reserve, flag_has_eaten, o_batt_car, o_book_c,
  o_book_wode, o_batt_empty,
}
use computer_systems_enginee.World.State.{
  World, M, Action, pure, ◌>>=◌, get, show_status, allow_edit, discard_text, redraw_room, say,
  is_at,
}
use computer_systems_enginee.World.Objects.{
  find_in_room, obj_special_get, check_out, take_battery, player_flag_is_set, in_limbo,
  remove_object, move_object_to_inventory,
}
use computer_systems_enginee.World.Objects.Search.{first_named, find_in_room_lem}
use computer_systems_enginee.World.Validity.{IsValid, Ends}
use computer_systems_enginee.World.Commands.{typed_cmd_get, seek, grab, get_found}
use computer_systems_enginee.World.Commands.Rules.{
  Keeps, Valid, remove-Keeps, Ends-bind, pure-Keeps, get-Keeps, bind-Keeps, branch-Keeps,
  show-Keeps, say-Keeps, take-Keeps,
}
use computer_systems_enginee.World.Commands.Standing.Motions.{IsIn}
use computer_systems_enginee.World.Commands.Standing.Drop.{standing-some, found_lt}

-- What a search may give: nothing, or an object of the game.
abbrev pub Found : Option ℕ → World → Type 0
Found none w = IsValid w
Found (some o) w = IsValid w × (o < n_objects)

Found-IsValid : (p : Option ℕ) (w : World) → Found p w → IsValid w
Found-IsValid none w h = h
Found-IsValid (some o) w h = h.0

book-Ends :
    (b : Bool) (o : ℕ) (s : String) (w : World)
    → o < n_objects
    → IsValid w
    → Ends Found ((if b then (show_status s >>= λ _. pure (some o)) else pure none) w)
book-Ends true o s w h v =
    Ends-bind (show_status s) (λ _. pure (some o)) w ((show-Keeps s).apply w v)
      (λ _ w1 v1. record { value = some o; after = w1; runs = refl; post = (v1, h) })
book-Ends false o s w h v = record { value = none; after = w; runs = refl; post = v }

battery-Ends : (r : ℕ) (w0 w : World) → IsValid w → Ends Found (take_battery r w0 w)
unfolding take_battery
battery-Ends r w0 w v = elim (Bool-cases (r == r_car_site && is_at o_batt_car r w0)) [
  | inl t ↦ rw t (
      Ends-bind (remove_object o_batt_car) (λ _. pure (some o_batt_empty)) w
        ((remove-Keeps o_batt_car).apply w v)
        (λ _ w1 v1. record {
          value = some o_batt_empty;
          after = w1;
          runs = refl;
          post = (v1, omega arith);
        }))
  | inr f ↦ rw f (record { value = none; after = w; runs = refl; post = v })
]

check_out-Ends : (w0 w : World) → IsValid w → Ends Found (check_out w0 w)
unfolding check_out
check_out-Ends w0 w v = elim (Bool-cases (player_flag_is_set flag_has_eaten w0)) [
  | inl t ↦
      rw t (book-Ends (in_limbo o_book_c w0) o_book_c "You check out the C book." w (omega arith) v)
  | inr f ↦ rw f (
      book-Ends (in_limbo o_book_wode w0) o_book_wode "Here's a nice Wodehouse collection." w
        (omega arith) v)
]

shelf-Ends :
    (b : Bool) (w0 w : World) → IsValid w → Ends Found ((if b then check_out w0 else pure none) w)
shelf-Ends true w0 w v = check_out-Ends w0 w v
shelf-Ends false w0 w v = record { value = none; after = w; runs = refl; post = v }

special_rest :
    (r : ℕ) (w0 : World) (p : Option ℕ) (w : World)
    → Found p w
    → Ends Found
        ((elim p as (λ _. M (Option ℕ)) [ some o ↦ pure (some o) | none ↦ take_battery r w0 ]) w)
special_rest r w0 none w h = battery-Ends r w0 w h
special_rest r w0 (some o) w h = record { value = some o; after = w; runs = refl; post = h }

special-Ends : (r : ℕ) (arg : Text) (w : World) → IsValid w → Ends Found (obj_special_get r arg w)
unfolding obj_special_get
special-Ends r arg w v =
    Ends-bind (if r == r_reserve && same_word (codes "book") arg then check_out w else pure none)
      (λ p. elim p [ some o ↦ pure (some o) | none ↦ take_battery r w ]) w
      (shelf-Ends (r == r_reserve && same_word (codes "book") arg) w w v) (special_rest r w)

find-Ends : (r : ℕ) (arg : Text) (w : World) → IsValid w → Ends Found (find_in_room r arg w)
find-Ends r arg w v = record {
  value = first_named w arg (v.items r);
  after = w;
  runs = find_in_room_lem w v.items r arg v.holds v.ready.named;
  post = found (first_named w arg (v.items r)) refl;
}
  where
    found : (p : Option ℕ) → first_named w arg (v.items r) ≡ p → Found p w
    found none e = v
    found (some o) e = (v, found_lt w v r o arg e)

seek_rest :
    (r : ℕ) (arg : Text) (p : Option ℕ) (w : World)
    → Found p w
    → Ends Found
        ((elim p as (λ _. M (Option ℕ)) [ some o ↦ pure (some o) | none ↦ find_in_room r arg ]) w)
seek_rest r arg none w h = find-Ends r arg w h
seek_rest r arg (some o) w h = record { value = some o; after = w; runs = refl; post = h }

-- The search of `get` ends; what it finds is an object of the game.
pub seek-Ends : (r : ℕ) (arg : Text) (w : World) → IsValid w → Ends Found (seek r arg w)
unfolding seek
seek-Ends r arg w v =
    Ends-bind (obj_special_get r arg)
      (λ p. elim p [ some o ↦ pure (some o) | none ↦ find_in_room r arg ]) w
      (special-Ends r arg w v) (seek_rest r arg)

grab-Keeps : (o : ℕ) (w : World) → o < n_objects → Keeps (grab o w)
unfolding grab
grab-Keeps o w h =
    branch-Keeps (o == o_tux && not (player_flag_is_set flag_lured_tux w)) _ _
      (say-Keeps "Tux must choose you!  Try using a fish." discard_text)
      (bind-Keeps (move_object_to_inventory o) (λ _. pure redraw_room) (take-Keeps o h)
        (λ _. pure-Keeps redraw_room))

get_found-Keeps : (o : ℕ) → o < n_objects → Keeps (get_found o)
unfolding get_found
get_found-Keeps o h = bind-Keeps get (grab o) get-Keeps (λ w. grab-Keeps o w h)

get_rest :
    (p : Option ℕ) (w : World)
    → Found p w
    → Ends Valid (
        (elim p as (λ _. M Action) [
          | none ↦ say "You see no such thing here." allow_edit
          | some obj ↦ get_found obj
        ])
          w)
get_rest none w h = (say-Keeps "You see no such thing here." allow_edit).apply w h
get_rest (some o) w h = (get_found-Keeps o h.1).apply w h.0

pub typed_cmd_get-Ends :
    (r : ℕ) (arg : Text) (w : World) → IsIn r w → Ends Valid (typed_cmd_get r arg w)
unfolding typed_cmd_get
typed_cmd_get-Ends r arg w v =
    let (d, e, hd) = standing-some r w v in
    rw e (
      Ends-bind (seek d arg)
        (λ p. elim p [
          | none ↦ say "You see no such thing here." allow_edit
          | some obj ↦ get_found obj
        ])
        w (seek-Ends d arg w v.valid) get_rest)
