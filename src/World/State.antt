-- ===== src/World/State.antt =====
-- The variables of mp2/world.c as one record, and computations over it. A pointer into the array
-- `room` or `object` is an optional index, NULL being `none`. The record also holds what the
-- functions of that file reach outside it: the player's room (`game_info.where`, to which `rptr`
-- points), the status message, and the numbers that rand() will give.
use computer_systems_enginee.Base.{
  ℕ, suc, Bool, Option, none, some, Text, codes, take, ◌==◌, if◌then◌else◌, points_to, ◌≡◌,
}
use Prim.Native.String.{String}
use computer_systems_enginee.Photo.Types.{Photo, Image}

-- `struct room_t`
pub record Room : Type 0 where
  pub name : Option Text
  pub view : Option Photo
  pub contents : Option ℕ
  pub left : Option ℕ
  pub enter : Option ℕ
  pub right : Option ℕ

-- `struct object_t`
pub record Object : Type 0 where
  pub name : Option Text
  pub next : Option ℕ
  pub loc : Option ℕ
  pub x : ℕ
  pub y : ℕ
  pub img : Option Image

-- The file-scope variables. There are fewer than 32 flags, so they fill one word.
pub record World : Type 0 where
  pub room : ℕ → Room
  pub object : ℕ → Object
  pub player_flags : ℕ
  pub swap_photo : ℕ → Option Photo
  pub location : Option ℕ
  pub status_msg : Text
  pub dice : ℕ → ℕ
  pub rolls : ℕ

-- `tc_action_t`
pub data Action : Type 0 where
  allow_edit discard_text redraw_room change_room : Action

-- `none` is a fault: NULL is followed, or a loop does not end.
abbrev pub M : Type 0 → Type 0
M A = World → Option (A × World)

abbrev pub pure : {A : Type 0} → A → M A
pure a w = some (a, w)

abbrev pub fault : {A : Type 0} → M A
fault w = none

infixl 5 ◌>>=◌ ◌>>◌
abbrev pub ◌>>=◌ : {A B : Type 0} → M A → (A → M B) → M B
◌>>=◌ m f w = elim (m w) [ none ↦ none | some (a, w') ↦ f a w' ]

abbrev pub ◌>>◌ : {B : Type 0} → M (Unit {0}) → M B → M B
m >> k = m >>= λ _. k

abbrev pub get : M World
get w = some (w, w)

abbrev pub modify : (World → World) → M (Unit {0})
modify f w = some (tt, f w)

-- Following a pointer.
abbrev pub deref : {A : Type 0} → Option A → M A
deref none = fault
deref (some a) = pure a

abbrev pub update : {A : Type 0} → (ℕ → A) → ℕ → A → ℕ → A
update f i a j = if i == j then a else f j

abbrev pub put_room : ℕ → Room → World → World
put_room i r w = record w { room = update w.room i r }

abbrev pub put_object : ℕ → Object → World → World
put_object i o w = record w { object = update w.object i o }

abbrev pub status_msg_len : ℕ
status_msg_len = 40

-- `show_status`: strncpy of 40 characters, and a NUL after them.
unfoldable pub show_status : String → M (Unit {0})
show_status s = modify (λ w. record w { status_msg = take status_msg_len (codes s) })

-- `show_status (s); return a;`
unfoldable pub say : String → Action → M Action
say s a = do show_status s; pure a

-- `*rptr = r;`
unfoldable pub move_to : Option ℕ → M (Unit {0})
move_to r = modify (λ w. record w { location = r })

-- `rand ()`
unfoldable pub rand : M ℕ
rand w = some (w.dice w.rolls, record w { rolls = suc w.rolls })

-- `object[o].loc == &room[r]`
abbrev pub is_at : ℕ → ℕ → World → Bool
is_at o r w = points_to (w.object o).loc r

-- A step that ends hands over to the rest.
pub bind_eq :
    {A B : Type 0} (m : M A) (f : A → M B) (w w' : World) (a : A)
    → m w ≡ some (a, w')
    → (m >>= f) w ≡ f a w'
bind_eq m f w w' a e = rw (e, ◌>>=◌)
