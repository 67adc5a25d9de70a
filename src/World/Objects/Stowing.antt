-- ===== src/World/Objects/Stowing.antt =====
-- Which place `move_object_to_inventory` of mp2/world.c gives an object.
use computer_systems_enginee.Base.{
  ℕ, zero, suc, ◌+◌, ◌*◌, ◌/◌, ◌%◌, ◌<◌, ◌≡◌, Bool, true, false, Option, some, List, [], ◌∷◌,
}
use computer_systems_enginee.World.Ids.{r_inventory}
use computer_systems_enginee.World.State.{World}
use computer_systems_enginee.World.Objects.{insert_object}
use computer_systems_enginee.World.Objects.Holds.{Holds, Relocated}
use computer_systems_enginee.World.Objects.Removal.{without}
use computer_systems_enginee.World.Objects.Insertion.{cons_at}
use computer_systems_enginee.World.Objects.Search.{stands_at}

-- The places of the inventory: three in a row, from left to right, and four rows.
abbrev pub slot_x : ℕ → ℕ
slot_x k = 10 + 100 * (k % 3)

abbrev pub slot_y : ℕ → ℕ
slot_y k = 10 + 50 * (k / 3)

-- Whether an object of the list stands in slot `k`.
abbrev pub is_taken : World → List ℕ → ℕ → Bool
is_taken w l k = stands_at w (slot_x k) (slot_y k) l

-- `n` slots from number `j` on.
slots : ℕ → ℕ → List (ℕ × ℕ)
slots zero j = []
slots (suc n) j = (slot_x j, slot_y j) ∷ slots n (suc j)

-- The object is the first of the inventory, in the first of the twelve slots in which no object of
-- the inventory stands; if there is none, it is put where insert_object puts it.
pub record Stowed (w : World) (o : ℕ) (items : ℕ → List ℕ) (result : Option (Unit {0} × World))
    : Type 0 where
  pub relocated : Relocated w o (some r_inventory) (cons_at o r_inventory (without o items)) result
  pub placed :
      (k : ℕ)
      → k < 12
      → ((i : ℕ) → i < k → is_taken w (items r_inventory) i ≡ true)
      → is_taken w (items r_inventory) k ≡ false
      → ((relocated.after.object o).x ≡ slot_x k) × ((relocated.after.object o).y ≡ slot_y k)
  pub scattered :
      ((i : ℕ) → i < 12 → is_taken w (items r_inventory) i ≡ true)
      → result ≡ insert_object o r_inventory w
