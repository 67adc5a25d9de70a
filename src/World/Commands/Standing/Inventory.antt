-- ===== src/World/Commands/Standing/Inventory.antt =====
-- `inventory` of mp2/world.c ends and keeps the world well formed.
use computer_systems_enginee.Base.{
  ℕ, ◌≢◌, refl, sym, subst, inl, inr, some, arith, Text, ◌==◌, ==_iff, Bool-cases, IsSome-value,
}
use computer_systems_enginee.World.Ids.{r_inventory}
use computer_systems_enginee.World.State.{
  World, pure, ◌>>=◌, move_to, change_room, put_room, modify,
}
use computer_systems_enginee.World.Validity.{Ends, Leads, Holds-same}
use computer_systems_enginee.World.Commands.{typed_cmd_inventory}
use computer_systems_enginee.World.Commands.Rules.{
  Valid, pure-Keeps, bind-Keeps, move-Keeps, IsReady-enter, IsReady-move,
}
use computer_systems_enginee.World.Commands.Standing.Motions.{IsIn, IsIn-lt}

close_bag :
    (w : World)
    → IsIn r_inventory w
    → Ends Valid ((move_to (w.room r_inventory).enter >>= λ _. pure change_room) w)
close_bag w v =
    let (d, e) = IsSome-value (v.valid.ready.bag v.location) in
    let (h, ne) = subst Leads e (v.valid.ready.enters r_inventory (omega arith)) in
    rw e (
      (bind-Keeps (move_to (some d)) (λ _. pure change_room) (move-Keeps d h ne)
          (λ _. pure-Keeps change_room)).apply
        w v.valid)

-- The inventory's way out leads to `r`.
abbrev remember : ℕ → World → World
remember r w = put_room r_inventory (record (w.room r_inventory) { enter = some r }) w

open_bag :
    (r : ℕ) (w : World)
    → IsIn r w
    → r ≢ r_inventory
    → Ends Valid
        (((modify (remember r) >>= λ _. move_to (some r_inventory)) >>= λ _. pure change_room) w)
unfolding move_to
open_bag r w v ne = record {
  value = change_room;
  after = record (remember r w) { location = some r_inventory };
  runs = refl;
  post = record {
    items = v.valid.items;
    holds = Holds-same refl (λ s. ground arith) v.valid.holds;
    ready =
        IsReady-move (some r_inventory) (remember r w) (omega arith) (λ _. tt)
          (IsReady-enter r_inventory r w (IsIn-lt r w v) ne v.valid.ready);
  };
}

pub typed_cmd_inventory-Ends :
    (r : ℕ) (arg : Text) (w : World) → IsIn r w → Ends Valid (typed_cmd_inventory r arg w)
unfolding typed_cmd_inventory
typed_cmd_inventory-Ends r arg w v = elim (Bool-cases (r == r_inventory)) [
  | inl t ↦ rw t (
      subst (λ x. Ends Valid ((move_to (w.room x).enter >>= λ _. pure change_room) w))
        (sym ((==_iff r r_inventory).0 t))
        (close_bag w (subst (λ x. IsIn x w) ((==_iff r r_inventory).0 t) v)))
  | inr f ↦ rw f (open_bag r w v (λ e. absurd (ground (arith, e, f))))
]
