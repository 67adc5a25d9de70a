-- ===== src/World/Commands/Total.antt =====
-- Each command of mp2/world.c whose objects and rooms are fixed ends, from every well-formed world,
-- and keeps the world well formed.
use computer_systems_enginee.Base.{ℕ, ◌<◌, ◌≡◌, Text, arith, true, ltb, ◌&&◌}
use computer_systems_enginee.World.Motion.{pass_to}
use computer_systems_enginee.World.Commands.{
  typed_cmd_buy, typed_cmd_charge, typed_cmd_do, typed_cmd_drink, typed_cmd_sigh, typed_cmd_fix,
  typed_cmd_flash, typed_cmd_install, typed_cmd_go, typed_cmd_use, typed_cmd_wear, open_sky,
}
use computer_systems_enginee.World.Commands.Rules.{Keeps, steps, enter-Keeps}
use computer_systems_enginee.World.Ids.{n_rooms, r_cockpit, r_over_will}

pub pass_named : (d : ℕ) → ltb d n_rooms && ltb 0 d ≡ true → Keeps (pass_to d)
unfolding pass_to
pass_named d h = search steps depth 6

open_sky-Keeps : Keeps open_sky
unfolding open_sky
open_sky-Keeps = enter-Keeps r_cockpit r_over_will (omega arith) (omega arith)

pub typed_cmd_buy-Keeps : (r : ℕ) (arg : Text) → Keeps (typed_cmd_buy r arg)
unfolding typed_cmd_buy
typed_cmd_buy-Keeps r arg = search steps depth 20

pub typed_cmd_charge-Keeps : (r : ℕ) (arg : Text) → Keeps (typed_cmd_charge r arg)
unfolding typed_cmd_charge
typed_cmd_charge-Keeps r arg = search steps depth 20

pub typed_cmd_do-Keeps : (r : ℕ) (arg : Text) → Keeps (typed_cmd_do r arg)
unfolding typed_cmd_do
typed_cmd_do-Keeps r arg = search steps depth 20

pub typed_cmd_drink-Keeps : (r : ℕ) (arg : Text) → Keeps (typed_cmd_drink r arg)
unfolding typed_cmd_drink
typed_cmd_drink-Keeps r arg = search steps depth 20

pub typed_cmd_sigh-Keeps : (r : ℕ) (arg : Text) → Keeps (typed_cmd_sigh r arg)
unfolding typed_cmd_sigh
typed_cmd_sigh-Keeps r arg = search steps depth 20

pub typed_cmd_fix-Keeps : (r : ℕ) (arg : Text) → Keeps (typed_cmd_fix r arg)
unfolding typed_cmd_fix
typed_cmd_fix-Keeps r arg = search steps depth 20

pub typed_cmd_flash-Keeps : (r : ℕ) (arg : Text) → Keeps (typed_cmd_flash r arg)
unfolding typed_cmd_flash
typed_cmd_flash-Keeps r arg = search steps depth 20

pub typed_cmd_install-Keeps : (r : ℕ) (arg : Text) → r < n_rooms → Keeps (typed_cmd_install r arg)
unfolding typed_cmd_install
typed_cmd_install-Keeps r arg h = search (steps, open_sky-Keeps) depth 20

pub typed_cmd_go-Keeps : (r : ℕ) (arg : Text) → Keeps (typed_cmd_go r arg)
unfolding typed_cmd_go
typed_cmd_go-Keeps r arg = search (steps, pass_named) depth 20

pub typed_cmd_use-Keeps : (r : ℕ) (arg : Text) → r < n_rooms → Keeps (typed_cmd_use r arg)
unfolding typed_cmd_use
typed_cmd_use-Keeps r arg h = search steps depth 20

pub typed_cmd_wear-Keeps : (r : ℕ) (arg : Text) → Keeps (typed_cmd_wear r arg)
unfolding typed_cmd_wear
typed_cmd_wear-Keeps r arg = search steps depth 20
