-- ===== src/Adventure/Sanity.antt =====
-- `sanity_check` of mp2/adventure.c. A number of a command is one of the enumeration by its type, so
-- that the test of it is left out; the messages on stderr are too.
use computer_systems_enginee.Base.{
  ℕ, zero, suc, ◌≡◌, refl, Bool, true, false, ◌&&◌, ◌||◌, not, ltb, ◌==◌, if◌then◌else◌, List, [],
  ◌∷◌, codes, length,
}
use computer_systems_enginee.World.State.{update}
use computer_systems_enginee.World.Game.{
  Verb, tc_buy, tc_charge, tc_do, tc_drink, tc_drop, tc_fix, tc_flash, tc_get, tc_go, tc_install,
  tc_inventory, tc_sigh, tc_use, tc_wear,
}
use computer_systems_enginee.Adventure.Parser.{TypedCmd, cmd_list}

-- The number of a command in its enumeration.
abbrev tc_number : Verb → ℕ
tc_number tc_buy = 0
tc_number tc_charge = 1
tc_number tc_do = 2
tc_number tc_drink = 3
tc_number tc_drop = 4
tc_number tc_fix = 5
tc_number tc_flash = 6
tc_number tc_get = 7
tc_number tc_go = 8
tc_number tc_install = 9
tc_number tc_inventory = 10
tc_number tc_sigh = 11
tc_number tc_use = 12
tc_number tc_wear = 13

abbrev num_tc_values : ℕ
num_tc_values = 14

-- The first loop: whether every entry so far is in order, and the counts.
unfoldable pub check_entries : List TypedCmd → Bool → (ℕ → ℕ) → Bool × (ℕ → ℕ)
check_entries [] ret_val cnt = (ret_val, cnt)
check_entries (e ∷ es) ret_val cnt =
    let bad = check_entries es false cnt in
    let counted =
      check_entries es ret_val (update cnt (tc_number e.cmd) (suc (cnt (tc_number e.cmd)))) in
    if ltb e.min_len 1 || ltb (length (codes e.name)) e.min_len then bad else counted

-- The second loop, for `n` commands from number `idx` on.
unfoldable pub check_counts : ℕ → ℕ → (ℕ → ℕ) → Bool → Bool
check_counts zero idx cnt ret_val = ret_val
check_counts (suc n) idx cnt ret_val = check_counts n (suc idx) cnt (not (cnt idx == 0) && ret_val)

-- Whether `sanity_check` returns 0.
unfoldable pub sanity_check : List TypedCmd → Bool
unfolding check_entries check_counts
sanity_check es =
    let checked = check_entries es true (λ idx. 0) in
    check_counts num_tc_values 0 checked.1 checked.0

-- The list of commands passes.
pub sanity_check_passes : sanity_check cmd_list ≡ true
unfolding sanity_check
sanity_check_passes = refl
