-- ===== src/Adventure/Parser.antt =====
-- How `handle_typing` of mp2/adventure.c reads a typed command.
pub mod Verbs
use computer_systems_enginee.Base.{
  ℕ, zero, suc, Bool, true, false, not, ◌&&◌, ◌||◌, leb, ◌==◌, if◌then◌else◌, Option, none, some,
  List, [], ◌∷◌, Text, codes, length, same_prefix, drop,
}
use Prim.Native.String.{String}
use computer_systems_enginee.World.Game.{
  Verb, tc_buy, tc_charge, tc_do, tc_drink, tc_drop, tc_fix, tc_flash, tc_get, tc_go, tc_install,
  tc_inventory, tc_sigh, tc_use, tc_wear,
}

-- `struct typed_cmd_t`
pub record TypedCmd : Type 0 where
  pub name : String
  pub min_len : ℕ
  pub cmd : Verb

abbrev pub cmd_list : List TypedCmd
cmd_list =
    record { name = "buy"; min_len = 3; cmd = tc_buy }
    ∷ record { name = "charge"; min_len = 2; cmd = tc_charge }
    ∷ record { name = "do"; min_len = 2; cmd = tc_do }
    ∷ record { name = "drink"; min_len = 3; cmd = tc_drink }
    ∷ record { name = "drop"; min_len = 2; cmd = tc_drop }
    ∷ record { name = "fix"; min_len = 3; cmd = tc_fix }
    ∷ record { name = "flash"; min_len = 5; cmd = tc_flash }
    ∷ record { name = "get"; min_len = 1; cmd = tc_get }
    ∷ record { name = "go"; min_len = 2; cmd = tc_go }
    ∷ record { name = "grab"; min_len = 2; cmd = tc_get }
    ∷ record { name = "install"; min_len = 3; cmd = tc_install }
    ∷ record { name = "inventory"; min_len = 1; cmd = tc_inventory }
    ∷ record { name = "sigh"; min_len = 4; cmd = tc_sigh }
    ∷ record { name = "use"; min_len = 3; cmd = tc_use }
    ∷ record { name = "wear"; min_len = 4; cmd = tc_wear }
    ∷ []

-- `while (' ' == *cmd) { cmd++; }`
unfoldable pub strip : Text → Text
strip [] = []
strip (c ∷ t) = let rest = strip t in if c == b' ' then rest else c ∷ t

-- The length of the verb.
unfoldable pub verb_len : Text → ℕ
verb_len [] = 0
verb_len (c ∷ t) = let n = verb_len t in if c == b' ' then 0 else suc n

-- The loop over the list of commands.
unfoldable pub find_command : List TypedCmd → Text → ℕ → Option Verb
find_command [] cmd cmd_len = none
find_command (e ∷ es) cmd cmd_len =
    let rest = find_command es cmd cmd_len in
    if leb e.min_len cmd_len && same_prefix cmd_len (codes e.name) cmd then some e.cmd else rest

-- Nothing typed, a verb that is not known, or a verb and its argument.
pub data Parsed : Type 0 where
  nothing babble : Parsed
  command : Verb → Text → Parsed

unfoldable pub parse : Text → Parsed
parse typing =
    let cmd = strip typing in
    let cmd_len = verb_len cmd in
    elim cmd as (λ _. Parsed) [
      | [] ↦ nothing
      | c ∷ t ↦ elim (find_command cmd_list cmd cmd_len) [
        | none ↦ babble
        | some verb ↦ command verb (strip (drop cmd_len cmd))
      ]
    ]
