-- ===== src/World/Game.antt =====
-- The commands of the game as one operation, in the way that the event loop of mp2/adventure.c calls
-- them: the motions, and the verbs that a player types.
use computer_systems_enginee.Base.{ℕ, ◌≡◌, refl, Option, none, some, List, [], ◌∷◌, Text}
use computer_systems_enginee.World.State.{World, M, Action, ◌>>=◌}
use computer_systems_enginee.World.Validity.{IsValid, Ends}
use computer_systems_enginee.World.Motion.{try_to_move_left, try_to_move_right, try_to_enter}
use computer_systems_enginee.World.Commands.{
  typed_cmd_buy, typed_cmd_charge, typed_cmd_do, typed_cmd_drink, typed_cmd_drop, typed_cmd_fix,
  typed_cmd_flash, typed_cmd_get, typed_cmd_go, typed_cmd_install, typed_cmd_inventory,
  typed_cmd_sigh, typed_cmd_use, typed_cmd_wear,
}
use computer_systems_enginee.World.Commands.Rules.{Valid, Ends-bind}
use computer_systems_enginee.World.Commands.Total.{
  typed_cmd_buy-Keeps, typed_cmd_charge-Keeps, typed_cmd_do-Keeps, typed_cmd_drink-Keeps,
  typed_cmd_fix-Keeps, typed_cmd_flash-Keeps, typed_cmd_go-Keeps, typed_cmd_install-Keeps,
  typed_cmd_sigh-Keeps, typed_cmd_use-Keeps, typed_cmd_wear-Keeps,
}
use computer_systems_enginee.World.Commands.Standing.{
  IsIn, try_to_move_left-Ends, try_to_move_right-Ends, try_to_enter-Ends, typed_cmd_drop-Ends,
  typed_cmd_get-Ends, typed_cmd_inventory-Ends,
}
use computer_systems_enginee.World.Commands.Standing.Motions.{IsIn-lt}

-- `cmd_id_t`
pub data Verb : Type 0 where
  tc_buy tc_charge tc_do tc_drink tc_drop tc_fix tc_flash tc_get : Verb
  tc_go tc_install tc_inventory tc_sigh tc_use tc_wear : Verb

-- What the player asks for.
pub data Request : Type 0 where
  move_left move_right enter : Request
  typed : Verb → Text → Request

-- The switch over the command found.
unfoldable pub typed_cmd : Verb → ℕ → Text → M Action
typed_cmd tc_buy r arg = typed_cmd_buy r arg
typed_cmd tc_charge r arg = typed_cmd_charge r arg
typed_cmd tc_do r arg = typed_cmd_do r arg
typed_cmd tc_drink r arg = typed_cmd_drink r arg
typed_cmd tc_drop r arg = typed_cmd_drop r arg
typed_cmd tc_fix r arg = typed_cmd_fix r arg
typed_cmd tc_flash r arg = typed_cmd_flash r arg
typed_cmd tc_get r arg = typed_cmd_get r arg
typed_cmd tc_go r arg = typed_cmd_go r arg
typed_cmd tc_install r arg = typed_cmd_install r arg
typed_cmd tc_inventory r arg = typed_cmd_inventory r arg
typed_cmd tc_sigh r arg = typed_cmd_sigh r arg
typed_cmd tc_use r arg = typed_cmd_use r arg
typed_cmd tc_wear r arg = typed_cmd_wear r arg

-- One request, in room `r`.
unfoldable pub request_in : Request → ℕ → M Action
request_in move_left r = try_to_move_left r
request_in move_right r = try_to_move_right r
request_in enter r = try_to_enter r
request_in (typed verb arg) r = typed_cmd verb r arg

-- The requests of a game. The loop ends when the player's room has become NULL.
unfoldable pub play : List Request → M (Unit {0})
play [] w = some (tt, w)
play (q ∷ rest) w = elim w.location [
  | none ↦ some (tt, w)
  | some r ↦ (request_in q r >>= λ _. play rest) w
]

typed-Ends :
    (verb : Verb) (arg : Text) (r : ℕ) (w : World) → IsIn r w → Ends Valid (typed_cmd verb r arg w)
unfolding typed_cmd
typed-Ends tc_buy arg r w v = (typed_cmd_buy-Keeps r arg).apply w v.valid
typed-Ends tc_charge arg r w v = (typed_cmd_charge-Keeps r arg).apply w v.valid
typed-Ends tc_do arg r w v = (typed_cmd_do-Keeps r arg).apply w v.valid
typed-Ends tc_drink arg r w v = (typed_cmd_drink-Keeps r arg).apply w v.valid
typed-Ends tc_drop arg r w v = typed_cmd_drop-Ends r arg w v
typed-Ends tc_fix arg r w v = (typed_cmd_fix-Keeps r arg).apply w v.valid
typed-Ends tc_flash arg r w v = (typed_cmd_flash-Keeps r arg).apply w v.valid
typed-Ends tc_get arg r w v = typed_cmd_get-Ends r arg w v
typed-Ends tc_go arg r w v = (typed_cmd_go-Keeps r arg).apply w v.valid
typed-Ends tc_install arg r w v = (typed_cmd_install-Keeps r arg (IsIn-lt r w v)).apply w v.valid
typed-Ends tc_inventory arg r w v = typed_cmd_inventory-Ends r arg w v
typed-Ends tc_sigh arg r w v = (typed_cmd_sigh-Keeps r arg).apply w v.valid
typed-Ends tc_use arg r w v = (typed_cmd_use-Keeps r arg (IsIn-lt r w v)).apply w v.valid
typed-Ends tc_wear arg r w v = (typed_cmd_wear-Keeps r arg).apply w v.valid

-- In a well-formed world with the player in room `r`, each request ends without following NULL and
-- leaves the world well formed.
pub request-Ends : (q : Request) (r : ℕ) (w : World) → IsIn r w → Ends Valid (request_in q r w)
unfolding request_in
request-Ends move_left r w v = try_to_move_left-Ends r w v
request-Ends move_right r w v = try_to_move_right-Ends r w v
request-Ends enter r w v = try_to_enter-Ends r w v
request-Ends (typed verb arg) r w v = typed-Ends verb arg r w v

-- From a well-formed world, every sequence of requests is played to its end, or to the end of the
-- game, without following NULL, and leaves the world well formed.
pub play-Ends : (qs : List Request) (w : World) → IsValid w → Ends Valid (play qs w)
unfolding play
play-Ends [] w v = record { value = tt; after = w; runs = refl; post = v }
play-Ends (q ∷ rest) w v = at w.location refl (λ w' v'. play-Ends rest w' v')
  where
    at :
        (p : Option ℕ)
        → w.location ≡ p
        → ((w' : World) → IsValid w' → Ends Valid (play rest w'))
        → Ends Valid (elim p as (λ _. Option (Unit {0} × World)) [
          | none ↦ some (tt, w)
          | some r ↦ (request_in q r >>= λ _. play rest) w
        ])
    at none e k = record { value = tt; after = w; runs = refl; post = v }
    at (some r) e k =
        Ends-bind (request_in q r) (λ _. play rest) w
          (request-Ends q r w (record { valid = v; location = e })) (λ _ w' v'. k w' v')
