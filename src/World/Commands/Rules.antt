-- ===== src/World/Commands/Rules.antt =====
-- Rules for computations over the world that end and keep it well formed, one for each step that the
-- commands of mp2/world.c are made of.
pub mod Lists
pub use Lists.{
  Valid, Keeps, Ends-bind, pure-Keeps, get-Keeps, bind-Keeps, branch-Keeps, Relocated-Valid,
  remove-Keeps, insert_at-Keeps, insert-Keeps, take-Keeps, modify-Keeps,
}
use Prim.Native.String.{String}
use computer_systems_enginee.Base.{
  ℕ, suc, ◌+◌, ◌^◌, ◌<◌, ◌≡◌, ◌≢◌, refl, sym, subst, ap, ◌∙◌, inl, inr, Bool, true, false, Option,
  none, some, List, arith, ◌==◌, ltb, ◌&&◌, if◌then◌else◌, Bool-cases, IsSome, Text, take, codes,
}
use computer_systems_enginee.World.Ids.{n_rooms, n_objects, n_swaps, r_inventory}
use computer_systems_enginee.World.State.{
  World, M, Action, pure, ◌>>=◌, get, modify, show_status, say, move_to, rand, bind_eq, put_room,
}
use computer_systems_enginee.World.Objects.{
  do_photo_swap, remove_object, insert_object_at, insert_object, move_object_to_inventory,
  player_flag_is_set, player_set_flag,
}
use computer_systems_enginee.World.Objects.Holds.{Relocated}
use computer_systems_enginee.World.Objects.Removal.{remove_object_lem}
use computer_systems_enginee.World.Objects.Insertion.{insert_object_at_lem}
use computer_systems_enginee.World.Objects.Placement.{
  spun-SameStage, insert_object_lem, move_object_to_inventory_lem,
}
use computer_systems_enginee.World.Validity.{
  IsReady, IsReady-stage, IsValid, Holds-same, Ends, InRooms, Leads,
}

pub IsReady-status : (t : Text) (w : World) → IsReady w → IsReady (record w { status_msg = t })
IsReady-status t w v = record {
  named = v.named;
  drawn = v.drawn;
  viewed = v.viewed;
  swappable = v.swappable;
  lefts = v.lefts;
  enters = v.enters;
  rights = v.rights;
  here = v.here;
  bag = v.bag;
}

pub show-Keeps : (s : String) → Keeps (show_status s)
unfolding show_status
show-Keeps s =
    modify-Keeps (λ w. record w { status_msg = take 40 (codes s) }) (λ w. refl) (λ w r. refl)
      (λ w v. IsReady-status (take 40 (codes s)) w v)

pub say-Keeps : (s : String) (a : Action) → Keeps (say s a)
unfolding say
say-Keeps s a = bind-Keeps (show_status s) (λ _. pure a) (show-Keeps s) (λ _. pure-Keeps a)

pub set_flag-Keeps : (f : ℕ) → Keeps (player_set_flag f)
unfolding player_set_flag
set_flag-Keeps f =
    modify-Keeps
      (λ w.
        if player_flag_is_set f w then w else record w { player_flags = w.player_flags + 2 ^ f })
      (λ w. ground arith) (λ w r. ground arith) (λ w v. flagged w v (player_flag_is_set f w))
  where
    flagged :
        (w : World)
        → IsReady w
        → (b : Bool) → IsReady (if b then w else record w { player_flags = w.player_flags + 2 ^ f })
    flagged w v true = v
    flagged w v false = record {
      named = v.named;
      drawn = v.drawn;
      viewed = v.viewed;
      swappable = v.swappable;
      lefts = v.lefts;
      enters = v.enters;
      rights = v.rights;
      here = v.here;
      bag = v.bag;
    }

pub rand-Keeps : Keeps rand
unfolding rand
rand-Keeps = record {
  apply = λ w v. record {
    value = w.dice w.rolls;
    after = record w { rolls = suc w.rolls };
    runs = refl;
    post = record {
      items = v.items;
      holds = Holds-same refl (λ r. refl) v.holds;
      ready = IsReady-stage (spun-SameStage (suc w.rolls) w) v.ready;
    };
  };
}

pub IsReady-move :
    (p : Option ℕ) (w : World)
    → InRooms p
    → (p ≡ some r_inventory → IsSome (w.room r_inventory).enter)
    → IsReady w
    → IsReady (record w { location = p })
IsReady-move p w h b v = record {
  named = v.named;
  drawn = v.drawn;
  viewed = v.viewed;
  swappable = v.swappable;
  lefts = v.lefts;
  enters = v.enters;
  rights = v.rights;
  here = h;
  bag = b;
}

pub move-Keeps : (d : ℕ) → d < n_rooms → d ≢ r_inventory → Keeps (move_to (some d))
unfolding move_to
move-Keeps d h ne =
    modify-Keeps (λ w. record w { location = some d }) (λ w. refl) (λ w r. refl)
      (λ w v. IsReady-move (some d) w h (λ e. absurd (ne (cc e))) v)

pub win-Keeps : Keeps (move_to none)
unfolding move_to
win-Keeps =
    modify-Keeps (λ w. record w { location = none }) (λ w. refl) (λ w r. refl)
      (λ w v. IsReady-move none w tt (λ e. cc e) v)

pub swap-Keeps : (r i : ℕ) → r < n_rooms → i < n_swaps → Keeps (do_photo_swap r i)
unfolding do_photo_swap
swap-Keeps r i hr hi =
    modify-Keeps _ (λ w. refl) (λ w s. ground arith)
      (λ w v. record {
        named = v.named;
        drawn = v.drawn;
        viewed = λ s h. elim (Bool-cases (r == s)) [
          | inl t ↦ rw t (v.swappable i hi)
          | inr f ↦ rw f (v.viewed s h)
        ];
        swappable = λ j h. elim (Bool-cases (i == j)) [
          | inl t ↦ rw t (v.viewed r hr)
          | inr f ↦ rw f (v.swappable j h)
        ];
        lefts = λ s h. subst Leads (ground arith) (v.lefts s h);
        enters = λ s h. subst Leads (ground arith) (v.enters s h);
        rights = λ s h. subst Leads (ground arith) (v.rights s h);
        here = v.here;
        bag = λ e. subst IsSome (ground arith) (v.bag e);
      })

-- Connecting a room.
pub IsReady-enter :
    (r d : ℕ) (w : World)
    → d < n_rooms
    → d ≢ r_inventory
    → IsReady w
    → IsReady (put_room r (record (w.room r) { enter = some d }) w)
IsReady-enter r d w hd ne v = record {
  named = v.named;
  drawn = v.drawn;
  viewed = λ s h. subst IsSome (ground arith) (v.viewed s h);
  swappable = v.swappable;
  lefts = λ s h. subst Leads (ground arith) (v.lefts s h);
  enters =
      λ s h. elim (Bool-cases (r == s)) [ inl t ↦ rw t (hd, ne) | inr f ↦ rw f (v.enters s h) ];
  rights = λ s h. subst Leads (ground arith) (v.rights s h);
  here = v.here;
  bag = λ e. elim (Bool-cases (r == r_inventory)) [ inl t ↦ rw t tt | inr f ↦ rw f (v.bag e) ];
}

pub enter-Keeps :
    (r d : ℕ)
    → d < n_rooms
    → d ≢ r_inventory
    → Keeps (modify (λ w. put_room r (record (w.room r) { enter = some d }) w))
enter-Keeps r d hd ne =
    modify-Keeps _ (λ w. refl) (λ w s. ground arith) (λ w v. IsReady-enter r d w hd ne v)

-- The rules at rooms and objects that the code names, whose premises compute.
pub take_named : (o : ℕ) → ltb o n_objects ≡ true → Keeps (move_object_to_inventory o)
take_named o h = take-Keeps o (ground (arith, h))

pub insert_named : (o r x y : ℕ) → ltb o n_objects ≡ true → Keeps (insert_object_at o r x y)
insert_named o r x y h = insert_at-Keeps o r x y (ground (arith, h))

pub move_named : (d : ℕ) → ltb d n_rooms && ltb 0 d ≡ true → Keeps (move_to (some d))
move_named d h = move-Keeps d (ground (arith, h)) (ground (arith, h))

pub swap_named : (r i : ℕ) → r < n_rooms → ltb i n_swaps ≡ true → Keeps (do_photo_swap r i)
swap_named r i hr h = swap-Keeps r i hr (ground (arith, h))

pub ruleset steps = (
  refl, pure-Keeps, get-Keeps, bind-Keeps, branch-Keeps, remove-Keeps, insert_named, take_named,
  show-Keeps, say-Keeps, set_flag-Keeps, rand-Keeps, move_named, win-Keeps, swap_named,
)
