-- ===== src/World/Build/Items.antt =====
-- The object positioning data and the swap photos of mp2/world.c. R_NONE is `none`; the position -1,
-- for a random place, is `none`.
use Prim.Native.String.{String}
use computer_systems_enginee.Base.{ℕ, Option, none, some, List, [], ◌∷◌}
use computer_systems_enginee.World.Ids.{
  o_batt_car, o_batt_empty, o_batt_full, o_board, o_book_c, o_book_wode, o_bunnysuit, o_car_key,
  o_fish, o_gps_bad, o_gps_good, o_gps_spec, o_icard, o_jetpack, o_mimo_card, o_mp2, o_mtn_dew,
  o_robot_dead, o_robot_live, o_tux, r_almamater, r_bardeen, r_caribou, r_csl_upper, r_csllounge,
  r_east_bone, r_in_ieee, r_mntl_lab3, r_rem_lab, r_statue, r_talbot, swap_circle, swap_car,
}

-- `struct obj_data_t`
pub record ObjData : Type 0 where
  pub id : ℕ
  pub name : String
  pub filename : String
  pub room : Option ℕ
  pub place : Option (ℕ × ℕ)

abbrev entry : ℕ → String → String → Option ℕ → Option (ℕ × ℕ) → ObjData
entry i n f r p = record { id = i; name = n; filename = f; room = r; place = p }

abbrev pub obj_data : List ObjData
obj_data =
    entry o_board "board" "images/board.obj" (some r_in_ieee) none
    ∷ entry o_jetpack "jetpack" "images/jetpack.obj" (some r_talbot) none
    ∷ entry o_tux "tux" "images/tux.obj" (some r_rem_lab) (some (250, 100))
    ∷ entry o_mp2 "mp2" "images/mp2.obj" (some r_csllounge) none
    ∷ entry o_book_c "book" "images/book.obj" none none
    ∷ entry o_book_wode "book" "images/book2.obj" none none
    ∷ entry o_gps_bad "gps" "images/gpsbad.obj" (some r_talbot) none
    ∷ entry o_gps_good "gps" "images/gpsgood.obj" none none
    ∷ entry o_gps_spec "spec" "images/gpsspec.obj" (some r_csl_upper) none
    ∷ entry o_bunnysuit "bunnysuit" "images/bunnysuit.obj" (some r_almamater) (some (230, 250))
    ∷ entry o_batt_empty "battery" "images/battery.obj" none none
    ∷ entry o_batt_full "battery" "images/battery.obj" none none
    ∷ entry o_batt_car "battery" "images/batteryincar.obj" none none
    ∷ entry o_mtn_dew "dew" "images/dew.obj" none none
    ∷ entry o_fish "fish" "images/fish.obj" (some r_east_bone) (some (80, 260))
    ∷ entry o_icard "Icard" "images/icard.obj" (some r_bardeen) none
    ∷ entry o_car_key "key" "images/key.obj" (some r_caribou) none
    ∷ entry o_robot_dead "robot" "images/robot.obj" (some r_mntl_lab3) none
    ∷ entry o_robot_live "robot" "images/robot.obj" none none
    ∷ entry o_mimo_card "mimo" "images/mimo.obj" (some r_statue) none
    ∷ []

-- `struct swap_data_t`
pub record SwapData : Type 0 where
  pub id : ℕ
  pub filename : String

abbrev pub swap_data : List SwapData
swap_data =
    record { id = swap_circle; filename = "images/circlen2.photo" }
    ∷ record { id = swap_car; filename = "images/caropen.photo" }
    ∷ []
