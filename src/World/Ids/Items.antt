-- ===== src/World/Ids/Items.antt =====
-- The other enumerations of mp2/world.c: the objects, which index its array `object`, the bits of the
-- player's flags, and the photos that are swapped.
use Prim.Native.Nat.{ℕ}

-- The objects: indices of the array `object`.
abbrev pub o_board : ℕ
o_board = 0

abbrev pub o_jetpack : ℕ
o_jetpack = 1

abbrev pub o_tux : ℕ
o_tux = 2

abbrev pub o_mp2 : ℕ
o_mp2 = 3

abbrev pub o_book_c : ℕ
o_book_c = 4

abbrev pub o_book_wode : ℕ
o_book_wode = 5

abbrev pub o_gps_bad : ℕ
o_gps_bad = 6

abbrev pub o_gps_good : ℕ
o_gps_good = 7

abbrev pub o_gps_spec : ℕ
o_gps_spec = 8

abbrev pub o_bunnysuit : ℕ
o_bunnysuit = 9

abbrev pub o_batt_empty : ℕ
o_batt_empty = 10

abbrev pub o_batt_full : ℕ
o_batt_full = 11

abbrev pub o_batt_car : ℕ
o_batt_car = 12

abbrev pub o_mtn_dew : ℕ
o_mtn_dew = 13

abbrev pub o_fish : ℕ
o_fish = 14

abbrev pub o_icard : ℕ
o_icard = 15

abbrev pub o_car_key : ℕ
o_car_key = 16

abbrev pub o_robot_dead : ℕ
o_robot_dead = 17

abbrev pub o_robot_live : ℕ
o_robot_live = 18

abbrev pub o_mimo_card : ℕ
o_mimo_card = 19

abbrev pub n_objects : ℕ
n_objects = 20

-- Bits of the flag word that records what the player has done.
abbrev pub flag_has_eaten : ℕ
flag_has_eaten = 0

abbrev pub flag_wearing_suit : ℕ
flag_wearing_suit = 1

abbrev pub flag_car_open : ℕ
flag_car_open = 2

abbrev pub flag_car_fixed : ℕ
flag_car_fixed = 3

abbrev pub flag_lured_tux : ℕ
flag_lured_tux = 4

abbrev pub num_flags : ℕ
num_flags = 5

-- The photos that are swapped in and out of a room.
abbrev pub swap_circle : ℕ
swap_circle = 0

abbrev pub swap_car : ℕ
swap_car = 1

abbrev pub n_swaps : ℕ
n_swaps = 2
