-- ===== src/World/Ids/Rooms.antt =====
-- The first enumeration of mp2/world.c: the rooms, which index its array `room`. R_NONE (-1) is the
-- `none` of an optional index.
use Prim.Native.Nat.{ℕ}

abbrev pub r_inventory : ℕ
r_inventory = 0

abbrev pub r_in_391lab : ℕ
r_in_391lab = 1

abbrev pub r_by_391lab : ℕ
r_by_391lab = 2

abbrev pub r_in_ieee : ℕ
r_in_ieee = 3

abbrev pub r_by_ieee : ℕ
r_by_ieee = 4

abbrev pub r_in_395lab : ℕ
r_in_395lab = 5

abbrev pub r_by_395lab : ℕ
r_by_395lab = 6

abbrev pub r_evt_stair : ℕ
r_evt_stair = 7

abbrev pub r_in_cleanr : ℕ
r_in_cleanr = 8

abbrev pub r_by_cleanr : ℕ
r_by_cleanr = 9

abbrev pub r_evrt_vend : ℕ
r_evrt_vend = 10

abbrev pub r_almamater : ℕ
r_almamater = 11

abbrev pub r_in_cocomr : ℕ
r_in_cocomr = 12

abbrev pub r_by_cocomr : ℕ
r_by_cocomr = 13

abbrev pub r_by_zas : ℕ
r_by_zas = 14

abbrev pub r_east_evrt : ℕ
r_east_evrt = 15

abbrev pub r_evrt_bsmt : ℕ
r_evrt_bsmt = 16

abbrev pub r_west_bone : ℕ
r_west_bone = 17

abbrev pub r_circle_n : ℕ
r_circle_n = 18

abbrev pub r_circle_sw : ℕ
r_circle_sw = 19

abbrev pub r_east_bone : ℕ
r_east_bone = 20

abbrev pub r_bardeen : ℕ
r_bardeen = 21

abbrev pub r_lib_back : ℕ
r_lib_back = 22

abbrev pub r_reserve : ℕ
r_reserve = 23

abbrev pub r_talbot_nw : ℕ
r_talbot_nw = 24

abbrev pub r_talbot_sw : ℕ
r_talbot_sw = 25

abbrev pub r_talbot : ℕ
r_talbot = 26

abbrev pub r_springfld : ℕ
r_springfld = 27

abbrev pub r_caribou : ℕ
r_caribou = 28

abbrev pub r_kenney : ℕ
r_kenney = 29

abbrev pub r_dcl : ℕ
r_dcl = 30

abbrev pub r_lib_front : ℕ
r_lib_front = 31

abbrev pub r_kenney_e : ℕ
r_kenney_e = 32

abbrev pub r_newmark : ℕ
r_newmark = 33

abbrev pub r_mntl_nw : ℕ
r_mntl_nw = 34

abbrev pub r_mntl_sw : ℕ
r_mntl_sw = 35

abbrev pub r_mntllobby : ℕ
r_mntllobby = 36

abbrev pub r_mntl_lab1 : ℕ
r_mntl_lab1 = 37

abbrev pub r_mntl_lab2 : ℕ
r_mntl_lab2 = 38

abbrev pub r_mntl_lab3 : ℕ
r_mntl_lab3 = 39

abbrev pub r_csl_view : ℕ
r_csl_view = 40

abbrev pub r_csl_door : ℕ
r_csl_door = 41

abbrev pub r_csl_lobby : ℕ
r_csl_lobby = 42

abbrev pub r_csl_upper : ℕ
r_csl_upper = 43

abbrev pub r_csllounge : ℕ
r_csllounge = 44

abbrev pub r_beck_lot : ℕ
r_beck_lot = 45

abbrev pub r_beckman : ℕ
r_beckman = 46

abbrev pub r_beck_door : ℕ
r_beck_door = 47

abbrev pub r_becklobby : ℕ
r_becklobby = 48

abbrev pub r_beck_mri : ℕ
r_beck_mri = 49

abbrev pub r_garage : ℕ
r_garage = 50

abbrev pub r_car_site : ℕ
r_car_site = 51

abbrev pub r_allerton : ℕ
r_allerton = 52

abbrev pub r_fu_dogs : ℕ
r_fu_dogs = 53

abbrev pub r_statue : ℕ
r_statue = 54

abbrev pub r_sunsinger : ℕ
r_sunsinger = 55

abbrev pub r_willard : ℕ
r_willard = 56

abbrev pub r_will_side : ℕ
r_will_side = 57

abbrev pub r_rem_plane : ℕ
r_rem_plane = 58

abbrev pub r_cockpit : ℕ
r_cockpit = 59

abbrev pub r_over_will : ℕ
r_over_will = 60

abbrev pub r_air_rio : ℕ
r_air_rio = 61

abbrev pub r_rem_ice : ℕ
r_rem_ice = 62

abbrev pub r_rem_lab : ℕ
r_rem_lab = 63

abbrev pub n_rooms : ℕ
n_rooms = 64
