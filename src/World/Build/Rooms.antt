-- ===== src/World/Build/Rooms.antt =====
-- The room connectivity data of mp2/world.c. R_NONE is `none`.
use Prim.Native.String.{String}
use computer_systems_enginee.Base.{ℕ, Option, none, some, List, [], ◌∷◌}
use computer_systems_enginee.World.Ids.{
  r_air_rio, r_allerton, r_almamater, r_bardeen, r_beck_door, r_beck_lot, r_beck_mri, r_becklobby,
  r_beckman, r_by_391lab, r_by_395lab, r_by_cleanr, r_by_cocomr, r_by_ieee, r_by_zas, r_car_site,
  r_caribou, r_circle_n, r_circle_sw, r_cockpit, r_csl_door, r_csl_lobby, r_csl_upper, r_csl_view,
  r_csllounge, r_dcl, r_east_bone, r_east_evrt, r_evrt_bsmt, r_evrt_vend, r_evt_stair, r_fu_dogs,
  r_garage, r_in_391lab, r_in_395lab, r_in_cleanr, r_in_cocomr, r_in_ieee, r_inventory, r_kenney,
  r_kenney_e, r_lib_back, r_lib_front, r_mntl_lab1, r_mntl_lab2, r_mntl_lab3, r_mntl_nw, r_mntl_sw,
  r_mntllobby, r_newmark, r_over_will, r_rem_ice, r_rem_lab, r_rem_plane, r_reserve, r_springfld,
  r_statue, r_sunsinger, r_talbot, r_talbot_nw, r_talbot_sw, r_west_bone, r_will_side, r_willard,
}

-- `struct room_data_t`
pub record RoomData : Type 0 where
  pub id : ℕ
  pub name : String
  pub filename : String
  pub left : Option ℕ
  pub enter : Option ℕ
  pub right : Option ℕ

abbrev entry : ℕ → String → String → Option ℕ → Option ℕ → Option ℕ → RoomData
entry i n f l e r = record { id = i; name = n; filename = f; left = l; enter = e; right = r }

abbrev pub room_data : List RoomData
room_data =
    entry r_inventory "Inventory" "images/backpack.photo" none none none
    ∷ entry r_in_391lab "391 Lab" "images/391lab.photo" none (some r_by_391lab) none
    ∷ entry r_by_391lab "Outside of 391" "images/outside391.photo" (some r_by_zas)
        (some r_in_391lab) (some r_by_ieee)
    ∷ entry r_in_ieee "IEEE Office" "images/ieee.photo" none (some r_by_ieee) none
    ∷ entry r_by_ieee "Outside IEEE" "images/byieee.photo" (some r_by_391lab) (some r_in_ieee)
        (some r_by_395lab)
    ∷ entry r_in_395lab "395 Lab" "images/395lab.photo" none (some r_by_395lab) none
    ∷ entry r_by_395lab "Outside of 395" "images/outside395.photo" (some r_by_ieee) none
        (some r_evt_stair)
    ∷ entry r_evt_stair "Everitt Stairs" "images/evtstair.photo" (some r_by_395lab)
        (some r_east_evrt) (some r_by_cleanr)
    ∷ entry r_in_cleanr "In Cleanroom" "images/cleanr.photo" none (some r_by_cleanr) none
    ∷ entry r_by_cleanr "By the Cleanroom" "images/outclean.photo" (some r_evt_stair) none
        (some r_evrt_vend)
    ∷ entry r_evrt_vend "Vending Machine" "images/vend.photo" (some r_by_cleanr) (some r_evrt_bsmt)
        none
    ∷ entry r_almamater "Alma Mater" "images/almamater.photo" (some r_east_evrt) (some r_east_evrt)
        (some r_by_cocomr)
    ∷ entry r_in_cocomr "Cocomero" "images/incoco.photo" none (some r_by_cocomr) none
    ∷ entry r_by_cocomr "Near Cocomero" "images/bycoco.photo" (some r_almamater) (some r_in_cocomr)
        (some r_by_zas)
    ∷ entry r_by_zas "The Ruins" "images/ruins.photo" (some r_by_cocomr) none none
    ∷ entry r_east_evrt "East of Everitt" "images/eeast.photo" (some r_almamater) (some r_evt_stair)
        (some r_evrt_bsmt)
    ∷ entry r_evrt_bsmt "Basement Entry" "images/basement.photo" (some r_east_evrt)
        (some r_evrt_vend) (some r_circle_sw)
    ∷ entry r_west_bone "Boneyard Creek" "images/bonew.photo" (some r_circle_sw) none
        (some r_circle_n)
    ∷ entry r_circle_n "Boneyard Bridge" "images/circlen1.photo" (some r_west_bone)
        (some r_talbot_nw) (some r_east_bone)
    ∷ entry r_circle_sw "Boneyard Bridge" "images/circlesw.photo" (some r_east_bone)
        (some r_evrt_bsmt) (some r_circle_n)
    ∷ entry r_east_bone "Boneyard Creek" "images/bonee.photo" (some r_circle_n) none
        (some r_circle_sw)
    ∷ entry r_bardeen "Bardeen Quad" "images/bardeen.photo" (some r_lib_back) (some r_east_bone)
        (some r_talbot_sw)
    ∷ entry r_lib_back "Grainger Library" "images/graingerback.photo" (some r_dcl) (some r_reserve)
        (some r_bardeen)
    ∷ entry r_reserve "Grainger Reserves" "images/reserve.photo" none (some r_lib_back)
        (some r_lib_front)
    ∷ entry r_talbot_nw "Talbot Lab" "images/talbotnw.photo" (some r_circle_sw) (some r_talbot)
        (some r_talbot_sw)
    ∷ entry r_talbot_sw "Talbot Lab" "images/talbotsw.photo" (some r_talbot_nw) (some r_talbot)
        (some r_springfld)
    ∷ entry r_talbot "Talbot Lab" "images/talbot.photo" none (some r_talbot_nw) none
    ∷ entry r_springfld "Springfield Avenue" "images/springfield.photo" (some r_talbot_sw)
        (some r_caribou) (some r_kenney)
    ∷ entry r_caribou "Caribou" "images/caribou.photo" none (some r_springfld) none
    ∷ entry r_kenney "Kenney Gym" "images/kenney.photo" (some r_springfld) none (some r_dcl)
    ∷ entry r_dcl "DCL" "images/dcl.photo" (some r_kenney) (some r_kenney_e) (some r_lib_front)
    ∷ entry r_lib_front "Grainger Library" "images/graingerfront.photo" (some r_dcl)
        (some r_reserve) (some r_talbot_sw)
    ∷ entry r_kenney_e "East of Kenney" "images/kenneye.photo" (some r_dcl) (some r_dcl)
        (some r_newmark)
    ∷ entry r_newmark "Newmark Lab" "images/newmark.photo" (some r_mntl_nw) none (some r_kenney_e)
    ∷ entry r_mntl_nw "MNTL" "images/mntlnw.photo" (some r_newmark) (some r_mntllobby)
        (some r_csl_view)
    ∷ entry r_mntl_sw "MNTL" "images/mntlsw.photo" (some r_mntl_nw) (some r_mntllobby)
        (some r_beckman)
    ∷ entry r_mntllobby "Lobby of MNTL" "images/mntllobby.photo" (some r_mntl_lab1) (some r_mntl_sw)
        (some r_mntl_lab2)
    ∷ entry r_mntl_lab1 "Kevin's Lab in MNTL" "images/mntllab1.photo" none none (some r_mntllobby)
    ∷ entry r_mntl_lab2 "MNTL Laser Lab" "images/mntllab2.photo" (some r_mntllobby)
        (some r_mntl_lab3) none
    ∷ entry r_mntl_lab3 "MNTL Laser Lab" "images/mntllab3.photo" none (some r_mntl_lab2) none
    ∷ entry r_csl_view "CSL" "images/csl.photo" (some r_beck_lot) (some r_csl_door) (some r_mntl_nw)
    ∷ entry r_csl_door "CSL Main Entrance" "images/csldoor.photo" (some r_beck_lot) none
        (some r_mntl_nw)
    ∷ entry r_csl_lobby "CSL Lobby" "images/csllobby.photo" (some r_csl_upper) (some r_csl_door)
        none
    ∷ entry r_csl_upper "Upper Floor of CSL" "images/cslupper.photo" none (some r_csllounge)
        (some r_csl_lobby)
    ∷ entry r_csllounge "CSL Lounge" "images/csllounge.photo" none (some r_csl_upper) none
    ∷ entry r_beck_lot "Beckman Circle Lot" "images/becklot.photo" (some r_beckman) (some r_garage)
        (some r_csl_view)
    ∷ entry r_beckman "Beckman Institute" "images/beckman.photo" (some r_mntl_sw) (some r_beck_door)
        (some r_beck_lot)
    ∷ entry r_beck_door "Beckman Institute" "images/beckdoor.photo" (some r_mntl_sw) none
        (some r_beck_lot)
    ∷ entry r_becklobby "Beckman Lobby" "images/becklobby.photo" none (some r_beck_mri)
        (some r_beck_door)
    ∷ entry r_beck_mri "An MRI Lab" "images/beckmri.photo" none (some r_becklobby) none
    ∷ entry r_garage "Campus Parking" "images/garage.photo" (some r_beck_lot) (some r_car_site) none
    ∷ entry r_car_site "Use Someone's Car?" "images/carclosed.photo" none (some r_garage) none
    ∷ entry r_allerton "Allerton Mansion" "images/allerton.photo" (some r_fu_dogs) none
        (some r_sunsinger)
    ∷ entry r_fu_dogs "Fu Dog Statues" "images/fudogs.photo" none (some r_statue) (some r_allerton)
    ∷ entry r_statue "A Tall Statue" "images/statue.photo" none (some r_fu_dogs) none
    ∷ entry r_sunsinger "The Sun Singer" "images/sunsinger.photo" (some r_allerton) none none
    ∷ entry r_willard "Willard Airport" "images/willard.photo" none (some r_will_side) none
    ∷ entry r_will_side "Willard Tower" "images/willardside.photo" (some r_rem_plane) none
        (some r_willard)
    ∷ entry r_rem_plane "Sensor-Laden Plane" "images/rsenseplane.photo" (some r_cockpit) none
        (some r_will_side)
    ∷ entry r_cockpit "Plane Cockpit" "images/cockpit.photo" none none (some r_rem_plane)
    ∷ entry r_over_will "Flying over Willard" "images/overwillard.photo" none (some r_cockpit)
        (some r_air_rio)
    ∷ entry r_air_rio "Rio de Janeiro" "images/riofromair.photo" (some r_over_will) none
        (some r_rem_ice)
    ∷ entry r_rem_ice "Ice Fields" "images/rsenseice.photo" (some r_air_rio) (some r_rem_lab) none
    ∷ entry r_rem_lab "Remote Sensing Lab" "images/rsenselab.photo" none (some r_rem_ice) none
    ∷ []
