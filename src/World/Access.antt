-- ===== src/World/Access.antt =====
-- The functions of mp2/world.c by which other files look at rooms and objects.
use computer_systems_enginee.Base.{ℕ, Option, Text}
use computer_systems_enginee.Photo.Types.{Photo, Image}
use computer_systems_enginee.World.State.{World}

abbrev pub obj_get_x : World → ℕ → ℕ
obj_get_x w o = (w.object o).x

abbrev pub obj_get_y : World → ℕ → ℕ
obj_get_y w o = (w.object o).y

abbrev pub obj_image : World → ℕ → Option Image
obj_image w o = (w.object o).img

abbrev pub obj_next : World → ℕ → Option ℕ
obj_next w o = (w.object o).next

abbrev pub room_contents_iterate : World → ℕ → Option ℕ
room_contents_iterate w r = (w.room r).contents

abbrev pub room_name : World → ℕ → Option Text
room_name w r = (w.room r).name

abbrev pub room_photo : World → ℕ → Option Photo
room_photo w r = (w.room r).view
