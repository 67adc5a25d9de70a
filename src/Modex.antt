-- ===== src/Modex.antt =====
-- The build buffer of mp2/modex.c, in which the picture of the screen is made, and the video memory
-- to which it is copied. Memory is a function from addresses to bytes, so that an access outside
-- the array `build` is one to the memory around it. The array begins at the address `origin`;
-- img3_off, an int that can be negative, is kept with `origin` added to it, which makes it the
-- address that it stands for, less the fence. A coordinate is not negative.
pub mod Window
pub mod Pixels
pub mod Vga
pub mod Screen
pub mod Setup
use computer_systems_enginee.Base.{ℕ, Bool, ◌+◌, ◌-◌, ◌*◌, ◌/◌, ◌^◌}
use computer_systems_enginee.Photo.Types.{Colour}

abbrev pub image_x_dim : ℕ
image_x_dim = 320

abbrev pub image_y_dim : ℕ
image_y_dim = 182

abbrev pub scroll_x_dim : ℕ
scroll_x_dim = image_x_dim

abbrev pub scroll_y_dim : ℕ
scroll_y_dim = image_y_dim

abbrev pub scroll_x_width : ℕ
scroll_x_width = 80

abbrev pub scroll_size : ℕ
scroll_size = 14560

abbrev pub screen_size : ℕ
screen_size = 58241

abbrev pub build_buf_size : ℕ
build_buf_size = 78241

abbrev pub build_base_init : ℕ
build_base_init = 10000

abbrev pub mem_fence_width : ℕ
mem_fence_width = 256

abbrev pub mem_fence_magic : ℕ
mem_fence_magic = 0xF3

-- The address of `build`.
abbrev pub origin : ℕ
origin = 2 ^ 31

-- The attribute registers, behind one port: a byte written there is a register's number or its value
-- by turns. Bit 5 of the number that was written last connects the display.
pub record Attributes : Type 0 where
  pub regs : ℕ → ℕ
  pub index : ℕ
  pub data_next : Bool

-- What the program writes of the VGA: the memory of each plane, the registers, and the colours.
pub record VgaState : Type 0 where
  pub planes : ℕ → ℕ → ℕ
  pub misc : ℕ
  pub seq : ℕ → ℕ
  pub crtc : ℕ → ℕ
  pub attr : Attributes
  pub graphics : ℕ → ℕ
  pub dac : ℕ → Colour

-- The file-scope variables.
pub record Display : Type 0 where
  pub build : ℕ → ℕ
  pub img3_off : ℕ
  pub img3 : ℕ
  pub show_x : ℕ
  pub show_y : ℕ
  pub target_img : ℕ
  pub vga : VgaState
