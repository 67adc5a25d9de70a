-- ===== src/Modex/Setup.antt =====
-- `set_mode_X` and `clear_mode_X` of mp2/modex.c, and the tables of the registers. The writes of
-- clear_mode_X to the VGA, which go back to text mode, are left out.
pub mod Tables
pub mod Fences
use computer_systems_enginee.Base.{
  ℕ, zero, suc, ◌+◌, ◌-◌, Bool, false, ◌||◌, not, leb, ltb, ◌==◌, if◌then◌else◌, Option, none, some,
  List, [], ◌∷◌,
}
use Prim.Native.String.{String}
use computer_systems_enginee.Photo.Types.{Colour}
use computer_systems_enginee.World.State.{update}
use computer_systems_enginee.Modex.{
  VgaState, Display, build_base_init, build_buf_size, mem_fence_width, mem_fence_magic, origin,
}
use computer_systems_enginee.Modex.Window.{LineFn}
use computer_systems_enginee.Modex.Vga.{
  vga_blank, set_seq_regs_and_reset, set_crtc_registers, set_attr_registers, set_graphics_registers,
  clear_screens,
}
use computer_systems_enginee.Modex.Setup.Tables.{
  mode_x_seq, mode_x_crtc, mode_x_attr, mode_x_graphics, fill_palette_mode_x,
}

-- The loop over the two fences.
unfoldable pub fill_fences : ℕ → ℕ → (ℕ → ℕ) → ℕ → ℕ
fill_fences zero i build = build
fill_fences (suc n) i build = fill_fences n (suc i) (
    update (update build (origin + i) mem_fence_magic)
      (origin + build_buf_size + mem_fence_width + i) mem_fence_magic)

-- The registers, the colours and the memory, in the order of `set_mode_X`.
unfoldable pub mode_x : VgaState → VgaState
unfolding vga_blank set_seq_regs_and_reset set_crtc_registers set_attr_registers
    set_graphics_registers fill_palette_mode_x clear_screens
mode_x v =
    let blank = vga_blank 1 v in
    let regs = set_graphics_registers mode_x_graphics (
      set_attr_registers mode_x_attr
        (set_crtc_registers mode_x_crtc (set_seq_regs_and_reset mode_x_seq 0x63 blank))) in
    vga_blank 0 (clear_screens (fill_palette_mode_x regs))

abbrev pub status_bar_offset : ℕ
status_bar_offset = 0x05A0

-- `set_mode_X`, `none` being -1. The answer of open_memory_and_ports is an argument, NULL is `none`.
unfoldable pub set_mode_x : Option LineFn → Option LineFn → Bool → Display → Option Display
unfolding fill_fences mode_x
set_mode_x none vert_fill_fn opened d = none
set_mode_x (some h) none opened d = none
set_mode_x (some h) (some v) opened d =
    if opened
    then some (record {
      build = fill_fences mem_fence_width 0 d.build;
      img3_off = origin + build_base_init;
      img3 = origin + build_base_init + mem_fence_width;
      show_x = 0;
      show_y = 0;
      target_img = status_bar_offset;
      vga = mode_x d.vga;
    })
    else none

-- A loop of `clear_mode_X`: whether one of `n` bytes from `i` on is not the magic number.
unfoldable pub is_broken : ℕ → ℕ → (ℕ → ℕ) → Bool
is_broken zero i build = false
is_broken (suc n) i build = not (build i == mem_fence_magic) || is_broken n (suc i) build

-- The messages of `clear_mode_X`.
unfoldable pub broken_fences : Display → List String
unfolding is_broken
broken_fences d =
    let upper =
      if is_broken mem_fence_width (origin + build_buf_size + mem_fence_width) d.build
      then "upper build fence was broken" ∷ []
      else [] in
    if is_broken mem_fence_width origin d.build
    then "lower build fence was broken" ∷ upper
    else upper
