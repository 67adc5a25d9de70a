-- ===== src/Modex/Screen.antt =====
-- `show_screen` and `print_status_bar` of mp2/modex.c: the build buffer reaches the video memory.
pub mod Shown
use computer_systems_enginee.Base.{ℕ, ◌+◌, ◌-◌, ◌*◌, ◌/◌, ◌%◌, ◌^◌, ltb, if◌then◌else◌}
use Prim.Native.Nat.{bit_xor}
use computer_systems_enginee.Modex.{VgaState, Display, scroll_x_width, scroll_size}
use computer_systems_enginee.Modex.Vga.{outw, set_write_mask, copy_image, copy_image2}

-- Round `i` of the loop of `show_screen`.
abbrev pub show_plane : (ℕ → ℕ) → ℕ → ℕ → ℕ → ℕ → VgaState → VgaState
show_plane build addr p_off target_img i v =
    copy_image build (addr + (p_off + 4 - i) % 4 * scroll_size + (if ltb p_off i then 1 else 0))
      target_img (set_write_mask (2 ^ (i + 8)) v)

-- `show_screen`
unfoldable pub show_screen : Display → Display
show_screen d =
    let p_off = 3 - d.show_x % 4 in
    let target = bit_xor d.target_img 0x4000 in
    let plane =
      show_plane d.build (d.img3 + d.show_x / 4 + d.show_y * scroll_x_width) p_off target in
    let v = plane 3 (plane 2 (plane 1 (plane 0 d.vga))) in
    record d {
      target_img = target;
      vga = record v {
        crtc = outw (target % 256 * 256 + 0x0D) (outw (target / 256 * 256 + 0x0C) v.crtc);
      };
    }

abbrev pub status_bar_addr_offset : ℕ
status_bar_addr_offset = 1440

abbrev status_plane : (ℕ → ℕ) → ℕ → VgaState → VgaState
status_plane buffer i v =
    copy_image2 buffer (status_bar_addr_offset * i) 0 (set_write_mask (2 ^ (i + 8)) v)

-- `print_status_bar`
unfoldable pub print_status_bar : (ℕ → ℕ) → Display → Display
print_status_bar buffer d =
    let plane = status_plane buffer in
    record d { vga = plane 3 (plane 2 (plane 1 (plane 0 d.vga))) }
