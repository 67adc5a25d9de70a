-- ===== src/Modex/Window.antt =====
-- The logical view window of mp2/modex.c and the lines that are drawn in it.
pub mod Copy
pub mod Moves
pub mod Rounds
pub mod Lines
use computer_systems_enginee.Base.{
  ℕ, zero, suc, ◌+◌, ◌-◌, ◌*◌, ◌/◌, ◌%◌, ◌^◌, Bool, ◌&&◌, ◌||◌, leb, ltb, ◌==◌, if◌then◌else◌,
  Option, none, some,
}
use computer_systems_enginee.World.State.{update}
use computer_systems_enginee.Modex.{
  Display, scroll_x_dim, scroll_y_dim, scroll_x_width, scroll_size, build_buf_size, build_base_init,
  mem_fence_width, origin,
}

-- The window at this place lies inside the build buffer.
abbrev pub fits : ℕ → ℕ → ℕ → Bool
fits img3_off scr_x scr_y =
    leb origin (img3_off + scr_x / 4 + scr_y * scroll_x_width)
    && ltb
        (img3_off
          + 3 * scroll_size
          + (scr_x + scroll_x_dim - 1) / 4
          + (scr_y + scroll_y_dim - 1) * scroll_x_width)
        (origin + build_buf_size)

-- The two screens have no pixel in common.
abbrev pub apart : ℕ → ℕ → ℕ → ℕ → Bool
apart old_x old_y scr_x scr_y =
    leb (scr_x + scroll_x_dim) old_x
    || leb (old_x + scroll_x_dim) scr_x
    || (leb (scr_y + scroll_y_dim) old_y || leb (old_y + scroll_y_dim) scr_y)

-- `for (i = length; i-- > 0; ) target_addr[i] = start_addr[i];`
unfoldable pub copy_down : ℕ → ℕ → ℕ → (ℕ → ℕ) → ℕ → ℕ
copy_down zero start_addr target_addr build = build
copy_down (suc i) start_addr target_addr build =
    copy_down i start_addr target_addr (update build (target_addr + i) (build (start_addr + i)))

-- `for (i = 0; i < length; i++) target_addr[i] = start_addr[i];`, with `n` bytes to go.
unfoldable pub copy_up : ℕ → ℕ → ℕ → (ℕ → ℕ) → ℕ → ℕ
copy_up zero start_addr target_addr build = build
copy_up (suc n) start_addr target_addr build =
    copy_up n (suc start_addr) (suc target_addr) (update build target_addr (build start_addr))

abbrev pub copy : ℕ → ℕ → ℕ → (ℕ → ℕ) → ℕ → ℕ
copy length start_addr target_addr build =
    if ltb start_addr target_addr
    then copy_down length start_addr target_addr build
    else copy_up length start_addr target_addr build

-- The offset that puts the window into the middle of the buffer.
abbrev pub middle : ℕ → ℕ → ℕ
middle scr_x scr_y = origin + build_base_init - scr_x / 4 - scr_y * scroll_x_width

abbrev pub larger : ℕ → ℕ → ℕ
larger a b = if ltb b a then a else b

abbrev pub smaller : ℕ → ℕ → ℕ
smaller a b = if ltb b a then b else a

-- The start of the copy, and its length.
abbrev pub start_off : ℕ → ℕ → ℕ → ℕ → ℕ
start_off old_x old_y scr_x scr_y = larger scr_x old_x / 4 + larger scr_y old_y * scroll_x_width

abbrev pub copy_length : ℕ → ℕ → ℕ → ℕ → ℕ
copy_length old_x old_y scr_x scr_y =
    (smaller scr_x old_x + (scroll_x_dim - 1)) / 4
    + (smaller scr_y old_y + (scroll_y_dim - 1)) * scroll_x_width
    + 1
    + 3 * scroll_size
    - start_off old_x old_y scr_x scr_y

-- `set_view_window`
unfoldable pub set_view_window : ℕ → ℕ → Display → Display
set_view_window scr_x scr_y d =
    let moved = record d { show_x = scr_x; show_y = scr_y } in
    let off = middle scr_x scr_y in
    let start = start_off d.show_x d.show_y scr_x scr_y in
    let centred = record moved { img3_off = off; img3 = off + mem_fence_width } in
    if fits d.img3_off scr_x scr_y
    then moved
    else if apart d.show_x d.show_y scr_x scr_y
    then centred
    else record centred {
      build =
          copy (copy_length d.show_x d.show_y scr_x scr_y) (d.img3 + start)
            (off + mem_fence_width + start) d.build;
    }

-- The loop of `draw_vert_line`, with `n` pixels to go.
unfoldable pub vert_pixels : ℕ → ℕ → ℕ → ℕ → (ℕ → ℕ) → (ℕ → ℕ) → ℕ → ℕ
vert_pixels zero i addr p_off buf build = build
vert_pixels (suc n) i addr p_off buf build =
    vert_pixels n (suc i) (addr + scroll_x_width) p_off buf
      (update build (addr + p_off * scroll_size) (buf i))

-- The loop of `draw_horiz_line`, with `n` pixels to go.
unfoldable pub horiz_pixels : ℕ → ℕ → ℕ → ℕ → (ℕ → ℕ) → (ℕ → ℕ) → ℕ → ℕ
horiz_pixels zero i addr p_off buf build = build
horiz_pixels (suc n) i addr p_off buf build =
    horiz_pixels n (suc i) (if p_off == 0 then suc addr else addr)
      (if p_off == 0 then 3 else p_off - 1) buf (update build (addr + p_off * scroll_size) (buf i))

-- A line function: the pixels of the line that starts at a place of the map.
abbrev pub LineFn : Type 0
LineFn = ℕ → ℕ → ℕ → ℕ

-- `draw_vert_line`, `none` being -1. The argument is a 32-bit word.
unfoldable pub draw_vert_line : LineFn → ℕ → Display → Option Display
draw_vert_line vert_line_fn x d =
    if leb (2 ^ 31) x || leb scroll_x_dim x
    then none
    else some (record d {
      build =
          vert_pixels scroll_y_dim 0 (d.img3 + (x + d.show_x) / 4 + d.show_y * scroll_x_width)
            (3 - (x + d.show_x) % 4) (vert_line_fn (x + d.show_x) d.show_y) d.build;
    })

-- `draw_horiz_line`, `none` being -1.
unfoldable pub draw_horiz_line : LineFn → ℕ → Display → Option Display
draw_horiz_line horiz_line_fn y d =
    if leb (2 ^ 31) y || leb scroll_y_dim y
    then none
    else some (record d {
      build =
          horiz_pixels scroll_x_dim 0 (d.img3 + d.show_x / 4 + (y + d.show_y) * scroll_x_width)
            (3 - d.show_x % 4) (horiz_line_fn d.show_x (y + d.show_y)) d.build;
    })
