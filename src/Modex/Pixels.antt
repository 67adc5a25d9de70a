-- ===== src/Modex/Pixels.antt =====
-- The place of each pixel in the build buffer.
use computer_systems_enginee.Base.{ℕ, ◌+◌, ◌-◌, ◌*◌, ◌/◌, ◌%◌, ◌≤◌, ◌<◌, ◌≡◌, arith}
use computer_systems_enginee.Modex.{
  Display, scroll_x_dim, scroll_y_dim, build_buf_size, mem_fence_width, origin,
}

-- The byte of the pixel (x, y) of the map.
abbrev pub address : ℕ → ℕ → ℕ → ℕ
address img3 x y = img3 + x / 4 + y * 80 + (3 - x % 4) * 14560

abbrev pub pixel : Display → ℕ → ℕ → ℕ
pixel d x y = d.build (address d.img3 x y)

-- The pixel (x, y) of the map is on the screen whose upper left pixel is (left, top).
abbrev pub Within : ℕ → ℕ → ℕ → ℕ → Type 0
Within left top x y = (left ≤ x) × (x < left + scroll_x_dim) × (top ≤ y) × (y < top + scroll_y_dim)

abbrev pub OnScreen : Display → ℕ → ℕ → Type 0
OnScreen d x y = Within d.show_x d.show_y x y

-- The window lies inside the build buffer.
pub record IsPlaced (d : Display) : Type 0 where
  pub pointer : d.img3 ≡ d.img3_off + mem_fence_width
  pub starts : origin ≤ d.img3_off + d.show_x / 4 + d.show_y * 80
  pub ends :
      d.img3_off + 43680 + (d.show_x + 319) / 4 + (d.show_y + 181) * 80 < origin + build_buf_size

-- An address of the array inside its fence.
abbrev pub Inside : ℕ → Type 0
Inside a = (origin + mem_fence_width ≤ a) × (a < origin + mem_fence_width + build_buf_size)

-- The planes do not run into each other: two pixels of a screen never share a byte.
pub address_inj :
    (img3 left top x y x' y' : ℕ)
    → Within left top x y
    → Within left top x' y'
    → address img3 x y ≡ address img3 x' y'
    → (x ≡ x') × (y ≡ y')
address_inj img3 left top x y x' y' h k e = (omega arith, omega arith)

pub address-Inside :
    (d : Display) (x y : ℕ) → IsPlaced d → OnScreen d x y → Inside (address d.img3 x y)
address-Inside d x y p h =
    (omega (arith, p.pointer, p.starts, p.ends), omega (arith, p.pointer, p.starts, p.ends))
