-- ===== src/Modex/Window/Rounds.antt =====
-- The loops of draw_horiz_line and draw_vert_line in mp2/modex.c, round by round.
use computer_systems_enginee.Base.{
  ℕ, zero, suc, ◌+◌, ◌-◌, ◌*◌, ◌/◌, ◌%◌, ◌≤◌, ◌<◌, ◌≡◌, ◌≢◌, refl, ap, ◌∙◌, ◌==◌, if◌then◌else◌,
  arith,
}
use computer_systems_enginee.World.State.{update}
use computer_systems_enginee.Modex.{scroll_x_dim}
use computer_systems_enginee.Modex.Pixels.{address}
use computer_systems_enginee.Modex.Window.Copy.{update_ne}
use computer_systems_enginee.Modex.Window.{vert_pixels, horiz_pixels}

module _ (img3 x y : ℕ) where
  -- Where the loop of `draw_horiz_line` stands after one pixel.
  next_addr :
      (if 3 - x % 4 == 0 then suc (img3 + x / 4 + y * 80) else img3 + x / 4 + y * 80)
      ≡ img3 + suc x / 4 + y * 80
  next_addr = ground arith

  next_p_off : (if 3 - x % 4 == 0 then 3 else 3 - x % 4 - 1) ≡ 3 - suc x % 4
  next_p_off = ground arith

-- One round of the loop, from the pixel (x, y).
horiz_step :
    (n i img3 x y : ℕ) (buf build : ℕ → ℕ)
    → horiz_pixels (suc n) i (img3 + x / 4 + y * 80) (3 - x % 4) buf build
      ≡ horiz_pixels n
          (suc i)
          (img3 + suc x / 4 + y * 80)
          (3 - suc x % 4)
          buf
          (update build (address img3 x y) (buf i))
unfolding horiz_pixels
horiz_step n i img3 x y buf build = rw (next_addr img3 x y, next_p_off img3 x y) refl

-- The row from the pixel (x, y) on: other bytes stay.
pub horiz_out :
    (n i img3 x y : ℕ) (buf build : ℕ → ℕ) (a : ℕ)
    → ((k : ℕ) → k < n → a ≢ address img3 (x + k) y)
    → horiz_pixels n i (img3 + x / 4 + y * 80) (3 - x % 4) buf build a ≡ build a
unfolding horiz_pixels
horiz_out zero i img3 x y buf build a h = refl
horiz_out (suc n) i img3 x y buf build a h =
    ap (λ f. f a) (horiz_step n i img3 x y buf build)
    ∙ horiz_out n (suc i) img3 (suc x) y buf (update build (address img3 x y) (buf i)) a
        (λ k l e. h (suc k) (omega arith) (e ∙ ap (λ z. address img3 z y) (omega arith)))
    ∙ update_ne build (address img3 x y) (buf i) a (λ e. h 0 (omega arith) (omega (arith, e)))

-- Each pixel of the row gets its own.
pub horiz_in :
    (n i img3 x y : ℕ) (buf build : ℕ → ℕ) (k : ℕ)
    → k < n
    → n ≤ scroll_x_dim
    → horiz_pixels n i (img3 + x / 4 + y * 80) (3 - x % 4) buf build (address img3 (x + k) y)
      ≡ buf (i + k)
horiz_in zero i img3 x y buf build k l m = absurd (omega arith)
horiz_in (suc n) i img3 x y buf build zero l m =
    ap (λ f. f (address img3 (x + 0) y)) (horiz_step n i img3 x y buf build)
    ∙ horiz_out n (suc i) img3 (suc x) y buf (update build (address img3 x y) (buf i))
        (address img3 (x + 0) y) (λ k l e. omega arith)
    ∙ ground arith
horiz_in (suc n) i img3 x y buf build (suc k) l m =
    ap (λ f. f (address img3 (x + suc k) y)) (horiz_step n i img3 x y buf build)
    ∙ ap
        (horiz_pixels n (suc i) (img3 + suc x / 4 + y * 80) (3 - suc x % 4) buf
          (update build (address img3 x y) (buf i)))
        (ap (λ z. address img3 z y) (omega arith))
    ∙ horiz_in n (suc i) img3 (suc x) y buf (update build (address img3 x y) (buf i)) k
        (omega arith) (omega arith)
    ∙ ap buf (omega arith)

-- One round of the loop of `draw_vert_line`, from the pixel (x, y).
vert_step :
    (n i img3 x y : ℕ) (buf build : ℕ → ℕ)
    → vert_pixels (suc n) i (img3 + x / 4 + y * 80) (3 - x % 4) buf build
      ≡ vert_pixels n
          (suc i)
          (img3 + x / 4 + suc y * 80)
          (3 - x % 4)
          buf
          (update build (address img3 x y) (buf i))
unfolding vert_pixels
vert_step n i img3 x y buf build =
    let e : img3 + x / 4 + y * 80 + 80 ≡ img3 + x / 4 + suc y * 80 = omega arith in rw e refl

-- The column from the pixel (x, y) on: other bytes stay.
pub vert_out :
    (n i img3 x y : ℕ) (buf build : ℕ → ℕ) (a : ℕ)
    → ((k : ℕ) → k < n → a ≢ address img3 x (y + k))
    → vert_pixels n i (img3 + x / 4 + y * 80) (3 - x % 4) buf build a ≡ build a
unfolding vert_pixels
vert_out zero i img3 x y buf build a h = refl
vert_out (suc n) i img3 x y buf build a h =
    ap (λ f. f a) (vert_step n i img3 x y buf build)
    ∙ vert_out n (suc i) img3 x (suc y) buf (update build (address img3 x y) (buf i)) a
        (λ k l e. h (suc k) (omega arith) (e ∙ ap (address img3 x) (omega arith)))
    ∙ update_ne build (address img3 x y) (buf i) a (λ e. h 0 (omega arith) (omega (arith, e)))

-- Each pixel of the column gets its own.
pub vert_in :
    (n i img3 x y : ℕ) (buf build : ℕ → ℕ) (k : ℕ)
    → k < n
    → vert_pixels n i (img3 + x / 4 + y * 80) (3 - x % 4) buf build (address img3 x (y + k))
      ≡ buf (i + k)
vert_in zero i img3 x y buf build k l = absurd (omega arith)
vert_in (suc n) i img3 x y buf build zero l =
    ap (λ f. f (address img3 x (y + 0))) (vert_step n i img3 x y buf build)
    ∙ vert_out n (suc i) img3 x (suc y) buf (update build (address img3 x y) (buf i))
        (address img3 x (y + 0)) (λ k l e. omega arith)
    ∙ ground arith
vert_in (suc n) i img3 x y buf build (suc k) l =
    ap (λ f. f (address img3 x (y + suc k))) (vert_step n i img3 x y buf build)
    ∙ ap
        (vert_pixels n (suc i) (img3 + x / 4 + suc y * 80) (3 - x % 4) buf
          (update build (address img3 x y) (buf i)))
        (ap (address img3 x) (omega arith))
    ∙ vert_in n (suc i) img3 x (suc y) buf (update build (address img3 x y) (buf i)) k (omega arith)
    ∙ ap buf (omega arith)
