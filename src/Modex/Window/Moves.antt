-- ===== src/Modex/Window/Moves.antt =====
-- What `set_view_window` of mp2/modex.c keeps when the window moves.
use computer_systems_enginee.Base.{
  ℕ, ◌+◌, ◌-◌, ◌^◌, ◌≤◌, ◌<◌, ◌≡◌, ◌⊎◌, inl, inr, refl, ap, ◌∙◌, ltb, leb, true, false, Bool-cases,
  arith,
}
use computer_systems_enginee.Modex.{Display, build_buf_size, mem_fence_width, origin}
use computer_systems_enginee.Modex.Pixels.{address, pixel, Within, OnScreen, IsPlaced, Inside}
use computer_systems_enginee.Modex.Window.{
  set_view_window, fits, apart, copy, copy_length, start_off, larger, smaller, middle,
}
use computer_systems_enginee.Modex.Window.Copy.{copy_in, copy_out}

-- The display after a move of the window to (scr_x, scr_y).
pub record Moved (scr_x scr_y : ℕ) (d d' : Display) : Type 0 where
  pub there : (d'.show_x ≡ scr_x) × (d'.show_y ≡ scr_y)
  pub screen : (d'.target_img ≡ d.target_img) × (d'.vga ≡ d.vga)
  pub placed : IsPlaced d'
  pub kept : (x y : ℕ) → OnScreen d x y → Within scr_x scr_y x y → pixel d' x y ≡ pixel d x y
  pub others : (a : ℕ) → ¬ Inside a → d'.build a ≡ d.build a

-- The coordinates of the map are 16-bit numbers.
abbrev pub OnMap : ℕ → ℕ → Type 0
OnMap x y = (x < 2 ^ 16) × (y < 2 ^ 16)

centred-IsPlaced :
    (scr_x scr_y : ℕ) (d : Display)
    → OnMap scr_x scr_y
    → IsPlaced (record d {
      show_x = scr_x;
      show_y = scr_y;
      img3_off = middle scr_x scr_y;
      img3 = middle scr_x scr_y + mem_fence_width;
    })
centred-IsPlaced scr_x scr_y d m = record {
  pointer = refl;
  starts = omega arith;
  ends = omega arith;
}

fits-IsPlaced :
    (scr_x scr_y : ℕ) (d : Display)
    → IsPlaced d
    → fits d.img3_off scr_x scr_y ≡ true
    → IsPlaced (record d { show_x = scr_x; show_y = scr_y })
fits-IsPlaced scr_x scr_y d p t = record {
  pointer = p.pointer;
  starts = ground arith;
  ends = ground arith;
}

larger_bounds : (a b z : ℕ) → a ≤ larger a b × b ≤ larger a b × (a ≤ z → b ≤ z → larger a b ≤ z)
larger_bounds a b z = (ground arith, ground arith, λ h k. ground arith)

smaller_bounds : (a b z : ℕ) → smaller a b ≤ a × smaller a b ≤ b × (z ≤ a → z ≤ b → z ≤ smaller a b)
smaller_bounds a b z = (ground arith, ground arith, λ h k. ground arith)

near_bounds :
    (old_x old_y scr_x scr_y : ℕ)
    → apart old_x old_y scr_x scr_y ≡ false
    → old_x < scr_x + 320 × scr_x < old_x + 320 × old_y < scr_y + 182 × scr_y < old_y + 182
near_bounds old_x old_y scr_x scr_y e = (ground arith, ground arith, ground arith, ground arith)

-- What the copy moves, for a window that overlaps the old one.
module _ (scr_x scr_y : ℕ) (d : Display) (p : IsPlaced d) (m : OnMap scr_x scr_y)
    (near : apart d.show_x d.show_y scr_x scr_y ≡ false) where
  abbrev length : ℕ
  length = copy_length d.show_x d.show_y scr_x scr_y

  abbrev start : ℕ
  start = start_off d.show_x d.show_y scr_x scr_y

  abbrev target : ℕ
  target = middle scr_x scr_y + mem_fence_width

  -- The pixels of both screens are in the area that is copied.
  copied :
      (x y : ℕ)
      → OnScreen d x y
      → Within scr_x scr_y x y
      → (start ≤ address 0 x y) × (address 0 x y < start + length)
  copied x y h k =
      let (_, _, lx) = larger_bounds scr_x d.show_x x in
      let (_, _, ly) = larger_bounds scr_y d.show_y y in
      let (_, _, sx) = smaller_bounds scr_x d.show_x (x - 319) in
      let (_, _, sy) = smaller_bounds scr_y d.show_y (y - 181) in
      let lx' : larger scr_x d.show_x ≤ x = lx (omega (arith, k)) (omega (arith, h)) in
      let ly' : larger scr_y d.show_y ≤ y = ly (omega (arith, k)) (omega (arith, h)) in
      let sx' : x - 319 ≤ smaller scr_x d.show_x = sx (omega (arith, k)) (omega (arith, h)) in
      let sy' : y - 181 ≤ smaller scr_y d.show_y = sy (omega (arith, k)) (omega (arith, h)) in
      (omega arith, omega arith)

  -- The target is inside the build buffer.
  target_inside :
      (origin + mem_fence_width ≤ target + start)
      × (target + start + length ≤ origin + mem_fence_width + build_buf_size)
  target_inside =
      let (lx, _, lx') = larger_bounds scr_x d.show_x (scr_x + 319) in
      let (ly, _, ly') = larger_bounds scr_y d.show_y (scr_y + 181) in
      let (sx, _, _) = smaller_bounds scr_x d.show_x 0 in
      let (sy, _, _) = smaller_bounds scr_y d.show_y 0 in
      let (a, _, b, _) = near_bounds d.show_x d.show_y scr_x scr_y near in
      let lx2 : larger scr_x d.show_x ≤ scr_x + 319 = lx' (omega arith) (omega arith) in
      let ly2 : larger scr_y d.show_y ≤ scr_y + 181 = ly' (omega arith) (omega arith) in
      (omega arith, omega arith)

  overlap-Moved : Moved scr_x scr_y d (record d {
    show_x = scr_x;
    show_y = scr_y;
    img3_off = middle scr_x scr_y;
    img3 = target;
    build = copy length (d.img3 + start) (target + start) d.build;
  })
  overlap-Moved =
      let c = centred-IsPlaced scr_x scr_y d m in
      record {
        there = (refl, refl);
        screen = (refl, refl);
        placed = record { pointer = refl; starts = c.starts; ends = c.ends };
        kept = λ x y h k.
            let (lo, hi) = copied x y h k in
            ap (copy length (d.img3 + start) (target + start) d.build) (omega (arith, lo))
            ∙ copy_in length (d.img3 + start) (target + start) d.build (address 0 x y - start)
                (omega (arith, lo, hi))
            ∙ ap d.build (omega (arith, lo));
        others = λ a o. copy_out length (d.img3 + start) (target + start) d.build a (outside a o);
      }
    where
      outside : (a : ℕ) → ¬ Inside a → (a < target + start) ⊎ (target + start + length ≤ a)
      outside a o = elim (Bool-cases (ltb a (target + start))) [
        | inl t ↦ inl (ground arith)
        | inr f ↦ elim (Bool-cases (leb (target + start + length) a)) [
          | inl t ↦ inr (ground arith)
          | inr g ↦
              let (lo, hi) = target_inside in
              absurd (o (ground (arith, f, g, lo, hi), ground (arith, f, g, lo, hi)))
        ]
      ]

-- From a window inside the build buffer, and for coordinates below 65536, set_view_window puts the
-- window where it is told to, still inside the buffer, keeps every pixel that is on the old screen
-- and on the new one, and writes nothing outside the buffer.
pub set_view_window_lem :
    (scr_x scr_y : ℕ) (d : Display)
    → IsPlaced d
    → OnMap scr_x scr_y
    → Moved scr_x scr_y d (set_view_window scr_x scr_y d)
unfolding set_view_window
set_view_window_lem scr_x scr_y d p m = elim (Bool-cases (fits d.img3_off scr_x scr_y)) [
  | inl t ↦ rw t (record {
    there = (refl, refl);
    screen = (refl, refl);
    placed = fits-IsPlaced scr_x scr_y d p t;
    kept = λ x y h k. refl;
    others = λ a o. refl;
  })
  | inr f ↦ elim (Bool-cases (apart d.show_x d.show_y scr_x scr_y)) [
    | inl t ↦
        rw (f, t)
          (record {
            there = (refl, refl);
            screen = (refl, refl);
            placed = centred-IsPlaced scr_x scr_y d m;
            kept = λ x y h k. absurd (clash x y t h k);
            others = λ a o. refl;
          })
    | inr g ↦ rw (f, g) (overlap-Moved scr_x scr_y d p m g)
  ]
]
  where
    clash :
        (x y : ℕ)
        → apart d.show_x d.show_y scr_x scr_y ≡ true
        → OnScreen d x y
        → Within scr_x scr_y x y
        → ⊥
    clash x y t h k = ground arith
