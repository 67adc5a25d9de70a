-- ===== src/Adventure/View/Motions.antt =====
-- The view of mp2/adventure.c stays inside the photo, and what comes into view is drawn.
use computer_systems_enginee.Base.{
  ℕ, zero, suc, ◌+◌, ◌-◌, ◌%◌, ◌^◌, ◌≤◌, ◌<◌, ◌≡◌, ◌⊎◌, refl, sym, subst, inl, inr, arith, ltb,
  if◌then◌else◌, Bool-cases, List, In,
}
use computer_systems_enginee.Adventure.View.{
  View, scroll_x_dim, scroll_y_dim, room_left, clip, first_lines, last_lines, drawn_last,
  move_photo_down, move_photo_right, move_photo_left, move_photo_up,
}

-- The screen lies inside a photo of this size.
pub record InView (width height : ℕ) (v : View) : Type 0 where
  pub columns : v.map_x + scroll_x_dim ≤ width
  pub rows : v.map_y + scroll_y_dim ≤ height
  pub wide : width < 2 ^ 16
  pub high : height < 2 ^ 16

pub In-first_lines : (c idx n : ℕ) → idx ≤ c → c < idx + n → In c (first_lines idx n)
unfolding first_lines
In-first_lines c idx zero h k = absurd (omega arith)
In-first_lines c idx (suc n) h k = elim (Bool-cases (ltb idx c)) [
  | inl t ↦ inr (In-first_lines c (suc idx) n (ground (arith, t)) (omega arith))
  | inr f ↦ inl (ground (arith, h, f))
]

In-last_lines : (c end n : ℕ) → c < end → end ≤ c + n → In c (last_lines end n)
unfolding last_lines
In-last_lines c end zero h k = absurd (omega arith)
In-last_lines c end (suc n) h k = elim (Bool-cases (ltb (suc c) end)) [
  | inl t ↦ inr (In-last_lines c (end - 1) n (ground (arith, t)) (omega arith))
  | inr f ↦ inl (ground (arith, h, f))
]

-- Inside the photo, the differences are not negative.
room_left_eq :
    (size dim pos : ℕ)
    → pos + dim ≤ size
    → size < 2 ^ 16
    → room_left size dim pos ≡ size - dim - pos
unfolding room_left
room_left_eq size dim pos h k = omega arith

clip_bounds :
    (speed delta : ℕ) → delta < 2 ^ 16 → (clip speed delta ≤ delta) × (clip speed delta < 2 ^ 16)
unfolding clip
clip_bounds speed delta h = (ground arith, ground arith)

drawn_last_eq : (dim delta : ℕ) → delta < 2 ^ 16 → drawn_last dim delta ≡ last_lines dim delta
drawn_last_eq dim delta h = ground arith

-- A motion along one side: every line of the screen was in view before, or is drawn.
abbrev pub Exposes : ℕ → ℕ → ℕ → List ℕ → Type 0
Exposes dim before after lines =
    (c : ℕ) → c < dim → ((before ≤ after + c) × (after + c < before + dim)) ⊎ In c lines

back-Exposes :
    (dim before delta : ℕ)
    → delta ≤ before
    → Exposes dim before (before - delta) (first_lines 0 delta)
back-Exposes dim before delta h c k = elim (Bool-cases (ltb c delta)) [
  | inl t ↦ inr (In-first_lines c 0 delta (omega arith) (ground (arith, t)))
  | inr f ↦ inl (ground (arith, f, h), omega arith)
]

on_Exposes : (dim before delta : ℕ) → Exposes dim before (before + delta) (last_lines dim delta)
on_Exposes dim before delta c k = elim (Bool-cases (ltb (c + delta) dim)) [
  | inl t ↦ inl (omega arith, ground (arith, t))
  | inr f ↦ inr (In-last_lines c dim delta k (ground (arith, f)))
]

-- A motion that keeps the screen inside the photo and draws what comes into view.
pub record Moves (width height : ℕ) (v : View) (result : View × List ℕ) : Type 0 where
  pub inside : InView width height result.0
  pub across : Exposes scroll_x_dim v.map_x result.0.map_x result.1 ⊎ (result.0.map_x ≡ v.map_x)
  pub along : Exposes scroll_y_dim v.map_y result.0.map_y result.1 ⊎ (result.0.map_y ≡ v.map_y)

-- From a view inside the photo, moving the photo down keeps the view inside it, and every row of
-- the screen was in view before or is drawn.
pub move_photo_down_lem :
    (width height : ℕ) (v : View) → InView width height v → Moves width height v (move_photo_down v)
unfolding move_photo_down
move_photo_down_lem width height v h =
    let delta = if ltb v.map_y v.y_speed then v.map_y else v.y_speed in
    let le : delta ≤ v.map_y = ground arith in
    record {
      inside = record {
        columns = h.columns;
        rows = omega (arith, h.rows);
        wide = h.wide;
        high = h.high;
      };
      across = inr refl;
      along = inl (back-Exposes scroll_y_dim v.map_y delta le);
    }

-- From a view inside the photo, moving the photo right keeps the view inside it, and every column
-- of the screen was in view before or is drawn.
pub move_photo_right_lem :
    (width height : ℕ) (v : View)
    → InView width height v
    → Moves width height v (move_photo_right v)
unfolding move_photo_right
move_photo_right_lem width height v h =
    let delta = if ltb v.map_x v.x_speed then v.map_x else v.x_speed in
    let le : delta ≤ v.map_x = ground arith in
    record {
      inside = record {
        columns = omega (arith, h.columns);
        rows = h.rows;
        wide = h.wide;
        high = h.high;
      };
      across = inl (back-Exposes scroll_x_dim v.map_x delta le);
      along = inr refl;
    }

-- One step on along a side of the photo, where `left` lines are left to show.
record StepsOn (size dim pos speed left : ℕ) : Type 0 where
  pub fits : (pos + clip speed left) % 2 ^ 32 + dim ≤ size
  pub shows : Exposes dim pos ((pos + clip speed left) % 2 ^ 32) (drawn_last dim (clip speed left))

steps_on :
    (size dim pos speed : ℕ)
    → pos + dim ≤ size
    → size < 2 ^ 16
    → StepsOn size dim pos speed (room_left size dim pos)
steps_on size dim pos speed h k =
    let delta = clip speed (size - dim - pos) in
    let (le, lt) = clip_bounds speed (size - dim - pos) (omega arith) in
    let sum : (pos + delta) % 2 ^ 32 ≡ pos + delta = omega (arith, le, h, k) in
    subst (StepsOn size dim pos speed) (sym (room_left_eq size dim pos h k)) (record {
      fits = omega (arith, sum, le, h);
      shows =
          subst (λ a. Exposes dim pos a (drawn_last dim delta)) (sym sum)
            (subst (Exposes dim pos (pos + delta)) (sym (drawn_last_eq dim delta lt))
              (on_Exposes dim pos delta));
    })

-- From a view inside the photo, moving the photo left keeps the view inside it, and every column of
-- the screen was in view before or is drawn.
pub move_photo_left_lem :
    (width height : ℕ) (v : View)
    → InView width height v
    → Moves width height v (move_photo_left width v)
unfolding move_photo_left
move_photo_left_lem width height v h =
    let s = steps_on width scroll_x_dim v.map_x v.x_speed h.columns h.wide in
    record {
      inside = record { columns = s.fits; rows = h.rows; wide = h.wide; high = h.high };
      across = inl s.shows;
      along = inr refl;
    }

-- From a view inside the photo, moving the photo up keeps the view inside it, and every row of the
-- screen was in view before or is drawn.
pub move_photo_up_lem :
    (width height : ℕ) (v : View)
    → InView width height v
    → Moves width height v (move_photo_up height v)
unfolding move_photo_up
move_photo_up_lem width height v h =
    let s = steps_on height scroll_y_dim v.map_y v.y_speed h.rows h.high in
    record {
      inside = record { columns = h.columns; rows = s.fits; wide = h.wide; high = h.high };
      across = inr refl;
      along = inl s.shows;
    }
