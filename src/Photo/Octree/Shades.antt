-- ===== src/Photo/Octree/Shades.antt =====
-- The colours that `set_plt_values` of mp2/photo.c picks are close to those of the pixels that
-- `calculate_vga` codes by them.
use native.Mathlib.Nat.{le-div_iff_mul-le, div-le_of_le-mul, mul_comm}
use computer_systems_enginee.Base.{
  ℕ, zero, suc, ◌+◌, ◌*◌, ◌/◌, ◌≤◌, ◌<◌, ◌≡◌, ◌≢◌, ◌⊎◌, inl, inr, refl, ap, ◌∙◌, subst, Bool, true,
  ◌==◌, ==_refl, Bool-cases, List, [], ◌∷◌, arith, get_or, length, drop,
}
use computer_systems_enginee.Photo.Types.{Colour}
use computer_systems_enginee.Photo.Octree.{Node, average, put_average, second_colours}
use computer_systems_enginee.Photo.Octree.Sums.{Field, counts, ones, read, total}
use computer_systems_enginee.Photo.Octree.Removal.{
  length-put_average, put_average_ne, put_average_self, none_left,
}

-- The second loop writes the slot of each node once.
pub second_slots_out :
    (i : ℕ) (l : List Node) (palette : List Colour) (s : ℕ) (d : Colour)
    → (s < i) ⊎ (i + length l ≤ s)
    → get_or (second_colours i l palette) s d ≡ get_or palette s d
unfolding second_colours
second_slots_out i [] palette s d h = refl
second_slots_out i (x ∷ l) palette s d h =
    second_slots_out (suc i) l (put_average i x palette) s d (ground (arith, h))
    ∙ put_average_ne i s x palette d (ground (arith, h))

pub second_slots_in :
    (i : ℕ) (l : List Node) (palette : List Colour) (k : ℕ) (e : Node) (d : Colour)
    → k < length l
    → i + length l ≤ length palette
    → (get_or l k e).counter ≢ 0
    → get_or (second_colours i l palette) (i + k) d ≡ average (get_or l k e)
unfolding second_colours
second_slots_in i [] palette k e d h m ne = absurd (omega arith)
second_slots_in i (x ∷ l) palette zero e d h m ne =
    second_slots_out (suc i) l (put_average i x palette) (i + 0) d (inl (omega arith))
    ∙ ap (λ s. get_or (put_average i x palette) s d) (omega arith)
    ∙ put_average_self i x palette d (omega (arith, m)) ne
second_slots_in i (x ∷ l) palette (suc k) e d h m ne =
    ap (λ s. get_or (second_colours (suc i) l (put_average i x palette)) s d) (omega arith)
    ∙ second_slots_in (suc i) l (put_average i x palette) k e d (omega arith)
        (omega (arith, m, length-put_average i x palette)) ne

pub mean :
    (sum count lo hi : ℕ)
    → 0 < count
    → lo * count ≤ sum
    → sum ≤ hi * count
    → (lo ≤ sum / count) × (sum / count ≤ hi)
mean sum count lo hi h a b =
    ((le-div_iff_mul-le h).1 a, div-le_of_le-mul count (subst (λ z. sum ≤ z) (mul_comm hi count) b))

-- Bounds on the sums of the classes of one colour give bounds on the sum of several.
module _ (f : Field) (lo hi : ℕ) (q : ℕ → Bool) where
  abbrev pub Bounded : List Node → Type 0
  Bounded l =
      (c : ℕ)
      → q c ≡ true
      → (total (λ z. z == c) ones l ≤ 1)
        × (lo * total (λ z. z == c) counts l ≤ total (λ z. z == c) f l)
        × (total (λ z. z == c) f l ≤ hi * total (λ z. z == c) counts l)

  tail-Bounded : (x : Node) (l : List Node) → Bounded (x ∷ l) → Bounded l
  unfolding total
  tail-Bounded x l b c t = elim (Bool-cases (x.color == c)) [
    | inl e ↦
        let (u, _, _) = rw e at (b c t) in
        let z : total (λ z. z == c) ones l ≡ 0 = omega (arith, u) in
        let zc = none_left c counts l z in
        let zf = none_left c f l z in
        (omega (arith, z), grind (arith, zc, zf), grind (arith, zc, zf))
    | inr e ↦
        let (u, lower, upper) = rw e at (b c t) in
        (omega (arith, u), grind (arith, lower), grind (arith, upper))
  ]

  pub left_bounds :
      (n : ℕ) (l : List Node)
      → Bounded l
      → (lo * total q counts (drop n l) ≤ total q f (drop n l))
        × (total q f (drop n l) ≤ hi * total q counts (drop n l))
  unfolding total
  left_bounds zero [] b = (omega arith, omega arith)
  left_bounds (suc n) [] b = (omega arith, omega arith)
  left_bounds (suc n) (x ∷ l) b = left_bounds n l (tail-Bounded x l b)
  left_bounds zero (x ∷ l) b =
      let rest = left_bounds zero l (tail-Bounded x l b) in
      elim (Bool-cases (q x.color)) [
        | inl t ↦
            let (u, lower, upper) = rw (==_refl x.color) at (b x.color t) in
            let z : total (λ z. z == x.color) ones l ≡ 0 = omega (arith, u) in
            let zc = none_left x.color counts l z in
            let zf = none_left x.color f l z in
            let lower' : lo * x.counter ≤ read f x = grind (arith, lower, zc, zf) in
            let upper' : read f x ≤ hi * x.counter = grind (arith, upper, zc, zf) in
            rw t (grind (arith, lower', rest.0), grind (arith, upper', rest.1))
        | inr t ↦ rw t (grind (arith, rest.0), grind (arith, rest.1))
      ]
