-- ===== src/Photo/Octree/Sums.antt =====
-- Sums over the nodes of a level, and over the pixels of a photo.
use mathlib.Core.List.{Perm, Permᴰ}
use mathlib.Core.Logic.{∥∥₁_elim}
use native.Mathlib.Nat.{ℕ_set}
use computer_systems_enginee.Base.{
  ℕ, ◌+◌, ◌*◌, ◌≤◌, ◌<◌, ◌≡◌, inl, inr, refl, sym, ap, ◌∙◌, Bool, true, if◌then◌else◌, Bool-cases,
  List, [], ◌∷◌, In, arith,
}
use computer_systems_enginee.Photo.Octree.{Node, red, green, blue, fourth_index, add_pixel}

-- What is summed: a channel, the pixels, or the nodes themselves.
pub data Field : Type 0 where
  reds greens blues counts ones : Field

abbrev pub read : Field → Node → ℕ
read reds n = n.total_red
read greens n = n.total_green
read blues n = n.total_blue
read counts n = n.counter
read ones n = 1

-- What one pixel adds.
abbrev pub gain : Field → ℕ → ℕ
gain reds pixel = red pixel
gain greens pixel = green pixel
gain blues pixel = blue pixel
gain counts pixel = 1
gain ones pixel = 0

-- The sum over the nodes whose colour passes the test.
unfoldable pub total : (ℕ → Bool) → Field → List Node → ℕ
total q f [] = 0
total q f (n ∷ l) = (if q n.color then read f n else 0) + total q f l

-- The sum over the pixels whose node of the fourth level passes the test.
unfoldable pub pixel_sum : (ℕ → Bool) → Field → List ℕ → ℕ
pixel_sum q f [] = 0
pixel_sum q f (p ∷ ps) = (if q (fourth_index p) then gain f p else 0) + pixel_sum q f ps

total-Permᴰ : (q : ℕ → Bool) (f : Field) {l m : List Node} → Permᴰ l m → total q f l ≡ total q f m
unfolding total
total-Permᴰ q f Permᴰ.nil = refl
total-Permᴰ q f (Permᴰ.cons {a} {b} e d) =
    omega (arith, total-Permᴰ q f d, ap (λ n. if q n.color then read f n else 0) e)
total-Permᴰ q f (Permᴰ.swap {a} {b} {a'} {b'} e g) =
    let weight : Node → ℕ = λ n. if q n.color then read f n else 0 in
    omega (arith, ap weight e, ap weight g)
total-Permᴰ q f (Permᴰ.trans d e) = total-Permᴰ q f d ∙ total-Permᴰ q f e

-- Sorting does not change a sum.
pub total-Perm : (q : ℕ → Bool) (f : Field) (l m : List Node) → Perm l m → total q f l ≡ total q f m
total-Perm q f l m p = ∥∥₁_elim p (ℕ_set (total q f l) (total q f m)) (total-Permᴰ q f)

pub read-add_pixel : (f : Field) (p : ℕ) (n : Node) → read f (add_pixel p n) ≡ read f n + gain f p
read-add_pixel reds p n = refl
read-add_pixel greens p n = refl
read-add_pixel blues p n = refl
read-add_pixel counts p n = refl
read-add_pixel ones p n = omega arith

-- The pixels of a class lie between two bounds, and so does their sum.
module _ (q : ℕ → Bool) (f : Field) (lo hi : ℕ)
    (bounds : (p : ℕ) → q (fourth_index p) ≡ true → (lo ≤ gain f p) × (gain f p ≤ hi)) where
  pub pixel_sum_bounds :
      (ps : List ℕ)
      → (lo * pixel_sum q counts ps ≤ pixel_sum q f ps)
        × (pixel_sum q f ps ≤ hi * pixel_sum q counts ps)
  unfolding pixel_sum
  pixel_sum_bounds [] = (omega arith, omega arith)
  pixel_sum_bounds (p ∷ ps) =
      let (a, b) = pixel_sum_bounds ps in
      elim (Bool-cases (q (fourth_index p))) [
        | inl t ↦ let (c, d) = bounds p t in rw t (grind arith, grind arith)
        | inr e ↦ rw e (grind arith, grind arith)
      ]

-- A pixel of the photo counts.
pub pixel_sum_pos :
    (q : ℕ → Bool) (p : ℕ) (ps : List ℕ)
    → q (fourth_index p) ≡ true
    → In p ps
    → 0 < pixel_sum q counts ps
unfolding pixel_sum
pixel_sum_pos q p [] h i = absurd i
pixel_sum_pos q p (x ∷ ps) h (inl e) = rw (ap (λ z. q (fourth_index z)) (sym e) ∙ h) (omega arith)
pixel_sum_pos q p (x ∷ ps) h (inr i) = omega (arith, pixel_sum_pos q p ps h i)

-- A wider test gives a larger sum.
pub total_mono :
    (q r : ℕ → Bool) (f : Field) (l : List Node)
    → ((c : ℕ) → q c ≡ true → r c ≡ true)
    → total q f l ≤ total r f l
unfolding total
total_mono q r f [] h = omega arith
total_mono q r f (n ∷ l) h =
    let rest = total_mono q r f l h in
    elim (Bool-cases (q n.color)) [
      | inl t ↦ rw (t, h n.color t) (omega (arith, rest))
      | inr e ↦ rw e (omega (arith, rest))
    ]
