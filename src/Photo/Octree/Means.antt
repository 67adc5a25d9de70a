-- ===== src/Photo/Octree/Means.antt =====
-- The bounds on the averages of the octree's nodes (mp2/photo.c): of a node of the fourth level, and
-- of what the picked ones leave of a node of the second.
use mathlib.Core.List.{Perm}
use computer_systems_enginee.Base.{
  ℕ, ◌+◌, ◌*◌, ◌/◌, ◌%◌, ◌≤◌, ◌<◌, ◌≡◌, refl, sym, ap, ◌∙◌, Bool, true, ◌==◌, ==_iff, List, arith,
  drop,
}
use computer_systems_enginee.Photo.Types.{Colour}
use computer_systems_enginee.Photo.Octree.{empty_node, Node, Octree, fourth_index, parent}
use computer_systems_enginee.Photo.Octree.Sums.{
  Field, reds, greens, blues, counts, ones, read, gain, total, pixel_sum, total-Perm, total_mono,
  pixel_sum_bounds,
}
use computer_systems_enginee.Photo.Octree.Levels.{Holds}
use computer_systems_enginee.Photo.Octree.Removal.{Found}
use computer_systems_enginee.Photo.Octree.Shades.{mean, left_bounds}

-- The average of a field of a node lies between two bounds.
abbrev pub Mean : Field → Node → ℕ → ℕ → Type 0
Mean f x lo hi = (lo ≤ read f x / x.counter) × (read f x / x.counter ≤ hi)

-- The bounds on a channel of the pixels of a class, for both levels.
abbrev Bounds : (ℕ → Bool) → Field → ℕ → ℕ → Type 0
Bounds q f lo hi = (p : ℕ) → q (fourth_index p) ≡ true → (lo ≤ gain f p) × (gain f p ≤ hi)

-- The sorted fourth level.
module _ (ps : List ℕ) (t : Octree) (h : Holds ps t) (l : List Node)
    (perm : Perm l t.fourth_lev) where
  pub sorted_sum :
      (f : Field)
      → ((i : ℕ) → read f (empty_node i) ≡ 0)
      → (q : ℕ → Bool) → total q f l ≡ pixel_sum q f ps
  sorted_sum f z q = total-Perm q f l t.fourth_lev perm ∙ h.fourth_sum f z q

  sorted_once : (c : ℕ) → total (λ z. z == c) ones l ≤ 1
  sorted_once c = omega (arith, total-Perm (λ z. z == c) ones l t.fourth_lev perm, h.once c)

  -- A node among the first 128.
  module _ (c n i index : ℕ) (palette : List Colour) (found : Found c n i index l palette)
      (pos : 0 < pixel_sum (λ z. z == c) counts ps) where
    found_sum :
        (f : Field)
        → ((i : ℕ) → read f (empty_node i) ≡ 0)
        → read f found.node ≡ pixel_sum (λ z. z == c) f ps
    found_sum f z = sym (found.alone f (sorted_once c)) ∙ sorted_sum f z (λ z. z == c)

    pub found_pos : 0 < found.node.counter
    found_pos = omega (arith, found_sum counts (λ i. refl), pos)

    pub found_Mean :
        (f : Field) (lo hi : ℕ)
        → ((i : ℕ) → read f (empty_node i) ≡ 0)
        → Bounds (λ z. z == c) f lo hi
        → Mean f found.node lo hi
    found_Mean f lo hi z bounds =
        let (a, e) = pixel_sum_bounds (λ z. z == c) f lo hi bounds ps in
        let count : found.node.counter ≡ pixel_sum (λ z. z == c) counts ps =
          found_sum counts (λ i. refl) in
        let sum = found_sum f z in
        mean (read f found.node) found.node.counter lo hi found_pos (rw (sum, count) a)
          (rw (sum, count) e)

  -- A node of the second level, after 128 nodes are taken away.
  module _ (j c : ℕ) (x : Node) (own : (parent c == j) ≡ true)
      (pos : 0 < pixel_sum (λ z. z == c) counts ps)
      (left : total (λ z. z == c) counts l ≡ total (λ z. z == c) counts (drop 128 l))
      (count : x.counter ≡ total (λ z. parent z == j) counts (drop 128 l)) where
    pub left_pos : 0 < x.counter
    left_pos =
        let wide =
          total_mono (λ z. z == c) (λ z. parent z == j) counts (drop 128 l)
            (λ a e. ap (λ z. parent z == j) ((==_iff a c).0 e) ∙ own) in
        omega (arith, wide, left, count, pos, sorted_sum counts (λ i. refl) (λ z. z == c))

    pub left_Mean :
        (f : Field) (lo hi : ℕ)
        → ((i : ℕ) → read f (empty_node i) ≡ 0)
        → Bounds (λ z. parent z == j) f lo hi
        → read f x ≡ total (λ z. parent z == j) f (drop 128 l)
        → Mean f x lo hi
    left_Mean f lo hi z bounds sum =
        let (a, e) =
          left_bounds f lo hi (λ z. parent z == j) 128 l
            (λ c t.
              let (lower, upper) = pixel_sum_bounds (λ z. z == c) f lo hi (narrow c t) ps in
              let sums = sorted_sum f z (λ z. z == c) in
              let counted = sorted_sum counts (λ i. refl) (λ z. z == c) in
              (sorted_once c, rw (sums, counted) lower, rw (sums, counted) upper)) in
        mean (read f x) x.counter lo hi left_pos (rw (sum, count) a) (rw (sum, count) e)
      where
        narrow : (c : ℕ) → (parent c == j) ≡ true → Bounds (λ z. z == c) f lo hi
        narrow c t p e = bounds p (ap (λ z. parent z == j) ((==_iff (fourth_index p) c).0 e) ∙ t)

-- The bounds of the channels in each class.
pub red_fourth : (c : ℕ) → Bounds (λ z. z == c) reds (c / 256 * 2) (c / 256 * 2 + 1)
red_fourth c p e = let k = (==_iff (fourth_index p) c).0 e in (omega (arith, k), omega (arith, k))

pub green_fourth : (c : ℕ) → Bounds (λ z. z == c) greens (c / 16 % 16 * 4) (c / 16 % 16 * 4 + 3)
green_fourth c p e = let k = (==_iff (fourth_index p) c).0 e in (omega (arith, k), omega (arith, k))

pub blue_fourth : (c : ℕ) → Bounds (λ z. z == c) blues (c % 16 * 2) (c % 16 * 2 + 1)
blue_fourth c p e = let k = (==_iff (fourth_index p) c).0 e in (omega (arith, k), omega (arith, k))

pub red_second : (j : ℕ) → Bounds (λ z. parent z == j) reds (j / 16 * 8) (j / 16 * 8 + 7)
red_second j p e =
    let k = (==_iff (parent (fourth_index p)) j).0 e in (omega (arith, k), omega (arith, k))

pub green_second :
    (j : ℕ) → Bounds (λ z. parent z == j) greens (j / 4 % 4 * 16) (j / 4 % 4 * 16 + 15)
green_second j p e =
    let k = (==_iff (parent (fourth_index p)) j).0 e in (omega (arith, k), omega (arith, k))

pub blue_second : (j : ℕ) → Bounds (λ z. parent z == j) blues (j % 4 * 8) (j % 4 * 8 + 7)
blue_second j p e =
    let k = (==_iff (parent (fourth_index p)) j).0 e in (omega (arith, k), omega (arith, k))
