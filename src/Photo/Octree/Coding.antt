-- ===== src/Photo/Octree/Coding.antt =====
-- What `calculate_vga` of mp2/photo.c gives for a pixel of the photo, whatever the order that qsort
-- puts the nodes in.
use mathlib.Core.List.{Perm}
use computer_systems_enginee.Base.{
  ℕ, ◌+◌, ◌-◌, ◌*◌, ◌/◌, ◌%◌, ◌≤◌, ◌<◌, ◌≡◌, inl, inr, refl, sym, ap, ◌∙◌, subst, true, ◌==◌,
  ==_iff, ==_refl, List, In, arith, get_or, length, drop,
}
use computer_systems_enginee.Photo.Types.{Colour}
use computer_systems_enginee.Photo.Octree.{
  empty_node, Node, Octree, Chosen, arr_initialize, insert_all, red, green, blue, fourth_index,
  second_index, parent, average, fourth_colours, second_colours, set_plt_values, calculate_vga,
}
use computer_systems_enginee.Photo.Octree.Sums.{
  Field, reds, greens, blues, counts, read, total, pixel_sum, pixel_sum_pos,
}
use computer_systems_enginee.Photo.Octree.Levels.{Holds, insert_all-Holds}
use computer_systems_enginee.Photo.Octree.Removal.{
  second_left, length-second_left, length-fourth_slots, Found, IsTaken, find_color_cases,
}
use computer_systems_enginee.Photo.Octree.Shades.{second_slots_out, second_slots_in}
use computer_systems_enginee.Photo.Octree.Means.{
  Mean, sorted_sum, found_pos, found_Mean, left_pos, left_Mean, red_fourth, green_fourth,
  blue_fourth, red_second, green_second, blue_second,
}

-- Two colours with the same upper bits: those of red and blue above `w`, of green above `2 * w`.
abbrev pub SameBits : ℕ → Colour → ℕ → Type 0
SameBits w c p =
    (c.red / w ≡ red p / w) × (c.green / (2 * w) ≡ green p / (2 * w)) × (c.blue / w ≡ blue p / w)

-- The code of a pixel is a slot of the palette after the 64 colours of the objects, and the slot has
-- a colour with the same two upper bits of each channel, or four if it is one of the last 128.
pub record Coded (v : ℕ) (palette : List Colour) (p : ℕ) : Type 0 where
  pub low : 64 ≤ v
  pub high : v < 256
  pub coarse : (d : Colour) → SameBits 8 (get_or palette (v - 64) d) p
  pub fine : (d : Colour) → 128 ≤ v → SameBits 2 (get_or palette (v - 64) d) p

-- A mean within four bits, or within two, has the upper bits of the pixel.
fine_bits :
    (p : ℕ) (x : Node)
    → let c = fourth_index p in
      Mean reds x (c / 256 * 2) (c / 256 * 2 + 1)
      → Mean greens x (c / 16 % 16 * 4) (c / 16 % 16 * 4 + 3)
      → Mean blues x (c % 16 * 2) (c % 16 * 2 + 1)
      → SameBits 2 (average x) p × SameBits 8 (average x) p
fine_bits p x r g b = (
  (omega (arith, r), omega (arith, g), omega (arith, b)),
  (omega (arith, r), omega (arith, g), omega (arith, b)),
)

coarse_bits :
    (p : ℕ) (x : Node)
    → let j = second_index p in
      Mean reds x (j / 16 * 8) (j / 16 * 8 + 7)
      → Mean greens x (j / 4 % 4 * 16) (j / 4 % 4 * 16 + 15)
      → Mean blues x (j % 4 * 8) (j % 4 * 8 + 7)
      → SameBits 8 (average x) p
coarse_bits p x r g b = (omega (arith, r), omega (arith, g), omega (arith, b))

module _ (qsort : List Node → List Node) (sorts : (l : List Node) → Perm (qsort l) l)
    (palette : List Colour) (room : length palette ≡ 192) (ps : List ℕ) (p : ℕ)
    (inside : In p ps) where
  abbrev tree : Octree
  tree = insert_all ps arr_initialize

  abbrev sorted : List Node
  sorted = qsort tree.fourth_lev

  abbrev first : Chosen
  first = fourth_colours 128 0 sorted tree.second_lev palette

  abbrev held : Holds ps tree
  held = insert_all-Holds ps

  abbrev counted : 0 < pixel_sum (λ z. z == fourth_index p) counts ps
  counted = pixel_sum_pos (λ z. z == fourth_index p) p ps (==_refl (fourth_index p)) inside

  -- A pixel whose node is among the first 128.
  Coded-fourth :
      (index : ℕ)
      → Found (fourth_index p) 128 0 index sorted first.palette
      → Coded (index + 64) (second_colours 0 first.second first.palette) p
  Coded-fourth index found =
      let perm = sorts tree.fourth_lev in
      let pos =
        found_pos ps tree held sorted perm (fourth_index p) 128 0 index first.palette found
          counted in
      let means =
        found_Mean ps tree held sorted perm (fourth_index p) 128 0 index first.palette found
          counted in
      let bits =
        fine_bits p found.node (means reds _ _ (λ i. refl) (red_fourth (fourth_index p)))
          (means greens _ _ (λ i. refl) (green_fourth (fourth_index p)))
          (means blues _ _ (λ i. refl) (blue_fourth (fourth_index p))) in
      let size : length first.second ≡ 64 =
        length-second_left 128 0 sorted tree.second_lev palette ∙ held.second_size in
      let slot : (d : Colour)
          → get_or (second_colours 0 first.second first.palette) (index + 64 - 64) d
            ≡ average found.node =
        λ d.
          ap (λ s. get_or (second_colours 0 first.second first.palette) s d)
            (omega (arith, found.indexed))
          ∙ second_slots_out 0 first.second first.palette (found.place + 64) d
              (inr (omega (arith, size)))
          ∙ found.slot d (omega (arith, pos)) in
      record {
        low = omega arith;
        high = omega (arith, found.indexed, found.high);
        coarse = λ d. subst (λ c. SameBits 8 c p) (sym (slot d)) bits.1;
        fine = λ d h. subst (λ c. SameBits 2 c p) (sym (slot d)) bits.0;
      }

  -- A pixel whose node is not.
  Coded-second :
      ((f : Field)
        → total (λ z. z == fourth_index p) f sorted
          ≡ total (λ z. z == fourth_index p) f (drop 128 sorted))
      → Coded (second_index p + 64) (second_colours 0 first.second first.palette) p
  Coded-second same =
      let perm = sorts tree.fourth_lev in
      let j = second_index p in
      let x = get_or first.second j (empty_node 0) in
      let lt : j < 64 = omega arith in
      let own : (parent (fourth_index p) == j) ≡ true =
        (==_iff (parent (fourth_index p)) j).1 (omega arith) in
      let size : length first.second ≡ 64 =
        length-second_left 128 0 sorted tree.second_lev palette ∙ held.second_size in
      let sums : (f : Field)
          → IsTaken f
          → ((i : ℕ) → read f (empty_node i) ≡ 0)
          → read f x ≡ total (λ z. parent z == j) f (drop 128 sorted) =
        λ f taken z.
          second_left f taken 128 0 sorted tree.second_lev palette j (empty_node 0)
            (omega (arith, held.second_size))
            (held.second_sum f z j (empty_node 0) lt
              ∙ sym (sorted_sum ps tree held sorted perm f z (λ z. parent z == j))) in
      let count = sums counts (λ n s. refl) (λ i. refl) in
      let pos =
        left_pos ps tree held sorted perm j (fourth_index p) x own counted (same counts) count in
      let means =
        left_Mean ps tree held sorted perm j (fourth_index p) x own counted (same counts) count in
      let bits =
        coarse_bits p x
          (means reds _ _ (λ i. refl) (red_second j) (sums reds (λ n s. refl) (λ i. refl)))
          (means greens _ _ (λ i. refl) (green_second j) (sums greens (λ n s. refl) (λ i. refl)))
          (means blues _ _ (λ i. refl) (blue_second j) (sums blues (λ n s. refl) (λ i. refl))) in
      let slot : (d : Colour)
          → get_or (second_colours 0 first.second first.palette) (j + 64 - 64) d ≡ average x =
        λ d.
          ap (λ s. get_or (second_colours 0 first.second first.palette) s d) (omega arith)
          ∙ second_slots_in 0 first.second first.palette j (empty_node 0) d (omega (arith, size))
              (omega (arith, size, room, length-fourth_slots 128 0 sorted tree.second_lev palette))
              (omega (arith, pos)) in
      record {
        low = omega arith;
        high = omega arith;
        coarse = λ d. subst (λ c. SameBits 8 c p) (sym (slot d)) bits;
        fine = λ d h. absurd (omega (arith, h));
      }

  -- Whatever the order that qsort puts the nodes in, as long as it keeps them: after the pixels of
  -- a photo were inserted and the palette of 192 colours was set, calculate_vga codes each pixel of
  -- the photo by a number from 64 to 255, and its slot of the palette has a colour whose upper
  -- bits, two of each channel, are those of the pixel, or four where the number is at least 128.
  pub calculate_vga_lem :
      let chosen = set_plt_values qsort palette (insert_all ps arr_initialize) in
      Coded (calculate_vga chosen.fourth p) chosen.palette p
  unfolding set_plt_values calculate_vga
  calculate_vga_lem =
      elim (find_color_cases (fourth_index p) 128 0 sorted tree.second_lev palette
        (omega (arith, room))) [
          | inl (e, same) ↦ rw e (Coded-second same)
          | inr (index, e, found) ↦ rw e (Coded-fourth index found)
        ]
