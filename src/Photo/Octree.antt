-- ===== src/Photo/Octree.antt =====
-- The palette of a photo in mp2/photo.c: the two levels of the octree, the colours that are picked
-- from them, and the pixels that are coded by them. The field `index` of a node of the second level
-- is never read, and is left out. qsort is outside the repository, and is an argument. The bits of a
-- colour do not overlap, so `|` is a sum. The totals are those of at most 2 ^ 20 pixels, and do not
-- wrap around.
pub mod Sums
pub mod Levels
pub mod Removal
pub mod Shades
pub mod Means
pub mod Coding
use computer_systems_enginee.Base.{
  ℕ, zero, suc, ◌+◌, ◌-◌, ◌*◌, ◌/◌, ◌%◌, Bool, ◌==◌, if◌then◌else◌, Option, none, some, List, [],
  ◌∷◌, get_or, set,
}
use computer_systems_enginee.Photo.Types.{Colour}

-- `node_t`
pub record Node : Type 0 where
  pub total_red : ℕ
  pub total_green : ℕ
  pub total_blue : ℕ
  pub color : ℕ
  pub index : ℕ
  pub counter : ℕ

-- The arrays `second_lev` and `fourth_lev`.
pub record Octree : Type 0 where
  pub second_lev : List Node
  pub fourth_lev : List Node

abbrev pub empty_node : ℕ → Node
empty_node i = record {
  total_red = 0;
  total_green = 0;
  total_blue = 0;
  color = i;
  index = 0;
  counter = 0;
}

-- A loop of `arr_initialize`, with `n` nodes to go.
unfoldable pub empty_nodes : ℕ → ℕ → List Node
empty_nodes zero i = []
empty_nodes (suc n) i = empty_node i ∷ empty_nodes n (suc i)

-- `arr_initialize`
unfoldable pub arr_initialize : Octree
unfolding empty_nodes
arr_initialize = record { second_lev = empty_nodes 64 0; fourth_lev = empty_nodes 4096 0 }

-- The 5:6:5 channels of a pixel.
abbrev pub red : ℕ → ℕ
red pixel = pixel / 2048 % 32

abbrev pub green : ℕ → ℕ
green pixel = pixel / 32 % 64

abbrev pub blue : ℕ → ℕ
blue pixel = pixel % 32

-- The index of a pixel in each level.
abbrev pub second_index : ℕ → ℕ
second_index pixel = red pixel / 8 * 16 + green pixel / 16 * 4 + blue pixel / 8

abbrev pub fourth_index : ℕ → ℕ
fourth_index pixel = red pixel / 2 * 256 + green pixel / 4 * 16 + blue pixel / 2

-- The node of the second level to which one of the fourth level belongs.
abbrev pub parent : ℕ → ℕ
parent color = color / 1024 % 4 * 16 + color / 64 % 4 * 4 + color / 4 % 4

abbrev pub add_pixel : ℕ → Node → Node
add_pixel pixel n = record n {
  total_red = n.total_red + red pixel;
  total_green = n.total_green + green pixel;
  total_blue = n.total_blue + blue pixel;
  counter = n.counter + 1;
}

-- An element of an array is changed.
unfoldable pub alter : (Node → Node) → ℕ → List Node → List Node
alter f i [] = []
alter f zero (n ∷ l) = f n ∷ l
alter f (suc i) (n ∷ l) = n ∷ alter f i l

-- `insert_values`
unfoldable pub insert_values : ℕ → Octree → Octree
unfolding alter
insert_values pixel t = record {
  second_lev = alter (add_pixel pixel) (second_index pixel) t.second_lev;
  fourth_lev = alter (add_pixel pixel) (fourth_index pixel) t.fourth_lev;
}

-- The average colour of a node. No colour is written for a node without pixels.
abbrev pub average : Node → Colour
average n = record {
  red = n.total_red / n.counter;
  green = n.total_green / n.counter;
  blue = n.total_blue / n.counter;
}

abbrev pub put_average : ℕ → Node → List Colour → List Colour
put_average slot n palette = if n.counter == 0 then palette else set palette slot (average n)

abbrev pub take_away : Node → Node → Node
take_away n s = record s {
  total_red = s.total_red - n.total_red;
  total_green = s.total_green - n.total_green;
  total_blue = s.total_blue - n.total_blue;
  counter = s.counter - n.counter;
}

-- What `set_plt_values` leaves.
pub record Chosen : Type 0 where
  pub second : List Node
  pub fourth : List Node
  pub palette : List Colour

-- The first loop of `set_plt_values`, from node `i` on, with `n` rounds to go: `l` is the fourth level
-- from there on.
unfoldable pub fourth_colours : ℕ → ℕ → List Node → List Node → List Colour → Chosen
unfolding alter
fourth_colours zero i l second palette = record { second = second; fourth = l; palette = palette }
fourth_colours (suc n) i [] second palette = record {
  second = second;
  fourth = [];
  palette = palette;
}
fourth_colours (suc n) i (x ∷ l) second palette =
    let rest =
      fourth_colours n (suc i) l (alter (take_away x) (parent x.color) second)
        (put_average (i + 64) x palette) in
    record rest { fourth = record x { index = i + 64 } ∷ rest.fourth }

-- The second loop, over the second level from node `i` on.
unfoldable pub second_colours : ℕ → List Node → List Colour → List Colour
second_colours i [] palette = palette
second_colours i (x ∷ l) palette = second_colours (suc i) l (put_average i x palette)

-- `set_plt_values`
unfoldable pub set_plt_values : (List Node → List Node) → List Colour → Octree → Chosen
unfolding fourth_colours second_colours
set_plt_values qsort palette t =
    let chosen = fourth_colours 128 0 (qsort t.fourth_lev) t.second_lev palette in
    record chosen { palette = second_colours 0 chosen.second chosen.palette }

-- The loop of `calculate_vga`, with `n` nodes to go.
unfoldable pub find_color : ℕ → ℕ → List Node → Option ℕ
find_color zero vga_index l = none
find_color (suc n) vga_index [] = none
find_color (suc n) vga_index (x ∷ l) =
    let rest = find_color n vga_index l in if x.color == vga_index then some x.index else rest

abbrev vga_of : Option ℕ → ℕ → ℕ
vga_of none pixel = second_index pixel + 64
vga_of (some index) pixel = index + 64

-- `calculate_vga`
unfoldable pub calculate_vga : List Node → ℕ → ℕ
unfolding find_color
calculate_vga fourth pixel = vga_of (find_color 128 (fourth_index pixel) fourth) pixel

-- `insert_values` for each pixel of a photo.
unfoldable pub insert_all : List ℕ → Octree → Octree
unfolding insert_values
insert_all [] t = t
insert_all (p ∷ ps) t = insert_all ps (insert_values p t)
