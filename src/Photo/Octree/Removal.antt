-- ===== src/Photo/Octree/Removal.antt =====
-- The first loop of `set_plt_values` in mp2/photo.c: what it leaves in the second level, and the colours
-- that it writes. Also what `calculate_vga` then finds.
use computer_systems_enginee.Base.{
  ℕ, zero, suc, ◌+◌, ◌-◌, ◌≤◌, ◌<◌, ◌≡◌, ◌≢◌, ◌⊎◌, inl, inr, refl, ap, ◌∙◌, ◌==◌, Bool-cases, none,
  some, List, [], ◌∷◌, arith, get_or, length, drop, length-set, get_or-set_self, get_or-set_ne,
}
use computer_systems_enginee.Photo.Types.{Colour}
use computer_systems_enginee.Photo.Octree.{
  Node, parent, alter, average, put_average, take_away, fourth_colours, find_color,
}
use computer_systems_enginee.Photo.Octree.Sums.{Field, ones, read, total}
use computer_systems_enginee.Photo.Octree.Levels.{length-alter, get_or-alter}

-- The fields that are taken away.
abbrev pub IsTaken : Field → Type 0
IsTaken f = (n s : Node) → read f (take_away n s) ≡ read f s - read f n

-- After the loop, the second level has what belongs to the nodes that are left.
pub second_left :
    (f : Field)
    → IsTaken f
    → (n i : ℕ) (l second : List Node) (palette : List Colour) (j : ℕ) (d : Node)
    → j < length second
    → read f (get_or second j d) ≡ total (λ c. parent c == j) f l
    → read f (get_or (fourth_colours n i l second palette).second j d)
      ≡ total (λ c. parent c == j) f (drop n l)
unfolding fourth_colours total
second_left f z zero i l second palette j d b h = h
second_left f z (suc n) i [] second palette j d b h = h
second_left f z (suc n) i (x ∷ l) second palette j d b h =
    let s' = alter (take_away x) (parent x.color) second in
    let at = get_or-alter (take_away x) (parent x.color) j second d b in
    second_left f z n (suc i) l s' (put_average (i + 64) x palette) j d
      (omega (arith, b, length-alter (take_away x) (parent x.color) second))
      (elim (Bool-cases (parent x.color == j)) [
        | inl t ↦
            let at' : get_or s' j d ≡ take_away x (get_or second j d) = at ∙ rw t refl in
            let h' : read f (get_or second j d) ≡ read f x + total (λ c. parent c == j) f l =
              h ∙ rw t refl in
            omega (arith, ap (read f) at', z x (get_or second j d), h')
        | inr t ↦
            let at' : get_or s' j d ≡ get_or second j d = at ∙ rw t refl in
            let h' : read f (get_or second j d) ≡ 0 + total (λ c. parent c == j) f l =
              h ∙ rw t refl in
            omega (arith, ap (read f) at', h')
      ])

pub length-second_left :
    (n i : ℕ) (l second : List Node) (palette : List Colour)
    → length (fourth_colours n i l second palette).second ≡ length second
unfolding fourth_colours
length-second_left zero i l second palette = refl
length-second_left (suc n) i [] second palette = refl
length-second_left (suc n) i (x ∷ l) second palette =
    length-second_left n (suc i) l (alter (take_away x) (parent x.color) second)
      (put_average (i + 64) x palette)
    ∙ length-alter (take_away x) (parent x.color) second

-- One slot of the palette is written.
pub length-put_average :
    (slot : ℕ) (x : Node) (palette : List Colour)
    → length (put_average slot x palette) ≡ length palette
length-put_average slot x palette = ground (arith, length-set palette slot (average x))

pub put_average_ne :
    (slot s : ℕ) (x : Node) (palette : List Colour) (d : Colour)
    → slot ≢ s
    → get_or (put_average slot x palette) s d ≡ get_or palette s d
put_average_ne slot s x palette d ne = ground (arith, get_or-set_ne palette slot s (average x) d ne)

pub put_average_self :
    (slot : ℕ) (x : Node) (palette : List Colour) (d : Colour)
    → slot < length palette
    → x.counter ≢ 0
    → get_or (put_average slot x palette) slot d ≡ average x
put_average_self slot x palette d h ne =
    ground (arith, ne, get_or-set_self palette slot (average x) d h)

-- Slots before those of the loop stay.
pub fourth_slots :
    (n i : ℕ) (l second : List Node) (palette : List Colour) (s : ℕ) (d : Colour)
    → s < i + 64
    → get_or (fourth_colours n i l second palette).palette s d ≡ get_or palette s d
unfolding fourth_colours
fourth_slots zero i l second palette s d h = refl
fourth_slots (suc n) i [] second palette s d h = refl
fourth_slots (suc n) i (x ∷ l) second palette s d h =
    fourth_slots n (suc i) l (alter (take_away x) (parent x.color) second)
      (put_average (i + 64) x palette) s d (omega arith)
    ∙ put_average_ne (i + 64) s x palette d (omega arith)

pub length-fourth_slots :
    (n i : ℕ) (l second : List Node) (palette : List Colour)
    → length (fourth_colours n i l second palette).palette ≡ length palette
unfolding fourth_colours
length-fourth_slots zero i l second palette = refl
length-fourth_slots (suc n) i [] second palette = refl
length-fourth_slots (suc n) i (x ∷ l) second palette =
    length-fourth_slots n (suc i) l (alter (take_away x) (parent x.color) second)
      (put_average (i + 64) x palette)
    ∙ length-put_average (i + 64) x palette

-- A node of the colour is among the first ones: its index is that of its slot.
pub record Found (c n i index : ℕ) (l : List Node) (palette : List Colour) : Type 0 where
  pub node : Node
  pub place : ℕ
  pub low : i ≤ place
  pub high : place < i + n
  pub indexed : index ≡ place + 64
  pub slot : (d : Colour) → node.counter ≢ 0 → get_or palette (place + 64) d ≡ average node
  pub alone : (f : Field) → total (λ z. z == c) ones l ≤ 1 → total (λ z. z == c) f l ≡ read f node

pub none_left :
    (c : ℕ) (f : Field) (l : List Node)
    → total (λ z. z == c) ones l ≡ 0
    → total (λ z. z == c) f l ≡ 0
unfolding total
none_left c f [] h = refl
none_left c f (x ∷ l) h = ground (arith, h, none_left c f l)

pub find_color_cases :
    (c n i : ℕ) (l second : List Node) (palette : List Colour)
    → i + n + 64 ≤ length palette
    → ((find_color n c (fourth_colours n i l second palette).fourth ≡ none)
        × ((f : Field) → total (λ z. z == c) f l ≡ total (λ z. z == c) f (drop n l)))
      ⊎ ((index : ℕ) × (find_color n c (fourth_colours n i l second palette).fourth ≡ some index)
          × Found c n i index l (fourth_colours n i l second palette).palette)
unfolding find_color fourth_colours total
find_color_cases c zero i l second palette h = inl (refl, λ f. refl)
find_color_cases c (suc n) i [] second palette h = inl (refl, λ f. refl)
find_color_cases c (suc n) i (x ∷ l) second palette h =
    let s' = alter (take_away x) (parent x.color) second in
    let p' = put_average (i + 64) x palette in
    let bound : suc i + n + 64 ≤ length p' =
      omega (arith, h, length-put_average (i + 64) x palette) in
    elim (Bool-cases (x.color == c)) [
      | inl t ↦ inr (
        i + 64,
        rw t refl,
        record {
          node = x;
          place = i;
          low = omega arith;
          high = omega arith;
          indexed = refl;
          slot = λ d ne.
              fourth_slots n (suc i) l s' p' (i + 64) d (omega arith)
              ∙ put_average_self (i + 64) x palette d (omega (arith, h)) ne;
          alone = λ f u.
              let u' : 1 + total (λ z. z == c) ones l ≤ 1 = rw t at u in
              rw t (omega (arith, none_left c f l (omega (arith, u'))));
        },
      )
      | inr t ↦ elim (find_color_cases c n (suc i) l s' p' bound) [
        | inl (e, same) ↦ inl (rw t e, λ f. rw t (omega (arith, same f)))
        | inr (index, e, found) ↦ inr (
          index,
          rw t e,
          record {
            node = found.node;
            place = found.place;
            low = omega (arith, found.low);
            high = omega (arith, found.high);
            indexed = found.indexed;
            slot = found.slot;
            alone = λ f u.
                let u' : 0 + total (λ z. z == c) ones l ≤ 1 = rw t at u in
                rw t (omega (arith, found.alone f (omega (arith, u'))));
          },
        )
      ]
    ]
