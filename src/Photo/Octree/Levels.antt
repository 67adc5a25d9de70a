-- ===== src/Photo/Octree/Levels.antt =====
-- The two levels of the octree in mp2/photo.c hold the sums over the pixels that were inserted.
use computer_systems_enginee.Base.{
  ℕ, zero, suc, ◌+◌, ◌≤◌, ◌<◌, ◌≡◌, inl, inr, refl, sym, ap, ◌∙◌, Bool, true, false, ◌==◌, leb, ltb,
  ◌&&◌, if◌then◌else◌, Bool-cases, List, [], ◌∷◌, arith, get_or, length,
}
use computer_systems_enginee.Photo.Octree.{
  Node, Octree, empty_node, empty_nodes, arr_initialize, second_index, fourth_index, parent,
  add_pixel, alter, insert_values, insert_all,
}
use computer_systems_enginee.Photo.Octree.Sums.{
  Field, ones, read, gain, total, pixel_sum, read-add_pixel,
}

-- The nodes from number `i` on have their numbers as colours.
abbrev pub Coloured : ℕ → List Node → Type 0
Coloured i [] = Unit {0}
Coloured i (n ∷ l) = (n.color ≡ i) × Coloured (suc i) l

pub length-alter : (f : Node → Node) (k : ℕ) (l : List Node) → length (alter f k l) ≡ length l
unfolding alter
length-alter f k [] = refl
length-alter f zero (n ∷ l) = refl
length-alter f (suc k) (n ∷ l) = ap suc (length-alter f k l)

pub get_or-alter :
    (f : Node → Node) (k j : ℕ) (l : List Node) (d : Node)
    → j < length l
    → get_or (alter f k l) j d ≡ (if k == j then f (get_or l j d) else get_or l j d)
unfolding alter
get_or-alter f k j [] d h = absurd (omega arith)
get_or-alter f zero zero (n ∷ l) d h = refl
get_or-alter f zero (suc j) (n ∷ l) d h = ground arith
get_or-alter f (suc k) zero (n ∷ l) d h = ground arith
get_or-alter f (suc k) (suc j) (n ∷ l) d h = get_or-alter f k j l d (omega arith) ∙ ground arith

alter-Coloured : (p k i : ℕ) (l : List Node) → Coloured i l → Coloured i (alter (add_pixel p) k l)
unfolding alter
alter-Coloured p k i [] c = c
alter-Coloured p zero i (n ∷ l) c = c
alter-Coloured p (suc k) i (n ∷ l) c = (c.0, alter-Coloured p k (suc i) l c.1)

total-alter :
    (q : ℕ → Bool) (f : Field) (p k i : ℕ) (l : List Node)
    → Coloured i l
    → k < length l
    → total q f (alter (add_pixel p) k l) ≡ total q f l + (if q (i + k) then gain f p else 0)
unfolding total alter
total-alter q f p k i [] c h = absurd (omega arith)
total-alter q f p zero i (n ∷ l) c h =
    let e : n.color ≡ i + 0 = omega (arith, c.0) in
    let a = read-add_pixel f p n in
    elim (Bool-cases (q n.color)) [
      | inl t ↦ let t' : q (i + 0) ≡ true = ap q (sym e) ∙ t in rw (t, t') (omega (arith, a))
      | inr t ↦ let t' : q (i + 0) ≡ false = ap q (sym e) ∙ t in rw (t, t') (omega arith)
    ]
total-alter q f p (suc k) i (n ∷ l) c h =
    let rest = total-alter q f p k (suc i) l c.1 (omega arith) in
    let e : suc i + k ≡ i + suc k = omega arith in
    omega (arith, rest, ap (λ z. if q z then gain f p else 0) e)

fourth_index-lt : (p : ℕ) → fourth_index p < 4096
fourth_index-lt p = omega arith

second_index_eq : (p : ℕ) → second_index p ≡ parent (fourth_index p)
second_index_eq p = omega arith

second_index-lt : (p : ℕ) → second_index p < 64
second_index-lt p = omega arith

-- The sums over the fourth level grow by those over the pixels.
fourth_sums :
    (q : ℕ → Bool) (f : Field) (ps : List ℕ) (t : Octree)
    → Coloured 0 t.fourth_lev
    → length t.fourth_lev ≡ 4096
    → total q f (insert_all ps t).fourth_lev ≡ total q f t.fourth_lev + pixel_sum q f ps
unfolding insert_all insert_values pixel_sum
fourth_sums q f [] t c h = omega arith
fourth_sums q f (p ∷ ps) t c h =
    let l = t.fourth_lev in
    let k = fourth_index p in
    let here = total-alter q f p k 0 l c (omega (arith, h)) in
    let rest =
      fourth_sums q f ps (insert_values p t) (alter-Coloured p k 0 l c)
        (length-alter (add_pixel p) k l ∙ h) in
    let e : 0 + k ≡ k = omega arith in
    omega (arith, rest, here, ap (λ z. if q z then gain f p else 0) e)

-- A node of the second level grows by the pixels that belong to it.
second_sums :
    (f : Field) (j : ℕ) (d : Node) (ps : List ℕ) (t : Octree)
    → j < 64
    → length t.second_lev ≡ 64
    → read f (get_or (insert_all ps t).second_lev j d)
      ≡ read f (get_or t.second_lev j d) + pixel_sum (λ c. parent c == j) f ps
unfolding insert_all insert_values pixel_sum
second_sums f j d [] t b h = omega arith
second_sums f j d (p ∷ ps) t b h =
    let l = t.second_lev in
    let k = second_index p in
    let at = get_or-alter (add_pixel p) k j l d (omega (arith, b, h)) in
    let rest = second_sums f j d ps (insert_values p t) b (length-alter (add_pixel p) k l ∙ h) in
    let a = read-add_pixel f p (get_or l j d) in
    let e = second_index_eq p in
    elim (Bool-cases (k == j)) [
      | inl t ↦
          let t' : (parent (fourth_index p) == j) ≡ true = ap (λ z. z == j) (sym e) ∙ t in
          let at' : get_or (alter (add_pixel p) k l) j d ≡ add_pixel p (get_or l j d) =
            at ∙ rw t refl in
          rw t' (omega (arith, rest, ap (read f) at', a))
      | inr t ↦
          let t' : (parent (fourth_index p) == j) ≡ false = ap (λ z. z == j) (sym e) ∙ t in
          let at' : get_or (alter (add_pixel p) k l) j d ≡ get_or l j d = at ∙ rw t refl in
          rw t' (omega (arith, rest, ap (read f) at'))
    ]

-- At the start the sums are 0, and each number is the colour of one node.
empty-Coloured : (n i : ℕ) → Coloured i (empty_nodes n i)
unfolding empty_nodes
empty-Coloured zero i = tt
empty-Coloured (suc n) i = (refl, empty-Coloured n (suc i))

length-empty : (n i : ℕ) → length (empty_nodes n i) ≡ n
unfolding empty_nodes
length-empty zero i = refl
length-empty (suc n) i = ap suc (length-empty n (suc i))

total-empty :
    (q : ℕ → Bool) (f : Field)
    → ((i : ℕ) → read f (empty_node i) ≡ 0)
    → (n i : ℕ) → total q f (empty_nodes n i) ≡ 0
unfolding total empty_nodes
total-empty q f z zero i = refl
total-empty q f z (suc n) i = ground (arith, z i, total-empty q f z n (suc i))

total-ones-empty :
    (c n i : ℕ)
    → total (λ z. z == c) ones (empty_nodes n i) ≡ (if leb i c && ltb c (i + n) then 1 else 0)
unfolding total empty_nodes
total-ones-empty c zero i = ground arith
total-ones-empty c (suc n) i = ground (arith, total-ones-empty c n (suc i))

second-empty :
    (f : Field) (d : Node)
    → ((i : ℕ) → read f (empty_node i) ≡ 0)
    → (n i j : ℕ) → j < n
    → read f (get_or (empty_nodes n i) j d) ≡ 0
unfolding empty_nodes
second-empty f d z zero i j h = absurd (omega arith)
second-empty f d z (suc n) i zero h = z i
second-empty f d z (suc n) i (suc j) h = second-empty f d z n (suc i) j (omega arith)

pixel_sum-ones : (q : ℕ → Bool) (ps : List ℕ) → pixel_sum q ones ps ≡ 0
unfolding pixel_sum
pixel_sum-ones q [] = refl
pixel_sum-ones q (p ∷ ps) = ground (arith, pixel_sum-ones q ps)

length-insert_all :
    (ps : List ℕ) (t : Octree)
    → (length (insert_all ps t).second_lev ≡ length t.second_lev)
      × (length (insert_all ps t).fourth_lev ≡ length t.fourth_lev)
unfolding insert_all insert_values
length-insert_all [] t = (refl, refl)
length-insert_all (p ∷ ps) t =
    let (a, b) = length-insert_all ps (insert_values p t) in
    (
      a ∙ length-alter (add_pixel p) (second_index p) t.second_lev,
      b ∙ length-alter (add_pixel p) (fourth_index p) t.fourth_lev,
    )

-- What the levels hold after the pixels of a photo.
pub record Holds (ps : List ℕ) (t : Octree) : Type 0 where
  pub second_size : length t.second_lev ≡ 64
  pub fourth_size : length t.fourth_lev ≡ 4096
  pub second_sum :
      (f : Field)
      → ((i : ℕ) → read f (empty_node i) ≡ 0)
      → (j : ℕ) (d : Node) → j < 64
      → read f (get_or t.second_lev j d) ≡ pixel_sum (λ c. parent c == j) f ps
  pub fourth_sum :
      (f : Field)
      → ((i : ℕ) → read f (empty_node i) ≡ 0)
      → (q : ℕ → Bool) → total q f t.fourth_lev ≡ pixel_sum q f ps
  pub once : (c : ℕ) → total (λ z. z == c) ones t.fourth_lev ≤ 1

-- After arr_initialize and an insert_values for each pixel, a node of either level holds the sums
-- over its pixels, and no colour has two nodes of the fourth level.
pub insert_all-Holds : (ps : List ℕ) → Holds ps (insert_all ps arr_initialize)
unfolding arr_initialize
insert_all-Holds ps =
    let (a, b) = length-insert_all ps arr_initialize in
    let fourth = λ (q : ℕ → Bool) (f : Field).
      fourth_sums q f ps arr_initialize (empty-Coloured 4096 0) (length-empty 4096 0) in
    record {
      second_size = a ∙ length-empty 64 0;
      fourth_size = b ∙ length-empty 4096 0;
      second_sum = λ f z j d h. omega (
        arith,
        second_sums f j d ps arr_initialize h (length-empty 64 0),
        second-empty f d z 64 0 j h,
      );
      fourth_sum = λ f z q. omega (arith, fourth q f, total-empty q f z 4096 0);
      once = λ c. omega (arith, fourth (λ z. z == c) ones, pixel_sum-ones (λ z. z == c) ps, one c);
    }
  where
    one : (c : ℕ) → total (λ z. z == c) ones (empty_nodes 4096 0) ≤ 1
    one c = ground (arith, total-ones-empty c 4096 0)
