-- ===== src/World/Objects/Removal.antt =====
-- `remove_object` of mp2/world.c: it ends, and takes the object out of the list that holds it.
use computer_systems_enginee.Base.{
  ℕ, ◌≡◌, ◌≢◌, ◌⊎◌, refl, sym, subst, fun_ext, ap, ◌∙◌, inl, inr, none, some, List, [], ◌∷◌, arith,
  In, AllBelow, erase, ◌==◌, ==_iff, if◌then◌else◌, Bool-cases, In-erase, In-erase_of_ne,
  not-In-erase_self, erase-Distinct, length-le_of_Distinct, Option-cases,
}
use native.Mathlib.Decide.{ℕ_discrete}
use computer_systems_enginee.World.Ids.{n_objects}
use computer_systems_enginee.World.State.{World, modify, bind_eq}
use computer_systems_enginee.World.Objects.{
  Cell, head_of, next_of, write_cell, unlink, walk_fuel, set_loc, remove_object,
}
use computer_systems_enginee.World.Objects.Chains.{
  Chain, Chain-frame, pred_cell, pred_cell_inside, next-write_ne, unlink_eq, unlink-Chain,
}
use computer_systems_enginee.World.Objects.Holds.{Holds, SameStage, SameStage-refl, Relocated}

cell_at :
    (r o : ℕ) (l : List ℕ)
    → (pred_cell (head_of r) o l ≡ head_of r)
      ⊎ ((p : ℕ) × (pred_cell (head_of r) o l ≡ next_of p) × In p l)
cell_at r o [] = inl refl
cell_at r o (q ∷ l) = elim (Bool-cases (q == o)) [
  | inl t ↦ inl (rw t)
  | inr n ↦ let (p, e, i) = pred_cell_inside q o l in inr (p, rw n e, i)
]

pub erase_absent : (a : ℕ) (l : List ℕ) → (In a l → ⊥) → erase a l ≡ l
erase_absent a [] h = refl
erase_absent a (x ∷ xs) h = elim (Bool-cases (x == a)) [
  | inl t ↦ absurd (h (inl (sym ((==_iff x a).0 t))))
  | inr f ↦ rw f (ap (λ l. x ∷ l) (erase_absent a xs (λ k. h (inr k))))
]

erase-AllBelow : (n a : ℕ) (l : List ℕ) → AllBelow n l → AllBelow n (erase a l)
erase-AllBelow n a [] h = h
erase-AllBelow n a (x ∷ xs) h = elim (Bool-cases (x == a)) [
  | inl t ↦ rw t h.1
  | inr f ↦ rw f (h.0, erase-AllBelow n a xs h.1)
]

-- The lists without an object.
abbrev pub without : ℕ → (ℕ → List ℕ) → ℕ → List ℕ
without o items r = erase o (items r)

-- The world in which the cell `c` no longer points to `o`, and `o` is in limbo.
abbrev removed : Cell → ℕ → World → World
removed c o w = set_loc o none (write_cell c (w.object o).next w)

removed-SameStage : (c : Cell) (o : ℕ) (w : World) → SameStage w (removed c o w)
removed-SameStage (head_of s) o w = record {
  views = λ r. ground arith;
  lefts = λ r. ground arith;
  enters = λ r. ground arith;
  rights = λ r. ground arith;
  names = λ p. ground arith;
  images = λ p. ground arith;
  swaps = λ i. refl;
  flags = refl;
  player = refl;
}
removed-SameStage (next_of s) o w = record {
  views = λ r. refl;
  lefts = λ r. refl;
  enters = λ r. refl;
  rights = λ r. refl;
  names = λ p. ground arith;
  images = λ p. ground arith;
  swaps = λ i. refl;
  flags = refl;
  player = refl;
}

removed_moved :
    (c : Cell) (o : ℕ) (w : World) (p : ℕ)
    → ((removed c o w).object p).loc ≡ (if o == p then none else (w.object p).loc)
removed_moved (head_of s) o w p = ground arith
removed_moved (next_of s) o w p = ground arith

removed-next :
    (c : Cell) (o : ℕ) (w : World) (p : ℕ)
    → ((removed c o w).object p).next ≡ ((write_cell c (w.object o).next w).object p).next
removed-next (head_of s) o w p = ground arith
removed-next (next_of s) o w p = ground arith

module _ (w : World) (items : ℕ → List ℕ) (v : Holds w items) (o r : ℕ)
    (at : (w.object o).loc ≡ some r) where
  cell : Cell
  cell = pred_cell (head_of r) o (items r)

  here : In o (items r)
  here = v.listed r o at

  remove_eq : remove_object o w ≡ some (tt, removed cell o w)
  unfolding remove_object cell
  remove_eq =
      rw (at, remove_object)
        (bind_eq (unlink walk_fuel (head_of r) o) (λ _. modify (set_loc o none)) w
          (write_cell cell (w.object o).next w) tt
          (unlink_eq walk_fuel (items r) (head_of r) o w
            (omega (arith, length-le_of_Distinct n_objects (items r) (v.small r) (v.distinct r)))
            (v.chained r) here))

  -- Another room's list does not meet the cell.
  elsewhere : (s : ℕ) → s ≢ r → (p : ℕ) → In p (items s) → In p (items r) → ⊥
  elsewhere s ne p i k = ne (cc (v.located s p i, v.located r p k))

  cell_cases : (cell ≡ head_of r) ⊎ ((p : ℕ) × (cell ≡ next_of p) × In p (items r))
  unfolding cell
  cell_cases = cell_at r o (items r)

  other_next :
      (s : ℕ)
      → s ≢ r
      → (p : ℕ) → In p (items s)
      → ((removed cell o w).object p).next ≡ (w.object p).next
  other_next s ne p i = removed-next cell o w p ∙ elim cell_cases [
    | inl e ↦ rw e
    | inr (q, e, k) ↦ rw e (
        next-write_ne q p (w.object o).next w
          (λ f. elsewhere s ne p i (subst (λ x. In x (items r)) f k)))
  ]

  other_contents : (s : ℕ) → s ≢ r → ((removed cell o w).room s).contents ≡ (w.room s).contents
  other_contents s ne = elim cell_cases [ inl e ↦ rw e (ground (arith, ne)) | inr (q, e, k) ↦ rw e ]

  self_Chain :
      Chain (removed cell o w).object ((removed cell o w).room r).contents (erase o (items r))
  unfolding cell
  self_Chain =
      let w' : World = write_cell cell (w.object o).next w in
      Chain-frame w'.object (removed cell o w).object (w'.room r).contents (erase o (items r))
        (λ p i. removed-next cell o w p)
        (unlink-Chain (items r) (head_of r) o w tt (v.distinct r) (v.chained r) here)

  chained_after :
      (s : ℕ)
      → Chain (removed cell o w).object ((removed cell o w).room s).contents (without o items s)
  chained_after s = elim (ℕ_discrete s r) [
    | yes e ↦
        subst
          (λ x.
            Chain (removed cell o w).object ((removed cell o w).room x).contents
              (without o items x))
          (sym e) self_Chain
    | no ne ↦
        rw (erase_absent o (items s) (λ i. elsewhere s ne o i here), other_contents s ne)
          (Chain-frame w.object (removed cell o w).object (w.room s).contents (items s)
            (other_next s ne) (v.chained s))
  ]

  located_after : (s p : ℕ) → In p (without o items s) → ((removed cell o w).object p).loc ≡ some s
  located_after s p i =
      let old : (w.object p).loc ≡ some s = v.located s p (In-erase o p (items s) i) in
      removed_moved cell o w p ∙ elim (Bool-cases (o == p)) [
        | inl t ↦ absurd (
            not-In-erase_self o (items s) (v.distinct s)
              (subst (λ x. In x (erase o (items s))) (sym ((==_iff o p).0 t)) i))
        | inr f ↦ rw f old
      ]

  listed_after : (s p : ℕ) → ((removed cell o w).object p).loc ≡ some s → In p (without o items s)
  listed_after s p e = elim (Bool-cases (o == p)) [
    | inl t ↦ cc (t, e)
    | inr f ↦
        In-erase_of_ne o p (items s) (λ x. absurd (ground (arith, x, f)))
          (v.listed s p (sym (removed_moved cell o w p ∙ rw f) ∙ e))
  ]

  remove-Relocated : Relocated w o none (without o items) (remove_object o w)
  remove-Relocated = record {
    after = removed cell o w;
    runs = remove_eq;
    holds = record {
      chained = chained_after;
      distinct = λ s. erase-Distinct o (items s) (v.distinct s);
      located = located_after;
      listed = listed_after;
      small = λ s. erase-AllBelow n_objects o (items s) (v.small s);
    };
    stage = removed-SameStage cell o w;
    moved = removed_moved cell o w;
  }

remove_limbo : (o : ℕ) (w : World) → (w.object o).loc ≡ none → remove_object o w ≡ some (tt, w)
unfolding remove_object
remove_limbo o w e = rw (e, remove_object)

-- Where each room's linked list is its sequence in `items`, remove_object ends and takes the object
-- out of the sequence that holds it, if one does; no other object moves, and names, pictures, ways
-- and flags stay as they are.
pub remove_object_lem :
    (w : World) (items : ℕ → List ℕ) (o : ℕ)
    → Holds w items
    → Relocated w o none (without o items) (remove_object o w)
remove_object_lem w items o v = elim (Option-cases (w.object o).loc) [
  | inl e ↦ stays e
  | inr (r, e) ↦ remove-Relocated w items v o r e
]
  where
    stays : (w.object o).loc ≡ none → Relocated w o none (without o items) (remove_object o w)
    stays e = record {
      after = w;
      runs = remove_limbo o w e;
      holds =
          subst (Holds w)
            (fun_ext (λ s. sym (erase_absent o (items s) (λ i. cc (e, v.located s o i))))) v;
      stage = SameStage-refl w;
      moved = λ p. elim (Bool-cases (o == p)) [
        | inl t ↦ rw t (subst (λ x. (w.object x).loc ≡ none) ((==_iff o p).0 t) e)
        | inr f ↦ rw f
      ];
    }
