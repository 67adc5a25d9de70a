-- ===== src/World/Objects/Chains.antt =====
-- Linked lists of objects: what the nodes from a pointer on are, and what taking one out does.
use computer_systems_enginee.Base.{
  ℕ, zero, suc, ◌<◌, ◌≡◌, ◌≢◌, refl, sym, subst, ◌∙◌, inl, inr, true, false, Option, none, some,
  List, [], ◌∷◌, arith, length, In, Distinct, erase, ◌==◌, ==_iff, if◌then◌else◌, Bool-cases,
}
use computer_systems_enginee.World.State.{World, Object}
use computer_systems_enginee.World.Objects.{Cell, head_of, next_of, read_cell, write_cell, unlink}

-- The nodes from the pointer `p` on are `l`, and the last one's next pointer is NULL.
abbrev pub Chain : (ℕ → Object) → Option ℕ → List ℕ → Type 0
Chain ob p [] = p ≡ none
Chain ob p (o ∷ l) = (p ≡ some o) × Chain ob (ob o).next l

-- A list does not change while the next pointers of its nodes do not.
pub Chain-frame :
    (ob ob' : ℕ → Object) (p : Option ℕ) (l : List ℕ)
    → ((o : ℕ) → In o l → (ob' o).next ≡ (ob o).next)
    → Chain ob p l
    → Chain ob' p l
Chain-frame ob ob' p [] same c = c
Chain-frame ob ob' p (o ∷ l) same c =
    (c.0, rw (same o (inl refl)) (Chain-frame ob ob' (ob o).next l (λ q h. same q (inr h)) c.1))

-- The cell that points to `o` in the list `l` from the cell `c` on.
abbrev pub pred_cell : Cell → ℕ → List ℕ → Cell
pred_cell c o [] = c
pred_cell c o (q ∷ l) = if q == o then c else pred_cell (next_of q) o l

In-tail : (o q : ℕ) (l : List ℕ) → In o (q ∷ l) → (q == o) ≡ false → In o l
In-tail o q l (inl e) n = absurd (ground (arith, e, n))
In-tail o q l (inr k) n = k

unlink_hit :
    (f : ℕ) (c : Cell) (o q : ℕ) (w : World)
    → read_cell c w ≡ some q
    → (q == o) ≡ true
    → unlink (suc f) c o w ≡ some (tt, write_cell c (w.object o).next w)
unfolding unlink
unlink_hit f c o q w e t = rw (e, unlink) (rw t)

unlink_miss :
    (f : ℕ) (c : Cell) (o q : ℕ) (w : World)
    → read_cell c w ≡ some q
    → (q == o) ≡ false
    → unlink (suc f) c o w ≡ unlink f (next_of q) o w
unfolding unlink
unlink_miss f c o q w e n = rw (e, unlink) (rw n)

-- The loop of `remove_object` writes one cell: the one that points to `o`.
pub unlink_eq :
    (f : ℕ) (l : List ℕ) (c : Cell) (o : ℕ) (w : World)
    → length l < f
    → Chain w.object (read_cell c w) l
    → In o l
    → unlink f c o w ≡ some (tt, write_cell (pred_cell c o l) (w.object o).next w)
unfolding unlink
unlink_eq zero l c o w h ch i = elim h [ ]
unlink_eq (suc f) [] c o w h ch i = absurd i
unlink_eq (suc f) (q ∷ l) c o w h ch i = elim (Bool-cases (q == o)) [
  | inl t ↦ rw t (unlink_hit f c o q w ch.0 t)
  | inr n ↦ rw n (
      unlink_miss f c o q w ch.0 n
      ∙ unlink_eq f l (next_of q) o w (omega arith) ch.1 (In-tail o q l i n))
]

-- The cell lies behind the first node.
pub pred_cell_inside :
    (q o : ℕ) (l : List ℕ) → (p : ℕ) × (pred_cell (next_of q) o l ≡ next_of p) × In p (q ∷ l)
pred_cell_inside q o [] = (q, refl, inl refl)
pred_cell_inside q o (r ∷ l) = elim (Bool-cases (r == o)) [
  | inl t ↦ (q, rw t, inl refl)
  | inr n ↦ let (p, e, i) = pred_cell_inside r o l in (p, rw n e, inr i)
]

-- A cell that is no next pointer of a node of `l`.
abbrev pub Outside : Cell → List ℕ → Type 0
Outside (head_of r) l = Unit {0}
Outside (next_of q) l = In q l → ⊥

pub next-write_ne :
    (p q : ℕ) (v : Option ℕ) (w : World)
    → p ≢ q
    → ((write_cell (next_of p) v w).object q).next ≡ (w.object q).next
next-write_ne p q v w ne = ground (arith, ne)

read-write-Outside :
    (c : Cell) (p : ℕ) (l : List ℕ) (v : Option ℕ) (w : World)
    → Outside c l
    → In p l
    → read_cell c (write_cell (next_of p) v w) ≡ read_cell c w
read-write-Outside (head_of r) p l v w out i = refl
read-write-Outside (next_of q) p l v w out i =
    next-write_ne p q v w (λ e. out (subst (λ x. In x l) e i))

frame-Outside :
    (c : Cell) (l : List ℕ) (v : Option ℕ) (w : World)
    → Outside c l
    → (o : ℕ) → In o l
    → ((write_cell c v w).object o).next ≡ (w.object o).next
frame-Outside (head_of r) l v w out o i = refl
frame-Outside (next_of q) l v w out o i =
    next-write_ne q o v w (λ e. out (subst (λ x. In x l) (sym e) i))

read-write_self : (c : Cell) (v : Option ℕ) (w : World) → read_cell c (write_cell c v w) ≡ v
read-write_self (head_of r) v w = ground arith
read-write_self (next_of q) v w = ground arith

-- What that write does to the list: it loses `o`.
pub unlink-Chain :
    (l : List ℕ) (c : Cell) (o : ℕ) (w : World)
    → Outside c l
    → Distinct l
    → Chain w.object (read_cell c w) l
    → In o l
    → let w' = write_cell (pred_cell c o l) (w.object o).next w in
      Chain w'.object (read_cell c w') (erase o l)
unlink-Chain [] c o w out d ch i = absurd i
unlink-Chain (q ∷ l) c o w out d ch i = elim (Bool-cases (q == o)) [
  | inl t ↦
      let v : Option ℕ = (w.object o).next in
      rw t (
        subst (λ p. Chain (write_cell c v w).object p l) (sym (read-write_self c v w))
          (Chain-frame w.object (write_cell c v w).object v l (frame-Outside c l v w (weaken c out))
            (subst (λ p. Chain w.object (w.object p).next l) ((==_iff q o).0 t) ch.1)))
  | inr n ↦ rw n (behind, unlink-Chain l (next_of q) o w d.0 d.1 ch.1 (In-tail o q l i n))
]
  where
    behind : read_cell c (write_cell (pred_cell (next_of q) o l) (w.object o).next w) ≡ some q
    behind =
        let (p, e, k) = pred_cell_inside q o l in
        rw e (read-write-Outside c p (q ∷ l) (w.object o).next w out k ∙ ch.0)

    weaken : (c : Cell) → Outside c (q ∷ l) → Outside c l
    weaken (head_of r) out = tt
    weaken (next_of p) out = λ k. out (inr k)
