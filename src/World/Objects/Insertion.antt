-- ===== src/World/Objects/Insertion.antt =====
-- `insert_object_at` of mp2/world.c: the object becomes the first of its new room's list, and leaves
-- the list that held it.
use computer_systems_enginee.Base.{
  ℕ, ◌<◌, ◌≡◌, ◌≢◌, refl, sym, subst, ap, ◌∙◌, inl, inr, true, none, some, List, ◌∷◌, arith, In,
  Distinct, AllBelow, ◌==◌, ==_iff, ==_refl, if◌then◌else◌, Bool-cases,
}
use computer_systems_enginee.World.Ids.{n_objects}
use computer_systems_enginee.World.State.{World, modify, ◌>>◌, bind_eq}
use computer_systems_enginee.World.Objects.{place, link, remove_object, insert_object_at}
use computer_systems_enginee.World.Objects.Chains.{Chain, Chain-frame}
use computer_systems_enginee.World.Objects.Holds.{Holds, SameStage, SameStage-trans, Relocated}
use computer_systems_enginee.World.Objects.Removal.{without, remove_object_lem}

-- The lists with an object put first into those of one room.
abbrev pub cons_at : ℕ → ℕ → (ℕ → List ℕ) → ℕ → List ℕ
cons_at o r items s = if r == s then o ∷ items s else items s

abbrev joined : ℕ → ℕ → ℕ → ℕ → World → World
joined o r x y w = link o r (place o x y w)

module _ (o r x y : ℕ) (w : World) where
  joined-SameStage : SameStage w (joined o r x y w)
  joined-SameStage = record {
    views = λ s. ground arith;
    lefts = λ s. ground arith;
    enters = λ s. ground arith;
    rights = λ s. ground arith;
    names = λ p. ground arith;
    images = λ p. ground arith;
    swaps = λ i. refl;
    flags = refl;
    player = refl;
  }

  joined_moved :
      (p : ℕ) → ((joined o r x y w).object p).loc ≡ (if o == p then some r else (w.object p).loc)
  joined_moved p = ground arith

  joined-next_self : ((joined o r x y w).object o).next ≡ (w.room r).contents
  joined-next_self = ground arith

  joined-next_ne : (p : ℕ) → o ≢ p → ((joined o r x y w).object p).next ≡ (w.object p).next
  joined-next_ne p ne = ground (arith, ne)

  joined-contents :
      (s : ℕ)
      → ((joined o r x y w).room s).contents ≡ (if r == s then some o else (w.room s).contents)
  joined-contents s = ground arith

  module _ (items : ℕ → List ℕ) (v : Holds w items) (free : (w.object o).loc ≡ none) where
    absent : (s : ℕ) → In o (items s) → ⊥
    absent s i = cc (free, v.located s o i)

    rest_Chain : (s : ℕ) → Chain (joined o r x y w).object (w.room s).contents (items s)
    rest_Chain s =
        Chain-frame w.object (joined o r x y w).object (w.room s).contents (items s)
          (λ p i. joined-next_ne p (λ e. absent s (subst (λ q. In q (items s)) (sym e) i)))
          (v.chained s)

    chained_after :
        (s : ℕ)
        → Chain (joined o r x y w).object ((joined o r x y w).room s).contents (cons_at o r items s)
    chained_after s = rw (joined-contents s) (elim (Bool-cases (r == s)) [
      | inl t ↦ rw t (
        refl,
        subst (λ p. Chain (joined o r x y w).object p (items s))
            (sym (joined-next_self ∙ ap (λ q. (w.room q).contents) ((==_iff r s).0 t)))
            (rest_Chain s),
      )
      | inr f ↦ rw f (rest_Chain s)
    ])

    located_after :
        (s p : ℕ) → In p (cons_at o r items s) → ((joined o r x y w).object p).loc ≡ some s
    located_after s p i = rw (joined_moved p) (elim (Bool-cases (r == s)) [
      | inl t ↦ elim (rw t at i) as (λ _. (if o == p then some r else (w.object p).loc) ≡ some s) [
        | inl e ↦ ground (arith, e, t)
        | inr k ↦ old k
      ]
      | inr f ↦ old (rw f at i)
    ])
      where
        old : In p (items s) → (if o == p then some r else (w.object p).loc) ≡ some s
        old k = elim (Bool-cases (o == p)) [
          | inl t ↦ absurd (absent s (subst (λ q. In q (items s)) (sym ((==_iff o p).0 t)) k))
          | inr f ↦ rw f (v.located s p k)
        ]

    In-cons_at : (s p : ℕ) → In p (items s) → In p (cons_at o r items s)
    In-cons_at s p i = elim (Bool-cases (r == s)) [ inl t ↦ rw t (inr i) | inr f ↦ rw f i ]

    listed_after :
        (s p : ℕ) → ((joined o r x y w).object p).loc ≡ some s → In p (cons_at o r items s)
    listed_after s p e =
        let e' : (if o == p then some r else (w.object p).loc) ≡ some s =
          sym (joined_moved p) ∙ e in
        elim (Bool-cases (o == p)) [
          | inl t ↦
              let same : (r == s) ≡ true = ground (arith, e', t) in
              rw same (inl (sym ((==_iff o p).0 t)))
          | inr f ↦ In-cons_at s p (v.listed s p (rw f at e'))
        ]

    joined-Distinct : (s : ℕ) → Distinct (cons_at o r items s)
    joined-Distinct s = elim (Bool-cases (r == s)) [
      | inl t ↦ rw t (absent s, v.distinct s)
      | inr f ↦ rw f (v.distinct s)
    ]

    small_after : o < n_objects → (s : ℕ) → AllBelow n_objects (cons_at o r items s)
    small_after h s = elim (Bool-cases (r == s)) [
      | inl t ↦ rw t (h, v.small s)
      | inr f ↦ rw f (v.small s)
    ]

    joined-Holds : o < n_objects → Holds (joined o r x y w) (cons_at o r items)
    joined-Holds h = record {
      chained = chained_after;
      distinct = joined-Distinct;
      located = located_after;
      listed = listed_after;
      small = small_after h;
    }

-- Where each room's linked list is its sequence in `items`, insert_object_at ends for an object of
-- the game: the object leaves the sequence that holds it, is put first in that of the room, and no
-- other object moves; names, pictures, ways and flags stay as they are.
pub insert_object_at_lem :
    (w : World) (items : ℕ → List ℕ) (o r x y : ℕ)
    → Holds w items
    → o < n_objects
    → Relocated w o (some r) (cons_at o r (without o items)) (insert_object_at o r x y w)
unfolding insert_object_at
insert_object_at_lem w items o r x y v h =
    let a = remove_object_lem w items o v in
    let gone : (a.after.object o).loc ≡ none = a.moved o ∙ rw (==_refl o) in
    record {
      after = joined o r x y a.after;
      runs =
          bind_eq (remove_object o) (λ _. modify (place o x y) >> modify (link o r)) w a.after tt
            a.runs;
      holds = joined-Holds o r x y a.after (without o items) a.holds gone h;
      stage = SameStage-trans a.stage (joined-SameStage o r x y a.after);
      moved = λ p. joined_moved o r x y a.after p ∙ retarget a.after a.moved p;
    }
  where
    retarget :
        (w1 : World)
        → ((p : ℕ) → (w1.object p).loc ≡ (if o == p then none else (w.object p).loc))
        → (p : ℕ)
        → (if o == p then some r else (w1.object p).loc)
          ≡ (if o == p then some r else (w.object p).loc)
    retarget w1 m p = ground (arith, m p)
