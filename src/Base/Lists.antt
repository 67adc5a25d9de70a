-- ===== src/Base/Lists.antt =====
-- Lists measured and indexed by native numbers, under the library's names, and lists of distinct
-- numbers.
use Prim.Native.Nat.{ℕ, zero, suc, ◌+◌, ◌≤◌, ◌<◌, min}
use mathlib.Core.Path.{◌≡◌, refl, ap, subst, sym, ◌∙◌}
use mathlib.Core.Logic.{◌≢◌, ◌⊎◌, inl, inr}
use mathlib.Core.List.{List, [], ◌∷◌, ◌++◌}
use mathlib.Core.Option.{Option, none, some}
use native.Mathlib.Omega.{arith}
use computer_systems_enginee.Base.Tests.{◌==◌, if◌then◌else◌, ==_iff, Bool-cases}

module _ {ℓ} {A : Type ℓ} where
  abbrev pub length : List A → ℕ
  length [] = 0
  length (x ∷ xs) = suc (length xs)

  abbrev pub get_elem? : List A → ℕ → Option A
  get_elem? [] i = none
  get_elem? (x ∷ xs) zero = some x
  get_elem? (x ∷ xs) (suc i) = get_elem? xs i

  abbrev pub get_or : List A → ℕ → A → A
  get_or [] i d = d
  get_or (x ∷ xs) zero d = x
  get_or (x ∷ xs) (suc i) d = get_or xs i d

  -- A write out of bounds changes nothing.
  abbrev pub set : List A → ℕ → A → List A
  set [] i v = []
  set (x ∷ xs) zero v = v ∷ xs
  set (x ∷ xs) (suc i) v = x ∷ set xs i v

  abbrev pub take : ℕ → List A → List A
  take zero xs = []
  take (suc n) [] = []
  take (suc n) (x ∷ xs) = x ∷ take n xs

  abbrev pub drop : ℕ → List A → List A
  drop zero xs = xs
  drop (suc n) [] = []
  drop (suc n) (x ∷ xs) = drop n xs

  abbrev pub replicate : ℕ → A → List A
  replicate zero a = []
  replicate (suc n) a = a ∷ replicate n a

  pub length-append : (xs ys : List A) → length (xs ++ ys) ≡ length xs + length ys
  length-append [] ys = omega arith
  length-append (x ∷ xs) ys = omega (arith, length-append xs ys)

  pub length-set : (xs : List A) (i : ℕ) (v : A) → length (set xs i v) ≡ length xs
  length-set [] i v = refl
  length-set (x ∷ xs) zero v = refl
  length-set (x ∷ xs) (suc i) v = ap suc (length-set xs i v)

  pub length-take : (n : ℕ) (xs : List A) → length (take n xs) ≡ min n (length xs)
  length-take zero xs = omega arith
  length-take (suc n) [] = omega arith
  length-take (suc n) (x ∷ xs) = omega (arith, length-take n xs)

  pub length-replicate : (n : ℕ) (a : A) → length (replicate n a) ≡ n
  length-replicate zero a = refl
  length-replicate (suc n) a = ap suc (length-replicate n a)

  pub get_or-set_self :
      (xs : List A) (i : ℕ) (v d : A) → i < length xs → get_or (set xs i v) i d ≡ v
  get_or-set_self [] i v d h = absurd (omega arith)
  get_or-set_self (x ∷ xs) zero v d h = refl
  get_or-set_self (x ∷ xs) (suc i) v d h = get_or-set_self xs i v d (omega arith)

  pub get_or-set_ne :
      (xs : List A) (i j : ℕ) (v d : A) → i ≢ j → get_or (set xs i v) j d ≡ get_or xs j d
  get_or-set_ne [] i j v d h = refl
  get_or-set_ne (x ∷ xs) zero zero v d h = absurd (h refl)
  get_or-set_ne (x ∷ xs) zero (suc j) v d h = refl
  get_or-set_ne (x ∷ xs) (suc i) zero v d h = refl
  get_or-set_ne (x ∷ xs) (suc i) (suc j) v d h = get_or-set_ne xs i j v d (λ e. h (ap suc e))

-- A number stands in a list.
abbrev pub In : ℕ → List ℕ → Type 0
In a [] = ⊥
In a (x ∷ xs) = (a ≡ x) ⊎ In a xs

abbrev pub Distinct : List ℕ → Type 0
Distinct [] = Unit {0}
Distinct (x ∷ xs) = (In x xs → ⊥) × Distinct xs

abbrev pub AllBelow : ℕ → List ℕ → Type 0
AllBelow n [] = Unit {0}
AllBelow n (x ∷ xs) = (x < n) × AllBelow n xs

-- The list without the first occurrence of `a`.
abbrev pub erase : ℕ → List ℕ → List ℕ
erase a [] = []
erase a (x ∷ xs) = if x == a then xs else x ∷ erase a xs

pub In-erase : (a b : ℕ) (l : List ℕ) → In b (erase a l) → In b l
In-erase a b [] h = h
In-erase a b (x ∷ xs) h = elim (Bool-cases (x == a)) [
  | inl t ↦ inr (rw t at h)
  | inr f ↦ elim (rw f at h) as (λ _. In b (x ∷ xs)) [
    | inl e ↦ inl e
    | inr k ↦ inr (In-erase a b xs k)
  ]
]

pub In-erase_of_ne : (a b : ℕ) (l : List ℕ) → a ≢ b → In b l → In b (erase a l)
In-erase_of_ne a b [] ne h = h
In-erase_of_ne a b (x ∷ xs) ne (inl e) = elim (Bool-cases (x == a)) [
  | inl t ↦ absurd (ne (sym ((==_iff x a).0 t) ∙ sym e))
  | inr f ↦ rw f (inl e)
]
In-erase_of_ne a b (x ∷ xs) ne (inr h) = elim (Bool-cases (x == a)) [
  | inl t ↦ rw t h
  | inr f ↦ rw f (inr (In-erase_of_ne a b xs ne h))
]

pub not-In-erase_self : (a : ℕ) (l : List ℕ) → Distinct l → In a (erase a l) → ⊥
not-In-erase_self a [] d h = h
not-In-erase_self a (x ∷ xs) d h = elim (Bool-cases (x == a)) [
  | inl t ↦ d.0 (subst (λ y. In y xs) (sym ((==_iff x a).0 t)) (rw t at h))
  | inr f ↦ elim (rw f at h) as (λ _. ⊥) [
    | inl e ↦ absurd (ground (arith, e, f))
    | inr k ↦ not-In-erase_self a xs d.1 k
  ]
]

pub erase-Distinct : (a : ℕ) (l : List ℕ) → Distinct l → Distinct (erase a l)
erase-Distinct a [] d = d
erase-Distinct a (x ∷ xs) d = elim (Bool-cases (x == a)) [
  | inl t ↦ rw t d.1
  | inr f ↦ rw f ((λ h. d.0 (In-erase a x xs h)), erase-Distinct a xs d.1)
]

pub AllBelow-In : (n o : ℕ) (l : List ℕ) → AllBelow n l → In o l → o < n
AllBelow-In n o [] b i = absurd i
AllBelow-In n o (x ∷ xs) b (inl e) = omega (arith, b, e)
AllBelow-In n o (x ∷ xs) b (inr i) = AllBelow-In n o xs b.1 i

le_of_ne : (y n : ℕ) → y < suc n → y ≢ n → y < n
le_of_ne y n h ne = omega arith

erase_top :
    (n : ℕ) (l : List ℕ)
    → AllBelow (suc n) l
    → Distinct l
    → AllBelow n (erase n l) × (length l ≤ suc (length (erase n l)))
erase_top n [] b d = (tt, omega arith)
erase_top n (x ∷ xs) b d = elim (Bool-cases (x == n)) [
  | inl t ↦ rw t (below xs b.1 (subst (λ y. In y xs → ⊥) ((==_iff x n).0 t) d.0), omega arith)
  | inr f ↦
      rw f ((ground arith, (erase_top n xs b.1 d.1).0), omega (arith, (erase_top n xs b.1 d.1).1))
]
  where
    below : (l : List ℕ) → AllBelow (suc n) l → (In n l → ⊥) → AllBelow n l
    below = elim [
      | [] ↦ λ b h. tt
      | y ∷ (ys → ih) ↦ λ b h. (le_of_ne y n b.0 (λ e. h (inl (sym e))), ih b.1 (λ k. h (inr k)))
    ]

-- The pigeonhole principle: distinct numbers below `n` are at most `n`.
pub length-le_of_Distinct : (n : ℕ) (l : List ℕ) → AllBelow n l → Distinct l → length l ≤ n
length-le_of_Distinct zero [] b d = omega arith
length-le_of_Distinct zero (x ∷ xs) b d = absurd (omega arith)
length-le_of_Distinct (suc n) l b d =
    let (b', k) = erase_top n l b d in
    omega (arith, k, length-le_of_Distinct n (erase n l) b' (erase-Distinct n l d))
