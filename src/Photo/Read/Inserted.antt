-- ===== src/Photo/Read/Inserted.antt =====
-- The first pass of `read_photo` in mp2/photo.c: its two loops put the pixels of the file into the
-- octree one after the other.
use computer_systems_enginee.Base.{
  ℕ, zero, suc, ◌+◌, ◌*◌, ◌<◌, ◌≡◌, inl, inr, refl, ap, ◌∙◌, subst, List, [], ◌∷◌, In, arith,
}
use computer_systems_enginee.Photo.Octree.{Octree, insert_values, insert_all}
use computer_systems_enginee.Photo.Read.Rows.{columns_result, rows_result}

-- The pixels of a file from number `k` on.
abbrev pub listed : (ℕ → ℕ) → ℕ → ℕ → List ℕ
listed pixel k zero = []
listed pixel k (suc n) = pixel k ∷ listed pixel (suc k) n

pub In-listed : (pixel : ℕ → ℕ) (k n i : ℕ) → i < n → In (pixel (k + i)) (listed pixel k n)
In-listed pixel k zero i h = absurd (omega (arith, h))
In-listed pixel k (suc n) zero h = inl (ap pixel (omega arith))
In-listed pixel k (suc n) (suc i) h = inr (
    subst (λ z. In (pixel z) (listed pixel (suc k) n)) (omega arith)
      (In-listed pixel (suc k) n i (omega arith)))

module _ (pixel : ℕ → ℕ) where
  abbrev pub insert_body : ℕ → ℕ → ℕ → Octree → Octree
  insert_body y x p tree = insert_values p tree

  columns_inserted :
      (n y x k : ℕ) (t : Octree)
      → columns_result insert_body pixel n y x k t ≡ insert_all (listed pixel k n) t
  unfolding columns_result insert_all
  columns_inserted zero y x k t = refl
  columns_inserted (suc n) y x k t =
      columns_inserted n y (suc x) (suc k) (insert_values (pixel k) t)

  insert_two :
      (n m k : ℕ) (t : Octree)
      → insert_all (listed pixel (k + n) m) (insert_all (listed pixel k n) t)
        ≡ insert_all (listed pixel k (n + m)) t
  unfolding insert_all
  insert_two zero m k t =
      ap (λ z. insert_all (listed pixel z m) t) {x = k + 0} {y = k} (omega arith)
      ∙ ap (λ z. insert_all (listed pixel k z) t) {x = m} {y = 0 + m} (omega arith)
  insert_two (suc n) m k t =
      let t' = insert_values (pixel k) t in
      ap (λ z. insert_all (listed pixel z m) (insert_all (listed pixel (suc k) n) t'))
        {x = k + suc n} {y = suc k + n} (omega arith)
      ∙ insert_two n m (suc k) t'
      ∙ ap (λ z. insert_all (listed pixel k z) t) {x = suc (n + m)} {y = suc n + m} (omega arith)

  pub rows_inserted :
      (width y k : ℕ) (t : Octree)
      → rows_result insert_body pixel width y k t ≡ insert_all (listed pixel k (y * width)) t
  unfolding rows_result insert_all
  rows_inserted width zero k t =
      ap (λ z. insert_all (listed pixel k z) t) {x = 0} {y = 0 * width} (omega arith)
  rows_inserted width (suc y) k t =
      ap (rows_result insert_body pixel width y (k + width)) (columns_inserted width y 0 k t)
      ∙ rows_inserted width y (k + width) (insert_all (listed pixel k width) t)
      ∙ insert_two width (y * width) k t
      ∙ ap (λ z. insert_all (listed pixel k z) t) {x = width + y * width} {y = suc y * width}
          (grind arith)
