-- ===== src/Photo/Read/Rows.antt =====
-- The loops of mp2/photo.c over the pixels of a file, from the bottom row to the top one.
use computer_systems_enginee.Base.{
  ℕ, zero, suc, ◌+◌, ◌*◌, ◌/◌, ◌≤◌, ◌<◌, ◌≡◌, inl, inr, refl, sym, ap, ◌∙◌, leb, if◌then◌else◌,
  Bool-cases, Option, none, some, List, [], ◌∷◌, arith, get_or, length, drop,
}
use computer_systems_enginee.Photo.Read.{Reader, read_byte, read_word, read_columns, read_rows}

-- A file of `count` pixels: `pixel k` is number `k`, and `tail k` is what is left before it.
pub record Stream (next : Reader ℕ) (count : ℕ) (pixel : ℕ → ℕ) (tail : ℕ → List ℕ) : Type 0 where
  pub more : (k : ℕ) → k < count → next (tail k) ≡ some (pixel k, tail (suc k))
  pub over : (k : ℕ) → count ≤ k → next (tail k) ≡ none

read_byte-drop :
    (file : List ℕ) (k : ℕ)
    → (k < length file → read_byte (drop k file) ≡ some (get_or file k 0, drop (suc k) file))
      × (length file ≤ k → read_byte (drop k file) ≡ none)
read_byte-drop [] zero = (λ h. absurd (omega (arith, h)), λ h. refl)
read_byte-drop [] (suc k) = (λ h. absurd (omega (arith, h)), λ h. refl)
read_byte-drop (b ∷ file) zero = (λ h. refl, λ h. absurd (omega (arith, h)))
read_byte-drop (b ∷ file) (suc k) =
    let (a, e) = read_byte-drop file k in (λ h. a (omega (arith, h)), λ h. e (omega (arith, h)))

pub bytes_Stream :
    (file : List ℕ) → Stream read_byte (length file) (λ k. get_or file k 0) (λ k. drop k file)
bytes_Stream file = record {
  more = λ k h. (read_byte-drop file k).0 h;
  over = λ k h. (read_byte-drop file k).1 h;
}

-- The word at an offset, and the file that follows it.
abbrev pub word_at : List ℕ → ℕ → ℕ
word_at file i = get_or file i 0 + 256 * get_or file (suc i) 0

read_word-drop :
    (file : List ℕ) (i : ℕ)
    → (suc i < length file
        → read_word (drop i file) ≡ some (word_at file i, drop (suc (suc i)) file))
      × (length file ≤ suc i → read_word (drop i file) ≡ none)
read_word-drop [] zero = (λ h. absurd (omega (arith, h)), λ h. refl)
read_word-drop [] (suc i) = (λ h. absurd (omega (arith, h)), λ h. refl)
read_word-drop (b ∷ []) zero = (λ h. absurd (omega (arith, h)), λ h. refl)
read_word-drop (b ∷ c ∷ file) zero = (λ h. refl, λ h. absurd (omega (arith, h)))
read_word-drop (b ∷ file) (suc i) =
    let (a, e) = read_word-drop file i in (λ h. a (omega (arith, h)), λ h. e (omega (arith, h)))

pub words_Stream :
    (file : List ℕ)
    → Stream read_word (length file / 2) (λ k. word_at file (2 * k)) (λ k. drop (2 * k) file)
words_Stream file = record {
  more = λ k h.
      (read_word-drop file (2 * k)).0 (omega (arith, h))
      ∙ ap (λ i. some (word_at file (2 * k), drop i file)) {x = suc (suc (2 * k))} (omega arith);
  over = λ k h. (read_word-drop file (2 * k)).1 (omega (arith, h));
}

module _ {S : Type 0} (body : ℕ → ℕ → ℕ → S → S) (pixel : ℕ → ℕ) where
  -- What the loops make of the pixels from number `k` on.
  unfoldable pub columns_result : ℕ → ℕ → ℕ → ℕ → S → S
  columns_result zero y x k s = s
  columns_result (suc n) y x k s = columns_result n y (suc x) (suc k) (body y x (pixel k) s)

  unfoldable pub rows_result : ℕ → ℕ → ℕ → S → S
  unfolding columns_result
  rows_result width zero k s = s
  rows_result width (suc y) k s = rows_result width y (k + width) (columns_result width y 0 k s)

  module _ (next : Reader ℕ) (count : ℕ) (tail : ℕ → List ℕ)
      (stream : Stream next count pixel tail) where
    abbrev outcome : ℕ → S → Option (S × List ℕ)
    outcome k s = if leb k count then some (s, tail k) else none

    outcome-some : (k : ℕ) (s : S) → k ≤ count → some (s, tail k) ≡ outcome k s
    outcome-some k s h = ground (arith, h)

    outcome-none : (k : ℕ) (s : S) → count < k → none ≡ outcome k s
    outcome-none k s h = ground (arith, h)

    one_more :
        (n y x k : ℕ) (s : S)
        → k < count
        → read_columns next body (suc n) y x s (tail k)
          ≡ read_columns next body n y (suc x) (body y x (pixel k) s) (tail (suc k))
    unfolding read_columns
    one_more n y x k s h = rw (stream.more k h, read_columns) refl

    no_more :
        (n y x k : ℕ) (s : S) → count ≤ k → read_columns next body (suc n) y x s (tail k) ≡ none
    unfolding read_columns
    no_more n y x k s h = rw (stream.over k h, read_columns) refl

    -- The loops succeed just where the file has pixels enough.
    columns_eq :
        (n y x k : ℕ) (s : S)
        → k ≤ count
        → read_columns next body n y x s (tail k) ≡ outcome (k + n) (columns_result n y x k s)
    unfolding read_columns columns_result
    columns_eq zero y x k s h = outcome-some k s h ∙ ap (λ z. outcome z s) {x = k} (omega arith)
    columns_eq (suc n) y x k s h = elim (Bool-cases (leb count k)) [
      | inl t ↦
          no_more n y x k s (ground (arith, t)) ∙ outcome-none (k + suc n) _ (ground (arith, t))
      | inr f ↦
          one_more n y x k s (ground (arith, f))
          ∙ columns_eq n y (suc x) (suc k) (body y x (pixel k) s) (ground (arith, f))
          ∙ ap (λ z. outcome z (columns_result n y (suc x) (suc k) (body y x (pixel k) s)))
              {x = suc k + n} (omega arith)
    ]

    row_read :
        (width y k : ℕ) (s s' : S)
        → read_columns next body width y 0 s (tail k) ≡ some (s', tail (k + width))
        → read_rows next body width (suc y) s (tail k)
          ≡ read_rows next body width y s' (tail (k + width))
    unfolding read_rows
    row_read width y k s s' e = rw (e, read_rows) refl

    row_short :
        (width y k : ℕ) (s : S)
        → read_columns next body width y 0 s (tail k) ≡ none
        → read_rows next body width (suc y) s (tail k) ≡ none
    unfolding read_rows
    row_short width y k s e = rw (e, read_rows) refl

    pub rows_eq :
        (width y k : ℕ) (s : S)
        → k ≤ count
        → read_rows next body width y s (tail k) ≡ outcome (k + y * width) (rows_result width y k s)
    unfolding read_rows rows_result
    rows_eq width zero k s h = outcome-some k s h ∙ ap (λ z. outcome z s) {x = k} (omega arith)
    rows_eq width (suc y) k s h =
        let s' = columns_result width y 0 k s in
        let row = columns_eq width y 0 k s h in
        elim (Bool-cases (leb (k + width) count)) [
          | inl t ↦
              row_read width y k s s' (row ∙ sym (outcome-some (k + width) s' (ground (arith, t))))
              ∙ rows_eq width y (k + width) s' (ground (arith, t))
              ∙ ap (λ z. outcome z (rows_result width y (k + width) s')) {x = k + width + y * width}
                  (grind arith)
          | inr f ↦
              row_short width y k s (row ∙ sym (outcome-none (k + width) s' (ground (arith, f))))
              ∙ outcome-none (k + suc y * width) _ (grind (arith, f))
        ]

-- The loops over a whole file.
pub rows_all :
    {S : Type 0} (body : ℕ → ℕ → ℕ → S → S) (pixel : ℕ → ℕ) (next : Reader ℕ) (count : ℕ)
    (tail : ℕ → List ℕ)
    → Stream next count pixel tail
    → (width y : ℕ) (s : S)
    → read_rows next body width y s (tail 0) ≡ (
        if leb (y * width) count
        then some (rows_result body pixel width y 0 s, tail (y * width))
        else none)
rows_all body pixel next count tail stream width y s =
    let r = rows_result body pixel width y 0 s in
    rows_eq body pixel next count tail stream width y 0 s (omega arith)
    ∙ ap (λ z. if leb z count then some (r, tail z) else none) {x = 0 + y * width} {y = y * width}
        (omega arith)
