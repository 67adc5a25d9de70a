-- ===== src/Text/Painted.antt =====
-- What `text_to_graphics` of mp2/text.c leaves in the buffer.
use computer_systems_enginee.Base.{
  ℕ, zero, suc, ◌+◌, ◌*◌, ◌/◌, ◌%◌, ◌≤◌, ◌<◌, ◌≡◌, ◌≢◌, inl, inr, refl, sym, ap, ◌∙◌, ◌==◌,
  if◌then◌else◌, Bool-cases, ==_iff, arith,
}
use computer_systems_enginee.World.State.{update}
use computer_systems_enginee.Text.{
  loop, lit, glyph_place, paint_bit, paint_row, paint_letter, paint_string,
}

-- A loop whose rounds keep a byte keeps it.
pub loop_keeps :
    (n i : ℕ) (body : ℕ → (ℕ → ℕ) → ℕ → ℕ) (a : ℕ) (f : ℕ → ℕ)
    → ((j : ℕ) → i ≤ j → j < i + n → (g : ℕ → ℕ) → body j g a ≡ g a)
    → loop n i body f a ≡ f a
unfolding loop
loop_keeps zero i body a f keeps = refl
loop_keeps (suc n) i body a f keeps =
    loop_keeps n (suc i) body a (body i f) (λ j l h. keeps j (omega arith) (omega arith))
    ∙ keeps i (omega arith) (omega arith) f

-- A byte that only round `j` changes, and there from `v` to `w`.
pub loop_writes :
    (n i : ℕ) (body : ℕ → (ℕ → ℕ) → ℕ → ℕ) (a j v w : ℕ) (f : ℕ → ℕ)
    → i ≤ j
    → j < i + n
    → ((k : ℕ) → i ≤ k → k < i + n → k ≢ j → (g : ℕ → ℕ) → body k g a ≡ g a)
    → ((g : ℕ → ℕ) → g a ≡ v → body j g a ≡ w)
    → f a ≡ v
    → loop n i body f a ≡ w
unfolding loop
loop_writes zero i body a j v w f l h keeps writes start = absurd (omega arith)
loop_writes (suc n) i body a j v w f l h keeps writes start = elim (Bool-cases (i == j)) [
  | inl t ↦
      let e : i ≡ j = omega (arith, (==_iff i j).0 t) in
      loop_keeps n (suc i) body a (body i f)
        (λ k m o. keeps k (omega arith) (omega arith) (λ same. omega (arith, same, e)))
      ∙ ap (λ z. body z f a) e
      ∙ writes f start
  | inr t ↦
      let ne : i ≢ j = λ e. cc (sym t, (==_iff i j).1 e) in
      loop_writes n (suc i) body a j v w (body i f) (omega (arith, ne)) (omega arith)
        (λ k m o. keeps k (omega arith) (omega arith)) writes
        (keeps i (omega arith) (omega arith) ne f ∙ start)
]

-- The place of the pixel (x, y) of the text.
abbrev pub text_address : ℕ → ℕ → ℕ
text_address x y = 1440 * (x % 4) + (suc y * 80 + x / 4)

glyph_place-text_address : (x y : ℕ) → glyph_place (x / 8) y (x % 8) ≡ text_address x y
glyph_place-text_address x y = ground arith

-- Two pixels of the text have one place only if they are the same.
glyph_place_inj :
    (k i m k' i' m' : ℕ)
    → k < 40
    → i < 16
    → m < 8
    → k' < 40
    → i' < 16
    → m' < 8
    → glyph_place k i m ≡ glyph_place k' i' m'
    → (k ≡ k') × (i ≡ i') × (m ≡ m')
glyph_place_inj k i m k' i' m' hk hi hm hk' hi' hm' e =
    (ground (arith, e), ground (arith, e), ground (arith, e))

-- The bytes that the parts of the loop keep.
module _ (offset : ℕ) (a : ℕ) where
  bit_keeps :
      (letter k i m : ℕ) (g : ℕ → ℕ)
      → a ≢ glyph_place k i m + offset
      → paint_bit letter offset k i m g a ≡ g a
  bit_keeps letter k i m g h = ground (arith, h)

  row_keeps :
      (letter k i : ℕ) (g : ℕ → ℕ)
      → ((m : ℕ) → m < 8 → a ≢ glyph_place k i m + offset)
      → paint_row letter offset k i g a ≡ g a
  row_keeps letter k i g h =
      loop_keeps 8 0 (paint_bit letter offset k i) a g (λ m l o f. bit_keeps letter k i m f (h m o))

  letter_keeps :
      (letter k : ℕ) (g : ℕ → ℕ)
      → ((i m : ℕ) → i < 16 → m < 8 → a ≢ glyph_place k i m + offset)
      → paint_letter letter offset k g a ≡ g a
  letter_keeps letter k g h =
      loop_keeps 16 0 (paint_row letter offset k) a g
        (λ i l o f. row_keeps letter k i f (λ m. h i m o))

-- The byte of the bit `m` in row `i` of the character in place `k`.
module _ (offset k i m : ℕ) (hk : k < 40) (hi : i < 16) (hm : m < 8) where
  bit_writes :
      (letter : ℕ) (g : ℕ → ℕ)
      → g (glyph_place k i m + offset) ≡ 3
      → paint_bit letter offset k i m g (glyph_place k i m + offset)
        ≡ (if lit letter i m then 0x3C else 3)
  bit_writes letter g e = ground (arith, e)

  row_writes :
      (letter : ℕ) (g : ℕ → ℕ)
      → g (glyph_place k i m + offset) ≡ 3
      → paint_row letter offset k i g (glyph_place k i m + offset)
        ≡ (if lit letter i m then 0x3C else 3)
  row_writes letter g e =
      loop_writes 8 0 (paint_bit letter offset k i) (glyph_place k i m + offset) m 3
        (if lit letter i m then 0x3C else 3) g (omega arith) hm
        (λ j l o ne f. bit_keeps offset (glyph_place k i m + offset) letter k i j f (λ same.
          ne (sym ((glyph_place_inj k i m k i j hk hi hm hk hi o (omega (arith, same))).2))))
        (bit_writes letter) e

  letter_writes :
      (letter : ℕ) (g : ℕ → ℕ)
      → g (glyph_place k i m + offset) ≡ 3
      → paint_letter letter offset k g (glyph_place k i m + offset)
        ≡ (if lit letter i m then 0x3C else 3)
  letter_writes letter g e =
      loop_writes 16 0 (paint_row letter offset k) (glyph_place k i m + offset) i 3
        (if lit letter i m then 0x3C else 3) g (omega arith) hi
        (λ j l o ne f. row_keeps offset (glyph_place k i m + offset) letter k j f (λ n p same.
          ne (sym ((glyph_place_inj k i m k j n hk hi hm hk o p (omega (arith, same))).1))))
        (row_writes letter) e

  string_writes :
      (tempstring : ℕ → ℕ) (g : ℕ → ℕ)
      → g (glyph_place k i m + offset) ≡ 3
      → loop 40 0 (λ c. paint_letter (tempstring c) offset c) g (glyph_place k i m + offset)
        ≡ (if lit (tempstring k) i m then 0x3C else 3)
  string_writes tempstring g e =
      loop_writes 40 0 (λ c. paint_letter (tempstring c) offset c) (glyph_place k i m + offset) k 3
        (if lit (tempstring k) i m then 0x3C else 3) g (omega arith) hk
        (λ j l o ne f.
          letter_keeps offset (glyph_place k i m + offset) (tempstring j) j f (λ n q p r same.
            ne (sym ((glyph_place_inj k i m j n q hk hi hm o p r (omega (arith, same))).0))))
        (letter_writes (tempstring k)) e

-- The buffer is the picture of a string of 40 characters, moved by `offset` bytes: yellow where the
-- font has a bit, and blue elsewhere.
pub record Pictures (tempstring : ℕ → ℕ) (offset : ℕ) (before after : ℕ → ℕ) : Type 0 where
  pub letters :
      (x y : ℕ)
      → x < 320
      → y < 16
      → after (text_address x y + offset) ≡ (if lit (tempstring (x / 8)) y (x % 8) then 0x3C else 3)
  pub ground_colour :
      (a : ℕ)
      → a < 5760
      → ((x y : ℕ) → x < 320 → y < 16 → a ≢ text_address x y + offset)
      → after a ≡ 3
  pub outside : (a : ℕ) → 5760 ≤ a → after a ≡ before a

-- The loop that fills the buffer.
fill_in : (n i : ℕ) (f : ℕ → ℕ) (a : ℕ) → i ≤ a → a < i + n → loop n i (λ j b. update b j 3) f a ≡ 3
unfolding loop
fill_in zero i f a l h = absurd (omega arith)
fill_in (suc n) i f a l h = elim (Bool-cases (i == a)) [
  | inl t ↦
      let e : i ≡ a = omega (arith, (==_iff i a).0 t) in
      loop_keeps n (suc i) (λ j b. update b j 3) a (update f i 3) (λ j m o g. ground (arith, m, e))
      ∙ ground (arith, e)
  | inr t ↦
      let ne : i ≢ a = λ e. cc (sym t, (==_iff i a).1 e) in
      fill_in n (suc i) (update f i 3) a (omega (arith, ne)) (omega arith)
]

fill_out :
    (buffer : ℕ → ℕ) (a : ℕ) → 5760 ≤ a → loop 5760 0 (λ i b. update b i 3) buffer a ≡ buffer a
fill_out buffer a h =
    loop_keeps 5760 0 (λ i b. update b i 3) a buffer (λ j l o g. ground (arith, h, o))

module _ (tempstring : ℕ → ℕ) (offset : ℕ) (small : offset ≤ 30) (buffer : ℕ → ℕ) where
  abbrev filled : ℕ → ℕ
  filled = loop 5760 0 (λ i b. update b i 3) buffer

  string_keeps :
      (a : ℕ)
      → ((k i m : ℕ) → k < 40 → i < 16 → m < 8 → a ≢ glyph_place k i m + offset)
      → paint_string tempstring offset buffer a ≡ filled a
  unfolding paint_string
  string_keeps a h =
      loop_keeps 40 0 (λ c. paint_letter (tempstring c) offset c) a filled
        (λ j l o f. letter_keeps offset a (tempstring j) j f (λ i m. h j i m o))

  pub paint_string_lem : Pictures tempstring offset buffer (paint_string tempstring offset buffer)
  unfolding paint_string
  paint_string_lem = record {
    letters = λ x y hx hy.
        ap (λ z. paint_string tempstring offset buffer (z + offset))
          (sym (glyph_place-text_address x y))
        ∙ string_writes offset (x / 8) y (x % 8) (omega arith) hy (omega arith) tempstring filled (
            fill_in 5760 0 buffer (glyph_place (x / 8) y (x % 8) + offset) (omega arith)
              (ground arith));
    ground_colour = λ a h none_of.
        string_keeps a
          (λ k i m hk hi hm e. none_of (8 * k + m) i (omega arith) hi (e ∙ ground arith))
        ∙ fill_in 5760 0 buffer a (omega arith) (omega arith);
    outside = λ a h. string_keeps a (λ k i m hk hi hm e. ground arith) ∙ fill_out buffer a h;
  }
