-- ===== src/Adventure/Drawing/Lines.antt =====
-- What several lines drawn into the window show.
use computer_systems_enginee.Base.{
  ℕ, ◌+◌, ◌-◌, ◌<◌, ◌≡◌, ◌≢◌, ◌⊎◌, inl, inr, refl, sym, ap, ◌∙◌, subst, leb, ◌==◌, ==_iff,
  Bool-cases, List, [], ◌∷◌, In, arith,
}
use computer_systems_enginee.Modex.{Display}
use computer_systems_enginee.Modex.Pixels.{pixel, OnScreen, IsPlaced}
use computer_systems_enginee.Modex.Window.{LineFn, draw_horiz_line, draw_vert_line}
use computer_systems_enginee.Modex.Window.Lines.{
  Redrawn, draw_horiz_line_lem, draw_vert_line_lem, draw_horiz_line_off, draw_vert_line_off,
}
use computer_systems_enginee.Adventure.Drawing.{drawn, draw_rows, draw_columns}

pub Redrawn-refl : (d : Display) → Redrawn d d
Redrawn-refl d = record {
  same_off = refl;
  same_img3 = refl;
  same_x = refl;
  same_y = refl;
  screen = (refl, refl);
  others = λ a o. refl;
}

pub Redrawn-trans : {c d e : Display} → Redrawn c d → Redrawn d e → Redrawn c e
Redrawn-trans r s = record {
  same_off = s.same_off ∙ r.same_off;
  same_img3 = s.same_img3 ∙ r.same_img3;
  same_x = s.same_x ∙ r.same_x;
  same_y = s.same_y ∙ r.same_y;
  screen = (s.screen.0 ∙ r.screen.0, s.screen.1 ∙ r.screen.1);
  others = λ a o. s.others a o ∙ r.others a o;
}

pub Redrawn-IsPlaced : {d d' : Display} → Redrawn d d' → IsPlaced d → IsPlaced d'
Redrawn-IsPlaced r p = record {
  pointer = omega (arith, r.same_img3, r.same_off, p.pointer);
  starts = omega (arith, r.same_off, r.same_x, r.same_y, p.starts);
  ends = omega (arith, r.same_off, r.same_x, r.same_y, p.ends);
}

-- Some lines of the screen are drawn: a pixel on one of them, or one that has its colour already,
-- has its colour then, and the window stays.
pub record Draws (wanted : ℕ → ℕ → ℕ) (on_line : ℕ → ℕ → Type 0) (d d' : Display) : Type 0 where
  pub redrawn : Redrawn d d'
  pub pixels :
      (x y : ℕ)
      → OnScreen d x y
      → on_line x y ⊎ (pixel d x y ≡ wanted x y)
      → pixel d' x y ≡ wanted x y

-- What a line function has to give for the row, or the column, of the window at this place.
abbrev pub PaintsRow : (ℕ → ℕ → ℕ) → LineFn → ℕ → ℕ → Type 0
PaintsRow wanted f x y = (i : ℕ) → i < 320 → f x y i ≡ wanted (x + i) y

abbrev pub PaintsColumn : (ℕ → ℕ → ℕ) → LineFn → ℕ → ℕ → Type 0
PaintsColumn wanted g x y = (i : ℕ) → i < 182 → g x y i ≡ wanted x (y + i)

module _ (wanted : ℕ → ℕ → ℕ) (f : LineFn) where
  -- One row.
  row-Draws :
      (c : ℕ) (d : Display)
      → IsPlaced d
      → ((j : ℕ) → j < 182 → PaintsRow wanted f d.show_x (j + d.show_y))
      → Draws wanted (λ x y. y ≡ c + d.show_y) d (drawn (draw_horiz_line f c d) d)
  row-Draws c d p paints = elim (Bool-cases (leb 182 c)) [
    | inl off ↦
        subst (λ o. Draws wanted (λ x y. y ≡ c + d.show_y) d (drawn o d))
          (sym (draw_horiz_line_off f c d (ground (arith, off))))
          (record {
            redrawn = Redrawn-refl d;
            pixels = λ x y s h. elim h [ inl e ↦ absurd (ground (arith, off, s, e)) | inr e ↦ e ];
          })
    | inr on ↦
        let lt : c < 182 = ground (arith, on) in
        let (d', e, draws) = draw_horiz_line_lem f c d p lt in
        subst (λ o. Draws wanted (λ x y. y ≡ c + d.show_y) d (drawn o d)) (sym e)
          (record {
            redrawn = draws.redrawn;
            pixels = λ x y s h. elim (Bool-cases (y == c + d.show_y)) [
              | inl t ↦
                  let k : y ≡ c + d.show_y = (==_iff y (c + d.show_y)).0 t in
                  ap (pixel d' x) k
                  ∙ draws.line x (subst (OnScreen d x) k s)
                  ∙ paints c lt (x - d.show_x) (omega (arith, s))
                  ∙ ap (λ z. wanted z (c + d.show_y)) (omega (arith, s))
                  ∙ ap (wanted x) (sym k)
              | inr n ↦
                  let ne : y ≢ c + d.show_y = ground (arith, n) in
                  draws.kept x y s ne ∙ elim h [ inl e ↦ absurd (ne e) | inr e ↦ e ]
            ];
          })
  ]

  -- One column.
  column-Draws :
      (c : ℕ) (d : Display)
      → IsPlaced d
      → ((j : ℕ) → j < 320 → PaintsColumn wanted f (j + d.show_x) d.show_y)
      → Draws wanted (λ x y. x ≡ c + d.show_x) d (drawn (draw_vert_line f c d) d)
  column-Draws c d p paints = elim (Bool-cases (leb 320 c)) [
    | inl off ↦
        subst (λ o. Draws wanted (λ x y. x ≡ c + d.show_x) d (drawn o d))
          (sym (draw_vert_line_off f c d (ground (arith, off))))
          (record {
            redrawn = Redrawn-refl d;
            pixels = λ x y s h. elim h [ inl e ↦ absurd (ground (arith, off, s, e)) | inr e ↦ e ];
          })
    | inr on ↦
        let lt : c < 320 = ground (arith, on) in
        let (d', e, draws) = draw_vert_line_lem f c d p lt in
        subst (λ o. Draws wanted (λ x y. x ≡ c + d.show_x) d (drawn o d)) (sym e)
          (record {
            redrawn = draws.redrawn;
            pixels = λ x y s h. elim (Bool-cases (x == c + d.show_x)) [
              | inl t ↦
                  let k : x ≡ c + d.show_x = (==_iff x (c + d.show_x)).0 t in
                  ap (λ z. pixel d' z y) k
                  ∙ draws.line y (subst (λ z. OnScreen d z y) k s)
                  ∙ paints c lt (y - d.show_y) (omega (arith, s))
                  ∙ ap (wanted (c + d.show_x)) (omega (arith, s))
                  ∙ ap (λ z. wanted z y) (sym k)
              | inr n ↦
                  let ne : x ≢ c + d.show_x = ground (arith, n) in
                  draws.kept x y s ne ∙ elim h [ inl e ↦ absurd (ne e) | inr e ↦ e ]
            ];
          })
  ]

  -- Several rows, one after the other.
  pub rows-Draws :
      (lines : List ℕ) (d : Display)
      → IsPlaced d
      → ((j : ℕ) → j < 182 → PaintsRow wanted f d.show_x (j + d.show_y))
      → Draws wanted (λ x y. In (y - d.show_y) lines) d (draw_rows f lines d)
  unfolding draw_rows
  rows-Draws [] d p paints = record {
    redrawn = Redrawn-refl d;
    pixels = λ x y s h. elim h [ inl i ↦ absurd i | inr e ↦ e ];
  }
  rows-Draws (c ∷ lines) d p paints =
      let d1 = drawn (draw_horiz_line f c d) d in
      let first = row-Draws c d p paints in
      let r : Redrawn d d1 = first.redrawn in
      let rest = rows-Draws lines d1 (Redrawn-IsPlaced r p) (λ j l.
        subst (λ a. PaintsRow wanted f a (j + d1.show_y)) (sym r.same_x)
          (subst (λ b. PaintsRow wanted f d.show_x (j + b)) (sym r.same_y) (paints j l))) in
      record {
        redrawn = Redrawn-trans r rest.redrawn;
        pixels = λ x y s h. rest.pixels x y (omega (arith, s, r.same_x, r.same_y)) (elim h [
          | inl i ↦ elim i [
            | inl e ↦ inr (first.pixels x y s (inl (omega (arith, s, e))))
            | inr k ↦ inl (subst (λ b. In (y - b) lines) (sym r.same_y) k)
          ]
          | inr e ↦ inr (first.pixels x y s (inr e))
        ]);
      }

  -- Several columns, one after the other.
  pub columns-Draws :
      (lines : List ℕ) (d : Display)
      → IsPlaced d
      → ((j : ℕ) → j < 320 → PaintsColumn wanted f (j + d.show_x) d.show_y)
      → Draws wanted (λ x y. In (x - d.show_x) lines) d (draw_columns f lines d)
  unfolding draw_columns
  columns-Draws [] d p paints = record {
    redrawn = Redrawn-refl d;
    pixels = λ x y s h. elim h [ inl i ↦ absurd i | inr e ↦ e ];
  }
  columns-Draws (c ∷ lines) d p paints =
      let d1 = drawn (draw_vert_line f c d) d in
      let first = column-Draws c d p paints in
      let r : Redrawn d d1 = first.redrawn in
      let rest = columns-Draws lines d1 (Redrawn-IsPlaced r p) (λ j l.
        subst (λ a. PaintsColumn wanted f (j + d1.show_x) a) (sym r.same_y)
          (subst (λ b. PaintsColumn wanted f (j + b) d.show_y) (sym r.same_x) (paints j l))) in
      record {
        redrawn = Redrawn-trans r rest.redrawn;
        pixels = λ x y s h. rest.pixels x y (omega (arith, s, r.same_x, r.same_y)) (elim h [
          | inl i ↦ elim i [
            | inl e ↦ inr (first.pixels x y s (inl (omega (arith, s, e))))
            | inr k ↦ inl (subst (λ b. In (x - b) lines) (sym r.same_x) k)
          ]
          | inr e ↦ inr (first.pixels x y s (inr e))
        ]);
      }
