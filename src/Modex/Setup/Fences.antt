-- ===== src/Modex/Setup/Fences.antt =====
-- What `set_mode_X` of mp2/modex.c sets up, and its fences around the build buffer.
use computer_systems_enginee.Base.{
  inr, Bool-cases, ==_iff, if◌then◌else◌, ℕ, zero, suc, ◌+◌, ◌*◌, ◌/◌, ◌%◌, ◌≤◌, ◌<◌, ◌≡◌, inl,
  refl, ap, ◌∙◌, ◌==◌, ◌&&◌, Bool, true, false, arith, some, [],
}
use computer_systems_enginee.Photo.Types.{Colour}
use computer_systems_enginee.Modex.{
  VgaState, Display, build_buf_size, mem_fence_width, mem_fence_magic, origin,
}
use computer_systems_enginee.Modex.Pixels.{IsPlaced, Inside}
use computer_systems_enginee.Modex.Window.{LineFn}
use computer_systems_enginee.Modex.Screen.Shown.{IsPage}
use computer_systems_enginee.Modex.Setup.{fill_fences, mode_x, set_mode_x, is_broken, broken_fences}

-- Both fences hold the magic number.
pub record IsFenced (d : Display) : Type 0 where
  pub lower : (k : ℕ) → k < mem_fence_width → d.build (origin + k) ≡ mem_fence_magic
  pub upper :
      (k : ℕ)
      → k < mem_fence_width
      → d.build (origin + build_buf_size + mem_fence_width + k) ≡ mem_fence_magic

-- A fence byte that is filled before, or by one of the rounds to come, is filled at the end.
fill_lower :
    (n i : ℕ) (build : ℕ → ℕ) (k : ℕ)
    → i + n ≤ mem_fence_width
    → k < i + n
    → (k < i → build (origin + k) ≡ mem_fence_magic)
    → fill_fences n i build (origin + k) ≡ mem_fence_magic
unfolding fill_fences
fill_lower zero i build k b h f = f (omega arith)
fill_lower (suc n) i build k b h f =
    fill_lower n (suc i) _ k (omega arith) (omega arith) (λ l. ground (arith, f))

fill_upper :
    (n i : ℕ) (build : ℕ → ℕ) (k : ℕ)
    → i + n ≤ mem_fence_width
    → k < i + n
    → (k < i → build (origin + build_buf_size + mem_fence_width + k) ≡ mem_fence_magic)
    → fill_fences n i build (origin + build_buf_size + mem_fence_width + k) ≡ mem_fence_magic
unfolding fill_fences
fill_upper zero i build k b h f = f (omega arith)
fill_upper (suc n) i build k b h f =
    fill_upper n (suc i) _ k (omega arith) (omega arith) (λ l. ground (arith, f))

intact :
    (n i : ℕ) (build : ℕ → ℕ)
    → ((k : ℕ) → k < n → build (i + k) ≡ mem_fence_magic)
    → is_broken n i build ≡ false
unfolding is_broken
intact zero i build h = refl
intact (suc n) i build h =
    let here : build i ≡ mem_fence_magic = ap build (omega arith) ∙ h 0 (omega arith) in
    rw here (intact n (suc i) build (λ k l. ap build (omega arith) ∙ h (suc k) (omega arith)))

-- A display whose fences are whole gives no message at the end.
pub broken_fences_lem : (d : Display) → IsFenced d → broken_fences d ≡ []
unfolding broken_fences
broken_fences_lem d f =
    rw
      (
        intact 256 origin d.build f.lower,
        intact 256 (origin + build_buf_size + 256) d.build f.upper,
      )
      refl

-- What is written inside the build buffer leaves the fences as they are.
pub IsFenced-kept :
    (d d' : Display) → ((a : ℕ) → ¬ Inside a → d'.build a ≡ d.build a) → IsFenced d → IsFenced d'
IsFenced-kept d d' others f = record {
  lower = λ k h. others (origin + k) (λ s. omega (arith, h, s)) ∙ f.lower k h;
  upper = λ k h.
      others (origin + build_buf_size + mem_fence_width + k) (λ s. omega (arith, h, s))
      ∙ f.upper k h;
}

-- Two bits of a colour as one of four levels.
abbrev pub level : ℕ → ℕ
level n = n % 4 * 21

-- A display that is ready for use.
pub record IsReady (d : Display) : Type 0 where
  pub placed : IsPlaced d
  pub fenced : IsFenced d
  pub page : IsPage d.target_img
  pub clear : (p a : ℕ) → p < 4 → a < 65536 → d.vga.planes p a ≡ 0
  pub colours :
      (c : ℕ)
      → c < 64
      → d.vga.dac c ≡ record { red = level (c / 16); green = level (c / 4); blue = level c }
  -- The lines are 80 bytes long, and the split is after the lines of the photo, two for each.
  pub line_length : d.vga.crtc 0x13 * 2 ≡ 80
  pub split :
      d.vga.crtc 0x18 + d.vga.crtc 0x07 / 16 % 2 * 256 + d.vga.crtc 0x09 / 64 % 2 * 512 + 1
      ≡ 2 * 182
  -- The screen is not blank, and the display is connected.
  pub unblanked : d.vga.seq 1 / 32 % 2 ≡ 0
  pub connected : d.vga.attr.index / 32 % 2 ≡ 1

mode_x_clear : (v : VgaState) (p a : ℕ) → p < 4 → a < 65536 → (mode_x v).planes p a ≡ 0
unfolding mode_x
mode_x_clear v zero a h k = ground (arith, k)
mode_x_clear v (suc zero) a h k = ground (arith, k)
mode_x_clear v (suc (suc zero)) a h k = ground (arith, k)
mode_x_clear v (suc (suc (suc zero))) a h k = ground (arith, k)
mode_x_clear v (suc (suc (suc (suc p)))) a h k = absurd (omega arith)

same_colour : Colour → Colour → Bool
same_colour c e = c.red == e.red && (c.green == e.green && c.blue == e.blue)

same_colour_eq : (c e : Colour) → same_colour c e ≡ true → c ≡ e
unfolding same_colour
same_colour_eq c e h = ground (arith, h)

-- A test that the first colours pass.
colours_pass : (ℕ → Bool) → ℕ → Bool
colours_pass test zero = true
colours_pass test (suc c) = if test c then colours_pass test c else false

colour_passes : (test : ℕ → Bool) (n c : ℕ) → c < n → colours_pass test n ≡ true → test c ≡ true
unfolding colours_pass
colour_passes test zero c l h = absurd (omega (arith, l))
colour_passes test (suc n) c l h = elim (Bool-cases (test n)) [
  | inl t ↦ elim (Bool-cases (c == n)) [
    | inl e ↦ ap test ((==_iff c n).0 e) ∙ t
    | inr ne ↦ colour_passes test n c (ground (arith, l, ne)) (rw t at h)
  ]
  | inr f ↦ absurd (cc (rw f at h))
]

abbrev level_colour : ℕ → Colour
level_colour c = record { red = level (c / 16); green = level (c / 4); blue = level c }

mode_x_colours :
    (v : VgaState) → colours_pass (λ c. same_colour ((mode_x v).dac c) (level_colour c)) 64 ≡ true
unfolding mode_x colours_pass same_colour
mode_x_colours v = refl

mode_x_registers :
    (v : VgaState)
    → ((mode_x v).crtc 0x13 * 2 ≡ 80)
      × ((mode_x v).crtc 0x18
            + (mode_x v).crtc 0x07 / 16 % 2 * 256
            + (mode_x v).crtc 0x09 / 64 % 2 * 512
            + 1
          ≡ 2 * 182)
      × ((mode_x v).seq 1 / 32 % 2 ≡ 0)
      × ((mode_x v).attr.index / 32 % 2 ≡ 1)
unfolding mode_x
mode_x_registers v = (refl, refl, refl, refl)

-- Where the two functions are given and the memory and the ports can be had, set_mode_X succeeds,
-- whatever the display was, and leaves its window inside the build buffer, its fences filled, the
-- video memory clear, the colours of the objects set, lines of 80 bytes, the split after the lines
-- of the photo, the screen not blank, and the display connected to the memory.
pub set_mode_x_lem :
    (h v : LineFn) (d : Display)
    → (d' : Display) × (set_mode_x (some h) (some v) true d ≡ some d') × IsReady d'
unfolding set_mode_x
set_mode_x_lem h v d = (
  _,
  refl,
  record {
    placed = record { pointer = refl; starts = omega arith; ends = omega arith };
    fenced = record {
      lower =
          λ k l. fill_lower 256 0 d.build k (omega arith) (omega arith) (λ z. absurd (omega arith));
      upper =
          λ k l. fill_upper 256 0 d.build k (omega arith) (omega arith) (λ z. absurd (omega arith));
    };
    page = inl refl;
    clear = mode_x_clear d.vga;
    colours = λ c l. same_colour_eq ((mode_x d.vga).dac c) (level_colour c) (
        colour_passes (λ c. same_colour ((mode_x d.vga).dac c) (level_colour c)) 64 c l
          (mode_x_colours d.vga));
    line_length = (mode_x_registers d.vga).0;
    split = (mode_x_registers d.vga).1;
    unblanked = (mode_x_registers d.vga).2;
    connected = (mode_x_registers d.vga).3;
  },
)
