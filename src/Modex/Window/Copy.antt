-- ===== src/Modex/Window/Copy.antt =====
-- The two copy loops of `set_view_window` when the areas overlap.
use computer_systems_enginee.Base.{
  ℕ, zero, suc, ◌+◌, ◌≤◌, ◌<◌, ◌≡◌, ◌≢◌, ap, ◌⊎◌, inl, inr, refl, ◌∙◌, ltb, Bool-cases, ◌==◌, arith,
}
use computer_systems_enginee.World.State.{update}
use computer_systems_enginee.Modex.Window.{copy_down, copy_up, copy}

pub update_self : (f : ℕ → ℕ) (a v : ℕ) → update f a v a ≡ v
update_self f a v = ground arith

pub update_ne : (f : ℕ → ℕ) (a v b : ℕ) → a ≢ b → update f a v b ≡ f b
update_ne f a v b ne = ground arith

-- What is outside the target stays.
copy_down_out :
    (n s t : ℕ) (build : ℕ → ℕ) (a : ℕ) → (a < t) ⊎ (t + n ≤ a) → copy_down n s t build a ≡ build a
unfolding copy_down
copy_down_out zero s t build a h = refl
copy_down_out (suc n) s t build a h =
    copy_down_out n s t (update build (t + n) (build (s + n))) a (ground arith)
    ∙ update_ne build (t + n) (build (s + n)) a (ground arith)

copy_up_out :
    (n s t : ℕ) (build : ℕ → ℕ) (a : ℕ) → (a < t) ⊎ (t + n ≤ a) → copy_up n s t build a ≡ build a
unfolding copy_up
copy_up_out zero s t build a h = refl
copy_up_out (suc n) s t build a h =
    copy_up_out n (suc s) (suc t) (update build t (build s)) a (ground arith)
    ∙ update_ne build t (build s) a (ground arith)

-- Going down is right when the target is above the start, going up when it is not.
copy_down_in :
    (n s t : ℕ) (build : ℕ → ℕ) (k : ℕ)
    → s < t
    → k < n
    → copy_down n s t build (t + k) ≡ build (s + k)
unfolding copy_down
copy_down_in zero s t build k h l = absurd (omega arith)
copy_down_in (suc n) s t build k h l = elim (Bool-cases (k == n)) [
  | inl e ↦
      copy_down_out n s t (update build (t + n) (build (s + n))) (t + k) (ground arith)
      ∙ ground arith
  | inr ne ↦
      copy_down_in n s t (update build (t + n) (build (s + n))) k h (ground arith)
      ∙ update_ne build (t + n) (build (s + n)) (s + k) (ground arith)
]

copy_up_in :
    (n s t : ℕ) (build : ℕ → ℕ) (k : ℕ)
    → t ≤ s
    → k < n
    → copy_up n s t build (t + k) ≡ build (s + k)
unfolding copy_up
copy_up_in zero s t build k h l = absurd (omega arith)
copy_up_in (suc n) s t build zero h l =
    copy_up_out n (suc s) (suc t) (update build t (build s)) (t + 0) (ground arith) ∙ ground arith
copy_up_in (suc n) s t build (suc k) h l =
    ap (copy_up n (suc s) (suc t) (update build t (build s))) (omega arith)
    ∙ copy_up_in n (suc s) (suc t) (update build t (build s)) k (omega arith) (omega arith)
    ∙ update_ne build t (build s) (suc s + k) (omega arith)
    ∙ ap build (omega arith)

-- The target gets what the start held before, however the two areas overlap.
pub copy_in : (n s t : ℕ) (build : ℕ → ℕ) (k : ℕ) → k < n → copy n s t build (t + k) ≡ build (s + k)
copy_in n s t build k l = elim (Bool-cases (ltb s t)) [
  | inl below ↦ rw below (copy_down_in n s t build k (ground arith) l)
  | inr above ↦ rw above (copy_up_in n s t build k (ground arith) l)
]

pub copy_out :
    (n s t : ℕ) (build : ℕ → ℕ) (a : ℕ) → (a < t) ⊎ (t + n ≤ a) → copy n s t build a ≡ build a
copy_out n s t build a h = elim (Bool-cases (ltb s t)) [
  | inl below ↦ rw below (copy_down_out n s t build a h)
  | inr above ↦ rw above (copy_up_out n s t build a h)
]
