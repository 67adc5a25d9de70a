-- ===== src/Tux/Ring/Queue.antt =====
-- The circular buffers of mp2/module/tuxctl-ld.c are bounded queues.
use computer_systems_enginee.Base.{
  ℕ, zero, suc, ◌+◌, ◌-◌, ◌%◌, ◌<◌, ◌≤◌, ◌≡◌, ◌≢◌, ◌↔◌, refl, sym, ap, ◌∙◌, inl, inr, true, false,
  arith, Bool-cases, List, [], ◌∷◌, ◌++◌, get_or, set, length, take, drop, length-set,
  get_or-set_self, get_or-set_ne,
}
use computer_systems_enginee.Tux.Ring.{
  Ring, tuxctl_bufsize, buf_used, buf_room, buf_empty, buf_full, buf_incidx, store, put_bytes,
  get_bytes,
}

-- The `n` bytes from index `i` on.
abbrev pub window : ℕ → ℕ → List ℕ → List ℕ
window zero i b = []
window (suc n) i b = get_or b i 0 ∷ window n (suc i % tuxctl_bufsize) b

-- The bytes that a buffer holds, in the order in which they will be taken.
abbrev pub contents : Ring → List ℕ
contents r = window (buf_used r) r.start r.buf

pub record IsRing (r : Ring) : Type 0 where
  pub size : length r.buf ≡ tuxctl_bufsize
  pub starts : r.start < tuxctl_bufsize
  pub finishes : r.finish < tuxctl_bufsize

length-window : (n i : ℕ) (b : List ℕ) → length (window n i b) ≡ n
length-window zero i b = refl
length-window (suc n) i b = ap suc (length-window n (suc i % tuxctl_bufsize) b)

-- A write outside a window leaves it alone.
window-set :
    (n i j v : ℕ) (b : List ℕ)
    → i < tuxctl_bufsize
    → ((k : ℕ) → k < n → (i + k) % tuxctl_bufsize ≢ j)
    → window n i (set b j v) ≡ window n i b
window-set zero i j v b h away = refl
window-set (suc n) i j v b h away =
    let here = get_or-set_ne b j i v 0 (λ e. away 0 (omega arith) (omega (arith, e, h))) in
    let rest =
      window-set n (suc i % tuxctl_bufsize) j v b (omega arith)
        (λ k lt e. away (suc k) (omega (arith, lt)) (omega (arith, e))) in
    cc (here, rest)

-- A window is one byte longer at its far end.
window-snoc :
    (n i : ℕ) (b : List ℕ)
    → i < tuxctl_bufsize
    → window (suc n) i b ≡ window n i b ++ (get_or b ((i + n) % tuxctl_bufsize) 0 ∷ [])
window-snoc zero i b h = ap (λ j. get_or b j 0 ∷ []) (omega arith)
window-snoc (suc n) i b h = ap (◌∷◌ (get_or b i 0)) (
    window-snoc n (suc i % tuxctl_bufsize) b (omega arith)
    ∙ ap (λ j. window n (suc i % tuxctl_bufsize) b ++ (get_or b j 0 ∷ [])) (omega arith))

-- The two ways in which the indices can stand.
used_cases :
    (r : Ring)
    → IsRing r
    → (buf_used r < tuxctl_bufsize) × ((r.start + buf_used r) % tuxctl_bufsize ≡ r.finish)
unfolding buf_used
used_cases r h = let s = h.starts in let f = h.finishes in (ground arith, ground arith)

full_iff : (r : Ring) → IsRing r → (buf_full r ≡ true) ↔ (buf_used r ≡ 63)
unfolding buf_full buf_used
full_iff r h = let s = h.starts in let f = h.finishes in ground arith

empty_iff : (r : Ring) → IsRing r → (buf_empty r ≡ true) ↔ (buf_used r ≡ 0)
unfolding buf_empty buf_used
empty_iff r h = let s = h.starts in let f = h.finishes in ground arith

store-IsRing : (b : ℕ) (r : Ring) → IsRing r → IsRing (store b r)
unfolding store buf_incidx
store-IsRing b r h = record {
  size = length-set r.buf r.finish b ∙ h.size;
  starts = h.starts;
  finishes = omega arith;
}

store-used :
    (b : ℕ) (r : Ring) → IsRing r → buf_full r ≡ false → buf_used (store b r) ≡ suc (buf_used r)
unfolding store buf_incidx buf_used buf_full
store-used b r h f = let s = h.starts in let e = h.finishes in ground arith

-- A byte that is stored joins the queue at its end.
store_lem :
    (b : ℕ) (r : Ring)
    → IsRing r
    → buf_full r ≡ false
    → contents (store b r) ≡ contents r ++ (b ∷ [])
unfolding store
store_lem b r h f =
    let (lt, at) = used_cases r h in
    let n = buf_used r in
    ap (λ k. window k r.start (set r.buf r.finish b)) (store-used b r h f)
    ∙ window-snoc n r.start (set r.buf r.finish b) h.starts
    ∙ cc (
      window-set n r.start r.finish b r.buf h.starts (λ k lk e. omega arith),
      at,
      get_or-set_self r.buf r.finish b 0 (rw h.size h.finishes),
    )

append_nil : (xs : List ℕ) → xs ++ [] ≡ xs
append_nil [] = refl
append_nil (x ∷ xs) = ap (◌∷◌ x) (append_nil xs)

append_snoc : (xs : List ℕ) (y : ℕ) (ys : List ℕ) → (xs ++ (y ∷ [])) ++ ys ≡ xs ++ (y ∷ ys)
append_snoc [] y ys = refl
append_snoc (x ∷ xs) y ys = ap (◌∷◌ x) (append_snoc xs y ys)

store-room :
    (b : ℕ) (r : Ring) → IsRing r → buf_full r ≡ false → buf_room r ≡ suc (buf_room (store b r))
unfolding buf_room
store-room b r h f =
    let e = store-used b r h f in
    let (lt, _) = used_cases (store b r) (store-IsRing b r h) in omega (arith, e, lt)

full-room : (r : Ring) → IsRing r → buf_full r ≡ true → buf_room r ≡ 0
unfolding buf_room
full-room r h f = let e = (full_iff r h).0 f in omega (arith, e)

-- What it is for the bytes that a loop left over, and the buffer after it.
pub record Accepts (bytes : List ℕ) (r : Ring) (after : Ring) (left : ℕ) : Type 0 where
  pub valid : IsRing after
  pub queued : contents after ≡ contents r ++ take (buf_room r) bytes
  pub rest : left ≡ length bytes - buf_room r

-- Bytes put into a well-formed circular buffer join the end of its queue in their order as far as
-- there is room for them, the number of the others is given, and the buffer stays well formed.
pub put_bytes_lem :
    (bytes : List ℕ) (r : Ring)
    → IsRing r
    → Accepts bytes r (put_bytes bytes r).0 (put_bytes bytes r).1
unfolding put_bytes
put_bytes_lem [] r h = record {
  valid = h;
  queued = sym (ap (◌++◌ (contents r)) (take_nil (buf_room r)) ∙ append_nil (contents r));
  rest = omega arith;
}
  where
    take_nil : (n : ℕ) → take {A = ℕ} n [] ≡ []
    take_nil zero = refl
    take_nil (suc n) = refl
put_bytes_lem (byte ∷ bytes) r h = elim (Bool-cases (buf_full r)) [
  | inl t ↦
      let e = full-room r h t in
      rw t (record {
        valid = h;
        queued = sym (ap (λ n. contents r ++ take n (byte ∷ bytes)) e ∙ append_nil (contents r));
        rest = omega (arith, e);
      })
  | inr f ↦
      let e = store-room byte r h f in
      let ih = put_bytes_lem bytes (store byte r) (store-IsRing byte r h) in
      rw f (record {
        valid = ih.valid;
        queued =
            ih.queued
            ∙ ap (λ xs. xs ++ take (buf_room (store byte r)) bytes) (store_lem byte r h f)
            ∙ append_snoc (contents r) byte (take (buf_room (store byte r)) bytes)
            ∙ ap (λ n. contents r ++ take n (byte ∷ bytes)) (sym e);
        rest = omega (arith, ih.rest, e);
      })
]

-- The bytes taken, and the buffer after them.
pub record Takes (n : ℕ) (r : Ring) (taken : List ℕ) (after : Ring) : Type 0 where
  pub valid : IsRing after
  pub oldest : taken ≡ take n (contents r)
  pub queued : contents after ≡ drop n (contents r)

abbrev advance : Ring → Ring
advance r = record r { start = buf_incidx r.start }

advance-IsRing : (r : Ring) → IsRing r → IsRing (advance r)
unfolding buf_incidx
advance-IsRing r h = record { size = h.size; starts = omega arith; finishes = h.finishes }

advance-used : (r : Ring) → IsRing r → buf_empty r ≡ false → buf_used r ≡ suc (buf_used (advance r))
unfolding buf_incidx buf_used buf_empty
advance-used r h f = let s = h.starts in let e = h.finishes in ground arith

advance_lem :
    (r : Ring)
    → IsRing r
    → buf_empty r ≡ false
    → contents r ≡ get_or r.buf r.start 0 ∷ contents (advance r)
unfolding buf_incidx
advance_lem r h f = ap (λ n. window n r.start r.buf) (advance-used r h f)

empty_lem : (r : Ring) → IsRing r → buf_empty r ≡ true → contents r ≡ []
empty_lem r h t = ap (λ n. window n r.start r.buf) ((empty_iff r h).0 t)

-- From a well-formed circular buffer at most n bytes are taken, the oldest first, and the others
-- stay in their order; the buffer stays well formed.
pub get_bytes_lem : (n : ℕ) (r : Ring) → IsRing r → Takes n r (get_bytes n r).0 (get_bytes n r).1
unfolding get_bytes
get_bytes_lem zero r h = record { valid = h; oldest = refl; queued = refl }
get_bytes_lem (suc n) r h = elim (Bool-cases (buf_empty r)) [
  | inl t ↦
      let e = empty_lem r h t in rw t (record { valid = h; oldest = rw e refl; queued = rw e refl })
  | inr f ↦
      let e = advance_lem r h f in
      let ih = get_bytes_lem n (advance r) (advance-IsRing r h) in
      rw f (record {
        valid = ih.valid;
        oldest = ap (◌∷◌ (get_or r.buf r.start 0)) ih.oldest ∙ ap (take (suc n)) (sym e);
        queued = ih.queued ∙ ap (drop (suc n)) (sym e);
      })
]

-- A queue has at most 63 bytes.
pub length-contents : (r : Ring) → IsRing r → length (contents r) ≤ 63
length-contents r h =
    let (lt, _) = used_cases r h in omega (arith, length-window (buf_used r) r.start r.buf, lt)

pub buf_room_eq : (r : Ring) → IsRing r → buf_room r + length (contents r) ≡ 63
unfolding buf_room
buf_room_eq r h =
    let (lt, _) = used_cases r h in omega (arith, length-window (buf_used r) r.start r.buf, lt)
