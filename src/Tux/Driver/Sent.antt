-- ===== src/Tux/Driver/Sent.antt =====
-- What the driver of mp2/module hands to the serial driver, and what waits in `tx_buf`.
use computer_systems_enginee.Base.{
  ℕ, zero, suc, ◌+◌, ◌-◌, ◌≤◌, ◌≡◌, refl, sym, ap, subst, ◌∙◌, arith, List, [], ◌∷◌, ◌++◌, take,
  drop, length, length-append, length-take,
}
use computer_systems_enginee.Tux.Ring.{buf_room, put_bytes}
use computer_systems_enginee.Tux.Ring.Queue.{
  IsRing, contents, put_bytes_lem, get_bytes_lem, buf_room_eq,
}
use computer_systems_enginee.Tux.Driver.{Driver, put, tuxctl_ldisc_put, tuxctl_ldisc_write_wakeup}

pub take-append-drop : (n : ℕ) (xs : List ℕ) → take n xs ++ drop n xs ≡ xs
take-append-drop zero xs = refl
take-append-drop (suc n) [] = refl
take-append-drop (suc n) (x ∷ xs) = ap (◌∷◌ x) (take-append-drop n xs)

pub append_assoc : (xs ys zs : List ℕ) → (xs ++ ys) ++ zs ≡ xs ++ (ys ++ zs)
append_assoc [] ys zs = refl
append_assoc (x ∷ xs) ys zs = ap (◌∷◌ x) (append_assoc xs ys zs)

pub take_all : (n : ℕ) (xs : List ℕ) → length xs ≤ n → take n xs ≡ xs
take_all zero [] h = refl
take_all zero (x ∷ xs) h = absurd (omega arith)
take_all (suc n) [] h = refl
take_all (suc n) (x ∷ xs) h = ap (◌∷◌ x) (take_all n xs (omega arith))

length-drop_le : (n : ℕ) (xs : List ℕ) → length (drop n xs) ≤ length xs
length-drop_le zero xs = omega arith
length-drop_le (suc n) [] = omega arith
length-drop_le (suc n) (x ∷ xs) = omega (arith, length-drop_le n xs)

-- How many bytes the next hand-over takes at most: one more than the serial driver has room for.
abbrev pub window : Driver → ℕ
window d = suc (d.write_room d.calls)

-- A hand-over of the bytes `queue`: the serial driver's `write` is given the first of them, and the
-- others wait.
pub record HandsOver (queue : List ℕ) (d after : Driver) : Type 0 where
  pub valid : IsRing after.tx
  pub handed : after.written ≡ d.written ++ take (window d) queue
  pub waiting : contents after.tx ≡ drop (window d) queue
  pub calls : after.calls ≡ suc d.calls

wakeup-HandsOver :
    (d : Driver) → IsRing d.tx → HandsOver (contents d.tx) d (tuxctl_ldisc_write_wakeup d)
unfolding tuxctl_ldisc_write_wakeup
wakeup-HandsOver d h =
    let t = get_bytes_lem (window d) d.tx h in
    record {
      valid = t.valid;
      handed = ap (◌++◌ d.written) t.oldest;
      waiting = t.queued;
      calls = refl;
    }

-- A put of bytes: as many of them as there is room for join the queue, and it is handed over.
pub record Puts (bytes : List ℕ) (d after : Driver) (left : ℕ) : Type 0 where
  pub hands : HandsOver (contents d.tx ++ take (buf_room d.tx) bytes) d after
  pub rest : left ≡ length bytes - buf_room d.tx
  pub room : buf_room d.tx ≤ buf_room after.tx + length bytes

-- Where the buffer for sending is well formed, tuxctl_ldisc_put puts as many of the bytes as there
-- is room for behind those that wait, and gives the number of the others. The serial driver's write
-- is then given the first of all these, in their order, one more than its write_room said if there
-- are so many; the others wait, in a buffer that is well formed and has no less room than it had,
-- less the number of the bytes.
pub put_lem :
    (bytes : List ℕ) (d : Driver)
    → IsRing d.tx
    → Puts bytes d (tuxctl_ldisc_put bytes d).0 (tuxctl_ldisc_put bytes d).1
unfolding tuxctl_ldisc_put
put_lem bytes d h =
    let a = put_bytes_lem bytes d.tx h in
    let d' = record d { tx = (put_bytes bytes d.tx).0 } in
    let t = wakeup-HandsOver d' a.valid in
    let queue = contents d.tx ++ take (buf_room d.tx) bytes in
    let waits : contents (tuxctl_ldisc_write_wakeup d').tx ≡ drop (window d) queue =
      t.waiting ∙ ap (drop (window d)) a.queued in
    let e = buf_room_eq d.tx h in
    let e' = buf_room_eq (tuxctl_ldisc_write_wakeup d').tx t.valid in
    let q = ap length waits in
    let s = length-drop_le (window d) queue in
    let l = length-append (contents d.tx) (take (buf_room d.tx) bytes) in
    let k = length-take (buf_room d.tx) bytes in
    record {
      hands = record {
        valid = t.valid;
        handed = t.handed ∙ ap (λ xs. d.written ++ take (window d) xs) a.queued;
        waiting = waits;
        calls = t.calls;
      };
      rest = a.rest;
      room = omega (arith, e, e', q, s, l, k);
    }

-- Bytes for which there is room all join the queue.
pub put_fits :
    (bytes : List ℕ) (d : Driver)
    → IsRing d.tx
    → length bytes ≤ buf_room d.tx
    → HandsOver (contents d.tx ++ bytes) d (put bytes d)
put_fits bytes d h fits =
    subst (λ xs. HandsOver (contents d.tx ++ xs) d (put bytes d))
      (take_all (buf_room d.tx) bytes fits) (put_lem bytes d h).hands

-- What was handed over and what waits, one after the other.
abbrev pub in_order : Driver → List ℕ
in_order d = d.written ++ contents d.tx

pub HandsOver-in_order :
    (queue : List ℕ) (d after : Driver)
    → HandsOver queue d after
    → in_order after ≡ d.written ++ queue
HandsOver-in_order queue d after t =
    ap (λ xs. xs ++ contents after.tx) t.handed
    ∙ ap (◌++◌ (d.written ++ take (window d) queue)) t.waiting
    ∙ append_assoc d.written (take (window d) queue) (drop (window d) queue)
    ∙ ap (◌++◌ d.written) (take-append-drop (window d) queue)

-- The serial driver calls `n` times.
unfoldable pub wakeups : ℕ → Driver → Driver
wakeups zero d = d
wakeups (suc n) d = wakeups n (tuxctl_ldisc_write_wakeup d)

drop_shrinks : (m : ℕ) (xs : List ℕ) (n : ℕ) → length xs ≤ suc n → length (drop (suc m) xs) ≤ n
drop_shrinks m [] n h = omega arith
drop_shrinks m (x ∷ xs) n h = omega (arith, length-drop_le m xs, h)

append_nil : (xs : List ℕ) → xs ++ [] ≡ xs
append_nil [] = refl
append_nil (x ∷ xs) = ap (◌∷◌ x) (append_nil xs)

-- Where the buffer for sending is well formed and the serial driver calls at least as often as
-- bytes wait, its write is given all of them, in their order, after what it was given before,
-- whatever its write_room says; then none waits.
pub wakeups_drain :
    (n : ℕ) (d : Driver)
    → IsRing d.tx
    → length (contents d.tx) ≤ n
    → ((wakeups n d).written ≡ d.written ++ contents d.tx) × (contents (wakeups n d).tx ≡ [])
unfolding wakeups
wakeups_drain zero d h l =
    let none_left = no_bytes (contents d.tx) l in
    (sym (ap (◌++◌ d.written) none_left ∙ append_nil d.written), none_left)
  where
    no_bytes : (xs : List ℕ) → length xs ≤ 0 → xs ≡ []
    no_bytes [] k = refl
    no_bytes (x ∷ xs) k = absurd (omega arith)
wakeups_drain (suc n) d h l =
    let t = wakeup-HandsOver d h in
    let d' = tuxctl_ldisc_write_wakeup d in
    let (given, left) = wakeups_drain n d' t.valid (
      subst (λ xs. length xs ≤ n) (sym t.waiting)
        (drop_shrinks (d.write_room d.calls) (contents d.tx) n l)) in
    (given ∙ HandsOver-in_order (contents d.tx) d d' t, left)
