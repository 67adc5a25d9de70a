-- ===== src/Text/Strings.antt =====
-- The string of 40 characters that `text_to_graphics` of mp2/text.c shows.
use computer_systems_enginee.Base.{
  ℕ, zero, suc, ◌+◌, ◌-◌, ◌/◌, ◌%◌, ◌≤◌, ◌<◌, ◌≡◌, ◌≢◌, inl, inr, refl, sym, ap, ◌∙◌, true, false,
  ◌==◌, ==_iff, ltb, leb, if◌then◌else◌, Bool-cases, arith, Text, get_or, length,
}
use computer_systems_enginee.World.State.{update}
use computer_systems_enginee.Text.{
  loop, written_byte, message_byte, room_and_typed, message_string, text_to_graphics, lit,
}
use computer_systems_enginee.Text.Painted.{Pictures, loop_keeps, loop_writes, paint_string_lem}

-- A loop that writes each place from `i` on once.
loop_sets :
    (n i : ℕ) (w : ℕ → ℕ) (f : ℕ → ℕ) (a : ℕ)
    → loop n i (λ j s. update s j (w j)) f a
      ≡ (if leb i a then (if ltb a (i + n) then w a else f a) else f a)
unfolding loop
loop_sets zero i w f a = ground arith
loop_sets (suc n) i w f a =
    loop_sets n (suc i) w (update f i (w i)) a ∙ elim (Bool-cases (i == a)) [
      | inl t ↦ let e : i ≡ a = omega (arith, (==_iff i a).0 t) in ground (arith, e, ap w e)
      | inr t ↦ let ne : i ≢ a = λ e. cc (sym t, (==_iff i a).1 e) in ground (arith, ne)
    ]

-- The string: the message, or when there is none the room's name at its left end and the last
-- characters of the typed text at its right.
abbrev pub shown_string : Text → (ℕ → ℕ) → Text → Text → (ℕ → ℕ) → ℕ → ℕ
shown_string written before room msg after i =
    if length msg == 0
    then if leb 20 i
      then written_byte written before (40 - i)
      else if ltb i (length room)
      then get_or room i 0
      else 32
    else message_byte msg after i

module _ (written : Text) (before : ℕ → ℕ) (room : Text) (tempstring : ℕ → ℕ) where
  blank_lem : (i : ℕ) → i < 40 → loop 40 0 (λ j s. update s j 32) (update tempstring 40 0) i ≡ 32
  blank_lem i h = loop_sets 40 0 (λ j. 32) (update tempstring 40 0) i ∙ ground (arith, h)

  named : ℕ → ℕ
  named =
      loop (length room) 0 (λ j s. update s j (get_or room j 0))
        (loop 40 0 (λ j s. update s j 32) (update tempstring 40 0))

  named_lem : (i : ℕ) → i < 40 → named i ≡ (if ltb i (length room) then get_or room i 0 else 32)
  unfolding named
  named_lem i h =
      loop_sets (length room) 0 (λ j. get_or room j 0)
        (loop 40 0 (λ j s. update s j 32) (update tempstring 40 0)) i
      ∙ ground (arith, blank_lem i h)

  typed_in :
      (i : ℕ)
      → 20 ≤ i
      → i < 40
      → room_and_typed written before room tempstring i ≡ written_byte written before (40 - i)
  unfolding room_and_typed named loop
  typed_in i l h =
      loop_writes 21 0 (λ j s. update s (40 - j) (written_byte written before j)) i (40 - i)
        (named i) (written_byte written before (40 - i)) named (omega arith) (omega arith)
        (λ k m o ne g. ground (arith, ne, o, h)) (λ g e. ground (arith, h)) refl

  typed_out :
      (i : ℕ)
      → i < 20
      → room_and_typed written before room tempstring i
        ≡ (if ltb i (length room) then get_or room i 0 else 32)
  unfolding room_and_typed named loop
  typed_out i h =
      loop_keeps 21 0 (λ j s. update s (40 - j) (written_byte written before j)) i named
        (λ k m o g. ground (arith, o, h))
      ∙ named_lem i (omega arith)

  module _ (msg : Text) (after : ℕ → ℕ) where
    room_and_typed_lem :
        (i : ℕ)
        → i < 40
        → (length msg == 0) ≡ true
        → room_and_typed written before room tempstring i
          ≡ shown_string written before room msg after i
    room_and_typed_lem i h t = elim (Bool-cases (leb 20 i)) [
      | inl u ↦ typed_in i (ground (arith, u)) h ∙ rw (t, u) refl
      | inr u ↦ typed_out i (ground (arith, u)) ∙ rw (t, u) refl
    ]

    message_string_lem :
        (i : ℕ)
        → i < 40
        → (length msg == 0) ≡ false
        → message_string msg after tempstring i ≡ shown_string written before room msg after i
    unfolding message_string
    message_string_lem i h t =
        loop_sets 40 0 (message_byte msg after)
          (loop 40 0 (λ j s. update s j 32) (update tempstring 40 0)) i
        ∙ ground (arith, t, h)

-- Pictures of strings with the same 40 characters.
Pictures-string :
    (s t : ℕ → ℕ) (offset : ℕ) (b b' : ℕ → ℕ)
    → ((i : ℕ) → i < 40 → s i ≡ t i)
    → Pictures s offset b b'
    → Pictures t offset b b'
Pictures-string s t offset b b' same p = record {
  letters = λ x y hx hy.
      p.letters x y hx hy
      ∙ ap (λ c. if lit c y (x % 8) then 0x3C else 3) (same (x / 8) (omega arith));
  ground_colour = p.ground_colour;
  outside = p.outside;
}

-- text_to_graphics makes the buffer of 5760 bytes the picture of the 40 characters of the room's
-- name and the typed text, or of a message of at most 40 characters, which is moved to the right by
-- half of the bytes that it leaves of 60. It writes nothing outside the buffer.
pub text_to_graphics_lem :
    (tempstring : ℕ → ℕ) (written : Text) (before : ℕ → ℕ) (room msg : Text) (after : ℕ → ℕ)
    (buffer : ℕ → ℕ)
    → length msg ≤ 40
    → Pictures
        (shown_string written before room msg after)
        (if length msg == 0 then 0 else (60 - length msg) / 2)
        buffer
        (text_to_graphics tempstring written before room msg after buffer)
unfolding text_to_graphics
text_to_graphics_lem tempstring written before room msg after buffer short =
    elim (Bool-cases (length msg == 0)) [
      | inl t ↦ rw t (
          Pictures-string (room_and_typed written before room tempstring)
            (shown_string written before room msg after) 0 buffer _
            (λ i h. room_and_typed_lem written before room tempstring msg after i h t)
            (paint_string_lem (room_and_typed written before room tempstring) 0 (omega arith)
              buffer))
      | inr t ↦ rw t (
          Pictures-string (message_string msg after tempstring)
            (shown_string written before room msg after) ((60 - length msg) / 2) buffer _
            (λ i h. message_string_lem written before room tempstring msg after i h t)
            (paint_string_lem (message_string msg after tempstring) ((60 - length msg) / 2)
              (omega arith) buffer))
    ]
