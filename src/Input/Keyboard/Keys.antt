-- ===== src/Input/Keyboard/Keys.antt =====
-- What the finite state machine of mp2/input.c makes of words and of the keys that send several bytes.
use computer_systems_enginee.Base.{
  ℕ, ◌+◌, ◌≤◌, ◌<◌, ◌≡◌, refl, sym, ap, ◌∙◌, arith, true, false, ◌⊎◌, inl, inr, ltb, ◌==◌, List, [],
  ◌∷◌, ◌++◌, Text, length, length-append,
}
use computer_systems_enginee.Input.Keyboard.{
  Cmd, cmd_right, cmd_left, cmd_up, cmd_down, cmd_move_left, cmd_enter, cmd_move_right, cmd_typed,
  max_typed_len, is_erase, valid_typing, typed_a_char, Keyboard, plain_key, arrow, digit_key,
  bracket_key, press, read_keys,
}
use computer_systems_enginee.Input.Keyboard.Typing.{AllPlain, is_plain}

append_nil : (xs : Text) → xs ++ [] ≡ xs
append_nil [] = refl
append_nil (x ∷ xs) = ap (◌∷◌ x) (append_nil xs)

append_snoc : (xs : Text) (y : ℕ) (ys : Text) → (xs ++ (y ∷ [])) ++ ys ≡ xs ++ (y ∷ ys)
append_snoc [] y ys = refl
append_snoc (x ∷ xs) y ys = ap (◌∷◌ x) (append_snoc xs y ys)

plain_facts :
    (c : ℕ)
    → is_plain c ≡ true
    → ((c == 27) ≡ false) × ((c == b'`') ≡ false) × (is_erase c ≡ false) × (valid_typing c ≡ true)
unfolding valid_typing
plain_facts c p = (ground (arith, p), ground (arith, p), ground (arith, p), ground (arith, p))

lt_test : (a b : ℕ) → a < b → ltb a b ≡ true
lt_test a b h = ground arith

-- A plain character joins the buffer where there is room.
press_plain :
    (c : ℕ) (k : Keyboard)
    → is_plain c ≡ true
    → k.state ≡ 0
    → length k.typing < max_typed_len
    → press c k ≡ record k { typing = k.typing ++ (c ∷ []) }
unfolding press plain_key typed_a_char
press_plain c k p s l =
    let (esc, back, erase, valid) = plain_facts c p in
    rw (s, esc, valid, erase, lt_test (length k.typing) max_typed_len l) refl

-- Enter sends one of two codes.
abbrev pub IsEnter : ℕ → Type 0
IsEnter ch = (ch ≡ 10) ⊎ (ch ≡ 13)

press_enter :
    (ch : ℕ) (k : Keyboard)
    → IsEnter ch
    → k.state ≡ 0
    → read_keys (ch ∷ []) k ≡ (false, record k { pushed = cmd_typed })
unfolding read_keys press plain_key valid_typing
press_enter ch k (inl e) s = rw (e, s) refl
press_enter ch k (inr e) s = rw (e, s) refl

-- In the first state, a word of letters, digits and spaces for which there is room is typed as it
-- is, and the end of the line after it, a line feed or a carriage return, gives the command to obey
-- it.
pub read_keys-word :
    (word : Text) (ch : ℕ) (k : Keyboard)
    → AllPlain word
    → IsEnter ch
    → k.state ≡ 0
    → length k.typing + length word ≤ max_typed_len
    → read_keys (word ++ (ch ∷ [])) k
      ≡ (false, record k { typing = k.typing ++ word; pushed = cmd_typed })
unfolding read_keys
read_keys-word [] ch k h enter s l =
    press_enter ch k enter s
    ∙ ap (λ t. (false, record k { typing = t; pushed = cmd_typed })) (sym (append_nil k.typing))
read_keys-word (c ∷ word) ch k h enter s l =
    let (esc, back, erase, valid) = plain_facts c h.0 in
    let k' = record k { typing = k.typing ++ (c ∷ []) } in
    rw back (
      ap (read_keys (word ++ (ch ∷ []))) (press_plain c k h.0 s (omega (arith, l)))
      ∙ read_keys-word word ch k' h.1 enter s (omega (arith, l, length-append k.typing (c ∷ [])))
      ∙ ap (λ t. (false, record k { typing = t; pushed = cmd_typed }))
          (append_snoc k.typing c word))

-- What a terminal sends for a key, and the command that the game has for it.
abbrev pub key_codes : List (Text × Cmd)
key_codes =
    (27 ∷ 91 ∷ 65 ∷ [], cmd_up)
    ∷ (27 ∷ 91 ∷ 66 ∷ [], cmd_down)
    ∷ (27 ∷ 91 ∷ 67 ∷ [], cmd_right)
    ∷ (27 ∷ 91 ∷ 68 ∷ [], cmd_left)
    ∷ (27 ∷ 91 ∷ 50 ∷ 126 ∷ [], cmd_move_left)
    ∷ (27 ∷ 91 ∷ 49 ∷ 126 ∷ [], cmd_enter)
    ∷ (27 ∷ 91 ∷ 53 ∷ 126 ∷ [], cmd_move_right)
    ∷ []

abbrev pub AllKeys : (Text × Cmd → Type 0) → List (Text × Cmd) → Type 0
AllKeys P [] = Unit {0}
AllKeys P (e ∷ es) = P e × AllKeys P es

-- In the first state, each key that sends several bytes gives its command, types nothing, and
-- leaves the state machine where it began.
pub read_keys-key_codes :
    (k : Keyboard)
    → k.state ≡ 0
    → AllKeys (λ e. read_keys e.0 k ≡ (false, record k { state = 0; pushed = e.1 })) key_codes
unfolding read_keys press plain_key valid_typing bracket_key arrow digit_key
read_keys-key_codes k s =
    (rw s refl, (rw s refl, (rw s refl, (rw s refl, (rw s refl, (rw s refl, (rw s refl, tt)))))))
