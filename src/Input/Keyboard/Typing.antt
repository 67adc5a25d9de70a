-- ===== src/Input/Keyboard/Typing.antt =====
-- The typing buffer of mp2/input.c.
use computer_systems_enginee.Base.{
  ℕ, ◌≤◌, ◌<◌, ◌≡◌, refl, sym, subst, arith, Bool, true, false, not, ◌&&◌, ◌||◌, inl, inr, ltb,
  ◌==◌, Bool-cases, if◌then◌else◌, Option, none, some, List, [], ◌∷◌, ◌++◌, Text, length,
  length-append,
}
use computer_systems_enginee.Input.Keyboard.{
  Cmd, cmd_none, max_typed_len, is_erase, valid_typing, drop_last, typed_a_char, Keyboard,
  plain_key, arrow, digit_key, bracket_key, press, read_keys, get_command,
}

-- Letters, digits and spaces.
abbrev pub is_plain : ℕ → Bool
is_plain c = valid_typing c && not (is_erase c)

abbrev pub AllPlain : Text → Type 0
AllPlain [] = Unit {0}
AllPlain (c ∷ t) = (is_plain c ≡ true) × AllPlain t

pub record IsTyping (t : Text) : Type 0 where
  pub short : length t ≤ max_typed_len
  pub plain : AllPlain t

length-drop_last : (t : Text) → length (drop_last t) ≤ length t
length-drop_last [] = omega arith
length-drop_last (c ∷ []) = omega arith
length-drop_last (c ∷ d ∷ t) = omega (arith, length-drop_last (d ∷ t))

AllPlain-drop_last : (t : Text) → AllPlain t → AllPlain (drop_last t)
AllPlain-drop_last [] h = tt
AllPlain-drop_last (c ∷ []) h = tt
AllPlain-drop_last (c ∷ d ∷ t) h = (h.0, AllPlain-drop_last (d ∷ t) h.1)

AllPlain-snoc : (t : Text) (c : ℕ) → AllPlain t → is_plain c ≡ true → AllPlain (t ++ (c ∷ []))
AllPlain-snoc [] c h p = (p, tt)
AllPlain-snoc (d ∷ t) c h p = (h.0, AllPlain-snoc t c h.1 p)

typed-IsTyping :
    (c : ℕ) (t : Text) → valid_typing c ≡ true → IsTyping t → IsTyping (typed_a_char c t)
unfolding typed_a_char
typed-IsTyping c t ok h = elim (Bool-cases (is_erase c)) [
  | inl e ↦ rw e (record {
    short = omega (arith, length-drop_last t, h.short);
    plain = AllPlain-drop_last t h.plain;
  })
  | inr e ↦ elim (Bool-cases (ltb (length t) max_typed_len)) as (λ _. IsTyping (typed_a_char c t)) [
    | inl f ↦
        rw (e, f)
          (record {
            short = rw (length-append t (c ∷ [])) (ground (arith, f));
            plain = AllPlain-snoc t c h.plain (rw (ok, e) refl);
          })
    | inr f ↦ rw (e, f) h
  ]
]

plain-IsTyping : (ch : ℕ) (k : Keyboard) → IsTyping k.typing → IsTyping (plain_key ch k).typing
unfolding plain_key
plain-IsTyping ch k h = elim (Bool-cases (valid_typing ch)) [
  | inl e ↦ rw e (typed-IsTyping ch k.typing e h)
  | inr e ↦ elim (Bool-cases (ch == 10 || ch == 13)) as (λ _. IsTyping (plain_key ch k).typing) [
    | inl f ↦ rw (e, f) h
    | inr f ↦ rw (e, f) h
  ]
]

-- What the keyboard's variables always are.
pub record IsKeyboard (k : Keyboard) : Type 0 where
  pub typed : IsTyping k.typing
  pub known : k.state < 4

plain-state : (ch : ℕ) (k : Keyboard) → (plain_key ch k).state ≡ k.state
unfolding plain_key
plain-state ch k = ground arith

plain-IsKeyboard : (ch : ℕ) (k : Keyboard) → IsKeyboard k → IsKeyboard (plain_key ch k)
plain-IsKeyboard ch k h = record {
  typed = plain-IsTyping ch k h.typed;
  known = subst (λ s. s < 4) (sym (plain-state ch k)) h.known;
}

goes : (s : ℕ) (k : Keyboard) → s < 4 → IsKeyboard k → IsKeyboard (record k { state = s })
goes s k lt h = record { typed = h.typed; known = lt }

IsKeyboard-if :
    (b : Bool) (x y : Keyboard) → IsKeyboard x → IsKeyboard y → IsKeyboard (if b then x else y)
IsKeyboard-if true x y h k = h
IsKeyboard-if false x y h k = k

bracket-IsKeyboard : (ch : ℕ) (k : Keyboard) → IsKeyboard k → IsKeyboard (bracket_key ch k)
unfolding bracket_key
bracket-IsKeyboard ch k h = at (arrow ch) (digit_key ch)
  where
    at :
        (a d : Option Cmd)
        → IsKeyboard (elim a as (λ _. Keyboard) [
          | some cmd ↦ record k { state = 0; pushed = cmd }
          | none ↦ elim d as (λ _. Keyboard) [
            | some cmd ↦ record k { state = 3; pushed = cmd }
            | none ↦ plain_key ch (record k { state = 0 })
          ]
        ])
    at (some cmd) d = record { typed = h.typed; known = omega arith }
    at none (some cmd) = record { typed = h.typed; known = omega arith }
    at none none = plain-IsKeyboard ch _ (goes 0 k (omega arith) h)

press-IsKeyboard : (ch : ℕ) (k : Keyboard) → IsKeyboard k → IsKeyboard (press ch k)
unfolding press
press-IsKeyboard ch k h =
    IsKeyboard-if (k.state == 0) _ _
      (IsKeyboard-if (ch == 27) _ _ (goes 1 k (omega arith) h) (plain-IsKeyboard ch k h))
      (IsKeyboard-if (k.state == 1) _ _
        (IsKeyboard-if (ch == 91) _ _ (goes 2 k (omega arith) h)
          (plain-IsKeyboard ch _ (goes 0 k (omega arith) h)))
        (IsKeyboard-if (k.state == 2) _ _ (bracket-IsKeyboard ch k h) (
          IsKeyboard-if (k.state == 3) _ _
            (IsKeyboard-if (ch == b'~') _ _ (goes 0 k (omega arith) h)
              (plain-IsKeyboard ch _ (goes 0 k (omega arith) h)))
            h)))

read_keys-IsKeyboard :
    (chars : List ℕ) (k : Keyboard) → IsKeyboard k → IsKeyboard (read_keys chars k).1
unfolding read_keys
read_keys-IsKeyboard [] k h = h
read_keys-IsKeyboard (ch ∷ chars) k h = elim (Bool-cases (ch == b'`')) [
  | inl t ↦ rw t h
  | inr f ↦ rw f (read_keys-IsKeyboard chars (press ch k) (press-IsKeyboard ch k h))
]

-- From such a keyboard and whatever is read, get_command leaves at most 20 characters typed, all
-- letters, digits and spaces, and the state machine in one of its four states.
pub get_command-IsKeyboard :
    (chars : List ℕ) (arg pushedbutton : ℕ) (k : Keyboard)
    → IsKeyboard k
    → IsKeyboard (get_command chars arg pushedbutton k).1
unfolding get_command
get_command-IsKeyboard chars arg pushedbutton k h =
    let v =
      read_keys-IsKeyboard chars (record k { pushed = cmd_none })
        (record { typed = h.typed; known = h.known }) in
    elim (Bool-cases (read_keys chars (record k { pushed = cmd_none })).0) [
      | inl t ↦ rw t v
      | inr f ↦ rw f v
    ]
