-- ===== src/Tux/Framing/Stream.antt =====
-- How the packets found depend on the bytes received, and not on the pieces in which they come.
use computer_systems_enginee.Base.{
  ℕ, ◌≤◌, ◌≡◌, refl, ap, true, inl, inr, Bool-cases, arith, List, [], ◌∷◌, ◌++◌, length,
}
use computer_systems_enginee.Tux.Framing.{Packet, is_framed, scan}

-- Bytes that are saved are fewer than a packet's.
pub scan_saved : (bytes : List ℕ) → length (scan bytes).1 ≤ 2
unfolding scan
scan_saved [] = omega arith
scan_saved (a ∷ []) = omega arith
scan_saved (a ∷ b ∷ []) = omega arith
scan_saved (a ∷ b ∷ c ∷ rest) = elim (Bool-cases (is_framed a b c)) [
  | inl t ↦ rw t (scan_saved rest)
  | inr f ↦ rw f (scan_saved (b ∷ c ∷ rest))
]

-- The scan of some bytes, and then of what it saved with the bytes that came later.
abbrev pub in_two : List ℕ → List ℕ → List Packet × List ℕ
in_two xs ys =
    let first = scan xs in let second = scan (first.1 ++ ys) in (first.0 ++ second.0, second.1)

-- The packets found, and the bytes saved, are those of the whole stream, wherever it is cut in two.
pub scan_append : (xs ys : List ℕ) → in_two xs ys ≡ scan (xs ++ ys)
unfolding scan
scan_append [] ys = refl
scan_append (a ∷ []) ys = refl
scan_append (a ∷ b ∷ []) ys = refl
scan_append (a ∷ b ∷ c ∷ rest) ys = elim (Bool-cases (is_framed a b c)) [
  | inl t ↦ rw t (ap (λ s. (record { a = a; b = b; c = c } ∷ s.0, s.1)) (scan_append rest ys))
  | inr f ↦ rw f (scan_append (b ∷ c ∷ rest) ys)
]

-- The bytes of packets.
abbrev pub send : List Packet → List ℕ
send [] = []
send (p ∷ ps) = p.a ∷ p.b ∷ p.c ∷ send ps

abbrev pub AllFramed : List Packet → Type 0
AllFramed [] = Unit {0}
AllFramed (p ∷ ps) = (is_framed p.a p.b p.c ≡ true) × AllFramed ps

-- Packets with their framing bits that are sent one after the other are found again, with nothing
-- left over.
pub scan-send : (ps : List Packet) → AllFramed ps → scan (send ps) ≡ (ps, [])
unfolding scan
scan-send [] h = refl
scan-send (p ∷ ps) h = rw h.0 (ap (λ s. (p ∷ s.0, s.1)) (scan-send ps h.1))

-- Whatever the bytes are, only framed packets are found.
pub scan-AllFramed : (bytes : List ℕ) → AllFramed (scan bytes).0
unfolding scan
scan-AllFramed [] = tt
scan-AllFramed (a ∷ []) = tt
scan-AllFramed (a ∷ b ∷ []) = tt
scan-AllFramed (a ∷ b ∷ c ∷ rest) = elim (Bool-cases (is_framed a b c)) [
  | inl t ↦ rw t (t, scan-AllFramed rest)
  | inr f ↦ rw f (scan-AllFramed (b ∷ c ∷ rest))
]
