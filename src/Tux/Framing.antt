-- ===== src/Tux/Framing.antt =====
-- The packets that `tuxctl_ldisc_data_callback` of mp2/module/tuxctl-ld.c finds in the bytes received.
pub mod Stream
use computer_systems_enginee.Base.{ℕ, ◌/◌, ◌%◌, Bool, not, ◌&&◌, ◌==◌, if◌then◌else◌, List, [], ◌∷◌}

pub record Packet : Type 0 where
  pub a : ℕ
  pub b : ℕ
  pub c : ℕ

-- `byte & 0x80`
abbrev pub high_bit : ℕ → Bool
high_bit byte = byte / 128 % 2 == 1

-- The check of the framing bits.
abbrev pub is_framed : ℕ → ℕ → ℕ → Bool
is_framed a b c = not (high_bit a) && high_bit b && high_bit c

-- The loop over the bytes: the packets found, in order, and the bytes saved for the next time.
unfoldable pub scan : List ℕ → List Packet × List ℕ
scan [] = ([], [])
scan (a ∷ []) = ([], a ∷ [])
scan (a ∷ b ∷ []) = ([], a ∷ b ∷ [])
scan (a ∷ b ∷ c ∷ rest) =
    let after = scan rest in
    let next = scan (b ∷ c ∷ rest) in
    if is_framed a b c then (record { a = a; b = b; c = c } ∷ after.0, after.1) else next
