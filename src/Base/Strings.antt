-- ===== src/Base/Strings.antt =====
-- C strings as the lists of their codes before the NUL, and the functions of <string.h> and
-- <strings.h> that the program calls on them.
use Prim.Native.Nat.{ℕ, zero, suc, ◌+◌}
use Prim.Native.Char.{code}
use Prim.Native.String.{String}
use mathlib.Core.Path.{◌≡◌, refl}
use mathlib.Core.Bool.{Bool, true, false, ◌&&◌}
use mathlib.Core.List.{List, [], ◌∷◌}
use native.Mathlib.Omega.{arith}
use computer_systems_enginee.Base.Tests.{leb, ◌==◌, if◌then◌else◌, ==_refl}

abbrev pub Text : Type 0
Text = List ℕ

abbrev pub codes : String → Text
codes String.[] = []
codes (String.◌∷◌ c s) = code c ∷ codes s

abbrev pub to_lower : ℕ → ℕ
to_lower c = if leb b'A' c && leb c b'Z' then c + 32 else c

-- `0 == strcasecmp (a, b)`
unfoldable pub same_word : Text → Text → Bool
same_word [] [] = true
same_word [] (d ∷ t) = false
same_word (c ∷ s) [] = false
same_word (c ∷ s) (d ∷ t) = (to_lower c == to_lower d) && same_word s t

-- `0 == strncasecmp (a, b, n)`
unfoldable pub same_prefix : ℕ → Text → Text → Bool
same_prefix zero s t = true
same_prefix (suc n) [] [] = true
same_prefix (suc n) [] (d ∷ t) = false
same_prefix (suc n) (c ∷ s) [] = false
same_prefix (suc n) (c ∷ s) (d ∷ t) = (to_lower c == to_lower d) && same_prefix n s t

pub same_word_refl : (s : Text) → same_word s s ≡ true
unfolding same_word
same_word_refl [] = refl
same_word_refl (c ∷ s) = ground (arith, ==_refl (to_lower c), same_word_refl s)
