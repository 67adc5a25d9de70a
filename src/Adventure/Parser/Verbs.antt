-- ===== src/Adventure/Parser/Verbs.antt =====
-- Which verbs the list of commands of mp2/adventure.c gives.
use computer_systems_enginee.Base.{
  ℕ, ◌≡◌, refl, List, [], ◌∷◌, ◌++◌, Text, codes, same_prefix, take, length, ◌-◌, zero, suc,
}
use computer_systems_enginee.World.Game.{Verb}
use computer_systems_enginee.Adventure.Parser.{
  TypedCmd, cmd_list, strip, verb_len, find_command, command, parse,
}

abbrev pub AllCmds : (TypedCmd → Type 0) → List TypedCmd → Type 0
AllCmds P [] = Unit {0}
AllCmds P (e ∷ es) = P e × AllCmds P es

-- The first letters of a name: at least `n` of them, and at most all; of `m` more letters.
abbrev pub prefixes : Text → ℕ → ℕ → List Text
prefixes name n zero = take n name ∷ []
prefixes name n (suc m) = take n name ∷ prefixes name (suc n) m

abbrev pub AllTexts : (Text → Type 0) → List Text → Type 0
AllTexts P [] = Unit {0}
AllTexts P (s ∷ l) = P s × AllTexts P l

-- A typed verb is read as a command, with any argument and with none.
abbrev pub Reads : Verb → Text → Type 0
Reads verb typed =
    ((arg : Text) → parse (typed ++ (b' ' ∷ arg)) ≡ command verb (strip arg))
    × (parse typed ≡ command verb [])

-- Each name of the command list may be shortened to any of its beginnings that has the least length
-- which the list gives for it: all of these are read as its command, with any argument after a
-- space and with none.
pub parse-prefixes :
    AllCmds
      (λ e.
        AllTexts
          (Reads e.cmd)
          (prefixes (codes e.name) e.min_len (length (codes e.name) - e.min_len)))
      cmd_list
unfolding parse find_command strip verb_len same_prefix
parse-prefixes = (
  (((λ arg. refl), refl), tt),
  (
    (
      ((λ arg. refl), refl),
      (
        ((λ arg. refl), refl),
        (((λ arg. refl), refl), (((λ arg. refl), refl), (((λ arg. refl), refl), tt))),
      ),
    ),
    (
      (((λ arg. refl), refl), tt),
      (
        (((λ arg. refl), refl), (((λ arg. refl), refl), (((λ arg. refl), refl), tt))),
        (
          (((λ arg. refl), refl), (((λ arg. refl), refl), (((λ arg. refl), refl), tt))),
          (
            (((λ arg. refl), refl), tt),
            (
              (((λ arg. refl), refl), tt),
              (
                (((λ arg. refl), refl), (((λ arg. refl), refl), (((λ arg. refl), refl), tt))),
                (
                  (((λ arg. refl), refl), tt),
                  (
                    (((λ arg. refl), refl), (((λ arg. refl), refl), (((λ arg. refl), refl), tt))),
                    (
                      (
                        ((λ arg. refl), refl),
                        (
                          ((λ arg. refl), refl),
                          (
                            ((λ arg. refl), refl),
                            (((λ arg. refl), refl), (((λ arg. refl), refl), tt)),
                          ),
                        ),
                      ),
                      (
                        (
                          ((λ arg. refl), refl),
                          (
                            ((λ arg. refl), refl),
                            (
                              ((λ arg. refl), refl),
                              (
                                ((λ arg. refl), refl),
                                (
                                  ((λ arg. refl), refl),
                                  (
                                    ((λ arg. refl), refl),
                                    (
                                      ((λ arg. refl), refl),
                                      (((λ arg. refl), refl), (((λ arg. refl), refl), tt)),
                                    ),
                                  ),
                                ),
                              ),
                            ),
                          ),
                        ),
                        (
                          (((λ arg. refl), refl), tt),
                          ((((λ arg. refl), refl), tt), ((((λ arg. refl), refl), tt), tt)),
                        ),
                      ),
                    ),
                  ),
                ),
              ),
            ),
          ),
        ),
      ),
    ),
  ),
)
