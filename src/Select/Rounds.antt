-- ===== src/Select/Rounds.antt =====
-- What the client shows and sends.
use network_course.Prelude.{
  ℕ, ◌<◌, ◌≡◌, refl, false, Option, none, some, List, [], ◌∷◌, ◌++◌, length, ◌==◌,
}
use network_course.Prelude.Strings.{c_string, NoZero}
use network_course.Select.{maxline, bytes, Selected, selected, Session}

-- Characters of a line, none of them a newline or a 0.
abbrev pub IsPlain : List ℕ → Type 0
IsPlain [] = Unit
IsPlain (c ∷ cs) = ((c == 0) ≡ false) × ((c == b'\n') ≡ false) × IsPlain cs

c_string-plain : (cs : List ℕ) → IsPlain cs → c_string cs ≡ cs
c_string-plain [] h = refl
c_string-plain (c ∷ cs) (z, n, h) = rw (z, c_string-plain cs h) refl

-- What the terminal brings: nothing, the end of the file, or a line.
pub data Typed : Option (Option (List ℕ)) → List (List ℕ) → Type 0 where
  idle : Typed none []
  closed : Typed (some none) []
  line : (cs : List ℕ) → IsPlain cs → Typed (some (some (cs ++ b'\n' ∷ []))) (cs ∷ [])

-- A round, with the texts of the socket and the lines of the terminal in it.
pub data Turn : Selected → List (List ℕ) → List (List ℕ) → Type 0 where
  quiet :
      {input : Option (Option (List ℕ))} {lines : List (List ℕ)}
      → Typed input lines
      → Turn (selected none input) [] lines
  text :
      {input : Option (Option (List ℕ))} {lines : List (List ℕ)} (c : ℕ) (cs : List ℕ)
      → NoZero (c ∷ cs)
      → length (c ∷ cs) < maxline
      → Typed input lines
      → Turn (selected (some (bytes (c ∷ cs))) input) ((c ∷ cs) ∷ []) lines

-- Rounds in a row, with the texts and the lines that they bring.
pub data Turns : List Selected → List (List ℕ) → List (List ℕ) → Type 0 where
  over : Turns [] [] []
  turn :
      {r : Selected} {rs : List Selected} {a as' l ls : List (List ℕ)}
      → Turn r a l
      → Turns rs as' ls
      → Turns (r ∷ rs) (a ++ as') (l ++ ls)

abbrev pub add : List (List ℕ) → List (List ℕ) → Session → Session
add a l s = record { shown = s.shown ++ a; written = s.written ++ l }
