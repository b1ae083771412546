-- ===== src/Calc/Scanner/Pieces/Feeds.antt =====
-- packetdrill/lex.yy.c: a text in pieces, and what `yylex` is to find in it.
use network_course.Prelude.{ℕ, ◌≤◌, ◌<◌, ◌≡◌, true, some, List, [], ◌∷◌, ◌++◌, length}
use network_course.Calc.Scanner.{Scan, begin, state_eof}
use network_course.Calc.Scanner.Rules.{rule, match_length}
use network_course.Calc.Scanner.Pieces.{Feed, find_fed}

abbrev pub joined : List (List ℕ) → List ℕ
joined [] = []
joined (p ∷ ps) = p ++ joined ps

-- All of the text that is still to come.
abbrev pub whole : Feed → List ℕ
whole f = f.text ++ joined f.pieces

-- YY_INPUT returns characters up to the end of the file, and a pending buffer is at that end.
abbrev pub AreSome : List (List ℕ) → Type 0
AreSome [] = Unit
AreSome (p ∷ ps) = (0 < length p) × AreSome ps

pub record IsFeed (f : Feed) : Type 0 where
  pub some_pieces : AreSome f.pieces
  pub at_end : f.pending ≡ true → f.pieces ≡ []

-- `yylex` is to take action `act` on `n` characters, which the buffer then holds.
pub record Found (f : Feed) (s : Scan) (fuel act n : ℕ) : Type 0 where
  pub end : Scan
  pub left : Feed
  pub runs : find_fed fuel true f s ≡ some (act, end, left)
  pub end_cp : end.cp ≡ n
  pub held : n ≤ length left.text
  pub same : whole left ≡ whole f
  pub feeds : IsFeed left

-- `yylex` is to find the end of the file.
pub record AtEnd (f : Feed) (s : Scan) (fuel : ℕ) : Type 0 where
  pub end : Scan
  pub left : Feed
  pub runs : find_fed fuel true f s ≡ some (state_eof, end, left)
  pub nothing_left : whole left ≡ []
  pub feeds : IsFeed left

-- The match of calc.l in a text, or its end.
abbrev pub Matched : Feed → Scan → ℕ → List ℕ → Type 0
Matched f s fuel [] = AtEnd f (begin s) fuel
Matched f s fuel (c ∷ cs) = Found f (begin s) fuel (rule c) (match_length c cs)
