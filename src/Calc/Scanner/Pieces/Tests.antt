-- ===== src/Calc/Scanner/Pieces/Tests.antt =====
-- packetdrill/lex.yy.c: `yylex` on "12+" that comes as "1", "2" and "+".
use network_course.Prelude.{ℕ, ◌≡◌, refl, true, false, some, List, [], ◌∷◌}
use network_course.Calc.Scanner.{match_loop, previous_loop, begin, back_up, fresh}
use network_course.Calc.ScannerTables.{yy_ec}
use network_course.Calc.Scanner.Pieces.{Feed, find_fed}

abbrev pieces_12 : List (List ℕ)
pieces_12 = (b'2' ∷ []) ∷ (b'+' ∷ []) ∷ []

abbrev one : List ℕ
one = b'1' ∷ []

abbrev feed_12 : Feed
feed_12 = record { text = one; pieces = pieces_12; pending = false }

-- The number is not cut, though three pieces bring it and what ends it.
whole_number :
    find_fed 5 true feed_12 (begin fresh)
    ≡ some (
      2,
      record { state = 10; cp = 2; last_state = 10; last_cp = 2 },
      record { text = b'1' ∷ b'2' ∷ b'+' ∷ []; pieces = []; pending = false },
    )
unfolding find_fed match_loop yy_ec back_up previous_loop
whole_number = refl
