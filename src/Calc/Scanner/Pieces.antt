-- ===== src/Calc/Scanner/Pieces.antt =====
-- packetdrill/lex.yy.c: `yylex` on a text that YY_INPUT brings in pieces, as a terminal does line by line.
-- The buffer holds what has come so far; at its end `yy_get_next_buffer` moves the text from `yy_bp`
-- on to the start of the buffer and puts the next piece behind it. There is room for it here: the
-- growth of the buffer, which may be fatal, is in Calc/Buffers/Refill.
mod Broken
mod Digits
pub mod Feeds
mod Rounds
mod Tests
pub mod Refilled
use network_course.Prelude.{
  ℕ, zero, suc, Bool, true, false, ◌+◌, ◌-◌, Option, none, some, List, [], ◌∷◌, ◌++◌, length, drop,
  take, leb, ◌==◌, if◌then◌else◌, ◌>>=◌, ◌||◌,
}
use network_course.Calc.State.{Token}
use network_course.Calc.ScannerTables.{yy_accept}
use network_course.Calc.Buffers.Refill.{Action, continue_scan, end_of_file, last_match}
use network_course.Calc.Scanner.{
  Scan, match_loop, previous_loop, begin, back_up, nul_scan, end_of_buffer, state_eof, return_token,
}

-- The text in the buffer from `yy_bp` on, what the coming calls of YY_INPUT return, where behind the
-- last one is the end of the file, and whether the buffer is marked YY_BUFFER_EOF_PENDING.
pub record Feed : Type 0 where
  pub text : List ℕ
  pub pieces : List (List ℕ)
  pub pending : Bool

abbrev pub first_piece : List (List ℕ) → List ℕ
first_piece [] = []
first_piece (p ∷ ps) = p

abbrev pub other_pieces : List (List ℕ) → List (List ℕ)
other_pieces [] = []
other_pieces (p ∷ ps) = ps

-- What `yy_get_next_buffer` returns, by the number of characters that it moves; a buffer that is
-- pending is not read into, and `yyrestart` marks it as new.
unfoldable pub refill_action : ℕ → List ℕ → Feed → Action × Feed
refill_action number [] f =
    if number == 0
    then (end_of_file, record f { pending = false })
    else (last_match, record f { pending = true })
refill_action number (c ∷ cs) f = (continue_scan, record f { text = f.text ++ c ∷ cs })

unfoldable pub next_buffer : ℕ → Feed → Action × Feed
unfolding refill_action
next_buffer number f =
    if f.pending
    then refill_action number [] f
    else refill_action number (first_piece f.pieces) (record f { pieces = other_pieces f.pieces })

-- What `yylex` does after the refill: whether it goes on at `yy_match`, or `none` at the end of the file.
unfoldable pub refilled : Action × Feed → Scan → Option (Option (Bool × Scan) × Feed)
refilled (continue_scan, g) s = do
  p ← previous_loop (s.cp - 1) g.text (begin s)
  some (some (true, p), g)
refilled (end_of_file, g) s = some (none, g)
refilled (last_match, g) s = do
  p ← previous_loop (length g.text) g.text (begin s)
  some (some (false, p), g)

-- The action of YY_END_OF_BUFFER, where a 0 may stand in the text.
unfoldable pub feed_end : Feed → Scan → Option (Option (Bool × Scan) × Feed)
unfolding nul_scan next_buffer refilled
feed_end f s =
    if leb s.cp (length f.text)
    then (do p ← previous_loop (s.cp - 1) f.text (begin s); r ← nul_scan p; some (some r, f))
    else if leb (length f.text + 2) s.cp
    then none
    else refilled (next_buffer (s.cp - 1) f) s

-- From `yy_match` (true) or `yy_find_action` (false) to the number of the action to take.
unfoldable pub find_fed : ℕ → Bool → Feed → Scan → Option (ℕ × Scan × Feed)
unfolding feed_end
find_fed zero matching f s = none
find_fed (suc n) matching f s = do
  m ← if matching then match_loop (length f.text + 3) f.text s else some s
  let b = back_up m
  let act = yy_accept b.state
  let again = do
    (r, g) ← feed_end f b
    elim r [ none ↦ some (state_eof, b, g) | some (matching', q) ↦ find_fed n matching' g q ]
  if act == end_of_buffer then again else some (act, b, f)
