-- ===== src/Calc/Scanner.antt =====
-- packetdrill/lex.yy.c: `yylex`, with the actions of packetdrill/calc.l. The whole of the input is in
-- the buffer: `text` is what stands there from `yy_bp` on, a position `yy_cp` is an index into it,
-- and past its end stand the end-of-buffer characters, which are 0. A refill finds the end of the
-- file. `none` is fuel that ran out, or what C leaves undefined.
pub mod Rules
pub mod Match
pub mod Numbers
pub mod Pieces
pub mod Lexes
pub mod Tokens
pub mod Found
pub mod Rounds
use network_course.Prelude.{
  ℕ, zero, suc, Bool, true, false, ◌||◌, ◌+◌, ◌-◌, ◌*◌, ◌^◌, Option, none, some, List, [], ◌∷◌,
  length, get_or, take, drop, ltb, leb, ◌==◌, if◌then◌else◌, ◌>>=◌,
}
use network_course.Prelude.Int.{ℤ, pos, ◌-ℤ◌, to_int}
use network_course.Calc.ScannerTables.{yy_accept, yy_ec, yy_meta, yy_base, yy_def, yy_nxt, yy_chk}
use network_course.Calc.State.{Token}
use network_course.Calc.Grammar.{integer_token, variable_token}

-- `yy_current_state`, `yy_cp`, `yy_last_accepting_state` and `yy_last_accepting_cpos`.
pub record Scan : Type 0 where
  pub state : ℕ
  pub cp : ℕ
  pub last_state : ℕ
  pub last_cp : ℕ

-- The character at a position of the buffer.
abbrev pub char_at : List ℕ → ℕ → ℕ
char_at text i = get_or text i 0

-- The inner loop: from a state and a character's class along `yy_def` to the entry that both own.
-- No chain of `yy_def` is longer than three.
unfoldable pub descend : ℕ → ℕ → ℕ → Option ℕ
unfolding yy_meta yy_base yy_def yy_nxt yy_chk
descend zero s c = none
descend (suc f) s c =
    let d = yy_def s in
    let rest = descend f d (if leb 12 d then yy_meta c else c) in
    if yy_chk (yy_base s + c) == s then some (yy_nxt (yy_base s + c)) else rest

abbrev pub chain : ℕ
chain = 4

-- A state that accepts is noted, and the state after a character of class `c` entered.
unfoldable pub note : Scan → Scan
unfolding yy_accept
note s = if yy_accept s.state == 0 then s else record s { last_state = s.state; last_cp = s.cp }

unfoldable pub move : ℕ → Scan → Option Scan
unfolding note descend
move c s = do n ← descend chain s.state c; some (record (note s) { state = n; cp = s.cp + 1 })

-- The loop at `yy_match`, which stops in a state whose base is 9.
unfoldable pub match_loop : ℕ → List ℕ → Scan → Option Scan
match_loop zero text s = none
match_loop (suc f) text s = do
  s' ← move (yy_ec (char_at text s.cp)) s
  elim (yy_base s'.state == 9) [ true ↦ some s' | false ↦ match_loop f text s' ]

-- `yy_get_previous_state`: the state after the first `n` characters, where 0 has class 1.
unfoldable pub previous_loop : ℕ → List ℕ → Scan → Option Scan
previous_loop zero text s = some s
previous_loop (suc n) text s = do
  s' ← move (if char_at text s.cp == 0 then 1 else yy_ec (char_at text s.cp)) s
  previous_loop n text s'

abbrev pub begin : Scan → Scan
begin s = record s { state = 1; cp = 0 }

-- `yy_find_action`: an automaton that stopped in no accepting state goes back to the last one.
unfoldable pub back_up : Scan → Scan
unfolding yy_accept
back_up s = if yy_accept s.state == 0 then record s { state = s.last_state; cp = s.last_cp } else s

-- YY_END_OF_BUFFER and YY_STATE_EOF (INITIAL).
abbrev pub end_of_buffer : ℕ
end_of_buffer = 7

abbrev pub state_eof : ℕ
state_eof = 8

-- `yy_try_NUL_trans`, after which the scan goes on, or jams and its action is looked for.
unfoldable pub nul_scan : Scan → Option (Bool × Scan)
unfolding move note
nul_scan s = do q ← move 1 s; if q.state == 11 then some (false, note s) else some (true, q)

-- The action of YY_END_OF_BUFFER: a 0 in the text, or the end of the file. The flag says whether
-- to go on at `yy_match`; `none` inside is the end of the file.
unfoldable pub buffer_end : List ℕ → Scan → Option (Option (Bool × Scan))
unfolding nul_scan
buffer_end text s =
    if leb s.cp (length text)
    then (do p ← previous_loop (s.cp - 1) text (begin s); r ← nul_scan p; some (some r))
    else if leb (length text + 2) s.cp
    then none
    else if s.cp - 1 == 0
    then some none
    else (do p ← previous_loop (length text) text (begin s); some (some (false, p)))

-- From `yy_match` (true) or `yy_find_action` (false) to the number of the action to take.
unfoldable pub find : ℕ → Bool → List ℕ → Scan → Option (ℕ × Scan)
find zero matching text s = none
find (suc f) matching text s = do
  m ← if matching then match_loop (length text + 3) text s else some s
  let b = back_up m
  let act = yy_accept b.state
  let again = do
    r ← buffer_end text b
    elim r [ none ↦ some (state_eof, b) | some (matching', q) ↦ find f matching' text q ]
  if act == end_of_buffer then again else some (act, b)

unfoldable pub scan : List ℕ → Scan → Option (ℕ × Scan)
unfolding find match_loop move yy_base yy_ec buffer_end previous_loop back_up yy_accept
scan text s = find (2 * length text + 4) true text (begin s)

-- `atoi` of decimal digits.
abbrev pub atoi_from : ℕ → List ℕ → ℕ
atoi_from n [] = n
atoi_from n (c ∷ cs) = atoi_from (n * 10 + (c - b'0')) cs

abbrev pub atoi : List ℕ → ℕ
atoi = atoi_from 0

-- What a call of `yylex` comes back with: a token or the end (0), the text that is left, the
-- scanner's variables, and how often `yyerror ("invalid input")` was called.
pub record Lexed : Type 0 where
  pub token : Option Token
  pub unread : List ℕ
  pub scanner : Scan
  pub invalid : ℕ

-- The actions of calc.l that return.
unfoldable pub return_token : ℕ → List ℕ → Option Token
return_token act yytext =
    if act == 1
    then some (variable_token, some (pos (char_at yytext 0) -ℤ pos b'a'))
    else if act == 2
    then (do v ← to_int (pos (atoi yytext)); some (integer_token, some v))
    else if act == 3
    then some (char_at yytext 0, none)
    else none

abbrev finish : List ℕ → Scan → ℕ → Token → Option Lexed
finish rest s bad t = some (record { token = some t; unread = rest; scanner = s; invalid = bad })

-- The switch on the action; `go` is the scanner's next round, with the number of refused characters.
unfoldable pub act_on : (List ℕ → Scan → ℕ → Option Lexed) → List ℕ → ℕ → ℕ → Scan → Option Lexed
unfolding return_token
act_on go text bad act s =
    if act == state_eof
    then some (record { token = none; unread = text; scanner = s; invalid = bad })
    else if act == 4 || act == 6
    then go (drop s.cp text) s bad
    else if act == 5
    then go (drop s.cp text) s (bad + 1)
    else (return_token act (take s.cp text) >>= finish (drop s.cp text) s bad)

-- `yylex`: blanks and invalid characters are passed over.
unfoldable pub yylex : ℕ → List ℕ → Scan → ℕ → Option Lexed
unfolding scan act_on
yylex zero text s bad = none
yylex (suc f) text s bad = do (act, s') ← scan text s; act_on (yylex f) text bad act s'

-- The tokens up to the end of the input, and how many characters were refused.
abbrev pub Lexeme : Type 0
Lexeme = List Token × ℕ

abbrev add_token : Token → Lexeme → Option Lexeme
add_token t r = some (t ∷ r.0, r.1)

abbrev add_invalid : ℕ → Lexeme → Option Lexeme
add_invalid n r = some (r.0, r.1 + n)

unfoldable pub lex_all : ℕ → List ℕ → Scan → Option Lexeme
unfolding yylex
lex_all zero text s = none
lex_all (suc f) text s = do
  x ← yylex (suc (length text)) text s 0
  let more = lex_all f x.unread x.scanner
  elim x.token [
    | none ↦ some ([], x.invalid)
    | some t ↦ more >>= add_token t >>= add_invalid x.invalid
  ]

abbrev pub fresh : Scan
fresh = record { state = 1; cp = 0; last_state = 0; last_cp = 0 }
