-- ===== src/Calc/Tests.antt =====
-- packetdrill/calc.y and packetdrill/calc.l on small inputs.
use network_course.Prelude.{
  ℕ, zero, suc, ◌+◌, ◌*◌, ◌≡◌, refl, Bool, true, Option, none, some, List, [], ◌∷◌, length, arith,
  ◌>>=◌,
}
use network_course.Prelude.Int.{ℤ, pos, add_int, mul_int, to_int, ◌+ℤ◌, ◌*ℤ◌}
use network_course.Calc.State.{
  write_sym, read_sym, Token, Parser, Outcome, running, undefined, done, syntax_error,
}
use network_course.Calc.Grammar.{
  Statement, expr, assign, product, sum, atom, prod, integer, variable, paren, plus, times,
  integer_token, program_tokens, program_effect, statement_effect,
}
use network_course.Calc.Parser.{run, step, initial, backup}
use network_course.Calc.Parser.Reach.{GivesStacks}
use network_course.Calc.Parser.Termination.{Falls}
use network_course.Calc.Parser.Halts.{step-Falls}
use network_course.Calc.Parser.Total.{yyparse_ends, yyparse_program}
use network_course.Calc.Parser.Verdicts.{Verdict, yyparse-Verdict}
use network_course.Calc.Scanner.Rules.{IsText}
use network_course.Calc.Scanner.Lexes.{Lexes, no_text, numeral, operator, blank, invalid_char}
use network_course.Calc.Scanner.Found.{lex_all-found}
use network_course.Calc.Parser.Derives.{is_integer, is_operator}
use network_course.Calc.Parser.Refusal.{AreTokens, IsProgram}
use network_course.Calc.Parser.Sound.{yyparse-IsProgram}
use network_course.Calc.Calculator.Accepts.{calculate-Lexes}
use network_course.Calc.Scanner.Tokens.{lex_all-Lexes}
use network_course.Calc.Printing.{program_text, decimal_digits}
use network_course.Calc.Calculator.{
  calculate, Calculates, calculate-Calculates, calculate-program_text,
}
use network_course.Calc.Scanner.{scan, fresh, lex_all}
use network_course.Calc.Scanner.Match.{Scanned, scan_lem}

abbrev always : ℕ → Bool
always n = true

always-GivesStacks : GivesStacks always
always-GivesStacks n h = refl

abbrev cells : ℕ → List ℤ
cells zero = []
cells (suc n) = pos 0 ∷ cells n

-- b = 2
-- b + 3 * (b + 1)
abbrev two_lines : List Statement
two_lines =
    assign 1 (product (atom (integer 2)))
    ∷ expr (
        sum (product (atom (variable 1))) plus (
          prod (atom (integer 3)) times
            (paren (sum (product (atom (variable 1))) plus (atom (integer 1))))))
    ∷ []

abbrev cells_after : List ℤ
cells_after = pos 0 ∷ pos 2 ∷ cells 24

two_lines_effect : program_effect two_lines (cells 26) ≡ some (cells_after, pos 11 ∷ [])
unfolding program_effect statement_effect write_sym read_sym add_int mul_int to_int ◌+ℤ◌ ◌*ℤ◌
two_lines_effect = refl

yyparse_program_example :
    (q : Parser) × (run always
        (4 + 5 * length (program_tokens two_lines))
        (initial (cells 26) (program_tokens two_lines))
      ≡ some (done 0 q))
    × (q.sym ≡ cells_after)
    × (q.out ≡ pos 11 ∷ [])
    × (q.complaints ≡ [])
yyparse_program_example =
    yyparse_program always always-GivesStacks two_lines (cells 26) (cells_after, pos 11 ∷ [])
      two_lines_effect (omega arith)

-- ) 7
abbrev bad_tokens : List Token
bad_tokens = (b')', none) ∷ (258, some (pos 7)) ∷ []

yyparse_ends_example :
    (o : Outcome) × (run always (4 + 5 * length bad_tokens) (initial (cells 26) bad_tokens)
      ≡ some o)
yyparse_ends_example = yyparse_ends always (cells 26) bad_tokens

abbrev refused : Parser
refused = record {
  stack = (0, none) ∷ [];
  stacksize = 200;
  errstatus = 3;
  nerrs = 1;
  yychar = some b')';
  yytoken = 12;
  yylval = pos 0;
  sym = cells 26;
  out = [];
  complaints = syntax_error ∷ [];
  input = (258, some (pos 7)) ∷ [];
}

bad_tokens-run : run always 14 (initial (cells 26) bad_tokens) ≡ some (done 1 refused)
unfolding run step backup
bad_tokens-run = refl

yyparse-Verdict_example : Verdict 1 refused
yyparse-Verdict_example = yyparse-Verdict always 14 (cells 26) bad_tokens 1 refused bad_tokens-run

step-Falls_example : Falls refused (step always refused)
step-Falls_example = step-Falls always refused

-- 12+
abbrev text : List ℕ
text = b'1' ∷ b'2' ∷ b'+' ∷ []

scan_lem_example : Scanned text fresh 2 2
scan_lem_example =
    scan_lem b'1' (b'2' ∷ b'+' ∷ []) fresh
      (omega arith, omega arith, (omega arith, omega arith, (omega arith, omega arith, tt)))

tokens_of_text : lex_all 5 text fresh ≡ some ((258, some (pos 12)) ∷ (b'+', none) ∷ [], 0)
unfolding lex_all scan to_int
tokens_of_text = refl

-- A blank, 7 and #, which has an invalid character
abbrev seven : List ℕ
seven = b' ' ∷ b'7' ∷ b'#' ∷ []

seven-IsText : IsText seven
seven-IsText =
    (omega arith, omega arith, (omega arith, omega arith, (omega arith, omega arith, tt)))

abbrev seven_token : Token
seven_token = (integer_token, some (pos 7))

seven-Lexes : Lexes seven (seven_token ∷ []) 1
seven-Lexes = blank b' ' (b'7' ∷ b'#' ∷ []) (seven_token ∷ []) 1 refl (
    numeral b'7' [] (b'#' ∷ []) [] 1 refl refl refl (omega arith)
      (invalid_char b'#' [] [] 0 refl no_text))

lex_all-Lexes_example : lex_all 4 seven fresh ≡ some (seven_token ∷ [], 1)
lex_all-Lexes_example =
    lex_all-Lexes seven (seven_token ∷ []) 1 4 fresh seven-Lexes seven-IsText (omega arith)

abbrev seven_line : List Statement
seven_line = expr (product (atom (integer 7))) ∷ []

seven_effect : program_effect seven_line (cells 26) ≡ some (cells 26, pos 7 ∷ [])
unfolding program_effect statement_effect
seven_effect = refl

abbrev seven_line_text : List ℕ
seven_line_text = b'7' ∷ b'#' ∷ b'\n' ∷ []

seven_line-Lexes : Lexes seven_line_text (program_tokens seven_line) 1
seven_line-Lexes =
    numeral b'7' [] (b'#' ∷ b'\n' ∷ []) ((b'\n', none) ∷ []) 1 refl refl refl (omega arith) (
      invalid_char b'#' (b'\n' ∷ []) ((b'\n', none) ∷ []) 0 refl
        (operator b'\n' [] [] 0 refl no_text))

calculate-Calculates_example : Calculates always (cells 26) seven_line_text 1 (cells 26, pos 7 ∷ [])
calculate-Calculates_example =
    calculate-Calculates always seven_line (cells 26) (cells 26, pos 7 ∷ []) seven_line_text 1
      always-GivesStacks seven_effect (omega arith)
      (omega arith, omega arith, (omega arith, omega arith, (omega arith, omega arith, tt)))
      seven_line-Lexes

calculate-program_text_example :
    Calculates always (cells 26) (program_text two_lines) 0 (cells_after, pos 11 ∷ [])
calculate-program_text_example =
    calculate-program_text always two_lines (cells 26) (cells_after, pos 11 ∷ []) always-GivesStacks
      two_lines_effect (omega arith)
      ((omega arith, omega arith), ((omega arith, (omega arith, (omega arith, omega arith))), tt))

two_lines_text :
    program_text two_lines
    ≡ b'b' ∷ b'=' ∷ b'2' ∷ b'\n' ∷ b'b' ∷ b'+' ∷ b'3' ∷ b'*' ∷ b'(' ∷ b'b' ∷ b'+' ∷ b'1' ∷ b')'
      ∷ b'\n' ∷ []
unfolding decimal_digits
two_lines_text = refl

seven_lexed : lex_all 4 seven fresh ≡ some (seven_token ∷ [], 1)
unfolding lex_all scan to_int
seven_lexed = refl

lex_all-found_example : Lexes seven (seven_token ∷ []) 1
lex_all-found_example = lex_all-found 4 seven fresh (seven_token ∷ []) 1 seven-IsText seven_lexed

seven_line-AreTokens : AreTokens (program_tokens seven_line)
seven_line-AreTokens =
    ((3, is_integer 7 refl refl), ((9, is_operator (omega arith) (omega arith) refl), tt))

abbrev printed_seven : Parser
printed_seven = record {
  stack = (1, none) ∷ (0, none) ∷ [];
  stacksize = 200;
  errstatus = 0;
  nerrs = 0;
  yychar = some 0;
  yytoken = 0;
  yylval = pos 7;
  sym = cells 26;
  out = pos 7 ∷ [];
  complaints = [];
  input = [];
}

seven_line-run :
    run always 14 (initial (cells 26) (program_tokens seven_line)) ≡ some (done 0 printed_seven)
unfolding run step backup
seven_line-run = refl

yyparse-IsProgram_example : IsProgram (program_tokens seven_line)
yyparse-IsProgram_example =
    yyparse-IsProgram always 14 (cells 26) (program_tokens seven_line) printed_seven
      seven_line-AreTokens seven_line-run

seven_line_calculates : calculate always (cells 26) seven_line_text ≡ some (1, done 0 printed_seven)
unfolding calculate lex_all scan to_int run step backup
seven_line_calculates = refl

calculate-Lexes_example : (ss : List Statement) × Lexes seven_line_text (program_tokens ss) 1
calculate-Lexes_example =
    calculate-Lexes always (cells 26) seven_line_text 1 printed_seven
      (omega arith, omega arith, (omega arith, omega arith, (omega arith, omega arith, tt)))
      seven_line_calculates

-- ( 7 is no program, and is refused.
refused_text :
    (let shown : Option (ℕ × ℕ) = (do
      r ← calculate always (cells 26) (b'(' ∷ b'7' ∷ b'\n' ∷ [])
      elim (r.1) [ running p ↦ none | done n p ↦ some (r.0, n) | undefined ↦ none ]) in
      shown)
    ≡ some (0, 1)
unfolding calculate lex_all scan to_int run step backup
refused_text = refl
