-- ===== src/Calc/Calculator.antt =====
-- The calculator of packetdrill as a whole: the characters of its input, the tokens that `yylex` makes of
-- them, and `yyparse` on the tokens.
pub mod Accepts
use network_course.Prelude.{
  ℕ, suc, ◌+◌, ◌*◌, ◌<◌, ◌≡◌, refl, ◌∙◌, Bool, Option, some, List, [], length, ◌>>=◌, arith,
}
use network_course.Prelude.Cells.{bind-some}
use network_course.Prelude.Int.{ℤ}
use network_course.Calc.State.{Parser, Outcome, done, maxdepth}
use network_course.Calc.Parser.{run, initial}
use network_course.Calc.Parser.Reach.{GivesStacks}
use network_course.Calc.Parser.Total.{yyparse_program}
use network_course.Calc.Grammar.{Statement, program_tokens, program_effect, program_depth}
use network_course.Calc.Scanner.{Lexeme, lex_all, fresh}
use network_course.Calc.Scanner.Rules.{IsText}
use network_course.Calc.Scanner.Lexes.{Lexes}
use network_course.Calc.Scanner.Tokens.{lex_all-Lexes}
use network_course.Calc.Printing.{IsWritable, program_text}
use network_course.Calc.Printing.Scanned.{Lexes-program, Lexes-IsText}

-- `main`: how often "invalid input" was reported, and what `yyparse` came to. The parser takes the tokens
-- in the order in which `yylex` finds them.
abbrev pub parsed : (ℕ → Bool) → List ℤ → Lexeme → Option (ℕ × Outcome)
parsed malloc m r = do o ← run malloc (4 + 5 * length (r.0)) (initial m (r.0)); some (r.1, o)

unfoldable pub calculate : (ℕ → Bool) → List ℤ → List ℕ → Option (ℕ × Outcome)
calculate malloc m text = lex_all (suc (length text)) text fresh >>= parsed malloc m

-- What the calculator does with a program.
pub record Calculates (malloc : ℕ → Bool) (m : List ℤ) (text : List ℕ) (bad : ℕ)
    (r : List ℤ × List ℤ) : Type 0 where
  pub parser : Parser
  pub returns : calculate malloc m text ≡ some (bad, done 0 parser)
  pub sym_is : parser.sym ≡ r.0
  pub printed : parser.out ≡ r.1
  pub no_complaints : parser.complaints ≡ []

-- Where `malloc` grants every request for stacks of at most 10000 entries, the nesting of a program leaves room on
-- them and the program has an effect: from a text of bytes with no 0 among them whose tokens, as calc.l describes
-- them, are those of the program, the calculator comes to its end. `yyparse` returns 0, `sym` and the printed
-- numbers are what the grammar says, `yyparse` reports nothing, and `yylex` each invalid character.
pub calculate-Calculates :
    (malloc : ℕ → Bool) (ss : List Statement) (m : List ℤ) (r : List ℤ × List ℤ) (text : List ℕ)
    (bad : ℕ)
    → GivesStacks malloc
    → program_effect ss m ≡ some r
    → 2 + program_depth ss < maxdepth
    → IsText text
    → Lexes text (program_tokens ss) bad
    → Calculates malloc m text bad r
unfolding calculate
calculate-Calculates malloc ss m r text bad g h d t l =
    let (q, runs, s, o, c) = yyparse_program malloc g ss m r h d in
    let scanned =
      lex_all-Lexes text (program_tokens ss) bad (suc (length text)) fresh l t (omega arith) in
    record {
      parser = q;
      returns = bind-some (parsed malloc m) scanned ∙ bind-some (λ x. some (bad, x)) runs;
      sym_is = s;
      printed = o;
      no_complaints = c;
    }

-- Under the same conditions on `malloc` and the program, where its numbers are below 2^31 and its variables are
-- letters: from the text of the program, with its numbers in decimal, the calculator comes to its end and does what
-- the grammar says, and no character is reported as invalid.
pub calculate-program_text :
    (malloc : ℕ → Bool) (ss : List Statement) (m : List ℤ) (r : List ℤ × List ℤ)
    → GivesStacks malloc
    → program_effect ss m ≡ some r
    → 2 + program_depth ss < maxdepth
    → IsWritable ss
    → Calculates malloc m (program_text ss) 0 r
calculate-program_text malloc ss m r g h d w =
    let l = Lexes-program ss w in
    calculate-Calculates malloc ss m r (program_text ss) 0 g h d
      (Lexes-IsText (program_text ss) (program_tokens ss) 0 l refl) l
