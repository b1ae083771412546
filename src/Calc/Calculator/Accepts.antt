-- ===== src/Calc/Calculator/Accepts.antt =====
-- The calculator of packetdrill accepts nothing but programs.
use network_course.Prelude.{
  ℕ, suc, ◌+◌, ◌-◌, ◌*◌, ◌<◌, ◌≤◌, ◌≡◌, refl, ap, ◌∙◌, Bool, true, ◌&&◌, ltb, ◌==◌, none, some,
  List, ◌∷◌, length, >>=-eq-some, holds_below, holds_below_at, arith,
}
use mathlib.Core.Option.{some-injective}
use network_course.Prelude.Int.{ℤ}
use network_course.Calc.Tables.{translate}
use network_course.Calc.State.{Token, Parser, Outcome, done}
use network_course.Calc.Grammar.{Statement, program_tokens}
use network_course.Calc.Parser.{run, initial}
use network_course.Calc.Parser.Automaton.{implies}
use network_course.Calc.Parser.Derives.{symbol_char, IsToken, is_integer, is_variable, is_operator}
use network_course.Calc.Parser.Refusal.{AreTokens}
use network_course.Calc.Parser.Sound.{yyparse-IsProgram}
use network_course.Calc.Scanner.{atoi, lex_all, fresh}
use network_course.Calc.Scanner.Rules.{IsText, is_operator as operator_char}
use network_course.Calc.Scanner.Lexes.{
  Lexes, no_text, letter, numeral, operator, blank, invalid_char,
}
use network_course.Calc.Scanner.Found.{lex_all-found}
use network_course.Calc.Calculator.{parsed, calculate}

is_operator_token :
    (c x : ℕ) → (ltb 4 x && (ltb x 13 && symbol_char x == c)) ≡ true → IsToken x (c, none)
is_operator_token c x h =
    let low : 5 ≤ x = ground (arith, h) in
    let high : x < 13 = ground (arith, h) in
    let same : c ≡ symbol_char x = ground (arith, h) in
    is_operator low high (ap (λ c. (c, none)) same)

pair_eq : (r : ℕ × Outcome) (b : ℕ) (p : Outcome) → r ≡ (b, p) → (r.0 ≡ b) × (r.1 ≡ p)
pair_eq r b p h = (ap (λ r. r.0) h, ap (λ r. r.1) h)

operators_named :
    holds_below 128 (λ c.
      implies
        (operator_char c)
        (ltb 4 (translate c) && (ltb (translate c) 13 && symbol_char (translate c) == c)))
    ≡ true
unfolding holds_below translate
operators_named = refl

operator-IsToken : (c : ℕ) → operator_char c ≡ true → IsToken (translate c) (c, none)
operator-IsToken c h =
    let ascii : c < 128 = ground arith in
    let checked : (ltb 4 (translate c) && (ltb (translate c) 13 && symbol_char (translate c) == c))
        ≡ true =
      rw h at (
        holds_below_at 128
          (λ c.
            implies (operator_char c)
              (ltb 4 (translate c) && (ltb (translate c) 13 && symbol_char (translate c) == c)))
          c operators_named ascii) in
    is_operator_token c (translate c) checked

-- The tokens that the scanner finds are tokens of the parser.
Lexes-AreTokens : (text : List ℕ) (ts : List Token) (b : ℕ) → Lexes text ts b → AreTokens ts
Lexes-AreTokens text ts b no_text = tt
Lexes-AreTokens text ts b (letter c cs ts' b' h d) =
    ((4, is_variable (c - b'a') refl refl), Lexes-AreTokens cs ts' b' d)
Lexes-AreTokens text ts b (numeral c cs rest ts' b' k a n v d) =
    ((3, is_integer (atoi (c ∷ cs)) refl refl), Lexes-AreTokens rest ts' b' d)
Lexes-AreTokens text ts b (operator c cs ts' b' h d) =
    ((translate c, operator-IsToken c h), Lexes-AreTokens cs ts' b' d)
Lexes-AreTokens text ts b (blank c cs ts' b' h d) = Lexes-AreTokens cs ts b d
Lexes-AreTokens text ts b (invalid_char c cs ts' b' h d) = Lexes-AreTokens cs ts b' d

-- Whatever `malloc` does and whatever `sym` holds, if `yyparse` returns 0 on a text of bytes with no 0 among them, then the tokens of
-- the text, as calc.l describes them, are those of a program of calc.y, and as many characters are reported as are invalid.
pub calculate-Lexes :
    (malloc : ℕ → Bool) (m : List ℤ) (text : List ℕ) (bad : ℕ) (q : Parser)
    → IsText text
    → calculate malloc m text ≡ some (bad, done 0 q)
    → (ss : List Statement) × Lexes text (program_tokens ss) bad
unfolding calculate
calculate-Lexes malloc m text bad q t h =
    let (r, scanned, after) =
      >>=-eq-some (lex_all (suc (length text)) text fresh) (parsed malloc m) h in
    let (o, runs, same) =
      >>=-eq-some (run malloc (4 + 5 * length (r.0)) (initial m (r.0))) (λ o. some (r.1, o))
        after in
    let (count, outcome) =
      pair_eq (r.1, o) bad (done 0 q) (some-injective (r.1, o) (bad, done 0 q) same) in
    let d = lex_all-found (suc (length text)) text fresh (r.0) (r.1) t scanned in
    let (ss, e) =
      yyparse-IsProgram malloc (4 + 5 * length (r.0)) m (r.0) q (Lexes-AreTokens text (r.0) (r.1) d)
        (runs ∙ ap some outcome) in
    (ss, rw (e, count) at d)
