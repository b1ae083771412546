-- ===== src/Calc/Scanner/Tokens.antt =====
-- `yylex` of packetdrill/lex.yy.c, called until the end of a text, by the tokens of the text.
use network_course.Prelude.{
  ℕ, zero, suc, ◌+◌, ◌-◌, ◌<◌, ◌≡◌, refl, ap, ◌∙◌, Option, none, some, List, [], ◌∷◌, ◌++◌, length,
  length-append, drop, ◌>>=◌, arith,
}
use network_course.Prelude.Cells.{take-append}
use network_course.Prelude.Int.{pos}
use network_course.Calc.State.{Token}
use network_course.Calc.Grammar.{integer_token, variable_token}
use network_course.Calc.Scanner.{Scan, state_eof, atoi, Lexed, return_token, yylex, Lexeme, lex_all}
use network_course.Calc.Scanner.Rules.{IsText}
use network_course.Calc.Scanner.Match.{scan_end}
use network_course.Calc.Scanner.Lexes.{
  Lexes, no_text, letter, numeral, operator, blank, invalid_char, rule_letter, rule_operator,
  rule_blank, letter_no_digit, operator_no_digit, blank_no_digit, rule_no_digit,
}
use network_course.Calc.Scanner.Rounds.{
  yylex-scan, Next, ends, token_next, Next-longer, Next-invalid, one_char_scan, token_of,
  act_on_blank, act_on_invalid, act_on_eof, return_letter, return_operator, return_number,
  IsText-append, drop-length, number_scan,
}

-- A call of `yylex` on enough fuel, by the tokens of the text.
yylex-Next :
    (text : List ℕ) (ts : List Token) (b f : ℕ) (s : Scan) (bad : ℕ)
    → Lexes text ts b
    → IsText text
    → length text < f
    → Next text bad ts b (yylex f text s bad)
yylex-Next text ts b zero s bad d t h = absurd (omega arith)
yylex-Next text ts b (suc f) s bad no_text t h =
    let w = scan_end s in
    rw (yylex-scan f [] s w.end state_eof bad w.runs ∙ act_on_eof (yylex f) [] bad w.end)
      (ends 0 _ refl (omega arith))
yylex-Next text ts b (suc f) s bad (letter c cs ts' b' l d) t h =
    token_of f 1 1 (c ∷ cs) cs s bad (variable_token, some (pos (c - b'a'))) ts' b
      (one_char_scan c cs s 1 t (letter_no_digit c l) (rule_letter c l)) (omega arith)
      (return_letter c [] l) refl (omega arith) t.2 d
yylex-Next text ts b (suc f) s bad (operator c cs ts' b' l d) t h =
    token_of f 1 3 (c ∷ cs) cs s bad (c, none) ts' b
      (one_char_scan c cs s 3 t (operator_no_digit c l) (rule_operator c l)) (omega arith)
      (return_operator c []) refl (omega arith) t.2 d
yylex-Next text ts b (suc f) s bad (numeral c cs rest ts' b' k a n v d) t h =
    token_of f (suc (length cs)) 2 (c ∷ (cs ++ rest)) rest s bad
      (integer_token, some (pos (atoi (c ∷ cs)))) ts' b (number_scan c cs rest s t k a n)
      (omega arith)
      (ap (λ x. return_token 2 (c ∷ x)) (take-append (length cs) cs rest refl)
        ∙ return_number (c ∷ cs) v)
      (drop-length cs rest) (omega (arith, length-append cs rest)) (IsText-append cs rest t.2) d
yylex-Next text ts b (suc f) s bad (blank c cs ts' b' l d) t h =
    let w = one_char_scan c cs s 4 t (blank_no_digit c l) (rule_blank c l) in
    rw
      (yylex-scan f (c ∷ cs) s w.end 4 bad w.runs
        ∙ act_on_blank (yylex f) (c ∷ cs) bad w.end
        ∙ ap (λ k. yylex f (drop k (c ∷ cs)) w.end bad) w.end_cp)
      (Next-longer c cs bad ts b _ (yylex-Next cs ts b f w.end bad d t.2 (omega arith)))
yylex-Next text ts b (suc f) s bad (invalid_char c cs ts' b' l d) t h =
    let w = one_char_scan c cs s 5 t (rule_no_digit c l) l in
    rw
      (yylex-scan f (c ∷ cs) s w.end 5 bad w.runs
        ∙ act_on_invalid (yylex f) (c ∷ cs) bad w.end
        ∙ ap (λ k. yylex f (drop k (c ∷ cs)) w.end (bad + 1)) w.end_cp)
      (Next-invalid c cs bad ts b' _ (yylex-Next cs ts b' f w.end (bad + 1) d t.2 (omega arith)))

pub lex_all-end :
    (f : ℕ) (text : List ℕ) (s : Scan) (x : Lexed)
    → yylex (suc (length text)) text s 0 ≡ some x
    → x.token ≡ none
    → lex_all (suc f) text s ≡ some ([], x.invalid)
unfolding lex_all
lex_all-end f text s x h e = rw (h, ◌>>=◌, e) refl

pub lex_all-more :
    (f : ℕ) (text : List ℕ) (s : Scan) (x : Lexed) (t : Token) (r : Lexeme)
    → yylex (suc (length text)) text s 0 ≡ some x
    → x.token ≡ some t
    → lex_all f x.unread x.scanner ≡ some r
    → lex_all (suc f) text s ≡ some (t ∷ r.0, r.1 + x.invalid)
unfolding lex_all
lex_all-more f text s x t r h e m = rw (h, ◌>>=◌, e, m) refl

lex_all-Next :
    (f : ℕ) (text : List ℕ) (s : Scan) (ts : List Token) (b : ℕ) (o : Option Lexed)
    → ((rest : List ℕ) (ts' : List Token) (b' : ℕ) (q : Scan)
        → Lexes rest ts' b'
        → IsText rest
        → length rest < length text
        → lex_all f rest q ≡ some (ts', b'))
    → yylex (suc (length text)) text s 0 ≡ o
    → Next text 0 ts b o
    → lex_all (suc f) text s ≡ some (ts, b)
lex_all-Next f text s [] b o more e (ends b' x k i) =
    let all : x.invalid ≡ b' = i ∙ omega arith in
    lex_all-end f text s x e k ∙ ap (λ n. some ([], n)) all
lex_all-Next f text s (t ∷ ts) b o more e (token_next t' ts' b1 b2 b' x j k i l w r) =
    let all : b2 + x.invalid ≡ b' = omega (arith, i, j) in
    lex_all-more f text s x t (ts, b2) e k (more x.unread ts b2 x.scanner r w l)
    ∙ ap (λ n. some (t ∷ ts, n)) all

-- `yylex`, called until it returns 0 and whatever its variables held, gives the tokens of a text of bytes with no
-- 0 among them, and calls `yyerror` once for each invalid character, within as many calls as the text has
-- characters and one more.
pub lex_all-Lexes :
    (text : List ℕ) (ts : List Token) (b f : ℕ) (s : Scan)
    → Lexes text ts b
    → IsText text
    → length text < f
    → lex_all f text s ≡ some (ts, b)
lex_all-Lexes text ts b zero s d t h = absurd (omega arith)
lex_all-Lexes text ts b (suc f) s d t h =
    lex_all-Next f text s ts b _
      (λ rest ts' b' q r w l. lex_all-Lexes rest ts' b' f q r w (omega (arith, l, h))) refl
      (yylex-Next text ts b (suc (length text)) s 0 d t (omega arith))
