-- ===== src/Calc/Scanner/Found.antt =====
-- `yylex` of packetdrill/lex.yy.c finds no other tokens than those that packetdrill/calc.l describes.
use network_course.Prelude.{
  ℕ, zero, suc, ◌+◌, ◌-◌, ◌<◌, ◌^◌, ◌≡◌, refl, sym, ap, ◌∙◌, true, false, Bool-cases, Option-cases,
  ◌⊎◌, inl, inr, Option, none, some, List, [], ◌∷◌, ◌++◌, length, take, drop, ltb, ltb→lt, ◌>>=◌,
  arith,
}
use mathlib.Core.Option.{some-injective}
use network_course.Prelude.Cells.{take-append}
use network_course.Prelude.Int.{pos, to_int}
use network_course.Calc.State.{Token}
use network_course.Calc.Grammar.{integer_token, variable_token}
use network_course.Calc.Scanner.{
  Scan, state_eof, atoi, Lexed, return_token, act_on, yylex, Lexeme, lex_all,
}
use network_course.Calc.Scanner.Rules.{
  IsText, is_letter, is_digit, is_operator, is_blank, rule, digits,
}
use network_course.Calc.Scanner.Match.{Scanned, scan_end}
use network_course.Calc.Scanner.Lexes.{
  Lexes, no_text, letter, numeral, operator, blank, invalid_char, all_digits, no_digit, rule_letter,
  rule_operator, rule_blank, letter_no_digit, operator_no_digit, blank_no_digit, rule_no_digit,
}
use network_course.Calc.Scanner.Rounds.{
  yylex-scan, one_char_scan, act_on_token, act_on_blank, act_on_invalid, act_on_eof, return_letter,
  return_operator, return_number, IsText-append, drop-length, number_scan,
}
use network_course.Calc.Scanner.Tokens.{lex_all-end, lex_all-more}

-- What a call of `yylex` tells of the text.
data Yields (text : List ℕ) (bad : ℕ) (x : Lexed) : Type 0 where
  yields_end : (b : ℕ) → x.token ≡ none → x.invalid ≡ bad + b → Lexes text [] b → Yields text bad x
  yields_token :
      (t : Token) (b1 : ℕ)
      → x.token ≡ some t
      → x.invalid ≡ bad + b1
      → IsText x.unread
      → ((ts : List Token) (b2 : ℕ) → Lexes x.unread ts b2 → Lexes text (t ∷ ts) (b1 + b2))
      → Yields text bad x

Yields-blank :
    (c : ℕ) (cs : List ℕ) (bad : ℕ) (x : Lexed)
    → is_blank c ≡ true
    → Yields cs bad x
    → Yields (c ∷ cs) bad x
Yields-blank c cs bad x h (yields_end b t i d) = yields_end b t i (blank c cs [] b h d)
Yields-blank c cs bad x h (yields_token t b1 k i w d) =
    yields_token t b1 k i w (λ ts b2 l. blank c cs (t ∷ ts) (b1 + b2) h (d ts b2 l))

Yields-invalid_char :
    (c : ℕ) (cs : List ℕ) (bad : ℕ) (x : Lexed)
    → rule c ≡ 5
    → Yields cs (bad + 1) x
    → Yields (c ∷ cs) bad x
Yields-invalid_char c cs bad x h (yields_end b t i d) =
    yields_end (b + 1) t (i ∙ omega arith) (invalid_char c cs [] b h d)
Yields-invalid_char c cs bad x h (yields_token t b1 k i w d) =
    yields_token t (b1 + 1) k (i ∙ omega arith) w (λ ts b2 l.
      let moved : (b1 + 1) + b2 ≡ b1 + b2 + 1 = omega arith in
      rw moved (invalid_char c cs (t ∷ ts) (b1 + b2) h (d ts b2 l)))

char_cases :
    (c : ℕ)
    → (is_letter c ≡ true)
      ⊎ (is_digit c ≡ true)
      ⊎ (is_operator c ≡ true)
      ⊎ (is_blank c ≡ true)
      ⊎ (rule c ≡ 5)
char_cases c = elim (Bool-cases (is_letter c)) [
  | inl a ↦ inl a
  | inr a ↦ elim (Bool-cases (is_digit c)) [
    | inl d ↦ inr (inl d)
    | inr d ↦ elim (Bool-cases (is_operator c)) [
      | inl o ↦ inr (inr (inl o))
      | inr o ↦ elim (Bool-cases (is_blank c)) [
        | inl b ↦ inr (inr (inr (inl b)))
        | inr b ↦ inr (inr (inr (inr (rw (a, d, o, b) refl))))
      ]
    ]
  ]
]

none-some : (x : Lexed) → Option.none ≡ some x → ⊥
none-some x h = ground arith

-- A token of `k` characters.
Yields-token :
    (f k a : ℕ) (text rest : List ℕ) (s : Scan) (bad : ℕ) (t : Token) (x : Lexed)
    → Scanned text s a k
    → a < 4
    → return_token a (take k text) ≡ some t
    → drop k text ≡ rest
    → IsText rest
    → ((ts : List Token) (b : ℕ) → Lexes rest ts b → Lexes text (t ∷ ts) b)
    → yylex (suc f) text s bad ≡ some x
    → Yields text bad x
Yields-token f k a text rest s bad t x w l r e i d h =
    let all =
      yylex-scan f text s w.end a bad w.runs
      ∙ act_on_token (yylex f) text bad a w.end t l
          (ap (λ n. return_token a (take n text)) w.end_cp ∙ r) in
    let left : drop w.end.cp text ≡ rest = ap (λ n. drop n text) w.end_cp ∙ e in
    let is = some-injective _ x (sym all ∙ h) in
    rw (← is, left)
      (yields_token t 0 refl (omega arith) i
        (λ ts b l. let same : 0 + b ≡ b = omega arith in rw same (d ts b l)))

act_on-none :
    (go : List ℕ → Scan → ℕ → Option Lexed) (text : List ℕ) (bad : ℕ) (q : Scan)
    → return_token 2 (take q.cp text) ≡ none
    → act_on go text bad 2 q ≡ none
unfolding act_on
act_on-none go text bad q r = rw r refl

return_too_large : (text : List ℕ) → ltb (atoi text) (2 ^ 31) ≡ false → return_token 2 text ≡ none
unfolding return_token to_int
return_too_large text h = rw h refl

Yields-number :
    (c : ℕ) (cs ds rest : List ℕ) (f : ℕ) (s : Scan) (bad : ℕ) (x : Lexed)
    → cs ≡ ds ++ rest
    → IsText (c ∷ cs)
    → is_digit c ≡ true
    → all_digits ds ≡ true
    → no_digit rest ≡ true
    → yylex (suc f) (c ∷ cs) s bad ≡ some x
    → Yields (c ∷ cs) bad x
Yields-number c cs ds rest f s bad x e i d a n h =
    let i' : IsText (c ∷ (ds ++ rest)) = rw e at i in
    let h' : yylex (suc f) (c ∷ (ds ++ rest)) s bad ≡ some x = rw e at h in
    let w = number_scan c ds rest s i' d a n in
    let taken : take (suc (length ds)) (c ∷ (ds ++ rest)) ≡ c ∷ ds =
      ap (◌∷◌ c) (take-append (length ds) ds rest refl) in
    rw e (elim (Bool-cases (ltb (atoi (c ∷ ds)) (2 ^ 31))) [
      | inl small ↦
          Yields-token f (suc (length ds)) 2 (c ∷ (ds ++ rest)) rest s bad
            (integer_token, some (pos (atoi (c ∷ ds)))) x w (omega arith)
            (ap (return_token 2) taken ∙ return_number (c ∷ ds) (ltb→lt _ _ small))
            (drop-length ds rest) (IsText-append ds rest i'.2)
            (λ ts b l. numeral c ds rest ts b d a n (ltb→lt _ _ small) l) h'
      | inr large ↦
          let none_found =
            yylex-scan f (c ∷ (ds ++ rest)) s w.end 2 bad w.runs
            ∙ act_on-none (yylex f) (c ∷ (ds ++ rest)) bad w.end (
                ap (λ n. return_token 2 (take n (c ∷ (ds ++ rest)))) w.end_cp
                ∙ ap (return_token 2) taken
                ∙ return_too_large (c ∷ ds) large) in
          absurd (none-some x (sym none_found ∙ h'))
    ])

-- The longest run of digits.
digits_split : (cs : List ℕ) → cs ≡ take (digits cs) cs ++ drop (digits cs) cs
digits_split [] = refl
digits_split (c ∷ cs) = elim (Bool-cases (is_digit c)) [
  | inl d ↦ rw d (ap (◌∷◌ c) (digits_split cs))
  | inr d ↦ rw d refl
]

digits_all : (cs : List ℕ) → all_digits (take (digits cs) cs) ≡ true
digits_all [] = refl
digits_all (c ∷ cs) = elim (Bool-cases (is_digit c)) [
  | inl d ↦ rw (d, d) (digits_all cs)
  | inr d ↦ rw d refl
]

digits_end : (cs : List ℕ) → no_digit (drop (digits cs) cs) ≡ true
digits_end [] = refl
digits_end (c ∷ cs) = elim (Bool-cases (is_digit c)) [
  | inl d ↦ rw d (digits_end cs)
  | inr d ↦ rw (d, d) refl
]

yylex-Yields :
    (f : ℕ) (text : List ℕ) (s : Scan) (bad : ℕ) (x : Lexed)
    → IsText text
    → yylex f text s bad ≡ some x
    → Yields text bad x
unfolding yylex
yylex-Yields zero text s bad x i h = absurd (none-some x h)
yylex-Yields (suc f) [] s bad x i h =
    let w = scan_end s in
    let all = yylex-scan f [] s w.end state_eof bad w.runs ∙ act_on_eof (yylex f) [] bad w.end in
    rw (← some-injective _ x (sym all ∙ h)) (yields_end 0 refl (omega arith) no_text)
yylex-Yields (suc f) (c ∷ cs) s bad x i h = elim (char_cases c) [
  | inl a ↦
      Yields-token f 1 1 (c ∷ cs) cs s bad (variable_token, some (pos (c - b'a'))) x
        (one_char_scan c cs s 1 i (letter_no_digit c a) (rule_letter c a)) (omega arith)
        (return_letter c [] a) refl i.2 (λ ts b l. letter c cs ts b a l) h
  | inr (inl d) ↦
      Yields-number c cs (take (digits cs) cs) (drop (digits cs) cs) f s bad x (digits_split cs) i d
        (digits_all cs) (digits_end cs) h
  | inr (inr (inl o)) ↦
      Yields-token f 1 3 (c ∷ cs) cs s bad (c, none) x
        (one_char_scan c cs s 3 i (operator_no_digit c o) (rule_operator c o)) (omega arith)
        (return_operator c []) refl i.2 (λ ts b l. operator c cs ts b o l) h
  | inr (inr (inr (inl b))) ↦
      let w = one_char_scan c cs s 4 i (blank_no_digit c b) (rule_blank c b) in
      let next =
        yylex-scan f (c ∷ cs) s w.end 4 bad w.runs
        ∙ act_on_blank (yylex f) (c ∷ cs) bad w.end
        ∙ ap (λ k. yylex f (drop k (c ∷ cs)) w.end bad) w.end_cp in
      Yields-blank c cs bad x b (yylex-Yields f cs w.end bad x i.2 (sym next ∙ h))
  | inr (inr (inr (inr r))) ↦
      let w = one_char_scan c cs s 5 i (rule_no_digit c r) r in
      let next =
        yylex-scan f (c ∷ cs) s w.end 5 bad w.runs
        ∙ act_on_invalid (yylex f) (c ∷ cs) bad w.end
        ∙ ap (λ k. yylex f (drop k (c ∷ cs)) w.end (bad + 1)) w.end_cp in
      Yields-invalid_char c cs bad x r (yylex-Yields f cs w.end (bad + 1) x i.2 (sym next ∙ h))
]

lexeme_eq : (r : Lexeme) (ts : List Token) (b : ℕ) → r ≡ (ts, b) → (r.0 ≡ ts) × (r.1 ≡ b)
lexeme_eq r ts b h = (ap (λ p. p.0) h, ap (λ p. p.1) h)

lex_all-nothing :
    (f : ℕ) (text : List ℕ) (s : Scan)
    → yylex (suc (length text)) text s 0 ≡ none
    → lex_all (suc f) text s ≡ none
unfolding lex_all
lex_all-nothing f text s h = rw (h, ◌>>=◌) refl

lex_all-stuck :
    (f : ℕ) (text : List ℕ) (s : Scan) (x : Lexed) (t : Token)
    → yylex (suc (length text)) text s 0 ≡ some x
    → x.token ≡ some t
    → lex_all f x.unread x.scanner ≡ none
    → lex_all (suc f) text s ≡ none
unfolding lex_all
lex_all-stuck f text s x t h e m = rw (h, ◌>>=◌, e, m) refl

nothing-some : (r : Lexeme) → Option.none ≡ some r → ⊥
nothing-some r h = ground arith

-- What `yylex`, called until it returns 0, comes back with for a text of bytes with no 0 among them: the tokens that
-- calc.l describes, with the number of invalid characters, whatever its variables held and however many calls are made.
pub lex_all-found :
    (f : ℕ) (text : List ℕ) (s : Scan) (ts : List Token) (b : ℕ)
    → IsText text
    → lex_all f text s ≡ some (ts, b)
    → Lexes text ts b
unfolding lex_all
lex_all-found zero text s ts b i h = absurd (nothing-some (ts, b) h)
lex_all-found (suc f) text s ts b i h = elim (Option-cases (yylex (suc (length text)) text s 0)) [
  | inl e ↦ absurd (nothing-some (ts, b) (sym (lex_all-nothing f text s e) ∙ h))
  | inr (x, e) ↦ elim (yylex-Yields (suc (length text)) text s 0 x i e) [
    | yields_end b1 t k l ↦
        let (q, r) =
          lexeme_eq _ ts b (some-injective _ (ts, b) (sym (lex_all-end f text s x e t) ∙ h)) in
        let bad : b1 ≡ b = omega (arith, k, r) in rw (← q, ← bad) l
    | yields_token t b1 k l w d ↦ elim (Option-cases (lex_all f x.unread x.scanner)) [
      | inl m ↦ absurd (nothing-some (ts, b) (sym (lex_all-stuck f text s x t e k m) ∙ h))
      | inr (p, m) ↦
          let (q, r) =
            lexeme_eq _ ts b
              (some-injective _ (ts, b) (sym (lex_all-more f text s x t p e k m) ∙ h)) in
          let bad : b1 + p.1 ≡ b = omega (arith, l, r) in
          rw (← q, ← bad) (d (p.0) (p.1) (lex_all-found f x.unread x.scanner (p.0) (p.1) w m))
    ]
  ]
]
