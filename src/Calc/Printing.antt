-- ===== src/Calc/Printing.antt =====
-- A program of packetdrill/calc.y as text, in decimal.
pub mod Scanned
use network_course.Prelude.{
  ℕ, zero, suc, ◌+◌, ◌-◌, ◌*◌, ◌/◌, ◌%◌, ◌^◌, ◌≤◌, ◌<◌, ◌≡◌, refl, sym, ap, ◌∙◌, true, Bool-cases,
  inl, inr, none, some, List, [], ◌∷◌, ◌++◌, append_assoc, ltb, if◌then◌else◌, arith,
}
use network_course.Prelude.Int.{pos}
use network_course.Calc.State.{Token}
use network_course.Calc.Grammar.{
  Additive, plus, minus, Multiplicative, times, over, additive_char, multiplicative_char, Sum,
  product, sum, Product, atom, prod, Atom, integer, variable, paren, Statement, expr, assign,
  integer_token, variable_token, sum_tokens, product_tokens, atom_tokens, statement_tokens,
  program_tokens,
}
use network_course.Calc.Scanner.{atoi, atoi_from}
use network_course.Calc.Scanner.Rules.{IsText, is_letter, is_digit, is_operator}
use network_course.Calc.Scanner.Lexes.{
  Lexes, no_text, letter, numeral, operator, blank, invalid_char, all_digits, no_digit,
}

-- The digits of a number, on fuel above the number.
unfoldable pub decimal_digits : ℕ → ℕ → List ℕ → List ℕ
decimal_digits zero n rest = rest
decimal_digits (suc f) n rest =
    let more = decimal_digits f (n / 10) ((b'0' + n % 10) ∷ rest) in
    if ltb n 10 then (b'0' + n) ∷ rest else more

abbrev pub decimal : ℕ → List ℕ
decimal n = decimal_digits (suc n) n []

-- The characters of a phrase, in front of `rest`.
abbrev mutual
  pub sum_text : Sum → List ℕ → List ℕ
  sum_text (product p) rest = product_text p rest
  sum_text (sum e o p) rest = sum_text e (additive_char o ∷ product_text p rest)

  pub product_text : Product → List ℕ → List ℕ
  product_text (atom a) rest = atom_text a rest
  product_text (prod p o a) rest = product_text p (multiplicative_char o ∷ atom_text a rest)

  pub atom_text : Atom → List ℕ → List ℕ
  atom_text (integer n) rest = decimal n ++ rest
  atom_text (variable i) rest = (b'a' + i) ∷ rest
  atom_text (paren e) rest = b'(' ∷ sum_text e (b')' ∷ rest)

abbrev pub statement_text : Statement → List ℕ → List ℕ
statement_text (expr e) rest = sum_text e rest
statement_text (assign i e) rest = (b'a' + i) ∷ b'=' ∷ sum_text e rest

abbrev pub program_text : List Statement → List ℕ
program_text [] = []
program_text (s ∷ ss) = statement_text s (b'\n' ∷ program_text ss)

-- The numbers are below 2^31, and the variables are letters.
abbrev mutual
  pub IsWritableSum : Sum → Type 0
  IsWritableSum (product p) = IsWritableProduct p
  IsWritableSum (sum e o p) = IsWritableSum e × IsWritableProduct p

  pub IsWritableProduct : Product → Type 0
  IsWritableProduct (atom a) = IsWritableAtom a
  IsWritableProduct (prod p o a) = IsWritableProduct p × IsWritableAtom a

  pub IsWritableAtom : Atom → Type 0
  IsWritableAtom (integer n) = n < 2 ^ 31
  IsWritableAtom (variable i) = i < 26
  IsWritableAtom (paren e) = IsWritableSum e

abbrev pub IsWritableStatement : Statement → Type 0
IsWritableStatement (expr e) = IsWritableSum e
IsWritableStatement (assign i e) = (i < 26) × IsWritableSum e

abbrev pub IsWritable : List Statement → Type 0
IsWritable [] = Unit
IsWritable (s ∷ ss) = IsWritableStatement s × IsWritable ss
