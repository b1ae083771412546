-- ===== src/Calc/Printing/Scanned.antt =====
-- The tokens that the scanner finds in a program's text are those of the program.
use network_course.Prelude.{
  ℕ, zero, suc, ◌+◌, ◌-◌, ◌*◌, ◌/◌, ◌%◌, ◌^◌, ◌≤◌, ◌<◌, ◌≡◌, refl, sym, ap, ◌∙◌, true, Bool-cases,
  inl, inr, none, some, List, [], ◌∷◌, ◌++◌, append_assoc, ltb, arith,
}
use network_course.Prelude.Int.{pos}
use network_course.Calc.State.{Token}
use network_course.Calc.Grammar.{
  Additive, plus, minus, Multiplicative, times, over, additive_char, multiplicative_char, Sum,
  product, sum, Product, atom, prod, Atom, integer, variable, paren, Statement, expr, assign,
  integer_token, variable_token, sum_tokens, product_tokens, atom_tokens, statement_tokens,
  program_tokens,
}
use network_course.Calc.Scanner.{atoi, atoi_from}
use network_course.Calc.Scanner.Rules.{IsText, is_letter, is_digit, is_operator}
use network_course.Calc.Scanner.Lexes.{
  Lexes, no_text, letter, numeral, operator, blank, invalid_char, all_digits, no_digit,
}
use network_course.Calc.Printing.{
  decimal_digits, decimal, sum_text, product_text, atom_text, statement_text, program_text,
  IsWritableSum, IsWritableProduct, IsWritableAtom, IsWritableStatement, IsWritable,
}

-- A numeral in front of a text.
record Numeral (n : ℕ) (ds : List ℕ) : Type 0 where
  first : ℕ
  others : List ℕ
  made_of : ds ≡ first ∷ others
  digit_first : is_digit first ≡ true
  digits_others : all_digits others ≡ true
  value : atoi ds ≡ n

atoi_append :
    (k : ℕ) (xs : List ℕ) (d : ℕ) → atoi_from k (xs ++ d ∷ []) ≡ atoi_from k xs * 10 + (d - b'0')
atoi_append k [] d = refl
atoi_append k (x ∷ xs) d = atoi_append (k * 10 + (x - b'0')) xs d

digits_out : (f n : ℕ) (rest : List ℕ) → decimal_digits f n rest ≡ decimal_digits f n [] ++ rest
unfolding decimal_digits
digits_out zero n rest = refl
digits_out (suc f) n rest = elim (Bool-cases (ltb n 10)) [
  | inl h ↦ rw h refl
  | inr h ↦
      let d = b'0' + n % 10 in
      rw h (
        digits_out f (n / 10) (d ∷ rest)
        ∙ sym (append_assoc (decimal_digits f (n / 10) []) (d ∷ []) rest)
        ∙ ap (λ xs. xs ++ rest) (sym (digits_out f (n / 10) (d ∷ []))))
]

all_digits-append :
    (xs : List ℕ) (d : ℕ)
    → all_digits xs ≡ true
    → is_digit d ≡ true
    → all_digits (xs ++ d ∷ []) ≡ true
all_digits-append [] d h k = ground arith
all_digits-append (x ∷ xs) d h k =
    let one : is_digit x ≡ true = ground arith in
    let others : all_digits xs ≡ true = ground arith in
    rw (one, all_digits-append xs d others k) refl

is_digit-below : (d : ℕ) → d < 10 → is_digit (b'0' + d) ≡ true
is_digit-below d h = ground arith

Numeral-decimal : (f n : ℕ) → n < f → Numeral n (decimal_digits f n [])
unfolding decimal_digits
Numeral-decimal zero n h = absurd (omega arith)
Numeral-decimal (suc f) n h = elim (Bool-cases (ltb n 10)) [
  | inl k ↦
      let small : n < 10 = ground arith in
      rw k (record {
        first = b'0' + n;
        others = [];
        made_of = refl;
        digit_first = is_digit-below n small;
        digits_others = refl;
        value = omega arith;
      })
  | inr k ↦
      let large : 10 ≤ n = ground arith in
      let d = b'0' + n % 10 in
      let m = Numeral-decimal f (n / 10) (omega arith) in
      let split = digits_out f (n / 10) (d ∷ []) in
      rw (k, split)
        (record {
          first = m.first;
          others = m.others ++ d ∷ [];
          made_of = ap (λ xs. xs ++ d ∷ []) m.made_of;
          digit_first = m.digit_first;
          digits_others =
              all_digits-append m.others d m.digits_others (is_digit-below (n % 10) (omega arith));
          value =
              atoi_append 0 (decimal_digits f (n / 10) []) d
              ∙ ap (λ v. v * 10 + (d - b'0')) m.value
              ∙ omega arith;
        })
]

Lexes-Numeral :
    (n : ℕ) (ds rest : List ℕ) (ts : List Token) (b : ℕ)
    → Numeral n ds
    → n < 2 ^ 31
    → no_digit rest ≡ true
    → Lexes rest ts b
    → Lexes (ds ++ rest) ((integer_token, some (pos n)) ∷ ts) b
Lexes-Numeral n ds rest ts b m h k d =
    let v : atoi (m.first ∷ m.others) ≡ n = ap atoi (sym m.made_of) ∙ m.value in
    rw (m.made_of, sym v)
      (numeral m.first m.others rest ts b m.digit_first m.digits_others k (omega (arith, v, h)) d)

additive_char-is_operator : (o : Additive) → is_operator (additive_char o) ≡ true
additive_char-is_operator plus = refl
additive_char-is_operator minus = refl

multiplicative_char-is_operator : (o : Multiplicative) → is_operator (multiplicative_char o) ≡ true
multiplicative_char-is_operator times = refl
multiplicative_char-is_operator over = refl

no_digit-operator : (c : ℕ) (cs : List ℕ) → is_operator c ≡ true → no_digit (c ∷ cs) ≡ true
no_digit-operator c cs h = ground arith

Lexes-variable :
    (i : ℕ) (cs : List ℕ) (ts : List Token) (b : ℕ)
    → i < 26
    → Lexes cs ts b
    → Lexes ((b'a' + i) ∷ cs) ((variable_token, some (pos i)) ∷ ts) b
Lexes-variable i cs ts b h d =
    let is : is_letter (b'a' + i) ≡ true = ground arith in
    let v : (b'a' + i) - b'a' ≡ i = omega arith in
    let found = letter (b'a' + i) cs ts b is d in rw v at found

mutual
  Lexes-sum :
      (e : Sum) (rest : List ℕ) (ts : List Token) (b : ℕ)
      → IsWritableSum e
      → no_digit rest ≡ true
      → Lexes rest ts b
      → Lexes (sum_text e rest) (sum_tokens e ts) b
  Lexes-sum (product p) rest ts b w h d = Lexes-product p rest ts b w h d
  Lexes-sum (sum e o p) rest ts b (v, w) h d =
      let is = additive_char-is_operator o in
      Lexes-sum e (additive_char o ∷ product_text p rest)
        ((additive_char o, none) ∷ product_tokens p ts) b v
        (no_digit-operator (additive_char o) (product_text p rest) is)
        (operator (additive_char o) (product_text p rest) (product_tokens p ts) b is
          (Lexes-product p rest ts b w h d))

  Lexes-product :
      (p : Product) (rest : List ℕ) (ts : List Token) (b : ℕ)
      → IsWritableProduct p
      → no_digit rest ≡ true
      → Lexes rest ts b
      → Lexes (product_text p rest) (product_tokens p ts) b
  Lexes-product (atom a) rest ts b w h d = Lexes-atom a rest ts b w h d
  Lexes-product (prod p o a) rest ts b (v, w) h d =
      let is = multiplicative_char-is_operator o in
      Lexes-product p (multiplicative_char o ∷ atom_text a rest)
        ((multiplicative_char o, none) ∷ atom_tokens a ts) b v
        (no_digit-operator (multiplicative_char o) (atom_text a rest) is)
        (operator (multiplicative_char o) (atom_text a rest) (atom_tokens a ts) b is
          (Lexes-atom a rest ts b w h d))

  Lexes-atom :
      (a : Atom) (rest : List ℕ) (ts : List Token) (b : ℕ)
      → IsWritableAtom a
      → no_digit rest ≡ true
      → Lexes rest ts b
      → Lexes (atom_text a rest) (atom_tokens a ts) b
  Lexes-atom (integer n) rest ts b w h d =
      Lexes-Numeral n (decimal n) rest ts b (Numeral-decimal (suc n) n (omega arith)) w h d
  Lexes-atom (variable i) rest ts b w h d = Lexes-variable i rest ts b w d
  Lexes-atom (paren e) rest ts b w h d =
      operator b'(' (sum_text e (b')' ∷ rest)) (sum_tokens e ((b')', none) ∷ ts)) b refl
        (Lexes-sum e (b')' ∷ rest) ((b')', none) ∷ ts) b w refl (operator b')' rest ts b refl d))

Lexes-statement :
    (s : Statement) (rest : List ℕ) (ts : List Token) (b : ℕ)
    → IsWritableStatement s
    → no_digit rest ≡ true
    → Lexes rest ts b
    → Lexes (statement_text s rest) (statement_tokens s ts) b
Lexes-statement (expr e) rest ts b w h d = Lexes-sum e rest ts b w h d
Lexes-statement (assign i e) rest ts b (v, w) h d =
    Lexes-variable i (b'=' ∷ sum_text e rest) ((b'=', none) ∷ sum_tokens e ts) b v
      (operator b'=' (sum_text e rest) (sum_tokens e ts) b refl (Lexes-sum e rest ts b w h d))

-- The tokens of a program's text are those of the program.
pub Lexes-program :
    (ss : List Statement) → IsWritable ss → Lexes (program_text ss) (program_tokens ss) 0
Lexes-program [] w = no_text
Lexes-program (s ∷ ss) (v, w) =
    Lexes-statement s (b'\n' ∷ program_text ss) ((b'\n', none) ∷ program_tokens ss) 0 v refl
      (operator b'\n' (program_text ss) (program_tokens ss) 0 refl (Lexes-program ss w))

IsText-digits : (cs rest : List ℕ) → all_digits cs ≡ true → IsText rest → IsText (cs ++ rest)
IsText-digits [] rest a t = t
IsText-digits (c ∷ cs) rest a t =
    let others : all_digits cs ≡ true = ground arith in
    (ground arith, ground arith, IsText-digits cs rest others t)

-- A text without invalid characters is one that the scanner reads to its end.
pub Lexes-IsText : (text : List ℕ) (ts : List Token) (b : ℕ) → Lexes text ts b → b ≡ 0 → IsText text
Lexes-IsText text ts b no_text z = tt
Lexes-IsText text ts b (letter c cs ts' b' l d) z =
    (ground arith, ground arith, Lexes-IsText cs ts' b' d z)
Lexes-IsText text ts b (numeral c cs rest ts' b' k a n v d) z =
    (ground arith, ground arith, IsText-digits cs rest a (Lexes-IsText rest ts' b' d z))
Lexes-IsText text ts b (operator c cs ts' b' l d) z =
    (ground arith, ground arith, Lexes-IsText cs ts' b' d z)
Lexes-IsText text ts b (blank c cs ts' b' l d) z =
    (ground arith, ground arith, Lexes-IsText cs ts' b' d z)
Lexes-IsText text ts b (invalid_char c cs ts' b' l d) z = absurd (omega (arith, z))
