-- ===== src/Calc/Grammar.antt =====
-- packetdrill/calc.y: the calculator's language, as a reader of the grammar understands it. The
-- precedence that `%left` gives is in the types: a sum of products of atoms, each to the left.
use network_course.Prelude.{ℕ, ◌+◌, ◌≤◌, Option, none, some, List, [], ◌∷◌, ◌++◌, max, arith, ◌>>=◌}
use network_course.Prelude.Int.{ℤ, pos, add_int, sub_int, mul_int, div_int}
use network_course.Calc.State.{Token, read_sym, write_sym}

pub data Additive : Type 0 where
  plus minus : Additive

pub data Multiplicative : Type 0 where
  times over : Multiplicative

abbrev pub additive_char : Additive → ℕ
additive_char plus = b'+'
additive_char minus = b'-'

abbrev pub multiplicative_char : Multiplicative → ℕ
multiplicative_char times = b'*'
multiplicative_char over = b'/'

abbrev pub add_or_sub : Additive → ℤ → ℤ → Option ℤ
add_or_sub plus = add_int
add_or_sub minus = sub_int

abbrev pub mul_or_div : Multiplicative → ℤ → ℤ → Option ℤ
mul_or_div times = mul_int
mul_or_div over = div_int

mutual
  pub data Sum : Type 0 where
    product : Product → Sum
    sum : Sum → Additive → Product → Sum

  pub data Product : Type 0 where
    atom : Atom → Product
    prod : Product → Multiplicative → Atom → Product

  pub data Atom : Type 0 where
    integer : ℕ → Atom
    variable : ℕ → Atom
    paren : Sum → Atom

-- `statement` and `program` of calc.y; each statement ends its line.
pub data Statement : Type 0 where
  expr : Sum → Statement
  assign : ℕ → Sum → Statement

-- INTEGER and VARIABLE of calc.tab.h.
abbrev pub integer_token : ℕ
integer_token = 258

abbrev pub variable_token : ℕ
variable_token = 259

-- The tokens of a phrase, in front of `rest`.
abbrev mutual
  pub sum_tokens : Sum → List Token → List Token
  sum_tokens (product p) rest = product_tokens p rest
  sum_tokens (sum e o p) rest = sum_tokens e ((additive_char o, none) ∷ product_tokens p rest)

  pub product_tokens : Product → List Token → List Token
  product_tokens (atom a) rest = atom_tokens a rest
  product_tokens (prod p o a) rest =
      product_tokens p ((multiplicative_char o, none) ∷ atom_tokens a rest)

  pub atom_tokens : Atom → List Token → List Token
  atom_tokens (integer n) rest = (integer_token, some (pos n)) ∷ rest
  atom_tokens (variable i) rest = (variable_token, some (pos i)) ∷ rest
  atom_tokens (paren e) rest = (b'(', none) ∷ sum_tokens e ((b')', none) ∷ rest)

abbrev pub statement_tokens : Statement → List Token → List Token
statement_tokens (expr e) rest = sum_tokens e rest
statement_tokens (assign i e) rest =
    (variable_token, some (pos i)) ∷ (b'=', none) ∷ sum_tokens e rest

abbrev pub program_tokens : List Statement → List Token
program_tokens [] = []
program_tokens (s ∷ ss) = statement_tokens s ((b'\n', none) ∷ program_tokens ss)

-- What an expression is worth where the variables hold `m`; `none` where C leaves it undefined.
module _ (m : List ℤ) where
  abbrev mutual
    pub sum_value : Sum → Option ℤ
    sum_value (product p) = product_value p
    sum_value (sum e o p) = do a ← sum_value e; b ← product_value p; add_or_sub o a b

    pub product_value : Product → Option ℤ
    product_value (atom a) = atom_value a
    product_value (prod p o a) = do b ← product_value p; c ← atom_value a; mul_or_div o b c

    pub atom_value : Atom → Option ℤ
    atom_value (integer n) = some (pos n)
    atom_value (variable i) = read_sym m (pos i)
    atom_value (paren e) = sum_value e

-- The variables after a statement, and what it prints.
unfoldable pub statement_effect : Statement → List ℤ → Option (List ℤ × List ℤ)
statement_effect (expr e) m = do v ← sum_value m e; some (m, v ∷ [])
statement_effect (assign i e) m = do v ← sum_value m e; m' ← write_sym m (pos i) v; some (m', [])

unfoldable pub program_effect : List Statement → List ℤ → Option (List ℤ × List ℤ)
program_effect [] m = some (m, [])
program_effect (s ∷ ss) m = do
  r ← statement_effect s m
  t ← program_effect ss (r.0)
  some (t.0, r.1 ++ t.1)

-- The entries that the parser's stack needs above the state in which the phrase begins.
abbrev mutual
  pub sum_depth : Sum → ℕ
  sum_depth (product p) = product_depth p
  sum_depth (sum e o p) = max (sum_depth e) (2 + product_depth p)

  pub product_depth : Product → ℕ
  product_depth (atom a) = atom_depth a
  product_depth (prod p o a) = max (product_depth p) (2 + atom_depth a)

  pub atom_depth : Atom → ℕ
  atom_depth (integer n) = 1
  atom_depth (variable i) = 1
  atom_depth (paren e) = max 3 (1 + sum_depth e)

abbrev pub statement_depth : Statement → ℕ
statement_depth (expr e) = sum_depth e
statement_depth (assign i e) = 2 + sum_depth e

abbrev pub program_depth : List Statement → ℕ
program_depth [] = 2
program_depth (s ∷ ss) = max (max 2 (statement_depth s)) (program_depth ss)

pub one-le-atom_depth : (e : Atom) → 1 ≤ atom_depth e
one-le-atom_depth (integer n) = omega arith
one-le-atom_depth (variable i) = omega arith
one-le-atom_depth (paren e) = omega arith

pub one-le-product_depth : (e : Product) → 1 ≤ product_depth e
one-le-product_depth (atom a) = one-le-atom_depth a
one-le-product_depth (prod p o a) = omega arith
