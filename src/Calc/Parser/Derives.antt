-- ===== src/Calc/Parser/Derives.antt =====
-- The token strings that the rules of packetdrill/calc.y give, however they are grouped: what two phrases and an
-- operator make is a phrase again.
use network_course.Prelude.{
  ℕ, ◌≤◌, ◌<◌, ◌≡◌, refl, ap, ◌∙◌, none, some, List, [], ◌∷◌, ◌++◌, get_or, arith,
}
use network_course.Prelude.Int.{pos}
use network_course.Calc.State.{Token}
use network_course.Calc.Grammar.{
  Additive, Multiplicative, additive_char, multiplicative_char, Sum, product, sum, Product, atom,
  prod, Atom, integer, variable, paren, Statement, expr, assign, integer_token, variable_token,
  sum_tokens, product_tokens, atom_tokens, statement_tokens, program_tokens,
}

-- The character of an operator's symbol.
abbrev pub symbol_char : ℕ → ℕ
symbol_char x =
    get_or (0 ∷ 0 ∷ 0 ∷ 0 ∷ 0 ∷ b'+' ∷ b'-' ∷ b'*' ∷ b'/' ∷ b'\n' ∷ b'=' ∷ b'(' ∷ b')' ∷ []) x 0

-- The tokens of a symbol, as the scanner returns them.
pub data IsToken (x : ℕ) (t : Token) : Type 0 where
  is_integer : (n : ℕ) → x ≡ 3 → t ≡ (integer_token, some (pos n)) → IsToken x t
  is_variable : (i : ℕ) → x ≡ 4 → t ≡ (variable_token, some (pos i)) → IsToken x t
  is_operator : 5 ≤ x → x < 13 → t ≡ (symbol_char x, none) → IsToken x t

-- The token strings of a symbol.
pub data Derives (x : ℕ) (us : List Token) : Type 0 where
  of_token : (t : Token) → IsToken x t → us ≡ t ∷ [] → Derives x us
  of_program : (ss : List Statement) → x ≡ 14 → us ≡ program_tokens ss → Derives x us
  of_statement : (s : Statement) → x ≡ 15 → us ≡ statement_tokens s [] → Derives x us
  of_sum : (e : Sum) → x ≡ 16 → us ≡ sum_tokens e [] → Derives x us

-- Those of some symbols, the last one first.
pub data DerivesAll : List ℕ → List Token → Type 0 where
  all_nil : DerivesAll [] []
  all_cons :
      (x : ℕ) (xs : List ℕ) (us vs : List Token)
      → DerivesAll xs us
      → Derives x vs
      → DerivesAll (x ∷ xs) (us ++ vs)

mutual
  pub sum_tokens-append :
      (e : Sum) (us vs : List Token) → sum_tokens e us ++ vs ≡ sum_tokens e (us ++ vs)
  sum_tokens-append (product p) us vs = product_tokens-append p us vs
  sum_tokens-append (sum e o p) us vs =
      sum_tokens-append e ((additive_char o, none) ∷ product_tokens p us) vs
      ∙ ap (λ ts. sum_tokens e ((additive_char o, none) ∷ ts)) (product_tokens-append p us vs)

  product_tokens-append :
      (p : Product) (us vs : List Token) → product_tokens p us ++ vs ≡ product_tokens p (us ++ vs)
  product_tokens-append (atom a) us vs = atom_tokens-append a us vs
  product_tokens-append (prod p o a) us vs =
      product_tokens-append p ((multiplicative_char o, none) ∷ atom_tokens a us) vs
      ∙ ap (λ ts. product_tokens p ((multiplicative_char o, none) ∷ ts))
          (atom_tokens-append a us vs)

  atom_tokens-append :
      (a : Atom) (us vs : List Token) → atom_tokens a us ++ vs ≡ atom_tokens a (us ++ vs)
  atom_tokens-append (integer n) us vs = refl
  atom_tokens-append (variable i) us vs = refl
  atom_tokens-append (paren e) us vs =
      ap (◌∷◌ (b'(', none)) (sum_tokens-append e ((b')', none) ∷ us) vs)

pub statement_tokens-append :
    (s : Statement) (us vs : List Token)
    → statement_tokens s us ++ vs ≡ statement_tokens s (us ++ vs)
statement_tokens-append (expr e) us vs = sum_tokens-append e us vs
statement_tokens-append (assign i e) us vs =
    ap (λ ts. (variable_token, some (pos i)) ∷ (b'=', none) ∷ ts) (sum_tokens-append e us vs)

pub program_tokens-snoc :
    (ss : List Statement) (s : Statement)
    → program_tokens ss ++ statement_tokens s ((b'\n', none) ∷ []) ≡ program_tokens (ss ++ s ∷ [])
program_tokens-snoc [] s = refl
program_tokens-snoc (r ∷ ss) s =
    statement_tokens-append r ((b'\n', none) ∷ program_tokens ss)
      (statement_tokens s ((b'\n', none) ∷ []))
    ∙ ap (λ ts. statement_tokens r ((b'\n', none) ∷ ts)) (program_tokens-snoc ss s)

-- Two phrases and an operator, grouped as the types of the grammar want it.
abbrev pub add_sum : Sum → Additive → Sum → Sum
add_sum d o (product p) = sum d o p
add_sum d o (sum e r p) = sum (add_sum d o e) r p

abbrev pub mul_product : Product → Multiplicative → Product → Product
mul_product q o (atom a) = prod q o a
mul_product q o (prod p r a) = prod (mul_product q o p) r a

abbrev pub mul_last : Sum → Multiplicative → Product → Sum
mul_last (product q) o p = product (mul_product q o p)
mul_last (sum d r q) o p = sum d r (mul_product q o p)

abbrev pub mul_sum : Sum → Multiplicative → Sum → Sum
mul_sum d o (product p) = mul_last d o p
mul_sum d o (sum e r p) = sum (mul_sum d o e) r p

pub add_sum-tokens :
    (d : Sum) (o : Additive) (e : Sum) (us : List Token)
    → sum_tokens (add_sum d o e) us ≡ sum_tokens d ((additive_char o, none) ∷ sum_tokens e us)
add_sum-tokens d o (product p) us = refl
add_sum-tokens d o (sum e r p) us =
    add_sum-tokens d o e ((additive_char r, none) ∷ product_tokens p us)

mul_product-tokens :
    (q : Product) (o : Multiplicative) (p : Product) (us : List Token)
    → product_tokens (mul_product q o p) us
      ≡ product_tokens q ((multiplicative_char o, none) ∷ product_tokens p us)
mul_product-tokens q o (atom a) us = refl
mul_product-tokens q o (prod p r a) us =
    mul_product-tokens q o p ((multiplicative_char r, none) ∷ atom_tokens a us)

mul_last-tokens :
    (d : Sum) (o : Multiplicative) (p : Product) (us : List Token)
    → sum_tokens (mul_last d o p) us
      ≡ sum_tokens d ((multiplicative_char o, none) ∷ product_tokens p us)
mul_last-tokens (product q) o p us = mul_product-tokens q o p us
mul_last-tokens (sum d r q) o p us =
    ap (λ ts. sum_tokens d ((additive_char r, none) ∷ ts)) (mul_product-tokens q o p us)

pub mul_sum-tokens :
    (d : Sum) (o : Multiplicative) (e : Sum) (us : List Token)
    → sum_tokens (mul_sum d o e) us ≡ sum_tokens d ((multiplicative_char o, none) ∷ sum_tokens e us)
mul_sum-tokens d o (product p) us = mul_last-tokens d o p us
mul_sum-tokens d o (sum e r p) us =
    mul_sum-tokens d o e ((additive_char r, none) ∷ product_tokens p us)

-- What a symbol's tokens are.
pub sum_derived :
    (x : ℕ) (us : List Token) → x ≡ 16 → Derives x us → (e : Sum) × (us ≡ sum_tokens e [])
sum_derived x us h (of_sum e k u) = (e, u)
sum_derived x us h (of_token t (is_integer n k w) u) = absurd (omega (arith, h, k))
sum_derived x us h (of_token t (is_variable n k w) u) = absurd (omega (arith, h, k))
sum_derived x us h (of_token t (is_operator l k w) u) = absurd (omega (arith, h, k))
sum_derived x us h (of_program ss k u) = absurd (omega (arith, h, k))
sum_derived x us h (of_statement s k u) = absurd (omega (arith, h, k))

pub statement_derived :
    (x : ℕ) (us : List Token)
    → x ≡ 15
    → Derives x us
    → (s : Statement) × (us ≡ statement_tokens s [])
statement_derived x us h (of_statement s k u) = (s, u)
statement_derived x us h (of_token t (is_integer n k w) u) = absurd (omega (arith, h, k))
statement_derived x us h (of_token t (is_variable n k w) u) = absurd (omega (arith, h, k))
statement_derived x us h (of_token t (is_operator l k w) u) = absurd (omega (arith, h, k))
statement_derived x us h (of_program ss k u) = absurd (omega (arith, h, k))
statement_derived x us h (of_sum s k u) = absurd (omega (arith, h, k))

pub program_derived :
    (x : ℕ) (us : List Token)
    → x ≡ 14
    → Derives x us
    → (ss : List Statement) × (us ≡ program_tokens ss)
program_derived x us h (of_program ss k u) = (ss, u)
program_derived x us h (of_token t (is_integer n k w) u) = absurd (omega (arith, h, k))
program_derived x us h (of_token t (is_variable n k w) u) = absurd (omega (arith, h, k))
program_derived x us h (of_token t (is_operator l k w) u) = absurd (omega (arith, h, k))
program_derived x us h (of_statement ss k u) = absurd (omega (arith, h, k))
program_derived x us h (of_sum s k u) = absurd (omega (arith, h, k))

token_derived :
    (x : ℕ) (us : List Token) → x < 13 → Derives x us → (t : Token) × IsToken x t × (us ≡ t ∷ [])
token_derived x us h (of_token t i u) = (t, i, u)
token_derived x us h (of_program ss k u) = absurd (omega (arith, h, k))
token_derived x us h (of_statement ss k u) = absurd (omega (arith, h, k))
token_derived x us h (of_sum s k u) = absurd (omega (arith, h, k))

pub operator_derived :
    (x : ℕ) (us : List Token) → 5 ≤ x → x < 13 → Derives x us → us ≡ (symbol_char x, none) ∷ []
operator_derived x us l h d = by_token (token_derived x us h d)
  where
    by_token : ((t : Token) × IsToken x t × (us ≡ t ∷ [])) → us ≡ (symbol_char x, none) ∷ []
    by_token (t, is_integer n k w, u) = absurd (omega (arith, l, k))
    by_token (t, is_variable n k w, u) = absurd (omega (arith, l, k))
    by_token (t, is_operator a b w, u) = u ∙ ap (λ t. t ∷ []) w

pub integer_derived :
    (us : List Token) → Derives 3 us → (n : ℕ) × (us ≡ (integer_token, some (pos n)) ∷ [])
integer_derived us d = by_token (token_derived 3 us (omega arith) d)
  where
    by_token :
        ((t : Token) × IsToken 3 t × (us ≡ t ∷ []))
        → (n : ℕ) × (us ≡ (integer_token, some (pos n)) ∷ [])
    by_token (t, is_integer n k w, u) = (n, u ∙ ap (λ t. t ∷ []) w)
    by_token (t, is_variable n k w, u) = absurd (omega (arith, k))
    by_token (t, is_operator a b w, u) = absurd (omega (arith, a))

pub variable_derived :
    (us : List Token) → Derives 4 us → (i : ℕ) × (us ≡ (variable_token, some (pos i)) ∷ [])
variable_derived us d = by_token (token_derived 4 us (omega arith) d)
  where
    by_token :
        ((t : Token) × IsToken 4 t × (us ≡ t ∷ []))
        → (n : ℕ) × (us ≡ (variable_token, some (pos n)) ∷ [])
    by_token (t, is_variable n k w, u) = (n, u ∙ ap (λ t. t ∷ []) w)
    by_token (t, is_integer n k w, u) = absurd (omega (arith, k))
    by_token (t, is_operator a b w, u) = absurd (omega (arith, a))
