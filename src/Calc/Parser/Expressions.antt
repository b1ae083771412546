-- ===== src/Calc/Parser/Expressions.antt =====
-- The parser reads an expression: it stops past the last token, with the value on the stack.
use network_course.Prelude.{
  ℕ, suc, ◌+◌, ◌≤◌, ◌<◌, ◌≡◌, Bool, Option, none, some, List, ◌∷◌, length, arith, >>=-eq-some,
}
use mathlib.Core.Option.{some-injective}
use network_course.Prelude.Int.{ℤ, pos}
use network_course.Calc.Grammar.{
  Sum, Product, Atom, product, sum, atom, prod, integer, variable, paren, sum_tokens,
  product_tokens, atom_tokens, sum_value, product_value, atom_value, sum_depth, product_depth,
  atom_depth, one-le-atom_depth, one-le-product_depth,
}
use network_course.Calc.State.{Token, Stack, Parser, maxdepth, read_sym}
use network_course.Calc.Parser.Reach.{GivesStacks, Hop, Reaches, Reaches-step, Reaches-trans}
use network_course.Calc.Parser.Phrases.{
  Mark, add, mul, close, code, Start, bracket, after_add, after_mul, start, landing, at, Ahead,
  unread, peeked, facing, shift_integer, shift_variable, shift_open, shift_close, reduce_integer,
  reduce_paren,
}
use network_course.Calc.Parser.Operators.{
  BeginsSum, BeginsProduct, BeginsSum-BeginsProduct, EndsProduct, ahead_of_variable,
  reduce_variable, shift_add, shift_mul, reduce_mul, reduce_add,
}

module _ (malloc : ℕ → Bool) (enough : GivesStacks malloc) (m out : List ℤ) where
  -- From `p` the parser comes to stack `st`, with token `k` next.
  abbrev pub Lands : Parser → Stack → Mark → List Token → Type 0
  Lands p st k rest = (a : Ahead) × (l : ℤ) × Reaches malloc p (facing m out st a l k rest)

  Lands-Hop :
      {p q : Parser} {st : Stack} {k : Mark} {rest : List Token}
      → Hop p q
      → length p.stack < maxdepth
      → length q.stack ≤ suc (length p.stack)
      → Lands q st k rest
      → Lands p st k rest
  Lands-Hop e h j (a, l, s) = (a, l, Reaches-trans malloc (Reaches-step malloc enough e h j) s)

  Lands-last :
      {p : Parser} {st : Stack} (a : Ahead) (l : ℤ) {k : Mark} {rest : List Token}
      → Hop p (facing m out st a l k rest)
      → length p.stack < maxdepth
      → length st ≤ suc (length p.stack)
      → Lands p st k rest
  Lands-last a l e h j = (a, l, Reaches-step malloc enough e h j)

  -- An expression that begins in state `start s`, over `st`.
  abbrev pub begun : Start → Option ℤ → Stack → Stack
  begun s v st = (start s, v) ∷ st

  abbrev pub ended : Start → ℤ → Option ℤ → Stack → Stack
  ended s x v st = (landing s, some x) ∷ (start s, v) ∷ st

  integer_lem :
      (n : ℕ) (s : Start) (v : Option ℤ) (st : Stack) (t : ℕ) (l : ℤ) (k : Mark) (rest : List Token)
      → length st + 2 < maxdepth
      → Lands
          (at m out (begun s v st) none t l (atom_tokens (integer n) ((code k, none) ∷ rest)))
          (ended s (pos n) v st)
          k
          rest
  integer_lem n s v st t l k rest h =
      Lands-Hop (shift_integer m out s v st n t l _) (omega arith) (omega arith) (
        Lands-last (unread 3) (pos n) (reduce_integer m out s (some (pos n)) v st none 3 (pos n) _)
          (omega arith) (omega arith))

  variable_lem :
      (i : ℕ) (s : Start) (v : Option ℤ) (st : Stack) (t : ℕ) (l : ℤ) (k : Mark) (rest : List Token)
      (x : ℤ)
      → read_sym m (pos i) ≡ some x
      → length st + 2 < maxdepth
      → Lands
          (at m out (begun s v st) none t l (atom_tokens (variable i) ((code k, none) ∷ rest)))
          (ended s x v st)
          k
          rest
  variable_lem i s v st t l k rest x e h =
      Lands-Hop (shift_variable m out s v st i t l _) (omega arith) (omega arith) (
        Lands-last (ahead_of_variable s 4) (pos i)
          (reduce_variable m out s v st i 4 x (pos i) k rest e) (omega arith) (omega arith))

  Lands-bind :
      {p : Parser} {st st' : Stack} {k k' : Mark} {rest rest' : List Token}
      → Lands p st k rest
      → ((a : Ahead) (l : ℤ) → Lands (facing m out st a l k rest) st' k' rest')
      → Lands p st' k' rest'
  Lands-bind (a, l, r) f = let (a', l', s) = f a l in (a', l', Reaches-trans malloc r s)

  -- After the expression in brackets comes the bracket, and the atom's reduction.
  close_paren :
      (s : Start) (x : ℤ) (v w : Option ℤ) (st : Stack) (a : Ahead) (l : ℤ) (k : Mark)
      (rest : List Token)
      → length st + 4 < maxdepth
      → Lands
          (facing m out (ended bracket x w (begun s v st)) a l close ((code k, none) ∷ rest))
          (ended s x v st)
          k
          rest
  close_paren s x v w st a l k rest h =
      Lands-Hop (shift_close m out (some x) w (begun s v st) a l _) (omega arith) (omega arith) (
        Lands-last (unread 12) l (reduce_paren m out s (some x) v w (some l) st none 12 l _)
          (omega arith) (omega arith))

  mutual
    pub atom_lem :
        (e : Atom) (s : Start) (v : Option ℤ) (st : Stack) (t : ℕ) (l : ℤ) (k : Mark)
        (rest : List Token) (x : ℤ)
        → atom_value m e ≡ some x
        → length st + 1 + atom_depth e < maxdepth
        → Lands
            (at m out (begun s v st) none t l (atom_tokens e ((code k, none) ∷ rest)))
            (ended s x v st)
            k
            rest
    atom_lem (integer n) s v st t l k rest x e h =
        rw (← some-injective (pos n) x e) (integer_lem n s v st t l k rest (omega arith))
    atom_lem (variable i) s v st t l k rest x e h =
        variable_lem i s v st t l k rest x e (omega arith)
    atom_lem (paren b) s v st t l k rest x e h =
        Lands-Hop (shift_open m out s v st t l _) (omega arith) (omega arith) (
          Lands-bind
            (sum_lem b bracket (some l) (begun s v st) 11 l close _ x tt tt e (omega arith))
            (λ a l'. close_paren s x v (some l) st a l' k rest (omega arith)))

    pub product_lem :
        (e : Product) (s : Start) (v : Option ℤ) (st : Stack) (t : ℕ) (l : ℤ) (k : Mark)
        (rest : List Token) (x : ℤ)
        → BeginsProduct s
        → product_value m e ≡ some x
        → length st + 1 + product_depth e < maxdepth
        → Lands
            (at m out (begun s v st) none t l (product_tokens e ((code k, none) ∷ rest)))
            (ended s x v st)
            k
            rest
    product_lem (atom a) s v st t l k rest x b e h = atom_lem a s v st t l k rest x e h
    product_lem (prod p o q) s v st t l k rest x b e h =
        let (y, ey, e') = >>=-eq-some (product_value m p) _ e in
        let (y', eq, e'') = >>=-eq-some (atom_value m q) _ e' in
        Lands-bind (product_lem p s v st t l (mul o) _ y b ey (omega arith)) (λ a l'.
          Lands-Hop (shift_mul m out s o (some y) (begun s v st) a l' _ b) (omega arith)
            (omega arith)
            (Lands-bind
              (atom_lem q (after_mul o) (some l') (ended s y v st) _ l' k rest y' eq (omega arith))
              (λ a' l''.
                Lands-last a' l'' (reduce_mul m out s o y y' x v (some l') st _ _ l'' _ b e'')
                  (omega (arith, one-le-atom_depth q)) (omega arith))))

    pub sum_lem :
        (e : Sum) (s : Start) (v : Option ℤ) (st : Stack) (t : ℕ) (l : ℤ) (k : Mark)
        (rest : List Token) (x : ℤ)
        → BeginsSum s
        → EndsProduct k
        → sum_value m e ≡ some x
        → length st + 1 + sum_depth e < maxdepth
        → Lands
            (at m out (begun s v st) none t l (sum_tokens e ((code k, none) ∷ rest)))
            (ended s x v st)
            k
            rest
    sum_lem (product p) s v st t l k rest x b j e h =
        product_lem p s v st t l k rest x (BeginsSum-BeginsProduct s b) e h
    sum_lem (sum d o p) s v st t l k rest x b j e h =
        let (y, ey, e') = >>=-eq-some (sum_value m d) _ e in
        let (y', eq, e'') = >>=-eq-some (product_value m p) _ e' in
        Lands-bind (sum_lem d s v st t l (add o) _ y b tt ey (omega arith)) (λ a l'.
          Lands-Hop (shift_add m out s o (some y) (begun s v st) a l' _ b) (omega arith)
            (omega arith)
            (Lands-bind
              (product_lem p (after_add o) (some l') (ended s y v st) _ l' k rest y' tt eq
                (omega arith))
              (λ a' l''.
                Lands-last peeked l''
                  (reduce_add m out s o y y' x v (some l') st a' l'' k rest b j e'')
                  (omega (arith, one-le-product_depth p)) (omega arith))))
