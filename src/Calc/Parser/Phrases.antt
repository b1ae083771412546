-- ===== src/Calc/Parser/Phrases.antt =====
-- Where the parser stands within a line, and its steps there: the automaton of calc.tab.c state by
-- state.
use network_course.Prelude.{ℕ, refl, Option, none, some, List, [], ◌∷◌}
use network_course.Prelude.Int.{ℤ, pos}
use network_course.Calc.Tables.{translate}
use network_course.Calc.Grammar.{
  Additive, plus, minus, Multiplicative, times, over, additive_char, multiplicative_char,
}
use network_course.Calc.State.{Token, Stack, Parser}
use network_course.Calc.Parser.{backup}
use network_course.Calc.Parser.Reach.{Hop}

-- The tokens that may follow an expression.
pub data Mark : Type 0 where
  add : Additive → Mark
  mul : Multiplicative → Mark
  close newline : Mark

abbrev pub code : Mark → ℕ
code (add o) = additive_char o
code (mul o) = multiplicative_char o
code close = b')'
code newline = b'\n'

-- The states in which an expression, a product or an atom begins.
pub data Start : Type 0 where
  line bracket equals : Start
  after_add : Additive → Start
  after_mul : Multiplicative → Start

abbrev pub start : Start → ℕ
start line = 1
start bracket = 5
start equals = 8
start (after_add plus) = 12
start (after_add minus) = 13
start (after_mul times) = 14
start (after_mul over) = 15

-- The state after an `expr` that began there.
abbrev pub landing : Start → ℕ
landing line = 7
landing bracket = 10
landing equals = 16
landing (after_add plus) = 18
landing (after_add minus) = 19
landing (after_mul times) = 20
landing (after_mul over) = 21

-- The state after a VARIABLE that began there.
abbrev pub variable_state : Start → ℕ
variable_state line = 4
variable_state _ = 9

module _ (m out : List ℤ) where
  -- No error has occurred; the variables hold `m`, and `out` was printed.
  abbrev pub at : Stack → Option ℕ → ℕ → ℤ → List Token → Parser
  at st c t l ts = record {
    stack = st;
    stacksize = 0;
    errstatus = 0;
    nerrs = 0;
    yychar = c;
    yytoken = t;
    yylval = l;
    sym = m;
    out = out;
    complaints = [];
    input = ts;
  }

-- Whether the look-ahead token was read already.
pub data Ahead : Type 0 where
  unread : ℕ → Ahead
  peeked : Ahead

abbrev pub ahead_char : Ahead → Mark → Option ℕ
ahead_char (unread t) k = none
ahead_char peeked k = some (code k)

abbrev pub ahead_token : Ahead → Mark → ℕ
ahead_token (unread t) k = t
ahead_token peeked k = translate (code k)

abbrev pub ahead_input : Ahead → Mark → List Token → List Token
ahead_input (unread t) k rest = (code k, none) ∷ rest
ahead_input peeked k rest = rest

module _ (m out : List ℤ) where
  abbrev pub facing : Stack → Ahead → ℤ → Mark → List Token → Parser
  facing st a l k rest = at m out st (ahead_char a k) (ahead_token a k) l (ahead_input a k rest)

  -- Every atom begins by a shift.
  pub shift_integer :
      (s : Start) (v : Option ℤ) (st : Stack) (n t : ℕ) (l : ℤ) (rest : List Token)
      → Hop
          (at m out ((start s, v) ∷ st) none t l ((258, some (pos n)) ∷ rest))
          (at m out ((3, some (pos n)) ∷ (start s, v) ∷ st) none 3 (pos n) rest)
  unfolding backup
  shift_integer line v st n t l rest = record { goes = λ z. refl }
  shift_integer (after_add plus) v st n t l rest = record { goes = λ z. refl }
  shift_integer (after_mul times) v st n t l rest = record { goes = λ z. refl }
  shift_integer _ v st n t l rest = record { goes = λ z. refl }

  pub shift_variable :
      (s : Start) (v : Option ℤ) (st : Stack) (i t : ℕ) (l : ℤ) (rest : List Token)
      → Hop
          (at m out ((start s, v) ∷ st) none t l ((259, some (pos i)) ∷ rest))
          (at m out ((variable_state s, some (pos i)) ∷ (start s, v) ∷ st) none 4 (pos i) rest)
  unfolding backup
  shift_variable line v st i t l rest = record { goes = λ z. refl }
  shift_variable (after_add plus) v st i t l rest = record { goes = λ z. refl }
  shift_variable (after_mul times) v st i t l rest = record { goes = λ z. refl }
  shift_variable _ v st i t l rest = record { goes = λ z. refl }

  pub shift_open :
      (s : Start) (v : Option ℤ) (st : Stack) (t : ℕ) (l : ℤ) (rest : List Token)
      → Hop
          (at m out ((start s, v) ∷ st) none t l ((b'(', none) ∷ rest))
          (at m out ((5, some l) ∷ (start s, v) ∷ st) none 11 l rest)
  unfolding backup
  shift_open line v st t l rest = record { goes = λ z. refl }
  shift_open (after_add plus) v st t l rest = record { goes = λ z. refl }
  shift_open (after_mul times) v st t l rest = record { goes = λ z. refl }
  shift_open _ v st t l rest = record { goes = λ z. refl }

  pub shift_close :
      (v w : Option ℤ) (st : Stack) (a : Ahead) (l : ℤ) (rest : List Token)
      → Hop
          (facing ((10, v) ∷ (5, w) ∷ st) a l close rest)
          (at m out ((17, some l) ∷ (10, v) ∷ (5, w) ∷ st) none 12 l rest)
  unfolding backup
  shift_close v w st (unread t) l rest = record { goes = λ z. refl }
  shift_close v w st peeked l rest = record { goes = λ z. refl }

  -- Atoms are reduced by default, but for a variable at the start of a line, which may be assigned.
  pub reduce_integer :
      (s : Start) (u v : Option ℤ) (st : Stack) (c : Option ℕ) (t : ℕ) (l : ℤ) (ts : List Token)
      → Hop
          (at m out ((3, u) ∷ (start s, v) ∷ st) c t l ts)
          (at m out ((landing s, u) ∷ (start s, v) ∷ st) c t l ts)
  unfolding backup
  reduce_integer line u v st c t l ts = record { goes = λ z. refl }
  reduce_integer (after_add plus) u v st c t l ts = record { goes = λ z. refl }
  reduce_integer (after_mul times) u v st c t l ts = record { goes = λ z. refl }
  reduce_integer _ u v st c t l ts = record { goes = λ z. refl }

  pub reduce_paren :
      (s : Start) (u v w x : Option ℤ) (st : Stack) (c : Option ℕ) (t : ℕ) (l : ℤ) (ts : List Token)
      → Hop
          (at m out ((17, x) ∷ (10, u) ∷ (5, w) ∷ (start s, v) ∷ st) c t l ts)
          (at m out ((landing s, u) ∷ (start s, v) ∷ st) c t l ts)
  unfolding backup
  reduce_paren line u v w x st c t l ts = record { goes = λ z. refl }
  reduce_paren (after_add plus) u v w x st c t l ts = record { goes = λ z. refl }
  reduce_paren (after_mul times) u v w x st c t l ts = record { goes = λ z. refl }
  reduce_paren _ u v w x st c t l ts = record { goes = λ z. refl }
