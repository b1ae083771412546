-- ===== src/Calc/Parser/Operators.antt =====
-- The parser's steps at variables and operators: shifts, and reductions by their rules.
use network_course.Prelude.{ℕ, ◌≡◌, refl, ap, ◌∙◌, Option, none, some, List, ◌∷◌}
use network_course.Prelude.Int.{ℤ, pos}
use network_course.Calc.Tables.{translate}
use network_course.Calc.Grammar.{
  Additive, plus, minus, Multiplicative, times, over, add_or_sub, mul_or_div, additive_char,
  multiplicative_char,
}
use network_course.Calc.State.{Token, Stack, running, read_sym, read_token}
use network_course.Calc.Reduce.{reduce}
use network_course.Calc.Parser.{backup, decide}
use network_course.Calc.Parser.Reach.{resize, Hop}
use network_course.Calc.Parser.Phrases.{
  Mark, add, mul, close, newline, code, Start, line, bracket, equals, after_add, after_mul, start,
  landing, variable_state, at, Ahead, unread, peeked, facing,
}

-- Where a sum may begin, and where a product may.
abbrev pub BeginsSum : Start → Type 0
BeginsSum (after_add o) = ⊥
BeginsSum (after_mul o) = ⊥
BeginsSum _ = Unit

abbrev pub BeginsProduct : Start → Type 0
BeginsProduct (after_mul o) = ⊥
BeginsProduct _ = Unit

pub BeginsSum-BeginsProduct : (s : Start) → BeginsSum s → BeginsProduct s
BeginsSum-BeginsProduct line h = tt
BeginsSum-BeginsProduct bracket h = tt
BeginsSum-BeginsProduct equals h = tt
BeginsSum-BeginsProduct (after_add o) h = absurd h
BeginsSum-BeginsProduct (after_mul o) h = h

-- The tokens at which a sum's last product is complete.
abbrev pub EndsProduct : Mark → Type 0
EndsProduct (mul o) = ⊥
EndsProduct _ = Unit

abbrev pub ahead_of_variable : Start → ℕ → Ahead
ahead_of_variable line t = peeked
ahead_of_variable _ t = unread t

-- The rules `expr '+' expr` and `expr '-' expr`.
abbrev additive_rule : Additive → ℕ
additive_rule plus = 8
additive_rule minus = 9

module _ (m out : List ℤ) where
  pub reduce_variable :
      (s : Start) (v : Option ℤ) (st : Stack) (i t : ℕ) (x l : ℤ) (k : Mark) (rest : List Token)
      → read_sym m (pos i) ≡ some x
      → Hop
          (facing m out ((variable_state s, some (pos i)) ∷ (start s, v) ∷ st) (unread t) l k rest)
          (facing m out ((landing s, some x) ∷ (start s, v) ∷ st) (ahead_of_variable s t) l k rest)
  unfolding backup
  reduce_variable line v st i t x l (add plus) rest e = record { goes = λ z. rw (e, read_sym) }
  reduce_variable line v st i t x l (add minus) rest e = record { goes = λ z. rw (e, read_sym) }
  reduce_variable line v st i t x l (mul times) rest e = record { goes = λ z. rw (e, read_sym) }
  reduce_variable line v st i t x l (mul over) rest e = record { goes = λ z. rw (e, read_sym) }
  reduce_variable line v st i t x l close rest e = record { goes = λ z. rw (e, read_sym) }
  reduce_variable line v st i t x l newline rest e = record { goes = λ z. rw (e, read_sym) }
  reduce_variable bracket v st i t x l k rest e = record { goes = λ z. rw (e, read_sym) }
  reduce_variable equals v st i t x l k rest e = record { goes = λ z. rw (e, read_sym) }
  reduce_variable (after_add plus) v st i t x l k rest e = record { goes = λ z. rw (e, read_sym) }
  reduce_variable (after_add minus) v st i t x l k rest e = record { goes = λ z. rw (e, read_sym) }
  reduce_variable (after_mul times) v st i t x l k rest e = record { goes = λ z. rw (e, read_sym) }
  reduce_variable (after_mul over) v st i t x l k rest e = record { goes = λ z. rw (e, read_sym) }

  -- After an expression the parser looks at the next token, and acts the same whether or not it was
  -- read before.
  read_token-facing :
      (st : Stack) (a : Ahead) (l : ℤ) (k : Mark) (rest : List Token) (z : ℕ)
      → read_token (resize z (facing m out st a l k rest))
        ≡ resize z (facing m out st peeked l k rest)
  unfolding read_token
  read_token-facing st (unread t) l (add plus) rest z = refl
  read_token-facing st (unread t) l (add minus) rest z = refl
  read_token-facing st (unread t) l (mul times) rest z = refl
  read_token-facing st (unread t) l (mul over) rest z = refl
  read_token-facing st (unread t) l close rest z = refl
  read_token-facing st (unread t) l newline rest z = refl
  read_token-facing st peeked l (add plus) rest z = refl
  read_token-facing st peeked l (add minus) rest z = refl
  read_token-facing st peeked l (mul times) rest z = refl
  read_token-facing st peeked l (mul over) rest z = refl
  read_token-facing st peeked l close rest z = refl
  read_token-facing st peeked l newline rest z = refl

  backup-landing :
      (s : Start) (u : Option ℤ) (st : Stack) (a : Ahead) (l : ℤ) (k : Mark) (rest : List Token)
      (z : ℕ)
      → BeginsProduct s
      → let p = resize z (facing m out ((landing s, u) ∷ st) a l k rest) in
        backup p ≡ decide (read_token p)
  unfolding backup
  backup-landing line u st (unread t) l k rest z h = refl
  backup-landing line u st peeked l k rest z h = refl
  backup-landing bracket u st (unread t) l k rest z h = refl
  backup-landing bracket u st peeked l k rest z h = refl
  backup-landing equals u st (unread t) l k rest z h = refl
  backup-landing equals u st peeked l k rest z h = refl
  backup-landing (after_add plus) u st (unread t) l k rest z h = refl
  backup-landing (after_add plus) u st peeked l k rest z h = refl
  backup-landing (after_add minus) u st (unread t) l k rest z h = refl
  backup-landing (after_add minus) u st peeked l k rest z h = refl
  backup-landing (after_mul times) u st a l k rest z h = absurd h
  backup-landing (after_mul over) u st a l k rest z h = absurd h

  pub backup-decide :
      (s : Start) (u : Option ℤ) (st : Stack) (a : Ahead) (l : ℤ) (k : Mark) (rest : List Token)
      (z : ℕ)
      → BeginsProduct s
      → backup (resize z (facing m out ((landing s, u) ∷ st) a l k rest))
        ≡ decide (resize z (facing m out ((landing s, u) ∷ st) peeked l k rest))
  backup-decide s u st a l k rest z h =
      backup-landing s u st a l k rest z h
      ∙ ap decide (read_token-facing ((landing s, u) ∷ st) a l k rest z)

  decide-add :
      (s : Start) (o : Additive) (u : Option ℤ) (st : Stack) (l : ℤ) (rest : List Token) (z : ℕ)
      → BeginsSum s
      → decide (resize z (facing m out ((landing s, u) ∷ st) peeked l (add o) rest))
        ≡ running (
            resize z (
              at m out
                ((start (after_add o), some l) ∷ (landing s, u) ∷ st)
                none
                (translate (additive_char o))
                l
                rest))
  unfolding decide translate
  decide-add line plus u st l rest z h = refl
  decide-add line minus u st l rest z h = refl
  decide-add bracket plus u st l rest z h = refl
  decide-add bracket minus u st l rest z h = refl
  decide-add equals plus u st l rest z h = refl
  decide-add equals minus u st l rest z h = refl
  decide-add (after_add _) o u st l rest z h = absurd h
  decide-add (after_mul _) o u st l rest z h = absurd h

  pub shift_add :
      (s : Start) (o : Additive) (u : Option ℤ) (st : Stack) (a : Ahead) (l : ℤ) (rest : List Token)
      → BeginsSum s
      → Hop (facing m out ((landing s, u) ∷ st) a l (add o) rest) (
          at m out
            ((start (after_add o), some l) ∷ (landing s, u) ∷ st)
            none
            (translate (additive_char o))
            l
            rest)
  shift_add s o u st a l rest h = record {
    goes = λ z.
        backup-decide s u st a l (add o) rest z (BeginsSum-BeginsProduct s h)
        ∙ decide-add s o u st l rest z h;
  }

  decide-mul :
      (s : Start) (o : Multiplicative) (u : Option ℤ) (st : Stack) (l : ℤ) (rest : List Token)
      (z : ℕ)
      → BeginsProduct s
      → decide (resize z (facing m out ((landing s, u) ∷ st) peeked l (mul o) rest))
        ≡ running (
            resize z (
              at m out
                ((start (after_mul o), some l) ∷ (landing s, u) ∷ st)
                none
                (translate (multiplicative_char o))
                l
                rest))
  unfolding decide translate
  decide-mul line times u st l rest z h = refl
  decide-mul line over u st l rest z h = refl
  decide-mul bracket times u st l rest z h = refl
  decide-mul bracket over u st l rest z h = refl
  decide-mul equals times u st l rest z h = refl
  decide-mul equals over u st l rest z h = refl
  decide-mul (after_add plus) times u st l rest z h = refl
  decide-mul (after_add plus) over u st l rest z h = refl
  decide-mul (after_add minus) times u st l rest z h = refl
  decide-mul (after_add minus) over u st l rest z h = refl
  decide-mul (after_mul _) o u st l rest z h = absurd h

  pub shift_mul :
      (s : Start) (o : Multiplicative) (u : Option ℤ) (st : Stack) (a : Ahead) (l : ℤ)
      (rest : List Token)
      → BeginsProduct s
      → Hop (facing m out ((landing s, u) ∷ st) a l (mul o) rest) (
          at m out
            ((start (after_mul o), some l) ∷ (landing s, u) ∷ st)
            none
            (translate (multiplicative_char o))
            l
            rest)
  shift_mul s o u st a l rest h = record {
    goes = λ z. backup-decide s u st a l (mul o) rest z h ∙ decide-mul s o u st l rest z h;
  }

  -- A product is reduced at once.
  pub reduce_mul :
      (s : Start) (o : Multiplicative) (a b x : ℤ) (v w : Option ℤ) (st : Stack) (c : Option ℕ)
      (t : ℕ) (l : ℤ) (ts : List Token)
      → BeginsProduct s
      → mul_or_div o a b ≡ some x
      → Hop
          (at m out
            ((landing (after_mul o), some b)
              ∷ (start (after_mul o), w)
              ∷ (landing s, some a)
              ∷ (start s, v)
              ∷ st)
            c
            t
            l
            ts)
          (at m out ((landing s, some x) ∷ (start s, v) ∷ st) c t l ts)
  unfolding backup
  reduce_mul line times a b x v w st c t l ts h e = record { goes = λ z. rw (e, reduce) }
  reduce_mul line over a b x v w st c t l ts h e = record { goes = λ z. rw (e, reduce) }
  reduce_mul bracket times a b x v w st c t l ts h e = record { goes = λ z. rw (e, reduce) }
  reduce_mul bracket over a b x v w st c t l ts h e = record { goes = λ z. rw (e, reduce) }
  reduce_mul equals times a b x v w st c t l ts h e = record { goes = λ z. rw (e, reduce) }
  reduce_mul equals over a b x v w st c t l ts h e = record { goes = λ z. rw (e, reduce) }
  reduce_mul (after_add plus) times a b x v w st c t l ts h e = record {
    goes = λ z. rw (e, reduce);
  }
  reduce_mul (after_add plus) over a b x v w st c t l ts h e = record { goes = λ z. rw (e, reduce) }
  reduce_mul (after_add minus) times a b x v w st c t l ts h e = record {
    goes = λ z. rw (e, reduce);
  }
  reduce_mul (after_add minus) over a b x v w st c t l ts h e = record {
    goes = λ z. rw (e, reduce);
  }
  reduce_mul (after_mul _) o a b x v w st c t l ts h e = absurd h

  -- A sum is reduced at a token that cannot extend its last product.
  decide-reduce :
      (o : Additive) (u : Option ℤ) (st : Stack) (l : ℤ) (k : Mark) (rest : List Token) (z : ℕ)
      → EndsProduct k
      → let p = resize z (facing m out ((landing (after_add o), u) ∷ st) peeked l k rest) in
        decide p ≡ reduce (additive_rule o) p
  unfolding decide translate
  decide-reduce plus u st l (add plus) rest z h = refl
  decide-reduce plus u st l (add minus) rest z h = refl
  decide-reduce plus u st l close rest z h = refl
  decide-reduce plus u st l newline rest z h = refl
  decide-reduce plus u st l (mul _) rest z h = absurd h
  decide-reduce minus u st l (add plus) rest z h = refl
  decide-reduce minus u st l (add minus) rest z h = refl
  decide-reduce minus u st l close rest z h = refl
  decide-reduce minus u st l newline rest z h = refl
  decide-reduce minus u st l (mul _) rest z h = absurd h

  reduce-rule :
      (s : Start) (o : Additive) (a b x : ℤ) (v w : Option ℤ) (st : Stack) (c : Option ℕ) (t : ℕ)
      (l : ℤ) (ts : List Token) (z : ℕ)
      → BeginsSum s
      → add_or_sub o a b ≡ some x
      → reduce (additive_rule o) (
          resize z (
            at m out
              ((landing (after_add o), some b)
                ∷ (start (after_add o), w)
                ∷ (landing s, some a)
                ∷ (start s, v)
                ∷ st)
              c
              t
              l
              ts))
        ≡ running (resize z (at m out ((landing s, some x) ∷ (start s, v) ∷ st) c t l ts))
  unfolding reduce
  reduce-rule line plus a b x v w st c t l ts z h e = rw (e, reduce)
  reduce-rule line minus a b x v w st c t l ts z h e = rw (e, reduce)
  reduce-rule bracket plus a b x v w st c t l ts z h e = rw (e, reduce)
  reduce-rule bracket minus a b x v w st c t l ts z h e = rw (e, reduce)
  reduce-rule equals plus a b x v w st c t l ts z h e = rw (e, reduce)
  reduce-rule equals minus a b x v w st c t l ts z h e = rw (e, reduce)
  reduce-rule (after_add _) o a b x v w st c t l ts z h e = absurd h
  reduce-rule (after_mul _) o a b x v w st c t l ts z h e = absurd h

  pub reduce_add :
      (s : Start) (o : Additive) (a b x : ℤ) (v w : Option ℤ) (st : Stack) (c : Ahead) (l : ℤ)
      (k : Mark) (rest : List Token)
      → BeginsSum s
      → EndsProduct k
      → add_or_sub o a b ≡ some x
      → Hop
          (facing m out
            ((landing (after_add o), some b)
              ∷ (start (after_add o), w)
              ∷ (landing s, some a)
              ∷ (start s, v)
              ∷ st)
            c
            l
            k
            rest)
          (facing m out ((landing s, some x) ∷ (start s, v) ∷ st) peeked l k rest)
  reduce_add s o a b x v w st c l k rest h j e = record {
    goes = λ z.
        backup-decide (after_add o) (some b) _ c l k rest z tt
        ∙ decide-reduce o (some b) _ l k rest z j
        ∙ reduce-rule s o a b x v w st (some (code k)) (translate (code k)) l rest z h e;
  }
