-- ===== src/Calc/Parser/LookAhead.antt =====
-- The look-ahead token of `yyparse`.
use network_course.Prelude.{
  ℕ, ◌<◌, ◌≡◌, refl, sym, ap, ◌∙◌, true, false, not, Option, none, some, List, [], ◌∷◌, ◌&&◌, ◌||◌,
  ◌++◌, append-nil, ◌==◌, if◌then◌else◌, arith, holds_below, holds_below_at, ltb,
}
use network_course.Calc.Tables.{translate}
use network_course.Calc.State.{Token, Parser, see, next_token}
use network_course.Calc.Parser.Derives.{symbol_char, IsToken, is_integer, is_variable, is_operator}
use network_course.Calc.Parser.Refusal.{no_token, end_token, one_token, AreTokens, Rest}

-- Where the look-ahead token is at hand.
pub data Looks (all consumed : List Token) (p : Parser) : Type 0 where
  sees_end :
      all ≡ consumed → p.yychar ≡ some 0 → p.yytoken ≡ 0 → p.input ≡ [] → Looks all consumed p
  sees_token :
      (x : ℕ) (t : Token)
      → IsToken x t
      → all ≡ consumed ++ t ∷ p.input
      → p.yychar ≡ some (t.0)
      → p.yytoken ≡ x
      → AreTokens p.input
      → Looks all consumed p

pub Looks-Rest :
    (all consumed : List Token) (p : Parser)
    → Looks all consumed p
    → Rest all consumed p.yychar p.input
Looks-Rest all consumed p (sees_end a c y i) = rw (c, i) (end_token a)
Looks-Rest all consumed p (sees_token x t k a c y i) = rw c (one_token x t p.input k a i)

operators_translate :
    holds_below 13 (λ x.
      ltb x 5
      || ((if symbol_char x == 0 then 0 else translate (symbol_char x)) == x
          && not (symbol_char x == 0)))
    ≡ true
unfolding holds_below translate
operators_translate = refl

-- The symbol of a token, which is not that of the end.
pub token-symbol :
    (x : ℕ) (t : Token)
    → IsToken x t
    → ((if t.0 == 0 then 0 else translate (t.0)) ≡ x) × ((t.0 == 0) ≡ false)
unfolding translate
token-symbol x t (is_integer n k w) = rw (w, k) (refl, refl)
token-symbol x t (is_variable n k w) = rw (w, k) (refl, refl)
token-symbol x t (is_operator l h w) =
    let checked =
      holds_below_at 13
        (λ x.
          ltb x 5
          || ((if symbol_char x == 0 then 0 else translate (symbol_char x)) == x
              && not (symbol_char x == 0)))
        x operators_translate h in
    rw w (ground (arith, checked))

pub token-below : (x : ℕ) (t : Token) → IsToken x t → x < 13
token-below x t (is_integer n k w) = omega (arith, k)
token-below x t (is_variable n k w) = omega (arith, k)
token-below x t (is_operator l h w) = h

next_token-Looks :
    (all consumed ts : List Token) (p : Parser)
    → p.input ≡ ts
    → all ≡ consumed ++ ts
    → AreTokens ts
    → Looks all consumed (next_token ts p)
unfolding next_token see
next_token-Looks all consumed [] p e a i = sees_end (a ∙ append-nil consumed) refl refl e
next_token-Looks all consumed ((c, none) ∷ ts) p e a ((x, k), i) =
    sees_token x (c, none) k a refl ((token-symbol x (c, none) k).0) i
next_token-Looks all consumed ((c, some v) ∷ ts) p e a ((x, k), i) =
    sees_token x (c, some v) k a refl ((token-symbol x (c, some v) k).0) i

pub looked-Looks :
    (all consumed ts : List Token) (o : Option ℕ) (p : Parser)
    → p.input ≡ ts
    → Rest all consumed o ts
    → Looks all consumed (elim o [ some c ↦ see c p | none ↦ next_token p.input p ])
unfolding see
looked-Looks all consumed ts none p e (no_token input a i) =
    next_token-Looks all consumed p.input p refl (a ∙ ap (λ l. consumed ++ l) (sym e)) (rw e i)
looked-Looks all consumed ts (some c) p e (end_token a) = sees_end a refl refl e
looked-Looks all consumed ts (some c) p e (one_token x t input k a i) =
    sees_token x t k (a ∙ ap (λ l. consumed ++ t ∷ l) (sym e)) refl ((token-symbol x t k).0)
      (rw e i)
