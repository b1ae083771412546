-- ===== src/Calc/Parser/Rules.antt =====
-- The rules of packetdrill/calc.y, by number: the tokens of a right-hand side are those of the left-hand side.
use network_course.Prelude.{
  ℕ, zero, suc, ◌≤◌, ◌<◌, ◌≡◌, refl, sym, ap, ◌∙◌, none, some, List, [], ◌∷◌, ◌++◌, append_assoc,
  arith,
}
use network_course.Prelude.Int.{pos}
use network_course.Calc.State.{Token}
use network_course.Calc.Tables.{yyr1}
use network_course.Calc.Grammar.{
  Additive, plus, minus, Multiplicative, times, over, additive_char, multiplicative_char, Sum,
  product, atom, integer, variable, paren, expr, assign, variable_token, sum_tokens,
  statement_tokens, program_tokens,
}
use network_course.Calc.Parser.Automaton.{rhs}
use network_course.Calc.Parser.Derives.{
  symbol_char, Derives, of_program, of_statement, of_sum, DerivesAll, all_nil, all_cons,
  sum_tokens-append, program_tokens-snoc, statement_tokens-append, add_sum, mul_sum, add_sum-tokens,
  mul_sum-tokens, sum_derived, statement_derived, program_derived, operator_derived,
  integer_derived, variable_derived,
}

only : (x : ℕ) (us : List Token) → DerivesAll (x ∷ []) us → Derives x us
only x us (all_cons y ys ts vs all_nil d) = d

-- Three symbols, from the first.
record Three (x y z : ℕ) (us : List Token) : Type 0 where
  ts1 : List Token
  ts2 : List Token
  ts3 : List Token
  first : Derives x ts1
  second : Derives y ts2
  third : Derives z ts3
  joined : us ≡ (ts1 ++ ts2) ++ ts3

apart : (x y z : ℕ) (us : List Token) → DerivesAll (z ∷ y ∷ x ∷ []) us → Three x y z us
apart x y z us
      (all_cons z' zs ts ts3 (all_cons y' ys ts' ts2 (all_cons x' xs ts'' ts1 all_nil a) b) c) =
    record { ts1 = ts1; ts2 = ts2; ts3 = ts3; first = a; second = b; third = c; joined = refl }

-- A phrase, an operator and a phrase.
operator_between :
    (c : ℕ) (d e : Sum) (us : List Token)
    → us ≡ (sum_tokens d [] ++ (c, none) ∷ []) ++ sum_tokens e []
    → us ≡ sum_tokens d ((c, none) ∷ sum_tokens e [])
operator_between c d e us h =
    h
    ∙ append_assoc (sum_tokens d []) ((c, none) ∷ []) (sum_tokens e [])
    ∙ sum_tokens-append d [] ((c, none) ∷ sum_tokens e [])

sums_between :
    (x : ℕ) (us : List Token)
    → 5 ≤ x
    → x < 13
    → Three 16 x 16 us
    → (d : Sum) × (e : Sum) × (us ≡ sum_tokens d ((symbol_char x, none) ∷ sum_tokens e []))
sums_between x us l h t =
    let (d, p) = sum_derived 16 t.ts1 refl t.first in
    let (e, q) = sum_derived 16 t.ts3 refl t.third in
    let o = operator_derived x t.ts2 l h t.second in
    (d, e, operator_between (symbol_char x) d e us (rw (← p, ← q, ← o) t.joined))

additive_rule :
    (o : Additive) (x : ℕ) (us : List Token)
    → symbol_char x ≡ additive_char o
    → 5 ≤ x
    → x < 13
    → Three 16 x 16 us
    → Derives 16 us
additive_rule o x us c l h t =
    let (d, e, j) = sums_between x us l h t in
    of_sum (add_sum d o e) refl
      (j ∙ ap (λ c. sum_tokens d ((c, none) ∷ sum_tokens e [])) c ∙ sym (add_sum-tokens d o e []))

multiplicative_rule :
    (o : Multiplicative) (x : ℕ) (us : List Token)
    → symbol_char x ≡ multiplicative_char o
    → 5 ≤ x
    → x < 13
    → Three 16 x 16 us
    → Derives 16 us
multiplicative_rule o x us c l h t =
    let (d, e, j) = sums_between x us l h t in
    of_sum (mul_sum d o e) refl
      (j ∙ ap (λ c. sum_tokens d ((c, none) ∷ sum_tokens e [])) c ∙ sym (mul_sum-tokens d o e []))

paren_rule : (us : List Token) → Three 11 16 12 us → Derives 16 us
paren_rule us t =
    let (e, p) = sum_derived 16 t.ts2 refl t.second in
    let left = operator_derived 11 t.ts1 (omega arith) (omega arith) t.first in
    let right = operator_derived 12 t.ts3 (omega arith) (omega arith) t.third in
    of_sum (product (atom (paren e))) refl (
      t.joined
      ∙ ap (λ l. (l ++ t.ts2) ++ t.ts3) left
      ∙ ap (λ l. ((b'(', none) ∷ l) ++ t.ts3) p
      ∙ ap (λ l. ((b'(', none) ∷ sum_tokens e []) ++ l) right
      ∙ ap (◌∷◌ (b'(', none)) (sum_tokens-append e [] ((b')', none) ∷ [])))

assign_rule : (us : List Token) → Three 4 10 16 us → Derives 15 us
assign_rule us t =
    let (i, p) = variable_derived t.ts1 t.first in
    let eq = operator_derived 10 t.ts2 (omega arith) (omega arith) t.second in
    let (e, q) = sum_derived 16 t.ts3 refl t.third in
    of_statement (assign i e) refl (
      t.joined
      ∙ ap (λ l. (l ++ t.ts2) ++ t.ts3) p
      ∙ ap (λ l. (((variable_token, some (pos i)) ∷ []) ++ l) ++ t.ts3) eq
      ∙ ap (λ l. (variable_token, some (pos i)) ∷ (b'=', none) ∷ l) q)

program_rule : (us : List Token) → Three 14 15 9 us → Derives 14 us
program_rule us t =
    let (ss, p) = program_derived 14 t.ts1 refl t.first in
    let (s, q) = statement_derived 15 t.ts2 refl t.second in
    let line = operator_derived 9 t.ts3 (omega arith) (omega arith) t.third in
    of_program (ss ++ s ∷ []) refl (
      t.joined
      ∙ append_assoc t.ts1 t.ts2 t.ts3
      ∙ ap (λ l. l ++ (t.ts2 ++ t.ts3)) p
      ∙ ap (λ l. program_tokens ss ++ (l ++ t.ts3)) q
      ∙ ap (λ l. program_tokens ss ++ (statement_tokens s [] ++ l)) line
      ∙ ap (λ l. program_tokens ss ++ l) (statement_tokens-append s [] ((b'\n', none) ∷ []))
      ∙ program_tokens-snoc ss s)

-- What the symbols of a rule derive, its left-hand side derives.
pub rule-Derives :
    (r : ℕ) (us : List Token) → 1 < r → r < 13 → DerivesAll (rhs r) us → Derives (yyr1 r) us
unfolding rhs yyr1
rule-Derives zero us l h d = absurd (omega arith)
rule-Derives (suc zero) us l h d = absurd (omega arith)
rule-Derives (suc (suc zero)) us l h d = program_rule us (apart 14 15 9 us d)
rule-Derives (suc (suc (suc zero))) us l h all_nil = of_program [] refl refl
rule-Derives (suc (suc (suc (suc zero)))) us l h d =
    let (e, p) = sum_derived 16 us refl (only 16 us d) in of_statement (expr e) refl p
rule-Derives (suc (suc (suc (suc (suc zero))))) us l h d = assign_rule us (apart 4 10 16 us d)
rule-Derives (suc (suc (suc (suc (suc (suc zero)))))) us l h d =
    let (n, p) = integer_derived us (only 3 us d) in of_sum (product (atom (integer n))) refl p
rule-Derives (suc (suc (suc (suc (suc (suc (suc zero))))))) us l h d =
    let (i, p) = variable_derived us (only 4 us d) in of_sum (product (atom (variable i))) refl p
rule-Derives (suc (suc (suc (suc (suc (suc (suc (suc zero)))))))) us l h d =
    additive_rule plus 5 us refl (omega arith) (omega arith) (apart 16 5 16 us d)
rule-Derives (suc (suc (suc (suc (suc (suc (suc (suc (suc zero))))))))) us l h d =
    additive_rule minus 6 us refl (omega arith) (omega arith) (apart 16 6 16 us d)
rule-Derives (suc (suc (suc (suc (suc (suc (suc (suc (suc (suc zero)))))))))) us l h d =
    multiplicative_rule times 7 us refl (omega arith) (omega arith) (apart 16 7 16 us d)
rule-Derives (suc (suc (suc (suc (suc (suc (suc (suc (suc (suc (suc zero))))))))))) us l h d =
    multiplicative_rule over 8 us refl (omega arith) (omega arith) (apart 16 8 16 us d)
rule-Derives (suc (suc (suc (suc (suc (suc (suc (suc (suc (suc (suc (suc zero)))))))))))) us l h d =
    paren_rule us (apart 11 16 12 us d)
rule-Derives (suc (suc (suc (suc (suc (suc (suc (suc (suc (suc (suc (suc (suc r))))))))))))) us l h
      d =
    absurd (omega arith)
