-- ===== src/Calc/Parser/Refusal.antt =====
-- What a pass of `yyparse` may come to, and that a syntax error ends it.
use network_course.Prelude.{
  ℕ, ◌≡◌, refl, Option, none, some, List, [], ◌∷◌, ◌++◌, ◌==◌, Bool-cases, Option-cases, inl, inr,
  arith,
}
use network_course.Prelude.Int.{pos, ◌+ℤ◌}
use network_course.Calc.Tables.{yypact}
use network_course.Calc.State.{Token, Stack, Parser, Outcome, running, done, undefined, abort}
use network_course.Calc.Grammar.{Statement, program_tokens}
use network_course.Calc.Recover.{parse_error, recover, error_recovery, discard, report}
use network_course.Calc.Parser.Termination.{entry_error}
use network_course.Calc.Parser.Derives.{IsToken}
use network_course.Calc.Parser.Trail.{Trail}

-- Tokens as the scanner returns them.
abbrev pub AreTokens : List Token → Type 0
AreTokens [] = Unit
AreTokens (t ∷ ts) = ((x : ℕ) × IsToken x t) × AreTokens ts

-- What `yychar` and the input hold of all the tokens, behind those that were consumed.
pub data Rest (all consumed : List Token) : Option ℕ → List Token → Type 0 where
  no_token :
      (input : List Token)
      → all ≡ consumed ++ input
      → AreTokens input
      → Rest all consumed none input
  end_token : all ≡ consumed → Rest all consumed (some 0) []
  one_token :
      (x : ℕ) (t : Token) (input : List Token)
      → IsToken x t
      → all ≡ consumed ++ t ∷ input
      → AreTokens input
      → Rest all consumed (some (t.0)) input

pub record Inv (all : List Token) (p : Parser) : Type 0 where
  pub consumed : List Token
  pub path : Trail p.stack consumed
  pub rest : Rest all consumed p.yychar p.input

abbrev pub IsProgram : List Token → Type 0
IsProgram ts = (ss : List Statement) × (ts ≡ program_tokens ss)

abbrev pub Sound : List Token → Outcome → Type 0
Sound all (running q) = Inv all q
Sound all (done n q) = n ≡ 0 → IsProgram all
Sound all undefined = Unit

-- A syntax error, after which no state shifts the error token.
abbrev pub Refuses : Outcome → Type 0
Refuses (running q) = ⊥
Refuses (done n q) = n ≡ 1
Refuses undefined = ⊥

pub Refuses-Sound : (all : List Token) (o : Outcome) → Refuses o → Sound all o
Refuses-Sound all (done n q) h = λ z. absurd (omega (arith, h, z))
Refuses-Sound all (running q) h = absurd h
Refuses-Sound all undefined h = absurd h

recover-Refuses : (st : Stack) (q : Parser) → Refuses (recover st q)
unfolding recover abort
recover-Refuses [] q = refl
recover-Refuses ((s, v) ∷ []) q = ground (arith, entry_error (yypact s +ℤ pos 1))
recover-Refuses ((s, v) ∷ e ∷ st) q =
    ground (
      arith,
      entry_error (yypact s +ℤ pos 1),
      recover-Refuses (e ∷ st) (record q { stack = e ∷ st }),
    )

discard-Refuses : (p : Parser) → Refuses (discard p)
unfolding discard error_recovery abort
discard-Refuses p = elim (Option-cases p.yychar) [
  | inl e ↦ rw e (recover-Refuses p.stack _)
  | inr (c, e) ↦ elim (Bool-cases (c == 0)) [
    | inl z ↦ rw (e, z) refl
    | inr z ↦ rw (e, z) (recover-Refuses p.stack _)
  ]
]

pub parse_error-Refuses : (p : Parser) → Refuses (parse_error p)
unfolding parse_error error_recovery
parse_error-Refuses p = elim (Bool-cases ((report p).errstatus == 3)) [
  | inl e ↦ rw e (discard-Refuses (report p))
  | inr e ↦ rw e (recover-Refuses (report p).stack _)
]
