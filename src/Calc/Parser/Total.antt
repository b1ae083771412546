-- ===== src/Calc/Parser/Total.antt =====
-- `yyparse` of calc.tab.c as a total function: a bound on its passes, and the program it runs.
use network_course.Prelude.{
  ℕ, zero, suc, ◌+◌, ◌*◌, ◌≤◌, ◌<◌, ◌≡◌, refl, sym, ◌∙◌, Bool, some, List, [], length, arith,
}
use network_course.Prelude.Int.{ℤ}
use network_course.Calc.State.{Token, Parser, Outcome, running, done, undefined, maxdepth}
use network_course.Calc.Parser.{step, run, initial}
use network_course.Calc.Grammar.{Statement, program_tokens, program_effect, program_depth}
use network_course.Calc.Parser.Reach.{GivesStacks}
use network_course.Calc.Parser.Statements.{program_steps}
use network_course.Calc.Parser.Termination.{weight}
use network_course.Calc.Parser.Halts.{run_ends}

-- More fuel changes nothing.
run-more :
    (malloc : ℕ → Bool) (f g : ℕ) (p : Parser) (o : Outcome)
    → f ≤ g
    → run malloc f p ≡ some o
    → run malloc g p ≡ some o
unfolding run
run-more malloc zero g p o w h = ground arith
run-more malloc (suc f) zero p o w h = absurd (omega arith)
run-more malloc (suc f) (suc g) p o w h =
    pass (step malloc p) refl (λ q. run-more malloc f g q o (omega arith)) h
  where
    pass :
        (s : Outcome)
        → step malloc p ≡ s
        → ((q : Parser) → run malloc f q ≡ some o → run malloc g q ≡ some o)
        → run malloc (suc f) p ≡ some o
        → run malloc (suc g) p ≡ some o
    pass (running q) e more h' = rw (run, e) (more q (rw (run, e) at h'))
    pass (done m q) e more h' = rw (run, e) (rw (run, e) at h')
    pass undefined e more h' = rw (run, e) (rw (run, e) at h')

-- Whatever memory `malloc` gives, whatever `sym` holds and whatever the tokens are, `yyparse` ends
-- within `4 + 5 * n` passes over `n` tokens.
pub yyparse_ends :
    (malloc : ℕ → Bool) (m : List ℤ) (ts : List Token)
    → (o : Outcome) × (run malloc (4 + 5 * length ts) (initial m ts) ≡ some o)
unfolding weight
yyparse_ends malloc m ts = run_ends malloc (4 + 5 * length ts) (initial m ts) (omega arith)

-- Where every request for stacks of at most 10000 entries is granted and the nesting of the program leaves
-- room on them, `yyparse` on the tokens of a program that has an effect returns 0, within
-- `4 + 5 * n` passes over `n` tokens: `sym` and the printed numbers are what the grammar says, and `yyerror` is never called.
pub yyparse_program :
    (malloc : ℕ → Bool)
    → GivesStacks malloc
    → (ss : List Statement) (m : List ℤ) (r : List ℤ × List ℤ) → program_effect ss m ≡ some r
    → 2 + program_depth ss < maxdepth
    → (q : Parser) × (run malloc
          (4 + 5 * length (program_tokens ss))
          (initial m (program_tokens ss))
        ≡ some (done 0 q))
      × (q.sym ≡ r.0)
      × (q.out ≡ r.1)
      × (q.complaints ≡ [])
yyparse_program malloc enough ss m r h d =
    let ts = program_tokens ss in
    let n = 4 + 5 * length ts in
    let (k, q, runs, s, o, c) = program_steps malloc enough ss m r h d in
    let (x, e) = yyparse_ends malloc m ts in
    let more = run-more malloc n (k + suc n) (initial m ts) x (omega arith) e in
    (q, e ∙ sym more ∙ runs n, s, o, c)
