-- ===== src/Calc/Parser/Verdicts.antt =====
-- What `yyparse` of calc.tab.c returns, and what it reports to `yyerror`.
use network_course.Prelude.{
  ℕ, zero, suc, ◌*◌, ◌≤◌, ◌<◌, ◌≡◌, refl, Bool, Option, none, some, List, [], ◌∷◌, length, drop,
  min, ◌==◌, Bool-cases, Option-cases, ◌⊎◌, inl, inr, arith,
}
use mathlib.Core.Option.{some-injective}
use network_course.Prelude.Int.{ℤ, pos, negsuc, ◌+ℤ◌, ◌==ℤ◌}
use network_course.Calc.Tables.{yydefact, yyr2, yypact}
use network_course.Calc.State.{
  Token, Stack, syntax_error, memory_exhausted, Parser, Outcome, running, done, undefined, top,
  entry, push, read_token, accept, abort, exhausted, see, next_token,
}
use network_course.Calc.Reduce.{action, pop_goto, reduce}
use network_course.Calc.Recover.{parse_error, recover, error_recovery, report}
use network_course.Calc.Parser.{
  backup, decide, default_action, table_action, shift, step, run, initial,
}
use network_course.Calc.Parser.Termination.{entry_error}
use network_course.Calc.Parser.Actions.{Keeps, action-Keeps}

-- Nothing was reported yet, and the stacks are within their size.
record IsFine (p : Parser) : Type 0 where
  no_error : p.errstatus ≡ 0
  quiet : p.complaints ≡ []
  sized : 1 ≤ p.stacksize
  holds : length p.stack ≤ p.stacksize

-- The returns of `yyparse`, each with its calls of `yyerror`.
abbrev pub Verdict : ℕ → Parser → Type 0
Verdict n q =
    ((n ≡ 0) × (q.complaints ≡ []))
    ⊎ ((n ≡ 1) × (q.complaints ≡ syntax_error ∷ []))
    ⊎ ((n ≡ 2) × (q.complaints ≡ memory_exhausted ∷ []))

abbrev Result : Outcome → Type 0
Result (running q) = IsFine q
Result (done n q) = Verdict n q
Result undefined = Unit

recover-Result :
    (st : Stack) (q : Parser) → q.complaints ≡ syntax_error ∷ [] → Result (recover st q)
unfolding recover abort
recover-Result [] q h = inr (inl (refl, h))
recover-Result ((s, v) ∷ []) q h = ground (arith, entry_error (yypact s +ℤ pos 1))
recover-Result ((s, v) ∷ e ∷ st) q h = ground (
  arith,
  entry_error (yypact s +ℤ pos 1),
  recover-Result (e ∷ st) (record q { stack = e ∷ st }) h,
)

parse_error-Result : (p : Parser) → IsFine p → Result (parse_error p)
unfolding parse_error report error_recovery
parse_error-Result p f = rw f.no_error (recover-Result p.stack _ (rw f.quiet refl))

shift-Result : (n : ℕ) (p : Parser) → IsFine p → length p.stack < p.stacksize → Result (shift n p)
unfolding shift push
shift-Result n p f h = record {
  no_error = rw f.no_error refl;
  quiet = f.quiet;
  sized = f.sized;
  holds = omega arith;
}

length-drop-le : (n : ℕ) (st : Stack) → length (drop n st) ≤ length st
length-drop-le zero st = omega arith
length-drop-le (suc n) [] = omega arith
length-drop-le (suc n) (e ∷ st) = omega (arith, length-drop-le n st)

push-Result :
    (z : ℤ) (v : Option ℤ) (q : Parser)
    → IsFine q
    → length q.stack < q.stacksize
    → Result (push z v q)
unfolding push
push-Result (negsuc n) v q f h = tt
push-Result (pos t) v q f h = record {
  no_error = f.no_error;
  quiet = f.quiet;
  sized = f.sized;
  holds = omega arith;
}

pop_goto-Result :
    (r : ℕ) (v : Option ℤ) (p q : Parser)
    → Keeps p q
    → IsFine p
    → length p.stack < p.stacksize
    → Result (pop_goto r v q)
unfolding pop_goto
pop_goto-Result r v p q k f h =
    let less = length-drop-le (yyr2 r) q.stack in
    let same : length q.stack ≡ length p.stack = rw k.stack_kept refl in
    push-Result _ v (record q { stack = drop (yyr2 r) q.stack })
      (record {
        no_error = rw k.errstatus_kept f.no_error;
        quiet = rw k.complaints_kept f.quiet;
        sized = omega (arith, k.stacksize_kept, f.sized);
        holds = omega (arith, k.stacksize_kept);
      })
      (omega (arith, k.stacksize_kept))

reduce-Result : (r : ℕ) (p : Parser) → IsFine p → length p.stack < p.stacksize → Result (reduce r p)
unfolding reduce
reduce-Result r p f h = elim (Option-cases (action r p)) [
  | inl e ↦ rw (reduce, e) tt
  | inr ((v, q), e) ↦ rw (reduce, e) (pop_goto-Result r v p q (action-Keeps r p q v e) f h)
]

default_action-Result :
    (p : Parser) → IsFine p → length p.stack < p.stacksize → Result (default_action p)
unfolding default_action
default_action-Result p f h = elim (Bool-cases (yydefact (top p.stack) == 0)) [
  | inl e ↦ rw e (parse_error-Result p f)
  | inr e ↦ rw e (reduce-Result (yydefact (top p.stack)) p f h)
]

table_action-Result :
    (n : ℕ) (p : Parser) → IsFine p → length p.stack < p.stacksize → Result (table_action n p)
unfolding table_action accept
table_action-Result n p f h = elim (Bool-cases (n == 0)) [
  | inl e ↦ rw e (parse_error-Result p f)
  | inr e ↦ elim (Bool-cases (n == 2)) [
    | inl w ↦ rw (e, w) (inl (refl, f.quiet))
    | inr w ↦ rw (e, w) (shift-Result n p f h)
  ]
]

decide-Result : (p : Parser) → IsFine p → length p.stack < p.stacksize → Result (decide p)
unfolding decide
decide-Result p f h =
    elim (Option-cases (entry (yypact (top p.stack) +ℤ pos p.yytoken) p.yytoken)) [
      | inl e ↦ rw (decide, e) (default_action-Result p f h)
      | inr (n, e) ↦ rw (decide, e) (table_action-Result n p f h)
    ]

abbrev IsRoomy : Parser → Type 0
IsRoomy q = IsFine q × (length q.stack < q.stacksize)

next_token-IsFine :
    (ts : List Token) (p : Parser)
    → IsFine p
    → length p.stack < p.stacksize
    → IsRoomy (next_token ts p)
unfolding next_token see
next_token-IsFine [] p f h = ground arith
next_token-IsFine ((c, none) ∷ ts) p f h = ground arith
next_token-IsFine ((c, some v) ∷ ts) p f h = ground arith

looked-IsFine :
    (o : Option ℕ) (p : Parser)
    → IsFine p
    → length p.stack < p.stacksize
    → IsRoomy (elim o [ some c ↦ see c p | none ↦ next_token p.input p ])
unfolding see
looked-IsFine none p f h = next_token-IsFine p.input p f h
looked-IsFine (some c) p f h = ground arith

read_token-Result :
    (p : Parser) → IsFine p → length p.stack < p.stacksize → Result (decide (read_token p))
unfolding read_token
read_token-Result p f h =
    let (f', h') = looked-IsFine p.yychar p f h in decide-Result (read_token p) f' h'

backup-Result : (p : Parser) → IsFine p → length p.stack < p.stacksize → Result (backup p)
unfolding backup
backup-Result p f h = elim (Bool-cases (yypact (top p.stack) ==ℤ negsuc 6)) [
  | inl e ↦ rw (backup, e) (default_action-Result p f h)
  | inr e ↦ rw (backup, e) (read_token-Result p f h)
]

step-Result : (malloc : ℕ → Bool) (p : Parser) → IsFine p → Result (step malloc p)
unfolding step exhausted abort
step-Result malloc p f =
    let grown = record p { stacksize = min (p.stacksize * 2) 10000 } in
    ground (arith, backup-Result p, backup-Result grown)

run-Result :
    (malloc : ℕ → Bool) (f : ℕ) (p : Parser) (o : Outcome)
    → IsFine p
    → run malloc f p ≡ some o
    → Result o
unfolding run
run-Result malloc zero p o w h = ground arith
run-Result malloc (suc f) p o w h =
    pass (step malloc p) refl (step-Result malloc p w) (λ q v. run-Result malloc f q o v) h
  where
    pass :
        (s : Outcome)
        → step malloc p ≡ s
        → Result s
        → ((q : Parser) → IsFine q → run malloc f q ≡ some o → Result o)
        → run malloc (suc f) p ≡ some o
        → Result o
    pass (running q) e v next h' = next q v (rw (run, e) at h')
    pass (done m q) e v next h' = rw (← some-injective (done m q) o (rw (run, e) at h')) v
    pass undefined e v next h' = rw (← some-injective undefined o (rw (run, e) at h')) tt

-- Whatever `malloc` does and whatever the tokens are, `yyparse` returns 0 without a call of `yyerror`, or 1 after exactly one
-- "syntax error", or 2 after exactly one "memory exhausted".
pub yyparse-Verdict :
    (malloc : ℕ → Bool) (f : ℕ) (m : List ℤ) (ts : List Token) (n : ℕ) (q : Parser)
    → run malloc f (initial m ts) ≡ some (done n q)
    → Verdict n q
yyparse-Verdict malloc f m ts n q h =
    run-Result malloc f (initial m ts) (done n q)
      (record { no_error = refl; quiet = refl; sized = omega arith; holds = omega arith }) h
