-- ===== src/Calc/Parser/Sound.antt =====
-- What `yyparse` of packetdrill/calc.tab.c accepts is a program of packetdrill/calc.y.
use network_course.Prelude.{
  ℕ, zero, suc, ◌-◌, ◌*◌, ◌≡◌, ◌≢◌, refl, sym, ap, ◌∙◌, Bool, true, false, Option, none, some, List,
  [], ◌∷◌, ◌++◌, append_assoc, length, drop, min, ◌==◌, Bool-cases, Option-cases, inl, inr, arith,
}
use mathlib.Core.Option.{some-injective}
use network_course.Prelude.Int.{ℤ, pos, negsuc, ◌+ℤ◌, ◌==ℤ◌}
use network_course.Calc.Tables.{yydefact, yypact, yyr1, yyr2}
use network_course.Calc.State.{
  Token, Stack, Parser, Outcome, running, done, undefined, top, entry, push, goto_state, read_token,
  accept, abort, exhausted, see, next_token,
}
use network_course.Calc.Reduce.{action, pop_goto, reduce}
use network_course.Calc.Recover.{parse_error}
use network_course.Calc.Parser.{
  backup, decide, default_action, table_action, shift, step, run, initial,
}
use network_course.Calc.Parser.Actions.{action-Keeps}
use network_course.Calc.Parser.Automaton.{
  yystos, rhs, fits, shift-edge, accept-edge, reduction-fits, fits-goto, edge-yystos, edge-first,
}
use network_course.Calc.Parser.Derives.{
  IsToken, is_integer, is_variable, is_operator, Derives, of_token, program_derived,
}
use network_course.Calc.Parser.Rules.{rule-Derives}
use network_course.Calc.Parser.Trail.{bottom, above, Trail, Trail-top, Trail-not_two, pops}
use network_course.Calc.Parser.Refusal.{
  no_token, AreTokens, Rest, Inv, IsProgram, Sound, Refuses-Sound, parse_error-Refuses,
}
use network_course.Calc.Parser.LookAhead.{
  sees_end, sees_token, Looks, Looks-Rest, token-symbol, token-below, looked-Looks,
}

shift-Sound :
    (all consumed : List Token) (n : ℕ) (p : Parser)
    → Trail p.stack consumed
    → Looks all consumed p
    → entry (yypact (top p.stack) +ℤ pos p.yytoken) p.yytoken ≡ some n
    → (n == 0) ≡ false
    → (n == 2) ≡ false
    → Sound all (shift n p)
unfolding shift push
shift-Sound all consumed n p t (sees_end a c y i) e z w =
    let h = Trail-top p.stack consumed t in
    let (along, named, near) = shift-edge (top p.stack) 0 n h (omega arith) (rw y at e) z w in
    absurd (edge-yystos (top p.stack) n h near along named)
shift-Sound all consumed n p t (sees_token x k is a c y i) e z w =
    let h = Trail-top p.stack consumed t in
    let (along, named, near) =
      shift-edge (top p.stack) x n h (token-below x k is) (rw y at e) z w in
    record {
      consumed = consumed ++ k ∷ [];
      path =
          above n (some p.yylval) p.stack consumed (k ∷ []) near along t
            (rw named (of_token k is refl));
      rest =
          rw (c, (token-symbol x k is).1)
            (no_token p.input (a ∙ sym (append_assoc consumed (k ∷ []) p.input)) i);
    }

Trail-start : (st : Stack) (ts : List Token) → Trail st ts → top st ≡ 0 → ts ≡ []
unfolding yystos
Trail-start st ts (bottom v) e = refl
Trail-start st ts (above s v st' ts' us h e p d) k =
    absurd (edge-yystos (top st') s (Trail-top st' ts' p) h e (ap yystos k))

Trail-accepted : (st : Stack) (ts : List Token) → Trail st ts → top st ≡ 1 → IsProgram ts
unfolding yystos
Trail-accepted st ts (bottom v) e = absurd (omega (arith, e))
Trail-accepted st ts (above s v st' ts' us h e p d) k =
    let start = Trail-start st' ts' p (edge-first (top st') (Trail-top st' ts' p) (rw k at e)) in
    let (ss, q) = program_derived (yystos s) us (ap yystos k) d in (ss, ap (λ l. l ++ us) start ∙ q)

token-positive : (x : ℕ) (t : Token) → IsToken x t → x ≢ 0
token-positive x t (is_integer n k w) z = absurd (omega (arith, k, z))
token-positive x t (is_variable n k w) z = absurd (omega (arith, k, z))
token-positive x t (is_operator l h w) z = absurd (omega (arith, l, z))

accept-Sound :
    (all consumed : List Token) (p : Parser)
    → Trail p.stack consumed
    → Looks all consumed p
    → entry (yypact (top p.stack) +ℤ pos p.yytoken) p.yytoken ≡ some 2
    → IsProgram all
accept-Sound all consumed p t l e = by_look l
  where
    by_look : Looks all consumed p → IsProgram all
    by_look (sees_end a c y i) =
        let (one, z) =
          accept-edge (top p.stack) p.yytoken (Trail-top p.stack consumed t) (rw y (omega arith))
            e in
        rw a (Trail-accepted p.stack consumed t one)
    by_look (sees_token x k is a c y i) =
        let (one, z) =
          accept-edge (top p.stack) p.yytoken (Trail-top p.stack consumed t)
            (rw y (token-below x k is)) e in
        absurd (token-positive x k is (sym y ∙ z))

table_action-Sound :
    (all consumed : List Token) (n : ℕ) (p : Parser)
    → Trail p.stack consumed
    → Looks all consumed p
    → entry (yypact (top p.stack) +ℤ pos p.yytoken) p.yytoken ≡ some n
    → Sound all (table_action n p)
unfolding table_action accept
table_action-Sound all consumed n p t l e = elim (Bool-cases (n == 0)) [
  | inl z ↦ rw z (Refuses-Sound all (parse_error p) (parse_error-Refuses p))
  | inr z ↦ elim (Bool-cases (n == 2)) [
    | inl w ↦ rw (z, w) (λ _. accept-Sound all consumed p t l (e ∙ ap some (ground (arith, w))))
    | inr w ↦ rw (z, w) (shift-Sound all consumed n p t l e z w)
  ]
]

push-Sound :
    (all before derived : List Token) (r : ℕ) (z : ℤ) (v : Option ℤ) (p : Parser)
    → Trail p.stack before
    → goto_state (yyr1 r - 13) (top p.stack) ≡ z
    → fits (yyr1 r) [] (top p.stack) ≡ true
    → Derives (yyr1 r) derived
    → Rest all (before ++ derived) p.yychar p.input
    → Sound all (push z v p)
unfolding push
push-Sound all before derived r (negsuc n) v p t e f d k = tt
push-Sound all before derived r (pos b) v p t e f d k =
    let (along, named, near) = fits-goto (yyr1 r) (top p.stack) b f e in
    record {
      consumed = before ++ derived;
      path = above b v p.stack before derived near along t (rw named d);
      rest = k;
    }

reduce-Sound :
    (all consumed : List Token) (p : Parser)
    → Trail p.stack consumed
    → Rest all consumed p.yychar p.input
    → (yydefact (top p.stack) == 0) ≡ false
    → Sound all (reduce (yydefact (top p.stack)) p)
unfolding reduce pop_goto
reduce-Sound all consumed p t k z = elim (Option-cases (action (yydefact (top p.stack)) p)) [
  | inl e ↦ rw (reduce, e) tt
  | inr ((v, q), e) ↦
      let r = yydefact (top p.stack) in
      let (f, l, h, m) =
        reduction-fits (top p.stack) (Trail-top p.stack consumed t)
          (Trail-not_two p.stack consumed t) z in
      let o = pops (yyr1 r) (rhs r) p.stack consumed t f in
      let same = action-Keeps r p q v e in
      let same_stack : drop (length (rhs r)) p.stack ≡ drop (yyr2 r) q.stack =
        ap (λ n. drop n p.stack) l ∙ ap (drop (yyr2 r)) (sym same.stack_kept) in
      rw (reduce, e)
        (push-Sound all o.before o.derived r _ v (record q { stack = drop (yyr2 r) q.stack })
          (rw same_stack at o.path) refl (rw same_stack at o.fits_below)
          (rule-Derives r o.derived m h o.all_derived)
          (rw (same.yychar_kept, same.input_kept) (rw o.joined at k)))
]

default_action-Sound :
    (all consumed : List Token) (p : Parser)
    → Trail p.stack consumed
    → Rest all consumed p.yychar p.input
    → Sound all (default_action p)
unfolding default_action
default_action-Sound all consumed p t k = elim (Bool-cases (yydefact (top p.stack) == 0)) [
  | inl e ↦ rw e (Refuses-Sound all (parse_error p) (parse_error-Refuses p))
  | inr e ↦ rw e (reduce-Sound all consumed p t k e)
]

decide-Sound :
    (all consumed : List Token) (p : Parser)
    → Trail p.stack consumed
    → Looks all consumed p
    → Sound all (decide p)
unfolding decide
decide-Sound all consumed p t l =
    elim (Option-cases (entry (yypact (top p.stack) +ℤ pos p.yytoken) p.yytoken)) [
      | inl e ↦ rw (decide, e) (default_action-Sound all consumed p t (Looks-Rest all consumed p l))
      | inr (n, e) ↦ rw (decide, e) (table_action-Sound all consumed n p t l e)
    ]

next_token-stack : (ts : List Token) (p : Parser) → (next_token ts p).stack ≡ p.stack
unfolding next_token see
next_token-stack [] p = refl
next_token-stack ((c, none) ∷ ts) p = refl
next_token-stack ((c, some v) ∷ ts) p = refl

looked-stack :
    (o : Option ℕ) (p : Parser)
    → (elim o as (λ _. Parser) [ some c ↦ see c p | none ↦ next_token p.input p ]).stack ≡ p.stack
unfolding see
looked-stack none p = next_token-stack p.input p
looked-stack (some c) p = refl

read_token-stack : (p : Parser) → (read_token p).stack ≡ p.stack
unfolding read_token
read_token-stack p = looked-stack p.yychar p

backup-Sound : (all : List Token) (p : Parser) → Inv all p → Sound all (backup p)
unfolding backup read_token
backup-Sound all p i = elim (Bool-cases (yypact (top p.stack) ==ℤ negsuc 6)) [
  | inl e ↦ rw (backup, e) (default_action-Sound all i.consumed p i.path i.rest)
  | inr e ↦
      rw (backup, e)
        (decide-Sound all i.consumed (read_token p) (rw (read_token-stack p) i.path)
          (looked-Looks all i.consumed p.input p.yychar p refl i.rest))
]

step-Sound :
    (malloc : ℕ → Bool) (all : List Token) (p : Parser) → Inv all p → Sound all (step malloc p)
unfolding step exhausted abort
step-Sound malloc all p i =
    let grown = record p { stacksize = min (p.stacksize * 2) 10000 } in
    let i' : Inv all grown = record { consumed = i.consumed; path = i.path; rest = i.rest } in
    ground (arith, backup-Sound all p i, backup-Sound all grown i')

run-Sound :
    (malloc : ℕ → Bool) (f : ℕ) (all : List Token) (p : Parser) (o : Outcome)
    → Inv all p
    → run malloc f p ≡ some o
    → Sound all o
unfolding run
run-Sound malloc zero all p o i h = ground arith
run-Sound malloc (suc f) all p o i h =
    pass (step malloc p) refl (step-Sound malloc all p i) (λ q v. run-Sound malloc f all q o v) h
  where
    pass :
        (s : Outcome)
        → step malloc p ≡ s
        → Sound all s
        → ((q : Parser) → Inv all q → run malloc f q ≡ some o → Sound all o)
        → run malloc (suc f) p ≡ some o
        → Sound all o
    pass (running q) e v next h' = next q v (rw (run, e) at h')
    pass (done m q) e v next h' = rw (← some-injective (done m q) o (rw (run, e) at h')) v
    pass undefined e v next h' = rw (← some-injective undefined o (rw (run, e) at h')) tt

-- Whatever `malloc` does and whatever `sym` holds, if `yyparse` returns 0 on tokens of the scanner, they are those of a program.
pub yyparse-IsProgram :
    (malloc : ℕ → Bool) (f : ℕ) (m : List ℤ) (ts : List Token) (q : Parser)
    → AreTokens ts
    → run malloc f (initial m ts) ≡ some (done 0 q)
    → IsProgram ts
yyparse-IsProgram malloc f m ts q a h =
    run-Sound malloc f ts (initial m ts) (done 0 q)
      (record { consumed = []; path = bottom none; rest = no_token ts refl a }) h refl
