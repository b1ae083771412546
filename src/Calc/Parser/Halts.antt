-- ===== src/Calc/Parser/Halts.antt =====
-- `yyparse` comes to an end on every input, within five passes for each token.
use network_course.Prelude.{
  ℕ, zero, suc, ◌-◌, ◌*◌, ◌≤◌, ◌<◌, ◌≡◌, ◌≢◌, refl, Bool, true, false, not, ◌||◌, Option, none,
  some, List, [], ◌∷◌, drop, min, ltb, ◌==◌, Bool-cases, Option-cases, holds_below, holds_below_at,
  ◌⊎◌, inl, inr, arith,
}
use network_course.Prelude.Int.{ℤ, pos, negsuc, ◌+ℤ◌, ◌==ℤ◌}
use network_course.Calc.Tables.{yydefact, yyr1, yyr2, yypact, yypgoto, yydefgoto, yycheck, yytable}
use network_course.Calc.State.{
  Token, Stack, Parser, Outcome, running, done, undefined, top, entry, goto_state, push, read_token,
  abort, exhausted, see, next_token,
}
use network_course.Calc.Reduce.{action, pop_goto, reduce}
use network_course.Calc.Recover.{parse_error, error_recovery, discard, report}
use network_course.Calc.Parser.{backup, decide, default_action, table_action, shift, step, run}
use network_course.Calc.Parser.Actions.{Keeps, action-Keeps}
use network_course.Calc.Parser.Termination.{
  weight, heavy, measure, Falls, recover-Falls, reduced_lighter, reduces_lowers, weight-le,
}

error_recovery-Falls : (p q : Parser) → Falls p (error_recovery q)
unfolding error_recovery
error_recovery-Falls p q = recover-Falls q.stack p (record q { errstatus = 3 })

discard-Falls : (p q : Parser) → Falls p (discard q)
unfolding discard abort
discard-Falls p q =
    ground (arith, error_recovery-Falls p q, error_recovery-Falls p (record q { yychar = none }))

parse_error-Falls : (p q : Parser) → Falls p (parse_error q)
unfolding parse_error
parse_error-Falls p q = elim (Bool-cases ((report q).errstatus == 3)) [
  | inl e ↦ rw e (discard-Falls p (report q))
  | inr e ↦ rw e (error_recovery-Falls p (report q))
]

shift-Falls : (p : Parser) (n c : ℕ) → n ≢ 0 → p.yychar ≡ some c → c ≢ 0 → Falls p (shift n p)
unfolding shift
shift-Falls p n c z e w = ground (arith, weight-le n)

-- A reduction pushes less than it pops.
pop_goto-lighter :
    (st : Stack) (v : Option ℤ) (t : ℕ)
    → yydefact (top st) ≢ 0
    → goto_state (yyr1 (yydefact (top st)) - 13) (top (drop (yyr2 (yydefact (top st))) st)) ≡ pos t
    → heavy ((t, v) ∷ drop (yyr2 (yydefact (top st))) st) < heavy st
unfolding yydefact goto_state yyr1 yyr2 yypgoto yydefgoto entry weight ◌+ℤ◌
pop_goto-lighter [] v t n g = ground arith
pop_goto-lighter ((s, u) ∷ st) v t n g =
    let m = yyr2 (yydefact s) in
    reduced_lighter s t m u v st (reduces_lowers s (top (drop m ((s, u) ∷ st))) t n g)

push-Falls :
    (z : ℤ) (v : Option ℤ) (p q : Parser)
    → ((t : ℕ) → z ≡ pos t → measure (record q { stack = (t, v) ∷ q.stack }) < measure p)
    → Falls p (push z v q)
unfolding push
push-Falls (negsuc n) v p q h = tt
push-Falls (pos t) v p q h = h t refl

kept-lighter :
    (p q : Parser) (st : Stack)
    → Keeps p q
    → heavy st < heavy p.stack
    → measure (record q { stack = st }) < measure p
kept-lighter p q st k h = ground (arith, k.input_kept, k.yychar_kept)

pop_goto-Falls :
    (p q : Parser) (v : Option ℤ)
    → Keeps p q
    → yydefact (top p.stack) ≢ 0
    → Falls p (pop_goto (yydefact (top p.stack)) v q)
unfolding pop_goto
pop_goto-Falls p q v k n =
    let m = yyr2 (yydefact (top p.stack)) in
    rw k.stack_kept (
      push-Falls (goto_state (yyr1 (yydefact (top p.stack)) - 13) (top (drop m p.stack))) v p
        (record q { stack = drop m p.stack })
        (λ t g. kept-lighter p q ((t, v) ∷ drop m p.stack) k (pop_goto-lighter p.stack v t n g)))

reduce-Falls :
    (p : Parser) → yydefact (top p.stack) ≢ 0 → Falls p (reduce (yydefact (top p.stack)) p)
unfolding reduce
reduce-Falls p n = elim (Option-cases (action (yydefact (top p.stack)) p)) [
  | inl e ↦ rw (reduce, e) tt
  | inr ((v, q), e) ↦
      rw (reduce, e) (pop_goto-Falls p q v (action-Keeps (yydefact (top p.stack)) p q v e) n)
]

default_action-Falls : (p : Parser) → Falls p (default_action p)
unfolding default_action
default_action-Falls p = elim (Bool-cases (yydefact (top p.stack) == 0)) [
  | inl e ↦ rw e (parse_error-Falls p p)
  | inr e ↦ rw e (reduce-Falls p (ground (arith)))
]

-- The token that ends the input has no shift but the final one.
end_table :
    holds_below 32 (λ i. not (yycheck i ==ℤ pos 0) || yytable i == 0 || yytable i == 2) ≡ true
unfolding holds_below yycheck yytable
end_table = refl

entry_end : (z : ℤ) (n : ℕ) → entry z 0 ≡ some n → (n ≡ 0) ⊎ (n ≡ 2)
unfolding entry
entry_end (negsuc i) n h = ground arith
entry_end (pos i) n h = elim (Bool-cases (ltb 31 i)) [
  | inl far ↦ ground arith
  | inr near ↦ ground (
    arith,
    holds_below_at 32 (λ i. not (yycheck i ==ℤ pos 0) || yytable i == 0 || yytable i == 2) i
        end_table,
  )
]

-- What `yytoken` is to `yychar` once there is one.
abbrev Sees : Parser → Type 0
Sees p = (c : ℕ) × (p.yychar ≡ some c) × (c ≡ 0 → p.yytoken ≡ 0)

entered-nonzero :
    (p : Parser) (n c : ℕ)
    → (c ≡ 0 → p.yytoken ≡ 0)
    → entry (yypact (top p.stack) +ℤ pos p.yytoken) p.yytoken ≡ some n
    → (n == 0) ≡ false
    → (n == 2) ≡ false
    → c ≢ 0
entered-nonzero p n c t e z w c0 =
    let y = t c0 in
    elim (entry_end (yypact (top p.stack) +ℤ pos 0) n (rw y at e)) [
      | inl h ↦ ground arith
      | inr h ↦ ground arith
    ]

table_action-Falls :
    (p : Parser) (n : ℕ)
    → Sees p
    → entry (yypact (top p.stack) +ℤ pos p.yytoken) p.yytoken ≡ some n
    → Falls p (table_action n p)
unfolding table_action
table_action-Falls p n (c, y, t) e = elim (Bool-cases (n == 0)) [
  | inl z ↦ rw (table_action, z) (parse_error-Falls p p)
  | inr z ↦ elim (Bool-cases (n == 2)) [
    | inl w ↦ rw (table_action, z, w) tt
    | inr w ↦
        rw (table_action, z, w) (shift-Falls p n c (ground arith) y (entered-nonzero p n c t e z w))
  ]
]

decide-Falls : (p : Parser) → Sees p → Falls p (decide p)
unfolding decide
decide-Falls p h = elim (Option-cases (entry (yypact (top p.stack) +ℤ pos p.yytoken) p.yytoken)) [
  | inl e ↦ rw (decide, e) (default_action-Falls p)
  | inr (n, e) ↦ rw (decide, e) (table_action-Falls p n h e)
]

next_token-Sees : (ts : List Token) (p : Parser) → Sees (next_token ts p)
unfolding next_token see
next_token-Sees [] p = (0, refl, λ z. refl)
next_token-Sees ((c, none) ∷ ts) p = (c, refl, λ z. ground arith)
next_token-Sees ((c, some v) ∷ ts) p = (c, refl, λ z. ground arith)

looked-Sees :
    (o : Option ℕ) (p : Parser) → Sees (elim o [ some c ↦ see c p | none ↦ next_token p.input p ])
unfolding see
looked-Sees none p = next_token-Sees p.input p
looked-Sees (some c) p = (c, refl, λ z. ground arith)

read_token-Sees : (p : Parser) → Sees (read_token p)
unfolding read_token
read_token-Sees p = looked-Sees p.yychar p

-- Reading takes from the input what it makes wait.
measure-read_token : (p : Parser) → measure (read_token p) ≤ measure p
unfolding read_token see next_token
measure-read_token p = ground arith

Falls-trans : (p q : Parser) (o : Outcome) → measure q ≤ measure p → Falls q o → Falls p o
Falls-trans p q (running r) h f = omega arith
Falls-trans p q (done n r) h f = tt
Falls-trans p q undefined h f = tt

backup-Falls : (p : Parser) → Falls p (backup p)
unfolding backup
backup-Falls p = elim (Bool-cases (yypact (top p.stack) ==ℤ negsuc 6)) [
  | inl e ↦ rw (backup, e) (default_action-Falls p)
  | inr e ↦
      rw (backup, e)
        (Falls-trans p (read_token p) (decide (read_token p)) (measure-read_token p)
          (decide-Falls (read_token p) (read_token-Sees p)))
]

-- A pass that does not end the parse lowers the measure, whatever state the parser is in.
pub step-Falls : (malloc : ℕ → Bool) (p : Parser) → Falls p (step malloc p)
unfolding step abort exhausted
step-Falls malloc p =
    let grown = record p { stacksize = min (p.stacksize * 2) 10000 } in
    ground (arith, backup-Falls p, backup-Falls grown, Falls-trans p grown (backup grown))

-- A pass that ends, ends the run; another is made with the fuel that is left.
run-pass :
    (malloc : ℕ → Bool) (f : ℕ) (p : Parser) (o : Outcome)
    → step malloc p ≡ o
    → Falls p o
    → ((q : Parser) → measure q < measure p → (o' : Outcome) × (run malloc f q ≡ some o'))
    → (o' : Outcome) × (run malloc (suc f) p ≡ some o')
unfolding run
run-pass malloc f p (running q) e w next = let (o', r) = next q w in (o', rw (run, e) r)
run-pass malloc f p (done n q) e w next = (done n q, rw (run, e) refl)
run-pass malloc f p undefined e w next = (undefined, rw (run, e) refl)

-- Fuel beyond the measure is enough.
pub run_ends :
    (malloc : ℕ → Bool) (f : ℕ) (p : Parser)
    → measure p < f
    → (o : Outcome) × (run malloc f p ≡ some o)
run_ends malloc zero p h = absurd (omega arith)
run_ends malloc (suc f) p h =
    run-pass malloc f p (step malloc p) refl (step-Falls malloc p)
      (λ q w. run_ends malloc f q (omega arith))
