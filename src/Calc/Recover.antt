-- ===== src/Calc/Recover.antt =====
-- packetdrill/calc.tab.c: `yyerrlab` and `yyerrlab1`, on a token that the automaton refuses.
use network_course.Prelude.{◌+◌, none, some, [], ◌∷◌, ◌++◌, ◌==◌, if◌then◌else◌}
use network_course.Prelude.Int.{pos, ◌+ℤ◌, ◌==ℤ◌}
use network_course.Calc.Tables.{yypact}
use network_course.Calc.State.{
  Stack, syntax_error, Parser, Outcome, yyfinal, pact_ninf, accept, abort, entry, push,
}

-- The loop of `yyerrlab1`: pop until a state shifts the error token 1. Popping the last state is
-- YYABORT.
unfoldable pub recover : Stack → Parser → Outcome
unfolding entry push yypact ◌+ℤ◌
recover [] p = abort p
recover (e ∷ st) p =
    let rest = recover st (record p { stack = st }) in
    let popped : Outcome = elim st [ [] ↦ abort p | x ∷ xs ↦ rest ] in
    if yypact (e.0) ==ℤ pact_ninf then popped else elim (entry (yypact (e.0) +ℤ pos 1) 1) [
      | none ↦ popped
      | some n ↦
          if n == 0
          then popped
          else if n == yyfinal
          then accept p
          else push (pos n) (some p.yylval) p
    ]

-- `yyerrlab1`.
unfoldable pub error_recovery : Parser → Outcome
unfolding recover abort entry push accept
error_recovery p = recover p.stack (record p { errstatus = 3 })

-- `yyerrlab`: report, unless still recovering; after a second failure on one token, drop it.
unfoldable pub report : Parser → Parser
report p =
    if p.errstatus == 0
    then record p { nerrs = p.nerrs + 1; complaints = p.complaints ++ syntax_error ∷ [] }
    else p

unfoldable pub discard : Parser → Outcome
unfolding error_recovery
discard p = elim p.yychar [
  | none ↦ error_recovery p
  | some c ↦ if c == 0 then abort p else error_recovery (record p { yychar = none })
]

unfoldable pub parse_error : Parser → Outcome
unfolding report discard error_recovery
parse_error p = let q = report p in if q.errstatus == 3 then discard q else error_recovery q
