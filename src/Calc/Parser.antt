-- ===== src/Calc/Parser.antt =====
-- packetdrill/calc.tab.c: `yyparse`. The pass from one `goto yynewstate` to the next is `step`.
pub mod Reach
pub mod Automaton
pub mod Derives
pub mod Rules
pub mod Sound
pub mod LookAhead
pub mod Refusal
pub mod Trail
pub mod Phrases
pub mod Operators
pub mod Expressions
pub mod Statements
pub mod Termination
pub mod Actions
pub mod Halts
pub mod Total
pub mod Verdicts
use network_course.Prelude.{
  ℕ, zero, suc, ◌*◌, ◌-◌, Bool, not, Option, none, some, List, [], ◌∷◌, length, min, leb, ◌==◌,
  if◌then◌else◌,
}
use network_course.Prelude.Int.{ℤ, pos, ◌+ℤ◌, ◌==ℤ◌}
use network_course.Calc.Tables.{yydefact, yypact}
use network_course.Calc.State.{
  Token, Parser, Outcome, running, initdepth, maxdepth, yyfinal, pact_ninf, stack_bytes, accept,
  abort, exhausted, top, entry, push, read_token,
}
use network_course.Calc.Reduce.{reduce}
use network_course.Calc.Recover.{parse_error}

-- Shift the look-ahead token; the end of the input is not discarded.
unfoldable pub shift : ℕ → Parser → Outcome
unfolding push
shift n p = push (pos n) (some p.yylval) (record p {
  errstatus = p.errstatus - 1;
  yychar = elim p.yychar [ none ↦ none | some c ↦ if c == 0 then some 0 else none ];
})

-- `yydefault`.
unfoldable pub default_action : Parser → Outcome
unfolding reduce parse_error yydefact
default_action p = let r = yydefact (top p.stack) in if r == 0 then parse_error p else reduce r p

-- The entry of `yytable` is unsigned, so it is no reduction: 0 is an error, the rest are shifts.
unfoldable pub table_action : ℕ → Parser → Outcome
unfolding shift accept parse_error
table_action n p = if n == 0 then parse_error p else if n == yyfinal then accept p else shift n p

-- With the look-ahead token at hand.
unfoldable pub decide : Parser → Outcome
unfolding table_action default_action entry yypact ◌+ℤ◌
decide p = elim (entry (yypact (top p.stack) +ℤ pos p.yytoken) p.yytoken) [
  | none ↦ default_action p
  | some n ↦ table_action n p
]

-- `yybackup`.
unfoldable pub backup : Parser → Outcome
unfolding decide default_action read_token
backup p = if yypact (top p.stack) ==ℤ pact_ninf then default_action p else decide (read_token p)

-- `malloc`, by the number of bytes asked for.
module _ (malloc : ℕ → Bool) where
  -- The test for overflow of `yysetstate`, and what follows it.
  unfoldable pub step : Parser → Outcome
  unfolding exhausted abort
  step p =
      let depth = length p.stack in
      let size = min (p.stacksize * 2) maxdepth in
      let grown = record p { stacksize = size } in
      if not (leb p.stacksize depth)
      then backup p
      else if leb maxdepth p.stacksize
      then exhausted p
      else if not (malloc (stack_bytes size))
      then exhausted grown
      else if leb size depth
      then abort grown
      else backup grown

  -- `none` is fuel that ran out.
  unfoldable pub run : ℕ → Parser → Option Outcome
  run zero p = none
  run (suc f) p = elim (step p) [ running q ↦ run f q | other ↦ some other ]

-- As `yyparse` begins, with `sym` as the program has it.
abbrev pub initial : List ℤ → List Token → Parser
initial m ts = record {
  stack = (0, none) ∷ [];
  stacksize = initdepth;
  errstatus = 0;
  nerrs = 0;
  yychar = none;
  yytoken = 0;
  yylval = pos 0;
  sym = m;
  out = [];
  complaints = [];
  input = ts;
}
