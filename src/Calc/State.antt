-- ===== src/Calc/State.antt =====
-- packetdrill/calc.tab.c: the variables of `yyparse`, and the reads and writes that its labels share.
-- `yyss` and `yyvs` grow and shrink together and are one list of pairs here, the top first; `none` is
-- a semantic value that was never written. The tokens still to come from `yylex` are a list, which
-- ends in the token 0 for ever.
use network_course.Prelude.{
  ℕ, zero, suc, ◌+◌, ◌*◌, not, ◌||◌, Option, none, some, List, [], ◌∷◌, ◌++◌, length, get_elem?,
  set, ltb, ◌==◌, if◌then◌else◌,
}
use network_course.Prelude.Int.{ℤ, pos, negsuc, ◌+ℤ◌, ◌==ℤ◌}
use network_course.Calc.Tables.{translate, yytable, yycheck, yypgoto, yydefgoto}

-- What `yylex` returns, and the `yylval` that it writes, if it writes one.
abbrev pub Token : Type 0
Token = ℕ × Option ℤ

abbrev pub Stack : Type 0
Stack = List (ℕ × Option ℤ)

-- What `yyerror` is called with.
pub data Complaint : Type 0 where
  syntax_error memory_exhausted : Complaint

-- The variables of `yyparse`, the globals `yychar`, `yylval`, `yynerrs` and `sym`, and what was
-- printed. `yychar` is `none` for YYEMPTY.
pub record Parser : Type 0 where
  pub stack : Stack
  pub stacksize : ℕ
  pub errstatus : ℕ
  pub nerrs : ℕ
  pub yychar : Option ℕ
  pub yytoken : ℕ
  pub yylval : ℤ
  pub sym : List ℤ
  pub out : List ℤ
  pub complaints : List Complaint
  pub input : List Token

-- `goto yynewstate`, `return yyresult`, undefined behaviour.
pub data Outcome : Type 0 where
  running : Parser → Outcome
  done : ℕ → Parser → Outcome
  undefined : Outcome

-- YYINITDEPTH, YYMAXDEPTH and YYPACT_NINF.
abbrev pub initdepth : ℕ
initdepth = 200

abbrev pub maxdepth : ℕ
maxdepth = 10000

abbrev pub yyfinal : ℕ
yyfinal = 2

abbrev pub yylast : ℕ
yylast = 31

abbrev pub pact_ninf : ℤ
pact_ninf = negsuc 6

-- YYSTACK_BYTES, with two bytes to a state and four to a value.
abbrev pub stack_bytes : ℕ → ℕ
stack_bytes n = n * (2 + 4) + 3

unfoldable pub accept : Parser → Outcome
accept p = done 0 p

unfoldable pub abort : Parser → Outcome
abort p = done 1 p

unfoldable pub exhausted : Parser → Outcome
exhausted p = done 2 (record p { complaints = p.complaints ++ memory_exhausted ∷ [] })

-- `*yyssp`.
abbrev pub top : Stack → ℕ
top [] = 0
top ((s, v) ∷ st) = s

-- `yyvsp[-k]`; reading a value that was never written is undefined.
abbrev pub value : ℕ → Stack → Option ℤ
value k [] = none
value zero ((s, v) ∷ st) = v
value (suc k) ((s, v) ∷ st) = value k st

-- `yypop(yypact[yystate] + yytoken)`, the test that `yybackup` and `yyerrlab1` make: the entry of
-- `yytable` that an index leads to, where `yycheck` owns it to the symbol.
unfoldable pub entry : ℤ → ℕ → Option ℕ
unfolding yycheck yytable
entry (negsuc _) t = none
entry (pos i) t = if ltb yylast i || not (yycheck i ==ℤ pos t) then none else some (yytable i)

-- The state after a reduction to nonterminal `x`, over state `s`.
unfoldable pub goto_state : ℕ → ℕ → ℤ
unfolding entry yypgoto yydefgoto ◌+ℤ◌
goto_state x s =
    let default = yydefgoto x in
    elim (entry (yypgoto x +ℤ pos s) s) [ none ↦ default | some t ↦ pos t ]

-- `goto yynewstate` with the state and the value to push.
unfoldable pub push : ℤ → Option ℤ → Parser → Outcome
push (negsuc _) v p = undefined
push (pos s) v p = running (record p { stack = (s, v) ∷ p.stack })

-- `yychar` holds a token: its translation.
unfoldable pub see : ℕ → Parser → Parser
unfolding translate
see c p = record p { yychar = some c; yytoken = if c == 0 then 0 else translate c }

-- `yychar = YYLEX`, with what is left of the input.
unfoldable pub next_token : List Token → Parser → Parser
unfolding see
next_token [] p = see 0 p
next_token ((c, none) ∷ ts) p = see c (record p { input = ts })
next_token ((c, some v) ∷ ts) p = see c (record p { yylval = v; input = ts })

-- The look-ahead token, read if there is none yet.
unfoldable pub read_token : Parser → Parser
unfolding next_token
read_token p = elim p.yychar [ some c ↦ see c p | none ↦ next_token p.input p ]

-- `sym[i]`, within its 26 cells.
unfoldable pub read_sym : List ℤ → ℤ → Option ℤ
read_sym m (pos i) = get_elem? m i
read_sym m (negsuc _) = none

unfoldable pub write_sym : List ℤ → ℤ → ℤ → Option (List ℤ)
write_sym m (pos i) v = if ltb i (length m) then some (set m i v) else none
write_sym m (negsuc _) v = none
