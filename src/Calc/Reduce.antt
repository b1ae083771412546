-- ===== src/Calc/Reduce.antt =====
-- packetdrill/calc.tab.c: `yyreduce`, with the actions of the rules of packetdrill/calc.y.
use network_course.Prelude.{
  ℕ, zero, suc, ◌-◌, Option, none, some, [], ◌∷◌, ◌++◌, drop, ◌>>=◌, ◌==◌, if◌then◌else◌,
}
use network_course.Prelude.Int.{ℤ, add_int, sub_int, mul_int, div_int}
use network_course.Calc.Tables.{yyr1, yyr2}
use network_course.Calc.State.{
  Stack, Parser, Outcome, undefined, top, value, goto_state, push, read_sym, write_sym,
}

-- The actions of the rules of calc.y, from the switch of `yyreduce`: the value of `$$`, and the
-- parser with what was printed and assigned. A rule with no action keeps `$$ = $1`.
unfoldable pub print_value : Stack → Parser → Option (Option ℤ × Parser)
print_value st p = do v ← value 0 st; some (some v, record p { out = p.out ++ v ∷ [] })

unfoldable pub assign : Stack → Parser → Option (Option ℤ × Parser)
assign st p = do
  i ← value 2 st
  v ← value 0 st
  m ← write_sym p.sym i v
  some (some i, record p { sym = m })

unfoldable pub load : Stack → Parser → Option (Option ℤ × Parser)
load st p = do i ← value 0 st; v ← read_sym p.sym i; some (some v, p)

unfoldable pub binary : (ℤ → ℤ → Option ℤ) → Stack → Parser → Option (Option ℤ × Parser)
binary op st p = do a ← value 2 st; b ← value 0 st; v ← op a b; some (some v, p)

-- `yyvsp[1 - yylen]`: above the top where the rule is empty.
unfoldable pub first_value : ℕ → Stack → Option ℤ
first_value zero st = none
first_value (suc n) st = value n st

unfoldable pub action : ℕ → Parser → Option (Option ℤ × Parser)
unfolding yyr2 print_value assign load binary first_value read_sym write_sym
action r p =
    if r == 4
    then print_value p.stack p
    else if r == 5
    then assign p.stack p
    else if r == 7
    then load p.stack p
    else if r == 8
    then binary add_int p.stack p
    else if r == 9
    then binary sub_int p.stack p
    else if r == 10
    then binary mul_int p.stack p
    else if r == 11
    then binary div_int p.stack p
    else if r == 12
    then some (value 1 p.stack, p)
    else some (first_value (yyr2 r) p.stack, p)

-- YYPOPSTACK (yylen), `*++yyvsp = yyval`, and the state that the reduction leads to.
unfoldable pub pop_goto : ℕ → Option ℤ → Parser → Outcome
unfolding goto_state push yyr1 yyr2
pop_goto r v p =
    let st = drop (yyr2 r) p.stack in
    push (goto_state (yyr1 r - 13) (top st)) v (record p { stack = st })

-- `yyreduce`.
unfoldable pub reduce : ℕ → Parser → Outcome
unfolding action pop_goto
reduce r p = elim (action r p) [ none ↦ undefined | some (v, q) ↦ pop_goto r v q ]
