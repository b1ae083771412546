-- ===== src/Calc/Parser/Actions.antt =====
-- What the actions of calc.tab.c leave alone.
use network_course.Prelude.{ℕ, ◌≡◌, refl, Option, some, arith}
use network_course.Prelude.Int.{ℤ, add_int, sub_int, mul_int, div_int}
use network_course.Calc.State.{Stack, Parser}
use network_course.Calc.Reduce.{action, binary, load, assign, print_value}

-- The actions write `sym` and print: they leave the rest alone.
pub record Keeps (p q : Parser) : Type 0 where
  pub stack_kept : q.stack ≡ p.stack
  pub input_kept : q.input ≡ p.input
  pub yychar_kept : q.yychar ≡ p.yychar
  pub stacksize_kept : q.stacksize ≡ p.stacksize
  pub errstatus_kept : q.errstatus ≡ p.errstatus
  pub complaints_kept : q.complaints ≡ p.complaints

print_value-Keeps :
    (st : Stack) (p q : Parser) (v : Option ℤ) → print_value st p ≡ some (v, q) → Keeps p q
unfolding print_value
print_value-Keeps st p q v h = ground arith

assign-Keeps : (st : Stack) (p q : Parser) (v : Option ℤ) → assign st p ≡ some (v, q) → Keeps p q
unfolding assign
assign-Keeps st p q v h = ground arith

load-Keeps : (st : Stack) (p q : Parser) (v : Option ℤ) → load st p ≡ some (v, q) → Keeps p q
unfolding load
load-Keeps st p q v h = ground arith

binary-Keeps :
    (op : ℤ → ℤ → Option ℤ) (st : Stack) (p q : Parser) (v : Option ℤ)
    → binary op st p ≡ some (v, q)
    → Keeps p q
unfolding binary
binary-Keeps op st p q v h = ground arith

default-Keeps : (p : Parser) → Keeps p p
default-Keeps p = record {
  stack_kept = refl;
  input_kept = refl;
  yychar_kept = refl;
  stacksize_kept = refl;
  errstatus_kept = refl;
  complaints_kept = refl;
}

pub action-Keeps : (r : ℕ) (p q : Parser) (v : Option ℤ) → action r p ≡ some (v, q) → Keeps p q
unfolding action
action-Keeps r p q v h = ground (
  arith,
  print_value-Keeps p.stack p q v,
  assign-Keeps p.stack p q v,
  load-Keeps p.stack p q v,
  binary-Keeps add_int p.stack p q v,
  binary-Keeps sub_int p.stack p q v,
  binary-Keeps mul_int p.stack p q v,
  binary-Keeps div_int p.stack p q v,
  default-Keeps p,
)
