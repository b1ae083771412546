-- ===== src/Calc/Parser/Trail.antt =====
-- The stack of `yyparse` as a way through the automaton, with the tokens that it stands for.
use network_course.Prelude.{
  ℕ, ◌<◌, ◌≡◌, ◌≢◌, refl, sym, ap, ◌∙◌, true, Option, List, [], ◌∷◌, ◌++◌, append_assoc, append-nil,
  length, drop, arith,
}
use network_course.Prelude.Int.{ℤ}
use network_course.Calc.State.{Token, Stack, top}
use network_course.Calc.Parser.Automaton.{yystos, edge, fits, fits-below, edge-yystos}
use network_course.Calc.Parser.Derives.{Derives, DerivesAll, all_nil, all_cons}

-- The states on the stack follow one another in the automaton, and the symbols on which they were entered derive
-- the tokens.
pub data Trail : Stack → List Token → Type 0 where
  bottom : (v : Option ℤ) → Trail ((0, v) ∷ []) []
  above :
      (s : ℕ) (v : Option ℤ) (st : Stack) (ts us : List Token)
      → s < 22
      → edge (top st) s ≡ true
      → Trail st ts
      → Derives (yystos s) us
      → Trail ((s, v) ∷ st) (ts ++ us)

pub Trail-top : (st : Stack) (ts : List Token) → Trail st ts → top st < 22
Trail-top st ts (bottom v) = omega arith
Trail-top st ts (above s v st' ts' us h e p d) = h

pub Trail-not_two : (st : Stack) (ts : List Token) → Trail st ts → top st ≢ 2
unfolding yystos
Trail-not_two st ts (bottom v) e = absurd (omega (arith, e))
Trail-not_two st ts (above s v st' ts' us h e p d) k =
    edge-yystos (top st') s (Trail-top st' ts' p) h e (ap yystos k)

-- The symbols of a rule, taken off the stack.
pub record Popped (x : ℕ) (ys : List ℕ) (st : Stack) (ts : List Token) : Type 0 where
  pub before : List Token
  pub derived : List Token
  pub path : Trail (drop (length ys) st) before
  pub all_derived : DerivesAll ys derived
  pub joined : ts ≡ before ++ derived
  pub fits_below : fits x [] (top (drop (length ys) st)) ≡ true

pub pops :
    (x : ℕ) (ys : List ℕ) (st : Stack) (ts : List Token)
    → Trail st ts
    → fits x ys (top st) ≡ true
    → Popped x ys st ts
pops x [] st ts p f = record {
  before = ts;
  derived = [];
  path = p;
  all_derived = all_nil;
  joined = sym (append-nil ts);
  fits_below = f;
}
pops x (y ∷ ys) st ts (bottom v) f = absurd ((fits-below x y ys 0 f).1 refl)
pops x (y ∷ ys) st ts (above s v st' ts' us h e p d) f =
    let (same, nonzero, below) = fits-below x y ys s f in
    let r = pops x ys st' ts' p (below (top st') (Trail-top st' ts' p) e) in
    record {
      before = r.before;
      derived = r.derived ++ us;
      path = r.path;
      all_derived = all_cons y ys r.derived us r.all_derived (rw same at d);
      joined = ap (λ l. l ++ us) r.joined ∙ append_assoc r.before r.derived us;
      fits_below = r.fits_below;
    }
