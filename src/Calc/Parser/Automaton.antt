-- ===== src/Calc/Parser/Automaton.antt =====
-- The LALR automaton of packetdrill/calc.tab.c as a graph: which state follows which, and on what symbol.
use network_course.Prelude.{
  ℕ, ◌-◌, ◌<◌, ◌≡◌, ◌≢◌, refl, Bool, true, false, not, ◌&&◌, ◌||◌, none, some, List, [], ◌∷◌,
  get_or, length, ltb, ◌==◌, ==_iff, arith, holds_below, holds_below_at,
}
use network_course.Prelude.Int.{pos, negsuc, ◌+ℤ◌}
use network_course.Calc.Tables.{yydefact, yypact, yyr1, yyr2}
use network_course.Calc.State.{entry, goto_state}

-- `yystos`: the symbol on which a state is entered.
yystos_table : List ℕ
yystos_table =
    0 ∷ 14 ∷ 0 ∷ 3 ∷ 4 ∷ 11 ∷ 15 ∷ 16 ∷ 10 ∷ 4 ∷ 16 ∷ 9 ∷ 5 ∷ 6 ∷ 7 ∷ 8 ∷ 16 ∷ 12 ∷ 16 ∷ 16 ∷ 16
    ∷ 16 ∷ []

unfoldable pub yystos : ℕ → ℕ
unfolding yystos_table
yystos s = get_or yystos_table s 0

-- The rules of `yyrhs`, each from its last symbol to its first.
unfoldable pub rhs : ℕ → List ℕ
rhs r =
    get_or
      ([]
        ∷ []
        ∷ (9 ∷ 15 ∷ 14 ∷ [])
        ∷ []
        ∷ (16 ∷ [])
        ∷ (16 ∷ 10 ∷ 4 ∷ [])
        ∷ (3 ∷ [])
        ∷ (4 ∷ [])
        ∷ (16 ∷ 5 ∷ 16 ∷ [])
        ∷ (16 ∷ 6 ∷ 16 ∷ [])
        ∷ (16 ∷ 7 ∷ 16 ∷ [])
        ∷ (16 ∷ 8 ∷ 16 ∷ [])
        ∷ (12 ∷ 16 ∷ 11 ∷ [])
        ∷ [])
      r []

-- The states that may stand on a state.
abbrev after_expr : List ℕ
after_expr = 12 ∷ 13 ∷ 14 ∷ 15 ∷ []

abbrev in_operand : List ℕ
in_operand = 3 ∷ 5 ∷ 9 ∷ []

abbrev successors : ℕ → List ℕ
successors a =
    get_or
      ((1 ∷ [])
        ∷ (3 ∷ 4 ∷ 5 ∷ 6 ∷ 7 ∷ [])
        ∷ []
        ∷ []
        ∷ (8 ∷ [])
        ∷ (10 ∷ in_operand)
        ∷ (11 ∷ [])
        ∷ after_expr
        ∷ (16 ∷ in_operand)
        ∷ []
        ∷ (17 ∷ after_expr)
        ∷ []
        ∷ (18 ∷ in_operand)
        ∷ (19 ∷ in_operand)
        ∷ (20 ∷ in_operand)
        ∷ (21 ∷ in_operand)
        ∷ after_expr
        ∷ []
        ∷ (14 ∷ 15 ∷ [])
        ∷ (14 ∷ 15 ∷ [])
        ∷ [])
      a []

abbrev contains : List ℕ → ℕ → Bool
contains [] b = false
contains (x ∷ xs) b = x == b || contains xs b

unfoldable pub edge : ℕ → ℕ → Bool
edge a b = contains (successors a) b

abbrev pub implies : Bool → Bool → Bool
implies true b = b
implies false b = true

-- A shift follows an edge, to a state of the token's symbol.
abbrev shift_fits : ℕ → ℕ → Bool
shift_fits a t = elim (entry (yypact a +ℤ pos t) t) [
  | none ↦ true
  | some n ↦ n == 0 || n == 2 || (edge a n && yystos n == t && ltb n 22)
]

shifts_fit : holds_below 22 (λ a. holds_below 13 (λ t. shift_fits a t)) ≡ true
unfolding holds_below entry yypact edge yystos ◌+ℤ◌
shifts_fit = refl

-- After `goto`, where the automaton stands on an edge's way.
abbrev goto_fits : ℕ → ℕ → Bool
goto_fits x a = elim (goto_state (x - 13) a) [
  | pos b ↦ edge a b && yystos b == x && ltb b 22
  | negsuc n ↦ true
]

-- On every way to the state, the symbols of a rule, from the last on, and `goto` before the first.
unfoldable pub fits : ℕ → List ℕ → ℕ → Bool
unfolding goto_state edge yystos
fits x [] a = goto_fits x a
fits x (y ∷ ys) a =
    yystos a == y && (not (a == 0) && holds_below 22 (λ b. implies (edge b a) (fits x ys b)))

reductions_fit :
    holds_below 22 (λ s.
      s == 2
      || yydefact s == 0
      || fits (yyr1 (yydefact s)) (rhs (yydefact s)) s
        && length (rhs (yydefact s)) == yyr2 (yydefact s)
        && ltb (yydefact s) 13
        && ltb 1 (yydefact s))
    ≡ true
unfolding holds_below yydefact yyr1 yyr2 rhs fits
reductions_fit = refl

-- The end is accepted only behind a whole program.
abbrev accept_fits : ℕ → ℕ → Bool
accept_fits a t = elim (entry (yypact a +ℤ pos t) t) [
  | none ↦ true
  | some n ↦ not (n == 2) || a == 1 && t == 0
]

accepts_fit : holds_below 22 (λ a. holds_below 13 (λ t. accept_fits a t)) ≡ true
unfolding holds_below entry yypact ◌+ℤ◌
accepts_fit = refl

and_true : (a b : Bool) → (a && b) ≡ true → (a ≡ true) × (b ≡ true)
and_true true b h = (refl, h)
and_true false b h = absurd (ground arith)

holds_twice :
    (m n : ℕ) (test : ℕ → ℕ → Bool) (i j : ℕ)
    → holds_below m (λ i. holds_below n (λ j. test i j)) ≡ true
    → i < m
    → j < n
    → test i j ≡ true
holds_twice m n test i j h k l =
    holds_below_at n (λ j. test i j) j (holds_below_at m (λ i. holds_below n (λ j. test i j)) i h k)
      l

pub shift-edge :
    (a t n : ℕ)
    → a < 22
    → t < 13
    → entry (yypact a +ℤ pos t) t ≡ some n
    → (n == 0) ≡ false
    → (n == 2) ≡ false
    → (edge a n ≡ true) × (yystos n ≡ t) × (n < 22)
shift-edge a t n h k e z w =
    let checked : (n == 0 || n == 2 || (edge a n && yystos n == t && ltb n 22)) ≡ true =
      rw (shift_fits, e) at (holds_twice 22 13 shift_fits a t shifts_fit h k) in
    let all : (edge a n && yystos n == t && ltb n 22) ≡ true = rw (z, w) at checked in
    ground (arith, all)

pub accept-edge :
    (a t : ℕ) → a < 22 → t < 13 → entry (yypact a +ℤ pos t) t ≡ some 2 → (a ≡ 1) × (t ≡ 0)
accept-edge a t h k e =
    let checked : (a == 1 && t == 0) ≡ true =
      rw (accept_fits, e) at (holds_twice 22 13 accept_fits a t accepts_fit h k) in
    ground (arith, checked)

pub reduction-fits :
    (s : ℕ)
    → s < 22
    → s ≢ 2
    → (yydefact s == 0) ≡ false
    → (fits (yyr1 (yydefact s)) (rhs (yydefact s)) s ≡ true)
      × (length (rhs (yydefact s)) ≡ yyr2 (yydefact s))
      × (yydefact s < 13)
      × (1 < yydefact s)
reduction-fits s h n z =
    let checked =
      holds_below_at 22
        (λ s.
          s == 2
          || yydefact s == 0
          || fits (yyr1 (yydefact s)) (rhs (yydefact s)) s
            && length (rhs (yydefact s)) == yyr2 (yydefact s)
            && ltb (yydefact s) 13
            && ltb 1 (yydefact s))
        s reductions_fit h in
    ground (arith, checked)

pub fits-below :
    (x y : ℕ) (ys : List ℕ) (a : ℕ)
    → fits x (y ∷ ys) a ≡ true
    → (yystos a ≡ y) × (a ≢ 0) × ((b : ℕ) → b < 22 → edge b a ≡ true → fits x ys b ≡ true)
unfolding fits
fits-below x y ys a h =
    let (same, others) = and_true (yystos a == y) _ h in
    let (above, below) = and_true (not (a == 0)) _ others in
    (
      ground (arith, same),
      ground (arith, above),
      λ b l e. rw e at (holds_below_at 22 (λ b. implies (edge b a) (fits x ys b)) b below l),
    )

pub fits-goto :
    (x a b : ℕ)
    → fits x [] a ≡ true
    → goto_state (x - 13) a ≡ pos b
    → (edge a b ≡ true) × (yystos b ≡ x) × (b < 22)
unfolding fits
fits-goto x a b h e =
    let checked : (edge a b && yystos b == x && ltb b 22) ≡ true = rw (goto_fits, e) at h in
    ground (arith, checked)

edges_named :
    holds_below 22 (λ a. holds_below 22 (λ n. implies (edge a n) (not (yystos n == 0)))) ≡ true
unfolding holds_below edge yystos
edges_named = refl

-- No edge leads to a state that is entered at the end of the input.
pub edge-yystos : (a n : ℕ) → a < 22 → n < 22 → edge a n ≡ true → yystos n ≢ 0
edge-yystos a n h k e z = absurd (
    ground (
      arith,
      rw (e, z) at
          (holds_twice 22 22 (λ a n. implies (edge a n) (not (yystos n == 0))) a n edges_named h k),
    ))

first_edge : holds_below 22 (λ a. implies (edge a 1) (a == 0)) ≡ true
unfolding holds_below edge
first_edge = refl

pub edge-first : (a : ℕ) → a < 22 → edge a 1 ≡ true → a ≡ 0
edge-first a h e =
    (==_iff a 0).0 (rw e at (holds_below_at 22 (λ a. implies (edge a 1) (a == 0)) a first_edge h))
