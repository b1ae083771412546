-- ===== src/Calc/Parser/Termination.antt =====
-- `yyparse` comes to an end on every input: each pass makes a number smaller.
use network_course.Prelude.{
  ℕ, zero, suc, ◌+◌, ◌-◌, ◌*◌, ◌≤◌, ◌<◌, ◌≡◌, ◌≢◌, refl, ◌∙◌, Bool, true, not, ◌&&◌, ◌||◌, Option,
  none, some, List, [], ◌∷◌, length, get_or, drop, leb, ltb, ◌==◌, Bool-cases, if◌then◌else◌, ◌⊎◌,
  inl, inr, arith, holds_below, holds_below_at,
}
use network_course.Prelude.Int.{ℤ, pos, negsuc, ◌+ℤ◌, ◌==ℤ◌}
use network_course.Calc.Tables.{
  yydefact, yydefact_table, yyr1, yyr2, yypact, yycheck, yypgoto, yydefgoto,
}
use network_course.Calc.State.{
  Stack, Parser, Outcome, running, done, undefined, top, entry, goto_state, abort,
}
use network_course.Calc.Recover.{recover}

-- What a state on the stack counts for: the most where a reduction is sure.
abbrev pub weights : List ℕ
weights = 1 ∷ 1 ∷ 1 ∷ 4 ∷ 4 ∷ 1 ∷ 1 ∷ 2 ∷ 1 ∷ 4 ∷ 2 ∷ 2 ∷ 1 ∷ 1 ∷ 1 ∷ 1 ∷ 2 ∷ 4 ∷ 3 ∷ 3 ∷ 3 ∷ 3 ∷ []

unfoldable pub weight : ℕ → ℕ
weight s = get_or weights s 1

abbrev pub weigh : Stack → ℕ
weigh [] = 0
weigh ((s, v) ∷ st) = weight s + weigh st

-- `program` is empty before the first line.
abbrev pub bonus : ℕ → ℕ
bonus s = if s == 0 then 2 else 0

-- A token that waits, but for the end.
abbrev pub waiting : Option ℕ → ℕ
waiting none = 0
waiting (some c) = if c == 0 then 0 else 1

abbrev pub measure : Parser → ℕ
measure p = 5 * (length p.input + waiting p.yychar) + weigh p.stack + bonus (top p.stack)

-- The reduction of state `s` over state `e` lowers the weight.
abbrev pub lowers : ℕ → ℕ → ℕ → ℕ → Bool
lowers s e n t =
    not (t == 0)
    && (if n == 0 then s == 0 && leb (weight t) 1 else ltb (weight t) (weight s + (n - 1)))
    && (not (e == 0) || n == 0 || ltb (weight t) (weight s))

reduces : ℕ → ℕ → Bool
reduces s e =
    let r = yydefact s in
    let lowered : Bool = elim (goto_state (yyr1 r - 13) e) [
      | negsuc _ ↦ true
      | pos t ↦ lowers s e (yyr2 r) t
    ] in
    r == 0 || lowered

reduces_table : holds_below 22 (λ s. holds_below 40 (λ e. reduces s e)) ≡ true
unfolding holds_below reduces yydefact goto_state yyr1 yyr2 weight
reduces_table = refl

get_or_past : (xs : List ℕ) (i d : ℕ) → length xs ≤ i → get_or xs i d ≡ d
get_or_past [] i d h = refl
get_or_past (x ∷ xs) zero d h = absurd (omega arith)
get_or_past (x ∷ xs) (suc i) d h = get_or_past xs i d (omega arith)

yydefact_past : (s : ℕ) → 22 ≤ s → yydefact s ≡ 0
unfolding yydefact yydefact_table
yydefact_past s h = get_or_past yydefact_table s 0 h

-- `$accept`, `program`, `statement` and `expr`.
abbrev IsReduced : ℕ → Type 0
IsReduced x = (x ≡ 0) ⊎ (x ≡ 1) ⊎ (x ≡ 2) ⊎ (x ≡ 3)

reduced_table :
    holds_below 22 (λ s.
      let x = yyr1 (yydefact s) - 13 in yydefact s == 0 || x == 0 || x == 1 || x == 2 || x == 3)
    ≡ true
unfolding holds_below yydefact yyr1
reduced_table = refl

IsReduced-to : (s : ℕ) → s < 22 → yydefact s ≢ 0 → IsReduced (yyr1 (yydefact s) - 13)
IsReduced-to s h n = ground (
  arith,
  holds_below_at 22
      (λ s.
        let x = yyr1 (yydefact s) - 13 in yydefact s == 0 || x == 0 || x == 1 || x == 2 || x == 3)
      s reduced_table h,
)

AllPositive : List ℕ → Type 0
AllPositive [] = Unit
AllPositive (x ∷ xs) = (1 ≤ x) × AllPositive xs

one-le-get_or : (xs : List ℕ) (i : ℕ) → AllPositive xs → 1 ≤ get_or xs i 1
unfolding AllPositive
one-le-get_or [] i h = omega arith
one-le-get_or (x ∷ xs) zero h = h.0
one-le-get_or (x ∷ xs) (suc i) h = one-le-get_or xs i (h.1)

one-le-weight : (s : ℕ) → 1 ≤ weight s
unfolding weight AllPositive
one-le-weight s = one-le-get_or weights s (omega arith)

AllSmall : List ℕ → Type 0
AllSmall [] = Unit
AllSmall (x ∷ xs) = (x ≤ 4) × AllSmall xs

get_or-le : (xs : List ℕ) (i : ℕ) → AllSmall xs → get_or xs i 1 ≤ 4
unfolding AllSmall
get_or-le [] i h = omega arith
get_or-le (x ∷ xs) zero h = h.0
get_or-le (x ∷ xs) (suc i) h = get_or-le xs i (h.1)

pub weight-le : (s : ℕ) → weight s ≤ 4
unfolding weight AllSmall
weight-le s = get_or-le weights s (omega arith)

-- Far away every state is the same to `yypgoto`.
entry_far : (i e : ℕ) → 32 ≤ i → entry (pos i) e ≡ none
unfolding entry
entry_far i e h = ground arith

pgoto_far : (x e : ℕ) → IsReduced x → 39 ≤ e → (i : ℕ) × (yypgoto x +ℤ pos e ≡ pos i) × (32 ≤ i)
unfolding yypgoto ◌+ℤ◌
pgoto_far x e (inl h) f = rw h (e - 7, ground arith, omega arith)
pgoto_far x e (inr (inl h)) f = rw h (e - 7, ground arith, omega arith)
pgoto_far x e (inr (inr (inl h))) f = rw h (e - 7, ground arith, omega arith)
pgoto_far x e (inr (inr (inr h))) f = rw h (e + 1, ground arith, omega arith)

goto_none : (x e : ℕ) → entry (yypgoto x +ℤ pos e) e ≡ none → goto_state x e ≡ yydefgoto x
unfolding goto_state
goto_none x e h = rw (h, goto_state) refl

goto_far : (x e : ℕ) → IsReduced x → 39 ≤ e → goto_state x e ≡ yydefgoto x
goto_far x e h f = let (i, a, b) = pgoto_far x e h f in goto_none x e (rw a (entry_far i e b))

reduces_far : (s e : ℕ) → s < 22 → 39 ≤ e → yydefact s ≢ 0 → reduces s e ≡ reduces s 39
unfolding reduces
reduces_far s e h f n =
    let x = IsReduced-to s h n in
    let g = goto_far (yyr1 (yydefact s) - 13) e x f in
    let g' = goto_far (yyr1 (yydefact s) - 13) 39 x (omega arith) in ground (arith, g, g')

reduces_near : (s e : ℕ) → s < 22 → e < 40 → reduces s e ≡ true
reduces_near s e h k =
    holds_below_at 40 (λ d. reduces s d) e
      (holds_below_at 22 (λ r. holds_below 40 (λ d. reduces r d)) s reduces_table h) k

reduces-true : (s e : ℕ) → s < 22 → yydefact s ≢ 0 → reduces s e ≡ true
reduces-true s e h n = elim (Bool-cases (ltb e 40)) [
  | inl near ↦ reduces_near s e h (ground arith)
  | inr far ↦ reduces_far s e h (ground arith) n ∙ reduces_near s 39 h (omega arith)
]

lowers_of_reduces :
    (s e t : ℕ)
    → yydefact s ≢ 0
    → goto_state (yyr1 (yydefact s) - 13) e ≡ pos t
    → reduces s e ≡ true
    → lowers s e (yyr2 (yydefact s)) t ≡ true
unfolding reduces
lowers_of_reduces s e t n g h = ground arith

-- What a reduction pushes is lighter than what it pops.
pub reduces_lowers :
    (s e t : ℕ)
    → yydefact s ≢ 0
    → goto_state (yyr1 (yydefact s) - 13) e ≡ pos t
    → lowers s e (yyr2 (yydefact s)) t ≡ true
reduces_lowers s e t n g = elim (Bool-cases (ltb s 22)) [
  | inl known ↦ lowers_of_reduces s e t n g (reduces-true s e (ground arith) n)
  | inr past ↦ absurd (n (yydefact_past s (ground arith)))
]

-- Every entry weighs something.
weigh-drop : (n : ℕ) (st : Stack) → (n + weigh (drop n st) ≤ weigh st) ⊎ (drop n st ≡ [])
weigh-drop zero st = inl (omega arith)
weigh-drop (suc n) [] = inr refl
weigh-drop (suc n) ((s, v) ∷ st) = elim (weigh-drop n st) [
  | inl h ↦ inl (omega (arith, one-le-weight s))
  | inr h ↦ inr h
]

-- The stack after a reduction by `n` symbols, from state `s` to state `t`.
abbrev pub heavy : Stack → ℕ
heavy st = weigh st + bonus (top st)

pub reduced_lighter :
    (s t n : ℕ) (u v : Option ℤ) (st : Stack)
    → lowers s (top (drop n ((s, u) ∷ st))) n t ≡ true
    → heavy ((t, v) ∷ drop n ((s, u) ∷ st)) < heavy ((s, u) ∷ st)
reduced_lighter s t zero u v st h = ground (arith, one-le-weight s)
reduced_lighter s t (suc n) u v st h = elim (weigh-drop n st) [
  | inl w ↦ ground arith
  | inr w ↦ rw w (ground (arith, rw w at h))
]

-- If the parser runs on, the measure has fallen.
abbrev pub Falls : Parser → Outcome → Type 0
Falls p (running q) = measure q < measure p
Falls p (done n q) = Unit
Falls p undefined = Unit

error_table : holds_below 32 (λ i. not (yycheck i ==ℤ pos 1)) ≡ true
unfolding holds_below yycheck
error_table = refl

-- No state shifts the error token: calc.y has no rule for it.
pub entry_error : (i : ℤ) → entry i 1 ≡ none
unfolding entry
entry_error (negsuc n) = refl
entry_error (pos i) = elim (Bool-cases (ltb 31 i)) [
  | inl far ↦ rw far refl
  | inr near ↦ ground (arith, holds_below_at 32 (λ i. not (yycheck i ==ℤ pos 1)) i error_table)
]

pub recover-Falls : (st : Stack) (p q : Parser) → Falls p (recover st q)
unfolding recover abort
recover-Falls [] p q = tt
recover-Falls ((s, v) ∷ []) p q = ground (arith, entry_error (yypact s +ℤ pos 1))
recover-Falls ((s, v) ∷ e ∷ st) p q =
    ground (
      arith,
      entry_error (yypact s +ℤ pos 1),
      recover-Falls (e ∷ st) p (record q { stack = e ∷ st }),
    )
