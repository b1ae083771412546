-- ===== src/Calc/Parser/Statements.antt =====
-- The parser reads a program line by line: each line has its effect, and the end is accepted.
use network_course.Prelude.{
  ℕ, suc, ◌+◌, ◌≤◌, ◌<◌, ◌≡◌, refl, ◌∙◌, Bool, Option, none, some, List, [], ◌∷◌, ◌++◌, length,
  arith, >>=-eq-some, append_assoc, append-nil,
}
use mathlib.Core.Option.{some-injective}
use network_course.Prelude.Int.{ℤ, pos}
use network_course.Calc.Tables.{translate}
use network_course.Calc.Grammar.{
  Sum, Statement, expr, assign, statement_tokens, program_tokens, sum_value, statement_effect,
  program_effect, sum_depth, statement_depth, program_depth,
}
use network_course.Calc.State.{Token, Stack, Parser, done, maxdepth, initdepth, write_sym}
use network_course.Calc.Reduce.{reduce}
use network_course.Calc.Parser.{backup, step, run, initial}
use network_course.Calc.Parser.Reach.{
  GivesStacks, resize, Hop, Reaches, Reaches-step, Reaches-refl, Reaches-trans, step-resize,
  run-Steps,
}
use network_course.Calc.Parser.Phrases.{newline, line, equals, at, Ahead, unread, peeked, facing}
use network_course.Calc.Parser.Expressions.{sum_lem}

module _ (m out : List ℤ) where
  -- `statement: expr` at the end of the line prints the value.
  print-Hop :
      (x : ℤ) (w u : Option ℤ) (a : Ahead) (l : ℤ) (rest : List Token)
      → Hop
          (facing m out ((7, some x) ∷ (1, w) ∷ (0, u) ∷ []) a l newline rest)
          (facing m (out ++ x ∷ []) ((6, some x) ∷ (1, w) ∷ (0, u) ∷ []) peeked l newline rest)
  unfolding backup translate
  print-Hop x w u (unread t) l rest = record { goes = λ z. refl }
  print-Hop x w u peeked l rest = record { goes = λ z. refl }

  -- `statement: VARIABLE '=' expr` stores it.
  store-Hop :
      (i : ℕ) (x : ℤ) (m' : List ℤ) (w u v : Option ℤ) (a : Ahead) (l : ℤ) (rest : List Token)
      → write_sym m (pos i) x ≡ some m'
      → Hop
          (facing m out
            ((16, some x) ∷ (8, v) ∷ (4, some (pos i)) ∷ (1, w) ∷ (0, u) ∷ [])
            a
            l
            newline
            rest)
          (facing m' out ((6, some (pos i)) ∷ (1, w) ∷ (0, u) ∷ []) peeked l newline rest)
  unfolding backup translate
  store-Hop i x m' w u v (unread t) l rest e = record { goes = λ z. rw (e, reduce) }
  store-Hop i x m' w u v peeked l rest e = record { goes = λ z. rw (e, reduce) }

  variable-Hop :
      (i t : ℕ) (l : ℤ) (w u : Option ℤ) (rest : List Token)
      → Hop
          (at m out ((1, w) ∷ (0, u) ∷ []) none t l ((259, some (pos i)) ∷ rest))
          (at m out ((4, some (pos i)) ∷ (1, w) ∷ (0, u) ∷ []) none 4 (pos i) rest)
  unfolding backup
  variable-Hop i t l w u rest = record { goes = λ z. refl }

  equals-Hop :
      (v w u : Option ℤ) (t : ℕ) (l : ℤ) (rest : List Token)
      → Hop
          (at m out ((4, v) ∷ (1, w) ∷ (0, u) ∷ []) none t l ((b'=', none) ∷ rest))
          (at m out ((8, some l) ∷ (4, v) ∷ (1, w) ∷ (0, u) ∷ []) none 10 l rest)
  unfolding backup
  equals-Hop v w u t l rest = record { goes = λ z. refl }

  -- The end of the line is shifted, and `program: program statement '\n'` is reduced.
  newline-Hop :
      (x w u : Option ℤ) (l : ℤ) (rest : List Token)
      → Hop
          (facing m out ((6, x) ∷ (1, w) ∷ (0, u) ∷ []) peeked l newline rest)
          (at m out ((11, some l) ∷ (6, x) ∷ (1, w) ∷ (0, u) ∷ []) none 9 l rest)
  unfolding backup translate
  newline-Hop x w u l rest = record { goes = λ z. refl }

  line-Hop :
      (v x w u : Option ℤ) (c : Option ℕ) (t : ℕ) (l : ℤ) (rest : List Token)
      → Hop
          (at m out ((11, v) ∷ (6, x) ∷ (1, w) ∷ (0, u) ∷ []) c t l rest)
          (at m out ((1, w) ∷ (0, u) ∷ []) c t l rest)
  unfolding backup
  line-Hop v x w u c t l rest = record { goes = λ z. refl }

  empty-Hop :
      (u : Option ℤ) (t : ℕ) (l : ℤ) (ts : List Token)
      → Hop (at m out ((0, u) ∷ []) none t l ts) (at m out ((1, none) ∷ (0, u) ∷ []) none t l ts)
  unfolding backup
  empty-Hop u t l ts = record { goes = λ z. refl }

abbrev bottom : Stack
bottom = (1, none) ∷ (0, none) ∷ []

module _ (malloc : ℕ → Bool) (enough : GivesStacks malloc) where
  -- From a line's start in one state to the next line's start in another.
  abbrev Advances : List ℤ → List ℤ → ℕ → ℤ → List Token → List ℤ → List ℤ → List Token → Type 0
  Advances m out t l ts m' out' rest =
      (t' : ℕ) × (l' : ℤ) × Reaches malloc (at m out bottom none t l ts)
        (at m' out' bottom none t' l' rest)

  hop :
      {p q : Parser}
      → Hop p q
      → length p.stack < maxdepth
      → length q.stack ≤ suc (length p.stack)
      → Reaches malloc p q
  hop = Reaches-step malloc enough

  end_line :
      (m out : List ℤ) (x : Option ℤ) (l : ℤ) (rest : List Token)
      → Reaches malloc
          (facing m out ((6, x) ∷ bottom) peeked l newline rest)
          (at m out bottom none 9 l rest)
  end_line m out x l rest =
      Reaches-trans malloc (hop (newline-Hop m out x none none l rest) (omega arith) (omega arith))
        (hop (line-Hop m out (some l) x none none none 9 l rest) (omega arith) (omega arith))

  expr_line :
      (e : Sum) (m out : List ℤ) (t : ℕ) (l : ℤ) (rest : List Token) (x : ℤ)
      → sum_value m e ≡ some x
      → 2 + sum_depth e < maxdepth
      → Advances m out t l (statement_tokens (expr e) ((b'\n', none) ∷ rest)) m (out ++ x ∷ []) rest
  expr_line e m out t l rest x ev d =
      let (a, l', r) =
        sum_lem malloc enough m out e line none ((0, none) ∷ []) t l newline rest x tt tt ev
          (omega arith) in
      (
        9,
        l',
        Reaches-trans malloc r (
            Reaches-trans malloc
              (hop (print-Hop m out x none none a l' rest) (omega arith) (omega arith))
              (end_line m (out ++ x ∷ []) (some x) l' rest)),
      )

  assign_line :
      (i : ℕ) (e : Sum) (m m' out : List ℤ) (t : ℕ) (l : ℤ) (rest : List Token) (x : ℤ)
      → sum_value m e ≡ some x
      → write_sym m (pos i) x ≡ some m'
      → 4 + sum_depth e < maxdepth
      → Advances m out t l (statement_tokens (assign i e) ((b'\n', none) ∷ rest)) m' out rest
  assign_line i e m m' out t l rest x ev ew d =
      let before : Stack = (4, some (pos i)) ∷ bottom in
      let (a, l', r) =
        sum_lem malloc enough m out e equals (some (pos i)) before 10 (pos i) newline rest x tt tt
          ev (omega arith) in
      (
        9,
        l',
        Reaches-trans malloc
            (hop (variable-Hop m out i t l none none _) (omega arith) (omega arith))
            (Reaches-trans malloc
              (hop (equals-Hop m out (some (pos i)) none none 4 (pos i) _) (omega arith)
                (omega arith))
              (Reaches-trans malloc r (
                Reaches-trans malloc
                  (hop (store-Hop m out i x m' none none (some (pos i)) a l' rest ew) (omega arith)
                    (omega arith))
                  (end_line m' out (some (pos i)) l' rest)))),
      )

  statement_lem :
      (s : Statement) (m out : List ℤ) (t : ℕ) (l : ℤ) (rest : List Token) (r : List ℤ × List ℤ)
      → statement_effect s m ≡ some r
      → 2 + statement_depth s < maxdepth
      → Advances m out t l (statement_tokens s ((b'\n', none) ∷ rest)) (r.0) (out ++ r.1) rest
  unfolding statement_effect
  statement_lem (expr e) m out t l rest r h d =
      let (x, ev, h') = >>=-eq-some (sum_value m e) _ h in
      rw (← some-injective (m, x ∷ []) r h') (expr_line e m out t l rest x ev d)
  statement_lem (assign i e) m out t l rest r h d =
      let (x, ev, h') = >>=-eq-some (sum_value m e) _ h in
      let (m', ew, h'') = >>=-eq-some (write_sym m (pos i) x) _ h' in
      rw (← some-injective (m', []) r h'', append-nil)
        (assign_line i e m m' out t l rest x ev ew (omega arith))

  program_lem :
      (ss : List Statement) (m out : List ℤ) (t : ℕ) (l : ℤ) (r : List ℤ × List ℤ)
      → program_effect ss m ≡ some r
      → 2 + program_depth ss < maxdepth
      → Advances m out t l (program_tokens ss) (r.0) (out ++ r.1) []
  unfolding program_effect
  program_lem [] m out t l r h d =
      rw (← some-injective (m, []) r h, append-nil) (t, l, Reaches-refl malloc)
  program_lem (s ∷ ss) m out t l r h d =
      let (a, ea, h') = >>=-eq-some (statement_effect s m) _ h in
      let (b, eb, h'') = >>=-eq-some (program_effect ss (a.0)) _ h' in
      let (t', l', first) = statement_lem s m out t l (program_tokens ss) a ea (omega arith) in
      let (t'', l'', others) = program_lem ss (a.0) (out ++ a.1) t' l' b eb (omega arith) in
      rw (← some-injective (b.0, a.1 ++ b.1) r h'', ← append_assoc out (a.1) (b.1))
        (t'', l'', Reaches-trans malloc first others)

  -- At the end of the input the parser accepts.
  accept_hop :
      (m out : List ℤ) (t : ℕ) (l : ℤ) (z : ℕ)
      → backup (resize z (at m out bottom none t l []))
        ≡ done 0 (resize z (at m out bottom (some 0) 0 l []))
  unfolding backup
  accept_hop m out t l z = refl

  run-done :
      (f : ℕ) (p q : Parser) → step malloc p ≡ done 0 q → run malloc (suc f) p ≡ some (done 0 q)
  unfolding run
  run-done f p q e = rw (e, run) refl

  -- With fuel `k + 1` or more the parser returns 0, and has done what the program says.
  pub program_steps :
      (ss : List Statement) (m : List ℤ) (r : List ℤ × List ℤ)
      → program_effect ss m ≡ some r
      → 2 + program_depth ss < maxdepth
      → (k : ℕ) × (q : Parser) × ((f : ℕ)
          → run malloc (k + suc f) (initial m (program_tokens ss)) ≡ some (done 0 q))
        × (q.sym ≡ r.0)
        × (q.out ≡ r.1)
        × (q.complaints ≡ [])
  program_steps ss m r h d =
      let (t, l, path) = program_lem ss m [] 0 (pos 0) r h d in
      let all =
        Reaches-trans malloc
          (hop (empty-Hop m [] none 0 (pos 0) (program_tokens ss)) (omega arith) (omega arith))
          path in
      let (z, f, steps) = all.steps initdepth (omega arith) in
      let (k, e) = run-Steps malloc steps in
      let end = at (r.0) (r.1) bottom none t l [] in
      let last = step-resize malloc enough end z f (omega arith) ∙ accept_hop (r.0) (r.1) t l _ in
      (k, _, λ g. e (suc g) ∙ run-done g _ _ last, refl, refl, refl)
