-- ===== src/Calc/Parser/Reach.antt =====
-- Runs of `yyparse` as sequences of steps, whatever the stacks' size is at each of them.
use network_course.Prelude.{
  ℕ, suc, ◌+◌, ◌*◌, ◌≤◌, ◌<◌, ◌≡◌, refl, ap, ◌∙◌, Bool, true, length, min, leb, if◌then◌else◌,
  arith,
}
use network_course.Calc.State.{Parser, running, maxdepth, initdepth, stack_bytes}
use network_course.Calc.Parser.{backup, step, run}

abbrev pub resize : ℕ → Parser → Parser
resize z p = record p { stacksize = z }

-- `z` is a size of the stacks, which hold `n` entries.
pub record Fits (z n : ℕ) : Type 0 where
  pub from_init : initdepth ≤ z
  pub to_max : z ≤ maxdepth
  pub holds : n ≤ z

abbrev pub GivesStacks : (ℕ → Bool) → Type 0
GivesStacks malloc = (n : ℕ) → n ≤ stack_bytes maxdepth → malloc n ≡ true

-- One pass from `goto yynewstate` to the next, where the stacks have room.
pub record Hop (p q : Parser) : Type 0 where
  pub goes : (z : ℕ) → backup (resize z p) ≡ running (resize z q)

module _ (malloc : ℕ → Bool) where
  pub data Steps : Parser → Parser → Type 0 where
    here : {p : Parser} → Steps p p
    next : {p q r : Parser} → step malloc p ≡ running q → Steps q r → Steps p r

  pub Steps-trans : {p q r : Parser} → Steps p q → Steps q r → Steps p r
  Steps-trans here t = t
  Steps-trans (next e s) t = next e (Steps-trans s t)

  -- From `p` the parser comes to `q`, whatever the stacks' size is.
  pub record Reaches (p q : Parser) : Type 0 where
    pub steps :
        (z : ℕ)
        → Fits z (length p.stack)
        → (z' : ℕ) × Fits z' (length q.stack) × Steps (resize z p) (resize z' q)

  pub Reaches-refl : {p : Parser} → Reaches p p
  Reaches-refl = record { steps = λ z f. (z, f, here) }

  pub Reaches-trans : {p q r : Parser} → Reaches p q → Reaches q r → Reaches p r
  Reaches-trans s t = record {
    steps = λ z f.
        let (z', f', s') = s.steps z f in
        let (z'', f'', t') = t.steps z' f' in (z'', f'', Steps-trans s' t');
  }

  -- The stacks' size after the test for overflow.
  abbrev pub new_size : ℕ → ℕ → ℕ
  new_size z n = if leb z n then min (z * 2) maxdepth else z

  -- Where `malloc` grants every request for stacks of at most YYMAXDEPTH entries, and there are fewer
  -- entries than that, within a size between YYINITDEPTH and YYMAXDEPTH, the test for overflow only
  -- makes room: full stacks are doubled up to YYMAXDEPTH, and the parser goes on at `yybackup`.
  pub step-resize :
      (enough : GivesStacks malloc) (p : Parser) (z : ℕ)
      → Fits z (length p.stack)
      → length p.stack < maxdepth
      → step malloc (resize z p) ≡ backup (resize (new_size z (length p.stack)) p)
  unfolding step
  step-resize enough p z f h =
      ground (arith, enough (stack_bytes (min (z * 2) maxdepth)) (omega arith))

  pub new_size-Fits : (z n m : ℕ) → Fits z n → n < maxdepth → m ≤ suc n → Fits (new_size z n) m
  new_size-Fits z n m f h k = ground arith

  pub Reaches-step :
      (enough : GivesStacks malloc) {p q : Parser}
      → Hop p q
      → length p.stack < maxdepth
      → length q.stack ≤ suc (length p.stack)
      → Reaches p q
  Reaches-step enough {p} {q} e h k = record {
    steps = λ z f. (
      new_size z (length p.stack),
      new_size-Fits z (length p.stack) (length q.stack) f h k,
      next (step-resize enough p z f h ∙ e.goes (new_size z (length p.stack))) here,
    );
  }

  run-next :
      (f : ℕ) (p q : Parser) → step malloc p ≡ running q → run malloc (suc f) p ≡ run malloc f q
  unfolding run
  run-next f p q e = rw (e, run) refl

  -- Fuel for the steps, and for those after them.
  pub run-Steps :
      {p q : Parser} → Steps p q → (k : ℕ) × ((f : ℕ) → run malloc (k + f) p ≡ run malloc f q)
  run-Steps {p} here = (0, λ f. ap (λ n. run malloc n p) (omega arith))
  run-Steps {p} (next e s) =
      let (k, h) = run-Steps s in
      (suc k, λ f. ap (λ n. run malloc n p) (omega arith) ∙ run-next (k + f) _ _ e ∙ h f)
