-- ===== src/Calc/Buffers/Lifetime/Begins.antt =====
-- packetdrill/lex.yy.c: what `yylex_destroy` leaves, and what the next call of `yylex` then begins with.
use network_course.Prelude.{
  ℕ, suc, ◌+◌, ◌<◌, ◌≡◌, ◌≢◌, refl, sym, ap, ◌∙◌, Bool, true, false, Option, none, some, List, [],
  ◌∷◌, length, get_elem?, set, ◌>>=◌, arith,
}
use network_course.Prelude.Cells.{
  get_elem?-set, get_elem?-set_other, length-set, get_elem?-lt, if-else, bind-some,
}
use network_course.Calc.Buffers.{
  Buffer, Flex, entry_at, current, set_current, load_buffer_state, state_size, create_buffer,
  delete_buffer, pop_buffer_state, ensure_buffer_stack,
}
use network_course.Calc.Buffers.Stack.{
  Reads, loaded, current_lem, fetch_lem, set_current_lem, load_lem, delete_lem,
}
use network_course.Calc.Buffers.Lifetime.Made.{fresh, create-Made}
use network_course.Calc.Buffers.Lifetime.{
  Globals, file_or, start_or, init_globals, ensure_current, initialise, destroy_buffers, destroy,
}

module _ (isatty : ℕ → Bool) (yyalloc : ℕ → Option (List ℕ)) where
  pop_none : (s : Flex) → current s ≡ none → pop_buffer_state isatty yyalloc s ≡ some s
  unfolding pop_buffer_state
  pop_none s e = rw (pop_buffer_state, e) refl

  abbrev destroyed : Flex → List (Option ℕ) → ℕ → Flex
  destroyed s st i = record s {
    stack = some (set (set st s.stack_top none) s.stack_top none);
    heap = set s.heap i none;
  }

  destroy_once :
      (s s1 s2 : Flex) (i n : ℕ)
      → current s ≡ some i
      → delete_buffer isatty yyalloc (some i) s ≡ some s1
      → set_current none s1 ≡ some s2
      → current s2 ≡ none
      → destroy_buffers isatty yyalloc (suc (suc n)) s ≡ some s2
  unfolding destroy_buffers
  destroy_once s s1 s2 i n a b c d =
      rw (destroy_buffers, a, a, b, ◌>>=◌, c, ◌>>=◌, pop_none s2 d, ◌>>=◌, d) refl

  destroy_lem :
      (s : Flex) (st : List (Option ℕ)) (i : ℕ) (b : Buffer) (n : ℕ)
      → Reads s st i b
      → destroy_buffers isatty yyalloc (suc (suc n)) s ≡ some (destroyed s st i)
  destroy_lem s st i b n w =
      let k = s.stack_top in
      let here = current_lem s st (some i) w.stack_is w.top_is in
      let room = get_elem?-lt st k (some i) w.top_is in
      let room1 : k < length (set st k none) = omega (arith, room, length-set st k none) in
      let s1 : Flex = record s { stack = some (set st k none) } in
      let s2 : Flex = record s1 { heap = set s.heap i none } in
      let gone =
        current_lem (destroyed s st i) (set (set st k none) k none) none refl
          (get_elem?-set (set st k none) k none room1) in
      destroy_once s s2 (destroyed s st i) i n here
        (delete_lem isatty yyalloc s s1 i here (set_current_lem none s st w.stack_is room))
        (set_current_lem none s2 (set st k none) refl room1) gone

  -- A scanner that has just made its first buffer.
  pub record Begun (f t : Flex) (cells : List ℕ) : Type 0 where
    pub current_is : current t ≡ some (length f.heap)
    pub buffer_is :
        get_elem? t.heap (length f.heap) ≡ some (some (fresh isatty yyalloc f.yyin 16384 cells))
    pub kept : (k : ℕ) → k < length f.heap → get_elem? t.heap k ≡ get_elem? f.heap k
    pub position_is : t.c_buf_p ≡ 0
    pub chars_are : t.n_chars ≡ 0
    pub char_is : t.hold_char ≡ 0
    pub file_is : t.yyin ≡ f.yyin

  ensure_lem :
      (f : Flex) (block : List ℕ)
      → f.stack ≡ none
      → yyalloc 8 ≡ some block
      → ensure_buffer_stack isatty yyalloc f
        ≡ some (record f { stack = some (none ∷ []); stack_max = 1; stack_top = 0 })
  unfolding ensure_buffer_stack
  ensure_lem f block e a = rw (ensure_buffer_stack, e, a) refl

  current-none : (f : Flex) → f.stack ≡ none → current f ≡ none
  unfolding current entry_at
  current-none f e = rw (current, e) refl

  ensure_current_eq :
      (f s1 s2 t : Flex) (i : ℕ)
      → current f ≡ none
      → ensure_buffer_stack isatty yyalloc f ≡ some s1
      → create_buffer isatty yyalloc s1.yyin 16384 s1 ≡ some (i, s2)
      → set_current (some i) s2 ≡ some t
      → ensure_current isatty yyalloc f ≡ some t
  unfolding ensure_current
  ensure_current_eq f s1 s2 t i a b c d = rw (ensure_current, a, b, ◌>>=◌, c, ◌>>=◌, d) refl

  initialise_eq :
      (stdin stdout : ℕ) (g : Globals) (s t : Flex)
      → g.init ≡ false
      → ensure_current isatty yyalloc (record (g.flex) { yyin = file_or g.flex.yyin stdin })
        ≡ some s
      → load_buffer_state s ≡ some t
      → initialise isatty yyalloc stdin stdout g
        ≡ some (record {
          flex = t;
          init = true;
          start = start_or g.start;
          yyout = file_or g.yyout stdout;
        })
  unfolding initialise
  initialise_eq stdin stdout g s t a b c = if-else _ _ a ∙ bind-some _ b ∙ bind-some _ c

  load-Begun :
      (f : Flex) (cells block slots : List ℕ)
      → f.stack ≡ none
      → yyalloc 8 ≡ some slots
      → yyalloc (state_size isatty yyalloc) ≡ some block
      → yyalloc (16384 + 2) ≡ some cells
      → length cells ≡ 16384 + 2
      → (s t : Flex) × (ensure_current isatty yyalloc f ≡ some s)
        × (load_buffer_state s ≡ some t)
        × Begun f t cells
  load-Begun f cells block slots e a b c l =
      let j = length f.heap in
      let made = fresh isatty yyalloc f.yyin 16384 cells in
      let s1 : Flex = record f { stack = some (none ∷ []); stack_max = 1; stack_top = 0 } in
      let (s2, created, m) =
        create-Made isatty yyalloc f.yyin 16384 s1 cells block b c
          (current_lem s1 (none ∷ []) none refl refl) in
      let h : Flex = record s1 { heap = m.heap } in
      let s : Flex = record h { stack = some (some j ∷ []) } in
      let moved =
        ap (set_current (some j)) m.grown
        ∙ set_current_lem (some j) h (none ∷ []) refl (omega arith) in
      let here = current_lem s (some j ∷ []) (some j) refl refl in
      let char : get_elem? made.ch_buf 0 ≡ some 0 =
        get_elem?-set_other (set cells 0 0) 1 0 0 (λ q. absurd (omega (arith, q)))
        ∙ get_elem?-set cells 0 0 (omega (arith, l)) in
      (
        s,
        loaded s made 0,
        ensure_current_eq f s1 s2 s j (current-none f e) (ensure_lem f slots e a) created moved,
        load_lem s j made 0 here (fetch_lem s j made m.made_is) char,
        record {
          current_is = current_lem _ (some j ∷ []) (some j) refl refl;
          buffer_is = m.made_is;
          kept = m.kept;
          position_is = refl;
          chars_are = refl;
          char_is = refl;
          file_is = refl;
        },
      )

  -- `yylex` once `yylex_destroy` has freed buffer `i`.
  pub record Begins (g : Globals) (i stdin stdout : ℕ) (t : Globals) : Type 0 where
    pub cells : List ℕ
    pub is_set_up : (t.init ≡ true) × (t.start ≡ 1) × (t.yyout ≡ some stdout)
    pub current_is : current t.flex ≡ some (length g.flex.heap)
    pub buffer_is :
        get_elem? t.flex.heap (length g.flex.heap)
        ≡ some (some (fresh isatty yyalloc (some stdin) 16384 cells))
    pub position_is : (t.flex.c_buf_p ≡ 0) × (t.flex.n_chars ≡ 0) × (t.flex.hold_char ≡ 0)
    pub file_is : t.flex.yyin ≡ some stdin
    pub freed : get_elem? t.flex.heap i ≡ some none
    pub kept :
        (k : ℕ) → k < length g.flex.heap → i ≢ k → get_elem? t.flex.heap k ≡ get_elem? g.flex.heap k

  destroy_eq :
      (g : Globals) (s : Flex) (n : ℕ)
      → destroy_buffers isatty yyalloc n g.flex ≡ some s
      → destroy isatty yyalloc n g
        ≡ some (init_globals (record g { flex = record s { stack = none } }))
  unfolding destroy
  destroy_eq g s n h = bind-some _ h

  -- Where `yyalloc` gives the memory that it is asked for and the scanner reads a buffer: `yylex_destroy` ends
  -- after one round of its loop and has freed that buffer, and none of the others. The next `yylex` then
  -- begins anew: at the start state, at the first of no characters in a new buffer of 16384, which is read from
  -- `stdin`.
  pub destroy-initialise :
      (g : Globals) (st : List (Option ℕ)) (i : ℕ) (b : Buffer) (n stdin stdout : ℕ)
      → ((size : ℕ) → (cells : List ℕ) × (yyalloc size ≡ some cells) × (length cells ≡ size))
      → Reads g.flex st i b
      → (t : Globals) × ((destroy isatty yyalloc (suc (suc n)) g
            >>= initialise isatty yyalloc stdin stdout)
          ≡ some t)
        × Begins g i stdin stdout t
  unfolding init_globals
  destroy-initialise g st i b n stdin stdout gives w =
      let heap = g.flex.heap in
      let gone = destroyed g.flex st i in
      let g1 = init_globals (record g { flex = record gone { stack = none } }) in
      let f : Flex = record (g1.flex) { yyin = some stdin } in
      let (slots, some_slots, _) = gives 8 in
      let (block, some_block, _) = gives (state_size isatty yyalloc) in
      let (cells, some_cells, long) = gives (16384 + 2) in
      let (s, t, made, load, v) =
        load-Begun f cells block slots refl some_slots some_block some_cells long in
      let same : length (set heap i none) ≡ length heap = length-set heap i none in
      let within = get_elem?-lt heap i (some b) w.buffer_is in
      (
        record { flex = t; init = true; start = 1; yyout = some stdout },
        bind-some (initialise isatty yyalloc stdin stdout)
              (destroy_eq g gone (suc (suc n)) (destroy_lem g.flex st i b n w))
            ∙ initialise_eq stdin stdout g1 s t refl made load,
        record {
          cells = cells;
          is_set_up = (refl, refl, refl);
          current_is = v.current_is ∙ ap some same;
          buffer_is = ap (get_elem? t.heap) (sym same) ∙ v.buffer_is;
          position_is = (v.position_is, v.chars_are, v.char_is);
          file_is = v.file_is;
          freed = v.kept i (omega (arith, within, same)) ∙ get_elem?-set heap i none within;
          kept = λ k l n. v.kept k (omega (arith, l, same)) ∙ get_elem?-set_other heap i k none n;
        },
      )
