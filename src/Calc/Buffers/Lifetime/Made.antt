-- ===== src/Calc/Buffers/Lifetime/Made.antt =====
-- packetdrill/lex.yy.c: the buffer that `yy_create_buffer` makes while the scanner reads none.
use network_course.Prelude.{
  ℕ, ◌+◌, ◌<◌, ◌≡◌, ◌≢◌, refl, ap, ◌∙◌, Bool, true, false, Option, none, some, List, [], ◌∷◌, ◌++◌,
  length, length-append, get_elem?, set, ◌>>=◌, arith,
}
use network_course.Prelude.Cells.{
  get_elem?-set, get_elem?-set_other, get_elem?-append, length-set, get_elem?-lt, if-else,
  bind-some,
}
use network_course.Calc.Buffers.{
  new, Buffer, Flex, current, fetch, put, is_entry, flushed, flush_buffer, interactive, init_buffer,
  state_size, create_buffer,
}
use network_course.Calc.Buffers.Scan.{heap_next}
use network_course.Calc.Buffers.Stack.{fetch_lem}

current_heap : (s : Flex) (h : List (Option Buffer)) → current (record s { heap = h }) ≡ current s
unfolding current
current_heap s h = refl

flush_lem :
    (s : Flex) (i : ℕ) (b : Buffer)
    → fetch i s ≡ some b
    → current s ≡ none
    → flush_buffer (some i) s ≡ some (put i (flushed b) s)
unfolding flush_buffer
flush_lem s i b h e =
    bind-some _ h
    ∙ if-else _ _ (ap (is_entry i) (current_heap s (set s.heap i (some (flushed b))) ∙ e))

module _ (isatty : ℕ → Bool) (yyalloc : ℕ → Option (List ℕ)) where
  abbrev pub fresh : Option ℕ → ℕ → List ℕ → Buffer
  fresh file size cells = record {
    input_file = file;
    ch_buf = set (set cells 0 0) 1 0;
    buf_pos = 0;
    buf_size = size;
    n_chars = 0;
    is_our_buffer = true;
    is_interactive = interactive isatty yyalloc file;
    at_bol = true;
    lineno = 1;
    column = 0;
    fill_buffer = true;
    status = new;
  }

  -- A buffer that `yy_create_buffer` has put behind the others.
  pub record Made (s t : Flex) (file : Option ℕ) (size : ℕ) (cells : List ℕ) : Type 0 where
    pub heap : List (Option Buffer)
    pub grown : t ≡ record s { heap = heap }
    pub made_is : get_elem? heap (length s.heap) ≡ some (some (fresh file size cells))
    pub kept : (k : ℕ) → k < length s.heap → get_elem? heap k ≡ get_elem? s.heap k

  init_lem :
      (i : ℕ) (file : Option ℕ) (s : Flex) (b : Buffer)
      → get_elem? s.heap i ≡ some (some b)
      → current s ≡ none
      → init_buffer isatty yyalloc i file s
        ≡ some (
            put i
              (record (flushed b) {
                input_file = file;
                fill_buffer = true;
                lineno = 1;
                column = 0;
                is_interactive = interactive isatty yyalloc file;
              })
              (put i (flushed b) s))
  unfolding init_buffer
  init_lem i file s b h e =
      let flush = flush_lem s i b (fetch_lem s i b h) e in
      let again =
        fetch_lem (put i (flushed b) s) i (flushed b)
          (get_elem?-set s.heap i (some (flushed b)) (get_elem?-lt s.heap i (some b) h)) in
      let none_current = current_heap s (set s.heap i (some (flushed b))) ∙ e in
      rw (init_buffer, flush, ◌>>=◌, again, ◌>>=◌, none_current) refl

  abbrev allocated : ℕ → List ℕ → Buffer
  allocated size cells = record {
    input_file = none;
    ch_buf = cells;
    buf_pos = 0;
    buf_size = size;
    n_chars = 0;
    is_our_buffer = true;
    is_interactive = false;
    at_bol = false;
    lineno = 0;
    column = 0;
    fill_buffer = false;
    status = new;
  }

  create_eq :
      (file : Option ℕ) (size : ℕ) (s t : Flex) (cells block : List ℕ)
      → yyalloc (state_size isatty yyalloc) ≡ some block
      → yyalloc (size + 2) ≡ some cells
      → init_buffer isatty yyalloc
          (length s.heap)
          file
          (record s { heap = s.heap ++ some (allocated size cells) ∷ [] })
        ≡ some t
      → create_buffer isatty yyalloc file size s ≡ some (length s.heap, t)
  unfolding create_buffer
  create_eq file size s t cells block a b c = bind-some _ a ∙ bind-some _ b ∙ bind-some _ c

  pub create-Made :
      (file : Option ℕ) (size : ℕ) (s : Flex) (cells block : List ℕ)
      → yyalloc (state_size isatty yyalloc) ≡ some block
      → yyalloc (size + 2) ≡ some cells
      → current s ≡ none
      → (t : Flex) × (create_buffer isatty yyalloc file size s ≡ some (length s.heap, t))
        × Made s t file size cells
  create-Made file size s cells block a b e =
      let i = length s.heap in
      let first = allocated size cells in
      let h0 = s.heap ++ some first ∷ [] in
      let longer : i < length h0 = omega (arith, length-append s.heap (some first ∷ [])) in
      let h1 = set h0 i (some (flushed first)) in
      let room : i < length h1 = omega (arith, longer, length-set h0 i (some (flushed first))) in
      let made = fresh file size cells in
      let init =
        init_lem i file (record s { heap = h0 }) first (heap_next s.heap first)
          (current_heap s h0 ∙ e) in
      (
        record s { heap = set h1 i (some made) },
        create_eq file size s _ cells block a b init,
        record {
          heap = set h1 i (some made);
          grown = refl;
          made_is = get_elem?-set h1 i (some made) room;
          kept = λ k l.
              let other : i ≢ k = λ q. absurd (omega (arith, q)) in
              get_elem?-set_other h1 i k (some made) other
              ∙ get_elem?-set_other h0 i k (some (flushed first)) other
              ∙ get_elem?-append s.heap (some first ∷ []) k l;
        },
      )
