-- ===== src/Calc/Buffers/Stack.antt =====
-- The stack of buffers grows before it is written to, and a buffer that is pushed and popped leaves the
-- one below as it was.
use network_course.Prelude.{
  ℕ, ◌+◌, ◌-◌, ◌*◌, ◌<◌, ◌≡◌, ◌≢◌, refl, sym, ap, ◌∙◌, Bool, true, Option, none, some, List, ◌++◌,
  length, length-append, get_elem?, set, leb, lt→ltb, ◌==◌, Bool-cases, ◌>>=◌, inl, inr, arith,
}
use network_course.Prelude.Cells.{
  length-set, get_elem?-set, get_elem?-lt, get_elem?-set_other, get_elem?-append,
}
use network_course.Calc.Buffers.{
  Buffer, Flex, entry_at, current, set_current, fetch, put, load_buffer_state, save_buffer_state,
  ensure_buffer_stack, push_buffer_state, pop_buffer_state, delete_buffer, nulls,
}

-- A scanner that reads buffer `i`, whose stack has the size that is noted.
pub record Reads (s : Flex) (st : List (Option ℕ)) (i : ℕ) (b : Buffer) : Type 0 where
  pub stack_is : s.stack ≡ some st
  pub sized : length st ≡ s.stack_max
  pub top_is : get_elem? st s.stack_top ≡ some (some i)
  pub buffer_is : get_elem? s.heap i ≡ some (some b)
  pub within : s.c_buf_p < length b.ch_buf
  pub file_is : s.yyin ≡ b.input_file

abbrev pub saved : Buffer → Flex → Buffer
saved b s = record b {
  ch_buf = set b.ch_buf s.c_buf_p s.hold_char;
  buf_pos = s.c_buf_p;
  n_chars = s.n_chars;
}

abbrev pub loaded : Flex → Buffer → ℕ → Flex
loaded s b c = record s {
  n_chars = b.n_chars;
  c_buf_p = b.buf_pos;
  text_ptr = b.buf_pos;
  hold_char = c;
  yyin = b.input_file;
}

pub current_lem :
    (s : Flex) (st : List (Option ℕ)) (o : Option ℕ)
    → s.stack ≡ some st
    → get_elem? st s.stack_top ≡ some o
    → current s ≡ o
unfolding current entry_at
current_lem s st o e h = rw (e, h) refl

pub fetch_lem :
    (s : Flex) (i : ℕ) (b : Buffer) → get_elem? s.heap i ≡ some (some b) → fetch i s ≡ some b
unfolding fetch
fetch_lem s i b h = rw h refl

pub save_lem :
    (s : Flex) (i : ℕ) (b : Buffer)
    → current s ≡ some i
    → fetch i s ≡ some b
    → save_buffer_state s ≡ some (put i (saved b s) s)
unfolding save_buffer_state
save_lem s i b e h = rw (save_buffer_state, e, h) refl

pub set_current_lem :
    (o : Option ℕ) (s : Flex) (st : List (Option ℕ))
    → s.stack ≡ some st
    → s.stack_top < length st
    → set_current o s ≡ some (record s { stack = some (set st s.stack_top o) })
unfolding set_current
set_current_lem o s st e h = rw (e, lt→ltb _ _ h) refl

pub load_lem :
    (s : Flex) (i : ℕ) (b : Buffer) (c : ℕ)
    → current s ≡ some i
    → fetch i s ≡ some b
    → get_elem? b.ch_buf b.buf_pos ≡ some c
    → load_buffer_state s ≡ some (loaded s b c)
unfolding load_buffer_state
load_lem s i b c e h k = rw (load_buffer_state, e, h, k) refl

module _ (isatty : ℕ → Bool) (yyalloc : ℕ → Option (List ℕ)) where
  -- Room for one more entry, and the old ones where they were.
  pub record Room (s : Flex) (st : List (Option ℕ)) : Type 0 where
    pub slots : List (Option ℕ)
    pub size : ℕ
    pub ensures :
        ensure_buffer_stack isatty yyalloc s
        ≡ some (record s { stack = some slots; stack_max = size })
    pub slots_sized : length slots ≡ size
    pub fits : s.stack_top + 1 < size
    pub top_kept : get_elem? slots s.stack_top ≡ get_elem? st s.stack_top

  pub ensure-Room :
      (s : Flex) (st : List (Option ℕ)) (i : ℕ) (b : Buffer)
      → ((n : ℕ) → (cells : List ℕ) × (yyalloc n ≡ some cells))
      → Reads s st i b
      → Room s st
  unfolding ensure_buffer_stack
  ensure-Room s st i b gives w =
      let top = get_elem?-lt st s.stack_top (some i) w.top_is in
      elim (Bool-cases (leb (s.stack_max - 1) s.stack_top)) [
        | inl h ↦ record {
          slots = st ++ nulls isatty yyalloc 8;
          size = s.stack_max + 8;
          ensures = rw (w.stack_is, h, (gives ((s.stack_max + 8) * 8)).1) refl;
          slots_sized = omega (arith, length-append st (nulls isatty yyalloc 8), w.sized);
          fits = omega (arith, w.sized);
          top_kept = get_elem?-append st (nulls isatty yyalloc 8) s.stack_top top;
        }
        | inr h ↦ record {
          slots = st;
          size = s.stack_max;
          ensures = rw (w.stack_is, h) refl;
          slots_sized = w.sized;
          fits = ground (arith, w.sized);
          top_kept = refl;
        }
      ]

  -- The scanner after `yypush_buffer_state (j)`.
  abbrev pushed : Flex → List (Option ℕ) → ℕ → ℕ → Buffer → ℕ → Buffer → ℕ → Flex
  pushed s slots size i b j c x = record s {
    heap = set s.heap i (
        some (record b {
          ch_buf = set b.ch_buf s.c_buf_p s.hold_char;
          buf_pos = s.c_buf_p;
          n_chars = s.n_chars;
        }));
    stack = some (set slots (s.stack_top + 1) (some j));
    stack_max = size;
    stack_top = s.stack_top + 1;
    n_chars = c.n_chars;
    c_buf_p = c.buf_pos;
    text_ptr = c.buf_pos;
    hold_char = x;
    yyin = c.input_file;
    did_switch = true;
  }

  push_lem :
      (s s1 s2 s4 s5 : Flex) (i j : ℕ)
      → ensure_buffer_stack isatty yyalloc s ≡ some s1
      → save_buffer_state s1 ≡ some s2
      → current s2 ≡ some i
      → set_current (some j) (record s2 { stack_top = s2.stack_top + 1 }) ≡ some s4
      → load_buffer_state s4 ≡ some s5
      → push_buffer_state isatty yyalloc (some j) s ≡ some (record s5 { did_switch = true })
  unfolding push_buffer_state
  push_lem s s1 s2 s4 s5 i j a b c e f = rw (push_buffer_state, a, b, c, e, f) refl

  push-pushed :
      (s : Flex) (st : List (Option ℕ)) (i : ℕ) (b : Buffer) (j : ℕ) (c : Buffer) (x : ℕ)
      → Reads s st i b
      → (r : Room s st) → i ≢ j
      → get_elem? s.heap j ≡ some (some c)
      → get_elem? c.ch_buf c.buf_pos ≡ some x
      → push_buffer_state isatty yyalloc (some j) s ≡ some (pushed s r.slots r.size i b j c x)
  push-pushed s st i b j c x w r n h k =
      let s1 : Flex = record s { stack = some r.slots; stack_max = r.size } in
      let top = current_lem s1 r.slots (some i) refl (r.top_kept ∙ w.top_is) in
      let s2 = put i (saved b s1) s1 in
      let s3 : Flex = record s2 { stack_top = s.stack_top + 1 } in
      let room : s.stack_top + 1 < length r.slots = omega (arith, r.fits, r.slots_sized) in
      let s4 : Flex = record s3 { stack = some (set r.slots (s.stack_top + 1) (some j)) } in
      let next =
        current_lem s4 _ (some j) refl (get_elem?-set r.slots (s.stack_top + 1) (some j) room) in
      let kept = fetch_lem s4 j c (get_elem?-set_other s.heap i j (some (saved b s1)) n ∙ h) in
      push_lem s s1 s2 s4 (loaded s4 c x) i j r.ensures
        (save_lem s1 i b top (fetch_lem s1 i b w.buffer_is))
        (current_lem s2 r.slots (some i) refl (r.top_kept ∙ w.top_is))
        (set_current_lem (some j) s3 r.slots refl room) (load_lem s4 j c x next kept k)

  pop_lem :
      (s s1 s2 s4 : Flex) (i j : ℕ)
      → current s ≡ some j
      → delete_buffer isatty yyalloc (some j) s ≡ some s1
      → set_current none s1 ≡ some s2
      → current (record s2 { stack_top = s2.stack_top - 1 }) ≡ some i
      → load_buffer_state (record s2 { stack_top = s2.stack_top - 1 }) ≡ some s4
      → pop_buffer_state isatty yyalloc s ≡ some (record s4 { did_switch = true })
  unfolding pop_buffer_state
  pop_lem s s1 s2 s4 i j a b c e f = rw (pop_buffer_state, a, a, b, ◌>>=◌, c, ◌>>=◌, e, f) refl

  pub delete_lem :
      (s t : Flex) (j : ℕ)
      → current s ≡ some j
      → set_current none s ≡ some t
      → delete_buffer isatty yyalloc (some j) s ≡ some (record t { heap = set t.heap j none })
  unfolding delete_buffer
  delete_lem s t j e h =
      let self : (j == j) ≡ true = ground arith in rw (delete_buffer, e, self, h) refl

  -- What the scanner reads is as before.
  pub record Back (s : Flex) (i : ℕ) (t : Flex) : Type 0 where
    pub current_kept : current t ≡ some i
    pub top_kept : t.stack_top ≡ s.stack_top
    pub chars_kept : t.n_chars ≡ s.n_chars
    pub position_kept : t.c_buf_p ≡ s.c_buf_p
    pub char_kept : t.hold_char ≡ s.hold_char
    pub file_kept : t.yyin ≡ s.yyin

  popped-Back :
      (s : Flex) (st : List (Option ℕ)) (i : ℕ) (b : Buffer) (j : ℕ) (c : Buffer) (x : ℕ)
      → Reads s st i b
      → (r : Room s st) → i ≢ j
      → (t : Flex) × (pop_buffer_state isatty yyalloc (pushed s r.slots r.size i b j c x) ≡ some t)
        × Back s i t
  popped-Back s st i b j c x w r n =
      let k = s.stack_top + 1 in
      let p = pushed s r.slots r.size i b j c x in
      let st1 = set r.slots k (some j) in
      let st2 = set st1 k none in
      let st3 = set st2 k none in
      let room : k < length r.slots = omega (arith, r.fits, r.slots_sized) in
      let room1 : k < length st1 = omega (arith, room, length-set r.slots k (some j)) in
      let room2 : k < length st2 = omega (arith, room1, length-set st1 k none) in
      let here = current_lem p st1 (some j) refl (get_elem?-set r.slots k (some j) room) in
      let p1 : Flex = record p { stack = some st2 } in
      let p2 : Flex = record p1 { heap = set p.heap j none } in
      let p3 : Flex = record p2 { stack = some st3 } in
      let p4 : Flex = record p3 { stack_top = k - 1 } in
      let down : k - 1 ≡ s.stack_top = omega arith in
      let apart : k ≢ s.stack_top = λ e. absurd (omega (arith, e)) in
      let below : get_elem? st3 (k - 1) ≡ some (some i) =
        ap (get_elem? st3) down
        ∙ get_elem?-set_other st2 k s.stack_top none apart
        ∙ get_elem?-set_other st1 k s.stack_top none apart
        ∙ get_elem?-set_other r.slots k s.stack_top (some j) apart
        ∙ r.top_kept
        ∙ w.top_is in
      let b' = saved b s in
      let kept : get_elem? (set p.heap j none) i ≡ some (some b') =
        get_elem?-set_other p.heap j i none (λ e. n (sym e))
        ∙ get_elem?-set s.heap i (some b') (get_elem?-lt s.heap i (some b) w.buffer_is) in
      let c4 = current_lem p4 st3 (some i) refl below in
      let l4 =
        load_lem p4 i b' s.hold_char c4 (fetch_lem p4 i b' kept)
          (get_elem?-set b.ch_buf s.c_buf_p s.hold_char w.within) in
      (
        _,
        pop_lem p p2 p3 (loaded p4 b' s.hold_char) i j here
            (delete_lem p p1 j here (set_current_lem none p st1 refl room1))
            (set_current_lem none p2 st2 refl room2) c4 l4,
        record {
          current_kept = current_lem _ st3 (some i) refl below;
          top_kept = down;
          chars_kept = refl;
          position_kept = refl;
          char_kept = refl;
          file_kept = sym w.file_is;
        },
      )

  -- Where `yyalloc` gives memory, and the scanner reads a buffer at a position inside it, a push of another buffer
  -- and a pop bring it back: the same buffer, file, position and character under it, the same number of
  -- characters and the same top of the stack.
  pub push-pop :
      (s : Flex) (st : List (Option ℕ)) (i : ℕ) (b : Buffer) (j : ℕ) (c : Buffer) (x : ℕ)
      → ((n : ℕ) → (cells : List ℕ) × (yyalloc n ≡ some cells))
      → Reads s st i b
      → i ≢ j
      → get_elem? s.heap j ≡ some (some c)
      → get_elem? c.ch_buf c.buf_pos ≡ some x
      → (t : Flex) × ((push_buffer_state isatty yyalloc (some j) s
            >>= pop_buffer_state isatty yyalloc)
          ≡ some t)
        × Back s i t
  push-pop s st i b j c x gives w n h k =
      let r = ensure-Room s st i b gives w in
      let (t, e, back) = popped-Back s st i b j c x w r n in
      (t, rw (push-pushed s st i b j c x w r n h k) e, back)
