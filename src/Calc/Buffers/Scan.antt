-- ===== src/Calc/Buffers/Scan.antt =====
-- packetdrill/lex.yy.c: what the scanner reads after `yy_scan_bytes`.
use network_course.Prelude.{
  ℕ, suc, ◌+◌, ◌-◌, ◌<◌, ◌≡◌, ◌≢◌, refl, sym, ap, ◌∙◌, Bool, true, false, not, ◌||◌, Option, none,
  some, List, [], ◌∷◌, ◌++◌, length, length-append, get_elem?, set, ltb, ◌==◌, arith,
}
use network_course.Prelude.Cells.{
  get_elem?-set, get_elem?-lt, get_elem?-set_other, get_elem?-append, if-else, bind-some,
}
use network_course.Calc.Buffers.{
  new, Buffer, Flex, current, set_current, fetch, put, is_entry, load_buffer_state,
  save_buffer_state, ensure_buffer_stack, switch_to_buffer, scan_buffer, scan_bytes, state_size,
}
use network_course.Calc.Buffers.Stack.{
  Reads, ensure-Room, saved, loaded, current_lem, fetch_lem, save_lem, set_current_lem, load_lem,
}

get_elem?-behind : (xs ys : List ℕ) (i : ℕ) → get_elem? (xs ++ ys) (length xs + i) ≡ get_elem? ys i
get_elem?-behind [] ys i = let z : 0 + i ≡ i = omega arith in ap (get_elem? ys) z
get_elem?-behind (x ∷ xs) ys i =
    let z : suc (length xs) + i ≡ suc (length xs + i) = omega arith in
    ap (get_elem? ((x ∷ xs) ++ ys)) z ∙ get_elem?-behind xs ys i

pub heap_next :
    (h : List (Option Buffer)) (b : Buffer)
    → get_elem? (h ++ some b ∷ []) (length h) ≡ some (some b)
heap_next [] b = refl
heap_next (x ∷ h) b = heap_next h b

-- The text with its two end-of-buffer characters.
abbrev pub ended_text : List ℕ → List ℕ
ended_text bytes = bytes ++ 0 ∷ 0 ∷ []

abbrev text_buffer : List ℕ → Bool → Buffer
text_buffer bytes ours = record {
  input_file = none;
  ch_buf = ended_text bytes;
  buf_pos = 0;
  buf_size = length (ended_text bytes) - 2;
  n_chars = length (ended_text bytes) - 2;
  is_our_buffer = ours;
  is_interactive = false;
  at_bol = true;
  lineno = 0;
  column = 0;
  fill_buffer = false;
  status = new;
}

module _ (isatty : ℕ → Bool) (yyalloc : ℕ → Option (List ℕ)) where
  switch_lem :
      (s s1 s2 s3 s4 : Flex) (i j : ℕ)
      → ensure_buffer_stack isatty yyalloc s ≡ some s1
      → current s1 ≡ some i
      → (j == i) ≡ false
      → save_buffer_state s1 ≡ some s2
      → set_current (some j) s2 ≡ some s3
      → load_buffer_state s3 ≡ some s4
      → switch_to_buffer isatty yyalloc j s ≡ some (record s4 { did_switch = true })
  unfolding switch_to_buffer
  switch_lem s s1 s2 s3 s4 i j a b n c d e =
      bind-some _ a
      ∙ if-else _ _ (ap (is_entry j) b ∙ n)
      ∙ bind-some _ c
      ∙ bind-some _ d
      ∙ bind-some _ e

  scan_buffer_lem :
      (bytes : List ℕ) (s t : Flex) (cells : List ℕ)
      → yyalloc (state_size isatty yyalloc) ≡ some cells
      → switch_to_buffer isatty yyalloc
          (length s.heap)
          (record s { heap = s.heap ++ some (text_buffer bytes false) ∷ [] })
        ≡ some t
      → scan_buffer isatty yyalloc (ended_text bytes) s ≡ some (some (length s.heap), t)
  unfolding scan_buffer
  scan_buffer_lem bytes s t cells a h =
      let size : length (ended_text bytes) ≡ length bytes + 2 = length-append bytes (0 ∷ 0 ∷ []) in
      let first : get_elem? (ended_text bytes) (length (ended_text bytes) - 2) ≡ some 0 =
        (let at : length (ended_text bytes) - 2 ≡ length bytes + 0 = omega (arith, size) in
          ap (get_elem? (ended_text bytes)) at ∙ get_elem?-behind bytes (0 ∷ 0 ∷ []) 0) in
      let second : get_elem? (ended_text bytes) (length (ended_text bytes) - 1) ≡ some 0 =
        (let at : length (ended_text bytes) - 1 ≡ length bytes + 1 = omega (arith, size) in
          ap (get_elem? (ended_text bytes)) at ∙ get_elem?-behind bytes (0 ∷ 0 ∷ []) 1) in
      let long : ltb (length (ended_text bytes)) 2 ≡ false = ground (arith, size) in
      let good : (ltb (length (ended_text bytes)) 2
            || not (is_entry 0 (get_elem? (ended_text bytes) (length (ended_text bytes) - 2)))
            || not (is_entry 0 (get_elem? (ended_text bytes) (length (ended_text bytes) - 1))))
          ≡ false =
        rw (long, first, second) refl in
      if-else _ _ good ∙ bind-some _ a ∙ bind-some _ h

  -- What the scanner reads, and the buffer that it read before.
  pub record Scans (bytes : List ℕ) (s : Flex) (i : ℕ) (b : Buffer) (j : ℕ) (t : Flex)
      : Type 0 where
    pub is_new : j ≡ length s.heap
    pub current_is : current t ≡ some j
    pub text_is :
        (c : Buffer) × (fetch j t ≡ some c)
        × (c.ch_buf ≡ ended_text bytes)
        × (c.is_our_buffer ≡ true)
        × (c.fill_buffer ≡ false)
    pub chars_are : t.n_chars ≡ length bytes
    pub at_start : t.c_buf_p ≡ 0
    pub first_char : get_elem? (ended_text bytes) 0 ≡ some t.hold_char
    pub old_saved : fetch i t ≡ some (saved b s)
    pub top_kept : t.stack_top ≡ s.stack_top

  first_of : (bytes : List ℕ) → (c : ℕ) × (get_elem? (ended_text bytes) 0 ≡ some c)
  first_of [] = (0, refl)
  first_of (c ∷ cs) = (c, refl)

  scan_bytes_lem :
      (bytes : List ℕ) (s t : Flex) (c : Buffer) (i : ℕ) (cells : List ℕ)
      → yyalloc (length bytes + 2) ≡ some cells
      → scan_buffer isatty yyalloc (ended_text bytes) s ≡ some (some i, t)
      → fetch i t ≡ some c
      → scan_bytes isatty yyalloc bytes s ≡ some (i, put i (record c { is_our_buffer = true }) t)
  unfolding scan_bytes
  scan_bytes_lem bytes s t c i cells a h e = bind-some _ a ∙ bind-some _ h ∙ bind-some _ e

  -- Where `yyalloc` gives memory and the scanner reads a buffer at a position inside it, `yy_scan_bytes` makes a
  -- new buffer, which the scanner reads from its start and which takes the old one's place on the stack: a
  -- copy of the bytes with two 0s behind it, which is the scanner's own and is not refilled. The old
  -- buffer keeps its text, the position in it and the number of its characters.
  pub scan_bytes-Scans :
      (bytes : List ℕ) (s : Flex) (st : List (Option ℕ)) (i : ℕ) (b : Buffer)
      → ((n : ℕ) → (cells : List ℕ) × (yyalloc n ≡ some cells))
      → Reads s st i b
      → (j : ℕ) × (t : Flex) × (scan_bytes isatty yyalloc bytes s ≡ some (j, t))
        × Scans bytes s i b j t
  scan_bytes-Scans bytes s st i b gives w =
      let j = length s.heap in
      let c = text_buffer bytes false in
      let size : length (ended_text bytes) ≡ length bytes + 2 = length-append bytes (0 ∷ 0 ∷ []) in
      let (x, first) = first_of bytes in
      let below = get_elem?-lt s.heap i (some b) w.buffer_is in
      let s0 : Flex = record s { heap = s.heap ++ some c ∷ [] } in
      let old : get_elem? s0.heap i ≡ some (some b) =
        get_elem?-append s.heap (some c ∷ []) i below ∙ w.buffer_is in
      let w0 : Reads s0 st i b = record {
        stack_is = w.stack_is;
        sized = w.sized;
        top_is = w.top_is;
        buffer_is = old;
        within = w.within;
        file_is = w.file_is;
      } in
      let r = ensure-Room isatty yyalloc s0 st i b gives w0 in
      let s1 : Flex = record s0 { stack = some r.slots; stack_max = r.size } in
      let here = current_lem s1 r.slots (some i) refl (r.top_kept ∙ w.top_is) in
      let other : (j == i) ≡ false = ground arith in
      let s2 = put i (saved b s1) s1 in
      let room : s.stack_top < length r.slots = omega (arith, r.fits, r.slots_sized) in
      let s3 : Flex = record s2 { stack = some (set r.slots s.stack_top (some j)) } in
      let apart : i ≢ j = λ e. absurd (omega (arith, below, e)) in
      let text : get_elem? s2.heap j ≡ some (some c) =
        get_elem?-set_other s0.heap i j (some (saved b s1)) apart ∙ heap_next s.heap c in
      let now = current_lem s3 _ (some j) refl (get_elem?-set r.slots s.stack_top (some j) room) in
      let s4 = loaded s3 c x in
      let s5 : Flex = record s4 { did_switch = true } in
      let switched =
        switch_lem s0 s1 s2 s3 s4 i j r.ensures here other
          (save_lem s1 i b here (fetch_lem s1 i b old))
          (set_current_lem (some j) s2 r.slots refl room)
          (load_lem s3 j c x now (fetch_lem s3 j c text) first) in
      let scanned = scan_buffer_lem bytes s s5 _ (gives (state_size isatty yyalloc)).1 switched in
      let ours = record c { is_our_buffer = true } in
      let t = put j ours s5 in
      let written : get_elem? t.heap j ≡ some (some ours) =
        get_elem?-set s5.heap j (some ours) (get_elem?-lt s5.heap j (some c) text) in
      let kept : get_elem? t.heap i ≡ some (some (saved b s)) =
        get_elem?-set_other s5.heap j i (some ours) (λ e. apart (sym e))
        ∙ get_elem?-set s0.heap i (some (saved b s)) (get_elem?-lt s0.heap i (some b) old) in
      (
        j,
        t,
        scan_bytes_lem bytes s s5 c j _ (gives (length bytes + 2)).1 scanned
            (fetch_lem s5 j c text),
        record {
          is_new = refl;
          current_is =
              current_lem t _ (some j) refl (get_elem?-set r.slots s.stack_top (some j) room);
          text_is = (ours, fetch_lem t j ours written, refl, refl, refl);
          chars_are = omega (arith, size);
          at_start = refl;
          first_char = first;
          old_saved = fetch_lem t i (saved b s) kept;
          top_kept = refl;
        },
      )
