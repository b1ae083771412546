-- ===== src/Calc/Buffers/Refill/Ending.antt =====
-- What `yy_get_next_buffer` returns, and the buffer that it ends in.
use network_course.Prelude.{
  ℕ, ◌+◌, ◌-◌, ◌%◌, ◌^◌, ◌≤◌, ◌<◌, ◌≡◌, ◌≢◌, refl, ap, ◌∙◌, Bool, true, false, not, Option, some,
  List, [], ◌∷◌, ◌++◌, length, set, take, drop, ltb, lt→ltb, ◌==◌, Bool-cases, ◌>>=◌, inl, inr,
  arith,
}
use network_course.Prelude.Cells.{
  length-take, length-drop, length-set, take-set, get_elem?-set, get_elem?-set_other, if-then,
  if-else,
}
use network_course.Calc.Buffers.{Buffer}
use network_course.Calc.Buffers.Refill.{
  Window, Action, continue_scan, end_of_file, last_match, overwrite, is_movable, number_to_move,
  move_text, read_more, decide_action, extend, get_next_buffer, unless_restarted,
}
use network_course.Calc.Buffers.Refill.Text.{
  IsScanned, IsRefilled, Environment, HasRead, read_more-HasRead, kept, length-overwrite,
  take-overwrite,
}

is_movable-near : (w : Window) → w.text_ptr < w.c_buf_p → w.c_buf_p < 2 ^ 31 → is_movable w ≡ true
is_movable-near w h k =
    let same : (w.c_buf_p - w.text_ptr) % 2 ^ 32 ≡ w.c_buf_p - w.text_ptr = omega arith in
    rw
      (
        same,
        lt→ltb 0 (w.c_buf_p - w.text_ptr) (omega arith),
        lt→ltb (w.c_buf_p - w.text_ptr) (2 ^ 31) (omega arith),
      )
      refl

length-nil : (xs : List ℕ) → length xs ≡ 0 → xs ≡ []
length-nil [] h = refl
length-nil (x ∷ xs) h = absurd (omega arith)

module _ (input : ℕ → Option (List ℕ)) (yyrealloc : ℕ → List ℕ → Option (List ℕ))
    (isatty : ℕ → Bool) where
  decide_action-HasRead :
      (number : ℕ) (yyin : Option ℕ) (text got : List ℕ) (b : Buffer)
      → HasRead input yyrealloc isatty number text got b
      → HasRead input yyrealloc isatty number text got
          (decide_action input yyrealloc isatty number yyin got b).1
  unfolding decide_action
  decide_action-HasRead number yyin text [] b r = elim (Bool-cases (number == 0)) [
    | inl h ↦
        let cells = set b.ch_buf 0 0 in
        let none_kept : number + 0 ≤ 0 = ground arith in
        rw h (record {
          limit = r.limit;
          positive = r.positive;
          answered = r.answered;
          read_is =
              take-set (number + 0) 1 cells 0 (omega (arith, none_kept))
              ∙ take-set (number + 0) 0 b.ch_buf 0 none_kept
              ∙ r.read_is;
          read_within = r.read_within;
          read_sized = length-set cells 1 0 ∙ length-set b.ch_buf 0 0 ∙ r.read_sized;
        })
    | inr h ↦ rw h (record {
      limit = r.limit;
      positive = r.positive;
      answered = r.answered;
      read_is = r.read_is;
      read_within = r.read_within;
      read_sized = r.read_sized;
    })
  ]
  decide_action-HasRead number yyin text (c ∷ cs) b r = r

  -- What `yy_get_next_buffer` leaves, by what was read and the buffer it was read into.
  abbrev ended : Window → Action → ℕ → Buffer → Window
  ended w act n b = record w {
    buffer = record b { ch_buf = set (set b.ch_buf n 0) (n + 1) 0 };
    n_chars = n;
    c_buf_p = unless_restarted input yyrealloc isatty act w.c_buf_p;
    text_ptr = 0;
    hold_char = unless_restarted input yyrealloc isatty act w.hold_char;
  }

  get_next_buffer-ended :
      (yyin : Option ℕ) (w : Window) (got : List ℕ) (b1 b3 : Buffer)
      → IsScanned w
      → read_more input yyrealloc isatty (number_to_move w) w.c_buf_p (move_text w)
        ≡ some (got, w.c_buf_p, b1)
      → extend input yyrealloc isatty
          (length got)
          (number_to_move w)
          (decide_action input yyrealloc isatty (number_to_move w) yyin got b1).1
        ≡ some b3
      → get_next_buffer input yyrealloc isatty yyin w
        ≡ some (
          (decide_action input yyrealloc isatty (number_to_move w) yyin got b1).0,
          ended w
              (decide_action input yyrealloc isatty (number_to_move w) yyin got b1).0
              (length got + number_to_move w)
              b3,
        )
  unfolding get_next_buffer
  get_next_buffer-ended yyin w got b1 b3 h r x =
      let found : ltb (w.n_chars + 1) w.c_buf_p ≡ false = ground (arith, h.found) in
      let some_text = is_movable-near w h.ahead h.near in
      if-else _ _ found
      ∙ if-else _ _ (ap not h.fills)
      ∙ if-then _ _ some_text
      ∙ rw (h.open_file, r, ◌>>=◌, x, ◌>>=◌) refl

  extend-fits :
      (n number : ℕ) (b : Buffer)
      → number + n < b.buf_size
      → extend input yyrealloc isatty n number b ≡ some b
  unfolding extend
  extend-fits n number b h = if-else {t = ltb b.buf_size (n + number)} _ _ (ground arith)

  ended-IsRefilled :
      (w : Window) (act : Action) (text got : List ℕ) (b : Buffer)
      → HasRead input yyrealloc isatty (number_to_move w) text got b
      → IsRefilled (text ++ got) (ended w act (length got + number_to_move w) b)
  ended-IsRefilled w act text got b r =
      let n = length got + number_to_move w in
      let cells = set b.ch_buf n 0 in
      let order : n ≡ number_to_move w + length got = omega arith in
      let sized = length-set b.ch_buf n 0 ∙ r.read_sized in
      record {
        at_start = refl;
        text_is =
            take-set n (n + 1) cells 0 (omega arith)
            ∙ take-set n n b.ch_buf 0 (omega arith)
            ∙ ap (λ k. take k b.ch_buf) order
            ∙ r.read_is;
        first_end =
            get_elem?-set_other cells (n + 1) n 0 (λ e. absurd (omega (arith, e)))
            ∙ get_elem?-set b.ch_buf n 0 (omega (arith, r.read_within, r.read_sized));
        second_end = get_elem?-set cells (n + 1) 0 (omega (arith, r.read_within, sized));
        within = omega (arith, r.read_within);
        sized = length-set cells (n + 1) 0 ∙ sized;
      }

  -- The answer of YY_INPUT decides what is returned.
  pub record Outcome (w : Window) (act : Action) (got : List ℕ) : Type 0 where
    pub limit : ℕ
    pub positive : 0 < limit
    pub answered : input limit ≡ some got
    pub read_on : got ≢ [] → act ≡ continue_scan
    pub at_end : got ≡ [] → kept w ≡ [] → act ≡ end_of_file
    pub last_text : got ≡ [] → kept w ≢ [] → act ≡ last_match

  decide_action-last :
      (number : ℕ) (yyin : Option ℕ) (b : Buffer)
      → (number == 0) ≡ false
      → (decide_action input yyrealloc isatty number yyin [] b).0 ≡ last_match
  unfolding decide_action
  decide_action-last number yyin b h = rw h refl

  decide_action-end :
      (number : ℕ) (yyin : Option ℕ) (b : Buffer)
      → (number == 0) ≡ true
      → (decide_action input yyrealloc isatty number yyin [] b).0 ≡ end_of_file
  unfolding decide_action
  decide_action-end number yyin b h = rw h refl

  kept-length : (w : Window) → IsScanned w → length (kept w) ≡ number_to_move w
  kept-length w h =
      length-take (number_to_move w) (drop w.text_ptr w.buffer.ch_buf)
        (omega (arith, length-drop w.text_ptr w.buffer.ch_buf, h.found, h.room, h.sized))

  Outcome-decided :
      (w : Window) (yyin : Option ℕ) (got : List ℕ) (b : Buffer)
      → IsScanned w
      → HasRead input yyrealloc isatty (number_to_move w) (kept w) got b
      → Outcome w (decide_action input yyrealloc isatty (number_to_move w) yyin got b).0 got
  unfolding decide_action
  Outcome-decided w yyin [] b h r =
      let n = kept-length w h in
      record {
        limit = r.limit;
        positive = r.positive;
        answered = r.answered;
        read_on = λ e. absurd (e refl);
        at_end =
            λ _ e. decide_action-end (number_to_move w) yyin b (ground (arith, n, ap length e));
        last_text = λ _ e. elim (Bool-cases (number_to_move w == 0)) [
          | inl z ↦ absurd (e (length-nil (kept w) (ground (arith, n, z))))
          | inr z ↦ decide_action-last (number_to_move w) yyin b z
        ];
      }
  Outcome-decided w yyin (c ∷ cs) b h r = record {
    limit = r.limit;
    positive = r.positive;
    answered = r.answered;
    read_on = λ _. refl;
    at_end = λ e. absurd (omega (arith, ap length e));
    last_text = λ e. absurd (omega (arith, ap length e));
  }

  -- For a scanner whose match ends at the end-of-buffer character, at an index below 2^31, in a buffer of its own that has the text
  -- within its size and less than half of the range of the size, and that is not marked as read to its end: where
  -- `yyrealloc` and YY_INPUT do not fail and YY_INPUT keeps to its limit, the refill returns. It has asked for
  -- at least one character; the buffer starts with the unmatched text and then the characters that were read,
  -- ended by two 0s within the size. It goes on with the scan after some characters, and after none it reports
  -- the end of the file, or the last match where unmatched text is left.
  pub get_next_buffer-IsRefilled :
      (yyin : Option ℕ) (w : Window)
      → Environment input yyrealloc isatty
      → IsScanned w
      → (act : Action) × (w' : Window) × (got : List ℕ) × (get_next_buffer input yyrealloc isatty
            yyin w
          ≡ some (act, w'))
        × IsRefilled (kept w ++ got) w'
        × Outcome w act got
  get_next_buffer-IsRefilled yyin w e h =
      let number = number_to_move w in
      let cells = w.buffer.ch_buf in
      let short = kept-length w h in
      let fits : 0 + length (kept w) ≤ length cells =
        omega (arith, short, h.found, h.sized, h.room) in
      let all : number ≡ 0 + length (kept w) = omega (arith, short) in
      let moved = length-overwrite 0 (kept w) cells fits in
      let (got, b1, read, r) =
        read_more-HasRead input yyrealloc isatty e number w.c_buf_p (move_text w)
          (omega (arith, h.found, h.room, h.ahead, h.near)) h.near (moved ∙ h.sized) h.small
          h.ours in
      let start : take number (overwrite 0 (kept w) cells) ≡ kept w =
        ap (λ n. take n (overwrite 0 (kept w) cells)) all ∙ take-overwrite 0 (kept w) cells fits in
      let r1 : HasRead input yyrealloc isatty number (kept w) got b1 = record {
        limit = r.limit;
        positive = r.positive;
        answered = r.answered;
        read_is = r.read_is ∙ ap (λ t. t ++ got) start;
        read_within = r.read_within;
        read_sized = r.read_sized;
      } in
      let r2 = decide_action-HasRead number yyin (kept w) got b1 r1 in
      (
        _,
        _,
        got,
        get_next_buffer-ended yyin w got b1 _ h read
            (extend-fits (length got) number _ r2.read_within),
        ended-IsRefilled w _ (kept w) got _ r2,
        Outcome-decided w yyin got b1 h r1,
      )
