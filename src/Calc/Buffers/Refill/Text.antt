-- ===== src/Calc/Buffers/Refill/Text.antt =====
-- The text in the buffer before and after a refill.
use network_course.Prelude.{
  ℕ, suc, ◌+◌, ◌-◌, ◌*◌, ◌^◌, ◌≤◌, ◌<◌, ◌≡◌, refl, sym, ap, ◌∙◌, Bool, true, false, Option, some,
  List, ◌++◌, length, length-append, get_elem?, take, drop, min, ltb, lt→ltb, ◌==◌, ◌%◌, Bool-cases,
  inl, inr, arith,
}
use network_course.Prelude.Cells.{
  length-take, length-drop, take-append, take-take, if-then, bind-some,
}
use network_course.Calc.Buffers.{Buffer}
use network_course.Calc.Buffers.Refill.{
  Window, is_pending, read_buf_size, overwrite, int_of, number_to_move, num_to_read, larger, grow,
  read_more,
}

-- The characters that the scanner has not taken into a token yet.
abbrev pub kept : Window → List ℕ
kept w = take (number_to_move w) (drop w.text_ptr w.buffer.ch_buf)

-- A buffer in which the scanner has found the end-of-buffer character behind the text.
pub record IsScanned (w : Window) : Type 0 where
  pub ahead : w.text_ptr < w.c_buf_p
  pub found : w.c_buf_p ≤ w.n_chars + 1
  pub near : w.c_buf_p < 2 ^ 31
  pub room : w.n_chars < w.buffer.buf_size
  pub sized : length w.buffer.ch_buf ≡ w.buffer.buf_size + 2
  pub small : 2 * w.buffer.buf_size < 2 ^ 64
  pub ours : w.buffer.is_our_buffer ≡ true
  pub fills : w.buffer.fill_buffer ≡ true
  pub open_file : is_pending w.buffer.status ≡ false

-- What the buffer is after the refill: the text, the two end-of-buffer characters behind it, within its size.
pub record IsRefilled (text : List ℕ) (w : Window) : Type 0 where
  pub at_start : w.text_ptr ≡ 0
  pub text_is : take w.n_chars w.buffer.ch_buf ≡ text
  pub first_end : get_elem? w.buffer.ch_buf w.n_chars ≡ some 0
  pub second_end : get_elem? w.buffer.ch_buf (w.n_chars + 1) ≡ some 0
  pub within : w.n_chars < w.buffer.buf_size
  pub sized : length w.buffer.ch_buf ≡ w.buffer.buf_size + 2

pub length-overwrite :
    (i : ℕ) (xs cells : List ℕ)
    → i + length xs ≤ length cells
    → length (overwrite i xs cells) ≡ length cells
length-overwrite i xs cells h = omega (
  arith,
  length-append (take i cells ++ xs) (drop (i + length xs) cells),
  length-append (take i cells) xs,
  length-take i cells (omega arith),
  length-drop (i + length xs) cells,
)

pub take-overwrite :
    (i : ℕ) (xs cells : List ℕ)
    → i + length xs ≤ length cells
    → take (i + length xs) (overwrite i xs cells) ≡ take i cells ++ xs
take-overwrite i xs cells h =
    take-append (i + length xs) (take i cells ++ xs) (drop (i + length xs) cells)
      (omega (arith, length-append (take i cells) xs, length-take i cells (omega arith)))

num_to_read_small :
    (number : ℕ) (b : Buffer)
    → number < b.buf_size
    → b.buf_size < 2 ^ 64
    → num_to_read number b ≡ b.buf_size - number - 1
num_to_read_small number b h k = omega arith

module _ (input : ℕ → Option (List ℕ)) (yyrealloc : ℕ → List ℕ → Option (List ℕ))
    (isatty : ℕ → Bool) where
  -- `yyrealloc` keeps the cells, and YY_INPUT keeps to its limit; neither fails.
  pub record Environment : Type 0 where
    pub cells : ℕ → List ℕ → List ℕ
    pub reallocates : (n : ℕ) (xs : List ℕ) → yyrealloc n xs ≡ some (cells n xs)
    pub as_many : (n : ℕ) (xs : List ℕ) → length (cells n xs) ≡ n
    pub same : (n : ℕ) (xs : List ℕ) → length xs ≤ n → take (length xs) (cells n xs) ≡ xs
    pub got : ℕ → List ℕ
    pub reads : (n : ℕ) → input n ≡ some (got n)
    pub limited : (n : ℕ) → length (got n) ≤ n

  -- A buffer that has room behind the characters that were moved.
  record Grown (number p : ℕ) (b b' : Buffer) : Type 0 where
    grows : grow input yyrealloc isatty 64 number p b ≡ some (p, b')
    start_kept : take number b'.ch_buf ≡ take number b.ch_buf
    roomy : number + 1 < b'.buf_size
    cells_sized : length b'.ch_buf ≡ b'.buf_size + 2
    bounded : b'.buf_size < 2 ^ 64

  grow_stops :
      (f number p : ℕ) (b : Buffer)
      → (num_to_read number b == 0) ≡ false
      → grow input yyrealloc isatty (suc f) number p b ≡ some (p, b)
  unfolding grow
  grow_stops f number p b h = rw h refl

  int_of-small : (p : ℕ) → p < 2 ^ 31 → int_of p ≡ some p
  int_of-small p h =
      let same : p % 2 ^ 32 ≡ p = omega arith in
      let small : ltb p (2 ^ 31) ≡ true = lt→ltb _ _ h in rw (same, small) refl

  grow_once :
      (f number size p : ℕ) (b b' : Buffer) (cells : List ℕ)
      → (num_to_read number b == 0) ≡ true
      → b.is_our_buffer ≡ true
      → larger b.buf_size ≡ size
      → yyrealloc (size + 2) b.ch_buf ≡ some cells
      → p < 2 ^ 31
      → grow input yyrealloc isatty f number p (record b { buf_size = size; ch_buf = cells })
        ≡ some (p, b')
      → grow input yyrealloc isatty (suc f) number p b ≡ some (p, b')
  unfolding grow
  grow_once f number size p b b' cells h o l c s g =
      if-then _ _ h ∙ if-then _ _ o ∙ rw l (bind-some _ c ∙ bind-some _ (int_of-small p s) ∙ g)

  larger_double : (size : ℕ) → 0 < size → 2 * size < 2 ^ 64 → larger size ≡ size * 2
  larger_double size p h = ground arith

  grow-Grown :
      (e : Environment) (number p : ℕ) (b : Buffer)
      → number < b.buf_size
      → p < 2 ^ 31
      → length b.ch_buf ≡ b.buf_size + 2
      → 2 * b.buf_size < 2 ^ 64
      → b.is_our_buffer ≡ true
      → (b' : Buffer) × Grown number p b b'
  grow-Grown e number p b h s l k o =
      let n = num_to_read_small number b h (omega arith) in
      elim (Bool-cases (num_to_read number b == 0)) [
        | inr roomy ↦ (
          b,
          record {
            grows = grow_stops 63 number p b roomy;
            start_kept = refl;
            roomy = ground (arith, n);
            cells_sized = l;
            bounded = omega arith;
          },
        )
        | inl tight ↦
            let size = b.buf_size * 2 in
            let b' : Buffer = record b { buf_size = size; ch_buf = e.cells (size + 2) b.ch_buf } in
            let last : number + 1 ≡ b.buf_size = ground (arith, n) in
            let n' = num_to_read_small number b' (omega arith) (omega arith) in
            (
              b',
              record {
                grows =
                    grow_once 63 number size p b b' (e.cells (size + 2) b.ch_buf) tight o
                      (larger_double b.buf_size (omega arith) k) (e.reallocates (size + 2) b.ch_buf)
                      s (grow_stops 62 number p b' (ground (arith, n')));
                start_kept =
                    sym (take-take number (length b.ch_buf) b'.ch_buf (omega arith))
                    ∙ ap (take number) (e.same (size + 2) b.ch_buf (omega arith));
                roomy = omega arith;
                cells_sized = e.as_many (size + 2) b.ch_buf;
                bounded = omega arith;
              },
            )
      ]

  -- The buffer after the characters were read.
  pub record HasRead (number : ℕ) (text : List ℕ) (got : List ℕ) (b : Buffer) : Type 0 where
    pub limit : ℕ
    pub positive : 0 < limit
    pub answered : input limit ≡ some got
    pub read_is : take (number + length got) b.ch_buf ≡ text ++ got
    pub read_within : number + length got < b.buf_size
    pub read_sized : length b.ch_buf ≡ b.buf_size + 2

  pub read_more-HasRead :
      (e : Environment) (number p : ℕ) (b : Buffer)
      → number < b.buf_size
      → p < 2 ^ 31
      → length b.ch_buf ≡ b.buf_size + 2
      → 2 * b.buf_size < 2 ^ 64
      → b.is_our_buffer ≡ true
      → (got : List ℕ) × (b' : Buffer) × (read_more input yyrealloc isatty number p b
          ≡ some (got, p, b'))
        × HasRead number (take number b.ch_buf) got b'
  unfolding read_more
  read_more-HasRead e number p b h s l k o =
      let (g, w) = grow-Grown e number p b h s l k o in
      let limit = min (num_to_read number g) read_buf_size in
      let got = e.got limit in
      let n = num_to_read_small number g (omega (arith, w.roomy)) w.bounded in
      let fits : number + length got < g.buf_size = omega (arith, e.limited limit, n, w.roomy) in
      let fits' : number + length got ≤ length g.ch_buf = omega (arith, fits, w.cells_sized) in
      (
        got,
        record g { ch_buf = overwrite number got g.ch_buf; n_chars = length got },
        rw (w.grows, e.reads limit) refl,
        record {
          limit = limit;
          positive = ground (arith, n, w.roomy);
          answered = e.reads limit;
          read_is = take-overwrite number got g.ch_buf fits' ∙ ap (λ xs. xs ++ got) w.start_kept;
          read_within = fits;
          read_sized = length-overwrite number got g.ch_buf fits' ∙ w.cells_sized;
        },
      )
