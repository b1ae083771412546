-- ===== src/Calc/Buffers/Tests.antt =====
-- The buffers on concrete text, where every file is a terminal or none is.
use network_course.Prelude.{
  ℕ, zero, suc, ◌≡◌, refl, Bool, true, false, Option, none, some, List, [], ◌∷◌, ◌++◌, length, take,
  ◌>>=◌, arith, ap, ◌∙◌, length-append,
}
use network_course.Calc.Buffers.{
  Buffer, Flex, current, normal, unallocated, scan_bytes, restart, push_buffer_state,
  pop_buffer_state,
}
use network_course.Prelude.Int.{pos, negsuc}
use network_course.Prelude.Cells.{length-take, take-take, take-append}
use network_course.Calc.Buffers.Scan.{Scans, scan_bytes-Scans}
use network_course.Calc.Buffers.Stack.{Reads, Back, push-pop}
use network_course.Calc.Buffers.Refill.{Window, Action, get_next_buffer, unput, continue_scan}
use network_course.Calc.Buffers.Refill.Text.{IsScanned, IsRefilled, kept}
use network_course.Calc.Buffers.Input.{
  Getc, char, interrupted, File, Input, has_read, fatal, unfinished, yy_input, stored,
}
use network_course.Calc.Buffers.Input.Pieces.{IsClean, clean_char, clean_nil, Piece, yy_input-Piece}
use network_course.Calc.Buffers.Input.Ends.{Finishes, yy_input-Finishes}
use network_course.Calc.Buffers.Refill.FromFile.{Memory, file_input, Environment-file}
use network_course.Calc.Buffers.Refill.Ending.{Outcome, get_next_buffer-IsRefilled}
use network_course.Calc.Buffers.Refill.ReadChar.{read_char, unput-read_char}
use network_course.Calc.Buffers.Refill.Unput.{Fits, PutBack, unput-PutBack, unread}

abbrev pub zeros : ℕ → List ℕ
zeros zero = []
zeros (suc n) = 0 ∷ zeros n

abbrev pub no_terminal : ℕ → Bool
no_terminal file = false

abbrev pub allocate : ℕ → Option (List ℕ)
allocate n = some (zeros n)

abbrev buffer_of : List ℕ → ℕ → ℕ → Buffer
buffer_of cells size chars = record {
  input_file = some 0;
  ch_buf = cells;
  buf_pos = 0;
  buf_size = size;
  n_chars = chars;
  is_our_buffer = true;
  is_interactive = false;
  at_bol = true;
  lineno = 1;
  column = 0;
  fill_buffer = true;
  status = normal;
}

-- "1+" and "2", the first of which is being read, after its first character.
abbrev pub first_buffer : Buffer
first_buffer = buffer_of (49 ∷ 0 ∷ 0 ∷ 0 ∷ []) 2 2

abbrev pub second_buffer : Buffer
second_buffer = buffer_of (50 ∷ 0 ∷ 0 ∷ []) 1 1

abbrev pub reading : Flex
reading = record {
  heap = some first_buffer ∷ some second_buffer ∷ [];
  stack = some (some 0 ∷ []);
  stack_top = 0;
  stack_max = 1;
  n_chars = 2;
  c_buf_p = 1;
  text_ptr = 0;
  hold_char = 43;
  yyin = some 0;
  did_switch = false;
}

pub reading-Reads : Reads reading (some 0 ∷ []) 0 first_buffer
reading-Reads = record {
  stack_is = refl;
  sized = refl;
  top_is = refl;
  buffer_is = refl;
  within = omega arith;
  file_is = refl;
}

push-pop_example :
    (t : Flex) × ((push_buffer_state no_terminal allocate (some 1) reading
        >>= pop_buffer_state no_terminal allocate)
      ≡ some t)
    × Back no_terminal allocate reading 0 t
push-pop_example =
    push-pop no_terminal allocate reading (some 0 ∷ []) 0 first_buffer 1 second_buffer 50
      (λ n. (zeros n, refl)) reading-Reads (λ e. absurd (omega (arith, e))) refl refl

scan_bytes-Scans_example :
    (j : ℕ) × (t : Flex) × (scan_bytes no_terminal allocate (55 ∷ []) reading ≡ some (j, t))
    × Scans no_terminal allocate (55 ∷ []) reading 0 first_buffer j t
scan_bytes-Scans_example =
    scan_bytes-Scans no_terminal allocate (55 ∷ []) reading (some 0 ∷ []) 0 first_buffer
      (λ n. (zeros n, refl)) reading-Reads

-- The rest of the input is "+2".
abbrev rest_of_input : List Getc
rest_of_input = char 43 ∷ char 50 ∷ []

rest_of_input-IsClean : IsClean rest_of_input
rest_of_input-IsClean = clean_char (clean_char clean_nil)

abbrev rest_of_input_file : File
rest_of_input_file = record { results = rest_of_input; error = false }

yy_input-Piece_example : Piece 1 rest_of_input (yy_input true 1 rest_of_input_file)
yy_input-Piece_example = yy_input-Piece true 1 rest_of_input rest_of_input-IsClean

-- `fread` is interrupted twice before it reads.
abbrev interrupted_twice : File
interrupted_twice = record { results = interrupted ∷ interrupted ∷ char 43 ∷ []; error = false }

yy_input-Finishes_example : Finishes (yy_input false 8192 interrupted_twice)
yy_input-Finishes_example = yy_input-Finishes false 8192 interrupted_twice

interrupted_test : stored (yy_input false 8192 interrupted_twice) ≡ some (43 ∷ [])
unfolding yy_input
interrupted_test = refl

-- An interruption behind a character leaves `ferror` set, and the end of the file is fatal after it.
abbrev second_read : Input → Input
second_read (has_read got f) = yy_input false 8192 f
second_read fatal = fatal
second_read unfinished = unfinished

late_interruption :
    second_read (yy_input false 8192 record { results = char 43 ∷ interrupted ∷ []; error = false })
    ≡ fatal
unfolding yy_input
late_interruption = refl

abbrev reallocate : ℕ → List ℕ → Option (List ℕ)
reallocate n xs = some (take n (xs ++ zeros n))

-- "1" was read, and is not a token yet.
abbrev scanned : Window
scanned = record {
  buffer = buffer_of (49 ∷ 0 ∷ 0 ∷ 0 ∷ []) 2 1;
  n_chars = 1;
  c_buf_p = 2;
  text_ptr = 0;
  hold_char = 0;
}

scanned-IsScanned : IsScanned scanned
scanned-IsScanned = record {
  ahead = omega arith;
  found = omega arith;
  near = omega arith;
  room = omega arith;
  sized = refl;
  small = omega arith;
  ours = refl;
  fills = refl;
  open_file = refl;
}

length-zeros : (n : ℕ) → length (zeros n) ≡ n
length-zeros zero = refl
length-zeros (suc n) = ap suc (length-zeros n)

memory : Memory reallocate
memory = record {
  cells = λ n xs. take n (xs ++ zeros n);
  reallocates = λ n xs. refl;
  as_many = λ n xs.
      length-take n (xs ++ zeros n) (omega (arith, length-append xs (zeros n), length-zeros n));
  same = λ n xs h.
      take-take (length xs) n (xs ++ zeros n) h ∙ take-append (length xs) xs (zeros n) refl;
}

get_next_buffer-IsRefilled_example :
    (act : Action) × (w' : Window) × (got : List ℕ) × (get_next_buffer
        (file_input true rest_of_input)
        reallocate
        no_terminal
        (some 0)
        scanned
      ≡ some (act, w'))
    × IsRefilled (kept scanned ++ got) w'
    × Outcome (file_input true rest_of_input) reallocate no_terminal scanned act got
get_next_buffer-IsRefilled_example =
    get_next_buffer-IsRefilled (file_input true rest_of_input) reallocate no_terminal (some 0)
      scanned
      (Environment-file reallocate no_terminal true rest_of_input memory rest_of_input-IsClean)
      scanned-IsScanned

-- The buffer grows from 2 cells to 4, and takes two characters more.
refill_test :
    (let shown : Option (Action × ℕ × ℕ × List ℕ) = (do
      r ← get_next_buffer (file_input false rest_of_input) reallocate no_terminal (some 0) scanned
      some (r.0, r.1.buffer.buf_size, r.1.n_chars, r.1.buffer.ch_buf)) in
      shown)
    ≡ some (continue_scan, 4, 3, 49 ∷ 43 ∷ 50 ∷ 0 ∷ 0 ∷ 0 ∷ [])
unfolding get_next_buffer yy_input
refill_test = refl

-- "1" is put back in front of "2" at the start of a full buffer, and fails; in a larger one it does not, also
-- as 305, which is '1' modulo 256, and -1 is put back as 255.
abbrev full : Window
full = record {
  buffer = buffer_of (50 ∷ 0 ∷ 0 ∷ []) 1 1;
  n_chars = 1;
  c_buf_p = 0;
  text_ptr = 0;
  hold_char = 50;
}

abbrev larger_buffer : Window
larger_buffer = record full { buffer = buffer_of (50 ∷ 0 ∷ 0 ∷ 0 ∷ 0 ∷ []) 3 1 }

full_test : unput (pos 49) full ≡ none
unfolding unput
full_test = refl

unput-PutBack_example : PutBack (pos 305) larger_buffer
unput-PutBack_example =
    unput-PutBack (pos 305) larger_buffer
      record { sized = refl; within = omega arith; behind = omega arith; near = omega arith }

unput-read_char_example :
    (w' : Window) × ((unput (negsuc 0) larger_buffer
        >>= read_char (file_input false rest_of_input) reallocate no_terminal (some 0))
      ≡ some (255, w'))
    × (unread w' ≡ unread larger_buffer)
    × Fits w'
unput-read_char_example =
    unput-read_char (file_input false rest_of_input) reallocate no_terminal (some 0) (negsuc 0)
      larger_buffer
      record { sized = refl; within = omega arith; behind = omega arith; near = omega arith }
      (omega arith)

-- At the end of the buffer `input` refills it, and takes the first character of the file.
abbrev used_up : Window
used_up = record {
  buffer = buffer_of (49 ∷ 0 ∷ 0 ∷ 0 ∷ []) 2 1;
  n_chars = 1;
  c_buf_p = 1;
  text_ptr = 0;
  hold_char = 0;
}

read_char_test :
    (let shown : Option (ℕ × ℕ × ℕ) = (do
      r ← read_char (file_input false rest_of_input) reallocate no_terminal (some 0) used_up
      some (r.0, r.1.c_buf_p, r.1.hold_char)) in
      shown)
    ≡ some (43, 2, 50)
unfolding read_char yy_input
read_char_test = refl

unput_test : (unput (pos 305) larger_buffer >>= λ w. some (unread w)) ≡ some (49 ∷ 50 ∷ [])
unfolding unput
unput_test = refl

-- The text "1" is scanned from a copy of it, on a stack that has one entry.
bytes_test :
    (let shown : Option (ℕ × ℕ) = (do
      r ← scan_bytes no_terminal allocate (49 ∷ []) unallocated
      i ← current r.1
      some (i, r.1.hold_char)) in
      shown)
    ≡ some (0, 49)
unfolding scan_bytes current
bytes_test = refl

restart_test :
    (let shown : Option (Option ℕ × Option ℕ) = (do
      s ← restart no_terminal allocate (some 7) unallocated
      some (current s, s.yyin)) in
      shown)
    ≡ some (some 0, some 7)
unfolding restart current
restart_test = refl
