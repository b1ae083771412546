-- ===== src/Calc/Buffers/Refill.antt =====
-- packetdrill/lex.yy.c: `yy_get_next_buffer` and `yyunput`, on the buffer that the scanner reads.
pub mod Ending
pub mod FromFile
pub mod Text
pub mod ReadChar
pub mod Unput
use network_course.Prelude.{
  ℕ, zero, suc, ◌+◌, ◌-◌, ◌*◌, ◌/◌, ◌%◌, ◌^◌, Bool, true, false, not, ◌&&◌, Option, none, some,
  List, [], ◌∷◌, ◌++◌, length, get_elem?, set, take, drop, min, ltb, leb, ◌==◌, if◌then◌else◌,
  ◌>>=◌,
}
use network_course.Prelude.Int.{ℤ, pos, negsuc}
use network_course.Calc.Buffers.{Status, new, normal, eof_pending, Buffer, flushed, interactive}

-- The current buffer, and the globals that point into it.
pub record Window : Type 0 where
  pub buffer : Buffer
  pub n_chars : ℕ
  pub c_buf_p : ℕ
  pub text_ptr : ℕ
  pub hold_char : ℕ

-- EOB_ACT_CONTINUE_SCAN, EOB_ACT_END_OF_FILE and EOB_ACT_LAST_MATCH.
pub data Action : Type 0 where
  continue_scan end_of_file last_match : Action

abbrev pub is_pending : Status → Bool
is_pending new = false
is_pending normal = false
is_pending eof_pending = true

abbrev pub read_buf_size : ℕ
read_buf_size = 8192

-- Cells written from an index on.
abbrev pub overwrite : ℕ → List ℕ → List ℕ → List ℕ
overwrite i xs cells = take i cells ++ xs ++ drop (i + length xs) cells

-- `(int) n`, where that is not negative.
abbrev pub int_of : ℕ → Option ℕ
int_of n = if ltb (n % 2 ^ 32) (2 ^ 31) then some (n % 2 ^ 32) else none

-- `number_to_move`, where it is not negative, and the buffer with so many characters moved to its
-- start.
abbrev pub matched : Window → ℕ
matched w = (w.c_buf_p - w.text_ptr) % 2 ^ 32

abbrev pub is_movable : Window → Bool
is_movable w = ltb 0 (matched w) && ltb (matched w) (2 ^ 31)

abbrev pub number_to_move : Window → ℕ
number_to_move w = matched w - 1

abbrev pub move_text : Window → Buffer
move_text w =
    let b = w.buffer in
    record b { ch_buf = overwrite 0 (take (number_to_move w) (drop w.text_ptr b.ch_buf)) b.ch_buf }

-- `num_to_read`, which wraps around.
abbrev pub num_to_read : ℕ → Buffer → ℕ
num_to_read number b = (b.buf_size + (2 ^ 64 - number - 1)) % 2 ^ 64

-- `b->yy_buf_size *= 2`, unless that wraps around to 0.
abbrev pub larger : ℕ → ℕ
larger size = if size * 2 % 2 ^ 64 == 0 then size + size / 8 else size * 2 % 2 ^ 64

-- YY_INPUT by its limit, where `none` is its YY_FATAL_ERROR; `yyrealloc` by the new size; `isatty`.
module _ (input : ℕ → Option (List ℕ)) (yyrealloc : ℕ → List ℕ → Option (List ℕ))
    (isatty : ℕ → Bool) where
  -- The `while` that grows a full buffer, with `yy_c_buf_p`, whose offset is an `int`; a unit of fuel for
  -- each round. With a negative offset the pointer would leave the buffer.
  unfoldable pub grow : ℕ → ℕ → ℕ → Buffer → Option (ℕ × Buffer)
  grow zero number p b = none
  grow (suc f) number p b =
      let size = larger b.buf_size in
      let grown : Option (ℕ × Buffer) = (do
        cells ← yyrealloc (size + 2) b.ch_buf
        offset ← int_of p
        grow f number offset (record b { buf_size = size; ch_buf = cells })) in
      if num_to_read number b == 0 then (if b.is_our_buffer then grown else none) else some (p, b)

  -- The characters that are read, behind those that were moved.
  unfoldable pub read_more : ℕ → ℕ → Buffer → Option (List ℕ × ℕ × Buffer)
  unfolding grow
  read_more number p b = do
    (q, b') ← grow 64 number p b
    got ← input (min (num_to_read number b') read_buf_size)
    some (got, q, record b' { ch_buf = overwrite number got b'.ch_buf; n_chars = length got })

  -- `yyrestart (yyin)`, on the current buffer.
  abbrev pub restarted : Option ℕ → Buffer → Buffer
  restarted file b = record (flushed b) {
    input_file = file;
    fill_buffer = true;
    is_interactive = interactive isatty (λ n. none) file;
  }

  -- What is returned, and the buffer and `yy_n_chars` with it.
  unfoldable pub decide_action : ℕ → Option ℕ → List ℕ → Buffer → Action × Buffer
  decide_action number yyin [] b =
      if number == 0
      then (end_of_file, restarted yyin b)
      else (last_match, record b { status = eof_pending })
  decide_action number yyin (c ∷ cs) b = (continue_scan, b)

  -- `yyrestart` loads the position 0, and the 0 that stands there.
  abbrev pub unless_restarted : Action → ℕ → ℕ
  unless_restarted continue_scan n = n
  unless_restarted end_of_file n = 0
  unless_restarted last_match n = n

  -- Room for the two end-of-buffer characters.
  unfoldable pub extend : ℕ → ℕ → Buffer → Option Buffer
  extend n number b =
      if ltb b.buf_size (n + number)
      then (do cells ← yyrealloc (n + number + n / 2) b.ch_buf; some (record b { ch_buf = cells }))
      else some b

  -- `yy_get_next_buffer`, where `yyin` is the file. With a negative `number_to_move` it would write in
  -- front of the buffer, or ask for more memory than there is.
  unfoldable pub get_next_buffer : Option ℕ → Window → Option (Action × Window)
  unfolding read_more decide_action extend
  get_next_buffer yyin w =
      let b = w.buffer in
      let number = number_to_move w in
      let refilled : Option (Action × Window) = (do
        (got, p, b1) ←
            if is_pending b.status
            then some ([], w.c_buf_p, record (move_text w) { n_chars = 0 })
            else read_more number w.c_buf_p (move_text w)
        let (act, b2) = decide_action number yyin got b1
        b3 ← extend (length got) number b2
        let n = length got + number
        some (
          act,
          record w {
            buffer = record b3 { ch_buf = set (set b3.ch_buf n 0) (n + 1) 0 };
            n_chars = n;
            c_buf_p = unless_restarted act p;
            text_ptr = 0;
            hold_char = unless_restarted act w.hold_char;
          },
        )) in
      let unfilled : Option (Action × Window) =
        some (if w.c_buf_p - w.text_ptr == 1 then end_of_file else last_match, w) in
      if ltb (w.n_chars + 1) w.c_buf_p
      then none
      else if not b.fill_buffer
      then unfilled
      else if is_movable w
      then refilled
      else none

-- `(char) c` of an `int`; a `char` in the buffer is its byte.
abbrev pub to_char : ℤ → ℕ
to_char (pos n) = n % 256
to_char (negsuc n) = 255 - n % 256

-- `yyunput (c, yytext_ptr)`; a push-back that finds no room is fatal. The text is shifted by `shift_by`,
-- and the pointers by that as an `int`.
abbrev pub shift_by : Window → ℕ
shift_by w = w.buffer.buf_size + 2 - (w.n_chars + 2)

abbrev pub shifted : Window → Window
shifted w =
    let b = w.buffer in
    let number = w.n_chars + 2 in
    let by = shift_by w in
    record w {
      buffer = record b {
        ch_buf = overwrite by (take number b.ch_buf) b.ch_buf;
        n_chars = b.buf_size;
      };
      n_chars = b.buf_size;
      c_buf_p = w.c_buf_p + by % 2 ^ 32;
      text_ptr = w.text_ptr + by % 2 ^ 32;
    }

abbrev pub restored : Window → Window
restored w =
    let b = w.buffer in
    record w { buffer = record b { ch_buf = set b.ch_buf w.c_buf_p w.hold_char } }

abbrev pub put_back : ℤ → Window → Window
put_back c w =
    let b = w.buffer in
    record w {
      buffer = record b { ch_buf = set b.ch_buf (w.c_buf_p - 1) (to_char c) };
      c_buf_p = w.c_buf_p - 1;
      hold_char = to_char c;
    }

-- With a shift that is negative as an `int` the pointers would leave the buffer.
unfoldable pub unput : ℤ → Window → Option Window
unput c w =
    let room = if ltb w.c_buf_p 2 then shifted (restored w) else restored w in
    let put = if ltb room.c_buf_p 2 then none else some (put_back c room) in
    if ltb w.c_buf_p 2 && leb (2 ^ 31) (shift_by w % 2 ^ 32) then none else put
