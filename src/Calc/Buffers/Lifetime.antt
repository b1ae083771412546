-- ===== src/Calc/Buffers/Lifetime.antt =====
-- packetdrill/lex.yy.c: what `yylex` sets up when it is first called, `yylex_destroy`, after which it is
-- set up once more, and `yy_scan_string`.
pub mod Begins
mod Made
mod Tests
use network_course.Prelude.{
  ℕ, zero, suc, Bool, true, false, Option, none, some, List, if◌then◌else◌, ◌>>=◌,
}
use network_course.Prelude.Strings.{c_string}
use network_course.Calc.Buffers.{
  Flex, current, set_current, load_buffer_state, ensure_buffer_stack, create_buffer, delete_buffer,
  pop_buffer_state, scan_bytes, buf_size_default,
}

-- The buffers with `yy_init`, `yy_start` and `yyout`.
pub record Globals : Type 0 where
  pub flex : Flex
  pub init : Bool
  pub start : ℕ
  pub yyout : Option ℕ

abbrev pub file_or : Option ℕ → ℕ → Option ℕ
file_or none file = some file
file_or (some open_file) file = some open_file

abbrev pub start_or : ℕ → ℕ
start_or zero = 1
start_or (suc n) = suc n

unfoldable pub init_globals : Globals → Globals
init_globals g = record {
  flex = record (g.flex) { stack = none; stack_top = 0; stack_max = 0; c_buf_p = 0; yyin = none };
  init = false;
  start = 0;
  yyout = none;
}

module _ (isatty : ℕ → Bool) (yyalloc : ℕ → Option (List ℕ)) where
  unfoldable pub ensure_current : Flex → Option Flex
  unfolding current ensure_buffer_stack create_buffer set_current
  ensure_current s =
      let made : Option Flex = (do
        s1 ← ensure_buffer_stack isatty yyalloc s
        (i, s2) ← create_buffer isatty yyalloc s1.yyin (buf_size_default isatty yyalloc) s1
        set_current (some i) s2) in
      elim (current s) [ none ↦ made | some _ ↦ some s ]

  -- The start of `yylex`.
  unfoldable pub initialise : ℕ → ℕ → Globals → Option Globals
  unfolding ensure_current load_buffer_state
  initialise stdin stdout g =
      let done : Option Globals = (do
        s ← ensure_current (record (g.flex) { yyin = file_or g.flex.yyin stdin })
        s1 ← load_buffer_state s
        some (record {
          flex = s1;
          init = true;
          start = start_or g.start;
          yyout = file_or g.yyout stdout;
        })) in
      if g.init then some g else done

  -- The `while` of `yylex_destroy`, on fuel.
  unfoldable pub destroy_buffers : ℕ → Flex → Option Flex
  unfolding current set_current delete_buffer pop_buffer_state
  destroy_buffers zero s = none
  destroy_buffers (suc fuel) s =
      let body : Option Flex = (do
        s1 ← delete_buffer isatty yyalloc (current s) s
        s2 ← set_current none s1
        pop_buffer_state isatty yyalloc s2) in
      let rest : Option Flex = body >>= destroy_buffers fuel in
      elim (current s) [ none ↦ some s | some _ ↦ rest ]

  unfoldable pub destroy : ℕ → Globals → Option Globals
  unfolding destroy_buffers init_globals
  destroy fuel g = do
    s ← destroy_buffers fuel g.flex
    some (init_globals (record g { flex = record s { stack = none } }))

  unfoldable pub scan_string : List ℕ → Flex → Option (ℕ × Flex)
  unfolding scan_bytes
  scan_string str s = scan_bytes isatty yyalloc (c_string str) s
