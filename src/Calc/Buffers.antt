-- ===== src/Calc/Buffers.antt =====
-- packetdrill/lex.yy.c: the input buffers of the scanner and their stack. A `YY_BUFFER_STATE` is an
-- index into a heap, whose freed entries are `none`; a pointer into `yy_ch_buf` is an index. An
-- operation comes to `none` on YY_FATAL_ERROR and where C leaves it undefined.
pub mod Input
pub mod Lifetime
pub mod Refill
pub mod Scan
pub mod Stack
mod Tests
use network_course.Prelude.{
  ℕ, zero, suc, ◌+◌, ◌-◌, ◌*◌, Bool, true, false, not, ◌||◌, Option, none, some, List, [], ◌∷◌,
  ◌++◌, length, get_elem?, set, take, drop, leb, ltb, ◌==◌, if◌then◌else◌, ◌>>=◌,
}

-- YY_BUFFER_NEW, YY_BUFFER_NORMAL and YY_BUFFER_EOF_PENDING.
pub data Status : Type 0 where
  new normal eof_pending : Status

-- `struct yy_buffer_state`; `none` is the file NULL.
pub record Buffer : Type 0 where
  pub input_file : Option ℕ
  pub ch_buf : List ℕ
  pub buf_pos : ℕ
  pub buf_size : ℕ
  pub n_chars : ℕ
  pub is_our_buffer : Bool
  pub is_interactive : Bool
  pub at_bol : Bool
  pub lineno : ℕ
  pub column : ℕ
  pub fill_buffer : Bool
  pub status : Status

-- The scanner's globals: `stack` is `none` before it is allocated.
pub record Flex : Type 0 where
  pub heap : List (Option Buffer)
  pub stack : Option (List (Option ℕ))
  pub stack_top : ℕ
  pub stack_max : ℕ
  pub n_chars : ℕ
  pub c_buf_p : ℕ
  pub text_ptr : ℕ
  pub hold_char : ℕ
  pub yyin : Option ℕ
  pub did_switch : Bool

-- YY_CURRENT_BUFFER.
unfoldable pub entry_at : Option (List (Option ℕ)) → ℕ → Option ℕ
entry_at none i = none
entry_at (some st) i = get_elem? st i >>= λ b. b

unfoldable pub current : Flex → Option ℕ
unfolding entry_at
current s = entry_at s.stack s.stack_top

-- `YY_CURRENT_BUFFER_LVALUE = b`.
unfoldable pub set_current : Option ℕ → Flex → Option Flex
set_current b s = do
  st ← s.stack
  if ltb s.stack_top (length st)
      then some (record s { stack = some (set st s.stack_top b) })
      else none

-- `*b`.
unfoldable pub fetch : ℕ → Flex → Option Buffer
fetch i s = get_elem? s.heap i >>= λ b. b

abbrev pub put : ℕ → Buffer → Flex → Flex
put i b s = record s { heap = set s.heap i (some b) }

-- `b == YY_CURRENT_BUFFER`.
abbrev pub is_entry : ℕ → Option ℕ → Bool
is_entry i none = false
is_entry i (some j) = i == j

unfoldable pub load_buffer_state : Flex → Option Flex
unfolding current fetch
load_buffer_state s = do
  i ← current s
  b ← fetch i s
  c ← get_elem? b.ch_buf b.buf_pos
  some (record s {
    n_chars = b.n_chars;
    c_buf_p = b.buf_pos;
    text_ptr = b.buf_pos;
    hold_char = c;
    yyin = b.input_file;
  })

-- The block "flush out information for old buffer".
unfoldable pub save_buffer_state : Flex → Option Flex
unfolding current fetch
save_buffer_state s = elim (current s) [
  | none ↦ some s
  | some i ↦ (do
    b ← fetch i s
    some (
        put i
          (record b {
            ch_buf = set b.ch_buf s.c_buf_p s.hold_char;
            buf_pos = s.c_buf_p;
            n_chars = s.n_chars;
          })
          s))
]

abbrev pub flushed : Buffer → Buffer
flushed b = record b {
  n_chars = 0;
  ch_buf = set (set b.ch_buf 0 0) 1 0;
  buf_pos = 0;
  at_bol = true;
  status = new;
}

unfoldable pub flush_buffer : Option ℕ → Flex → Option Flex
unfolding load_buffer_state fetch current
flush_buffer none s = some s
flush_buffer (some i) s = do
  b ← fetch i s
  let s' = put i (flushed b) s
  if is_entry i (current s) then load_buffer_state s' else some s'

-- `isatty` of a file's descriptor, and `yyalloc`, with the cells that it gives.
module _ (isatty : ℕ → Bool) (yyalloc : ℕ → Option (List ℕ)) where
  abbrev pub interactive : Option ℕ → Bool
  interactive none = false
  interactive (some file) = isatty file

  unfoldable pub init_buffer : ℕ → Option ℕ → Flex → Option Flex
  unfolding flush_buffer fetch current
  init_buffer i file s = do
    s' ← flush_buffer (some i) s
    b ← fetch i s'
    let here = is_entry i (current s')
    some (
        put i
          (record b {
            input_file = file;
            fill_buffer = true;
            lineno = if here then b.lineno else 1;
            column = if here then b.column else 0;
            is_interactive = interactive file;
          })
          s')

  -- The size of `struct yy_buffer_state` with pointers of 8 bytes, and of such a pointer.
  abbrev pub state_size : ℕ
  state_size = 72

  abbrev pub pointer_size : ℕ
  pointer_size = 8

  unfoldable pub create_buffer : Option ℕ → ℕ → Flex → Option (ℕ × Flex)
  unfolding init_buffer
  create_buffer file size s = do
    _ ← yyalloc state_size
    cells ← yyalloc (size + 2)
    let i = length s.heap
    let b : Buffer = record {
      input_file = none;
      ch_buf = cells;
      buf_pos = 0;
      buf_size = size;
      n_chars = 0;
      is_our_buffer = true;
      is_interactive = false;
      at_bol = false;
      lineno = 0;
      column = 0;
      fill_buffer = false;
      status = new;
    }
    s' ← init_buffer i file (record s { heap = s.heap ++ some b ∷ [] })
    some (i, s')

  unfoldable pub delete_buffer : Option ℕ → Flex → Option Flex
  unfolding set_current current
  delete_buffer none s = some s
  delete_buffer (some i) s = do
    s' ← if is_entry i (current s) then set_current none s else some s
    some (record s' { heap = set s'.heap i none })

  abbrev pub nulls : ℕ → List (Option ℕ)
  nulls zero = []
  nulls (suc n) = none ∷ nulls n

  -- One slot at first, then eight more whenever the top is the last.
  unfoldable pub ensure_buffer_stack : Flex → Option Flex
  ensure_buffer_stack s = elim s.stack [
    | none ↦ (do
      _ ← yyalloc (1 * pointer_size)
      some (record s { stack = some (nulls 1); stack_max = 1; stack_top = 0 }))
    | some st ↦
        if leb (s.stack_max - 1) s.stack_top
        then (do
          _ ← yyalloc ((s.stack_max + 8) * pointer_size)
          some (record s { stack = some (st ++ nulls 8); stack_max = s.stack_max + 8 }))
        else some s
  ]

  unfoldable pub switch_to_buffer : ℕ → Flex → Option Flex
  unfolding ensure_buffer_stack save_buffer_state set_current load_buffer_state current
  switch_to_buffer i s = do
    s1 ← ensure_buffer_stack s
    let moved = do
      s2 ← save_buffer_state s1
      s3 ← set_current (some i) s2
      s4 ← load_buffer_state s3
      some (record s4 { did_switch = true })
    if is_entry i (current s1) then some s1 else moved

  unfoldable pub push_buffer_state : Option ℕ → Flex → Option Flex
  unfolding ensure_buffer_stack save_buffer_state set_current load_buffer_state current
  push_buffer_state none s = some s
  push_buffer_state (some i) s = do
    s1 ← ensure_buffer_stack s
    s2 ← save_buffer_state s1
    let raised : Flex = elim (current s2) [
      | none ↦ s2
      | some _ ↦ record s2 { stack_top = s2.stack_top + 1 }
    ]
    s3 ← set_current (some i) raised
    s4 ← load_buffer_state s3
    some (record s4 { did_switch = true })

  unfoldable pub pop_buffer_state : Flex → Option Flex
  unfolding delete_buffer set_current load_buffer_state current
  pop_buffer_state s =
      let popped : Option Flex = (do
        s1 ← delete_buffer (current s) s
        s2 ← set_current none s1
        let s3 = record s2 { stack_top = s2.stack_top - 1 }
        elim (current s3) [
          | none ↦ some s3
          | some _ ↦ (do s4 ← load_buffer_state s3; some (record s4 { did_switch = true }))
        ]) in
      elim (current s) [ none ↦ some s | some _ ↦ popped ]

  abbrev pub buf_size_default : ℕ
  buf_size_default = 16384

  unfoldable pub restart : Option ℕ → Flex → Option Flex
  unfolding ensure_buffer_stack create_buffer set_current init_buffer load_buffer_state current
  restart file s = do
    let made = do
      s1 ← ensure_buffer_stack s
      (i, s2) ← create_buffer s1.yyin buf_size_default s1
      set_current (some i) s2
    s3 ← elim (current s) [ none ↦ made | some _ ↦ some s ]
    i ← current s3
    s4 ← init_buffer i file s3
    load_buffer_state s4

  -- `base` is a buffer of the caller's.
  unfoldable pub scan_buffer : List ℕ → Flex → Option (Option ℕ × Flex)
  unfolding switch_to_buffer
  scan_buffer base s =
      let size = length base in
      let bad =
        ltb size 2
        || not (is_entry 0 (get_elem? base (size - 2)))
        || not (is_entry 0 (get_elem? base (size - 1))) in
      let i = length s.heap in
      let made : Option (Option ℕ × Flex) = (do
        _ ← yyalloc state_size
        let b : Buffer = record {
          input_file = none;
          ch_buf = base;
          buf_pos = 0;
          buf_size = size - 2;
          n_chars = size - 2;
          is_our_buffer = false;
          is_interactive = false;
          at_bol = true;
          lineno = 0;
          column = 0;
          fill_buffer = false;
          status = new;
        }
        s' ← switch_to_buffer i (record s { heap = s.heap ++ some b ∷ [] })
        some (some i, s')) in
      if bad then some (none, s) else made

  unfoldable pub scan_bytes : List ℕ → Flex → Option (ℕ × Flex)
  unfolding scan_buffer fetch
  scan_bytes bytes s = do
    _ ← yyalloc (length bytes + 2)
    (o, s') ← scan_buffer (bytes ++ 0 ∷ 0 ∷ []) s
    i ← o
    b ← fetch i s'
    some (i, put i (record b { is_our_buffer = true }) s')

abbrev pub unallocated : Flex
unallocated = record {
  heap = [];
  stack = none;
  stack_top = 0;
  stack_max = 0;
  n_chars = 0;
  c_buf_p = 0;
  text_ptr = 0;
  hold_char = 0;
  yyin = none;
  did_switch = false;
}
