-- ===== src/Readline.antt =====
-- intro/reliable_test_client.c and intro/reliable_test_server.c: `my_read` and `readline2`, which the
-- server has once more under the name `readline`. `read` is the environment: a list of what its
-- calls return, in order; where the list ends, `read` blocks for ever.
pub mod Stream
pub mod Lines
pub mod Bounds
pub mod Client
mod Tests
use network_course.Prelude.{
  ℕ, zero, suc, ◌+◌, ◌-◌, ◌≤◌, List, [], ◌∷◌, ◌++◌, length, get_or, set, drop, ◌==◌, if◌then◌else◌,
}
use network_course.Prelude.Int.{ℤ, pos, negsuc}

-- A call of `read`: EINTR, another error, or bytes, of which there are none at the end of the file.
pub data Read : Type 0 where
  interrupted failed : Read
  received : List ℕ → Read

-- MAXLINE, the size of `read_buf`.
abbrev pub maxline : ℕ
maxline = 1024

-- `read_cnt`, `read_ptr` as an index into `read_buf`, and the calls of `read` to come.
pub record Reader : Type 0 where
  pub read_cnt : ℤ
  pub read_ptr : ℕ
  pub read_buf : List ℕ
  pub reads : List Read

-- What `my_read` returns, with `*ptr`: 1, 0 or -1; `blocked` if it does not return.
pub data Got : Type 0 where
  byte : ℕ → Got
  eof error blocked : Got

-- `read_cnt--; *ptr = *read_ptr++;`
unfoldable pub take_byte : ℕ → Reader → Got × Reader
take_byte cnt r = (
  byte (get_or r.read_buf r.read_ptr 0),
  record r { read_cnt = pos cnt; read_ptr = r.read_ptr + 1 },
)

-- From the label `again`.
unfoldable pub fill : List Read → Reader → Got × Reader
unfolding take_byte
fill [] r = (blocked, record r { reads = [] })
fill (interrupted ∷ rs) r = fill rs (record r { read_cnt = negsuc 0 })
fill (failed ∷ rs) r = (error, record r { read_cnt = negsuc 0; reads = rs })
fill (received [] ∷ rs) r = (eof, record r { read_cnt = pos 0; reads = rs })
fill (received (b ∷ bs) ∷ rs) r = take_byte (length bs) (record {
  read_cnt = pos (suc (length bs));
  read_ptr = 0;
  read_buf = (b ∷ bs) ++ drop (suc (length bs)) r.read_buf;
  reads = rs;
})

unfoldable pub read_from : ℤ → Reader → Got × Reader
unfolding fill take_byte
read_from (pos (suc cnt)) r = take_byte cnt r
read_from _ r = fill r.reads r

unfoldable pub my_read : Reader → Got × Reader
unfolding read_from
my_read r = read_from r.read_cnt r

-- What `readline2` returns, the caller's buffer and the reader's variables.
pub data Line : Type 0 where
  returned : ℤ → List ℕ → Reader → Line
  waiting : List ℕ → Reader → Line

-- The loop with `rounds` rounds left before `n` reaches `maxlen`; `ptr` is `n - 1`.
unfoldable pub readline_loop : ℕ → ℕ → List ℕ → Reader → Line
readline_loop zero n buf r = returned (pos n) (set buf (n - 1) 0) r
readline_loop (suc rounds) n buf r =
    let (got, r') = my_read r in
    let more = λ (buf' : List ℕ). readline_loop rounds (n + 1) buf' r' in
    elim got [
      | byte c ↦
          let buf' = set buf (n - 1) c in
          let stop = returned (pos n) (set buf' n 0) r' in
          let go_on = more buf' in if c == b'\n' then stop else go_on
      | eof ↦ returned (pos (n - 1)) (set buf (n - 1) 0) r'
      | error ↦ returned (negsuc 0) buf r'
      | blocked ↦ waiting buf r'
    ]

unfoldable pub readline2 : List ℕ → ℕ → Reader → Line
unfolding readline_loop my_read
readline2 buf maxlen r = readline_loop (maxlen - 1) 1 buf r
