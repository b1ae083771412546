-- ===== src/Select.antt =====
-- live/epoll/select_test.c: the client's loop over `select`, between its terminal and one socket. The
-- environment is what `select`, `read`, `fgets` and `write` return.
pub mod Rounds
mod Tests
use network_course.Prelude.{
  ℕ, zero, suc, ◌+◌, ◌-◌, Bool, true, false, Option, none, some, List, [], ◌∷◌, ◌++◌, length,
  get_or, set, take, ltb, ◌==◌, if◌then◌else◌,
}
use network_course.Prelude.Strings.{c_string}

abbrev pub maxline : ℕ
maxline = 1024

-- `read` of the socket: an error, or bytes, of which there are none at the end.
pub data Received : Type 0 where
  failed : Received
  bytes : List ℕ → Received

-- A round of `select`: an error, or what the socket (if it is in `read_mask`) and the terminal
-- (likewise) give; `fgets` returns NULL (`none`) or stores a line.
pub data Selected : Type 0 where
  select_failed : Selected
  selected : Option Received → Option (Option (List ℕ)) → Selected

-- What was shown of the socket, and what was given to `write`.
pub record Session : Type 0 where
  pub shown : List (List ℕ)
  pub written : List (List ℕ)

-- Waiting in `select`, `exit (EXIT_FAILURE)`, or undefined behaviour.
pub data Status : Type 0 where
  waiting exited undefined : Session → Status

-- `if (send_line[i - 1] == '\n') send_line[i - 1] = 0`, on what `fgets` stored; with `i` 0 the index
-- is out of bounds.
unfoldable pub strip_newline : List ℕ → Option (List ℕ)
strip_newline line =
    let i = length (c_string line) in
    if i == 0
    then none
    else if get_or line (i - 1) 0 == b'\n'
    then some (set line (i - 1) 0)
    else some line

-- The terminal's part of a round. The result of `write` is a `size_t`, so that no failure is seen.
unfoldable pub send_line : Option (Option (List ℕ)) → Session → Status
unfolding strip_newline
send_line none s = waiting s
send_line (some none) s = waiting s
send_line (some (some line)) s = elim (strip_newline line) [
  | none ↦ undefined s
  | some line' ↦ waiting (record s { written = s.written ++ c_string line' ∷ [] })
]

-- The socket's part, then the terminal's. `recv_line[n] = 0` is out of bounds where `n` is MAXLINE.
unfoldable pub round : Selected → Session → Status
unfolding send_line
round select_failed s = exited s
round (selected none input) s = send_line input s
round (selected (some failed) input) s = exited s
round (selected (some (bytes [])) input) s = exited s
round (selected (some (bytes (b ∷ bs))) input) s =
    if ltb (length (b ∷ bs)) maxline
    then send_line input (record s { shown = s.shown ++ c_string (b ∷ bs) ∷ [] })
    else undefined s

-- The `for (;;)`, through as many rounds as the list has.
unfoldable pub session : List Selected → Session → Status
unfolding round
session [] s = waiting s
session (r ∷ rs) s = elim (round r s) [ waiting s' ↦ session rs s' | other ↦ other ]
