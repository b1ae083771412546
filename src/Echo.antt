-- ===== src/Echo.antt =====
-- The loops of intro/reliable_test_server.c (`main`) and intro/reliable_test_client.c (`main`), over
-- their line readers. `sprintf` is a parameter, the bytes that it writes for a number, and so is what
-- `send` returns for each message.
pub mod Server
pub mod Client
mod Tests
use network_course.Prelude.{
  ℕ, zero, suc, ◌+◌, Bool, true, false, Option, none, some, List, [], ◌∷◌, ◌++◌, length, drop, ltb,
  leb, ◌==◌, if◌then◌else◌,
}
use network_course.Prelude.Strings.{c_string}
use network_course.Prelude.Int.{ℤ, pos, negsuc, ◌+ℤ◌, to_int}
use network_course.Readline.{Reader, Line, returned, waiting, readline2}
use network_course.Readline.Client.{Receiver, Reply, readline}

-- How a loop ends, with what was sent or shown: `main` returns, `exit`, a call that blocks for ever,
-- or undefined behaviour.
pub data Ended : Type 0 where
  finished exited blocked undefined : List (List ℕ) → Ended

-- `sizeof (buf)` in the server and in the client.
abbrev pub server_buffer : ℕ
server_buffer = 20

abbrev pub client_buffer : ℕ
client_buffer = 120

-- A C string written at the start of a buffer.
abbrev pub write_string : List ℕ → List ℕ → List ℕ
write_string text buf = text ++ 0 ∷ drop (length text + 1) buf

module _ (message : ℤ → List ℕ) (send : List ℕ → Bool) where
  -- A message is formatted into `buf` and sent; `count++` may leave `int`.
  unfoldable pub answer_line :
      (ℤ → List ℕ → List (List ℕ) → Option Ended) → ℤ → List ℕ → List (List ℕ) → Option Ended
  unfolding to_int ◌+ℤ◌
  answer_line go count buf sent =
      let msg = message count in
      let more : Option Ended = elim (to_int (count +ℤ pos 1)) [
        | none ↦ some (undefined sent)
        | some count' ↦ go count' (write_string msg buf) (sent ++ msg ∷ [])
      ] in
      if ltb (length msg) server_buffer
      then (if send msg then more else some (exited sent))
      else some (undefined sent)

  -- The server's `while`; a unit of fuel for each line, and `none` is fuel that ran out.
  unfoldable pub serve_lines : ℕ → ℤ → List ℕ → Reader → List (List ℕ) → Option Ended
  unfolding answer_line readline2
  serve_lines zero count buf r sent = none
  serve_lines (suc f) count buf r sent = elim (readline2 buf server_buffer r) [
    | returned (pos (suc n)) buf' r' ↦ answer_line (λ c b s. serve_lines f c b r' s) count buf' sent
    | returned _ buf' r' ↦ some (finished sent)
    | waiting buf' r' ↦ some (blocked sent)
  ]

-- The client's `while` over what `fgets` stores, up to NULL.
module _ (send : List ℕ → Bool) where
  unfoldable pub ask_lines : List (List ℕ) → List ℕ → Receiver → List (List ℕ) → Ended
  unfolding readline
  ask_lines [] buf r shown = finished shown
  ask_lines (line ∷ lines) buf r shown =
      let reply = readline (write_string line buf) client_buffer r in
      let more =
        ask_lines lines reply.buffer reply.receiver (shown ++ c_string reply.buffer ∷ []) in
      let answered : Ended = elim reply.value [
        | none ↦ blocked shown
        | some (pos (suc n)) ↦ more
        | some _ ↦ exited shown
      ] in
      if send line then answered else exited shown
