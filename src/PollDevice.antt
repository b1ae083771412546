-- ===== src/PollDevice.antt =====
-- live/epoll/my_poll_dev/my_poll_dev.c: the character device that greets once a second. The thread's
-- rounds and the calls of `read` and `poll` interleave; each runs as a whole here. `snprintf` is a
-- parameter, the bytes that it writes for a number, and so is whether `copy_to_user` fails.
pub mod Once
mod Tests
use network_course.Prelude.{
  ℕ, zero, suc, ◌+◌, Bool, true, false, not, Option, none, some, List, [], ◌∷◌, length, take, ◌==◌,
  if◌then◌else◌,
}
use network_course.Prelude.Int.{ℤ, pos, negsuc}

-- `readbuf` as far as it was written, `readbuflen`, and `counter` of the thread.
pub record Device : Type 0 where
  pub readbuf : List ℕ
  pub readbuflen : ℕ
  pub counter : ℕ

-- `read`: what it returns and what it copies, and EFAULT is 14.
unfoldable pub read : Bool → Device → (ℤ × List ℕ) × Device
read fault d =
    let answer : ℤ × List ℕ =
      if fault then (negsuc 13, []) else (pos d.readbuflen, take d.readbuflen d.readbuf) in
    (answer, record d { readbuflen = 0 })

-- `my_dev_poll`: whether it returns POLLIN.
unfoldable pub my_dev_poll : Device → Bool
my_dev_poll d = not (d.readbuflen == 0)

-- A round of the thread, or a call of `read`; `poll` changes nothing.
pub data Event : Type 0 where
  round : Event
  call_read : Bool → Event

module _ (hello : ℕ → List ℕ) where
  -- The loop's body in `kthread_func`.
  unfoldable pub kthread_round : Device → Device
  kthread_round d =
      let n = d.counter + 1 in
      record { readbuf = hello n; readbuflen = length (hello n); counter = n }

  unfoldable pub happen : Event → Device → Device
  unfolding kthread_round read
  happen round d = kthread_round d
  happen (call_read fault) d = (read fault d).1

  -- The device after a sequence of events.
  unfoldable pub history : List Event → Device → Device
  unfolding happen
  history [] d = d
  history (e ∷ es) d = history es (happen e d)

-- As the module is loaded.
abbrev pub loaded : Device
loaded = record { readbuf = []; readbuflen = 0; counter = 0 }
