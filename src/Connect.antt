-- ===== src/Connect.antt =====
-- port/connect_test_client.c: how many connections one port takes. What `socket` and `connect` return
-- is the environment; `gettimeofday` is a pair of seconds and microseconds.
pub mod Count
pub mod Elapsed
mod Tests
use network_course.Prelude.{
  ℕ, zero, suc, ◌+◌, ◌%◌, Bool, true, false, Option, none, some, List, [], ◌∷◌, ◌++◌, ltb, ◌==◌,
  if◌then◌else◌, ◌>>=◌,
}
use network_course.Prelude.Int.{ℤ, pos, negsuc, ◌+ℤ◌, ◌-ℤ◌, ◌*ℤ◌, ◌/ℤ◌, to_long, wrap_int}

-- One round: `socket` fails, `connect` fails, or both succeed.
pub data Attempt : Type 0 where
  no_socket refused connected : Attempt

-- `success_counter`, the sockets that are left open, and the counts that were printed on the way.
pub record Client : Type 0 where
  pub success_counter : ℕ
  pub sockets : ℕ
  pub reports : List ℕ

-- The body of the `while`, and whether it goes on.
unfoldable pub attempt : Attempt → Client → Client × Bool
attempt no_socket c = (c, false)
attempt refused c = (c, false)
attempt connected c =
    let n = c.success_counter + 1 in
    (
      record {
        success_counter = n;
        sockets = c.sockets + 1;
        reports = if n % 1000 == 0 then c.reports ++ n ∷ [] else c.reports;
      },
      true,
    )

abbrev pub most : ℕ
most = 50000

-- The `while`; the list is as many rounds as the environment has answers for.
unfoldable pub connect_loop : List Attempt → Client → Client
unfolding attempt
connect_loop [] c = c
connect_loop (a ∷ xs) c =
    let (c', go_on) = attempt a c in
    let rest = connect_loop xs c' in
    if ltb c.success_counter most then (if go_on then rest else c') else c

abbrev pub start : Client
start = record { success_counter = 0; sockets = 0; reports = [] }

-- `struct timeval`.
pub record Timeval : Type 0 where
  pub tv_sec : ℤ
  pub tv_usec : ℤ

-- The expression that `time_elapse` returns, in `long` arithmetic; `none` is an overflow.
unfoldable pub milliseconds : Timeval → Timeval → Option ℤ
unfolding ◌+ℤ◌ ◌-ℤ◌ ◌*ℤ◌ ◌/ℤ◌ to_long
milliseconds begun now = do
  seconds ← to_long (now.tv_sec -ℤ begun.tv_sec)
  whole ← to_long (seconds *ℤ pos 1000)
  microseconds ← to_long (now.tv_usec -ℤ begun.tv_usec)
  to_long (whole +ℤ microseconds /ℤ pos 1000)

-- `time_elapse`, which sets `*tv_begin` to the time that `gettimeofday` gives and returns an `int`.
unfoldable pub time_elapse : Timeval → Timeval → Option ℤ × Timeval
unfolding milliseconds wrap_int
time_elapse now tv_begin = (milliseconds tv_begin now >>= λ ms. some (wrap_int ms), now)
