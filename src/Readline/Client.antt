-- ===== src/Readline/Client.antt =====
-- intro/reliable_test_client.c: `readline`, which the client reads its answers with. It keeps a
-- buffer of its own and calls `recv`, the environment: a list of what its calls return, in order.
pub mod Stream
pub mod Lines
mod Tests
use network_course.Prelude.{
  ℕ, zero, suc, ◌+◌, ◌-◌, ◌^◌, Option, none, some, List, [], ◌∷◌, ◌++◌, length, get_or, set, drop,
  ◌==◌, if◌then◌else◌,
}
use network_course.Prelude.Int.{ℤ, pos, negsuc}
use network_course.Readline.{Read, interrupted, failed, received, Got, byte, eof, error, blocked}

-- The static variables `cnt`, `bp` as an index into `b`, and `b`; and the calls of `recv` to come.
pub record Receiver : Type 0 where
  pub cnt : ℤ
  pub bp : ℕ
  pub b : List ℕ
  pub recvs : List Read

-- `c = *bp++;`
unfoldable pub take_next : ℤ → Receiver → Got × Receiver
take_next cnt r = (byte (get_or r.b r.bp 0), record r { cnt = cnt; bp = r.bp + 1 })

-- The call of `recv`; after EINTR the loop comes back to it, with `cnt` one less.
unfoldable pub receive : List Read → Receiver → Got × Receiver
unfolding take_next
receive [] r = (blocked, record r { recvs = [] })
receive (interrupted ∷ rs) r = receive rs (record r { cnt = negsuc 1 })
receive (failed ∷ rs) r = (error, record r { cnt = negsuc 0; recvs = rs })
receive (received [] ∷ rs) r = (eof, record r { cnt = pos 0; recvs = rs })
receive (received (c ∷ cs) ∷ rs) r = take_next (pos (suc (length cs))) (record {
  cnt = pos (suc (length cs));
  bp = 0;
  b = (c ∷ cs) ++ drop (suc (length cs)) r.b;
  recvs = rs;
})

-- `if (--cnt <= 0)`, by `cnt`.
unfoldable pub next_byte : ℤ → Receiver → Got × Receiver
unfolding receive take_next
next_byte (pos (suc (suc n))) r = take_next (pos (suc n)) r
next_byte (pos (suc zero)) r = receive r.recvs (record r { cnt = pos 0 })
next_byte (pos zero) r = receive r.recvs (record r { cnt = negsuc 0 })
next_byte (negsuc n) r = receive r.recvs (record r { cnt = negsuc (suc n) })

-- The value returned, `none` while `recv` blocks, the caller's buffer and the static variables.
pub record Reply : Type 0 where
  pub value : Option ℤ
  pub buffer : List ℕ
  pub receiver : Receiver

-- The loop with `rounds` rounds before `len` is 0; `bufptr` is at index `i`.
unfoldable pub receive_loop : ℕ → ℕ → List ℕ → Receiver → Reply
unfolding next_byte
receive_loop zero i buf r = record { value = some (negsuc 0); buffer = buf; receiver = r }
receive_loop (suc rounds) i buf r =
    let (got, r') = next_byte r.cnt r in
    let more = λ (buf' : List ℕ). receive_loop rounds (i + 1) buf' r' in
    elim got [
      | byte c ↦
          let buf' = set buf i c in
          let stop : Reply = record {
            value = some (pos (i + 1));
            buffer = set buf' (i + 1) 0;
            receiver = r';
          } in
          let go_on = more buf' in if c == b'\n' then stop else go_on
      | eof ↦ record { value = some (pos 0); buffer = buf; receiver = r' }
      | error ↦ record { value = some (negsuc 0); buffer = buf; receiver = r' }
      | blocked ↦ record { value = none; buffer = buf; receiver = r' }
    ]

-- `--len` of a `size_t` wraps around at 0.
unfoldable pub readline : List ℕ → ℕ → Receiver → Reply
unfolding receive_loop
readline buf len r = receive_loop (if len == 0 then 2 ^ 64 - 1 else len - 1) 0 buf r
