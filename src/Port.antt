-- ===== src/Port.antt =====
-- port/inet_connection_sock.c: `inet_csk_find_open_port`, the excerpt of the Linux kernel on how `bind`
-- finds a port. What it calls is a parameter: the namespace of the socket, the reserved ports, the
-- chain of `bhash` that `inet_bhashfn` leads to, and `inet_csk_bind_conflict` for the socket. The range is
-- one that the kernel keeps: `low` is at most `high` and 1.
pub mod Hash
pub mod Scan
mod Tests
use network_course.Prelude.{
  ℕ, zero, suc, ◌+◌, ◌-◌, ◌/◌, ◌%◌, Bool, ◌&&◌, Option, none, some, List, [], ◌∷◌, ◌==◌,
  if◌then◌else◌,
}

-- `struct inet_bind_bucket`: `ib_net (tb)` and `tb->port`.
pub record Bucket : Type 0 where
  pub ib_net : ℕ
  pub port : ℕ

-- `*port_ret` and `*tb_ret`, or NULL; with no port in the range C divides by 0.
pub data Search : Type 0 where
  success : ℕ → Option Bucket → Search
  null undefined : Search

-- `offset |= 1U`.
unfoldable pub set_low_bit : ℕ → ℕ
set_low_bit n = if n % 2 == 0 then n + 1 else n

module _ (net : ℕ) (reserved : ℕ → Bool) (bhash : ℕ → List Bucket) (conflict : Bucket → Bool) where
  -- The test in `inet_bind_bucket_for_each`.
  abbrev pub owns : ℕ → Bucket → Bool
  owns p tb = (tb.ib_net == net) && (tb.port == p)

  unfoldable pub bucket_for : ℕ → List Bucket → Option Bucket
  bucket_for p [] = none
  bucket_for p (tb ∷ tbs) = let rest = bucket_for p tbs in if owns p tb then some tb else rest

  -- The body of the loop: `none` for `next_port`, else `tb` at `success`.
  unfoldable pub try_port : ℕ → Option (Option Bucket)
  unfolding bucket_for
  try_port p =
      let found : Option (Option Bucket) = elim (bucket_for p (bhash p)) [
        | none ↦ some none
        | some tb ↦ if conflict tb then none else some (some tb)
      ] in
      if reserved p then none else found

  -- The loop with some rounds left, which takes every other port.
  unfoldable pub scan_ports : ℕ → ℕ → Option (ℕ × Option Bucket)
  unfolding try_port
  scan_ports zero port = none
  scan_ports (suc rounds) port =
      let rest = scan_ports rounds (port + 2) in
      elim (try_port port) [ some tb ↦ some (port, tb) | none ↦ rest ]

  -- The range from `inet_get_local_port_range`, and what `prandom_u32` returned. The second pass
  -- takes the ports of the other parity, and behind it `offset` is odd.
  unfoldable pub find_open_port : ℕ → ℕ → ℕ → Search
  unfolding scan_ports set_low_bit
  find_open_port low high random =
      let remaining = high + 1 - low in
      let offset = set_low_bit (random % remaining) in
      let rounds = (remaining + 1) / 2 in
      let second : Search = elim (scan_ports rounds (low + (offset - 1))) [
        | some (p, tb) ↦ success p tb
        | none ↦ null
      ] in
      let first : Search = elim (scan_ports rounds (low + offset)) [
        | some (p, tb) ↦ success p tb
        | none ↦ second
      ] in
      if remaining == 0 then undefined else first
