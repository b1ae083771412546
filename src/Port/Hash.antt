-- ===== src/Port/Hash.antt =====
-- port/net_ipv4_inet_hashtables.c: `inet_hash_connect`, the excerpt of the Linux kernel on how `connect`
-- finds a port. What it calls is a parameter: the reserved ports, the chain of `bhash` that
-- `inet_bhashfn` leads to, `__inet_check_established` for the socket and a port, `net_secret_init` on
-- the secret, and `siphash_3u32` with the secret.
pub mod Again
pub mod Scan
pub mod Start
mod Tests
use network_course.Prelude.{
  ℕ, zero, suc, ◌+◌, ◌-◌, ◌/◌, ◌%◌, Bool, Option, none, some, List, [], ◌∷◌, ◌==◌, if◌then◌else◌,
}
use network_course.Port.{Bucket}

abbrev pub word : ℕ
word = 4294967296

-- `(u32) (high - low)` with `high` raised by 1, and `remaining &= ~1U`.
unfoldable pub difference : ℕ → ℕ → ℕ
difference low high = (word + (high + 1) - low) % word

unfoldable pub clear_low_bit : ℕ → ℕ
clear_low_bit n = n - n % 2

-- `i` and `port` at the label `ok`, with `tb` where a `goto` leads there.
pub record Stop : Type 0 where
  pub i : ℕ
  pub port : ℕ
  pub tb : Option Bucket

-- The static variables: `hint` and `net_secret`.
pub record Static : Type 0 where
  pub hint : ℕ
  pub net_secret : ℕ

-- What `inet_hash_connect` comes to, `undefined` where C divides by 0.
pub data Connect : Type 0 where
  connected : Stop → Static → Connect
  undefined : Connect

-- `inet_sock`: `inet_rcv_saddr`, `inet_daddr` and `inet_dport`.
pub record Sock : Type 0 where
  pub inet_rcv_saddr : ℕ
  pub inet_daddr : ℕ
  pub inet_dport : ℕ

module _ (reserved : ℕ → Bool) (bhash : ℕ → List Bucket) (check_established : ℕ → ℕ)
    (net_secret_init : ℕ → ℕ) (siphash_3u32 : ℕ → ℕ → ℕ → ℕ → ℕ) where
  -- `inet_bind_bucket_for_each`: the check is made for each bucket of the chain, on a `__u16`.
  unfoldable pub check_chain : ℕ → List Bucket → Option Bucket
  check_chain port [] = none
  check_chain port (tb ∷ tbs) =
      let rest = check_chain port tbs in
      if check_established (port % 65536) == 0 then some tb else rest

  unfoldable pub check_port : ℕ → Option Bucket
  unfolding check_chain
  check_port port = if reserved port then none else check_chain port (bhash port)

  -- The loop with some rounds left; behind the last one it falls through to `ok`.
  unfoldable pub scan_offsets : ℕ → ℕ → ℕ → Stop
  unfolding check_port
  scan_offsets zero i port = record { i = i; port = port; tb = none }
  scan_offsets (suc rounds) i port =
      let rest = scan_offsets rounds (i + 2) (port + 2) in
      elim (check_port port) [ none ↦ rest | some tb ↦ record { i = i; port = port; tb = some tb } ]

  -- `__inet_hash_connect`, with the range from `inet_get_local_port_range`.
  unfoldable pub hash_connect : ℕ → ℕ → ℕ → Static → Connect
  unfolding difference clear_low_bit scan_offsets
  hash_connect low high port_offset s =
      let remaining = clear_low_bit (difference low high) in
      let offset = clear_low_bit ((s.hint + port_offset) % word % remaining) in
      let stop = scan_offsets (remaining / 2) 0 (low + offset) in
      if remaining == 0
      then undefined
      else connected stop (record s { hint = (s.hint + (stop.i + 2)) % word })

  -- `secure_ipv4_port_ephemeral`: the port is cut to 16 bits, and the hash to 32.
  unfoldable pub secure_ipv4_port_ephemeral : ℕ → ℕ → ℕ → Static → ℕ × Static
  secure_ipv4_port_ephemeral saddr daddr dport s =
      let key = net_secret_init s.net_secret in
      (siphash_3u32 saddr daddr (dport % 65536) key % word, record s { net_secret = key })

  unfoldable pub sk_port_offset : Sock → Static → ℕ × Static
  unfolding secure_ipv4_port_ephemeral
  sk_port_offset inet s =
      secure_ipv4_port_ephemeral inet.inet_rcv_saddr inet.inet_daddr inet.inet_dport s

  unfoldable pub inet_hash_connect : ℕ → ℕ → Sock → Static → Connect
  unfolding hash_connect sk_port_offset secure_ipv4_port_ephemeral
  inet_hash_connect low high sk s =
      let (port_offset, s1) = sk_port_offset sk s in hash_connect low high port_offset s1
