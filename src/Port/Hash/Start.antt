-- ===== src/Port/Hash/Start.antt =====
-- What `inet_hash_connect` finds on a range of ports, and where it starts.
use network_course.Prelude.{
  ℕ, ◌+◌, ◌-◌, ◌*◌, ◌/◌, ◌%◌, ◌≤◌, ◌<◌, ◌≡◌, refl, Bool, false, List, ◌==◌, arith,
}
use native.Mathlib.Nat.{mod-lt}
use network_course.Port.{Bucket}
use network_course.Port.Hash.{
  word, difference, clear_low_bit, Stop, Static, connected, Sock, scan_offsets, hash_connect,
  secure_ipv4_port_ephemeral, sk_port_offset, inet_hash_connect,
}
use network_course.Port.Hash.Scan.{IsStop, scan_offsets-IsStop}

difference_lem : (low high : ℕ) → low ≤ high → high < 65536 → difference low high ≡ high + 1 - low
unfolding difference
difference_lem low high a b = omega arith

clear_low_bit-even : (n : ℕ) → (m : ℕ) × (clear_low_bit n ≡ 2 * m) × (2 * m ≤ n) × (n ≤ 2 * m + 1)
unfolding clear_low_bit
clear_low_bit-even n = (n / 2, omega arith, omega arith, omega arith)

module _ (reserved : ℕ → Bool) (bhash : ℕ → List Bucket) (check_established : ℕ → ℕ)
    (net_secret_init : ℕ → ℕ) (siphash_3u32 : ℕ → ℕ → ℕ → ℕ → ℕ) where
  -- `connect` with a range, a number of ports that are added to `hint`, and statics.
  pub record IsConnected (low high port_offset : ℕ) (s t : Static) (stop : Stop) : Type 0 where
    pub rounds : ℕ
    pub start : ℕ
    pub rounds_is : (high ≤ low + 2 * rounds) × (low + 2 * rounds ≤ high + 1)
    pub start_is :
        (2 * start ≤ (s.hint + port_offset) % word % (2 * rounds))
        × ((s.hint + port_offset) % word % (2 * rounds) ≤ 2 * start + 1)
    pub in_range : start < rounds
    pub scanned :
        IsStop reserved bhash check_established net_secret_init siphash_3u32 rounds 0
          (low + 2 * start)
          stop
    pub hint_is : t.hint ≡ (s.hint + (stop.i + 2)) % word
    pub secret_is : t.net_secret ≡ s.net_secret

  hash_connect-IsConnected :
      (low high port_offset : ℕ) (s : Static)
      → low < high
      → high < 65536
      → (stop : Stop) × (t : Static) × (hash_connect reserved bhash check_established
            net_secret_init siphash_3u32 low high port_offset s
          ≡ connected stop t)
        × IsConnected low high port_offset s t stop
  unfolding hash_connect
  hash_connect-IsConnected low high port_offset s a b =
      let width = difference_lem low high (omega arith) b in
      let (n, n_is, n_low, n_high) = clear_low_bit-even (difference low high) in
      let (m, m_is, m_low, m_high) = clear_low_bit-even ((s.hint + port_offset) % word % (2 * n)) in
      let some_rounds : (2 * n == 0) ≡ false = ground (arith, width, n_high) in
      let half : 2 * n / 2 ≡ n = omega arith in
      let below : (s.hint + port_offset) % word % (2 * n) < 2 * n =
        mod-lt _ (ground (arith, width, n_high)) in
      let stop =
        scan_offsets reserved bhash check_established net_secret_init siphash_3u32 n 0
          (low + 2 * m) in
      (
        stop,
        record s { hint = (s.hint + (stop.i + 2)) % word },
        rw (hash_connect, n_is, m_is, some_rounds, half) refl,
        record {
          rounds = n;
          start = m;
          rounds_is = (omega (arith, width, n_high), omega (arith, width, n_low));
          start_is = (m_low, m_high);
          in_range = omega (arith, m_low, below);
          scanned =
              scan_offsets-IsStop reserved bhash check_established net_secret_init siphash_3u32 n 0
                (low + 2 * m);
          hint_is = refl;
          secret_is = refl;
        },
      )

  -- `inet_sk_port_offset`, where `net_secret_init` has been called.
  abbrev pub hashed : Sock → Static → ℕ
  hashed sk s =
      siphash_3u32 sk.inet_rcv_saddr sk.inet_daddr (sk.inet_dport % 65536)
        (net_secret_init s.net_secret)
      % word

  -- On a range of two ports at least, `inet_hash_connect` starts at the port of the parity of `low`
  -- that `hint` and the hash of the addresses and the secret give. It takes every other port from
  -- there, over those that are reserved, have an empty chain or are refused by the check, up to the
  -- first that is none of these, or through as many as the range has of that parity. It raises
  -- `hint` by `i` and 2, and keeps the secret.
  pub inet_hash_connect-IsConnected :
      (low high : ℕ) (sk : Sock) (s : Static)
      → low < high
      → high < 65536
      → (stop : Stop) × (t : Static) × (inet_hash_connect reserved bhash check_established
            net_secret_init siphash_3u32 low high sk s
          ≡ connected stop t)
        × IsConnected low high
            (hashed sk s)
            (record s { net_secret = net_secret_init s.net_secret })
            t
            stop
  unfolding inet_hash_connect sk_port_offset secure_ipv4_port_ephemeral
  inet_hash_connect-IsConnected low high sk s a b =
      hash_connect-IsConnected low high (hashed sk s)
        (record s { net_secret = net_secret_init s.net_secret }) a b
