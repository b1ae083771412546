-- ===== src/Port/Scan.antt =====
-- What the scan of the ports finds, and what it means that it finds none.
use network_course.Prelude.{
  ℕ, zero, suc, ◌+◌, ◌-◌, ◌*◌, ◌/◌, ◌%◌, ◌≤◌, ◌<◌, ◌≡◌, ap, ◌∙◌, Bool, false, Option, none, some,
  List, [], ◌∷◌, ◌==◌, arith, Bool-cases, Option-cases, ◌⊎◌, inl, inr,
}
use mathlib.Core.Option.{some-injective}
use native.Mathlib.Nat.{mod-lt}
use network_course.Port.{
  Bucket, success, null, set_low_bit, owns, bucket_for, try_port, scan_ports, find_open_port,
}

module _ (net : ℕ) (reserved : ℕ → Bool) (bhash : ℕ → List Bucket) (conflict : Bucket → Bool) where
  -- No bucket of a chain is the port's.
  pub data Unowned (p : ℕ) : List Bucket → Type 0 where
    nobody : Unowned p []
    passed :
        {tb : Bucket} {tbs : List Bucket}
        → owns net reserved bhash conflict p tb ≡ false
        → Unowned p tbs
        → Unowned p (tb ∷ tbs)

  -- The first bucket of a chain that is the port's.
  pub data Owner (p : ℕ) (tb : Bucket) : List Bucket → Type 0 where
    here : {tbs : List Bucket} → tb.ib_net ≡ net → tb.port ≡ p → Owner p tb (tb ∷ tbs)
    there :
        {other : Bucket} {tbs : List Bucket}
        → owns net reserved bhash conflict p other ≡ false
        → Owner p tb tbs
        → Owner p tb (other ∷ tbs)

  -- A port that a socket may be bound to, by its bucket.
  abbrev pub IsOpen : ℕ → Option Bucket → Type 0
  IsOpen p none = (reserved p ≡ false) × Unowned p (bhash p)
  IsOpen p (some tb) = (reserved p ≡ false) × Owner p tb (bhash p) × (conflict tb ≡ false)

  bucket_for-Unowned :
      (p : ℕ) (tbs : List Bucket)
      → bucket_for net reserved bhash conflict p tbs ≡ none
      → Unowned p tbs
  unfolding bucket_for
  bucket_for-Unowned p [] h = nobody
  bucket_for-Unowned p (tb ∷ tbs) h = elim (Bool-cases (owns net reserved bhash conflict p tb)) [
    | inl e ↦ absurd (ground arith)
    | inr e ↦ passed e (bucket_for-Unowned p tbs (ground arith))
  ]

  bucket_for-Owner :
      (p : ℕ) (tbs : List Bucket) (tb : Bucket)
      → bucket_for net reserved bhash conflict p tbs ≡ some tb
      → Owner p tb tbs
  unfolding bucket_for
  bucket_for-Owner p [] tb h = ground arith
  bucket_for-Owner p (x ∷ tbs) tb h = elim (Bool-cases (owns net reserved bhash conflict p x)) [
    | inl e ↦ rw (← some-injective x tb (rw e at h)) (here (ground arith) (ground arith))
    | inr e ↦ there e (bucket_for-Owner p tbs tb (ground arith))
  ]

  try_port-IsOpen :
      (p : ℕ) (tb : Option Bucket) → try_port net reserved bhash conflict p ≡ some tb → IsOpen p tb
  unfolding try_port
  try_port-IsOpen p none h = ground (arith, bucket_for-Unowned p (bhash p))
  try_port-IsOpen p (some tb) h = ground (arith, bucket_for-Owner p (bhash p) tb)

  -- A pass finds an open port among those it takes.
  scan_ports-IsOpen :
      (rounds port p : ℕ) (tb : Option Bucket)
      → scan_ports net reserved bhash conflict rounds port ≡ some (p, tb)
      → IsOpen p tb × (port ≤ p) × (p + 2 ≤ port + 2 * rounds)
  unfolding scan_ports
  scan_ports-IsOpen zero port p tb h = ground arith
  scan_ports-IsOpen (suc rounds) port p tb h =
      elim (Option-cases (try_port net reserved bhash conflict port)) [
        | inl e ↦
            let (o, a, b) = scan_ports-IsOpen rounds (port + 2) p tb (rw (scan_ports, e) at h) in
            (o, omega arith, omega arith)
        | inr (tb', e) ↦ ground (arith, try_port-IsOpen p tb)
      ]

  -- A pass that finds none has taken closed ports only.
  scan_ports_closed :
      (rounds port k : ℕ)
      → scan_ports net reserved bhash conflict rounds port ≡ none
      → k < rounds
      → try_port net reserved bhash conflict (port + 2 * k) ≡ none
  unfolding scan_ports
  scan_ports_closed zero port k h l = absurd (omega arith)
  scan_ports_closed (suc rounds) port zero h l =
      elim (Option-cases (try_port net reserved bhash conflict port)) [
        | inl e ↦ ap (try_port net reserved bhash conflict) (omega arith) ∙ e
        | inr (tb, e) ↦ absurd (ground arith)
      ]
  scan_ports_closed (suc rounds) port (suc k) h l =
      elim (Option-cases (try_port net reserved bhash conflict port)) [
        | inl e ↦
            ap (try_port net reserved bhash conflict) (omega arith)
            ∙ scan_ports_closed rounds (port + 2) k (rw (scan_ports, e) at h) (omega arith)
        | inr (tb, e) ↦ absurd (ground arith)
      ]

  set_low_bit-odd : (n : ℕ) → (set_low_bit n ≤ n + 1) × (1 ≤ set_low_bit n)
  unfolding set_low_bit
  set_low_bit-odd n = ground arith

  remainder_cases : (n m : ℕ) → (m ≡ 0) ⊎ (n % m < m)
  remainder_cases n m = elim (Bool-cases (m == 0)) [
    | inl e ↦ inl (ground arith)
    | inr e ↦ inr (mod-lt n (ground arith))
  ]

  -- If `inet_csk_find_open_port` succeeds, the port that it returns is not reserved, and either no
  -- bucket of its chain is the port's and `tb` is NULL, or `tb` is the first one that is, and does
  -- not conflict. The port is at least `low`, and below `low` and twice the size of the range.
  pub find_open_port-IsOpen :
      (low high random p : ℕ) (tb : Option Bucket)
      → find_open_port net reserved bhash conflict low high random ≡ success p tb
      → IsOpen p tb × (low ≤ p) × (p < low + 2 * (high + 1 - low))
  unfolding find_open_port
  find_open_port-IsOpen low high random p tb h =
      let remaining = high + 1 - low in
      let offset = set_low_bit (random % remaining) in
      let rounds = (remaining + 1) / 2 in
      ground (
        arith,
        set_low_bit-odd (random % remaining),
        remainder_cases random remaining,
        scan_ports-IsOpen rounds (low + offset) p tb,
        scan_ports-IsOpen rounds (low + (offset - 1)) p tb,
      )

  both_none :
      (low high random : ℕ)
      → find_open_port net reserved bhash conflict low high random ≡ null
      → (let remaining = high + 1 - low in
          let offset = set_low_bit (random % remaining) in
          let rounds = (remaining + 1) / 2 in
          (scan_ports net reserved bhash conflict rounds (low + offset) ≡ none)
          × (scan_ports net reserved bhash conflict rounds (low + (offset - 1)) ≡ none))
  unfolding find_open_port
  both_none low high random h = ground arith

  -- If `inet_csk_find_open_port` returns NULL, then every port from `low + offset - 1` on, where
  -- `offset` is the random one with its low bit set, is one that the loop passes over, for as many
  -- ports as the range has.
  pub find_open_port_null :
      (low high random k : ℕ)
      → find_open_port net reserved bhash conflict low high random ≡ null
      → k < high + 1 - low
      → try_port net reserved bhash conflict
          (low + (set_low_bit (random % (high + 1 - low)) - 1) + k)
        ≡ none
  unfolding find_open_port
  find_open_port_null low high random k h l =
      let remaining = high + 1 - low in
      let offset = set_low_bit (random % remaining) in
      let rounds = (remaining + 1) / 2 in
      let (first, second) = both_none low high random h in
      let odd = set_low_bit-odd (random % remaining) in
      elim (Bool-cases (k % 2 == 0)) [
        | inl e ↦
            ap (try_port net reserved bhash conflict) (ground arith)
            ∙ scan_ports_closed rounds (low + (offset - 1)) (k / 2) second (ground arith)
        | inr e ↦
            ap (try_port net reserved bhash conflict) (ground (arith, odd))
            ∙ scan_ports_closed rounds (low + offset) (k / 2) first (ground arith)
      ]
