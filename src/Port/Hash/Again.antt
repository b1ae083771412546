-- ===== src/Port/Hash/Again.antt =====
-- Two calls of `inet_hash_connect` for one destination.
use network_course.Prelude.{
  ℕ, ◌+◌, ◌-◌, ◌*◌, ◌%◌, ◌≤◌, ◌<◌, ◌≡◌, refl, sym, ◌∙◌, Bool, true, false, some, List, arith, ◌⊎◌,
  inl, inr,
}
use native.Mathlib.Nat.{mod-lt, mod-eq_of_lt, add-mod_right, mod-add-mod}
use network_course.Port.{Bucket}
use network_course.Port.Hash.{
  word, Stop, Static, Connect, undefined, connected, Sock, inet_hash_connect,
}
use network_course.Port.Hash.Scan.{IsStop}
use network_course.Port.Hash.Start.{IsConnected, hashed, inet_hash_connect-IsConnected}

add-mod_once : (a c m : ℕ) → a < m → c ≤ m → ((a + c) % m ≡ a + c) ⊎ (((a + c) % m) + m ≡ a + c)
add-mod_once a c m h k = ground (
  arith,
  mod-eq_of_lt {n = a + c} {m = m},
  add-mod_right (a + c - m) m,
  mod-eq_of_lt {n = a + c - m} {m = m},
)

next_start :
    (x c n m k : ℕ)
    → (2 * m ≤ x % (2 * n)) × (x % (2 * n) ≤ 2 * m + 1)
    → m < n
    → c < n
    → (2 * k ≤ (x + (2 * c + 2)) % (2 * n)) × ((x + (2 * c + 2)) % (2 * n) ≤ 2 * k + 1)
    → (k ≡ m + c + 1) ⊎ (k + n ≡ m + c + 1)
next_start x c n m k (a, b) l r (d, e) =
    let below : x % (2 * n) < 2 * n = mod-lt x (omega arith) in
    let moved = mod-add-mod x (2 * n) (2 * c + 2) in
    elim (add-mod_once (x % (2 * n)) (2 * c + 2) (2 * n) below (omega arith)) [
      | inl h ↦ inl (omega (arith, h, moved))
      | inr h ↦ inr (omega (arith, h, moved))
    ]

module _ (reserved : ℕ → Bool) (bhash : ℕ → List Bucket) (check_established : ℕ → ℕ)
    (net_secret_init : ℕ → ℕ) (siphash_3u32 : ℕ → ℕ → ℕ → ℕ → ℕ) where
  abbrev AreConnected : ℕ → ℕ → ℕ → Static → Connect → Type 0
  AreConnected low high port_offset s (connected stop t) =
      IsConnected reserved bhash check_established net_secret_init siphash_3u32 low high port_offset
        s t stop
  AreConnected low high port_offset s undefined = true ≡ false

  moved :
      (low high port_offset : ℕ) (s : Static) (r r' : Connect)
      → r ≡ r'
      → AreConnected low high port_offset s r
      → AreConnected low high port_offset s r'
  moved low high port_offset s r r' e w = rw (← e) w

  call-IsConnected :
      (low high : ℕ) (sk : Sock) (s t : Static) (stop : Stop)
      → low < high
      → high < 65536
      → inet_hash_connect reserved bhash check_established net_secret_init siphash_3u32 low high sk
          s
        ≡ connected stop t
      → IsConnected reserved bhash check_established net_secret_init siphash_3u32 low high
          (hashed reserved bhash check_established net_secret_init siphash_3u32 sk s)
          (record s { net_secret = net_secret_init s.net_secret })
          t
          stop
  call-IsConnected low high sk s t stop a b h =
      let (stop0, t0, e, w) =
        inet_hash_connect-IsConnected reserved bhash check_established net_secret_init siphash_3u32
          low high sk s a b in
      moved low high _ _ _ _ (sym e ∙ h) w

  -- A call that starts two ports behind the port of another, or as far behind the start of the range as that is
  -- behind its end.
  pub record Follows (low high : ℕ) (before stop : Stop) : Type 0 where
    pub rounds : ℕ
    pub first : ℕ
    pub rounds_is : (high ≤ low + 2 * rounds) × (low + 2 * rounds ≤ high + 1)
    pub in_range : (low ≤ first) × (first + 2 ≤ low + 2 * rounds)
    pub first_is : (first ≡ before.port + 2) ⊎ (first + 2 * rounds ≡ before.port + 2)
    pub scanned :
        IsStop reserved bhash check_established net_secret_init siphash_3u32 rounds 0 first stop

  found_early :
      (rounds i port : ℕ) (stop : Stop) (tb : Bucket)
      → (w : IsStop reserved bhash check_established net_secret_init siphash_3u32 rounds i port
          stop)
      → stop.tb ≡ some tb
      → w.steps < rounds
  found_early rounds i port stop tb w h = (rw h at (w.ends)).0

  abbrev hash : Sock → Static → ℕ
  hash sk s = hashed reserved bhash check_established net_secret_init siphash_3u32 sk s

  hash-again :
      (sk : Sock) (s t : Static)
      → ((key : ℕ) → net_secret_init (net_secret_init key) ≡ net_secret_init key)
      → t.net_secret ≡ net_secret_init s.net_secret
      → hash sk t ≡ hash sk s
  hash-again sk s t once e = rw (e, once s.net_secret) refl

  -- Where `net_secret_init` leaves a secret that it has made, the range has two ports at least, and the sum of
  -- `hint` and the hash, as a `u32`, does not wrap when `i` and 2 are added to it: if `inet_hash_connect` finds a
  -- port, the next call for the same socket starts two ports behind that one, taken back into the range.
  pub inet_hash_connect-Follows :
      (low high : ℕ) (sk : Sock) (s t u : Static) (before stop : Stop) (tb : Bucket)
      → low < high
      → high < 65536
      → ((key : ℕ) → net_secret_init (net_secret_init key) ≡ net_secret_init key)
      → (s.hint + hashed reserved bhash check_established net_secret_init siphash_3u32 sk s) % word
          + before.i
          + 2
        < word
      → inet_hash_connect reserved bhash check_established net_secret_init siphash_3u32 low high sk
          s
        ≡ connected before t
      → before.tb ≡ some tb
      → inet_hash_connect reserved bhash check_established net_secret_init siphash_3u32 low high sk
          t
        ≡ connected stop u
      → Follows low high before stop
  inet_hash_connect-Follows low high sk s t u before stop tb a b once l h found h' =
      let w = call-IsConnected low high sk s t before a b h in
      let v = call-IsConnected low high sk t u stop a b h' in
      let early = found_early w.rounds 0 (low + 2 * w.start) before tb w.scanned found in
      let c = w.scanned.steps in
      let x = (s.hint + hash sk s) % word in
      let same : v.rounds ≡ w.rounds = omega (arith, w.rounds_is, v.rounds_is) in
      let hashes : hash sk t ≡ hash sk s = hash-again sk s t once w.secret_is in
      let i_is = w.scanned.i_is in
      let sum : (t.hint + hash sk t) % word ≡ x + (2 * c + 2) =
        omega (arith, w.hint_is, hashes, i_is) in
      let start2 = rw (sum, same) at (v.start_is) in
      let range = rw same at (v.in_range) in
      record {
        rounds = w.rounds;
        first = low + 2 * v.start;
        rounds_is = w.rounds_is;
        in_range = (omega arith, omega arith);
        first_is =
            elim (next_start x c w.rounds w.start v.start w.start_is w.in_range early start2) [
              | inl e ↦ inl (omega (arith, e, w.scanned.port_is))
              | inr e ↦ inr (omega (arith, e, w.scanned.port_is))
            ];
        scanned = rw (← same) (v.scanned);
      }
