-- ===== src/Port/Hash/Scan.antt =====
-- What the loop of `__inet_hash_connect` goes over, and where it stops.
use network_course.Prelude.{
  ℕ, zero, suc, ◌+◌, ◌*◌, ◌%◌, ◌<◌, ◌≡◌, ◌≢◌, refl, ap, Bool, true, false, Option, none, some, List,
  [], ◌∷◌, ◌==◌, arith, Bool-cases, Option-cases, ◌⊎◌, inl, inr,
}
use mathlib.Core.Option.{some-injective}
use network_course.Port.{Bucket}
use network_course.Port.Hash.{Stop, check_chain, check_port, scan_offsets}

module _ (reserved : ℕ → Bool) (bhash : ℕ → List Bucket) (check_established : ℕ → ℕ)
    (net_secret_init : ℕ → ℕ) (siphash_3u32 : ℕ → ℕ → ℕ → ℕ → ℕ) where
  -- A port that is left: reserved, with an empty chain, or refused by the check.
  abbrev pub IsPassed : ℕ → Type 0
  IsPassed p = (reserved p ≡ true) ⊎ ((bhash p ≡ []) ⊎ (check_established (p % 65536) ≢ 0))

  -- A port that is taken, at the first bucket of its chain.
  abbrev pub IsFree : ℕ → Bucket → Type 0
  IsFree p tb =
      (reserved p ≡ false)
      × (check_established (p % 65536) ≡ 0)
      × ((tbs : List Bucket) × (bhash p ≡ tb ∷ tbs))

  abbrev pub Ends : ℕ → ℕ → ℕ → Option Bucket → Type 0
  Ends rounds steps p none = steps ≡ rounds
  Ends rounds steps p (some tb) = (steps < rounds) × IsFree p tb

  -- The loop from an `i` and a port: it goes some steps over ports that are left, and ends at one that is
  -- taken or behind its last round.
  pub record IsStop (rounds i port : ℕ) (stop : Stop) : Type 0 where
    pub steps : ℕ
    pub i_is : stop.i ≡ i + 2 * steps
    pub port_is : stop.port ≡ port + 2 * steps
    pub passed : (k : ℕ) → k < steps → IsPassed (port + 2 * k)
    pub ends : Ends rounds steps stop.port stop.tb

  check_chain-first :
      (p : ℕ) (chain : List Bucket) (tb : Bucket)
      → check_chain reserved bhash check_established net_secret_init siphash_3u32 p chain ≡ some tb
      → (check_established (p % 65536) ≡ 0) × ((tbs : List Bucket) × (chain ≡ tb ∷ tbs))
  unfolding check_chain
  check_chain-first p [] tb h = ground arith
  check_chain-first p (x ∷ tbs) tb h = elim (Bool-cases (check_established (p % 65536) == 0)) [
    | inl e ↦
        (ground arith, (tbs, ap (λ y. y ∷ tbs) (some-injective x tb (rw (check_chain, e) at h))))
    | inr e ↦ absurd (ground (arith, check_chain-first p tbs tb (rw (check_chain, e) at h)))
  ]

  check_chain-none :
      (p : ℕ) (chain : List Bucket)
      → check_chain reserved bhash check_established net_secret_init siphash_3u32 p chain ≡ none
      → (chain ≡ []) ⊎ (check_established (p % 65536) ≢ 0)
  unfolding check_chain
  check_chain-none p [] h = inl refl
  check_chain-none p (x ∷ tbs) h = elim (Bool-cases (check_established (p % 65536) == 0)) [
    | inl e ↦ absurd (ground arith)
    | inr e ↦ inr (ground arith)
  ]

  check_port-IsFree :
      (p : ℕ) (tb : Bucket)
      → check_port reserved bhash check_established net_secret_init siphash_3u32 p ≡ some tb
      → IsFree p tb
  unfolding check_port
  check_port-IsFree p tb h = elim (Bool-cases (reserved p)) [
    | inl e ↦ absurd (ground arith)
    | inr e ↦
        let (ok, chain) = check_chain-first p (bhash p) tb (rw (check_port, e) at h) in
        (e, ok, chain)
  ]

  check_port-IsPassed :
      (p : ℕ)
      → check_port reserved bhash check_established net_secret_init siphash_3u32 p ≡ none
      → IsPassed p
  unfolding check_port
  check_port-IsPassed p h = elim (Bool-cases (reserved p)) [
    | inl e ↦ inl e
    | inr e ↦ inr (check_chain-none p (bhash p) (rw (check_port, e) at h))
  ]

  Ends-next :
      (rounds steps p : ℕ) (tb : Option Bucket)
      → Ends rounds steps p tb
      → Ends (suc rounds) (suc steps) p tb
  Ends-next rounds steps p none h = ap suc h
  Ends-next rounds steps p (some tb) (l, free) = (omega arith, free)

  IsPassed-next :
      (port steps : ℕ)
      → IsPassed port
      → ((k : ℕ) → k < steps → IsPassed (port + 2 + 2 * k))
      → (k : ℕ) → k < suc steps
      → IsPassed (port + 2 * k)
  IsPassed-next port steps first rest zero l =
      let e : port + 2 * 0 ≡ port = omega arith in rw e first
  IsPassed-next port steps first rest (suc k) l =
      let e : port + 2 * suc k ≡ port + 2 + 2 * k = omega arith in rw e (rest k (omega arith))

  IsStop_next :
      (rounds i port : ℕ) (stop : Stop)
      → IsPassed port
      → IsStop rounds (i + 2) (port + 2) stop
      → IsStop (suc rounds) i port stop
  IsStop_next rounds i port stop first w = record {
    steps = suc w.steps;
    i_is = omega (arith, w.i_is);
    port_is = omega (arith, w.port_is);
    passed = IsPassed-next port w.steps first w.passed;
    ends = Ends-next rounds w.steps stop.port stop.tb w.ends;
  }

  pub scan_offsets-IsStop :
      (rounds i port : ℕ)
      → IsStop rounds i port
          (scan_offsets reserved bhash check_established net_secret_init siphash_3u32 rounds i port)
  unfolding scan_offsets
  scan_offsets-IsStop zero i port = record {
    steps = 0;
    i_is = omega arith;
    port_is = omega arith;
    passed = λ k l. absurd (omega arith);
    ends = refl;
  }
  scan_offsets-IsStop (suc rounds) i port =
      elim (Option-cases
        (check_port reserved bhash check_established net_secret_init siphash_3u32 port)) [
          | inl e ↦
              rw (scan_offsets, e)
                (IsStop_next rounds i port _ (check_port-IsPassed port e)
                  (scan_offsets-IsStop rounds (i + 2) (port + 2)))
          | inr (tb, e) ↦
              rw (scan_offsets, e)
                (record {
                  steps = 0;
                  i_is = omega arith;
                  port_is = omega arith;
                  passed = λ k l. absurd (omega arith);
                  ends = (omega arith, check_port-IsFree port tb e);
                })
        ]
