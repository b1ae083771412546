-- ===== src/Connect/Count.antt =====
-- What the counter of the client counts, and what it prints.
use network_course.Prelude.{
  ℕ, zero, suc, ◌+◌, ◌*◌, ◌/◌, ◌%◌, ◌≤◌, ◌<◌, ◌≡◌, refl, ap, ◌∙◌, List, [], ◌∷◌, ◌++◌, min, ltb,
  ◌==◌, if◌then◌else◌, Bool-cases, inl, inr, arith,
}
use network_course.Connect.{
  Attempt, no_socket, refused, connected, Client, attempt, most, connect_loop,
}

-- How many attempts succeed before the first that fails.
abbrev pub successes : List Attempt → ℕ
successes [] = 0
successes (no_socket ∷ xs) = 0
successes (refused ∷ xs) = 0
successes (connected ∷ xs) = suc (successes xs)

-- 1000, 2000 and so on.
abbrev pub thousands : ℕ → List ℕ
thousands zero = []
thousands (suc n) = thousands n ++ 1000 * suc n ∷ []

-- Each connection is open, and each full thousand was printed.
pub record IsCounted (c : Client) : Type 0 where
  pub open_sockets : c.sockets ≡ c.success_counter
  pub printed : c.reports ≡ thousands (c.success_counter / 1000)
  pub bounded : c.success_counter ≤ most

thousands-next :
    (n : ℕ)
    → (if (n + 1) % 1000 == 0 then thousands (n / 1000) ++ (n + 1) ∷ [] else thousands (n / 1000))
      ≡ thousands ((n + 1) / 1000)
thousands-next n = elim (Bool-cases ((n + 1) % 1000 == 0)) [
  | inl e ↦
      let q : (n + 1) / 1000 ≡ suc (n / 1000) = ground arith in
      let m : n + 1 ≡ 1000 * suc (n / 1000) = ground arith in
      rw (e, q) (ap (λ k. thousands (n / 1000) ++ k ∷ []) m)
  | inr e ↦ let q : (n + 1) / 1000 ≡ n / 1000 = ground arith in rw (e, q) refl
]

connected-IsCounted :
    (c : Client) → IsCounted c → c.success_counter < most → IsCounted (attempt connected c).0
unfolding attempt
connected-IsCounted c w h = record {
  open_sockets = omega (arith, w.open_sockets);
  printed = rw (w.printed) (thousands-next c.success_counter);
  bounded = omega arith;
}

-- A round that fails ends the loop as it stands.
stopped :
    (c : Client)
    → IsCounted c
    → (let d = if ltb c.success_counter most then c else c in
        IsCounted d × (d.success_counter ≡ min most (c.success_counter + 0)))
stopped c w = elim (Bool-cases (ltb c.success_counter most)) [
  | inl h ↦ rw h (w, omega (arith, w.bounded))
  | inr h ↦ rw h (w, omega (arith, w.bounded))
]

-- From a state in which each counted connection is open, each full thousand was printed and there are
-- at most 50000, the loop keeps that so, and adds the attempts that succeed before one fails, up to
-- 50000 in all.
pub connect_loop-IsCounted :
    (xs : List Attempt) (c : Client)
    → IsCounted c
    → IsCounted (connect_loop xs c)
      × ((connect_loop xs c).success_counter ≡ min most (c.success_counter + successes xs))
unfolding connect_loop attempt
connect_loop-IsCounted [] c w = (w, omega (arith, w.bounded))
connect_loop-IsCounted (no_socket ∷ xs) c w = stopped c w
connect_loop-IsCounted (refused ∷ xs) c w = stopped c w
connect_loop-IsCounted (connected ∷ xs) c w = elim (Bool-cases (ltb c.success_counter most)) [
  | inl h ↦
      let (w', e) =
        connect_loop-IsCounted xs (attempt connected c).0
          (connected-IsCounted c w (ground arith)) in
      rw h (w', e ∙ ap (min most) (omega arith))
  | inr h ↦ rw h (w, ground (arith, w.bounded))
]
