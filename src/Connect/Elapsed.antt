-- ===== src/Connect/Elapsed.antt =====
-- port/connect_test_client.c: what `time_elapse` returns, as an `int`.
use network_course.Prelude.{
  ℕ, ◌+◌, ◌-◌, ◌*◌, ◌/◌, ◌%◌, ◌^◌, ◌≤◌, ◌<◌, ◌≡◌, refl, ap, ◌∙◌, some, leb, lt→ltb, Bool-cases, inl,
  inr, ◌>>=◌, arith,
}
use network_course.Prelude.Cells.{bind-some}
use network_course.Prelude.Int.{ℤ, pos, negsuc, ◌+ℤ◌, ◌-ℤ◌, ◌*ℤ◌, ◌/ℤ◌, to_long, wrap_int}
use network_course.Connect.{Timeval, milliseconds, time_elapse}

abbrev pub at_time : ℕ → ℕ → Timeval
at_time s u = record { tv_sec = pos s; tv_usec = pos u }

to_long-pos : (n : ℕ) → n < 2 ^ 63 → to_long (pos n) ≡ some (pos n)
unfolding to_long
to_long-pos n h = rw (lt→ltb n (2 ^ 63) h) refl

to_long-negsuc : (n : ℕ) → n < 2 ^ 63 → to_long (negsuc n) ≡ some (negsuc n)
unfolding to_long
to_long-negsuc n h = rw (lt→ltb n (2 ^ 63) h) refl

wrap_int-pos : (n : ℕ) → n < 2 ^ 31 → wrap_int (pos n) ≡ pos n
unfolding wrap_int
wrap_int-pos n h = let same : n % 2 ^ 32 ≡ n = omega arith in rw (same, lt→ltb n (2 ^ 31) h) refl

milliseconds-by :
    (begun now : Timeval) (a b c d : ℤ)
    → to_long (now.tv_sec -ℤ begun.tv_sec) ≡ some a
    → to_long (a *ℤ pos 1000) ≡ some b
    → to_long (now.tv_usec -ℤ begun.tv_usec) ≡ some c
    → to_long (b +ℤ c /ℤ pos 1000) ≡ some d
    → milliseconds begun now ≡ some d
unfolding milliseconds
milliseconds-by begun now a b c d h i j k = bind-some _ h ∙ bind-some _ i ∙ bind-some _ j ∙ k

later : (s s' : ℕ) → s ≤ s' → pos s' -ℤ pos s ≡ pos (s' - s)
unfolding ◌-ℤ◌
later s s' h = ground arith

earlier : (u u' : ℕ) → u' < u → pos u' -ℤ pos u ≡ negsuc (u - u' - 1)
unfolding ◌-ℤ◌
earlier u u' h = ground arith

product : (n : ℕ) → pos n *ℤ pos 1000 ≡ pos (n * 1000)
unfolding ◌*ℤ◌
product n = ground arith

sum_pos : (n m : ℕ) → pos n +ℤ pos m /ℤ pos 1000 ≡ pos (n + m / 1000)
unfolding ◌+ℤ◌ ◌/ℤ◌
sum_pos n m = ground arith

sum_negsuc :
    (n m : ℕ) → (m + 1) / 1000 ≤ n → pos n +ℤ negsuc m /ℤ pos 1000 ≡ pos (n - (m + 1) / 1000)
unfolding ◌+ℤ◌ ◌/ℤ◌
sum_negsuc n m h = ground arith

-- The milliseconds from one time to another, before they are an `int`.
record Rounded (s u s' u' : ℕ) : Type 0 where
  ms : ℕ
  value_is : milliseconds (at_time s u) (at_time s' u') ≡ some (pos ms)
  below : s' * 1000000 + u' < s * 1000000 + u + 1000 * (ms + 1)
  above : s * 1000000 + u + 1000 * ms < s' * 1000000 + u' + 1000

milliseconds-Rounded :
    (s u s' u' : ℕ)
    → u < 1000000
    → u' < 1000000
    → s * 1000000 + u ≤ s' * 1000000 + u'
    → s' * 1000000 + u' ≤ s * 1000000 + u + 1000 * (2 ^ 31 - 1)
    → Rounded s u s' u'
milliseconds-Rounded s u s' u' h h' le near =
    let n = s' - s in
    let begun = at_time s u in
    let now = at_time s' u' in
    let first = ap to_long (later s s' (omega arith)) ∙ to_long-pos n (omega arith) in
    let second = ap to_long (product n) ∙ to_long-pos (n * 1000) (omega arith) in
    elim (Bool-cases (leb u u')) [
      | inl e ↦
          let m = u' - u in
          let order : u ≤ u' = ground arith in
          record {
            ms = n * 1000 + m / 1000;
            value_is =
                milliseconds-by begun now (pos n) (pos (n * 1000)) (pos m) _ first second
                  (ap to_long (later u u' order) ∙ to_long-pos m (omega arith))
                  (ap to_long (sum_pos (n * 1000) m) ∙ to_long-pos _ (omega arith));
            below = omega arith;
            above = omega arith;
          }
      | inr e ↦
          let m = u - u' - 1 in
          let order : u' < u = ground arith in
          record {
            ms = n * 1000 - (m + 1) / 1000;
            value_is =
                milliseconds-by begun now (pos n) (pos (n * 1000)) (negsuc m) _ first second
                  (ap to_long (earlier u u' order) ∙ to_long-negsuc m (omega arith))
                  (ap to_long (sum_negsuc (n * 1000) m (omega arith))
                    ∙ to_long-pos _ (omega arith));
            below = omega arith;
            above = omega arith;
          }
    ]

time_elapse-pos :
    (now begun : Timeval) (n : ℕ)
    → milliseconds begun now ≡ some (pos n)
    → n < 2 ^ 31
    → time_elapse now begun ≡ (some (pos n), now)
unfolding time_elapse
time_elapse-pos now begun n h k =
    ap (λ o. (o >>= λ ms. some (wrap_int ms), now)) h ∙ ap (λ i. (some i, now)) (wrap_int-pos n k)

-- From one time to another that is not earlier and at most 2^31 - 1 milliseconds later, both with less than a
-- million microseconds, `time_elapse` returns milliseconds that are not negative and off by less than one, and sets
-- `*tv_begin` to the second time.
pub time_elapse-near :
    (s u s' u' : ℕ)
    → u < 1000000
    → u' < 1000000
    → s * 1000000 + u ≤ s' * 1000000 + u'
    → s' * 1000000 + u' ≤ s * 1000000 + u + 1000 * (2 ^ 31 - 1)
    → (ms : ℕ) × (time_elapse (at_time s' u') (at_time s u) ≡ (some (pos ms), at_time s' u'))
      × (s' * 1000000 + u' < s * 1000000 + u + 1000 * (ms + 1))
      × (s * 1000000 + u + 1000 * ms < s' * 1000000 + u' + 1000)
time_elapse-near s u s' u' h h' le near =
    let r = milliseconds-Rounded s u s' u' h h' le near in
    (
      r.ms,
      time_elapse-pos (at_time s' u') (at_time s u) r.ms r.value_is (omega (arith, r.above)),
      r.below,
      r.above,
    )
