-- ===== src/PollDevice/Once.antt =====
-- A greeting is read at most once, and whole.
use network_course.Prelude.{
  ℕ, ◌≡◌, refl, ap, Bool, true, false, List, [], ◌∷◌, length, take, ◌⊎◌, inl, inr, arith,
}
use network_course.Prelude.Int.{pos}
use network_course.PollDevice.{
  Device, read, my_dev_poll, Event, round, call_read, kthread_round, happen, history, loaded,
}

take-length : (xs : List ℕ) → take (length xs) xs ≡ xs
take-length [] = refl
take-length (x ∷ xs) = ap (◌∷◌ x) (take-length xs)

module _ (hello : ℕ → List ℕ) where
  -- Nothing to read, or the whole of the last greeting.
  Waits : Device → Type 0
  Waits d =
      (d.readbuflen ≡ 0)
      ⊎ ((d.readbuf ≡ hello d.counter) × (d.readbuflen ≡ length (hello d.counter)))

  happen-Waits : (e : Event) (d : Device) → Waits d → Waits (happen hello e d)
  unfolding happen kthread_round read Waits
  happen-Waits round d w = inr (refl, refl)
  happen-Waits (call_read fault) d w = inl refl

  history-Waits : (es : List Event) (d : Device) → Waits d → Waits (history hello es d)
  unfolding history
  history-Waits [] d w = w
  history-Waits (e ∷ es) d w = history-Waits es (happen hello e d) (happen-Waits e d w)

  read_polled :
      (d : Device)
      → Waits d
      → my_dev_poll d ≡ true
      → (read false d).0 ≡ (pos (length (hello d.counter)), hello d.counter)
  unfolding read my_dev_poll Waits
  read_polled d (inl z) h = ground (arith, z)
  read_polled d (inr (b, l)) h = rw (l, b, take-length (hello d.counter)) refl

  read_drained : (fault : Bool) (d : Device) → my_dev_poll (read fault d).1 ≡ false
  unfolding read my_dev_poll
  read_drained fault d = refl

  -- After any sequence of rounds of the thread and calls of `read` since the module was loaded, if
  -- `poll` returns POLLIN and `copy_to_user` does not fail, then `read` returns the length of the last
  -- greeting and copies the whole of it; and after it `poll` returns 0.
  pub read_once :
      (es : List Event)
      → my_dev_poll (history hello es loaded) ≡ true
      → (let d = history hello es loaded in
          ((read false d).0 ≡ (pos (length (hello d.counter)), hello d.counter))
          × (my_dev_poll (read false d).1 ≡ false))
  unfolding Waits
  read_once es h =
      let d = history hello es loaded in
      (read_polled d (history-Waits es loaded (inl refl)) h, read_drained false d)
