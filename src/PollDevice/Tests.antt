-- ===== src/PollDevice/Tests.antt =====
-- The device after two rounds, a call of `read` and one more round.
use network_course.Prelude.{ℕ, ◌≡◌, refl, true, false, List, [], ◌∷◌, length}
use network_course.Prelude.Int.{pos}
use network_course.PollDevice.{read, my_dev_poll, Event, round, call_read, history, loaded}
use network_course.PollDevice.Once.{read_once}

abbrev greeting : ℕ → List ℕ
greeting n = b'h' ∷ b'i' ∷ n ∷ []

abbrev events : List Event
events = round ∷ round ∷ call_read false ∷ round ∷ []

events_polled : my_dev_poll (history greeting events loaded) ≡ true
unfolding my_dev_poll history
events_polled = refl

read_once_example :
    ((read false (history greeting events loaded)).0 ≡ (
      pos (length (greeting (history greeting events loaded).counter)),
      greeting (history greeting events loaded).counter,
    ))
    × (my_dev_poll (read false (history greeting events loaded)).1 ≡ false)
read_once_example = read_once greeting events events_polled
