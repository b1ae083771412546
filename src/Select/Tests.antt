-- ===== src/Select/Tests.antt =====
-- The client of live/epoll/select_test.c on three rounds.
use network_course.Prelude.{◌≡◌, refl, none, some, List, [], ◌∷◌}
use network_course.Select.{bytes, Selected, selected, Session, waiting, undefined, session}

-- The line "hi", an answer "ok" and the end of the terminal's file at once, and nothing.
abbrev rounds : List Selected
rounds =
    selected none (some (some (b'h' ∷ b'i' ∷ b'\n' ∷ [])))
    ∷ selected (some (bytes (b'o' ∷ b'k' ∷ []))) (some none)
    ∷ selected none none
    ∷ []

abbrev fresh_session : Session
fresh_session = record { shown = []; written = [] }

rounds_run :
    session rounds fresh_session
    ≡ waiting (record { shown = (b'o' ∷ b'k' ∷ []) ∷ []; written = (b'h' ∷ b'i' ∷ []) ∷ [] })
unfolding session
rounds_run = refl

-- A line of 0 bytes, as the terminal may send it.
empty_string :
    session (selected none (some (some (0 ∷ b'\n' ∷ []))) ∷ []) fresh_session
    ≡ undefined fresh_session
unfolding session
empty_string = refl
