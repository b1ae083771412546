-- ===== src/Connect/Tests.antt =====
-- The client of port/connect_test_client.c against a server that takes three connections.
use network_course.Prelude.{ℕ, ◌+◌, ◌*◌, ◌<◌, ◌≡◌, refl, some, List, [], ◌∷◌, min, arith}
use network_course.Prelude.Int.{pos, negsuc}
use network_course.Connect.{Attempt, refused, connected, Client, most, connect_loop, time_elapse}
use network_course.Connect.Count.{IsCounted, connect_loop-IsCounted, successes}
use network_course.Connect.Elapsed.{at_time, time_elapse-near}

abbrev attempts : List Attempt
attempts = connected ∷ connected ∷ connected ∷ refused ∷ connected ∷ []

abbrev before_1000 : Client
before_1000 = record { success_counter = 998; sockets = 998; reports = [] }

attempts_counted :
    connect_loop attempts before_1000
    ≡ record { success_counter = 1001; sockets = 1001; reports = 1000 ∷ [] }
unfolding connect_loop
attempts_counted = refl

before_1000-IsCounted : IsCounted before_1000
before_1000-IsCounted = record { open_sockets = refl; printed = refl; bounded = omega arith }

connect_loop-IsCounted_example :
    IsCounted (connect_loop attempts before_1000)
    × ((connect_loop attempts before_1000).success_counter ≡ min most (998 + successes attempts))
connect_loop-IsCounted_example = connect_loop-IsCounted attempts before_1000 before_1000-IsCounted

-- From 1.9999 s to 3.0001 s.
time_elapse_runs : time_elapse (at_time 3 100) (at_time 1 999900) ≡ (some (pos 1001), at_time 3 100)
unfolding time_elapse
time_elapse_runs = refl

-- After 2^31 milliseconds the `int` is negative.
after_25_days :
    time_elapse (at_time 2147483 648000) (at_time 0 0)
    ≡ (some (negsuc 2147483647), at_time 2147483 648000)
unfolding time_elapse
after_25_days = refl

time_elapse-near_example :
    (ms : ℕ) × (time_elapse (at_time 3 100) (at_time 1 999900) ≡ (some (pos ms), at_time 3 100))
    × (3 * 1000000 + 100 < 1 * 1000000 + 999900 + 1000 * (ms + 1))
    × (1 * 1000000 + 999900 + 1000 * ms < 3 * 1000000 + 100 + 1000)
time_elapse-near_example =
    time_elapse-near 1 999900 3 100 (omega arith) (omega arith) (omega arith) (omega arith)
