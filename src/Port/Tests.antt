-- ===== src/Port/Tests.antt =====
-- `inet_csk_find_open_port` on the range from 10 to 13, with one chain for all ports.
use network_course.Prelude.{
  ℕ, ◌+◌, ◌-◌, ◌*◌, ◌%◌, ◌≤◌, ◌<◌, ◌≡◌, refl, Bool, true, none, List, [], ◌∷◌, ◌==◌, arith,
}
use network_course.Port.{Bucket, success, null, find_open_port, try_port, set_low_bit}
use network_course.Port.Scan.{IsOpen, find_open_port-IsOpen, find_open_port_null}

abbrev taken : ℕ → Bucket
taken p = record { ib_net = 1; port = p }

abbrev reserved_11 : ℕ → Bool
reserved_11 p = p == 11

abbrev some_taken : ℕ → List Bucket
some_taken p = taken 13 ∷ taken 10 ∷ []

abbrev all_taken : ℕ → List Bucket
all_taken p = taken 10 ∷ taken 12 ∷ taken 13 ∷ []

abbrev conflicts : Bucket → Bool
conflicts tb = true

open_port : find_open_port 1 reserved_11 some_taken conflicts 10 13 4 ≡ success 12 none
unfolding find_open_port
open_port = refl

no_port : find_open_port 1 reserved_11 all_taken conflicts 10 13 4 ≡ null
unfolding find_open_port
no_port = refl

-- Nothing takes the scan back to the start of the range: here it leaves the range.
past_the_range : find_open_port 1 reserved_11 some_taken conflicts 10 13 3 ≡ success 15 none
unfolding find_open_port
past_the_range = refl

find_open_port-IsOpen_example :
    IsOpen 1 reserved_11 some_taken conflicts 12 none × (10 ≤ 12) × (12 < 10 + 2 * (13 + 1 - 10))
find_open_port-IsOpen_example =
    find_open_port-IsOpen 1 reserved_11 some_taken conflicts 10 13 4 12 none open_port

find_open_port_null_example :
    try_port 1 reserved_11 all_taken conflicts (10 + (set_low_bit (4 % (13 + 1 - 10)) - 1) + 2)
    ≡ none
find_open_port_null_example =
    find_open_port_null 1 reserved_11 all_taken conflicts 10 13 4 2 no_port (omega arith)
