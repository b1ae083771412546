-- ===== src/Port/Hash/Tests.antt =====
-- `inet_hash_connect` on the range from 10 to 17, where 12 is reserved, the chain of 14 is empty and 16 is
-- in use.
use network_course.Prelude.{
  ℕ, ◌+◌, ◌≡◌, refl, Bool, false, none, some, List, [], ◌∷◌, ◌==◌, if◌then◌else◌, arith,
}
use network_course.Port.{Bucket}
use network_course.Port.Hash.{Stop, Static, undefined, connected, Sock, inet_hash_connect}
use network_course.Port.Hash.Again.{Follows, inet_hash_connect-Follows}
use network_course.Port.Hash.Start.{hashed, IsConnected, inet_hash_connect-IsConnected}

abbrev is_12 : ℕ → Bool
is_12 p = p == 12

abbrev bucket_of : ℕ → Bucket
bucket_of p = record { ib_net = 1; port = p }

abbrev chains : ℕ → List Bucket
chains p = if p == 14 then [] else bucket_of p ∷ []

abbrev in_use : ℕ → ℕ
in_use p = if p == 16 then 1 else 0

abbrev secret_7 : ℕ → ℕ
secret_7 key = if key == 0 then 7 else key

abbrev sum_hash : ℕ → ℕ → ℕ → ℕ → ℕ
sum_hash a b c key = a + b + c + key

abbrev client : Sock
client = record { inet_rcv_saddr = 1; inet_daddr = 2; inet_dport = 65536 + 80 }

secret_once : (key : ℕ) → secret_7 (secret_7 key) ≡ secret_7 key
secret_once key = ground arith

abbrev at_start : Static
at_start = record { hint = 0; net_secret = 0 }

abbrev after_first : Static
after_first = record { hint = 8; net_secret = 7 }

abbrev first_stop : Stop
first_stop = record { i = 6; port = 18; tb = some (bucket_of 18) }

abbrev after_second : Static
after_second = record { hint = 16; net_secret = 7 }

-- 12 is reserved, nothing is in the chain of 14, and 16 is in use: the port found is behind the range.
first_connect :
    inet_hash_connect is_12 chains in_use secret_7 sum_hash 10 17 client at_start
    ≡ connected first_stop after_first
unfolding inet_hash_connect
first_connect = refl

second_connect :
    inet_hash_connect is_12 chains in_use secret_7 sum_hash 10 17 client after_first
    ≡ connected first_stop after_second
unfolding inet_hash_connect
second_connect = refl

no_range : inet_hash_connect is_12 chains in_use secret_7 sum_hash 10 10 client at_start ≡ undefined
unfolding inet_hash_connect
no_range = refl

-- Where the sum of `hint` and the hash wraps, the next call does not go on behind the port that was found: on the
-- range from 10 to 15 it is 12, and then 10.
abbrev no_reserved : ℕ → Bool
no_reserved p = false

abbrev high_hash : ℕ → ℕ → ℕ → ℕ → ℕ
high_hash a b c key = 4294967294

abbrev all_chains : ℕ → List Bucket
all_chains p = bucket_of p ∷ []

abbrev none_in_use : ℕ → ℕ
none_in_use p = 0

wrapping_first :
    inet_hash_connect no_reserved all_chains none_in_use secret_7 high_hash 10 15 client at_start
    ≡ connected
        (record { i = 0; port = 12; tb = some (bucket_of 12) })
        (record { hint = 2; net_secret = 7 })
unfolding inet_hash_connect
wrapping_first = refl

wrapping_second :
    inet_hash_connect no_reserved all_chains none_in_use secret_7 high_hash 10 15 client
      (record { hint = 2; net_secret = 7 })
    ≡ connected
        (record { i = 0; port = 10; tb = some (bucket_of 10) })
        (record { hint = 4; net_secret = 7 })
unfolding inet_hash_connect
wrapping_second = refl

-- With empty chains only, no port is found.
abbrev no_chain : ℕ → List Bucket
no_chain p = []

all_free :
    inet_hash_connect is_12 no_chain in_use secret_7 sum_hash 10 17 client at_start
    ≡ connected (record { i = 8; port = 20; tb = none }) (record { hint = 10; net_secret = 7 })
unfolding inet_hash_connect
all_free = refl

inet_hash_connect-IsConnected_example :
    (stop : Stop) × (t : Static) × (inet_hash_connect is_12 chains in_use secret_7 sum_hash 10 17
        client at_start
      ≡ connected stop t)
    × IsConnected is_12 chains in_use secret_7 sum_hash 10 17
        (hashed is_12 chains in_use secret_7 sum_hash client at_start)
        (record at_start { net_secret = secret_7 0 })
        t
        stop
inet_hash_connect-IsConnected_example =
    inet_hash_connect-IsConnected is_12 chains in_use secret_7 sum_hash 10 17 client at_start
      (omega arith) (omega arith)

inet_hash_connect-Follows_example :
    Follows is_12 chains in_use secret_7 sum_hash 10 17 first_stop first_stop
inet_hash_connect-Follows_example =
    inet_hash_connect-Follows is_12 chains in_use secret_7 sum_hash 10 17 client at_start
      after_first after_second first_stop first_stop (bucket_of 18) (omega arith) (omega arith)
      secret_once (omega arith) first_connect refl second_connect
