-- ===== src/Epoll/Tests.antt =====
-- The server of live/epoll/epoll_test.c with descriptor 3, and clients 5 and 6.
use network_course.Prelude.{ℕ, ◌≡◌, refl, true, false, Option, none, some, List, [], ◌∷◌, ◌++◌, inl}
use network_course.Epoll.{Received, again, bytes, Ready, Server, handle_all, serve, listening}
use network_course.Epoll.Watched.{Served, serve-Within}
use network_course.Epoll.Batch.{handle_all_stops, batch_bytes, handle_all-written}

abbrev connection : ℕ → Ready
connection fd = record { fd = 3; accepted = some fd; is_added = true; received = again }

abbrev message : ℕ → Received → Ready
message fd r = record { fd = fd; accepted = none; is_added = true; received = r }

abbrev batches : List (Option (List Ready))
batches =
    some (connection 5 ∷ connection 6 ∷ [])
    ∷ some (message 5 (bytes (b'h' ∷ b'i' ∷ [])) ∷ message 6 (bytes []) ∷ [])
    ∷ none
    ∷ []

batches_served :
    serve 3 batches (listening 3 true)
    ≡ (record { interest = []; sockets = 5 ∷ []; written = b'h' ∷ b'i' ∷ [] }, true)
unfolding serve listening
batches_served = refl

-- EPOLL_CTL_ADD fails for 6, which stays open with nobody looking at it.
abbrev unwatched_client : Ready
unwatched_client = record { fd = 3; accepted = some 6; is_added = false; received = again }

abbrev full_list : List (Option (List Ready))
full_list = some (connection 5 ∷ unwatched_client ∷ []) ∷ []

full_list_served :
    serve 3 full_list (listening 3 true)
    ≡ (record { interest = 5 ∷ 3 ∷ []; sockets = 6 ∷ 5 ∷ 3 ∷ []; written = [] }, false)
unfolding serve listening
full_list_served = refl

serve-Within_example : Served 3 1 (serve 3 full_list (listening 3 true))
serve-Within_example = serve-Within 3 true full_list

abbrev two_clients : Server
two_clients = record { interest = 5 ∷ 6 ∷ 3 ∷ []; sockets = 5 ∷ 6 ∷ 3 ∷ []; written = [] }

handle_all_stops_example :
    handle_all 3 ([] ++ message 5 again ∷ message 6 (bytes (1 ∷ [])) ∷ []) two_clients
    ≡ handle_all 3 ([] ++ message 5 again ∷ []) two_clients
handle_all_stops_example =
    handle_all_stops 3 [] (message 5 again) (message 6 (bytes (1 ∷ [])) ∷ []) two_clients
      (record { client = refl; unread = inl refl })

abbrev one_batch : List Ready
one_batch = message 6 (bytes (1 ∷ [])) ∷ message 5 (bytes (2 ∷ [])) ∷ []

handle_all-written_example :
    (handle_all 3 one_batch two_clients).written ≡ [] ++ batch_bytes 3 one_batch
handle_all-written_example = handle_all-written 3 one_batch two_clients
