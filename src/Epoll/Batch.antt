-- ===== src/Epoll/Batch.antt =====
-- The batches of events that the server handles.
use network_course.Prelude.{
  ℕ, ◌≡◌, refl, ◌∙◌, Bool, true, false, Option, none, some, List, [], ◌∷◌, ◌++◌, append_assoc,
  append-nil, ◌==◌, ◌||◌, ◌⊎◌, if◌then◌else◌, Bool-cases, inl, inr,
}
use network_course.Epoll.{
  Received, again, failed, bytes, Ready, Server, close, accept_client, read_client, handle,
  handle_all,
}

abbrev pub payload : Received → List ℕ
payload again = []
payload failed = []
payload (bytes bs) = bs

abbrev pub succeeded : Received → Bool
succeeded again = false
succeeded failed = false
succeeded (bytes bs) = true

accept_client-written :
    (o : Option ℕ) (added : Bool) (s : Server) → (accept_client o added s).written ≡ s.written ++ []
unfolding accept_client
accept_client-written none added s = rw append-nil refl
accept_client-written (some fd) true s = rw append-nil refl
accept_client-written (some fd) false s = rw append-nil refl

read_client_lem :
    (fd : ℕ) (r : Received) (s : Server)
    → ((read_client fd r s).0.written ≡ s.written ++ payload r)
      × ((read_client fd r s).1 ≡ succeeded r)
unfolding read_client close
read_client_lem fd again s = (rw append-nil refl, refl)
read_client_lem fd failed s = (rw append-nil refl, refl)
read_client_lem fd (bytes []) s = (rw append-nil refl, refl)
read_client_lem fd (bytes (b ∷ bs)) s = (refl, refl)

module _ (server_socket_fd : ℕ) where
  -- A client's event, with a read that fails.
  pub record IsStop (e : Ready) : Type 0 where
    pub client : (e.fd == server_socket_fd) ≡ false
    pub unread : (e.received ≡ again) ⊎ (e.received ≡ failed)

  stop_ends : (e : Ready) (s : Server) → IsStop e → (handle server_socket_fd e s).1 ≡ false
  unfolding handle read_client
  stop_ends e s h = elim (h.unread) [
    | inl r ↦ rw (h.client, r) refl
    | inr r ↦ rw (h.client, r) refl
  ]

  -- Where the read of a client fails, be it only for now, the `for` is left: the events behind it in
  -- the batch change nothing, whatever they are.
  pub handle_all_stops :
      (es : List Ready) (e : Ready) (behind : List Ready) (s : Server)
      → IsStop e
      → handle_all server_socket_fd (es ++ e ∷ behind) s
        ≡ handle_all server_socket_fd (es ++ e ∷ []) s
  unfolding handle_all
  handle_all_stops [] e behind s h = rw (stop_ends e s h) refl
  handle_all_stops (x ∷ es) e behind s h =
      rw (handle_all_stops es e behind (handle server_socket_fd x s).0 h) refl

  -- The bytes that an event brings, where it is a client's.
  abbrev pub brought : Ready → List ℕ
  brought e = if e.fd == server_socket_fd then [] else payload e.received

  abbrev pub goes_on : Ready → Bool
  goes_on e = e.fd == server_socket_fd || succeeded e.received

  -- The bytes of a batch, up to a read that fails.
  abbrev pub batch_bytes : List Ready → List ℕ
  batch_bytes [] = []
  batch_bytes (e ∷ es) = let rest = batch_bytes es in brought e ++ (if goes_on e then rest else [])

  handle_lem :
      (e : Ready) (s : Server)
      → ((handle server_socket_fd e s).0.written ≡ s.written ++ brought e)
        × ((handle server_socket_fd e s).1 ≡ goes_on e)
  unfolding handle
  handle_lem e s = elim (Bool-cases (e.fd == server_socket_fd)) [
    | inl l ↦ rw l (accept_client-written e.accepted e.is_added s, refl)
    | inr l ↦ rw l (read_client_lem e.fd e.received s)
  ]

  -- A batch writes the bytes that its clients sent, in the order of the events, up to a read that
  -- fails.
  pub handle_all-written :
      (es : List Ready) (s : Server)
      → (handle_all server_socket_fd es s).written ≡ s.written ++ batch_bytes es
  unfolding handle_all
  handle_all-written [] s = rw append-nil refl
  handle_all-written (e ∷ es) s =
      let (w, g) = handle_lem e s in
      elim (Bool-cases (goes_on e)) [
        | inl h ↦
            rw (g, h)
              (handle_all-written es (handle server_socket_fd e s).0
                ∙ rw (w, append_assoc s.written (brought e) (batch_bytes es)) refl)
        | inr h ↦ rw (g, h, append-nil) w
      ]
