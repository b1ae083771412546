-- ===== src/Epoll/Watched.antt =====
-- live/epoll/epoll_test.c: which open sockets `epoll_wait` looks at.
use network_course.Prelude.{
  ℕ, zero, suc, ◌+◌, ◌≡◌, refl, ap, Bool, true, false, Option, none, some, List, [], ◌∷◌, ◌==◌,
  if◌then◌else◌, Bool-cases, inl, inr, arith,
}
use network_course.Epoll.{
  Received, again, failed, bytes, Ready, Server, remove, close, add_interest, accept_client,
  close_epoll, read_client, handle, handle_all, serve, listening,
}

-- A list that leaves out at most `n` items of another, and keeps the order.
pub data Within : ℕ → List ℕ → List ℕ → Type 0 where
  empty : (n : ℕ) → Within n [] []
  kept : {n : ℕ} {xs ys : List ℕ} (x : ℕ) → Within n xs ys → Within n (x ∷ xs) (x ∷ ys)
  left_out : {n : ℕ} {xs ys : List ℕ} (x : ℕ) → Within n xs ys → Within (suc n) xs (x ∷ ys)

Within-by : {n m : ℕ} {xs ys : List ℕ} → n ≡ m → Within n xs ys → Within m xs ys
Within-by e w = rw (← e) w

Within-more : {n : ℕ} {xs ys : List ℕ} → Within n xs ys → Within (n + 1) xs ys
Within-more (empty n) = empty (n + 1)
Within-more (kept x w) = kept x (Within-more w)
Within-more (left_out {n} {xs} {ys} x w) =
    let one : suc n + 1 ≡ suc (n + 1) = omega arith in rw one (left_out x (Within-more w))

Within-add : (k : ℕ) {n : ℕ} {xs ys : List ℕ} → Within n xs ys → Within (n + k) xs ys
Within-add zero w = Within-by (omega arith) w
Within-add (suc k) w = Within-by (omega arith) (Within-more (Within-add k w))

Within-remove :
    (fd : ℕ) {n : ℕ} {xs ys : List ℕ} → Within n xs ys → Within n (remove fd xs) (remove fd ys)
Within-remove fd (empty n) = empty n
Within-remove fd (kept x w) = elim (Bool-cases (x == fd)) [
  | inl e ↦ rw e (Within-remove fd w)
  | inr e ↦ rw e (kept x (Within-remove fd w))
]
Within-remove fd (left_out {n} {xs} {ys} x w) = elim (Bool-cases (x == fd)) [
  | inl e ↦ rw e (Within-by (omega arith) (Within-more (Within-remove fd w)))
  | inr e ↦ rw e (left_out x (Within-remove fd w))
]

-- Where nothing is left out, every open socket is looked at.
pub Within-none : {n : ℕ} {xs ys : List ℕ} → Within n xs ys → n ≡ 0 → xs ≡ ys
Within-none (empty n) e = refl
Within-none (kept x w) e = ap (◌∷◌ x) (Within-none w e)
Within-none (left_out x w) e = absurd (omega (arith, e))

remove_twice : (fd : ℕ) (xs : List ℕ) → remove fd (remove fd xs) ≡ remove fd xs
remove_twice fd [] = refl
remove_twice fd (x ∷ xs) = elim (Bool-cases (x == fd)) [
  | inl e ↦ rw (e, remove_twice fd xs) refl
  | inr e ↦ rw (e, e, remove_twice fd xs) refl
]

add_interest-Within :
    (added : Bool) (fd n : ℕ) (s : Server)
    → Within n s.interest s.sockets
    → (let t = add_interest added fd (record s { sockets = fd ∷ s.sockets }) in
        Within (n + (if added then 0 else 1)) t.interest t.sockets)
unfolding add_interest
add_interest-Within true fd n s w = Within-by (omega arith) (kept fd w)
add_interest-Within false fd n s w = Within-by (omega arith) (left_out fd w)

read_client-Within :
    (fd n : ℕ) (r : Received) (s : Server)
    → Within n s.interest s.sockets
    → Within n (read_client fd r s).0.interest (read_client fd r s).0.sockets
unfolding read_client close
read_client-Within fd n again s w = w
read_client-Within fd n failed s w = Within-remove fd w
read_client-Within fd n (bytes []) s w = rw (remove_twice fd s.interest) (Within-remove fd w)
read_client-Within fd n (bytes (b ∷ bs)) s w = w

module _ (server_socket_fd : ℕ) where
  -- How often EPOLL_CTL_ADD fails for a client.
  abbrev pub refused : Ready → ℕ
  refused e = if e.fd == server_socket_fd then (if e.is_added then 0 else 1) else 0

  abbrev pub refused_of : List Ready → ℕ
  refused_of [] = 0
  refused_of (e ∷ es) = refused e + refused_of es

  abbrev pub refusals : List (Option (List Ready)) → ℕ
  refusals [] = 0
  refusals (none ∷ ws) = refusals ws
  refusals (some es ∷ ws) = refused_of es + refusals ws

  accept_client-Within :
      (o : Option ℕ) (added : Bool) (n : ℕ) (s : Server)
      → Within n s.interest s.sockets
      → Within
          (n + (if added then 0 else 1))
          (accept_client o added s).interest
          (accept_client o added s).sockets
  unfolding accept_client
  accept_client-Within none true n s w = Within-by (omega arith) w
  accept_client-Within none false n s w = Within-more w
  accept_client-Within (some fd) added n s w = add_interest-Within added fd n s w

  handle-Within :
      (e : Ready) (n : ℕ) (s : Server)
      → Within n s.interest s.sockets
      → (let t = (handle server_socket_fd e s).0 in Within (n + refused e) t.interest t.sockets)
  unfolding handle
  handle-Within e n s w = elim (Bool-cases (e.fd == server_socket_fd)) [
    | inl l ↦ rw l (accept_client-Within e.accepted e.is_added n s w)
    | inr l ↦ rw l (Within-by (omega arith) (read_client-Within e.fd n e.received s w))
  ]

  handle_all-Within :
      (es : List Ready) (n : ℕ) (s : Server)
      → Within n s.interest s.sockets
      → (let t = handle_all server_socket_fd es s in
          Within (n + refused_of es) t.interest t.sockets)
  unfolding handle_all
  handle_all-Within [] n s w = Within-by (omega arith) w
  handle_all-Within (e ∷ es) n s w =
      let t = (handle server_socket_fd e s).0 in
      let v = handle-Within e n s w in
      elim (Bool-cases (handle server_socket_fd e s).1) [
        | inl g ↦ rw g (Within-by (omega arith) (handle_all-Within es (n + refused e) t v))
        | inr g ↦ rw g (Within-by (omega arith) (Within-add (refused_of es) v))
      ]

  -- What `main` leaves: while it waits, open sockets of which `epoll_wait` looks at all but `n`; when it has
  -- returned, no interest list, and the socket that listened is closed.
  abbrev pub Served : ℕ → Server × Bool → Type 0
  Served n (s, false) = Within n s.interest s.sockets
  Served n (s, true) = (s.interest ≡ []) × (remove server_socket_fd s.sockets ≡ s.sockets)

  serve-Served :
      (ws : List (Option (List Ready))) (n : ℕ) (s : Server)
      → Within n s.interest s.sockets
      → Served (n + refusals ws) (serve server_socket_fd ws s)
  unfolding serve close close_epoll
  serve-Served [] n s w = Within-by (omega arith) w
  serve-Served (none ∷ ws) n s w = (refl, remove_twice server_socket_fd s.sockets)
  serve-Served (some es ∷ ws) n s w =
      let t = handle_all server_socket_fd es s in
      let sum : n + refused_of es + refusals ws ≡ n + refusals (some es ∷ ws) = omega arith in
      rw (← sum) (serve-Served ws (n + refused_of es) t (handle_all-Within es n s w))

  abbrev pub unwatched : Bool → ℕ
  unwatched added = if added then 0 else 1

  -- Whatever `epoll_wait`, `accept`, `read` and EPOLL_CTL_ADD return, in whatever order: while the server waits,
  -- each descriptor that `epoll_wait` looks at is an open socket, and of the open sockets it looks at all but at most
  -- as many as EPOLL_CTL_ADD failed for. When the server has returned there is no interest list, and the socket that
  -- listened is closed.
  pub serve-Within :
      (added : Bool) (ws : List (Option (List Ready)))
      → Served
          (unwatched added + refusals ws)
          (serve server_socket_fd ws (listening server_socket_fd added))
  unfolding listening
  serve-Within added ws = serve-Served ws (unwatched added) (listening server_socket_fd added) (
      Within-by (omega arith) (
        add_interest-Within added server_socket_fd 0
          (record { interest = []; sockets = []; written = [] }) (empty 0)))
