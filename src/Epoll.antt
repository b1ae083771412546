-- ===== src/Epoll.antt =====
-- live/epoll/epoll_test.c: the server's loop over `epoll_wait`. The kernel is the environment: what
-- `epoll_wait`, `accept`, `read` and EPOLL_CTL_ADD return. `close` takes a descriptor out of the
-- interest list too, and that list goes with `epoll_fd`.
pub mod Batch
mod Tests
pub mod Watched
use network_course.Prelude.{
  ℕ, zero, suc, Bool, true, false, Option, none, some, List, [], ◌∷◌, ◌++◌, ◌==◌, if◌then◌else◌,
}

-- What `read` comes to: EAGAIN, another error, or bytes, of which there are none at the end.
pub data Received : Type 0 where
  again failed : Received
  bytes : List ℕ → Received

-- An entry of `ep_events`, with what `accept` (-1 is `none`) or `read` returns for it, and whether
-- `epoll_ctl` adds what was accepted.
pub record Ready : Type 0 where
  pub fd : ℕ
  pub accepted : Option ℕ
  pub is_added : Bool
  pub received : Received

-- The interest list of `epoll_fd`, the sockets that are open, and the bytes written to STDIN_FILENO.
pub record Server : Type 0 where
  pub interest : List ℕ
  pub sockets : List ℕ
  pub written : List ℕ

abbrev pub remove : ℕ → List ℕ → List ℕ
remove fd [] = []
remove fd (x ∷ xs) = let rest = remove fd xs in if x == fd then rest else x ∷ rest

unfoldable pub close : ℕ → Server → Server
close fd s = record s { interest = remove fd s.interest; sockets = remove fd s.sockets }

-- `epoll_ctl (epoll_fd, EPOLL_CTL_ADD, fd, &event)`, whose result nothing looks at.
unfoldable pub add_interest : Bool → ℕ → Server → Server
add_interest true fd s = record s { interest = fd ∷ s.interest }
add_interest false fd s = s

-- `epoll_ctl` refuses the descriptor -1.
unfoldable pub accept_client : Option ℕ → Bool → Server → Server
unfolding add_interest
accept_client none added s = s
accept_client (some fd) added s = add_interest added fd (record s { sockets = fd ∷ s.sockets })

-- `close (epoll_fd)`.
unfoldable pub close_epoll : Server → Server
close_epoll s = record s { interest = [] }

-- The branch of a client, and whether the `for` goes on.
unfoldable pub read_client : ℕ → Received → Server → Server × Bool
unfolding close
read_client fd again s = (s, false)
read_client fd failed s = (close fd s, false)
read_client fd (bytes []) s = (close fd (record s { interest = remove fd s.interest }), true)
read_client fd (bytes (b ∷ bs)) s = (record s { written = s.written ++ b ∷ bs }, true)

module _ (server_socket_fd : ℕ) where
  -- The body of the `for`.
  unfoldable pub handle : Ready → Server → Server × Bool
  unfolding accept_client read_client
  handle e s =
      if e.fd == server_socket_fd
      then (accept_client e.accepted e.is_added s, true)
      else read_client e.fd e.received s

  -- The `for` over the events of one `epoll_wait`.
  unfoldable pub handle_all : List Ready → Server → Server
  unfolding handle
  handle_all [] s = s
  handle_all (e ∷ es) s =
      let (s', go_on) = handle e s in let rest = handle_all es s' in if go_on then rest else s'

  -- The `while`, by what the calls of `epoll_wait` return, `none` for an error: the flag says whether
  -- `main` returned, and it waits otherwise.
  unfoldable pub serve : List (Option (List Ready)) → Server → Server × Bool
  unfolding handle_all close close_epoll
  serve [] s = (s, false)
  serve (none ∷ ws) s = (close_epoll (close server_socket_fd s), true)
  serve (some es ∷ ws) s = serve ws (handle_all es s)

  -- Before the loop, by whether `epoll_ctl` adds the socket that listens.
  unfoldable pub listening : Bool → Server
  unfolding add_interest
  listening added =
      add_interest added server_socket_fd
        (record { interest = []; sockets = server_socket_fd ∷ []; written = [] })
