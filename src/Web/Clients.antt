-- ===== src/Web/Clients.antt =====
-- rd/flask_engine.c: the sockets of the web server's connections, and the handlers that
-- rd/engine_actions.c calls for them.
use p.Prelude.{
  ℕ, ◌+◌, ◌-◌, Bool, true, false, List, [], ◌∷◌, ◌++◌, Option, none, some, ◌==◌, leb, ltb,
  if◌then◌else◌, length, take, write, ◌>>=◌, ◌>>◌, defined, max,
}
use p.Text.{overwrite}
use p.Request.{TcpConnection, init_connection, process_buffer}
use p.Web.{Node, Site, buf_size, build_response}

-- rd/constants.h
abbrev pub max_connections : ℕ
max_connections = 1024

-- The part of `engine_wrapper` for the connections. `is_open` says which descriptors the system has
-- open, and `replies` what was sent to which.
pub record Clients : Type 0 where
  pub rfds : ℕ → Bool
  pub wfds : ℕ → Bool
  pub nfds : ℕ
  pub fdmax : ℕ
  pub connections : ℕ → TcpConnection
  pub is_open : ℕ → Bool
  pub replies : List (ℕ × List ℕ)

abbrev pub with_connection : ℕ → TcpConnection → Clients → Clients
with_connection i c w = record w { connections = write w.connections i c }

-- The connection is initialised and closed.
abbrev pub hang_up : ℕ → Clients → Clients
hang_up i w = record w {
  connections = write w.connections i (init_connection (w.connections i));
  is_open = write w.is_open i false;
}

-- `FD_CLR` on both sets.
abbrev pub unwatch : ℕ → Clients → Clients
unwatch i w = record w { rfds = write w.rfds i false; wfds = write w.wfds i false }

-- The client that was accepted. At one number of clients the status is 503 and the socket is watched for
-- writing at once.
unfoldable pub register : ℕ → Clients → Option Clients
register client w = do
  defined (ltb client max_connections)
  let fresh = init_connection (w.connections client)
  let last = w.nfds + 1 == max_connections - 1
  some (record w {
    rfds = write w.rfds client true;
    wfds = if last then write w.wfds client true else w.wfds;
    nfds = w.nfds + 1;
    fdmax = max client w.fdmax;
    connections =
        write w.connections client (if last then record fresh { status = 503 } else fresh);
    is_open = write w.is_open client true;
  })

-- `accepted` is the descriptor that `accept` returns, `none` for an error. The flag is the return
-- value, 1 or -1.
unfoldable pub new_client_handler : Option ℕ → Clients → Option (Clients × Bool)
new_client_handler accepted w =
    if leb w.nfds (max_connections - 1)
    then elim accepted [
      | none ↦ some (w, false)
      | some client ↦ do w' ← register client w; some (w', true)
    ]
    else some (w, false)

-- What `recv` returns: bytes, of which none are the end of the stream, or an error, ECONNRESET or
-- another.
pub data Reception : Type 0 where
  bytes_read : List ℕ → Reception
  connection_reset : Reception
  other_error : Reception

-- The request is read into the connection and answered.
unfoldable pub answer : Node → List ℕ → ℕ → Site → Clients → Option (Site × Clients)
answer node buf i site w = do
  let c = w.connections i
  request ← overwrite c.request buf
  processed ←
      process_buffer (record c { request = request; request_index = length buf; status = 200 })
  (site', c') ← build_response node site processed
  some (site', record (with_connection i c' w) { wfds = write w.wfds i true })

unfoldable pub answer_error : Node → ℕ → Site → Clients → Option (Site × Clients)
answer_error node i site w = do
  (site', c') ← build_response node site (record (w.connections i) { status = 500 })
  some (site', record (with_connection i c' w) { wfds = write w.wfds i true })

-- On a connection that was reset the sets are not changed. The flag says that the return value is 1;
-- it is 0 at the end of the stream and -1 on the reset.
unfoldable pub flask_request_handler :
    Node → Reception → ℕ → Site → Clients → Option (Site × Clients × Bool)
flask_request_handler node (bytes_read bytes) i site w =
    let buf = take (buf_size - (w.connections i).request_index) bytes in
    if length buf == 0
    then some (site, unwatch i (hang_up i w), false)
    else (do (site', w') ← answer node buf i site w; some (site', w', true))
flask_request_handler node connection_reset i site w = some (site, hang_up i w, false)
flask_request_handler node other_error i site w = do
  (site', w') ← answer_error node i site w
  some (site', w', true)

-- What `send` does with the bytes: it takes them, or it fails. The flag says whether `errno` is EPIPE
-- or ECONNRESET after the call; `send` sets it only when it fails.
pub data Sending : Type 0 where
  taken : Bool → Sending
  failed : Bool → Sending

-- The value that `send` returns is 1 or more.
abbrev pub some_sent : Sending → ℕ → Bool
some_sent (taken gone) n = ltb 0 n
some_sent (failed gone) n = false

abbrev pub peer_gone : Sending → Bool
peer_gone (taken gone) = gone
peer_gone (failed gone) = gone

-- `none` is `exit(EXIT_FAILURE)`.
unfoldable pub flask_response_handler : Sending → ℕ → Clients → Option Clients
flask_response_handler sending i w =
    let c = w.connections i in
    if some_sent sending c.response_index
    then some (
        unwatch i (
          hang_up i
            (record w { replies = w.replies ++ (i, take c.response_index c.response) ∷ [] })))
    else if peer_gone sending
    then some (unwatch i (hang_up i w))
    else none
