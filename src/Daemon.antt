-- ===== src/Daemon.antt =====
-- rd/rd.c and rd/engine_actions.c: the daemon as a whole, the rounds of `engine_event` and the calls with
-- which `main` starts. An exit and undefined behaviour are `none`.
pub mod Keeps
pub mod Loop
pub mod Loads
pub mod Runs
pub mod Cadence
use p.Prelude.{
  ℕ, zero, suc, ◌+◌, ◌&&◌, ◌||◌, Bool, true, false, List, Option, none, some, ◌==◌, leb, max,
  if◌then◌else◌, CString, write, [], ◌∷◌, ◌%◌, ◌^◌, defined, ◌>>=◌, ◌>>◌,
}
use p.Text.{zeros}
use p.Tables.{LinkEntry, DirectLinks, max_buf}
use p.HashSet.{LisoHash, init_hash}
use p.Routing.{retransmit_time}
use p.Flooding.{State, Arrival, lsa_handler}
use p.Engine.{Engine, on_timeout}
use p.Loader.{load_node_conf, load_node_file}
use p.Request.{TcpConnection}
use p.Web.{Node, Site}
use p.Web.Clients.{
  Clients, Reception, Sending, max_connections, new_client_handler, flask_request_handler,
  flask_response_handler,
}

-- The descriptors of the two server sockets.
pub record Sockets : Type 0 where
  pub udp_sock : ℕ
  pub tcp_sock : ℕ

-- The variables of rd/rd.c, and the bytes of the file that `filefile` names.
pub record Daemon : Type 0 where
  pub engine : Engine
  pub clients : Clients
  pub filefile : List ℕ

abbrev pub site_of : Daemon → Site
site_of d = record { net = d.engine.net; ol = d.engine.ol; filefile = d.filefile }

abbrev pub with_site : Site → Clients → Daemon → Daemon
with_site site w d = record {
  engine = record d.engine { net = site.net; ol = site.ol };
  clients = w;
  filefile = site.filefile;
}

-- What the calls of the system on one socket give: `recvfrom`, `accept`, `recv` and `send`.
pub record Input : Type 0 where
  pub arrival : Arrival
  pub accepted : Option ℕ
  pub reception : Reception
  pub sending : Sending

-- The flag is the return value, 1 or less.
unfoldable pub recv_handler : Node → Sockets → Input → ℕ → Daemon → Option (Daemon × Bool)
recv_handler node k input i d =
    if i == k.udp_sock
    then (do
      (s, ok) ← lsa_handler input.arrival node.dl d.engine.net
      some (record d { engine = record d.engine { net = s } }, ok))
    else if i == k.tcp_sock
    then (do
      (w, ok) ← new_client_handler input.accepted d.clients
      some (record d { clients = w }, ok))
    else (do
      (site, w, ok) ← flask_request_handler node input.reception i (site_of d) d.clients
      some (with_site site w d, ok))

-- It returns 1 or does not return.
unfoldable pub send_handler : Input → ℕ → Daemon → Option Daemon
send_handler input i d = do
  w ← flask_response_handler input.sending i d.clients
  some (record d { clients = w })

-- `FD_CLR(i,&engine.wfds)`
abbrev pub clear_wfds : ℕ → Daemon → Daemon
clear_wfds i d = record d { clients = record d.clients { wfds = write d.clients.wfds i false } }

-- `temp_rfds` and `temp_wfds` after `select`.
pub record Ready : Type 0 where
  pub temp_rfds : ℕ → Bool
  pub temp_wfds : ℕ → Bool

-- One round of the loop over the sockets.
unfoldable pub handle_socket : Node → Sockets → Ready → Input → ℕ → Daemon → Option Daemon
handle_socket node k ready input i d = do
  (d1, go) ← if ready.temp_rfds i then recv_handler node k input i d else some (d, true)
  if go && ready.temp_wfds i
      then (do d2 ← send_handler input i d1; some (clear_wfds i d2))
      else some d1

-- `for (i = 0; i < engine.fdmax + 1; i++)`, with the rounds that are left at most. The bound is read anew in
-- each round.
unfoldable pub sockets_loop : ℕ → ℕ → Node → Sockets → Ready → (ℕ → Input) → Daemon → Option Daemon
sockets_loop zero i node k ready inputs d = some d
sockets_loop (suc n) i node k ready inputs d =
    if leb i d.clients.fdmax
    then (do
      d' ← handle_socket node k ready (inputs i) i d
      sockets_loop n (i + 1) node k ready inputs d')
    else some d

-- What `select` returns: -1, 0, or a positive number with the sockets that are ready.
pub data Selection : Type 0 where
  select_error : Selection
  timeout : Selection
  sockets_ready : (ℕ → Bool) → (ℕ → Bool) → Selection

-- `select` takes the other sockets out of the sets.
unfoldable pub selected : Selection → Clients → Ready
selected select_error w = record { temp_rfds = w.rfds; temp_wfds = w.wfds }
selected timeout w = record { temp_rfds = λ i. false; temp_wfds = λ i. false }
selected (sockets_ready r s) w = record {
  temp_rfds = λ i. w.rfds i && r i;
  temp_wfds = λ i. w.wfds i && s i;
}

-- The blocks of `sel_return == -1` and `sel_return == 0`.
unfoldable pub on_selection : Node → Selection → List ℕ → Daemon → Option Daemon
on_selection node select_error unset d = none
on_selection node timeout unset d = do
  e ← on_timeout node.dl node.my_node_id unset d.engine
  some (record d { engine = e })
on_selection node (sockets_ready r s) unset d = some d

-- The body of `while (1)`. No descriptor is `max_connections` or more.
unfoldable pub engine_round :
    Node → Sockets → Selection → List ℕ → (ℕ → Input) → Daemon → Option Daemon
engine_round node k selection unset inputs d = do
  d' ← on_selection node selection unset d
  sockets_loop max_connections 0 node k (selected selection d.clients) inputs d'

-- A variable of the file scope is all zeros.
abbrev pub blank_connection : TcpConnection
blank_connection = record {
  request = zeros max_buf;
  request_index = 0;
  response = zeros max_buf;
  response_index = 0;
  method = zeros max_buf;
  name_length = zeros max_buf;
  name = zeros max_buf;
  path_length = zeros max_buf;
  path = zeros max_buf;
  status = 0;
}

-- What the system does as the server sockets are made: `socket`, `bind` to a port, and `listen`.
pub record Setup : Type 0 where
  pub udp_socket : Option ℕ
  pub udp_bind : ℕ → Bool
  pub tcp_socket : Option ℕ
  pub tcp_bind : ℕ → Bool
  pub tcp_listen : Bool

-- `htons` keeps 16 bits.
unfoldable pub flooding_engine_create : Setup → ℕ → Option ℕ
flooding_engine_create setup udp_port = do
  udp_sock ← setup.udp_socket
  defined (setup.udp_bind (udp_port % 2 ^ 16))
  some udp_sock

unfoldable pub flask_engine_create : Setup → ℕ → Option ℕ
flask_engine_create setup tcp_port = do
  tcp_sock ← setup.tcp_socket
  defined (setup.tcp_bind (tcp_port % 2 ^ 16))
  defined setup.tcp_listen
  some tcp_sock

-- The sets and the counts of `create_engine`.
abbrev pub fresh_clients : Sockets → (ℕ → Bool) → Clients
fresh_clients k is_open = record {
  rfds = λ i. i == k.udp_sock || i == k.tcp_sock;
  wfds = λ i. false;
  nfds = 5;
  fdmax = max k.udp_sock k.tcp_sock;
  connections = λ i. blank_connection;
  is_open = is_open;
  replies = [];
}

-- `is_open` says which descriptors are open.
unfoldable pub create_engine : Setup → (ℕ → Bool) → ℕ → ℕ → Option (Sockets × Clients)
create_engine setup is_open udp_port tcp_port = do
  udp_sock ← flooding_engine_create setup udp_port
  tcp_sock ← flask_engine_create setup tcp_port
  let k : Sockets = record { udp_sock = udp_sock; tcp_sock = tcp_sock }
  some (k, fresh_clients k is_open)

-- `dl.links[0]`; an entry that was never set is all zeros.
abbrev pub first_link : DirectLinks → LinkEntry
first_link [] = record { id = 0; host = []; local_p = 0; route_p = 0; server_p = 0 }
first_link (l ∷ ls) = l

-- `main`, and `engine_event` up to its loop, from the bytes of the two files. `spare` is the number of words
-- behind the array `tokens` of `load_node_conf` that hold nothing.
unfoldable pub start :
    ℕ → Setup → (ℕ → Bool) → List ℕ → List ℕ → CString → Option (Node × Sockets × Daemon)
start spare setup is_open conffile filefile hostname = do
  (dl, rt, uri) ← load_node_conf spare conffile hostname
  let my_node_id = (first_link dl).id
  (ol, gol) ← load_node_file filefile [] init_hash my_node_id
  (k, w) ← create_engine setup is_open (first_link dl).route_p (first_link dl).local_p
  some (
    record { dl = dl; my_node_id = my_node_id; my_uri = uri },
    k,
    record {
      engine = record {
        net = record { rt = rt; gol = gol; sent = [] };
        ol = ol;
        sequence_number = 0;
        iterations = retransmit_time + 1;
      };
      clients = w;
      filefile = filefile;
    },
  )
