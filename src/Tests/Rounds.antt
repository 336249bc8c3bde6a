-- ===== src/Tests/Rounds.antt =====
-- Rounds of the daemon of a node with one neighbour.
use p.Prelude.{
  zero, suc, str_eq, ℕ, ◌≤◌, ◌≡◌, ◌≢◌, refl, Bool, true, false, [], ◌∷◌, some, arith, ◌==◌,
}
use p.Text.{codes}
use p.Tables.{LinkEntry}
use p.Routing.{status_down, get_routing_entry, lookup_link_entry_node_id}
use p.Flooding.Routed.{HopsLinked, PathsUp, hash_add-PathsUp}
use p.HashSet.{init_hash, get_paths, get_paths_loop, hash_index}
use p.HashSet.Hash.{super_fast_hash, hash_final, hash_rest, hash_loop, hash_round}
use p.HashSet.Chain.{paths_of}
use p.HashSet.Invariant.{view, init_hash-IsValid}
use p.Flooding.{failed}
use p.Loader.Conf.{conf_text}
use p.Web.Clients.{bytes_read, taken, max_connections, new_client_handler}
use p.Daemon.{
  Sockets, Daemon, Input, recv_handler, Ready, sockets_ready, selected, handle_socket, on_selection,
  sockets_loop, engine_round, fresh_clients, Setup, start,
}
use p.Daemon.Loop.{sockets_loop-enough}
use p.Daemon.Keeps.{node_of, IsDaemon}
use p.Daemon.Runs.{
  Rounds, begin, next, start-IsDaemon, Rounds-IsDaemon, Rounds-routes, Rounds-refuses,
}
use p.Tests.Data
use p.Tests.Data.{
  own_link, next_link, two_links, two_nodes, two_nodes-IsTable, lion, at_three, with_lion,
  with_lion-IsValid, adding_lion,
}
use p.Tests.Loader.{uri, links_fit, links_differ, naming, nothing_listed}

abbrev pub sockets : Sockets
sockets = record { udp_sock = 3; tcp_sock = 4 }

abbrev setup : Setup
setup = record {
  udp_socket = some 3;
  udp_bind = λ port. true;
  tcp_socket = some 4;
  tcp_bind = λ port. true;
  tcp_listen = true;
}

start-IsDaemon_example :
    (d : Daemon) × (start 1 setup (λ i. true) (conf_text two_links) [] (codes "a")
      ≡ some (node_of own_link (next_link ∷ []) uri, sockets, d))
    × IsDaemon two_links d
    × (d.clients.nfds ≡ 5)
start-IsDaemon_example =
    start-IsDaemon 1 own_link (next_link ∷ []) setup (λ i. true) sockets [] (codes "a") uri []
      init_hash (omega arith) links_fit links_differ (omega arith) naming nothing_listed
      (record { udp = refl; udp_bound = refl; tcp = refl; tcp_bound = refl; listening = refl })
      (omega arith) (omega arith)

-- A daemon that has counted 1024 descriptors.
abbrev full : Daemon
full = record {
  engine = record {
    net = record Data.start { gol = with_lion };
    ol = [];
    sequence_number = 0;
    iterations = 5;
  };
  clients = record (fresh_clients sockets (λ i. true)) { nfds = 1024; fdmax = 4 };
  filefile = [];
}

two_hops : HopsLinked two_links two_nodes
unfolding lookup_link_entry_node_id
two_hops zero lt = refl
two_hops (suc zero) lt = refl
two_hops (suc (suc j)) lt = absurd (omega arith)

nothing_known : PathsUp two_nodes init_hash
unfolding init_hash view paths_of
nothing_known q = tt

lion_known : PathsUp two_nodes with_lion
lion_known =
    hash_add-PathsUp two_nodes init_hash with_lion lion 3 2 init_hash-IsValid
      (1, omega arith, refl, omega arith) nothing_known adding_lion

full-IsDaemon : IsDaemon two_links full
full-IsDaemon = record {
  engine = record {
    state = record { table = two_nodes-IsTable; objects = with_lion-IsValid };
    due = omega arith;
  };
  routes = record {
    valid = with_lion-IsValid;
    hops = two_hops;
    paths = lion_known;
    stored = tt;
    some_entry = omega arith;
    home_is = refl;
    home_up = omega arith;
    apart = (omega arith, tt);
  };
  fdmax = omega arith;
  nfds = omega arith;
}

abbrev pub silence : ℕ → Input
silence i = record {
  arrival = failed;
  accepted = some 5;
  reception = bytes_read [];
  sending = taken false;
}

-- A new client is there.
abbrev knock : ℕ → Bool
knock i = i == 4

knocking :
    engine_round
      (node_of own_link (next_link ∷ []) uri)
      sockets
      (sockets_ready knock (λ i. false))
      []
      silence
      full
    ≡ some full
unfolding engine_round on_selection selected sockets_loop handle_socket recv_handler
    new_client_handler
knocking = refl

knocked : Rounds own_link (next_link ∷ []) uri sockets full full
knocked = next (sockets_ready knock (λ i. false)) [] silence begin (λ j. tt) knocking

Rounds-refuses_example : new_client_handler (some 5) full.clients ≡ some (full.clients, false)
Rounds-refuses_example =
    Rounds-refuses own_link (next_link ∷ []) uri sockets full full (some 5) full-IsDaemon refl
      knocked

Rounds-IsDaemon_example : IsDaemon two_links full × (1024 ≤ 1024)
Rounds-IsDaemon_example =
    Rounds-IsDaemon own_link (next_link ∷ []) uri sockets full full full-IsDaemon knocked

lion_path : get_paths with_lion lion ≡ at_three ∷ []
unfolding get_paths get_paths_loop init_hash str_eq hash_index super_fast_hash hash_final hash_rest
    hash_loop hash_round
lion_path = refl

Rounds-routes_example :
    (i : ℕ) × (l : LinkEntry) × (get_routing_entry two_nodes 3 ≡ some i)
    × ((two_nodes.table i).node_status ≢ status_down)
    × (lookup_link_entry_node_id two_links (two_nodes.table i).nexthop ≡ some l)
Rounds-routes_example =
    Rounds-routes own_link (next_link ∷ []) uri sockets full full lion at_three [] full-IsDaemon
      knocked lion_path

abbrev all_ready : Ready
all_ready = record { temp_rfds = knock; temp_wfds = λ i. false }

sockets_loop-enough_example :
    sockets_loop 5000 0 (node_of own_link (next_link ∷ []) uri) sockets all_ready silence full
    ≡ sockets_loop max_connections 0
        (node_of own_link (next_link ∷ []) uri)
        sockets
        all_ready
        silence
        full
sockets_loop-enough_example =
    sockets_loop-enough own_link (next_link ∷ []) uri sockets max_connections 5000 0 all_ready
      silence full (λ j. tt) full-IsDaemon (omega arith) (omega arith)
