-- ===== src/Daemon/Runs.antt =====
-- rd/rd.c and rd/engine_actions.c: runs of the daemon from its start, with timeouts, packets and requests
-- in any order.
use p.Prelude.{
  ℕ, ◌+◌, ◌≤◌, ◌<◌, ◌≡◌, ◌≢◌, refl, subst, sym, ◌∙◌, Bool, true, false, List, [], ◌∷◌, Option, some,
  arith, length, leb, ◌%◌, ◌^◌, ◌-◌, CString, Option-cases, inl, inr,
}
use p.Tables.{LinkEntry, DirectLinks, LocalObjects, max_nodes}
use p.HashSet.{NodePath, get_paths, LisoHash, init_hash}
use p.Flooding.Routed.{HeadUp}
use p.Routing.Update.{IsTable}
use p.Routing.Lookup.{get_routing_entry-Found, get_routing_entry-none}
use p.HashSet.Invariant.{get_paths-view, init_hash-IsValid}
use p.Routing.{
  RoutingTable, status_down, retransmit_time, get_routing_entry, lookup_link_entry_node_id,
}
use p.Loader.{file_lines, own_uri, load_node_file}
use p.Loader.Conf.{conf_text, AreLinks, load_node_conf-conf_text}
use p.Loader.Filled.{AreDistinct}
use p.Web.Clients.{max_connections, new_client_handler}
use p.Daemon.{
  Sockets, Daemon, Input, Selection, engine_round, Setup, flooding_engine_create,
  flask_engine_create, fresh_clients, create_engine, start,
}
use p.Daemon.Loads.{object_loop-LoadsObjects, init_hash-PathsUp}
use p.Daemon.Loop.{engine_round-Advances}
use p.Daemon.Keeps.{node_of, IsDaemon, IsArrival, Advances}

-- The rounds of `engine_event` that do not fault, one after the other. The bytes of a datagram are less than
-- 256.
pub data Rounds (own : LinkEntry) (dl : DirectLinks) (uri : CString) (k : Sockets) (d : Daemon)
    : Daemon → Type 0 where
  begin : Rounds own dl uri k d d
  next :
      {m d' : Daemon} (selection : Selection) (unset : List ℕ) (inputs : ℕ → Input)
      → Rounds own dl uri k d m
      → ((j : ℕ) → IsArrival (inputs j).arrival)
      → engine_round (node_of own dl uri) k selection unset inputs m ≡ some d'
      → Rounds own dl uri k d d'

module _ {own : LinkEntry} {dl : DirectLinks} {uri : CString} {k : Sockets} where
  Rounds-Advances :
      {d d' : Daemon} → IsDaemon (own ∷ dl) d → Rounds own dl uri k d d' → Advances (own ∷ dl) d d'
  Rounds-Advances v begin = record { is = v; count = omega arith }
  Rounds-Advances {d} {d'} v (next {m} selection unset inputs run h e) =
      let before = Rounds-Advances v run in
      let last = engine_round-Advances own dl uri k selection unset inputs m d' h before.is e in
      record { is = last.is; count = omega (arith, before.count, last.count) }

-- The server sockets can be made at the ports of the own line.
pub record Makes (setup : Setup) (own : LinkEntry) (k : Sockets) : Type 0 where
  pub udp : setup.udp_socket ≡ some k.udp_sock
  pub udp_bound : setup.udp_bind (own.route_p % 2 ^ 16) ≡ true
  pub tcp : setup.tcp_socket ≡ some k.tcp_sock
  pub tcp_bound : setup.tcp_bind (own.local_p % 2 ^ 16) ≡ true
  pub listening : setup.tcp_listen ≡ true

-- A daemon is started with the text of a configuration of at most 150 links with different ids, a list of
-- objects that can be loaded, and two server sockets below 1024 that can be made at the ports of the own
-- line, the third number for UDP and the fourth for TCP, where at least one word behind the array `tokens`
-- holds nothing: the start succeeds, with 5 descriptors counted, both tables are well formed, every next hop is a
-- link, the first path of every object leads to a node that is up, every local object is in the hash
-- table, the node itself is up, the count of timeouts is within the flooding period, and the count of
-- descriptors and the highest descriptor are within their bounds.
pub start-IsDaemon :
    (spare : ℕ) (own : LinkEntry) (dl : DirectLinks) (setup : Setup) (is_open : ℕ → Bool)
    (k : Sockets) (filefile : List ℕ) (hostname uri : CString) (ol : LocalObjects) (gol : LisoHash)
    → 0 < spare
    → AreLinks (own ∷ dl)
    → AreDistinct (own ∷ dl)
    → length (own ∷ dl) ≤ max_nodes
    → own_uri (own ∷ dl) hostname ≡ some uri
    → load_node_file filefile [] init_hash own.id ≡ some (ol, gol)
    → Makes setup own k
    → k.udp_sock < max_connections
    → k.tcp_sock < max_connections
    → (d : Daemon) × (start spare setup is_open (conf_text (own ∷ dl)) filefile hostname
        ≡ some (node_of own dl uri, k, d))
      × IsDaemon (own ∷ dl) d
      × (d.clients.nfds ≡ 5)
unfolding start create_engine flooding_engine_create flask_engine_create
start-IsDaemon spare own dl setup is_open k filefile hostname uri ol gol roomy links distinct few
      named objects made udp tcp =
    let (rt, conf, table, hops, up) =
      load_node_conf-conf_text spare (own ∷ dl) hostname uri roomy links distinct few named in
    let pos : 0 < rt.num_entry = omega (arith, table.links) in
    let home = table.linked 0 own refl in
    let loads =
      object_loop-LoadsObjects (file_lines filefile) [] ol init_hash gol own.id rt
        (0, pos, home, up 0 pos)
        (record { valid = init_hash-IsValid; paths = init_hash-PathsUp rt; stored = tt })
        (unfold load_node_file in objects) in
    (
      record {
        engine = record {
          net = record { rt = rt; gol = gol; sent = [] };
          ol = ol;
          sequence_number = 0;
          iterations = retransmit_time + 1;
        };
        clients = fresh_clients k is_open;
        filefile = filefile;
      },
      rw (conf, objects, made.udp, made.udp_bound, made.tcp, made.tcp_bound, made.listening) refl,
      record {
        engine = record {
          state = record { table = table; objects = loads.valid };
          due = omega arith;
        };
        routes = record {
          valid = loads.valid;
          hops = hops;
          paths = loads.paths;
          stored = loads.stored;
          some_entry = pos;
          home_is = home;
          home_up = up 0 pos;
          apart = distinct.0;
        };
        fdmax = omega (arith, udp, tcp);
        nfds = omega arith;
      },
      refl,
    )

-- After any rounds of the loop that do not fault, with timeouts, packets, clients and requests in any order,
-- from a well-formed daemon: both tables are well formed, every next hop is a link, the first path of
-- every object leads to a node that is up, every local object is in the hash table, the node itself is
-- up, the count of timeouts is within the flooding period, the count of descriptors and the highest
-- descriptor are within their bounds, and the former is not lower.
pub Rounds-IsDaemon :
    (own : LinkEntry) (dl : DirectLinks) (uri : CString) (k : Sockets) (d d' : Daemon)
    → IsDaemon (own ∷ dl) d
    → Rounds own dl uri k d d'
    → IsDaemon (own ∷ dl) d' × (d.clients.nfds ≤ d'.clients.nfds)
Rounds-IsDaemon own dl uri k d d' v r = ((Rounds-Advances v r).is, (Rounds-Advances v r).count)

HeadUp-entry :
    (dl : DirectLinks) (rt : RoutingTable) (p : NodePath) (ps : List NodePath)
    → IsTable dl rt
    → HeadUp rt (p ∷ ps)
    → (i : ℕ) × (get_routing_entry rt p.node_id ≡ some i) × ((rt.table i).node_status ≢ status_down)
HeadUp-entry dl rt p ps t (k, lt, same, up) = elim (Option-cases (get_routing_entry rt p.node_id)) [
  | inl e ↦ absurd (get_routing_entry-none rt p.node_id k e lt same)
  | inr (i, e) ↦
      let found = get_routing_entry-Found rt p.node_id i e in
      let at : k ≡ i = t.distinct k i lt found.inside (same ∙ sym found.same) in
      (i, e, subst (λ j. (rt.table j).node_status ≢ status_down) at up)
]

-- After any rounds that do not fault from a well-formed daemon, where `get_paths` leads to a node: that node
-- has an entry, which is up, and its next hop is a link, so `build_response` follows no null pointer.
pub Rounds-routes :
    (own : LinkEntry) (dl : DirectLinks) (uri : CString) (k : Sockets) (d d' : Daemon)
    (name : CString) (p : NodePath) (ps : List NodePath)
    → IsDaemon (own ∷ dl) d
    → Rounds own dl uri k d d'
    → get_paths d'.engine.net.gol name ≡ p ∷ ps
    → (i : ℕ) × (l : LinkEntry) × (get_routing_entry d'.engine.net.rt p.node_id ≡ some i)
      × ((d'.engine.net.rt.table i).node_status ≢ status_down)
      × (lookup_link_entry_node_id (own ∷ dl) (d'.engine.net.rt.table i).nexthop ≡ some l)
Rounds-routes own dl uri k d d' name p ps v r found =
    let s = d'.engine.net in
    let is = (Rounds-Advances v r).is in
    let routes = is.routes in
    let head : HeadUp s.rt (p ∷ ps) =
      subst (HeadUp s.rt) (sym (get_paths-view s.gol name routes.valid) ∙ found)
        (routes.paths name) in
    let (i, e, up) = HeadUp-entry (own ∷ dl) s.rt p ps is.engine.state.table head in
    let inside = (get_routing_entry-Found s.rt p.node_id i e).inside in
    elim (Option-cases (lookup_link_entry_node_id (own ∷ dl) (s.rt.table i).nexthop)) [
      | inl none_such ↦ absurd (cc (routes.hops i inside, none_such))
      | inr (l, at) ↦ (i, l, e, up, at)
    ]

-- From a well-formed daemon whose count of descriptors has come to 1024, and after any rounds that do not
-- fault, whatever clients have left in them: every new client is refused, and nothing changes by it.
pub Rounds-refuses :
    (own : LinkEntry) (dl : DirectLinks) (uri : CString) (k : Sockets) (d d' : Daemon)
    (accepted : Option ℕ)
    → IsDaemon (own ∷ dl) d
    → d.clients.nfds ≡ max_connections
    → Rounds own dl uri k d d'
    → new_client_handler accepted d'.clients ≡ some (d'.clients, false)
unfolding new_client_handler
Rounds-refuses own dl uri k d d' accepted v full r =
    let a = Rounds-Advances v r in
    let shut : leb d'.clients.nfds (max_connections - 1) ≡ false = ground (arith, a.count, full) in
    rw shut refl
