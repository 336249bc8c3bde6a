-- ===== src/Daemon/Keeps.antt =====
-- rd/engine_actions.c: what the handlers of one socket keep, whatever it gives.
use p.Prelude.{
  ℕ, ◌≤◌, ◌<◌, ◌≡◌, ◌≢◌, ap, ◌∙◌, sym, subst, Bool, true, ◌&&◌, ◌∷◌, some, arith, ◌==◌, CString,
  Option-cases, Bool-cases, inl, inr, ◌>>=◌, if◌then◌else◌,
}
use mathlib.Core.Option.{some-injective}
use p.Tables.{LinkEntry, DirectLinks, LocalObjects}
use p.Routing.Update.{IsTable}
use p.Flooding.{State, Arrival, failed, datagram, rt_recvfrom, lsa_handler}
use p.Flooding.Wellformed.{IsState}
use p.Engine.Runs.{IsEngine, IsBytes, lsa_handler-IsState}
use p.Engine.Routed.{lsa_handler-IsRouted}
use p.Routing.{RoutingTable, status_down, lookup_link_entry_node_id}
use p.Flooding.Routed.{HasLink, NodeUp, HopsLinked, PathsUp, IsRouted}
use p.Web.{Node}
use p.Web.Clients.{
  max_connections, new_client_handler, flask_request_handler, flask_response_handler,
}
use p.Web.Counts.{
  flask_request_handler-Keeps, flask_response_handler-Keeps, new_client_handler-Counts,
}
use p.Daemon.{
  Sockets, Daemon, site_of, with_site, Input, recv_handler, send_handler, clear_wfds, Ready,
  handle_socket,
}

-- What the daemon of these links knows of itself.
abbrev pub node_of : LinkEntry → DirectLinks → CString → Node
node_of own dl uri = record { dl = own ∷ dl; my_node_id = own.id; my_uri = uri }

-- The engine is well formed, every next hop is a link, the first path of every object leads to a node that
-- is up, every local object is in the hash table, the node itself is up, and the clients and their
-- descriptors are counted within the arrays.
pub record IsDaemon (dl : DirectLinks) (d : Daemon) : Type 0 where
  pub engine : IsEngine dl d.engine
  pub routes : IsRouted dl d.engine.ol d.engine.net
  pub fdmax : d.clients.fdmax < max_connections
  pub nfds : d.clients.nfds ≤ max_connections

-- The daemon is well formed, and the count of clients is not lower.
pub record Advances (dl : DirectLinks) (d d' : Daemon) : Type 0 where
  pub is : IsDaemon dl d'
  pub count : d.clients.nfds ≤ d'.clients.nfds

abbrev pub IsArrival : Arrival → Type 0
IsArrival failed = Unit
IsArrival (datagram bytes address) = IsBytes bytes

lsa_handler-arrival :
    {ol : LocalObjects} (a : Arrival) (dl : DirectLinks) (s s' : State) (ok : Bool)
    → IsArrival a
    → IsState dl s
    → IsRouted dl ol s
    → lsa_handler a dl s ≡ some (s', ok)
    → IsState dl s' × IsRouted dl ol s'
lsa_handler-arrival failed dl s s' ok h v r e = absurd (unfold lsa_handler rt_recvfrom in cc e)
lsa_handler-arrival (datagram bytes address) dl s s' ok h v r e = (
  lsa_handler-IsState bytes address dl s s' ok h v e,
  lsa_handler-IsRouted bytes address dl s s' ok h v.table r e,
)

pub own-NodeUp :
    {ol : LocalObjects} (own : LinkEntry) (dl : DirectLinks) (s : State)
    → IsRouted (own ∷ dl) ol s
    → NodeUp s.rt own.id
own-NodeUp own dl s v = (0, v.some_entry, v.home_is, v.home_up)

pub own-HasLink : (own : LinkEntry) (dl : DirectLinks) → HasLink (own ∷ dl) own.id
unfolding lookup_link_entry_node_id
own-HasLink own dl = ground arith

module _ (own : LinkEntry) (dl : DirectLinks) (uri : CString) (k : Sockets) where
  recv_handler-Advances :
      (input : Input) (i : ℕ) (d d' : Daemon) (ok : Bool)
      → IsArrival input.arrival
      → IsDaemon (own ∷ dl) d
      → recv_handler (node_of own dl uri) k input i d ≡ some (d', ok)
      → Advances (own ∷ dl) d d'
  unfolding recv_handler
  recv_handler-Advances input i d d' ok h v e =
      let node = node_of own dl uri in
      elim (Bool-cases (i == k.udp_sock)) [
        | inl a ↦ elim (Option-cases (lsa_handler input.arrival (own ∷ dl) d.engine.net)) [
          | inl b ↦ absurd (cc (e, a, b))
          | inr ((s, ok'), b) ↦
              let same : record d { engine = record d.engine { net = s } } ≡ d' = ground arith in
              let (state, routes) =
                lsa_handler-arrival input.arrival (own ∷ dl) d.engine.net s ok' h v.engine.state
                  v.routes b in
              subst (Advances (own ∷ dl) d) same (record {
                is = record {
                  engine = record { state = state; due = v.engine.due };
                  routes = routes;
                  fdmax = v.fdmax;
                  nfds = v.nfds;
                };
                count = omega arith;
              })
        ]
        | inr a ↦ elim (Bool-cases (i == k.tcp_sock)) [
          | inl t ↦ elim (Option-cases (new_client_handler input.accepted d.clients)) [
            | inl b ↦ absurd (cc (e, a, t, b))
            | inr ((w, ok'), b) ↦
                let same : record d { clients = w } ≡ d' = ground arith in
                let c = new_client_handler-Counts input.accepted d.clients w ok' b in
                subst (Advances (own ∷ dl) d) same (record {
                  is = record {
                    engine = v.engine;
                    routes = v.routes;
                    fdmax = c.within v.fdmax;
                    nfds = ground (arith, c.grows, c.accepts, v.nfds);
                  };
                  count = ground (arith, c.grows);
                })
          ]
          | inr t ↦
              elim (Option-cases
                (flask_request_handler node input.reception i (site_of d) d.clients)) [
                  | inl b ↦ absurd (cc (e, a, t, b))
                  | inr ((site, w, ok'), b) ↦
                      let same : with_site site w d ≡ d' = ground arith in
                      let (net, c) =
                        flask_request_handler-Keeps node input.reception i (site_of d) site
                          d.clients w ok' b in
                      let state : IsState (own ∷ dl) site.net = record {
                        table = subst (IsTable (own ∷ dl)) (sym net.routes) v.engine.state.table;
                        objects = net.valid v.engine.state.objects;
                      } in
                      subst (Advances (own ∷ dl) d) same (record {
                        is = record {
                          engine = record { state = state; due = v.engine.due };
                          routes = record {
                            valid = state.objects;
                            hops = subst (HopsLinked (own ∷ dl)) (sym net.routes) v.routes.hops;
                            paths =
                                subst (λ rt. PathsUp rt site.net.gol) (sym net.routes)
                                  (net.paths d.engine.net.rt
                                    (own-NodeUp own dl d.engine.net v.routes) v.routes.valid
                                    v.routes.paths);
                            stored = net.stored v.routes.valid v.routes.stored;
                            some_entry =
                                subst (λ rt. 0 < rt.num_entry) (sym net.routes) v.routes.some_entry;
                            home_is =
                                ap (λ (rt : RoutingTable). (rt.table 0).id) net.routes
                                ∙ v.routes.home_is;
                            home_up =
                                subst
                                  (λ (rt : RoutingTable). (rt.table 0).node_status ≢ status_down)
                                  (sym net.routes) v.routes.home_up;
                            apart = v.routes.apart;
                          };
                          fdmax = omega (arith, c.fdmax, v.fdmax);
                          nfds = omega (arith, c.nfds, v.nfds);
                        };
                        count = omega (arith, c.nfds);
                      })
                ]
        ]
      ]

  send_handler-Advances :
      (input : Input) (i : ℕ) (d d' : Daemon)
      → IsDaemon (own ∷ dl) d
      → send_handler input i d ≡ some d'
      → Advances (own ∷ dl) d (clear_wfds i d')
  unfolding send_handler
  send_handler-Advances input i d d' v e =
      elim (Option-cases (flask_response_handler input.sending i d.clients)) [
        | inl b ↦ absurd (cc (e, b))
        | inr (w, b) ↦
            let same : record d { clients = w } ≡ d' = ground arith in
            let c = flask_response_handler-Keeps input.sending i d.clients w b in
            subst (λ x. Advances (own ∷ dl) d (clear_wfds i x)) same
              (record {
                is = record {
                  engine = v.engine;
                  routes = v.routes;
                  fdmax = omega (arith, c.fdmax, v.fdmax);
                  nfds = omega (arith, c.nfds, v.nfds);
                };
                count = omega (arith, c.nfds);
              })
      ]

  pub Advances-trans :
      (a b c : Daemon) → Advances (own ∷ dl) a b → Advances (own ∷ dl) b c → Advances (own ∷ dl) a c
  Advances-trans a b c h1 h2 = record { is = h2.is; count = omega (arith, h1.count, h2.count) }

  sending-Advances :
      (ready : Ready) (input : Input) (i : ℕ) (d d' : Daemon) (go : Bool)
      → IsDaemon (own ∷ dl) d
      → (if go && ready.temp_wfds i
          then (do d2 ← send_handler input i d; some (clear_wfds i d2))
          else some d)
        ≡ some d'
      → Advances (own ∷ dl) d d'
  sending-Advances ready input i d d' go v e = elim (Bool-cases (go && ready.temp_wfds i)) [
    | inr a ↦
        subst (Advances (own ∷ dl) d) (some-injective _ _ (rw a at e))
          (record { is = v; count = omega arith })
    | inl a ↦ elim (Option-cases (send_handler input i d)) [
      | inl b ↦ absurd (cc (e, a, b))
      | inr (d2, b) ↦
          subst (Advances (own ∷ dl) d) (some-injective _ _ (rw (a, b) at e))
            (send_handler-Advances input i d d2 v b)
    ]
  ]

  pub handle_socket-Advances :
      (ready : Ready) (input : Input) (i : ℕ) (d d' : Daemon)
      → IsArrival input.arrival
      → IsDaemon (own ∷ dl) d
      → handle_socket (node_of own dl uri) k ready input i d ≡ some d'
      → Advances (own ∷ dl) d d'
  unfolding handle_socket
  handle_socket-Advances ready input i d d' h v e = elim (Bool-cases (ready.temp_rfds i)) [
    | inr a ↦ sending-Advances ready input i d d' true v (rw a at e)
    | inl a ↦ elim (Option-cases (recv_handler (node_of own dl uri) k input i d)) [
      | inl b ↦ absurd (cc (e, a, b))
      | inr ((d1, go), b) ↦
          let first = recv_handler-Advances input i d d1 go h v b in
          Advances-trans d d1 d' first
            (sending-Advances ready input i d1 d' go first.is (rw (a, b) at e))
    ]
  ]
