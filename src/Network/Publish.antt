-- ===== src/Network/Publish.antt =====
-- rd/flooding_engine.c and rd/flask_engine.c: a client asks a node for an object that another node has.
use p.Prelude.{
  ℕ, ◌^◌, ◌≤◌, ◌<◌, ◌≡◌, ◌≢◌, refl, ap, ◌∙◌, sym, Bool, true, List, [], ◌∷◌, some, length,
  get_elem?, CString, Option-cases, inl, inr,
}
use p.Text.{codes}
use p.Tables.{LinkEntry, DirectLinks, LocalObjects, max_buf}
use p.HashSet.Chain.{or_nil}
use p.HashSet.Invariant.{view}
use p.Lsa.{Lsa, lsa_cost, packet_bytes, create_packet}
use p.Lsa.Header.{type_lsa}
use p.Lsa.Learns.{named}
use p.Lsa.Created.{create_packet-Announced}
use p.Lsa.RoundTrip.{Carried}
use p.Routing.{AckChecker, get_routing_entry, lookup_link_entry, lookup_link_entry_node_id}
use p.Routing.Lookup.{get_routing_entry-Found}
use p.Routing.Update.{IsTable}
use p.Flooding.{State, max_lsa_len, datagram, age_lsa, lsa_handler, flood}
use p.Flooding.Nodes.{is_up}
use p.Flooding.Routed.{HopsLinked}
use p.Flooding.Hear.{Hears}
use p.Flooding.Marks.{counted}
use p.Request.{TcpConnection, init_connection}
use p.Request.Fresh.{IsField, named_request}
use p.Web.{Node, Site, buf_size, ok_text}
use p.Web.Clients.{Clients, bytes_read, taken, flask_request_handler, flask_response_handler}
use p.Web.Reply.{IsReply, next_uri, GetReply, away}
use p.Web.Serve.{Serves, serve-get}
use p.Network.{CanHear, to_link, Sent, exchange}

-- The text of an answer fits the arrays, whichever of the links it names.
abbrev pub UrisFit : DirectLinks → CString → Type 0
UrisFit dl name =
    (id : ℕ) (m : LinkEntry)
    → lookup_link_entry_node_id dl id ≡ some m
    → (length (next_uri m name) < buf_size) × IsReply (ok_text (next_uri m name))

-- What a client is answered that asks for an object of a node whose packet was taken in.
record Leads (node : Node) (site : Site) (sender : ℕ) (name : CString) (m : LinkEntry)
    : Type 0 where
  index : ℕ
  entry : get_routing_entry site.net.rt sender ≡ some index
  link : lookup_link_entry_node_id node.dl (site.net.rt.table index).nexthop ≡ some m
  reply : GetReply node site name (ok_text (next_uri m name)) 200

Hears-Leads :
    (node : Node) (site : Site) (l : LinkEntry) (ol : LocalObjects) (lsa : Lsa) (size : ℕ)
    (t : State) (name : CString)
    → Hears node.dl l ol lsa size t site.net
    → HopsLinked node.dl t.rt
    → lsa.sender_node_id ≢ node.my_node_id
    → named name ol ≡ true
    → or_nil (view t.gol name) ≡ []
    → UrisFit node.dl name
    → (m : LinkEntry) × Leads node site lsa.sender_node_id name m
Hears-Leads node site l ol lsa size t name h hops other there new fit =
    let a = h.accepts in
    let k = a.index in
    let inside = (get_routing_entry-Found site.net.rt lsa.sender_node_id k a.found).inside in
    let linked = h.hops hops k inside in
    elim (Option-cases (lookup_link_entry_node_id node.dl (site.net.rt.table k).nexthop)) [
      | inl e ↦ absurd (cc (linked, e))
      | inr (m, e) ↦
          let (short, reply) = fit (site.net.rt.table k).nexthop m e in
          (
            m,
            record {
              index = k;
              entry = a.found;
              link = e;
              reply =
                  away (record { node_id = lsa.sender_node_id; cost = lsa_cost (age_lsa lsa) }) [] k
                    m (ap or_nil (h.learns.views name) ∙ rw (there, new) refl) other a.found e short
                    refl refl;
            },
          )
    ]

-- A node has a well-formed routing table and a count of its checkers; its id and sequence number are words,
-- and its packet and the names in it fit the buffers of a reader. It floods the packet, and a neighbour
-- that is up, whose address the node finds, that can take it in and has links as next hops receives it.
-- Then a client asks that neighbour for an object of the node, for which it had no path; the client was
-- accepted and has sent nothing else, and the request and the uris of the object at the links fit
-- their arrays. No handler has a fault; the packet was sent to the neighbour, which accepts it; and the
-- client is sent the uri of the object at the link that is the next hop for the node, is closed, and no
-- other client changes.
pub publish :
    (own : LinkEntry) (dl : DirectLinks) (ol : LocalObjects) (seq : ℕ) (unset : List ℕ) (s : State)
    (lsa : Lsa) (size : ℕ) (old : List AckChecker) (j : ℕ) (b : LinkEntry) (node : Node)
    (site : Site) (address : CString) (l : LinkEntry) (name : CString) (i : ℕ) (w : Clients)
    (c0 : TcpConnection) (gone : Bool)
    → IsTable (own ∷ dl) s.rt
    → create_packet type_lsa own.id seq (own ∷ dl) ol unset ≡ some (lsa, size)
    → own.id < 2 ^ 32
    → seq < 2 ^ 32
    → length ol < 2 ^ 31
    → length unset ≡ 4
    → size ≤ max_lsa_len
    → Carried ol
    → (s.rt.table 0).checkers_list ≡ counted old (length (own ∷ dl))
    → get_elem? dl j ≡ some b
    → is_up s.rt b.id ≡ true
    → lookup_link_entry (own ∷ dl) b.host ≡ some b
    → CanHear node.dl address l ol lsa site.net
    → HopsLinked node.dl site.net.rt
    → own.id ≢ node.my_node_id
    → named name ol ≡ true
    → or_nil (view site.net.gol name) ≡ []
    → UrisFit node.dl name
    → w.connections i ≡ init_connection c0
    → IsField name
    → length (named_request (codes "RDGET") name) < max_buf
    → (s1 t : State) × (k : ℕ) × (m : LinkEntry) × (w1 w' : Clients) × (flood type_lsa
          (own ∷ dl)
          ol
          own.id
          seq
          unset
          s
        ≡ some s1)
      × Sent (to_link b lsa size) s1
      × (lsa_handler (datagram (packet_bytes lsa) address) node.dl site.net ≡ some (t, true))
      × (get_routing_entry t.rt own.id ≡ some k)
      × (lookup_link_entry_node_id node.dl (t.rt.table k).nexthop ≡ some m)
      × (flask_request_handler node
            (bytes_read (named_request (codes "RDGET") name))
            i
            (record site { net = t })
            w
          ≡ some (record site { net = t }, w1, true))
      × (flask_response_handler (taken gone) i w1 ≡ some w')
      × Serves i (ok_text (next_uri m name)) w w'
publish own dl ol seq unset s lsa size old j b node site address l name i w c0 gone v made id word
      few four fits carried list at up reached hear hops other there new fit fresh field short =
    let (s1, s2, t, run, sent, heard, hears, cost, acked, owns, kept, quiet) =
      exchange own dl ol seq unset s lsa size v made id word few four fits carried old j b node.dl
        address l site.net list at up reached hear in
    let sender = (create_packet-Announced (own ∷ dl) ol unset own.id seq lsa size made).sender in
    let site' : Site = record site { net = t } in
    let (m, leads) =
      Hears-Leads node site' l ol lsa size site.net name hears hops (λ e. other (sym sender ∙ e))
        there new fit in
    let (small, proper) = fit (t.rt.table leads.index).nexthop m leads.link in
    let (w1, w', asked, answered, served) =
      serve-get node i site' w c0 name (ok_text (next_uri m name)) 200 gone fresh hears.learns.valid
        field short leads.reply proper in
    (
      s1,
      t,
      leads.index,
      m,
      w1,
      w',
      run,
      sent,
      heard,
      ap (get_routing_entry t.rt) (sym sender) ∙ leads.entry,
      leads.link,
      asked,
      answered,
      served,
    )
