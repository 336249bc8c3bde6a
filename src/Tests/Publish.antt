-- ===== src/Tests/Publish.antt =====
-- A client of node 3 asks for an object of node 1.
use p.Prelude.{
  ℕ, zero, suc, ◌<◌, ◌≡◌, refl, subst, true, false, [], ◌∷◌, some, arith, ◌==◌, length, str_eq,
  Bool-cases, inl, inr,
}
use mathlib.Core.Option.{some-injective}
use p.Text.{codes, decimal, digits}
use p.Tables.{LinkEntry}
use p.HashSet.{init_hash}
use p.HashSet.Chain.{or_nil, paths_of}
use p.HashSet.Invariant.{view}
use p.Lsa.{packet_bytes}
use p.Lsa.Header.{type_lsa}
use p.Lsa.Learns.{named}
use p.Routing.{get_routing_entry, lookup_link_entry_node_id}
use p.Flooding.{State, datagram, lsa_handler, flood}
use p.Flooding.Routed.{HopsLinked}
use p.Request.Fresh.{named_request}
use p.Web.{Node, Site, buf_size, ok_text}
use p.Web.Clients.{Clients, bytes_read, taken, flask_request_handler, flask_response_handler}
use p.Web.Reply.{IsReply, next_uri}
use p.Web.Serve.{Serves}
use p.Daemon.{blank_connection}
use p.Network.{to_link, Sent}
use p.Network.Publish.{UrisFit, publish}
use p.Tests.Data.{lion, own_link, next_link, two_links, zoo, quiet, two_nodes-IsTable, start}
use p.Tests.Packets.{unset, zoo_packet, creating}
use p.Tests.Web.{clients, lion-IsField, asking}
use p.Tests.Network.{
  far_link, middle_links, middle_nodes, middle, middle-CanHear, next_reached, next_up,
}

abbrev middle_node : Node
middle_node = record { dl = middle_links; my_node_id = 3; my_uri = codes "http://b:7027" }

abbrev middle_site : Site
middle_site = record { net = middle; ol = []; filefile = [] }

middle_hops : HopsLinked middle_links middle_nodes
unfolding lookup_link_entry_node_id
middle_hops zero lt = refl
middle_hops (suc zero) lt = refl
middle_hops (suc (suc zero)) lt = refl
middle_hops (suc (suc (suc j))) lt = absurd (omega arith)

abbrev UriFits : LinkEntry → Type 0
UriFits m = (length (next_uri m lion) < buf_size) × IsReply (ok_text (next_uri m lion))

next_fits : UriFits next_link
unfolding decimal digits
next_fits = (omega arith, record { proper = omega arith; fits = omega arith })

own_fits : UriFits own_link
unfolding decimal digits
own_fits = (omega arith, record { proper = omega arith; fits = omega arith })

far_fits : UriFits far_link
unfolding decimal digits
far_fits = (omega arith, record { proper = omega arith; fits = omega arith })

middle_uris : UrisFit middle_links lion
unfolding lookup_link_entry_node_id
middle_uris id m e = elim (Bool-cases (3 == id)) [
  | inl a ↦ subst UriFits (some-injective _ _ (rw a at e)) next_fits
  | inr a ↦ elim (Bool-cases (1 == id)) [
    | inl b ↦ subst UriFits (some-injective _ _ (rw (a, b) at e)) own_fits
    | inr b ↦ elim (Bool-cases (7 == id)) [
      | inl c ↦ subst UriFits (some-injective _ _ (rw (a, b, c) at e)) far_fits
      | inr c ↦ absurd (cc (rw (a, b, c) at e))
    ]
  ]
]

no_lion : or_nil (view init_hash lion) ≡ []
unfolding view paths_of init_hash
no_lion = refl

zoo_has_lion : named lion zoo ≡ true
unfolding str_eq
zoo_has_lion = refl

publish_example :
    (s1 t : State) × (k : ℕ) × (m : LinkEntry) × (w1 w' : Clients) × (flood type_lsa two_links zoo 1
        5 unset start
      ≡ some s1)
    × Sent (to_link next_link zoo_packet 43) s1
    × (lsa_handler (datagram (packet_bytes zoo_packet) own_link.host) middle_links middle
        ≡ some (t, true))
    × (get_routing_entry t.rt 1 ≡ some k)
    × (lookup_link_entry_node_id middle_links (t.rt.table k).nexthop ≡ some m)
    × (flask_request_handler middle_node
          (bytes_read (named_request (codes "RDGET") lion))
          8
          (record middle_site { net = t })
          clients
        ≡ some (record middle_site { net = t }, w1, true))
    × (flask_response_handler (taken false) 8 w1 ≡ some w')
    × Serves 8 (ok_text (next_uri m lion)) clients w'
publish_example =
    publish own_link (next_link ∷ []) zoo 5 unset start zoo_packet 43 (quiet 1 ∷ quiet 3 ∷ []) 0
      next_link middle_node middle_site own_link.host own_link lion 8 clients blank_connection false
      two_nodes-IsTable creating (omega arith) (omega arith) (omega arith) refl (omega arith)
      (omega arith) refl refl next_up next_reached middle-CanHear middle_hops (omega arith)
      zoo_has_lion no_lion middle_uris refl lion-IsField asking
