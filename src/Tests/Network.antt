-- ===== src/Tests/Network.antt =====
-- A packet on its way from node 1 through node 3 to node 7.
use p.Prelude.{
  List, ℕ, zero, suc, ◌≡◌, refl, true, [], ◌∷◌, some, arith, ◌==◌, get_elem?, if◌then◌else◌, str_eq,
}
use p.Tables.{LinkEntry, DirectLinks}
use p.HashSet.{init_hash}
use p.HashSet.Invariant.{init_hash-IsValid}
use p.Lsa.{packet_bytes, lsa_cost}
use p.Lsa.Header.{type_lsa}
use p.Routing.{
  RoutingTable, get_routing_entry, entry_loop, lookup_link_entry, host_loop,
  lookup_link_entry_node_id,
}
use p.Routing.Update.{IsTable}
use p.Flooding.{State, datagram, age_lsa, lsa_handler, flood, retransmit_missing}
use p.Flooding.Nodes.{is_up}
use p.Flooding.Hear.{ack_of, Hears}
use p.Flooding.Marks.{marked, Owns}
use p.Flooding.Owed.{done_link, owed}
use p.Flooding.Own.{flood-settles}
use p.Flooding.Settle.{answers}
use p.Network.Travel.{Stop, Travels, travel}
use p.Network.{CanHear, to_link, Sent, exchange}
use p.Tests.Data.{own_link, next_link, two_links, zoo, quiet, entry_of, two_nodes-IsTable, start}
use p.Tests.Packets.{unset, zoo_packet, creating}

abbrev pub far_link : LinkEntry
far_link = record next_link { id = 7; host = b'c' ∷ [] }

-- The links of node 3.
abbrev pub middle_links : DirectLinks
middle_links = next_link ∷ own_link ∷ far_link ∷ []

abbrev pub middle_node_at : ℕ → ℕ
middle_node_at i = if i == 0 then 3 else if i == 1 then 1 else 7

abbrev pub middle_nodes : RoutingTable
middle_nodes = record {
  table = λ i. record (entry_of (middle_node_at i) 1) {
    checkers_list =
        some (record { num_links = some 3; checkers = quiet 3 ∷ quiet 1 ∷ quiet 7 ∷ [] });
  };
  num_entry = 3;
}

middle_nodes-IsTable : IsTable middle_links middle_nodes
middle_nodes-IsTable = record {
  bounded = omega arith;
  links = omega arith;
  linked = linked;
  distinct = λ a b ha hb e. ground arith;
  fits = λ i. refl;
  allocated = λ i lt. refl;
  owned = λ i lsa lt e. absurd (cc e);
  pending = λ i lt new up. absurd (omega arith);
}
  where
    linked :
        (i : ℕ) (l : LinkEntry)
        → get_elem? middle_links i ≡ some l
        → (middle_nodes.table i).id ≡ l.id
    linked zero l e = ground arith
    linked (suc zero) l e = ground arith
    linked (suc (suc zero)) l e = ground arith
    linked (suc (suc (suc i))) l e = cc

abbrev pub middle : State
middle = record { rt = middle_nodes; gol = init_hash; sent = [] }

pub middle-CanHear : CanHear middle_links own_link.host own_link zoo zoo_packet middle
unfolding lookup_link_entry host_loop str_eq get_routing_entry entry_loop
middle-CanHear = record {
  state = record { table = middle_nodes-IsTable; objects = init_hash-IsValid };
  known = refl;
  newer = λ k last found held. absurd (cc held);
  place = tt;
  room = unfold init_hash in omega arith;
}

pub next_reached : lookup_link_entry two_links next_link.host ≡ some next_link
unfolding lookup_link_entry host_loop str_eq
next_reached = refl

pub next_up : is_up start.rt 3 ≡ true
unfolding is_up get_routing_entry entry_loop
next_up = refl

exchange_example :
    (s1 : State) × (s2 : State) × (t' : State) × (flood type_lsa two_links zoo 1 5 unset start
      ≡ some s1)
    × Sent (to_link next_link zoo_packet 43) s1
    × (lsa_handler (datagram (packet_bytes zoo_packet) own_link.host) middle_links middle
        ≡ some (t', true))
    × Hears middle_links own_link zoo zoo_packet 43 middle t'
    × (lsa_cost (age_lsa zoo_packet) ≡ 2)
    × (lsa_handler (datagram (packet_bytes (ack_of zoo_packet)) next_link.host) two_links s1
        ≡ some (s2, true))
    × Owns zoo_packet (marked 3 (done_link own_link ∷ owed start.rt (next_link ∷ []))) s2
    × (s2.gol ≡ start.gol)
    × (s2.sent ≡ s1.sent)
exchange_example =
    exchange own_link (next_link ∷ []) zoo 5 unset start zoo_packet 43 two_nodes-IsTable creating
      (omega arith) (omega arith) (omega arith) refl (omega arith) (omega arith)
      (quiet 1 ∷ quiet 3 ∷ []) 0 next_link middle_links own_link.host own_link middle refl refl
      next_up next_reached middle-CanHear

flood-settles_example :
    (s1 : State) × (s2 : State) × (flood type_lsa two_links zoo 1 5 unset start ≡ some s1)
    × (answers two_links zoo_packet (next_link ∷ []) s1 ≡ some s2)
    × (s2.gol ≡ start.gol)
    × (s2.sent ≡ s1.sent)
    × (retransmit_missing 0 two_links 43 1 s2 ≡ some s2)
flood-settles_example =
    flood-settles own_link (next_link ∷ []) zoo 5 unset start zoo_packet 43 two_nodes-IsTable
      creating (quiet 1 ∷ quiet 3 ∷ []) (next_link ∷ []) 43 1 refl (omega arith) (omega arith)
      (omega arith) refl (omega arith) (next_reached, tt)
      (λ up. unfold lookup_link_entry_node_id in refl, tt)

abbrev far_links : DirectLinks
far_links = far_link ∷ next_link ∷ []

abbrev far_nodes : RoutingTable
far_nodes = record {
  table = λ i. entry_of (if i == 0 then 7 else if i == 1 then 3 else 0) 1;
  num_entry = 2;
}

far_nodes-IsTable : IsTable far_links far_nodes
far_nodes-IsTable = record {
  bounded = omega arith;
  links = omega arith;
  linked = linked;
  distinct = λ a b ha hb e. ground arith;
  fits = λ i. refl;
  allocated = λ i lt. refl;
  owned = λ i lsa lt e. absurd (cc e);
  pending = λ i lt new up. absurd (omega arith);
}
  where
    linked :
        (i : ℕ) (l : LinkEntry) → get_elem? far_links i ≡ some l → (far_nodes.table i).id ≡ l.id
    linked zero l e = ground arith
    linked (suc zero) l e = ground arith
    linked (suc (suc i)) l e = cc

abbrev far : State
far = record { rt = far_nodes; gol = init_hash; sent = [] }

far-CanHear : CanHear far_links next_link.host next_link zoo (age_lsa zoo_packet) far
unfolding lookup_link_entry host_loop str_eq get_routing_entry entry_loop age_lsa
far-CanHear = record {
  state = record { table = far_nodes-IsTable; objects = init_hash-IsValid };
  known = refl;
  newer = λ k last found held. absurd (cc held);
  place = omega arith;
  room = unfold init_hash in omega arith;
}

abbrev stops : List Stop
stops =
    record {
      dl = middle_links;
      s = middle;
      address = own_link.host;
      from = own_link;
      via = next_link;
    }
    ∷ record { dl = far_links; s = far; address = next_link.host; from = next_link; via = far_link }
    ∷ []

middle_passes : is_up middle_nodes 7 ≡ true
unfolding is_up get_routing_entry entry_loop
middle_passes = refl

travel_example : Travels zoo zoo_packet 2 stops
travel_example =
    travel two_links zoo unset 1 5 zoo_packet 43 stops creating (omega arith) (omega arith)
      (omega arith) (omega arith) (omega arith) (omega arith) refl (omega arith) (omega arith)
      (middle-CanHear, (1, refl, omega arith, middle_passes), far-CanHear)
