-- ===== src/Tests/Period.antt =====
-- The theorems on forwarding, retransmission and the flooding period, at a node with three
-- neighbours.
use p.Prelude.{ℕ, zero, suc, ◌≡◌, refl, [], ◌∷◌, some, none, arith, ◌==◌, if◌then◌else◌, get_elem?}
use p.Tables.{LinkEntry, DirectLinks}
use p.HashSet.{init_hash}
use p.HashSet.Invariant.{init_hash-IsValid}
use p.Routing.{AckChecker, AckCheckers, RoutingTable, get_routing_entry, entry_loop}
use p.Routing.Update.{IsTable}
use p.Flooding.{State, flood_received_lsa, retry_link, retransmit_missing}
use p.Flooding.Flood.{Sends, to_each_up}
use p.Flooding.Forward.{all_but, flood_received_lsa-Sends}
use p.Flooding.Retransmit.{GivesUp, retry_link-GivesUp, retransmit_missing_dangles}
use p.Engine.{Engine, age_entry, flood_all}
use p.Flooding.Wellformed.{IsState}
use p.Engine.Period.{Ages, age_entry-Ages, Floods, flood_all-Floods}
use p.Tests.Data.{own_link, next_link, entry_of}
use p.Tests.Daemon.{from_next}

abbrev pub link_to : ℕ → LinkEntry
link_to id = record next_link { id = id }

abbrev pub three_links : DirectLinks
three_links = next_link ∷ link_to 4 ∷ link_to 7 ∷ []

abbrev pub links : DirectLinks
links = own_link ∷ three_links

-- A checker of a link that owes the ACK, after some transmissions.
abbrev pub owing : ℕ → ℕ → AckChecker
owing id retransmit = record { id = id; ack_received = 0; retransmit = retransmit }

abbrev pub owing_list : AckCheckers
owing_list = record {
  num_links = some 4;
  checkers = owing 1 0 ∷ owing 3 3 ∷ owing 4 1 ∷ owing 7 0 ∷ [];
}

abbrev pub node_at : ℕ → ℕ
node_at i = if i == 0 then 1 else if i == 1 then 3 else if i == 2 then 4 else 7

-- The packet of node 3 came through node 7; nodes 3 and 4 owe the ACK for it.
abbrev pub four_nodes : RoutingTable
four_nodes = record {
  table = λ i. record (entry_of (node_at i) 1) {
    lsa = if i == 1 then some from_next else none;
    lsa_size = 20;
    forwarder_id = 7;
    checkers_list = some owing_list;
  };
  num_entry = 4;
}

four_nodes-IsTable : IsTable links four_nodes
four_nodes-IsTable = record {
  bounded = omega arith;
  links = omega arith;
  linked = linked;
  distinct = λ a b ha hb e. ground arith;
  fits = λ i. refl;
  allocated = λ i lt. refl;
  owned = λ i lsa lt e. ground arith;
  pending = λ i lt new up. absurd (omega arith);
}
  where
    linked : (i : ℕ) (l : LinkEntry) → get_elem? links i ≡ some l → (four_nodes.table i).id ≡ l.id
    linked zero l e = ground arith
    linked (suc zero) l e = ground arith
    linked (suc (suc zero)) l e = ground arith
    linked (suc (suc (suc zero))) l e = ground arith
    linked (suc (suc (suc (suc i)))) l e = cc

abbrev pub network : State
network = record { rt = four_nodes; gol = init_hash; sent = [] }

pub network-IsState : IsState links network
network-IsState = record { table = four_nodes-IsTable; objects = init_hash-IsValid }

third_entry : get_routing_entry four_nodes 3 ≡ some 1
unfolding get_routing_entry entry_loop
third_entry = refl

flood_received_lsa-Sends_example :
    (s' : State) × (flood_received_lsa (some from_next) links 20 7 network ≡ some s')
    × Sends links network (to_each_up four_nodes (all_but 7 three_links) from_next 20) s'
flood_received_lsa-Sends_example =
    flood_received_lsa-Sends links from_next 20 7 network 1 four_nodes-IsTable (omega arith)
      third_entry

retry_link-GivesUp_example :
    (s' : State) × (retry_link 1 next_link 1 1 20 (owing 3 3) network ≡ some s')
    × GivesUp links 3 1 network s'
retry_link-GivesUp_example =
    retry_link-GivesUp links 1 1 1 20 next_link (owing 3 3) network four_nodes-IsTable (omega arith)
      (omega arith) 1 third_entry network-IsState.objects refl

retransmit_missing_dangles_example : retransmit_missing 1 links 20 7 network ≡ none
retransmit_missing_dangles_example =
    retransmit_missing_dangles own_link next_link (link_to 4) (link_to 7 ∷ []) 20 7 network
      from_next owing_list (owing 3 3) (owing 4 1) four_nodes-IsTable refl refl refl refl
      (omega arith) (omega arith) refl refl refl refl (omega arith)

age_entry-Ages_example : Ages links 2 network (age_entry 2 network)
age_entry-Ages_example = age_entry-Ages links 2 network network-IsState (omega arith)

abbrev pub running : Engine
running = record { net = network; ol = []; sequence_number = 5; iterations = 10 }

flood_all-Floods_example :
    (e' : Engine) × (flood_all links 1 (7 ∷ 7 ∷ 7 ∷ 7 ∷ []) running ≡ some e')
    × Floods links 1 running e'
flood_all-Floods_example =
    flood_all-Floods own_link three_links (7 ∷ 7 ∷ 7 ∷ 7 ∷ []) running network-IsState
