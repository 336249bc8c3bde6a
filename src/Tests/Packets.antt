-- ===== src/Tests/Packets.antt =====
-- The theorems on the packets, at the packet of a node with one neighbour and two objects.
use p.Prelude.{ℕ, ◌≡◌, refl, List, [], ◌∷◌, ◌++◌, some, arith, length, drop}
use p.HashSet.{init_hash}
use p.Lsa.{
  Lsa, packet_bytes, bytes_to_packet, link_bytes, object_bytes, object_size, create_packet,
  lsa_cost, store_node_objects,
}
use p.Lsa.Header.{set_version, set_ttl, set_type, type_lsa}
use p.Lsa.Layout.{bytes_to_packet-packet_bytes}
use p.Lsa.RoundTrip.{add_objects, store_node_objects-Announces, create_packet_size}
use p.Tests.Data.{two_links, zoo}

abbrev pub unset : List ℕ
unset = 7 ∷ 7 ∷ 7 ∷ 7 ∷ []

abbrev pub zoo_packet : Lsa
zoo_packet = record {
  version_ttl_type = 0x1200000;
  sender_node_id = 1;
  sequence_num = 5;
  num_links = 1;
  num_objects = 2;
  links_objects = link_bytes (drop 1 two_links) ++ (object_bytes zoo ++ unset);
}

pub creating : create_packet type_lsa 1 5 two_links zoo unset ≡ some (zoo_packet, 43)
unfolding create_packet set_type set_ttl set_version object_size
creating = refl

create_packet_size_example : length (packet_bytes zoo_packet) ≡ 43
create_packet_size_example =
    create_packet_size two_links zoo unset 1 5 zoo_packet 43 (omega arith) refl creating

bytes_to_packet-packet_bytes_example : bytes_to_packet (packet_bytes zoo_packet) ≡ some zoo_packet
bytes_to_packet-packet_bytes_example = bytes_to_packet-packet_bytes zoo_packet (omega arith)

store_node_objects-Announces_example :
    store_node_objects init_hash zoo_packet ≡ add_objects init_hash zoo 1 (lsa_cost zoo_packet)
store_node_objects-Announces_example =
    store_node_objects-Announces two_links zoo unset init_hash zoo_packet (refl, refl, refl)
      (omega arith) (omega arith) (omega arith) (omega arith)

abbrev late_packet : Lsa
late_packet = record zoo_packet { version_ttl_type = 0x1000000 }
