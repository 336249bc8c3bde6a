-- ===== src/Lsa/Layout.antt =====
-- The layout of a packet: its size, and reading back what was written.
use p.Prelude.{ℕ, ◌^◌, ◌<◌, ◌≡◌, refl, ap, List, ◌++◌, some, arith, drop}
use p.Lsa.{Lsa, int_bytes, read_int, packet_bytes, bytes_to_packet}

pub read_int-int_bytes :
    (n : ℕ) (rest : List ℕ) → n < 2 ^ 32 → read_int (int_bytes n ++ rest) ≡ some n
unfolding read_int int_bytes
read_int-int_bytes n rest h = ap some (omega arith)

pub drop-int_bytes : (n : ℕ) (rest : List ℕ) → drop 4 (int_bytes n ++ rest) ≡ rest
unfolding int_bytes
drop-int_bytes n rest = refl

-- The ints of the header are words.
pub record IsHeader (lsa : Lsa) : Type 0 where
  pub version_ttl_type : lsa.version_ttl_type < 2 ^ 32
  pub sender_node_id : lsa.sender_node_id < 2 ^ 32
  pub sequence_num : lsa.sequence_num < 2 ^ 32
  pub num_links : lsa.num_links < 2 ^ 32
  pub num_objects : lsa.num_objects < 2 ^ 32

-- The bytes of a packet whose header fields fit their words are converted back to it.
pub bytes_to_packet-packet_bytes :
    (lsa : Lsa) → IsHeader lsa → bytes_to_packet (packet_bytes lsa) ≡ some lsa
unfolding bytes_to_packet packet_bytes int_bytes read_int
bytes_to_packet-packet_bytes lsa h = ground arith
