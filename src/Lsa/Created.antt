-- ===== src/Lsa/Created.antt =====
-- The header of a packet that `create_packet` builds.
use p.Prelude.{ℕ, ◌^◌, ◌<◌, ◌≡◌, refl, ap, List, some, arith}
use p.Tables.{DirectLinks, LocalObjects}
use p.Lsa.{Lsa, create_packet, lsa_cost}
use p.Lsa.Header.{
  type_lsa, default_ttl, get_ttl, get_type, get_version, set_ttl, set_type, set_version,
}

-- What the header of a flooded packet says.
pub record Announced (node_id sequence_num : ℕ) (lsa : Lsa) : Type 0 where
  pub type : get_type lsa.version_ttl_type ≡ type_lsa
  pub ttl : get_ttl lsa.version_ttl_type ≡ default_ttl
  pub version : get_version lsa.version_ttl_type ≡ 1
  pub word : lsa.version_ttl_type < 2 ^ 32
  pub sender : lsa.sender_node_id ≡ node_id
  pub sequence : lsa.sequence_num ≡ sequence_num
  pub cost : lsa_cost lsa ≡ 1

created_word : set_type (set_ttl (set_version 0 0x1) default_ttl) type_lsa ≡ 0x1200000
unfolding set_type set_ttl set_version
created_word = refl

-- A packet that `create_packet` makes has version 1, the full time to live, the type of an LSA, the
-- given sender and sequence number, and the cost 1.
pub create_packet-Announced :
    (dl : DirectLinks) (ol : LocalObjects) (unset : List ℕ) (node_id sequence_num : ℕ) (lsa : Lsa)
    (size : ℕ)
    → create_packet type_lsa node_id sequence_num dl ol unset ≡ some (lsa, size)
    → Announced node_id sequence_num lsa
unfolding create_packet get_type get_ttl get_version lsa_cost
create_packet-Announced dl ol unset node_id sequence_num lsa size e =
    let word : lsa.version_ttl_type ≡ 0x1200000 = ground (arith, created_word) in
    record {
      type = ap get_type word;
      ttl = ap get_ttl word;
      version = ap get_version word;
      word = omega arith;
      sender = ground arith;
      sequence = ground arith;
      cost = ground (arith, ap get_ttl word);
    }
