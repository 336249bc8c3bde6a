-- ===== src/Lsa.antt =====
-- rd/lsa.h and rd/flooding_engine.c: the packet that the routing daemons exchange, its layout in
-- memory and on the wire, and the code that builds it and reads the objects out of it.
pub mod Header
pub mod Layout
pub mod RoundTrip
pub mod Created
pub mod Learns
use p.Prelude.{
  ℕ, zero, suc, ◌+◌, ◌-◌, ◌*◌, ◌/◌, ◌%◌, ◌^◌, Bool, true, false, ◌||◌, List, [], ◌∷◌, ◌++◌, Option,
  none, some, ◌==◌, ltb, leb, if◌then◌else◌, add32, sub32, shl32, rounds, length, take, drop,
  CString, ◌>>=◌, ◌>>◌, defined,
}
use p.Tables.{LinkEntry, DirectLinks, ObjectEntry, LocalObjects, max_obj_len}
use p.HashSet.{LisoHash, hash_add}
use p.Lsa.Header.{
  type_lsa, type_ack, type_down, default_ttl, get_ttl, set_version, set_ttl, set_type,
}

-- `struct LSA`, packed: five ints and the bytes of `links_objects`.
pub record Lsa : Type 0 where
  pub version_ttl_type : ℕ
  pub sender_node_id : ℕ
  pub sequence_num : ℕ
  pub num_links : ℕ
  pub num_objects : ℕ
  pub links_objects : List ℕ

-- sizeof(LSA)
abbrev pub lsa_size : ℕ
lsa_size = 20

-- The four bytes of an int, the low one first.
unfoldable pub int_bytes : ℕ → List ℕ
int_bytes n = n % 256 ∷ n / 256 % 256 ∷ n / 65536 % 256 ∷ n / 16777216 % 256 ∷ []

-- `*(int *)`: the int in the first four bytes; `none` where they are not all in the packet.
unfoldable pub read_int : List ℕ → Option ℕ
read_int (a ∷ b ∷ c ∷ d ∷ rest) = some (a + b * 256 + c * 65536 + d * 16777216)
read_int _ = none

-- The bytes of a packet, as `sendto` takes them.
unfoldable pub packet_bytes : Lsa → List ℕ
packet_bytes lsa =
    int_bytes lsa.version_ttl_type
    ++ (int_bytes lsa.sender_node_id
        ++ (int_bytes lsa.sequence_num
            ++ (int_bytes lsa.num_links ++ (int_bytes lsa.num_objects ++ lsa.links_objects))))

-- `buf` holds the `size` bytes that were received; the fields are read out of them.
unfoldable pub bytes_to_packet : List ℕ → Option Lsa
bytes_to_packet buf = do
  v ← read_int buf
  id ← read_int (drop 4 buf)
  seq ← read_int (drop 8 buf)
  links ← read_int (drop 12 buf)
  objects ← read_int (drop 16 buf)
  some (record {
    version_ttl_type = v;
    sender_node_id = id;
    sequence_num = seq;
    num_links = links;
    num_objects = objects;
    links_objects = drop lsa_size buf;
  })

-- The first loop that writes into the packet of `create_packet`.
unfoldable pub link_bytes : DirectLinks → List ℕ
link_bytes [] = []
link_bytes (l ∷ ls) = int_bytes l.id ++ link_bytes ls

-- The second loop: the length of each name, and its bytes.
unfoldable pub object_bytes : LocalObjects → List ℕ
object_bytes [] = []
object_bytes (o ∷ os) = int_bytes (length o.name) ++ (o.name ++ object_bytes os)

-- `object_size_total`
unfoldable pub object_size : LocalObjects → ℕ
object_size [] = 0
object_size (o ∷ os) = 4 + length o.name + object_size os

-- The last eight lines of `create_packet`, at the counts and the bytes that the branch has set.
unfoldable pub finish_packet : ℕ → ℕ → ℕ → ℕ → ℕ → List ℕ → Lsa
finish_packet type node_id sequence_num num_links num_objects bytes = record {
  version_ttl_type = set_type (set_ttl (set_version 0 0x1) default_ttl) type;
  sender_node_id = node_id;
  sequence_num = sequence_num;
  num_links = sub32 num_links 1;
  num_objects = num_objects;
  links_objects = bytes;
}

-- The packet and its size. The links are written from index 1, but the memory holds a place for
-- each: `unset` is what `malloc` left in the last four bytes. On any other type the pointer is not
-- set.
unfoldable pub create_packet : ℕ → ℕ → ℕ → DirectLinks → LocalObjects → List ℕ → Option (Lsa × ℕ)
unfolding finish_packet
create_packet type node_id sequence_num dl ol unset =
    if type == type_ack || type == type_down
    then some (finish_packet type node_id sequence_num 0 0 [], lsa_size)
    else if type == type_lsa
    then some (
      finish_packet type node_id sequence_num (length dl) (length ol)
          (link_bytes (drop 1 dl) ++ (object_bytes ol ++ unset)),
      lsa_size + length dl * 4 + object_size ol,
    )
    else none

-- DEFAULT_TTL - GET_TTL(...) + 1
unfoldable pub lsa_cost : Lsa → ℕ
lsa_cost lsa = add32 (sub32 default_ttl (get_ttl lsa.version_ttl_type)) 1

-- `strncpy(object, src, n)` and `object[n] = '\0'`, read as a string: the bytes before a NUL, `n` at
-- most. `none` where the source ends before.
unfoldable pub strncpy : ℕ → List ℕ → Option CString
strncpy zero src = some []
strncpy (suc n) [] = none
strncpy (suc n) (b ∷ src) = if b == 0 then some [] else (do rest ← strncpy n src; some (b ∷ rest))

-- The loop of `store_node_objects`, with the rounds left and the bytes from `lsa_index` on. The
-- array `object` has 64 bytes, so a longer name, or a negative length, is written past its end.
unfoldable pub store_loop : ℕ → List ℕ → LisoHash → ℕ → ℕ → Option LisoHash
store_loop zero bytes ht id cost = some ht
store_loop (suc n) bytes ht id cost = do
  object_len ← read_int bytes
  defined (ltb object_len max_obj_len)
  object ← strncpy object_len (drop 4 bytes)
  ht' ← hash_add ht object id cost
  store_loop n (drop (4 + object_len) bytes) ht' id cost

unfoldable pub store_node_objects : LisoHash → Lsa → Option LisoHash
unfolding store_loop
store_node_objects ht lsa =
    store_loop (rounds lsa.num_objects) (drop (shl32 lsa.num_links 2) lsa.links_objects) ht
      lsa.sender_node_id (lsa_cost lsa)
