-- ===== src/Lsa/RoundTrip.antt =====
-- A packet that `create_packet` builds, read by `store_node_objects`.
use p.Prelude.{
  ℕ, suc, ◌+◌, ◌*◌, ◌^◌, ◌<◌, ◌≡◌, refl, ap, ◌∙◌, List, [], ◌∷◌, ◌++◌, Option, some, arith, length,
  length-append, drop, append_assoc, sub32, shl32, rounds, CString, lt→ltb, ◌>>=◌,
  drop-length_append, fun_ext, length-drop,
}
use p.Tables.{DirectLinks, LocalObjects, max_obj_len}
use p.HashSet.{LisoHash, hash_add}
use p.Lsa.{
  Lsa, lsa_size, int_bytes, packet_bytes, link_bytes, object_bytes, object_size, create_packet,
  lsa_cost, strncpy, store_loop, store_node_objects,
}
use p.Lsa.Header.{type_lsa}
use p.Lsa.Layout.{read_int-int_bytes, drop-int_bytes}

-- A name as the packet can carry it: no byte is NUL, and it fits the array that it is copied to.
abbrev pub NoNul : CString → Type 0
NoNul [] = Unit
NoNul (b ∷ s) = (0 < b) × NoNul s

abbrev pub Carried : LocalObjects → Type 0
Carried [] = Unit
Carried (o ∷ os) = NoNul o.name × (length o.name < max_obj_len) × Carried os

-- The objects added one by one.
unfoldable pub add_objects : LisoHash → LocalObjects → ℕ → ℕ → Option LisoHash
add_objects ht [] id cost = some ht
add_objects ht (o ∷ os) id cost = do ht' ← hash_add ht o.name id cost; add_objects ht' os id cost

strncpy-append : (s rest : List ℕ) → NoNul s → strncpy (length s) (s ++ rest) ≡ some s
unfolding strncpy
strncpy-append [] rest h = refl
strncpy-append (b ∷ s) rest h = ground (arith, strncpy-append s rest)

length-link_bytes : (ls : DirectLinks) → length (link_bytes ls) ≡ length ls * 4
unfolding link_bytes int_bytes
length-link_bytes [] = refl
length-link_bytes (l ∷ ls) = omega (arith, length-link_bytes ls)

pub length-object_bytes : (ol : LocalObjects) → length (object_bytes ol) ≡ object_size ol
unfolding object_bytes int_bytes object_size
length-object_bytes [] = refl
length-object_bytes (o ∷ os) =
    omega (arith, length-append {0} o.name (object_bytes os), length-object_bytes os)

drop-object : (n : ℕ) (s rest : List ℕ) → drop (4 + length s) (int_bytes n ++ (s ++ rest)) ≡ rest
unfolding int_bytes
drop-object n s rest =
    let e : 4 + length s ≡ suc (suc (suc (suc (length s)))) = omega arith in
    rw e (drop-length_append s rest)

-- One round on an object that was written whole.
store_loop_step :
    (n : ℕ) (name rest : List ℕ) (ht : LisoHash) (id cost : ℕ)
    → NoNul name
    → length name < max_obj_len
    → store_loop (suc n) (int_bytes (length name) ++ (name ++ rest)) ht id cost
      ≡ (hash_add ht name id cost >>= λ ht'. store_loop n rest ht' id cost)
unfolding store_loop
store_loop_step n name rest ht id cost proper short = rw (
  read_int-int_bytes (length name) (name ++ rest) (omega arith),
  lt→ltb (length name) max_obj_len short,
  drop-int_bytes (length name) (name ++ rest),
  strncpy-append name rest proper,
  drop-object (length name) name rest,
)

store_loop-object_bytes :
    (ol : LocalObjects) (rest : List ℕ) (ht : LisoHash) (id cost : ℕ)
    → Carried ol
    → store_loop (length ol) (object_bytes ol ++ rest) ht id cost ≡ add_objects ht ol id cost
unfolding object_bytes add_objects
store_loop-object_bytes [] rest ht id cost h = unfold store_loop in refl
store_loop-object_bytes (o ∷ os) rest ht id cost (proper, short, more) =
    let tail = object_bytes os ++ rest in
    let shape : object_bytes (o ∷ os) ++ rest ≡ int_bytes (length o.name) ++ (o.name ++ tail) =
      simp append_assoc in
    rw shape (
      store_loop_step (length os) o.name tail ht id cost proper short
      ∙ ap (λ (k : LisoHash → Option LisoHash). hash_add ht o.name id cost >>= k)
          (fun_ext λ ht'. store_loop-object_bytes os rest ht' id cost more))

-- A packet of the type LSA, with any time to live and any sequence number, whose bytes are those
-- that `create_packet` writes.
module _ (dl : DirectLinks) (ol : LocalObjects) (unset : List ℕ) where
  abbrev pub Announces : Lsa → Type 0
  Announces lsa =
      (lsa.num_links ≡ sub32 (length dl) 1)
      × (lsa.num_objects ≡ length ol)
      × (lsa.links_objects ≡ link_bytes (drop 1 dl) ++ (object_bytes ol ++ unset))

  pub create_packet-Announces :
      (node_id sequence_num : ℕ) (lsa : Lsa) (size : ℕ)
      → create_packet type_lsa node_id sequence_num dl ol unset ≡ some (lsa, size)
      → Announces lsa
  unfolding create_packet
  create_packet-Announces node_id sequence_num lsa size e = ground arith

  -- Storing the packet of a node adds exactly the objects that the node has, in their order, each
  -- at the sender and at the cost that the time to live gives; neither the links before them nor
  -- the four bytes that were never written behind them are read as objects. The names must fit the
  -- packet's reader: no NUL byte, and less than 64 bytes.
  pub store_node_objects-Announces :
      (ht : LisoHash) (lsa : Lsa)
      → Announces lsa
      → 0 < length dl
      → length dl < 2 ^ 28
      → length ol < 2 ^ 31
      → Carried ol
      → store_node_objects ht lsa ≡ add_objects ht ol lsa.sender_node_id (lsa_cost lsa)
  unfolding store_node_objects
  store_node_objects-Announces ht lsa (links, objects, bytes) some_link few_links few h =
      let skipped : shl32 lsa.num_links 2 ≡ length (link_bytes (drop 1 dl)) =
        omega (arith, length-link_bytes (drop 1 dl), length-drop {0} 1 dl) in
      let counted : rounds lsa.num_objects ≡ length ol = ground arith in
      let rest : drop (shl32 lsa.num_links 2) lsa.links_objects ≡ object_bytes ol ++ unset =
        rw (skipped, bytes)
          (drop-length_append (link_bytes (drop 1 dl)) (object_bytes ol ++ unset)) in
      rw (counted, rest) (store_loop-object_bytes ol unset ht lsa.sender_node_id (lsa_cost lsa) h)

  -- At a node with a link of its own, the size that `create_packet` reports for a packet is the
  -- number of bytes of that packet.
  pub create_packet_size :
      (node_id sequence_num : ℕ) (lsa : Lsa) (size : ℕ)
      → 0 < length dl
      → length unset ≡ 4
      → create_packet type_lsa node_id sequence_num dl ol unset ≡ some (lsa, size)
      → length (packet_bytes lsa) ≡ size
  unfolding create_packet packet_bytes int_bytes
  create_packet_size node_id sequence_num lsa size some_link four e =
      let total : lsa_size + length dl * 4 + object_size ol ≡ size = ground arith in
      let (links, objects, bytes) = create_packet-Announces node_id sequence_num lsa size e in
      omega (
        arith,
        ap (length {A = ℕ}) bytes,
        length-append {0} (link_bytes (drop 1 dl)) (object_bytes ol ++ unset),
        length-append {0} (object_bytes ol) unset,
        length-link_bytes (drop 1 dl),
        length-object_bytes ol,
        length-drop {0} 1 dl,
      )
