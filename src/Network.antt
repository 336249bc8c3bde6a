-- ===== src/Network.antt =====
-- rd/flooding_engine.c: a packet on its way through the daemons of several nodes.
pub mod Hop
pub mod Travel
pub mod Publish
use p.Prelude.{
  ℕ, zero, suc, ◌+◌, ◌^◌, ◌≤◌, ◌<◌, ◌≡◌, refl, ap, ◌∙◌, sym, subst, true, false, List, [], ◌∷◌,
  ◌++◌, Option, none, some, arith, ◌==◌, add32, length, drop, get_elem?, CString, if◌then◌else◌,
  Option-cases, Bool-cases, inl, inr,
}
use p.Tables.{LinkEntry, DirectLinks, LocalObjects}
use p.HashSet.{maxobjnum}
use p.Lsa.{Lsa, packet_bytes, lsa_cost, create_packet}
use p.Lsa.Header.{type_lsa, get_ttl}
use p.Lsa.Created.{create_packet-Announced}
use p.Lsa.Layout.{IsHeader}
use p.Lsa.RoundTrip.{Carried, create_packet-Announces, create_packet_size}
use p.Routing.{AckChecker, RoutingTable, get_routing_entry, lookup_link_entry}
use p.Routing.Update.{IsTable}
use p.Routing.Update.Routes.{updated, HasPlace}
use p.Flooding.{Datagram, State, max_lsa_len, datagram, age_lsa, lsa_handler, flood}
use p.Flooding.Age.{age_lsa_fields}
use p.Flooding.Nodes.{is_up}
use p.Flooding.Flood.{to_each_up, flood-Sends}
use p.Flooding.Wellformed.{IsState}
use p.Flooding.Hear.{ack_of, IsNewer, Hears, lsa_handler-Hears}
use p.Flooding.Marks.{marked, counted, Owns}
use p.Flooding.Owed.{done_link, owed, length-owed}
use p.Flooding.Own.{create_packet-IsHeader, found_own, is_up-renewed, flood-Owns}
use p.Flooding.Settle.{lsa_handler-marks}

-- A node that can take in the packet: its tables are well formed, it knows the address of the link, holds no
-- packet of the sender that is as new, and has the room for the sender and its objects.
pub record CanHear (dl : DirectLinks) (address : CString) (l : LinkEntry) (ol : LocalObjects)
    (lsa : Lsa) (s : State) : Type 0 where
  pub state : IsState dl s
  pub known : lookup_link_entry dl address ≡ some l
  pub newer : IsNewer s lsa
  pub place : HasPlace s.rt (get_routing_entry s.rt lsa.sender_node_id)
  pub room : s.gol.num_objs + length ol ≤ maxobjnum

-- The datagram of a packet to a link.
abbrev pub to_link : LinkEntry → Lsa → ℕ → Datagram
to_link l lsa size = record { packet = lsa; host = l.host; port = l.route_p; size = size }

abbrev pub Sent : Datagram → State → Type 0
Sent g s = (k : ℕ) × (get_elem? s.sent k ≡ some g)

pub to_each_up-at :
    (rt : RoutingTable) (ls : DirectLinks) (lsa : Lsa) (size j : ℕ) (l : LinkEntry)
    → get_elem? ls j ≡ some l
    → is_up rt l.id ≡ true
    → (k : ℕ) × (get_elem? (to_each_up rt ls lsa size) k ≡ some (to_link l lsa size))
unfolding to_each_up
to_each_up-at rt [] lsa size j l at up = absurd (cc at)
to_each_up-at rt (m ∷ ls) lsa size zero l at up =
    let same : m ≡ l = ground arith in (0, rw (same, up) refl)
to_each_up-at rt (m ∷ ls) lsa size (suc j) l at up =
    let (k, there) = to_each_up-at rt ls lsa size j l at up in
    elim (Bool-cases (is_up rt m.id)) [
      | inl on ↦ (suc k, rw on there)
      | inr off ↦ (k, rw off there)
    ]

pub get_elem?-append :
    (a b : List Datagram) (k : ℕ) → get_elem? (a ++ b) (length a + k) ≡ get_elem? b k
get_elem?-append [] b k = ap (get_elem? b) (omega arith)
get_elem?-append (x ∷ a) b k =
    let e : suc (length a) + k ≡ suc (length a + k) = omega arith in rw e (get_elem?-append a b k)

module _ (own : LinkEntry) (dl : DirectLinks) (ol : LocalObjects) (seq : ℕ) (unset : List ℕ)
    (s : State) (lsa : Lsa) (size : ℕ) (v : IsTable (own ∷ dl) s.rt)
    (made : create_packet type_lsa own.id seq (own ∷ dl) ol unset ≡ some (lsa, size))
    (id : own.id < 2 ^ 32) (word : seq < 2 ^ 32) (few : length ol < 2 ^ 31)
    (four : length unset ≡ 4) (fits : size ≤ max_lsa_len) (carried : Carried ol) where
  -- A node has a well-formed routing table and a count of its checkers; its id and sequence number are words,
  -- and its packet and the names in it fit the buffers of a reader. It floods the packet. A neighbour that
  -- is up, and whose address the node finds, can take it in: its tables are well formed, it finds the
  -- node's address, it holds no packet of the node as new, and it has the room. Its answer comes back.
  -- Then no handler has a fault; the packet was sent to the neighbour; the neighbour accepts it, has the
  -- node as up, knows each of its objects by the cheaper of the old path and the one to the node at
  -- cost 2, and answers it; and the node accepts the answer, sends nothing, and marks the checkers of
  -- the neighbour, and no others.
  pub exchange :
      (old : List AckChecker) (j : ℕ) (b : LinkEntry) (links : DirectLinks) (address : CString)
      (l : LinkEntry) (t : State)
      → (s.rt.table 0).checkers_list ≡ counted old (length (own ∷ dl))
      → get_elem? dl j ≡ some b
      → is_up s.rt b.id ≡ true
      → lookup_link_entry (own ∷ dl) b.host ≡ some b
      → CanHear links address l ol lsa t
      → (s1 s2 t' : State) × (flood type_lsa (own ∷ dl) ol own.id seq unset s ≡ some s1)
        × Sent (to_link b lsa size) s1
        × (lsa_handler (datagram (packet_bytes lsa) address) links t ≡ some (t', true))
        × Hears links l ol lsa size t t'
        × (lsa_cost (age_lsa lsa) ≡ 2)
        × (lsa_handler (datagram (packet_bytes (ack_of lsa)) b.host) (own ∷ dl) s1
            ≡ some (s2, true))
        × Owns lsa (marked b.id (done_link own ∷ owed s.rt dl)) s2
        × (s2.gol ≡ s.gol)
        × (s2.sent ≡ s1.sent)
  exchange old j b links address l t list at up reached hear =
      let all = own ∷ dl in
      let a = create_packet-Announced all ol unset own.id seq lsa size made in
      let found = found_own own dl ol seq unset s lsa size v made in
      let (s1, run, sends) =
        flood-Sends all ol own.id seq unset s 0 v (omega arith) found lsa size made in
      let owns = flood-Owns own dl ol seq unset s lsa size v made old s1 list run in
      let still = is_up-renewed own dl ol seq unset s lsa size v made j b at ∙ up in
      let (k, out) =
        to_each_up-at (updated s.rt all (some 0) lsa size own.id) dl lsa size j b at still in
      let sent : Sent (to_link b lsa size) s1 = (
        length s.sent + k,
        ap (λ g. get_elem? g (length s.sent + k)) sends.sent ∙ get_elem?-append s.sent _ k ∙ out,
      ) in
      let header = create_packet-IsHeader all ol unset own.id seq lsa size id word few made in
      let sized : length (packet_bytes lsa) ≡ size =
        create_packet_size all ol unset own.id seq lsa size (omega arith) four made in
      let announces = create_packet-Announces all ol unset own.id seq lsa size made in
      let (t', heard, hears) =
        lsa_handler-Hears links address l t all ol unset lsa hear.state hear.known a.word a.type
          hear.newer hear.place announces (omega arith) (omega (arith, v.links, v.bounded)) few
          carried hear.room header (omega arith) in
      let cost : lsa_cost (age_lsa lsa) ≡ 2 =
        omega (arith, (age_lsa_fields lsa a.word (omega (arith, a.ttl))).3, a.cost) in
      let (s2, acked, last, objects, quiet) =
        lsa_handler-marks all lsa header (omega arith) b (done_link own ∷ owed s.rt dl) s1 reached
          (omega (arith, length-owed s.rt dl, v.links, v.bounded)) owns in
      (
        s1,
        s2,
        t',
        run,
        sent,
        heard,
        subst (λ n. Hears links l ol lsa n t t') sized hears,
        cost,
        acked,
        last,
        objects ∙ sends.objects,
        quiet,
      )
