-- ===== src/Network/Travel.antt =====
-- rd/engine_actions.c and rd/flooding_engine.c: a packet that is sent on from node to node.
use p.Prelude.{
  ℕ, ◌+◌, ◌^◌, ◌≤◌, ◌<◌, ◌≡◌, ◌≢◌, true, List, [], ◌∷◌, some, arith, length, drop, get_elem?,
  CString,
}
use p.Tables.{LinkEntry, DirectLinks, LocalObjects}
use p.Lsa.{Lsa, packet_bytes, lsa_cost}
use p.Lsa.Header.{default_ttl, type_lsa, get_ttl}
use p.Lsa.RoundTrip.{Carried}
use p.Flooding.{State, max_lsa_len, datagram, age_lsa, lsa_handler}
use p.Flooding.Age.{age_lsa_fields}
use p.Flooding.Nodes.{is_up}
use p.Flooding.Hear.{Hears, lsa_handler-Hears}
use p.Engine.{flood_entry}
use p.Lsa.{create_packet}
use p.Lsa.Created.{create_packet-Announced}
use p.Lsa.RoundTrip.{create_packet-Announces, create_packet_size}
use p.Flooding.Own.{create_packet-IsHeader}
use p.Network.{CanHear, to_link, Sent}
use p.Network.Hop.{IsPacket, is_up-keep, age_lsa-IsPacket, sends_on}

-- A node on the way: its links and its state, the address and the link from which the packet comes, and the
-- link of the node before it that leads here.
pub record Stop : Type 0 where
  pub dl : DirectLinks
  pub s : State
  pub address : CString
  pub from : LinkEntry
  pub via : LinkEntry

-- The packet can go on from a stop to the next: the latter's link is not the one it came from, and is up.
abbrev pub CanPass : Stop → Stop → Type 0
CanPass a b =
    (j : ℕ) × (get_elem? (drop 1 a.dl) j ≡ some b.via)
    × (b.via.id ≢ a.from.id)
    × (is_up a.s.rt b.via.id ≡ true)

abbrev pub CanTravel : LocalObjects → Lsa → List Stop → Type 0
CanTravel ol lsa [] = Unit
CanTravel ol lsa (a ∷ []) = CanHear a.dl a.address a.from ol lsa a.s
CanTravel ol lsa (a ∷ b ∷ stops) =
    CanHear a.dl a.address a.from ol lsa a.s × CanPass a b × CanTravel ol (age_lsa lsa) (b ∷ stops)

-- A stop accepts the packet, at that cost.
pub record TakesIn (ol : LocalObjects) (lsa : Lsa) (cost : ℕ) (a : Stop) : Type 0 where
  pub s' : State
  pub run : lsa_handler (datagram (packet_bytes lsa) a.address) a.dl a.s ≡ some (s', true)
  pub hears : Hears a.dl a.from ol lsa (length (packet_bytes lsa)) a.s s'
  pub cost_is : lsa_cost (age_lsa lsa) ≡ cost

-- It sends the packet on to the next stop when the flooding period comes to its entry.
abbrev pub SendsOn :
    (ol : LocalObjects) (lsa : Lsa) (cost : ℕ) (a b : Stop) → TakesIn ol lsa cost a → Type 0
SendsOn ol lsa cost a b t =
    (s'' : State) × (flood_entry a.dl t.hears.accepts.index t.s' ≡ some s'')
    × Sent (to_link b.via (age_lsa lsa) (length (packet_bytes lsa))) s''

-- Each stop takes the packet in, one hop older and at a cost one higher than the stop before, and sends it
-- on to the next.
abbrev pub Travels : LocalObjects → Lsa → ℕ → List Stop → Type 0
Travels ol lsa cost [] = Unit
Travels ol lsa cost (a ∷ []) = TakesIn ol lsa cost a
Travels ol lsa cost (a ∷ b ∷ stops) =
    ((t : TakesIn ol lsa cost a) × SendsOn ol lsa cost a b t)
    × Travels ol (age_lsa lsa) (cost + 1) (b ∷ stops)

takes_in :
    (origin : DirectLinks) (ol : LocalObjects) (unset : List ℕ) (lsa : Lsa) (cost : ℕ) (a : Stop)
    → 0 < length origin
    → length origin < 2 ^ 28
    → length ol < 2 ^ 31
    → Carried ol
    → IsPacket origin ol unset lsa
    → 0 < get_ttl lsa.version_ttl_type
    → lsa_cost lsa + 1 ≡ cost
    → cost < 2 ^ 32
    → CanHear a.dl a.address a.from ol lsa a.s
    → TakesIn ol lsa cost a
takes_in origin ol unset lsa cost a some_link few_links few carried p ttl at small hear =
    let word = p.header.version_ttl_type in
    let (s', run, hears) =
      lsa_handler-Hears a.dl a.address a.from a.s origin ol unset lsa hear.state hear.known word
        p.typed hear.newer hear.place p.announces some_link few_links few carried hear.room p.header
        p.fits in
    record {
      s' = s';
      run = run;
      hears = hears;
      cost_is = omega (arith, (age_lsa_fields lsa word ttl).3, at, small);
    }

travel_from :
    (origin : DirectLinks) (ol : LocalObjects) (unset : List ℕ) (lsa : Lsa) (cost : ℕ)
    (stops : List Stop)
    → 0 < length origin
    → length origin < 2 ^ 28
    → length ol < 2 ^ 31
    → Carried ol
    → IsPacket origin ol unset lsa
    → length stops ≤ get_ttl lsa.version_ttl_type
    → lsa_cost lsa + 1 ≡ cost
    → cost + length stops < 2 ^ 32
    → CanTravel ol lsa stops
    → Travels ol lsa cost stops
travel_from origin ol unset lsa cost [] some_link few_links few carried p ttl at small can = tt
travel_from origin ol unset lsa cost (a ∷ []) some_link few_links few carried p ttl at small can =
    takes_in origin ol unset lsa cost a some_link few_links few carried p (omega (arith, ttl)) at
      (omega (arith, small)) can
travel_from origin ol unset lsa cost (a ∷ b ∷ stops) some_link few_links few carried p ttl at small
      (hear, (j, there, ne, up), can) =
    let some_time : 0 < get_ttl lsa.version_ttl_type = omega (arith, ttl) in
    let t =
      takes_in origin ol unset lsa cost a some_link few_links few carried p some_time at
        (omega (arith, small)) hear in
    let still = is_up-keep a.dl a.s.rt t.s'.rt b.via.id t.hears.state.table t.hears.ups up in
    let on =
      sends_on a.dl a.from ol lsa (length (packet_bytes lsa)) a.s t.s' j b.via t.hears there ne
        still in
    let fields = age_lsa_fields lsa p.header.version_ttl_type some_time in
    (
      (t, on),
      travel_from origin ol unset (age_lsa lsa) (cost + 1) (b ∷ stops) some_link few_links few
          carried (age_lsa-IsPacket origin ol unset lsa some_time p) (omega (arith, fields.0, ttl))
          (omega (arith, t.cost_is)) (omega (arith, small)) can,
    )

-- The packet of a node, whose id and sequence number are words and whose packet and names fit the buffers of
-- a reader, goes over at most 32 stops, each of which can take it in and is, as seen from the stop
-- before, up and not the one it came from. Then no node has a fault: each stop accepts the packet, has
-- its sender as up, and knows each of its objects by the cheaper of the old path and the one to the
-- sender, at cost 2 at the first stop and one more at each further one; and the step of a flooding
-- period for the packet's entry, right after it, sends it to the next stop.
pub travel :
    (origin : DirectLinks) (ol : LocalObjects) (unset : List ℕ) (node_id sequence_num : ℕ)
    (lsa : Lsa) (size : ℕ) (stops : List Stop)
    → create_packet type_lsa node_id sequence_num origin ol unset ≡ some (lsa, size)
    → node_id < 2 ^ 32
    → sequence_num < 2 ^ 32
    → 0 < length origin
    → length origin < 2 ^ 28
    → length ol < 2 ^ 31
    → Carried ol
    → length unset ≡ 4
    → size ≤ max_lsa_len
    → length stops ≤ default_ttl
    → CanTravel ol lsa stops
    → Travels ol lsa 2 stops
travel origin ol unset node_id sequence_num lsa size stops made id seq some_link few_links few
      carried four fits short can =
    let a = create_packet-Announced origin ol unset node_id sequence_num lsa size made in
    let sized =
      create_packet_size origin ol unset node_id sequence_num lsa size some_link four made in
    travel_from origin ol unset lsa 2 stops some_link few_links few carried
      (record {
        header =
            create_packet-IsHeader origin ol unset node_id sequence_num lsa size id seq few made;
        typed = a.type;
        fits = omega (arith, sized, fits);
        announces = create_packet-Announces origin ol unset node_id sequence_num lsa size made;
      })
      (omega (arith, a.ttl, short)) (omega (arith, a.cost)) (omega (arith, short)) can
