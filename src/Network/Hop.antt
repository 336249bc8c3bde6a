-- ===== src/Network/Hop.antt =====
-- rd/engine_actions.c and rd/flooding_engine.c: a packet that a node took in is sent on.
use p.Prelude.{
  ℕ, zero, suc, ◌+◌, ◌≤◌, ◌<◌, ◌≡◌, ◌≢◌, refl, ap, ◌∙◌, subst, true, false, not, ◌&&◌, List, [],
  ◌∷◌, some, arith, ◌==◌, length, length-drop, drop, get_elem?, Option-cases, Bool-cases, inl, inr,
}
use p.Tables.{LinkEntry, DirectLinks, LocalObjects}
use p.Lsa.{Lsa, int_bytes, packet_bytes}
use p.Lsa.Header.{type_lsa, get_ttl, get_type}
use p.Lsa.Layout.{IsHeader}
use p.Lsa.RoundTrip.{Announces}
use p.Routing.{RoutingTable, status_down}
use p.Routing.Update.{get_elem?-lt}
use p.Flooding.{State, max_lsa_len, age_lsa, flood_received_lsa}
use p.Flooding.Age.{age_lsa-get_type, age_lsa_word}
use p.Flooding.Nodes.{is_up}
use p.Flooding.Forward.{all_but, flood_received_lsa-Sends}
use p.Flooding.Hear.{Hears}
use p.Engine.{age_entry, flood_entry}
use p.Flooding.Nodes.{is_up-at}
use p.Flooding.Routed.{KeepsUp, NodeUp}
use p.Routing.{RoutingTable, get_routing_entry, status_down}
use p.Routing.Lookup.{get_routing_entry-Found}
use p.Routing.Update.{IsTable}
use p.Network.{to_link, Sent, to_each_up-at, get_elem?-append}

is_up-NodeUp : (rt : RoutingTable) (id : ℕ) → is_up rt id ≡ true → NodeUp rt id
unfolding is_up
is_up-NodeUp rt id up = elim (Option-cases (get_routing_entry rt id)) [
  | inl e ↦ absurd (cc (rw (is_up, e) at up))
  | inr (k, e) ↦
      let f = get_routing_entry-Found rt id k e in (k, f.inside, f.same, ground (arith, e, up))
]

all_but-at :
    (id j : ℕ) (ls : DirectLinks) (l : LinkEntry)
    → get_elem? ls j ≡ some l
    → l.id ≢ id
    → (k : ℕ) × (get_elem? (all_but id ls) k ≡ some l)
all_but-at id j [] l at ne = absurd (cc at)
all_but-at id zero (m ∷ ls) l at ne =
    let same : m ≡ l = ground arith in
    let other : (m.id == id) ≡ false = ground (arith, same, ne) in (0, rw other at)
all_but-at id (suc j) (m ∷ ls) l at ne =
    let (k, there) = all_but-at id j ls l at ne in
    elim (Bool-cases (m.id == id)) [ inl from ↦ (k, rw from there) | inr on ↦ (suc k, rw on there) ]

age_entry-sent : (i : ℕ) (s : State) → (age_entry i s).sent ≡ s.sent
unfolding age_entry
age_entry-sent i s = ground arith

pub is_up-keep :
    (dl : DirectLinks) (rt rt' : RoutingTable) (id : ℕ)
    → IsTable dl rt'
    → KeepsUp rt rt'
    → is_up rt id ≡ true
    → is_up rt' id ≡ true
is_up-keep dl rt rt' id v keeps up =
    let (k, lt, same, on) = keeps id (is_up-NodeUp rt id up) in
    subst (λ n. is_up rt' n ≡ true) same (is_up-at dl rt' k v lt on)

-- A packet that can be taken in, whoever built it: its fields are words, it is of the type LSA, it fits the
-- buffer, and it holds the links and objects of its sender.
pub record IsPacket (origin : DirectLinks) (ol : LocalObjects) (unset : List ℕ) (lsa : Lsa)
    : Type 0 where
  pub header : IsHeader lsa
  pub typed : get_type lsa.version_ttl_type ≡ type_lsa
  pub fits : length (packet_bytes lsa) ≤ max_lsa_len
  pub announces : Announces origin ol unset lsa

pub age_lsa-IsPacket :
    (origin : DirectLinks) (ol : LocalObjects) (unset : List ℕ) (lsa : Lsa)
    → 0 < get_ttl lsa.version_ttl_type
    → IsPacket origin ol unset lsa
    → IsPacket origin ol unset (age_lsa lsa)
age_lsa-IsPacket origin ol unset lsa ttl v =
    let word = v.header.version_ttl_type in
    let same : length (packet_bytes (age_lsa lsa)) ≡ length (packet_bytes lsa) =
      unfold packet_bytes int_bytes age_lsa in refl in
    record {
      header = record {
        version_ttl_type = age_lsa_word lsa word ttl;
        sender_node_id = unfold age_lsa in v.header.sender_node_id;
        sequence_num = unfold age_lsa in v.header.sequence_num;
        num_links = unfold age_lsa in v.header.num_links;
        num_objects = unfold age_lsa in v.header.num_objects;
      };
      typed = age_lsa-get_type lsa word ∙ v.typed;
      fits = omega (arith, same, v.fits);
      announces = unfold age_lsa in v.announces;
    }

-- When the flooding period comes to the entry of a packet that was taken in, the packet is sent on, one hop
-- older, to a neighbour that is up and is not the one it came from.
pub sends_on :
    (dl : DirectLinks) (l : LinkEntry) (ol : LocalObjects) (lsa : Lsa) (size : ℕ) (s0 s : State)
    (j : ℕ) (c : LinkEntry)
    → (heard : Hears dl l ol lsa size s0 s) → get_elem? (drop 1 dl) j ≡ some c
    → c.id ≢ l.id
    → is_up s.rt c.id ≡ true
    → (s' : State) × (flood_entry dl heard.accepts.index s ≡ some s')
      × Sent (to_link c (age_lsa lsa) size) s'
unfolding flood_entry
sends_on dl l ol lsa size s0 s j c heard at ne up =
    let aged = age_lsa lsa in
    let a = heard.accepts in
    let entry = s.rt.table a.index in
    let h = a.holds in
    let (s1, run, sends) =
      flood_received_lsa-Sends dl aged size l.id s a.index heard.state.table
        (omega (arith, get_elem?-lt (drop 1 dl) j c at, length-drop {0} 1 dl))
        (unfold age_lsa in a.found) in
    let new : (entry.lsa_is_new == 1 && not (entry.node_status == status_down)) ≡ true =
      ground (arith, h.new, h.status) in
    let forward : flood_received_lsa entry.lsa dl entry.lsa_size entry.forwarder_id s ≡ some s1 =
      rw (h.packet, h.length, h.forwarder) run in
    let (i, there) = all_but-at l.id j (drop 1 dl) c at ne in
    let (k, out) = to_each_up-at s.rt (all_but l.id (drop 1 dl)) aged size i c there up in
    (
      age_entry a.index s1,
      rw (new, forward) refl,
      (
        length s.sent + k,
        ap (λ g. get_elem? g (length s.sent + k)) (age_entry-sent a.index s1 ∙ sends.sent)
            ∙ get_elem?-append s.sent _ k
            ∙ out,
      ),
    )
