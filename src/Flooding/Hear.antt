-- ===== src/Flooding/Hear.antt =====
-- rd/flooding_engine.c: `lsa_handler` on the first packet of a node with a new sequence number, from the
-- bytes that were received to the answer that is sent.
use p.Prelude.{
  ℕ, zero, suc, ◌+◌, ◌^◌, ◌≤◌, ◌<◌, ◌≡◌, refl, ap, ◌∙◌, sym, true, false, List, [], ◌∷◌, ◌++◌, some,
  arith, ◌==◌, length, take, take-all, get_elem?, sle, ltb, CString, str_eq, Option-cases,
  Bool-cases, inl, inr,
}
use mathlib.Core.Option.{some-injective}
use p.Tables.{LinkEntry, DirectLinks, LocalObjects}
use p.HashSet.{maxobjnum}
use p.Lsa.{Lsa, lsa_size, lsa_cost, int_bytes, packet_bytes, store_node_objects}
use p.Lsa.Header.{type_lsa, type_ack, get_type, set_type}
use p.Lsa.Layout.{IsHeader, bytes_to_packet-packet_bytes}
use p.Lsa.RoundTrip.{Announces, Carried, store_node_objects-Announces}
use p.Lsa.Learns.{Learns, add_objects-Learns}
use p.Routing.{
  RoutingTable, get_routing_entry, host_loop, lookup_link_entry, lookup_link_entry_node_id,
  update_entry,
}
use p.Routing.Update.{IsTable, get_elem?-lt}
use p.Routing.Update.Routes.{updated, HasPlace}
use p.Routing.Update.Effect.{update_entry-updated}
use p.Flooding.{
  State, max_lsa_len, datagram, rt_sendto, rt_recvfrom, is_stale, deref, age_lsa, handle_lsa,
  handle_packet, lsa_handler,
}
use p.Flooding.Routed.{HopsLinked, KeepsUp, updated_hops, updated_nodes}
use p.HashSet.Invariant.{is_some}
use p.Flooding.Age.{age_lsa-get_type}
use p.Flooding.Accept.{Accepts, handle_packet-Accepts}
use p.Flooding.Wellformed.{IsState, handle_packet-IsState}

-- The answer to a packet.
abbrev pub ack_of : Lsa → Lsa
ack_of lsa = record lsa { version_ttl_type = set_type lsa.version_ttl_type type_ack }

-- No packet of the sender is held that is as new.
abbrev pub IsNewer : State → Lsa → Type 0
IsNewer s lsa =
    (k : ℕ) (last : Lsa)
    → get_routing_entry s.rt lsa.sender_node_id ≡ some k
    → (s.rt.table k).lsa ≡ some last
    → sle lsa.sequence_num last.sequence_num ≡ false

-- After the packet of a node with the objects `ol` came through the link `l`: it is kept at its sender, which
-- is up, no node went down, the next hops stay links, its objects are in the table at the cost of the way, and it was answered through that link.
pub record Hears (dl : DirectLinks) (l : LinkEntry) (ol : LocalObjects) (lsa : Lsa) (size : ℕ)
    (s s' : State) : Type 0 where
  pub state : IsState dl s'
  pub accepts : Accepts dl lsa l.id size s'
  pub hops : HopsLinked dl s.rt → HopsLinked dl s'.rt
  pub ups : KeepsUp s.rt s'.rt
  pub learns : Learns ol lsa.sender_node_id (lsa_cost (age_lsa lsa)) s.gol s'.gol
  pub answers :
      s'.sent
      ≡ s.sent ++ record { packet = ack_of lsa; host = l.host; port = l.route_p; size = size } ∷ []

host_loop-at :
    (ls : DirectLinks) (address : CString) (l : LinkEntry)
    → host_loop ls address ≡ some l
    → (j : ℕ) × (get_elem? ls j ≡ some l)
unfolding host_loop
host_loop-at [] address l e = absurd (cc e)
host_loop-at (x ∷ ls) address l e = elim (Bool-cases (str_eq x.host address)) [
  | inl a ↦ (0, rw a at e)
  | inr a ↦ let (j, at) = host_loop-at ls address l (rw a at e) in (suc j, at)
]

lookup_by_id :
    (ls : DirectLinks) (j : ℕ) (l : LinkEntry)
    → get_elem? ls j ≡ some l
    → (i : ℕ) × (m : LinkEntry) × (lookup_link_entry_node_id ls l.id ≡ some m)
      × (get_elem? ls i ≡ some m)
      × (m.id ≡ l.id)
unfolding lookup_link_entry_node_id
lookup_by_id [] j l e = absurd (cc e)
lookup_by_id (x ∷ ls) zero l e = (0, x, ground arith, refl, ground arith)
lookup_by_id (x ∷ ls) (suc j) l e = elim (Bool-cases (x.id == l.id)) [
  | inl a ↦ (0, x, rw a refl, refl, ground (arith, a))
  | inr a ↦ let (i, m, found, at, same) = lookup_by_id ls j l e in (suc i, m, rw a found, at, same)
]

-- The link that the address gives is the one that its id gives.
forwarder_link :
    (dl : DirectLinks) (rt : RoutingTable) (address : CString) (l : LinkEntry)
    → IsTable dl rt
    → lookup_link_entry dl address ≡ some l
    → lookup_link_entry_node_id dl l.id ≡ some l
unfolding lookup_link_entry
forwarder_link [] rt address l t e = absurd (cc e)
forwarder_link (own ∷ ls) rt address l t e =
    let dl = own ∷ ls in
    let (j, at) = host_loop-at ls address l e in
    let (i, m, found, there, same) = lookup_by_id dl (suc j) l at in
    let index : i ≡ suc j =
      t.distinct i (suc j) (omega (arith, t.links, get_elem?-lt dl i m there))
        (omega (arith, t.links, get_elem?-lt dl (suc j) l at))
        (t.linked i m there ∙ same ∙ sym (t.linked (suc j) l at)) in
    let link : m ≡ l = some-injective _ _ (sym there ∙ ap (get_elem? dl) index ∙ at) in
    found ∙ ap some link

is_stale-newer :
    (s : State) (lsa : Lsa)
    → IsNewer s lsa
    → is_stale (deref s.rt (get_routing_entry s.rt lsa.sender_node_id)) type_lsa lsa ≡ false
unfolding is_stale deref
is_stale-newer s lsa h = elim (Option-cases (get_routing_entry s.rt lsa.sender_node_id)) [
  | inl a ↦ rw a refl
  | inr (k, a) ↦ elim (Option-cases (s.rt.table k).lsa) [
    | inl b ↦ rw (a, b) refl
    | inr (last, b) ↦ rw (a, b, h k last a b) refl
  ]
]

module _ (dl : DirectLinks) (address : CString) (l : LinkEntry) (s : State) (origin : DirectLinks)
    (ol : LocalObjects) (unset : List ℕ) (lsa : Lsa) (v : IsState dl s)
    (known : lookup_link_entry dl address ≡ some l) (word : lsa.version_ttl_type < 2 ^ 32)
    (typed : get_type lsa.version_ttl_type ≡ type_lsa) (newer : IsNewer s lsa)
    (place : HasPlace s.rt (get_routing_entry s.rt lsa.sender_node_id))
    (announces : Announces origin ol unset lsa) (some_link : 0 < length origin)
    (few_links : length origin < 2 ^ 28) (few : length ol < 2 ^ 31) (fit : Carried ol)
    (room : s.gol.num_objs + length ol ≤ maxobjnum) where
  handle_packet-Hears :
      (size : ℕ)
      → (s' : State) × (handle_packet dl lsa l.id size s ≡ some (s', true))
        × Hears dl l ol lsa size s s'
  unfolding handle_packet handle_lsa rt_sendto
  handle_packet-Hears size =
      let aged = age_lsa lsa in
      let same_sender : aged.sender_node_id ≡ lsa.sender_node_id = unfold age_lsa in refl in
      let typed' : get_type aged.version_ttl_type ≡ type_lsa = age_lsa-get_type lsa word ∙ typed in
      let announced : Announces origin ol unset aged = unfold age_lsa in announces in
      let o = get_routing_entry s.rt lsa.sender_node_id in
      let rt' = updated s.rt dl o aged size l.id in
      let link = forwarder_link dl s.rt address l v.table known in
      let routing : update_entry o s.rt dl (some aged) size l.id ≡ some rt' =
        unfold age_lsa in update_entry-updated dl s.rt aged size l.id v.table typed' place in
      let (gol', adding, learns) =
        add_objects-Learns ol aged.sender_node_id (lsa_cost aged) s.gol v.objects fit room in
      let storing : store_node_objects s.gol aged ≡ some gol' =
        store_node_objects-Announces origin ol unset s.gol aged announced some_link few_links few
          fit
        ∙ adding in
      let s' : State = record {
        rt = rt';
        gol = gol';
        sent =
            s.sent
            ++ record { packet = ack_of lsa; host = l.host; port = l.route_p; size = size } ∷ [];
      } in
      let run : handle_packet dl lsa l.id size s ≡ some (s', true) =
        rw (typed, is_stale-newer s lsa newer, link, routing, storing) refl in
      (
        s',
        run,
        record {
          state = handle_packet-IsState dl lsa l.id size s s' v word true run;
          accepts = handle_packet-Accepts dl lsa l.id size s s' v.table word typed run;
          hops = λ h. unfold age_lsa in updated_hops dl s.rt aged size l.id h (ap is_some link) o;
          ups = unfold age_lsa in updated_nodes dl s.rt aged size l.id o refl;
          learns = unfold age_lsa in learns;
          answers = refl;
        },
      )

  -- On a well-formed state, a datagram of at most 1024 bytes that is a packet of the type LSA with the objects
  -- of its sender, as `create_packet` lays them out, comes from the address of a link. The packet is
  -- newer than the one held of its sender, if any, and there is room for a new sender and for the
  -- objects. Then `lsa_handler` returns 1, the state stays well formed, the packet is kept, one hop
  -- older, at its sender, which is up, no node goes down, each object of the sender has the cheaper of its old path and
  -- the one to the sender and every other object keeps its paths, and the answer goes once to that link.
  pub lsa_handler-Hears :
      IsHeader lsa
      → length (packet_bytes lsa) ≤ max_lsa_len
      → (s' : State) × (lsa_handler (datagram (packet_bytes lsa) address) dl s ≡ some (s', true))
        × Hears dl l ol lsa (length (packet_bytes lsa)) s s'
  unfolding lsa_handler rt_recvfrom
  lsa_handler-Hears header fits =
      let bytes = packet_bytes lsa in
      let whole : take max_lsa_len bytes ≡ bytes = take-all {0} max_lsa_len bytes fits in
      let long : ltb (length bytes) lsa_size ≡ false =
        unfold packet_bytes int_bytes in ground arith in
      let (s', run, hears) = handle_packet-Hears (length bytes) in
      (s', rw (whole, long, bytes_to_packet-packet_bytes lsa header, known) run, hears)
