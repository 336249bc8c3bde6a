-- ===== src/Flooding/Flood.antt =====
-- rd/flooding_engine.c: `flood`, its loop, and the datagrams that it sends.
use p.Prelude.{
  ℕ, ◌+◌, ◌≤◌, ◌<◌, ◌≡◌, refl, true, false, List, [], ◌∷◌, ◌++◌, some, arith, ◌==◌, if◌then◌else◌,
  inl, inr, length, drop, length-drop, Bool-cases, sym, ◌∙◌, append_assoc, append-nil,
}
use p.Tables.{DirectLinks, LocalObjects}
use p.Lsa.{Lsa, create_packet}
use p.Lsa.Created.{create_packet-Announced}
use p.Lsa.Header.{type_lsa}
use p.Routing.Lookup.{get_routing_entry-Found}
use p.Routing.Update.Routes.{updated}
use p.Routing.Update.Effect.{update_entry-updated, updated_at-IsTable}
use p.Routing.{
  AckChecker, RoutingTable, get_routing_entry, status_down, ack_not_received, update_entry,
  count_entry,
}
use p.Routing.Update.{IsTable}
use p.Flooding.{Datagram, State, rt_sendto, flood_loop, flood}
use p.Flooding.Checkers.{modify_entry, set_entry_checker-modify, modify_entry-IsTable}
use p.Flooding.Nodes.{
  is_up, Known, IsTable-Known, SameNodes, SameNodes-refl, SameNodes-trans, modify_entry-SameNodes,
  is_up-same, Known-same, deref-up,
}

-- A datagram with the packet for each link of the list that is up, in their order.
unfoldable pub to_each_up : RoutingTable → DirectLinks → Lsa → ℕ → List Datagram
to_each_up rt [] lsa size = []
to_each_up rt (l ∷ ls) lsa size =
    if is_up rt l.id
    then record { packet = lsa; host = l.host; port = l.route_p; size = size }
      ∷ to_each_up rt ls lsa size
    else to_each_up rt ls lsa size

pub to_each_up-same :
    (rt rt' : RoutingTable) (ls : DirectLinks) (lsa : Lsa) (size : ℕ)
    → SameNodes rt rt'
    → to_each_up rt' ls lsa size ≡ to_each_up rt ls lsa size
unfolding to_each_up
to_each_up-same rt rt' [] lsa size h = refl
to_each_up-same rt rt' (l ∷ ls) lsa size h =
    rw (is_up-same rt rt' l.id h, to_each_up-same rt rt' ls lsa size h)

-- The state `s'` after a packet was sent from `s`: the table is well formed and has the same nodes
-- in the same state, the objects are as before, and `out` was sent.
pub record Sends (dl : DirectLinks) (s : State) (out : List Datagram) (s' : State) : Type 0 where
  pub table : IsTable dl s'.rt
  pub nodes : SameNodes s.rt s'.rt
  pub objects : s'.gol ≡ s.gol
  pub sent : s'.sent ≡ s.sent ++ out

abbrev pub not_acked : AckChecker → AckChecker
not_acked c = record c { ack_received = ack_not_received }

pub flood_loop-Sends :
    (dl ls : DirectLinks) (i k : ℕ) (lsa : Lsa) (size : ℕ) (s : State)
    → IsTable dl s.rt
    → Known s.rt ls
    → k < s.rt.num_entry
    → i + length ls ≤ length dl
    → (s' : State) × (flood_loop ls i k lsa size s ≡ some s')
      × Sends dl s (to_each_up s.rt ls lsa size) s'
unfolding flood_loop to_each_up
flood_loop-Sends dl [] i k lsa size s v known lt fits = (
  s,
  refl,
  record { table = v; nodes = SameNodes-refl s.rt; objects = refl; sent = sym (append-nil s.sent) },
)
flood_loop-Sends dl (l ∷ ls) i k lsa size s v known lt fits = elim (Bool-cases (is_up s.rt l.id)) [
  | inr down ↦
      let (e, at, up) = deref-up s.rt l.id known.0 in
      let (s', run, r) = flood_loop-Sends dl ls (i + 1) k lsa size s v known.1 lt (omega arith) in
      let off : e.node_status == status_down ≡ true = ground arith in
      (s', rw (at, off) run, rw down r)
  | inl up ↦
      let (e, at, same) = deref-up s.rt l.id known.0 in
      let on : e.node_status == status_down ≡ false = ground arith in
      let dg : Datagram = record { packet = lsa; host = l.host; port = l.route_p; size = size } in
      let rt' = modify_entry s.rt k i not_acked in
      let s1 : State = record s { rt = rt'; sent = s.sent ++ dg ∷ [] } in
      let kept = modify_entry-SameNodes s.rt k i not_acked in
      let (s', run, r) =
        flood_loop-Sends dl ls (i + 1) k lsa size s1
          (modify_entry-IsTable dl s.rt v k lt i not_acked) (Known-same s.rt rt' ls kept known.1) lt
          (omega arith) in
      (
        s',
        rw (at, on)
            (unfold rt_sendto in
              rw (set_entry_checker-modify dl s.rt v k lt i not_acked (omega arith)) run),
        rw up (record {
          table = r.table;
          nodes = SameNodes-trans kept r.nodes;
          objects = r.objects;
          sent = r.sent ∙ simp (append_assoc, to_each_up-same s.rt rt' ls lsa size kept);
        }),
      )
]

pub Known-drop : (dl : DirectLinks) (rt : RoutingTable) → Known rt dl → Known rt (drop 1 dl)
Known-drop [] rt h = tt
Known-drop (l ∷ ls) rt h = h.1

-- On a well-formed table with an entry of the node itself, and where the packet can be made, `flood`
-- returns, the table stays well formed, the objects are as before, and the new packet goes once to
-- each neighbour that is up, and to no other.
pub flood-Sends :
    (dl : DirectLinks) (ol : LocalObjects) (node_id sequence_num : ℕ) (unset : List ℕ) (s : State)
    (k : ℕ)
    → IsTable dl s.rt
    → 0 < length dl
    → get_routing_entry s.rt node_id ≡ some k
    → (lsa : Lsa) (size : ℕ)
    → create_packet type_lsa node_id sequence_num dl ol unset ≡ some (lsa, size)
    → (s' : State) × (flood type_lsa dl ol node_id sequence_num unset s ≡ some s')
      × Sends dl
          (record s { rt = updated s.rt dl (some k) lsa size node_id })
          (to_each_up (updated s.rt dl (some k) lsa size node_id) (drop 1 dl) lsa size)
          s'
unfolding flood
flood-Sends dl ol node_id sequence_num unset s k v own_link found lsa size made =
    let f = get_routing_entry-Found s.rt node_id k found in
    let made_ok = create_packet-Announced dl ol unset node_id sequence_num lsa size made in
    let own : get_routing_entry s.rt lsa.sender_node_id ≡ some k = rw made_ok.sender found in
    let rt' = updated s.rt dl (some k) lsa size node_id in
    let step : update_entry (some k) s.rt dl (some lsa) size node_id ≡ some rt' =
      rw own at (update_entry-updated dl s.rt lsa size node_id v made_ok.type (rw own tt)) in
    let v' : IsTable dl rt' =
      updated_at-IsTable dl s.rt lsa size node_id v made_ok.type (some k) own tt in
    let (s', run, r) =
      flood_loop-Sends dl (drop 1 dl) 1 k lsa size (record s { rt = rt' }) v'
        (Known-drop dl rt' (IsTable-Known dl rt' v')) (unfold count_entry in f.inside)
        (omega (arith, length-drop {0} 1 dl)) in
    (s', rw (made, found, step) run, r)
