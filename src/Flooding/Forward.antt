-- ===== src/Flooding/Forward.antt =====
-- rd/flooding_engine.c: `flood_received_lsa`, its loop, and the datagrams that it sends.
use p.Prelude.{
  ℕ, ◌+◌, ◌≤◌, ◌<◌, ◌≡◌, refl, true, false, [], ◌∷◌, ◌++◌, some, arith, ◌==◌, if◌then◌else◌, inl,
  inr, length, drop, length-drop, Bool-cases, sym, ◌∙◌, append_assoc, append-nil,
}
use p.Tables.{DirectLinks}
use p.Lsa.{Lsa}
use p.Routing.{get_routing_entry, status_down}
use p.Routing.Lookup.{get_routing_entry-Found}
use p.Routing.Update.{IsTable}
use p.Flooding.{Datagram, State, rt_sendto, forward_loop, flood_received_lsa}
use p.Flooding.Checkers.{modify_entry, set_entry_checker-modify, modify_entry-IsTable}
use p.Flooding.Nodes.{
  is_up, Known, IsTable-Known, SameNodes-refl, SameNodes-trans, modify_entry-SameNodes, Known-same,
  deref-up,
}
use p.Flooding.Flood.{Sends, Known-drop, not_acked, to_each_up, to_each_up-same}

-- The links but those to one node.
abbrev pub all_but : ℕ → DirectLinks → DirectLinks
all_but id [] = []
all_but id (l ∷ ls) = if l.id == id then all_but id ls else l ∷ all_but id ls

forward_loop-Sends :
    (dl ls : DirectLinks) (i k : ℕ) (lsa : Lsa) (size from : ℕ) (s : State)
    → IsTable dl s.rt
    → Known s.rt ls
    → k < s.rt.num_entry
    → i + length ls ≤ length dl
    → (s' : State) × (forward_loop ls i k lsa size from s ≡ some s')
      × Sends dl s (to_each_up s.rt (all_but from ls) lsa size) s'
unfolding forward_loop to_each_up
forward_loop-Sends dl [] i k lsa size from s v known lt fits = (
  s,
  refl,
  record { table = v; nodes = SameNodes-refl s.rt; objects = refl; sent = sym (append-nil s.sent) },
)
forward_loop-Sends dl (l ∷ ls) i k lsa size from s v known lt fits =
    elim (Bool-cases (l.id == from)) [
      | inl same ↦
          let (s', run, r) =
            forward_loop-Sends dl ls (i + 1) k lsa size from s v known.1 lt (omega arith) in
          (s', rw same run, rw same r)
      | inr other ↦ elim (Bool-cases (is_up s.rt l.id)) [
        | inr down ↦
            let (e, at, up) = deref-up s.rt l.id known.0 in
            let (s', run, r) =
              forward_loop-Sends dl ls (i + 1) k lsa size from s v known.1 lt (omega arith) in
            let off : e.node_status == status_down ≡ true = ground arith in
            (s', rw (other, at, off) run, rw (other, down) r)
        | inl up ↦
            let (e, at, same) = deref-up s.rt l.id known.0 in
            let on : e.node_status == status_down ≡ false = ground arith in
            let dg : Datagram = record {
              packet = lsa;
              host = l.host;
              port = l.route_p;
              size = size;
            } in
            let rt' = modify_entry s.rt k i not_acked in
            let s1 : State = record s { rt = rt'; sent = s.sent ++ dg ∷ [] } in
            let kept = modify_entry-SameNodes s.rt k i not_acked in
            let (s', run, r) =
              forward_loop-Sends dl ls (i + 1) k lsa size from s1
                (modify_entry-IsTable dl s.rt v k lt i not_acked)
                (Known-same s.rt rt' ls kept known.1) lt (omega arith) in
            (
              s',
              rw (other, at, on)
                  (unfold rt_sendto in
                    rw (set_entry_checker-modify dl s.rt v k lt i not_acked (omega arith)) run),
              rw (other, up)
                  (record {
                    table = r.table;
                    nodes = SameNodes-trans kept r.nodes;
                    objects = r.objects;
                    sent =
                        r.sent
                        ∙ simp (
                          append_assoc,
                          to_each_up-same s.rt rt' (all_but from ls) lsa size kept,
                        );
                  }),
            )
      ]
    ]

-- On a well-formed table with an entry of the packet's sender, `flood_received_lsa` returns, and the
-- packet goes once to each neighbour that is up, except to the one that it came from; the table
-- stays well formed, with the same nodes in the same state, and the objects are as before.
pub flood_received_lsa-Sends :
    (dl : DirectLinks) (lsa : Lsa) (size forwarder_id : ℕ) (s : State) (k : ℕ)
    → IsTable dl s.rt
    → 0 < length dl
    → get_routing_entry s.rt lsa.sender_node_id ≡ some k
    → (s' : State) × (flood_received_lsa (some lsa) dl size forwarder_id s ≡ some s')
      × Sends dl s (to_each_up s.rt (all_but forwarder_id (drop 1 dl)) lsa size) s'
unfolding flood_received_lsa
flood_received_lsa-Sends dl lsa size from s k v some_link found =
    let f = get_routing_entry-Found s.rt lsa.sender_node_id k found in
    let (s', run, r) =
      forward_loop-Sends dl (drop 1 dl) 1 k lsa size from s v
        (Known-drop dl s.rt (IsTable-Known dl s.rt v)) f.inside
        (omega (arith, length-drop {0} 1 dl)) in
    (s', rw found run, r)
