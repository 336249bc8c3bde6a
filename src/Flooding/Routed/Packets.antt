-- ===== src/Flooding/Routed/Packets.antt =====
-- rd/flooding_engine.c: the routes after a packet was handled, flooded or forwarded.
use p.Prelude.{
  ℕ, ◌^◌, ◌<◌, ◌≡◌, refl, ap, ◌∙◌, sym, subst, Bool, List, some, arith, ◌==◌, inl, inr,
  Option-cases, Bool-cases, drop, rounds,
}
use mathlib.Core.Option.{some-injective}
use p.Tables.{DirectLinks, LocalObjects}
use p.Lsa.{Lsa, create_packet, store_node_objects}
use p.Lsa.Header.{type_lsa, type_ack, get_type}
use p.HashSet.Invariant.{is_some}
use p.HashSet.Names.{AllStored-keep}
use p.Routing.{RoutingTable, get_routing_entry, lookup_link_entry_node_id, update_entry}
use p.Routing.Update.{IsTable}
use p.Routing.Update.Routes.{updated}
use p.Routing.Update.Effect.{update_entry-eq}
use p.Flooding.{
  State, deref, rt_sendto, ack_loop, age_lsa, is_stale, handle_lsa, handle_ack, handle_packet,
  flood,
}
use p.Lsa.Created.{create_packet-Announced}
use p.Flooding.Age.{age_lsa-get_type}
use p.Flooding.Routed.Same.{SameRoutes-IsRouted, ack_loop-SameRoutes, flood_loop-SameRoutes}
use p.Flooding.Routed.{
  HasLink, NodeUp, IsRouted, KeepsUp, PathsUp-keep, store_loop-Stores, updated_home, updated_hops,
  updated_nodes, updated_sender,
}

-- The routes after `update_entry` on a packet of the type LSA.
pub update_entry-IsRouted :
    {ol : LocalObjects} (dl : DirectLinks) (lsa : Lsa) (size nexthop : ℕ) (s : State)
    (rt' : RoutingTable)
    → IsTable dl s.rt
    → get_type lsa.version_ttl_type ≡ type_lsa
    → HasLink dl nexthop
    → IsRouted dl ol s
    → update_entry (get_routing_entry s.rt lsa.sender_node_id) s.rt dl (some lsa) size nexthop
      ≡ some rt'
    → IsRouted dl ol (record s { rt = rt' }) × NodeUp rt' lsa.sender_node_id
update_entry-IsRouted {ol} dl lsa size nexthop s rt' t typed link v run =
    let o = get_routing_entry s.rt lsa.sender_node_id in
    let (room, at) = update_entry-eq dl s.rt lsa size nexthop t typed run in
    let u = updated s.rt dl o lsa size nexthop in
    let keeps : KeepsUp s.rt u = updated_nodes dl s.rt lsa size nexthop o refl in
    let (pos, home, up) = updated_home dl s.rt lsa size nexthop o v.some_entry v.home_up in
    subst (λ rt1. IsRouted dl ol (record s { rt = rt1 }) × NodeUp rt1 lsa.sender_node_id) (sym at)
      (
        record {
          valid = v.valid;
          hops = updated_hops dl s.rt lsa size nexthop v.hops link o;
          paths = PathsUp-keep s.rt u s.gol keeps v.paths;
          stored = v.stored;
          some_entry = pos;
          home_is = home ∙ v.home_is;
          home_up = up;
          apart = v.apart;
        },
        updated_sender dl s.rt lsa size nexthop o refl,
      )

module _ {ol : LocalObjects} (dl : DirectLinks) (lsa : Lsa) (f size : ℕ) (s s' : State)
    (t : IsTable dl s.rt) (v : IsRouted dl ol s) where
  handle_lsa-IsRouted :
      lsa.version_ttl_type < 2 ^ 32
      → get_type lsa.version_ttl_type ≡ type_lsa
      → handle_lsa dl lsa f size s ≡ some s'
      → IsRouted dl ol s'
  unfolding handle_lsa rt_sendto store_node_objects
  handle_lsa-IsRouted word typed run =
      let aged = age_lsa lsa in
      let own : aged.sender_node_id ≡ lsa.sender_node_id = unfold age_lsa in refl in
      let typed' : get_type aged.version_ttl_type ≡ type_lsa = age_lsa-get_type lsa word ∙ typed in
      let o = get_routing_entry s.rt lsa.sender_node_id in
      elim (Option-cases (lookup_link_entry_node_id dl f)) [
        | inl e ↦ absurd (cc (rw e at run))
        | inr (link, e) ↦ elim (Option-cases (update_entry o s.rt dl (some aged) size f)) [
          | inl a ↦ absurd (cc (rw (e, a) at run))
          | inr (rt', a) ↦ elim (Option-cases (store_node_objects s.gol aged)) [
            | inl b ↦ absurd (cc (rw (e, a, b) at run))
            | inr (gol', b) ↦
                let linked : HasLink dl f = ap is_some e in
                let (v', there) = update_entry-IsRouted dl aged size f s rt' t typed' linked v (
                  ap (λ id. update_entry (get_routing_entry s.rt id) s.rt dl (some aged) size f) own
                  ∙ a) in
                let stores =
                  store_loop-Stores _ _ rt' s.gol gol' aged.sender_node_id _ v.valid there v'.paths
                    b in
                subst (IsRouted dl ol) (some-injective _ _ (rw (e, a, b) at run)) (record {
                  valid = stores.valid;
                  hops = v'.hops;
                  paths = stores.paths;
                  stored = AllStored-keep ol s.gol gol' stores.names v.stored;
                  some_entry = v'.some_entry;
                  home_is = v'.home_is;
                  home_up = v'.home_up;
                  apart = v'.apart;
                })
          ]
        ]
      ]

  handle_ack-IsRouted : handle_ack lsa f s ≡ some s' → IsRouted dl ol s'
  unfolding handle_ack deref
  handle_ack-IsRouted run = elim (Option-cases (get_routing_entry s.rt lsa.sender_node_id)) [
    | inl a ↦ absurd (cc (rw a at run))
    | inr (k, a) ↦ elim (Option-cases (s.rt.table k).checkers_list) [
      | inl b ↦ absurd (cc (rw (a, b) at run))
      | inr (list, b) ↦ elim (Option-cases list.num_links) [
        | inl c ↦ absurd (cc (rw (a, b, c) at run))
        | inr (n, c) ↦ elim (Option-cases (ack_loop (rounds n) 0 list.checkers f s.rt)) [
          | inl d ↦ absurd (cc (rw (a, b, c, d) at run))
          | inr (rt', d) ↦ subst (IsRouted dl ol) (some-injective _ _ (rw (a, b, c, d) at run)) (
              SameRoutes-IsRouted dl s (record s { rt = rt' })
                (ack_loop-SameRoutes (rounds n) 0 list.checkers f s rt' d) v)
        ]
      ]
    ]
  ]

  pub handle_packet-IsRouted :
      (accepted : Bool)
      → lsa.version_ttl_type < 2 ^ 32
      → handle_packet dl lsa f size s ≡ some (s', accepted)
      → IsRouted dl ol s'
  unfolding handle_packet
  handle_packet-IsRouted accepted word run =
      let type = get_type lsa.version_ttl_type in
      let held = deref s.rt (get_routing_entry s.rt lsa.sender_node_id) in
      elim (Bool-cases (is_stale held type lsa)) [
        | inl old ↦ let same : s ≡ s' = ground (arith, run, old) in subst (IsRouted dl ol) same v
        | inr new ↦ elim (Bool-cases (type == type_lsa)) [
          | inl typed ↦ elim (Option-cases (handle_lsa dl lsa f size s)) [
            | inl e ↦ absurd (cc (rw (new, typed, e) at run))
            | inr (s1, e) ↦
                let same : s1 ≡ s' = ground (arith, run, new, typed, e) in
                handle_lsa-IsRouted word (ground arith) (e ∙ ap (λ x. some x) same)
          ]
          | inr other ↦ elim (Bool-cases (type == type_ack)) [
            | inl acks ↦ elim (Option-cases (handle_ack lsa f s)) [
              | inl e ↦ absurd (cc (rw (new, other, acks, e) at run))
              | inr (s1, e) ↦
                  let same : s1 ≡ s' = ground (arith, run, new, other, acks, e) in
                  handle_ack-IsRouted (e ∙ ap (λ x. some x) same)
            ]
            | inr none_such ↦
                let same : s ≡ s' = ground (arith, run, new, other, none_such) in
                subst (IsRouted dl ol) same v
          ]
        ]
      ]

-- The routes after the own packet was flooded.
pub flood-IsRouted :
    (dl : DirectLinks) (ol : LocalObjects) (node_id sequence_num : ℕ) (unset : List ℕ)
    (s s' : State)
    → IsTable dl s.rt
    → HasLink dl node_id
    → IsRouted dl ol s
    → flood type_lsa dl ol node_id sequence_num unset s ≡ some s'
    → IsRouted dl ol s'
unfolding flood
flood-IsRouted dl ol node_id sequence_num unset s s' t link v run =
    elim (Option-cases (create_packet type_lsa node_id sequence_num dl ol unset)) [
      | inl a ↦ absurd (cc (rw a at run))
      | inr ((lsa, size), a) ↦
          let made = create_packet-Announced dl ol unset node_id sequence_num lsa size a in
          let o = get_routing_entry s.rt node_id in
          elim (Option-cases (update_entry o s.rt dl (some lsa) size node_id)) [
            | inl b ↦ absurd (cc (rw (a, b) at run))
            | inr (rt', b) ↦ elim (Option-cases o) [
              | inl c ↦ absurd (cc (rw (a, b, c) at run))
              | inr (k, c) ↦
                  let (v', there) =
                    update_entry-IsRouted dl lsa size node_id s rt' t made.type link v (
                      ap
                        (λ id.
                          update_entry (get_routing_entry s.rt id) s.rt dl (some lsa) size node_id)
                        made.sender
                      ∙ b) in
                  SameRoutes-IsRouted dl (record s { rt = rt' }) s'
                    (flood_loop-SameRoutes (drop 1 dl) 1 k lsa size (record s { rt = rt' }) s'
                      (rw (a, b, c) at run))
                    v'
            ]
          ]
    ]
