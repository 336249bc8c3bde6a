-- ===== src/Routing/Update/Effect.antt =====
-- rd/flooding_engine.c: `update_entry` on a packet of the type LSA.
use p.Prelude.{
  ℕ, ◌<◌, ◌≡◌, refl, ap, Option, none, some, arith, write, inl, inr, ltb, sym, ◌∙◌, Bool-cases,
  ltb→lt,
}
use mathlib.Core.Option.{some-injective}
use p.Tables.{DirectLinks, max_nodes}
use p.Lsa.{Lsa}
use p.Lsa.Header.{type_lsa, get_type}
use p.Routing.{
  RoutingEntry, RoutingTable, get_routing_entry, retransmit_time, route_entry, count_entry,
  update_entry,
}
use p.Routing.Lookup.{get_routing_entry-Found, get_routing_entry-none, get_routing_entry-at}
use p.Routing.Update.{FitsLinks, attached, attach_lsa-attached, IsTable}
use p.Routing.Update.Routes.{
  put-IsTable, push-IsTable, attached-IsEntry, routed, entry_index, HasPlace, route_entry-routed,
  updated,
}

module _ (dl : DirectLinks) (rt : RoutingTable) (lsa : Lsa) (lsa_size nexthop : ℕ)
    (v : IsTable dl rt) (is_lsa : get_type lsa.version_ttl_type ≡ type_lsa) where
  abbrev pub entry : Option ℕ
  entry = get_routing_entry rt lsa.sender_node_id

  fits_routed : (o : Option ℕ) → FitsLinks dl (routed rt o lsa nexthop).checkers_list
  fits_routed none = v.fits rt.num_entry
  fits_routed (some i) = v.fits i

  -- With a place for the sender `update_entry` returns, with one entry written.
  pub update_entry-updated :
      HasPlace rt entry
      → update_entry entry rt dl (some lsa) lsa_size nexthop
        ≡ some (updated rt dl entry lsa lsa_size nexthop)
  unfolding update_entry
  update_entry-updated room = rw (
    is_lsa,
    route_entry-routed entry rt lsa nexthop room,
    attach_lsa-attached dl lsa lsa_size nexthop (routed rt entry lsa nexthop) (fits_routed entry),
  )

  pub updated_at-IsTable :
      (o : Option ℕ) → entry ≡ o → HasPlace rt o → IsTable dl (updated rt dl o lsa lsa_size nexthop)
  unfolding count_entry
  updated_at-IsTable none e room =
      push-IsTable dl rt v (attached dl lsa lsa_size nexthop (routed rt none lsa nexthop)) room
        (λ k lt. get_routing_entry-none rt lsa.sender_node_id k e lt)
        (attached-IsEntry dl lsa lsa_size nexthop (routed rt none lsa nexthop) refl)
  updated_at-IsTable (some i) e room =
      let f = get_routing_entry-Found rt lsa.sender_node_id i e in
      put-IsTable dl rt v i (attached dl lsa lsa_size nexthop (routed rt (some i) lsa nexthop))
        f.inside refl
        (attached-IsEntry dl lsa lsa_size nexthop (routed rt (some i) lsa nexthop) (sym f.same))

  -- On a well-formed table that holds the entry, or has a place for a new one, `update_entry`
  -- returns and keeps the table well formed.
  pub update_entry-IsTable :
      HasPlace rt entry
      → (rt' : RoutingTable) × (update_entry entry rt dl (some lsa) lsa_size nexthop ≡ some rt')
        × IsTable dl rt'
  update_entry-IsTable room = (
    updated rt dl entry lsa lsa_size nexthop,
    update_entry-updated room,
    updated_at-IsTable entry refl room,
  )

  -- If it returns, there was a place, and the result is that one write.
  pub update_entry-eq :
      {rt' : RoutingTable}
      → update_entry entry rt dl (some lsa) lsa_size nexthop ≡ some rt'
      → HasPlace rt entry × (rt' ≡ updated rt dl entry lsa lsa_size nexthop)
  unfolding update_entry
  update_entry-eq {rt'} run = go (has_place entry refl)
    where
      has_place : (o : Option ℕ) → entry ≡ o → HasPlace rt o
      has_place (some i) e = tt
      has_place none e = elim (Bool-cases (ltb rt.num_entry max_nodes)) [
        | inl room ↦ ltb→lt rt.num_entry max_nodes room
        | inr full ↦ cc (rw (e, update_entry, is_lsa, route_entry, full) at run)
      ]

      go : HasPlace rt entry → HasPlace rt entry × (rt' ≡ updated rt dl entry lsa lsa_size nexthop)
      go room = (room, some-injective _ _ (sym run ∙ update_entry-updated room))

  updated_id : (o : Option ℕ) → entry ≡ o → (routed rt o lsa nexthop).id ≡ lsa.sender_node_id
  updated_id none e = refl
  updated_id (some i) e = (get_routing_entry-Found rt lsa.sender_node_id i e).same

  index_inside :
      (o : Option ℕ)
      → entry ≡ o
      → entry_index rt o < (updated rt dl o lsa lsa_size nexthop).num_entry
  unfolding count_entry
  index_inside none e = omega arith
  index_inside (some i) e = (get_routing_entry-Found rt lsa.sender_node_id i e).inside

  -- The lookup of the sender then finds the written entry.
  pub get_routing_entry-updated :
      HasPlace rt entry
      → get_routing_entry (updated rt dl entry lsa lsa_size nexthop) lsa.sender_node_id
        ≡ some (entry_index rt entry)
  get_routing_entry-updated room = go entry refl room
    where
      go :
          (o : Option ℕ)
          → entry ≡ o
          → HasPlace rt o
          → get_routing_entry (updated rt dl o lsa lsa_size nexthop) lsa.sender_node_id
            ≡ some (entry_index rt o)
      go o e room =
          let rt' = updated rt dl o lsa lsa_size nexthop in
          let at = entry_index rt o in
          let here : (rt'.table at).id ≡ lsa.sender_node_id = ground (arith, updated_id o e) in
          rw here at
            (get_routing_entry-at rt' at (index_inside o e) (updated_at-IsTable o e room).distinct)

write_self : {A : Type 0} (f : ℕ → A) (i : ℕ) (a : A) → write f i a i ≡ a
write_self f i a = ground arith

-- What the written entry holds, whether it is new or not.
pub record Holds (e : RoutingEntry) (lsa : Lsa) (lsa_size nexthop : ℕ) : Type 0 where
  pub packet : e.lsa ≡ some lsa
  pub status : e.node_status ≡ retransmit_time
  pub forwarder : e.forwarder_id ≡ nexthop
  pub length : e.lsa_size ≡ lsa_size
  pub new : e.lsa_is_new ≡ 1

routed_status :
    (rt : RoutingTable) (o : Option ℕ) (lsa : Lsa) (nexthop : ℕ)
    → (routed rt o lsa nexthop).node_status ≡ retransmit_time
routed_status rt none lsa nexthop = refl
routed_status rt (some i) lsa nexthop = refl

pub updated-Holds :
    (rt : RoutingTable) (dl : DirectLinks) (o : Option ℕ) (lsa : Lsa) (lsa_size nexthop : ℕ)
    → Holds ((updated rt dl o lsa lsa_size nexthop).table (entry_index rt o)) lsa lsa_size nexthop
updated-Holds rt dl o lsa lsa_size nexthop =
    let e = attached dl lsa lsa_size nexthop (routed rt o lsa nexthop) in
    let there = write_self rt.table (entry_index rt o) e in
    record {
      packet = ap (λ (t : RoutingEntry). t.lsa) there;
      status = ap (λ (t : RoutingEntry). t.node_status) there ∙ routed_status rt o lsa nexthop;
      forwarder = ap (λ (t : RoutingEntry). t.forwarder_id) there;
      length = ap (λ (t : RoutingEntry). t.lsa_size) there;
      new = ap (λ (t : RoutingEntry). t.lsa_is_new) there;
    }
