-- ===== src/Flooding/Accept.antt =====
-- rd/flooding_engine.c: `lsa_handler` on a packet of the type LSA, and what is kept of it.
use p.Prelude.{
  ℕ, ◌^◌, ◌<◌, ◌≡◌, refl, ap, ◌∙◌, sym, true, false, some, arith, sle, inl, inr, Option-cases,
}
use mathlib.Core.Option.{some-injective}
use p.Tables.{LinkEntry, DirectLinks}
use p.HashSet.{LisoHash}
use p.Lsa.{Lsa, store_node_objects}
use p.Lsa.Header.{type_lsa, get_type}
use p.Routing.{
  RoutingEntry, RoutingTable, get_routing_entry, lookup_link_entry_node_id, update_entry,
}
use p.Routing.Update.{IsTable}
use p.Routing.Update.Routes.{updated, entry_index}
use p.Routing.Update.Effect.{
  update_entry-eq, updated_at-IsTable, get_routing_entry-updated, Holds, updated-Holds,
}
use p.Flooding.{State, is_stale, deref, age_lsa, handle_lsa, handle_packet}
use p.Flooding.Age.{age_lsa-get_type}

-- The parts of a run of `handle_lsa` that returned.
pub record Handled (dl : DirectLinks) (lsa : Lsa) (forwarder_id size : ℕ) (s s' : State)
    : Type 0 where
  link : LinkEntry
  routes : RoutingTable
  pub objects : LisoHash
  updating :
      update_entry
        (get_routing_entry s.rt lsa.sender_node_id)
        s.rt
        dl
        (some (age_lsa lsa))
        size
        forwarder_id
      ≡ some routes
  pub storing : store_node_objects s.gol (age_lsa lsa) ≡ some objects
  rt : s'.rt ≡ routes
  pub gol : s'.gol ≡ objects

pub handle_lsa-Handled :
    (dl : DirectLinks) (lsa : Lsa) (forwarder_id size : ℕ) (s s' : State)
    → handle_lsa dl lsa forwarder_id size s ≡ some s'
    → Handled dl lsa forwarder_id size s s'
unfolding handle_lsa
handle_lsa-Handled dl lsa forwarder_id size s s' run =
    elim (Option-cases (lookup_link_entry_node_id dl forwarder_id)) [
      | inl e ↦ cc (rw e at run)
      | inr (link, e) ↦
          elim (Option-cases (
            update_entry (get_routing_entry s.rt lsa.sender_node_id) s.rt dl (some (age_lsa lsa))
              size forwarder_id)) [
                | inl u ↦ cc (rw (e, u) at run)
                | inr (routes, u) ↦ elim (Option-cases (store_node_objects s.gol (age_lsa lsa))) [
                  | inl o ↦ cc (rw (e, u, o) at run)
                  | inr (objects, o) ↦ record {
                    link = link;
                    routes = routes;
                    objects = objects;
                    updating = u;
                    storing = o;
                    rt = sym (ap (λ (t : State). t.rt) (some-injective _ _ (rw (e, u, o) at run)));
                    gol =
                        sym (ap (λ (t : State). t.gol) (some-injective _ _ (rw (e, u, o) at run)));
                  }
                ]
              ]
    ]

is_stale-older :
    (entry : RoutingEntry) (last again : Lsa)
    → entry.lsa ≡ some last
    → sle again.sequence_num last.sequence_num ≡ true
    → is_stale (some entry) type_lsa again ≡ true
unfolding is_stale
is_stale-older entry last again held older = ground arith

-- What is kept of an accepted packet: the table is well formed, and the entry of the sender is up
-- and holds the packet, one hop older.
pub record Accepts (dl : DirectLinks) (lsa : Lsa) (forwarder_id size : ℕ) (s' : State)
    : Type 0 where
  pub table : IsTable dl s'.rt
  pub index : ℕ
  pub found : get_routing_entry s'.rt lsa.sender_node_id ≡ some index
  pub holds : Holds (s'.rt.table index) (age_lsa lsa) size forwarder_id

module _ (dl : DirectLinks) (lsa : Lsa) (forwarder_id size : ℕ) (s s' : State) (v : IsTable dl s.rt)
    (word : lsa.version_ttl_type < 2 ^ 32) (is_lsa : get_type lsa.version_ttl_type ≡ type_lsa) where
  aged_type : get_type (age_lsa lsa).version_ttl_type ≡ type_lsa
  aged_type = age_lsa-get_type lsa word ∙ is_lsa

  pub Handled-Accepts : Handled dl lsa forwarder_id size s s' → Accepts dl lsa forwarder_id size s'
  unfolding age_lsa
  Handled-Accepts h =
      let aged = age_lsa lsa in
      let (room, same) = update_entry-eq dl s.rt aged size forwarder_id v aged_type h.updating in
      let entry = get_routing_entry s.rt lsa.sender_node_id in
      let at : s'.rt ≡ updated s.rt dl entry aged size forwarder_id = h.rt ∙ same in
      record {
        table =
            rw at (updated_at-IsTable dl s.rt aged size forwarder_id v aged_type entry refl room);
        index = entry_index s.rt entry;
        found = rw at (get_routing_entry-updated dl s.rt aged size forwarder_id v aged_type room);
        holds = rw at (updated-Holds s.rt dl entry aged size forwarder_id);
      }

  handled_run :
      handle_packet dl lsa forwarder_id size s ≡ some (s', true)
      → handle_lsa dl lsa forwarder_id size s ≡ some s'
  unfolding handle_packet
  handled_run run = elim (Option-cases (handle_lsa dl lsa forwarder_id size s)) [
    | inl e ↦ ground arith
    | inr (t, e) ↦ ground arith
  ]

  -- On a well-formed table, a packet that the handler accepts (it returns 1) is kept at its sender,
  -- one hop older; the sender is up, and the table stays well formed.
  pub handle_packet-Accepts :
      handle_packet dl lsa forwarder_id size s ≡ some (s', true)
      → Accepts dl lsa forwarder_id size s'
  handle_packet-Accepts run =
      Handled-Accepts (handle_lsa-Handled dl lsa forwarder_id size s s' (handled_run run))

  -- After the handler accepted a packet, on a well-formed table, a packet of the same node that is
  -- not newer is refused (the handler returns -1) and changes nothing, whichever link it comes from.
  pub handle_packet-once :
      handle_packet dl lsa forwarder_id size s ≡ some (s', true)
      → (again : Lsa) (forwarder_id' size' : ℕ) → get_type again.version_ttl_type ≡ type_lsa
      → again.sender_node_id ≡ lsa.sender_node_id
      → sle again.sequence_num lsa.sequence_num ≡ true
      → handle_packet dl again forwarder_id' size' s' ≡ some (s', false)
  unfolding handle_packet
  handle_packet-once run again forwarder_id' size' typed sender older =
      let a = handle_packet-Accepts run in
      let held : (s'.rt.table a.index).lsa ≡ some (age_lsa lsa) = a.holds.packet in
      let same : deref s'.rt (get_routing_entry s'.rt again.sender_node_id)
          ≡ some (s'.rt.table a.index) =
        unfold deref in rw (sender, a.found) in
      let stale =
        is_stale-older (s'.rt.table a.index) (age_lsa lsa) again held (unfold age_lsa in older) in
      rw (same, typed, stale)
