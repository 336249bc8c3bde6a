-- ===== src/Engine/Period.antt =====
-- rd/engine_actions.c: the flooding period of `engine_event`, and the ageing of the entries.
use p.Prelude.{
  ℕ, zero, suc, ◌+◌, ◌-◌, ◌≤◌, ◌<◌, ◌≡◌, ◌≢◌, refl, not, ◌&&◌, ◌∷◌, List, none, some, arith, ◌==◌,
  inl, inr, length, Bool-cases, Option-cases, ◌∙◌, sym, subst, write, add32,
}
use p.Tables.{LinkEntry, DirectLinks, LocalObjects}
use p.Lsa.{Lsa, create_packet}
use p.Lsa.Header.{type_lsa}
use p.HashSet.{hash_remove_node, get_paths}
use p.HashSet.Invariant.{IsValid}
use p.HashSet.RemoveNode.{Avoids, hash_remove_node-Removes, get_paths-hash_remove_node}
use p.Routing.{count_entry, get_routing_entry, status_down}
use p.Routing.Lookup.{get_routing_entry-at}
use p.Routing.Update.Routes.{put-IsTable}
use p.Flooding.{State}
use p.Flooding.Wellformed.{IsState}
use p.Flooding.Nodes.{SameNodes, SameNodes-refl, get_routing_entry-linked}
use p.Flooding.Flood.{flood-Sends}
use p.Flooding.Forward.{flood_received_lsa-Sends}
use p.Engine.{Engine, age_entry, flood_entry, flood_entries, flood_all}

-- What one ageing does to entry `i`: its status goes down by one, and where it comes to 0 the packet
-- is dropped and no object is found at the node.
pub record Ages (dl : DirectLinks) (i : ℕ) (s s' : State) : Type 0 where
  pub state : IsState dl s'
  pub count : s'.rt.num_entry ≡ s.rt.num_entry
  pub ids : (j : ℕ) → (s'.rt.table j).id ≡ (s.rt.table j).id
  pub status : (s'.rt.table i).node_status ≡ (s.rt.table i).node_status - 1
  pub others : (j : ℕ) → j ≢ i → s'.rt.table j ≡ s.rt.table j
  pub sent : s'.sent ≡ s.sent
  pub dead :
      (s.rt.table i).node_status ≡ 1
      → ((s'.rt.table i).lsa ≡ none) × ((q : _) → Avoids (s.rt.table i).id (get_paths s'.gol q))

module _ (dl : DirectLinks) (i : ℕ) (s : State) (v : IsState dl s) (lt : i < s.rt.num_entry) where
  still-Ages : (s.rt.table i).node_status ≡ 0 → Ages dl i s s
  still-Ages down = record {
    state = v;
    count = refl;
    ids = λ j. refl;
    status = omega arith;
    others = λ j ne. refl;
    sent = refl;
    dead = λ e. absurd (omega arith);
  }

  live-Ages :
      1 < (s.rt.table i).node_status
      → let e = record (s.rt.table i) { node_status = (s.rt.table i).node_status - 1 } in
        Ages dl i s (record s { rt = record s.rt { table = write s.rt.table i e } })
  live-Ages up =
      let e = record (s.rt.table i) { node_status = (s.rt.table i).node_status - 1 } in
      record {
        state = record {
          table = put-IsTable dl s.rt v.table i e lt refl (record {
            fits = v.table.fits i;
            allocated = v.table.allocated i lt;
            owned = λ lsa at. v.table.owned i lsa lt at;
            pending = λ new on. v.table.pending i lt new (omega arith);
          });
          objects = v.objects;
        };
        count = refl;
        ids = λ j. ground arith;
        status = ground arith;
        others = λ j ne. ground arith;
        sent = refl;
        dead = λ one. absurd (omega arith);
      }

  dead-Ages :
      (s.rt.table i).node_status ≡ 1
      → let e = record (s.rt.table i) {
        node_status = (s.rt.table i).node_status - 1;
        lsa = none;
      } in
        Ages dl i s (record s {
          rt = record s.rt { table = write s.rt.table i e };
          gol = hash_remove_node s.gol (s.rt.table i).id;
        })
  dead-Ages last =
      let e = record (s.rt.table i) { node_status = (s.rt.table i).node_status - 1; lsa = none } in
      record {
        state = record {
          table = put-IsTable dl s.rt v.table i e lt refl (record {
            fits = v.table.fits i;
            allocated = v.table.allocated i lt;
            owned = λ lsa at. cc at;
            pending = λ new on. absurd (omega arith);
          });
          objects = (hash_remove_node-Removes s.gol (s.rt.table i).id v.objects).valid;
        };
        count = refl;
        ids = λ j. ground arith;
        status = ground arith;
        others = λ j ne. ground arith;
        sent = refl;
        dead = λ one.
            (ground arith, λ q. get_paths-hash_remove_node s.gol (s.rt.table i).id q v.objects);
      }

  -- On a well-formed state, ageing an entry keeps the state well formed and lowers the status of that
  -- entry, down to 0, by one; a node that comes down to 0 loses its packet, and no lookup of an
  -- object is sent to it.
  pub age_entry-Ages : Ages dl i s (age_entry i s)
  unfolding age_entry
  age_entry-Ages = elim (Bool-cases ((s.rt.table i).node_status == 0)) [
    | inl down ↦ rw down (still-Ages (ground arith))
    | inr up ↦ elim (Bool-cases ((s.rt.table i).node_status - 1 == 0)) [
      | inl last ↦ rw (up, last) (dead-Ages (ground arith))
      | inr more ↦ rw (up, more) (live-Ages (ground arith))
    ]
  ]

-- What the flooding loop leaves: a well-formed state with the same nodes, where every node of the
-- rounds has aged by one.
pub record Aged (dl : DirectLinks) (n i : ℕ) (s s' : State) : Type 0 where
  pub state : IsState dl s'
  pub count : s'.rt.num_entry ≡ s.rt.num_entry
  pub ids : (j : ℕ) → (s'.rt.table j).id ≡ (s.rt.table j).id
  pub inside :
      (j : ℕ) → i ≤ j → j < i + n → (s'.rt.table j).node_status ≡ (s.rt.table j).node_status - 1
  pub before : (j : ℕ) → j < i → (s'.rt.table j).node_status ≡ (s.rt.table j).node_status

flood_entry-Ages :
    (dl : DirectLinks) (i : ℕ) (s : State)
    → IsState dl s
    → 0 < length dl
    → i < s.rt.num_entry
    → (m : State) × (s' : State) × (flood_entry dl i s ≡ some s')
      × SameNodes s.rt m.rt
      × Ages dl i m s'
unfolding flood_entry
flood_entry-Ages dl i s v some_link lt =
    let e = s.rt.table i in
    elim (Bool-cases (e.lsa_is_new == 1 && not (e.node_status == status_down))) [
      | inr idle ↦ (s, age_entry i s, rw idle refl, SameNodes-refl s.rt, age_entry-Ages dl i s v lt)
      | inl new ↦ elim (Option-cases e.lsa) [
        | inl gone ↦ absurd (ground (arith, v.table.pending i lt, gone))
        | inr (lsa, at) ↦
            let own : get_routing_entry s.rt lsa.sender_node_id ≡ some i =
              rw (v.table.owned i lsa lt at) (get_routing_entry-at s.rt i lt v.table.distinct) in
            let (m, run, r) =
              flood_received_lsa-Sends dl lsa e.lsa_size e.forwarder_id s i v.table some_link own in
            let v' : IsState dl m = record {
              table = r.table;
              objects = subst IsValid (sym r.objects) v.objects;
            } in
            (
              m,
              age_entry i m,
              rw (new, at, run) refl,
              r.nodes,
              age_entry-Ages dl i m v' (omega (arith, r.nodes.count)),
            )
      ]
    ]

flood_entries-Aged :
    (n i : ℕ) (dl : DirectLinks) (s : State)
    → IsState dl s
    → 0 < length dl
    → i + n ≤ s.rt.num_entry
    → (s' : State) × (flood_entries n i dl s ≡ some s') × Aged dl n i s s'
unfolding flood_entries
flood_entries-Aged zero i dl s v some_link fits = (
  s,
  refl,
  record {
    state = v;
    count = refl;
    ids = λ j. refl;
    inside = λ j lo hi. absurd (omega arith);
    before = λ j lt. refl;
  },
)
flood_entries-Aged (suc n) i dl s v some_link fits =
    let (m, s1, run, same, a) = flood_entry-Ages dl i s v some_link (omega arith) in
    let (s', rest, r) =
      flood_entries-Aged n (i + 1) dl s1 a.state some_link (omega (arith, a.count, same.count)) in
    (
      s',
      rw run rest,
      record {
        state = r.state;
        count = r.count ∙ a.count ∙ same.count;
        ids = λ j. r.ids j ∙ a.ids j ∙ same.ids j;
        inside =
            λ j lo hi. ground (arith, r.inside j, r.before j, a.status, a.others j, same.status j);
        before = λ j lt. ground (arith, r.before j, a.others j, same.status j);
      },
    )

-- What a flooding period does: the tables stay well formed, the next sequence number is due, the
-- count of timeouts starts again, and every other node has aged by one.
pub record Floods (dl : DirectLinks) (my_node_id : ℕ) (e e' : Engine) : Type 0 where
  pub state : IsState dl e'.net
  pub sequence : e'.sequence_number ≡ add32 e.sequence_number 1
  pub restarted : e'.iterations ≡ 0
  pub count : e'.net.rt.num_entry ≡ e.net.rt.num_entry
  pub aged :
      (j : ℕ)
      → 0 < j
      → j < e.net.rt.num_entry
      → (e'.net.rt.table j).node_status ≡ (e.net.rt.table j).node_status - 1

created :
    (dl : DirectLinks) (ol : LocalObjects) (unset : List ℕ) (node_id sequence_num : ℕ)
    → (lsa : Lsa) × (size : ℕ) × (create_packet type_lsa node_id sequence_num dl ol unset
        ≡ some (lsa, size))
unfolding create_packet
created dl ol unset node_id sequence_num = (_, _, refl)

-- On a well-formed state whose first link is the node's own, a flooding period runs without a
-- fault, keeps the state well formed, takes the next sequence number, and ages every other node by
-- one.
pub flood_all-Floods :
    (own : LinkEntry) (dl : DirectLinks) (unset : List ℕ) (e : Engine)
    → IsState (own ∷ dl) e.net
    → (e' : Engine) × (flood_all (own ∷ dl) own.id unset e ≡ some e')
      × Floods (own ∷ dl) own.id e e'
unfolding flood_all count_entry
flood_all-Floods own dl unset e v =
    let links = own ∷ dl in
    let s = e.net in
    let (lsa, size, made) = created links e.ol unset own.id e.sequence_number in
    let found = get_routing_entry-linked links s.rt 0 own v.table refl in
    let (s1, run, r) =
      flood-Sends links e.ol own.id e.sequence_number unset s 0 v.table (omega arith) found lsa size
        made in
    let v1 : IsState links s1 = record {
      table = r.table;
      objects = subst IsValid (sym r.objects) v.objects;
    } in
    let (s2, rest, a) =
      flood_entries-Aged (s1.rt.num_entry - 1) 1 links s1 v1 (omega arith)
        (omega (arith, r.table.links)) in
    (
      record e { net = s2; sequence_number = add32 e.sequence_number 1; iterations = 0 },
      rw (run, rest) refl,
      record {
        state = a.state;
        sequence = refl;
        restarted = refl;
        count = a.count ∙ r.nodes.count;
        aged = λ j pos lt. ground (arith, a.inside j, r.nodes.status j, r.nodes.count);
      },
    )
