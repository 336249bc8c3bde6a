-- ===== src/Flooding/Own.antt =====
-- rd/flooding_engine.c: the own packet, from `flood` to the last ACK.
use p.Prelude.{
  ℕ, suc, ◌^◌, ◌≤◌, ◌<◌, ◌≡◌, refl, ap, ◌∙◌, sym, true, List, [], ◌∷◌, some, arith, length,
  get_elem?, Bool-cases, inl, inr,
}
use p.Tables.{LinkEntry, DirectLinks, LocalObjects}
use p.Lsa.{Lsa, packet_bytes, create_packet}
use p.Lsa.Header.{type_lsa}
use p.Lsa.Created.{create_packet-Announced}
use p.Lsa.Layout.{IsHeader}
use p.Lsa.RoundTrip.{create_packet-Announces, create_packet_size}
use p.Routing.{
  AckChecker, RoutingTable, get_routing_entry, update_entry, ensure_checkers, count_entry,
}
use p.Routing.Update.{IsTable, settled}
use p.Routing.Update.Routes.{updated}
use p.Routing.Update.Effect.{update_entry-updated, updated_at-IsTable}
use p.Flooding.{State, max_lsa_len, flood, retransmit_missing}
use p.Flooding.Nodes.{is_up, get_routing_entry-linked}
use p.Flooding.Flood.{flood-Sends}
use p.Flooding.Routed.{HasLink}
use p.Flooding.Marks.{counted, Owns}
use p.Flooding.Owed.{done_link, owed, length-owed, flood_loop-Owes}
use p.Flooding.Settle.{Awaits, Reached, answers, answers-settle}

-- Each of the links that is up is one of `links`.
abbrev pub UpIn : RoutingTable → DirectLinks → DirectLinks → Type 0
UpIn rt [] links = Unit
UpIn rt (l ∷ ls) links = (is_up rt l.id ≡ true → HasLink links l.id) × UpIn rt ls links

pub create_packet-IsHeader :
    (dl : DirectLinks) (ol : LocalObjects) (unset : List ℕ) (node_id sequence_num : ℕ) (lsa : Lsa)
    (size : ℕ)
    → node_id < 2 ^ 32
    → sequence_num < 2 ^ 32
    → length ol < 2 ^ 31
    → create_packet type_lsa node_id sequence_num dl ol unset ≡ some (lsa, size)
    → IsHeader lsa
create_packet-IsHeader dl ol unset node_id sequence_num lsa size id seq few e =
    let a = create_packet-Announced dl ol unset node_id sequence_num lsa size e in
    let (links, objects, bytes) =
      create_packet-Announces dl ol unset node_id sequence_num lsa size e in
    record {
      version_ttl_type = a.word;
      sender_node_id = omega (arith, a.sender, id);
      sequence_num = omega (arith, a.sequence, seq);
      num_links = omega (arith, links);
      num_objects = omega (arith, objects, few);
    }

module _ (own : LinkEntry) (dl : DirectLinks) (ol : LocalObjects) (seq : ℕ) (unset : List ℕ)
    (s : State) (lsa : Lsa) (size : ℕ) (v : IsTable (own ∷ dl) s.rt)
    (made : create_packet type_lsa own.id seq (own ∷ dl) ol unset ≡ some (lsa, size)) where
  -- The table with the new packet.
  abbrev pub renewed : RoutingTable
  renewed = updated s.rt (own ∷ dl) (some 0) lsa size own.id

  pub found_own : get_routing_entry s.rt own.id ≡ some 0
  found_own = get_routing_entry-linked (own ∷ dl) s.rt 0 own v refl

  sender_own : get_routing_entry s.rt lsa.sender_node_id ≡ some 0
  sender_own =
      let a = create_packet-Announced (own ∷ dl) ol unset own.id seq lsa size made in
      rw a.sender found_own

  renewed-IsTable : IsTable (own ∷ dl) renewed
  renewed-IsTable =
      let a = create_packet-Announced (own ∷ dl) ol unset own.id seq lsa size made in
      updated_at-IsTable (own ∷ dl) s.rt lsa size own.id v a.type (some 0) sender_own tt

  pub is_up-renewed :
      (j : ℕ) (l : LinkEntry) → get_elem? dl j ≡ some l → is_up renewed l.id ≡ is_up s.rt l.id
  unfolding is_up
  is_up-renewed j l at =
      let before = get_routing_entry-linked (own ∷ dl) s.rt (suc j) l v at in
      let after = get_routing_entry-linked (own ∷ dl) renewed (suc j) l renewed-IsTable at in
      ground (arith, before, after)

  owed-renewed :
      (ls : DirectLinks)
      → ((j : ℕ) (l : LinkEntry) → get_elem? ls j ≡ some l → is_up renewed l.id ≡ is_up s.rt l.id)
      → owed renewed ls ≡ owed s.rt ls
  owed-renewed [] h = refl
  owed-renewed (l ∷ ls) h = rw (h 0 l refl, owed-renewed ls (λ j m at. h (suc j) m at)) refl

  -- After the flood the own packet waits for the ACKs of just the neighbours that are up.
  pub flood-Owns :
      (old : List AckChecker) (s' : State)
      → (s.rt.table 0).checkers_list ≡ counted old (length (own ∷ dl))
      → flood type_lsa (own ∷ dl) ol own.id seq unset s ≡ some s'
      → Owns lsa (done_link own ∷ owed s.rt dl) s'
  unfolding flood settled ensure_checkers count_entry
  flood-Owns old s' list run =
      let a = create_packet-Announced (own ∷ dl) ol unset own.id seq lsa size made in
      let step : update_entry (some 0) s.rt (own ∷ dl) (some lsa) size own.id ≡ some renewed =
        rw sender_own at
          (update_entry-updated (own ∷ dl) s.rt lsa size own.id v a.type (rw sender_own tt)) in
      let m : State = record s { rt = renewed } in
      let o =
        flood_loop-Owes dl 1 (length (own ∷ dl)) (done_link own ∷ []) lsa size m s' refl
          (rw list refl) (rw (made, found_own, step) at run) in
      let ups : owed renewed dl ≡ owed s.rt dl = owed-renewed dl is_up-renewed in
      let size : length (own ∷ dl) ≡ length (done_link own ∷ owed s.rt dl) =
        omega (arith, length-owed s.rt dl) in
      record {
        some_entry = omega (arith, o.nodes.count, v.links);
        id = o.nodes.ids 0 ∙ v.linked 0 own refl ∙ sym a.sender;
        holds = o.packet;
        list =
            o.list
            ∙ ap (λ cs. counted (done_link own ∷ cs) (length (own ∷ dl))) ups
            ∙ ap (counted (done_link own ∷ owed s.rt dl)) size;
      }

  awaited : (ls links : DirectLinks) → UpIn s.rt ls links → Awaits links (owed s.rt ls)
  awaited [] links h = tt
  awaited (l ∷ ls) links (h, hs) = (
    elim (Bool-cases (is_up s.rt l.id)) [
      | inl up ↦ inr (rw up (h up))
      | inr down ↦ inl (rw down (omega arith))
    ],
    awaited ls links hs,
  )

  -- A node with a well-formed routing table and a count of its checkers, whose id and sequence number are
  -- words, floods its packet, which fits the buffer of a receiver. Then the ACKs arrive, in the order of
  -- the links `ls`, whose addresses the node finds; they are those of every neighbour that was up at the
  -- flood, and maybe of others or several times. Then neither the flood nor the handler has a fault,
  -- the handler sends nothing and changes no object, and the retransmission of the packet afterwards
  -- changes nothing: it sends nothing and gives up no one.
  pub flood-settles :
      (old : List AckChecker) (ls : DirectLinks) (size' f : ℕ)
      → (s.rt.table 0).checkers_list ≡ counted old (length (own ∷ dl))
      → own.id < 2 ^ 32
      → seq < 2 ^ 32
      → length ol < 2 ^ 31
      → length unset ≡ 4
      → size ≤ max_lsa_len
      → Reached (own ∷ dl) ls
      → UpIn s.rt dl ls
      → (s1 s2 : State) × (flood type_lsa (own ∷ dl) ol own.id seq unset s ≡ some s1)
        × (answers (own ∷ dl) lsa ls s1 ≡ some s2)
        × (s2.gol ≡ s.gol)
        × (s2.sent ≡ s1.sent)
        × (retransmit_missing 0 (own ∷ dl) size' f s2 ≡ some s2)
  flood-settles old ls size' f list id word few four fits known up =
      let links = own ∷ dl in
      let (s1, run, sends) =
        flood-Sends links ol own.id seq unset s 0 v (omega arith) found_own lsa size made in
      let owns = flood-Owns old s1 list run in
      let cs = done_link own ∷ owed s.rt dl in
      let header = create_packet-IsHeader links ol unset own.id seq lsa size id word few made in
      let sized : length (packet_bytes lsa) ≡ size =
        create_packet_size links ol unset own.id seq lsa size (omega arith) four made in
      let (s2, acks, last, objects, sent, idle) =
        answers-settle links lsa header (omega arith) ls cs size' f s1 known (omega arith)
          (omega (arith, length-owed s.rt dl))
          (omega (arith, length-owed s.rt dl, v.links, v.bounded))
          (inl (omega arith), awaited dl ls up) owns in
      (s1, s2, run, acks, objects ∙ sends.objects, sent, idle)
