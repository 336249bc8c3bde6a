-- ===== src/Flooding/Settle.antt =====
-- rd/flooding_engine.c: `lsa_handler` on the ACKs of the own packet, and `retransmit_missing` after them.
use p.Prelude.{
  ℕ, zero, suc, ◌+◌, ◌^◌, ◌≤◌, ◌<◌, ◌≡◌, ◌≢◌, refl, ◌∙◌, true, false, List, [], ◌∷◌, Option, some,
  arith, ◌==◌, length, take, take-all, ◌⊎◌, get_elem?, drop, length-drop, if◌then◌else◌, ltb,
  Bool-cases, inl, inr, ◌>>=◌,
}
use p.Tables.{LinkEntry, DirectLinks}
use p.Lsa.{Lsa, lsa_size, int_bytes, packet_bytes}
use p.Lsa.Layout.{IsHeader, bytes_to_packet-packet_bytes}
use p.Flooding.Routed.{HasLink}
use p.Lsa.Header.{type_ack}
use p.Lsa.Header.Fields.{set_type_lem}
use p.Routing.{AckChecker, lookup_link_entry, lookup_link_entry_node_id, ack_not_received}
use p.Flooding.{
  State, max_lsa_len, datagram, rt_recvfrom, lsa_handler, acknowledge, lsa_of, retransmit_loop,
  retransmit_missing,
}
use p.Flooding.Hear.{ack_of}
use p.Flooding.Marks.{marked, length-marked, counted, Owns, Owns-found, handle_packet-marks}

-- Every checker has its ACK.
abbrev pub AllAcked : List AckChecker → Type 0
AllAcked [] = Unit
AllAcked (c ∷ cs) = (c.ack_received ≢ ack_not_received) × AllAcked cs

-- Every checker has its ACK, or is that of one of the links.
abbrev pub Awaits : DirectLinks → List AckChecker → Type 0
Awaits ls [] = Unit
Awaits ls (c ∷ cs) = ((c.ack_received ≢ ack_not_received) ⊎ HasLink ls c.id) × Awaits ls cs

-- The checkers after an ACK from each of the links.
abbrev pub marked_all : DirectLinks → List AckChecker → List AckChecker
marked_all [] cs = cs
marked_all (l ∷ ls) cs = marked_all ls (marked l.id cs)

marked-Awaits :
    (l : LinkEntry) (ls : DirectLinks) (cs : List AckChecker)
    → Awaits (l ∷ ls) cs
    → Awaits ls (marked l.id cs)
unfolding lookup_link_entry_node_id
marked-Awaits l ls [] h = tt
marked-Awaits l ls (c ∷ cs) (h, hs) = (one h, marked-Awaits l ls cs hs)
  where
    one :
        (c.ack_received ≢ ack_not_received) ⊎ HasLink (l ∷ ls) c.id
        → let m = if c.id == l.id then acknowledge c else c in
          (m.ack_received ≢ ack_not_received) ⊎ HasLink ls m.id
    one h = elim (Bool-cases (c.id == l.id)) [
      | inl same ↦ inl (rw same (omega arith))
      | inr other ↦
          rw other (elim h [ inl done ↦ inl done | inr there ↦ inr (ground (arith, there, other)) ])
    ]

marked_all-AllAcked :
    (ls : DirectLinks) (cs : List AckChecker) → Awaits ls cs → AllAcked (marked_all ls cs)
unfolding lookup_link_entry_node_id
marked_all-AllAcked [] [] h = tt
marked_all-AllAcked [] (c ∷ cs) (h, hs) =
    (elim h [ inl done ↦ done | inr there ↦ absurd (cc there) ], marked_all-AllAcked [] cs hs)
marked_all-AllAcked (l ∷ ls) cs h =
    marked_all-AllAcked ls (marked l.id cs) (marked-Awaits l ls cs h)

length-marked_all :
    (ls : DirectLinks) (cs : List AckChecker) → length (marked_all ls cs) ≡ length cs
length-marked_all [] cs = refl
length-marked_all (l ∷ ls) cs = length-marked_all ls (marked l.id cs) ∙ length-marked l.id cs

AllAcked-at :
    (cs : List AckChecker) (i : ℕ)
    → AllAcked cs
    → i < length cs
    → (c : AckChecker) × (get_elem? cs i ≡ some c) × ((c.ack_received == ack_not_received) ≡ false)
AllAcked-at [] i h lt = absurd (omega arith)
AllAcked-at (c ∷ cs) zero h lt = (c, refl, ground (arith, h.0))
AllAcked-at (c ∷ cs) (suc i) h lt = AllAcked-at cs i h.1 (omega arith)

retransmit_loop-idle :
    (ls : DirectLinks) (i src size f : ℕ) (cs : List AckChecker) (s : State)
    → (s.rt.table 0).checkers_list ≡ counted cs (length cs)
    → AllAcked cs
    → i + length ls ≤ length cs
    → retransmit_loop ls i src 0 size f s ≡ some s
unfolding retransmit_loop
retransmit_loop-idle [] i src size f cs s list h fits = refl
retransmit_loop-idle (l ∷ ls) i src size f cs s list h fits =
    let rest = retransmit_loop-idle ls (i + 1) src size f cs s list h (omega arith) in
    let (c, at, done) = AllAcked-at cs i h (omega arith) in
    elim (Bool-cases (l.id == f)) [
      | inl from ↦ rw from rest
      | inr on ↦ rw (on, list, at, done) rest
    ]

-- Each link is the one that its address gives.
abbrev pub Reached : DirectLinks → DirectLinks → Type 0
Reached dl [] = Unit
Reached dl (l ∷ ls) = (lookup_link_entry dl l.host ≡ some l) × Reached dl ls

-- `lsa_handler` on the ACK of the packet from each of the links, in turn.
abbrev pub answers : DirectLinks → Lsa → DirectLinks → State → Option State
answers dl lsa [] s = some s
answers dl lsa (l ∷ ls) s =
    lsa_handler (datagram (packet_bytes (ack_of lsa)) l.host) dl s >>= λ r. answers dl lsa ls r.0

module _ (dl : DirectLinks) (lsa : Lsa) (header : IsHeader lsa)
    (fits : length (packet_bytes lsa) ≤ max_lsa_len) where
  pub lsa_handler-marks :
      (l : LinkEntry) (cs : List AckChecker) (s : State)
      → lookup_link_entry dl l.host ≡ some l
      → length cs < 2 ^ 31
      → Owns lsa cs s
      → (s' : State) × (lsa_handler (datagram (packet_bytes (ack_of lsa)) l.host) dl s
          ≡ some (s', true))
        × Owns lsa (marked l.id cs) s'
        × (s'.gol ≡ s.gol)
        × (s'.sent ≡ s.sent)
  unfolding lsa_handler rt_recvfrom
  lsa_handler-marks l cs s known few v =
      let ack = ack_of lsa in
      let bytes = packet_bytes ack in
      let same : length bytes ≡ length (packet_bytes lsa) = unfold packet_bytes int_bytes in refl in
      let whole : take max_lsa_len bytes ≡ bytes = take-all {0} max_lsa_len bytes (omega arith) in
      let long : ltb (length bytes) lsa_size ≡ false =
        unfold packet_bytes int_bytes in ground arith in
      let word : ack.version_ttl_type < 2 ^ 32 = omega (
        arith,
        header.version_ttl_type,
        set_type_lem lsa.version_ttl_type type_ack header.version_ttl_type (omega arith),
      ) in
      let read = bytes_to_packet-packet_bytes ack (record {
        version_ttl_type = word;
        sender_node_id = header.sender_node_id;
        sequence_num = header.sequence_num;
        num_links = header.num_links;
        num_objects = header.num_objects;
      }) in
      let (s', run, w, objects, sent) =
        handle_packet-marks dl lsa cs l.id (length bytes) s header.version_ttl_type few v in
      (s', rw (whole, long, read, known) run, w, objects, sent)

  answers-marks :
      (ls : DirectLinks) (cs : List AckChecker) (s : State)
      → Reached dl ls
      → length cs < 2 ^ 31
      → Owns lsa cs s
      → (s' : State) × (answers dl lsa ls s ≡ some s')
        × Owns lsa (marked_all ls cs) s'
        × (s'.gol ≡ s.gol)
        × (s'.sent ≡ s.sent)
  answers-marks [] cs s known few v = (s, refl, v, refl, refl)
  answers-marks (l ∷ ls) cs s known few v =
      let (m, step, w, objects, sent) = lsa_handler-marks l cs s known.0 few v in
      let (s', run, last, objects', sent') =
        answers-marks ls (marked l.id cs) m known.1 (omega (arith, length-marked l.id cs)) w in
      (s', rw step run, last, objects' ∙ objects, sent' ∙ sent)

  -- The ACKs of the own packet arrive, from the links `ls`, in any order and any number of times, at a node
  -- with a checker for each of its links, and with a link, where every checker but those of these links has its ACK. Then
  -- `lsa_handler` has no fault, sends nothing and changes no object, and the retransmission of the
  -- packet afterwards sends nothing and gives up no neighbour: it changes nothing at all.
  pub answers-settle :
      (ls : DirectLinks) (cs : List AckChecker) (size f : ℕ) (s : State)
      → Reached dl ls
      → 0 < length dl
      → length dl ≤ length cs
      → length cs < 2 ^ 31
      → Awaits ls cs
      → Owns lsa cs s
      → (s' : State) × (answers dl lsa ls s ≡ some s')
        × Owns lsa (marked_all ls cs) s'
        × (s'.gol ≡ s.gol)
        × (s'.sent ≡ s.sent)
        × (retransmit_missing 0 dl size f s' ≡ some s')
  unfolding retransmit_missing lsa_of
  answers-settle ls cs size f s known some_link wide few h v =
      let (s', run, w, objects, sent) = answers-marks ls cs s known few v in
      let all = marked_all ls cs in
      let idle =
        retransmit_loop-idle (drop 1 dl) 1 0 size f all s' w.list (marked_all-AllAcked ls cs h)
          (omega (arith, length-marked_all ls cs, length-drop {0} 1 dl)) in
      (s', run, w, objects, sent, rw (retransmit_missing, w.holds, Owns-found lsa all s' w) idle)
