-- ===== src/Flooding/Retransmit.antt =====
-- rd/flooding_engine.c: `retransmit_missing` where a neighbour does not answer.
use p.Prelude.{
  ℕ, zero, suc, ap, ◌+◌, ◌<◌, ◌≡◌, ◌≢◌, refl, true, false, List, [], ◌∷◌, none, some, arith, ◌==◌,
  length, drop, get_elem?, subst, ◌∙◌, sle, write, CString,
}
use p.Tables.{LinkEntry, DirectLinks}
use p.Lsa.{Lsa}
use p.HashSet.{hash_remove_node, get_paths}
use p.HashSet.Invariant.{IsValid}
use p.HashSet.RemoveNode.{Avoids, hash_remove_node-Removes, get_paths-hash_remove_node}
use p.Routing.{
  AckChecker, AckCheckers, RoutingEntry, RoutingTable, get_routing_entry, status_down,
  ack_not_received, ack_was_received,
}
use p.Routing.Lookup.{get_routing_entry-Found, get_routing_entry-at}
use p.Routing.Update.{IsTable}
use p.Routing.Update.Routes.{put-IsTable}
use p.Flooding.{State, retry_link, retransmit_loop, retransmit_missing, send_again, lsa_of, give_up}
use p.Flooding.Nodes.{get_routing_entry-linked}
use p.Flooding.Checkers.{modify, modify_entry, set_entry_checker-modify, modify_entry-IsTable}

-- The state after the neighbour `id`, whose entry is `j`, was given up.
pub record GivesUp (dl : DirectLinks) (id j : ℕ) (s s' : State) : Type 0 where
  pub table : IsTable dl s'.rt
  pub objects : IsValid s'.gol
  pub down : (s'.rt.table j).node_status ≡ status_down
  pub freed : (s'.rt.table j).lsa ≡ none
  pub avoided : (q : CString) → Avoids id (get_paths s'.gol q)
  pub sent : s'.sent ≡ s.sent

abbrev dropped : RoutingEntry → RoutingEntry
dropped e = record e { lsa = none; node_status = status_down }

abbrev settle : AckChecker → AckChecker
settle c = record c { ack_received = ack_was_received }

abbrev without_entry : RoutingTable → ℕ → RoutingTable
without_entry rt j = record rt { table = write rt.table j (dropped (rt.table j)) }

-- The state in which the node at `j` was given up, and member `i` of the checkers at `k` is settled.
abbrev pub gave_up : ℕ → ℕ → ℕ → State → State
gave_up j k i s = record s {
  rt = modify_entry (without_entry s.rt j) k i settle;
  gol = hash_remove_node s.gol (s.rt.table j).id;
}

module _ (dl : DirectLinks) (src k i size : ℕ) (l : LinkEntry) (c : AckChecker) (s : State)
    (v : IsTable dl s.rt) (lt : k < s.rt.num_entry) (fits : i < length dl) (j : ℕ)
    (found : get_routing_entry s.rt l.id ≡ some j) where
  without_entry-IsTable : IsTable dl (without_entry s.rt j)
  without_entry-IsTable =
      let lt_j = (get_routing_entry-Found s.rt l.id j found).inside in
      put-IsTable dl s.rt v j (dropped (s.rt.table j)) lt_j refl (record {
        fits = v.fits j;
        allocated = v.allocated j lt_j;
        owned = λ lsa at. cc at;
        pending = λ new on. absurd (omega arith);
      })

  pub gave_up-IsTable : IsTable dl (gave_up j k i s).rt
  gave_up-IsTable =
      modify_entry-IsTable dl (without_entry s.rt j) without_entry-IsTable k lt i settle

  pub retry_link-gave_up :
      sle 3 c.retransmit ≡ true → retry_link src l k i size c s ≡ some (gave_up j k i s)
  unfolding retry_link give_up
  retry_link-gave_up late =
      let step =
        set_entry_checker-modify dl (without_entry s.rt j) without_entry-IsTable k lt i settle
          fits in
      rw (late, found, step) refl

  -- On a well-formed state, a neighbour that was sent a packet three times more and still owes the
  -- ACK is given up without a fault: its entry is down and holds no packet, no lookup of an object
  -- is sent to it, nothing is transmitted, and the state stays well formed.
  pub retry_link-GivesUp :
      IsValid s.gol
      → sle 3 c.retransmit ≡ true
      → (s' : State) × (retry_link src l k i size c s ≡ some s') × GivesUp dl l.id j s s'
  retry_link-GivesUp objects late =
      let same = (get_routing_entry-Found s.rt l.id j found).same in
      let gone = hash_remove_node-Removes s.gol (s.rt.table j).id objects in
      (
        gave_up j k i s,
        retry_link-gave_up late,
        record {
          table = gave_up-IsTable;
          objects = gone.valid;
          down = ground arith;
          freed = ground arith;
          avoided = λ q.
              subst (λ id. Avoids id (get_paths (gave_up j k i s).gol q)) same
                (get_paths-hash_remove_node s.gol (s.rt.table j).id q objects);
          sent = refl;
        },
      )

get_elem?-modify :
    (cs : List AckChecker) (i j : ℕ) (f : AckChecker → AckChecker)
    → j ≢ i
    → get_elem? (modify cs i f) j ≡ get_elem? cs j
get_elem?-modify [] i j f ne = refl
get_elem?-modify (c ∷ cs) zero zero f ne = absurd (ne refl)
get_elem?-modify (c ∷ cs) zero (suc j) f ne = refl
get_elem?-modify (c ∷ cs) (suc i) zero f ne = refl
get_elem?-modify (c ∷ cs) (suc i) (suc j) f ne = get_elem?-modify cs i j f (λ e. ne (ap suc e))

-- A round for a neighbour that is up and owes an ACK, where the packet was freed.
round_dangles :
    (b : LinkEntry) (ls : DirectLinks) (i src k size from : ℕ) (s : State) (list : AckCheckers)
    (d : AckChecker) (j : ℕ)
    → (s.rt.table k).checkers_list ≡ some list
    → get_elem? list.checkers i ≡ some d
    → b.id ≢ from
    → d.ack_received ≡ ack_not_received
    → sle 3 d.retransmit ≡ false
    → get_routing_entry s.rt b.id ≡ some j
    → (s.rt.table j).node_status ≢ status_down
    → (s.rt.table src).lsa ≡ none
    → retransmit_loop (b ∷ ls) i src k size from s ≡ none
unfolding retransmit_loop retry_link send_again lsa_of
round_dangles b ls i src k size from s list d j has at other owes early found up freed =
    let other' : b.id == from ≡ false = ground arith in
    let owes' : d.ack_received == ack_not_received ≡ true = ground arith in
    let up' : (s.rt.table j).node_status == status_down ≡ false = ground arith in
    rw (other', has, at, owes', early, found, up', freed) refl

-- A round for a link that owes an ACK.
round_step :
    (l : LinkEntry) (ls : DirectLinks) (i src k size from : ℕ) (s s' : State) (list : AckCheckers)
    (c : AckChecker)
    → (s.rt.table k).checkers_list ≡ some list
    → get_elem? list.checkers i ≡ some c
    → l.id ≢ from
    → c.ack_received ≡ ack_not_received
    → retry_link src l k i size c s ≡ some s'
    → retransmit_loop (l ∷ ls) i src k size from s ≡ retransmit_loop ls (i + 1) src k size from s'
unfolding retransmit_loop
round_step l ls i src k size from s s' list c has at other owes run =
    let other' : l.id == from ≡ false = ground arith in
    let owes' : c.ack_received == ack_not_received ≡ true = ground arith in
    rw (other', has, at, owes', run) refl

missing_eq :
    (dl : DirectLinks) (src k size from : ℕ) (s : State) (lsa : Lsa)
    → (s.rt.table src).lsa ≡ some lsa
    → get_routing_entry s.rt lsa.sender_node_id ≡ some k
    → retransmit_missing src dl size from s ≡ retransmit_loop (drop 1 dl) 1 src k size from s
unfolding retransmit_missing lsa_of
missing_eq dl src k size from s lsa packet found = ground arith

-- On a well-formed table with the neighbours `a` and `b` first, where the packet of `a` itself came
-- through a third node and both still owe the ACK, `a` for the third time: when `a` is given up its
-- packet is freed, and the next round sends the freed packet to `b`, which is undefined behaviour.
pub retransmit_missing_dangles :
    (own a b : LinkEntry) (ls : DirectLinks) (size from : ℕ) (s : State) (lsa : Lsa)
    (list : AckCheckers) (c d : AckChecker)
    → IsTable (own ∷ a ∷ b ∷ ls) s.rt
    → (s.rt.table 1).lsa ≡ some lsa
    → (s.rt.table 1).checkers_list ≡ some list
    → get_elem? list.checkers 1 ≡ some c
    → get_elem? list.checkers 2 ≡ some d
    → a.id ≢ from
    → b.id ≢ from
    → c.ack_received ≡ ack_not_received
    → d.ack_received ≡ ack_not_received
    → sle 3 c.retransmit ≡ true
    → sle 3 d.retransmit ≡ false
    → (s.rt.table 2).node_status ≢ status_down
    → retransmit_missing 1 (own ∷ a ∷ b ∷ ls) size from s ≡ none
retransmit_missing_dangles own a b ls size from s lsa list c d v packet checkers at_a at_b not_a
      not_b owes_a owes_b late early up =
    let dl = own ∷ a ∷ b ∷ ls in
    let found = get_routing_entry-linked dl s.rt 1 a v refl in
    let lt : 1 < s.rt.num_entry = omega (arith, v.links) in
    let sender : get_routing_entry s.rt lsa.sender_node_id ≡ some 1 =
      rw (v.owned 1 lsa lt packet) (get_routing_entry-at s.rt 1 lt v.distinct) in
    let s1 = gave_up 1 1 1 s in
    let step = retry_link-gave_up dl 1 1 1 size a c s v lt (omega arith) 1 found late in
    let v1 = gave_up-IsTable dl 1 1 1 size a c s v lt (omega arith) 1 found in
    let cs = record list { checkers = modify list.checkers 1 settle } in
    let has : (s1.rt.table 1).checkers_list ≡ some cs = rw checkers refl in
    let at : get_elem? cs.checkers 2 ≡ some d =
      get_elem?-modify list.checkers 1 2 settle (omega arith) ∙ at_b in
    let next =
      round_dangles b ls 2 1 1 size from s1 cs d 2 has at not_b owes_b early
        (get_routing_entry-linked dl s1.rt 2 b v1 refl) up refl in
    missing_eq dl 1 1 size from s lsa packet sender
    ∙ round_step a (b ∷ ls) 1 1 1 size from s s1 list c checkers at_a not_a owes_a step
    ∙ next
