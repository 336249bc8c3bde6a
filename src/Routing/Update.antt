-- ===== src/Routing/Update.antt =====
-- rd/flooding_engine.c: the parts of `update_entry`, and the invariant of the routing table.
pub mod Routes
pub mod Effect
use p.Prelude.{
  ℕ, zero, suc, ◌+◌, ◌≤◌, ◌<◌, ◌≡◌, ◌≢◌, refl, ap, Bool, true, false, List, [], ◌∷◌, Option, none,
  some, arith, ◌==◌, if◌then◌else◌, ◌⊎◌, inl, inr, length, get_elem?, write, Bool-cases,
  Option-cases, ltb, lt→ltb, ◌>>=◌, ◌>>◌, defined, subst, sym, ltb→lt, ==_iff,
}
use p.Tables.{LinkEntry, DirectLinks, max_nodes}
use p.Lsa.{Lsa}
use p.Lsa.Header.{type_lsa, get_type}
use p.HashSet.Invariant.{is_some}
use p.Routing.{
  AckChecker, AckCheckers, RoutingEntry, RoutingTable, get_routing_entry, ack_was_received,
  unset_checkers, reset_checkers, ensure_checkers, attach_lsa, improve, route_entry, other_entry,
  count_entry, update_entry, status_down,
}
use p.Routing.Lookup.{Found, get_routing_entry-Found, get_routing_entry-none}

-- No link owes an ACK.
unfoldable pub settled : DirectLinks → List AckChecker
settled [] = []
settled (l ∷ ls) =
    record { id = l.id; ack_received = ack_was_received; retransmit = 0 } ∷ settled ls

pub length-settled : (dl : DirectLinks) → length (settled dl) ≡ length dl
unfolding settled
length-settled [] = refl
length-settled (l ∷ ls) = ap suc (length-settled ls)

reset_checkers-settled :
    (dl : DirectLinks) (cs : List AckChecker)
    → length cs ≡ length dl
    → reset_checkers dl cs ≡ some (settled dl)
unfolding reset_checkers settled
reset_checkers-settled [] [] h = refl
reset_checkers-settled [] (c ∷ cs) h = absurd (omega arith)
reset_checkers-settled (l ∷ ls) [] h = absurd (omega arith)
reset_checkers-settled (l ∷ ls) (c ∷ cs) h = rw (reset_checkers-settled ls cs (omega arith))

length-unset_checkers : (dl : DirectLinks) → length (unset_checkers dl) ≡ length dl
unfolding unset_checkers
length-unset_checkers [] = refl
length-unset_checkers (l ∷ ls) = ap suc (length-unset_checkers ls)

-- An array of ACK checkers is null, or it has a member for each link.
abbrev pub FitsLinks : DirectLinks → Option AckCheckers → Type 0
FitsLinks dl none = Unit
FitsLinks dl (some cs) = length cs.checkers ≡ length dl

length-ensure_checkers :
    (dl : DirectLinks) (o : Option AckCheckers)
    → FitsLinks dl o
    → length (ensure_checkers dl o).checkers ≡ length dl
unfolding ensure_checkers
length-ensure_checkers dl none h = length-unset_checkers dl
length-ensure_checkers dl (some cs) h = h

-- The entry as the second half of `update_entry` leaves it.
abbrev pub attached : DirectLinks → Lsa → ℕ → ℕ → RoutingEntry → RoutingEntry
attached dl lsa lsa_size nexthop entry = record entry {
  lsa = some lsa;
  lsa_is_new = 1;
  lsa_size = lsa_size;
  forwarder_id = nexthop;
  checkers_list = some (record (ensure_checkers dl entry.checkers_list) { checkers = settled dl });
}

pub attach_lsa-attached :
    (dl : DirectLinks) (lsa : Lsa) (lsa_size nexthop : ℕ) (entry : RoutingEntry)
    → FitsLinks dl entry.checkers_list
    → attach_lsa dl lsa lsa_size nexthop entry ≡ some (attached dl lsa lsa_size nexthop entry)
unfolding attach_lsa
attach_lsa-attached dl lsa lsa_size nexthop entry h = rw (
    reset_checkers-settled dl (ensure_checkers dl entry.checkers_list).checkers
      (length-ensure_checkers dl entry.checkers_list h))

-- A well-formed routing table: the direct neighbours come first, each node has one entry, the arrays
-- of ACK checkers fit the links, a packet stands at its sender, and an entry that is to be flooded
-- has a packet.
pub record IsTable (dl : DirectLinks) (rt : RoutingTable) : Type 0 where
  pub bounded : rt.num_entry ≤ max_nodes
  pub links : length dl ≤ rt.num_entry
  pub linked : (i : ℕ) (l : LinkEntry) → get_elem? dl i ≡ some l → (rt.table i).id ≡ l.id
  pub distinct :
      (a b : ℕ) → a < rt.num_entry → b < rt.num_entry → (rt.table a).id ≡ (rt.table b).id → a ≡ b
  pub fits : (i : ℕ) → FitsLinks dl (rt.table i).checkers_list
  pub allocated : (i : ℕ) → i < rt.num_entry → is_some (rt.table i).checkers_list ≡ true
  pub owned :
      (i : ℕ) (lsa : Lsa)
      → i < rt.num_entry
      → (rt.table i).lsa ≡ some lsa
      → lsa.sender_node_id ≡ (rt.table i).id
  pub pending :
      (i : ℕ)
      → i < rt.num_entry
      → (rt.table i).lsa_is_new ≡ 1
      → (rt.table i).node_status ≢ status_down
      → is_some (rt.table i).lsa ≡ true

pub get_elem?-lt {ℓ} :
    {A : Type ℓ} (xs : List A) (i : ℕ) (x : A) → get_elem? xs i ≡ some x → i < length xs
get_elem?-lt [] i x e = cc
get_elem?-lt (y ∷ ys) zero x e = omega arith
get_elem?-lt (y ∷ ys) (suc i) x e = omega (arith, get_elem?-lt ys i x e)
