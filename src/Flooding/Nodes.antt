-- ===== src/Flooding/Nodes.antt =====
-- The neighbours in the routing table: their entries, and which of them are up.
use p.Prelude.{
  ℕ, zero, suc, ◌+◌, ◌<◌, ◌≡◌, ◌≢◌, refl, Bool, true, false, not, [], ◌∷◌, none, some, arith, ◌==◌,
  inl, inr, get_elem?, Option-cases, ◌∙◌, sym,
}
use p.Tables.{LinkEntry, DirectLinks}
use p.HashSet.Invariant.{is_some}
use p.Routing.{AckChecker, RoutingEntry, RoutingTable, entry_loop, get_routing_entry, status_down}
use p.Routing.Lookup.{get_routing_entry-none, get_routing_entry-at}
use p.Routing.Update.{IsTable, get_elem?-lt}
use p.Flooding.{deref}
use p.Flooding.Checkers.{modify_entry}

-- The entry of a node is not down.
unfoldable pub is_up : RoutingTable → ℕ → Bool
is_up rt id = elim (get_routing_entry rt id) [
  | none ↦ false
  | some j ↦ not ((rt.table j).node_status == status_down)
]

-- Every link of the list has an entry.
abbrev pub Known : RoutingTable → DirectLinks → Type 0
Known rt [] = Unit
Known rt (l ∷ ls) = (is_some (get_routing_entry rt l.id) ≡ true) × Known rt ls

Known-links :
    (rt : RoutingTable) (ls : DirectLinks)
    → ((j : ℕ) (l : LinkEntry)
        → get_elem? ls j ≡ some l
        → (k : ℕ) × (k < rt.num_entry) × ((rt.table k).id ≡ l.id))
    → Known rt ls
Known-links rt [] h = tt
Known-links rt (l ∷ ls) h = (here (h 0 l refl), Known-links rt ls (λ j m at. h (suc j) m at))
  where
    here :
        (k : ℕ) × (k < rt.num_entry) × ((rt.table k).id ≡ l.id)
        → is_some (get_routing_entry rt l.id) ≡ true
    here (k, lt, same) = elim (Option-cases (get_routing_entry rt l.id)) [
      | inl e ↦ absurd (get_routing_entry-none rt l.id k e lt same)
      | inr (j, e) ↦ ground arith
    ]

-- In a well-formed table the lookup of a direct neighbour does not return null.
pub IsTable-Known : (dl : DirectLinks) (rt : RoutingTable) → IsTable dl rt → Known rt dl
IsTable-Known dl rt v =
    Known-links rt dl
      (λ j l at. (j, omega (arith, get_elem?-lt dl j l at, v.links), v.linked j l at))

-- The entry of the direct neighbour at index `i` of the links is at index `i` too.
pub get_routing_entry-linked :
    (dl : DirectLinks) (rt : RoutingTable) (i : ℕ) (l : LinkEntry)
    → IsTable dl rt
    → get_elem? dl i ≡ some l
    → get_routing_entry rt l.id ≡ some i
get_routing_entry-linked dl rt i l v at =
    rw (sym (v.linked i l at))
      (get_routing_entry-at rt i (omega (arith, get_elem?-lt dl i l at, v.links)) v.distinct)

-- The same nodes in the same state.
pub record SameNodes (rt rt' : RoutingTable) : Type 0 where
  pub count : rt'.num_entry ≡ rt.num_entry
  pub ids : (j : ℕ) → (rt'.table j).id ≡ (rt.table j).id
  pub status : (j : ℕ) → (rt'.table j).node_status ≡ (rt.table j).node_status

pub SameNodes-refl : (rt : RoutingTable) → SameNodes rt rt
SameNodes-refl rt = record { count = refl; ids = λ j. refl; status = λ j. refl }

pub SameNodes-trans : {a b c : RoutingTable} → SameNodes a b → SameNodes b c → SameNodes a c
SameNodes-trans x y = record {
  count = y.count ∙ x.count;
  ids = λ j. y.ids j ∙ x.ids j;
  status = λ j. y.status j ∙ x.status j;
}

pub modify_entry-SameNodes :
    (rt : RoutingTable) (k i : ℕ) (f : AckChecker → AckChecker)
    → SameNodes rt (modify_entry rt k i f)
modify_entry-SameNodes rt k i f = record {
  count = refl;
  ids = λ j. ground arith;
  status = λ j. ground arith;
}

entry_loop-same :
    (n i : ℕ) (a b : ℕ → RoutingEntry) (id : ℕ)
    → ((j : ℕ) → (b j).id ≡ (a j).id)
    → entry_loop n i b id ≡ entry_loop n i a id
unfolding entry_loop
entry_loop-same zero i a b id h = refl
entry_loop-same (suc n) i a b id h = rw (h i, entry_loop-same n (i + 1) a b id h)

pub get_routing_entry-same :
    (rt rt' : RoutingTable) (id : ℕ)
    → SameNodes rt rt'
    → get_routing_entry rt' id ≡ get_routing_entry rt id
unfolding get_routing_entry
get_routing_entry-same rt rt' id h =
    rw h.count (entry_loop-same rt.num_entry 0 rt.table rt'.table id h.ids)

pub is_up-same : (rt rt' : RoutingTable) (id : ℕ) → SameNodes rt rt' → is_up rt' id ≡ is_up rt id
unfolding is_up
is_up-same rt rt' id h = elim (Option-cases (get_routing_entry rt id)) [
  | inl e ↦ ground (arith, get_routing_entry-same rt rt' id h)
  | inr (j, e) ↦ ground (arith, get_routing_entry-same rt rt' id h, h.status j)
]

pub Known-same :
    (rt rt' : RoutingTable) (ls : DirectLinks) → SameNodes rt rt' → Known rt ls → Known rt' ls
Known-same rt rt' [] h k = tt
Known-same rt rt' (l ∷ ls) h k =
    (rw (get_routing_entry-same rt rt' l.id h) k.0, Known-same rt rt' ls h k.1)

-- What the code reads through the pointer of a known link.
pub deref-up :
    (rt : RoutingTable) (id : ℕ)
    → is_some (get_routing_entry rt id) ≡ true
    → (e : RoutingEntry) × (deref rt (get_routing_entry rt id) ≡ some e)
      × (not (e.node_status == status_down) ≡ is_up rt id)
unfolding deref is_up
deref-up rt id known = elim (Option-cases (get_routing_entry rt id)) [
  | inl e ↦ cc (known, e)
  | inr (j, e) ↦ (rt.table j, ground arith, ground arith)
]

-- In a well-formed table a node with an entry that is up is up.
pub is_up-at :
    (dl : DirectLinks) (rt : RoutingTable) (k : ℕ)
    → IsTable dl rt
    → k < rt.num_entry
    → (rt.table k).node_status ≢ status_down
    → is_up rt (rt.table k).id ≡ true
unfolding is_up
is_up-at dl rt k v lt up = ground (arith, get_routing_entry-at rt k lt v.distinct)
