-- ===== src/Routing/Lookup.antt =====
-- rd/flooding_engine.c: the lookup of a node's entry.
use p.Prelude.{
  ℕ, zero, suc, ◌+◌, ◌≤◌, ◌<◌, ◌≡◌, ◌≢◌, refl, none, some, arith, ◌==◌, Bool-cases, inl, inr,
  Option-cases,
}
use p.Routing.{RoutingEntry, RoutingTable, entry_loop, get_routing_entry}

entry_loop-some :
    (n i : ℕ) (table : ℕ → RoutingEntry) (node_id j : ℕ)
    → entry_loop n i table node_id ≡ some j
    → (i ≤ j) × (j < i + n) × ((table j).id ≡ node_id)
unfolding entry_loop
entry_loop-some zero i table node_id j e = cc
entry_loop-some (suc n) i table node_id j e =
    ground (arith, entry_loop-some n (i + 1) table node_id j)

entry_loop-first :
    (n i : ℕ) (table : ℕ → RoutingEntry) (node_id j k : ℕ)
    → entry_loop n i table node_id ≡ some j
    → i ≤ k
    → k < j
    → (table k).id ≢ node_id
unfolding entry_loop
entry_loop-first zero i table node_id j k e lo hi same = cc
entry_loop-first (suc n) i table node_id j k e lo hi same = elim (Bool-cases (k == i)) [
  | inl here ↦ ground arith
  | inr later ↦ entry_loop-first n (i + 1) table node_id j k (ground arith) (ground arith) hi same
]

entry_loop-none :
    (n i : ℕ) (table : ℕ → RoutingEntry) (node_id k : ℕ)
    → entry_loop n i table node_id ≡ none
    → i ≤ k
    → k < i + n
    → (table k).id ≢ node_id
unfolding entry_loop
entry_loop-none zero i table node_id k e lo hi same = absurd (omega arith)
entry_loop-none (suc n) i table node_id k e lo hi same = elim (Bool-cases (k == i)) [
  | inl here ↦ ground arith
  | inr later ↦
      entry_loop-none n (i + 1) table node_id k (ground arith) (ground arith) (omega arith) same
]

-- Index `j` is that of the first entry of the node.
pub record Found (rt : RoutingTable) (node_id j : ℕ) : Type 0 where
  pub inside : j < rt.num_entry
  pub same : (rt.table j).id ≡ node_id
  pub first : (k : ℕ) → k < j → (rt.table k).id ≢ node_id

-- An index that `get_routing_entry` returns is that of an entry of the node, and the first such.
pub get_routing_entry-Found :
    (rt : RoutingTable) (node_id j : ℕ) → get_routing_entry rt node_id ≡ some j → Found rt node_id j
unfolding get_routing_entry
get_routing_entry-Found rt node_id j e =
    let (lo, hi, same) = entry_loop-some rt.num_entry 0 rt.table node_id j e in
    record {
      inside = omega arith;
      same = same;
      first = λ k lt. entry_loop-first rt.num_entry 0 rt.table node_id j k e (omega arith) lt;
    }

-- Where `get_routing_entry` returns null, no entry of the table is that node's.
pub get_routing_entry-none :
    (rt : RoutingTable) (node_id k : ℕ)
    → get_routing_entry rt node_id ≡ none
    → k < rt.num_entry
    → (rt.table k).id ≢ node_id
unfolding get_routing_entry
get_routing_entry-none rt node_id k e lt =
    entry_loop-none rt.num_entry 0 rt.table node_id k e (omega arith) (omega arith)

-- Where the nodes of the entries differ, the entry of a node is found at its index.
pub get_routing_entry-at :
    (rt : RoutingTable) (i : ℕ)
    → i < rt.num_entry
    → ((a b : ℕ) → a < rt.num_entry → b < rt.num_entry → (rt.table a).id ≡ (rt.table b).id → a ≡ b)
    → get_routing_entry rt (rt.table i).id ≡ some i
get_routing_entry-at rt i lt distinct = elim (Option-cases (get_routing_entry rt (rt.table i).id)) [
  | inl e ↦ absurd (get_routing_entry-none rt (rt.table i).id i e lt refl)
  | inr (j, e) ↦
      let f = get_routing_entry-Found rt (rt.table i).id j e in
      let same : j ≡ i = distinct j i f.inside lt f.same in rw e (rw same)
]
