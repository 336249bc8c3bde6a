-- ===== src/Lsa/Learns.antt =====
-- rd/flooding_engine.c: what `store_node_objects` does to the object table with the packet of a node.
use p.Prelude.{
  ℕ, ◌+◌, ◌≤◌, ◌≡◌, refl, ap, Bool, false, ◌||◌, List, [], ◌∷◌, some, arith, if◌then◌else◌, length,
  CString, str_eq, str_eq_iff, sle, Option-cases, Bool-cases, inl, inr,
}
use p.Tables.{LocalObjects}
use p.HashSet.{NodePath, LisoHash, hash_add, maxobjnum}
use p.HashSet.Chain.{or_nil}
use p.HashSet.Invariant.{view, IsValid}
use p.HashSet.Add.{with_offer, hash_add-Adds, hash_add_fault}
use p.Lsa.RoundTrip.{Carried, add_objects}

-- An object of the list has that name.
abbrev pub named : CString → LocalObjects → Bool
named q [] = false
named q (o ∷ os) = str_eq q o.name || named q os

-- The table `h'` is the table `h` after a node offered its objects at a cost: each of them has the cheaper
-- of its old path and the new one, and every other object keeps its paths.
pub record Learns (ol : LocalObjects) (id cost : ℕ) (h h' : LisoHash) : Type 0 where
  pub valid : IsValid h'
  pub views :
      (q : CString)
      → view h' q ≡ (
          if named q ol
          then some (with_offer (record { node_id = id; cost = cost }) (or_nil (view h q)))
          else view h q)

with_offer-twice :
    (p : NodePath) (ps : List NodePath) → with_offer p (with_offer p ps) ≡ with_offer p ps
with_offer-twice p [] = ground arith
with_offer-twice p (old ∷ rest) = elim (Bool-cases (sle old.cost p.cost)) [
  | inl e ↦ rw (e, e) refl
  | inr e ↦ ground (arith, e)
]

-- With room for all of them the objects are added.
pub add_objects-Learns :
    (ol : LocalObjects) (id cost : ℕ) (h : LisoHash)
    → IsValid h
    → Carried ol
    → h.num_objs + length ol ≤ maxobjnum
    → (h' : LisoHash) × (add_objects h ol id cost ≡ some h') × Learns ol id cost h h'
unfolding add_objects
add_objects-Learns [] id cost h v fit room = (h, refl, record { valid = v; views = λ q. refl })
add_objects-Learns (o ∷ os) id cost h v (proper, short, fit) room =
    elim (Option-cases (hash_add h o.name id cost)) [
      | inl e ↦ absurd (((hash_add_fault h o.name id cost v).0 e).1 (omega arith, omega arith))
      | inr (h1, e) ↦
          let adds = hash_add-Adds h o.name id cost v e in
          let few : h1.num_objs + length os ≤ maxobjnum = ground (arith, adds.counts, room) in
          let (h', run, rest) = add_objects-Learns os id cost h1 adds.valid fit few in
          let p : NodePath = record { node_id = id; cost = cost } in
          (
            h',
            rw e run,
            record {
              valid = rest.valid;
              views = λ q. elim (Bool-cases (str_eq q o.name)) [
                | inr other ↦ rw (rest.views q, adds.views q, other) refl
                | inl same ↦ elim (Bool-cases (named q os)) [
                  | inr last ↦
                      rw (rest.views q, adds.views q, same, last, (str_eq_iff q o.name).0 same) refl
                  | inl again ↦
                      rw (rest.views q, adds.views q, same, again, (str_eq_iff q o.name).0 same)
                        (ap some (with_offer-twice p (or_nil (view h o.name))))
                ]
              ];
            },
          )
    ]
