-- ===== src/HashSet/Names.antt =====
-- rd/hashset.c: the names in the table, which neither `hash_add` nor `hash_remove_node` takes out.
use p.Prelude.{
  ℕ, ◌≡◌, refl, ap, ◌∙◌, true, List, [], ◌∷◌, ◌++◌, Option, none, some, arith, ◌==◌, inl, inr,
  Bool-cases, CString, str_eq_iff,
}
use p.Tables.{ObjectEntry, LocalObjects}
use p.HashSet.{NodePath, LisoHash, hash_add, hash_remove_node}
use p.HashSet.Invariant.{view, is_some, IsValid}
use p.HashSet.Add.{hash_add-Adds}
use p.HashSet.RemoveNode.{Removes, hash_remove_node-Removes}

-- Every name that is in the one table is in the other.
abbrev pub KeepsNames : LisoHash → LisoHash → Type 0
KeepsNames gol gol' = (q : CString) → is_some (view gol q) ≡ true → is_some (view gol' q) ≡ true

pub hash_add-KeepsNames :
    (gol gol' : LisoHash) (name : CString) (id cost : ℕ)
    → IsValid gol
    → hash_add gol name id cost ≡ some gol'
    → KeepsNames gol gol'
hash_add-KeepsNames gol gol' name id cost v e q h =
    let adds = hash_add-Adds gol name id cost v e in ground (arith, adds.views q)

-- The name that was added is there.
pub hash_add-stored :
    (gol gol' : LisoHash) (name : CString) (id cost : ℕ)
    → IsValid gol
    → hash_add gol name id cost ≡ some gol'
    → is_some (view gol' name) ≡ true
hash_add-stored gol gol' name id cost v e =
    let adds = hash_add-Adds gol name id cost v e in
    ground (arith, adds.views name, str_eq_iff name name)

pub hash_remove_node-KeepsNames :
    (gol : LisoHash) (id : ℕ) → IsValid gol → KeepsNames gol (hash_remove_node gol id)
hash_remove_node-KeepsNames gol id v q h = go (view gol q) refl
  where
    r : Removes gol id (hash_remove_node gol id)
    r = hash_remove_node-Removes gol id v

    go :
        (o : Option (List NodePath))
        → view gol q ≡ o
        → is_some (view (hash_remove_node gol id) q) ≡ true
    go none e = absurd (cc (h, e))
    go (some []) e = ap is_some (r.kept q (rw e tt)) ∙ h
    go (some (n ∷ ns)) e = elim (Bool-cases (n.node_id == id)) [
      | inl same ↦ ap is_some (r.cleared q n ns e (ground arith))
      | inr other ↦ ap is_some (r.kept q (rw e (ground (arith, other)))) ∙ h
    ]

-- Each local object is in the hash table.
abbrev pub AllStored : LocalObjects → LisoHash → Type 0
AllStored [] gol = Unit
AllStored (o ∷ os) gol = (is_some (view gol o.name) ≡ true) × AllStored os gol

pub AllStored-keep :
    (ol : LocalObjects) (gol gol' : LisoHash)
    → KeepsNames gol gol'
    → AllStored ol gol
    → AllStored ol gol'
AllStored-keep [] gol gol' k h = tt
AllStored-keep (o ∷ ol) gol gol' k h = (k o.name h.0, AllStored-keep ol gol gol' k h.1)

pub AllStored-append :
    (ol : LocalObjects) (gol : LisoHash) (o : ObjectEntry)
    → AllStored ol gol
    → is_some (view gol o.name) ≡ true
    → AllStored (ol ++ o ∷ []) gol
AllStored-append [] gol o h new = (new, tt)
AllStored-append (x ∷ ol) gol o h new = (h.0, AllStored-append ol gol o h.1 new)
