-- ===== src/Daemon/Loads.antt =====
-- rd/rd.c and rd/file_loader.c: the object table that the daemon starts with.
use p.Prelude.{
  ℕ, ◌≡◌, subst, List, [], ◌∷◌, some, arith, length, ltb, ◌++◌, Option-cases, Bool-cases, inl, inr,
}
use p.Tables.{LocalObjects, max_obj_num}
use p.HashSet.{LisoHash, init_hash, hash_add}
use p.HashSet.Chain.{paths_of}
use p.Flooding.Routed.{NodeUp, PathsUp, hash_add-PathsUp}
use p.HashSet.Names.{
  AllStored, AllStored-keep, AllStored-append, hash_add-KeepsNames, hash_add-stored,
}
use p.HashSet.Invariant.{view, IsValid}
use p.HashSet.Add.{hash_add-Adds}
use p.Routing.{RoutingTable}
use p.Loader.{parse_object, object_loop}

-- What is loaded: a valid object table that has the local objects, and whose paths lead to nodes that are
-- up.
pub record LoadsObjects (rt : RoutingTable) (ol : LocalObjects) (gol : LisoHash) : Type 0 where
  pub valid : IsValid gol
  pub paths : PathsUp rt gol
  pub stored : AllStored ol gol

pub object_loop-LoadsObjects :
    (lines : List (List ℕ)) (ol ol' : LocalObjects) (gol gol' : LisoHash) (id : ℕ)
    (rt : RoutingTable)
    → NodeUp rt id
    → LoadsObjects rt ol gol
    → object_loop lines ol gol id ≡ some (ol', gol')
    → LoadsObjects rt ol' gol'
unfolding object_loop
object_loop-LoadsObjects [] ol ol' gol gol' id rt own v e =
    let lists : ol ≡ ol' = ground arith in
    let tables : gol ≡ gol' = ground arith in
    subst (LoadsObjects rt ol') tables (subst (λ os. LoadsObjects rt os gol) lists v)
object_loop-LoadsObjects (line ∷ lines) ol ol' gol gol' id rt own v e =
    elim (Option-cases (parse_object line)) [
      | inl a ↦ absurd (cc (e, a))
      | inr (o, a) ↦ elim (Bool-cases (ltb (length ol) max_obj_num)) [
        | inr b ↦ absurd (cc (e, a, b))
        | inl b ↦ elim (Option-cases (hash_add gol o.name id 0)) [
          | inl c ↦ absurd (cc (e, a, b, c))
          | inr (gol1, c) ↦
              let kept =
                AllStored-keep ol gol gol1 (hash_add-KeepsNames gol gol1 o.name id 0 v.valid c)
                  v.stored in
              object_loop-LoadsObjects lines (ol ++ o ∷ []) ol' gol1 gol' id rt own
                (record {
                  valid = (hash_add-Adds gol o.name id 0 v.valid c).valid;
                  paths = hash_add-PathsUp rt gol gol1 o.name id 0 v.valid own v.paths c;
                  stored =
                      AllStored-append ol gol1 o kept
                        (hash_add-stored gol gol1 o.name id 0 v.valid c);
                })
                (rw (a, b, c) at e)
        ]
      ]
    ]

pub init_hash-PathsUp : (rt : RoutingTable) → PathsUp rt init_hash
unfolding init_hash view paths_of
init_hash-PathsUp rt q = tt
