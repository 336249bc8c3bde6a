-- ===== src/Tests/Objects.antt =====
-- The theorems on the hash table of objects, at tables of one object and of two.
use p.Prelude.{◌≡◌, ◌↔◌, refl, true, List, [], ◌∷◌, ◌++◌, none, some, str_eq}
use p.HashSet.{
  link_contains_obj, hash_index, init_hash, contains_object, get_paths, hash_add, hash_remove_node,
  hash_remove_object,
}
use p.HashSet.Hash.{super_fast_hash, hash_loop, hash_round, hash_rest, hash_rest_three, hash_final}
use p.HashSet.Chain.{or_nil, paths_of}
use p.HashSet.Invariant.{view, is_some, init_hash-IsValid, get_paths-view}
use p.HashSet.Add.{HasRoom, Adds, hash_add-Adds, hash_add_fault}
use p.HashSet.RemoveNode.{Removes, hash_remove_node-Removes}
use p.HashSet.RemoveObject.{Drops, hash_remove_object-Drops, hash_remove_object-hides_last}
use p.HashSet.Release.{Block, collapse, AllFreed, blocks_of, collapse-frees}
use p.HashSet.Print.{print_object, print_paths}
use p.Text.{codes, decimal, digits}
use p.Tests.Data.{lion, pig, at_three, with_lion, with_both, adding_lion, with_both-IsValid}

-- What the C function returns for this name.
hash_of_lion : super_fast_hash lion 4 ≡ 4061234452
unfolding super_fast_hash hash_loop hash_round hash_rest hash_final
hash_of_lion = refl

hash_add-Adds_example : Adds init_hash lion 3 2 with_lion
hash_add-Adds_example = hash_add-Adds init_hash lion 3 2 init_hash-IsValid adding_lion

hash_add_fault_example :
    (hash_add init_hash pig 3 2 ≡ none) ↔ ((view init_hash pig ≡ none) × ¬ HasRoom init_hash pig)
hash_add_fault_example = hash_add_fault init_hash pig 3 2 init_hash-IsValid

hash_remove_node-Removes_example : Removes with_both 3 (hash_remove_node with_both 3)
hash_remove_node-Removes_example = hash_remove_node-Removes with_both 3 with_both-IsValid

get_paths-view_example : get_paths with_both pig ≡ or_nil (view with_both pig)
get_paths-view_example = get_paths-view with_both pig with_both-IsValid

hash_remove_object-Drops_example : Drops with_both lion (hash_remove_object with_both lion)
hash_remove_object-Drops_example = hash_remove_object-Drops with_both lion with_both-IsValid

lion_is_stored : is_some (view with_both lion) ≡ true
unfolding view paths_of init_hash hash_index super_fast_hash hash_loop hash_round hash_rest
    hash_rest_three hash_final str_eq
lion_is_stored = refl

hash_remove_object-hides_last_example :
    view (hash_remove_node (hash_remove_object with_both lion).0 2) pig ≡ view with_both pig
unfolding init_hash
hash_remove_object-hides_last_example =
    hash_remove_object-hides_last with_both lion pig 1 2 with_both-IsValid refl refl lion_is_stored
      (cc) (cc)

found_lion :
    contains_object with_lion lion ≡ some (record { obj_name = lion; path_s = at_three ∷ [] })
unfolding contains_object link_contains_obj init_hash hash_index super_fast_hash hash_loop
    hash_round hash_rest hash_final str_eq
found_lion = refl

collapse-frees_example :
    (freed : List Block) × (collapse with_lion ≡ (init_hash, freed, true))
    × AllFreed (blocks_of (record { obj_name = lion; path_s = at_three ∷ [] })) freed
collapse-frees_example =
    collapse-frees with_lion lion (record { obj_name = lion; path_s = at_three ∷ [] }) found_lion

-- What is printed of an object with one path.
lion_printed :
    print_object lion (at_three ∷ [])
    ≡ codes "lion -- " ++ (b'\n' ∷ (codes "node_id: 3, cost: 2" ++ b'\n' ∷ []))
unfolding print_object print_paths decimal digits
lion_printed = refl
