-- ===== src/HashSet/Chain.antt =====
-- One chain of the table: what a lookup finds after a write, an insertion and a removal.
use p.Prelude.{
  ℕ, ◌+◌, ◌≤◌, ◌≡◌, refl, List, [], ◌∷◌, Option, none, some, arith, if◌then◌else◌, CString, str_eq,
  str_eq_iff,
}
use mathlib.Core.Option
use p.HashSet.{NodePath, Pair, link_contains_obj, get_paths_loop, set_paths, unlink}

-- How many pairs of the chain have that name.
unfoldable pub count : CString → List Pair → ℕ
count q [] = 0
count q (p ∷ ps) = (if str_eq q p.obj_name then 1 else 0) + count q ps

-- The paths that the chain holds for a name; `none` where no pair has it.
unfoldable pub paths_of : List Pair → CString → Option (List NodePath)
paths_of [] q = none
paths_of (p ∷ ps) q = if str_eq q p.obj_name then some p.path_s else paths_of ps q

abbrev pub or_nil : Option (List NodePath) → List NodePath
or_nil none = []
or_nil (some ps) = ps

pub paths_of-link_contains_obj :
    (c : List Pair) (q : CString)
    → Option.map (λ (p : Pair). p.path_s) (link_contains_obj c q) ≡ paths_of c q
unfolding link_contains_obj paths_of
paths_of-link_contains_obj [] q = refl
paths_of-link_contains_obj (p ∷ ps) q = ground (arith, paths_of-link_contains_obj ps q)

pub get_paths_loop-paths_of :
    (c : List Pair) (q : CString) → get_paths_loop c q ≡ or_nil (paths_of c q)
unfolding get_paths_loop paths_of
get_paths_loop-paths_of [] q = refl
get_paths_loop-paths_of (p ∷ ps) q = ground (arith, get_paths_loop-paths_of ps q)

pub paths_of-eq-none : (c : List Pair) (q : CString) → count q c ≡ 0 → paths_of c q ≡ none
unfolding count paths_of
paths_of-eq-none [] q h = refl
paths_of-eq-none (p ∷ ps) q h = ground (arith, paths_of-eq-none ps q)

pub count-eq-zero : (c : List Pair) (q : CString) → paths_of c q ≡ none → count q c ≡ 0
unfolding count paths_of
count-eq-zero [] q h = refl
count-eq-zero (p ∷ ps) q h = ground (arith, count-eq-zero ps q)

module _ (q obj_name : CString) where
  pub paths_of-set_paths :
      (c : List Pair) (f : List NodePath → List NodePath)
      → paths_of (set_paths c obj_name f) q
        ≡ (if str_eq q obj_name then Option.map f (paths_of c q) else paths_of c q)
  unfolding paths_of set_paths
  paths_of-set_paths [] f = ground arith
  paths_of-set_paths (p ∷ ps) f = ground (
    arith,
    paths_of-set_paths ps f,
    str_eq_iff q obj_name,
    str_eq_iff obj_name p.obj_name,
    str_eq_iff q p.obj_name,
  )

  pub count-set_paths :
      (c : List Pair) (f : List NodePath → List NodePath)
      → count q (set_paths c obj_name f) ≡ count q c
  unfolding count set_paths
  count-set_paths [] f = refl
  count-set_paths (p ∷ ps) f = ground (arith, count-set_paths ps f)

  pub paths_of-unlink :
      (c : List Pair)
      → count q c ≤ 1
      → paths_of (unlink c obj_name) q ≡ (if str_eq q obj_name then none else paths_of c q)
  unfolding paths_of unlink count
  paths_of-unlink [] h = ground arith
  paths_of-unlink (p ∷ ps) h = ground (
    arith,
    paths_of-unlink ps,
    paths_of-eq-none ps q,
    str_eq_iff q obj_name,
    str_eq_iff obj_name p.obj_name,
    str_eq_iff q p.obj_name,
  )

  pub count-unlink : (c : List Pair) → count q (unlink c obj_name) ≤ count q c
  unfolding count unlink
  count-unlink [] = omega arith
  count-unlink (p ∷ ps) = ground (arith, count-unlink ps)
