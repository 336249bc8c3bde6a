-- ===== src/Flooding/Checkers.antt =====
-- Writes to the ACK checkers of an entry of the routing table.
use p.Prelude.{
  ℕ, zero, suc, ◌<◌, ◌≡◌, refl, ap, true, List, [], ◌∷◌, Option, none, some, arith, inl, inr,
  length, write, Option-cases, ◌∙◌,
}
use p.Tables.{DirectLinks}
use p.Routing.{AckChecker, AckCheckers, RoutingTable}
use p.Routing.Update.{IsTable, FitsLinks}
use p.Routing.Update.Routes.{IsEntry, put-IsTable}
use p.HashSet.Invariant.{is_some}
use p.Flooding.{set_checker, set_entry_checker}

-- The array with one member changed.
abbrev pub modify : List AckChecker → ℕ → (AckChecker → AckChecker) → List AckChecker
modify [] i f = []
modify (c ∷ cs) zero f = f c ∷ cs
modify (c ∷ cs) (suc i) f = c ∷ modify cs i f

pub length-modify :
    (cs : List AckChecker) (i : ℕ) (f : AckChecker → AckChecker)
    → length (modify cs i f) ≡ length cs
length-modify [] i f = refl
length-modify (c ∷ cs) zero f = refl
length-modify (c ∷ cs) (suc i) f = ap suc (length-modify cs i f)

pub set_checker-modify :
    (cs : List AckChecker) (i : ℕ) (f : AckChecker → AckChecker)
    → i < length cs
    → set_checker cs i f ≡ some (modify cs i f)
unfolding set_checker
set_checker-modify [] i f h = absurd (omega arith)
set_checker-modify (c ∷ cs) zero f h = refl
set_checker-modify (c ∷ cs) (suc i) f h = rw (set_checker-modify cs i f (omega arith))

-- The members of an entry's array; of a null pointer, none.
abbrev pub checkers_of : Option AckCheckers → List AckChecker
checkers_of none = []
checkers_of (some list) = list.checkers

abbrev pub with_checkers : Option AckCheckers → List AckChecker → Option AckCheckers
with_checkers none cs = none
with_checkers (some list) cs = some (record list { checkers = cs })

-- The table with one checker of entry `k` changed.
abbrev pub modify_entry : RoutingTable → ℕ → ℕ → (AckChecker → AckChecker) → RoutingTable
modify_entry rt k i f =
    let list = (rt.table k).checkers_list in
    record rt {
      table = write rt.table k (record (rt.table k) {
        checkers_list = with_checkers list (modify (checkers_of list) i f);
      });
    }

module _ (dl : DirectLinks) (rt : RoutingTable) (v : IsTable dl rt) (k : ℕ)
    (lt : k < rt.num_entry) where
  pub length-checkers_of : length (checkers_of (rt.table k).checkers_list) ≡ length dl
  length-checkers_of = go (rt.table k).checkers_list (v.fits k) (v.allocated k lt)
    where
      go :
          (o : Option AckCheckers)
          → FitsLinks dl o
          → is_some o ≡ true
          → length (checkers_of o) ≡ length dl
      go none h e = cc
      go (some list) h e = h

  pub set_entry_checker-modify :
      (i : ℕ) (f : AckChecker → AckChecker)
      → i < length dl
      → set_entry_checker rt k i f ≡ some (modify_entry rt k i f)
  unfolding set_entry_checker
  set_entry_checker-modify i f inside = elim (Option-cases (rt.table k).checkers_list) [
    | inl e ↦ cc (v.allocated k lt, e)
    | inr (list, e) ↦
        let room : i < length list.checkers =
          omega (arith, length-checkers_of, ap (λ o. length (checkers_of o)) e) in
        rw (e, set_checker-modify list.checkers i f room)
  ]

  pub modify_entry-IsTable :
      (i : ℕ) (f : AckChecker → AckChecker) → IsTable dl (modify_entry rt k i f)
  modify_entry-IsTable i f = put-IsTable dl rt v k _ lt refl (good (rt.table k).checkers_list refl)
    where
      width :
          (list : AckCheckers)
          → (rt.table k).checkers_list ≡ some list
          → length list.checkers ≡ length dl
      width list e = omega (arith, length-checkers_of, ap (λ o. length (checkers_of o)) e)

      good :
          (o : Option AckCheckers)
          → (rt.table k).checkers_list ≡ o
          → IsEntry dl
              (record (rt.table k) { checkers_list = with_checkers o (modify (checkers_of o) i f) })
      good none e = cc (v.allocated k lt, e)
      good (some list) e = record {
        fits = length-modify list.checkers i f ∙ width list e;
        allocated = refl;
        owned = λ lsa at. v.owned k lsa lt at;
        pending = v.pending k lt;
      }
