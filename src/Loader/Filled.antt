-- ===== src/Loader/Filled.antt =====
-- rd/file_loader.c: the routing table that `load_node_conf` builds.
use p.Prelude.{
  ℕ, ◌==◌, zero, suc, ◌+◌, ◌≤◌, ◌<◌, ◌≡◌, ◌≢◌, refl, ap, sym, ◌∙◌, ◌&&◌, [], ◌∷◌, ◌++◌, Option,
  none, some, arith, leb, ltb, if◌then◌else◌, length, get_elem?, write, inl, inr, ◌⊎◌, Bool-cases,
}
use mathlib.Core.Option.{some-injective}
use p.Tables.{LinkEntry, DirectLinks, max_nodes}
use p.Flooding.Routed.{HasLink, NoneHas, HopsLinked}
use p.Routing.{status_down, lookup_link_entry_node_id, AckCheckers, RoutingEntry, RoutingTable}
use p.Routing.Update.{FitsLinks, IsTable, get_elem?-lt}
use p.Loader.{load_entry, initial_checkers, checkers_loop, blank_table}

-- The table after the first loop: the entries of the lines so far, all up, with no packet and no checkers.
pub record IsFilled (dl : DirectLinks) (table : ℕ → RoutingEntry) : Type 0 where
  pub ids : (j : ℕ) (l : LinkEntry) → get_elem? dl j ≡ some l → (table j).id ≡ l.id
  pub hops : (j : ℕ) (l : LinkEntry) → get_elem? dl j ≡ some l → (table j).nexthop ≡ l.id
  pub live : (j : ℕ) (l : LinkEntry) → get_elem? dl j ≡ some l → (table j).node_status ≢ status_down
  pub empty : (j : ℕ) → (table j).lsa ≡ none
  pub old : (j : ℕ) → (table j).lsa_is_new ≡ 0
  pub bare : (j : ℕ) → (table j).checkers_list ≡ none

pub blank-IsFilled : IsFilled [] blank_table
blank-IsFilled = record {
  ids = λ j l e. cc;
  hops = λ j l e. cc;
  live = λ j l e. cc;
  empty = λ j. refl;
  old = λ j. refl;
  bare = λ j. refl;
}

get_elem?-snoc :
    (dl : DirectLinks) (l m : LinkEntry) (j : ℕ)
    → get_elem? (dl ++ l ∷ []) j ≡ some m
    → ((j < length dl) × (get_elem? dl j ≡ some m)) ⊎ ((j ≡ length dl) × (l ≡ m))
get_elem?-snoc [] l m zero e = inr (refl, ground arith)
get_elem?-snoc [] l m (suc j) e = cc
get_elem?-snoc (x ∷ dl) l m zero e = inl (omega arith, e)
get_elem?-snoc (x ∷ dl) l m (suc j) e = elim (get_elem?-snoc dl l m j e) [
  | inl (lt, at) ↦ inl (omega arith, at)
  | inr (at, same) ↦ inr (ap suc at, same)
]

pub load_entry-IsFilled :
    (dl : DirectLinks) (l : LinkEntry) (first : ℕ) (table : ℕ → RoutingEntry)
    → IsFilled dl table
    → IsFilled (dl ++ l ∷ []) (load_entry (length dl) l.id first table)
unfolding load_entry
load_entry-IsFilled dl l first table v = record {
  ids = λ j m e. elim (get_elem?-snoc dl l m j e) [
    | inl (lt, at) ↦ ground (arith, v.ids j m at)
    | inr (at, same) ↦ ground arith
  ];
  hops = λ j m e. elim (get_elem?-snoc dl l m j e) [
    | inl (lt, at) ↦ ground (arith, v.hops j m at)
    | inr (at, same) ↦ ground arith
  ];
  live = λ j m e. elim (get_elem?-snoc dl l m j e) [
    | inl (lt, at) ↦ ground (arith, v.live j m at)
    | inr (at, same) ↦ ground arith
  ];
  empty = λ j. ground (arith, v.empty j, v.empty 5);
  old = λ j. ground (arith, v.old j, v.old 5, v.old (length dl));
  bare = λ j. ground (arith, v.bare j, v.bare 5);
}

abbrev loaded_checkers : DirectLinks → Option AckCheckers
loaded_checkers dl = some (record { num_links = some (length dl); checkers = initial_checkers dl })

pub checkers_loop-at :
    (n j : ℕ) (dl : DirectLinks) (table : ℕ → RoutingEntry) (i : ℕ)
    → checkers_loop n j dl table i ≡ (
        if leb j i && ltb i (j + n)
        then record (table i) { checkers_list = loaded_checkers dl }
        else table i)
unfolding checkers_loop
checkers_loop-at zero j dl table i = ground arith
checkers_loop-at (suc n) j dl table i =
    let next = write table j (record (table j) { checkers_list = loaded_checkers dl }) in
    ground (arith, checkers_loop-at n (j + 1) dl next i)

length-initial_checkers : (dl : DirectLinks) → length (initial_checkers dl) ≡ length dl
unfolding initial_checkers
length-initial_checkers [] = refl
length-initial_checkers (l ∷ ls) = ap suc (length-initial_checkers ls)

-- Each link has an id of its own.
abbrev pub AreDistinct : DirectLinks → Type 0
AreDistinct [] = Unit
AreDistinct (l ∷ ls) = NoneHas l.id ls × AreDistinct ls

NoneHas-at :
    (id : ℕ) (ls : DirectLinks) (j : ℕ) (l : LinkEntry)
    → NoneHas id ls
    → get_elem? ls j ≡ some l
    → l.id ≢ id
NoneHas-at id [] j l h e = cc
NoneHas-at id (x ∷ ls) zero l h e = let same : x ≡ l = ground arith in rw same at h.0
NoneHas-at id (x ∷ ls) (suc j) l h e = NoneHas-at id ls j l h.1 e

AreDistinct-index :
    (ls : DirectLinks) (a b : ℕ) (l m : LinkEntry)
    → AreDistinct ls
    → get_elem? ls a ≡ some l
    → get_elem? ls b ≡ some m
    → l.id ≡ m.id
    → a ≡ b
AreDistinct-index [] a b l m h ea eb same = cc
AreDistinct-index (x ∷ ls) zero zero l m h ea eb same = refl
AreDistinct-index (x ∷ ls) zero (suc b) l m h ea eb same =
    let e : x.id ≡ l.id = ap (λ (m : LinkEntry). m.id) (some-injective _ _ ea) in
    absurd (NoneHas-at x.id ls b m h.0 eb (sym same ∙ sym e))
AreDistinct-index (x ∷ ls) (suc a) zero l m h ea eb same =
    let e : x.id ≡ m.id = ap (λ (m : LinkEntry). m.id) (some-injective _ _ eb) in
    absurd (NoneHas-at x.id ls a l h.0 ea (same ∙ sym e))
AreDistinct-index (x ∷ ls) (suc a) (suc b) l m h ea eb same =
    ap suc (AreDistinct-index ls a b l m h.1 ea eb same)

get_elem?-inside :
    (dl : DirectLinks) (j : ℕ) → j < length dl → (l : LinkEntry) × (get_elem? dl j ≡ some l)
get_elem?-inside [] j h = absurd (omega arith)
get_elem?-inside (l ∷ ls) zero h = (l, refl)
get_elem?-inside (l ∷ ls) (suc j) h = get_elem?-inside ls j (omega arith)

HasLink-get_elem :
    (dl : DirectLinks) (j : ℕ) (l : LinkEntry) → get_elem? dl j ≡ some l → HasLink dl l.id
unfolding lookup_link_entry_node_id
HasLink-get_elem [] j l e = absurd (cc e)
HasLink-get_elem (m ∷ ls) zero l e = ground arith
HasLink-get_elem (m ∷ ls) (suc j) l e = elim (Bool-cases (m.id == l.id)) [
  | inl same ↦ rw same refl
  | inr other ↦ rw other (HasLink-get_elem ls j l e)
]

-- The routing table that the second loop leaves.
abbrev pub loaded : DirectLinks → (ℕ → RoutingEntry) → RoutingTable
loaded dl table = record { table = checkers_loop (length dl) 0 dl table; num_entry = length dl }

abbrev pub AllUp : RoutingTable → Type 0
AllUp rt = (j : ℕ) → j < rt.num_entry → (rt.table j).node_status ≢ status_down

module _ (dl : DirectLinks) (table : ℕ → RoutingEntry) (v : IsFilled dl table) where
  inside-at :
      (i : ℕ)
      → i < length dl
      → (loaded dl table).table i ≡ record (table i) { checkers_list = loaded_checkers dl }
  inside-at i lt = ground (arith, checkers_loop-at (length dl) 0 dl table i)

  outside-at : (i : ℕ) → length dl ≤ i → (loaded dl table).table i ≡ table i
  outside-at i le = ground (arith, checkers_loop-at (length dl) 0 dl table i)

  loaded-fits : (i : ℕ) → FitsLinks dl ((loaded dl table).table i).checkers_list
  loaded-fits i = elim (Bool-cases (ltb i (length dl))) [
    | inl lt ↦ rw (inside-at i (ground arith)) (length-initial_checkers dl)
    | inr le ↦ rw (outside-at i (ground arith), v.bare i) tt
  ]

  loaded-id :
      (i : ℕ) (l : LinkEntry) → get_elem? dl i ≡ some l → ((loaded dl table).table i).id ≡ l.id
  loaded-id i l e = rw (inside-at i (get_elem?-lt dl i l e)) (v.ids i l e)

  -- The table is well formed.
  pub loaded-IsTable : AreDistinct dl → length dl ≤ max_nodes → IsTable dl (loaded dl table)
  loaded-IsTable distinct few = record {
    bounded = few;
    links = omega arith;
    linked = loaded-id;
    distinct = λ a b ha hb same.
        let (l, la) = get_elem?-inside dl a ha in
        let (m, mb) = get_elem?-inside dl b hb in
        AreDistinct-index dl a b l m distinct la mb
          (sym (loaded-id a l la) ∙ same ∙ loaded-id b m mb);
    fits = loaded-fits;
    allocated = λ i lt. rw (inside-at i lt) refl;
    owned = λ i lsa lt e. cc (rw (inside-at i lt, v.empty i) at e);
    pending = λ i lt new up.
        absurd (omega (arith, v.old i, ap (λ (t : RoutingEntry). t.lsa_is_new) (inside-at i lt)));
  }

  -- Every next hop is a link.
  pub loaded-HopsLinked : HopsLinked dl (loaded dl table)
  loaded-HopsLinked j lt =
      let (l, at) = get_elem?-inside dl j lt in
      rw (inside-at j lt, v.hops j l at) (HasLink-get_elem dl j l at)

  -- Every node is up.
  pub loaded-AllUp : AllUp (loaded dl table)
  loaded-AllUp j lt = let (l, at) = get_elem?-inside dl j lt in rw (inside-at j lt) (v.live j l at)
