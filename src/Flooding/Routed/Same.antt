-- ===== src/Flooding/Routed/Same.antt =====
-- rd/flooding_engine.c: the loops that change no route.
use p.Prelude.{
  ℕ, zero, suc, ◌+◌, ◌≡◌, ◌≢◌, refl, ◌∙◌, sym, subst, List, [], ◌∷◌, Option, none, some, arith,
  ◌==◌, inl, inr, Option-cases, Bool-cases, drop, get_elem?,
}
use mathlib.Core.Option.{some-injective}
use p.Tables.{DirectLinks, LocalObjects}
use p.Lsa.{Lsa}
use p.HashSet.Invariant.{IsValid}
use p.Routing.{AckChecker, RoutingTable, get_routing_entry, status_down, ack_not_received}
use p.Flooding.{
  State, deref, rt_sendto, acknowledge, set_entry_checker, ack_loop, flood_loop, forward_loop,
  flood_received_lsa,
}
use p.Flooding.Routed.{HasLink, PathsUp, IsRouted, KeepsUp, PathsUp-keep}
use p.HashSet.Names.{AllStored}

-- Every entry that is up stays up.
abbrev pub StaysUp : RoutingTable → RoutingTable → Type 0
StaysUp rt rt' =
    (j : ℕ) → (rt.table j).node_status ≢ status_down → (rt'.table j).node_status ≢ status_down

-- The same nodes, up where they were, with the same next hops, and the same objects.
pub record SameRoutes (s s' : State) : Type 0 where
  pub count : s'.rt.num_entry ≡ s.rt.num_entry
  pub ids : (j : ℕ) → (s'.rt.table j).id ≡ (s.rt.table j).id
  pub hops : (j : ℕ) → (s'.rt.table j).nexthop ≡ (s.rt.table j).nexthop
  pub up : StaysUp s.rt s'.rt
  pub objects : s'.gol ≡ s.gol

pub SameRoutes-refl : (s : State) → SameRoutes s s
SameRoutes-refl s = record {
  count = refl;
  ids = λ j. refl;
  hops = λ j. refl;
  up = λ j h. h;
  objects = refl;
}

pub SameRoutes-trans : {a b c : State} → SameRoutes a b → SameRoutes b c → SameRoutes a c
SameRoutes-trans x y = record {
  count = y.count ∙ x.count;
  ids = λ j. y.ids j ∙ x.ids j;
  hops = λ j. y.hops j ∙ x.hops j;
  up = λ j h. y.up j (x.up j h);
  objects = y.objects ∙ x.objects;
}

pub same_nodes :
    (rt rt' : RoutingTable)
    → rt'.num_entry ≡ rt.num_entry
    → ((j : ℕ) → (rt'.table j).id ≡ (rt.table j).id)
    → StaysUp rt rt'
    → KeepsUp rt rt'
same_nodes rt rt' count ids stays id (k, lt, same, up) =
    (k, omega (arith, count, lt), ids k ∙ same, stays k up)

pub SameRoutes-IsRouted :
    {ol : LocalObjects} (dl : DirectLinks) (s s' : State)
    → SameRoutes s s'
    → IsRouted dl ol s
    → IsRouted dl ol s'
SameRoutes-IsRouted {ol} dl s s' h v = record {
  valid = subst IsValid (sym h.objects) v.valid;
  hops = λ j lt. subst (HasLink dl) (sym (h.hops j)) (v.hops j (omega (arith, h.count, lt)));
  paths =
      subst (PathsUp s'.rt) (sym h.objects)
        (PathsUp-keep s.rt s'.rt s.gol (same_nodes s.rt s'.rt h.count h.ids h.up) v.paths);
  stored = subst (AllStored ol) (sym h.objects) v.stored;
  some_entry = omega (arith, h.count, v.some_entry);
  home_is = h.ids 0 ∙ v.home_is;
  home_up = h.up 0 v.home_up;
  apart = v.apart;
}

-- A write to a checker.
pub set_entry_checker-SameRoutes :
    (s s' : State) (k i : ℕ) (f : AckChecker → AckChecker) (rt' : RoutingTable)
    → set_entry_checker s.rt k i f ≡ some rt'
    → s'.rt ≡ rt'
    → s'.gol ≡ s.gol
    → SameRoutes s s'
unfolding set_entry_checker
set_entry_checker-SameRoutes s s' k i f rt' run at same = record {
  count = ground arith;
  ids = λ j. ground arith;
  hops = λ j. ground arith;
  up = λ j h. ground arith;
  objects = same;
}

pub ack_loop-SameRoutes :
    (n i : ℕ) (cs : List AckChecker) (f : ℕ) (s : State) (rt' : RoutingTable)
    → ack_loop n i cs f s.rt ≡ some rt'
    → SameRoutes s (record s { rt = rt' })
unfolding ack_loop
ack_loop-SameRoutes zero i cs f s rt' run =
    subst (λ (t : RoutingTable). SameRoutes s (record s { rt = t })) (some-injective _ _ run)
      (SameRoutes-refl s)
ack_loop-SameRoutes (suc n) i cs f s rt' run = elim (Option-cases (get_elem? cs i)) [
  | inl e ↦ absurd (cc (rw e at run))
  | inr (c, e) ↦ elim (Bool-cases (c.id == f)) [
    | inr other ↦ ack_loop-SameRoutes n (i + 1) cs f s rt' (rw (e, other) at run)
    | inl match ↦ elim (Option-cases (set_entry_checker s.rt 0 i acknowledge)) [
      | inl a ↦ absurd (cc (rw (e, match, a) at run))
      | inr (rt1, a) ↦
          SameRoutes-trans
            (set_entry_checker-SameRoutes s (record s { rt = rt1 }) 0 i acknowledge rt1 a refl refl)
            (ack_loop-SameRoutes n (i + 1) cs f (record s { rt = rt1 }) rt'
              (rw (e, match, a) at run))
    ]
  ]
]

abbrev sent_now : AckChecker → AckChecker
sent_now c = record c { ack_received = ack_not_received }

pub flood_loop-SameRoutes :
    (ls : DirectLinks) (i k : ℕ) (lsa : Lsa) (size : ℕ) (s s' : State)
    → flood_loop ls i k lsa size s ≡ some s'
    → SameRoutes s s'
unfolding flood_loop rt_sendto
flood_loop-SameRoutes [] i k lsa size s s' run =
    subst (SameRoutes s) (some-injective _ _ run) (SameRoutes-refl s)
flood_loop-SameRoutes (l ∷ ls) i k lsa size s s' run =
    elim (Option-cases (deref s.rt (get_routing_entry s.rt l.id))) [
      | inl e ↦ absurd (cc (rw e at run))
      | inr (n, e) ↦ elim (Bool-cases (n.node_status == status_down)) [
        | inl down ↦ flood_loop-SameRoutes ls (i + 1) k lsa size s s' (rw (e, down) at run)
        | inr up ↦ elim (Option-cases (set_entry_checker s.rt k i sent_now)) [
          | inl a ↦ absurd (cc (rw (e, up, a) at run))
          | inr (rt1, a) ↦
              let m = record (rt_sendto s lsa l.host l.route_p size) { rt = rt1 } in
              SameRoutes-trans (set_entry_checker-SameRoutes s m k i sent_now rt1 a refl refl)
                (flood_loop-SameRoutes ls (i + 1) k lsa size m s' (rw (e, up, a) at run))
        ]
      ]
    ]

forward_loop-SameRoutes :
    (ls : DirectLinks) (i k : ℕ) (lsa : Lsa) (size f : ℕ) (s s' : State)
    → forward_loop ls i k lsa size f s ≡ some s'
    → SameRoutes s s'
unfolding forward_loop rt_sendto
forward_loop-SameRoutes [] i k lsa size f s s' run =
    subst (SameRoutes s) (some-injective _ _ run) (SameRoutes-refl s)
forward_loop-SameRoutes (l ∷ ls) i k lsa size f s s' run = elim (Bool-cases (l.id == f)) [
  | inl from ↦ forward_loop-SameRoutes ls (i + 1) k lsa size f s s' (rw from at run)
  | inr on ↦ elim (Option-cases (deref s.rt (get_routing_entry s.rt l.id))) [
    | inl e ↦ absurd (cc (rw (on, e) at run))
    | inr (n, e) ↦ elim (Bool-cases (n.node_status == status_down)) [
      | inl down ↦ forward_loop-SameRoutes ls (i + 1) k lsa size f s s' (rw (on, e, down) at run)
      | inr up ↦ elim (Option-cases (set_entry_checker s.rt k i sent_now)) [
        | inl a ↦ absurd (cc (rw (on, e, up, a) at run))
        | inr (rt1, a) ↦
            let m = record (rt_sendto s lsa l.host l.route_p size) { rt = rt1 } in
            SameRoutes-trans (set_entry_checker-SameRoutes s m k i sent_now rt1 a refl refl)
              (forward_loop-SameRoutes ls (i + 1) k lsa size f m s' (rw (on, e, up, a) at run))
      ]
    ]
  ]
]

pub flood_received_lsa-SameRoutes :
    (packet : Option Lsa) (dl : DirectLinks) (size f : ℕ) (s s' : State)
    → flood_received_lsa packet dl size f s ≡ some s'
    → SameRoutes s s'
unfolding flood_received_lsa
flood_received_lsa-SameRoutes none dl size f s s' run = absurd (cc run)
flood_received_lsa-SameRoutes (some lsa) dl size f s s' run =
    elim (Option-cases (get_routing_entry s.rt lsa.sender_node_id)) [
      | inl e ↦ absurd (cc (rw e at run))
      | inr (k, e) ↦ forward_loop-SameRoutes (drop 1 dl) 1 k lsa size f s s' (rw e at run)
    ]
