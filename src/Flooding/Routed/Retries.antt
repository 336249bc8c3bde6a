-- ===== src/Flooding/Routed/Retries.antt =====
-- rd/flooding_engine.c: the routes after a retransmission.
use p.Prelude.{
  ℕ, ◌+◌, ◌-◌, ◌≡◌, ◌≢◌, refl, ap, ◌∙◌, sym, subst, [], ◌∷◌, none, some, arith, ◌==◌, inl, inr,
  Option-cases, Bool-cases, write, drop, get_elem?, sle,
}
use mathlib.Core.Option.{some-injective}
use p.Tables.{LinkEntry, DirectLinks, LocalObjects}
use p.HashSet.{hash_remove_node}
use p.HashSet.RemoveNode.{hash_remove_node-Removes}
use p.Routing.{
  AckChecker, RoutingEntry, get_routing_entry, status_down, ack_not_received, ack_was_received,
  retransmit_time,
}
use p.Flooding.{
  State, rt_sendto, set_entry_checker, lsa_of, give_up, send_again, retry_link, retransmit_loop,
  retransmit_missing,
}
use p.Flooding.Routed.{HasLink, NodeUp, NoneHas, home_id, IsRouted, hash_remove_node-PathsUp}
use p.HashSet.Names.{hash_remove_node-KeepsNames, AllStored-keep}
use p.Routing.Lookup.{get_routing_entry-Found}
use p.Flooding.Routed.Same.{SameRoutes, SameRoutes-IsRouted, set_entry_checker-SameRoutes}

-- An entry but the first is written with the same id and the same next hop, up or down, and the objects
-- of its node are forgotten.
pub forget-IsRouted :
    {ol : LocalObjects} (dl : DirectLinks) (s : State) (i : ℕ) (e : RoutingEntry)
    → i ≢ 0
    → e.id ≡ (s.rt.table i).id
    → e.nexthop ≡ (s.rt.table i).nexthop
    → IsRouted dl ol s
    → IsRouted dl ol (record s {
      rt = record s.rt { table = write s.rt.table i e };
      gol = hash_remove_node s.gol (s.rt.table i).id;
    })
forget-IsRouted {ol} dl s i e later same hop v =
    let rt' = record s.rt { table = write s.rt.table i e } in
    let id = (s.rt.table i).id in
    let others : (n : ℕ) → n ≢ id → NodeUp s.rt n → NodeUp rt' n =
      λ n ne (k, lt, at, up). (k, lt, ground arith, ground arith) in
    record {
      valid = (hash_remove_node-Removes s.gol id v.valid).valid;
      hops = λ j lt. subst (HasLink dl) (sym (the_hop j)) (v.hops j lt);
      paths = hash_remove_node-PathsUp s.rt rt' s.gol id v.valid others v.paths;
      stored =
          AllStored-keep ol s.gol (hash_remove_node s.gol id)
            (hash_remove_node-KeepsNames s.gol id v.valid) v.stored;
      some_entry = v.some_entry;
      home_is = ground (arith, v.home_is);
      home_up = ground (arith, v.home_up);
      apart = v.apart;
    }
  where
    the_hop : (j : ℕ) → (write s.rt.table i e j).nexthop ≡ (s.rt.table j).nexthop
    the_hop j = ground arith

give_up-IsRouted :
    {ol : LocalObjects} (dl : DirectLinks) (entry k i : ℕ) (s s' : State)
    → entry ≢ 0
    → IsRouted dl ol s
    → give_up entry k i s ≡ some s'
    → IsRouted dl ol s'
unfolding give_up
give_up-IsRouted {ol} dl entry k i s s' later v run =
    let down = record (s.rt.table entry) { lsa = none; node_status = status_down } in
    let rt1 = record s.rt { table = write s.rt.table entry down } in
    let m = record s { rt = rt1; gol = hash_remove_node s.gol (s.rt.table entry).id } in
    elim (Option-cases
      (set_entry_checker rt1 k i (λ c. record c { ack_received = ack_was_received }))) [
        | inl a ↦ absurd (cc (rw a at run))
        | inr (rt2, a) ↦
            let m2 = record m { rt = rt2 } in
            subst (IsRouted dl ol) (some-injective _ _ (rw a at run)) (
              SameRoutes-IsRouted dl m m2 (set_entry_checker-SameRoutes m m2 k i _ rt2 a refl refl)
                (forget-IsRouted dl s entry down later refl refl v))
      ]

send_again-SameRoutes :
    (src : ℕ) (l : LinkEntry) (k i size : ℕ) (s s' : State)
    → send_again src l k i size s ≡ some s'
    → SameRoutes s s'
unfolding send_again rt_sendto
send_again-SameRoutes src l k i size s s' run = elim (Option-cases (lsa_of s.rt src)) [
  | inl a ↦ absurd (cc (rw a at run))
  | inr (lsa, a) ↦
      elim (Option-cases
        (set_entry_checker s.rt k i (λ c. record c { retransmit = c.retransmit + 1 }))) [
          | inl b ↦ absurd (cc (rw (a, b) at run))
          | inr (rt', b) ↦
              let m = record (rt_sendto s lsa l.host l.route_p size) { rt = rt' } in
              subst (SameRoutes s) (some-injective _ _ (rw (a, b) at run))
                (set_entry_checker-SameRoutes s m k i _ rt' b refl refl)
        ]
]

retry_link-IsRouted :
    {ol : LocalObjects} (dl : DirectLinks) (src : ℕ) (l : LinkEntry) (k i size : ℕ) (c : AckChecker)
    (s s' : State)
    → l.id ≢ home_id dl
    → IsRouted dl ol s
    → retry_link src l k i size c s ≡ some s'
    → IsRouted dl ol s'
unfolding retry_link
retry_link-IsRouted {ol} dl src l k i size c s s' ne v run =
    elim (Option-cases (get_routing_entry s.rt l.id)) [
      | inl b ↦ absurd (ground (arith, run, b))
      | inr (entry, b) ↦ elim (Bool-cases (sle (retransmit_time - 1) c.retransmit)) [
        | inl a ↦
            let found = get_routing_entry-Found s.rt l.id entry b in
            let later : entry ≢ 0 =
              λ z. ne (sym found.same ∙ ap (λ j. (s.rt.table j).id) z ∙ v.home_is) in
            give_up-IsRouted dl entry k i s s' later v (rw (a, b) at run)
        | inr a ↦ elim (Bool-cases ((s.rt.table entry).node_status == status_down)) [
          | inl d ↦ subst (IsRouted dl ol) (some-injective _ _ (rw (a, b, d) at run)) v
          | inr d ↦
              SameRoutes-IsRouted dl s s'
                (send_again-SameRoutes src l k i size s s' (rw (a, b, d) at run)) v
        ]
      ]
    ]

retransmit_loop-IsRouted :
    {ol : LocalObjects} (dl ls : DirectLinks) (i src k size f : ℕ) (s s' : State)
    → NoneHas (home_id dl) ls
    → IsRouted dl ol s
    → retransmit_loop ls i src k size f s ≡ some s'
    → IsRouted dl ol s'
unfolding retransmit_loop
retransmit_loop-IsRouted {ol} dl [] i src k size f s s' apart v run =
    subst (IsRouted dl ol) (some-injective _ _ run) v
retransmit_loop-IsRouted {ol} dl (l ∷ ls) i src k size f s s' (ne, apart) v run =
    elim (Bool-cases (l.id == f)) [
      | inl from ↦ retransmit_loop-IsRouted dl ls (i + 1) src k size f s s' apart v (rw from at run)
      | inr on ↦ elim (Option-cases (s.rt.table k).checkers_list) [
        | inl a ↦ absurd (cc (rw (on, a) at run))
        | inr (list, a) ↦ elim (Option-cases (get_elem? list.checkers i)) [
          | inl b ↦ absurd (cc (rw (on, a, b) at run))
          | inr (c, b) ↦ elim (Bool-cases (c.ack_received == ack_not_received)) [
            | inr done ↦
                retransmit_loop-IsRouted dl ls (i + 1) src k size f s s' apart v
                  (rw (on, a, b, done) at run)
            | inl owes ↦ elim (Option-cases (retry_link src l k i size c s)) [
              | inl d ↦ absurd (cc (rw (on, a, b, owes, d) at run))
              | inr (m, d) ↦
                  retransmit_loop-IsRouted dl ls (i + 1) src k size f m s' apart
                    (retry_link-IsRouted dl src l k i size c s m ne v d)
                    (rw (on, a, b, owes, d) at run)
            ]
          ]
        ]
      ]
    ]

pub retransmit_missing-IsRouted :
    {ol : LocalObjects} (dl : DirectLinks) (src size f : ℕ) (s s' : State)
    → IsRouted dl ol s
    → retransmit_missing src dl size f s ≡ some s'
    → IsRouted dl ol s'
unfolding retransmit_missing
retransmit_missing-IsRouted {ol} dl src size f s s' v run = elim (Option-cases (lsa_of s.rt src)) [
  | inl a ↦ subst (IsRouted dl ol) (some-injective _ _ (rw (retransmit_missing, a) at run)) v
  | inr (lsa, a) ↦ elim (Option-cases (get_routing_entry s.rt lsa.sender_node_id)) [
    | inl b ↦ absurd (cc (rw (retransmit_missing, a, b) at run))
    | inr (k, b) ↦
        retransmit_loop-IsRouted dl (drop 1 dl) 1 src k size f s s' v.apart v
          (rw (retransmit_missing, a, b) at run)
  ]
]
