-- ===== src/Flooding/Wellformed.antt =====
-- rd/flooding_engine.c: the tables of the daemon after `lsa_handler`.
use p.Prelude.{
  ℕ, zero, suc, ◌+◌, ◌^◌, ◌<◌, ◌≡◌, ap, ◌∙◌, sym, subst, Bool, List, Option, some, arith, ◌==◌, ltb,
  inl, inr, length, get_elem?, drop, Option-cases, Bool-cases, rounds,
}
use mathlib.Core.Option.{some-injective}
use p.Tables.{DirectLinks, max_obj_len}
use p.HashSet.{LisoHash, hash_add}
use p.HashSet.Invariant.{IsValid}
use p.HashSet.Add.{hash_add-Adds}
use p.Lsa.{Lsa, read_int, strncpy, store_loop, store_node_objects}
use p.Lsa.Header.{type_lsa, type_ack, get_type}
use p.Routing.{AckChecker, RoutingTable, get_routing_entry}
use p.Routing.Lookup.{get_routing_entry-Found}
use p.Routing.Update.{IsTable, get_elem?-lt}
use p.Flooding.{
  State, is_stale, deref, acknowledge, ack_loop, handle_lsa, handle_ack, handle_packet,
}
use p.Flooding.Checkers.{
  modify_entry, set_entry_checker-modify, modify_entry-IsTable, checkers_of, length-checkers_of,
}
use p.Flooding.Accept.{handle_lsa-Handled, Handled-Accepts}

-- Both tables of the daemon are as they should be.
pub record IsState (dl : DirectLinks) (s : State) : Type 0 where
  pub table : IsTable dl s.rt
  pub objects : IsValid s.gol

store_loop-IsValid :
    (n : ℕ) (bytes : List ℕ) (h : LisoHash) (id cost : ℕ) (h' : LisoHash)
    → IsValid h
    → store_loop n bytes h id cost ≡ some h'
    → IsValid h'
unfolding store_loop
store_loop-IsValid zero bytes h id cost h' v run = subst IsValid (some-injective _ _ run) v
store_loop-IsValid (suc n) bytes h id cost h' v run = elim (Option-cases (read_int bytes)) [
  | inl a ↦ cc (rw a at run)
  | inr (len, a) ↦ elim (Bool-cases (ltb len max_obj_len)) [
    | inr long ↦ cc (rw (a, long) at run)
    | inl short ↦ elim (Option-cases (strncpy len (drop 4 bytes))) [
      | inl b ↦ cc (rw (a, short, b) at run)
      | inr (object, b) ↦ elim (Option-cases (hash_add h object id cost)) [
        | inl c ↦ cc (rw (a, short, b, c) at run)
        | inr (h1, c) ↦
            store_loop-IsValid n (drop (4 + len) bytes) h1 id cost h'
              (hash_add-Adds h object id cost v c).valid (rw (a, short, b, c) at run)
      ]
    ]
  ]
]

ack_loop-IsTable :
    (dl : DirectLinks) (n i : ℕ) (cs : List AckChecker) (forwarder_id : ℕ) (rt rt' : RoutingTable)
    → IsTable dl rt
    → 0 < rt.num_entry
    → length cs ≡ length dl
    → ack_loop n i cs forwarder_id rt ≡ some rt'
    → IsTable dl rt'
unfolding ack_loop
ack_loop-IsTable dl zero i cs f rt rt' v pos wide run =
    subst (IsTable dl) (some-injective _ _ run) v
ack_loop-IsTable dl (suc n) i cs f rt rt' v pos wide run = elim (Option-cases (get_elem? cs i)) [
  | inl e ↦ cc (rw e at run)
  | inr (c, e) ↦ elim (Bool-cases (c.id == f)) [
    | inr other ↦ ack_loop-IsTable dl n (i + 1) cs f rt rt' v pos wide (rw (e, other) at run)
    | inl match ↦
        let inside : i < length dl = omega (arith, get_elem?-lt cs i c e) in
        let step = set_entry_checker-modify dl rt v 0 pos i acknowledge inside in
        ack_loop-IsTable dl n (i + 1) cs f (modify_entry rt 0 i acknowledge) rt'
          (modify_entry-IsTable dl rt v 0 pos i acknowledge) pos wide (rw (e, match, step) at run)
  ]
]

module _ (dl : DirectLinks) (lsa : Lsa) (forwarder_id size : ℕ) (s s' : State)
    (v : IsState dl s) where
  handle_lsa-IsState :
      lsa.version_ttl_type < 2 ^ 32
      → get_type lsa.version_ttl_type ≡ type_lsa
      → handle_lsa dl lsa forwarder_id size s ≡ some s'
      → IsState dl s'
  unfolding store_node_objects
  handle_lsa-IsState word typed run =
      let h = handle_lsa-Handled dl lsa forwarder_id size s s' run in
      record {
        table = (Handled-Accepts dl lsa forwarder_id size s s' v.table word typed h).table;
        objects =
            subst IsValid (sym h.gol)
              (store_loop-IsValid _ _ s.gol _ _ h.objects v.objects h.storing);
      }

  handle_ack-IsState : handle_ack lsa forwarder_id s ≡ some s' → IsState dl s'
  unfolding handle_ack deref
  handle_ack-IsState run = elim (Option-cases (get_routing_entry s.rt lsa.sender_node_id)) [
    | inl a ↦ cc (rw a at run)
    | inr (k, a) ↦ elim (Option-cases (s.rt.table k).checkers_list) [
      | inl b ↦ cc (rw (a, b) at run)
      | inr (list, b) ↦ elim (Option-cases list.num_links) [
        | inl c ↦ cc (rw (a, b, c) at run)
        | inr (n, c) ↦ elim (Option-cases (ack_loop (rounds n) 0 list.checkers forwarder_id s.rt)) [
          | inl d ↦ cc (rw (a, b, c, d) at run)
          | inr (rt', d) ↦
              let lt = (get_routing_entry-Found s.rt lsa.sender_node_id k a).inside in
              let wide : length list.checkers ≡ length dl =
                sym (ap (λ o. length (checkers_of o)) b)
                ∙ length-checkers_of dl s.rt v.table k lt in
              let t =
                ack_loop-IsTable dl (rounds n) 0 list.checkers forwarder_id s.rt rt' v.table
                  (omega arith) wide d in
              subst (IsState dl) (some-injective _ _ (rw (a, b, c, d) at run))
                (record { table = t; objects = v.objects })
        ]
      ]
    ]
  ]

  -- Whatever packet the handler reads on a well-formed state, and whether it accepts it or not, the
  -- state is well formed afterwards where the handler returns.
  pub handle_packet-IsState :
      lsa.version_ttl_type < 2 ^ 32
      → (accepted : Bool) → handle_packet dl lsa forwarder_id size s ≡ some (s', accepted)
      → IsState dl s'
  unfolding handle_packet
  handle_packet-IsState word accepted run =
      let type = get_type lsa.version_ttl_type in
      let held = deref s.rt (get_routing_entry s.rt lsa.sender_node_id) in
      elim (Bool-cases (is_stale held type lsa)) [
        | inl old ↦ unchanged (rw old at run)
        | inr new ↦ elim (Bool-cases (type == type_lsa)) [
          | inl typed ↦ elim (Option-cases (handle_lsa dl lsa forwarder_id size s)) [
            | inl e ↦ cc (rw (new, typed, e) at run)
            | inr (t, e) ↦
                handle_lsa-IsState word (ground arith)
                  (e ∙ ap some (result (rw (new, typed, e) at run)))
          ]
          | inr other ↦ elim (Bool-cases (type == type_ack)) [
            | inl ack ↦ elim (Option-cases (handle_ack lsa forwarder_id s)) [
              | inl e ↦ cc (rw (new, other, ack, e) at run)
              | inr (t, e) ↦
                  handle_ack-IsState (e ∙ ap some (result (rw (new, other, ack, e) at run)))
            ]
            | inr neither ↦ unchanged (rw (new, other, neither) at run)
          ]
        ]
      ]
    where
      result :
          {t : State} {b : Bool}
          → ◌≡◌ {A = Option (State × Bool)} (some (t, b)) (some (s', accepted))
          → t ≡ s'
      result e = ap (λ (p : State × Bool). p.0) (some-injective _ _ e)

      unchanged :
          {b : Bool}
          → ◌≡◌ {A = Option (State × Bool)} (some (s, b)) (some (s', accepted))
          → IsState dl s'
      unchanged e = subst (IsState dl) (result e) v
