-- ===== src/Flooding/Ack.antt =====
-- `lsa_handler` on an ACK: which checkers it marks.
use p.Prelude.{
  ℕ, zero, suc, ◌+◌, ◌≡◌, ◌≢◌, ap, ◌∙◌, sym, List, Option, none, some, arith, ◌==◌, inl, inr,
  Option-cases, Bool-cases, ◌>>=◌, rounds, get_elem?, write,
}
use mathlib.Core.Option.{some-injective}
use p.Tables.{DirectLinks}
use p.Lsa.{Lsa}
use p.Lsa.Header.{type_lsa, get_type}
use p.Routing.{
  AckChecker, RoutingEntry, RoutingTable, get_routing_entry, update_entry, ensure_checkers,
}
use p.Routing.Update.{IsTable}
use p.Routing.Update.Routes.{updated, entry_index}
use p.Routing.Update.Effect.{update_entry-eq, get_routing_entry-updated}
use p.Flooding.{State, set_checker, set_entry_checker, acknowledge, ack_loop, deref, handle_ack}

set_entry_checker-frame :
    (rt : RoutingTable) (i j : ℕ) (f : AckChecker → AckChecker) (rt' : RoutingTable)
    → set_entry_checker rt 0 i f ≡ some rt'
    → j ≢ 0
    → rt'.table j ≡ rt.table j
unfolding set_entry_checker
set_entry_checker-frame rt i j f rt' run other = elim (Option-cases (rt.table 0).checkers_list) [
  | inl e ↦ cc (rw e at run)
  | inr (list, e) ↦ elim (Option-cases (set_checker list.checkers i f)) [
    | inl u ↦ cc (rw (e, u) at run)
    | inr (cs, u) ↦
        ap (λ (t : RoutingTable). t.table j) (sym (some-injective _ _ (rw (e, u) at run)))
        ∙ ground arith
  ]
]

ack_loop-frame :
    (n i j : ℕ) (cs : List AckChecker) (forwarder_id : ℕ) (rt rt' : RoutingTable)
    → ack_loop n i cs forwarder_id rt ≡ some rt'
    → j ≢ 0
    → rt'.table j ≡ rt.table j
unfolding ack_loop
ack_loop-frame zero i j cs f rt rt' run other =
    ap (λ (t : RoutingTable). t.table j) (sym (some-injective _ _ run))
ack_loop-frame (suc n) i j cs f rt rt' run other = elim (Option-cases (get_elem? cs i)) [
  | inl e ↦ cc (rw e at run)
  | inr (c, e) ↦ elim (Bool-cases (c.id == f)) [
    | inr no_match ↦ ack_loop-frame n (i + 1) j cs f rt rt' (rw (e, no_match) at run) other
    | inl match ↦ elim (Option-cases (set_entry_checker rt 0 i acknowledge)) [
      | inl u ↦ cc (rw (e, match, u) at run)
      | inr (rt1, u) ↦
          ack_loop-frame n (i + 1) j cs f rt1 rt' (rw (e, match, u) at run) other
          ∙ set_entry_checker-frame rt i j acknowledge rt1 u other
    ]
  ]
]

-- Whatever packet an ACK answers, only the first entry of the table is written, also where the
-- packet was sent by another node and stands in another entry.
pub handle_ack-frame :
    (lsa : Lsa) (forwarder_id : ℕ) (s s' : State) (j : ℕ)
    → handle_ack lsa forwarder_id s ≡ some s'
    → j ≢ 0
    → s'.rt.table j ≡ s.rt.table j
unfolding handle_ack
handle_ack-frame lsa f s s' j run other =
    elim (Option-cases (deref s.rt (get_routing_entry s.rt lsa.sender_node_id))) [
      | inl a ↦ cc (rw a at run)
      | inr (entry, a) ↦ elim (Option-cases entry.checkers_list) [
        | inl b ↦ cc (rw (a, b) at run)
        | inr (list, b) ↦ elim (Option-cases list.num_links) [
          | inl c ↦ cc (rw (a, b, c) at run)
          | inr (n, c) ↦ elim (Option-cases (ack_loop (rounds n) 0 list.checkers f s.rt)) [
            | inl d ↦ cc (rw (a, b, c, d) at run)
            | inr (rt', d) ↦
                ap (λ (t : State). t.rt.table j) (sym (some-injective _ _ (rw (a, b, c, d) at run)))
                ∙ ack_loop-frame (rounds n) 0 j list.checkers f s.rt rt' d other
          ]
        ]
      ]
    ]

write_self : {A : Type 0} (f : ℕ → A) (i : ℕ) (a : A) → write f i a i ≡ a
write_self f i a = ground arith

-- The count of an entry's checkers, if there are any and it is set.
abbrev num_links_of : RoutingEntry → Option ℕ
num_links_of e = e.checkers_list >>= λ list. list.num_links

new_uncounted :
    (rt : RoutingTable) (dl : DirectLinks) (lsa : Lsa) (size nexthop : ℕ)
    → (rt.table rt.num_entry).checkers_list ≡ none
    → num_links_of ((updated rt dl none lsa size nexthop).table rt.num_entry) ≡ none
unfolding ensure_checkers
new_uncounted rt dl lsa size nexthop spare = ground arith

no_count :
    (e : RoutingEntry) (f : ℕ) (rt' : RoutingTable) (s : State)
    → num_links_of e ≡ none
    → (some e >>= λ entry. entry.checkers_list >>= λ list. list.num_links >>= λ n.
        ack_loop (rounds n) 0 list.checkers f rt' >>= λ rt2. some (record s { rt = rt2 }))
      ≡ none
no_count e f rt' s h = ground arith

-- After `update_entry` made an entry for a node that had none, at a place without checkers, an ACK
-- for a packet of that node makes the handler read the count of checkers before it was set.
pub handle_ack_uncounted :
    (dl : DirectLinks) (lsa ack : Lsa) (size nexthop forwarder_id : ℕ) (s : State)
    (rt' : RoutingTable)
    → IsTable dl s.rt
    → get_type lsa.version_ttl_type ≡ type_lsa
    → get_routing_entry s.rt lsa.sender_node_id ≡ none
    → (s.rt.table s.rt.num_entry).checkers_list ≡ none
    → update_entry none s.rt dl (some lsa) size nexthop ≡ some rt'
    → ack.sender_node_id ≡ lsa.sender_node_id
    → handle_ack ack forwarder_id (record s { rt = rt' }) ≡ none
unfolding handle_ack deref
handle_ack_uncounted dl lsa ack size nexthop f s rt' v typed new spare run sender =
    let run' : update_entry (get_routing_entry s.rt lsa.sender_node_id) s.rt dl (some lsa) size
          nexthop
        ≡ some rt' =
      rw new run in
    let (room, same) = update_entry-eq dl s.rt lsa size nexthop v typed run' in
    let found = get_routing_entry-updated dl s.rt lsa size nexthop v typed room in
    let at : get_routing_entry rt' ack.sender_node_id ≡ some s.rt.num_entry =
      rw (sender, same) (found ∙ ap (λ o. some (entry_index s.rt o)) new) in
    let uncounted : num_links_of (rt'.table s.rt.num_entry) ≡ none =
      rw (same, new) (new_uncounted s.rt dl lsa size nexthop spare) in
    rw at (no_count (rt'.table s.rt.num_entry) f rt' s uncounted)
