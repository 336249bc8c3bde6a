-- ===== src/Flooding/Retries.antt =====
-- rd/flooding_engine.c: the tables of the daemon after `retransmit_missing`.
use p.Prelude.{
  ℕ, ◌+◌, ◌≤◌, ◌<◌, ◌≡◌, refl, ◌∙◌, sym, subst, [], ◌∷◌, some, arith, ◌==◌, inl, inr, length,
  length-drop, get_elem?, drop, Option-cases, Bool-cases, sle,
}
use mathlib.Core.Option.{some-injective}
use p.Tables.{LinkEntry, DirectLinks}
use p.HashSet.RemoveNode.{hash_remove_node-Removes}
use p.Routing.{AckChecker, get_routing_entry, status_down, ack_not_received}
use p.Routing.Lookup.{get_routing_entry-Found}
use p.Flooding.{
  State, lsa_of, rt_sendto, send_again, retry_link, retransmit_loop, retransmit_missing,
}
use p.Flooding.Checkers.{set_entry_checker-modify, modify_entry-IsTable}
use p.Flooding.Retransmit.{gave_up-IsTable, retry_link-gave_up}
use p.Flooding.Wellformed.{IsState}

-- A state that is well formed and has as many entries as another.
pub record Keeps (dl : DirectLinks) (s s' : State) : Type 0 where
  pub state : IsState dl s'
  pub count : s'.rt.num_entry ≡ s.rt.num_entry

Keeps-eq : {dl : DirectLinks} {s a b : State} → Keeps dl s a → a ≡ b → Keeps dl s b
Keeps-eq {dl} {s} h e = subst (Keeps dl s) e h

abbrev counted : AckChecker → AckChecker
counted c = record c { retransmit = c.retransmit + 1 }

module _ (dl : DirectLinks) (src k i size : ℕ) (l : LinkEntry) (s : State) (v : IsState dl s)
    (lt : k < s.rt.num_entry) (fits : i < length dl) where
  send_again-Keeps : (s' : State) → send_again src l k i size s ≡ some s' → Keeps dl s s'
  unfolding send_again lsa_of rt_sendto
  send_again-Keeps s' run = elim (Option-cases (s.rt.table src).lsa) [
    | inl e ↦ cc (rw e at run)
    | inr (lsa, e) ↦
        let step = set_entry_checker-modify dl s.rt v.table k lt i counted fits in
        let t = modify_entry-IsTable dl s.rt v.table k lt i counted in
        Keeps-eq (record { state = record { table = t; objects = v.objects }; count = refl })
          (some-injective _ _ (rw (e, step) at run))
  ]

  retry_link-Keeps :
      (c : AckChecker) (s' : State) → retry_link src l k i size c s ≡ some s' → Keeps dl s s'
  unfolding retry_link
  retry_link-Keeps c s' run = elim (Option-cases (get_routing_entry s.rt l.id)) [
    | inl e ↦ ground arith
    | inr (j, e) ↦ elim (Bool-cases (sle 3 c.retransmit)) [
      | inl late ↦
          let gone = hash_remove_node-Removes s.gol (s.rt.table j).id v.objects in
          let t = gave_up-IsTable dl src k i size l c s v.table lt fits j e in
          Keeps-eq (record { state = record { table = t; objects = gone.valid }; count = refl })
            (some-injective _ _
              (sym (retry_link-gave_up dl src k i size l c s v.table lt fits j e late) ∙ run))
      | inr early ↦ elim (Bool-cases ((s.rt.table j).node_status == status_down)) [
        | inl down ↦
            Keeps-eq (record { state = v; count = refl })
              (some-injective _ _ (rw (early, e, down) at run))
        | inr up ↦ send_again-Keeps s' (rw (early, e, up) at run)
      ]
    ]
  ]

retransmit_loop-Keeps :
    (dl ls : DirectLinks) (i src k size from : ℕ) (s s' : State)
    → IsState dl s
    → k < s.rt.num_entry
    → i + length ls ≤ length dl
    → retransmit_loop ls i src k size from s ≡ some s'
    → Keeps dl s s'
unfolding retransmit_loop
retransmit_loop-Keeps dl [] i src k size from s s' v lt fits run =
    Keeps-eq (record { state = v; count = refl }) (some-injective _ _ run)
retransmit_loop-Keeps dl (l ∷ ls) i src k size from s s' v lt fits run =
    let skip = retransmit_loop-Keeps dl ls (i + 1) src k size from s s' v lt (omega arith) in
    elim (Bool-cases (l.id == from)) [
      | inl same ↦ skip (rw same at run)
      | inr other ↦ elim (Option-cases (s.rt.table k).checkers_list) [
        | inl a ↦ cc (rw (other, a) at run)
        | inr (list, a) ↦ elim (Option-cases (get_elem? list.checkers i)) [
          | inl b ↦ cc (rw (other, a, b) at run)
          | inr (c, b) ↦ elim (Bool-cases (c.ack_received == ack_not_received)) [
            | inr settled ↦ skip (rw (other, a, b, settled) at run)
            | inl owes ↦ elim (Option-cases (retry_link src l k i size c s)) [
              | inl d ↦ cc (rw (other, a, b, owes, d) at run)
              | inr (m, d) ↦
                  let h = retry_link-Keeps dl src k i size l s v lt (omega arith) c m d in
                  let r =
                    retransmit_loop-Keeps dl ls (i + 1) src k size from m s' h.state
                      (omega (arith, h.count)) (omega arith) (rw (other, a, b, owes, d) at run) in
                  record { state = r.state; count = r.count ∙ h.count }
            ]
          ]
        ]
      ]
    ]

-- Where `retransmit_missing` returns from a well-formed state, the state is well formed still.
pub retransmit_missing-Keeps :
    (dl : DirectLinks) (src size from : ℕ) (s s' : State)
    → 0 < length dl
    → IsState dl s
    → retransmit_missing src dl size from s ≡ some s'
    → Keeps dl s s'
unfolding retransmit_missing lsa_of
retransmit_missing-Keeps dl src size from s s' some_link v run =
    elim (Option-cases (s.rt.table src).lsa) [
      | inl a ↦ Keeps-eq (record { state = v; count = refl }) (ground arith)
      | inr (lsa, a) ↦ elim (Option-cases (get_routing_entry s.rt lsa.sender_node_id)) [
        | inl b ↦ ground arith
        | inr (k, b) ↦
            retransmit_loop-Keeps dl (drop 1 dl) 1 src k size from s s' v
              (get_routing_entry-Found s.rt lsa.sender_node_id k b).inside
              (omega (arith, length-drop {0} 1 dl)) (ground arith)
      ]
    ]
