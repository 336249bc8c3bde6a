-- ===== src/Flooding/Owed.antt =====
-- rd/flooding_engine.c: the ACKs that the own packet waits for after `flood`.
use p.Prelude.{
  ℕ, ◌+◌, ◌≡◌, refl, ap, ◌∙◌, sym, subst, true, false, not, List, [], ◌∷◌, ◌++◌, some, arith, ◌==◌,
  length, length-append, append_assoc, write, if◌then◌else◌, Option-cases, Bool-cases, inl, inr,
}
use mathlib.Core.Option.{some-injective}
use p.Tables.{LinkEntry, DirectLinks}
use p.Lsa.{Lsa}
use p.Routing.{
  AckChecker, RoutingEntry, RoutingTable, get_routing_entry, status_down, ack_was_received,
}
use p.Routing.Update.{settled}
use p.Flooding.{State, rt_sendto, set_checker, set_entry_checker, deref, flood_loop}
use p.Flooding.Nodes.{is_up, SameNodes, SameNodes-refl, SameNodes-trans, is_up-same}
use p.Flooding.Flood.{not_acked}
use p.Flooding.Marks.{counted, set_checker-behind}

abbrev pub done_link : LinkEntry → AckChecker
done_link l = record { id = l.id; ack_received = ack_was_received; retransmit = 0 }

-- The checkers of the links: those that are up owe the ACK.
abbrev pub owed : RoutingTable → DirectLinks → List AckChecker
owed rt [] = []
owed rt (l ∷ ls) = (if is_up rt l.id then not_acked (done_link l) else done_link l) ∷ owed rt ls

pub length-owed : (rt : RoutingTable) (ls : DirectLinks) → length (owed rt ls) ≡ length ls
length-owed rt [] = refl
length-owed rt (l ∷ ls) = omega (arith, length-owed rt ls)

owed-same : (rt rt' : RoutingTable) (ls : DirectLinks) → SameNodes rt rt' → owed rt' ls ≡ owed rt ls
owed-same rt rt' [] h = refl
owed-same rt rt' (l ∷ ls) h = rw (is_up-same rt rt' l.id h, owed-same rt rt' ls h) refl

-- Of the first entry only the checkers were written, and no node changed.
pub record Owes (cs : List AckChecker) (n : ℕ) (s s' : State) : Type 0 where
  pub nodes : SameNodes s.rt s'.rt
  pub packet : (s'.rt.table 0).lsa ≡ (s.rt.table 0).lsa
  pub list : (s'.rt.table 0).checkers_list ≡ counted cs n

deref-is_up :
    (rt : RoutingTable) (id : ℕ) (e : RoutingEntry)
    → deref rt (get_routing_entry rt id) ≡ some e
    → is_up rt id ≡ not (e.node_status == status_down)
unfolding deref is_up
deref-is_up rt id e at = elim (Option-cases (get_routing_entry rt id)) [
  | inl a ↦ absurd (cc (rw a at at))
  | inr (k, a) ↦ ground (arith, at, a)
]

pub flood_loop-Owes :
    (ls : DirectLinks) (i n : ℕ) (pre : List AckChecker) (lsa : Lsa) (size : ℕ) (s s' : State)
    → i ≡ length pre
    → (s.rt.table 0).checkers_list ≡ counted (pre ++ settled ls) n
    → flood_loop ls i 0 lsa size s ≡ some s'
    → Owes (pre ++ owed s.rt ls) n s s'
unfolding flood_loop rt_sendto set_entry_checker settled
flood_loop-Owes [] i n pre lsa size s s' at list run =
    subst (Owes (pre ++ []) n s) (some-injective _ _ run)
      (record { nodes = SameNodes-refl s.rt; packet = refl; list = list })
flood_loop-Owes (l ∷ ls) i n pre lsa size s s' at list run =
    let index : (c : AckChecker) → i + 1 ≡ length (pre ++ c ∷ []) =
      λ c. omega (arith, at, length-append {0} pre (c ∷ [])) in
    let shape : (c : AckChecker) (rest : List AckChecker)
        → (pre ++ c ∷ []) ++ rest ≡ pre ++ c ∷ rest =
      λ c rest. append_assoc pre (c ∷ []) rest in
    elim (Option-cases (deref s.rt (get_routing_entry s.rt l.id))) [
      | inl e ↦ absurd (cc (rw e at run))
      | inr (entry, e) ↦ elim (Bool-cases (entry.node_status == status_down)) [
        | inl down ↦
            let off : is_up s.rt l.id ≡ false = deref-is_up s.rt l.id entry e ∙ ap not down in
            let rest =
              flood_loop-Owes ls (i + 1) n (pre ++ done_link l ∷ []) lsa size s s'
                (index (done_link l))
                (list ∙ ap (λ cs. counted cs n) (sym (shape (done_link l) (settled ls))))
                (rw (e, down) at run) in
            rw off (subst (λ cs. Owes cs n s s') (shape (done_link l) (owed s.rt ls)) rest)
        | inr up ↦
            let on : is_up s.rt l.id ≡ true = deref-is_up s.rt l.id entry e ∙ ap not up in
            let c = not_acked (done_link l) in
            let set : set_checker (pre ++ done_link l ∷ settled ls) i not_acked
                ≡ some (pre ++ c ∷ settled ls) =
              ap (λ k. set_checker (pre ++ done_link l ∷ settled ls) k not_acked) at
              ∙ set_checker-behind pre (done_link l) (settled ls) not_acked in
            let rt1 : RoutingTable = record s.rt {
              table =
                  write s.rt.table 0
                    (record (s.rt.table 0) { checkers_list = counted (pre ++ c ∷ settled ls) n });
            } in
            let m : State = record (rt_sendto s lsa l.host l.route_p size) { rt = rt1 } in
            let kept : SameNodes s.rt rt1 = record {
              count = refl;
              ids = λ j. ground arith;
              status = λ j. ground arith;
            } in
            let rest =
              flood_loop-Owes ls (i + 1) n (pre ++ c ∷ []) lsa size m s' (index c)
                (ap (λ cs. counted cs n) (sym (shape c (settled ls))))
                (rw (e, up, list, set) at run) in
            let all : (pre ++ c ∷ []) ++ owed rt1 ls ≡ pre ++ c ∷ owed s.rt ls =
              shape c (owed rt1 ls) ∙ ap (λ cs. pre ++ c ∷ cs) (owed-same s.rt rt1 ls kept) in
            rw on (record {
              nodes = SameNodes-trans kept rest.nodes;
              packet = rest.packet;
              list = rest.list ∙ ap (λ cs. counted cs n) all;
            })
      ]
    ]
