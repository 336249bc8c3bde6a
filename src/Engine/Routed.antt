-- ===== src/Engine/Routed.antt =====
-- rd/engine_actions.c: the routes after a timeout and after a packet.
use p.Prelude.{
  ℕ, zero, suc, ◌+◌, ◌-◌, ◌≡◌, ◌≢◌, refl, subst, Bool, not, ◌&&◌, List, none, some, arith, ◌==◌,
  leb, inl, inr, Option-cases, Bool-cases, write, take, length, ltb, CString,
}
use mathlib.Core.Option.{some-injective}
use p.Tables.{DirectLinks, LocalObjects}
use p.Lsa.{lsa_size, bytes_to_packet}
use p.Lsa.Header.{type_lsa}
use p.Routing.{status_down, retransmit_time, lookup_link_entry}
use p.Routing.Update.{IsTable}
use p.Flooding.{
  State, max_lsa_len, datagram, rt_recvfrom, lsa_handler, flood, flood_received_lsa,
  retransmit_missing,
}
use p.Flooding.Routed.{HasLink, IsRouted}
use p.Flooding.Routed.Same.{SameRoutes-IsRouted, flood_received_lsa-SameRoutes}
use p.Flooding.Routed.Packets.{flood-IsRouted, handle_packet-IsRouted}
use p.Flooding.Routed.Retries.{forget-IsRouted, retransmit_missing-IsRouted}
use p.Engine.Runs.{retry_block, IsBytes, IsBytes-take, bytes_to_packet_word}
use p.Engine.{
  Engine, flooding_period, age_entry, flood_entry, flood_entries, retransmit_entries, flood_all,
  retransmit_all, on_timeout,
}

age_entry-IsRouted :
    {ol : LocalObjects} (dl : DirectLinks) (i : ℕ) (s : State)
    → i ≢ 0
    → IsRouted dl ol s
    → IsRouted dl ol (age_entry i s)
unfolding age_entry
age_entry-IsRouted dl i s later v =
    let entry = s.rt.table i in
    let aged = record entry { node_status = entry.node_status - 1 } in
    let dead = record aged { lsa = none } in
    let with_aged = record s { rt = record s.rt { table = write s.rt.table i aged } } in
    elim (Bool-cases (entry.node_status == status_down)) [
      | inl down ↦ rw down v
      | inr up ↦ elim (Bool-cases (entry.node_status - 1 == status_down)) [
        | inr more ↦
            rw (up, more)
              (SameRoutes-IsRouted dl s with_aged
                (record {
                  count = refl;
                  ids = λ j. ground arith;
                  hops = λ j. ground arith;
                  up = λ j h. ground (arith, more);
                  objects = refl;
                })
                v)
        | inl last ↦ rw (up, last) (forget-IsRouted dl s i dead later refl refl v)
      ]
    ]

flood_entries-IsRouted :
    {ol : LocalObjects} (n i : ℕ) (dl : DirectLinks) (s s' : State)
    → IsRouted dl ol s
    → i ≢ 0
    → flood_entries n i dl s ≡ some s'
    → IsRouted dl ol s'
unfolding flood_entries flood_entry
flood_entries-IsRouted {ol} zero i dl s s' v later run =
    subst (IsRouted dl ol) (some-injective _ _ run) v
flood_entries-IsRouted (suc n) i dl s s' v later run =
    let entry = s.rt.table i in
    elim (Bool-cases (entry.lsa_is_new == 1 && not (entry.node_status == status_down))) [
      | inr old ↦
          flood_entries-IsRouted n (i + 1) dl (age_entry i s) s' (age_entry-IsRouted dl i s later v)
            (omega arith) (rw old at run)
      | inl new ↦
          elim (Option-cases
            (flood_received_lsa entry.lsa dl entry.lsa_size entry.forwarder_id s)) [
              | inl a ↦ absurd (cc (rw (new, a) at run))
              | inr (m, a) ↦
                  let v' =
                    SameRoutes-IsRouted dl s m
                      (flood_received_lsa-SameRoutes entry.lsa dl entry.lsa_size entry.forwarder_id
                        s m a)
                      v in
                  flood_entries-IsRouted n (i + 1) dl (age_entry i m) s'
                    (age_entry-IsRouted dl i m later v') (omega arith) (rw (new, a) at run)
            ]
    ]

retransmit_entries-IsRouted :
    {ol : LocalObjects} (n i : ℕ) (dl : DirectLinks) (s s' : State)
    → IsRouted dl ol s
    → retransmit_entries n i dl s ≡ some s'
    → IsRouted dl ol s'
unfolding retransmit_entries
retransmit_entries-IsRouted {ol} zero i dl s s' v run =
    subst (IsRouted dl ol) (some-injective _ _ run) v
retransmit_entries-IsRouted (suc n) i dl s s' v run =
    let entry = s.rt.table i in
    elim (Option-cases (retransmit_missing i dl entry.lsa_size entry.forwarder_id s)) [
      | inl a ↦ absurd (cc (rw a at run))
      | inr (m, a) ↦
          retransmit_entries-IsRouted n (i + 1) dl m s'
            (retransmit_missing-IsRouted dl i entry.lsa_size entry.forwarder_id s m v a)
            (rw a at run)
    ]

flood_all-IsRouted :
    (dl : DirectLinks) (id : ℕ) (unset : List ℕ) (e e' : Engine)
    → IsTable dl e.net.rt
    → HasLink dl id
    → IsRouted dl e.ol e.net
    → flood_all dl id unset e ≡ some e'
    → IsRouted dl e'.ol e'.net
unfolding flood_all
flood_all-IsRouted dl id unset e e' t link v run =
    elim (Option-cases (flood type_lsa dl e.ol id e.sequence_number unset e.net)) [
      | inl a ↦ absurd (cc (rw a at run))
      | inr (s, a) ↦ elim (Option-cases (flood_entries (s.rt.num_entry - 1) 1 dl s)) [
        | inl b ↦ absurd (cc (rw (a, b) at run))
        | inr (s', b) ↦
            let v' = flood-IsRouted dl e.ol id e.sequence_number unset e.net s t link v a in
            let last = flood_entries-IsRouted (s.rt.num_entry - 1) 1 dl s s' v' (omega arith) b in
            subst (λ (x : Engine). IsRouted dl x.ol x.net) (some-injective _ _ (rw (a, b) at run))
              last
      ]
    ]

pub on_timeout-IsRouted :
    (dl : DirectLinks) (id : ℕ) (unset : List ℕ) (e e' : Engine)
    → IsTable dl e.net.rt
    → HasLink dl id
    → IsRouted dl e.ol e.net
    → on_timeout dl id unset e ≡ some e'
    → IsRouted dl e'.ol e'.net
unfolding on_timeout retransmit_all
on_timeout-IsRouted dl id unset e e' t link v run =
    elim (Bool-cases (e.iterations == flooding_period)) [
      | inr early ↦ retrying e v (rw early at run)
      | inl time ↦ elim (Option-cases (flood_all dl id unset e)) [
        | inl a ↦ absurd (cc (rw (time, a) at run))
        | inr (e1, a) ↦
            retrying e1 (flood_all-IsRouted dl id unset e e1 t link v a) (rw (time, a) at run)
      ]
    ]
  where
    retrying :
        (e1 : Engine)
        → IsRouted dl e1.ol e1.net
        → retry_block dl e1 ≡ some e'
        → IsRouted dl e'.ol e'.net
    retrying e1 v1 run =
        elim (Bool-cases (not (e1.iterations == 0) && leb e1.iterations retransmit_time)) [
          | inr idle ↦
              subst (λ (x : Engine). IsRouted dl x.ol x.net) (some-injective _ _ (rw idle at run))
                v1
          | inl retry ↦ elim (Option-cases (retransmit_entries e1.net.rt.num_entry 0 dl e1.net)) [
            | inl a ↦ absurd (cc (rw (retry, a) at run))
            | inr (s, a) ↦
                subst (λ (x : Engine). IsRouted dl x.ol x.net)
                  (some-injective _ _ (rw (retry, a) at run))
                  (retransmit_entries-IsRouted e1.net.rt.num_entry 0 dl e1.net s v1 a)
          ]
        ]

pub lsa_handler-IsRouted :
    {ol : LocalObjects} (bytes : List ℕ) (address : CString) (dl : DirectLinks) (s s' : State)
    (accepted : Bool)
    → IsBytes bytes
    → IsTable dl s.rt
    → IsRouted dl ol s
    → lsa_handler (datagram bytes address) dl s ≡ some (s', accepted)
    → IsRouted dl ol s'
unfolding lsa_handler rt_recvfrom
lsa_handler-IsRouted bytes address dl s s' accepted h t v run =
    let buf = take max_lsa_len bytes in
    elim (Bool-cases (ltb (length buf) lsa_size)) [
      | inl short ↦ absurd (cc (rw short at run))
      | inr long ↦ elim (Option-cases (bytes_to_packet buf)) [
        | inl a ↦ absurd (cc (rw (long, a) at run))
        | inr (lsa, a) ↦ elim (Option-cases (lookup_link_entry dl address)) [
          | inl b ↦ absurd (cc (rw (long, a, b) at run))
          | inr (l, b) ↦
              handle_packet-IsRouted dl lsa l.id (length buf) s s' t v accepted
                (bytes_to_packet_word buf lsa (IsBytes-take max_lsa_len bytes h) a)
                (rw (long, a, b) at run)
        ]
      ]
    ]
