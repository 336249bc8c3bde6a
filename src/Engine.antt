-- ===== src/Engine.antt =====
-- rd/engine_actions.c: what `engine_event` does when `select` times out. A packet is flooded every
-- tenth time, and the missing ACKs are looked after on the four times that follow.
pub mod Period
pub mod Runs
pub mod Routed
pub mod Ticks
use p.Prelude.{
  ℕ, zero, suc, ◌+◌, ◌-◌, ◌&&◌, not, Option, some, none, ◌==◌, leb, if◌then◌else◌, List, write,
  ◌>>=◌, add32,
}
use p.Tables.{DirectLinks, LocalObjects}
use p.HashSet.{hash_remove_node}
use p.Lsa.Header.{type_lsa}
use p.Routing.{status_down, retransmit_time}
use p.Flooding.{State, flood, flood_received_lsa, retransmit_missing}

-- rd/constants.h
abbrev pub flooding_period : ℕ
flooding_period = 10

-- The variables of rd/rd.c that the loop uses, with `iterations` of `engine_event`.
pub record Engine : Type 0 where
  pub net : State
  pub ol : LocalObjects
  pub sequence_number : ℕ
  pub iterations : ℕ

-- `node_status--`, and the end of a node that has counted down.
unfoldable pub age_entry : ℕ → State → State
age_entry i s =
    let entry = s.rt.table i in
    let aged = record entry { node_status = entry.node_status - 1 } in
    let dead = record aged { lsa = none } in
    if entry.node_status == status_down
    then s
    else if entry.node_status - 1 == status_down
    then record s {
      rt = record s.rt { table = write s.rt.table i dead };
      gol = hash_remove_node s.gol entry.id;
    }
    else record s { rt = record s.rt { table = write s.rt.table i aged } }

-- One round of the loop over the entries: the packet is forwarded, and the entry ages.
unfoldable pub flood_entry : DirectLinks → ℕ → State → Option State
unfolding age_entry
flood_entry dl i s = do
  let entry = s.rt.table i
  s' ←
      if entry.lsa_is_new == 1 && not (entry.node_status == status_down)
      then flood_received_lsa entry.lsa dl entry.lsa_size entry.forwarder_id s
      else some s
  some (age_entry i s')

-- `for (i = 1; i < rt.num_entry; i++)`, with the rounds left.
unfoldable pub flood_entries : ℕ → ℕ → DirectLinks → State → Option State
unfolding flood_entry
flood_entries zero i dl s = some s
flood_entries (suc n) i dl s = do s' ← flood_entry dl i s; flood_entries n (i + 1) dl s'

-- `for (i = 0; i < rt.num_entry; i++)`, with the rounds left; the entry is copied at each round.
unfoldable pub retransmit_entries : ℕ → ℕ → DirectLinks → State → Option State
retransmit_entries zero i dl s = some s
retransmit_entries (suc n) i dl s = do
  s' ← retransmit_missing i dl (s.rt.table i).lsa_size (s.rt.table i).forwarder_id s
  retransmit_entries n (i + 1) dl s'

-- It is time to flood.
unfoldable pub flood_all : DirectLinks → ℕ → List ℕ → Engine → Option Engine
unfolding flood_entries
flood_all dl my_node_id unset e = do
  s ← flood type_lsa dl e.ol my_node_id e.sequence_number unset e.net
  s' ← flood_entries (s.rt.num_entry - 1) 1 dl s
  some (record e { net = s'; sequence_number = add32 e.sequence_number 1; iterations = 0 })

unfoldable pub retransmit_all : DirectLinks → Engine → Option Engine
unfolding retransmit_entries
retransmit_all dl e = do
  s ← retransmit_entries e.net.rt.num_entry 0 dl e.net
  some (record e { net = s })

-- The block of `sel_return == 0`.
unfoldable pub on_timeout : DirectLinks → ℕ → List ℕ → Engine → Option Engine
unfolding flood_all retransmit_all
on_timeout dl my_node_id unset e = do
  e1 ← if e.iterations == flooding_period then flood_all dl my_node_id unset e else some e
  e2 ←
      if not (e1.iterations == 0) && leb e1.iterations retransmit_time
      then retransmit_all dl e1
      else some e1
  some (record e2 { iterations = e2.iterations + 1 })
