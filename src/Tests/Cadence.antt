-- ===== src/Tests/Cadence.antt =====
-- A flood of the daemon of a node with three neighbours.
use p.Prelude.{◌+◌, ◌≡◌, refl, false, [], ◌∷◌, some, arith, leb, not, ◌&&◌, ◌==◌}
use p.Routing.{retransmit_time}
use p.Engine.{on_timeout}
use p.Engine.Period.{flood_all-Floods}
use p.Daemon.{
  Daemon, handle_socket, on_selection, sockets_loop, engine_round, fresh_clients, timeout, selected,
}
use p.Daemon.Keeps.{node_of}
use p.Daemon.Runs.{Rounds, begin, next}
use p.Daemon.Cadence.{Rounds-floods}
use p.Tests.Data.{own_link}
use p.Tests.Loader.{uri}
use p.Tests.Rounds.{sockets, silence}
use p.Tests.Period.{three_links, network-IsState, running}

abbrev due : Daemon
due = record { engine = running; clients = fresh_clients sockets (λ i. false); filefile = [] }

flooded :
    (d' : Daemon) × (engine_round
        (node_of own_link three_links uri)
        sockets
        timeout
        (7 ∷ 7 ∷ 7 ∷ 7 ∷ [])
        silence
        due
      ≡ some d')
unfolding engine_round on_selection selected sockets_loop handle_socket on_timeout
flooded =
    let (e1, run, floods) =
      flood_all-Floods own_link three_links (7 ∷ 7 ∷ 7 ∷ 7 ∷ []) running network-IsState in
    let idle : (not (e1.iterations == 0) && leb e1.iterations retransmit_time) ≡ false =
      ground (arith, floods.restarted) in
    (record due { engine = record e1 { iterations = e1.iterations + 1 } }, rw (run, idle) refl)

abbrev flooded_once : Rounds own_link three_links uri sockets due flooded.0
flooded_once = next timeout (7 ∷ 7 ∷ 7 ∷ 7 ∷ []) silence begin (λ j. tt) flooded.1

Rounds-floods_example : (flooded.0.engine.iterations ≡ 1) × (flooded.0.engine.sequence_number ≡ 6)
Rounds-floods_example =
    Rounds-floods own_link three_links uri sockets due flooded.0 (omega arith) (omega arith)
      (omega arith) flooded_once
