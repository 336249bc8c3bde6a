-- ===== src/Daemon/Cadence.antt =====
-- rd/engine_actions.c: how often the daemon floods, over rounds of `engine_event`.
use p.Prelude.{
  ℕ, zero, suc, ◌+◌, ◌-◌, ◌/◌, ◌%◌, ◌^◌, ◌≤◌, ◌<◌, ◌≡◌, refl, ◌∙◌, subst, Bool, true, ◌&&◌, List,
  some, arith, ◌==◌, leb, CString, Option-cases, Bool-cases, inl, inr, ◌>>=◌, if◌then◌else◌,
}
use mathlib.Core.Option.{some-injective}
use p.Tables.{LinkEntry, DirectLinks}
use p.Flooding.{lsa_handler}
use p.Engine.{flooding_period, on_timeout}
use p.Engine.Ticks.{Ticks, on_timeout-Ticks}
use p.Web.{Node}
use p.Web.Clients.{
  max_connections, new_client_handler, flask_request_handler, flask_response_handler,
}
use p.Daemon.Keeps.{node_of}
use p.Daemon.Runs.{Rounds, begin, next}
use p.Daemon.{
  Sockets, Daemon, site_of, with_site, Input, recv_handler, send_handler, clear_wfds, Ready,
  handle_socket, sockets_loop, select_error, timeout, sockets_ready, selected, on_selection,
  engine_round,
}

-- Neither the count of timeouts nor the sequence number of the next packet was written.
record SameClock (d d' : Daemon) : Type 0 where
  iterations : d'.engine.iterations ≡ d.engine.iterations
  sequence : d'.engine.sequence_number ≡ d.engine.sequence_number

module _ (node : Node) (k : Sockets) where
  recv_handler-SameClock :
      (input : Input) (i : ℕ) (d d' : Daemon) (ok : Bool)
      → recv_handler node k input i d ≡ some (d', ok)
      → SameClock d d'
  unfolding recv_handler
  recv_handler-SameClock input i d d' ok e = elim (Bool-cases (i == k.udp_sock)) [
    | inl a ↦ elim (Option-cases (lsa_handler input.arrival node.dl d.engine.net)) [
      | inl b ↦ absurd (cc (e, a, b))
      | inr ((s, ok'), b) ↦
          let same : record d { engine = record d.engine { net = s } } ≡ d' = ground arith in
          subst (SameClock d) same (record { iterations = refl; sequence = refl })
    ]
    | inr a ↦ elim (Bool-cases (i == k.tcp_sock)) [
      | inl t ↦ elim (Option-cases (new_client_handler input.accepted d.clients)) [
        | inl b ↦ absurd (cc (e, a, t, b))
        | inr ((w, ok'), b) ↦
            let same : record d { clients = w } ≡ d' = ground arith in
            subst (SameClock d) same (record { iterations = refl; sequence = refl })
      ]
      | inr t ↦
          elim (Option-cases (flask_request_handler node input.reception i (site_of d) d.clients)) [
            | inl b ↦ absurd (cc (e, a, t, b))
            | inr ((site, w, ok'), b) ↦
                let same : with_site site w d ≡ d' = ground arith in
                subst (SameClock d) same (record { iterations = refl; sequence = refl })
          ]
    ]
  ]

  SameClock-trans : (a b c : Daemon) → SameClock a b → SameClock b c → SameClock a c
  SameClock-trans a b c x y = record {
    iterations = y.iterations ∙ x.iterations;
    sequence = y.sequence ∙ x.sequence;
  }

  sending-SameClock :
      (ready : Ready) (input : Input) (i : ℕ) (d d' : Daemon) (go : Bool)
      → (if go && ready.temp_wfds i
          then (do d2 ← send_handler input i d; some (clear_wfds i d2))
          else some d)
        ≡ some d'
      → SameClock d d'
  unfolding send_handler
  sending-SameClock ready input i d d' go e = elim (Bool-cases (go && ready.temp_wfds i)) [
    | inr a ↦
        subst (SameClock d) (some-injective _ _ (rw a at e))
          (record { iterations = refl; sequence = refl })
    | inl a ↦ elim (Option-cases (flask_response_handler input.sending i d.clients)) [
      | inl b ↦ absurd (cc (rw (a, b) at e))
      | inr (w, b) ↦
          subst (SameClock d) (some-injective _ _ (rw (a, b) at e))
            (record { iterations = refl; sequence = refl })
    ]
  ]

  handle_socket-SameClock :
      (ready : Ready) (input : Input) (i : ℕ) (d d' : Daemon)
      → handle_socket node k ready input i d ≡ some d'
      → SameClock d d'
  unfolding handle_socket
  handle_socket-SameClock ready input i d d' e = elim (Bool-cases (ready.temp_rfds i)) [
    | inr a ↦ sending-SameClock ready input i d d' true (rw a at e)
    | inl a ↦ elim (Option-cases (recv_handler node k input i d)) [
      | inl b ↦ absurd (cc (e, a, b))
      | inr ((d1, go), b) ↦
          SameClock-trans d d1 d' (recv_handler-SameClock input i d d1 go b)
            (sending-SameClock ready input i d1 d' go (rw (a, b) at e))
    ]
  ]

  sockets_loop-SameClock :
      (n i : ℕ) (ready : Ready) (inputs : ℕ → Input) (d d' : Daemon)
      → sockets_loop n i node k ready inputs d ≡ some d'
      → SameClock d d'
  unfolding sockets_loop
  sockets_loop-SameClock zero i ready inputs d d' e =
      subst (SameClock d) (some-injective _ _ e) (record { iterations = refl; sequence = refl })
  sockets_loop-SameClock (suc n) i ready inputs d d' e = elim (Bool-cases (leb i d.clients.fdmax)) [
    | inr a ↦
        subst (SameClock d) (some-injective _ _ (rw a at e))
          (record { iterations = refl; sequence = refl })
    | inl a ↦ elim (Option-cases (handle_socket node k ready (inputs i) i d)) [
      | inl b ↦ absurd (cc (e, a, b))
      | inr (m, b) ↦
          SameClock-trans d m d' (handle_socket-SameClock ready (inputs i) i d m b)
            (sockets_loop-SameClock n (i + 1) ready inputs m d' (rw (a, b) at e))
    ]
  ]

  engine_round-Ticks :
      (unset : List ℕ) (inputs : ℕ → Input) (d d' : Daemon)
      → engine_round node k timeout unset inputs d ≡ some d'
      → Ticks d.engine d'.engine
  unfolding engine_round on_selection
  engine_round-Ticks unset inputs d d' e =
      elim (Option-cases (on_timeout node.dl node.my_node_id unset d.engine)) [
        | inl a ↦ absurd (cc (rw a at e))
        | inr (engine, a) ↦
            let ticks = on_timeout-Ticks node.dl node.my_node_id unset d.engine engine a in
            let m = record d { engine = engine } in
            let c =
              sockets_loop-SameClock max_connections 0 (selected timeout d.clients) inputs m d'
                (rw a at e) in
            record {
              iterations = c.iterations ∙ ticks.iterations;
              sequence = c.sequence ∙ ticks.sequence;
            }
      ]

-- The rounds in which `select` times out.
abbrev pub timeouts :
    {own : LinkEntry} {dl : DirectLinks} {uri : CString} {k : Sockets} {d d' : Daemon}
    → Rounds own dl uri k d d'
    → ℕ
timeouts begin = 0
timeouts (next select_error unset inputs run h e) = timeouts run
timeouts (next timeout unset inputs run h e) = timeouts run + 1
timeouts (next (sockets_ready r s) unset inputs run h e) = timeouts run

-- A daemon whose count of timeouts is from 1 to 10, over any rounds that do not fault, with `t` timeouts among
-- them and packets, clients and requests in between: with `n` the count plus `t`, less 1, the count is
-- `n % 10 + 1` after them, and the sequence number, which every flood takes up by one and wraps at
-- 2 ^ 32, has gone up by `n / 10`.
pub Rounds-floods :
    (own : LinkEntry) (dl : DirectLinks) (uri : CString) (k : Sockets) (d d' : Daemon)
    → 1 ≤ d.engine.iterations
    → d.engine.iterations ≤ flooding_period
    → d.engine.sequence_number < 2 ^ 32
    → (r : Rounds own dl uri k d d')
    → let n = d.engine.iterations + timeouts r - 1 in
      (d'.engine.iterations ≡ n % flooding_period + 1)
      × (d'.engine.sequence_number ≡ (d.engine.sequence_number + n / flooding_period) % 2 ^ 32)
Rounds-floods own dl uri k d d' pos due word begin = (omega arith, omega arith)
Rounds-floods own dl uri k d d' pos due word (next {m} select_error unset inputs run h e) =
    absurd (unfold engine_round on_selection in cc e)
Rounds-floods own dl uri k d d' pos due word (next {m} (sockets_ready r s) unset inputs run h e) =
    let (it, seq) = Rounds-floods own dl uri k d m pos due word run in
    let node = node_of own dl uri in
    let c =
      sockets_loop-SameClock node k max_connections 0 (selected (sockets_ready r s) m.clients)
        inputs m d' (unfold engine_round on_selection in e) in
    (c.iterations ∙ it, c.sequence ∙ seq)
Rounds-floods own dl uri k d d' pos due word (next {m} timeout unset inputs run h e) =
    let (it, seq) = Rounds-floods own dl uri k d m pos due word run in
    let node = node_of own dl uri in
    let c = engine_round-Ticks node k unset inputs m d' e in
    (ground (arith, c.iterations, it), ground (arith, c.sequence, it, seq))
