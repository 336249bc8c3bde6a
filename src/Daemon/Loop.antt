-- ===== src/Daemon/Loop.antt =====
-- rd/engine_actions.c: the loop over the sockets and a whole round of `engine_event`.
use p.Prelude.{
  ℕ, zero, suc, ◌+◌, ◌≤◌, ◌<◌, ◌≡◌, refl, subst, false, List, ◌∷◌, some, arith, leb, CString,
  Option-cases, Bool-cases, inl, inr,
}
use mathlib.Core.Option.{some-injective}
use p.Tables.{LinkEntry, DirectLinks}
use p.Engine.{on_timeout}
use p.Engine.Runs.{on_timeout-IsEngine}
use p.Engine.Routed.{on_timeout-IsRouted}
use p.Web.Clients.{max_connections}
use p.Daemon.Keeps.{
  node_of, IsDaemon, Advances, IsArrival, own-HasLink, handle_socket-Advances, Advances-trans,
}
use p.Daemon.{
  Sockets, Daemon, Input, Ready, handle_socket, sockets_loop, Selection, select_error, timeout,
  sockets_ready, selected, on_selection, engine_round,
}

module _ (own : LinkEntry) (dl : DirectLinks) (uri : CString) (k : Sockets) where
  pub sockets_loop-Advances :
      (n i : ℕ) (ready : Ready) (inputs : ℕ → Input) (d d' : Daemon)
      → ((j : ℕ) → IsArrival (inputs j).arrival)
      → IsDaemon (own ∷ dl) d
      → sockets_loop n i (node_of own dl uri) k ready inputs d ≡ some d'
      → Advances (own ∷ dl) d d'
  unfolding sockets_loop
  sockets_loop-Advances zero i ready inputs d d' h v e =
      subst (Advances (own ∷ dl) d) (some-injective _ _ e) (record { is = v; count = omega arith })
  sockets_loop-Advances (suc n) i ready inputs d d' h v e =
      elim (Bool-cases (leb i d.clients.fdmax)) [
        | inr a ↦
            subst (Advances (own ∷ dl) d) (some-injective _ _ (rw a at e))
              (record { is = v; count = omega arith })
        | inl a ↦ elim (Option-cases (handle_socket (node_of own dl uri) k ready (inputs i) i d)) [
          | inl b ↦ absurd (cc (e, a, b))
          | inr (m, b) ↦
              let first = handle_socket-Advances own dl uri k ready (inputs i) i d m (h i) v b in
              Advances-trans own dl uri k d m d' first
                (sockets_loop-Advances n (i + 1) ready inputs m d' h first.is (rw (a, b) at e))
        ]
      ]

  sockets_loop_done :
      (m i : ℕ) (ready : Ready) (inputs : ℕ → Input) (d : Daemon)
      → d.clients.fdmax < i
      → sockets_loop m i (node_of own dl uri) k ready inputs d ≡ some d
  unfolding sockets_loop
  sockets_loop_done zero i ready inputs d far = refl
  sockets_loop_done (suc m) i ready inputs d far =
      let done : leb i d.clients.fdmax ≡ false = ground arith in rw done refl

  -- In a well-formed daemon, with datagrams of bytes, the loop over the sockets from `i` has ended after as
  -- many rounds as there are descriptors from `i` below 1024: a higher bound on its rounds gives the
  -- same result.
  pub sockets_loop-enough :
      (n m i : ℕ) (ready : Ready) (inputs : ℕ → Input) (d : Daemon)
      → ((j : ℕ) → IsArrival (inputs j).arrival)
      → IsDaemon (own ∷ dl) d
      → max_connections ≤ n + i
      → n ≤ m
      → sockets_loop m i (node_of own dl uri) k ready inputs d
        ≡ sockets_loop n i (node_of own dl uri) k ready inputs d
  unfolding sockets_loop
  sockets_loop-enough zero m i ready inputs d h v far more =
      sockets_loop_done m i ready inputs d (omega (arith, v.fdmax, far))
  sockets_loop-enough (suc n) zero i ready inputs d h v far more = absurd (omega (arith, more))
  sockets_loop-enough (suc n) (suc m) i ready inputs d h v far more =
      elim (Bool-cases (leb i d.clients.fdmax)) [
        | inr a ↦ rw a refl
        | inl a ↦ elim (Option-cases (handle_socket (node_of own dl uri) k ready (inputs i) i d)) [
          | inl b ↦ rw (a, b) refl
          | inr (d1, b) ↦
              rw (a, b)
                (sockets_loop-enough n m (i + 1) ready inputs d1 h
                  (handle_socket-Advances own dl uri k ready (inputs i) i d d1 (h i) v b).is
                  (omega arith) (omega (arith, more)))
        ]
      ]

  pub engine_round-Advances :
      (selection : Selection) (unset : List ℕ) (inputs : ℕ → Input) (d d' : Daemon)
      → ((j : ℕ) → IsArrival (inputs j).arrival)
      → IsDaemon (own ∷ dl) d
      → engine_round (node_of own dl uri) k selection unset inputs d ≡ some d'
      → Advances (own ∷ dl) d d'
  unfolding engine_round on_selection
  engine_round-Advances select_error unset inputs d d' h v e = absurd (cc e)
  engine_round-Advances (sockets_ready r s) unset inputs d d' h v e =
      sockets_loop-Advances max_connections 0 (selected (sockets_ready r s) d.clients) inputs d d' h
        v e
  engine_round-Advances timeout unset inputs d d' h v e =
      elim (Option-cases (on_timeout (own ∷ dl) own.id unset d.engine)) [
        | inl a ↦ absurd (cc (e, a))
        | inr (engine, a) ↦
            let m = record d { engine = engine } in
            let engine' = on_timeout-IsEngine own dl unset d.engine engine v.engine a in
            let routes =
              on_timeout-IsRouted (own ∷ dl) own.id unset d.engine engine v.engine.state.table
                (own-HasLink own dl) v.routes a in
            Advances-trans own dl uri k d m d'
              (record {
                is = record { engine = engine'; routes = routes; fdmax = v.fdmax; nfds = v.nfds };
                count = omega arith;
              })
              (sockets_loop-Advances max_connections 0 (selected timeout d.clients) inputs m d' h
                (record { engine = engine'; routes = routes; fdmax = v.fdmax; nfds = v.nfds })
                (rw a at e))
      ]
