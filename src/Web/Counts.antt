-- ===== src/Web/Counts.antt =====
-- rd/flask_engine.c: what every call of a handler keeps, and how the handlers count the clients.
use p.Prelude.{
  ℕ, ◌+◌, ◌-◌, ◌<◌, ◌≡◌, subst, Bool, true, List, Option, none, some, arith, ◌==◌, length, take,
  Option-cases, Bool-cases, inl, inr, if◌then◌else◌,
}
use p.Text.{overwrite}
use p.Request.{TcpConnection, process_buffer}
use p.Web.{Node, Site, buf_size, build_response}
use p.Web.Clients.{
  Clients, Reception, bytes_read, connection_reset, other_error, Sending, max_connections, register,
  new_client_handler, answer, answer_error, flask_request_handler, flask_response_handler,
}
use p.Web.Keeps.{KeepsNet, same_net, build_response-KeepsNet}

-- The number of clients and the highest descriptor are as they were.
pub record KeepsCounts (w w' : Clients) : Type 0 where
  pub nfds : w'.nfds ≡ w.nfds
  pub fdmax : w'.fdmax ≡ w.fdmax

answer-Keeps :
    (node : Node) (buf : List ℕ) (i : ℕ) (site site' : Site) (w w' : Clients)
    → answer node buf i site w ≡ some (site', w')
    → KeepsNet node.my_node_id site site' × KeepsCounts w w'
unfolding answer
answer-Keeps node buf i site site' w w' e =
    let c = w.connections i in
    elim (Option-cases (overwrite c.request buf)) [
      | inl d ↦ absurd (cc (e, d))
      | inr (request, d) ↦
          let read : TcpConnection = record c {
            request = request;
            request_index = length buf;
            status = 200;
          } in
          elim (Option-cases (process_buffer read)) [
            | inl a ↦ absurd (cc (e, d, a))
            | inr (p, a) ↦ elim (Option-cases (build_response node site p)) [
              | inl b ↦ absurd (cc (e, d, a, b))
              | inr ((site1, c1), b) ↦
                  let same : site1 ≡ site' = ground arith in
                  (
                    subst (KeepsNet node.my_node_id site) same
                        (build_response-KeepsNet node site site1 p c1 b),
                    record { nfds = ground arith; fdmax = ground arith },
                  )
            ]
          ]
    ]

answer_error-Keeps :
    (node : Node) (i : ℕ) (site site' : Site) (w w' : Clients)
    → answer_error node i site w ≡ some (site', w')
    → KeepsNet node.my_node_id site site' × KeepsCounts w w'
unfolding answer_error
answer_error-Keeps node i site site' w w' e =
    elim (Option-cases (build_response node site (record (w.connections i) { status = 500 }))) [
      | inl d ↦ absurd (cc (e, d))
      | inr ((site1, c1), d) ↦
          let same : site1 ≡ site' = ground arith in
          (
            subst (KeepsNet node.my_node_id site) same
                (build_response-KeepsNet node site site1 _ c1 d),
            record { nfds = ground arith; fdmax = ground arith },
          )
    ]

-- The handler of requests.
pub flask_request_handler-Keeps :
    (node : Node) (r : Reception) (i : ℕ) (site site' : Site) (w w' : Clients) (ok : Bool)
    → flask_request_handler node r i site w ≡ some (site', w', ok)
    → KeepsNet node.my_node_id site site' × KeepsCounts w w'
unfolding flask_request_handler
flask_request_handler-Keeps node (bytes_read bytes) i site site' w w' ok e =
    let buf = take (buf_size - (w.connections i).request_index) bytes in
    elim (Bool-cases (length buf == 0)) [
      | inl a ↦
          let same : site ≡ site' = ground arith in
          (
            subst (KeepsNet node.my_node_id site) same (same_net node.my_node_id site),
            record { nfds = ground arith; fdmax = ground arith },
          )
      | inr a ↦ elim (Option-cases (answer node buf i site w)) [
        | inl b ↦ absurd (cc (e, a, b))
        | inr ((site1, w1), b) ↦
            let same : site1 ≡ site' = ground arith in
            let same' : w1 ≡ w' = ground arith in
            let (net, counts) = answer-Keeps node buf i site site1 w w1 b in
            (subst (KeepsNet node.my_node_id site) same net, subst (KeepsCounts w) same' counts)
      ]
    ]
flask_request_handler-Keeps node connection_reset i site site' w w' ok e =
    let same : site ≡ site' = ground arith in
    (
      subst (KeepsNet node.my_node_id site) same (same_net node.my_node_id site),
      record { nfds = ground arith; fdmax = ground arith },
    )
flask_request_handler-Keeps node other_error i site site' w w' ok e =
    elim (Option-cases (answer_error node i site w)) [
      | inl b ↦ absurd (cc (e, b))
      | inr ((site1, w1), b) ↦
          let same : site1 ≡ site' = ground arith in
          let same' : w1 ≡ w' = ground arith in
          let (net, counts) = answer_error-Keeps node i site site1 w w1 b in
          (subst (KeepsNet node.my_node_id site) same net, subst (KeepsCounts w) same' counts)
    ]

-- The handler of responses.
pub flask_response_handler-Keeps :
    (sending : Sending) (i : ℕ) (w w' : Clients)
    → flask_response_handler sending i w ≡ some w'
    → KeepsCounts w w'
unfolding flask_response_handler
flask_response_handler-Keeps sending i w w' e = record { nfds = ground arith; fdmax = ground arith }

-- The handler of new clients counts those that it accepts.
pub record Counts (w w' : Clients) (ok : Bool) : Type 0 where
  pub grows : w'.nfds ≡ (if ok then w.nfds + 1 else w.nfds)
  pub accepts : ok ≡ true → w.nfds < max_connections
  pub within : w.fdmax < max_connections → w'.fdmax < max_connections

pub new_client_handler-Counts :
    (accepted : Option ℕ) (w w' : Clients) (ok : Bool)
    → new_client_handler accepted w ≡ some (w', ok)
    → Counts w w' ok
unfolding new_client_handler register
new_client_handler-Counts none w w' ok e = record {
  grows = ground arith;
  accepts = ground arith;
  within = ground arith;
}
new_client_handler-Counts (some client) w w' ok e = record {
  grows = ground arith;
  accepts = ground arith;
  within = ground arith;
}
