-- ===== src/Web/Unknown.antt =====
-- rd/flask_engine.c: a request whose method is neither RDGET nor ADDFILE.
use p.Prelude.{
  ℕ, ◌-◌, ◌<◌, ◌≡◌, refl, ap, ◌∙◌, true, false, [], none, some, arith, ◌==◌, length, length-append,
  ◌∷◌, write, CString, str_eq,
}
use p.Text.{codes, zeros, c_str}
use p.Tables.{max_buf}
use p.Request.{TcpConnection, init_connection}
use p.Request.Fresh.{IsField, measured_text, named_request, process_buffer-named}
use p.Web.{Node, Site, respond_method, measured, build_response}
use p.Web.Clients.{
  Clients, bytes_read, Sending, taken, failed, some_sent, peer_gone, flask_request_handler,
  flask_response_handler,
}
use p.Web.Serve.{received, received-IsFresh, waiting, request-waiting}

some_sent_none : (sending : Sending) → some_sent sending 0 ≡ false
some_sent_none (taken gone) = refl
some_sent_none (failed gone) = refl

-- A client that was accepted and has sent nothing else sends a request of another method and a name: the
-- request is taken, its answer is to be sent without a byte in it, and sending no byte ends the daemon,
-- unless the last error of the system was that the other side is gone.
pub serve-unknown :
    (node : Node) (i : ℕ) (site : Site) (w : Clients) (c0 : TcpConnection) (method name : CString)
    (sending : Sending)
    → w.connections i ≡ init_connection c0
    → IsField method
    → str_eq method (codes "RDGET") ≡ false
    → str_eq method (codes "ADDFILE") ≡ false
    → IsField name
    → length (named_request method name) < max_buf
    → peer_gone sending ≡ false
    → (w1 : Clients) × (flask_request_handler node (bytes_read (named_request method name)) i site w
        ≡ some (site, w1, true))
      × ((w1.connections i).response_index ≡ 0)
      × (flask_response_handler sending i w1 ≡ none)
unfolding build_response respond_method measured c_str zeros
serve-unknown node i site w c0 method name sending at hm get add h fits there =
    let buf = named_request method name in
    let c = received c0 buf in
    let (p, processed, holds, path) =
      process_buffer-named c method name (zeros (max_buf - length buf - 1))
        (received-IsFresh c0 buf) hm add h refl in
    let ok : p.status == 200 ≡ true = ground (arith, holds.status) in
    let empty : p.response ≡ zeros max_buf = holds.response ∙ unfold init_connection in refl in
    let shown : c_str p.response ≡ some [] = rw empty refl in
    let c' = record p { response_index = 0 } in
    let built : build_response node site p ≡ some (site, c') =
      rw (ok, holds.method_is, get, add, shown) refl in
    let here_at : (write w.connections i c') i ≡ c' = ground arith in
    (
      waiting i w c',
      request-waiting node buf i site site w c0 p c' at
          (omega (arith, length-append {0} method (b' ' ∷ measured_text name))) fits processed
          built,
      ap (λ (x : TcpConnection). x.response_index) here_at,
      unfold flask_response_handler in rw (here_at, some_sent_none sending, there) refl,
    )
