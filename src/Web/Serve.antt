-- ===== src/Web/Serve.antt =====
-- rd/flask_engine.c: a request of the web server from its arrival to the bytes that are sent back.
use p.Prelude.{
  ℕ, zero, suc, ◌-◌, ◌≤◌, ◌<◌, ◌≡◌, ◌≢◌, refl, ap, ◌∙◌, Bool, true, false, List, [], ◌∷◌, ◌++◌,
  some, arith, ◌==◌, ltb, length, take, CString, write, str_eq,
}
use p.Text.{codes, zeros}
use p.Text.Tokens.{overwrite-zeros, length-zeros}
use p.Tables.{max_buf}
use p.HashSet.Invariant.{IsValid}
use p.Request.{TcpConnection, init_connection, process_buffer}
use p.Request.Fresh.{IsFresh, IsField, named_request, process_buffer-named}
use p.Web.{Node, Site, buf_size, build_response}
use p.Web.Clients.{
  Clients, bytes_read, taken, hang_up, unwatch, with_connection, answer, flask_request_handler,
  flask_response_handler,
}
use p.Web.Reply.{Answers, IsReply, GetReply, absent, here, away, build_response-get}

-- What the exchange with client `i` has done when the text was sent: the client is closed and no longer
-- watched, and the others are as they were.
pub record Serves (i : ℕ) (text : CString) (w w' : Clients) : Type 0 where
  pub sent : w'.replies ≡ w.replies ++ (i, text) ∷ []
  pub closed : w'.is_open i ≡ false
  pub unread : w'.rfds i ≡ false
  pub unwritten : w'.wfds i ≡ false
  pub others :
      (j : ℕ)
      → j ≢ i
      → (w'.connections j ≡ w.connections j)
        × (w'.is_open j ≡ w.is_open j)
        × (w'.rfds j ≡ w.rfds j)
        × (w'.wfds j ≡ w.wfds j)

-- The connection after `recv` has put the bytes into it.
abbrev pub received : TcpConnection → List ℕ → TcpConnection
received c0 buf = record (init_connection c0) {
  request = buf ++ 0 ∷ zeros (max_buf - length buf - 1);
  request_index = length buf;
  status = 200;
}

pub received-IsFresh : (c0 : TcpConnection) (buf : List ℕ) → IsFresh (received c0 buf)
unfolding init_connection
received-IsFresh c0 buf = record {
  method = refl;
  name_length = refl;
  name = refl;
  path_length = refl;
  path = refl;
}

take-all : (n : ℕ) (xs : List ℕ) → length xs ≤ n → take n xs ≡ xs
take-all zero [] h = refl
take-all zero (x ∷ xs) h = absurd (omega arith)
take-all (suc n) [] h = refl
take-all (suc n) (x ∷ xs) h = ap (λ t. x ∷ t) (take-all n xs (omega arith))

pub init_size : (c0 : TcpConnection) (buf : List ℕ) → length (received c0 buf).response ≡ max_buf
unfolding init_connection
init_size c0 buf = length-zeros max_buf

get-IsField : IsField (codes "RDGET")
get-IsField = record { token = omega arith; fits = omega arith }

GetReply-nonempty :
    (node : Node) (site : Site) (name text : CString) (status : ℕ)
    → GetReply node site name text status
    → 0 < length text
GetReply-nonempty node site name text status (absent gone same st) = rw same (omega arith)
GetReply-nonempty node site name text status
      (here p ps first path there own at proper fits short same st) =
    rw same (omega arith)
GetReply-nonempty node site name text status (away p ps k l there other entry hop fits same st) =
    rw same (omega arith)

-- The state in which the response waits to be sent.
abbrev pub waiting : ℕ → Clients → TcpConnection → Clients
waiting i w c' = record (with_connection i c' w) { wfds = write w.wfds i true }

module _ (node : Node) (buf : List ℕ) (i : ℕ) (site site' : Site) (w : Clients)
    (c0 p c' : TcpConnection) (at : w.connections i ≡ init_connection c0)
    (some_byte : 0 < length buf) (fits : length buf < max_buf)
    (processed : process_buffer (received c0 buf) ≡ some p)
    (built : build_response node site p ≡ some (site', c')) where
  -- A request that is processed and answered.
  pub request-waiting :
      flask_request_handler node (bytes_read buf) i site w ≡ some (site', waiting i w c', true)
  unfolding flask_request_handler answer
  request-waiting =
      let start : (w.connections i).request_index ≡ 0 =
        ap (λ (c : TcpConnection). c.request_index) at ∙ unfold init_connection in refl in
      let whole : take (buf_size - 0) buf ≡ buf = take-all buf_size buf (omega arith) in
      let more : length buf == 0 ≡ false = ground arith in
      let empty : (init_connection c0).request ≡ zeros max_buf = unfold init_connection in refl in
      rw (start, whole, more, at, empty, overwrite-zeros buf max_buf fits, processed, built) refl

  -- Its answer is sent, and the client is closed.
  pub response-Serves :
      (text : CString) (status : ℕ) (gone : Bool)
      → Answers text status c'
      → 0 < length text
      → (w' : Clients) × (flask_response_handler (taken gone) i (waiting i w c') ≡ some w')
        × Serves i text w w'
  unfolding flask_response_handler
  response-Serves text status gone a pos =
      let here_at : (write w.connections i c') i ≡ c' = ground arith in
      let filled : ltb 0 (length text) ≡ true = ground arith in
      let full : ltb 0 c'.response_index ≡ true = ground (arith, a.measure) in
      let bytes : take c'.response_index c'.response ≡ text =
        ap (λ n. take n c'.response) a.measure ∙ a.bytes in
      (
        unwatch i (hang_up i (record (waiting i w c') { replies = w.replies ++ (i, text) ∷ [] })),
        rw (here_at, full, bytes) refl,
        record {
          sent = refl;
          closed = ground arith;
          unread = ground arith;
          unwritten = ground arith;
          others = λ j ne. (ground arith, ground arith, ground arith, ground arith);
        },
      )

-- A question where an object is, on a valid hash table, from a client that was accepted and has sent
-- nothing else, for a name without spaces, where the request and the text of the answer fit their
-- arrays: the handler of requests, and then the handler of responses when `send` takes the bytes, run
-- without a fault; the client is sent just the text that answers the question, which is that nobody
-- has the object, that it is here, at its local path, or the neighbour that is next on the way to the
-- node on its nearest path; the client is closed, and no object and no other client changes.
pub serve-get :
    (node : Node) (i : ℕ) (site : Site) (w : Clients) (c0 : TcpConnection) (name text : CString)
    (status : ℕ) (gone : Bool)
    → w.connections i ≡ init_connection c0
    → IsValid site.net.gol
    → IsField name
    → length (named_request (codes "RDGET") name) < max_buf
    → GetReply node site name text status
    → IsReply text
    → (w1 w' : Clients) × (flask_request_handler node
          (bytes_read (named_request (codes "RDGET") name))
          i
          site
          w
        ≡ some (site, w1, true))
      × (flask_response_handler (taken gone) i w1 ≡ some w')
      × Serves i text w w'
serve-get node i site w c0 name text status gone at valid h fits asked reply =
    let buf = named_request (codes "RDGET") name in
    let c = received c0 buf in
    let (p, processed, holds, path) =
      process_buffer-named c (codes "RDGET") name (zeros (max_buf - length buf - 1))
        (received-IsFresh c0 buf) get-IsField (unfold str_eq in refl) h refl in
    let (c', built, a) =
      build_response-get node site p name text status valid holds.name_is
        (ap (length {A = ℕ}) holds.response ∙ init_size c0 buf)
        (ap (length {A = ℕ}) (path ∙ (received-IsFresh c0 buf).path) ∙ length-zeros max_buf) reply
        holds.method_is holds.status asked in
    let (w', run, served) =
      response-Serves node buf i site site w c0 p c' at (omega arith) fits processed built text
        status gone a (GetReply-nonempty node site name text status asked) in
    (
      waiting i w c',
      w',
      request-waiting node buf i site site w c0 p c' at (omega arith) fits processed built,
      run,
      served,
    )
