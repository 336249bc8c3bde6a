-- ===== src/Web/Reply.antt =====
-- rd/flask_engine.c: `build_response`, against what the web server is to be told.
use p.Prelude.{
  ℕ, ◌<◌, ◌≡◌, ◌≢◌, refl, sym, true, false, List, [], ◌∷◌, ◌++◌, some, arith, ◌==◌, length, take,
  CString, str_eq, lt→ltb,
}
use p.Text.{codes, c_str, decimal}
use p.Text.Tokens.{IsText, strcpy-c_str}
use p.Tables.{LinkEntry, max_buf}
use p.HashSet.{NodePath}
use p.HashSet.Chain.{or_nil}
use p.HashSet.Invariant.{view, IsValid, get_paths-view}
use p.Routing.{get_routing_entry, lookup_link_entry_node_id}
use p.Flooding.{deref}
use p.Request.{TcpConnection}
use p.Web.{
  Node, Site, buf_size, object_path, get_local_file_path, respond, local_uri, remote_uri, ok_text,
  respond_found, respond_paths, respond_get, respond_method, measured, build_response,
}

-- The connection is to send the text.
pub record Answers (text : CString) (status : ℕ) (c : TcpConnection) : Type 0 where
  pub status_is : c.status ≡ status
  pub measure : c.response_index ≡ length text
  pub bytes : take (length text) c.response ≡ text

-- A text that the array of the response holds.
pub record IsReply (text : CString) : Type 0 where
  pub proper : IsText text
  pub fits : length text < max_buf

pub respond-Answers :
    (status : ℕ) (text : CString) (c : TcpConnection)
    → IsReply text
    → length c.response ≡ max_buf
    → (m c' : TcpConnection) × (respond status text c ≡ some m)
      × (measured m ≡ some c')
      × Answers text status c'
unfolding respond measured
respond-Answers status text c h size =
    let (r, copied, shown, cut) = strcpy-c_str c.response text h.proper (omega (arith, h.fits)) in
    (
      record c { status = status; response = r },
      record c { status = status; response = r; response_index = length text },
      rw copied refl,
      rw shown refl,
      record { status_is = refl; measure = refl; bytes = cut },
    )

-- The uri of an object that another node has.
abbrev pub next_uri : LinkEntry → CString → CString
next_uri l name =
    codes "http://"
    ++ (l.host ++ (codes ":" ++ (decimal l.server_p ++ (codes "/static/f/" ++ name))))

-- The answer to the question where an object is: that nobody has it, that it is here, at its local
-- path, or the neighbour that is next on the way to the node that has it.
pub data GetReply (node : Node) (site : Site) (name text : CString) (status : ℕ) : Type 0 where
  absent :
      or_nil (view site.net.gol name) ≡ []
      → text ≡ codes "NOTFOUND 0 "
      → status ≡ 404
      → GetReply node site name text status
  here :
      (p : NodePath) (ps : List NodePath) (first : ℕ) (path : CString)
      → or_nil (view site.net.gol name) ≡ p ∷ ps
      → p.node_id ≡ node.my_node_id
      → object_path site.ol name ≡ first ∷ path
      → IsText (first ∷ path)
      → length (node.my_uri ++ first ∷ path) < buf_size
      → length (first ∷ path) < max_buf
      → text ≡ ok_text (node.my_uri ++ first ∷ path)
      → status ≡ 200
      → GetReply node site name text status
  away :
      (p : NodePath) (ps : List NodePath) (k : ℕ) (l : LinkEntry)
      → or_nil (view site.net.gol name) ≡ p ∷ ps
      → p.node_id ≢ node.my_node_id
      → get_routing_entry site.net.rt p.node_id ≡ some k
      → lookup_link_entry_node_id node.dl (site.net.rt.table k).nexthop ≡ some l
      → length (next_uri l name) < buf_size
      → text ≡ ok_text (next_uri l name)
      → status ≡ 200
      → GetReply node site name text status

module _ (node : Node) (site : Site) (c : TcpConnection) (name text : CString) (status : ℕ)
    (valid : IsValid site.net.gol) (named : c_str c.name ≡ some name)
    (room : length c.response ≡ max_buf) (path_room : length c.path ≡ max_buf)
    (reply : IsReply text) where
  respond_get-Answers :
      GetReply node site name text status
      → (m c' : TcpConnection) × (respond_get node site c ≡ some m)
        × (measured m ≡ some c')
        × Answers text status c'
  unfolding respond_get respond_paths respond_found
  respond_get-Answers (absent gone same st) =
      let found = get_paths-view site.net.gol name valid in
      let (m, c', run, shown, a) = respond-Answers status text c reply room in
      (m, c', rw (named, found, gone, sym same, sym st) run, shown, a)
  respond_get-Answers (here p ps first path there own located proper fits short same st) =
      let found = get_paths-view site.net.gol name valid in
      let is_own : p.node_id == node.my_node_id ≡ true = ground arith in
      let (a, copied, read, cut) =
        strcpy-c_str c.path (first ∷ path) proper (omega (arith, short)) in
      let at = record c { path = a } in
      let locating : get_local_file_path site.ol c ≡ some at =
        unfold get_local_file_path in rw (named, located, copied) refl in
      let uri : local_uri node (first ∷ path) ≡ some (node.my_uri ++ first ∷ path) =
        unfold local_uri in rw (lt→ltb _ _ fits) refl in
      let (m, c', run, shown, b) = respond-Answers status text at reply room in
      (m, c', rw (named, found, there, is_own, locating, read, uri, sym same, sym st) run, shown, b)
  respond_get-Answers (away p ps k l there other entry hop fits same st) =
      let found = get_paths-view site.net.gol name valid in
      let is_other : p.node_id == node.my_node_id ≡ false = ground arith in
      let uri : remote_uri node site p.node_id name ≡ some (next_uri l name) =
        unfold remote_uri deref in rw (entry, hop, lt→ltb _ _ fits) refl in
      let (m, c', run, shown, b) = respond-Answers status text c reply room in
      (m, c', rw (named, found, there, is_other, named, uri, sym same, sym st) run, shown, b)

  -- `build_response` on the method RDGET.
  pub build_response-get :
      c_str c.method ≡ some (codes "RDGET")
      → c.status ≡ 200
      → GetReply node site name text status
      → (c' : TcpConnection) × (build_response node site c ≡ some (site, c'))
        × Answers text status c'
  unfolding build_response respond_method str_eq
  build_response-get method good asked =
      let (m, c', run, shown, b) = respond_get-Answers asked in
      let ok : c.status == 200 ≡ true = ground arith in (c', rw (ok, method, run, shown) refl, b)
