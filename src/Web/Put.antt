-- ===== src/Web/Put.antt =====
-- rd/flask_engine.c: the request to add an object, from its arrival to the bytes that are sent back, and
-- the question for that object after it.
use p.Prelude.{
  ℕ, ◌-◌, ◌<◌, ◌≡◌, ◌≢◌, refl, ap, ◌∙◌, sym, subst, Bool, true, false, [], ◌∷◌, ◌++◌, none, some,
  arith, length, length-append, CString, str_eq, str_eq_iff, str_eq_refl,
}
use p.Text.{codes, zeros, decimal}
use p.Text.Tokens.{IsText, IsText-append, IsToken-IsWord, IsWord-IsText}
use p.Text.Decimal.{decimal-IsToken}
use p.Tables.{LocalObjects, max_buf}
use p.HashSet.{LisoHash}
use p.HashSet.Chain.{or_nil}
use p.HashSet.Invariant.{view, is_some, IsValid}
use p.Request.{TcpConnection, init_connection}
use p.Request.Fresh.{IsField, add_request, named_request, process_buffer-add}
use p.Web.{Node, Site, buf_size, object_path, ok_text}
use p.Web.Clients.{Clients, bytes_read, taken, flask_request_handler, flask_response_handler}
use p.Web.Reply.{IsReply, GetReply, here}
use p.Web.Serve.{
  Serves, received, received-IsFresh, init_size, waiting, request-waiting, response-Serves,
  serve-get,
}
use p.HashSet.Names.{KeepsNames, AllStored, AllStored-keep, AllStored-append}
use p.Web.Add.{Added, HasSpace, build_response-add}

-- A request to add an object, from a client that was accepted and has sent nothing else.
pub serve-add :
    (node : Node) (i : ℕ) (site : Site) (w : Clients) (c0 : TcpConnection) (name path : CString)
    (gone : Bool)
    → w.connections i ≡ init_connection c0
    → IsValid site.net.gol
    → view site.net.gol name ≡ none
    → HasSpace site name path
    → IsField name
    → IsField path
    → length (add_request name path) < max_buf
    → (site' : Site) × (w1 w' : Clients) × (flask_request_handler node
          (bytes_read (add_request name path))
          i
          site
          w
        ≡ some (site', w1, true))
      × (flask_response_handler (taken gone) i w1 ≡ some w')
      × Added node name path site site'
      × Serves i (codes "OK 0 ") w w'
serve-add node i site w c0 name path gone at valid missing space h hp fits =
    let buf = add_request name path in
    let c = received c0 buf in
    let (p, processed, holds, located) =
      process_buffer-add c name path (zeros (max_buf - length buf - 1)) (received-IsFresh c0 buf) h
        hp refl in
    let (site', c', built, added, a) =
      build_response-add node site name path valid missing space p holds.method_is holds.name_is
        located holds.status (ap (length {A = ℕ}) holds.response ∙ init_size c0 buf) in
    let (w', run, served) =
      response-Serves node buf i site site' w c0 p c' at (omega arith) fits processed built
        (codes "OK 0 ") 200 gone a (omega arith) in
    (
      site',
      waiting i w c',
      w',
      request-waiting node buf i site site' w c0 p c' at (omega arith) fits processed built,
      run,
      added,
      served,
    )

-- The loop over the objects finds the one that was added last.
object_path-append :
    (ol : LocalObjects) (gol : LisoHash) (name path : CString)
    → AllStored ol gol
    → view gol name ≡ none
    → object_path (ol ++ record { name = name; path = path } ∷ []) name ≡ path
unfolding object_path
object_path-append [] gol name path h missing = ground (arith, str_eq_refl name)
object_path-append (o ∷ ol) gol name path h missing =
    let other : str_eq name o.name ≡ false = ground (arith, str_eq_iff name o.name, h.0, missing) in
    rw other (object_path-append ol gol name path h.1 missing)

-- The uri of an object of this node, with its length, in the array of the response.
ok_text-IsReply :
    (uri : CString)
    → IsText uri
    → length (ok_text uri) < max_buf
    → (length uri < buf_size) × IsReply (ok_text uri)
ok_text-IsReply uri h fits =
    let number = decimal (length uri) in
    let rest = codes " " ++ (uri ++ codes " ") in
    let short : length uri < buf_size =
      omega (arith, fits, length-append {0} number rest, length-append {0} uri (codes " ")) in
    let shown : IsText number =
      IsWord-IsText number
        (IsToken-IsWord number (decimal-IsToken (length uri) (omega (arith, short)))) in
    let tail = IsText-append uri (codes " ") h (omega arith) in
    (
      short,
      record {
        proper =
            IsText-append (codes "OK ") (number ++ rest) (omega arith)
              (IsText-append number rest shown (omega arith, tail));
        fits = fits;
      },
    )

named_request-shorter :
    (name path : CString)
    → length (add_request name path) < max_buf
    → length (named_request (codes "RDGET") name) < max_buf
named_request-shorter name path h =
    let number = decimal (length name) in
    let rest = b' ' ∷ (decimal (length path) ++ b' ' ∷ path) in
    omega (
      arith,
      h,
      length-append {0} number (b' ' ∷ name),
      length-append {0} number (b' ' ∷ (name ++ rest)),
      length-append {0} name rest,
    )

-- The answer to a question for an object that was just added.
Added-GetReply :
    (node : Node) (site site' : Site) (name path : CString)
    → AllStored site.ol site.net.gol
    → view site.net.gol name ≡ none
    → IsField path
    → length (node.my_uri ++ path) < buf_size
    → Added node name path site site'
    → GetReply node site' name (ok_text (node.my_uri ++ path)) 200
Added-GetReply node site site' name [] stored missing h short added = absurd h.token
Added-GetReply node site site' name (first ∷ path) stored missing h short added =
    here (record { node_id = node.my_node_id; cost = 0 }) [] first path (ap or_nil added.stored)
      refl
      (ap (λ ol. object_path ol name) added.listed
        ∙ object_path-append site.ol site.net.gol name (first ∷ path) stored missing)
      (IsWord-IsText (first ∷ path) (IsToken-IsWord (first ∷ path) h.token)) short h.fits refl refl

-- On a valid hash table that has all local objects, a client that was accepted and has sent nothing else
-- asks to add an object that nobody has, with a name and a path without spaces, where there is room
-- for it, the request fits its array, and `send` takes the bytes: the object is stored at cost 0 and
-- no other changes, it is put behind the local objects and behind the file, and the client is sent
-- `OK 0 `. Another such client that asks for the object after it is sent the own uri followed by the
-- object's path, where the array of the response holds that. Both are closed, no handler has a fault,
-- and the table still has all local objects.
pub add-get :
    (node : Node) (i j : ℕ) (site : Site) (w : Clients) (c0 c1 : TcpConnection)
    (name path : CString) (gone gone' : Bool)
    → i ≢ j
    → w.connections i ≡ init_connection c0
    → w.connections j ≡ init_connection c1
    → IsValid site.net.gol
    → AllStored site.ol site.net.gol
    → view site.net.gol name ≡ none
    → HasSpace site name path
    → IsField name
    → IsField path
    → length (add_request name path) < max_buf
    → IsText node.my_uri
    → length (ok_text (node.my_uri ++ path)) < max_buf
    → (site' : Site) × (w1 w2 w3 w4 : Clients) × (flask_request_handler node
          (bytes_read (add_request name path))
          i
          site
          w
        ≡ some (site', w1, true))
      × (flask_response_handler (taken gone) i w1 ≡ some w2)
      × Added node name path site site'
      × Serves i (codes "OK 0 ") w w2
      × (flask_request_handler node (bytes_read (named_request (codes "RDGET") name)) j site' w2
          ≡ some (site', w3, true))
      × (flask_response_handler (taken gone') j w3 ≡ some w4)
      × Serves j (ok_text (node.my_uri ++ path)) w2 w4
      × AllStored site'.ol site'.net.gol
add-get node i j site w c0 c1 name path gone gone' ne at at' valid stored missing space h hp fits
      own short =
    let (site', w1, w2, asked, sent, added, served) =
      serve-add node i site w c0 name path gone at valid missing space h hp fits in
    let uri = node.my_uri ++ path in
    let text =
      IsText-append node.my_uri path own (IsWord-IsText path (IsToken-IsWord path hp.token)) in
    let (small, fits') = ok_text-IsReply uri text short in
    let reply = Added-GetReply node site site' name path stored missing hp small added in
    let (w3, w4, asked', sent', served') =
      serve-get node j site' w2 c1 name (ok_text uri) 200 gone'
        ((served.others j (λ e. ne (sym e))).0 ∙ at') added.valid h
        (named_request-shorter name path fits) reply fits' in
    let names : KeepsNames site.net.gol site'.net.gol =
      λ q known. ground (arith, str_eq_iff q name, added.others q, added.stored) in
    let kept : AllStored site'.ol site'.net.gol =
      subst (λ ol. AllStored ol site'.net.gol) (sym added.listed)
        (AllStored-append site.ol site'.net.gol (record { name = name; path = path })
          (AllStored-keep site.ol site.net.gol site'.net.gol names stored)
          (ap is_some added.stored)) in
    (site', w1, w2, w3, w4, asked, sent, added, served, asked', sent', served', kept)
