-- ===== src/Web.antt =====
-- rd/flask_engine.c: the response to a request of the web server. `none` is undefined behaviour.
pub mod Clients
pub mod Reply
pub mod Serve
pub mod Add
pub mod Put
pub mod Reload
pub mod Keeps
pub mod Counts
pub mod Unknown
use p.Prelude.{
  ℕ, ◌+◌, Bool, List, [], ◌∷◌, ◌++◌, Option, none, some, ◌==◌, ltb, if◌then◌else◌, length, CString,
  str_eq, ◌>>=◌, ◌>>◌, defined,
}
use p.Text.{
  codes, zeros, overwrite, c_str, strcpy, strncpy_to, Scanner, scanning, strtok, atoi, decimal,
}
use p.Tables.{
  LinkEntry, DirectLinks, ObjectEntry, LocalObjects, max_buf, max_obj_num, max_obj_len,
  max_path_len,
}
use p.Request.{TcpConnection}
use p.HashSet.{NodePath, Pair, get_paths, contains_object, hash_add}
use p.Routing.{get_routing_entry, lookup_link_entry_node_id}
use p.Flooding.{State, deref}

-- rd/constants.h
abbrev pub buf_size : ℕ
buf_size = 1024

-- What the daemon knows of itself: `dl`, `my_node_id` and `my_uri` of rd/rd.c.
pub record Node : Type 0 where
  pub dl : DirectLinks
  pub my_node_id : ℕ
  pub my_uri : CString

-- What the requests read and change: the tables, and the bytes of the file that `filefile` names.
pub record Site : Type 0 where
  pub net : State
  pub ol : LocalObjects
  pub filefile : List ℕ

-- The loop of `get_local_file_path`: the path of the first object of that name, or the empty one.
unfoldable pub object_path : LocalObjects → CString → CString
object_path [] name = []
object_path (o ∷ os) name = if str_eq name o.name then o.path else object_path os name

unfoldable pub get_local_file_path : LocalObjects → TcpConnection → Option TcpConnection
unfolding object_path
get_local_file_path ol connection = do
  name ← c_str connection.name
  path ← strcpy connection.path (object_path ol name)
  some (record connection { path = path })

-- `sprintf` of a text into the response.
unfoldable pub respond : ℕ → CString → TcpConnection → Option TcpConnection
respond status text connection = do
  response ← strcpy connection.response text
  some (record connection { status = status; response = response })

-- `sprintf` into `uri`, which has `buf_size` bytes.
abbrev pub fits_uri : CString → Option CString
fits_uri uri = do defined (ltb (length uri) buf_size); some uri

-- The uri of an object of this node. Where the path is missing `uri` is not set, and the `strlen` that
-- follows reads it.
unfoldable pub local_uri : Node → CString → Option CString
local_uri node [] = none
local_uri node (c ∷ path) = fits_uri (node.my_uri ++ c ∷ path)

-- The uri of an object of another node, at the neighbour that is next on the way.
unfoldable pub remote_uri : Node → Site → ℕ → CString → Option CString
remote_uri node site node_id name = do
  r_entry ← deref site.net.rt (get_routing_entry site.net.rt node_id)
  l_entry ← lookup_link_entry_node_id node.dl r_entry.nexthop
  fits_uri (
      codes "http://"
      ++ (l_entry.host
          ++ (codes ":" ++ (decimal l_entry.server_p ++ (codes "/static/f/" ++ name)))))

abbrev pub ok_text : CString → CString
ok_text uri = codes "OK " ++ (decimal (length uri) ++ (codes " " ++ (uri ++ codes " ")))

-- The branch of an object that was found.
unfoldable pub respond_found : Node → Site → NodePath → TcpConnection → Option TcpConnection
respond_found node site obj connection =
    if obj.node_id == node.my_node_id
    then (do
      located ← get_local_file_path site.ol connection
      path ← c_str located.path
      uri ← local_uri node path
      respond 200 (ok_text uri) located)
    else (do
      name ← c_str connection.name
      uri ← remote_uri node site obj.node_id name
      respond 200 (ok_text uri) connection)

-- The two branches on the path that `get_paths` returned.
unfoldable pub respond_paths : Node → Site → List NodePath → TcpConnection → Option TcpConnection
respond_paths node site [] connection = respond 404 (codes "NOTFOUND 0 ") connection
respond_paths node site (obj ∷ rest) connection = respond_found node site obj connection

-- The branch of the method RDGET.
unfoldable pub respond_get : Node → Site → TcpConnection → Option TcpConnection
respond_get node site connection = do
  name ← c_str connection.name
  respond_paths node site (get_paths site.net.gol name) connection

-- `fprintf(fp, "%s %s\n", …)`
abbrev pub file_line : CString → CString → List ℕ
file_line name path = name ++ (b' ' ∷ (path ++ b'\n' ∷ []))

-- The addition of an object: to the hash table, to the local objects, and to the file.
unfoldable pub add_object : Node → Site → CString → CString → Option Site
add_object node site name path = do
  gol ← hash_add site.net.gol name node.my_node_id 0
  defined (ltb (length site.ol) max_obj_num)
  defined (ltb (length name) max_obj_len)
  defined (ltb (length path) max_path_len)
  some (record {
    net = record site.net { gol = gol };
    ol = site.ol ++ record { name = name; path = path } ∷ [];
    filefile = site.filefile ++ file_line name path;
  })

-- The two branches on the pair that `contains_object` returned.
unfoldable pub respond_pair :
    Node → Site → Option Pair → CString → TcpConnection → Option (Site × TcpConnection)
respond_pair node site (some p) name connection = do
  answered ← respond 500 (codes "ERROR 19 File already exists ") connection
  some (site, answered)
respond_pair node site none name connection = do
  path ← c_str connection.path
  site' ← add_object node site name path
  answered ← respond 200 (codes "OK 0 ") connection
  some (site', answered)

-- The branch of the method ADDFILE.
unfoldable pub respond_add : Node → Site → TcpConnection → Option (Site × TcpConnection)
respond_add node site connection = do
  name ← c_str connection.name
  respond_pair node site (contains_object site.net.gol name) name connection

-- `response_index = strlen(response)`
unfoldable pub measured : TcpConnection → Option TcpConnection
measured connection = do
  response ← c_str connection.response
  some (record connection { response_index = length response })

-- The branches on the method; any other method leaves the response as it is.
unfoldable pub respond_method : Node → Site → TcpConnection → Option (Site × TcpConnection)
respond_method node site connection = do
  method ← c_str connection.method
  if str_eq method (codes "RDGET")
      then (do c ← respond_get node site connection; some (site, c))
      else if str_eq method (codes "ADDFILE")
      then respond_add node site connection
      else some (site, connection)

unfoldable pub respond_error : Site → TcpConnection → Option (Site × TcpConnection)
respond_error site connection = do
  c ← respond connection.status (codes "ERROR 21 Internal Server Error ") connection
  some (site, c)

unfoldable pub build_response : Node → Site → TcpConnection → Option (Site × TcpConnection)
build_response node site connection = do
  (site', c) ←
      if connection.status == 200
      then respond_method node site connection
      else respond_error site connection
  answered ← measured c
  some (site', answered)
