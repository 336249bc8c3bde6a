-- ===== src/Tests/Web.antt =====
-- The requests of the web server, at a node with one neighbour.
use p.Prelude.{
  ◌<◌, ◌≡◌, refl, true, false, [], ◌∷◌, ◌++◌, none, some, arith, length, CString, str_eq, inl,
}
use p.Text.{codes, decimal, digits}
use p.Tables.{max_buf}
use p.HashSet.{hash_index, init_hash}
use p.HashSet.Hash.{super_fast_hash, hash_final, hash_rest, hash_loop, hash_round}
use p.HashSet.Chain.{paths_of}
use p.HashSet.Invariant.{view, init_hash-IsValid}
use p.Routing.{get_routing_entry, entry_loop, lookup_link_entry_node_id}
use p.Request.{TcpConnection, init_connection, process_buffer}
use p.Request.Fresh.{IsField, named_request, add_request}
use p.Request.Short.{process_buffer-short}
use p.Web.{Node, Site, ok_text}
use p.Web.Clients.{Clients, bytes_read, taken, flask_request_handler, flask_response_handler}
use p.Web.Reply.{IsReply, next_uri, GetReply, away}
use p.Web.Serve.{Serves, serve-get}
use p.Web.Add.{Added, HasSpace}
use p.HashSet.Names.{AllStored}
use p.Web.Put.{add-get}
use p.Web.Unknown.{serve-unknown}
use p.Daemon.{blank_connection}
use p.Tests.Data.{
  lion, pig, at_three, with_lion, with_lion-IsValid, next_link, two_links, two_nodes, start,
}

abbrev node : Node
node = record { dl = two_links; my_node_id = 1; my_uri = codes "http://a:5027" }

abbrev lion_site : Site
lion_site = record { net = record start { gol = with_lion }; ol = []; filefile = [] }

abbrev empty_site : Site
empty_site = record { net = start; ol = []; filefile = [] }

abbrev pub clients : Clients
clients = record {
  rfds = λ i. true;
  wfds = λ i. false;
  nfds = 7;
  fdmax = 8;
  connections = λ i. init_connection blank_connection;
  is_open = λ i. true;
  replies = [];
}

pub lion-IsField : IsField lion
lion-IsField = record { token = omega arith; fits = omega arith }

pig-IsField : IsField pig
pig-IsField = record { token = omega arith; fits = omega arith }

lion-stored : view with_lion lion ≡ some (at_three ∷ [])
unfolding view paths_of str_eq hash_index super_fast_hash hash_final hash_rest hash_loop hash_round
lion-stored = refl

third_entry : get_routing_entry two_nodes 3 ≡ some 1
unfolding get_routing_entry entry_loop
third_entry = refl

third_link : lookup_link_entry_node_id two_links 3 ≡ some next_link
unfolding lookup_link_entry_node_id
third_link = refl

away_reply : GetReply node lion_site lion (ok_text (next_uri next_link lion)) 200
unfolding decimal digits
away_reply =
    away at_three [] 1 next_link (rw lion-stored refl) (omega arith) third_entry third_link
      (omega arith) refl refl

away_text : IsReply (ok_text (next_uri next_link lion))
unfolding decimal digits
away_text = record { proper = omega arith; fits = omega arith }

pub asking : length (named_request (codes "RDGET") lion) < max_buf
unfolding decimal digits
asking = omega arith

serve-get_example :
    (w1 w' : Clients) × (flask_request_handler node
        (bytes_read (named_request (codes "RDGET") lion))
        8
        lion_site
        clients
      ≡ some (lion_site, w1, true))
    × (flask_response_handler (taken false) 8 w1 ≡ some w')
    × Serves 8 (ok_text (next_uri next_link lion)) clients w'
serve-get_example =
    serve-get node 8 lion_site clients blank_connection lion (ok_text (next_uri next_link lion)) 200
      false refl with_lion-IsValid lion-IsField asking away_reply away_text

no_pig : view init_hash pig ≡ none
unfolding view paths_of init_hash
no_pig = refl

space : HasSpace empty_site pig lion
unfolding init_hash
space = record { table = (omega arith, omega arith); list = omega arith; text = omega arith }

adding : length (add_request pig lion) < max_buf
unfolding decimal digits
adding = omega arith

answering : length (ok_text (node.my_uri ++ lion)) < max_buf
unfolding decimal digits
answering = omega arith

add-get_example :
    (site' : Site) × (w1 w2 w3 w4 : Clients) × (flask_request_handler node
        (bytes_read (add_request pig lion))
        7
        empty_site
        clients
      ≡ some (site', w1, true))
    × (flask_response_handler (taken false) 7 w1 ≡ some w2)
    × Added node pig lion empty_site site'
    × Serves 7 (codes "OK 0 ") clients w2
    × (flask_request_handler node (bytes_read (named_request (codes "RDGET") pig)) 8 site' w2
        ≡ some (site', w3, true))
    × (flask_response_handler (taken false) 8 w3 ≡ some w4)
    × Serves 8 (ok_text (node.my_uri ++ lion)) w2 w4
    × AllStored site'.ol site'.net.gol
add-get_example =
    add-get node 7 8 empty_site clients blank_connection blank_connection pig lion false false
      (omega arith) refl refl init_hash-IsValid tt no_pig space pig-IsField lion-IsField adding
      (omega arith) answering

abbrev other_method : CString
other_method = codes "PUT"

other_method-IsField : IsField other_method
other_method-IsField = record { token = omega arith; fits = omega arith }

unknown : length (named_request other_method pig) < max_buf
unfolding decimal digits
unknown = omega arith

not_get : str_eq other_method (codes "RDGET") ≡ false
unfolding str_eq
not_get = refl

not_add : str_eq other_method (codes "ADDFILE") ≡ false
unfolding str_eq
not_add = refl

serve-unknown_example :
    (w1 : Clients) × (flask_request_handler node
        (bytes_read (named_request other_method pig))
        8
        empty_site
        clients
      ≡ some (empty_site, w1, true))
    × ((w1.connections 8).response_index ≡ 0)
    × (flask_response_handler (taken false) 8 w1 ≡ none)
serve-unknown_example =
    serve-unknown node 8 empty_site clients blank_connection other_method pig (taken false) refl
      other_method-IsField not_get not_add pig-IsField unknown refl

abbrev short_connection : TcpConnection
short_connection = record blank_connection { request = codes "RDGET" ++ 0 ∷ [] }

process_buffer-short_example : process_buffer short_connection ≡ none
process_buffer-short_example =
    process_buffer-short short_connection (inl (codes "RDGET", [], omega arith, refl))
