-- ===== src/Loader.antt =====
-- rd/file_loader.c: the configuration and the list of objects, read from the bytes of their files. A
-- fault, and a file that cannot be opened, is `none`.
pub mod Lines
pub mod Conf
pub mod Overflow
pub mod Filled
pub mod Objects
use p.Prelude.{
  ℕ, zero, suc, ◌+◌, ◌-◌, Bool, ◌||◌, List, [], ◌∷◌, ◌++◌, Option, none, some, ◌==◌, ltb,
  if◌then◌else◌, length, CString, write, get_elem?, ◌>>=◌, ◌>>◌, defined,
}
use p.Text.{codes, Scanner, scanning, strtok, atoi, decimal}
use p.Tables.{
  LinkEntry, DirectLinks, ObjectEntry, LocalObjects, max_nodes, max_obj_num, max_obj_len,
  max_path_len, max_buf,
}
use p.HashSet.{LisoHash, hash_add}
use p.Routing.{AckChecker, AckCheckers, RoutingEntry, RoutingTable, ack_was_received}

-- rd/constants.h
abbrev pub max_line : ℕ
max_line = 1024

abbrev pub max_uri_len : ℕ
max_uri_len = 1024

abbrev pub attach : ℕ → List (List ℕ) → List (List ℕ)
attach c [] = (c ∷ []) ∷ []
attach c (l ∷ ls) = (c ∷ l) ∷ ls

-- The lines that `fgets(line, MAX_LINE, fp)` reads one after the other: each with its newline, and of
-- `MAX_LINE - 1` bytes at most. The number is the room that is left in the present one.
unfoldable pub read_lines : ℕ → List ℕ → List (List ℕ)
read_lines room [] = []
read_lines room (c ∷ cs) =
    let last = c == b'\n' || room == 1 in
    let rest = read_lines (if last then max_line - 1 else room - 1) cs in
    if last then (c ∷ []) ∷ rest else attach c rest

abbrev pub file_lines : List ℕ → List (List ℕ)
file_lines = read_lines (max_line - 1)

-- `char *tokens[5]`
abbrev pub max_tokens : ℕ
max_tokens = 5

-- `while (i < 5)`, with the rounds left and `i`: the next token goes to place `i + 1`, a null pointer where
-- the line has no more. How the compiler lays out the variables is not in the source, so `spare`, the
-- number of words behind `tokens` that hold nothing, is a parameter. A store behind those has undefined
-- behaviour; by the standard each store behind the array has, which is `spare` at 0.
unfoldable pub store_tokens :
    ℕ → ℕ → ℕ → (ℕ → Option CString) → Scanner → Option (ℕ → Option CString)
store_tokens zero spare i tokens s = some tokens
store_tokens (suc n) spare i tokens s = do
  (token, s') ← strtok s
  defined (ltb (i + 1) (max_tokens + spare))
  store_tokens n spare (i + 1) (write tokens (i + 1) token) s'

-- A line of the configuration. A missing token is a null pointer that is read through.
unfoldable pub parse_link : ℕ → List ℕ → Option LinkEntry
parse_link spare line = do
  (token0, s) ← strtok (scanning (line ++ 0 ∷ []))
  tokens ← store_tokens 5 spare 0 (λ i. token0) s
  id_text ← tokens 0
  id ← atoi id_text
  host ← tokens 1
  defined (ltb (length host) max_buf)
  route_text ← tokens 2
  route_p ← atoi route_text
  local_text ← tokens 3
  local_p ← atoi local_text
  server_text ← tokens 4
  server_p ← atoi server_text
  some (record { id = id; host = host; local_p = local_p; route_p = route_p; server_p = server_p })

-- The routing table before anything is loaded: a variable of the file scope is all zeros.
abbrev pub blank_entry : RoutingEntry
blank_entry = record {
  id = 0;
  nexthop = 0;
  cost = 0;
  node_status = 0;
  lsa = none;
  lsa_size = 0;
  lsa_is_new = 0;
  forwarder_id = 0;
  checkers_list = none;
}

abbrev pub blank_table : ℕ → RoutingEntry
blank_table j = blank_entry

-- The entry of line `j`, whose id is `id`. After the loop over the tokens `i` is 5, so three fields are
-- set in entry 5.
unfoldable pub load_entry : ℕ → ℕ → ℕ → (ℕ → RoutingEntry) → ℕ → RoutingEntry
load_entry j id first table =
    let routed = write table j (record (table j) {
      id = id;
      nexthop = id;
      cost = if j == 0 then 0 else 1;
      node_status = 3;
      lsa = none;
    }) in
    let fifth =
      write routed 5 (record (routed 5) { lsa_is_new = 0; lsa_size = 0; forwarder_id = first }) in
    write fifth j (record (fifth j) { checkers_list = none })

-- The id of `dl->links[0]`.
abbrev pub first_id : DirectLinks → ℕ
first_id [] = 0
first_id (l ∷ ls) = l.id

-- The loop over the lines, with the links so far, which are `j` in number.
unfoldable pub conf_loop :
    ℕ → List (List ℕ) → DirectLinks → (ℕ → RoutingEntry) → Option (DirectLinks × (ℕ → RoutingEntry))
conf_loop spare [] dl table = some (dl, table)
conf_loop spare (line ∷ lines) dl table = do
  l ← parse_link spare line
  defined (ltb (length dl) max_nodes)
  let grown = dl ++ l ∷ []
  conf_loop spare lines grown (load_entry (length dl) l.id (first_id grown) table)

-- The inner loop of the second one: no link owes an ACK.
unfoldable pub initial_checkers : DirectLinks → List AckChecker
initial_checkers [] = []
initial_checkers (l ∷ ls) =
    record { id = l.id; ack_received = ack_was_received; retransmit = 0 } ∷ initial_checkers ls

-- `for (j = 0; j < num_entry; j++)`, with the rounds left and `j`.
unfoldable pub checkers_loop : ℕ → ℕ → DirectLinks → (ℕ → RoutingEntry) → ℕ → RoutingEntry
unfolding initial_checkers
checkers_loop zero j dl table = table
checkers_loop (suc n) j dl table = checkers_loop n (j + 1) dl (
    write table j (record (table j) {
      checkers_list =
          some (record { num_links = some (length dl); checkers = initial_checkers dl });
    }))

-- `dl->links[0].server_p`; an entry that was never set is all zeros.
abbrev pub first_port : DirectLinks → ℕ
first_port [] = 0
first_port (l ∷ ls) = l.server_p

-- `sprintf(my_uri, …)`
unfoldable pub own_uri : DirectLinks → CString → Option CString
own_uri dl hostname = do
  let uri = codes "http://" ++ (hostname ++ (codes ":" ++ decimal (first_port dl)))
  defined (ltb (length uri) max_uri_len)
  some uri

-- The links, the routing table and the own uri. `hostname` is what `gethostname` writes.
unfoldable pub load_node_conf : ℕ → List ℕ → CString → Option (DirectLinks × RoutingTable × CString)
load_node_conf spare file hostname = do
  (dl, table) ← conf_loop spare (file_lines file) [] blank_table
  uri ← own_uri dl hostname
  some (dl, record { table = checkers_loop (length dl) 0 dl table; num_entry = length dl }, uri)

-- A line of the list of objects.
unfoldable pub parse_object : List ℕ → Option ObjectEntry
parse_object line = do
  (token0, s0) ← strtok (scanning (line ++ 0 ∷ []))
  (token1, s1) ← strtok s0
  name ← token0
  path ← token1
  defined (ltb (length name) max_obj_len)
  defined (ltb (length path) max_path_len)
  some (record { name = name; path = path })

unfoldable pub object_loop :
    List (List ℕ) → LocalObjects → LisoHash → ℕ → Option (LocalObjects × LisoHash)
object_loop [] ol gol my_node_id = some (ol, gol)
object_loop (line ∷ lines) ol gol my_node_id = do
  o ← parse_object line
  defined (ltb (length ol) max_obj_num)
  gol' ← hash_add gol o.name my_node_id 0
  object_loop lines (ol ++ o ∷ []) gol' my_node_id

unfoldable pub load_node_file :
    List ℕ → LocalObjects → LisoHash → ℕ → Option (LocalObjects × LisoHash)
load_node_file file ol gol my_node_id = object_loop (file_lines file) ol gol my_node_id
