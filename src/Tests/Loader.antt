-- ===== src/Tests/Loader.antt =====
-- The configuration of a node with one neighbour, and a list of objects.
use p.Prelude.{◌≡◌, ◌≢◌, none, refl, [], ◌∷◌, some, arith, CString, write, ◌+◌}
use p.Text.{codes, decimal, digits}
use p.Tables.{ObjectEntry}
use p.HashSet.{LisoHash, hash_index, init_hash, contains_object, add_new, hash_add}
use p.Routing.{RoutingTable}
use p.Routing.Update.{IsTable}
use p.Flooding.Routed.{HopsLinked}
use p.Loader.{own_uri, read_lines, object_loop, load_node_conf, load_node_file}
use p.Loader.Conf.{conf_text, AreLinks, load_node_conf-conf_text}
use p.Loader.Overflow.{load_node_conf_overflows}
use p.Loader.Filled.{AreDistinct, AllUp}
use p.Loader.Objects.{IsObject, reloaded}
use p.Web.{Node, Site, add_object, file_line}
use p.Web.Reload.{add_objects, load_node_file-add_objects}
use p.Tests.Data.{lion, pig, two_links, start}

pub links_fit : AreLinks two_links
unfolding decimal digits
links_fit = (
  record {
    id_fits = omega arith;
    local_fits = omega arith;
    route_fits = omega arith;
    server_fits = omega arith;
    host_token = omega arith;
    host_line = omega arith;
    short = omega arith;
  },
  (
    record {
      id_fits = omega arith;
      local_fits = omega arith;
      route_fits = omega arith;
      server_fits = omega arith;
      host_token = omega arith;
      host_line = omega arith;
      short = omega arith;
    },
    tt,
  ),
)

pub links_differ : AreDistinct two_links
links_differ = omega arith

a_byte : conf_text two_links ≢ []
unfolding decimal digits
a_byte e = cc

load_node_conf_overflows_example : load_node_conf 0 (conf_text two_links) (codes "a") ≡ none
load_node_conf_overflows_example = load_node_conf_overflows (conf_text two_links) (codes "a") a_byte

abbrev pub uri : CString
uri = codes "http://a:5027"

pub naming : own_uri two_links (codes "a") ≡ some uri
unfolding own_uri decimal digits
naming = refl

load_node_conf-conf_text_example :
    (rt : RoutingTable) × (load_node_conf 1 (conf_text two_links) (codes "a")
      ≡ some (two_links, rt, uri))
    × IsTable two_links rt
    × HopsLinked two_links rt
    × AllUp rt
load_node_conf-conf_text_example =
    load_node_conf-conf_text 1 two_links (codes "a") uri (omega arith) links_fit links_differ
      (omega arith) naming

pub nothing_listed : load_node_file [] [] init_hash 1 ≡ some ([], init_hash)
unfolding load_node_file object_loop read_lines
nothing_listed = refl

abbrev node : Node
node = record { dl = two_links; my_node_id = 1; my_uri = uri }

abbrev site : Site
site = record { net = start; ol = []; filefile = [] }

abbrev lion_object : ObjectEntry
lion_object = record { name = lion; path = pig }

abbrev lion_table : LisoHash
lion_table = record {
  hash = write init_hash.hash (hash_index lion) (
      record { obj_name = lion; path_s = record { node_id = 1; cost = 0 } ∷ [] }
      ∷ init_hash.hash (hash_index lion));
  obj_names = write init_hash.obj_names init_hash.num_objs lion;
  num_objs = init_hash.num_objs + 1;
}

abbrev grown : Site
grown = record {
  net = record start { gol = lion_table };
  ol = lion_object ∷ [];
  filefile = file_line lion pig;
}

adding_lion : hash_add init_hash lion 1 0 ≡ some lion_table
unfolding hash_add contains_object add_new init_hash
adding_lion = refl

adding : add_objects node site (lion_object ∷ []) ≡ some grown
unfolding add_objects add_object
adding = rw adding_lion refl

lion-IsObject : IsObject lion pig
lion-IsObject = record {
  name_token = omega arith;
  path_token = omega arith;
  name_line = omega arith;
  path_line = omega arith;
  name_fits = omega arith;
  short = omega arith;
}

load_node_file-add_objects_example :
    load_node_file (file_line lion pig) [] init_hash 1 ≡ some (reloaded lion pig ∷ [], lion_table)
load_node_file-add_objects_example =
    load_node_file-add_objects (lion_object ∷ []) node site grown [] [] init_hash tt nothing_listed
      refl (lion-IsObject, tt) adding
