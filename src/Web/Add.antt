-- ===== src/Web/Add.antt =====
-- rd/flask_engine.c: the request to add an object, and what a question for it is answered then.
use p.Prelude.{
  ◌<◌, ◌≡◌, ◌≢◌, refl, true, [], ◌∷◌, ◌++◌, none, some, arith, ◌==◌, length, CString, str_eq,
  str_eq_iff, str_eq_refl, lt→ltb, Option-cases, inl, inr,
}
use p.Text.{codes, c_str}
use p.Tables.{ObjectEntry, max_buf, max_obj_num, max_obj_len, max_path_len}
use p.HashSet.{contains_object, hash_add}
use p.HashSet.Invariant.{view, IsValid, contains_object-view}
use p.HashSet.Add.{HasRoom, hash_add-Adds, hash_add_fault}
use p.Request.{TcpConnection}
use p.Web.{
  Node, Site, respond_pair, respond_add, respond_method, add_object, file_line, build_response,
}
use p.Web.Reply.{Answers, IsReply, respond-Answers}

-- What the addition of an object does.
pub record Added (node : Node) (name path : CString) (site site' : Site) : Type 0 where
  pub valid : IsValid site'.net.gol
  pub stored : view site'.net.gol name ≡ some (record { node_id = node.my_node_id; cost = 0 } ∷ [])
  pub others : (q : CString) → q ≢ name → view site'.net.gol q ≡ view site.net.gol q
  pub routes : site'.net.rt ≡ site.net.rt
  pub listed : site'.ol ≡ site.ol ++ record { name = name; path = path } ∷ []
  pub written : site'.filefile ≡ site.filefile ++ file_line name path

-- The room for another object.
pub record HasSpace (site : Site) (name path : CString) : Type 0 where
  pub table : HasRoom site.net.gol name
  pub list : length site.ol < max_obj_num
  pub text : length path < max_path_len

module _ (node : Node) (site : Site) (name path : CString) (valid : IsValid site.net.gol)
    (gone : view site.net.gol name ≡ none) (space : HasSpace site name path) where
  pub add_object-Added :
      (site' : Site) × (add_object node site name path ≡ some site')
      × Added node name path site site'
  unfolding add_object
  add_object-Added = elim (Option-cases (hash_add site.net.gol name node.my_node_id 0)) [
    | inl e ↦
        absurd (((hash_add_fault site.net.gol name node.my_node_id 0 valid).0 e).1 space.table)
    | inr (gol, e) ↦
        let adds = hash_add-Adds site.net.gol name node.my_node_id 0 valid e in
        let o : ObjectEntry = record { name = name; path = path } in
        (
          record {
            net = record site.net { gol = gol };
            ol = site.ol ++ o ∷ [];
            filefile = site.filefile ++ file_line name path;
          },
          rw (e, lt→ltb _ _ space.list, lt→ltb _ max_obj_len space.table.0, lt→ltb _ _ space.text)
              refl,
          record {
            valid = adds.valid;
            stored = ground (arith, adds.views name, str_eq_refl name, gone);
            others = λ q ne. ground (arith, adds.views q, str_eq_iff q name, ne);
            routes = refl;
            listed = refl;
            written = refl;
          },
        )
  ]

  contains-none : contains_object site.net.gol name ≡ none
  contains-none = ground (arith, contains_object-view site.net.gol name valid)

  pub build_response-add :
      (c : TcpConnection)
      → c_str c.method ≡ some (codes "ADDFILE")
      → c_str c.name ≡ some name
      → c_str c.path ≡ some path
      → c.status ≡ 200
      → length c.response ≡ max_buf
      → (site' : Site) × (c' : TcpConnection) × (build_response node site c ≡ some (site', c'))
        × Added node name path site site'
        × Answers (codes "OK 0 ") 200 c'
  unfolding build_response respond_method respond_add respond_pair str_eq
  build_response-add c method named located good room =
      let (site', run, added) = add_object-Added in
      let reply : IsReply (codes "OK 0 ") = record { proper = omega arith; fits = omega arith } in
      let (m, c', answered, shown, a) = respond-Answers 200 (codes "OK 0 ") c reply room in
      let ok : c.status == 200 ≡ true = ground arith in
      (
        site',
        c',
        rw (ok, method, named, contains-none, located, run, answered, shown) refl,
        added,
        a,
      )
