-- ===== src/Web/Keeps.antt =====
-- rd/flask_engine.c: what every call of `build_response` keeps, whatever the connection holds.
use p.Prelude.{
  ℕ, ◌≡◌, refl, sym, subst, Option, none, some, [], ◌∷◌, ◌++◌, arith, ◌==◌, CString, str_eq,
  Option-cases, Bool-cases, inl, inr,
}
use p.HashSet.{Pair, hash_add, contains_object}
use p.HashSet.Invariant.{IsValid}
use p.HashSet.Add.{hash_add-Adds}
use p.Routing.{RoutingTable}
use p.Flooding.Routed.{NodeUp, PathsUp, hash_add-PathsUp}
use p.HashSet.Names.{
  AllStored, AllStored-keep, AllStored-append, hash_add-KeepsNames, hash_add-stored,
}
use p.Tables.{ObjectEntry}
use p.Text.{codes, c_str}
use p.Request.{TcpConnection}
use p.Web.{
  Node, Site, add_object, respond_pair, respond_add, respond_method, respond_error, build_response,
}

-- The hash table stays valid, its new paths lead to the node `id`, the local objects stay in it, and the routing table is as it was.
pub record KeepsNet (id : ℕ) (site site' : Site) : Type 0 where
  pub valid : IsValid site.net.gol → IsValid site'.net.gol
  pub routes : site'.net.rt ≡ site.net.rt
  pub sent : site'.net.sent ≡ site.net.sent
  pub paths :
      (rt : RoutingTable)
      → NodeUp rt id
      → IsValid site.net.gol
      → PathsUp rt site.net.gol
      → PathsUp rt site'.net.gol
  pub stored :
      IsValid site.net.gol → AllStored site.ol site.net.gol → AllStored site'.ol site'.net.gol

pub same_net : (id : ℕ) (site : Site) → KeepsNet id site site
same_net id site = record {
  valid = λ v. v;
  routes = refl;
  sent = refl;
  paths = λ rt own v known. known;
  stored = λ v all. all;
}

add_object-KeepsNet :
    (node : Node) (site site' : Site) (name path : CString)
    → add_object node site name path ≡ some site'
    → KeepsNet node.my_node_id site site'
unfolding add_object
add_object-KeepsNet node site site' name path e =
    elim (Option-cases (hash_add site.net.gol name node.my_node_id 0)) [
      | inl d ↦ absurd (cc (e, d))
      | inr (gol, d) ↦
          let at : site'.net.gol ≡ gol = ground arith in
          let lists : site'.ol ≡ site.ol ++ record { name = name; path = path } ∷ [] =
            ground arith in
          record {
            valid = λ v.
                subst IsValid (sym at)
                  (hash_add-Adds site.net.gol name node.my_node_id 0 v d).valid;
            routes = ground arith;
            sent = ground arith;
            paths = λ rt own v known.
                subst (PathsUp rt) (sym at)
                  (hash_add-PathsUp rt site.net.gol gol name node.my_node_id 0 v own known d);
            stored = λ v all.
                let kept =
                  AllStored-keep site.ol site.net.gol gol
                    (hash_add-KeepsNames site.net.gol gol name node.my_node_id 0 v d) all in
                let o : ObjectEntry = record { name = name; path = path } in
                let grown =
                  AllStored-append site.ol gol o kept
                    (hash_add-stored site.net.gol gol name node.my_node_id 0 v d) in
                subst (AllStored site'.ol) (sym at)
                  (subst (λ ol. AllStored ol gol) (sym lists) grown);
          }
    ]

respond_pair-KeepsNet :
    (node : Node) (site site' : Site) (found : Option Pair) (name : CString) (c c' : TcpConnection)
    → respond_pair node site found name c ≡ some (site', c')
    → KeepsNet node.my_node_id site site'
unfolding respond_pair
respond_pair-KeepsNet node site site' (some p) name c c' e =
    let same : site ≡ site' = ground arith in
    subst (KeepsNet node.my_node_id site) same (same_net node.my_node_id site)
respond_pair-KeepsNet node site site' none name c c' e = elim (Option-cases (c_str c.path)) [
  | inl d ↦ absurd (cc (e, d))
  | inr (path, d) ↦ elim (Option-cases (add_object node site name path)) [
    | inl a ↦ absurd (cc (e, d, a))
    | inr (site1, a) ↦
        let same : site1 ≡ site' = ground arith in
        subst (KeepsNet node.my_node_id site) same (add_object-KeepsNet node site site1 name path a)
  ]
]

respond_add-KeepsNet :
    (node : Node) (site site' : Site) (c c' : TcpConnection)
    → respond_add node site c ≡ some (site', c')
    → KeepsNet node.my_node_id site site'
unfolding respond_add
respond_add-KeepsNet node site site' c c' e = elim (Option-cases (c_str c.name)) [
  | inl d ↦ absurd (cc (e, d))
  | inr (name, d) ↦
      respond_pair-KeepsNet node site site' (contains_object site.net.gol name) name c c'
        (rw d at e)
]

respond_error-KeepsNet :
    (id : ℕ) (site site' : Site) (c c' : TcpConnection)
    → respond_error site c ≡ some (site', c')
    → KeepsNet id site site'
unfolding respond_error
respond_error-KeepsNet id site site' c c' e =
    let same : site ≡ site' = ground arith in subst (KeepsNet id site) same (same_net id site)

respond_method-KeepsNet :
    (node : Node) (site site' : Site) (c c' : TcpConnection)
    → respond_method node site c ≡ some (site', c')
    → KeepsNet node.my_node_id site site'
unfolding respond_method
respond_method-KeepsNet node site site' c c' e = elim (Option-cases (c_str c.method)) [
  | inl d ↦ absurd (cc (e, d))
  | inr (method, d) ↦ elim (Bool-cases (str_eq method (codes "RDGET"))) [
    | inl a ↦
        let same : site ≡ site' = ground arith in
        subst (KeepsNet node.my_node_id site) same (same_net node.my_node_id site)
    | inr a ↦ elim (Bool-cases (str_eq method (codes "ADDFILE"))) [
      | inl b ↦ respond_add-KeepsNet node site site' c c' (rw (d, a, b) at e)
      | inr b ↦
          let same : site ≡ site' = ground arith in
          subst (KeepsNet node.my_node_id site) same (same_net node.my_node_id site)
    ]
  ]
]

pub build_response-KeepsNet :
    (node : Node) (site site' : Site) (c c' : TcpConnection)
    → build_response node site c ≡ some (site', c')
    → KeepsNet node.my_node_id site site'
unfolding build_response
build_response-KeepsNet node site site' c c' e = elim (Bool-cases (c.status == 200)) [
  | inl a ↦ elim (Option-cases (respond_method node site c)) [
    | inl d ↦ absurd (cc (e, a, d))
    | inr ((site1, c1), d) ↦
        let same : site1 ≡ site' = ground arith in
        subst (KeepsNet node.my_node_id site) same (respond_method-KeepsNet node site site1 c c1 d)
  ]
  | inr a ↦ elim (Option-cases (respond_error site c)) [
    | inl d ↦ absurd (cc (e, a, d))
    | inr ((site1, c1), d) ↦
        let same : site1 ≡ site' = ground arith in
        subst (KeepsNet node.my_node_id site) same
          (respond_error-KeepsNet node.my_node_id site site1 c c1 d)
  ]
]
