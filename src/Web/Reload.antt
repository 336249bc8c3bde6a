-- ===== src/Web/Reload.antt =====
-- rd/flask_engine.c and rd/file_loader.c: the objects that the web server adds to the file, and the loading
-- of that file at the next start of the daemon.
use p.Prelude.{
  ℕ, ◌+◌, ◌<◌, ◌≡◌, refl, sym, subst, List, [], ◌∷◌, ◌++◌, Option, some, arith, length,
  length-append, CString, Option-cases, inl, inr, append_assoc, append-nil, ◌>>=◌,
}
use p.Tables.{ObjectEntry, LocalObjects, max_obj_num}
use p.HashSet.{LisoHash, hash_add}
use p.Loader.{load_node_file}
use p.Loader.Lines.{EndsLine}
use p.Loader.Objects.{IsObject, reloaded, object_line, load_node_file-object_line}
use p.Web.{Node, Site, add_object}

-- The additions of objects one after the other.
unfoldable pub add_objects : Node → Site → List ObjectEntry → Option Site
add_objects node site [] = some site
add_objects node site (o ∷ os) = do
  site' ← add_object node site o.name o.path
  add_objects node site' os

abbrev AreObjects : List ObjectEntry → Type 0
AreObjects [] = Unit
AreObjects (o ∷ os) = IsObject o.name o.path × AreObjects os

-- The objects as the file gives them back.
abbrev pub all_reloaded : List ObjectEntry → LocalObjects
all_reloaded [] = []
all_reloaded (o ∷ os) = reloaded o.name o.path ∷ all_reloaded os

EndsLine-append : (a b : List ℕ) (c : ℕ) → EndsLine (c ∷ b) → EndsLine (a ++ c ∷ b)
EndsLine-append [] b c h = h
EndsLine-append (x ∷ []) b c h = h
EndsLine-append (x ∷ y ∷ a) b c h = EndsLine-append (y ∷ a) b c h

object_line-EndsLine :
    (file : List ℕ) (name path : CString) → EndsLine (file ++ object_line name path)
object_line-EndsLine file name path =
    let shape : file ++ object_line name path ≡ (file ++ (name ++ (b' ' ∷ path))) ++ b'\n' ∷ [] =
      simp append_assoc in
    rw shape (EndsLine-append (file ++ (name ++ (b' ' ∷ path))) [] b'\n' refl)

-- One addition: the hash table and the file after it.
add_object-some :
    (node : Node) (site site' : Site) (name path : CString)
    → add_object node site name path ≡ some site'
    → (length site.ol < max_obj_num)
      × (hash_add site.net.gol name node.my_node_id 0 ≡ some site'.net.gol)
      × (length site'.ol ≡ length site.ol + 1)
      × (site'.filefile ≡ site.filefile ++ object_line name path)
unfolding add_object
add_object-some node site site' name path e =
    ground (arith, length-append {0} site.ol (record { name = name; path = path } ∷ []))

-- A daemon whose hash table, when the additions begin, is exactly what loading its file gives, so that it
-- has stored no object of a received packet since its start, and which has as many local objects as the
-- file; the file is empty or ends with a newline. The web server then adds objects, one after the other
-- and with no packet between them, that lines of the file can hold. Loading the new file gives the
-- hash table after the additions, and the objects of the old file followed by those that were added,
-- in order, each with the newline of its line in its path.
pub load_node_file-add_objects :
    (os : List ObjectEntry) (node : Node) (site site' : Site) (ol0 ol : LocalObjects)
    (gol0 : LisoHash)
    → EndsLine site.filefile
    → load_node_file site.filefile ol0 gol0 node.my_node_id ≡ some (ol, site.net.gol)
    → length ol ≡ length site.ol
    → AreObjects os
    → add_objects node site os ≡ some site'
    → load_node_file site'.filefile ol0 gol0 node.my_node_id
      ≡ some (ol ++ all_reloaded os, site'.net.gol)
unfolding add_objects
load_node_file-add_objects [] node site site' ol0 ol gol0 ends run same h e =
    ground (arith, append-nil ol, run)
load_node_file-add_objects (o ∷ os) node site site' ol0 ol gol0 ends run same h e =
    elim (Option-cases (add_object node site o.name o.path)) [
      | inl d ↦ absurd (cc (e, d))
      | inr (mid, d) ↦
          let (room, added, grown, written) = add_object-some node site mid o.name o.path d in
          let one =
            load_node_file-object_line site.filefile ol0 ol gol0 site.net.gol mid.net.gol
              node.my_node_id o.name o.path ends run h.0 (omega arith) added in
          let shape : (ol ++ reloaded o.name o.path ∷ []) ++ all_reloaded os
              ≡ ol ++ reloaded o.name o.path ∷ all_reloaded os =
            append_assoc ol _ _ in
          let rest : add_objects node mid os ≡ some site' = cc (e, d) in
          subst
            (λ xs.
              load_node_file site'.filefile ol0 gol0 node.my_node_id ≡ some (xs, site'.net.gol))
            shape
            (load_node_file-add_objects os node mid site' ol0 (ol ++ reloaded o.name o.path ∷ [])
              gol0 (subst EndsLine (sym written) (object_line-EndsLine site.filefile o.name o.path))
              (subst
                (λ file.
                  load_node_file file ol0 gol0 node.my_node_id
                  ≡ some (ol ++ reloaded o.name o.path ∷ [], mid.net.gol))
                (sym written) one)
              (omega (arith, same, grown, length-append {0} ol (reloaded o.name o.path ∷ []))) h.1
              rest)
    ]
