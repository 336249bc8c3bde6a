-- ===== src/Loader/Objects.antt =====
-- rd/file_loader.c: `load_node_file` on a file to which an object was appended.
use p.Prelude.{
  ℕ, ◌+◌, ◌-◌, ◌<◌, ◌≡◌, refl, ◌∙◌, true, List, [], ◌∷◌, ◌++◌, some, arith, length, length-append,
  append_assoc, CString, ltb, Bool-cases, Option-cases, inl, inr, ◌>>=◌,
}
use p.Text.Tokens.{IsToken, strtok-space, strtok-end, IsToken-append}
use p.Tables.{ObjectEntry, LocalObjects, max_obj_len, max_obj_num, max_path_len}
use p.HashSet.{LisoHash, hash_add}
use p.Loader.{max_line, parse_object, read_lines, file_lines, object_loop, load_node_file}
use p.Loader.Conf.{NoNewline-append}
use p.Loader.Lines.{NoNewline, EndsLine, read_lines-line, file_lines-append}

-- A name and a path that a line can hold.
pub record IsObject (name path : CString) : Type 0 where
  pub name_token : IsToken name
  pub path_token : IsToken path
  pub name_line : NoNewline name
  pub path_line : NoNewline path
  pub name_fits : length name < max_obj_len
  pub short : length name + length path + 1 < max_line - 1

-- An object as the file gives it back: the newline of its line stays in the path.
abbrev pub reloaded : CString → CString → ObjectEntry
reloaded name path = record { name = name; path = path ++ b'\n' ∷ [] }

abbrev pub object_line : CString → CString → List ℕ
object_line name path = name ++ (b' ' ∷ (path ++ b'\n' ∷ []))

parse_object-object_line :
    (name path : CString)
    → IsObject name path
    → parse_object (object_line name path) ≡ some (reloaded name path)
unfolding parse_object
parse_object-object_line name path h =
    let last = path ++ b'\n' ∷ [] in
    let t1 = last ++ 0 ∷ [] in
    let shape : object_line name path ++ 0 ∷ [] ≡ name ++ b' ' ∷ t1 = simp append_assoc in
    let (p0, e0) = strtok-space [] name t1 h.name_token in
    let token = IsToken-append path (b'\n' ∷ []) h.path_token (omega arith) in
    let (p1, e1) = strtok-end p0 last [] token in
    let name_fits : ltb (length name) max_obj_len ≡ true = ground (arith, h.name_fits) in
    let path_fits : ltb (length last) max_path_len ≡ true =
      ground (arith, h.short, length-append {0} path (b'\n' ∷ [])) in
    rw (shape, e0, e1, name_fits, path_fits) refl

file_lines-object_line :
    (name path : CString)
    → IsObject name path
    → file_lines (object_line name path) ≡ object_line name path ∷ []
file_lines-object_line name path h =
    let text = name ++ (b' ' ∷ path) in
    let shape : object_line name path ≡ text ++ b'\n' ∷ [] = simp append_assoc in
    let whole = NoNewline-append name (b' ' ∷ path) h.name_line (omega arith, h.path_line) in
    let fits : length text < max_line - 1 =
      omega (arith, h.short, length-append {0} name (b' ' ∷ path)) in
    rw shape (read_lines-line (max_line - 1) text [] whole fits ∙ unfold read_lines in refl)

object_loop-append :
    (a b : List (List ℕ)) (ol : LocalObjects) (gol : LisoHash) (id : ℕ)
    → object_loop (a ++ b) ol gol id
      ≡ (object_loop a ol gol id >>= λ (r : LocalObjects × LisoHash). object_loop b r.0 r.1 id)
unfolding object_loop
object_loop-append [] b ol gol id = refl
object_loop-append (line ∷ a) b ol gol id = elim (Option-cases (parse_object line)) [
  | inl e ↦ rw e refl
  | inr (o, e) ↦ elim (Bool-cases (ltb (length ol) max_obj_num)) [
    | inr full ↦ rw (e, full) refl
    | inl room ↦ elim (Option-cases (hash_add gol o.name id 0)) [
      | inl d ↦ rw (e, room, d) refl
      | inr (gol', d) ↦ rw (e, room, d) (object_loop-append a b (ol ++ o ∷ []) gol' id)
    ]
  ]
]

-- Loading a file behind which the line of an object was appended: what the file gave before, and the
-- object, with its line's newline in the path.
pub load_node_file-object_line :
    (file : List ℕ) (ol0 ol : LocalObjects) (gol0 gol gol' : LisoHash) (id : ℕ)
    (name path : CString)
    → EndsLine file
    → load_node_file file ol0 gol0 id ≡ some (ol, gol)
    → IsObject name path
    → length ol < max_obj_num
    → hash_add gol name id 0 ≡ some gol'
    → load_node_file (file ++ object_line name path) ol0 gol0 id
      ≡ some (ol ++ reloaded name path ∷ [], gol')
unfolding load_node_file
load_node_file-object_line file ol0 ol gol0 gol gol' id name path ends run h room added =
    let more : ltb (length ol) max_obj_num ≡ true = ground arith in
    rw
      (
        file_lines-append file (object_line name path) ends,
        file_lines-object_line name path h,
        object_loop-append (file_lines file) (object_line name path ∷ []) ol0 gol0 id,
        run,
      )
      (unfold object_loop in rw (parse_object-object_line name path h, more, added) refl)
