-- ===== src/Loader/Conf.antt =====
-- rd/file_loader.c: `load_node_conf` on the text of a configuration.
use p.Prelude.{
  ℕ, ◌+◌, ◌-◌, true, ◌≤◌, ◌<◌, ◌^◌, ◌≡◌, refl, ap, subst, sym, ◌∙◌, List, [], ◌∷◌, ◌++◌, some,
  arith, length, length-append, append_assoc, append-nil, CString, ltb,
}
use p.Text.{digits_value, is_digit, atoi, decimal}
use p.Text.Tokens.{IsToken, strtok-space, strtok-end, strtok-nul, IsToken-append}
use p.Text.Decimal.{atoi-decimal, decimal-IsToken, decimal-AreDigits, AreDigits}
use p.Tables.{LinkEntry, DirectLinks, max_nodes, max_buf}
use p.Loader.{
  own_uri, load_node_conf, blank_table, read_lines, parse_link, file_lines, conf_loop, load_entry,
  first_id, max_line, max_tokens, store_tokens,
}
use p.Loader.Lines.{NoNewline, read_lines-line}
use p.Loader.Filled.{
  IsFilled, blank-IsFilled, load_entry-IsFilled, AreDistinct, loaded, loaded-IsTable,
  loaded-HopsLinked, AllUp, loaded-AllUp,
}
use p.Flooding.Routed.{HopsLinked}
use p.Routing.{RoutingEntry, RoutingTable}
use p.Routing.Update.{IsTable}

-- The line of a link in the configuration, without its newline.
abbrev pub conf_line : LinkEntry → CString
conf_line l =
    decimal l.id
    ++ (b' '
        ∷ (l.host
            ++ (b' '
                ∷ (decimal l.route_p
                    ++ (b' ' ∷ (decimal l.local_p ++ (b' ' ∷ decimal l.server_p)))))))

abbrev pub conf_text : DirectLinks → List ℕ
conf_text [] = []
conf_text (l ∷ ls) = conf_line l ++ b'\n' ∷ conf_text ls

-- A link that a line can hold: the numbers are ints, the host is a word, and the line fits the buffer.
pub record IsLink (l : LinkEntry) : Type 0 where
  pub id_fits : l.id < 2 ^ 31
  pub local_fits : l.local_p < 2 ^ 31
  pub route_fits : l.route_p < 2 ^ 31
  pub server_fits : l.server_p < 2 ^ 31
  pub host_token : IsToken l.host
  pub host_line : NoNewline l.host
  pub short : length (conf_line l) < max_line - 1

abbrev pub AreLinks : DirectLinks → Type 0
AreLinks [] = Unit
AreLinks (l ∷ ls) = IsLink l × AreLinks ls

atoi-alone : (n : ℕ) → n < 2 ^ 31 → atoi (decimal n) ≡ some n
atoi-alone n h =
    ap atoi (sym (append-nil (decimal n))) ∙ atoi-decimal n [] h (unfold digits_value in refl)

parse_link-conf_line :
    (spare : ℕ) (l : LinkEntry)
    → 0 < spare
    → IsLink l
    → parse_link spare (conf_line l ++ b'\n' ∷ []) ≡ some l
unfolding parse_link store_tokens
parse_link-conf_line spare l roomy h =
    let last = decimal l.server_p ++ b'\n' ∷ [] in
    let t4 = last ++ 0 ∷ [] in
    let t3 = decimal l.local_p ++ b' ' ∷ t4 in
    let t2 = decimal l.route_p ++ b' ' ∷ t3 in
    let t1 = l.host ++ b' ' ∷ t2 in
    let shape : (conf_line l ++ b'\n' ∷ []) ++ 0 ∷ [] ≡ decimal l.id ++ b' ' ∷ t1 =
      simp append_assoc in
    let (p0, e0) = strtok-space [] (decimal l.id) t1 (decimal-IsToken l.id h.id_fits) in
    let (p1, e1) = strtok-space p0 l.host t2 h.host_token in
    let (p2, e2) =
      strtok-space p1 (decimal l.route_p) t3 (decimal-IsToken l.route_p h.route_fits) in
    let (p3, e3) =
      strtok-space p2 (decimal l.local_p) t4 (decimal-IsToken l.local_p h.local_fits) in
    let token =
      IsToken-append (decimal l.server_p) (b'\n' ∷ []) (decimal-IsToken l.server_p h.server_fits)
        (omega arith) in
    let (p4, e4) = strtok-end p3 last [] token in
    let (p5, e5) = strtok-nul p4 [] in
    let stored : (i : ℕ) → i < 5 → ltb (i + 1) (max_tokens + spare) ≡ true = λ i lt. ground arith in
    let host_fits : ltb (length l.host) max_buf ≡ true =
      let tail =
        b' ' ∷ (decimal l.route_p ++ (b' ' ∷ (decimal l.local_p ++ (b' ' ∷ decimal l.server_p)))) in
      ground (
        arith,
        h.short,
        length-append {0} (decimal l.id) (b' ' ∷ (l.host ++ tail)),
        length-append {0} l.host tail,
      ) in
    rw
      (
        shape,
        e0,
        e1,
        e2,
        e3,
        e4,
        e5,
        stored 0 (omega arith),
        stored 1 (omega arith),
        stored 2 (omega arith),
        stored 3 (omega arith),
        stored 4 (omega arith),
        atoi-alone l.id h.id_fits,
        host_fits,
        atoi-alone l.route_p h.route_fits,
        atoi-alone l.local_p h.local_fits,
        atoi-decimal l.server_p (b'\n' ∷ []) h.server_fits (unfold digits_value is_digit in refl),
      )
      refl

pub NoNewline-append : (a b : CString) → NoNewline a → NoNewline b → NoNewline (a ++ b)
NoNewline-append [] b ha hb = hb
NoNewline-append (c ∷ a) b ha hb = (ha.0, NoNewline-append a b ha.1 hb)

decimal-NoNewline : (n : ℕ) → n < 2 ^ 31 → NoNewline (decimal n)
decimal-NoNewline n h = go (decimal n) (decimal-AreDigits n h)
  where
    go : (s : CString) → AreDigits s → NoNewline s
    go [] d = tt
    go (c ∷ s) d = (omega arith, go s d.2)

conf_line-NoNewline : (l : LinkEntry) → IsLink l → NoNewline (conf_line l)
conf_line-NoNewline l h = NoNewline-append (decimal l.id) _ (decimal-NoNewline l.id h.id_fits) (
  omega arith,
  NoNewline-append l.host _ h.host_line (
    omega arith,
    NoNewline-append (decimal l.route_p) _ (decimal-NoNewline l.route_p h.route_fits) (
      omega arith,
      NoNewline-append (decimal l.local_p) _ (decimal-NoNewline l.local_p h.local_fits)
          (omega arith, decimal-NoNewline l.server_p h.server_fits),
    ),
  ),
)

-- The loop over the lines of the rest of a configuration.
conf_loop-conf_text :
    (spare : ℕ) (dl ls : DirectLinks) (table : ℕ → RoutingEntry)
    → 0 < spare
    → AreLinks ls
    → IsFilled dl table
    → length dl + length ls ≤ max_nodes
    → (table' : ℕ → RoutingEntry) × (conf_loop spare (file_lines (conf_text ls)) dl table
        ≡ some (dl ++ ls, table'))
      × IsFilled (dl ++ ls) table'
unfolding conf_loop
conf_loop-conf_text spare dl [] table roomy h v fits =
    (table, unfold read_lines in rw (append-nil dl) refl, rw (append-nil dl) v)
conf_loop-conf_text spare dl (l ∷ ls) table roomy h v fits =
    let grown = dl ++ l ∷ [] in
    let next = load_entry (length dl) l.id (first_id grown) table in
    let (table', run, filled) =
      conf_loop-conf_text spare grown ls next roomy h.1
        (load_entry-IsFilled dl l (first_id grown) table v)
        (omega (arith, length-append {0} dl (l ∷ []))) in
    let whole = conf_line-NoNewline l h.0 in
    let line = read_lines-line (max_line - 1) (conf_line l) (conf_text ls) whole h.0.short in
    let room : ltb (length dl) max_nodes ≡ true = ground arith in
    let all : (dl ++ l ∷ []) ++ ls ≡ dl ++ l ∷ ls = simp append_assoc in
    (
      table',
      rw (line, parse_link-conf_line spare l roomy h.0, room)
          (run ∙ ap (λ (d : DirectLinks). some (d, table')) all),
      subst (λ (d : DirectLinks). IsFilled d table') all filled,
    )

-- A configuration of at most 150 links with different ids, written line by line, where at least one word
-- behind the array `tokens` holds nothing: loading it returns
-- just those links and the own uri, and a routing table that is well formed for them, whose next hops are
-- links, and whose nodes are all up.
pub load_node_conf-conf_text :
    (spare : ℕ) (dl : DirectLinks) (hostname : CString) (uri : CString)
    → 0 < spare
    → AreLinks dl
    → AreDistinct dl
    → length dl ≤ max_nodes
    → own_uri dl hostname ≡ some uri
    → (rt : RoutingTable) × (load_node_conf spare (conf_text dl) hostname ≡ some (dl, rt, uri))
      × IsTable dl rt
      × HopsLinked dl rt
      × AllUp rt
unfolding load_node_conf
load_node_conf-conf_text spare dl hostname uri roomy h distinct few named =
    let (table, run, filled) =
      conf_loop-conf_text spare [] dl blank_table roomy h blank-IsFilled (omega arith) in
    (
      loaded dl table,
      rw (run, named) refl,
      loaded-IsTable dl table filled distinct few,
      loaded-HopsLinked dl table filled,
      loaded-AllUp dl table filled,
    )
