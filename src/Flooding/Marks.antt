-- ===== src/Flooding/Marks.antt =====
-- rd/flooding_engine.c: `lsa_handler` on an ACK of the own packet.
use p.Prelude.{
  ℕ, zero, suc, ◌+◌, ◌*◌, ◌/◌, ◌^◌, ◌<◌, ◌≡◌, ◌≢◌, refl, ap, ◌∙◌, sym, subst, true, false, List, [],
  ◌∷◌, ◌++◌, Option, some, arith, ◌==◌, length, length-append, get_elem?, append_assoc, rounds,
  write, if◌then◌else◌, Option-cases, Bool-cases, inl, inr,
}
use p.Tables.{DirectLinks}
use p.Lsa.{Lsa}
use p.Lsa.Header.{type_ack, get_type}
use p.Lsa.Header.Fields.{get_type_lem, set_type_lem}
use p.Routing.{AckChecker, AckCheckers, RoutingEntry, RoutingTable, get_routing_entry}
use p.Routing.Lookup.{get_routing_entry-Found, get_routing_entry-none}
use p.Flooding.{
  State, set_checker, set_entry_checker, acknowledge, ack_loop, is_stale, deref, handle_ack,
  handle_packet,
}
use p.Flooding.Hear.{ack_of}

-- The checkers of a node are marked.
abbrev pub marked : ℕ → List AckChecker → List AckChecker
marked f [] = []
marked f (c ∷ cs) = (if c.id == f then acknowledge c else c) ∷ marked f cs

pub length-marked : (f : ℕ) (cs : List AckChecker) → length (marked f cs) ≡ length cs
length-marked f [] = refl
length-marked f (c ∷ cs) = ap suc (length-marked f cs)

marked-append : (f : ℕ) (a b : List AckChecker) → marked f (a ++ b) ≡ marked f a ++ marked f b
marked-append f [] b = refl
marked-append f (c ∷ a) b =
    ap (λ t. (if c.id == f then acknowledge c else c) ∷ t) (marked-append f a b)

get_elem?-behind :
    (pre : List AckChecker) (c : AckChecker) (rest : List AckChecker)
    → get_elem? (pre ++ c ∷ rest) (length pre) ≡ some c
get_elem?-behind [] c rest = refl
get_elem?-behind (x ∷ pre) c rest = get_elem?-behind pre c rest

pub set_checker-behind :
    (pre : List AckChecker) (c : AckChecker) (rest : List AckChecker) (g : AckChecker → AckChecker)
    → set_checker (pre ++ c ∷ rest) (length pre) g ≡ some (pre ++ g c ∷ rest)
unfolding set_checker
set_checker-behind [] c rest g = refl
set_checker-behind (x ∷ pre) c rest g = rw (set_checker-behind pre c rest g) refl

-- A list of checkers whose count is set.
abbrev pub counted : List AckChecker → ℕ → Option AckCheckers
counted cs n = some (record { num_links = some n; checkers = cs })

-- Only the checkers of the first entry were written.
record Writes (cs : List AckChecker) (n : ℕ) (rt rt' : RoutingTable) : Type 0 where
  count : rt'.num_entry ≡ rt.num_entry
  first : rt'.table 0 ≡ record (rt.table 0) { checkers_list = counted cs n }
  others : (j : ℕ) → j ≢ 0 → rt'.table j ≡ rt.table j

ack_loop-Writes :
    (f n i : ℕ) (pre rest : List AckChecker) (rt : RoutingTable)
    → i ≡ length pre
    → (rt.table 0).checkers_list ≡ counted (marked f pre ++ rest) n
    → (rt' : RoutingTable) × (ack_loop (length rest) i (pre ++ rest) f rt ≡ some rt')
      × Writes (marked f pre ++ marked f rest) n rt rt'
unfolding ack_loop set_entry_checker
ack_loop-Writes f n i pre [] rt at list = (
  rt,
  refl,
  record {
    count = refl;
    first = ap (λ l. record (rt.table 0) { checkers_list = l }) list;
    others = λ j ne. refl;
  },
)
ack_loop-Writes f n i pre (c ∷ rest) rt at list =
    let here : get_elem? (pre ++ c ∷ rest) i ≡ some c =
      ap (get_elem? (pre ++ c ∷ rest)) at ∙ get_elem?-behind pre c rest in
    let longer : (pre ++ c ∷ []) ++ rest ≡ pre ++ c ∷ rest = simp append_assoc in
    let index : i + 1 ≡ length (pre ++ c ∷ []) =
      omega (arith, at, length-append {0} pre (c ∷ [])) in
    elim (Bool-cases (c.id == f)) [
      | inr other ↦
          let shape : marked f (pre ++ c ∷ []) ++ rest ≡ marked f pre ++ c ∷ rest =
            rw (marked-append f pre (c ∷ []), other) (simp append_assoc) in
          let shape' : marked f (pre ++ c ∷ []) ++ marked f rest
              ≡ marked f pre ++ c ∷ marked f rest =
            rw (marked-append f pre (c ∷ []), other) (simp append_assoc) in
          let (rt', run, w) =
            ack_loop-Writes f n (i + 1) (pre ++ c ∷ []) rest rt index
              (list ∙ ap (λ cs. counted cs n) (sym shape)) in
          (
            rt',
            rw (here, other) (ap (λ cs. ack_loop (length rest) (i + 1) cs f rt) (sym longer) ∙ run),
            rw other (subst (λ cs. Writes cs n rt rt') shape' w),
          )
      | inl same ↦
          let g = acknowledge c in
          let shape : marked f (pre ++ c ∷ []) ++ rest ≡ marked f pre ++ g ∷ rest =
            rw (marked-append f pre (c ∷ []), same) (simp append_assoc) in
          let shape' : marked f (pre ++ c ∷ []) ++ marked f rest
              ≡ marked f pre ++ g ∷ marked f rest =
            rw (marked-append f pre (c ∷ []), same) (simp append_assoc) in
          let rt1 : RoutingTable = record rt {
            table =
                write rt.table 0
                  (record (rt.table 0) { checkers_list = counted (marked f pre ++ g ∷ rest) n });
          } in
          let index' : i ≡ length (marked f pre) = at ∙ sym (length-marked f pre) in
          let set : set_checker (marked f pre ++ c ∷ rest) i acknowledge
              ≡ some (marked f pre ++ g ∷ rest) =
            ap (λ k. set_checker (marked f pre ++ c ∷ rest) k acknowledge) index'
            ∙ set_checker-behind (marked f pre) c rest acknowledge in
          let (rt', run, w) =
            ack_loop-Writes f n (i + 1) (pre ++ c ∷ []) rest rt1 index
              (ap (λ cs. counted cs n) (sym shape)) in
          (
            rt',
            rw (here, same, list, set)
                (ap (λ cs. ack_loop (length rest) (i + 1) cs f rt1) (sym longer) ∙ run),
            rw same (
                subst (λ cs. Writes cs n rt rt') shape'
                  (record {
                    count = w.count;
                    first = w.first;
                    others = λ j ne. w.others j ne ∙ ground (arith, ne);
                  })),
          )
    ]

-- The first entry is that of the packet's sender, and holds the packet and those checkers.
pub record Owns (lsa : Lsa) (cs : List AckChecker) (s : State) : Type 0 where
  pub some_entry : 0 < s.rt.num_entry
  pub id : (s.rt.table 0).id ≡ lsa.sender_node_id
  pub holds : (s.rt.table 0).lsa ≡ some lsa
  pub list : (s.rt.table 0).checkers_list ≡ counted cs (length cs)

pub Owns-found :
    (lsa : Lsa) (cs : List AckChecker) (s : State)
    → Owns lsa cs s
    → get_routing_entry s.rt lsa.sender_node_id ≡ some 0
Owns-found lsa cs s v = elim (Option-cases (get_routing_entry s.rt lsa.sender_node_id)) [
  | inl e ↦ absurd (get_routing_entry-none s.rt lsa.sender_node_id 0 e v.some_entry v.id)
  | inr (zero, e) ↦ e
  | inr (suc j, e) ↦
      absurd
        ((get_routing_entry-Found s.rt lsa.sender_node_id (suc j) e).first 0 (omega arith) v.id)
]

ack_type :
    (lsa : Lsa) → lsa.version_ttl_type < 2 ^ 32 → get_type (ack_of lsa).version_ttl_type ≡ type_ack
ack_type lsa word =
    let at = set_type_lem lsa.version_ttl_type type_ack word (omega arith) in
    rw at
      (get_type_lem (lsa.version_ttl_type / 2 ^ 16 * 2 ^ 16 + type_ack) (omega arith) ∙ omega arith)

is_stale-own_ack :
    (e : RoutingEntry) (lsa : Lsa)
    → e.lsa ≡ some lsa
    → is_stale (some e) type_ack (ack_of lsa) ≡ false
unfolding is_stale
is_stale-own_ack e lsa held = rw held (ground arith)

-- The ACK of the own packet from the node `f`.
pub handle_packet-marks :
    (dl : DirectLinks) (lsa : Lsa) (cs : List AckChecker) (f size : ℕ) (s : State)
    → lsa.version_ttl_type < 2 ^ 32
    → length cs < 2 ^ 31
    → Owns lsa cs s
    → (s' : State) × (handle_packet dl (ack_of lsa) f size s ≡ some (s', true))
      × Owns lsa (marked f cs) s'
      × (s'.gol ≡ s.gol)
      × (s'.sent ≡ s.sent)
unfolding handle_packet handle_ack deref
handle_packet-marks dl lsa cs f size s word few v =
    let found = Owns-found lsa cs s v in
    let (rt', run, w) = ack_loop-Writes f (length cs) 0 [] cs s.rt refl v.list in
    let all : rounds (length cs) ≡ length cs = ground arith in
    let fresh = is_stale-own_ack (s.rt.table 0) lsa v.holds in
    (
      record s { rt = rt' },
      rw (found, ack_type lsa word, fresh, v.list, all, run) refl,
      record {
        some_entry = omega (arith, w.count, v.some_entry);
        id = ap (λ (e : RoutingEntry). e.id) w.first ∙ v.id;
        holds = ap (λ (e : RoutingEntry). e.lsa) w.first ∙ v.holds;
        list =
            ap (λ (e : RoutingEntry). e.checkers_list) w.first
            ∙ ap (counted (marked f cs)) (sym (length-marked f cs));
      },
      refl,
      refl,
    )
