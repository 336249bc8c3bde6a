-- ===== src/Engine/Runs.antt =====
-- rd/engine_actions.c: runs of the daemon's network side, as sequences of timeouts and packets.
use p.Prelude.{
  ℕ, CString, ◌*◌, zero, suc, ◌+◌, ◌^◌, ◌≤◌, ◌<◌, ◌≡◌, subst, Bool, not, ◌&&◌, if◌then◌else◌, List,
  [], ◌∷◌, Option, some, arith, ◌==◌, leb, ltb, inl, inr, length, take, Option-cases, Bool-cases,
  ◌>>=◌,
}
use mathlib.Core.Option.{some-injective}
use p.Tables.{LinkEntry, DirectLinks}
use p.Lsa.{Lsa, lsa_size, read_int, bytes_to_packet}
use p.Routing.{retransmit_time, lookup_link_entry}
use p.Flooding.{retransmit_missing, State, max_lsa_len, datagram, rt_recvfrom, lsa_handler}
use p.Flooding.Wellformed.{IsState, handle_packet-IsState}
use p.Flooding.Retries.{retransmit_missing-Keeps}
use p.Engine.{Engine, flooding_period, retransmit_entries, retransmit_all, on_timeout}
use p.Engine.Period.{flood_all-Floods}

retransmit_entries-IsState :
    (n i : ℕ) (dl : DirectLinks) (s s' : State)
    → 0 < length dl
    → IsState dl s
    → retransmit_entries n i dl s ≡ some s'
    → IsState dl s'
unfolding retransmit_entries
retransmit_entries-IsState zero i dl s s' some_link v run =
    subst (IsState dl) (some-injective _ _ run) v
retransmit_entries-IsState (suc n) i dl s s' some_link v run =
    let size = (s.rt.table i).lsa_size in
    let from = (s.rt.table i).forwarder_id in
    elim (Option-cases (retransmit_missing i dl size from s)) [
      | inl a ↦ cc (rw a at run)
      | inr (m, a) ↦
          retransmit_entries-IsState n (i + 1) dl m s' some_link
            (retransmit_missing-Keeps dl i size from s m some_link v a).state (rw a at run)
    ]

-- The count of timeouts stays below the period, and both tables are well formed.
pub record IsEngine (dl : DirectLinks) (e : Engine) : Type 0 where
  pub state : IsState dl e.net
  pub due : e.iterations ≤ flooding_period

-- The block of the timeout behind the flooding.
abbrev pub retry_block : DirectLinks → Engine → Option Engine
retry_block dl e1 = do
  e2 ←
      if not (e1.iterations == 0) && leb e1.iterations retransmit_time
      then retransmit_all dl e1
      else some e1
  some (record e2 { iterations = e2.iterations + 1 })

retry_block-IsEngine :
    (dl : DirectLinks) (e1 e' : Engine)
    → 0 < length dl
    → IsState dl e1.net
    → e1.iterations < flooding_period
    → retry_block dl e1 ≡ some e'
    → IsEngine dl e'
unfolding retransmit_all
retry_block-IsEngine dl e1 e' some_link v lt run =
    elim (Bool-cases (not (e1.iterations == 0) && leb e1.iterations retransmit_time)) [
      | inr idle ↦
          subst (IsEngine dl) (some-injective _ _ (rw idle at run))
            (record { state = v; due = omega arith })
      | inl retry ↦ elim (Option-cases (retransmit_entries e1.net.rt.num_entry 0 dl e1.net)) [
        | inl a ↦ cc (rw (retry, a) at run)
        | inr (s, a) ↦
            let v' = retransmit_entries-IsState e1.net.rt.num_entry 0 dl e1.net s some_link v a in
            subst (IsEngine dl) (some-injective _ _ (rw (retry, a) at run))
              (record { state = v'; due = omega arith })
      ]
    ]

pub on_timeout-IsEngine :
    (own : LinkEntry) (dl : DirectLinks) (unset : List ℕ) (e e' : Engine)
    → IsEngine (own ∷ dl) e
    → on_timeout (own ∷ dl) own.id unset e ≡ some e'
    → IsEngine (own ∷ dl) e'
unfolding on_timeout
on_timeout-IsEngine own dl unset e e' v run =
    let links = own ∷ dl in
    elim (Bool-cases (e.iterations == flooding_period)) [
      | inr early ↦
          retry_block-IsEngine links e e' (omega arith) v.state (ground (arith, v.due, early))
            (rw early at run)
      | inl time ↦
          let (e1, flooded, f) = flood_all-Floods own dl unset e v.state in
          retry_block-IsEngine links e1 e' (omega arith) f.state (omega (arith, f.restarted))
            (rw (time, flooded) at run)
    ]

-- A datagram holds bytes.
abbrev pub IsBytes : List ℕ → Type 0
IsBytes [] = Unit
IsBytes (b ∷ bs) = (b < 256) × IsBytes bs

pub IsBytes-take : (n : ℕ) (bs : List ℕ) → IsBytes bs → IsBytes (take n bs)
IsBytes-take zero bs h = tt
IsBytes-take (suc n) [] h = tt
IsBytes-take (suc n) (b ∷ bs) h = (h.0, IsBytes-take n bs h.1)

read_int-lt : (bs : List ℕ) (v : ℕ) → IsBytes bs → read_int bs ≡ some v → v < 2 ^ 32
unfolding read_int
read_int-lt [] v h e = cc
read_int-lt (a ∷ []) v h e = cc
read_int-lt (a ∷ b ∷ []) v h e = cc
read_int-lt (a ∷ b ∷ c ∷ []) v h e = cc
read_int-lt (a ∷ b ∷ c ∷ d ∷ bs) v (ha, (hb, (hc, (hd, h)))) e =
    let at : a + b * 256 + c * 65536 + d * 16777216 ≡ v = some-injective _ _ e in omega arith

pub bytes_to_packet_word :
    (buf : List ℕ) (lsa : Lsa)
    → IsBytes buf
    → bytes_to_packet buf ≡ some lsa
    → lsa.version_ttl_type < 2 ^ 32
unfolding bytes_to_packet
bytes_to_packet_word buf lsa h e = elim (Option-cases (read_int buf)) [
  | inl a ↦ cc (rw a at e)
  | inr (v, a) ↦
      let same : v ≡ lsa.version_ttl_type = ground arith in
      subst (λ w. w < 2 ^ 32) same (read_int-lt buf v h a)
]

pub lsa_handler-IsState :
    (bytes : List ℕ) (address : CString) (dl : DirectLinks) (s s' : State) (accepted : Bool)
    → IsBytes bytes
    → IsState dl s
    → lsa_handler (datagram bytes address) dl s ≡ some (s', accepted)
    → IsState dl s'
unfolding lsa_handler rt_recvfrom
lsa_handler-IsState bytes address dl s s' accepted h v run =
    let buf = take max_lsa_len bytes in
    elim (Bool-cases (ltb (length buf) lsa_size)) [
      | inl short ↦ cc (rw short at run)
      | inr long ↦ elim (Option-cases (bytes_to_packet buf)) [
        | inl a ↦ cc (rw (long, a) at run)
        | inr (lsa, a) ↦ elim (Option-cases (lookup_link_entry dl address)) [
          | inl b ↦ cc (rw (long, a, b) at run)
          | inr (l, b) ↦
              handle_packet-IsState dl lsa l.id (length buf) s s' v
                (bytes_to_packet_word buf lsa (IsBytes-take max_lsa_len bytes h) a) accepted
                (rw (long, a, b) at run)
        ]
      ]
    ]

-- One round of `while (1)` that does not fault: `select` times out, or a datagram is there, which
-- `recv_handler` gives to `lsa_handler`. The rounds of the web clients are in p.Daemon.
pub data Step (own : LinkEntry) (dl : DirectLinks) (e : Engine) : Engine → Type 0 where
  timed_out :
      (unset : List ℕ) {e' : Engine}
      → on_timeout (own ∷ dl) own.id unset e ≡ some e'
      → Step own dl e e'
  received :
      (bytes : List ℕ) (address : CString) {s' : State} {accepted : Bool}
      → IsBytes bytes
      → lsa_handler (datagram bytes address) (own ∷ dl) e.net ≡ some (s', accepted)
      → Step own dl e (record e { net = s' })

pub data Runs (own : LinkEntry) (dl : DirectLinks) (e : Engine) : Engine → Type 0 where
  ready : Runs own dl e e
  later : {m e' : Engine} → Runs own dl e m → Step own dl m e' → Runs own dl e e'

Step-IsEngine :
    {own : LinkEntry} {dl : DirectLinks} {e e' : Engine}
    → IsEngine (own ∷ dl) e
    → Step own dl e e'
    → IsEngine (own ∷ dl) e'
Step-IsEngine {own} {dl} {e} v (timed_out unset {e'} run) =
    on_timeout-IsEngine own dl unset e e' v run
Step-IsEngine {own} {dl} {e} v (received bytes address {s'} {accepted} h run) = record {
  state = lsa_handler-IsState bytes address (own ∷ dl) e.net s' accepted h v.state run;
  due = v.due;
}

-- Whatever timeouts and datagrams come, and in whatever order, as long as no step faults: from a
-- well-formed state the daemon reaches well-formed states only, and its count of timeouts never
-- passes the flooding period.
pub Runs-IsEngine :
    {own : LinkEntry} {dl : DirectLinks} {e e' : Engine}
    → IsEngine (own ∷ dl) e
    → Runs own dl e e'
    → IsEngine (own ∷ dl) e'
Runs-IsEngine v ready = v
Runs-IsEngine v (later r step) = Step-IsEngine (Runs-IsEngine v r) step
