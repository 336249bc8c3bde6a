-- ===== src/Engine/Ticks.antt =====
-- rd/engine_actions.c: what a timeout does to `iterations` and to the sequence number.
use p.Prelude.{
  ℕ, ◌+◌, ◌-◌, ◌≡◌, refl, ap, ◌∙◌, subst, not, ◌&&◌, List, some, ◌==◌, leb, Option-cases,
  Bool-cases, inl, inr, if◌then◌else◌, add32,
}
use mathlib.Core.Option.{some-injective}
use p.Tables.{DirectLinks}
use p.Lsa.Header.{type_lsa}
use p.Routing.{retransmit_time}
use p.Flooding.{flood}
use p.Engine.Runs.{retry_block}
use p.Engine.{
  Engine, flooding_period, flood_entries, flood_all, retransmit_all, retransmit_entries, on_timeout,
}

-- What a timeout does to the two counts.
pub record Ticks (e e' : Engine) : Type 0 where
  pub iterations : e'.iterations ≡ (if e.iterations == flooding_period then 1 else e.iterations + 1)
  pub sequence :
      e'.sequence_number
      ≡ (if e.iterations == flooding_period then add32 e.sequence_number 1 else e.sequence_number)

flood_all-counts :
    (dl : DirectLinks) (id : ℕ) (unset : List ℕ) (e e' : Engine)
    → flood_all dl id unset e ≡ some e'
    → (e'.iterations ≡ 0) × (e'.sequence_number ≡ add32 e.sequence_number 1)
unfolding flood_all
flood_all-counts dl id unset e e' run =
    elim (Option-cases (flood type_lsa dl e.ol id e.sequence_number unset e.net)) [
      | inl a ↦ absurd (cc (rw a at run))
      | inr (s, a) ↦ elim (Option-cases (flood_entries (s.rt.num_entry - 1) 1 dl s)) [
        | inl b ↦ absurd (cc (rw (a, b) at run))
        | inr (s', b) ↦
            subst
              (λ (x : Engine). (x.iterations ≡ 0) × (x.sequence_number ≡ add32 e.sequence_number 1))
              (some-injective _ _ (rw (a, b) at run)) (refl, refl)
      ]
    ]

retrying-counts :
    (dl : DirectLinks) (e e' : Engine)
    → retry_block dl e ≡ some e'
    → (e'.iterations ≡ e.iterations + 1) × (e'.sequence_number ≡ e.sequence_number)
unfolding retransmit_all
retrying-counts dl e e' run =
    elim (Bool-cases (not (e.iterations == 0) && leb e.iterations retransmit_time)) [
      | inr idle ↦
          subst
            (λ (x : Engine).
              (x.iterations ≡ e.iterations + 1) × (x.sequence_number ≡ e.sequence_number))
            (some-injective _ _ (rw idle at run)) (refl, refl)
      | inl retry ↦ elim (Option-cases (retransmit_entries e.net.rt.num_entry 0 dl e.net)) [
        | inl a ↦ absurd (cc (rw (retry, a) at run))
        | inr (s, a) ↦
            subst
              (λ (x : Engine).
                (x.iterations ≡ e.iterations + 1) × (x.sequence_number ≡ e.sequence_number))
              (some-injective _ _ (rw (retry, a) at run)) (refl, refl)
      ]
    ]

pub on_timeout-Ticks :
    (dl : DirectLinks) (id : ℕ) (unset : List ℕ) (e e' : Engine)
    → on_timeout dl id unset e ≡ some e'
    → Ticks e e'
unfolding on_timeout
on_timeout-Ticks dl id unset e e' run = elim (Bool-cases (e.iterations == flooding_period)) [
  | inr early ↦
      let (it, seq) = retrying-counts dl e e' (rw early at run) in
      record { iterations = rw early it; sequence = rw early seq }
  | inl time ↦ elim (Option-cases (flood_all dl id unset e)) [
    | inl a ↦ absurd (cc (rw (time, a) at run))
    | inr (e1, a) ↦
        let (it, seq) = retrying-counts dl e1 e' (rw (time, a) at run) in
        let (it1, seq1) = flood_all-counts dl id unset e e1 a in
        record { iterations = rw time (it ∙ ap (λ n. n + 1) it1); sequence = rw time (seq ∙ seq1) }
  ]
]
