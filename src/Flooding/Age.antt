-- ===== src/Flooding/Age.antt =====
-- The time to live of a packet on its way, and the cost that it gives.
use p.Prelude.{
  ℕ, ◌+◌, ◌-◌, ◌*◌, ◌/◌, ◌%◌, ◌^◌, ◌<◌, ◌≡◌, ap, ◌∙◌, arith, sub32, add32, inl, inr, Bool-cases,
  ◌==◌,
}
use p.Lsa.{Lsa, lsa_cost}
use p.Lsa.Header.{get_version, get_ttl, get_type, set_ttl}
use p.Lsa.Header.Fields.{
  get_version_lem, get_ttl_lem, get_type_lem, set_ttl_lem, set_ttl_minus_one, set_type-set_type,
}
use p.Flooding.{age_lsa}

module _ (lsa : Lsa) (word : lsa.version_ttl_type < 2 ^ 32) where
  age_word :
      (age_lsa lsa).version_ttl_type
      ≡ set_ttl lsa.version_ttl_type (sub32 (get_ttl lsa.version_ttl_type) 1)
  unfolding age_lsa
  age_word = rw (set_type-set_type lsa.version_ttl_type word)

  -- The fields of the packet before and after, as parts of its word.
  fields_from :
      (w : ℕ)
      → (age_lsa lsa).version_ttl_type ≡ w
      → w < 2 ^ 32
      → (get_ttl (age_lsa lsa).version_ttl_type ≡ w / 2 ^ 16 % 2 ^ 8)
        × (get_version (age_lsa lsa).version_ttl_type ≡ w / 2 ^ 24)
        × (get_type (age_lsa lsa).version_ttl_type ≡ w % 2 ^ 16)
  fields_from w e h = rw e (get_ttl_lem w h, get_version_lem w h, get_type_lem w h)

  -- A packet that still has time to live: one less, and the version and the type stay. The cost is
  -- what is missing from 33, one more at each hop.
  pub age_lsa_fields :
      0 < get_ttl lsa.version_ttl_type
      → let aged = age_lsa lsa in
        (get_ttl aged.version_ttl_type + 1 ≡ get_ttl lsa.version_ttl_type)
        × (get_version aged.version_ttl_type ≡ get_version lsa.version_ttl_type)
        × (get_type aged.version_ttl_type ≡ get_type lsa.version_ttl_type)
        × (lsa_cost aged ≡ add32 (lsa_cost lsa) 1)
  unfolding lsa_cost
  age_lsa_fields some_time =
      let v = lsa.version_ttl_type in
      let t = get_ttl v - 1 in
      let ttl = get_ttl_lem v word in
      let down : sub32 (get_ttl v) 1 ≡ t = omega arith in
      let e = age_word ∙ ap (set_ttl v) down ∙ set_ttl_lem v t word (omega arith) in
      let (nt, nv, ny) =
        fields_from (v / 2 ^ 24 * 2 ^ 24 + t * 2 ^ 16 + v % 2 ^ 16) e (omega arith) in
      (
        omega arith,
        omega (arith, get_version_lem v word),
        omega (arith, get_type_lem v word),
        omega arith,
      )

  -- The word of the older packet is a word.
  pub age_lsa_word : 0 < get_ttl lsa.version_ttl_type → (age_lsa lsa).version_ttl_type < 2 ^ 32
  age_lsa_word some_time =
      let v = lsa.version_ttl_type in
      let t = get_ttl v - 1 in
      let ttl = get_ttl_lem v word in
      let down : sub32 (get_ttl v) 1 ≡ t = omega arith in
      let e = age_word ∙ ap (set_ttl v) down ∙ set_ttl_lem v t word (omega arith) in
      omega (arith, e)

  pub age_lsa_wraps :
      get_ttl lsa.version_ttl_type ≡ 0
      → let aged = age_lsa lsa in
        (get_ttl aged.version_ttl_type ≡ 255)
        × (get_version aged.version_ttl_type ≡ 255)
        × (get_type aged.version_ttl_type ≡ get_type lsa.version_ttl_type)
        × (lsa_cost aged ≡ 2 ^ 32 - 222)
  unfolding lsa_cost
  age_lsa_wraps no_time =
      let v = lsa.version_ttl_type in
      let down : sub32 (get_ttl v) 1 ≡ 2 ^ 32 - 1 = omega arith in
      let e = age_word ∙ ap (set_ttl v) down ∙ set_ttl_minus_one v word in
      let (nt, nv, ny) = fields_from (0xffff * 2 ^ 16 + v % 2 ^ 16) e (omega arith) in
      (omega arith, omega arith, omega (arith, get_type_lem v word), omega arith)

  -- The type survives in either case.
  pub age_lsa-get_type : get_type (age_lsa lsa).version_ttl_type ≡ get_type lsa.version_ttl_type
  age_lsa-get_type = elim (Bool-cases (get_ttl lsa.version_ttl_type == 0)) [
    | inl none_left ↦ (age_lsa_wraps (ground arith)).2
    | inr some_left ↦ (age_lsa_fields (ground arith)).2
  ]
