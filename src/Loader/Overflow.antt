-- ===== src/Loader/Overflow.antt =====
-- rd/file_loader.c: the array `tokens` of `load_node_conf`, and the stores of the loop over the tokens.
use p.Prelude.{
  ℕ, zero, suc, ◌+◌, ◌≤◌, ◌<◌, ◌≡◌, ◌≢◌, refl, List, [], ◌∷◌, Option, none, arith, CString, ltb,
  false, Option-cases, inl, inr, length, ◌++◌, write, Bool-cases, ◌-◌,
}
use p.Tables.{DirectLinks}
use p.Routing.{RoutingEntry}
use p.Text.{Scanner, scanning, strtok}
use p.Loader.{
  max_tokens, store_tokens, parse_link, conf_loop, load_node_conf, blank_table, read_lines,
  max_line, file_lines, attach,
}

-- More rounds than places from `i` on.
store_tokens_full :
    (n spare i : ℕ) (tokens : ℕ → Option CString) (s : Scanner)
    → 0 < n
    → max_tokens + spare ≤ i + n
    → store_tokens n spare i tokens s ≡ none
unfolding store_tokens
store_tokens_full zero spare i tokens s pos few = absurd (omega arith)
store_tokens_full (suc zero) spare i tokens s pos few = elim (Option-cases (strtok s)) [
  | inl e ↦ rw e refl
  | inr ((token, s'), e) ↦
      let full : ltb (i + 1) (max_tokens + spare) ≡ false = ground arith in rw (e, full) refl
]
store_tokens_full (suc (suc n)) spare i tokens s pos few = elim (Option-cases (strtok s)) [
  | inl e ↦ rw e refl
  | inr ((token, s'), e) ↦
      let rest =
        store_tokens_full (suc n) spare (i + 1) (write tokens (i + 1) token) s' (omega arith)
          (omega arith) in
      elim (Bool-cases (ltb (i + 1) (max_tokens + spare))) [
        | inl room ↦ rw (e, room) rest
        | inr full ↦ rw (e, full) refl
      ]
]

parse_link_full : (line : List ℕ) → parse_link 0 line ≡ none
unfolding parse_link
parse_link_full line = elim (Option-cases (strtok (scanning (line ++ 0 ∷ [])))) [
  | inl e ↦ rw e refl
  | inr ((token0, s), e) ↦
      rw (e, store_tokens_full 5 0 0 (λ i. token0) s (omega arith) (omega arith)) refl
]

conf_loop_full :
    (lines : List (List ℕ)) (dl : DirectLinks) (table : ℕ → RoutingEntry)
    → 0 < length lines
    → conf_loop 0 lines dl table ≡ none
unfolding conf_loop
conf_loop_full [] dl table pos = absurd (omega arith)
conf_loop_full (line ∷ lines) dl table pos = rw (parse_link_full line) refl

-- A byte is on some line.
read_lines-pos : (room c : ℕ) (cs : List ℕ) → 0 < length (read_lines room (c ∷ cs))
unfolding read_lines
read_lines-pos room c cs = ground (arith, attach-pos c)
  where
    attach-pos : (c : ℕ) (ls : List (List ℕ)) → 0 < length (attach c ls)
    attach-pos c [] = omega arith
    attach-pos c (l ∷ ls) = omega arith

-- Where not one word behind the array `tokens` is free, as the standard has it: loading any configuration
-- that is not empty has a fault, however it is written.
pub load_node_conf_overflows :
    (file : List ℕ) (hostname : CString) → file ≢ [] → load_node_conf 0 file hostname ≡ none
unfolding load_node_conf
load_node_conf_overflows [] hostname some_byte = absurd (some_byte refl)
load_node_conf_overflows (c ∷ cs) hostname some_byte =
    rw (conf_loop_full (file_lines (c ∷ cs)) [] blank_table (read_lines-pos (max_line - 1) c cs))
      refl
