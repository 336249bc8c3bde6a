-- ===== src/Request/Short.antt =====
-- rd/flask_engine.c: `process_buffer` on a request that has too few words.
use p.Prelude.{
  ℕ, ◌≡◌, refl, List, [], ◌∷◌, ◌++◌, Option, none, some, CString, Option-cases, inl, inr, ◌⊎◌,
}
use p.Text.{strcpy}
use p.Text.Tokens.{IsToken, strtok-space, strtok-end, strtok-nul}
use p.Request.{TcpConnection, copy_tokens, process_buffer}

copy_tokens-one :
    (method : CString) (token3 token4 : Option CString) (c : TcpConnection)
    → copy_tokens method none none token3 token4 c ≡ none
unfolding copy_tokens
copy_tokens-one method token3 token4 c = elim (Option-cases (strcpy c.method method)) [
  | inl e ↦ rw e refl
  | inr (m, e) ↦ rw e refl
]

copy_tokens-two :
    (method size : CString) (token3 token4 : Option CString) (c : TcpConnection)
    → copy_tokens method (some size) none token3 token4 c ≡ none
unfolding copy_tokens
copy_tokens-two method size token3 token4 c = elim (Option-cases (strcpy c.method method)) [
  | inl e ↦ rw e refl
  | inr (m, e) ↦ elim (Option-cases (strcpy c.name_length size)) [
    | inl d ↦ rw (e, d) refl
    | inr (k, d) ↦ rw (e, d) refl
  ]
]

-- One word, or two words with a space between them, and then the end of the text.
abbrev pub IsShort : List ℕ → Type 0
IsShort request =
    ((w : CString) × (t : List ℕ) × IsToken w × (request ≡ w ++ 0 ∷ t))
    ⊎ ((w v : CString) × (t : List ℕ) × IsToken w
        × IsToken v
        × (request ≡ w ++ b' ' ∷ (v ++ 0 ∷ t)))

-- A request of one word, or of two words with a space between them, from any client and in any state of the connection, makes
-- `process_buffer` copy from a null pointer.
pub process_buffer-short : (c : TcpConnection) → IsShort c.request → process_buffer c ≡ none
unfolding process_buffer
process_buffer-short c (inl (w, t, h, request)) =
    let (p0, e0) = strtok-end [] w t h in
    let (p1, e1) = strtok-nul p0 t in
    let (p2, e2) = strtok-nul p1 t in
    let (p3, e3) = strtok-nul p2 t in
    let (p4, e4) = strtok-nul p3 t in rw (request, e0, e1, e2, e3, e4, copy_tokens-one) refl
process_buffer-short c (inr (w, v, t, h, hv, request)) =
    let (p0, e0) = strtok-space [] w (v ++ 0 ∷ t) h in
    let (p1, e1) = strtok-end p0 v t hv in
    let (p2, e2) = strtok-nul p1 t in
    let (p3, e3) = strtok-nul p2 t in
    let (p4, e4) = strtok-nul p3 t in rw (request, e0, e1, e2, e3, e4, copy_tokens-two) refl
